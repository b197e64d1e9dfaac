-- ===== src/Execution/Run/Steps.antt =====
-- What one round of the loop of `runPublishedFlow` does to the state.
use roya_api.Prelude.{
  String, Bool, true, Option, false, ◌&&◌, List, [], ◌∷◌, ◌++◌, if◌then◌else◌, string_eq, Memᴰ, ◌≡◌,
  refl, ap, sym, append-nil, subst, ◌∙◌, inl, inr, Bool-cases,
}
use mathlib.Core.List.Memᴰ
use roya_api.Prelude.Dict.{put}
use roya_api.Prelude.Result.{Result, ok, threw, and_then-ok, ok-injective}
use roya_api.Value.{Record}
use roya_api.Execution.{
  SnapshotNode, SnapshotConnection, NodeStatus, NodeRuntime, Runtime, is_completed,
}
use roya_api.Execution.PortMerge.{ByPort, collect_incoming_by_port}
use roya_api.Execution.Upstream.{
  blocks, Propagated, check_upstream, Documents, resolve_inputs_for_node_trace,
}
use roya_api.Execution.Run.{
  ValidationIssuePayload, NodeTry, RunState, snapshot_node_display_label, node_required,
  after_execution, after_check, run_node,
}

abbrev pub is_failed : NodeStatus → Bool
is_failed NodeStatus.completed = false
is_failed NodeStatus.failed = true
is_failed NodeStatus.skipped = false

-- The nodes of a list of tries and of a list of issues.
abbrev pub try_nodes : List NodeTry → List String
try_nodes [] = []
try_nodes (t ∷ ts) = t.node_id ∷ try_nodes ts

pub try_nodes-append : (xs ys : List NodeTry) → try_nodes (xs ++ ys) ≡ try_nodes xs ++ try_nodes ys
try_nodes-append [] ys = refl
try_nodes-append (x ∷ xs) ys = ap (λ zs. x.node_id ∷ zs) (try_nodes-append xs ys)

abbrev pub issue_nodes : List ValidationIssuePayload → List String
issue_nodes [] = []
issue_nodes (i ∷ is) = i.node_id ∷ issue_nodes is

issue_nodes-append :
    (xs ys : List ValidationIssuePayload)
    → issue_nodes (xs ++ ys) ≡ issue_nodes xs ++ issue_nodes ys
issue_nodes-append [] ys = refl
issue_nodes-append (x ∷ xs) ys = ap (λ zs. x.node_id ∷ zs) (issue_nodes-append xs ys)

check_upstream-fail :
    (n : SnapshotNode) (cs : List SnapshotConnection) (runtime : Runtime) (r : Bool) (a b : String)
    → check_upstream n cs runtime r ≡ Propagated.fail a b
    → r ≡ true
unfolding check_upstream
check_upstream-fail n [] runtime r a b h = cc
check_upstream-fail n (d ∷ cs) runtime r a b h = elim (Bool-cases (blocks d runtime)) [
  | inl e ↦ elim (Bool-cases r) [ inl q ↦ q | inr q ↦ absurd (other (rw (e, q) at h)) ]
  | inr e ↦ check_upstream-fail n cs runtime r a b (rw e at h)
]
  where
    other : {c d : String} → Propagated.skip c d ≡ Propagated.fail a b → ⊥
    other h = cc

check_upstream-run :
    (n : SnapshotNode) (c : SnapshotConnection) (cs : List SnapshotConnection) (runtime : Runtime)
    (r : Bool)
    → check_upstream n cs runtime r ≡ Propagated.run
    → Memᴰ c cs
    → blocks c runtime ≡ false
unfolding check_upstream
check_upstream-run n c [] runtime r h m = absurd (Memᴰ.not-nil m)
check_upstream-run n c (d ∷ cs) runtime r h m = elim (Bool-cases (blocks d runtime)) [
  | inl e ↦ elim (Bool-cases r) [
    | inl q ↦ absurd (stopped (rw (e, q) at h))
    | inr q ↦ absurd (skipped (rw (e, q) at h))
  ]
  | inr e ↦ elim (Memᴰ.cases_cons m) [
    | inl same ↦ ap (λ x. blocks x runtime) same ∙ e
    | inr later ↦ check_upstream-run n c cs runtime r (rw e at h) later
  ]
]
  where
    stopped : {a b : String} → Propagated.fail a b ≡ Propagated.run → ⊥
    stopped h = cc

    skipped : {a b : String} → Propagated.skip a b ≡ Propagated.run → ⊥
    skipped h = cc

-- What a round for `n` with the connections `incoming` turns the state `s` into.
pub record Settles (n : SnapshotNode) (incoming : List SnapshotConnection) (s t : RunState)
    : Type 0 where
  pub rt : NodeRuntime
  pub runtime_set : t.runtime ≡ put n.node_id rt s.runtime
  pub clear :
      is_completed rt.status ≡ true
      → (c : SnapshotConnection) → Memᴰ c incoming
      → blocks c s.runtime ≡ false
  pub entry : NodeTry
  pub entry_pushed : t.node_tries ≡ s.node_tries ++ entry ∷ []
  pub entry_node : entry.node_id ≡ n.node_id
  pub entry_outcome :
      (rt.status ≡ entry.status)
      × (rt.error_code ≡ entry.error_code)
      × (rt.error_message ≡ entry.error_message)
  pub failures :
      issue_nodes t.required_failures
      ≡ issue_nodes s.required_failures
        ++ (if is_failed rt.status && node_required n then n.node_id ∷ [] else [])

module _ (execute : SnapshotNode → List SnapshotConnection → Runtime → ByPort → Result Record)
    (docs : Documents) where
  after_execution-Settles :
      (n : SnapshotNode) (incoming : List SnapshotConnection) (label : Option String)
      (inputs : Record) (r : Result Record) (s : RunState)
      → ((c : SnapshotConnection) → Memᴰ c incoming → blocks c s.runtime ≡ false)
      → Settles n incoming s (after_execution n label inputs r s)
  unfolding after_execution
  after_execution-Settles n incoming label inputs (ok outputs) s clear = record {
    rt = _;
    runtime_set = refl;
    clear = λ h. clear;
    entry = _;
    entry_pushed = refl;
    entry_node = refl;
    entry_outcome = (refl, refl, refl);
    failures = sym (append-nil _);
  }
  after_execution-Settles n incoming label inputs (threw e) s clear =
      elim (Bool-cases (node_required n)) [
        | inl req ↦ rw req (record {
          rt = _;
          runtime_set = refl;
          clear = λ h. clear;
          entry = _;
          entry_pushed = refl;
          entry_node = refl;
          entry_outcome = (refl, refl, refl);
          failures = rw req (issue_nodes-append s.required_failures _);
        })
        | inr req ↦ rw req (record {
          rt = _;
          runtime_set = refl;
          clear = λ h. clear;
          entry = _;
          entry_pushed = refl;
          entry_node = refl;
          entry_outcome = (refl, refl, refl);
          failures = rw req (sym (append-nil _));
        })
      ]

  after_check-Settles :
      (n : SnapshotNode) (incoming : List SnapshotConnection) (label : Option String)
      (inputs : Record) (p : Propagated) (s : RunState)
      → (p ≡ Propagated.run
          → (c : SnapshotConnection) → Memᴰ c incoming
          → blocks c s.runtime ≡ false)
      → ((a b : String) → p ≡ Propagated.fail a b → node_required n ≡ true)
      → Settles n incoming s (after_check execute docs n incoming label inputs p s)
  unfolding after_check
  after_check-Settles n incoming label inputs Propagated.run s clear failing =
      after_execution-Settles n incoming label inputs
        (execute n incoming s.runtime (collect_incoming_by_port incoming s.runtime)) s (clear refl)
  after_check-Settles n incoming label inputs (Propagated.fail code message) s clear failing =
      record {
        rt = _;
        runtime_set = refl;
        clear = λ h. cc;
        entry = _;
        entry_pushed = refl;
        entry_node = refl;
        entry_outcome = (refl, refl, refl);
        failures = rw (failing code message refl) (issue_nodes-append s.required_failures _);
      }
  after_check-Settles n incoming label inputs (Propagated.skip code message) s clear failing =
      record {
        rt = _;
        runtime_set = refl;
        clear = λ h. cc;
        entry = _;
        entry_pushed = refl;
        entry_node = refl;
        entry_outcome = (refl, refl, refl);
        failures = sym (append-nil _);
      }

  pub run_node-Settles :
      (n : SnapshotNode) (incoming : List SnapshotConnection) (s t : RunState)
      → run_node execute docs n incoming s ≡ ok t
      → Settles n incoming s t
  unfolding run_node
  run_node-Settles n incoming s t h =
      let (inputs, resolved, e) =
        and_then-ok (resolve_inputs_for_node_trace n incoming s.runtime docs) _ t h in
      let (label, read, e) = and_then-ok (snapshot_node_display_label n) _ t e in
      subst (Settles n incoming s) (ok-injective e) (
        after_check-Settles n incoming label inputs
          (check_upstream n incoming s.runtime (node_required n)) s
          (λ run c m. check_upstream-run n c incoming s.runtime (node_required n) run m)
          (check_upstream-fail n incoming s.runtime (node_required n)))
