-- ===== src/Execution/Run/Trace.antt =====
-- The trace of a finished run, and its required failures.
use roya_api.Prelude.{
  String, Bool, false, ◌&&◌, ◌||◌, Option, none, some, List, [], ◌∷◌, ◌++◌, if◌then◌else◌, ◌==◌,
  string_eq, Memᴰ, ◌≡◌, ap, sym, subst, ◌∙◌, inl, inr, arith, ==_iff, ==_refl, includes,
  includes-append, append_assoc, append-nil, ◌↔◌, All, All-append, All-mem, mem-All,
}
use mathlib.Core.List.Memᴰ
use roya_api.Prelude.Distinct.{Distinct}
use roya_api.Prelude.Dict.{get, put, get-put_self, get-put_other}
use roya_api.Prelude.Result.{Result, ok, ok-injective}
use roya_api.Value.{Record}
use roya_api.Execution.{SnapshotNode, SnapshotConnection, NodeRuntime, Runtime, snapshot_ids}
use roya_api.Execution.Nodes.{includes-snapshot_ids}
use roya_api.Execution.Order.{topological_order}
use roya_api.Execution.Order.Once.{topological_order-Distinct}
use roya_api.Execution.PortMerge.{ByPort}
use roya_api.Execution.Upstream.{Incoming, index_incoming, Documents}
use roya_api.Execution.Run.{NodeTry, RunState, node_required, run_nodes, run_flow}
use roya_api.Execution.Run.Steps.{Settles, try_nodes, try_nodes-append, issue_nodes, is_failed}
use roya_api.Execution.Run.Safe.{run_nodes-first, run_nodes-other}

abbrev pub entry_failed : Option NodeRuntime → Bool
entry_failed none = false
entry_failed (some rt) = is_failed rt.status

-- What the runtime has for the node of an entry of the trace.
abbrev pub Recorded : Runtime → NodeTry → Type 0
Recorded runtime e =
    (rt : NodeRuntime) × (get e.node_id runtime ≡ some rt)
    × (rt.status ≡ e.status)
    × (rt.error_code ≡ e.error_code)
    × (rt.error_message ≡ e.error_message)

module _ (execute : SnapshotNode → List SnapshotConnection → Runtime → ByPort → Result Record)
    (docs : Documents) (incoming : Incoming) where
  run_nodes-traced :
      (ns : List SnapshotNode) (s t : RunState)
      → run_nodes execute docs incoming ns s ≡ ok t
      → try_nodes t.node_tries ≡ try_nodes s.node_tries ++ snapshot_ids ns
  unfolding run_nodes
  run_nodes-traced [] s t h =
      ap (λ r. try_nodes r.node_tries) (sym (ok-injective h)) ∙ sym (append-nil _)
  run_nodes-traced (n ∷ ns) s t h =
      let (m, step, later) = run_nodes-first execute docs incoming n ns s t h in
      run_nodes-traced ns m t later
      ∙ ap (λ xs. try_nodes xs ++ snapshot_ids ns) step.entry_pushed
      ∙ ap (λ xs. xs ++ snapshot_ids ns)
          (try_nodes-append s.node_tries (step.entry ∷ [])
            ∙ ap (λ v. try_nodes s.node_tries ++ v ∷ []) step.entry_node)
      ∙ append_assoc (try_nodes s.node_tries) (n.node_id ∷ []) (snapshot_ids ns)

  -- An entry of the trace that no later round touches.
  abbrev Kept : Runtime → List SnapshotNode → NodeTry → Type 0
  Kept runtime ns e = Recorded runtime e × (includes (snapshot_ids ns) e.node_id ≡ false)

  Kept-over :
      (n : SnapshotNode) (ns : List SnapshotNode) (incoming_n : List SnapshotConnection)
      (s m : RunState)
      → Settles n incoming_n s m
      → (e : NodeTry) → Kept s.runtime (n ∷ ns) e
      → Kept m.runtime ns e
  Kept-over n ns incoming_n s m step e (recorded, new) =
      let (rt, found, status, code, message) = recorded in
      (
        (
          rt,
          ap (get e.node_id) step.runtime_set
              ∙ get-put_other n.node_id e.node_id step.rt s.runtime (ground (arith, new))
              ∙ found,
          status,
          code,
          message,
        ),
        ground (arith, new),
      )

  Kept-entry :
      (n : SnapshotNode) (ns : List SnapshotNode) (incoming_n : List SnapshotConnection)
      (s m : RunState)
      → (step : Settles n incoming_n s m) → includes (snapshot_ids ns) n.node_id ≡ false
      → Kept m.runtime ns step.entry
  Kept-entry n ns incoming_n s m step once =
      let (status, code, message) = step.entry_outcome in
      (
        (
          step.rt,
          ap (get step.entry.node_id) step.runtime_set
              ∙ ap (λ v. get v (put n.node_id step.rt s.runtime)) step.entry_node
              ∙ get-put_self n.node_id step.rt s.runtime,
          status,
          code,
          message,
        ),
        ap (includes (snapshot_ids ns)) step.entry_node ∙ once,
      )

  run_nodes-Recorded :
      (ns : List SnapshotNode) (s t : RunState)
      → run_nodes execute docs incoming ns s ≡ ok t
      → Distinct (snapshot_ids ns)
      → All (Kept s.runtime ns) s.node_tries
      → All (Recorded t.runtime) t.node_tries
  unfolding run_nodes
  run_nodes-Recorded [] s t h d kept =
      subst (λ r. All (Recorded r.runtime) r.node_tries) (ok-injective h)
        (mem-All _ s.node_tries λ e m. (All-mem _ e s.node_tries kept m).0)
  run_nodes-Recorded (n ∷ ns) s t h (once, d) kept =
      let (m, step, later) = run_nodes-first execute docs incoming n ns s t h in
      run_nodes-Recorded ns m t later d (
        subst (All (Kept m.runtime ns)) (sym step.entry_pushed) (
          All-append _ s.node_tries (step.entry ∷ [])
            (mem-All _ s.node_tries
              λ e k. Kept-over n ns _ s m step e (All-mem _ e s.node_tries kept k))
            (Kept-entry n ns _ s m step once, tt)))

  failures_after :
      (v : String) (n : SnapshotNode) (incoming_n : List SnapshotConnection) (s m : RunState)
      → (step : Settles n incoming_n s m)
      → includes (issue_nodes m.required_failures) v ≡ (
          includes (issue_nodes s.required_failures) v
          || (is_failed step.rt.status && node_required n && n.node_id == v))
  failures_after v n incoming_n s m step =
      ap (λ xs. includes xs v) step.failures
      ∙ includes-append (issue_nodes s.required_failures) _ v
      ∙ ap (λ b. includes (issue_nodes s.required_failures) v || b)
          (one (is_failed step.rt.status) (node_required n))
    where
      one :
          (a b : Bool)
          → includes (if a && b then n.node_id ∷ [] else []) v ≡ (a && b && n.node_id == v)
      one a b = ground arith

  run_nodes-other_failures :
      (v : String) (ns : List SnapshotNode) (s t : RunState)
      → run_nodes execute docs incoming ns s ≡ ok t
      → includes (snapshot_ids ns) v ≡ false
      → includes (issue_nodes t.required_failures) v ≡ includes (issue_nodes s.required_failures) v
  unfolding run_nodes
  run_nodes-other_failures v [] s t h new =
      ap (λ r. includes (issue_nodes r.required_failures) v) (sym (ok-injective h))
  run_nodes-other_failures v (n ∷ ns) s t h new =
      let (m, step, later) = run_nodes-first execute docs incoming n ns s t h in
      ground (arith, run_nodes-other_failures v ns m t later, failures_after v n _ s m step)

  own_failure :
      (n k : SnapshotNode) (s t : RunState) (rt : NodeRuntime)
      → k ≡ n
      → get k.node_id t.runtime ≡ some rt
      → (includes (issue_nodes s.required_failures) k.node_id
          || (is_failed rt.status && node_required n && n.node_id == k.node_id))
        ≡ (includes (issue_nodes s.required_failures) k.node_id
            || (entry_failed (get k.node_id t.runtime) && node_required k))
  own_failure n k s t rt same found =
      rw (found, same)
        (ap (λ b. includes (issue_nodes s.required_failures) n.node_id || b)
          (both (is_failed rt.status) (node_required n)))
    where
      both : (a b : Bool) → (a && b && n.node_id == n.node_id) ≡ (a && b)
      both a b = ground (arith, ==_refl n.node_id)

  run_nodes-failures :
      (k : SnapshotNode) (ns : List SnapshotNode) (s t : RunState)
      → run_nodes execute docs incoming ns s ≡ ok t
      → Distinct (snapshot_ids ns)
      → Memᴰ k ns
      → includes (issue_nodes t.required_failures) k.node_id ≡ (
          includes (issue_nodes s.required_failures) k.node_id
          || (entry_failed (get k.node_id t.runtime) && node_required k))
  run_nodes-failures k [] s t h d listed = absurd (Memᴰ.not-nil listed)
  run_nodes-failures k (n ∷ ns) s t h (once, d) listed =
      let (m, step, later) = run_nodes-first execute docs incoming n ns s t h in
      elim (Memᴰ.cases_cons listed) [
        | inl same ↦
            let new = subst (λ x. includes (snapshot_ids ns) x.node_id ≡ false) (sym same) once in
            run_nodes-other_failures k.node_id ns m t later new
            ∙ failures_after k.node_id n _ s m step
            ∙ own_failure n k s t step.rt same (
                run_nodes-other execute docs incoming k.node_id ns m t later new
                ∙ ap (get k.node_id) step.runtime_set
                ∙ ap (λ x. get k.node_id (put x.node_id step.rt s.runtime)) (sym same)
                ∙ get-put_self k.node_id step.rt s.runtime)
        | inr rest ↦ ground (
          arith,
          run_nodes-failures k ns m t later d rest,
          failures_after k.node_id n _ s m step,
          includes-snapshot_ids k ns rest,
          ==_iff n.node_id k.node_id,
          once,
        )
      ]

module _ (execute : SnapshotNode → List SnapshotConnection → Runtime → ByPort → Result Record)
    (docs : Documents) (ns : List SnapshotNode) (cs : List SnapshotConnection) (t : RunState) where
  -- In a finished run of a flow whose ids are distinct, the trace has the nodes of the flow, each
  -- once, in the order of execution, and every entry has the status, the error code and the error
  -- message that the runtime has for its node.
  pub run_flow-traced :
      run_flow execute docs ns cs ≡ ok t
      → Distinct (snapshot_ids ns)
      → (try_nodes t.node_tries ≡ snapshot_ids (topological_order ns cs))
        × Distinct (try_nodes t.node_tries)
        × ((n : SnapshotNode) → Memᴰ n (topological_order ns cs) ↔ Memᴰ n ns)
        × All (Recorded t.runtime) t.node_tries
  unfolding run_flow
  run_flow-traced h d =
      let (distinct, members) = topological_order-Distinct ns cs d in
      let order =
        run_nodes-traced execute docs (index_incoming cs []) (topological_order ns cs) _ t h in
      (
        order,
        subst Distinct (sym order) distinct,
        members,
        run_nodes-Recorded execute docs (index_incoming cs []) (topological_order ns cs) _ t h
            distinct tt,
      )

  -- In a finished run of a flow whose ids are distinct, a node has a required failure exactly if it
  -- is required and its status is `failed`.
  pub run_flow-failures :
      run_flow execute docs ns cs ≡ ok t
      → Distinct (snapshot_ids ns)
      → (k : SnapshotNode) → Memᴰ k ns
      → includes (issue_nodes t.required_failures) k.node_id
        ≡ (entry_failed (get k.node_id t.runtime) && node_required k)
  unfolding run_flow
  run_flow-failures h d k listed =
      let (distinct, members) = topological_order-Distinct ns cs d in
      run_nodes-failures execute docs (index_incoming cs []) k (topological_order ns cs) _ t h
        distinct ((members k).1 listed)
