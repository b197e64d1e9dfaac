-- ===== src/Execution/Upstream/Blocked.antt =====
-- What `checkUpstreamFailurePropagation` answers.
use roya_api.Prelude.{
  Bool, true, false, not, Option, none, some, List, [], ◌∷◌, ◌++◌, if◌then◌else◌, All, ◌≡◌, ◌≢◌,
  ◌⊎◌, refl, ap, arith, string_eq, Bool-cases, inl, inr,
}
use roya_api.Prelude.Dict.{get}
use roya_api.Prelude.Text.{template}
use roya_api.Execution.{
  SnapshotNode, SnapshotConnection, NodeStatus, NodeRuntime, Runtime, is_completed,
}
use roya_api.Execution.Upstream.{
  Propagated, required_unless_false, incomplete, blocks, check_upstream,
}

-- A connection that is not marked as optional, from a node that ran and did not complete.
abbrev pub Blocked : Runtime → SnapshotConnection → Type 0
Blocked runtime c =
    (c.required ≢ some false)
    × (up : NodeRuntime) × (get c.source.node_id runtime ≡ some up)
    × (up.status ≢ NodeStatus.completed)

required-optional : (r : Option Bool) → required_unless_false r ≡ true → r ≢ some false
required-optional none h = λ e. cc
required-optional (some true) h = λ e. cc
required-optional (some false) h = λ e. cc

optional-required : (r : Option Bool) → r ≢ some false → required_unless_false r ≡ true
optional-required none h = refl
optional-required (some true) h = refl
optional-required (some false) h = absurd (h refl)

incomplete-status : (s : NodeStatus) → not (is_completed s) ≡ true → s ≢ NodeStatus.completed
incomplete-status NodeStatus.completed h = λ e. cc
incomplete-status NodeStatus.failed h = λ e. cc
incomplete-status NodeStatus.skipped h = λ e. cc

status-incomplete : (s : NodeStatus) → s ≢ NodeStatus.completed → not (is_completed s) ≡ true
status-incomplete NodeStatus.completed h = absurd (h refl)
status-incomplete NodeStatus.failed h = refl
status-incomplete NodeStatus.skipped h = refl

incomplete-found :
    (o : Option NodeRuntime)
    → incomplete o ≡ true
    → (up : NodeRuntime) × (o ≡ some up) × (up.status ≢ NodeStatus.completed)
incomplete-found none h = cc
incomplete-found (some up) h = (up, refl, incomplete-status up.status h)

blocks-Blocked :
    (runtime : Runtime) (c : SnapshotConnection) → blocks c runtime ≡ true → Blocked runtime c
blocks-Blocked runtime c h =
    let (up, found, status) = incomplete-found (get c.source.node_id runtime) (ground (arith, h)) in
    (required-optional c.required (ground (arith, h)), up, found, status)

Blocked-blocks :
    (runtime : Runtime) (c : SnapshotConnection) → Blocked runtime c → blocks c runtime ≡ true
Blocked-blocks runtime c (required, up, found, status) =
    rw (found, status-incomplete up.status status) (optional-required c.required required)

-- If no connection into the node is blocked, the node is run. Otherwise the first that is decides:
-- a required node has failed and an optional one is skipped, each with a message that names the
-- source of that connection.
pub check_upstream-Blocked :
    (n : SnapshotNode) (cs : List SnapshotConnection) (runtime : Runtime) (required : Bool)
    → (All (λ c. Blocked runtime c → ⊥) cs
        × (check_upstream n cs runtime required ≡ Propagated.run))
      ⊎ ((before : List SnapshotConnection) × (c : SnapshotConnection) × (after : List
            SnapshotConnection)
          × (cs ≡ before ++ c ∷ after)
          × All (λ c. Blocked runtime c → ⊥) before
          × Blocked runtime c
          × (check_upstream n cs runtime required ≡ (
              if required
              then Propagated.fail "upstream_required_failure" (
                  template (
                    "Required upstream node \"" ∷ c.source.node_id ∷ "\" failed; cannot run node \""
                    ∷ n.node_id ∷ "\"." ∷ []))
              else Propagated.skip "upstream_required_failure_optional_skipped" (
                  template (
                    "Required upstream node \"" ∷ c.source.node_id ∷ "\" failed; optional node \""
                    ∷ n.node_id ∷ "\" skipped." ∷ [])))))
unfolding check_upstream
check_upstream-Blocked n [] runtime required = inl (tt, refl)
check_upstream-Blocked n (c ∷ cs) runtime required = elim (Bool-cases (blocks c runtime)) [
  | inl e ↦ inr ([], c, cs, refl, tt, blocks-Blocked runtime c e, rw e refl)
  | inr e ↦
      let clear : Blocked runtime c → ⊥ =
        λ b. absurd (ground (arith, e, Blocked-blocks runtime c b)) in
      elim (check_upstream-Blocked n cs runtime required) [
        | inl (all, run) ↦ inl ((clear, all), rw e run)
        | inr (before, d, after, split, all, blocked, stopped) ↦
            inr (c ∷ before, d, after, ap (λ xs. c ∷ xs) split, (clear, all), blocked, rw e stopped)
      ]
]
