-- ===== src/Execution/Run/Safe.antt =====
-- What the loop of `runPublishedFlow` leaves in the runtime, round by round, for a node and for the
-- source of a connection into it.
use roya_api.Prelude.{
  String, true, false, not, ◌&&◌, some, List, [], ◌∷◌, ◌++◌, if◌then◌else◌, ◌==◌, string_eq,
  or_else, Memᴰ, mem-append, ◌≡◌, refl, ap, sym, subst, ◌∙◌, inl, inr, arith, Bool-cases, ==_iff,
  includes, map,
}
use mathlib.Core.List.Memᴰ
use roya_api.Prelude.Distinct.{Distinct, Before, Before-nil, Before-cons}
use roya_api.Prelude.Dict.{get, put, get-put, get-put_self, get-put_other}
use roya_api.Prelude.Result.{Result, ok, and_then-ok, ok-injective}
use roya_api.Value.{Record}
use roya_api.Execution.{
  SnapshotNode, SnapshotConnection, NodeRuntime, Runtime, is_completed, snapshot_ids, plain,
}
use roya_api.FlowGraph.Cycle.Walks.{Cycle}
use roya_api.Execution.Order.{topological_order}
use roya_api.Execution.Order.Correct.{topological_order-Before}
use roya_api.Execution.Order.Once.{topological_order-Distinct}
use roya_api.Execution.PortMerge.{ByPort}
use roya_api.Execution.Upstream.{
  Incoming, index_incoming, required_unless_false, blocks, incomplete, Documents,
}
use roya_api.Execution.Run.{RunState, run_node, run_nodes, run_flow}
use roya_api.Execution.Run.Steps.{Settles, run_node-Settles}

-- Every connection stands among the incoming ones of its target.
index_incoming-keeps :
    (c : SnapshotConnection) (v : String) (cs : List SnapshotConnection) (m : Incoming)
    → Memᴰ c (or_else (get v m) [])
    → Memᴰ c (or_else (get v (index_incoming cs m)) [])
unfolding index_incoming
index_incoming-keeps c v [] m h = h
index_incoming-keeps c v (d ∷ cs) m h =
    index_incoming-keeps c v cs
      (put d.target.node_id (or_else (get d.target.node_id m) [] ++ d ∷ []) m) kept
  where
    kept : Memᴰ c (
        or_else (get v (put d.target.node_id (or_else (get d.target.node_id m) [] ++ d ∷ []) m)) [])
    kept =
        rw (get-put d.target.node_id v (or_else (get d.target.node_id m) [] ++ d ∷ []) m)
          (elim (Bool-cases (d.target.node_id == v)) [
            | inl e ↦ rw (e, (==_iff d.target.node_id v).0 e) ((mem-append c _ _).1 (inl h))
            | inr e ↦ rw e h
          ])

index_incoming-mem :
    (c : SnapshotConnection) (cs : List SnapshotConnection) (m : Incoming)
    → Memᴰ c cs
    → Memᴰ c (or_else (get c.target.node_id (index_incoming cs m)) [])
unfolding index_incoming
index_incoming-mem c [] m h = absurd (Memᴰ.not-nil h)
index_incoming-mem c (d ∷ cs) m h = elim (Memᴰ.cases_cons h) [
  | inl e ↦
      index_incoming-keeps c c.target.node_id cs
        (put d.target.node_id (or_else (get d.target.node_id m) [] ++ d ∷ []) m)
        (subst
          (λ x. Memᴰ c (
            or_else
              (get c.target.node_id
                (put x.target.node_id (or_else (get x.target.node_id m) [] ++ x ∷ []) m))
              []))
          e
          (rw (get-put_self c.target.node_id (or_else (get c.target.node_id m) [] ++ c ∷ []) m)
            ((mem-append c _ _).1 (inr (Memᴰ.head refl)))))
  | inr later ↦ index_incoming-mem c cs (put d.target.node_id _ m) later
]

module _ (execute : SnapshotNode → List SnapshotConnection → Runtime → ByPort → Result Record)
    (docs : Documents) (incoming : Incoming) where
  -- The first round, and the rest of the run.
  pub run_nodes-first :
      (n : SnapshotNode) (ns : List SnapshotNode) (s t : RunState)
      → run_nodes execute docs incoming (n ∷ ns) s ≡ ok t
      → (m : RunState) × Settles n (or_else (get n.node_id incoming) []) s m
        × (run_nodes execute docs incoming ns m ≡ ok t)
  unfolding run_nodes
  run_nodes-first n ns s t h =
      let (m, round, later) =
        and_then-ok (run_node execute docs n (or_else (get n.node_id incoming) []) s) _ t h in
      (m, run_node-Settles execute docs n _ s m round, later)

  -- A node that is not in the list keeps its entry.
  pub run_nodes-other :
      (v : String) (ns : List SnapshotNode) (s t : RunState)
      → run_nodes execute docs incoming ns s ≡ ok t
      → includes (snapshot_ids ns) v ≡ false
      → get v t.runtime ≡ get v s.runtime
  unfolding run_nodes
  run_nodes-other v [] s t h new = ap (λ r. get v r.runtime) (sym (ok-injective h))
  run_nodes-other v (n ∷ ns) s t h new =
      let (m, step, later) = run_nodes-first n ns s t h in
      run_nodes-other v ns m t later (ground arith)
      ∙ ap (get v) step.runtime_set
      ∙ get-put_other n.node_id v step.rt s.runtime (ground (arith, new))

  -- A connection from a node that the run does not touch blocks no node that completes.
  run_nodes-clear :
      (c : SnapshotConnection) (ns : List SnapshotNode) (s t : RunState) (rt : NodeRuntime)
      → run_nodes execute docs incoming ns s ≡ ok t
      → Distinct (snapshot_ids ns)
      → includes (snapshot_ids ns) c.source.node_id ≡ false
      → includes (snapshot_ids ns) c.target.node_id ≡ true
      → Memᴰ c (or_else (get c.target.node_id incoming) [])
      → get c.target.node_id t.runtime ≡ some rt
      → is_completed rt.status ≡ true
      → blocks c s.runtime ≡ false
  run_nodes-clear c [] s t rt h d new old listed found done = cc
  run_nodes-clear c (n ∷ ns) s t rt h (once, d) new old listed found done =
      let (m, step, later) = run_nodes-first n ns s t h in
      elim (Bool-cases (n.node_id == c.target.node_id)) [
        | inl e ↦
            step.clear
              (completed_by step.rt (
                sym found
                ∙ run_nodes-other c.target.node_id ns m t later
                    (ground (arith, once, ==_iff n.node_id c.target.node_id))
                ∙ ap (get c.target.node_id) step.runtime_set
                ∙ get-put n.node_id c.target.node_id step.rt s.runtime
                ∙ ap (λ b. if b then some step.rt else get c.target.node_id s.runtime) e))
              c
              (subst (λ v. Memᴰ c (or_else (get v incoming) []))
                (sym ((==_iff n.node_id c.target.node_id).0 e)) listed)
        | inr e ↦
            ap (λ o. incomplete o && required_unless_false c.required)
              (sym (
                ap (get c.source.node_id) step.runtime_set
                ∙ get-put_other n.node_id c.source.node_id step.rt s.runtime (ground (arith, new))))
            ∙ run_nodes-clear c ns m t rt later d (ground arith) (ground (arith, old, e)) listed
                found done
      ]
    where
      completed_by : (r : NodeRuntime) → some rt ≡ some r → is_completed r.status ≡ true
      completed_by r e = ground (arith, e, done)

  run_nodes-completed :
      (c : SnapshotConnection) (ns : List SnapshotNode) (s t : RunState) (rt : NodeRuntime)
      → run_nodes execute docs incoming ns s ≡ ok t
      → Distinct (snapshot_ids ns)
      → Before c.source.node_id c.target.node_id (snapshot_ids ns)
      → Memᴰ c (or_else (get c.target.node_id incoming) [])
      → required_unless_false c.required ≡ true
      → get c.target.node_id t.runtime ≡ some rt
      → is_completed rt.status ≡ true
      → (up : NodeRuntime) × (get c.source.node_id t.runtime ≡ some up)
        × (is_completed up.status ≡ true)
  run_nodes-completed c [] s t rt h d before listed required found done = absurd (Before-nil before)
  run_nodes-completed c (n ∷ ns) s t rt h (once, d) before listed required found done =
      let (m, step, later) = run_nodes-first n ns s t h in
      elim (Before-cons before) [
        | inl (same, target) ↦
            let new = subst (λ v. includes (snapshot_ids ns) v ≡ false) same once in
            let kept : get c.source.node_id m.runtime ≡ some step.rt =
              ap (get c.source.node_id) step.runtime_set
              ∙ ap (λ v. get c.source.node_id (put v step.rt s.runtime)) same
              ∙ get-put_self c.source.node_id step.rt s.runtime in
            let clear = run_nodes-clear c ns m t rt later d new target listed found done in
            (
              step.rt,
              run_nodes-other c.source.node_id ns m t later new ∙ kept,
              unblocked step.rt
                  (sym (ap (λ o. incomplete o && required_unless_false c.required) kept) ∙ clear),
            )
        | inr rest ↦ run_nodes-completed c ns m t rt later d rest listed required found done
      ]
    where
      unblocked :
          (up : NodeRuntime)
          → (not (is_completed up.status) && required_unless_false c.required) ≡ false
          → is_completed up.status ≡ true
      unblocked up h = ground (arith, h, required)

module _ (execute : SnapshotNode → List SnapshotConnection → Runtime → ByPort → Result Record)
    (docs : Documents) (ns : List SnapshotNode) (cs : List SnapshotConnection) (t : RunState) where
  -- In a finished run of a flow whose ids are distinct and whose connections have no cycle, no node
  -- completed unless the source of every required connection into it from a node of the flow
  -- completed.
  pub run_flow-completed :
      run_flow execute docs ns cs ≡ ok t
      → Distinct (snapshot_ids ns)
      → ¬ Cycle (snapshot_ids ns) (map plain cs)
      → (c : SnapshotConnection) → Memᴰ c cs
      → includes (snapshot_ids ns) c.source.node_id ≡ true
      → includes (snapshot_ids ns) c.target.node_id ≡ true
      → required_unless_false c.required ≡ true
      → (rt : NodeRuntime) → get c.target.node_id t.runtime ≡ some rt
      → is_completed rt.status ≡ true
      → (up : NodeRuntime) × (get c.source.node_id t.runtime ≡ some up)
        × (is_completed up.status ≡ true)
  unfolding run_flow
  run_flow-completed h d acyclic c listed from to required rt found done =
      run_nodes-completed execute docs (index_incoming cs []) c (topological_order ns cs) _ t rt h
        (topological_order-Distinct ns cs d).0
        (topological_order-Before ns cs acyclic c listed from to)
        (index_incoming-mem c cs [] listed) required found done
