-- ===== src/Execution/Order/Correct.antt =====
-- The order of `topologicalOrder`: the ids that its loop does not see, and the cycles behind them.
use roya_api.Prelude.{
  String, ℕ, zero, suc, ◌+◌, ◌≤◌, true, false, not, List, [], ◌∷◌, ◌==◌, ==_iff, string_eq,
  includes, length, map, filter, Memᴰ, Memᴰ-map, ◌≡◌, refl, subst, inl, inr, arith, Bool-cases, ltb,
}
use roya_api.Prelude.Distinct.{Distinct, Within, Distinct-length, Before, Before-append}
use roya_api.Execution.{SnapshotNode, SnapshotConnection, snapshot_ids, plain}
use roya_api.FlowGraph.Cycle.Walks.{Edge, Walk, Cycle}
use roya_api.Execution.Nodes.{snapshot_ids-append}
use roya_api.Execution.Order.{Degrees, Sorted, append_rest, topological_order}
use roya_api.Execution.Order.Degrees.{pending-source}
use roya_api.Execution.Order.Loop.{Invariant}
use roya_api.Execution.Order.Start.{kahn-Invariant}

module _ (ns : List SnapshotNode) (cs : List SnapshotConnection) where
  abbrev ids : List String
  ids = snapshot_ids ns

  abbrev IsEdge : String → String → Type 0
  IsEdge = Edge ids (map plain cs)

  -- A walk, as the list of its nodes.
  data Trail : String → List String → Type 0 where
    one : {v : String} → Trail v (v ∷ [])
    more : {u v : String} {vs : List String} → IsEdge u v → Trail v vs → Trail u (u ∷ vs)

  Trail-Walk :
      {v : String} {vs : List String} (w : String)
      → Trail v vs
      → includes vs w ≡ true
      → Walk ids (map plain cs) w v
  Trail-Walk {v} w one h = subst (Walk ids (map plain cs) w) (ground (arith, ==_iff v w)) Walk.here
  Trail-Walk w (more {u} e t) h = elim (Bool-cases (u == w)) [
    | inl same ↦ subst (Walk ids (map plain cs) w) (ground (arith, ==_iff u w)) Walk.here
    | inr other ↦ Walk.via e (Trail-Walk w t (ground arith))
  ]

  module _ (seen : List String)
      (back : (v : String)
        → includes ids v ≡ true
        → includes seen v ≡ false
        → (u : String) × IsEdge u v × (includes ids u ≡ true) × (includes seen u ≡ false)) where
    grow :
        (k : ℕ) (v : String) (vs : List String)
        → Trail v vs
        → Distinct vs
        → Within vs ids
        → includes ids v ≡ true
        → includes seen v ≡ false
        → suc (length ids) ≤ length vs + k
        → Cycle ids (map plain cs)
    grow zero v vs t d w known new bound = absurd (omega (arith, Distinct-length vs ids d w, bound))
    grow (suc k) v vs t d w known new bound =
        let (u, edge, known_u, new_u) = back v known new in
        elim (Bool-cases (includes vs u)) [
          | inl again ↦ record {
            last = u;
            first = v;
            closing = edge;
            around = Trail-Walk u t again;
          }
          | inr fresh ↦
              grow k u (u ∷ vs) (more edge t) (fresh, d) (λ a h. ground (arith, w a, ==_iff u a))
                known_u new_u (omega arith)
        ]

  -- An id that the loop did not see has a predecessor that it did not see.
  Invariant-back :
      (deg : Degrees) (s : Sorted)
      → Invariant ns cs [] deg s
      → (v : String) → includes ids v ≡ true
      → includes s.seen v ≡ false
      → (u : String) × IsEdge u v × (includes ids u ≡ true) × (includes s.seen u ≡ false)
  Invariant-back deg s i v known new =
      let (c, listed, ok, enters, fresh) =
        pending-source ids s.seen v cs (ground (arith, i.reached v known)) in
      (
        c.source.node_id,
        record {
          connection = plain c;
          listed = Memᴰ-map plain c cs listed;
          leaves = refl;
          enters = enters;
          known = known;
        },
        ground (arith, ok),
        fresh,
      )

  acyclic-seen :
      (deg : Degrees) (s : Sorted)
      → Invariant ns cs [] deg s
      → ¬ Cycle ids (map plain cs)
      → (v : String) → includes ids v ≡ true
      → includes s.seen v ≡ true
  acyclic-seen deg s i acyclic v known = elim (Bool-cases (includes s.seen v)) [
    | inl old ↦ old
    | inr new ↦ absurd (
        acyclic (
          grow s.seen (Invariant-back deg s i) (length ids) v (v ∷ []) one (refl, tt)
            (λ a h. ground (arith, ==_iff v a)) known new (omega arith)))
  ]

  Before-append_rest :
      (u v : String) (s : Sorted)
      → snapshot_ids s.out ≡ s.seen
      → Before u v s.seen
      → Before u v (snapshot_ids (append_rest ns s))
  unfolding append_rest
  Before-append_rest u v s same h = elim (Bool-cases (ltb (length s.out) (length ns))) [
    | inl e ↦
        rw (e, snapshot_ids-append s.out (filter (λ n. not (includes s.seen n.node_id)) ns), same)
          (Before-append _ h)
    | inr e ↦ rw (e, same) h
  ]

  -- Of the connections between nodes of the flow, if no cycle runs along them, each has its
  -- source before its target in what `topologicalOrder` returns.
  pub topological_order-Before :
      ¬ Cycle (snapshot_ids ns) (map plain cs)
      → (c : SnapshotConnection) → Memᴰ c cs
      → includes (snapshot_ids ns) c.source.node_id ≡ true
      → includes (snapshot_ids ns) c.target.node_id ≡ true
      → Before c.source.node_id c.target.node_id (snapshot_ids (topological_order ns cs))
  unfolding topological_order
  topological_order-Before acyclic c listed from to =
      let (s, deg, run, i) = kahn-Invariant ns cs in
      rw run (
        Before-append_rest c.source.node_id c.target.node_id s i.out_ids (
          i.order c listed (ground (arith, from, to))
            (acyclic-seen deg s i acyclic c.target.node_id to)))
