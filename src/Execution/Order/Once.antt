-- ===== src/Execution/Order/Once.antt =====
-- The nodes of `topologicalOrder`: those that its loop saw, and those that are appended after it.
use roya_api.Prelude.{
  String, Bool, true, false, not, List, [], ◌∷◌, ==_iff, string_eq, includes, length, filter,
  mem-filter, Memᴰ, mem-append, ◌≡◌, ap, subst, inl, inr, arith, Bool-cases, ◌↔◌, ltb,
}
use roya_api.Prelude.Distinct.{Distinct, Distinct-length, Distinct-append_all}
use roya_api.Execution.{SnapshotNode, SnapshotConnection, snapshot_ids}
use roya_api.Execution.Nodes.{
  snapshot_ids-append, length-snapshot_ids, includes-snapshot_ids, with_id, same_node,
}
use roya_api.Execution.Order.{Degrees, Sorted, append_rest, topological_order}
use roya_api.Execution.Order.Loop.{Invariant}
use roya_api.Execution.Order.Start.{kahn-Invariant}

includes-filter :
    (p : SnapshotNode → Bool) (v : String) (ns : List SnapshotNode)
    → includes (snapshot_ids (filter p ns)) v ≡ true
    → includes (snapshot_ids ns) v ≡ true
includes-filter p v [] h = cc
includes-filter p v (n ∷ ns) h = ground (arith, includes-filter p v ns, Bool-cases (p n))

Distinct-filter :
    (p : SnapshotNode → Bool) (ns : List SnapshotNode)
    → Distinct (snapshot_ids ns)
    → Distinct (snapshot_ids (filter p ns))
Distinct-filter p [] d = tt
Distinct-filter p (n ∷ ns) (new, d) = elim (Bool-cases (p n)) [
  | inl e ↦ rw e (ground (arith, includes-filter p n.node_id ns), Distinct-filter p ns d)
  | inr e ↦ rw e (Distinct-filter p ns d)
]

unseen :
    (seen : List String) (v : String) (ns : List SnapshotNode)
    → includes (snapshot_ids (filter (λ n. not (includes seen n.node_id)) ns)) v ≡ true
    → includes seen v ≡ false
unseen seen v [] h = cc
unseen seen v (n ∷ ns) h =
    ground (arith, unseen seen v ns, Bool-cases (includes seen n.node_id), ==_iff n.node_id v)

module _ (ns : List SnapshotNode) (cs : List SnapshotConnection) (s : Sorted) (deg : Degrees)
    (i : Invariant ns cs [] deg s) where
  abbrev rest : List SnapshotNode
  rest = filter (λ n. not (includes s.seen n.node_id)) ns

  Distinct-append_rest : Distinct (snapshot_ids ns) → Distinct (snapshot_ids (append_rest ns s))
  unfolding append_rest
  Distinct-append_rest d = elim (Bool-cases (ltb (length s.out) (length ns))) [
    | inl e ↦
        rw (e, snapshot_ids-append s.out rest, i.out_ids)
          (Distinct-append_all s.seen (snapshot_ids rest) i.distinct
            (Distinct-filter (λ n. not (includes s.seen n.node_id)) ns d)
            (λ a h. unseen s.seen a ns h))
    | inr e ↦ rw (e, i.out_ids) i.distinct
  ]

  listed-append_rest : (n : SnapshotNode) → Memᴰ n (append_rest ns s) → Memᴰ n ns
  unfolding append_rest
  listed-append_rest n m = elim (Bool-cases (ltb (length s.out) (length ns))) [
    | inl e ↦ elim ((mem-append n s.out rest).0 (rw e at m)) [
      | inl l ↦ i.listed n l
      | inr r ↦ ((mem-filter _ n ns).0 r).0
    ]
    | inr e ↦ i.listed n (rw e at m)
  ]

  -- An id that the loop did not see makes its output shorter than the flow.
  unseen_shorter :
      (v : String)
      → includes (snapshot_ids ns) v ≡ true
      → includes s.seen v ≡ false
      → ltb (length s.out) (length ns) ≡ true
  unseen_shorter v known new = ground (
    arith,
    Distinct-length (v ∷ s.seen) (snapshot_ids ns) (new, i.distinct)
        (λ a h. ground (arith, i.known a, ==_iff v a)),
    length-snapshot_ids ns,
    length-snapshot_ids s.out,
    ap length i.out_ids,
  )

  append_rest-listed :
      Distinct (snapshot_ids ns) → (n : SnapshotNode) → Memᴰ n ns → Memᴰ n (append_rest ns s)
  unfolding append_rest
  append_rest-listed d n m = elim (Bool-cases (includes s.seen n.node_id)) [
    | inl old ↦
        let (k, listed, same) = with_id n.node_id s.out (rw i.out_ids old) in
        let here : Memᴰ n s.out =
          subst (λ x. Memᴰ x s.out) (same_node k n ns d (i.listed k listed) m same) listed in
        elim (Bool-cases (ltb (length s.out) (length ns))) [
          | inl e ↦ rw e ((mem-append n s.out rest).1 (inl here))
          | inr e ↦ rw e here
        ]
    | inr new ↦
        rw (unseen_shorter n.node_id (includes-snapshot_ids n ns m) new)
          ((mem-append n s.out rest).1 (inr ((mem-filter _ n ns).1 (m, ap not new))))
  ]

-- If no two nodes of a flow share an id, what `topologicalOrder` returns has no id twice and has
-- the flow's nodes and no others, whatever the connections are.
pub topological_order-Distinct :
    (ns : List SnapshotNode) (cs : List SnapshotConnection)
    → Distinct (snapshot_ids ns)
    → Distinct (snapshot_ids (topological_order ns cs))
      × ((n : SnapshotNode) → Memᴰ n (topological_order ns cs) ↔ Memᴰ n ns)
unfolding topological_order
topological_order-Distinct ns cs d =
    let (s, deg, run, i) = kahn-Invariant ns cs in
    rw run (
      Distinct-append_rest ns cs s deg i d,
      λ n. (listed-append_rest ns cs s deg i n, append_rest-listed ns cs s deg i d n),
    )
