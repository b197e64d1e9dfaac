-- ===== src/Execution/Nodes.antt =====
-- The lemmas on the nodes of a snapshot and their ids.
use roya_api.Prelude.{
  String, true, some, List, [], ◌∷◌, ◌++◌, ◌==◌, ==_iff, string_eq, includes, find, length, Memᴰ,
  ◌≡◌, refl, ap, sym, subst, ◌∙◌, inl, inr, arith, Bool-cases,
}
use mathlib.Core.List.Memᴰ
use roya_api.Prelude.Distinct.{Distinct}
use roya_api.Execution.{SnapshotNode, snapshot_ids}

pub find_node :
    (id : String) (ms : List SnapshotNode)
    → includes (snapshot_ids ms) id ≡ true
    → (n : SnapshotNode) × (find (λ n. n.node_id == id) ms ≡ some n) × Memᴰ n ms × (n.node_id ≡ id)
find_node id [] h = cc
find_node id (m ∷ ms) h = elim (Bool-cases (m.node_id == id)) [
  | inl e ↦ (m, ground (arith, e), Memᴰ.head refl, (==_iff m.node_id id).0 e)
  | inr e ↦
      let (n, found, mem, same) = find_node id ms (ground (arith, e)) in
      (n, ground (arith, e, found), Memᴰ.tail mem, same)
]

pub snapshot_ids-append :
    (xs ys : List SnapshotNode) → snapshot_ids (xs ++ ys) ≡ snapshot_ids xs ++ snapshot_ids ys
snapshot_ids-append [] ys = refl
snapshot_ids-append (x ∷ xs) ys = ap (λ zs. x.node_id ∷ zs) (snapshot_ids-append xs ys)

pub length-snapshot_ids : (ms : List SnapshotNode) → length (snapshot_ids ms) ≡ length ms
length-snapshot_ids [] = refl
length-snapshot_ids (x ∷ deg) = omega (arith, length-snapshot_ids deg)

pub includes-snapshot_ids :
    (n : SnapshotNode) (ns : List SnapshotNode)
    → Memᴰ n ns
    → includes (snapshot_ids ns) n.node_id ≡ true
includes-snapshot_ids n [] m = absurd (Memᴰ.not-nil m)
includes-snapshot_ids n (x ∷ ns) m = elim (Memᴰ.cases_cons m) [
  | inl e ↦ ground (arith, ap (λ k. k.node_id) e, ==_iff x.node_id n.node_id)
  | inr t ↦ ground (arith, includes-snapshot_ids n ns t)
]

pub with_id :
    (v : String) (ns : List SnapshotNode)
    → includes (snapshot_ids ns) v ≡ true
    → (n : SnapshotNode) × Memᴰ n ns × (n.node_id ≡ v)
with_id v [] h = cc
with_id v (n ∷ ns) h = elim (Bool-cases (n.node_id == v)) [
  | inl e ↦ (n, Memᴰ.head refl, (==_iff n.node_id v).0 e)
  | inr e ↦ let (m, listed, same) = with_id v ns (ground (arith, e)) in (m, Memᴰ.tail listed, same)
]

-- A node of a flow is known by its id.
pub same_node :
    (a b : SnapshotNode) (ns : List SnapshotNode)
    → Distinct (snapshot_ids ns)
    → Memᴰ a ns
    → Memᴰ b ns
    → a.node_id ≡ b.node_id
    → a ≡ b
same_node a b [] d ma mb e = absurd (Memᴰ.not-nil ma)
same_node a b (n ∷ ns) (new, d) ma mb e = elim (Memᴰ.cases_cons ma) [
  | inl x ↦ elim (Memᴰ.cases_cons mb) [
    | inl y ↦ x ∙ sym y
    | inr s ↦ absurd (clash (includes-snapshot_ids b ns s) (sym e ∙ ap (λ k. k.node_id) x))
  ]
  | inr t ↦ elim (Memᴰ.cases_cons mb) [
    | inl y ↦ absurd (clash (includes-snapshot_ids a ns t) (e ∙ ap (λ k. k.node_id) y))
    | inr s ↦ same_node a b ns d t s e
  ]
]
  where
    clash : {v : String} → includes (snapshot_ids ns) v ≡ true → v ≡ n.node_id → ⊥
    clash {v} h same = ground (arith, new, subst (λ w. includes (snapshot_ids ns) w ≡ true) same h)
