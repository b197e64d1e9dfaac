-- ===== src/Execution/Order/Start.antt =====
-- How the loop of `topologicalOrder` starts, and how it ends.
use roya_api.Prelude.{
  String, ◌+◌, ◌≤◌, true, some, List, [], ◌∷◌, ==_iff, string_eq, includes, length, or_else, ◌≡◌,
  refl, inl, inr, arith, Bool-cases, Option-cases, ◌↔◌,
}
use mathlib.Core.List.Memᴰ
use roya_api.Prelude.Distinct.{Distinct, Within, Distinct-length}
use roya_api.Prelude.Dict.{get, put, keys, includes-keys, Distinct-put}
use roya_api.Execution.{SnapshotNode, SnapshotConnection, snapshot_ids}
use roya_api.Execution.Nodes.{length-snapshot_ids}
use roya_api.Execution.Order.{
  Degrees, Adjacency, zero_degrees, no_targets, dangles, count_target, push_target, fill, maps,
  initially_ready, Sorted, kahn,
}
use roya_api.Execution.Order.Degrees.{
  pending, unexpanded-le, HasKeys, fill_lem, zero_degrees-get, no_targets-get,
}
use roya_api.Execution.Order.Loop.{Invariant, drain-Invariant}

Distinct-zero_degrees :
    (ns : List SnapshotNode) (deg : Degrees)
    → Distinct (keys deg)
    → Distinct (keys (zero_degrees ns deg))
unfolding zero_degrees
Distinct-zero_degrees [] deg h = h
Distinct-zero_degrees (n ∷ ns) deg h =
    Distinct-zero_degrees ns (put n.node_id 0 deg) (Distinct-put n.node_id 0 deg h)

Distinct-fill :
    (cs : List SnapshotConnection) (deg : Degrees) (adj : Adjacency)
    → Distinct (keys deg)
    → Distinct (keys (fill cs (deg, adj)).0)
unfolding fill
Distinct-fill [] deg adj h = h
Distinct-fill (c ∷ cs) deg adj h =
    Distinct-fill cs (count_target c deg adj) (push_target c deg adj)
      (elim (Bool-cases (dangles c deg adj)) [
        | inl e ↦ rw e h
        | inr e ↦ rw e (Distinct-put c.target.node_id _ deg h)
      ])

length-initially_ready : (deg : Degrees) → length (initially_ready deg) ≤ length (keys deg)
unfolding initially_ready
length-initially_ready [] = omega arith
length-initially_ready ((k, d) ∷ deg) = ground (arith, length-initially_ready deg)

includes-initially_ready :
    (deg : Degrees) (v : String)
    → Distinct (keys deg)
    → (includes (initially_ready deg) v ≡ true) ↔ (get v deg ≡ some 0)
unfolding initially_ready
includes-initially_ready [] v h = ground arith
includes-initially_ready ((k, d) ∷ deg) v (new, h) =
    ground (arith, includes-initially_ready deg v h, ==_iff k v, includes-keys k deg)

HasKeys-zero_degrees : (ns : List SnapshotNode) → HasKeys (snapshot_ids ns) (zero_degrees ns [])
HasKeys-zero_degrees ns = record { keyed = λ v. ground (arith, zero_degrees-get ns [] v) }

HasKeys-no_targets : (ns : List SnapshotNode) → HasKeys (snapshot_ids ns) (no_targets ns [])
HasKeys-no_targets ns = record { keyed = λ v. ground (arith, no_targets-get ns [] v) }

module _ (ns : List SnapshotNode) (cs : List SnapshotConnection) where
  Within-keys :
      (deg : Degrees) → HasKeys (snapshot_ids ns) deg → Within (keys deg) (snapshot_ids ns)
  Within-keys deg h v k = ground (arith, h.keyed v, includes-keys v deg)

  Invariant-start :
      (deg : Degrees)
      → HasKeys (snapshot_ids ns) deg
      → Distinct (keys deg)
      → ((v : String) → or_else (get v deg) 0 ≡ pending (snapshot_ids ns) [] v cs)
      → Invariant ns cs (initially_ready deg) deg (record { out = []; seen = [] })
  Invariant-start deg has distinct degrees = record {
    degrees = degrees;
    queued = λ v h. ground (
      arith,
      includes-initially_ready deg v distinct,
      has.keyed v,
      degrees v,
      Option-cases (get v deg),
    );
    reached = λ v k z. ground (
      arith,
      includes-initially_ready deg v distinct,
      has.keyed v,
      degrees v,
      Option-cases (get v deg),
    );
    out_ids = refl;
    listed = λ n m. absurd (Memᴰ.not-nil m);
    known = λ v h. cc;
    distinct = tt;
    order = λ c m v h. cc;
  }

  pub kahn-Invariant :
      (end : Sorted) × (rest : Degrees) × (kahn ns cs ≡ some end) × Invariant ns cs [] rest end
  unfolding kahn
  kahn-Invariant =
      let (has, degrees, lists) =
        fill_lem (snapshot_ids ns) cs (zero_degrees ns []) (no_targets ns [])
          (HasKeys-zero_degrees ns) (HasKeys-no_targets ns) in
      let deg : Degrees = (maps ns cs).0 in
      let distinct =
        Distinct-fill cs (zero_degrees ns []) (no_targets ns []) (Distinct-zero_degrees ns [] tt) in
      drain-Invariant ns cs (maps ns cs).1 (length ns + length cs) (initially_ready deg) deg
        (record { out = []; seen = [] }) (λ u. ground (arith, lists u, no_targets-get ns [] u))
        (omega (
          arith,
          length-initially_ready deg,
          length-snapshot_ids ns,
          unexpanded-le (snapshot_ids ns) [] cs,
          Distinct-length (keys deg) (snapshot_ids ns) distinct (Within-keys deg has),
        ))
        (Invariant-start deg has distinct
          (λ v. ground (arith, degrees v, zero_degrees-get ns [] v)))
