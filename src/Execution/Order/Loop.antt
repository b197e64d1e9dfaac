-- ===== src/Execution/Order/Loop.antt =====
-- The invariant of the loop of `topologicalOrder`, and the measure of its rounds.
use roya_api.Prelude.{
  String, ℕ, zero, suc, ◌+◌, ◌≤◌, true, false, some, List, [], ◌∷◌, ◌++◌, ==_iff, ==_refl,
  string_eq, includes, includes-add, add-new, length, or_else, Memᴰ, mem-append, ◌≡◌, refl, ap, sym,
  subst, ◌∙◌, ◌⊎◌, inl, inr, arith, Bool-cases,
}
use mathlib.Core.List.Memᴰ
use roya_api.Prelude.Distinct.{Distinct, Distinct-append, Before, Before-append, Before-last}
use roya_api.Prelude.Dict.{get}
use roya_api.Execution.{SnapshotNode, SnapshotConnection, snapshot_ids}
use roya_api.Execution.Nodes.{find_node, snapshot_ids-append}
use roya_api.Execution.Order.{Degrees, Adjacency, lower, release, Sorted, push_found, visit, drain}
use roya_api.Execution.Order.Degrees.{
  occurs, valid, targets, pending, unexpanded, unexpanded-add, pending-add, pending-zero,
  targets-known, lower-degree, release_iff, length-release,
}

module _ (ns : List SnapshotNode) (cs : List SnapshotConnection) where
  abbrev ids : List String
  ids = snapshot_ids ns

  pub record Invariant (ready : List String) (deg : Degrees) (s : Sorted) : Type 0 where
    pub degrees : (v : String) → or_else (get v deg) 0 ≡ pending ids s.seen v cs
    pub queued :
        (v : String)
        → includes ready v ≡ true
        → (includes ids v ≡ true) × (pending ids s.seen v cs ≡ 0)
    pub reached :
        (v : String)
        → includes ids v ≡ true
        → pending ids s.seen v cs ≡ 0
        → (includes ready v ≡ true) ⊎ (includes s.seen v ≡ true)
    pub out_ids : snapshot_ids s.out ≡ s.seen
    pub listed : (n : SnapshotNode) → Memᴰ n s.out → Memᴰ n ns
    pub known : (v : String) → includes s.seen v ≡ true → includes ids v ≡ true
    pub distinct : Distinct s.seen
    pub order :
        (c : SnapshotConnection)
        → Memᴰ c cs
        → valid ids c ≡ true
        → includes s.seen c.target.node_id ≡ true
        → Before c.source.node_id c.target.node_id s.seen

  Invariant-skip :
      (id : String) (ready : List String) (deg : Degrees) (s : Sorted)
      → includes s.seen id ≡ true
      → Invariant (id ∷ ready) deg s
      → Invariant ready deg s
  Invariant-skip id ready deg s old i = record {
    degrees = i.degrees;
    queued = λ v h. i.queued v (ground arith);
    reached = λ v k z. ground (arith, i.reached v k z, ==_iff id v);
    out_ids = i.out_ids;
    listed = i.listed;
    known = i.known;
    distinct = i.distinct;
    order = i.order;
  }

  listed_push :
      (m : SnapshotNode) (out : List SnapshotNode) (n : SnapshotNode)
      → (Memᴰ m out → Memᴰ m ns)
      → Memᴰ n ns
      → Memᴰ m (out ++ n ∷ [])
      → Memᴰ m ns
  listed_push m out n old new h = elim ((mem-append m out (n ∷ [])).0 h) [
    | inl l ↦ old l
    | inr r ↦ elim (Memᴰ.cases_cons r) [
      | inl e ↦ subst (λ x. Memᴰ x ns) (sym e) new
      | inr x ↦ absurd (Memᴰ.not-nil x)
    ]
  ]

  order_push :
      (c : SnapshotConnection) (id : String) (seen : List String)
      → valid ids c ≡ true
      → Memᴰ c cs
      → pending ids seen id cs ≡ 0
      → (includes seen c.target.node_id ≡ true → Before c.source.node_id c.target.node_id seen)
      → (includes seen c.target.node_id ≡ true) ⊎ (id ≡ c.target.node_id)
      → Before c.source.node_id c.target.node_id (seen ++ id ∷ [])
  order_push c id seen v m zero_id old (inl h) = Before-append (id ∷ []) (old h)
  order_push c id seen v m zero_id old (inr e) =
      subst (λ x. Before c.source.node_id x (seen ++ id ∷ [])) e
        (Before-last c.source.node_id id seen
          (pending-zero ids seen c cs m v (subst (λ x. pending ids seen x cs ≡ 0) e zero_id)))

  occurs-includes : (v : String) (ts : List String) → 1 ≤ occurs v ts → includes ts v ≡ true
  occurs-includes v [] h = absurd (omega arith)
  occurs-includes v (t ∷ ts) h = ground (arith, occurs-includes v ts)

  Invariant-expand :
      (id : String) (ready : List String) (deg : Degrees) (s : Sorted)
      → includes s.seen id ≡ false
      → Invariant (id ∷ ready) deg s
      → Invariant
          (release (targets ids id cs) deg ready)
          (lower (targets ids id cs) deg)
          (visit ns id s)
  Invariant-expand id ready deg s new i =
      let ts : List String = targets ids id cs in
      let (known_id, zero_id) = i.queued id (ground (arith, ==_refl id)) in
      let (n, found, mem, same) = find_node id ns known_id in
      record {
        degrees = λ v.
            omega (arith, lower-degree ts deg v, pending-add ids id v s.seen cs new, i.degrees v);
        queued = λ v h. ground (
          arith,
          release_iff ts deg ready v,
          i.queued v,
          i.degrees v,
          pending-add ids id v s.seen cs new,
          occurs-includes v ts,
          targets-known ids id v cs,
        );
        reached = λ v k z. ground (
          arith,
          release_iff ts deg ready v,
          i.reached v k,
          i.degrees v,
          pending-add ids id v s.seen cs new,
          includes-add s.seen id v,
          ==_iff id v,
        );
        out_ids =
            ap (λ o. snapshot_ids (push_found s.out o)) found
            ∙ snapshot_ids-append s.out (n ∷ [])
            ∙ ap (λ xs. xs ++ n.node_id ∷ []) i.out_ids
            ∙ ap (λ x. s.seen ++ x ∷ []) same
            ∙ sym (add-new s.seen id new);
        listed = λ m h.
            listed_push m s.out n (i.listed m) mem
              (subst (λ o. Memᴰ m (push_found s.out o)) found h);
        known = λ v h. ground (arith, includes-add s.seen id v, i.known v, known_id);
        distinct =
            subst Distinct (sym (add-new s.seen id new)) (Distinct-append s.seen id i.distinct new);
        order = λ c m v h.
            subst (Before c.source.node_id c.target.node_id) (sym (add-new s.seen id new)) (
              order_push c id s.seen v m zero_id (i.order c m v)
                (ground (arith, includes-add s.seen id c.target.node_id)));
      }

  -- The loop ends with an empty queue.
  pub drain-Invariant :
      (adj : Adjacency) (fuel : ℕ) (ready : List String) (deg : Degrees) (s : Sorted)
      → ((u : String) → or_else (get u adj) [] ≡ targets ids u cs)
      → length ready + unexpanded ids s.seen cs ≤ fuel
      → Invariant ready deg s
      → (end : Sorted) × (rest : Degrees) × (drain ns adj fuel ready deg s ≡ some end)
        × Invariant [] rest end
  unfolding drain
  drain-Invariant adj fuel [] deg s lists enough i = (s, deg, refl, i)
  drain-Invariant adj zero (id ∷ ready) deg s lists enough i = absurd (omega (arith, enough))
  drain-Invariant adj (suc fuel) (id ∷ ready) deg s lists enough i =
      elim (Bool-cases (includes s.seen id)) [
        | inl e ↦ rw e (
            drain-Invariant adj fuel ready deg s lists (omega (arith, enough))
              (Invariant-skip id ready deg s e i))
        | inr e ↦
            rw (e, lists id)
              (drain-Invariant adj fuel (release (targets ids id cs) deg ready)
                (lower (targets ids id cs) deg) (visit ns id s) lists
                (omega (
                  arith,
                  enough,
                  length-release (targets ids id cs) deg ready,
                  unexpanded-add ids id s.seen cs e,
                ))
                (Invariant-expand id ready deg s e i))
      ]
