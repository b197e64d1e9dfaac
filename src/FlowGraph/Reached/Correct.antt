-- ===== src/FlowGraph/Reached/Correct.antt =====
-- Lemmas on the breadth-first search: its measure, and what the connections lead to.
use roya_api.Prelude.{
  String, ℕ, zero, suc, ◌+◌, ◌≤◌, true, false, some, List, [], ◌∷◌, ◌++◌, Memᴰ, if◌then◌else◌, ◌==◌,
  ==_iff, string_eq, includes, includes-append, includes-add, length, length-append, ◌≡◌, refl, sym,
  subst, ◌↔◌, ◌⊎◌, inl, inr, ⊎_elim, Bool-cases, arith, add,
}
use roya_api.FlowGraph.{FlowConnectionPlain}
use roya_api.FlowGraph.Reached.{push_targets, visit, reached_from}
use mathlib.Core.List.Memᴰ

module _ (connections : List FlowConnectionPlain) (roots : List String) where
  -- What the connections lead to from the roots.
  pub data Reach : String → Type 0 where
    root : {v : String} → includes roots v ≡ true → Reach v
    along :
        {u v : String} (c : FlowConnectionPlain)
        → Memᴰ c connections
        → c.source.node_id ≡ u
        → c.target.node_id ≡ v
        → Reach u
        → Reach v

-- The connections of `cs` from `u`.
abbrev leaving : String → List FlowConnectionPlain → ℕ
leaving u [] = 0
leaving u (c ∷ cs) = (if c.source.node_id == u then 1 else 0) + leaving u cs

-- The connections of `cs` whose source is not reached.
abbrev unexpanded : List String → List FlowConnectionPlain → ℕ
unexpanded reached [] = 0
unexpanded reached (c ∷ cs) =
    (if includes reached c.source.node_id then 0 else 1) + unexpanded reached cs

length-push_targets :
    (u : String) (cs : List FlowConnectionPlain) (q : List String)
    → length (push_targets u cs q) ≡ length q + leaving u cs
unfolding push_targets
length-push_targets u [] q = omega arith
length-push_targets u (c ∷ cs) q = elim (Bool-cases (c.source.node_id == u)) [
  | inl same ↦ rw same (
      omega (
        arith,
        length-push_targets u cs (q ++ c.target.node_id ∷ []),
        length-append q (c.target.node_id ∷ []),
      ))
  | inr other ↦ rw other (omega (arith, length-push_targets u cs q))
]

unexpanded-add :
    (u : String) (reached : List String) (cs : List FlowConnectionPlain)
    → includes reached u ≡ false
    → unexpanded (add reached u) cs + leaving u cs ≡ unexpanded reached cs
unexpanded-add u reached [] new = omega arith
unexpanded-add u reached (c ∷ cs) new = ground (
  arith,
  unexpanded-add u reached cs new,
  includes-add reached u c.source.node_id,
  ==_iff c.source.node_id u,
)

unexpanded-none : (cs : List FlowConnectionPlain) → unexpanded [] cs ≡ length cs
unexpanded-none [] = refl
unexpanded-none (c ∷ cs) = omega (arith, unexpanded-none cs)

-- A target is queued for each connection from `u`, and nothing else.
module _ (u : String) where
  push_targets-old :
      (cs : List FlowConnectionPlain) (q : List String) (v : String)
      → includes q v ≡ true
      → includes (push_targets u cs q) v ≡ true
  unfolding push_targets
  push_targets-old [] q v h = h
  push_targets-old (c ∷ cs) q v h =
      push_targets-old cs _ v (ground (arith, includes-append q (c.target.node_id ∷ []) v))

  push_targets-new :
      (cs : List FlowConnectionPlain) (q : List String) (c : FlowConnectionPlain)
      → Memᴰ c cs
      → c.source.node_id ≡ u
      → includes (push_targets u cs q) c.target.node_id ≡ true
  unfolding push_targets
  push_targets-new [] q c m h = absurd (Memᴰ.not-nil m)
  push_targets-new (d ∷ cs) q c m h = elim (Memᴰ.cases_cons m) [
    | inr later ↦ push_targets-new cs _ c later h
    | inl same ↦ push_targets-old cs _ _ (subst Pushed (sym same) pushed h)
  ]
    where
      Pushed : FlowConnectionPlain → Type 0
      Pushed x =
          x.source.node_id ≡ u
          → includes (if d.source.node_id == u then q ++ d.target.node_id ∷ [] else q)
              x.target.node_id
            ≡ true

      pushed : Pushed d
      pushed e = ground (
        arith,
        ==_iff d.source.node_id u,
        ==_iff d.target.node_id d.target.node_id,
        includes-append q (d.target.node_id ∷ []) d.target.node_id,
      )

  pushed_cases :
      (c : FlowConnectionPlain) (q : List String) (w : String)
      → includes (if c.source.node_id == u then q ++ c.target.node_id ∷ [] else q) w ≡ true
      → (includes q w ≡ true) ⊎ (c.source.node_id ≡ u) × (c.target.node_id ≡ w)
  pushed_cases c q w h = ground (
    arith,
    includes-append q (c.target.node_id ∷ []) w,
    ==_iff c.target.node_id w,
    ==_iff c.source.node_id u,
  )

  push_targets-from :
      (P : String → Type 0) (cs : List FlowConnectionPlain) (q : List String) (v : String)
      → ((w : String) → includes q w ≡ true → P w)
      → ((c : FlowConnectionPlain) → Memᴰ c cs → c.source.node_id ≡ u → P c.target.node_id)
      → includes (push_targets u cs q) v ≡ true
      → P v
  unfolding push_targets
  push_targets-from P [] q v old new h = old v h
  push_targets-from P (c ∷ cs) q v old new h =
      push_targets-from P cs _ v
        (λ w k.
          ⊎_elim (old w) (λ (leaves, target). subst P target (new c (Memᴰ.head refl) leaves))
            (pushed_cases c q w k))
        (λ d m. new d (Memᴰ.tail m)) h

module _ (connections : List FlowConnectionPlain) (roots : List String) where
  record Inv (q reached : List String) : Type 0 where
    queued : (v : String) → includes q v ≡ true → Reach connections roots v
    sound : (v : String) → includes reached v ≡ true → Reach connections roots v
    started :
        (v : String) → includes roots v ≡ true → (includes q v ≡ true) ⊎ (includes reached v ≡ true)
    closed :
        (c : FlowConnectionPlain)
        → Memᴰ c connections
        → includes reached c.source.node_id ≡ true
        → (includes q c.target.node_id ≡ true) ⊎ (includes reached c.target.node_id ≡ true)

  Inv-start : Inv roots []
  Inv-start = record {
    queued = λ v h. root h;
    sound = λ v h. cc;
    started = λ v h. inl h;
    closed = λ c m h. cc;
  }

  Inv-skip :
      (u : String) (q reached : List String)
      → includes reached u ≡ true
      → Inv (u ∷ q) reached
      → Inv q reached
  Inv-skip u q reached old inv = record {
    queued = λ v h. inv.queued v (ground arith);
    sound = inv.sound;
    started = λ v h. ground (arith, inv.started v, ==_iff u v);
    closed = λ c m h. ground (arith, inv.closed c m, ==_iff u c.target.node_id);
  }

  Inv-expand :
      (u : String) (q reached : List String)
      → Inv (u ∷ q) reached
      → Inv (push_targets u connections q) (add reached u)
  Inv-expand u q reached inv = record {
    queued = λ v.
        push_targets-from u (Reach connections roots) connections q v
          (λ w h. inv.queued w (ground arith)) (λ c m leaves. along c m leaves refl to_u);
    sound = λ v h.
        ⊎_elim (inv.sound v) (λ e. subst (Reach connections roots) e to_u)
          ((includes-add reached u v).0 h);
    started = λ v h. ground (
      arith,
      inv.started v h,
      ==_iff u v,
      includes-add reached u v,
      push_targets-old u connections q v,
    );
    closed = λ c m h. elim (Bool-cases (includes reached c.source.node_id)) [
      | inl before ↦ ground (
        arith,
        inv.closed c m before,
        ==_iff u c.target.node_id,
        includes-add reached u c.target.node_id,
        push_targets-old u connections q c.target.node_id,
      )
      | inr now ↦ inl (
          push_targets-new u connections q c m
            (ground (arith, includes-add reached u c.source.node_id)))
    ];
  }
    where
      to_u : Reach connections roots u
      to_u = inv.queued u (ground (arith, ==_iff u u))

  Decides : List String → Type 0
  Decides reached = (v : String) → (includes reached v ≡ true) ↔ Reach connections roots v

  complete :
      (reached : List String)
      → Inv [] reached
      → {v : String} → Reach connections roots v
      → includes reached v ≡ true
  complete reached inv (root h) = ground (arith, inv.started _ h)
  complete reached inv (along c m from to r) =
      let source_reached =
        subst (λ x. includes reached x ≡ true) (sym from) (complete reached inv r) in
      subst (λ x. includes reached x ≡ true) to (ground (arith, inv.closed c m source_reached))

  visit_lem :
      (fuel : ℕ) (q reached : List String)
      → length q + unexpanded reached connections ≤ fuel
      → Inv q reached
      → (r : List String) × (visit connections fuel q reached ≡ some r) × Decides r
  unfolding visit Decides
  visit_lem zero [] reached enough inv = (reached, refl, λ v. (inv.sound v, complete reached inv))
  visit_lem (suc fuel) [] reached enough inv =
      (reached, refl, λ v. (inv.sound v, complete reached inv))
  visit_lem zero (u ∷ q) reached enough inv = absurd (omega arith)
  visit_lem (suc fuel) (u ∷ q) reached enough inv = elim (Bool-cases (includes reached u)) [
    | inl old ↦ rw old (visit_lem fuel q reached (omega arith) (Inv-skip u q reached old inv))
    | inr new ↦ rw new (
        visit_lem fuel (push_targets u connections q) (add reached u)
          (omega
            (arith, length-push_targets u connections q, unexpanded-add u reached connections new))
          (Inv-expand u q reached inv))
  ]

  -- With fuel for the roots and every connection, the search ends and decides what is reached.
  pub visit-Reach :
      (fuel : ℕ)
      → length roots + length connections ≤ fuel
      → (r : List String) × (visit connections fuel roots [] ≡ some r)
        × ((v : String) → (includes r v ≡ true) ↔ Reach connections roots v)
  unfolding Decides
  visit-Reach fuel enough =
      visit_lem fuel roots [] (omega (arith, enough, unexpanded-none connections)) Inv-start

  -- The ids that the search reports are those that the connections lead to from the roots.
  pub reached_from_iff :
      (v : String)
      → (includes (reached_from connections roots) v ≡ true) ↔ Reach connections roots v
  unfolding reached_from Decides
  reached_from_iff v =
      let (r, ends, decides) =
        visit_lem (length roots + length connections) roots []
          (omega (arith, unexpanded-none connections)) Inv-start in
      rw ends (decides v)
