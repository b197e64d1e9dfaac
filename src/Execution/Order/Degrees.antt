-- ===== src/Execution/Order/Degrees.antt =====
-- The two maps of `topologicalOrder` and what one round of its loop does to them.
use roya_api.Prelude.{
  String, ℕ, ◌+◌, ◌-◌, ◌≤◌, Bool, true, false, not, ◌&&◌, some, List, [], ◌∷◌, ◌++◌, if◌then◌else◌,
  ◌==◌, ==_iff, string_eq, includes, includes-append, includes-add, add, length, length-append,
  or_else, is_some, ◌≡◌, refl, ap, ◌∙◌, ◌↔◌, ◌⊎◌, inl, inr, arith, Bool-cases, append_assoc,
  append-nil, sym, Memᴰ, ==_refl, subst,
}
use mathlib.Core.List.Memᴰ
use roya_api.Prelude.Dict.{get, put, get-put}
use roya_api.Execution.{SnapshotNode, SnapshotConnection, snapshot_ids}
use roya_api.Execution.Order.{
  Degrees, Adjacency, zero_degrees, no_targets, dangles, count_target, push_target, fill, lower,
  enqueue, release,
}

-- How often `v` occurs.
abbrev pub occurs : String → List String → ℕ
occurs v [] = 0
occurs v (t ∷ ts) = (if t == v then 1 else 0) + occurs v ts

if_append :
    (b : Bool) (x : String) (xs : List String)
    → (if b then x ∷ [] else []) ++ xs ≡ (if b then x ∷ xs else xs)
if_append true x xs = refl
if_append false x xs = refl

module _ (ids : List String) where
  -- A connection between nodes of the flow.
  abbrev pub valid : SnapshotConnection → Bool
  valid c = includes ids c.target.node_id && includes ids c.source.node_id

  -- The targets of the valid connections from `u`.
  abbrev pub targets : String → List SnapshotConnection → List String
  targets u [] = []
  targets u (c ∷ cs) =
      let rest = targets u cs in
      if valid c && c.source.node_id == u then c.target.node_id ∷ rest else rest

  -- The valid connections to `v` from ids that are not seen.
  abbrev pub pending : List String → String → List SnapshotConnection → ℕ
  pending seen v [] = 0
  pending seen v (c ∷ cs) =
      (if valid c && c.target.node_id == v && not (includes seen c.source.node_id) then 1 else 0)
      + pending seen v cs

  -- The valid connections from ids that are not seen.
  abbrev pub unexpanded : List String → List SnapshotConnection → ℕ
  unexpanded seen [] = 0
  unexpanded seen (c ∷ cs) =
      (if valid c && not (includes seen c.source.node_id) then 1 else 0) + unexpanded seen cs

  pub unexpanded-le :
      (seen : List String) (cs : List SnapshotConnection) → unexpanded seen cs ≤ length cs
  unexpanded-le seen [] = omega arith
  unexpanded-le seen (c ∷ cs) = ground (arith, unexpanded-le seen cs)

  pub unexpanded-add :
      (u : String) (seen : List String) (cs : List SnapshotConnection)
      → includes seen u ≡ false
      → unexpanded (add seen u) cs + length (targets u cs) ≡ unexpanded seen cs
  unexpanded-add u seen [] new = omega arith
  unexpanded-add u seen (c ∷ cs) new = ground (
    arith,
    unexpanded-add u seen cs new,
    includes-add seen u c.source.node_id,
    ==_iff c.source.node_id u,
  )

  pub pending-add :
      (u v : String) (seen : List String) (cs : List SnapshotConnection)
      → includes seen u ≡ false
      → pending (add seen u) v cs + occurs v (targets u cs) ≡ pending seen v cs
  pending-add u v seen [] new = omega arith
  pending-add u v seen (c ∷ cs) new = ground (
    arith,
    pending-add u v seen cs new,
    includes-add seen u c.source.node_id,
    ==_iff c.source.node_id u,
  )

  pending-zero_first :
      (seen : List String) (c : SnapshotConnection) (cs : List SnapshotConnection)
      → valid c ≡ true
      → pending seen c.target.node_id (c ∷ cs) ≡ 0
      → includes seen c.source.node_id ≡ true
  pending-zero_first seen c cs h z = ground (arith, ==_refl c.target.node_id)

  pub pending-zero :
      (seen : List String) (c : SnapshotConnection) (cs : List SnapshotConnection)
      → Memᴰ c cs
      → valid c ≡ true
      → pending seen c.target.node_id cs ≡ 0
      → includes seen c.source.node_id ≡ true
  pending-zero seen c [] m h z = absurd (Memᴰ.not-nil m)
  pending-zero seen c (d ∷ cs) m h z = elim (Memᴰ.cases_cons m) [
    | inl e ↦
        pending-zero_first seen c cs h
          (subst (λ x. pending seen c.target.node_id (x ∷ cs) ≡ 0) (sym e) z)
    | inr later ↦ pending-zero seen c cs later h (omega arith)
  ]

  pub pending-source :
      (seen : List String) (v : String) (cs : List SnapshotConnection)
      → 1 ≤ pending seen v cs
      → (c : SnapshotConnection) × Memᴰ c cs
        × (valid c ≡ true)
        × (c.target.node_id ≡ v)
        × (includes seen c.source.node_id ≡ false)
  pending-source seen v [] h = absurd (omega arith)
  pending-source seen v (c ∷ cs) h =
      elim (Bool-cases (valid c && c.target.node_id == v && not (includes seen c.source.node_id))) [
        | inl e ↦ (
          c,
          Memᴰ.head refl,
          ground (arith, ==_iff c.target.node_id v),
          ground (arith, ==_iff c.target.node_id v),
          ground (arith, ==_iff c.target.node_id v),
        )
        | inr e ↦
            let (d, m, v_valid, v_target, v_source) =
              pending-source seen v cs (ground (arith, e)) in
            (d, Memᴰ.tail m, v_valid, v_target, v_source)
      ]

  pub targets-known :
      (u v : String) (cs : List SnapshotConnection)
      → includes (targets u cs) v ≡ true
      → includes ids v ≡ true
  targets-known u v [] h = cc
  targets-known u v (c ∷ cs) h = ground (arith, targets-known u v cs, ==_iff c.target.node_id v)

  -- The maps have the nodes' ids as keys.
  pub record HasKeys {ℓ} {V : Type ℓ} (m : List (String × V)) : Type 0 where
    pub keyed : (v : String) → is_some (get v m) ≡ includes ids v

  module _ (c : SnapshotConnection) (deg : Degrees) (adj : Adjacency) (hd : HasKeys deg)
      (ha : HasKeys adj) where
    dangles-valid : dangles c deg adj ≡ not (valid c)
    dangles-valid = ground (arith, hd.keyed c.target.node_id, ha.keyed c.source.node_id)

    HasKeys-count_target : HasKeys (count_target c deg adj)
    HasKeys-count_target = record {
      keyed = λ w. ground (
        arith,
        hd.keyed w,
        hd.keyed c.target.node_id,
        ==_iff c.target.node_id w,
        get-put c.target.node_id w (or_else (get c.target.node_id deg) 0 + 1) deg,
      );
    }

    HasKeys-push_target : HasKeys (push_target c deg adj)
    HasKeys-push_target = record {
      keyed = λ w. ground (
        arith,
        ha.keyed w,
        ha.keyed c.source.node_id,
        ==_iff c.source.node_id w,
        get-put c.source.node_id w (or_else (get c.source.node_id adj) [] ++ c.target.node_id ∷ [])
            adj,
      );
    }

    count_target-degree :
        (v : String)
        → or_else (get v (count_target c deg adj)) 0
          ≡ or_else (get v deg) 0 + (if valid c && c.target.node_id == v then 1 else 0)
    count_target-degree v = ground (
      arith,
      dangles-valid,
      ==_iff c.target.node_id v,
      get-put c.target.node_id v (or_else (get c.target.node_id deg) 0 + 1) deg,
    )

    push_target-targets :
        (u : String)
        → or_else (get u (push_target c deg adj)) []
          ≡ or_else (get u adj) []
            ++ (if valid c && c.source.node_id == u then c.target.node_id ∷ [] else [])
    push_target-targets u = ground (
      arith,
      dangles-valid,
      ==_iff c.source.node_id u,
      append-nil (or_else (get u adj) []),
      get-put c.source.node_id u (or_else (get c.source.node_id adj) [] ++ c.target.node_id ∷ [])
          adj,
    )

  pub fill_lem :
      (cs : List SnapshotConnection) (deg : Degrees) (adj : Adjacency)
      → HasKeys deg
      → HasKeys adj
      → HasKeys (fill cs (deg, adj)).0
        × ((v : String)
            → or_else (get v (fill cs (deg, adj)).0) 0 ≡ or_else (get v deg) 0 + pending [] v cs)
        × ((u : String)
            → or_else (get u (fill cs (deg, adj)).1) [] ≡ or_else (get u adj) [] ++ targets u cs)
  unfolding fill
  fill_lem [] deg adj hd ha = (hd, λ v. omega arith, λ u. sym (append-nil _))
  fill_lem (c ∷ cs) deg adj hd ha =
      let (has, degrees, lists) =
        fill_lem cs (count_target c deg adj) (push_target c deg adj)
          (HasKeys-count_target c deg adj hd ha) (HasKeys-push_target c deg adj hd ha) in
      (
        has,
        λ v. ground (arith, degrees v, count_target-degree c deg adj hd ha v),
        λ u.
            lists u
            ∙ ap (λ xs. xs ++ targets u cs) (push_target-targets c deg adj hd ha u)
            ∙ append_assoc (or_else (get u adj) []) _ _
            ∙ ap (λ xs. or_else (get u adj) [] ++ xs)
                (if_append (valid c && c.source.node_id == u) c.target.node_id (targets u cs)),
      )

pub zero_degrees-get :
    (ns : List SnapshotNode) (deg : Degrees) (v : String)
    → get v (zero_degrees ns deg) ≡ (if includes (snapshot_ids ns) v then some 0 else get v deg)
unfolding zero_degrees
zero_degrees-get [] deg v = refl
zero_degrees-get (n ∷ ns) deg v =
    ground (arith, zero_degrees-get ns (put n.node_id 0 deg) v, get-put n.node_id v 0 deg)

pub no_targets-get :
    (ns : List SnapshotNode) (adj : Adjacency) (v : String)
    → get v (no_targets ns adj) ≡ (if includes (snapshot_ids ns) v then some [] else get v adj)
unfolding no_targets
no_targets-get [] adj v = refl
no_targets-get (n ∷ ns) adj v =
    ground (arith, no_targets-get ns (put n.node_id [] adj) v, get-put n.node_id v [] adj)

pub lower-degree :
    (ts : List String) (deg : Degrees) (v : String)
    → or_else (get v (lower ts deg)) 0 ≡ or_else (get v deg) 0 - occurs v ts
unfolding lower
lower-degree [] deg v = omega arith
lower-degree (t ∷ ts) deg v = ground (
  arith,
  lower-degree ts (put t (or_else (get t deg) 0 - 1) deg) v,
  ==_iff t v,
  get-put t v (or_else (get t deg) 0 - 1) deg,
)

includes-enqueue :
    (d : ℕ) (t : String) (ready : List String) (v : String)
    → (includes (enqueue d t ready) v ≡ true) ↔ ((includes ready v ≡ true) ⊎ (d ≡ 0) × (t ≡ v))
unfolding enqueue
includes-enqueue d t ready v = ground (arith, includes-append ready (t ∷ []) v, ==_iff t v)

length-enqueue :
    (d : ℕ) (t : String) (ready : List String) → length (enqueue d t ready) ≤ length ready + 1
unfolding enqueue
length-enqueue d t ready = ground (arith, length-append ready (t ∷ []))

-- A target is queued when its last connection is taken off.
pub release_iff :
    (ts : List String) (deg : Degrees) (ready : List String) (v : String)
    → (includes (release ts deg ready) v ≡ true)
      ↔ ((includes ready v ≡ true) ⊎ (1 ≤ occurs v ts) × (or_else (get v deg) 0 ≤ occurs v ts))
unfolding release
release_iff [] deg ready v = ground arith
release_iff (t ∷ ts) deg ready v =
    let d : ℕ = or_else (get t deg) 0 - 1 in
    ground (
      arith,
      release_iff ts (put t d deg) (enqueue d t ready) v,
      includes-enqueue d t ready v,
      ==_iff t v,
      get-put t v d deg,
    )

pub length-release :
    (ts : List String) (deg : Degrees) (ready : List String)
    → length (release ts deg ready) ≤ length ready + length ts
unfolding release
length-release [] deg ready = omega arith
length-release (t ∷ ts) deg ready =
    let d : ℕ = or_else (get t deg) 0 - 1 in
    omega (arith, length-release ts (put t d deg) (enqueue d t ready), length-enqueue d t ready)
