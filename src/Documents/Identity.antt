-- ===== src/Documents/Identity.antt =====
-- Documents are told apart by their ids: lemmas on updates of one document.
use roya_api.Prelude.{
  String, Bool, true, false, some, List, [], ◌∷◌, map, if◌then◌else◌, find, All, includes,
  includes_iff, Memᴰ, Memᴰ-map, ◌==◌, string_eq, ==_iff, ◌≡◌, refl, sym, subst, ap, ◌∙◌, arith,
  Bool-cases, ◌⊎◌, inl, inr,
}
use roya_api.Prelude.Distinct.{Distinct}
use mathlib.Core.List.Memᴰ
use roya_api.Documents.Updates.{update_one, update_many}

module _ {A : Type 0} (id : A → String) where
  abbrev pub ids : List A → List String
  ids = map id

  pub ids-includes : (a : A) (xs : List A) → Memᴰ a xs → includes (ids xs) (id a) ≡ true
  ids-includes a xs m = (includes_iff (ids xs) (id a)).1 (Memᴰ-map id a xs m)

  pub ids-found :
      (i : String) (xs : List A) → includes (ids xs) i ≡ true → (a : A) × Memᴰ a xs × (id a ≡ i)
  ids-found i [] h = absurd (ground (arith, h))
  ids-found i (x ∷ xs) h = elim (Bool-cases (id x == i)) [
    | inl same ↦ (x, Memᴰ.head refl, (==_iff (id x) i).0 same)
    | inr other ↦ let (a, m, e) = ids-found i xs (ground (arith, h, other)) in (a, Memᴰ.tail m, e)
  ]

  -- Two members with one id are the same.
  pub Distinct-unique :
      (xs : List A) (a b : A) → Distinct (ids xs) → Memᴰ a xs → Memᴰ b xs → id a ≡ id b → a ≡ b
  Distinct-unique [] a b d m n e = absurd (Memᴰ.not-nil m)
  Distinct-unique (x ∷ xs) a b (new, d) m n e = elim (Memᴰ.cases_cons m) [
    | inl p ↦ elim (Memᴰ.cases_cons n) [
      | inl q ↦ p ∙ sym q
      | inr q ↦ absurd (ground (arith, new, ids-includes b xs q, ap id p, e))
    ]
    | inr p ↦ elim (Memᴰ.cases_cons n) [
      | inl q ↦ absurd (ground (arith, new, ids-includes a xs p, ap id q, e))
      | inr q ↦ Distinct-unique xs a b d p q e
    ]
  ]

  module _ (i : String) (f : A → A) where
    -- A member after an update of one document: the document updated, or another.
    pub mem-update_one :
        (xs : List A) (y : A)
        → Distinct (ids xs)
        → Memᴰ y (update_one (λ x. id x == i) f xs)
        → ((x : A) × Memᴰ x xs × (id x ≡ i) × (y ≡ f x)) ⊎ (Memᴰ y xs × ((id y == i) ≡ false))
    mem-update_one [] y d m = absurd (Memᴰ.not-nil m)
    mem-update_one (x ∷ xs) y (new, d) m = elim (Bool-cases (id x == i)) [
      | inl same ↦ elim (Memᴰ.cases_cons (rw same at m)) [
        | inl e ↦ inl (x, Memᴰ.head refl, (==_iff (id x) i).0 same, e)
        | inr t ↦ inr (
          Memᴰ.tail t,
          ground (arith, new, ids-includes y xs t, ==_iff (id y) i, ==_iff (id x) i, same),
        )
      ]
      | inr other ↦ elim (Memᴰ.cases_cons (rw other at m)) [
        | inl e ↦ inr (Memᴰ.head e, ap (λ a. id a == i) e ∙ other)
        | inr t ↦ elim (mem-update_one xs y d t) [
          | inl (a, p, q, r) ↦ inl (a, Memᴰ.tail p, q, r)
          | inr (p, q) ↦ inr (Memᴰ.tail p, q)
        ]
      ]
    ]

    pub ids-update_one :
        (xs : List A)
        → ((x : A) → id (f x) ≡ id x)
        → ids (update_one (λ x. id x == i) f xs) ≡ ids xs
    ids-update_one [] same = refl
    ids-update_one (x ∷ xs) same = elim (Bool-cases (id x == i)) [
      | inl hit ↦ rw hit (ap (λ t. t ∷ ids xs) (same x))
      | inr miss ↦ rw miss (ap (λ t. id x ∷ t) (ids-update_one xs same))
    ]

    -- The updated document is found under its id.
    pub find-update_one :
        (xs : List A) (x : A)
        → ((x : A) → id (f x) ≡ id x)
        → find (λ x. id x == i) xs ≡ some x
        → find (λ x. id x == i) (update_one (λ x. id x == i) f xs) ≡ some (f x)
    find-update_one [] x same h = absurd (cc)
    find-update_one (a ∷ xs) x same h = elim (Bool-cases (id a == i)) [
      | inl hit ↦
          let e : a ≡ x = ground (arith, h, hit) in
          rw hit (rw (ap (λ t. t == i) (same a) ∙ hit) (ap (λ t. some (f t)) e))
      | inr miss ↦ rw miss (rw miss (find-update_one xs x same (ground (arith, h, miss))))
    ]

    -- Another is found as before.
    pub find-update_one_other :
        (j : String) (xs : List A)
        → (i == j) ≡ false
        → ((x : A) → id (f x) ≡ id x)
        → find (λ x. id x == j) (update_one (λ x. id x == i) f xs) ≡ find (λ x. id x == j) xs
    find-update_one_other j [] other same = refl
    find-update_one_other j (a ∷ xs) other same = elim (Bool-cases (id a == i)) [
      | inl hit ↦
          let away : (id a == j) ≡ false =
            ground (arith, hit, other, ==_iff (id a) i, ==_iff i j) in
          rw hit (rw (ap (λ t. t == j) (same a) ∙ away) (rw away refl))
      | inr miss ↦
          rw miss
            (ap (λ o. if id a == j then some a else o) (find-update_one_other j xs other same))
    ]

module _ {A : Type 0} (P : A → Type 0) (p : A → Bool) (f : A → A) where
  pub All-update_one :
      (xs : List A) → ((x : A) → p x ≡ true → P x → P (f x)) → All P xs → All P (update_one p f xs)
  All-update_one [] keeps h = h
  All-update_one (x ∷ xs) keeps (q, h) = elim (Bool-cases (p x)) [
    | inl hit ↦ rw hit (keeps x hit q, h)
    | inr miss ↦ rw miss (q, All-update_one xs keeps h)
  ]

  pub All-update_many :
      (xs : List A) → ((x : A) → p x ≡ true → P x → P (f x)) → All P xs → All P (update_many p f xs)
  All-update_many [] keeps h = h
  All-update_many (x ∷ xs) keeps (q, h) = elim (Bool-cases (p x)) [
    | inl hit ↦ rw hit (keeps x hit q, All-update_many xs keeps h)
    | inr miss ↦ rw miss (q, All-update_many xs keeps h)
  ]

module _ {A B : Type 0} (g : A → B) (p : A → Bool) (f : A → A) where
  pub map-update_one :
      (xs : List A) → ((x : A) → g (f x) ≡ g x) → map g (update_one p f xs) ≡ map g xs
  map-update_one [] same = refl
  map-update_one (x ∷ xs) same = elim (Bool-cases (p x)) [
    | inl hit ↦ rw hit (ap (λ t. t ∷ map g xs) (same x))
    | inr miss ↦ rw miss (ap (λ t. g x ∷ t) (map-update_one xs same))
  ]

  pub map-update_many :
      (xs : List A) → ((x : A) → g (f x) ≡ g x) → map g (update_many p f xs) ≡ map g xs
  map-update_many [] same = refl
  map-update_many (x ∷ xs) same = elim (Bool-cases (p x)) [
    | inl hit ↦ rw hit (cc (same x, map-update_many xs same))
    | inr miss ↦ rw miss (ap (λ t. g x ∷ t) (map-update_many xs same))
  ]

module _ {A : Type 0} (p : A → Bool) where
  pub find-mem : (xs : List A) (a : A) → find p xs ≡ some a → Memᴰ a xs × (p a ≡ true)
  find-mem [] a h = absurd (cc h)
  find-mem (x ∷ xs) a h = elim (Bool-cases (p x)) [
    | inl hit ↦
        let e : some x ≡ some a = rw hit at h in
        let same : x ≡ a = cc e in (Memᴰ.head (sym same), subst (λ t. p t ≡ true) same hit)
    | inr miss ↦ let (m, q) = find-mem xs a (rw miss at h) in (Memᴰ.tail m, q)
  ]

  pub mem-find : (xs : List A) (a : A) → Memᴰ a xs → p a ≡ true → (b : A) × (find p xs ≡ some b)
  mem-find [] a m h = absurd (Memᴰ.not-nil m)
  mem-find (x ∷ xs) a m h = elim (Bool-cases (p x)) [
    | inl hit ↦ rw hit (x, refl)
    | inr miss ↦ elim (Memᴰ.cases_cons m) [
      | inl e ↦ absurd (cc (ap p e, h, miss))
      | inr t ↦ rw miss (mem-find xs a t h)
    ]
  ]

  -- A member has its counterpart after an update.
  pub mem-update :
      (f : A → A) (xs : List A) (a : A)
      → Memᴰ a xs
      → (b : A) × Memᴰ b (update_one p f xs) × ((b ≡ a) ⊎ (b ≡ f a))
  mem-update f [] a m = absurd (Memᴰ.not-nil m)
  mem-update f (x ∷ xs) a m = elim (Bool-cases (p x)) [
    | inl hit ↦ elim (Memᴰ.cases_cons m) [
      | inl e ↦ rw hit (f x, Memᴰ.head refl, inr (ap f (sym e)))
      | inr t ↦ rw hit (a, Memᴰ.tail t, inl refl)
    ]
    | inr miss ↦ elim (Memᴰ.cases_cons m) [
      | inl e ↦ rw miss (a, Memᴰ.head e, inl refl)
      | inr t ↦ rw miss (let (b, n, e) = mem-update f xs a t in (b, Memᴰ.tail n, e))
    ]
  ]

-- A document that is saved under its id is found under it.
pub find-saved :
    {A : Type 0} (id : A → String) (i : String) (xs : List A) (x y : A)
    → find (λ a. id a == i) xs ≡ some x
    → id y ≡ i
    → find (λ a. id a == i) (update_one (λ a. id a == i) (λ a. y) xs) ≡ some y
find-saved id i [] x y h e = absurd (cc h)
find-saved id i (a ∷ xs) x y h e = elim (Bool-cases (id a == i)) [
  | inl hit ↦ rw hit (rw ((==_iff (id y) i).1 e) refl)
  | inr miss ↦
      let later : find (λ a. id a == i) xs ≡ some x = rw miss at h in
      rw miss (rw miss (find-saved id i xs x y later e))
]
