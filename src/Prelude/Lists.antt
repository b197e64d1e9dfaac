-- ===== src/Prelude/Lists.antt =====
-- Lists measured by native numbers, Boolean searches, and predicates by recursion.
use Prim.Native.Nat.{ℕ, suc, ◌+◌}
use mathlib.Core.Path.{◌≡◌, refl, sym, ap, subst}
use mathlib.Core.Logic.{◌↔◌, ◌⊎◌, inl, inr, ⊎_elim}
use mathlib.Core.Bool.{Bool, true, false, ◌&&◌, ◌||◌}
use mathlib.Core.Option.{Option, none, some}
use mathlib.Core.List.{List, [], ◌∷◌, ◌++◌, map, Memᴰ}
use mathlib.Core.List.Memᴰ
use native.Mathlib.Omega.{arith}
use roya_api.Prelude.Tests.{if◌then◌else◌}
use roya_api.Prelude.Classes.{StrictEq, ◌==◌}

module _ {ℓ} {A : Type ℓ} where
  abbrev pub length : List A → ℕ
  length [] = 0
  length (x ∷ xs) = suc (length xs)

  pub length-append : (xs ys : List A) → length (xs ++ ys) ≡ length xs + length ys
  length-append [] ys = omega arith
  length-append (x ∷ xs) ys = omega (arith, length-append xs ys)

  abbrev pub any : (A → Bool) → List A → Bool
  any p [] = false
  any p (x ∷ xs) = p x || any p xs

  abbrev pub all : (A → Bool) → List A → Bool
  all p [] = true
  all p (x ∷ xs) = p x && all p xs

  -- `xs.filter(p)`
  abbrev pub filter : (A → Bool) → List A → List A
  filter p [] = []
  filter p (x ∷ xs) = let rest = filter p xs in if p x then x ∷ rest else rest

  -- `xs.find(p)`
  abbrev pub find : (A → Bool) → List A → Option A
  find p [] = none
  find p (x ∷ xs) = if p x then some x else find p xs

  pub Memᴰ-cons : (a x : A) (xs : List A) → Memᴰ a (x ∷ xs) ↔ ((a ≡ x) ⊎ Memᴰ a xs)
  Memᴰ-cons a x xs = (Memᴰ.cases_cons, ⊎_elim Memᴰ.head Memᴰ.tail)

  pub mem-filter :
      (p : A → Bool) (a : A) (xs : List A) → Memᴰ a (filter p xs) ↔ (Memᴰ a xs × (p a ≡ true))
  mem-filter p a [] = (λ m. absurd (Memᴰ.not-nil m), λ h. absurd (Memᴰ.not-nil h.0))
  mem-filter p a (x ∷ xs) =
      ground (arith, mem-filter p a xs, Memᴰ-cons a x xs, Memᴰ-cons a x (filter p xs))

  pub mem-append : (a : A) (xs ys : List A) → Memᴰ a (xs ++ ys) ↔ (Memᴰ a xs ⊎ Memᴰ a ys)
  mem-append a [] ys = (inr, ⊎_elim (λ m. absurd (Memᴰ.not-nil m)) (λ m. m))
  mem-append a (x ∷ xs) ys =
      ground (arith, mem-append a xs ys, Memᴰ-cons a x xs, Memᴰ-cons a x (xs ++ ys))

  pub List-cases : (xs : List A) → (xs ≡ []) ⊎ ((x : A) × (rest : List A) × (xs ≡ x ∷ rest))
  List-cases [] = inl refl
  List-cases (x ∷ xs) = inr (x, xs, refl)

module _ {ℓ} {A : Type ℓ} ⦃e : StrictEq A⦄ where
  -- `xs.includes(a)`, and `has` of a set
  abbrev pub includes : List A → A → Bool
  includes [] a = false
  includes (x ∷ xs) a = x == a || includes xs a

  -- `set.add(a)`: the members in the order in which they were first added
  unfoldable pub add : List A → A → List A
  add xs a = if includes xs a then xs else xs ++ a ∷ []

  -- `new Set(xs)`
  unfoldable pub add_all : List A → List A → List A
  unfolding add
  add_all set [] = set
  add_all set (x ∷ xs) = add_all (add set x) xs

  pub includes_iff : (xs : List A) (a : A) → (includes xs a ≡ true) ↔ Memᴰ a xs
  includes_iff [] a = (λ h. cc, λ m. absurd (Memᴰ.not-nil m))
  includes_iff (x ∷ xs) a = ground (arith, includes_iff xs a, Memᴰ-cons a x xs, e.equal_iff x a)

  pub includes-append :
      (xs ys : List A) (a : A) → includes (xs ++ ys) a ≡ (includes xs a || includes ys a)
  includes-append [] ys a = refl
  includes-append (x ∷ xs) ys a = ground (arith, includes-append xs ys a)

  pub includes-add :
      (xs : List A) (x a : A) → (includes (add xs x) a ≡ true) ↔ ((includes xs a ≡ true) ⊎ (x ≡ a))
  unfolding add
  includes-add xs x a = ground (arith, includes-append xs (x ∷ []) a, e.equal_iff x a)

  pub add-new : (xs : List A) (a : A) → includes xs a ≡ false → add xs a ≡ xs ++ a ∷ []
  unfolding add
  add-new xs a h = ground (arith, h)

  pub includes-add_all :
      (xs ys : List A) (a : A)
      → (includes (add_all xs ys) a ≡ true) ↔ ((includes xs a ≡ true) ⊎ (includes ys a ≡ true))
  unfolding add_all
  includes-add_all xs [] a = ground arith
  includes-add_all xs (y ∷ ys) a =
      ground (arith, includes-add_all (add xs y) ys a, includes-add xs y a, e.equal_iff y a)

pub Memᴰ-map {ℓ κ} :
    {A : Type ℓ} {B : Type κ} (f : A → B) (a : A) (xs : List A) → Memᴰ a xs → Memᴰ (f a) (map f xs)
Memᴰ-map f a [] m = absurd (Memᴰ.not-nil m)
Memᴰ-map f a (x ∷ xs) m = elim (Memᴰ.cases_cons m) [
  | inl e ↦ Memᴰ.head (ap f e)
  | inr t ↦ Memᴰ.tail (Memᴰ-map f a xs t)
]

pub map-Memᴰ {ℓ κ} :
    {A : Type ℓ} {B : Type κ} (f : A → B) (b : B) (xs : List A)
    → Memᴰ b (map f xs)
    → (a : A) × Memᴰ a xs × (b ≡ f a)
map-Memᴰ f b [] m = absurd (Memᴰ.not-nil m)
map-Memᴰ f b (x ∷ xs) m = elim (Memᴰ.cases_cons m) [
  | inl e ↦ (x, Memᴰ.head refl, e)
  | inr t ↦ let (a, n, e) = map-Memᴰ f b xs t in (a, Memᴰ.tail n, e)
]

module _ {ℓ κ} {A : Type ℓ} (P : A → Type κ) where
  abbrev pub All : List A → Type κ
  All [] = Unit
  All (x ∷ xs) = P x × All xs

  pub All-append : (xs ys : List A) → All xs → All ys → All (xs ++ ys)
  All-append [] ys h k = k
  All-append (x ∷ xs) ys (p, h) k = (p, All-append xs ys h k)

  pub All-mem : (a : A) (xs : List A) → All xs → Memᴰ a xs → P a
  All-mem a [] h m = absurd (Memᴰ.not-nil m)
  All-mem a (x ∷ xs) (p, h) m = elim (Memᴰ.cases_cons m) [
    | inl e ↦ subst P (sym e) p
    | inr later ↦ All-mem a xs h later
  ]

  pub mem-All : (xs : List A) → ((a : A) → Memᴰ a xs → P a) → All xs
  mem-All [] h = tt
  mem-All (x ∷ xs) h = (h x (Memᴰ.head refl), mem-All xs (λ a m. h a (Memᴰ.tail m)))
