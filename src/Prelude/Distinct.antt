-- ===== src/Prelude/Distinct.antt =====
-- Lists without repetitions, how long they can be, and the order of their members.
use Prim.Native.Nat.{suc, ◌≤◌}
use mathlib.Core.Path.{◌≡◌}
use mathlib.Core.Logic.{◌⊎◌, inl, inr}
use mathlib.Core.Bool.{true, false}
use mathlib.Core.List.{List, [], ◌∷◌, ◌++◌}
use native.Mathlib.Omega.{arith}
use roya_api.Prelude.Tests.{if◌then◌else◌, Bool-cases}
use roya_api.Prelude.Classes.{StrictEq, ◌==◌, ==_iff, ==_refl}
use roya_api.Prelude.Lists.{includes, includes-append, length}

module _ {ℓ} {A : Type ℓ} ⦃e : StrictEq A⦄ where
  -- No member occurs again.
  abbrev pub Distinct : List A → Type 0
  Distinct [] = Unit
  Distinct (x ∷ xs) = (includes xs x ≡ false) × Distinct xs

  -- Every member of the first list is one of the second.
  abbrev pub Within : List A → List A → Type ℓ
  Within xs ys = (a : A) → includes xs a ≡ true → includes ys a ≡ true

  abbrev without : A → List A → List A
  without a [] = []
  without a (x ∷ xs) = if x == a then xs else x ∷ without a xs

  length-without :
      (a : A) (xs : List A) → includes xs a ≡ true → suc (length (without a xs)) ≡ length xs
  length-without a [] h = ground arith
  length-without a (x ∷ xs) h = ground (arith, length-without a xs)

  includes-without :
      (a b : A) (xs : List A)
      → (b == a) ≡ false
      → includes xs b ≡ true
      → includes (without a xs) b ≡ true
  includes-without a b [] d h = ground arith
  includes-without a b (x ∷ xs) d h =
      ground (arith, includes-without a b xs d, e.equal_iff x b, e.equal_iff x a, e.equal_iff b a)

  -- A list without repetitions is no longer than a list that has all its members.
  pub Distinct-length : (xs ys : List A) → Distinct xs → Within xs ys → length xs ≤ length ys
  Distinct-length [] ys d w = omega arith
  Distinct-length (x ∷ xs) ys (new, d) w = omega (
    arith,
    Distinct-length xs (without x ys) d later,
    length-without x ys (w x (ground (arith, ==_refl x))),
  )
    where
      later : Within xs (without x ys)
      later a h = includes-without x a ys (ground (arith, e.equal_iff a x)) (w a (ground arith))

  pub Distinct-append :
      (xs : List A) (x : A) → Distinct xs → includes xs x ≡ false → Distinct (xs ++ x ∷ [])
  Distinct-append [] x d new = ground arith
  Distinct-append (y ∷ ys) x (old, d) new = (
    ground (arith, includes-append ys (x ∷ []) y, e.equal_iff x y, e.equal_iff y x),
    Distinct-append ys x d (ground arith),
  )

  -- `a` stands before `b`.
  pub data Before (a b : A) : List A → Type ℓ where
    here : {x : A} {xs : List A} → x ≡ a → includes xs b ≡ true → Before a b (x ∷ xs)
    later : {x : A} {xs : List A} → Before a b xs → Before a b (x ∷ xs)

  pub Before-append : {a b : A} {xs : List A} (ys : List A) → Before a b xs → Before a b (xs ++ ys)
  Before-append {b} ys (here {xs = t} h m) = here h (ground (arith, includes-append t ys b))
  Before-append ys (later p) = later (Before-append ys p)

  pub Before-last : (a b : A) (xs : List A) → includes xs a ≡ true → Before a b (xs ++ b ∷ [])
  Before-last a b [] h = absurd (ground arith)
  Before-last a b (x ∷ xs) h = elim (Bool-cases (x == a)) [
    | inl same ↦
        here ((==_iff x a).0 same) (ground (arith, includes-append xs (b ∷ []) b, ==_refl b))
    | inr other ↦ later (Before-last a b xs (ground arith))
  ]

  pub Before-nil : {a b : A} → Before a b [] → ⊥
  Before-nil p = elim p [ ]

  pub Before-cons :
      {a b x : A} {xs : List A}
      → Before a b (x ∷ xs)
      → ((x ≡ a) × (includes xs b ≡ true)) ⊎ Before a b xs
  Before-cons (here e h) = inl (e, h)
  Before-cons (later p) = inr p

  -- Lists without a member in common.
  pub Distinct-append_all :
      (xs ys : List A)
      → Distinct xs
      → Distinct ys
      → ((a : A) → includes ys a ≡ true → includes xs a ≡ false)
      → Distinct (xs ++ ys)
  Distinct-append_all [] ys d other apart = other
  Distinct-append_all (x ∷ xs) ys (new, d) other apart = (
    ground (arith, includes-append xs ys x, apart x, Bool-cases (includes ys x), e.equal_iff x x),
    Distinct-append_all xs ys d other (λ a h. ground (arith, apart a h)),
  )
