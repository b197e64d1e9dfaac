-- ===== src/Prelude/Dict.antt =====
-- A JavaScript `Map`: entries in the order in which their keys were first set.
use mathlib.Core.Path.{◌≡◌, refl}
use mathlib.Core.Logic.{inl, inr}
use mathlib.Core.Bool.{false}
use mathlib.Core.Option.{Option, none, some}
use mathlib.Core.List.{List, [], ◌∷◌}
use native.Mathlib.Omega.{arith}
use roya_api.Prelude.Tests.{if◌then◌else◌, is_some, Bool-cases}
use roya_api.Prelude.Classes.{StrictEq, ◌==◌, ==_refl}
use roya_api.Prelude.Lists.{includes}
use roya_api.Prelude.Distinct.{Distinct}

abbrev pub Dict {ℓ} : Type 0 → Type ℓ → Type ℓ
Dict K V = List (K × V)

module _ {ℓ} {K : Type 0} {V : Type ℓ} ⦃e : StrictEq K⦄ where
  -- `m.get(k)`
  abbrev pub get : K → List (K × V) → Option V
  get k [] = none
  get k ((j, v) ∷ m) = if j == k then some v else get k m

  -- `m.set(k, v)`
  abbrev pub put : K → V → List (K × V) → List (K × V)
  put k v [] = (k, v) ∷ []
  put k v ((j, w) ∷ m) = if j == k then (j, v) ∷ m else (j, w) ∷ put k v m

  -- `m.keys()`
  abbrev pub keys : List (K × V) → List K
  keys [] = []
  keys ((j, v) ∷ m) = j ∷ keys m

  pub get-put :
      (k j : K) (v : V) (m : List (K × V))
      → get j (put k v m) ≡ (if k == j then some v else get j m)
  get-put k j v [] = refl
  get-put k j v ((i, w) ∷ m) =
      ground (arith, e.equal_iff k j, e.equal_iff i k, e.equal_iff i j, get-put k j v m)

  pub get-put_self : (k : K) (v : V) (m : List (K × V)) → get k (put k v m) ≡ some v
  get-put_self k v m = ground (arith, get-put k k v m, ==_refl k)

  pub get-put_other :
      (k j : K) (v : V) (m : List (K × V)) → (k == j) ≡ false → get j (put k v m) ≡ get j m
  get-put_other k j v m other = ground (arith, get-put k j v m)

  pub includes-keys : (k : K) (m : List (K × V)) → includes (keys m) k ≡ is_some (get k m)
  includes-keys k [] = refl
  includes-keys k ((j, v) ∷ m) = ground (arith, includes-keys k m)

  pub Distinct-put :
      (k : K) (v : V) (m : List (K × V)) → Distinct (keys m) → Distinct (keys (put k v m))
  Distinct-put k v [] h = ground arith
  Distinct-put k v ((j, w) ∷ m) (new, h) = elim (Bool-cases (j == k)) [
    | inl same ↦ rw same (new, h)
    | inr other ↦ rw other (
      ground (
        arith,
        includes-keys j (put k v m),
        includes-keys j m,
        get-put k j v m,
        e.equal_iff k j,
        e.equal_iff j k,
      ),
      Distinct-put k v m h,
    )
  ]
