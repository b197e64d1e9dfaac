-- ===== src/FlowGraph/Accepted/Base.antt =====
-- Lists of issues that are empty, and ids that do not repeat.
use roya_api.Prelude.{
  String, Bool, true, false, not, ◌&&◌, List, [], ◌∷◌, ◌++◌, ◌≡◌, ◌↔◌, arith, includes, string_eq,
  add, includes-add, ==_iff,
}
use roya_api.Prelude.Distinct.{Distinct}
use roya_api.FlowGraph.{DynamicValidationIssue, Issues, issue_when}

pub append-nil_iff {ℓ} : {A : Type ℓ} (xs ys : List A) → (xs ++ ys ≡ []) ↔ ((xs ≡ []) × (ys ≡ []))
append-nil_iff [] ys = ground arith
append-nil_iff (x ∷ xs) ys = ground arith

pub issue_when_iff : (b : Bool) (i : DynamicValidationIssue) → (issue_when b i ≡ []) ↔ (b ≡ false)
issue_when_iff b i = ground arith

pub when_append_iff :
    (b : Bool) (i : DynamicValidationIssue) (is : Issues)
    → (issue_when b i ++ is ≡ []) ↔ ((b ≡ false) × (is ≡ []))
when_append_iff true i is = ground arith
when_append_iff false i is = ground arith

-- The loop over a set of the ids seen so far, as a test.
abbrev pub no_repeats : List String → List String → Bool
no_repeats seen [] = true
no_repeats seen (x ∷ xs) = not (includes seen x) && no_repeats (add seen x) xs

abbrev Apart : List String → List String → Type 0
Apart seen [] = Unit
Apart seen (x ∷ xs) = (includes seen x ≡ false) × Apart seen xs

Apart-add :
    (seen : List String) (x : String) (xs : List String)
    → Apart (add seen x) xs ↔ (Apart seen xs × (includes xs x ≡ false))
Apart-add seen x [] = ground arith
Apart-add seen x (y ∷ ys) = ground (arith, Apart-add seen x ys, includes-add seen x y, ==_iff y x)

no_repeats_from_iff :
    (seen xs : List String) → (no_repeats seen xs ≡ true) ↔ (Apart seen xs × Distinct xs)
no_repeats_from_iff seen [] = ground arith
no_repeats_from_iff seen (x ∷ xs) =
    ground (arith, no_repeats_from_iff (add seen x) xs, Apart-add seen x xs)

Apart-nil : (xs : List String) → Apart [] xs
Apart-nil [] = tt
Apart-nil (x ∷ xs) = ground (arith, Apart-nil xs)

pub no_repeats_iff : (xs : List String) → (no_repeats [] xs ≡ true) ↔ Distinct xs
no_repeats_iff xs = ground (arith, no_repeats_from_iff [] xs, Apart-nil xs)
