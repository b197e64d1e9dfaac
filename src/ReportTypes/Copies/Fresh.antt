-- ===== src/ReportTypes/Copies/Fresh.antt =====
-- The slug of a copy: the numerals of different suffixes differ, so the search for one ends.
use Prim.Native.String
use Prim.Native.String.append
use Prim.Native.Char.{Char, code}
use roya_api.Prelude.{String, ℕ, zero, suc, ◌+◌, ◌-◌, ◌*◌, List, [], ◌∷◌, string_eq}
use roya_api.Prelude.Distinct.{Distinct}
use roya_api.ReportTypes.Copies.{copy_slug}

-- The number that digits after `n` make.
unfoldable read : ℕ → String → ℕ
read n String.[] = n
read n (String.◌∷◌ c s) = read (10 * n + (code c - 48)) s

-- The first slugs that the search tries, from the suffix `n`.
tried : String → ℕ → ℕ → List String
tried slug zero n = []
tried slug (suc k) n = copy_slug slug n ∷ tried slug k (suc n)
