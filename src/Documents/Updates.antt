-- ===== src/Documents/Updates.antt =====
-- The update operators of the database, as the services call them.
use roya_api.Prelude.{
  String, ℕ, Bool, false, Option, none, some, List, [], ◌∷◌, ◌++◌, ◌==◌, string_eq, ==_iff,
  if◌then◌else◌, or_else, ◌≡◌, refl, arith, includes, length, or_option, Bool-cases, inl, inr, ◌∙◌,
}
use roya_api.Prelude.Dict.{get, put, keys, get-put, includes-keys}
use roya_api.Prelude.Distinct.{Distinct}
use roya_api.Value.{Record, assign}
use roya_api.Documents.{Report}

-- `updateOne`: the first document that matches is rewritten.
abbrev pub update_one {ℓ} : {A : Type ℓ} → (A → Bool) → (A → A) → List A → List A
update_one p f [] = []
update_one p f (x ∷ xs) = if p x then f x ∷ xs else x ∷ update_one p f xs

-- `updateMany`
abbrev pub update_many {ℓ} : {A : Type ℓ} → (A → Bool) → (A → A) → List A → List A
update_many p f [] = []
update_many p f (x ∷ xs) = (if p x then f x else x) ∷ update_many p f xs

-- `$set`
abbrev pub set_fields : Record → Report → Report
set_fields set r = record r { fields = assign r.fields set }

-- `delete r[k]` and `$unset`
abbrev pub remove : String → Record → Record
remove k [] = []
remove k ((j, v) ∷ r) = if j == k then remove k r else (j, v) ∷ remove k r

abbrev pub unset_fields : List String → Report → Report
unset_fields [] r = r
unset_fields (k ∷ ks) r = unset_fields ks (record r { fields = remove k r.fields })

-- `$push: { executionTries: entry }`
abbrev pub push_try : Record → Report → Report
push_try entry r = record r { execution_tries = some (or_else r.execution_tries [] ++ entry ∷ []) }

-- `existing?.executionTries?.length ?? 0`
abbrev pub tries_length : Option Report → ℕ
tries_length none = 0
tries_length (some r) = length (or_else r.execution_tries [])

pub get-remove :
    (k j : String) (r : Record) → get j (remove k r) ≡ (if k == j then none else get j r)
get-remove k j [] = ground arith
get-remove k j ((i, v) ∷ r) = ground (arith, get-remove k j r, ==_iff i k, ==_iff k j, ==_iff i j)

pub includes-keys-remove :
    (k j : String) (r : Record)
    → includes (keys (remove k r)) j ≡ (if k == j then false else includes (keys r) j)
includes-keys-remove k j [] = ground arith
includes-keys-remove k j ((i, v) ∷ r) =
    ground (arith, includes-keys-remove k j r, ==_iff i k, ==_iff k j, ==_iff i j)

pub Distinct-remove : (k : String) (r : Record) → Distinct (keys r) → Distinct (keys (remove k r))
Distinct-remove k [] h = h
Distinct-remove k ((i, v) ∷ r) (new, h) = elim (Bool-cases (i == k)) [
  | inl same ↦ rw same (Distinct-remove k r h)
  | inr other ↦ rw other (ground (arith, includes-keys-remove k i r, new), Distinct-remove k r h)
]

-- `Object.assign` takes the new value of a key that the source has.
pub get-assign :
    (k : String) (out r : Record)
    → Distinct (keys r)
    → get k (assign out r) ≡ or_option (get k r) (get k out)
unfolding assign
get-assign k out [] h = refl
get-assign k out ((j, v) ∷ r) (new, h) = ground (
  arith,
  get-assign k (put j v out) r h,
  get-put j k v out,
  ==_iff j k,
  includes-keys j r,
  includes-keys k r,
)

pub get-unset_fields :
    (k : String) (ks : List String) (r : Report)
    → includes ks k ≡ false
    → get k (unset_fields ks r).fields ≡ get k r.fields
get-unset_fields k [] r h = refl
get-unset_fields k (j ∷ ks) r h =
    get-unset_fields k ks (record r { fields = remove j r.fields }) (ground (arith, h))
    ∙ ground (arith, get-remove j k r.fields, h)
