-- ===== src/Reports/Payload/Levels.antt =====
-- The limits that `truncateMongoFlowProbeUntilFits` tries, and what it returns.
use roya_api.Prelude.{
  String, ℕ, zero, suc, ◌≤◌, Bool, true, false, Option, some, List, [], ◌∷◌, any, ◌==◌, string_eq,
  or_else, ◌≡◌, refl, ◌↔◌, inl, inr, ◌⊎◌, Bool-cases, arith, subst, ap, ◌∙◌,
}
use roya_api.Prelude.Dict.{get, keys}
use roya_api.Value.{Value, Record, entries, fields_of, entries-fields_of}
use roya_api.Reports.Payload.{
  next_max_chars, truncate_deep_strings, truncate_fields, fits, truncate_rounds,
  truncate_mongo_flow_probe_until_fits,
}
use roya_api.Reports.Payload.Texts.{longest_field}
use roya_api.Reports.Payload.Bounds.{truncate_fields-short}

-- The limits of the rounds that are left.
abbrev levels : ℕ → ℕ → ℕ → List ℕ
levels zero i max = []
levels (suc left) i max = max ∷ levels left (suc i) (next_max_chars i max)

abbrev pub truncated : Record → ℕ → Record
truncated probe max = entries (truncate_fields max (fields_of probe))

module _ (size : Record → Option ℕ) where
  -- The limits that are tried on `probe`, at one of which it fits or not.
  pub fits_at : Record → List ℕ → Bool
  fits_at probe = any (λ max. fits size (truncated probe max))

  truncate_rounds-missed :
      (left i max : ℕ) (probe : Record)
      → fits_at probe (levels left i max) ≡ false
      → truncate_rounds size left i max (fields_of probe) ≡ truncated probe 512
  unfolding truncate_rounds fits_at
  truncate_rounds-missed zero i max probe h = refl
  truncate_rounds-missed (suc left) i max probe h =
      elim (Bool-cases (fits size (truncated probe max))) [
        | inl now ↦ absurd (ground (arith, h, now))
        | inr later ↦ rw later (
            truncate_rounds-missed left (suc i) (next_max_chars i max) probe
              (ground (arith, h, later)))
      ]

  truncate_rounds-found :
      (left i max : ℕ) (probe : Record)
      → fits_at probe (levels left i max) ≡ true
      → fits size (truncate_rounds size left i max (fields_of probe)) ≡ true
  unfolding truncate_rounds fits_at
  truncate_rounds-found zero i max probe h = absurd (ground (arith, h))
  truncate_rounds-found (suc left) i max probe h =
      elim (Bool-cases (fits size (truncated probe max))) [
        | inl now ↦ rw now now
        | inr later ↦ rw later (
            truncate_rounds-found left (suc i) (next_max_chars i max) probe
              (ground (arith, h, later)))
      ]

  -- The limits of the 28 rounds, each once.
  abbrev pub limits : List ℕ
  limits =
      400000 ∷ 200000 ∷ 100000 ∷ 50000 ∷ 25000 ∷ 12500 ∷ 6250 ∷ 3125 ∷ 1562 ∷ 781 ∷ 512 ∷ 256 ∷ []

  limits_iff :
      (probe : Record) → (fits_at probe (levels 28 0 400000) ≡ true) ↔ (fits_at probe limits ≡ true)
  unfolding fits_at next_max_chars
  limits_iff probe = ground arith

  at_512 : (probe : Record) → fits size (truncated probe 512) ≡ true → fits_at probe limits ≡ true
  unfolding fits_at
  at_512 probe h = ground (arith, h)

  -- What is returned fits exactly if the probe fits at one of the limits 400000, 200000, 100000,
  -- 50000, 25000, 12500, 6250, 3125, 1562, 781, 512 and 256; otherwise it is the probe cut at 512.
  pub truncate_mongo_flow_probe_until_fits-fits :
      (probe : Record)
      → ((fits size (truncate_mongo_flow_probe_until_fits size probe) ≡ true)
          ↔ (fits_at probe limits ≡ true))
        × ((fits size (truncate_mongo_flow_probe_until_fits size probe) ≡ true)
            ⊎ (truncate_mongo_flow_probe_until_fits size probe ≡ truncated probe 512))
  unfolding truncate_mongo_flow_probe_until_fits
  truncate_mongo_flow_probe_until_fits-fits probe =
      elim (Bool-cases (fits_at probe (levels 28 0 400000))) [
        | inl found ↦ ((λ h. (limits_iff probe).0 found, λ h. returned found), inl (returned found))
        | inr none_fits ↦ (
          (
            λ h. at_512 probe (subst (λ r. fits size r ≡ true) (missed none_fits) h),
            λ h. absurd (ground (arith, limits_iff probe, none_fits, h)),
          ),
          inr (missed none_fits),
        )
      ]
    where
      returned :
          fits_at probe (levels 28 0 400000) ≡ true
          → fits size (truncate_mongo_flow_probe_until_fits size probe) ≡ true
      returned = truncate_rounds-found 28 0 400000 probe

      missed :
          fits_at probe (levels 28 0 400000) ≡ false
          → truncate_mongo_flow_probe_until_fits size probe ≡ truncated probe 512
      missed = truncate_rounds-missed 28 0 400000 probe

  -- A payload that fits, with no text of more than 400000 units, is written as it is.
  pub truncate_mongo_flow_probe_until_fits-small :
      (probe : Record)
      → fits size probe ≡ true
      → longest_field (fields_of probe) ≤ 400000
      → truncate_mongo_flow_probe_until_fits size probe ≡ probe
  unfolding truncate_mongo_flow_probe_until_fits truncate_rounds
  truncate_mongo_flow_probe_until_fits-small probe h short =
      let same : truncated probe 400000 ≡ probe =
        ap entries (truncate_fields-short 400000 (fields_of probe) short)
        ∙ entries-fields_of probe in
      rw same (rw h refl)

  next_max_chars-le : (i max : ℕ) → 256 ≤ next_max_chars i max
  unfolding next_max_chars
  next_max_chars-le i max = ground arith

  truncate_rounds_limit :
      (left i max : ℕ) (probe : Record)
      → 256 ≤ max
      → (m : ℕ) × (256 ≤ m)
        × (truncate_rounds size left i max (fields_of probe) ≡ truncated probe m)
  unfolding truncate_rounds
  truncate_rounds_limit zero i max probe h = (512, omega arith, refl)
  truncate_rounds_limit (suc left) i max probe h =
      elim (Bool-cases (fits size (truncated probe max))) [
        | inl now ↦ rw now (max, h, refl)
        | inr later ↦ rw later (
            truncate_rounds_limit left (suc i) (next_max_chars i max) probe
              (next_max_chars-le i max))
      ]

  -- What is returned is the payload cut at some limit of at least 256 units.
  pub truncate_mongo_flow_probe_until_fits_limit :
      (probe : Record)
      → (m : ℕ) × (256 ≤ m) × (truncate_mongo_flow_probe_until_fits size probe ≡ truncated probe m)
  unfolding truncate_mongo_flow_probe_until_fits
  truncate_mongo_flow_probe_until_fits_limit probe =
      truncate_rounds_limit 28 0 400000 probe (omega arith)

pub keys-truncated : (probe : Record) (m : ℕ) → keys (truncated probe m) ≡ keys probe
unfolding truncate_deep_strings
keys-truncated [] m = refl
keys-truncated ((k, v) ∷ r) m = ap (λ t. k ∷ t) (keys-truncated r m)

-- Each property of a payload is cut by itself.
pub get-truncated :
    (k : String) (v : Value) (probe : Record) (m : ℕ)
    → get k probe ≡ some v
    → get k (truncated probe m) ≡ some (truncate_deep_strings m v)
unfolding truncate_deep_strings
get-truncated k v [] m h = absurd (cc)
get-truncated k v ((j, w) ∷ r) m h = elim (Bool-cases (j == k)) [
  | inl same ↦
      let e : some w ≡ some v = ground (arith, h, same) in
      rw same (ap (λ o. some (truncate_deep_strings m (or_else o w))) e)
  | inr other ↦ rw other (get-truncated k v r m (ground (arith, h, other)))
]
