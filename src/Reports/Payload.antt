-- ===== src/Reports/Payload.antt =====
-- reports/utils/mongo-payload-bound.util.ts: long texts cut so that a document fits. A `Date` is held
-- as the number of its time, which is passed on unchanged like it; no payload holds a `Buffer`. The
-- length of a text counts UTF-16 units; half a surrogate pair, which a cut can leave, is held as the
-- replacement character that its encoding writes. `calculate_object_size` is the BSON library's:
-- `none` if it throws.
pub mod Texts
pub mod Bounds
pub mod Levels
use Prim.Native.Char.{Char, code}
use roya_api.Prelude.{
  String, ℕ, zero, suc, ◌+◌, ◌-◌, ◌*◌, ◌/◌, Bool, Option, [], ◌∷◌, if◌then◌else◌, or_else, leb, ltb,
}
use roya_api.Prelude.Text.{template, decimal}
use roya_api.Value.{Value, Values, Fields, Record, entries, fields_of}

-- The UTF-16 units of a character after the first.
abbrev pub is_pair : Char → Bool
is_pair c = leb 0x10000 (code c)

-- `s.length`
abbrev pub units : String → ℕ
units String.[] = 0
units (String.◌∷◌ c s) = (if is_pair c then 2 else 1) + units s

-- `s.slice(0, n)`
abbrev pub slice : ℕ → String → String
slice zero s = String.[]
slice (suc n) String.[] = String.[]
slice (suc zero) (String.◌∷◌ c s) = if is_pair c then "�" else String.◌∷◌ c String.[]
slice (suc (suc n)) (String.◌∷◌ c s) =
    let single = slice (suc n) s in
    let pair = slice n s in String.◌∷◌ c (if is_pair c then pair else single)

-- `value.slice(0, max)` and the notice.
abbrev pub truncate_text : ℕ → String → String
truncate_text max s =
    if leb (units s) max
    then s
    else template (slice max s ∷ "\n… [truncated " ∷ decimal (units s - max) ∷ " characters]" ∷ [])

unfoldable mutual
  pub truncate_deep_strings : ℕ → Value → Value
  truncate_deep_strings max Value.undefined = Value.undefined
  truncate_deep_strings max Value.null = Value.null
  truncate_deep_strings max (Value.boolean b) = Value.boolean b
  truncate_deep_strings max (Value.number f t) = Value.number f t
  truncate_deep_strings max (Value.string s) = Value.string (truncate_text max s)
  truncate_deep_strings max (Value.array vs) = Value.array (truncate_items max vs)
  truncate_deep_strings max (Value.object fs) = Value.object (truncate_fields max fs)

  pub truncate_items : ℕ → Values → Values
  truncate_items max Values.nil = Values.nil
  truncate_items max (Values.item v vs) =
      Values.item (truncate_deep_strings max v) (truncate_items max vs)

  pub truncate_fields : ℕ → Fields → Fields
  truncate_fields max Fields.empty = Fields.empty
  truncate_fields max (Fields.field k v fs) =
      Fields.field k (truncate_deep_strings max v) (truncate_fields max fs)

abbrev pub target_max_bson_bytes : ℕ
target_max_bson_bytes = 12 * 1024 * 1024

-- `Math.max(floor, Math.floor(n / 2))`
abbrev halve : ℕ → ℕ → ℕ
halve floor n = let half = n / 2 in if leb floor half then half else floor

-- `maxChars` after round `i`.
pub next_max_chars : ℕ → ℕ → ℕ
next_max_chars i max = let next = halve 512 max in if ltb 22 i then halve 256 next else next

module _ (calculate_object_size : Record → Option ℕ) where
  -- `calculateSize`
  pub calculate_size : Record → ℕ
  calculate_size r = or_else (calculate_object_size r) (target_max_bson_bytes + 1)

  unfoldable pub fits : Record → Bool
  unfolding calculate_size
  fits r = leb (calculate_size r) target_max_bson_bytes

  -- The rounds that are left, and the number of the next.
  pub truncate_rounds : ℕ → ℕ → ℕ → Fields → Record
  truncate_rounds zero i max probe = entries (truncate_fields 512 probe)
  truncate_rounds (suc left) i max probe =
      let rest = truncate_rounds left (suc i) (next_max_chars i max) probe in
      let t = entries (truncate_fields max probe) in if fits t then t else rest

  unfoldable pub truncate_mongo_flow_probe_until_fits : Record → Record
  unfolding truncate_rounds
  truncate_mongo_flow_probe_until_fits probe = truncate_rounds 28 0 400000 (fields_of probe)
