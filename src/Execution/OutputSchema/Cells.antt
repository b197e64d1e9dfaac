-- ===== src/Execution/OutputSchema/Cells.antt =====
-- analyses/dynamic-flow-output-schema.util.ts, `wrapOutputDataWithSchema`: every field of the
-- report as a typed cell.
use roya_api.Prelude.{
  String, Bool, true, false, not, ◌&&◌, Option, none, some, [], ◌∷◌, if◌then◌else◌, ◌==◌, string_eq,
  is_some, ◌≡◌, refl, ap, arith, Bool-cases, inl, inr,
}
use roya_api.Prelude.Dict.{get, keys}
use roya_api.Prelude.Text.{trim}
use roya_api.Value.{Value, Record, as_list, of_record}
use roya_api.Execution.OutputSchema.{Schema, normalize_output_field_type, is_typed_output_cell}

-- `typeof v === 'number' && Number.isFinite(v)`
abbrev is_finite_number : Value → Bool
is_finite_number (Value.number finite text) = finite
is_finite_number Value.undefined = false
is_finite_number Value.null = false
is_finite_number (Value.boolean b) = false
is_finite_number (Value.string s) = false
is_finite_number (Value.array vs) = false
is_finite_number (Value.object fs) = false

inferred_type : Value → String
inferred_type raw =
    if is_some (as_list raw) then "list" else if is_finite_number raw then "number" else "text"

pub wrap_field_type : Option String → Value → String
unfolding inferred_type normalize_output_field_type
wrap_field_type none raw = inferred_type raw
wrap_field_type (some entry) raw =
    if not (trim entry == "") then normalize_output_field_type entry else inferred_type raw

pub wrap_cell : Schema → String → Value → Value
unfolding wrap_field_type
wrap_cell schema k raw =
    if is_typed_output_cell raw
    then raw
    else of_record
        (("type", Value.string (wrap_field_type (get k schema) raw)) ∷ ("value", raw) ∷ [])

-- Of data that is there; for `null` and `undefined` the source returns `null`.
unfoldable pub wrap_output_data_with_schema : Record → Schema → Record
unfolding wrap_cell
wrap_output_data_with_schema [] schema = []
wrap_output_data_with_schema ((k, raw) ∷ fields) schema =
    (k, wrap_cell schema k raw) ∷ wrap_output_data_with_schema fields schema

wrap_cell-typed :
    (schema : Schema) (k : String) (raw : Value)
    → is_typed_output_cell (wrap_cell schema k raw) ≡ true
unfolding wrap_cell is_typed_output_cell
wrap_cell-typed schema k raw = elim (Bool-cases (is_typed_output_cell raw)) [
  | inl e ↦ rw e e
  | inr e ↦ rw e refl
]

-- Data whose fields are all typed cells.
abbrev pub all_typed : Record → Bool
all_typed [] = true
all_typed ((k, v) ∷ r) = is_typed_output_cell v && all_typed r

wrap-typed :
    (r : Record) (schema : Schema) → all_typed (wrap_output_data_with_schema r schema) ≡ true
unfolding wrap_output_data_with_schema
wrap-typed [] schema = refl
wrap-typed ((k, v) ∷ r) schema = rw (wrap_cell-typed schema k v) (wrap-typed r schema)

wrap-keys : (r : Record) (schema : Schema) → keys (wrap_output_data_with_schema r schema) ≡ keys r
unfolding wrap_output_data_with_schema
wrap-keys [] schema = refl
wrap-keys ((k, v) ∷ r) schema = ap (λ ks. k ∷ ks) (wrap-keys r schema)

wrap-fixed :
    (r : Record) (schema : Schema) → all_typed r ≡ true → wrap_output_data_with_schema r schema ≡ r
unfolding wrap_output_data_with_schema wrap_cell
wrap-fixed [] schema h = refl
wrap-fixed ((k, v) ∷ r) schema h =
    let typed : is_typed_output_cell v ≡ true = ground (arith, h) in
    rw typed (ap (λ t. (k, v) ∷ t) (wrap-fixed r schema (ground (arith, h))))

-- `wrapOutputDataWithSchema` keeps the fields' names and order, makes every field a typed cell, and
-- leaves what it has wrapped as it is, under any other schema too.
pub wrap_output_data_with_schema-Cells :
    (r : Record) (schema again : Schema)
    → (keys (wrap_output_data_with_schema r schema) ≡ keys r)
      × (all_typed (wrap_output_data_with_schema r schema) ≡ true)
      × (wrap_output_data_with_schema (wrap_output_data_with_schema r schema) again
          ≡ wrap_output_data_with_schema r schema)
wrap_output_data_with_schema-Cells r schema again = (
  wrap-keys r schema,
  wrap-typed r schema,
  wrap-fixed (wrap_output_data_with_schema r schema) again (wrap-typed r schema),
)
