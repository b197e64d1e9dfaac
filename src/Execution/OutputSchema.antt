-- ===== src/Execution/OutputSchema.antt =====
-- analyses/dynamic-flow-output-schema.util.ts. `toLowerCase` is the parameter `lower_case`. A
-- configured `outputSchema` is an object, as its type says.
pub mod Pick
pub mod Cells
mod Tests
use Prim.Native.Char.{Char}
use Prim.Native.String
use roya_api.Prelude.{
  String, ℕ, zero, suc, ◌+◌, Bool, true, false, not, ◌&&◌, ◌||◌, Option, none, some, List, [], ◌∷◌,
  ◌++◌, if◌then◌else◌, ◌==◌, string_eq, option_eq, or_else, is_some, includes, all, length, nat_beq,
  filter,
}
use roya_api.Prelude.Dict.{get, put, keys}
use roya_api.Prelude.Text.{trim, trim_start}
use roya_api.Enums.{NodeCategory, category_eq}
use roya_api.Category.{resolve_category}
use roya_api.Value.{
  Value, Values, Fields, Record, at, as_record, as_string, as_list, is_undefined, is_nullish,
  of_record, entries, items,
}
use roya_api.Execution.{SnapshotNode}

abbrev pub Schema : Type 0
Schema = List (String × String)

abbrev pub output_field_types : List String
output_field_types =
    "text" ∷ "score" ∷ "tag" ∷ "list" ∷ "color" ∷ "color_scheme" ∷ "number" ∷ "url" ∷ "img"
    ∷ "currency" ∷ "column_chart" ∷ []

-- For a string; any other value gives `text`.
unfoldable pub normalize_output_field_type : String → String
normalize_output_field_type value = if includes output_field_types value then value else "text"

abbrev type_of_entry : Option String → String
type_of_entry none = "string"
type_of_entry (some s) = s

pub add_entries : Record → Schema → Schema
add_entries [] out = out
add_entries ((k, v) ∷ r) out = add_entries r (put k (type_of_entry (as_string v)) out)

abbrev pub config_schema : Option Record → Record
config_schema none = []
config_schema (some config) = or_else (as_record (at "outputSchema" config)) []

pub merge_schemas : List SnapshotNode → Schema → Schema
unfolding add_entries
merge_schemas [] out = out
merge_schemas (n ∷ ns) out = merge_schemas ns (
    if resolve_category n.category (some n.node_kind) == some NodeCategory.schema
    then add_entries (config_schema n.config) out
    else out)

unfoldable pub merge_output_schema_from_snapshot_nodes : List SnapshotNode → Schema
unfolding merge_schemas
merge_output_schema_from_snapshot_nodes ns = merge_schemas ns []

abbrev pub has_cell_keys : Option Record → Bool
has_cell_keys none = false
has_cell_keys (some r) = is_some (get "type" r) && is_some (get "value" r)

unfoldable pub is_typed_output_cell : Value → Bool
is_typed_output_cell value = has_cell_keys (as_record value)

abbrev record_or_result : Value → Option Record → Record
record_or_result raw none = ("result", raw) ∷ []
record_or_result raw (some r) = r

unfoldable pub normalize_terminal_payload_to_record : Value → Record
normalize_terminal_payload_to_record raw =
    if is_nullish raw then [] else record_or_result raw (as_record raw)

abbrev reserved : String → Bool
reserved k = k == "in" || k == "out"

abbrev string_field : Record → String → Option Value → Option Value
string_field r k (some v) = some v
string_field r k none = if is_some (as_string (at k r)) then some (at k r) else none

abbrev scalar_of : Value → Option Record → Value
scalar_of cell none = cell
scalar_of cell (some r) =
    or_else (string_field r "value" (string_field r "url" (string_field r "payload" none))) cell

unfoldable pub normalize_port_cell_to_scalar : Value → Value
normalize_port_cell_to_scalar cell = scalar_of cell (as_record cell)

-- What a port's value unwraps to: an array becomes the record of its items.
abbrev inner_record : Value → Option Record
inner_record v = if is_some (as_list v) then some (("items", v) ∷ []) else as_record v

abbrev first_some : Option Record → Option Record → Option Record
first_some none o = o
first_some (some r) o = some r

unfoldable pub try_unwrap_port_only_payload : Record → Option Record
try_unwrap_port_only_payload flat =
    if nat_beq (length flat) 0 || not (all reserved (keys flat))
    then none
    else first_some (inner_record (at "in" flat)) (inner_record (at "out" flat))

-- How deep a payload can be unwrapped: a port's key counts twice, any other once.
mutual
  pub value_weight : Value → ℕ
  value_weight Value.undefined = 0
  value_weight Value.null = 0
  value_weight (Value.boolean b) = 0
  value_weight (Value.number f t) = 0
  value_weight (Value.string s) = 0
  value_weight (Value.array vs) = 0
  value_weight (Value.object fs) = fields_weight fs

  pub fields_weight : Fields → ℕ
  fields_weight Fields.empty = 0
  fields_weight (Fields.field k v fs) =
      (if reserved k then 2 else 1) + value_weight v + fields_weight fs

abbrev pub weight : Record → ℕ
weight [] = 0
weight ((k, v) ∷ r) = (if reserved k then 2 else 1) + value_weight v + weight r

abbrev pub items_or :
    Option (List Value) → Option (Option (List Value)) → Option (Option (List Value))
items_or none deeper = deeper
items_or (some arr) deeper = some (some arr)

-- `none` means that the fuel ran out; the inner option is the source's `null`.
pub candidate_array : ℕ → Record → Option (Option (List Value))
unfolding try_unwrap_port_only_payload
candidate_array zero flat = none
candidate_array (suc fuel) flat =
    items_or (as_list (at "items" flat)) (elim (try_unwrap_port_only_payload flat) [
      | some unwrapped ↦ candidate_array fuel unwrapped
      | none ↦ some none
    ])

unfoldable pub extract_ordered_candidate_array : Record → Option (List Value)
unfolding candidate_array value_weight fields_weight
extract_ordered_candidate_array flat = or_else (candidate_array (suc (weight flat)) flat) none

-- The schema's keys beside the list's values, as long as both last.
pub bind_keys : Schema → List Value → Record → Record
unfolding normalize_port_cell_to_scalar
bind_keys [] arr out = out
bind_keys (entry ∷ schema) [] out = out
bind_keys (entry ∷ schema) (v ∷ arr) out =
    bind_keys schema arr (put entry.0 (normalize_port_cell_to_scalar v) out)

-- `[^)]+\)\s*$`
closes : Bool → String → Bool
closes some_char String.[] = false
closes some_char (String.◌∷◌ c s) =
    let rest = closes true s in if is_close c then some_char && trim_start s == "" else rest
  where
    is_close : Char → Bool
    is_close c = String.◌∷◌ c String.[] == ")"

-- `\s*\([^)]+\)\s*$` at the start of the string.
opens : String → Bool
opens String.[] = false
opens (String.◌∷◌ c s) = String.◌∷◌ c String.[] == "(" && closes false s

before_label : String → String
before_label String.[] = String.[]
before_label (String.◌∷◌ c s) =
    let rest = before_label s in
    if opens (trim_start (String.◌∷◌ c s)) then String.[] else String.◌∷◌ c rest

unfoldable pub strip_output_field_type_label : String → String
unfolding before_label opens closes
strip_output_field_type_label key = trim (before_label key)
