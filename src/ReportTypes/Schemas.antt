-- ===== src/ReportTypes/Schemas.antt =====
-- report-types/report-types.service.ts: the portal's schemas of a published snapshot, as reads derive
-- them from its input and schema nodes.
use roya_api.Prelude.{
  String, true, Option, none, some, List, [], ◌∷◌, ◌++◌, if◌then◌else◌, or_else, ◌==◌, string_eq,
  option_eq,
}
use roya_api.Prelude.Dict.{put}
use roya_api.Enums.{NodeCategory, category_eq}
use roya_api.Category.{resolve_category}
use roya_api.Value.{
  Value, Record, at, as_record, as_string, of_record, coalesce, truthy, is_nullish,
}
use roya_api.Execution.{SnapshotNode}

-- `values[lang] ?? values[lt.defaultLanguage ?? 'en'] ?? values['en'] ?? ''`
abbrev localized_in : Record → String → Value
localized_in lt lang =
    let values : Record = or_else (as_record (at "values" lt)) [] in
    coalesce (at lang values) (
      coalesce (at (or_else (as_string (at "defaultLanguage" lt)) "en") values)
        (coalesce (at "en" values) (Value.string "")))

-- A plain string, or a text in several languages.
abbrev pub flatten_localized : Value → String → Value
flatten_localized raw lang = elim (as_string raw) [
  | some text ↦ Value.string text
  | none ↦ elim (as_record raw) [ none ↦ Value.string "" | some lt ↦ localized_in lt lang ]
]

-- `if (v) entry[k] = v`
abbrev when_truthy : String → Value → Record
when_truthy k v = if truthy v then (k, v) ∷ [] else []

abbrev when_given : String → Value → Record
when_given k v = if is_nullish v then [] else (k, v) ∷ []

-- `v !== false`
abbrev unless_false : Value → Value
unless_false Value.undefined = Value.boolean true
unless_false Value.null = Value.boolean true
unless_false (Value.boolean b) = Value.boolean b
unless_false (Value.number f t) = Value.boolean true
unless_false (Value.string s) = Value.boolean true
unless_false (Value.array vs) = Value.boolean true
unless_false (Value.object fs) = Value.boolean true

pub input_entry_from_input_node : Record → String → String → Record
input_entry_from_input_node cfg default_language key =
    ("type", coalesce (at "type" cfg) (Value.string "string"))
    ∷ ("required", unless_false (at "required" cfg))
    ∷ (when_truthy "key" (Value.string key)
        ++ when_truthy "label" (flatten_localized (at "label" cfg) default_language)
        ++ when_truthy "placeholder" (flatten_localized (at "placeholder" cfg) default_language)
        ++ when_truthy "helpText" (flatten_localized (at "helpText" cfg) default_language)
        ++ when_given "minItems" (at "minItems" cfg)
        ++ when_truthy "fields" (at "fields" cfg))

abbrev pub snapshot_category : SnapshotNode → Option NodeCategory
snapshot_category n = resolve_category n.category (some n.node_kind)

abbrev pub config_of : SnapshotNode → Record
config_of n = or_else n.config []

-- `derived.inputSchema`, `derived.outputSchema`
pub record LegacySchemas : Type 0 where
  pub input_schema : Record
  pub output_schema : Record

abbrev add_input : String → SnapshotNode → LegacySchemas → LegacySchemas
add_input lang n d =
    let key : String = or_else (as_string (at "inputKey" (config_of n))) n.node_id in
    if key == "" then d else record d {
      input_schema =
          put key (of_record (input_entry_from_input_node (config_of n) lang key)) d.input_schema;
    }

-- `typeof v === 'string' ? v : 'string'` on every field.
abbrev add_outputs : Record → Record → Record
add_outputs [] out = out
add_outputs ((k, v) ∷ r) out =
    add_outputs r (put k (Value.string (or_else (as_string v) "string")) out)

abbrev add_schema : SnapshotNode → LegacySchemas → LegacySchemas
add_schema n d = record d {
  output_schema =
      add_outputs (or_else (as_record (at "outputSchema" (config_of n))) []) d.output_schema;
}

unfoldable pub derive_schemas : String → List SnapshotNode → LegacySchemas → LegacySchemas
unfolding input_entry_from_input_node
derive_schemas lang [] d = d
derive_schemas lang (n ∷ ns) d = derive_schemas lang ns (
    if snapshot_category n == some NodeCategory.input
    then add_input lang n d
    else if snapshot_category n == some NodeCategory.schema
    then add_schema n d
    else d)
