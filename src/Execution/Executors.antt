-- ===== src/Execution/Executors.antt =====
-- analyses/dynamic-flow-node-executors.service.ts: the executors, and the registry's choice among
-- them. The connectors, the model behind the AI executor and the mapper's rules are parameters. A
-- string of a configuration is read as a string, as its type says.
pub mod Registry
pub mod Ports
mod Tests
use Prim.Native.String
use roya_api.Prelude.{
  String, ℕ, Bool, true, false, not, ◌&&◌, ◌||◌, Option, none, some, List, [], ◌∷◌, if◌then◌else◌,
  ◌==◌, string_eq, option_eq, or_else, or_option, length, ltb, filter,
}
use roya_api.Prelude.Dict.{get, put}
use roya_api.Prelude.Text.{template, trim}
use roya_api.Prelude.Result.{Result, ok, threw, and_then}
use roya_api.Enums.{NodeCategory, MapperTransform, category_eq}
use roya_api.Category.{resolve_category}
use roya_api.Value.{
  Value, Record, at, as_record, as_string, of_record, of_list, is_nullish, coalesce, truthy,
}
use roya_api.Execution.{
  SnapshotNode, SnapshotMapperRule, SnapshotTerminalConfig, SnapshotConnection, Runtime,
}
use roya_api.Execution.PortMerge.{
  ByPort, merge_incoming_generic, merge_mapper_keyed_inputs, collect_merger_inbound_array,
}
use roya_api.Execution.Upstream.{
  Documents, Flavor, transform_flavor, document, required_unless_false,
}

-- common/catalog-impl-key-to-provider-slug.ts
abbrev pub catalog_impl_key_to_provider_slug : String → Option String
catalog_impl_key_to_provider_slug key = get key (
    ("WebScraper", "web-scraper")
    ∷ ("Browserless", "browserless")
    ∷ ("Semrush", "semrush")
    ∷ ("OpenAI", "openai")
    ∷ ("Google", "google")
    ∷ ("Instagram", "instagram")
    ∷ ("LogoPicker", "logo-picker")
    ∷ ("Pravatar", "pravatar")
    ∷ [])

-- common/builder-data-source-providers.ts
abbrev pub builder_data_source_slug_to_provider : String → Option String
builder_data_source_slug_to_provider slug = get slug (
    ("web-scraper", "WebScraper")
    ∷ ("logo-picker", "LogoPicker")
    ∷ ("semrush-keywords", "Semrush")
    ∷ ("openai-research", "OpenAI")
    ∷ [])

-- `s.split(':')[0]`
unfoldable pub before_colon : String → String
before_colon String.[] = String.[]
before_colon (String.◌∷◌ c s) =
    let rest = before_colon s in
    if String.◌∷◌ c String.[] == ":" then String.[] else String.◌∷◌ c rest

pub after_colon : String → Option String
after_colon String.[] = none
after_colon (String.◌∷◌ c s) =
    let rest = after_colon s in if String.◌∷◌ c String.[] == ":" then some s else rest

abbrev pub nonempty : Option String → Option String
nonempty none = none
nonempty (some s) = if s == "" then none else some s

abbrev model_part : Option String → Option String
model_part none = none
model_part (some key) = after_colon key

unfoldable pub model_from_provider_key : Option String → Option String
unfolding after_colon
model_from_provider_key key = model_part (nonempty key)

abbrev pub config_of : SnapshotNode → Record
config_of n = or_else n.config []

-- `cfg.key ? cfg.key : …`, for a string.
abbrev pub config_text : String → SnapshotNode → Option String
config_text key n = nonempty (as_string (at key (config_of n)))

pub execute_input : SnapshotNode → Record → Record
execute_input n inputs = ("value", value_of (config_text "inputKey" n)) ∷ []
  where
    value_of : Option String → Value
    value_of none = of_record inputs
    value_of (some key) = at key inputs

abbrev slug_of_key : String → String
slug_of_key raw = or_else (catalog_impl_key_to_provider_slug raw) raw

abbrev slug_of_config : Option String → Option String
slug_of_config none = none
slug_of_config (some slug) = builder_data_source_slug_to_provider slug

pub resolve_source_provider_slug : SnapshotNode → Option String
unfolding before_colon
resolve_source_provider_slug n = elim (nonempty n.provider_key) [
  | some key ↦ some (slug_of_key (before_colon key))
  | none ↦ slug_of_config (config_text "dataSourceSlug" n)
]

abbrev one_or_list : List Value → Value
one_or_list [] = of_list []
one_or_list (v ∷ []) = v
one_or_list (v ∷ w ∷ vs) = of_list (v ∷ w ∷ vs)

pub declared_inputs : ByPort → Record
declared_inputs [] = []
declared_inputs ((port, values) ∷ ps) = (port, one_or_list values) ∷ declared_inputs ps

-- `for (const [key, value] of Object.entries(bucket))`: a field named `payload` is passed over.
unfoldable pub assign_ports : Record → Record → Record
assign_ports [] port_outputs = port_outputs
assign_ports ((key, value) ∷ bucket) port_outputs =
    assign_ports bucket (if key == "payload" then port_outputs else put key value port_outputs)

unfoldable pub port_outputs : Record → Record
unfolding assign_ports
port_outputs bucket = assign_ports bucket (("payload", of_record bucket) ∷ [])

unfoldable pub execute_schema : SnapshotNode → ByPort → Record
execute_schema n by_port =
    (
      "schema",
      of_record (
          ("data", of_record (merge_incoming_generic by_port))
          ∷ ("outputSchema", coalesce (at "outputSchema" (config_of n)) (of_record []))
          ∷ []),
    )
    ∷ []

abbrev output_mode : Option SnapshotTerminalConfig → Option String
output_mode none = none
output_mode (some config) = config.output_mode

abbrev terminal_data : Option String → Record → Value
terminal_data mode merged =
    if mode == some "aiResult" && truthy (at "result" merged)
    then at "result" merged
    else if mode == some "schemaResult" && truthy (at "data" merged)
    then at "data" merged
    else if truthy (at "result" merged)
    then at "result" merged
    else if truthy (at "data" merged)
    then at "data" merged
    else if truthy (at "schema" merged)
    then at "schema" merged
    else of_record merged

unfoldable pub execute_terminal : SnapshotNode → ByPort → Record
execute_terminal n by_port =
    ("data", terminal_data (output_mode n.terminal_config) (merge_incoming_generic by_port)) ∷ []

pub execute_passthrough : ByPort → Record
execute_passthrough by_port = ("passthrough", of_record (merge_incoming_generic by_port)) ∷ []

-- The fields of a rule that the mapper reads, an absent transform read as `direct`.
abbrev normalize_rule : SnapshotMapperRule → SnapshotMapperRule
normalize_rule r = record {
  target_path = r.target_path;
  source_path = r.source_path;
  transform = some (or_else r.transform MapperTransform.direct);
  parameters = r.parameters;
  required = some (or_else r.required false);
}

normalize_rules : List SnapshotMapperRule → List SnapshotMapperRule
normalize_rules [] = []
normalize_rules (r ∷ rs) = normalize_rule r ∷ normalize_rules rs

pub data Executor : Type 0 where
  input source transform schema ai terminal passthrough : Executor

-- The first executor that supports a node of a category and a builder category key.
unfoldable pub choose_executor : Option NodeCategory → Option String → Executor
choose_executor category key =
    if category == some NodeCategory.input
    then Executor.input
    else if category == some NodeCategory.source
        || key == some "acquisition"
        || key == some "enrichment"
    then Executor.source
    else if category == some NodeCategory.transform
    then Executor.transform
    else if category == some NodeCategory.schema
    then Executor.schema
    else if category == some NodeCategory.ai || key == some "reasoning"
    then Executor.ai
    else if category == some NodeCategory.terminal || key == some "delivery"
    then Executor.terminal
    else Executor.passthrough

unfoldable pub executor_for : SnapshotNode → Executor
executor_for n =
    choose_executor (resolve_category n.category (some n.node_kind)) n.builder_category_key
