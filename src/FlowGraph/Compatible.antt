-- ===== src/FlowGraph/Compatible.antt =====
-- dynamic-flow-graph.validation.ts, `pointByKey` to `terminalSourcesCompatible`: when an output port
-- may feed an input port.
pub mod Rules
use roya_api.Prelude.{
  String, Bool, true, false, Option, none, some, List, [], ◌∷◌, ◌&&◌, ◌||◌, not, if◌then◌else◌,
  ◌==◌, string_eq, option_eq, includes, find,
}
use roya_api.Enums.{BuilderValueType, value_type_eq, NodeConnectionDirection, direction_value}
use roya_api.Category.{is_category_pair_allowed}
use roya_api.FlowGraph.{
  ConnectionPointContract, NodeDefinitionContract, FlowNodePlain, TerminalConfig,
}

unfoldable pub point_by_key :
    List ConnectionPointContract → String → NodeConnectionDirection → Option ConnectionPointContract
point_by_key ports key direction =
    find (λ p. p.key == key && p.direction == some (direction_value direction)) ports

-- The types that the port lists, if it lists any; else its own.
abbrev pub listed_or_same : BuilderValueType → BuilderValueType → List BuilderValueType → Bool
listed_or_same out_type in_type [] = out_type == in_type
listed_or_same out_type in_type (t ∷ ts) =
    includes (t ∷ ts) out_type || includes (t ∷ ts) BuilderValueType.any

unfoldable pub value_types_compatible :
    BuilderValueType → BuilderValueType → ConnectionPointContract → Bool
value_types_compatible out_type in_type target_point =
    if in_type == BuilderValueType.any || out_type == BuilderValueType.any
    then true
    else listed_or_same out_type in_type target_point.compatible_value_types

-- `list?.length && (!key || !list.includes(key))`: a list that rules the key out.
abbrev pub key_refused : Option (List String) → Option String → Bool
key_refused none key = false
key_refused (some []) key = false
key_refused (some (k ∷ ks)) none = true
key_refused (some (k ∷ ks)) (some key) = key == "" || not (includes (k ∷ ks) key)

-- `list?.length && !list.includes(kind)`
abbrev pub kind_refused : Option (List String) → String → Bool
kind_refused none kind = false
kind_refused (some []) kind = false
kind_refused (some (k ∷ ks)) kind = not (includes (k ∷ ks) kind)

unfoldable pub kinds_compatible :
    NodeDefinitionContract
    → NodeDefinitionContract
    → ConnectionPointContract
    → ConnectionPointContract
    → Bool
kinds_compatible source_def target_def out_point in_point =
    if key_refused in_point.compatible_node_type_keys source_def.node_type_key
    then false
    else if key_refused out_point.compatible_node_type_keys target_def.node_type_key
    then false
    else if key_refused target_def.allowed_source_node_type_keys source_def.node_type_key
    then false
    else if key_refused source_def.allowed_target_node_type_keys target_def.node_type_key
    then false
    else if kind_refused in_point.compatible_node_kinds source_def.node_kind
    then false
    else if kind_refused out_point.compatible_node_kinds target_def.node_kind
    then false
    else if kind_refused target_def.allowed_source_kinds source_def.node_kind
    then false
    else if kind_refused source_def.allowed_target_kinds target_def.node_kind
    then false
    else true

unfoldable pub categories_compatible : NodeDefinitionContract → NodeDefinitionContract → Bool
categories_compatible source_def target_def =
    is_category_pair_allowed source_def.category target_def.category

abbrev accepted_kinds : Option TerminalConfig → Option (List String)
accepted_kinds none = none
accepted_kinds (some config) = some config.accepted_source_kinds

abbrev accepted_node_types : Option TerminalConfig → Option (List String)
accepted_node_types none = none
accepted_node_types (some config) = config.accepted_source_node_type_keys

unfoldable pub terminal_sources_compatible : FlowNodePlain → NodeDefinitionContract → Bool
terminal_sources_compatible node source_def =
    if key_refused (accepted_node_types node.terminal_config) source_def.node_type_key
    then false
    else if kind_refused (accepted_kinds node.terminal_config) source_def.node_kind
    then false
    else true
