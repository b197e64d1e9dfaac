-- ===== src/FlowGraph/Tests.antt =====
-- A small flow, and the theorems about dynamic-flow-graph.validation.ts at it.
use roya_api.Prelude.{
  String, ℕ, true, false, none, some, List, [], ◌∷◌, ◌≡◌, ◌↔◌, refl, includes, string_eq, or_else,
}
use roya_api.Prelude.Dict.{get}
use roya_api.Enums.{NodeCategory, BuilderValueType, BuilderAssetStatus}
use roya_api.Category.{is_category_pair_allowed}
use roya_api.Category.Feeds.{Feeds, is_category_pair_allowed_iff}
use roya_api.FlowGraph.{
  ConnectionPointContract, NodeDefinitionContract, FlowNodePlain, FlowConnectionPlain, Definitions,
}
use roya_api.FlowGraph.Compatible.{kinds_compatible, value_types_compatible}
use roya_api.FlowGraph.Compatible.Rules.{
  KindsFit, ValueTypesFit, kinds_compatible_iff, value_types_compatible_iff,
}
use roya_api.FlowGraph.Cycle.{has_cycle}
use roya_api.FlowGraph.Cycle.Walks.{Cycle}
use roya_api.FlowGraph.Cycle.Decides.{has_cycle_iff}
use roya_api.FlowGraph.Reached.{reached_from}
use roya_api.FlowGraph.Reached.Correct.{Reach, reached_from_iff}
use roya_api.FlowGraph.Cardinality.{port_id, count_inputs}
use roya_api.FlowGraph.Validate.{validate_dynamic_flow_graph}
use roya_api.FlowGraph.Accepted.{wires_at}
use roya_api.FlowGraph.Accepted.Ports.{count_inputs-eq-wires_at}
use roya_api.FlowGraph.Accepted.Flow.{IsAccepted, validate_dynamic_flow_graph_iff}

abbrev port : String → String → ℕ → ConnectionPointContract
port key direction least = record {
  key = key;
  direction = some direction;
  value_type = BuilderValueType.object;
  required = false;
  min_connections = least;
  max_connections = some 1;
  compatible_node_kinds = none;
  compatible_node_type_keys = none;
  compatible_value_types = [];
}

abbrev definition :
    String
    → String
    → NodeCategory
    → List ConnectionPointContract
    → List ConnectionPointContract
    → NodeDefinitionContract
definition id kind category inputs outputs = record {
  asset_id = id;
  slug = none;
  node_kind = kind;
  category = category;
  builder_category_key = "key";
  node_type_key = none;
  provider_key = none;
  status = BuilderAssetStatus.active;
  inputs = inputs;
  outputs = outputs;
  allowed_source_kinds = none;
  allowed_source_node_type_keys = none;
  allowed_target_kinds = none;
  allowed_target_node_type_keys = none;
  execution_role = "source";
}

abbrev scraper : NodeDefinitionContract
scraper = definition "d1" "dataSource" NodeCategory.source [] (port "payload" "output" 0 ∷ [])

abbrev sink : NodeDefinitionContract
sink = definition "d2" "terminal" NodeCategory.terminal (port "in" "input" 1 ∷ []) []

abbrev definitions : Definitions
definitions = ("d1", scraper) ∷ ("d2", sink) ∷ []

abbrev node : String → String → String → FlowNodePlain
node id definition_id kind = record {
  node_id = id;
  definition_asset_id = definition_id;
  node_kind = kind;
  category = none;
  builder_category_key = none;
  node_type_key = none;
  required = true;
  definition_slug = none;
  mapper_rules = none;
  terminal_config = none;
}

abbrev wire : String → String → String → FlowConnectionPlain
wire id from to = record {
  connection_id = id;
  source = record { node_id = from; port_key = "payload" };
  target = record { node_id = to; port_key = "in" };
  required = true;
}

abbrev nodes : List FlowNodePlain
nodes = node "a" "d1" "dataSource" ∷ node "t" "d2" "terminal" ∷ []

abbrev wires : List FlowConnectionPlain
wires = wire "c" "a" "t" ∷ []

abbrev ring : List FlowConnectionPlain
ring = wire "c1" "a" "b" ∷ wire "c2" "b" "c" ∷ wire "c3" "c" "a" ∷ []

has_cycle_test :
    (has_cycle ("a" ∷ "b" ∷ "c" ∷ []) ring ≡ true) × (has_cycle ("a" ∷ "b" ∷ []) ring ≡ false)
unfolding has_cycle
has_cycle_test = (refl, refl)

has_cycle_iff_example :
    (has_cycle ("a" ∷ "b" ∷ "c" ∷ []) ring ≡ true) ↔ Cycle ("a" ∷ "b" ∷ "c" ∷ []) ring
has_cycle_iff_example = has_cycle_iff ("a" ∷ "b" ∷ "c" ∷ []) ring

reached_from_iff_example :
    (includes (reached_from ring ("b" ∷ [])) "a" ≡ true) ↔ Reach ring ("b" ∷ []) "a"
reached_from_iff_example = reached_from_iff ring ("b" ∷ []) "a"

validate_dynamic_flow_graph_iff_example :
    ((validate_dynamic_flow_graph definitions none 0 nodes wires).blocking_errors ≡ [])
    ↔ IsAccepted definitions none nodes wires
validate_dynamic_flow_graph_iff_example =
    validate_dynamic_flow_graph_iff definitions none 0 nodes wires

kinds_compatible_iff_example :
    (kinds_compatible scraper sink (port "payload" "output" 0) (port "in" "input" 1) ≡ true)
    ↔ KindsFit scraper sink (port "payload" "output" 0) (port "in" "input" 1)
kinds_compatible_iff_example =
    kinds_compatible_iff scraper sink (port "payload" "output" 0) (port "in" "input" 1)

value_types_compatible_iff_example :
    (value_types_compatible BuilderValueType.object BuilderValueType.string (port "in" "input" 1)
      ≡ true)
    ↔ ValueTypesFit BuilderValueType.object BuilderValueType.string []
value_types_compatible_iff_example =
    value_types_compatible_iff BuilderValueType.object BuilderValueType.string (port "in" "input" 1)

is_category_pair_allowed_iff_example :
    (is_category_pair_allowed NodeCategory.source NodeCategory.terminal ≡ true)
    ↔ Feeds NodeCategory.source NodeCategory.terminal
is_category_pair_allowed_iff_example =
    is_category_pair_allowed_iff NodeCategory.source NodeCategory.terminal

count_inputs-eq-wires_at_example :
    or_else (get (port_id "t" "in") (count_inputs [] wires)) 0 ≡ wires_at (port_id "t" "in") wires
count_inputs-eq-wires_at_example = count_inputs-eq-wires_at wires (port_id "t" "in")
