-- ===== src/FlowGraph/Accepted.antt =====
-- What it means for a flow to pass `validateDynamicFlowGraph` (dynamic-flow-graph.validation.ts),
-- said without the code's tests: in terms of the flow, the definitions and the category policy.
pub mod Base
pub mod Nodes
pub mod Wires
pub mod Ports
pub mod Mappers
pub mod Flow
use roya_api.Prelude.{
  String, ℕ, ◌+◌, ◌≤◌, Bool, true, false, Option, none, some, List, [], ◌∷◌, ◌≡◌, ◌≢◌, ◌⊎◌, Memᴰ,
  All, includes, string_eq, if◌then◌else◌, ◌==◌, or_else,
}
use roya_api.Prelude.Dict.{get}
use roya_api.Enums.{
  NodeCategory, category_value, BuilderAssetStatus, NodeConnectionDirection, MapperTransform,
}
use roya_api.Category.Feeds.{Feeds}
use roya_api.FlowGraph.{
  MapperRule, ConnectionPointContract, NodeDefinitionContract, FlowNodePlain, FlowConnectionPlain,
  Definitions, def_for_node,
}
use roya_api.FlowGraph.Definition.{
  normalize_wire_node_kind, is_merger_multi_wire_catalog_asset, merger_slug_from_flow_node,
}
use roya_api.FlowGraph.Compatible.{point_by_key}
use roya_api.FlowGraph.Compatible.Rules.{KindsFit, ValueTypesFit, TerminalTakes}
use roya_api.FlowGraph.Wires.{policy_for}
use roya_api.FlowGraph.Cardinality.{port_id}
use roya_api.FlowGraph.MapperRules.{
  upstream_keys, first_segment, is_merger_node, needs_mapper_rules,
}

abbrev pub NotGiven : Option String → Type 0
NotGiven o = (o ≡ none) ⊎ (o ≡ some "")

-- A node has an active definition of its kind, and the keys that it declares are the definition's;
-- the semantic category may stand for the builder key.
pub record NodeFits (defs : Definitions) (n : FlowNodePlain) : Type 0 where
  pub def : NodeDefinitionContract
  pub found : def_for_node defs n ≡ some def
  pub active : def.status ≡ BuilderAssetStatus.active
  pub kind : def.node_kind ≡ normalize_wire_node_kind n.node_kind
  pub category : (n.category ≡ none) ⊎ (n.category ≡ some def.category)
  pub builder_key :
      NotGiven n.builder_category_key
      ⊎ (n.builder_category_key ≡ some def.builder_category_key)
      ⊎ (n.builder_category_key ≡ some (category_value def.category))
  pub type_key : NotGiven n.node_type_key ⊎ (n.node_type_key ≡ def.node_type_key)

-- The policy's targets for the source's builder key, where it lists any; else the matrix.
abbrev pub CategoriesFitBy :
    Option (List String) → NodeDefinitionContract → NodeDefinitionContract → Type 0
CategoriesFitBy none from_def to_def = Feeds from_def.category to_def.category
CategoriesFitBy (some []) from_def to_def = Feeds from_def.category to_def.category
CategoriesFitBy (some (k ∷ ks)) from_def to_def = Memᴰ to_def.builder_category_key (k ∷ ks)

abbrev pub CategoriesFit :
    Option (List (String × List String)) → NodeDefinitionContract → NodeDefinitionContract → Type 0
CategoriesFit policy from_def to_def =
    CategoriesFitBy (policy_for policy from_def.builder_category_key) from_def to_def

-- A connection joins an output of a node to an input of a node, and the two fit.
pub record Joins (policy : Option (List (String × List String))) (defs : Definitions)
    (by_id : List (String × FlowNodePlain)) (c : FlowConnectionPlain) : Type 0 where
  pub from : FlowNodePlain
  pub to : FlowNodePlain
  pub from_def : NodeDefinitionContract
  pub to_def : NodeDefinitionContract
  pub out_point : ConnectionPointContract
  pub in_point : ConnectionPointContract
  pub from_found : get c.source.node_id by_id ≡ some from
  pub to_found : get c.target.node_id by_id ≡ some to
  pub from_defined : def_for_node defs from ≡ some from_def
  pub to_defined : def_for_node defs to ≡ some to_def
  pub out_found :
      point_by_key from_def.outputs c.source.port_key NodeConnectionDirection.output
      ≡ some out_point
  pub in_found :
      point_by_key to_def.inputs c.target.port_key NodeConnectionDirection.input ≡ some in_point
  pub values :
      ValueTypesFit out_point.value_type in_point.value_type in_point.compatible_value_types
  pub terminal :
      (or_else to.category to_def.category ≢ NodeCategory.terminal) ⊎ TerminalTakes to from_def
  pub categories : CategoriesFit policy from_def to_def
  pub kinds : KindsFit from_def to_def out_point in_point

-- The connections into the port that has this identification.
abbrev pub wires_at : String → List FlowConnectionPlain → ℕ
wires_at k [] = 0
wires_at k (c ∷ cs) =
    (if port_id c.target.node_id c.target.port_key == k then 1 else 0) + wires_at k cs

abbrev pub AtMost : Option ℕ → ℕ → Type 0
AtMost none count = Unit
AtMost (some most) count = count ≤ most

-- The connections into a port are within its bounds; a merger's `in` has no upper one.
abbrev pub PortFits :
    List FlowConnectionPlain
    → FlowNodePlain
    → NodeDefinitionContract
    → ConnectionPointContract
    → Type 0
PortFits cs n def port =
    (port.min_connections ≤ wires_at (port_id n.node_id port.key) cs)
    × (AtMost port.max_connections (wires_at (port_id n.node_id port.key) cs)
        ⊎ (port.key ≡ "in")
          × (is_merger_multi_wire_catalog_asset (merger_slug_from_flow_node def n) def.node_kind
                def.inputs
              ≡ true))

abbrev pub PortsFit :
    List FlowConnectionPlain → FlowNodePlain → Option NodeDefinitionContract → Type 0
PortsFit cs n none = Unit
PortsFit cs n (some def) = All (PortFits cs n def) def.inputs

abbrev pub SourceFits : List String → Option String → Type 0
SourceFits upstream none = Unit
SourceFits upstream (some path) =
    (path ≡ "") ⊎ Memᴰ path upstream ⊎ Memᴰ (first_segment path) upstream

-- A required direct rule reads what an upstream output offers, and a filter names its field.
abbrev pub RuleFits : List String → MapperRule → Type 0
RuleFits upstream rule =
    ((rule.transform ≢ MapperTransform.direct)
      ⊎ (rule.required ≡ false)
      ⊎ SourceFits upstream rule.source_path)
    × ((rule.transform ≢ MapperTransform.filter) ⊎ (rule.has_field_parameter ≡ true))

abbrev pub MapperFits :
    Definitions
    → List (String × FlowNodePlain)
    → List FlowConnectionPlain
    → FlowNodePlain
    → Option NodeDefinitionContract
    → Type 0
MapperFits defs by_id cs n none = Unit
MapperFits defs by_id cs n (some def) =
    (is_merger_node n def ≡ true)
    ⊎ (needs_mapper_rules n def ≡ false)
    ⊎ All (RuleFits (upstream_keys defs by_id n.node_id [] cs)) (or_else n.mapper_rules [])
