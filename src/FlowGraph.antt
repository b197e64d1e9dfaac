-- ===== src/FlowGraph.antt =====
-- report-types/dynamic-flow-graph.validation.ts and dynamic-flow-validation.types.ts: the data of a
-- flow, of the node definitions that it is checked against, and of an issue. Optional fields are
-- `Option`; `definitionAssetId` is held as the string that the code makes of it. A port's
-- direction is the persisted string, which old rows leave out.
pub mod Definition
pub mod Compatible
pub mod Cycle
pub mod Reached
pub mod Nodes
pub mod Wires
pub mod Cardinality
pub mod MapperRules
pub mod Validate
pub mod Accepted
mod Tests
use roya_api.Prelude.{String, ℕ, Bool, Option, none, some, List, [], ◌∷◌, if◌then◌else◌, string_eq}
use roya_api.Prelude.Dict.{get}
use roya_api.Enums.{
  NodeCategory, BuilderValueType, BuilderAssetStatus, ValidationIssueSeverity, MapperTransform,
}

pub record ConnectionPointContract : Type 0 where
  pub key : String
  pub direction : Option String
  pub value_type : BuilderValueType
  pub required : Bool
  pub min_connections : ℕ
  pub max_connections : Option ℕ
  pub compatible_node_kinds : Option (List String)
  pub compatible_node_type_keys : Option (List String)
  pub compatible_value_types : List BuilderValueType

pub record NodeDefinitionContract : Type 0 where
  pub asset_id : String
  pub slug : Option String
  pub node_kind : String
  pub category : NodeCategory
  pub builder_category_key : String
  pub node_type_key : Option String
  pub provider_key : Option String
  pub status : BuilderAssetStatus
  pub inputs : List ConnectionPointContract
  pub outputs : List ConnectionPointContract
  pub allowed_source_kinds : Option (List String)
  pub allowed_source_node_type_keys : Option (List String)
  pub allowed_target_kinds : Option (List String)
  pub allowed_target_node_type_keys : Option (List String)
  pub execution_role : String

-- A rule's `parameters` are read at `field` alone by the validation: whether that value is truthy.
pub record MapperRule : Type 0 where
  pub rule_id : String
  pub source_path : Option String
  pub target_path : String
  pub transform : MapperTransform
  pub has_field_parameter : Bool
  pub required : Bool

pub record TerminalConfig : Type 0 where
  pub terminal_key : String
  pub required : Bool
  pub accepted_source_kinds : List String
  pub accepted_source_node_type_keys : Option (List String)
  pub output_mode : String

pub record FlowNodePlain : Type 0 where
  pub node_id : String
  pub definition_asset_id : String
  pub node_kind : String
  pub category : Option NodeCategory
  pub builder_category_key : Option String
  pub node_type_key : Option String
  pub required : Bool
  pub definition_slug : Option String
  pub mapper_rules : Option (List MapperRule)
  pub terminal_config : Option TerminalConfig

pub record Endpoint : Type 0 where
  pub node_id : String
  pub port_key : String

pub record FlowConnectionPlain : Type 0 where
  pub connection_id : String
  pub source : Endpoint
  pub target : Endpoint
  pub required : Bool

pub record LocalizedMessage : Type 0 where
  pub default_language : String
  pub values : List (String × String)

pub record DynamicValidationIssue : Type 0 where
  pub code : String
  pub path : String
  pub node_id : Option String
  pub connection_id : Option String
  pub message : LocalizedMessage
  pub severity : ValidationIssueSeverity

-- The `refs` of an issue.
pub record Refs : Type 0 where
  pub node_id : Option String
  pub connection_id : Option String

abbrev pub no_refs : Refs
no_refs = record { node_id = none; connection_id = none }

abbrev pub node_ref : String → Refs
node_ref n = record { node_id = some n; connection_id = none }

abbrev pub connection_ref : String → Refs
connection_ref c = record { node_id = none; connection_id = some c }

abbrev pub both_refs : String → String → Refs
both_refs c n = record { node_id = some n; connection_id = some c }

abbrev en : String → LocalizedMessage
en msg = record { default_language = "en"; values = ("en", msg) ∷ [] }

unfoldable pub flow_issue :
    String → String → String → ValidationIssueSeverity → Refs → DynamicValidationIssue
flow_issue code path message severity refs = record {
  code = code;
  path = path;
  node_id = refs.node_id;
  connection_id = refs.connection_id;
  message = en message;
  severity = severity;
}

abbrev pub issue_when : Bool → DynamicValidationIssue → List DynamicValidationIssue
issue_when b issue = if b then issue ∷ [] else []

abbrev pub Issues : Type 0
Issues = List DynamicValidationIssue

abbrev pub Definitions : Type 0
Definitions = List (String × NodeDefinitionContract)

-- `defForNode`
abbrev pub def_for_node : Definitions → FlowNodePlain → Option NodeDefinitionContract
def_for_node defs n = get n.definition_asset_id defs
