-- ===== src/Execution.antt =====
-- analyses/dynamic-flow-node-execution.types.ts: the nodes and connections of a published flow.
-- A node's kind and keys are the strings of the snapshot.
pub mod Nodes
pub mod Order
pub mod PortMerge
pub mod Upstream
pub mod OutputSchema
pub mod Run
pub mod Executors
mod Tests
use roya_api.Prelude.{String, Bool, Option, List, map, or_else, true, false}
use roya_api.Enums.{NodeCategory, MapperTransform}
use roya_api.Value.{Record}
use roya_api.FlowGraph.{Endpoint, FlowConnectionPlain}

pub record SnapshotTerminalConfig : Type 0 where
  pub terminal_key : Option String
  pub required : Option Bool
  pub output_mode : Option String

pub record SnapshotMapperRule : Type 0 where
  pub target_path : String
  pub source_path : Option String
  pub transform : Option MapperTransform
  pub parameters : Option Record
  pub required : Option Bool

pub record SnapshotNode : Type 0 where
  pub node_id : String
  pub node_kind : String
  pub definition_asset_id : Option String
  pub category : Option NodeCategory
  pub builder_category_key : Option String
  pub node_type_key : Option String
  pub provider_key : Option String
  pub label : Option String
  pub name : Option String
  pub required : Option Bool
  pub config : Option Record
  pub mapper_rules : Option (List SnapshotMapperRule)
  pub terminal_config : Option SnapshotTerminalConfig

pub record SnapshotConnection : Type 0 where
  pub connection_id : String
  pub source : Endpoint
  pub target : Endpoint
  pub required : Option Bool

-- A connection of the snapshot as one of the flow that was validated.
abbrev pub plain : SnapshotConnection → FlowConnectionPlain
plain c = record {
  connection_id = c.connection_id;
  source = c.source;
  target = c.target;
  required = or_else c.required true;
}

abbrev pub snapshot_ids : List SnapshotNode → List String
snapshot_ids = map (λ n. n.node_id)

pub data NodeStatus : Type 0 where
  completed failed skipped : NodeStatus

abbrev pub is_completed : NodeStatus → Bool
is_completed NodeStatus.completed = true
is_completed NodeStatus.failed = false
is_completed NodeStatus.skipped = false

pub record NodeRuntime : Type 0 where
  pub status : NodeStatus
  pub outputs : Record
  pub error_code : Option String
  pub error_message : Option String

abbrev pub Runtime : Type 0
Runtime = List (String × NodeRuntime)
