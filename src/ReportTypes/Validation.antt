-- ===== src/ReportTypes/Validation.antt =====
-- report-types/report-type-builder-validation.service.ts, with `buildDefinitionMap`, and the loading
-- and normalization of definitions in report-types.service.ts. The rows of the catalog and of the
-- categories are parameters, as the database answers.
use roya_api.Prelude.{
  String, ℕ, Bool, not, ◌&&◌, Option, none, some, List, [], ◌∷◌, map, filter, add_all, includes,
  if◌then◌else◌, or_else, or_option, ◌==◌, string_eq,
}
use roya_api.Prelude.Dict.{get, put}
use roya_api.FlowGraph.{FlowNodePlain, NodeDefinitionContract, Definitions}
use roya_api.FlowGraph.Definition.{AssetDoc, node_definition_from_asset, normalize_wire_node_kind}
use roya_api.FlowGraph.Validate.{FlowValidationResultPayload, validate_dynamic_flow_graph}
use roya_api.Execution.{SnapshotConnection, plain}
use roya_api.ReportTypes.Snapshot.{FlowNodeRow}

abbrev pub put_definition : Option NodeDefinitionContract → Definitions → Definitions
put_definition none m = m
put_definition (some d) m = put d.asset_id d m

unfoldable pub build_definition_map : List AssetDoc → Definitions → Definitions
build_definition_map [] m = m
build_definition_map (a ∷ assets) m =
    build_definition_map assets (put_definition (node_definition_from_asset a) m)

pub record BuilderCategory : Type 0 where
  pub key : String
  pub slug : String
  pub allowed_outgoing_category_keys : Option (List String)

abbrev pub Policy : Type 0
Policy = List (String × List String)

unfoldable pub category_policy : List BuilderCategory → Policy → Policy
category_policy [] m = m
category_policy (row ∷ rows) m =
    let outgoing : List String = or_else row.allowed_outgoing_category_keys [] in
    category_policy rows (put row.slug outgoing (put row.key outgoing m))

abbrev pub is_node_definition : AssetDoc → Bool
is_node_definition a = a.asset_type == "nodeDefinition"

abbrev pub checked_nodes : List FlowNodeRow → List FlowNodePlain
checked_nodes = map (λ r. r.checked)

unfoldable pub validate_dynamic_report_flow :
    List BuilderCategory
    → ℕ
    → List FlowNodeRow
    → List SnapshotConnection
    → List AssetDoc
    → FlowValidationResultPayload
validate_dynamic_report_flow categories now rows connections assets =
    validate_dynamic_flow_graph (build_definition_map (filter is_node_definition assets) [])
      (some (category_policy categories [])) now (checked_nodes rows) (map plain connections)

-- The ids of the definitions of a flow, each once.
abbrev definition_ids : List FlowNodeRow → List String
definition_ids rows =
    add_all [] (filter (λ id. not (id == "")) (map (λ r. r.checked.definition_asset_id) rows))

unfoldable pub load_node_definitions_for_flow : List AssetDoc → List FlowNodeRow → List AssetDoc
load_node_definitions_for_flow assets rows =
    filter (λ a. includes (definition_ids rows) a.id && is_node_definition a) assets

-- `...(def.nodeTypeKey ? { nodeTypeKey: … } : {})`
abbrev node_type_key_of : Option String → Option String → Option String
node_type_key_of none own = own
node_type_key_of (some key) own = if key == "" then own else or_option own (some key)

abbrev pub normalize_row : Option NodeDefinitionContract → FlowNodeRow → FlowNodeRow
normalize_row none r = r
normalize_row (some def) r = record {
  checked = record r.checked {
    node_kind = normalize_wire_node_kind r.checked.node_kind;
    category = or_option r.checked.category (some def.category);
    builder_category_key = or_option r.checked.builder_category_key (some def.builder_category_key);
    node_type_key = node_type_key_of def.node_type_key r.checked.node_type_key;
  };
  stored = record r.stored {
    node_kind = normalize_wire_node_kind r.stored.node_kind;
    category = or_option r.stored.category (some def.category);
    builder_category_key = or_option r.stored.builder_category_key (some def.builder_category_key);
    node_type_key = node_type_key_of def.node_type_key r.stored.node_type_key;
  };
}

unfoldable pub normalize_flow_nodes_with_definitions :
    List FlowNodeRow → List AssetDoc → List FlowNodeRow
normalize_flow_nodes_with_definitions rows docs =
    map (λ r. normalize_row (get r.checked.definition_asset_id (build_definition_map docs [])) r)
      rows
