-- ===== src/FlowGraph/Nodes.antt =====
-- dynamic-flow-graph.validation.ts, `validateDynamicFlowGraph`: unique node ids, the index of nodes,
-- and each node against its definition.
use roya_api.Prelude.{
  String, Bool, false, Option, none, some, List, [], ◌∷◌, ◌++◌, ◌&&◌, not, ◌==◌, string_eq,
  option_eq, includes, add, is_some,
}
use roya_api.Prelude.Dict.{put}
use roya_api.Prelude.Text.{template}
use roya_api.Enums.{
  category_value, category_eq, BuilderAssetStatus, asset_status_eq, ValidationIssueSeverity,
}
use roya_api.FlowGraph.{
  NodeDefinitionContract, FlowNodePlain, DynamicValidationIssue, Issues, Definitions, flow_issue,
  issue_when, no_refs, node_ref, def_for_node,
}
use roya_api.FlowGraph.Definition.{normalize_wire_node_kind}

abbrev node_path : FlowNodePlain → String → String
node_path n field = template ("flowNodes." ∷ n.node_id ∷ field ∷ [])

abbrev node_error : FlowNodePlain → String → String → String → DynamicValidationIssue
node_error n code field message =
    flow_issue code (node_path n field) message ValidationIssueSeverity.error (node_ref n.node_id)

-- The loop over `seenIds`.
unfoldable pub duplicate_nodes : List String → List FlowNodePlain → Issues
duplicate_nodes seen [] = []
duplicate_nodes seen (n ∷ ns) =
    issue_when (includes seen n.node_id) (
      flow_issue "duplicate_node_id" (node_path n ".nodeId")
        "Node ids must be unique within the flow." ValidationIssueSeverity.error no_refs)
    ++ duplicate_nodes (add seen n.node_id) ns

-- `nodeById`: a later node with the same id takes the place of an earlier one.
unfoldable pub index_nodes :
    List (String × FlowNodePlain) → List FlowNodePlain → List (String × FlowNodePlain)
index_nodes by_id [] = by_id
index_nodes by_id (n ∷ ns) = index_nodes (put n.node_id n by_id) ns

abbrev pub status_fault : NodeDefinitionContract → Bool
status_fault def = not (def.status == BuilderAssetStatus.active)

abbrev pub kind_fault : FlowNodePlain → NodeDefinitionContract → Bool
kind_fault n def = not (def.node_kind == normalize_wire_node_kind n.node_kind)

abbrev pub category_fault : FlowNodePlain → NodeDefinitionContract → Bool
category_fault n def = is_some n.category && not (n.category == some def.category)

-- A key that is given, `if (key)`.
abbrev pub given : Option String → Bool
given none = false
given (some s) = not (s == "")

-- Flows used to store the semantic category where the builder key now stands.
abbrev pub legacy_key : FlowNodePlain → NodeDefinitionContract → Bool
legacy_key n def =
    n.builder_category_key == some (category_value def.category)
    && not (def.builder_category_key == category_value def.category)

abbrev pub builder_key_fault : FlowNodePlain → NodeDefinitionContract → Bool
builder_key_fault n def =
    given n.builder_category_key
    && not (n.builder_category_key == some def.builder_category_key)
    && not (legacy_key n def)

abbrev pub type_key_fault : FlowNodePlain → NodeDefinitionContract → Bool
type_key_fault n def = given n.node_type_key && not (def.node_type_key == n.node_type_key)

unfoldable pub check_definition : FlowNodePlain → NodeDefinitionContract → Issues
check_definition n def =
    issue_when (status_fault def) (
      node_error n "node_definition_inactive" ".definitionAssetId"
        "The node definition is not active and cannot be used in draft editing.")
    ++ (issue_when (kind_fault n def) (
          node_error n "node_kind_mismatch" ".nodeKind"
            "Declared node kind does not match the selected definition.")
        ++ (issue_when (category_fault n def) (
              node_error n "node_category_mismatch" ".category"
                "Declared node category does not match the selected definition.")
            ++ (issue_when (builder_key_fault n def) (
                  node_error n "builder_category_key_mismatch" ".builderCategoryKey"
                    "Declared builder category key does not match the selected definition.")
                ++ issue_when (type_key_fault n def) (
                    node_error n "node_type_key_mismatch" ".nodeTypeKey"
                      "Declared node type key does not match the selected definition."))))

unfoldable pub check_node : FlowNodePlain → Option NodeDefinitionContract → Issues
check_node n none =
    node_error n "unknown_node_definition" ".definitionAssetId"
      "The node definition asset was not found or is invalid."
    ∷ []
check_node n (some def) = check_definition n def

unfoldable pub check_nodes : Definitions → List FlowNodePlain → Issues
check_nodes defs [] = []
check_nodes defs (n ∷ ns) = check_node n (def_for_node defs n) ++ check_nodes defs ns
