-- ===== src/FlowGraph/Wires.antt =====
-- dynamic-flow-graph.validation.ts, `validateDynamicFlowGraph`: unique connection ids, and each
-- connection against the nodes, the ports and the categories that it joins.
use roya_api.Prelude.{
  String, Bool, Option, none, some, List, [], ◌∷◌, ◌++◌, ◌&&◌, not, if◌then◌else◌, ◌==◌, string_eq,
  option_eq, includes, add, or_option,
}
use roya_api.Prelude.Dict.{get}
use roya_api.Prelude.Text.{template}
use roya_api.Enums.{
  NodeCategory, category_eq, NodeConnectionDirection, value_type_value, ValidationIssueSeverity,
}
use roya_api.Category.{resolve_category}
use roya_api.FlowGraph.{
  ConnectionPointContract, NodeDefinitionContract, FlowNodePlain, FlowConnectionPlain,
  DynamicValidationIssue, Refs, Issues, Definitions, flow_issue, issue_when, no_refs,
  connection_ref, both_refs, def_for_node,
}
use roya_api.FlowGraph.Compatible.{
  point_by_key, value_types_compatible, kinds_compatible, categories_compatible,
  terminal_sources_compatible,
}

abbrev connection_error :
    FlowConnectionPlain → String → String → String → Refs → DynamicValidationIssue
connection_error c code field message refs =
    flow_issue code (template ("flowConnections." ∷ c.connection_id ∷ field ∷ [])) message
      ValidationIssueSeverity.error refs

-- The loop over `seenConn`.
unfoldable pub duplicate_connections : List String → List FlowConnectionPlain → Issues
duplicate_connections seen [] = []
duplicate_connections seen (c ∷ cs) =
    issue_when (includes seen c.connection_id)
      (connection_error c "duplicate_connection_id" "" "Connection ids must be unique." no_refs)
    ++ duplicate_connections (add seen c.connection_id) cs

abbrev pub feeds_terminal : FlowNodePlain → NodeDefinitionContract → Bool
feeds_terminal to to_def =
    resolve_category (or_option to.category (some to_def.category)) (some to.node_kind)
    == some NodeCategory.terminal

-- `!allowedCategoryKeys || allowedCategoryKeys.length === 0 ? … : …`
abbrev pub categories_allowed_by :
    Option (List String) → NodeDefinitionContract → NodeDefinitionContract → Bool
categories_allowed_by none from_def to_def = categories_compatible from_def to_def
categories_allowed_by (some []) from_def to_def = categories_compatible from_def to_def
categories_allowed_by (some (k ∷ ks)) from_def to_def =
    includes (k ∷ ks) to_def.builder_category_key

-- `categoryPolicy?.get(key)`
abbrev pub policy_for : Option (List (String × List String)) → String → Option (List String)
policy_for none key = none
policy_for (some policy) key = get key policy

abbrev pub categories_allowed :
    Option (List (String × List String)) → NodeDefinitionContract → NodeDefinitionContract → Bool
categories_allowed policy from_def to_def =
    categories_allowed_by (policy_for policy from_def.builder_category_key) from_def to_def

module _ (policy : Option (List (String × List String))) (c : FlowConnectionPlain) where
  -- The last tests, at two ports of two nodes.
  unfoldable pub check_points :
      FlowNodePlain
      → NodeDefinitionContract
      → NodeDefinitionContract
      → ConnectionPointContract
      → ConnectionPointContract
      → Issues
  check_points to from_def to_def out_point in_point =
      issue_when (not (value_types_compatible out_point.value_type in_point.value_type in_point)) (
        connection_error c "incompatible_value_types" ""
          (template (
            "Value type "
            ∷ value_type_value out_point.value_type
            ∷ " is not compatible with target port (expects "
            ∷ value_type_value in_point.value_type
            ∷ ")."
            ∷ []))
          (connection_ref c.connection_id))
      ++ (issue_when (feeds_terminal to to_def && not (terminal_sources_compatible to from_def)) (
            connection_error c "terminal_source_not_accepted" ""
              "This terminal does not accept input from the selected source node type."
              (both_refs c.connection_id to.node_id))
          ++ (if not (categories_allowed policy from_def to_def)
              then connection_error c "incompatible_node_categories" ""
                  (template (
                    "Nodes of category \"" ∷ from_def.builder_category_key
                    ∷ "\" cannot feed nodes of category \"" ∷ to_def.builder_category_key ∷ "\"."
                    ∷ []))
                  (connection_ref c.connection_id)
                ∷ []
              else issue_when (not (kinds_compatible from_def to_def out_point in_point)) (
                  connection_error c "incompatible_node_kinds" ""
                    "These node kinds are not allowed to connect by definition rules."
                    (connection_ref c.connection_id))))

  unfoldable pub check_ports :
      FlowNodePlain
      → FlowNodePlain
      → NodeDefinitionContract
      → NodeDefinitionContract
      → Option ConnectionPointContract
      → Option ConnectionPointContract
      → Issues
  check_ports from to from_def to_def none in_point =
      connection_error c "port_not_output" ".source.portKey"
        (template
          ("Output port \"" ∷ c.source.port_key ∷ "\" is not defined on the source node." ∷ []))
        (both_refs c.connection_id from.node_id)
      ∷ []
  check_ports from to from_def to_def (some out_point) none =
      connection_error c "port_not_input" ".target.portKey"
        (template
          ("Input port \"" ∷ c.target.port_key ∷ "\" is not defined on the target node." ∷ []))
        (both_refs c.connection_id to.node_id)
      ∷ []
  check_ports from to from_def to_def (some out_point) (some in_point) =
      check_points to from_def to_def out_point in_point

  -- A node without a definition is reported elsewhere.
  unfoldable pub check_definitions :
      FlowNodePlain
      → FlowNodePlain
      → Option NodeDefinitionContract
      → Option NodeDefinitionContract
      → Issues
  check_definitions from to none to_def = []
  check_definitions from to (some from_def) none = []
  check_definitions from to (some from_def) (some to_def) =
      check_ports from to from_def to_def
        (point_by_key from_def.outputs c.source.port_key NodeConnectionDirection.output)
        (point_by_key to_def.inputs c.target.port_key NodeConnectionDirection.input)

  unfoldable pub check_ends : Definitions → Option FlowNodePlain → Option FlowNodePlain → Issues
  check_ends defs none to =
      connection_error c "connection_unknown_source" ".source" "Source node was not found."
        (connection_ref c.connection_id)
      ∷ []
  check_ends defs (some from) none =
      connection_error c "connection_unknown_target" ".target" "Target node was not found."
        (connection_ref c.connection_id)
      ∷ []
  check_ends defs (some from) (some to) =
      check_definitions from to (def_for_node defs from) (def_for_node defs to)

unfoldable pub check_connections :
    Option (List (String × List String))
    → Definitions
    → List (String × FlowNodePlain)
    → List FlowConnectionPlain
    → Issues
check_connections policy defs by_id [] = []
check_connections policy defs by_id (c ∷ cs) =
    check_ends policy c defs (get c.source.node_id by_id) (get c.target.node_id by_id)
    ++ check_connections policy defs by_id cs
