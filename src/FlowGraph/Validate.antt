-- ===== src/FlowGraph/Validate.antt =====
-- dynamic-flow-graph.validation.ts, `validateDynamicFlowGraph` as a whole, and the search from the
-- flow's entries. The time of the check is an argument.
use roya_api.Prelude.{
  String, ℕ, ◌+◌, Bool, true, false, Option, none, some, List, [], ◌∷◌, ◌++◌, ◌&&◌, ◌||◌, not,
  if◌then◌else◌, ◌==◌, string_eq, option_eq, includes, add_all, filter, map, length,
}
use roya_api.Prelude.Text.{template}
use roya_api.Enums.{NodeCategory, category_eq, ValidationIssueSeverity, FlowValidationTargetType}
use roya_api.Category.{resolve_category}
use roya_api.FlowGraph.{
  NodeDefinitionContract, FlowNodePlain, FlowConnectionPlain, Issues, Definitions, flow_issue,
  issue_when, no_refs, node_ref, def_for_node,
}
use roya_api.FlowGraph.Nodes.{duplicate_nodes, index_nodes, check_nodes}
use roya_api.FlowGraph.Wires.{duplicate_connections, check_connections}
use roya_api.FlowGraph.Cardinality.{count_inputs, check_cardinality}
use roya_api.FlowGraph.Reached.{reached_from}
use roya_api.FlowGraph.Cycle.{has_cycle}
use roya_api.FlowGraph.MapperRules.{check_mappers}

abbrev pub is_terminal_node : FlowNodePlain → Bool
is_terminal_node n = resolve_category n.category (some n.node_kind) == some NodeCategory.terminal

abbrev pub node_ids : List FlowNodePlain → List String
node_ids = map (λ n. n.node_id)

-- `nodeIdSet`
abbrev pub node_id_set : List FlowNodePlain → List String
node_id_set ns = add_all [] (node_ids ns)

-- The category of a node as its definition has it, or else as the node declares it.
abbrev root_category : Option NodeDefinitionContract → FlowNodePlain → Option NodeCategory
root_category none n = resolve_category n.category (some n.node_kind)
root_category (some def) n = resolve_category (some def.category) (some def.node_kind)

abbrev pub is_input_root : Definitions → FlowNodePlain → Bool
is_input_root defs n = root_category (def_for_node defs n) n == some NodeCategory.input

-- The set `incoming`.
abbrev pub incoming_ids : List FlowConnectionPlain → List String
incoming_ids cs = add_all [] (map (λ c. c.target.node_id) cs)

unfoldable pub roots : Definitions → List FlowNodePlain → List FlowConnectionPlain → List String
roots defs ns cs =
    node_ids (filter (λ n. not (includes (incoming_ids cs) n.node_id) || is_input_root defs n) ns)

unfoldable pub reached_ids :
    Definitions → List FlowNodePlain → List FlowConnectionPlain → List String
reached_ids defs ns cs = reached_from cs (roots defs ns cs)

unfoldable pub unreachable_warnings : List String → List FlowNodePlain → Issues
unreachable_warnings reached [] = []
unreachable_warnings reached (n ∷ ns) =
    issue_when (not (includes reached n.node_id) && not (is_terminal_node n)) (
      flow_issue "unreachable_node" (template ("flowNodes." ∷ n.node_id ∷ []))
        "This node is not reachable from the entry of the flow." ValidationIssueSeverity.warning
        (node_ref n.node_id))
    ++ unreachable_warnings reached ns

unfoldable pub terminal_errors : List String → List FlowNodePlain → Issues
terminal_errors reached [] = []
terminal_errors reached (t ∷ ts) =
    issue_when (not (includes reached t.node_id)) (
      flow_issue "terminal_unreachable" (template ("flowNodes." ∷ t.node_id ∷ []))
        "Terminal is not connected from the rest of the graph." ValidationIssueSeverity.error
        (node_ref t.node_id))
    ++ terminal_errors reached ts

unfoldable pub count_reached : List String → List FlowNodePlain → ℕ
count_reached reached [] = 0
count_reached reached (t ∷ ts) =
    (if includes reached t.node_id then 1 else 0) + count_reached reached ts

abbrev pub is_empty : List FlowNodePlain → Bool
is_empty [] = true
is_empty (_ ∷ _) = false

pub record GraphStats : Type 0 where
  pub node_count : ℕ
  pub connection_count : ℕ
  pub terminal_path_count : ℕ

pub record FlowValidationResultPayload : Type 0 where
  pub target_type : FlowValidationTargetType
  pub blocking_errors : Issues
  pub warnings : Issues
  pub graph_stats : GraphStats
  pub checked_at : ℕ

module _ (defs : Definitions) (policy : Option (List (String × List String))) where
  -- The blocking errors of a flow with at least one node, in the order in which they are pushed.
  unfoldable pub blocking_errors : List FlowNodePlain → List FlowConnectionPlain → Issues
  blocking_errors ns cs =
      let by_id : List (String × FlowNodePlain) = index_nodes [] ns in
      let terminals : List FlowNodePlain = filter is_terminal_node ns in
      duplicate_nodes [] ns
      ++ (check_nodes defs ns
          ++ (duplicate_connections [] cs
              ++ (check_connections policy defs by_id cs
                  ++ (check_cardinality (count_inputs [] cs) defs ns
                      ++ (issue_when (is_empty terminals) (
                            flow_issue "no_terminal" "flowNodes"
                              "At least one terminal node is required."
                              ValidationIssueSeverity.error no_refs)
                          ++ (terminal_errors (reached_ids defs ns cs) terminals
                              ++ (issue_when (has_cycle (node_id_set ns) cs) (
                                    flow_issue "cycle_detected" "flowConnections"
                                      "The flow must not contain directed cycles."
                                      ValidationIssueSeverity.error no_refs)
                                  ++ check_mappers defs by_id cs ns)))))))

  unfoldable pub validate_dynamic_flow_graph :
      ℕ → List FlowNodePlain → List FlowConnectionPlain → FlowValidationResultPayload
  validate_dynamic_flow_graph now [] cs = record {
    target_type = FlowValidationTargetType.report_flow;
    blocking_errors =
        flow_issue "flow_empty" "flowNodes" "Add at least one node to the flow."
          ValidationIssueSeverity.error no_refs
        ∷ [];
    warnings = [];
    graph_stats = record { node_count = 0; connection_count = 0; terminal_path_count = 0 };
    checked_at = now;
  }
  validate_dynamic_flow_graph now (n ∷ ns) cs = record {
    target_type = FlowValidationTargetType.report_flow;
    blocking_errors = blocking_errors (n ∷ ns) cs;
    warnings = unreachable_warnings (reached_ids defs (n ∷ ns) cs) (n ∷ ns);
    graph_stats = record {
      node_count = length (n ∷ ns);
      connection_count = length cs;
      terminal_path_count =
          count_reached (reached_ids defs (n ∷ ns) cs) (filter is_terminal_node (n ∷ ns));
    };
    checked_at = now;
  }
