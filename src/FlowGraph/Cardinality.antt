-- ===== src/FlowGraph/Cardinality.antt =====
-- dynamic-flow-graph.validation.ts, `validateDynamicFlowGraph`: how many connections each input port
-- has, against the bounds that its definition gives.
use roya_api.Prelude.{
  String, ℕ, ◌+◌, Bool, false, Option, none, some, List, [], ◌∷◌, ◌++◌, ◌&&◌, not, ◌==◌, string_eq,
  or_else, ltb,
}
use roya_api.Prelude.Dict.{get, put}
use roya_api.Prelude.Text.{template, decimal}
use roya_api.Enums.{ValidationIssueSeverity}
use roya_api.FlowGraph.{
  ConnectionPointContract, NodeDefinitionContract, FlowNodePlain, FlowConnectionPlain, Issues,
  Definitions, DynamicValidationIssue, flow_issue, issue_when, node_ref, def_for_node,
}
use roya_api.FlowGraph.Definition.{is_merger_multi_wire_catalog_asset, merger_slug_from_flow_node}

-- `${nodeId}::${portKey}`
unfoldable pub port_id : String → String → String
port_id node_id port_key = template (node_id ∷ "::" ∷ port_key ∷ [])

-- The loop that fills `inCount`.
unfoldable pub count_inputs : List (String × ℕ) → List FlowConnectionPlain → List (String × ℕ)
count_inputs counts [] = counts
count_inputs counts (c ∷ cs) =
    let k : String = port_id c.target.node_id c.target.port_key in
    count_inputs (put k (or_else (get k counts) 0 + 1) counts) cs

abbrev port_error :
    FlowNodePlain → ConnectionPointContract → String → String → DynamicValidationIssue
port_error n port code message =
    flow_issue code (template ("flowNodes." ∷ n.node_id ∷ ".inputs." ∷ port.key ∷ [])) message
      ValidationIssueSeverity.error (node_ref n.node_id)

abbrev pub too_few : ConnectionPointContract → ℕ → Bool
too_few port count = ltb 0 port.min_connections && ltb count port.min_connections

abbrev above : Option ℕ → ℕ → Bool
above none count = false
above (some most) count = ltb most count

abbrev max_text : Option ℕ → String
max_text none = ""
max_text (some most) = decimal most

-- A merger takes any number of connections at `in`.
abbrev pub takes_many : FlowNodePlain → NodeDefinitionContract → ConnectionPointContract → Bool
takes_many n def port =
    port.key == "in"
    && is_merger_multi_wire_catalog_asset (merger_slug_from_flow_node def n) def.node_kind
        def.inputs

abbrev pub too_many : FlowNodePlain → NodeDefinitionContract → ConnectionPointContract → ℕ → Bool
too_many n def port count = above port.max_connections count && not (takes_many n def port)

unfoldable pub check_port :
    FlowNodePlain → NodeDefinitionContract → ℕ → ConnectionPointContract → Issues
check_port n def count port =
    issue_when (too_few port count) (
      port_error n port "missing_required_input" (
        template (
          "Input \""
          ∷ port.key
          ∷ "\" needs at least "
          ∷ decimal port.min_connections
          ∷ " connection(s)."
          ∷ [])))
    ++ issue_when (too_many n def port count) (
        port_error n port "too_many_connections" (
          template (
            "Input \""
            ∷ port.key
            ∷ "\" allows at most "
            ∷ max_text port.max_connections
            ∷ " connection(s)."
            ∷ [])))

module _ (counts : List (String × ℕ)) where
  abbrev pub count_at : FlowNodePlain → ConnectionPointContract → ℕ
  count_at n port = or_else (get (port_id n.node_id port.key) counts) 0

  unfoldable pub check_inputs :
      FlowNodePlain → NodeDefinitionContract → List ConnectionPointContract → Issues
  check_inputs n def [] = []
  check_inputs n def (port ∷ ports) =
      check_port n def (count_at n port) port ++ check_inputs n def ports

  abbrev pub check_node_inputs : FlowNodePlain → Option NodeDefinitionContract → Issues
  check_node_inputs n none = []
  check_node_inputs n (some def) = check_inputs n def def.inputs

  unfoldable pub check_cardinality : Definitions → List FlowNodePlain → Issues
  check_cardinality defs [] = []
  check_cardinality defs (n ∷ ns) =
      check_node_inputs n (def_for_node defs n) ++ check_cardinality defs ns
