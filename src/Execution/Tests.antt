-- ===== src/Execution/Tests.antt =====
-- A small published flow, and the theorems about its execution at it.
use roya_api.Prelude.{
  String, ◌≤◌, true, false, Option, none, some, List, [], ◌∷◌, ◌≡◌, ◌↔◌, refl, sym, ◌∙◌, includes,
  add, filter, Bool, ◌==◌, string_eq, length, Memᴰ, map, arith, or_else, All, All-mem, ◌&&◌, ◌⊎◌,
  ◌++◌, inl, inr,
}
use roya_api.Prelude.Distinct.{Distinct, Before}
use roya_api.Prelude.Dict.{get}
use roya_api.Prelude.Result.{Result, ok, threw}
use roya_api.Prelude.Text.{template}
use roya_api.Value.{Value, Record, of_record}
use roya_api.Execution.{
  SnapshotNode, SnapshotConnection, NodeStatus, NodeRuntime, Runtime, is_completed, snapshot_ids,
  plain,
}
use roya_api.FlowGraph.Cycle.{has_cycle}
use roya_api.FlowGraph.Cycle.Walks.{Cycle}
use roya_api.FlowGraph.Cycle.Decides.{has_cycle_iff}
use roya_api.Execution.Order.{topological_order}
use roya_api.Execution.Order.Correct.{topological_order-Before}
use roya_api.Execution.Order.Once.{topological_order-Distinct}
use roya_api.Execution.PortMerge.{ByPort, merge_mapper_keyed_inputs, collect_incoming_by_port}
use roya_api.Execution.PortMerge.Ports.{arriving, first, merge_mapper_keyed_inputs-arriving}
use roya_api.Execution.OutputSchema.{merge_output_schema_from_snapshot_nodes}
use roya_api.Category.{resolve_category}
use roya_api.Execution.Upstream.{
  Propagated, resolve_inputs_for_node_trace, check_upstream, index_incoming,
}
use roya_api.Execution.Upstream.Blocked.{Blocked, check_upstream-Blocked}
use roya_api.Execution.Run.{RunState, snapshot_node_display_label, node_required, run_flow}
use roya_api.Execution.Run.Steps.{try_nodes, issue_nodes}
use roya_api.Execution.Run.Safe.{run_flow-completed}
use roya_api.Execution.Run.Trace.{Recorded, entry_failed, run_flow-traced, run_flow-failures}
use roya_api.Execution.Run.Total.{IsMapper, LabelReads, into_node, into_port, run_flow-ok}
use roya_api.Execution.Run.Report.{finish_run}
use roya_api.Execution.Run.Report.Branches.{
  HoldsReport, finish_run-HoldsReport, finish_run-required,
}

abbrev node : String → String → SnapshotNode
node id kind = record {
  node_id = id;
  node_kind = kind;
  definition_asset_id = none;
  category = none;
  builder_category_key = none;
  node_type_key = none;
  provider_key = none;
  label = none;
  name = none;
  required = none;
  config = none;
  mapper_rules = none;
  terminal_config = none;
}

abbrev wire : String → String → String → SnapshotConnection
wire id from to = record {
  connection_id = id;
  source = record { node_id = from; port_key = "payload" };
  target = record { node_id = to; port_key = "in" };
  required = none;
}

abbrev sink : SnapshotNode
sink = node "t" "terminal"

abbrev source_node : SnapshotNode
source_node = node "s" "dataSource"

abbrev nodes : List SnapshotNode
nodes = sink ∷ source_node ∷ []

abbrev wires : List SnapshotConnection
wires = wire "c" "s" "t" ∷ []

-- Every node answers with one field.
abbrev execute : SnapshotNode → List SnapshotConnection → Runtime → ByPort → Result Record
execute n incoming runtime by_port = ok (("payload", Value.string n.node_id) ∷ [])

abbrev same_case : String → String
same_case s = s

topological_order_test : snapshot_ids (topological_order nodes wires) ≡ "s" ∷ "t" ∷ []
unfolding topological_order add
topological_order_test = refl

no_cycle : has_cycle (snapshot_ids nodes) (map plain wires) ≡ false
unfolding has_cycle
no_cycle = refl

acyclic : ¬ Cycle (snapshot_ids nodes) (map plain wires)
acyclic cycle =
    true_not_false (sym ((has_cycle_iff (snapshot_ids nodes) (map plain wires)).1 cycle) ∙ no_cycle)
  where
    true_not_false : true ≡ false → ⊥
    true_not_false h = cc

topological_order-Before_example : Before "s" "t" (snapshot_ids (topological_order nodes wires))
topological_order-Before_example =
    topological_order-Before nodes wires acyclic (wire "c" "s" "t") (Memᴰ.head refl) refl refl

topological_order-Distinct_example :
    Distinct (snapshot_ids (topological_order nodes wires))
    × ((n : SnapshotNode) → Memᴰ n (topological_order nodes wires) ↔ Memᴰ n nodes)
topological_order-Distinct_example = topological_order-Distinct nodes wires (refl, (refl, tt))

abbrev state_of : Result RunState → RunState
state_of (ok s) = s
state_of (threw e) = record {
  runtime = [];
  flow_warnings = [];
  required_failures = [];
  node_tries = [];
}

abbrev ended : RunState
ended = state_of (run_flow execute [] nodes wires)

run_flow_test : run_flow execute [] nodes wires ≡ ok ended
unfolding run_flow topological_order add resolve_inputs_for_node_trace resolve_category
    check_upstream index_incoming snapshot_node_display_label
run_flow_test = refl

abbrev entry : SnapshotNode → NodeRuntime
entry n = record {
  status = NodeStatus.completed;
  outputs = ("payload", Value.string n.node_id) ∷ [];
  error_code = none;
  error_message = none;
}

found_at_end : get "t" ended.runtime ≡ some (entry sink)
unfolding run_flow topological_order add resolve_inputs_for_node_trace resolve_category
    check_upstream index_incoming snapshot_node_display_label
found_at_end = refl

run_flow-completed_example :
    (up : NodeRuntime) × (get "s" ended.runtime ≡ some up) × (is_completed up.status ≡ true)
run_flow-completed_example =
    run_flow-completed execute [] nodes wires ended run_flow_test (refl, (refl, tt)) acyclic
      (wire "c" "s" "t") (Memᴰ.head refl) refl refl refl (entry sink) found_at_end refl

run_flow-traced_example :
    (try_nodes ended.node_tries ≡ snapshot_ids (topological_order nodes wires))
    × Distinct (try_nodes ended.node_tries)
    × ((n : SnapshotNode) → Memᴰ n (topological_order nodes wires) ↔ Memᴰ n nodes)
    × All (Recorded ended.runtime) ended.node_tries
run_flow-traced_example =
    run_flow-traced execute [] nodes wires ended run_flow_test (refl, (refl, tt))

run_flow-failures_example :
    includes (issue_nodes ended.required_failures) "t"
    ≡ (entry_failed (get "t" ended.runtime) && node_required sink)
run_flow-failures_example =
    run_flow-failures execute [] nodes wires ended run_flow_test (refl, (refl, tt)) sink
      (Memᴰ.head refl)

finish_run-HoldsReport_example :
    All
      (HoldsReport (merge_output_schema_from_snapshot_nodes nodes))
      (finish_run same_case nodes 1 ended).branch_results
finish_run-HoldsReport_example = finish_run-HoldsReport same_case nodes 1 ended

merge_mapper_keyed_inputs-arriving_example :
    ((r : Record)
      → merge_mapper_keyed_inputs (collect_incoming_by_port wires ended.runtime) ≡ ok r
      → (p : String)
      → (get p r ≡ first (arriving p wires ended.runtime))
        × (length (arriving p wires ended.runtime) ≤ 1))
    × ((e : Option String)
        → merge_mapper_keyed_inputs (collect_incoming_by_port wires ended.runtime) ≡ threw e
        → (p : String) × (2 ≤ length (arriving p wires ended.runtime)))
merge_mapper_keyed_inputs-arriving_example = merge_mapper_keyed_inputs-arriving wires ended.runtime

abbrev report : Record
report = or_else (finish_run same_case nodes 1 ended).data_fields []

report_found : (finish_run same_case nodes 1 ended).data_fields ≡ some report
unfolding finish_run run_flow topological_order add resolve_inputs_for_node_trace resolve_category
    check_upstream index_incoming snapshot_node_display_label
report_found = refl

finish_run-required_example : entry_failed (get "t" ended.runtime) ≡ false
finish_run-required_example =
    finish_run-required execute [] same_case nodes wires 1 ended report run_flow_test
      (refl, (refl, tt)) report_found sink (Memᴰ.head refl) refl

-- A node with a localized label.
abbrev labelled : Value → SnapshotNode
labelled english = record (node "m" "transform") {
  config = some (("label", of_record (("values", of_record (("en", english) ∷ [])) ∷ [])) ∷ []);
}

odd_label_test :
    snapshot_node_display_label (labelled (Value.boolean true))
    ≡ threw (some "values.en?.trim is not a function")
unfolding snapshot_node_display_label
odd_label_test = refl

abbrev mapper_nodes : List SnapshotNode
mapper_nodes = labelled (Value.string "Merge") ∷ source_node ∷ []

abbrev mapper_wires : List SnapshotConnection
mapper_wires = wire "c" "s" "m" ∷ []

length-filter :
    (p : SnapshotConnection → Bool) (cs : List SnapshotConnection)
    → length (filter p cs) ≤ length cs
length-filter p [] = omega arith
length-filter p (c ∷ cs) = ground (arith, length-filter p cs)

single_wire :
    (n : SnapshotNode)
    → Memᴰ n mapper_nodes
    → IsMapper [] n
    → (p : String) → length (into_port p (into_node n.node_id mapper_wires)) ≤ 1
single_wire n listed mapper p = omega (
  arith,
  length-filter (λ c. c.target.port_key == p) (into_node n.node_id mapper_wires),
  length-filter (λ c. c.target.node_id == n.node_id) mapper_wires,
)

plain_labels : (n : SnapshotNode) → Memᴰ n mapper_nodes → LabelReads n
plain_labels n m = All-mem LabelReads n mapper_nodes (inr ("Merge", refl), (inl refl, tt)) m

run_flow-ok_example : (t : RunState) × (run_flow execute [] mapper_nodes mapper_wires ≡ ok t)
run_flow-ok_example =
    run_flow-ok execute [] mapper_nodes mapper_wires (refl, (refl, tt)) single_wire plain_labels

abbrev broken : Runtime
broken =
    (
      "s",
      record { status = NodeStatus.failed; outputs = []; error_code = none; error_message = none },
    )
    ∷ []

check_upstream-Blocked_example :
    (All (λ c. Blocked broken c → ⊥) wires
      × (check_upstream sink wires broken true ≡ Propagated.run))
    ⊎ ((before : List SnapshotConnection) × (c : SnapshotConnection) × (after : List
          SnapshotConnection)
        × (wires ≡ before ++ c ∷ after)
        × All (λ c. Blocked broken c → ⊥) before
        × Blocked broken c
        × (check_upstream sink wires broken true
            ≡ Propagated.fail "upstream_required_failure" (
                template (
                  "Required upstream node \"" ∷ c.source.node_id ∷ "\" failed; cannot run node \""
                  ∷ sink.node_id ∷ "\"." ∷ []))))
check_upstream-Blocked_example = check_upstream-Blocked sink wires broken true
