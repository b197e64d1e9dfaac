-- ===== src/Execution/Run.antt =====
-- analyses/dynamic-flow-execution.service.ts: the loop of `runPublishedFlow` over the ordered
-- nodes. The registry of executors is the parameter `execute`: what it returns or throws for a
-- node, its connections, the runtime and the values at its ports. Times are left out.
pub mod Steps
pub mod Safe
pub mod Trace
pub mod Total
pub mod Report
pub mod Published
use roya_api.Prelude.{
  String, Bool, true, false, Option, none, some, List, [], ◌∷◌, ◌++◌, if◌then◌else◌, ◌==◌,
  string_eq, or_else, or_option,
}
use roya_api.Prelude.Dict.{get, put}
use roya_api.Prelude.Text.{template, trim}
use roya_api.Prelude.Result.{Result, ok, threw, and_then}
use roya_api.Enums.{NodeCategory, ValidationIssueSeverity}
use roya_api.Category.{resolve_category}
use roya_api.Value.{Value, Record, at, as_record, as_string, as_list}
use roya_api.Execution.{SnapshotNode, SnapshotConnection, NodeStatus, NodeRuntime, Runtime}
use roya_api.Execution.Order.{topological_order}
use roya_api.Execution.PortMerge.{ByPort, collect_incoming_by_port}
use roya_api.Execution.Upstream.{
  Incoming, index_incoming, required_unless_false, Propagated, check_upstream, Documents,
  resolve_inputs_for_node_trace,
}

pub record ValidationIssuePayload : Type 0 where
  pub code : String
  pub path : String
  pub message : String
  pub severity : ValidationIssueSeverity
  pub node_id : String

abbrev pub issue : String → String → String → ValidationIssueSeverity → ValidationIssuePayload
issue code node_id message severity = record {
  code = code;
  path = template ("node:" ∷ node_id ∷ []);
  message = message;
  severity = severity;
  node_id = node_id;
}

abbrev nonblank : Option String → Option String
nonblank none = none
nonblank (some s) = if trim s == "" then none else some (trim s)

-- The first value that is a string with more than white space.
pub first_text : Record → Option String
first_text [] = none
first_text ((k, v) ∷ r) = let rest = first_text r in or_option (nonblank (as_string v)) rest

-- The text of localized values that are strings, as the `Map` of `String` in the schema of a report
-- type's localized texts casts them.
abbrev pub values_text : Option Record → Option String
values_text none = none
values_text (some values) = or_option (nonblank (as_string (at "en" values))) (first_text values)

-- `node.config?.label?.values`
abbrev pub config_label : Option Record → Value
config_label none = Value.undefined
config_label (some config) = at "values" (or_else (as_record (at "label" config)) [])

abbrev pub filled : Option String → Option String
filled none = none
filled (some s) = if trim s == "" then none else some s

-- The first item that is a string with more than white space.
pub first_item : List Value → Option String
first_item [] = none
first_item (v ∷ vs) = let rest = first_item vs in or_option (nonblank (as_string v)) rest

-- `values['en']?.trim()`: what is neither nullish nor a string has no `trim` to call.
abbrev pub trimmed_en : Value → Result (Option String)
trimmed_en Value.undefined = ok none
trimmed_en Value.null = ok none
trimmed_en (Value.string s) = ok (nonblank (some s))
trimmed_en (Value.boolean b) = threw (some "values.en?.trim is not a function")
trimmed_en (Value.number f t) = threw (some "values.en?.trim is not a function")
trimmed_en (Value.array vs) = threw (some "values.en?.trim is not a function")
trimmed_en (Value.object fs) = threw (some "values.en?.trim is not a function")

-- The text of a localized label. `Object.values` of an array gives its items.
abbrev pub label_text : Value → Result (Option String)
label_text values = elim (as_record values) [
  | some r ↦ and_then (trimmed_en (at "en" r)) (λ en. ok (or_option en (first_text r)))
  | none ↦ ok (first_item (or_else (as_list values) []))
]

abbrev pub display_label : Option String → Option Record → Option String → Result (Option String)
display_label (some label) config name = ok (some label)
display_label none config name =
    and_then (label_text (config_label config)) (λ text. ok (or_option text name))

unfoldable pub snapshot_node_display_label : SnapshotNode → Result (Option String)
unfolding first_text first_item
snapshot_node_display_label n = display_label (filled n.label) n.config n.name

pub record NodeTry : Type 0 where
  pub node_id : String
  pub node_key : String
  pub node_category : Option NodeCategory
  pub label : Option String
  pub status : NodeStatus
  pub inputs : Record
  pub outputs : Option Record
  pub error_code : Option String
  pub error_message : Option String

pub record RunState : Type 0 where
  pub runtime : Runtime
  pub flow_warnings : List ValidationIssuePayload
  pub required_failures : List ValidationIssuePayload
  pub node_tries : List NodeTry

-- `runtime.set(node.nodeId, rt)` and `nodeTries.push({ ...traceBase, … })`
abbrev pub settle :
    SnapshotNode → Option String → Record → NodeRuntime → Option Record → RunState → RunState
settle n label inputs rt outputs s = record {
  runtime = put n.node_id rt s.runtime;
  flow_warnings = s.flow_warnings;
  required_failures = s.required_failures;
  node_tries =
      s.node_tries
      ++ record {
        node_id = n.node_id;
        node_key = or_else n.provider_key n.node_kind;
        node_category = resolve_category n.category (some n.node_kind);
        label = label;
        status = rt.status;
        inputs = inputs;
        outputs = outputs;
        error_code = rt.error_code;
        error_message = rt.error_message;
      }
        ∷ [];
}

abbrev pub fail_required : ValidationIssuePayload → RunState → RunState
fail_required i s = record {
  runtime = s.runtime;
  flow_warnings = s.flow_warnings;
  required_failures = s.required_failures ++ i ∷ [];
  node_tries = s.node_tries;
}

abbrev pub warn_flow : ValidationIssuePayload → RunState → RunState
warn_flow i s = record {
  runtime = s.runtime;
  flow_warnings = s.flow_warnings ++ i ∷ [];
  required_failures = s.required_failures;
  node_tries = s.node_tries;
}

abbrev pub not_completed : NodeStatus → String → String → NodeRuntime
not_completed status code message = record {
  status = status;
  outputs = [];
  error_code = some code;
  error_message = some message;
}

abbrev pub node_required : SnapshotNode → Bool
node_required n = required_unless_false n.required

-- What follows the call of the executor: the end of the `try` block, or the `catch` block.
pub after_execution : SnapshotNode → Option String → Record → Result Record → RunState → RunState
after_execution n label inputs (ok outputs) s =
    settle n label inputs
      (record {
        status = NodeStatus.completed;
        outputs = outputs;
        error_code = none;
        error_message = none;
      })
      (some outputs) s
after_execution n label inputs (threw error) s =
    let message = or_else error "Unknown node error" in
    let code = template ("node_execution_failed:" ∷ n.node_kind ∷ []) in
    settle n label inputs (not_completed NodeStatus.failed code message) none (
      if node_required n
      then fail_required (issue code n.node_id message ValidationIssueSeverity.error) s
      else warn_flow (issue code n.node_id message ValidationIssueSeverity.warning) s)

module _ (execute : SnapshotNode → List SnapshotConnection → Runtime → ByPort → Result Record)
    (docs : Documents) where
  pub after_check :
      SnapshotNode
      → List SnapshotConnection
      → Option String
      → Record
      → Propagated
      → RunState
      → RunState
  unfolding after_execution
  after_check n incoming label inputs Propagated.run s =
      after_execution n label inputs
        (execute n incoming s.runtime (collect_incoming_by_port incoming s.runtime)) s
  after_check n incoming label inputs (Propagated.fail code message) s =
      settle n label inputs (not_completed NodeStatus.failed code message) none
        (fail_required (issue code n.node_id message ValidationIssueSeverity.error) s)
  after_check n incoming label inputs (Propagated.skip code message) s =
      settle n label inputs (not_completed NodeStatus.skipped code message) none
        (warn_flow (issue code n.node_id message ValidationIssueSeverity.warning) s)

  -- The body of the loop. A mapper with two values at a port makes the whole run throw, and so does
  -- a label whose English text is no string.
  pub run_node : SnapshotNode → List SnapshotConnection → RunState → Result RunState
  unfolding after_check
  run_node n incoming s =
      and_then (resolve_inputs_for_node_trace n incoming s.runtime docs) (λ inputs.
        and_then (snapshot_node_display_label n) (λ label. ok (
          after_check n incoming label inputs
            (check_upstream n incoming s.runtime (node_required n)) s)))

  pub run_nodes : Incoming → List SnapshotNode → RunState → Result RunState
  unfolding run_node
  run_nodes incoming [] s = ok s
  run_nodes incoming (n ∷ ns) s =
      and_then (run_node n (or_else (get n.node_id incoming) []) s) (λ t. run_nodes incoming ns t)

  unfoldable pub run_flow : List SnapshotNode → List SnapshotConnection → Result RunState
  unfolding run_nodes
  run_flow ns cs =
      run_nodes (index_incoming cs []) (topological_order ns cs)
        (record { runtime = []; flow_warnings = []; required_failures = []; node_tries = [] })
