-- ===== src/Execution/Run/Report.antt =====
-- analyses/dynamic-flow-execution.service.ts: the branch results of a finished loop and the data
-- of the report.
pub mod Branches
use roya_api.Prelude.{
  String, ℕ, zero, suc, Bool, true, false, not, ◌&&◌, ◌||◌, Option, none, some, List, [], ◌∷◌, ◌++◌,
  if◌then◌else◌, ◌==◌, string_eq, option_eq, or_else, length, filter, nat_beq, ltb,
}
use roya_api.Prelude.Dict.{get, put}
use roya_api.Prelude.Text.{template}
use roya_api.Enums.{NodeCategory, category_eq, BranchResultStatus, ValidationIssueSeverity}
use roya_api.Category.{resolve_category}
use roya_api.Value.{Value, Record, at, of_record, coalesce, truthy}
use roya_api.Execution.{
  SnapshotNode, SnapshotTerminalConfig, NodeStatus, NodeRuntime, Runtime, is_completed,
}
use roya_api.Execution.OutputSchema.{
  Schema, normalize_terminal_payload_to_record, merge_output_schema_from_snapshot_nodes,
}
use roya_api.Execution.OutputSchema.Pick.{pick_terminal_payload_for_report}
use roya_api.Execution.OutputSchema.Cells.{wrap_output_data_with_schema}
use roya_api.Execution.Run.{ValidationIssuePayload, issue, NodeTry, RunState}

pub record BranchResult : Type 0 where
  pub path_id : String
  pub terminal_key : String
  pub status : BranchResultStatus
  pub required : Bool
  pub data_fields : Option Record
  pub error : Option ValidationIssuePayload

abbrev pub branch_completed : BranchResultStatus → Bool
branch_completed BranchResultStatus.completed = true
branch_completed BranchResultStatus.warning = false
branch_completed BranchResultStatus.failed = false
branch_completed BranchResultStatus.pending = false
branch_completed BranchResultStatus.running = false

abbrev pub entry_skipped : Option NodeRuntime → Bool
entry_skipped none = false
entry_skipped (some rt) = skipped_status rt.status
  where
    skipped_status : NodeStatus → Bool
    skipped_status NodeStatus.completed = false
    skipped_status NodeStatus.failed = false
    skipped_status NodeStatus.skipped = true

abbrev pub in_category : NodeCategory → SnapshotNode → Bool
in_category category n = resolve_category n.category (some n.node_kind) == some category

abbrev terminal_required : Option SnapshotTerminalConfig → Option Bool
terminal_required none = none
terminal_required (some config) = config.required

abbrev configured_key : Option SnapshotTerminalConfig → Option String
configured_key none = none
configured_key (some config) = config.terminal_key

abbrev pub branch_required : SnapshotNode → Bool
branch_required n = or_else (terminal_required n.terminal_config) (or_else n.required true)

abbrev pub branch_key : SnapshotNode → String
branch_key n = or_else (configured_key n.terminal_config) n.node_id

abbrev pub entry_code : Option NodeRuntime → Option String
entry_code none = none
entry_code (some rt) = rt.error_code

abbrev pub entry_message : Option NodeRuntime → Option String
entry_message none = none
entry_message (some rt) = rt.error_message

-- What the loop over the terminals builds: `branchResults` and `terminalData`.
pub record Terminals : Type 0 where
  pub branch_results : List BranchResult
  pub terminal_data : Record

abbrev unfinished : SnapshotNode → Option NodeRuntime → BranchResult
unfinished n rt =
    let failed : Bool = not (entry_skipped rt || not (branch_required n)) in
    record {
      path_id = template ("path-" ∷ n.node_id ∷ []);
      terminal_key = branch_key n;
      status = if failed then BranchResultStatus.failed else BranchResultStatus.warning;
      required = branch_required n;
      data_fields = none;
      error = some (
          issue (or_else (entry_code rt) "terminal_unreached") n.node_id
            (or_else (entry_message rt) "Terminal branch did not complete.")
            (if failed then ValidationIssueSeverity.error else ValidationIssueSeverity.warning));
    }

module _ (lower_case : String → String) (schema : Schema) where
  -- A payload as the report's fields, typed.
  abbrev pub report_record : Value → Record
  report_record raw =
      wrap_output_data_with_schema
        (pick_terminal_payload_for_report lower_case (normalize_terminal_payload_to_record raw)
          schema)
        schema

  abbrev finished : SnapshotNode → Record → BranchResult
  finished n fields = record {
    path_id = template ("path-" ∷ n.node_id ∷ []);
    terminal_key = branch_key n;
    status = BranchResultStatus.completed;
    required = branch_required n;
    data_fields = some fields;
    error = none;
  }

  abbrev push_unfinished : SnapshotNode → Option NodeRuntime → Terminals → Terminals
  push_unfinished n rt acc = record {
    branch_results = acc.branch_results ++ unfinished n rt ∷ [];
    terminal_data = acc.terminal_data;
  }

  pub push_terminal : SnapshotNode → Option NodeRuntime → Terminals → Terminals
  push_terminal n none acc = push_unfinished n none acc
  push_terminal n (some rt) acc =
      let fields : Record =
        report_record (coalesce (at "data" rt.outputs) (of_record rt.outputs)) in
      if is_completed rt.status
      then record {
        branch_results = acc.branch_results ++ finished n fields ∷ [];
        terminal_data = put (branch_key n) (of_record fields) acc.terminal_data;
      }
      else push_unfinished n (some rt) acc

  pub push_terminals : List SnapshotNode → Runtime → Terminals → Terminals
  unfolding push_terminal
  push_terminals [] runtime acc = acc
  push_terminals (n ∷ ns) runtime acc = push_terminals ns runtime (
      if in_category NodeCategory.terminal n
      then push_terminal n (get n.node_id runtime) acc
      else acc)

  -- `rt?.status === 'completed' && rt.outputs['result']`
  abbrev pub ai_result : Option NodeRuntime → Option Value
  ai_result none = none
  ai_result (some rt) =
      if is_completed rt.status && truthy (at "result" rt.outputs)
      then some (at "result" rt.outputs)
      else none

  abbrev ai_branch : SnapshotNode → Record → BranchResult
  ai_branch n fields = record {
    path_id = template ("path-ai-fallback-" ∷ n.node_id ∷ []);
    terminal_key = "__ai_output__";
    status = BranchResultStatus.completed;
    required = false;
    data_fields = some fields;
    error = none;
  }

  abbrev pub use_ai_result : SnapshotNode → Option Value → Option BranchResult → Option BranchResult
  use_ai_result n none rest = rest
  use_ai_result n (some raw) rest = some (ai_branch n (report_record raw))

  -- The first AI node that left a result: the report of a flow of which no terminal completed.
  pub ai_fallback : List SnapshotNode → Runtime → Option BranchResult
  ai_fallback [] runtime = none
  ai_fallback (n ∷ ns) runtime =
      let rest = ai_fallback ns runtime in
      if in_category NodeCategory.ai n
      then use_ai_result n (ai_result (get n.node_id runtime)) rest
      else rest

-- `finalData` and `branchResults`.
pub record Final : Type 0 where
  pub final_data : Option Record
  pub branches : List BranchResult

pub completed_branches : List BranchResult → List BranchResult
completed_branches bs = filter (λ b. branch_completed b.status) bs

abbrev add_fallback : List BranchResult → Option BranchResult → Final
add_fallback bs none = record { final_data = none; branches = bs }
add_fallback bs (some b) = record { final_data = b.data_fields; branches = bs ++ b ∷ [] }

pub choose_final : List BranchResult → Terminals → Option BranchResult → Final
choose_final [] acc fallback = add_fallback acc.branch_results fallback
choose_final (only ∷ []) acc fallback = record {
  final_data = only.data_fields;
  branches = acc.branch_results;
}
choose_final (b ∷ c ∷ bs) acc fallback = record {
  final_data = some acc.terminal_data;
  branches = acc.branch_results;
}

pub record DynamicFlowExecutionResult : Type 0 where
  pub data_fields : Option Record
  pub branch_results : List BranchResult
  pub flow_warnings : List ValidationIssuePayload
  pub required_failures : List ValidationIssuePayload
  pub flow_snapshot_version : ℕ
  pub node_tries : List NodeTry

unfoldable pub finish_run :
    (String → String) → List SnapshotNode → ℕ → RunState → DynamicFlowExecutionResult
unfolding push_terminals ai_fallback completed_branches choose_final
finish_run lower_case ns version s =
    let schema : Schema = merge_output_schema_from_snapshot_nodes ns in
    let acc : Terminals =
      push_terminals lower_case schema ns s.runtime
        (record { branch_results = []; terminal_data = [] }) in
    let final : Final =
      choose_final (completed_branches acc.branch_results) acc
        (ai_fallback lower_case schema ns s.runtime) in
    record {
      data_fields = if ltb 0 (length s.required_failures) then none else final.final_data;
      branch_results = final.branches;
      flow_warnings = s.flow_warnings;
      required_failures = s.required_failures;
      flow_snapshot_version = version;
      node_tries = s.node_tries;
    }
