-- ===== src/Analyses/Processor.antt =====
-- analyses/analysis.processor.ts: a job of the queue. The database answers every call, so the
-- outer `catch` is not reached; `find_report_type` reads the report types, `find_version` their
-- versions, `execute` is the registry of executors for an organization and its inputs, and `times`
-- are the clock's readings during the run of a report.
pub mod Settled
pub mod Done
use roya_api.Prelude.{
  String, ℕ, ◌-◌, Bool, true, false, not, ◌&&◌, ◌||◌, Option, none, some, List, [], ◌∷◌,
  if◌then◌else◌, or_else, or_option, find, filter, all, length, ltb, ◌==◌, string_eq,
}
use roya_api.Prelude.Text.{trim}
use roya_api.Prelude.Result.{Result, ok, threw}
use roya_api.Value.{Value, Record, of_record, of_list, is_undefined}
use roya_api.Execution.{SnapshotNode, SnapshotConnection, Runtime}
use roya_api.Execution.PortMerge.{ByPort}
use roya_api.Execution.Run.{ValidationIssuePayload}
use roya_api.Execution.Run.Report.{DynamicFlowExecutionResult}
use roya_api.Execution.Run.Published.{ReportType, ReportTypeVersion, run_published_flow}
use roya_api.Documents.{
  Report, ReportStatus, report_status_value, Analysis, AnalysisStatus, Job, Store, has_status,
  analysis_matches,
}
use roya_api.Documents.Updates.{update_one, set_fields}
use roya_api.Reports.Update.{
  FlowUpdate, UpdateOptions, number_of, apply_dynamic_flow_execution_update,
}
use roya_api.Analyses.Payloads.{issue_payload, branch_payload, node_try_payload, payloads}

abbrev pub head : List ValidationIssuePayload → Option ValidationIssuePayload
head [] = none
head (f ∷ fs) = some f

unfoldable pub error_message_from_required_failures : List ValidationIssuePayload → String
error_message_from_required_failures failures =
    elim (or_option (find (λ f. not (f.code == "upstream_required_failure")) failures)
      (head failures)) [
        | none ↦ "Required flow step failed"
        | some direct ↦
            if trim direct.message == "" then "Required flow step failed" else trim direct.message
      ]

pub record RunTimes : Type 0 where
  pub started_at : ℕ
  pub finished_at : ℕ
  pub generated_at : ℕ

abbrev pub trigger_of : Report → String
trigger_of report = if has_status ReportStatus.failed report then "regenerate" else "initial"

-- A property that only some tries have.
abbrev cons_defined : String → Value → Record → Record
cons_defined k v r = if is_undefined v then r else (k, v) ∷ r

-- An `executionTry`.
pub run_try : String → String → RunTimes → Value → Value → Value → Record
run_try trigger status times version error_message nodes =
    ("trigger", Value.string trigger)
    ∷ ("status", Value.string status)
    ∷ cons_defined "flowSnapshotVersion" version (
        ("startedAt", number_of times.started_at)
        ∷ ("finishedAt", number_of times.finished_at)
        ∷ ("durationMs", number_of (times.finished_at - times.started_at))
        ∷ cons_defined "errorMessage" error_message (("nodes", nodes) ∷ []))

-- The two arguments of `applyDynamicFlowExecutionUpdate`.
pub record Written : Type 0 where
  pub update : FlowUpdate
  pub options : UpdateOptions

pub failed_run : Record → String → RunTimes → DynamicFlowExecutionResult → Written
unfolding run_try
failed_run inputs trigger times result =
    let error_message : Value =
      Value.string (error_message_from_required_failures result.required_failures) in
    record {
      update = record {
        flow_snapshot_version = number_of result.flow_snapshot_version;
        branch_results = payloads branch_payload result.branch_results;
        flow_warnings = payloads issue_payload result.flow_warnings;
        required_failures = payloads issue_payload result.required_failures;
        context = of_record inputs;
        status = ReportStatus.failed;
        error_message = error_message;
        generated_at = Value.undefined;
      };
      options = record {
        execution_try = some (
            run_try trigger "failed" times (number_of result.flow_snapshot_version) error_message
              (payloads node_try_payload result.node_tries));
        unset_legacy_stored_output = none;
      };
    }

pub completed_run : Record → String → RunTimes → DynamicFlowExecutionResult → Written
unfolding run_try
completed_run inputs trigger times result = record {
  update = record {
    flow_snapshot_version = number_of result.flow_snapshot_version;
    branch_results = payloads branch_payload result.branch_results;
    flow_warnings = payloads issue_payload result.flow_warnings;
    required_failures = payloads issue_payload result.required_failures;
    context = of_record inputs;
    status = ReportStatus.completed;
    error_message = Value.undefined;
    generated_at = number_of times.generated_at;
  };
  options = record {
    execution_try = some (
        run_try trigger "completed" times (number_of result.flow_snapshot_version) Value.undefined
          (payloads node_try_payload result.node_tries));
    unset_legacy_stored_output = none;
  };
}

-- The `catch`.
pub thrown_run : String → RunTimes → Option String → Written
unfolding run_try
thrown_run trigger times error =
    let message : Value = Value.string (or_else error "Unknown error") in
    record {
      update = record {
        flow_snapshot_version = Value.undefined;
        branch_results = Value.undefined;
        flow_warnings = Value.undefined;
        required_failures = Value.undefined;
        context = Value.undefined;
        status = ReportStatus.failed;
        error_message = message;
        generated_at = Value.undefined;
      };
      options = record {
        execution_try = some (run_try trigger "failed" times Value.undefined message (of_list []));
        unset_legacy_stored_output = some false;
      };
    }

unfoldable pub written_run :
    Record → String → RunTimes → Result DynamicFlowExecutionResult → Written
unfolding failed_run completed_run thrown_run
written_run inputs trigger times (threw e) = thrown_run trigger times e
written_run inputs trigger times (ok result) =
    if ltb 0 (length result.required_failures)
    then failed_run inputs trigger times result
    else completed_run inputs trigger times result

abbrev pub status_set : ReportStatus → Record
status_set s = ("status", Value.string (report_status_value s)) ∷ []

-- COMPLETED or FAILED.
abbrev pub finished_report : Report → Bool
finished_report r = has_status ReportStatus.completed r || has_status ReportStatus.failed r

module _ (size : Record → Option ℕ) (find_report_type : String → Option ReportType)
    (find_version : String → Option ReportTypeVersion)
    (execute : String
      → Record
      → SnapshotNode
      → List SnapshotConnection
      → Runtime
      → ByPort
      → Result Record)
    (lower_case : String → String) (times : Report → RunTimes) where
  -- `runPublishedFlow` on the report's type.
  abbrev run_found : String → Record → Option ReportType → Result DynamicFlowExecutionResult
  run_found organization_id inputs none = threw (some "Report type not found")
  run_found organization_id inputs (some report_type) =
      run_published_flow find_version (execute organization_id inputs) lower_case report_type

  pub process_report : String → Record → Report → List Report → List Report
  unfolding written_run
  process_report organization_id inputs report reports =
      let generating : List Report =
        update_one (λ r. r.id == report.id) (set_fields (status_set ReportStatus.generating))
          reports in
      let written : Written =
        written_run inputs (trigger_of report) (times report)
          (run_found organization_id inputs (find_report_type report.report_type_id)) in
      apply_dynamic_flow_execution_update size organization_id report.id written.update
        written.options generating

  -- `for (const report of reports) await this.processReport(report, …)`
  pub process_reports : String → Record → List Report → List Report → List Report
  process_reports organization_id inputs [] reports = reports
  process_reports organization_id inputs (report ∷ rest) reports =
      process_reports organization_id inputs rest
        (process_report organization_id inputs report reports)

  -- `inputs`
  abbrev pub analysis_parameters : Option Analysis → Record
  analysis_parameters none = []
  analysis_parameters (some a) = a.parameters

  -- The job at time `now`.
  unfoldable pub process_analysis : ℕ → Job → Store → Store
  unfolding process_reports
  process_analysis now job store =
      let inputs : Record =
        analysis_parameters
          (find (analysis_matches job.organization_id job.analysis_id) store.analyses) in
      let queued : List Report =
        filter (λ r. r.analysis_id == job.analysis_id && has_status ReportStatus.queued r)
          store.reports in
      let reports : List Report = process_reports job.organization_id inputs queued store.reports in
      let all_reports : List Report = filter (λ r. r.analysis_id == job.analysis_id) reports in
      record store {
        reports = reports;
        analyses =
            if all finished_report all_reports
            then update_one (λ a. a.id == job.analysis_id)
                (λ a. record a { status = AnalysisStatus.completed; completed_at = some now })
                store.analyses
            else store.analyses;
      }
