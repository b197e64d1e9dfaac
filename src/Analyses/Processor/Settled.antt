-- ===== src/Analyses/Processor/Settled.antt =====
-- What `processReport` leaves on the report that it runs, and on the others.
use roya_api.Prelude.{
  String, ℕ, ◌+◌, Option, some, List, [], ◌∷◌, ◌++◌, if◌then◌else◌, or_else, find, length, ltb,
  ◌==◌, string_eq, ◌≡◌, refl, ap, ◌∙◌, arith, Bool-cases, inl, inr, ◌≢◌, ==_iff,
}
use roya_api.Prelude.Dict.{get, get-put_self}
use roya_api.Prelude.Result.{Result, ok, threw}
use roya_api.Value.{Value, Record, at}
use roya_api.Execution.{SnapshotNode, SnapshotConnection, Runtime}
use roya_api.Execution.PortMerge.{ByPort}
use roya_api.Execution.Run.Report.{DynamicFlowExecutionResult}
use roya_api.Execution.Run.Published.{ReportType, ReportTypeVersion}
use roya_api.Documents.{Report, ReportStatus, report_status_value}
use roya_api.Documents.Updates.{update_one, set_fields}
use roya_api.Documents.Identity.{find-update_one, find-update_one_other}
use roya_api.Reports.Update.{number_of, numbered, write_update}
use roya_api.Reports.Update.Written.{get-write_update-status}
use roya_api.Reports.Update.Pointwise.{
  Owned, tries_of, Kept, write_update-Kept, tries_of-write_update, apply-update_one,
}
use roya_api.Analyses.Processor.{
  RunTimes, Written, trigger_of, written_run, status_set, run_found, process_report,
}

-- The status that the outcome of a run gives.
abbrev pub outcome_status : Result DynamicFlowExecutionResult → ReportStatus
outcome_status (threw e) = ReportStatus.failed
outcome_status (ok result) =
    if ltb 0 (length result.required_failures) then ReportStatus.failed else ReportStatus.completed

status-written_run :
    (inputs : Record) (trigger : String) (times : RunTimes)
    (outcome : Result DynamicFlowExecutionResult)
    → (written_run inputs trigger times outcome).update.status ≡ outcome_status outcome
unfolding written_run
status-written_run inputs trigger times (threw e) = refl
status-written_run inputs trigger times (ok result) =
    elim (Bool-cases (ltb 0 (length result.required_failures))) [
      | inl failed ↦ rw failed refl
      | inr clean ↦ rw clean refl
    ]

-- Every outcome leaves a try.
execution_try-written_run :
    (inputs : Record) (trigger : String) (times : RunTimes)
    (outcome : Result DynamicFlowExecutionResult)
    → (t : Record) × ((written_run inputs trigger times outcome).options.execution_try ≡ some t)
unfolding written_run
execution_try-written_run inputs trigger times (threw e) = (_, refl)
execution_try-written_run inputs trigger times (ok result) =
    elim (Bool-cases (ltb 0 (length result.required_failures))) [
      | inl failed ↦ rw failed (_, refl)
      | inr clean ↦ rw clean (_, refl)
    ]

module _ (size : Record → Option ℕ) (find_report_type : String → Option ReportType)
    (find_version : String → Option ReportTypeVersion)
    (execute : String
      → Record
      → SnapshotNode
      → List SnapshotConnection
      → Runtime
      → ByPort
      → Result Record)
    (lower_case : String → String) (times : Report → RunTimes) (organization_id : String)
    (inputs : Record) where
  -- What `runPublishedFlow` returns or throws for a report.
  abbrev pub outcome : Report → Result DynamicFlowExecutionResult
  outcome report =
      run_found size find_report_type find_version execute lower_case times organization_id inputs
        (find_report_type report.report_type_id)

  abbrev written : Report → Written
  written report = written_run inputs (trigger_of report) (times report) (outcome report)

  -- The report `r` after the run of `report`.
  pub run_report : Report → Report → Report
  run_report report r =
      write_update size (written report).update (written report).options (length (tries_of r))
        (set_fields (status_set ReportStatus.generating) r)

  pub process_report-update_one :
      (report : Report) (reports : List Report)
      → Owned report.id organization_id reports
      → process_report size find_report_type find_version execute lower_case times organization_id
          inputs report reports
        ≡ update_one (λ r. r.id == report.id) (run_report report) reports
  unfolding process_report run_report
  process_report-update_one report reports owned =
      apply-update_one size (written report).update (written report).options report.id
        organization_id (status_set ReportStatus.generating) reports owned

  pub run_report-Kept : (report r : Report) → Kept r (run_report report r)
  unfolding run_report
  run_report-Kept report r = record {
    same_id = kept.same_id;
    same_analysis = kept.same_analysis;
    same_report_type = kept.same_report_type;
    same_organization = kept.same_organization;
  }
    where
      kept : Kept (set_fields (status_set ReportStatus.generating) r) (run_report report r)
      kept =
          write_update-Kept size (written report).update (written report).options
            (length (tries_of r)) (set_fields (status_set ReportStatus.generating) r)

  pub get-run_report-status :
      (report r : Report)
      → get "status" (run_report report r).fields
        ≡ some (Value.string (report_status_value (outcome_status (outcome report))))
  unfolding run_report
  get-run_report-status report r =
      get-write_update-status size (written report).update (written report).options _ _
      ∙ ap (λ s. some (Value.string (report_status_value s)))
          (status-written_run inputs (trigger_of report) (times report) (outcome report))

  pub tries_of-run_report :
      (report r : Report)
      → (entry : Record) × (tries_of (run_report report r)
          ≡ tries_of r ++ numbered (length (tries_of r) + 1) entry ∷ [])
  unfolding run_report
  tries_of-run_report report r =
      let (t, e) =
        execution_try-written_run inputs (trigger_of report) (times report) (outcome report) in
      tries_of-write_update size (written report).update (written report).options t
        (length (tries_of r)) (set_fields (status_set ReportStatus.generating) r) e

  -- The run of a report whose organization is the job's: if it returns without required failures the
  -- report is COMPLETED, otherwise FAILED; one try stands behind those that were there, numbered by
  -- their count; the reports with other ids are found as before.
  pub process_report-settled :
      (report r : Report) (reports : List Report)
      → Owned report.id organization_id reports
      → find (λ x. x.id == report.id) reports ≡ some r
      → ((after : Report) × (find
              (λ x. x.id == report.id)
              (process_report size find_report_type find_version execute lower_case times
                organization_id inputs report reports)
            ≡ some after)
          × (at "status" after.fields
              ≡ Value.string (report_status_value (outcome_status (outcome report))))
          × (entry : Record) × (tries_of after ≡ tries_of r ++ entry ∷ [])
          × (at "tryNumber" entry ≡ number_of (length (tries_of r) + 1)))
        × ((j : String)
            → report.id ≢ j
            → find
                (λ x. x.id == j)
                (process_report size find_report_type find_version execute lower_case times
                  organization_id inputs report reports)
              ≡ find (λ x. x.id == j) reports)
  process_report-settled report r reports owned found =
      let (entry, pushed) = tries_of-run_report report r in
      rw (process_report-update_one report reports owned) (
        (
          run_report report r,
          find-update_one (λ x. x.id) report.id (run_report report) reports r
              (λ x. (run_report-Kept report x).same_id) found,
          ap (λ o. or_else o Value.undefined) (get-run_report-status report r),
          numbered (length (tries_of r) + 1) entry,
          pushed,
          ap (λ o. or_else o Value.undefined)
              (get-put_self "tryNumber" (number_of (length (tries_of r) + 1)) entry),
        ),
        λ j other.
            find-update_one_other (λ x. x.id) report.id (run_report report) j reports
              (ground (arith, other, ==_iff report.id j)) (λ x. (run_report-Kept report x).same_id),
      )
