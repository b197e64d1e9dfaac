-- ===== src/Reports/Update.antt =====
-- reports/reports.service.ts: what a run writes on its report. `size` is the BSON library's
-- `calculateObjectSize`. Warnings of the log are left out, so an update that matches no report
-- leaves the reports as they are. A property that the source tests against `undefined` is a value.
pub mod Written
pub mod Properties
pub mod Pointwise
use roya_api.Prelude.{
  String, ℕ, ◌+◌, Bool, true, false, Option, none, some, List, [], ◌∷◌, if◌then◌else◌, or_else,
  find, ◌==◌, string_eq,
}
use roya_api.Prelude.Dict.{put}
use roya_api.Prelude.Text.{decimal}
use roya_api.Value.{Value, Record, at, as_record, is_undefined, of_record}
use roya_api.Documents.{Report, ReportStatus, report_status_value, report_matches}
use roya_api.Documents.Updates.{
  update_one, set_fields, remove, unset_fields, push_try, tries_length,
}
use roya_api.Reports.Payload.{truncate_mongo_flow_probe_until_fits}

-- The `update` of `applyDynamicFlowExecutionUpdate`.
pub record FlowUpdate : Type 0 where
  pub flow_snapshot_version : Value
  pub branch_results : Value
  pub flow_warnings : Value
  pub required_failures : Value
  pub context : Value
  pub status : ReportStatus
  pub error_message : Value
  pub generated_at : Value

-- Its `options`; a try is a record without `tryNumber`.
pub record UpdateOptions : Type 0 where
  pub execution_try : Option Record
  pub unset_legacy_stored_output : Option Bool

-- `if (v !== undefined) probe[k] = v`
abbrev pub put_defined : String → Value → Record → Record
put_defined k v r = if is_undefined v then r else put k v r

-- One such test after the other.
abbrev pub put_all_defined : Record → Record → Record
put_all_defined [] r = r
put_all_defined ((k, v) ∷ more) r = put_all_defined more (put_defined k v r)

abbrev pub put_try : Option Record → Record → Record
put_try none r = r
put_try (some t) r = put "__executionTry" (of_record t) r

abbrev pub optional_fields : FlowUpdate → Record
optional_fields u =
    ("context", u.context)
    ∷ ("errorMessage", u.error_message)
    ∷ ("generatedAt", u.generated_at)
    ∷ ("flowSnapshotVersion", u.flow_snapshot_version)
    ∷ ("branchResults", u.branch_results)
    ∷ ("flowWarnings", u.flow_warnings)
    ∷ ("requiredFailures", u.required_failures)
    ∷ []

abbrev pub status_field : FlowUpdate → Record
status_field u = ("status", Value.string (report_status_value u.status)) ∷ []

unfoldable pub flow_probe : FlowUpdate → Option Record → Record
flow_probe u execution_try =
    put_try execution_try (put_all_defined (optional_fields u) (status_field u))

abbrev pub number_of : ℕ → Value
number_of n = Value.number true (decimal n)

-- `{ ...entry, tryNumber }`
abbrev pub numbered : ℕ → Record → Record
numbered n entry = put "tryNumber" (number_of n) entry

abbrev pub legacy_fields : List String
legacy_fields = "data" ∷ "dataWithTypes" ∷ []

abbrev pub clear_legacy : Option Bool → Report → Report
clear_legacy option r = if or_else option true then unset_fields legacy_fields r else r

-- `$set` and `$unset`
abbrev pub overwritten : Record → Option Bool → Report → Report
overwritten fitted option r = clear_legacy option (set_fields (remove "__executionTry" fitted) r)

-- `sanitizedTry ?? options.executionTry`, numbered and pushed, if the call gives a try.
abbrev pub push_given : Option Record → ℕ → Record → Report → Report
push_given none n fitted r = r
push_given (some t) n fitted r =
    push_try (numbered (n + 1) (or_else (as_record (at "__executionTry" fitted)) t)) r

module _ (size : Record → Option ℕ) where
  -- What is written on the report that matches, of which `n` tries are on record.
  unfoldable pub write_update : FlowUpdate → UpdateOptions → ℕ → Report → Report
  write_update u options n r =
      let fitted : Record =
        truncate_mongo_flow_probe_until_fits size (flow_probe u options.execution_try) in
      push_given options.execution_try n fitted (
        clear_legacy options.unset_legacy_stored_output
          (set_fields (remove "__executionTry" fitted) r))

  unfoldable pub apply_dynamic_flow_execution_update :
      String → String → FlowUpdate → UpdateOptions → List Report → List Report
  unfolding write_update
  apply_dynamic_flow_execution_update organization_id report_id u options reports =
      let existing : Option Report = find (report_matches organization_id report_id) reports in
      update_one (report_matches organization_id report_id)
        (write_update u options (tries_length existing)) reports

  unfoldable pub append_execution_try : String → Record → List Report → List Report
  append_execution_try report_id entry reports =
      let existing : Option Report = find (λ r. r.id == report_id) reports in
      let sanitized : Record =
        truncate_mongo_flow_probe_until_fits size
          (("__executionTry", of_record (numbered (tries_length existing + 1) entry)) ∷ []) in
      let full : Record = or_else (as_record (at "__executionTry" sanitized)) [] in
      update_one (λ r. r.id == report_id) (push_try full) reports
