-- ===== src/Reports/Actions.antt =====
-- reports/reports.service.ts: the calls that change a report outside a run. A property of a
-- nested object that is `undefined` is one that reads as such.
use roya_api.Prelude.{
  String, Bool, false, ◌&&◌, none, some, List, [], ◌∷◌, ◌++◌, if◌then◌else◌, find, filter, map,
  length, ltb, ◌==◌, string_eq, option_eq,
}
use roya_api.Prelude.Reply.{Reply, done, refused, HttpException}
use roya_api.Value.{Value, Record, of_record, of_list}
use roya_api.Documents.{
  Report, ReportStatus, report_status_value, Store, has_status, report_matches,
}
use roya_api.Documents.Updates.{update_one, set_fields, unset_fields}
use roya_api.Reports.Update.{number_of, legacy_fields}

-- `status: QUEUED, errorMessage: null`
abbrev pub requeued : Record
requeued =
    ("status", Value.string (report_status_value ReportStatus.queued))
    ∷ ("errorMessage", Value.null)
    ∷ []

unfoldable pub regenerate : String → String → Store → Reply String × Store
regenerate organization_id id store =
    elim (find (λ r. report_matches organization_id id r && has_status ReportStatus.failed r)
      store.reports) [
        | none ↦
            (refused (HttpException.not_found "Report not found or not in failed state"), store)
        | some report ↦ (
          done "Report regeneration queued",
          record store {
            reports = update_one (λ r. r.id == id) (set_fields requeued) store.reports;
            queue =
                store.queue
                ++ record { analysis_id = report.analysis_id; organization_id = organization_id }
                  ∷ [];
          },
        )
      ]

pub record FailedPart : Type 0 where
  pub key : String
  pub provider : Value
  pub message : String
  pub retryable : Bool

abbrev failed_part : Value → FailedPart → Value
failed_part failed_at part = of_record (
    ("key", Value.string part.key)
    ∷ ("provider", part.provider)
    ∷ ("message", Value.string part.message)
    ∷ ("retryable", Value.boolean part.retryable)
    ∷ ("failedAt", failed_at)
    ∷ [])

-- `partsWithTimestamps[0]?.…`
abbrev of_first : (FailedPart → Value) → List FailedPart → Value
of_first f [] = Value.undefined
of_first f (part ∷ parts) = f part

-- `errorMessage: partsWithTimestamps[0]?.message`; Mongoose takes a property of `$set` that is
-- `undefined` out of the update.
abbrev first_message : List FailedPart → Record
first_message [] = []
first_message (part ∷ parts) = ("errorMessage", Value.string part.message) ∷ []

unfoldable pub partial_output : Value → Record → List FailedPart → Record
partial_output now output parts =
    (
      "status",
      Value.string (
          report_status_value
            (if ltb 0 (length parts) then ReportStatus.failed else ReportStatus.completed)),
    )
    ∷ (
      "branchResults",
      of_list (
          of_record (
            ("pathId", Value.string "path-partial-output")
            ∷ ("terminalKey", Value.string "__partial_output__")
            ∷ ("status", Value.string "completed")
            ∷ ("required", Value.boolean false)
            ∷ ("data", of_record output)
            ∷ ("completedAt", now)
            ∷ [])
          ∷ []),
    )
    ∷ ("failedParts", of_list (map (failed_part now) parts))
    ∷ (
      "retryMetadata",
      of_record (
          ("retryablePartCount", number_of (length (filter (λ part. part.retryable) parts)))
          ∷ ("lastFailureAt", of_first (λ part. now) parts)
          ∷ []),
    )
    ∷ first_message parts

unfoldable pub preserve_partial_output :
    Value → String → Record → List FailedPart → List Report → Reply Report × List Report
unfolding partial_output
preserve_partial_output now id output parts reports =
    let written : List Report =
      update_one (λ r. r.id == id)
        (λ r. unset_fields legacy_fields (set_fields (partial_output now output parts) r))
        reports in
    elim (find (λ r. r.id == id) written) [
      | none ↦ (refused (HttpException.not_found "Report not found"), written)
      | some r ↦ (done r, written)
    ]
