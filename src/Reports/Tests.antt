-- ===== src/Reports/Tests.antt =====
-- Runs of the bound on payloads and of the update after a run.
use roya_api.Prelude.{
  All, String, ℕ, ◌≤◌, ◌<◌, ◌^◌, arith, true, false, Bool, none, some, Option, List, [], ◌∷◌, ◌≡◌,
  refl, ◌↔◌, ◌⊎◌, string_eq, includes,
}
use roya_api.Prelude.Dict.{get}
use roya_api.Value.{Value, Record, of_record, of_list}
use roya_api.Documents.{Report, ReportStatus}
use roya_api.Reports.Payload.{truncate_deep_strings, truncate_mongo_flow_probe_until_fits, fits}
use roya_api.Reports.Payload.Texts.{longest}
use roya_api.Reports.Payload.Bounds.{longest-truncate_deep_strings}
use roya_api.Reports.Payload.Levels.{
  truncated, fits_at, limits, truncate_mongo_flow_probe_until_fits-fits,
}
use roya_api.Reports.Update.{FlowUpdate, UpdateOptions, flow_probe, write_update, number_of}
use roya_api.Reports.Update.Properties.{properties, Stored, touched, write_update-Stored}
use roya_api.Reports.View.{hydrate_legacy_branch_results}

abbrev page : Value
page = of_record (("html", Value.string "<html></html>") ∷ ("n", Value.null) ∷ [])

truncated_page :
    truncate_deep_strings 4 page
    ≡ of_record (("html", Value.string "<htm\n… [truncated 9 characters]") ∷ ("n", Value.null) ∷ [])
unfolding truncate_deep_strings roya_api.Prelude.Text.template roya_api.Prelude.Text.decimal
truncated_page = refl

longest-truncate_deep_strings_example : longest (truncate_deep_strings 4 page) ≤ 32
unfolding longest
longest-truncate_deep_strings_example = longest-truncate_deep_strings 4 1 page short
  where
    short : longest page < 10 ^ 2
    short = omega arith

abbrev probe : Record
probe = ("status", Value.string "completed") ∷ []

truncate_mongo_flow_probe_until_fits-fits_example :
    ((fits (λ r. some 40) (truncate_mongo_flow_probe_until_fits (λ r. some 40) probe) ≡ true)
      ↔ (fits_at (λ r. some 40) probe (limits (λ r. some 40)) ≡ true))
    × ((fits (λ r. some 40) (truncate_mongo_flow_probe_until_fits (λ r. some 40) probe) ≡ true)
        ⊎ (truncate_mongo_flow_probe_until_fits (λ r. some 40) probe ≡ truncated probe 512))
truncate_mongo_flow_probe_until_fits-fits_example =
    truncate_mongo_flow_probe_until_fits-fits (λ r. some 40) probe

abbrev failed_update : FlowUpdate
failed_update = record {
  flow_snapshot_version = Value.undefined;
  branch_results = Value.undefined;
  flow_warnings = Value.undefined;
  required_failures = Value.undefined;
  context = Value.undefined;
  status = ReportStatus.failed;
  error_message = Value.string "Timed out";
  generated_at = Value.undefined;
}

abbrev failed_options : UpdateOptions
failed_options = record {
  execution_try = some (("trigger", Value.string "initial") ∷ []);
  unset_legacy_stored_output = some false;
}

abbrev generating_report : Report
generating_report = record {
  id = "r1";
  analysis_id = "a1";
  report_type_id = "rt1";
  organization_id = "acme";
  fields = ("status", Value.string "generating") ∷ [];
  execution_tries = none;
}

written_report :
    write_update (λ r. some 40) failed_update failed_options 0 generating_report ≡ record {
      id = "r1";
      analysis_id = "a1";
      report_type_id = "rt1";
      organization_id = "acme";
      fields = ("status", Value.string "failed") ∷ ("errorMessage", Value.string "Timed out") ∷ [];
      execution_tries =
          some ((("trigger", Value.string "initial") ∷ ("tryNumber", number_of 1) ∷ []) ∷ []);
    }
unfolding write_update roya_api.Value.assign truncate_mongo_flow_probe_until_fits fits
    roya_api.Reports.Payload.truncate_fields flow_probe
written_report = refl

abbrev written_fields : Record
written_fields =
    (write_update (λ r. some 40) failed_update failed_options 0 generating_report).fields

write_update-Stored_example :
    (m : ℕ) × (256 ≤ m)
    × (get "status" written_fields ≡ some (Value.string "failed"))
    × All (Stored m generating_report.fields written_fields) (properties failed_update)
    × ((k : String)
        → touched failed_update k ≡ false
        → get k written_fields ≡ get k generating_report.fields)
write_update-Stored_example =
    write_update-Stored (λ r. some 40) failed_update failed_options 0 generating_report

hydrated :
    get "branchResults" (
      hydrate_legacy_branch_results Value.null
        (("data", of_record (("x", Value.string "1") ∷ [])) ∷ []))
    ≡ some (
        of_list (
          of_record (
            ("pathId", Value.string "legacy-stored-data")
            ∷ ("terminalKey", Value.string "__legacy_data__")
            ∷ ("status", Value.string "completed")
            ∷ ("required", Value.boolean false)
            ∷ ("data", of_record (("x", Value.string "1") ∷ []))
            ∷ ("completedAt", Value.null)
            ∷ [])
          ∷ []))
unfolding hydrate_legacy_branch_results
hydrated = refl
