-- ===== src/Reports/View.antt =====
-- common/utils/analysis-reports.mapper.ts and the reads of reports/reports.service.ts: the shapes in
-- which reports are shown. The texts of a localized value are strings. `report_type` is what the
-- database puts in place of a report type's id; `now` is the time of the call.
use roya_api.Prelude.{
  String, Bool, true, false, ◌&&◌, not, Option, none, some, List, [], ◌∷◌, ◌++◌, if◌then◌else◌,
  or_else, find, filter, map, ◌==◌, string_eq,
}
use roya_api.Prelude.Dict.{put}
use roya_api.Prelude.Text.{trim}
use roya_api.Prelude.Reply.{Reply, done, refused, HttpException}
use roya_api.Value.{
  Value, Record, at, as_record, as_string, as_list, of_record, of_list, coalesce, truthy,
}
use roya_api.Execution.Run.{values_text}
use roya_api.Documents.{Report, Analysis, report_matches, analysis_matches}
use roya_api.Documents.Updates.{remove}

-- `typeof v === 'string' && v.trim()`, trimmed
abbrev trimmed_text : Value → Option String
trimmed_text v = elim (as_string v) [
  | none ↦ none
  | some s ↦ if trim s == "" then none else some (trim s)
]

-- `v?.[k]`
abbrev pub property : String → Value → Value
property k v = at k (or_else (as_record v) [])

pub first_localized_string : Value → String
first_localized_string localized =
    or_else (values_text (as_record (property "values" localized))) ""

unfoldable pub resolve_report_type_display_name : Value → Value → Value
unfolding first_localized_string
resolve_report_type_display_name rt slug =
    if not (truthy rt) then slug else elim (trimmed_text (property "name" rt)) [
      | some name ↦ Value.string name
      | none ↦
          let text : String = first_localized_string (property "localizedName" rt) in
          if text == "" then slug else Value.string text
    ]

unfoldable pub resolve_report_type_description_text : Value → String
unfolding first_localized_string
resolve_report_type_description_text rt =
    if not (truthy rt)
    then ""
    else or_else (trimmed_text (property "description" rt))
        (first_localized_string (property "localizedDescription" rt))

-- `{ ...r, reportTypeId, reportType }`
pub map_raw_report : Record → Record
unfolding resolve_report_type_display_name resolve_report_type_description_text
map_raw_report r =
    let rt : Value = at "reportTypeId" r in
    let slug : Value =
      if truthy (property "slug" rt) then property "slug" rt else Value.string "" in
    put "reportType"
      (if truthy rt
        then of_record (
            ("_id", property "_id" rt)
            ∷ ("slug", slug)
            ∷ ("name", resolve_report_type_display_name rt slug)
            ∷ ("description", Value.string (resolve_report_type_description_text rt))
            ∷ [])
        else Value.undefined)
      (put "reportTypeId" (coalesce (property "_id" rt) rt) r)

unfoldable pub map_raw_reports_for_analysis_view : List Record → List Record
unfolding map_raw_report
map_raw_reports_for_analysis_view = map map_raw_report

abbrev pub id_fields : Value → Report → Record
id_fields report_type r =
    ("_id", Value.string r.id)
    ∷ ("analysisId", Value.string r.analysis_id)
    ∷ ("organizationId", Value.string r.organization_id)
    ∷ ("reportTypeId", report_type)
    ∷ []

-- A list of which there is none, or that is empty.
abbrev pub lacks_items : Value → Bool
lacks_items v = elim (as_list v) [ none ↦ true | some [] ↦ true | some (w ∷ ws) ↦ false ]

abbrev pub legacy_branch : Record → Record → Value → Value
legacy_branch plain legacy_data now = of_record (
    ("pathId", Value.string "legacy-stored-data")
    ∷ ("terminalKey", Value.string "__legacy_data__")
    ∷ ("status", Value.string "completed")
    ∷ ("required", Value.boolean false)
    ∷ ("data", of_record legacy_data)
    ∷ ("completedAt", coalesce (at "generatedAt" plain) (coalesce (at "updatedAt" plain) now))
    ∷ [])

abbrev hydrate_from : Value → Record → Option Record → Record
hydrate_from now plain none = plain
hydrate_from now plain (some []) = plain
hydrate_from now plain (some (f ∷ legacy)) =
    if lacks_items (at "branchResults" plain)
    then put "branchResults" (of_list (legacy_branch plain (f ∷ legacy) now ∷ [])) plain
    else plain

unfoldable pub hydrate_legacy_branch_results : Value → Record → Record
hydrate_legacy_branch_results now plain = hydrate_from now plain (as_record (at "data" plain))

abbrev report_not_found : HttpException
report_not_found = HttpException.not_found "Report not found"

module _ (report_type : String → Value) (now : Value) where
  unfoldable pub find_by_id : String → String → List Report → Reply Record
  find_by_id organization_id id reports = elim (find (report_matches organization_id id) reports) [
    | none ↦ refused report_not_found
    | some r ↦ done (
        remove "dataWithTypes" (
          remove "data" (
            hydrate_legacy_branch_results now
              (id_fields (report_type r.report_type_id) r ++ r.fields))))
  ]

  unfoldable pub get_flow_results : String → String → List Report → Reply Record
  get_flow_results organization_id id reports =
      elim (find (report_matches organization_id id) reports) [
        | none ↦ refused report_not_found
        | some r ↦
            let plain : Record = hydrate_legacy_branch_results now r.fields in
            done (
              ("reportId", Value.string id)
              ∷ ("flowSnapshotVersion", at "flowSnapshotVersion" plain)
              ∷ ("branchResults", coalesce (at "branchResults" plain) (of_list []))
              ∷ ("flowWarnings", coalesce (at "flowWarnings" plain) (of_list []))
              ∷ ("requiredFailures", coalesce (at "requiredFailures" plain) (of_list []))
              ∷ [])
      ]

  unfoldable pub get_execution_tries : String → String → List Report → Reply Record
  get_execution_tries organization_id report_id reports =
      elim (find (report_matches organization_id report_id) reports) [
        | none ↦ refused report_not_found
        | some r ↦ done (
            ("reportId", Value.string report_id)
            ∷ ("analysisId", Value.string r.analysis_id)
            ∷ ("status", at "status" r.fields)
            ∷ ("reportType", report_type r.report_type_id)
            ∷ ("tries", of_list (map of_record (or_else r.execution_tries [])))
            ∷ [])
      ]

  -- The selected fields of a report.
  abbrev overview_fields : Report → Record
  overview_fields r =
      ("_id", Value.string r.id)
      ∷ ("status", at "status" r.fields)
      ∷ ("errorMessage", at "errorMessage" r.fields)
      ∷ ("reportTypeId", report_type r.report_type_id)
      ∷ ("branchResults", at "branchResults" r.fields)
      ∷ []

  unfoldable pub find_analysis_overview :
      String → String → List Analysis → List Report → Reply (Analysis × List Record)
  unfolding map_raw_reports_for_analysis_view
  find_analysis_overview organization_id analysis_id analyses reports =
      elim (find (analysis_matches organization_id analysis_id) analyses) [
        | none ↦ refused (HttpException.not_found "Analysis not found")
        | some a ↦
            let rows : List Report =
              filter (λ r. r.analysis_id == analysis_id && (r.organization_id == organization_id))
                reports in
            done (a, map_raw_reports_for_analysis_view (map overview_fields rows))
      ]
