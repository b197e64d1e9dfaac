-- ===== src/Analyses/Service.antt =====
-- analyses/analyses.service.ts: the calls that start, restart and end analyses. The ids that the
-- database gives to new documents are parameters of the call, and so is the time.
pub mod Tokens
use roya_api.Prelude.{
  String, ℕ, ◌+◌, ◌*◌, Bool, true, false, not, ◌&&◌, Option, none, some, List, [], ◌∷◌, ◌++◌, map,
  if◌then◌else◌, or_else, find, filter, includes, length, nat_beq, ◌==◌, string_eq,
}
use roya_api.Prelude.Dict.{put}
use roya_api.Prelude.Reply.{Reply, done, refused, HttpException}
use roya_api.Value.{Value, Record, of_record, of_list}
use roya_api.Documents.{
  Report, ReportStatus, report_status_value, Analysis, AnalysisStatus, Job, Store,
  ReportTypeDocument, is_published, analysis_matches, analysis_status_eq,
}
use roya_api.Documents.Updates.{update_one, update_many, set_fields, unset_fields}
use roya_api.Reports.Update.{number_of}
use roya_api.Reports.View.{id_fields, map_raw_reports_for_analysis_view}
use roya_api.Subscriptions.{Subscription, Usage, check_and_increment}

abbrev pub analysis_not_found : HttpException
analysis_not_found = HttpException.not_found "Analysis not found"

-- `analysisQueue.add('process-analysis', …)`
abbrev pub add_job : String → String → List Job → List Job
add_job analysis_id organization_id queue =
    queue ++ record { analysis_id = analysis_id; organization_id = organization_id } ∷ []

unfoldable pub find_by_id :
    (String → Value) → String → String → Store → Reply (Analysis × List Record)
find_by_id report_type organization_id id store =
    elim (find (analysis_matches organization_id id) store.analyses) [
      | none ↦ refused analysis_not_found
      | some a ↦ done (
        a,
        map_raw_reports_for_analysis_view (
            map (λ r. id_fields (report_type r.report_type_id) r ++ r.fields)
              (filter (λ r. r.analysis_id == a.id) store.reports)),
      )
    ]

pub record CreateAnalysisDto : Type 0 where
  pub analysis_type_ids : List String
  pub report_type_ids : List String
  pub title : String
  pub parameters : Option Record

-- The ids of the new documents.
pub record NewIds : Type 0 where
  pub analysis : String
  pub report : String → String

-- A report as it is created, with the defaults of its schema.
unfoldable pub new_report : ℕ → String → String → String → String → Report
new_report now id analysis_id organization_id report_type_id = record {
  id = id;
  analysis_id = analysis_id;
  report_type_id = report_type_id;
  organization_id = organization_id;
  fields =
      ("status", Value.string (report_status_value ReportStatus.queued))
      ∷ ("expiresAt", number_of (now + 30 * 24 * 60 * 60 * 1000))
      ∷ ("dataWithTypes", of_record [])
      ∷ ("failedParts", of_list [])
      ∷ ("retryMetadata", of_record [])
      ∷ ("branchResults", of_list [])
      ∷ ("flowWarnings", of_list [])
      ∷ ("requiredFailures", of_list [])
      ∷ [];
  execution_tries = some [];
}

-- The store with the usage that is counted.
pub record Charged : Type 0 where
  pub store : Store
  pub usages : List Usage

module _ (subscriptions : List Subscription) (report_types : List ReportTypeDocument)
    (organization_id period : String) where
  -- The loop of charges: the first that is refused ends the call, those before it are counted.
  unfoldable pub charge_all : List ReportTypeDocument → List Usage → Reply {0} Unit × List Usage
  charge_all [] usages = (done tt, usages)
  charge_all (rt ∷ rts) usages =
      next (check_and_increment subscriptions organization_id period rt.id rt.slug usages)
        (charge_all rts)
    where
      next :
          Reply {0} Unit × List Usage
          → (List Usage → Reply {0} Unit × List Usage)
          → Reply {0} Unit × List Usage
      next (done _, usages) more = more usages
      next (refused e, usages) more = (refused e, usages)

  abbrev pub requested : List String → List ReportTypeDocument
  requested ids = filter (λ rt. includes ids rt.id && is_published rt.status) report_types

  -- The documents, the job, and the analysis that runs.
  unfoldable pub start_analysis :
      ℕ → String → NewIds → CreateAnalysisDto → List ReportTypeDocument → Store → Store
  unfolding new_report
  start_analysis now user_id ids dto rts store =
      let analysis : Analysis = record {
        id = ids.analysis;
        organization_id = organization_id;
        created_by = user_id;
        analysis_type_ids = dto.analysis_type_ids;
        title = dto.title;
        status = AnalysisStatus.draft;
        parameters = or_else dto.parameters [];
        completed_at = none;
      } in
      record {
        analyses =
            update_one (λ a. a.id == ids.analysis)
              (λ a. record a { status = AnalysisStatus.running }) (store.analyses ++ analysis ∷ []);
        reports =
            store.reports
            ++ map (λ rt. new_report now (ids.report rt.id) ids.analysis organization_id rt.id) rts;
        queue = add_job ids.analysis organization_id store.queue;
      }

  abbrev pub after_charges :
      Reply {0} Unit × List Usage → Store → Store → String → Reply String × Charged
  after_charges (done _, usages) started_store store analysis_id =
      (done analysis_id, record { store = started_store; usages = usages })
  after_charges (refused e, usages) started_store store analysis_id =
      (refused e, record { store = store; usages = usages })

  -- The answer names the analysis that was created.
  unfoldable pub create : ℕ → String → NewIds → CreateAnalysisDto → Charged → Reply String × Charged
  unfolding charge_all start_analysis
  create now user_id ids dto s =
      let rts : List ReportTypeDocument = requested dto.report_type_ids in
      if not (nat_beq (length rts) (length dto.report_type_ids))
      then (
        refused (HttpException.forbidden "One or more report types are invalid or not published"),
        s,
      )
      else after_charges (charge_all rts s.usages) (start_analysis now user_id ids dto rts s.store)
          s.store ids.analysis

-- What `regenerate` sets on every report of the analysis, and takes off.
abbrev pub reset_fields : Record
reset_fields =
    ("status", Value.string (report_status_value ReportStatus.queued))
    ∷ ("failedParts", of_list [])
    ∷ ("branchResults", of_list [])
    ∷ ("flowWarnings", of_list [])
    ∷ ("requiredFailures", of_list [])
    ∷ ("retryMetadata", of_record [])
    ∷ []

abbrev pub dropped_fields : List String
dropped_fields =
    "context" ∷ "data" ∷ "dataWithTypes" ∷ "errorMessage" ∷ "generatedAt" ∷ "flowSnapshotVersion"
    ∷ []

unfoldable pub reset_report : Report → Report
reset_report r = record (unset_fields dropped_fields (set_fields reset_fields r)) {
  execution_tries = none;
}

unfoldable pub restarted : String → Analysis → Store → Store
unfolding reset_report
restarted organization_id analysis store = record {
  reports =
      update_many (λ r. r.analysis_id == analysis.id && (r.organization_id == organization_id))
        reset_report store.reports;
  queue = add_job analysis.id organization_id store.queue;
  analyses =
      update_one (λ a. a.id == analysis.id)
        (λ a. record a { status = AnalysisStatus.running; completed_at = none }) store.analyses;
}

-- `if (!updated) throw …`
abbrev pub updated_reply : Option Analysis → Store → Reply Analysis × Store
updated_reply none after = (refused analysis_not_found, after)
updated_reply (some updated) after = (done updated, after)

unfoldable pub regenerate : String → String → Store → Reply Analysis × Store
unfolding restarted
regenerate organization_id id store =
    elim (find (analysis_matches organization_id id) store.analyses) [
      | none ↦ (refused analysis_not_found, store)
      | some analysis ↦
          let after : Store = restarted organization_id analysis store in
          if analysis.status == AnalysisStatus.running
          then (refused (HttpException.conflict "Analysis is already running"), store)
          else updated_reply (find (λ a. a.id == analysis.id) after.analyses) after
    ]

unfoldable pub soft_delete : String → String → List Analysis → Reply Analysis × List Analysis
soft_delete organization_id id analyses =
    let after : List Analysis =
      update_one (analysis_matches organization_id id)
        (λ a. record a { status = AnalysisStatus.failed }) analyses in
    elim (find (analysis_matches organization_id id) after) [
      | none ↦ (refused analysis_not_found, after)
      | some a ↦ (done a, after)
    ]

-- `statusBreakdown`, from the groups that the database counts by status.
pub set_counts : List (String × ℕ) → List (String × ℕ) → List (String × ℕ)
set_counts [] breakdown = breakdown
set_counts ((status, count) ∷ groups) breakdown = set_counts groups (put status count breakdown)

unfoldable pub status_breakdown : List (String × ℕ) → List (String × ℕ)
unfolding set_counts
status_breakdown groups =
    set_counts groups (("draft", 0) ∷ ("running", 0) ∷ ("completed", 0) ∷ ("failed", 0) ∷ [])
