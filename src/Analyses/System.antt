-- ===== src/Analyses/System.antt =====
-- The whole of the reports and analyses as a state machine: the calls of both services and the jobs
-- of the queue, which is served in order, one job at a time. New documents get ids of their own.
pub mod Numbered
pub mod Rewrite
pub mod Steps
pub mod Jobs
pub mod Runs
pub mod Drained
use roya_api.Prelude.{
  String, ℕ, suc, Bool, true, false, Option, List, [], ◌∷◌, ◌++◌, map, filter, includes, ◌&&◌, All,
  Memᴰ, string_eq, ◌≡◌, ◌⊎◌,
}
use roya_api.Prelude.Distinct.{Distinct}
use roya_api.Prelude.Result.{Result}
use roya_api.Value.{Value, Record, at}
use roya_api.Execution.{SnapshotNode, SnapshotConnection, Runtime}
use roya_api.Execution.PortMerge.{ByPort}
use roya_api.Execution.Run.Published.{ReportType, ReportTypeVersion}
use roya_api.Documents.{
  Report, ReportStatus, Analysis, Job, Store, ReportTypeDocument, is_published, has_status,
}
use roya_api.Reports.Update.{number_of, append_execution_try}
use roya_api.Reports.Update.Pointwise.{tries_of}
use roya_api.Reports.Actions.{FailedPart, preserve_partial_output}
use roya_api.Reports.Actions
use roya_api.Subscriptions.{Subscription, Usage}
use roya_api.Analyses.Processor.{RunTimes, process_analysis}
use roya_api.Analyses.Processor.Done.{report_ids}
use roya_api.Analyses.Processor.{finished_report}
use roya_api.Analyses.Service.{CreateAnalysisDto, NewIds, create, soft_delete}
use roya_api.Analyses.Service

abbrev pub analysis_ids : List Analysis → List String
analysis_ids = map (λ a. a.id)

abbrev pub no_store : Store
no_store = record { analyses = []; reports = []; queue = [] }

-- What the other parts of the system answer during one job.
pub record World : Type 0 where
  pub find_report_type : String → Option ReportType
  pub find_version : String → Option ReportTypeVersion
  pub execute :
      String → Record → SnapshotNode → List SnapshotConnection → Runtime → ByPort → Result Record
  pub lower_case : String → String
  pub times : Report → RunTimes

abbrev pub run_job : (Record → Option ℕ) → World → ℕ → Job → Store → Store
run_job size w now job s =
    process_analysis size w.find_report_type w.find_version w.execute w.lower_case w.times now job s

abbrev pub new_report_ids : List ReportTypeDocument → NewIds → CreateAnalysisDto → List String
new_report_ids report_types ids dto =
    map (λ rt. ids.report rt.id)
      (filter (λ rt. includes dto.report_type_ids rt.id && is_published rt.status) report_types)

module _ (size : Record → Option ℕ) where
  pub data Step (s : Store) : Store → Type 0 where
    created :
        (subscriptions : List Subscription) (report_types : List ReportTypeDocument)
        (organization_id period user_id : String) (now : ℕ) (ids : NewIds) (dto : CreateAnalysisDto)
        (usages : List Usage)
        → Distinct (report_ids s.reports ++ new_report_ids report_types ids dto)
        → Distinct (analysis_ids s.analyses ++ ids.analysis ∷ [])
        → Step s
            (create subscriptions report_types organization_id period now user_id ids dto
              (record { store = s; usages = usages })).1.store
    ran :
        (w : World) (now : ℕ) (job : Job) (rest : List Job)
        → s.queue ≡ job ∷ rest
        → Step s (run_job size w now job (record s { queue = rest }))
    report_regenerated :
        (organization_id id : String) → Step s (Actions.regenerate organization_id id s).1
    analysis_regenerated :
        (organization_id id : String) → Step s (Service.regenerate organization_id id s).1
    analysis_deleted :
        (organization_id id : String)
        → Step s (record s { analyses = (soft_delete organization_id id s.analyses).1 })
    output_preserved :
        (now : Value) (id : String) (output : Record) (parts : List FailedPart)
        → Step s (record s { reports = (preserve_partial_output now id output parts s.reports).1 })
    try_appended :
        (id : String) (entry : Record)
        → Step s (record s { reports = append_execution_try size id entry s.reports })

  pub data Reachable : Store → Type 0 where
    start : Reachable no_store
    next : {s t : Store} → Reachable s → Step s t → Reachable t

-- The tries are numbered from `n + 1` on.
abbrev pub Numbered : ℕ → List Record → Type 0
Numbered n [] = Unit
Numbered n (t ∷ ts) = (at "tryNumber" t ≡ number_of (suc n)) × Numbered (suc n) ts

-- A report between two jobs.
pub record Good (analyses : List Analysis) (queue : List Job) (r : Report) : Type 0 where
  pub tries_numbered : Numbered 0 (tries_of r)
  pub settled : (has_status ReportStatus.queued r ≡ true) ⊎ (finished_report r ≡ true)
  pub home :
      (a : Analysis) × Memᴰ a analyses
      × (a.id ≡ r.analysis_id)
      × (a.organization_id ≡ r.organization_id)
  pub awaited :
      has_status ReportStatus.queued r ≡ true
      → (j : Job) × Memᴰ j queue × (j.analysis_id ≡ r.analysis_id)

-- The store between two jobs.
pub record Sound (s : Store) : Type 0 where
  pub reports_distinct : Distinct (report_ids s.reports)
  pub analyses_distinct : Distinct (analysis_ids s.analyses)
  pub good : All (Good s.analyses s.queue) s.reports
  pub jobs :
      (j : Job)
      → Memᴰ j s.queue
      → (a : Analysis) × Memᴰ a s.analyses
        × (a.id ≡ j.analysis_id)
        × (a.organization_id ≡ j.organization_id)
