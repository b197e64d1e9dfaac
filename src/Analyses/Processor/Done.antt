-- ===== src/Analyses/Processor/Done.antt =====
-- A job leaves no report of its analysis waiting.
use roya_api.Prelude.{
  String, ℕ, ◌&&◌, true, Option, some, List, [], ◌∷◌, map, all, All, filter, mem-filter, find,
  length, ltb, includes, Memᴰ, ◌==◌, ==_iff, string_eq, ◌≡◌, refl, sym, subst, ap, ◌∙◌, arith,
  Bool-cases, ◌⊎◌, inl, inr,
}
use roya_api.Prelude.Distinct.{Distinct}
use roya_api.Prelude.Dict.{get}
use roya_api.Prelude.Result.{Result, ok, threw}
use roya_api.Value.{Value, Record}
use roya_api.Execution.{SnapshotNode, SnapshotConnection, Runtime}
use roya_api.Execution.PortMerge.{ByPort}
use roya_api.Execution.Run.Report.{DynamicFlowExecutionResult}
use roya_api.Execution.Run.Published.{ReportType, ReportTypeVersion}
use roya_api.Documents.{
  Report, ReportStatus, report_status_value, Analysis, AnalysisStatus, Job, Store, has_status,
  analysis_matches,
}
use roya_api.Documents.Updates.{update_one}
use roya_api.Documents.Identity.{
  ids-includes, ids-found, Distinct-unique, mem-update_one, ids-update_one, find-update_one,
  All-update_one,
}
use roya_api.Reports.Update.Pointwise.{Kept}
use roya_api.Analyses.Processor.{
  RunTimes, process_reports, process_analysis, analysis_parameters, finished_report,
}
use roya_api.Analyses.Processor.Settled.{
  outcome_status, outcome, run_report, run_report-Kept, get-run_report-status,
  process_report-update_one,
}

abbrev pub report_ids : List Report → List String
report_ids = map (λ r. r.id)

-- What the states of the reports of a job's analysis are when it is taken: each waits or is
-- finished, and belongs to the job's organization; no two reports have one id.
pub record Ready (analysis_id organization_id : String) (reports : List Report) : Type 0 where
  pub distinct : Distinct (report_ids reports)
  pub waits_or_finished :
      (r : Report)
      → Memᴰ r reports
      → r.analysis_id ≡ analysis_id
      → (has_status ReportStatus.queued r ≡ true) ⊎ (finished_report r ≡ true)
  pub owned :
      (r : Report)
      → Memᴰ r reports
      → r.analysis_id ≡ analysis_id
      → r.organization_id ≡ organization_id

-- The reports of the analysis that are not finished are among those left.
pub record Left (analysis_id organization_id : String) (left : List String) (reports : List Report)
    : Type 0 where
  pub distinct : Distinct (report_ids reports)
  pub waits :
      (r : Report)
      → Memᴰ r reports
      → r.analysis_id ≡ analysis_id
      → (finished_report r ≡ true) ⊎ (includes left r.id ≡ true)
  pub owned :
      (r : Report)
      → Memᴰ r reports
      → includes left r.id ≡ true
      → r.organization_id ≡ organization_id

outcome_status_cases :
    (o : Result DynamicFlowExecutionResult)
    → (outcome_status o ≡ ReportStatus.completed) ⊎ (outcome_status o ≡ ReportStatus.failed)
outcome_status_cases (threw e) = inr refl
outcome_status_cases (ok result) = elim (Bool-cases (ltb 0 (length result.required_failures))) [
  | inl failed ↦ rw failed (inr refl)
  | inr clean ↦ rw clean (inl refl)
]

module _ (size : Record → Option ℕ) (find_report_type : String → Option ReportType)
    (find_version : String → Option ReportTypeVersion)
    (execute : String
      → Record
      → SnapshotNode
      → List SnapshotConnection
      → Runtime
      → ByPort
      → Result Record)
    (lower_case : String → String) (times : Report → RunTimes) where
  module _ (analysis_id organization_id : String) (inputs : Record) where
    abbrev pub rerun : Report → Report → Report
    rerun =
        run_report size find_report_type find_version execute lower_case times organization_id
          inputs

    abbrev results : Report → ReportStatus
    results report = outcome_status (
        outcome size find_report_type find_version execute lower_case times organization_id inputs
          report)

    abbrev shown : ReportStatus → Option Value
    shown s = some (Value.string (report_status_value s))

    status_after :
        (report r : Report) → get "status" (rerun report r).fields ≡ shown (results report)
    status_after =
        get-run_report-status size find_report_type find_version execute lower_case times
          organization_id inputs

    pub finished-rerun : (report r : Report) → finished_report (rerun report r) ≡ true
    finished-rerun report r =
        elim (outcome_status_cases (
          outcome size find_report_type find_version execute lower_case times organization_id inputs
            report)) [
              | inl completed ↦ rw (status_after report r ∙ ap shown completed) refl
              | inr failed ↦ rw (status_after report r ∙ ap shown failed) refl
            ]

    Left-step :
        (report : Report) (left : List String) (reports : List Report)
        → Left analysis_id organization_id (report.id ∷ left) reports
        → Left analysis_id organization_id left
            (update_one (λ r. r.id == report.id) (rerun report) reports)
    Left-step report left reports inv = record {
      distinct =
          subst Distinct
            (sym
              (ids-update_one (λ r. r.id) report.id (rerun report) reports (λ x. (kept x).same_id)))
            inv.distinct;
      waits = λ y m same.
          elim (mem-update_one (λ r. r.id) report.id (rerun report) reports y inv.distinct m) [
            | inl (x, n, hit, e) ↦ inl (ap finished_report e ∙ finished-rerun report x)
            | inr (n, other) ↦ elim (inv.waits y n same) [
              | inl h ↦ inl h
              | inr h ↦ inr (ground (arith, h, other, ==_iff report.id y.id, ==_iff y.id report.id))
            ]
          ];
      owned = λ y m h.
          elim (mem-update_one (λ r. r.id) report.id (rerun report) reports y inv.distinct m) [
            | inl (x, n, hit, e) ↦
                ap (λ r. r.organization_id) e
                ∙ (kept x).same_organization
                ∙ inv.owned x n (ground (arith, hit, ==_iff report.id x.id))
            | inr (n, other) ↦ inv.owned y n (ground (arith, h))
          ];
    }
      where
        kept : (x : Report) → Kept x (rerun report x)
        kept =
            run_report-Kept size find_report_type find_version execute lower_case times
              organization_id inputs report

    pub process_reports-Left :
        (queue reports : List Report)
        → Left analysis_id organization_id (report_ids queue) reports
        → Left analysis_id organization_id [] (
            process_reports size find_report_type find_version execute lower_case times
              organization_id inputs queue reports)
    unfolding process_reports
    process_reports-Left [] reports inv = inv
    process_reports-Left (report ∷ rest) reports inv = process_reports-Left rest _ (
        subst (Left analysis_id organization_id (report_ids rest))
          (sym (
            process_report-update_one size find_report_type find_version execute lower_case times
              organization_id inputs report reports
              (λ r m e. inv.owned r m (ground (arith, e, ==_iff report.id r.id)))))
          (Left-step report (report_ids rest) reports inv))

    -- What every rewriting of a report keeps of it, the whole loop keeps.
    pub process_reports-All :
        (P : Report → Type 0) (queue reports : List Report)
        → ((report x : Report) → P x → P (rerun report x))
        → Left analysis_id organization_id (report_ids queue) reports
        → All P reports
        → All P (
            process_reports size find_report_type find_version execute lower_case times
              organization_id inputs queue reports)
    unfolding process_reports
    process_reports-All P [] reports keeps inv h = h
    process_reports-All P (report ∷ rest) reports keeps inv h =
        let step =
          process_report-update_one size find_report_type find_version execute lower_case times
            organization_id inputs report reports
            (λ r m e. inv.owned r m (ground (arith, e, ==_iff report.id r.id))) in
        process_reports-All P rest _ keeps
          (subst (Left analysis_id organization_id (report_ids rest)) (sym step)
            (Left-step report (report_ids rest) reports inv))
          (subst (All P) (sym step) (
            All-update_one P (λ r. r.id == report.id) (rerun report) reports
              (λ x hit. keeps report x) h))

    abbrev pub waiting : List Report → List Report
    waiting reports =
        filter (λ r. r.analysis_id == analysis_id && has_status ReportStatus.queued r) reports

    pub Left-start :
        (reports : List Report)
        → Ready analysis_id organization_id reports
        → Left analysis_id organization_id (report_ids (waiting reports)) reports
    Left-start reports ready = record {
      distinct = ready.distinct;
      waits = λ r m same. elim (ready.waits_or_finished r m same) [
        | inl queued ↦ inr (
            ids-includes (λ x. x.id) r (waiting reports)
              ((mem-filter (λ x. x.analysis_id == analysis_id && has_status ReportStatus.queued x) r
                  reports).1
                (m, ground (arith, same, queued, ==_iff r.analysis_id analysis_id))))
        | inr finished ↦ inl finished
      ];
      owned = λ r m h. queued_owner r m (ids-found (λ x. x.id) r.id (waiting reports) h);
    }
      where
        queued_owner :
            (r : Report)
            → Memᴰ r reports
            → (a : Report) × Memᴰ a (waiting reports) × (a.id ≡ r.id)
            → r.organization_id ≡ organization_id
        queued_owner r m (a, n, e) =
            let (there, is_waiting) =
              (mem-filter (λ x. x.analysis_id == analysis_id && has_status ReportStatus.queued x) a
                  reports).0
                n in
            let same : a ≡ r = Distinct-unique (λ x. x.id) reports a r ready.distinct there m e in
            ready.owned r m (
              ap (λ x. x.analysis_id) (sym same)
              ∙ (==_iff a.analysis_id analysis_id).0 (ground (arith, is_waiting)))

  all-finished :
      (xs : List Report)
      → ((r : Report) → Memᴰ r xs → finished_report r ≡ true)
      → all finished_report xs ≡ true
  all-finished [] h = refl
  all-finished (x ∷ xs) h =
      ground (arith, h x (Memᴰ.head refl), all-finished xs (λ r m. h r (Memᴰ.tail m)))

  -- After a job whose analysis is ready, every report of the analysis is COMPLETED or FAILED, whatever
  -- the runs do, and the analysis found under the job's id is COMPLETED, at the time of the job.
  pub process_analysis-completes :
      (now : ℕ) (job : Job) (store : Store) (analysis : Analysis)
      → Ready job.analysis_id job.organization_id store.reports
      → find (λ a. a.id == job.analysis_id) store.analyses ≡ some analysis
      → let after : Store =
          process_analysis size find_report_type find_version execute lower_case times now job
            store in
        ((r : Report)
          → Memᴰ r after.reports
          → r.analysis_id ≡ job.analysis_id
          → finished_report r ≡ true)
        × (find (λ a. a.id == job.analysis_id) after.analyses
            ≡ some (record analysis { status = AnalysisStatus.completed; completed_at = some now }))
  unfolding process_analysis
  process_analysis-completes now job store analysis ready found =
      rw (all-finished (filter (λ r. r.analysis_id == job.analysis_id) reports) all_done) (
        done,
        find-update_one (λ a. a.id) job.analysis_id
            (λ a. record a { status = AnalysisStatus.completed; completed_at = some now })
            store.analyses analysis (λ a. refl) found,
      )
    where
      inputs : Record
      inputs =
          analysis_parameters size find_report_type find_version execute lower_case times
            (find (analysis_matches job.organization_id job.analysis_id) store.analyses)

      reports : List Report
      reports =
          process_reports size find_report_type find_version execute lower_case times
            job.organization_id inputs
            (waiting job.analysis_id job.organization_id inputs store.reports) store.reports

      left : Left job.analysis_id job.organization_id [] reports
      left =
          process_reports-Left job.analysis_id job.organization_id inputs _ store.reports
            (Left-start job.analysis_id job.organization_id inputs store.reports ready)

      done :
          (r : Report) → Memᴰ r reports → r.analysis_id ≡ job.analysis_id → finished_report r ≡ true
      done r m same = ground (arith, left.waits r m same)

      all_done :
          (r : Report)
          → Memᴰ r (filter (λ r. r.analysis_id == job.analysis_id) reports)
          → finished_report r ≡ true
      all_done r m =
          let (there, same) = (mem-filter (λ r. r.analysis_id == job.analysis_id) r reports).0 m in
          done r there ((==_iff r.analysis_id job.analysis_id).0 same)
