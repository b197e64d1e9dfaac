-- ===== src/Analyses/System/Runs.antt =====
-- A job of the queue, run on a sound store.
use roya_api.Prelude.{
  ℕ, ◌+◌, or_else, Bool, true, false, Option, some, List, [], ◌∷◌, all, filter, find, length,
  if◌then◌else◌, All, All-mem, mem-All, Memᴰ, ◌==◌, string_eq, ◌≡◌, refl, sym, subst, ap, ◌∙◌, inl,
  inr, arith,
}
use mathlib.Core.List.Memᴰ
use roya_api.Prelude.Dict.{get-put_self}
use roya_api.Value.{Value, Record}
use roya_api.Documents.{Report, AnalysisStatus, Job, Store, analysis_matches}
use roya_api.Documents.Identity.{Distinct-unique}
use roya_api.Documents.Updates.{update_one}
use roya_api.Reports.Update.{number_of, numbered}
use roya_api.Reports.Update.Pointwise.{tries_of}
use roya_api.Analyses.Processor.{
  process_analysis, process_reports, analysis_parameters, finished_report,
}
use roya_api.Analyses.Processor.Settled.{run_report-Kept, tries_of-run_report}
use roya_api.Analyses.Processor.Done.{
  report_ids, Ready, Left, waiting, rerun, finished-rerun, process_reports-All,
  process_reports-Left, Left-start,
}
use roya_api.Analyses.System.{World, run_job, Numbered, Good, Sound}
use roya_api.Analyses.System.Numbered.{Numbered-append, Good-Kept, finished-queued}
use roya_api.Analyses.System.Rewrite.{Sound-analyses}

-- Whatever job heads the queue of a sound store, the reports of its analysis are ready for it.
pub Sound-Ready :
    (s : Store) (job : Job) (rest : List Job)
    → Sound s
    → s.queue ≡ job ∷ rest
    → Ready job.analysis_id job.organization_id s.reports
Sound-Ready s job rest sound head = record {
  distinct = sound.reports_distinct;
  waits_or_finished = λ r m e. (All-mem (Good s.analyses s.queue) r s.reports sound.good m).settled;
  owned = λ r m e.
      let (a, n, a_id, a_organization) =
        (All-mem (Good s.analyses s.queue) r s.reports sound.good m).home in
      let (b, k, b_id, b_organization) =
        sound.jobs job (subst (λ q. Memᴰ job q) (sym head) (Memᴰ.head refl)) in
      let same : a ≡ b =
        Distinct-unique (λ x. x.id) s.analyses a b sound.analyses_distinct n k
          (a_id ∙ e ∙ sym b_id) in
      sym a_organization ∙ ap (λ x. x.organization_id) same ∙ b_organization;
}

module _ (size : Record → Option ℕ) (w : World) (now : ℕ) (s : Store) (job : Job) (rest : List Job)
    (sound : Sound s) (head : s.queue ≡ job ∷ rest) where
  abbrev inputs : Record
  inputs =
      analysis_parameters size w.find_report_type w.find_version w.execute w.lower_case w.times
        (find (analysis_matches job.organization_id job.analysis_id) s.analyses)

  abbrev queued : List Report
  queued =
      waiting size w.find_report_type w.find_version w.execute w.lower_case w.times job.analysis_id
        job.organization_id inputs s.reports

  abbrev reports_after : List Report
  reports_after =
      process_reports size w.find_report_type w.find_version w.execute w.lower_case w.times
        job.organization_id inputs queued s.reports

  start : Left job.analysis_id job.organization_id (report_ids queued) s.reports
  start =
      Left-start size w.find_report_type w.find_version w.execute w.lower_case w.times
        job.analysis_id job.organization_id inputs s.reports (Sound-Ready s job rest sound head)

  pub reports_after-Left : Left job.analysis_id job.organization_id [] reports_after
  reports_after-Left =
      process_reports-Left size w.find_report_type w.find_version w.execute w.lower_case w.times
        job.analysis_id job.organization_id inputs queued s.reports start

  rerun-Good :
      (report x : Report)
      → Good s.analyses (job ∷ rest) x
      → Good s.analyses (job ∷ rest) (
          rerun size w.find_report_type w.find_version w.execute w.lower_case w.times
            job.analysis_id job.organization_id inputs report x)
  rerun-Good report x good =
      let (entry, pushed) =
        tries_of-run_report size w.find_report_type w.find_version w.execute w.lower_case w.times
          job.organization_id inputs report x in
      Good-Kept s.analyses (job ∷ rest) x _
        (run_report-Kept size w.find_report_type w.find_version w.execute w.lower_case w.times
          job.organization_id inputs report x)
        good
        (subst (Numbered 0) (sym pushed) (
          Numbered-append 0 (tries_of x) (numbered (length (tries_of x) + 1) entry)
            good.tries_numbered
            (ap (λ o. or_else o Value.undefined)
                (get-put_self "tryNumber" (number_of (length (tries_of x) + 1)) entry)
              ∙ ap number_of (omega arith))))
        (inl (
          finished-rerun size w.find_report_type w.find_version w.execute w.lower_case w.times
            job.analysis_id job.organization_id inputs report x))

  reports_after-Good : All (Good s.analyses (job ∷ rest)) reports_after
  reports_after-Good =
      process_reports-All size w.find_report_type w.find_version w.execute w.lower_case w.times
        job.analysis_id job.organization_id inputs (Good s.analyses (job ∷ rest)) queued s.reports
        rerun-Good start (subst (λ q. All (Good s.analyses q) s.reports) head sound.good)

  -- A report that still waits is of another analysis, whose job is behind.
  served : (r : Report) → Memᴰ r reports_after → Good s.analyses rest r
  served r m =
      let good = All-mem (Good s.analyses (job ∷ rest)) r reports_after reports_after-Good m in
      record {
        tries_numbered = good.tries_numbered;
        settled = good.settled;
        home = good.home;
        awaited = λ q.
            let (j, n, e) = good.awaited q in
            elim (Memᴰ.cases_cons n) [
              | inr behind ↦ (j, behind, e)
              | inl same ↦
                  let of_job : r.analysis_id ≡ job.analysis_id =
                    sym e ∙ ap (λ x. x.analysis_id) same in
                  absurd (ground (arith, reports_after-Left.waits r m of_job, finished-queued r, q))
            ];
      }

  after_reports : Sound (record { analyses = s.analyses; reports = reports_after; queue = rest })
  after_reports = record {
    reports_distinct = reports_after-Left.distinct;
    analyses_distinct = sound.analyses_distinct;
    good = mem-All (Good s.analyses rest) reports_after served;
    jobs = λ j m. sound.jobs j (subst (λ q. Memᴰ j q) (sym head) (Memᴰ.tail m));
  }

  pub run_job-Sound : Sound (run_job size w now job (record s { queue = rest }))
  unfolding process_analysis
  run_job-Sound =
      by_done (all finished_report (filter (λ r. r.analysis_id == job.analysis_id) reports_after))
    where
      by_done :
          (b : Bool)
          → Sound (record {
            analyses =
                if b
                then update_one
                    (λ a. a.id == job.analysis_id)
                    (λ a. record a { status = AnalysisStatus.completed; completed_at = some now })
                    s.analyses
                else s.analyses;
            reports = reports_after;
            queue = rest;
          })
      by_done true =
          Sound-analyses _ (λ a. a.id == job.analysis_id)
            (λ a. record a { status = AnalysisStatus.completed; completed_at = some now })
            after_reports (λ a. refl) (λ a. refl)
      by_done false = after_reports
