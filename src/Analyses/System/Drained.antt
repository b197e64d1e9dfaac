-- ===== src/Analyses/System/Drained.antt =====
-- What holds of every reachable store, and that its queue leaves no report waiting.
use roya_api.Prelude.{
  ℕ, List, [], ◌∷◌, All, All-mem, mem-All, Memᴰ, Option, true, ◌≡◌, refl, subst, inl, inr,
  string_eq,
}
use mathlib.Core.List.Memᴰ
use roya_api.Value.{Record}
use roya_api.Documents.{Report, Job, Store}
use roya_api.Analyses.Processor.{process_analysis}
use roya_api.Analyses.Processor.{finished_report}
use roya_api.Analyses.System.{Step, Reachable, World, run_job, Good, Sound}
use roya_api.Analyses.System.Steps.{
  regenerate-Sound, soft_delete-Sound, preserve_partial_output-Sound, append_execution_try-Sound,
}
use roya_api.Analyses.System.Jobs
use roya_api.Analyses.System.Jobs.{create-Sound}
use roya_api.Analyses.System.Runs.{run_job-Sound}

module _ (size : Record → Option ℕ) where
  Step-Sound : {s t : Store} → Sound s → Step size s t → Sound t
  Step-Sound {s} sound (Step.created subs types o period user now ids dto usages new_ids new_id) =
      create-Sound subs types o period user now ids dto usages s sound new_ids new_id
  Step-Sound {s} sound (Step.ran w now job rest head) =
      run_job-Sound size w now s job rest sound head
  Step-Sound {s} sound (Step.report_regenerated o id) = regenerate-Sound o id s sound
  Step-Sound {s} sound (Step.analysis_regenerated o id) = Jobs.regenerate-Sound o id s sound
  Step-Sound {s} sound (Step.analysis_deleted o id) = soft_delete-Sound o id s sound
  Step-Sound {s} sound (Step.output_preserved now id output parts) =
      preserve_partial_output-Sound now id output parts s sound
  Step-Sound {s} sound (Step.try_appended id entry) =
      append_execution_try-Sound size id entry s sound

  -- Whatever calls are made and whatever the runs do, between two jobs every report is queued,
  -- completed or failed, its tries are numbered 1, 2, … in their order, it belongs to an analysis of
  -- its organization, and if it is queued a job for its analysis is in the queue; ids are not used
  -- twice, and every job is for an analysis of its organization.
  pub Reachable-Sound : {s : Store} → Reachable size s → Sound s
  Reachable-Sound Reachable.start = record {
    reports_distinct = tt;
    analyses_distinct = tt;
    good = tt;
    jobs = λ j m. absurd (Memᴰ.not-nil m);
  }
  Reachable-Sound (Reachable.next r step) = Step-Sound (Reachable-Sound r) step

  -- The jobs of a queue, run in order; `world` is what the other parts answer during each.
  pub run_queue : (Job → World) → ℕ → List Job → Store → Store
  run_queue world now [] s = s
  run_queue world now (job ∷ rest) s =
      run_queue world now rest (run_job size (world job) now job (record s { queue = rest }))

  queue-run_job :
      (world : Job → World) (now : ℕ) (job : Job) (rest : List Job) (s : Store)
      → (run_job size (world job) now job (record s { queue = rest })).queue ≡ rest
  unfolding process_analysis
  queue-run_job world now job rest s = refl

  run_queue-finished :
      (world : Job → World) (now : ℕ) (queue : List Job) (s : Store)
      → s.queue ≡ queue
      → Sound s
      → (r : Report) → Memᴰ r (run_queue world now queue s).reports
      → finished_report r ≡ true
  unfolding run_queue
  run_queue-finished world now [] s head sound r m =
      let good = All-mem (Good s.analyses s.queue) r s.reports sound.good m in
      elim good.settled [
        | inr done ↦ done
        | inl waits ↦
            let (j, n, e) = good.awaited waits in
            absurd (Memᴰ.not-nil (subst (λ q. Memᴰ j q) head n))
      ]
  run_queue-finished world now (job ∷ rest) s head sound r m =
      run_queue-finished world now rest _ (queue-run_job world now job rest s)
        (run_job-Sound size (world job) now s job rest sound head) r m

  -- From every reachable store, once the jobs of the queue are run in order no report is left queued
  -- or generating: each is completed or failed, whatever the runs return or throw.
  pub Reachable-run_queue-finished :
      (world : Job → World) (now : ℕ) (s : Store)
      → Reachable size s
      → All (λ r. finished_report r ≡ true) (run_queue world now s.queue s).reports
  Reachable-run_queue-finished world now s reachable =
      mem-All (λ r. finished_report r ≡ true) (run_queue world now s.queue s).reports
        (run_queue-finished world now s.queue s refl (Reachable-Sound reachable))
