-- ===== src/Analyses/Tests.antt =====
-- Runs of the analyses' calls and of the jobs.
use roya_api.Prelude.{
  String, All, ℕ, ◌≤◌, ◌+◌, ◌*◌, true, false, Bool, none, some, Option, List, [], ◌∷◌, ◌++◌, find,
  length, Memᴰ, ◌==◌, ◌≡◌, ◌≢◌, refl, ap, string_eq, inl, inr,
}
use mathlib.Core.List.Memᴰ
use roya_api.Prelude.Result.{Result, ok}
use roya_api.Value.{Value, Record, at, of_record}
use roya_api.Execution.{SnapshotNode, SnapshotConnection, Runtime}
use roya_api.Execution.PortMerge.{ByPort}
use roya_api.Execution.Run.Published.{ReportType}
use roya_api.Documents.{
  Report, Analysis, AnalysisStatus, Job, Store, PublicationStatus, ReportTypeDocument,
  analysis_matches,
}
use roya_api.Reports.Update.{number_of}
use roya_api.Reports.Update.Pointwise.{Owned, tries_of}
use roya_api.Subscriptions.{SubscriptionStatus, Subscription}
use roya_api.Analyses.Processor.{RunTimes, finished_report, process_report, process_analysis}
use roya_api.Analyses.Processor.Settled.{process_report-settled}
use roya_api.Analyses.Processor.Done.{process_analysis-completes}
use roya_api.Analyses.Service.{CreateAnalysisDto, NewIds, create}
use roya_api.Analyses.Service.Tokens.{
  EmbedToken, CreateEmbedTokenDto, Minted, mint_embed_token, mint_embed_token-Minted,
}
use roya_api.Analyses.System.{World, Step, Reachable, no_store, Sound}
use roya_api.Analyses.System.Drained.{Reachable-Sound, run_queue, Reachable-run_queue-finished}
use roya_api.Analyses.System.Runs.{Sound-Ready}

abbrev any_size : Record → Option ℕ
any_size r = some 1000

abbrev subscriptions : List Subscription
subscriptions =
    record { organization_id = "acme"; status = SubscriptionStatus.active; plan = none } ∷ []

abbrev seo : ReportTypeDocument
seo = record {
  id = "rt1";
  slug = "seo";
  name = none;
  localized_name = of_record [];
  description = none;
  localized_description = Value.undefined;
  scope = Value.string "global";
  organization_id = none;
  details = [];
  status = PublicationStatus.published;
  current_published_version_id = none;
  draft_version_id = none;
}

abbrev dto : CreateAnalysisDto
dto = record {
  analysis_type_ids = [];
  report_type_ids = "rt1" ∷ [];
  title = "Spring";
  parameters = some (("url", Value.string "https://acme.test") ∷ []);
}

abbrev new_ids : NewIds
new_ids = record { analysis = "a1"; report = λ rt. "r1" }

abbrev created : Store
created =
    (create subscriptions (seo ∷ []) "acme" "2026-04" 0 "u1" new_ids dto
      (record { store = no_store; usages = [] })).1.store

created-Reachable : Reachable any_size created
created-Reachable = Reachable.next Reachable.start (
    Step.created subscriptions (seo ∷ []) "acme" "2026-04" "u1" 0 new_ids dto [] (refl, tt)
      (refl, tt))

Reachable-Sound_example : Sound created
Reachable-Sound_example = Reachable-Sound any_size created-Reachable

-- The report type has no published version, so the run throws.
abbrev report_type : String → Option ReportType
report_type id = some (record { slug = "seo"; current_published_version_id = none })

abbrev times : Report → RunTimes
times r = record { started_at = 5; finished_at = 9; generated_at = 9 }

abbrev execute :
    String → Record → SnapshotNode → List SnapshotConnection → Runtime → ByPort → Result Record
execute o i n cs rt ports = ok []

abbrev world : World
world = record {
  find_report_type = report_type;
  find_version = λ id. none;
  execute = execute;
  lower_case = λ s. s;
  times = times;
}

Reachable-run_queue-finished_example :
    All
      (λ r. finished_report r ≡ true)
      (run_queue any_size (λ j. world) 10 created.queue created).reports
Reachable-run_queue-finished_example =
    Reachable-run_queue-finished any_size (λ j. world) 10 created created-Reachable

abbrev waiting_report : Report
waiting_report = record {
  id = "r1";
  analysis_id = "a1";
  report_type_id = "rt1";
  organization_id = "acme";
  fields = ("status", Value.string "queued") ∷ [];
  execution_tries = some [];
}

owned : Owned "r1" "acme" (waiting_report ∷ [])
owned r m e = elim (Memᴰ.cases_cons m) [
  | inl same ↦ ap (λ x. x.organization_id) same
  | inr later ↦ absurd (Memᴰ.not-nil later)
]

process_report-settled_example :
    ((after : Report) × (find
          (λ x. x.id == "r1")
          (process_report any_size report_type
            (λ id. none)
            execute
            (λ s. s)
            times
            "acme"
            []
            waiting_report
            (waiting_report ∷ []))
        ≡ some after)
      × (at "status" after.fields ≡ Value.string "failed")
      × (entry : Record) × (tries_of after ≡ entry ∷ [])
      × (at "tryNumber" entry ≡ number_of 1))
    × ((j : String)
        → "r1" ≢ j
        → find
            (λ x. x.id == j)
            (process_report any_size report_type
              (λ id. none)
              execute
              (λ s. s)
              times
              "acme"
              []
              waiting_report
              (waiting_report ∷ []))
          ≡ find (λ x. x.id == j) (waiting_report ∷ []))
unfolding roya_api.Execution.Run.Published.run_published_flow
process_report-settled_example =
    process_report-settled any_size report_type (λ id. none) execute (λ s. s) times "acme" []
      waiting_report waiting_report (waiting_report ∷ []) owned refl

abbrev job : Job
job = record { analysis_id = "a1"; organization_id = "acme" }

abbrev running_analysis : Analysis
running_analysis = record {
  id = "a1";
  organization_id = "acme";
  created_by = "u1";
  analysis_type_ids = [];
  title = "Spring";
  status = AnalysisStatus.running;
  parameters = ("url", Value.string "https://acme.test") ∷ [];
  completed_at = none;
}

process_analysis-completes_example :
    let after : Store =
      process_analysis any_size report_type (λ id. none) execute (λ s. s) times 10 job created in
    ((r : Report) → Memᴰ r after.reports → r.analysis_id ≡ "a1" → finished_report r ≡ true)
    × (find (λ a. a.id == "a1") after.analyses
        ≡ some
            (record running_analysis { status = AnalysisStatus.completed; completed_at = some 10 }))
unfolding create roya_api.Subscriptions.check_and_increment roya_api.Subscriptions.charge
    roya_api.Subscriptions.reached_limit
process_analysis-completes_example =
    process_analysis-completes any_size report_type (λ id. none) execute (λ s. s) times 10 job
      created running_analysis (Sound-Ready created job [] Reachable-Sound_sound refl) refl
  where
    Reachable-Sound_sound : Sound created
    Reachable-Sound_sound = Reachable-Sound any_size created-Reachable

abbrev long_life : CreateEmbedTokenDto
long_life = record { ttl_seconds = some 999999; allowed_origin = none }

abbrev minted : EmbedToken
minted = record {
  token = "a1";
  url = "https://portal.test/embed/analyses/a1?token=a1";
  expires_at = 86401000;
  analysis_id = "a1";
}

mint_embed_token-Minted_example :
    ((life : ℕ) × Minted
        (λ p n. p.analysis_id)
        (some "https://portal.test/")
        1000
        "acme"
        "a1"
        long_life
        minted
        life)
    × ((a : Analysis) × (find (analysis_matches "acme" "a1") (running_analysis ∷ []) ≡ some a))
unfolding mint_embed_token roya_api.Prelude.Text.template
mint_embed_token-Minted_example =
    mint_embed_token-Minted (λ p n. p.analysis_id) (some "https://portal.test/") 1000 "acme" "a1"
      long_life (running_analysis ∷ []) minted refl
