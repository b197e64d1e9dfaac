-- ===== src/Analyses/System/Jobs.antt =====
-- Starting an analysis, restarting it and running a job keep a sound store sound.
use roya_api.Prelude.{
  String, ℕ, Bool, true, ◌&&◌, Option, none, some, List, [], ◌∷◌, ◌++◌, map, find, length, nat_beq,
  All, All-mem, All-append, mem-All, mem-append, Memᴰ, ◌==◌, ==_iff, string_eq, or_else, ◌≡◌, refl,
  sym, subst, ap, ◌∙◌, ◌⊎◌, inl, inr, arith, Bool-cases, Option-cases,
}
use roya_api.Prelude.Distinct.{Distinct}
use roya_api.Prelude.Reply.{Reply, done, refused}
use roya_api.Documents.{
  Report, ReportStatus, Analysis, AnalysisStatus, Store, ReportTypeDocument, has_status,
  analysis_matches, analysis_status_eq,
}
use roya_api.Documents.Updates.{update_many, set_fields, get-assign, get-unset_fields}
use roya_api.Documents.Identity.{find-mem, map-update_many, All-update_many}
use roya_api.Reports.Update.Pointwise.{tries_of, Kept}
use roya_api.Subscriptions.{Subscription, Usage}
use roya_api.Analyses.Service.{
  CreateAnalysisDto, NewIds, Charged, updated_reply, new_report, after_charges, charge_all,
  requested, start_analysis, create, reset_fields, dropped_fields, reset_report, restarted,
  regenerate,
}
use roya_api.Analyses.System.{Numbered, Good, Sound, analysis_ids, new_report_ids}
use roya_api.Analyses.System.Numbered.{queued_field, Good-Kept}
use roya_api.Analyses.System.Rewrite.{
  Home, Good-grow, mem-enqueued, mem-longer, jobs-enqueued, Sound-analyses,
}
use roya_api.Analyses.System.Steps.{with_job}

reset_report-Kept : (r : Report) → Kept r (reset_report r)
unfolding reset_report
reset_report-Kept r = record {
  same_id = refl;
  same_analysis = refl;
  same_report_type = refl;
  same_organization = refl;
}

reset_report-queued : (r : Report) → has_status ReportStatus.queued (reset_report r) ≡ true
unfolding reset_report
reset_report-queued r = queued_field (reset_report r) (
    get-unset_fields "status" dropped_fields (set_fields reset_fields r) refl
    ∙ get-assign "status" r.fields reset_fields (refl, (refl, (refl, (refl, (refl, (refl, tt)))))))

reset_report-Numbered : (r : Report) → Numbered 0 (tries_of (reset_report r))
unfolding reset_report
reset_report-Numbered r = tt

-- `regenerate` of an analysis.
restarted-Sound :
    (organization_id id : String) (analysis : Analysis) (s : Store)
    → Sound s
    → find (analysis_matches organization_id id) s.analyses ≡ some analysis
    → Sound (restarted organization_id analysis s)
unfolding restarted
restarted-Sound organization_id id analysis s sound found =
    Sound-analyses
      (record s {
        reports = update_many chosen reset_report s.reports;
        queue = with_job analysis.id organization_id s;
      })
      (λ a. a.id == analysis.id)
      (λ a. record a { status = AnalysisStatus.running; completed_at = none })
      (record {
        reports_distinct =
            subst Distinct
              (sym (
                map-update_many (λ r. r.id) chosen reset_report s.reports
                  (λ r. (reset_report-Kept r).same_id)))
              sound.reports_distinct;
        analyses_distinct = sound.analyses_distinct;
        good =
            All-update_many (Good s.analyses (with_job analysis.id organization_id s)) chosen
              reset_report s.reports (λ x hit good. reset_good x hit good)
              (mem-All (Good s.analyses (with_job analysis.id organization_id s)) s.reports (λ x m.
                Good-grow s.analyses s.analyses s.queue (with_job analysis.id organization_id s) x
                  (λ i o h. h) (λ j n. mem-longer j _ s.queue n)
                  (All-mem (Good s.analyses s.queue) x s.reports sound.good m)));
        jobs = jobs-enqueued s.analyses s.queue _ sound.jobs (analysis, there, refl, own);
      })
      (λ a. refl) (λ a. refl)
  where
    chosen : Report → Bool
    chosen r = r.analysis_id == analysis.id && (r.organization_id == organization_id)

    there : Memᴰ analysis s.analyses
    there = (find-mem (analysis_matches organization_id id) s.analyses analysis found).0

    own : analysis.organization_id ≡ organization_id
    own = (==_iff analysis.organization_id organization_id).0 (
        ground
          (arith, (find-mem (analysis_matches organization_id id) s.analyses analysis found).1))

    reset_good :
        (x : Report)
        → chosen x ≡ true
        → Good s.analyses (with_job analysis.id organization_id s) x
        → Good s.analyses (with_job analysis.id organization_id s) (reset_report x)
    reset_good x hit good =
        Good-Kept s.analyses (with_job analysis.id organization_id s) x (reset_report x)
          (reset_report-Kept x) good (reset_report-Numbered x)
          (inr (
            reset_report-queued x,
            (
              _,
              mem-enqueued _ s.queue,
              sym ((==_iff x.analysis_id analysis.id).0 (ground (arith, hit))),
            ),
          ))

pub regenerate-Sound :
    (organization_id id : String) (s : Store) → Sound s → Sound (regenerate organization_id id s).1
unfolding regenerate
regenerate-Sound organization_id id s sound =
    elim (Option-cases (find (analysis_matches organization_id id) s.analyses)) [
      | inl missing ↦ rw (missing, regenerate) sound
      | inr (analysis, found) ↦
          rw (found, regenerate)
            (elim (Bool-cases (analysis.status == AnalysisStatus.running)) [
              | inl running ↦ rw running sound
              | inr still ↦ rw still (
                  by_updated
                    (find (λ a. a.id == analysis.id)
                      (restarted organization_id analysis s).analyses)
                    (restarted organization_id analysis s)
                    (restarted-Sound organization_id id analysis s sound found))
            ])
    ]
  where
    by_updated :
        (updated : Option Analysis) (after : Store)
        → Sound after
        → Sound (updated_reply updated after).1
    by_updated none after h = h
    by_updated (some a) after h = h

module _ (subscriptions : List Subscription) (report_types : List ReportTypeDocument)
    (organization_id period user_id : String) (now : ℕ) (ids : NewIds) (dto : CreateAnalysisDto)
    (usages : List Usage) (s : Store) where
  abbrev rts : List ReportTypeDocument
  rts = requested subscriptions report_types organization_id period dto.report_type_ids

  abbrev new_store : Store
  new_store =
      start_analysis subscriptions report_types organization_id period now user_id ids dto rts s

  abbrev charged : Charged
  charged = record { store = s; usages = usages }

  -- A call that creates an analysis leaves the store as it was, or with the new documents.
  create-store :
      ((create subscriptions report_types organization_id period now user_id ids dto
          charged).1.store
        ≡ s)
      ⊎ ((create subscriptions report_types organization_id period now user_id ids dto
            charged).1.store
          ≡ new_store)
  unfolding create
  create-store = elim (Bool-cases (nat_beq (length rts) (length dto.report_type_ids))) [
    | inr mismatch ↦ rw (mismatch, create) (inl refl)
    | inl same ↦
        rw (same, create)
          (by_charges (charge_all subscriptions report_types organization_id period rts usages))
  ]
    where
      by_charges :
          (r : Reply {0} Unit × List Usage)
          → ((after_charges subscriptions report_types organization_id period r new_store s
                ids.analysis).1.store
              ≡ s)
            ⊎ ((after_charges subscriptions report_types organization_id period r new_store s
                  ids.analysis).1.store
                ≡ new_store)
      by_charges (done _, us) = inr refl
      by_charges (refused e, us) = inl refl

  abbrev new_reports : List ReportTypeDocument → List Report
  new_reports = map (λ rt. new_report now (ids.report rt.id) ids.analysis organization_id rt.id)

  report_ids-new :
      (reports : List Report) (types : List ReportTypeDocument)
      → map (λ r. r.id) (reports ++ new_reports types)
        ≡ map (λ r. r.id) reports ++ map (λ rt. ids.report rt.id) types
  unfolding new_report
  report_ids-new [] [] = refl
  report_ids-new [] (rt ∷ types) = ap (λ t. ids.report rt.id ∷ t) (report_ids-new [] types)
  report_ids-new (r ∷ reports) types = ap (λ t. r.id ∷ t) (report_ids-new reports types)

  abbrev new_analysis : Analysis
  new_analysis = record {
    id = ids.analysis;
    organization_id = organization_id;
    created_by = user_id;
    analysis_type_ids = dto.analysis_type_ids;
    title = dto.title;
    status = AnalysisStatus.draft;
    parameters = or_else dto.parameters [];
    completed_at = none;
  }

  abbrev grown_analyses : List Analysis
  grown_analyses = s.analyses ++ new_analysis ∷ []

  new_report-Good :
      (rt : ReportTypeDocument)
      → Good grown_analyses
          (with_job ids.analysis organization_id s)
          (new_report now (ids.report rt.id) ids.analysis organization_id rt.id)
  unfolding new_report
  new_report-Good rt = record {
    tries_numbered = tt;
    settled = inl refl;
    home =
        (new_analysis, (mem-append new_analysis s.analyses _).1 (inr (Memᴰ.head refl)), refl, refl);
    awaited = λ q. (_, mem-enqueued _ s.queue, refl);
  }

  new_reports-Good :
      (types : List ReportTypeDocument)
      → All (Good grown_analyses (with_job ids.analysis organization_id s)) (new_reports types)
  new_reports-Good [] = tt
  new_reports-Good (rt ∷ types) = (new_report-Good rt, new_reports-Good types)

  homes : (i o : String) → Home s.analyses i o → Home grown_analyses i o
  homes i o (a, m, e, q) = (a, (mem-append a s.analyses _).1 (inl m), e, q)

  analysis_ids-new :
      (analyses : List Analysis)
      → analysis_ids (analyses ++ new_analysis ∷ []) ≡ analysis_ids analyses ++ ids.analysis ∷ []
  analysis_ids-new [] = refl
  analysis_ids-new (a ∷ analyses) = ap (λ t. a.id ∷ t) (analysis_ids-new analyses)

  pub create-Sound :
      Sound s
      → Distinct (map (λ r. r.id) s.reports ++ new_report_ids report_types ids dto)
      → Distinct (analysis_ids s.analyses ++ ids.analysis ∷ [])
      → Sound
          (create subscriptions report_types organization_id period now user_id ids dto
            charged).1.store
  unfolding start_analysis
  create-Sound sound new_ids new_id = elim create-store [
    | inl same ↦ subst Sound (sym same) sound
    | inr new ↦ subst Sound (sym new) started-Sound
  ]
    where
      grown : Sound (record {
        analyses = grown_analyses;
        reports = s.reports ++ new_reports rts;
        queue = with_job ids.analysis organization_id s;
      })
      grown = record {
        reports_distinct = subst Distinct (sym (report_ids-new s.reports rts)) new_ids;
        analyses_distinct = subst Distinct (sym (analysis_ids-new s.analyses)) new_id;
        good =
            All-append (Good grown_analyses (with_job ids.analysis organization_id s)) s.reports
              (new_reports rts)
              (mem-All (Good grown_analyses (with_job ids.analysis organization_id s)) s.reports
                (λ x m.
                  Good-grow s.analyses grown_analyses s.queue
                    (with_job ids.analysis organization_id s) x homes
                    (λ j n. mem-longer j _ s.queue n)
                    (All-mem (Good s.analyses s.queue) x s.reports sound.good m)))
              (new_reports-Good rts);
        jobs =
            jobs-enqueued grown_analyses s.queue _
              (λ j m. homes j.analysis_id j.organization_id (sound.jobs j m))
              (
                new_analysis,
                (mem-append new_analysis s.analyses _).1 (inr (Memᴰ.head refl)),
                refl,
                refl,
              );
      }

      started-Sound : Sound new_store
      started-Sound =
          Sound-analyses _ (λ a. a.id == ids.analysis)
            (λ a. record a { status = AnalysisStatus.running }) grown (λ a. refl) (λ a. refl)
