-- ===== src/Analyses/System/Steps.antt =====
-- The calls that rewrite reports and analyses keep a sound store sound.
use roya_api.Prelude.{
  String, ℕ, ◌+◌, Bool, true, false, ◌&&◌, Option, some, List, [], ◌∷◌, ◌++◌, find, length, ltb,
  if◌then◌else◌, All-mem, Memᴰ, ◌==◌, ==_iff, string_eq, or_else, ◌≡◌, refl, sym, ap, ◌∙◌, inl, inr,
  arith, Option-cases,
}
use roya_api.Prelude.Dict.{get, get-put_self}
use roya_api.Value.{Value, Record, at, as_record, of_record}
use roya_api.Documents.{
  Report, ReportStatus, report_status_value, Analysis, AnalysisStatus, Job, Store, has_status,
  report_matches, analysis_matches, analysis_status_eq,
}
use roya_api.Documents.Updates.{
  update_one, set_fields, unset_fields, push_try, get-assign, get-unset_fields, tries_length,
}
use roya_api.Prelude.Distinct.{Distinct}
use roya_api.Prelude.Dict.{keys}
use roya_api.Documents.Identity.{Distinct-unique, find-mem, mem-find}
use roya_api.Reports.Payload.{truncate_mongo_flow_probe_until_fits, truncate_deep_strings}
use roya_api.Reports.Payload.Levels.{truncate_mongo_flow_probe_until_fits_limit, get-truncated}
use roya_api.Reports.Update.{number_of, numbered, legacy_fields, append_execution_try}
use roya_api.Reports.Update.Pointwise.{tries_of, Kept}
use roya_api.Reports.Actions.{
  requeued, regenerate, FailedPart, partial_output, preserve_partial_output,
}
use roya_api.Analyses.Processor.{finished_report}
use roya_api.Analyses.Service.{soft_delete}
use roya_api.Analyses.System.{Good, Sound}
use roya_api.Analyses.System.Numbered.{
  queued_field, failed_field, completed_field, Good-Kept, Good-same_state, Numbered-append,
}
use roya_api.Analyses.System.Rewrite.{
  mem-enqueued, mem-longer, jobs-enqueued, Good-grow, Sound-rewrite, Sound-analyses,
}

-- The job that is added when a report or its analysis is run again.
abbrev pub with_job : String → String → Store → List Job
with_job analysis_id organization_id s =
    s.queue ++ record { analysis_id = analysis_id; organization_id = organization_id } ∷ []

member-Good : (s : Store) (x : Report) → Sound s → Memᴰ x s.reports → Good s.analyses s.queue x
member-Good s x sound m = All-mem (Good s.analyses s.queue) x s.reports sound.good m

Kept-set : (set : Record) (x : Report) → Kept x (set_fields set x)
Kept-set set x = record {
  same_id = refl;
  same_analysis = refl;
  same_report_type = refl;
  same_organization = refl;
}

regenerated_report :
    (organization_id id : String) (s : Store) (report : Report)
    → Sound s
    → Memᴰ report s.reports
    → report_matches organization_id id report ≡ true
    → Sound (record s {
      reports = update_one (λ r. r.id == id) (set_fields requeued) s.reports;
      queue = with_job report.analysis_id organization_id s;
    })
regenerated_report organization_id id s report sound m matches =
    Sound-rewrite s id (set_fields requeued) (with_job report.analysis_id organization_id s) sound
      (Kept-set requeued) (λ j n. mem-longer j _ s.queue n)
      (jobs-enqueued s.analyses s.queue _ sound.jobs
        (let (a, n, e, o) = (member-Good s report sound m).home in (a, n, e, o ∙ own)))
      (λ x n e.
        let same : report ≡ x =
          Distinct-unique (λ r. r.id) s.reports report x sound.reports_distinct m n
            ((==_iff report.id id).0 (ground (arith, matches)) ∙ sym e) in
        let good : Good s.analyses (with_job report.analysis_id organization_id s) x = grown x n in
        Good-Kept s.analyses (with_job report.analysis_id organization_id s) x
          (set_fields requeued x) (Kept-set requeued x) good good.tries_numbered
          (inr (
            queued_field (set_fields requeued x)
                (get-assign "status" x.fields requeued (refl, (refl, tt))),
            (_, mem-enqueued _ s.queue, ap (λ r. r.analysis_id) same),
          )))
  where
    own : report.organization_id ≡ organization_id
    own = (==_iff report.organization_id organization_id).0 (ground (arith, matches))

    grown :
        (x : Report)
        → Memᴰ x s.reports
        → Good s.analyses (with_job report.analysis_id organization_id s) x
    grown x n =
        Good-grow s.analyses s.analyses s.queue (with_job report.analysis_id organization_id s) x
          (λ i o h. h) (λ j k. mem-longer j _ s.queue k) (member-Good s x sound n)

pub regenerate-Sound :
    (organization_id id : String) (s : Store) → Sound s → Sound (regenerate organization_id id s).1
unfolding regenerate
regenerate-Sound organization_id id s sound = elim (Option-cases (find failed_one s.reports)) [
  | inl missing ↦ rw (missing, regenerate) sound
  | inr (report, found) ↦
      let (m, matches) = find-mem failed_one s.reports report found in
      rw (found, regenerate)
        (regenerated_report organization_id id s report sound m (ground (arith, matches)))
]
  where
    failed_one : Report → Bool
    failed_one r = report_matches organization_id id r && has_status ReportStatus.failed r

soft_delete-analyses :
    (organization_id id : String) (analyses : List Analysis)
    → (soft_delete organization_id id analyses).1
      ≡ update_one
          (analysis_matches organization_id id)
          (λ a. record a { status = AnalysisStatus.failed })
          analyses
unfolding soft_delete
soft_delete-analyses organization_id id analyses =
    elim (Option-cases (
      find (analysis_matches organization_id id) (
        update_one (analysis_matches organization_id id)
          (λ a. record a { status = AnalysisStatus.failed }) analyses))) [
            | inl missing ↦ rw (missing, soft_delete) refl
            | inr (a, found) ↦ rw (found, soft_delete) refl
          ]

pub soft_delete-Sound :
    (organization_id id : String) (s : Store)
    → Sound s
    → Sound (record s { analyses = (soft_delete organization_id id s.analyses).1 })
soft_delete-Sound organization_id id s sound =
    rw (soft_delete-analyses organization_id id s.analyses) (
      Sound-analyses s (analysis_matches organization_id id)
        (λ a. record a { status = AnalysisStatus.failed }) sound (λ a. refl) (λ a. refl))

-- What `preservePartialOutput` makes of a report.
abbrev with_output : Value → Record → List FailedPart → Report → Report
with_output now output parts r =
    unset_fields legacy_fields (set_fields (partial_output now output parts) r)

partial_output-Distinct :
    (now : Value) (output : Record) (parts : List FailedPart)
    → Distinct (keys (partial_output now output parts))
unfolding partial_output
partial_output-Distinct now output [] = (refl, (refl, (refl, (refl, tt))))
partial_output-Distinct now output (part ∷ parts) = (refl, (refl, (refl, (refl, (refl, tt)))))

with_output-finished :
    (now : Value) (output : Record) (parts : List FailedPart) (r : Report)
    → finished_report (with_output now output parts r) ≡ true
unfolding partial_output
with_output-finished now output parts r = by_failure (ltb 0 (length parts)) written
  where
    shown : ReportStatus → Option Value
    shown s = some (Value.string (report_status_value s))

    by_failure :
        (b : Bool)
        → get "status" (with_output now output parts r).fields
          ≡ shown (if b then ReportStatus.failed else ReportStatus.completed)
        → finished_report (with_output now output parts r) ≡ true
    by_failure true h = failed_field (with_output now output parts r) h
    by_failure false h = completed_field (with_output now output parts r) h

    written :
        get "status" (with_output now output parts r).fields
        ≡ shown (if ltb 0 (length parts) then ReportStatus.failed else ReportStatus.completed)
    written =
        get-unset_fields "status" legacy_fields (set_fields (partial_output now output parts) r)
          refl
        ∙ get-assign "status" r.fields (partial_output now output parts)
            (partial_output-Distinct now output parts)

preserve_partial_output-reports :
    (now : Value) (id : String) (output : Record) (parts : List FailedPart) (reports : List Report)
    → (preserve_partial_output now id output parts reports).1
      ≡ update_one (λ r. r.id == id) (with_output now output parts) reports
unfolding preserve_partial_output
preserve_partial_output-reports now id output parts reports =
    elim (Option-cases (
      find (λ r. r.id == id)
        (update_one (λ r. r.id == id) (with_output now output parts) reports))) [
          | inl missing ↦ rw (missing, preserve_partial_output) refl
          | inr (r, found) ↦ rw (found, preserve_partial_output) refl
        ]

pub preserve_partial_output-Sound :
    (now : Value) (id : String) (output : Record) (parts : List FailedPart) (s : Store)
    → Sound s
    → Sound (record s { reports = (preserve_partial_output now id output parts s.reports).1 })
preserve_partial_output-Sound now id output parts s sound =
    rw (preserve_partial_output-reports now id output parts s.reports) (
      Sound-rewrite s id (with_output now output parts) s.queue sound kept (λ j m. m) sound.jobs
        (λ x m e.
          Good-Kept s.analyses s.queue x (with_output now output parts x) (kept x)
            (member-Good s x sound m) (member-Good s x sound m).tries_numbered
            (inl (with_output-finished now output parts x))))
  where
    kept : (x : Report) → Kept x (with_output now output parts x)
    kept x = record {
      same_id = refl;
      same_analysis = refl;
      same_report_type = refl;
      same_organization = refl;
    }

module _ (size : Record → Option ℕ) where
  abbrev sanitized : ℕ → Record → Record
  sanitized n entry =
      truncate_mongo_flow_probe_until_fits size
        (("__executionTry", of_record (numbered n entry)) ∷ [])

  -- `sanitized['__executionTry']`
  abbrev try_in : Option Value → Record
  try_in o = or_else (as_record (or_else o Value.undefined)) []

  abbrev full_try : ℕ → Record → Record
  full_try n entry = try_in (get "__executionTry" (sanitized n entry))

  full_try-number : (n : ℕ) (entry : Record) → at "tryNumber" (full_try n entry) ≡ number_of n
  unfolding truncate_deep_strings
  full_try-number n entry =
      let probe : Record = ("__executionTry", of_record (numbered n entry)) ∷ [] in
      let (m, large, cut) = truncate_mongo_flow_probe_until_fits_limit size probe in
      ap (λ f. at "tryNumber" (try_in (get "__executionTry" f))) cut
      ∙ ap (λ o. at "tryNumber" (try_in o))
          (get-truncated "__executionTry" (of_record (numbered n entry)) probe m refl)
      ∙ cut_number m
    where
      cut_number :
          (m : ℕ)
          → at "tryNumber" (try_in (some (truncate_deep_strings m (of_record (numbered n entry)))))
            ≡ number_of n
      cut_number m =
          ap (λ o. or_else o Value.undefined)
            (get-truncated "tryNumber" (number_of n) (numbered n entry) m
              (get-put_self "tryNumber" (number_of n) entry))

  pub append_execution_try-Sound :
      (id : String) (entry : Record) (s : Store)
      → Sound s
      → Sound (record s { reports = append_execution_try size id entry s.reports })
  unfolding append_execution_try
  append_execution_try-Sound id entry s sound =
      Sound-rewrite s id (push_try (full_try (count + 1) entry)) s.queue sound kept (λ j m. m)
        sound.jobs
        (λ x m e.
          let good = member-Good s x sound m in
          Good-same_state s.analyses s.queue x (push_try (full_try (count + 1) entry) x) (kept x)
            good
            (Numbered-append 0 (tries_of x) (full_try (count + 1) entry) good.tries_numbered
              (full_try-number (count + 1) entry ∙ ap number_of (counted x m e)))
            refl)
    where
      count : ℕ
      count = tries_length (find (λ r. r.id == id) s.reports)

      counted :
          (x : Report) → Memᴰ x s.reports → x.id ≡ id → count + 1 ≡ length (tries_of x) + (0 + 1)
      counted x m e =
          let (y, found) = mem-find (λ r. r.id == id) s.reports x m ((==_iff x.id id).1 e) in
          let (n, hit) = find-mem (λ r. r.id == id) s.reports y found in
          let same : y ≡ x =
            Distinct-unique (λ r. r.id) s.reports y x sound.reports_distinct n m
              ((==_iff y.id id).0 hit ∙ sym e) in
          ap (λ k. k + 1) (ap tries_length found ∙ ap (λ r. length (tries_of r)) same) ∙ omega arith

      kept : (x : Report) → Kept x (push_try (full_try (count + 1) entry) x)
      kept x = record {
        same_id = refl;
        same_analysis = refl;
        same_report_type = refl;
        same_organization = refl;
      }
