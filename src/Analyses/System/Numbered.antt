-- ===== src/Analyses/System/Numbered.antt =====
-- A report between two jobs, under the calls that rewrite it.
use roya_api.Prelude.{
  String, ℕ, suc, ◌+◌, Bool, true, false, Option, none, some, List, [], ◌∷◌, ◌++◌, length, Memᴰ,
  ◌==◌, ==_iff, option_eq, ◌||◌, or_else, string_eq, ◌≡◌, refl, sym, subst, ap, ◌∙◌, ◌⊎◌, inl, inr,
  arith, Bool-cases,
}
use roya_api.Prelude.Dict.{get}
use roya_api.Value.{Value, Record, at, as_string}
use roya_api.Documents.{Report, ReportStatus, Analysis, Job, has_status}
use roya_api.Reports.Update.{number_of}
use roya_api.Reports.Update.Pointwise.{tries_of, Kept}
use roya_api.Analyses.Processor.{finished_report}
use roya_api.Analyses.System.{Numbered, Good}

pub Numbered-append :
    (n : ℕ) (ts : List Record) (entry : Record)
    → Numbered n ts
    → at "tryNumber" entry ≡ number_of (length ts + (n + 1))
    → Numbered n (ts ++ entry ∷ [])
Numbered-append n [] entry h e = (e ∙ ap number_of (omega arith), tt)
Numbered-append n (t ∷ ts) entry (h, hs) e =
    (h, Numbered-append (suc n) ts entry hs (e ∙ ap number_of (omega arith)))

-- A report that waits or is finished shows it in its field `status`.
pub queued_field :
    (r : Report)
    → get "status" r.fields ≡ some (Value.string "queued")
    → has_status ReportStatus.queued r ≡ true
queued_field r h = rw h refl

pub failed_field :
    (r : Report) → get "status" r.fields ≡ some (Value.string "failed") → finished_report r ≡ true
failed_field r h = rw h refl

pub completed_field :
    (r : Report)
    → get "status" r.fields ≡ some (Value.string "completed")
    → finished_report r ≡ true
completed_field r h = rw h refl

-- A finished report does not wait.
pub finished-queued :
    (r : Report) → finished_report r ≡ true → has_status ReportStatus.queued r ≡ false
finished-queued r h = by_text (as_string (at "status" r.fields)) h
  where
    by_text :
        (o : Option String)
        → (o == some "completed" || (o == some "failed")) ≡ true
        → (o == some "queued") ≡ false
    by_text none h = absurd (cc)
    by_text (some s) h = elim (Bool-cases (s == "queued")) [
      | inl waits ↦
          let other : false ≡ true =
            subst (λ t. (t == "completed" || (t == "failed")) ≡ true) ((==_iff s "queued").0 waits)
              h in
          absurd (cc other)
      | inr not_queued ↦ not_queued
    ]

-- A rewriting that keeps the ids keeps a report good, if the tries stay numbered and the new state is
-- that of a finished report, or of one that waits for a job.
module _ (analyses : List Analysis) (queue : List Job) where
  abbrev pub JobFor : Report → Type 0
  JobFor r = (j : Job) × Memᴰ j queue × (j.analysis_id ≡ r.analysis_id)

  pub Good-Kept :
      (x y : Report)
      → Kept x y
      → Good analyses queue x
      → Numbered 0 (tries_of y)
      → (finished_report y ≡ true) ⊎ ((has_status ReportStatus.queued y ≡ true) × JobFor y)
      → Good analyses queue y
  Good-Kept x y kept good ns state = record {
    tries_numbered = ns;
    settled = elim state [ inl h ↦ inr h | inr (h, _) ↦ inl h ];
    home =
        let (a, m, e, o) = good.home in
        (a, m, e ∙ sym kept.same_analysis, o ∙ sym kept.same_organization);
    awaited = λ q. elim state [
      | inl h ↦ absurd (ground (arith, finished-queued y h, q))
      | inr (_, waited) ↦ waited
    ];
  }

  -- A report stays good where its state is as before.
  pub Good-same_state :
      (x y : Report)
      → Kept x y
      → Good analyses queue x
      → Numbered 0 (tries_of y)
      → get "status" y.fields ≡ get "status" x.fields
      → Good analyses queue y
  Good-same_state x y kept good ns same = Good-Kept x y kept good ns (elim good.settled [
    | inr done ↦ inl (ap (λ o. shown_finished (as_string (or_else o Value.undefined))) same ∙ done)
    | inl waits ↦ inr (
      ap (λ o. as_string (or_else o Value.undefined) == some "queued") same ∙ waits,
      let (j, m, e) = good.awaited waits in (j, m, e ∙ sym kept.same_analysis),
    )
  ])
    where
      shown_finished : Option String → Bool
      shown_finished o = o == some "completed" || (o == some "failed")
