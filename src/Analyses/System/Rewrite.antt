-- ===== src/Analyses/System/Rewrite.antt =====
-- A sound store stays sound where one report is rewritten, where analyses change their states, and
-- where the queue grows.
use roya_api.Prelude.{
  String, Bool, List, [], ◌∷◌, ◌++◌, All-mem, mem-All, mem-append, Memᴰ, ◌==◌, string_eq, ◌≡◌, refl,
  sym, subst, ap, ◌∙◌, inl, inr,
}
use mathlib.Core.List.Memᴰ
use roya_api.Prelude.Distinct.{Distinct}
use roya_api.Documents.{Report, Analysis, Job, Store}
use roya_api.Documents.Updates.{update_one}
use roya_api.Documents.Identity.{mem-update_one, ids-update_one, map-update_one, mem-update}
use roya_api.Reports.Update.Pointwise.{Kept}
use roya_api.Analyses.System.{Good, Sound}

-- The analysis of an id and an organization.
abbrev pub Home : List Analysis → String → String → Type 0
Home analyses id organization_id =
    (a : Analysis) × Memᴰ a analyses × (a.id ≡ id) × (a.organization_id ≡ organization_id)

abbrev pub HasHome : List Analysis → Job → Type 0
HasHome analyses j = Home analyses j.analysis_id j.organization_id

pub Good-grow :
    (analyses analyses' : List Analysis) (queue queue' : List Job) (r : Report)
    → ((i o : String) → Home analyses i o → Home analyses' i o)
    → ((j : Job) → Memᴰ j queue → Memᴰ j queue')
    → Good analyses queue r
    → Good analyses' queue' r
Good-grow analyses analyses' queue queue' r homes longer good = record {
  tries_numbered = good.tries_numbered;
  settled = good.settled;
  home = homes r.analysis_id r.organization_id good.home;
  awaited = λ q. let (j, m, e) = good.awaited q in (j, longer j m, e);
}

pub Home-update_one :
    (p : Analysis → Bool) (f : Analysis → Analysis) (analyses : List Analysis)
    → ((a : Analysis) → (f a).id ≡ a.id)
    → ((a : Analysis) → (f a).organization_id ≡ a.organization_id)
    → (i o : String) → Home analyses i o
    → Home (update_one p f analyses) i o
Home-update_one p f analyses same_id same_organization i o (a, m, e, q) =
    let (b, n, cases) = mem-update p f analyses a m in
    elim cases [
      | inl same ↦ (b, n, ap (λ x. x.id) same ∙ e, ap (λ x. x.organization_id) same ∙ q)
      | inr same ↦ (
        b,
        n,
        ap (λ x. x.id) same ∙ same_id a ∙ e,
        ap (λ x. x.organization_id) same ∙ same_organization a ∙ q,
      )
    ]

pub mem-enqueued : (j : Job) (queue : List Job) → Memᴰ j (queue ++ j ∷ [])
mem-enqueued j queue = (mem-append j queue (j ∷ [])).1 (inr (Memᴰ.head refl))

pub mem-longer : (k j : Job) (queue : List Job) → Memᴰ k queue → Memᴰ k (queue ++ j ∷ [])
mem-longer k j queue m = (mem-append k queue (j ∷ [])).1 (inl m)

pub jobs-enqueued :
    (analyses : List Analysis) (queue : List Job) (j : Job)
    → ((k : Job) → Memᴰ k queue → HasHome analyses k)
    → HasHome analyses j
    → (k : Job) → Memᴰ k (queue ++ j ∷ [])
    → HasHome analyses k
jobs-enqueued analyses queue j old new k m = elim ((mem-append k queue (j ∷ [])).0 m) [
  | inl before ↦ old k before
  | inr last ↦ elim (Memᴰ.cases_cons last) [
    | inl e ↦ subst (HasHome analyses) (sym e) new
    | inr none_left ↦ absurd (Memᴰ.not-nil none_left)
  ]
]

-- One report is rewritten, and the queue may grow.
pub Sound-rewrite :
    (s : Store) (i : String) (f : Report → Report) (queue : List Job)
    → Sound s
    → ((x : Report) → Kept x (f x))
    → ((j : Job) → Memᴰ j s.queue → Memᴰ j queue)
    → ((j : Job) → Memᴰ j queue → HasHome s.analyses j)
    → ((x : Report) → Memᴰ x s.reports → x.id ≡ i → Good s.analyses queue (f x))
    → Sound (record s { reports = update_one (λ r. r.id == i) f s.reports; queue = queue })
Sound-rewrite s i f queue sound kept longer homes good = record {
  reports_distinct =
      subst Distinct (sym (ids-update_one (λ r. r.id) i f s.reports (λ x. (kept x).same_id)))
        sound.reports_distinct;
  analyses_distinct = sound.analyses_distinct;
  good = mem-All (Good s.analyses queue) _ each;
  jobs = homes;
}
  where
    each : (y : Report) → Memᴰ y (update_one (λ r. r.id == i) f s.reports) → Good s.analyses queue y
    each y m = elim (mem-update_one (λ r. r.id) i f s.reports y sound.reports_distinct m) [
      | inl (x, n, hit, e) ↦ subst (Good s.analyses queue) (sym e) (good x n hit)
      | inr (n, other) ↦
          Good-grow s.analyses s.analyses s.queue queue y (λ i o h. h) longer
            (All-mem (Good s.analyses s.queue) y s.reports sound.good n)
    ]

-- Analyses change their states.
pub Sound-analyses :
    (s : Store) (p : Analysis → Bool) (f : Analysis → Analysis)
    → Sound s
    → ((a : Analysis) → (f a).id ≡ a.id)
    → ((a : Analysis) → (f a).organization_id ≡ a.organization_id)
    → Sound (record s { analyses = update_one p f s.analyses })
Sound-analyses s p f sound same_id same_organization = record {
  reports_distinct = sound.reports_distinct;
  analyses_distinct =
      subst Distinct (sym (map-update_one (λ a. a.id) p f s.analyses same_id))
        sound.analyses_distinct;
  good = mem-All (Good (update_one p f s.analyses) s.queue) s.reports (λ r m.
      Good-grow s.analyses (update_one p f s.analyses) s.queue s.queue r homes (λ j n. n)
        (All-mem (Good s.analyses s.queue) r s.reports sound.good m));
  jobs = λ j m. homes j.analysis_id j.organization_id (sound.jobs j m);
}
  where
    homes : (i o : String) → Home s.analyses i o → Home (update_one p f s.analyses) i o
    homes = Home-update_one p f s.analyses same_id same_organization
