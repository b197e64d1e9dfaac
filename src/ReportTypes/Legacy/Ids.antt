-- ===== src/ReportTypes/Legacy/Ids.antt =====
-- Lemmas on the ids that `attachDerivedLegacyFields` looks up for the source nodes of a snapshot.
use roya_api.Prelude.{
  String, true, false, Option, none, some, List, [], ◌∷◌, includes, includes-append, Memᴰ,
  if◌then◌else◌, ◌==◌, ==_iff, string_eq, ◌≡◌, ◌↔◌, ◌⊎◌, refl, sym, ◌∙◌, ap, inl, inr, arith,
  Bool-cases,
}
use mathlib.Core.List.Memᴰ
use roya_api.Prelude.Dict.{get, put, get-put, get-put_other}
use roya_api.Prelude.Distinct.{Distinct, Distinct-append}
use roya_api.FlowGraph.Definition.{AssetDoc}
use roya_api.Execution.{SnapshotNode}
use roya_api.ReportTypes.Legacy.{
  DataSource, is_source, provider_of, id_by_provider, sources_of, source_id, push_id,
  data_source_ids,
}

-- A source node whose provider has the id.
abbrev pub UsedBy : List (String × String) → List AssetDoc → List SnapshotNode → String → Type 0
UsedBy by defs ns i =
    (n : SnapshotNode) × Memᴰ n ns
    × (is_source n ≡ true)
    × (source_id by (provider_of defs n) ≡ some i)

pushed :
    (o : Option String) (ids : List String) (i : String)
    → (includes (push_id o ids) i ≡ true) ↔ ((includes ids i ≡ true) ⊎ (o ≡ some i))
pushed none ids i = ground arith
pushed (some j) ids i =
    ground (arith, includes-append ids (j ∷ []) i, ==_iff j i, Bool-cases (includes ids j))

push_id-Distinct : (o : Option String) (ids : List String) → Distinct ids → Distinct (push_id o ids)
push_id-Distinct none ids d = d
push_id-Distinct (some j) ids d = elim (Bool-cases (includes ids j)) [
  | inl there ↦ rw there d
  | inr new ↦ rw new (Distinct-append ids j d new)
]

module _ (by : List (String × String)) (defs : List AssetDoc) where
  pub data_source_ids-Distinct :
      (ns : List SnapshotNode) (ids : List String)
      → Distinct ids
      → Distinct (data_source_ids by defs ns ids)
  unfolding data_source_ids
  data_source_ids-Distinct [] ids d = d
  data_source_ids-Distinct (n ∷ ns) ids d = elim (Bool-cases (is_source n)) [
    | inr other ↦ rw other (data_source_ids-Distinct ns ids d)
    | inl source ↦
        rw source (
          data_source_ids-Distinct ns _
            (push_id-Distinct (source_id by (provider_of defs n)) ids d))
  ]

  pub data_source_ids-UsedBy :
      (ns : List SnapshotNode) (ids : List String) (i : String)
      → includes (data_source_ids by defs ns ids) i ≡ true
      → (includes ids i ≡ true) ⊎ UsedBy by defs ns i
  unfolding data_source_ids
  data_source_ids-UsedBy [] ids i h = inl h
  data_source_ids-UsedBy (n ∷ ns) ids i h = elim (Bool-cases (is_source n)) [
    | inr other ↦ elim (data_source_ids-UsedBy ns ids i (rw other at h)) [
      | inl before ↦ inl before
      | inr (k, m, source_k, e) ↦ inr (k, Memᴰ.tail m, source_k, e)
    ]
    | inl source ↦ elim (data_source_ids-UsedBy ns _ i (rw source at h)) [
      | inr (k, m, source_k, e) ↦ inr (k, Memᴰ.tail m, source_k, e)
      | inl now ↦ elim ((pushed (source_id by (provider_of defs n)) ids i).0 now) [
        | inl before ↦ inl before
        | inr e ↦ inr (n, Memᴰ.head refl, source, e)
      ]
    ]
  ]

  data_source_ids-keeps :
      (ns : List SnapshotNode) (ids : List String) (i : String)
      → includes ids i ≡ true
      → includes (data_source_ids by defs ns ids) i ≡ true
  unfolding data_source_ids
  data_source_ids-keeps [] ids i h = h
  data_source_ids-keeps (n ∷ ns) ids i h = elim (Bool-cases (is_source n)) [
    | inr other ↦ rw other (data_source_ids-keeps ns ids i h)
    | inl source ↦ rw source (
        data_source_ids-keeps ns _ i ((pushed (source_id by (provider_of defs n)) ids i).1 (inl h)))
  ]

  pub UsedBy-data_source_ids :
      (ns : List SnapshotNode) (ids : List String) (i : String)
      → UsedBy by defs ns i
      → includes (data_source_ids by defs ns ids) i ≡ true
  unfolding data_source_ids
  UsedBy-data_source_ids [] ids i (k, m, source, e) = absurd (Memᴰ.not-nil m)
  UsedBy-data_source_ids (n ∷ ns) ids i (k, m, source, e) = elim (Memᴰ.cases_cons m) [
    | inr later ↦ UsedBy-data_source_ids ns _ i (k, later, source, e)
    | inl same ↦ rw (ap is_source (sym same) ∙ source) (
        data_source_ids-keeps ns _ i (
          (pushed (source_id by (provider_of defs n)) ids i).1
            (inr (ap (λ x. source_id by (provider_of defs x)) (sym same) ∙ e))))
  ]

not_asked :
    (slugs : List String) (q p : String)
    → includes slugs p ≡ true
    → includes slugs q ≡ false
    → (q == p) ≡ false
not_asked slugs q p h left_out = elim (Bool-cases (q == p)) [
  | inr other ↦ other
  | inl same ↦ absurd (ground (arith, h, left_out, ap (includes slugs) ((==_iff q p).0 same)))
]

-- The batch asks for the data sources of its providers only; for those it finds what all would give.
pub get-sources_of :
    (slugs : List String) (p : String) (sources : List DataSource) (m k : List (String × String))
    → includes slugs p ≡ true
    → get p m ≡ get p k
    → get p (id_by_provider (sources_of slugs sources) m) ≡ get p (id_by_provider sources k)
unfolding id_by_provider
get-sources_of slugs p [] m k h e = e
get-sources_of slugs p (d ∷ sources) m k h e = elim (Bool-cases (includes slugs d.provider)) [
  | inl asked ↦ rw asked (
      get-sources_of slugs p sources (put d.provider d.id m) (put d.provider d.id k) h (
        get-put d.provider p d.id m
        ∙ ap (λ o. if d.provider == p then some d.id else o) e
        ∙ sym (get-put d.provider p d.id k)))
  | inr left_out ↦ rw left_out (
      get-sources_of slugs p sources m (put d.provider d.id k) h
        (e ∙ sym (get-put_other d.provider p d.id k (not_asked slugs d.provider p h left_out))))
]
