-- ===== src/ReportTypes/Legacy/Sources.antt =====
-- The ids of the data sources that a report type uses.
use roya_api.Prelude.{
  String, true, false, Option, none, some, List, [], ◌∷◌, length, ltb, includes, Memᴰ, map-Memᴰ,
  ◌==◌, string_eq, ◌≡◌, ◌↔◌, refl, sym, ◌∙◌, ap, subst, inl, inr, arith, Bool-cases,
}
use mathlib.Core.List.Memᴰ
use roya_api.Prelude.Distinct.{Distinct}
use roya_api.Execution.{SnapshotNode}
use roya_api.Documents.{ReportTypeDocument}
use roya_api.ReportTypes.Lifecycle.{Catalog}
use roya_api.ReportTypes.Legacy.{
  DataSource, AnalysisTypeRow, ReadReportType, Snapshot, is_source, provider_of, batch_slugs,
  slugs_in, id_by_provider, sources_of, source_id, data_source_ids, item_source_ids,
  published_snapshot, derived_item, attach_derived_legacy_fields,
}
use roya_api.ReportTypes.Legacy.Slugs.{provider_slugs-keeps, provider_slugs-own}
use roya_api.ReportTypes.Legacy.Ids.{
  UsedBy, data_source_ids-Distinct, data_source_ids-UsedBy, UsedBy-data_source_ids, get-sources_of,
}

provider_asked :
    (by : List (String × String)) (o : Option String) (i : String)
    → source_id by o ≡ some i
    → (a : String) × (o ≡ some a) × ((a == "") ≡ false)
provider_asked by none i e = absurd (ground (arith, e))
provider_asked by (some a) i e = elim (Bool-cases (a == "")) [
  | inr filled ↦ (a, refl, filled)
  | inl empty ↦ absurd (ground (arith, e, empty))
]

asked-some :
    (slugs : List String) (a : String) → includes slugs a ≡ true → ltb 0 (length slugs) ≡ true
asked-some [] a h = absurd (ground (arith, h))
asked-some (b ∷ slugs) a h = ground arith

module _ (slugs : List String) (sources : List DataSource) (snap : Snapshot)
    (asked : (n : SnapshotNode) (a : String)
      → Memᴰ n snap.nodes
      → is_source n ≡ true
      → provider_of snap.node_definitions n ≡ some a
      → (a == "") ≡ false
      → includes slugs a ≡ true) where
  source_id-asked :
      (o : Option String)
      → ((a : String) → o ≡ some a → (a == "") ≡ false → includes slugs a ≡ true)
      → source_id (id_by_provider (sources_of slugs sources) []) o
        ≡ source_id (id_by_provider sources []) o
  source_id-asked none h = refl
  source_id-asked (some a) h = elim (Bool-cases (a == "")) [
    | inl empty ↦ rw empty refl
    | inr filled ↦ rw filled (get-sources_of slugs a sources [] [] (h a refl filled) refl)
  ]

  source_id-node :
      (n : SnapshotNode)
      → Memᴰ n snap.nodes
      → is_source n ≡ true
      → source_id
          (id_by_provider (sources_of slugs sources) [])
          (provider_of snap.node_definitions n)
        ≡ source_id (id_by_provider sources []) (provider_of snap.node_definitions n)
  source_id-node n m source =
      source_id-asked (provider_of snap.node_definitions n)
        λ a e filled. asked n a m source e filled

  abbrev Uses : String → Type 0
  Uses = UsedBy (id_by_provider sources []) snap.node_definitions snap.nodes

  Uses-slugs : (i : String) → Uses i → ltb 0 (length slugs) ≡ true
  Uses-slugs i (n, m, source, e) =
      let (a, is, filled) =
        provider_asked (id_by_provider sources []) (provider_of snap.node_definitions n) i e in
      asked-some slugs a (asked n a m source is filled)

  abbrev found : List String
  found =
      data_source_ids (id_by_provider (sources_of slugs sources) []) snap.node_definitions
        snap.nodes []

  found-Uses : (i : String) → includes found i ≡ true → Uses i
  found-Uses i h =
      elim (data_source_ids-UsedBy (id_by_provider (sources_of slugs sources) [])
        snap.node_definitions snap.nodes [] i h) [
          | inl none_before ↦ absurd (ground (arith, none_before))
          | inr (n, m, source, e) ↦ (n, m, source, sym (source_id-node n m source) ∙ e)
        ]

  Uses-found : (i : String) → Uses i → includes found i ≡ true
  Uses-found i (n, m, source, e) =
      UsedBy-data_source_ids (id_by_provider (sources_of slugs sources) []) snap.node_definitions
        snap.nodes [] i (n, m, source, source_id-node n m source ∙ e)

  item_source_ids-Uses :
      Distinct (item_source_ids slugs sources (some snap))
      × ((i : String) → (includes (item_source_ids slugs sources (some snap)) i ≡ true) ↔ Uses i)
  unfolding item_source_ids
  item_source_ids-Uses = elim (Bool-cases (ltb 0 (length slugs))) [
    | inr no_slugs ↦ rw no_slugs (
      tt,
      λ i. (
        λ h. absurd (ground (arith, h)),
        λ used. absurd (ground (arith, no_slugs, Uses-slugs i used)),
      ),
    )
    | inl some_slugs ↦ rw some_slugs (
      data_source_ids-Distinct (id_by_provider (sources_of slugs sources) []) snap.node_definitions
          snap.nodes [] tt,
      λ i. (found-Uses i, Uses-found i),
    )
  ]

module _ (s : Catalog) where
  slugs_in-keeps :
      (o : Option Snapshot) (slugs : List String) (a : String)
      → includes slugs a ≡ true
      → includes (slugs_in o slugs) a ≡ true
  slugs_in-keeps none slugs a h = h
  slugs_in-keeps (some snap) slugs a h =
      provider_slugs-keeps snap.node_definitions snap.nodes slugs a h

  batch_slugs-keeps :
      (ts : List ReportTypeDocument) (slugs : List String) (a : String)
      → includes slugs a ≡ true
      → includes (batch_slugs s ts slugs) a ≡ true
  unfolding batch_slugs
  batch_slugs-keeps [] slugs a h = h
  batch_slugs-keeps (t ∷ ts) slugs a h =
      batch_slugs-keeps ts _ a (slugs_in-keeps (published_snapshot s t) slugs a h)

  batch_slugs-own :
      (ts : List ReportTypeDocument) (slugs : List String) (t : ReportTypeDocument)
      (snap : Snapshot) (n : SnapshotNode) (a : String)
      → Memᴰ t ts
      → published_snapshot s t ≡ some snap
      → Memᴰ n snap.nodes
      → is_source n ≡ true
      → provider_of snap.node_definitions n ≡ some a
      → (a == "") ≡ false
      → includes (batch_slugs s ts slugs) a ≡ true
  unfolding batch_slugs
  batch_slugs-own [] slugs t snap n a there e m source is filled = absurd (Memᴰ.not-nil there)
  batch_slugs-own (u ∷ ts) slugs t snap n a there e m source is filled =
      elim (Memᴰ.cases_cons there) [
        | inr later ↦ batch_slugs-own ts _ t snap n a later e m source is filled
        | inl same ↦ batch_slugs-keeps ts _ a (
            subst (λ o. includes (slugs_in o slugs) a ≡ true)
              (sym e ∙ ap (published_snapshot s) same)
              (provider_slugs-own snap.node_definitions snap.nodes slugs n a m source is filled))
      ]

  -- The data sources of an item that is read with others: without repetitions, they are the ids that
  -- the data sources, the last of each provider, give for the providers of the source nodes of its
  -- published snapshot.
  pub attach_derived_legacy_fields-UsedBy :
      (sources : List DataSource) (analysis_types : List AnalysisTypeRow)
      (items : List ReportTypeDocument) (r : ReadReportType) (snap : Snapshot)
      → Memᴰ r (attach_derived_legacy_fields sources analysis_types s items)
      → published_snapshot s r.item ≡ some snap
      → Distinct r.data_source_ids
        × ((i : String)
            → (includes r.data_source_ids i ≡ true)
              ↔ UsedBy (id_by_provider sources []) snap.node_definitions snap.nodes i)
  unfolding attach_derived_legacy_fields derived_item
  attach_derived_legacy_fields-UsedBy sources analysis_types items r snap m e =
      let slugs = batch_slugs s items [] in
      let (t, there, same) = map-Memᴰ (derived_item sources analysis_types s slugs) r items m in
      let at_item : published_snapshot s t ≡ some snap =
        ap (λ x. published_snapshot s x.item) (sym same) ∙ e in
      subst
        (λ x.
          Distinct x.data_source_ids
          × ((i : String)
              → (includes x.data_source_ids i ≡ true)
                ↔ UsedBy (id_by_provider sources []) snap.node_definitions snap.nodes i))
        (sym same)
        (subst
          (λ o.
            Distinct (item_source_ids slugs sources o)
            × ((i : String)
                → (includes (item_source_ids slugs sources o) i ≡ true)
                  ↔ UsedBy (id_by_provider sources []) snap.node_definitions snap.nodes i))
          (sym at_item)
          (item_source_ids-Uses slugs sources snap λ n a k source is filled.
            batch_slugs-own items [] t snap n a there at_item k source is filled))
