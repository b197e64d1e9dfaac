-- ===== src/ReportTypes/Publish/Accepts.antt =====
-- Which drafts are published, and what is left in the catalog.
use roya_api.Prelude.{
  String, ℕ, true, none, some, List, [], ◌∷◌, map, filter, find, length, ltb, Memᴰ, List-cases,
  ◌==◌, string_eq, ==_iff, ◌≡◌, refl, sym, subst, ap, ◌∙◌, inl, inr, arith, Bool-cases,
}
use mathlib.Core.List.Memᴰ
use roya_api.Execution.{plain, snapshot_ids}
use roya_api.Documents.{ReportTypeDocument, PublicationStatus}
use roya_api.Documents.Updates.{update_one}
use roya_api.Documents.Identity.{find-mem, find-saved}
use roya_api.FlowGraph.{FlowNodePlain, Issues, Definitions}
use roya_api.FlowGraph.Definition.{AssetDoc}
use roya_api.FlowGraph.Accepted.Flow.{IsAccepted, validate_dynamic_flow_graph_iff}
use roya_api.FlowGraph.Validate.{FlowValidationResultPayload}
use roya_api.ReportTypes.Snapshot.{
  FlowNodeRow, PublishedSnapshot, enrich_node, compute_terminal_paths,
  build_published_flow_snapshot,
}
use roya_api.ReportTypes.Validation.{
  BuilderCategory, build_definition_map, category_policy, is_node_definition, checked_nodes,
  validate_dynamic_report_flow, load_node_definitions_for_flow,
}
use roya_api.ReportTypes.Lifecycle.{
  Version, Catalog, find_report_type, find_version, save_report_type, save_version, validated,
}
use roya_api.ReportTypes.Publish.{
  PublishReply, published_version, published_type, publish_checked, publish_draft, publish_type,
  publish,
}

listed-nonempty :
    (rows : List FlowNodeRow) (n : FlowNodePlain)
    → Memᴰ n (checked_nodes rows)
    → ltb 0 (length rows) ≡ true
listed-nonempty [] n m = absurd (Memᴰ.not-nil m)
listed-nonempty (r ∷ rows) n m = ground arith

enriched_stored-ids :
    (defs : List (String × AssetDoc)) (rows : List FlowNodeRow)
    → snapshot_ids (map (λ r. enrich_node defs r.stored) rows) ≡ map (λ r. r.stored.node_id) rows
unfolding enrich_node
enriched_stored-ids defs [] = refl
enriched_stored-ids defs (r ∷ rows) =
    ap (λ is. r.stored.node_id ∷ is) (enriched_stored-ids defs rows)

module _ (assets : List AssetDoc) (categories : List BuilderCategory) (now : ℕ) where
  abbrev definitions_for : Version → Definitions
  definitions_for v =
      build_definition_map
        (filter is_node_definition (load_node_definitions_for_flow assets v.flow_nodes)) []

  -- The flow of a version is one that the validation accepts.
  abbrev pub AcceptedFlow : Version → Type 0
  AcceptedFlow v =
      IsAccepted (definitions_for v) (some (category_policy categories []))
        (checked_nodes v.flow_nodes) (map plain v.flow_connections)

  -- A snapshot of the flow of a version, that was valid at `now`.
  abbrev pub IsSnapshot : Version → PublishedSnapshot FlowValidationResultPayload → Type 0
  IsSnapshot v snap =
      (snap.published_at ≡ now)
      × (snapshot_ids snap.nodes ≡ map (λ r. r.stored.node_id) v.flow_nodes)
      × (snap.connections ≡ v.flow_connections)
      × (snap.terminal_paths
          ≡ compute_terminal_paths (checked_nodes v.flow_nodes) (map plain v.flow_connections))
      × (snap.validation_summary.blocking_errors ≡ [])

  abbrev issues_of : Version → Issues
  issues_of v = (validated assets categories now v.flow_nodes v.flow_connections).blocking_errors

  pub issues_of-AcceptedFlow : (v : Version) → issues_of v ≡ [] → AcceptedFlow v
  unfolding validate_dynamic_report_flow
  issues_of-AcceptedFlow v =
      (validate_dynamic_flow_graph_iff (definitions_for v) (some (category_policy categories []))
        now (checked_nodes v.flow_nodes) (map plain v.flow_connections)).0

  AcceptedFlow-issues_of : (v : Version) → AcceptedFlow v → issues_of v ≡ []
  unfolding validate_dynamic_report_flow
  AcceptedFlow-issues_of v =
      (validate_dynamic_flow_graph_iff (definitions_for v) (some (category_policy categories []))
        now (checked_nodes v.flow_nodes) (map plain v.flow_connections)).1

  module _ (id draft_id : String) (t : ReportTypeDocument) (v : Version) (s : Catalog) where
    publish-draft :
        find_report_type id s ≡ some t
        → t.draft_version_id ≡ some draft_id
        → find_version draft_id s ≡ some v
        → publish assets categories now id s ≡ publish_draft assets categories now t (some v) s
    unfolding publish
    publish-draft e f g =
        ap (λ o. publish_type assets categories now o s) e
        ∙ rw f (ap (λ o. publish_draft assets categories now t o s) g)

    publish_draft-accepted :
        AcceptedFlow v
        → publish_draft assets categories now t (some v) s ≡ (
          PublishReply.published (published_type assets categories now v t),
          save_report_type
              (published_type assets categories now v t)
              (save_version (published_version assets categories now v) s),
        )
    unfolding publish_draft publish_checked
    publish_draft-accepted accepted = rw nonempty (
        ap (λ is. publish_checked assets categories now t v is s)
          (AcceptedFlow-issues_of v accepted))
      where
        nonempty : ltb 0 (length v.flow_nodes) ≡ true
        nonempty = listed-nonempty v.flow_nodes accepted.terminal accepted.terminal_listed

    publish_draft-refused :
        (AcceptedFlow v → ⊥)
        → (issues : Issues) × (publish_draft assets categories now t (some v) s
            ≡ (PublishReply.unprocessable issues, s))
    unfolding publish_draft publish_checked
    publish_draft-refused not_accepted = elim (Bool-cases (ltb 0 (length v.flow_nodes))) [
      | inr empty ↦ rw empty (_, refl)
      | inl nonempty ↦ rw nonempty (elim (List-cases (issues_of v)) [
        | inl none_found ↦ absurd (not_accepted (issues_of-AcceptedFlow v none_found))
        | inr (i, issues, found) ↦
            (i ∷ issues, ap (λ is. publish_checked assets categories now t v is s) found)
      ])
    ]

    -- For a report type with a draft: if the flow of the draft is one that the validation accepts,
    -- `publish` answers the report type with the status published, the draft as its published
    -- version and no draft, and the catalog then has it so; the draft is there with the status
    -- published and the snapshot of its flow, which has the validation without errors, the nodes
    -- and the connections. Nothing else of the two is changed. If the flow is not accepted,
    -- `publish` answers issues and leaves the catalog as it was.
    pub publish-AcceptedFlow :
        find_report_type id s ≡ some t
        → t.draft_version_id ≡ some draft_id
        → find_version draft_id s ≡ some v
        → let (reply, after) = publish assets categories now id s in
          let live : ReportTypeDocument = record t {
            status = PublicationStatus.published;
            current_published_version_id = some draft_id;
            draft_version_id = none;
          } in
          (AcceptedFlow v
            → (reply ≡ PublishReply.published live)
              × (find_report_type id after ≡ some live)
              × (snap : PublishedSnapshot FlowValidationResultPayload) × (find_version draft_id
                    after
                  ≡ some (record v {
                    status = PublicationStatus.published;
                    published_flow_snapshot = some snap;
                  }))
              × IsSnapshot v snap)
          × ((AcceptedFlow v → ⊥)
              → (issues : Issues) × (reply ≡ PublishReply.unprocessable issues) × (after ≡ s))
    unfolding build_published_flow_snapshot
    publish-AcceptedFlow e f g = rw (publish-draft e f g) (
      λ accepted. rw (publish_draft-accepted accepted) (
        ap (λ i. PublishReply.published (live i)) own_version,
        subst
              (λ i.
                find (λ x. x.id == i)
                  (update_one (λ x. x.id == t.id) (λ x. live v.id) s.report_types)
                ≡ some (live v.id))
              own_type
              (find-saved (λ x. x.id) t.id s.report_types t (live v.id)
                (subst (λ i. find (λ x. x.id == i) s.report_types ≡ some t) (sym own_type) e) refl)
            ∙ ap (λ i. some (live i)) own_version,
        _,
        subst
            (λ i.
              find (λ x. x.id == i)
                (update_one (λ x. x.id == v.id) (λ x. published_version assets categories now v)
                  s.versions)
              ≡ some (published_version assets categories now v))
            own_version
            (find-saved (λ x. x.id) v.id s.versions v (published_version assets categories now v)
              (subst (λ i. find (λ x. x.id == i) s.versions ≡ some v) (sym own_version) g) refl),
        (refl, enriched_stored-ids _ v.flow_nodes, refl, refl, AcceptedFlow-issues_of v accepted),
      ),
      λ not_accepted.
          let (issues, out) = publish_draft-refused not_accepted in
          (issues, ap (λ r. r.0) out, ap (λ r. r.1) out),
    )
      where
        live : String → ReportTypeDocument
        live i = record t {
          status = PublicationStatus.published;
          current_published_version_id = some i;
          draft_version_id = none;
        }

        own_type : t.id ≡ id
        own_type = (==_iff t.id id).0 (find-mem (λ x. x.id == id) s.report_types t e).1

        own_version : v.id ≡ draft_id
        own_version = (==_iff v.id draft_id).0 (find-mem (λ x. x.id == draft_id) s.versions v g).1
