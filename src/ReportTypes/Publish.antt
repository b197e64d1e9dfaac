-- ===== src/ReportTypes/Publish.antt =====
-- report-types/report-types.service.ts, `publish` and `archive`.
pub mod Accepts
pub mod Runs
use roya_api.Prelude.{
  String, ℕ, Bool, true, Option, none, some, List, [], ◌∷◌, length, ltb, if◌then◌else◌, ◌==◌,
  string_eq,
}
use roya_api.Prelude.Reply.{Reply, done, refused, HttpException}
use roya_api.Documents.{ReportTypeDocument, PublicationStatus}
use roya_api.Documents.Updates.{update_one}
use roya_api.FlowGraph.{Issues, flow_issue, no_refs, LocalizedMessage}
use roya_api.Enums.{ValidationIssueSeverity}
use roya_api.FlowGraph.Definition.{AssetDoc}
use roya_api.FlowGraph.Validate.{FlowValidationResultPayload}
use roya_api.ReportTypes.Snapshot.{build_published_flow_snapshot}
use roya_api.ReportTypes.Validation.{BuilderCategory, load_node_definitions_for_flow}
use roya_api.ReportTypes.Lifecycle.{
  Version, Catalog, report_type_not_found, find_report_type, find_version, save_report_type,
  save_version, validated,
}

-- What `publish` answers: the report type, an exception, or the issues of an unprocessable flow.
pub data PublishReply : Type 0 where
  published : ReportTypeDocument → PublishReply
  rejected : HttpException → PublishReply
  unprocessable : Issues → PublishReply

module _ (assets : List AssetDoc) (categories : List BuilderCategory) (now : ℕ) where
  abbrev pub published_version : Version → Version
  published_version v = record v {
    status = PublicationStatus.published;
    published_flow_snapshot = some (
        build_published_flow_snapshot now v.default_language v.flow_nodes v.flow_connections
          (load_node_definitions_for_flow assets v.flow_nodes)
          (validated assets categories now v.flow_nodes v.flow_connections));
  }

  abbrev pub published_type : Version → ReportTypeDocument → ReportTypeDocument
  published_type v t = record t {
    status = PublicationStatus.published;
    current_published_version_id = some v.id;
    draft_version_id = none;
  }

  -- The draft with its issues.
  pub publish_checked : ReportTypeDocument → Version → Issues → Catalog → PublishReply × Catalog
  publish_checked t v [] s = (
    PublishReply.published (published_type v t),
    save_report_type (published_type v t) (save_version (published_version v) s),
  )
  publish_checked t v (i ∷ issues) s = (PublishReply.unprocessable (i ∷ issues), s)

  abbrev empty_flow : Issues
  empty_flow =
      flow_issue "empty_flow" "flowNodes" "Cannot publish an empty flow."
        ValidationIssueSeverity.error no_refs
      ∷ []

  pub publish_draft : ReportTypeDocument → Option Version → Catalog → PublishReply × Catalog
  unfolding publish_checked
  publish_draft t none s =
      (PublishReply.rejected (HttpException.not_found "Report type draft not found"), s)
  publish_draft t (some v) s =
      if ltb 0 (length v.flow_nodes)
      then publish_checked t v
          (validated assets categories now v.flow_nodes v.flow_connections).blocking_errors s
      else (PublishReply.unprocessable empty_flow, s)

  abbrev pub publish_type : Option ReportTypeDocument → Catalog → PublishReply × Catalog
  publish_type none s = (PublishReply.rejected report_type_not_found, s)
  publish_type (some t) s = elim t.draft_version_id [
    | none ↦ (
      PublishReply.rejected (
          HttpException.bad_request
            "No draft to publish. Save your work with Save Draft first, then try again."),
      s,
    )
    | some draft_id ↦ publish_draft t (find_version draft_id s) s
  ]

  unfoldable pub publish : String → Catalog → PublishReply × Catalog
  unfolding publish_draft
  publish id s = publish_type (find_report_type id s) s

abbrev archived_type : ReportTypeDocument → ReportTypeDocument
archived_type t = record t { status = PublicationStatus.archived }

abbrev archive_version : Option String → Catalog → Catalog
archive_version none s = s
archive_version (some version_id) s = record s {
  versions =
      update_one (λ v. v.id == version_id) (λ v. record v { status = PublicationStatus.archived })
        s.versions;
}

unfoldable pub archive : String → Catalog → Reply ReportTypeDocument × Catalog
archive id s = elim (find_report_type id s) [
  | none ↦ (refused report_type_not_found, s)
  | some t ↦ (
    done (archived_type t),
    archive_version t.current_published_version_id (save_report_type (archived_type t) s),
  )
]
