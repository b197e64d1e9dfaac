-- ===== src/ReportTypes/Lifecycle.antt =====
-- report-types/report-types.service.ts: the calls that make, change, publish and retire report types.
-- The ids of new documents and the time are parameters of the call. What the answers add for the
-- portal (the palette, the derived legacy fields) is left out.
use roya_api.Prelude.{
  String, ℕ, suc, Option, none, some, List, [], ◌∷◌, ◌++◌, filter, find, length, or_option, ◌==◌,
  string_eq,
}
use roya_api.Prelude.Reply.{Reply, done, refused, HttpException}
use roya_api.Execution.{SnapshotConnection}
use roya_api.FlowGraph.Validate.{FlowValidationResultPayload}
use roya_api.FlowGraph.Definition.{AssetDoc}
use roya_api.Documents.{ReportTypeDocument, PublicationStatus}
use roya_api.Documents.Updates.{update_one}
use roya_api.ReportTypes.Snapshot.{FlowNodeRow, PublishedSnapshot}
use roya_api.ReportTypes.Validation.{
  BuilderCategory, validate_dynamic_report_flow, load_node_definitions_for_flow,
  normalize_flow_nodes_with_definitions,
}

pub record Version : Type 0 where
  pub id : String
  pub report_type_id : String
  pub version_number : ℕ
  pub status : PublicationStatus
  pub default_language : String
  pub flow_nodes : List FlowNodeRow
  pub flow_connections : List SnapshotConnection
  pub published_flow_snapshot : Option (PublishedSnapshot FlowValidationResultPayload)
  pub flow_validation_summary : Option FlowValidationResultPayload

pub record Catalog : Type 0 where
  pub report_types : List ReportTypeDocument
  pub versions : List Version

abbrev pub report_type_not_found : HttpException
report_type_not_found = HttpException.not_found "Report type not found"

abbrev pub find_report_type : String → Catalog → Option ReportTypeDocument
find_report_type id s = find (λ t. t.id == id) s.report_types

abbrev pub find_version : String → Catalog → Option Version
find_version id s = find (λ v. v.id == id) s.versions

abbrev pub save_report_type : ReportTypeDocument → Catalog → Catalog
save_report_type t s = record s {
  report_types = update_one (λ x. x.id == t.id) (λ x. t) s.report_types;
}

abbrev pub save_version : Version → Catalog → Catalog
save_version v s = record s { versions = update_one (λ x. x.id == v.id) (λ x. v) s.versions }

-- A draft as `versionModel.create` makes it.
abbrev pub new_draft :
    String → String → ℕ → String → List FlowNodeRow → List SnapshotConnection → Version
new_draft id report_type_id number default_language rows connections = record {
  id = id;
  report_type_id = report_type_id;
  version_number = number;
  status = PublicationStatus.draft;
  default_language = default_language;
  flow_nodes = rows;
  flow_connections = connections;
  published_flow_snapshot = none;
  flow_validation_summary = none;
}

pub record ReportFlowDraftInput : Type 0 where
  pub flow_nodes : List FlowNodeRow
  pub flow_connections : List SnapshotConnection

module _ (assets : List AssetDoc) (categories : List BuilderCategory) (now : ℕ) where
  abbrev pub validated : List FlowNodeRow → List SnapshotConnection → FlowValidationResultPayload
  validated rows connections =
      validate_dynamic_report_flow categories now rows connections
        (load_node_definitions_for_flow assets rows)

  abbrev pub normalized : List FlowNodeRow → List FlowNodeRow
  normalized rows =
      normalize_flow_nodes_with_definitions rows (load_node_definitions_for_flow assets rows)

  -- `{ ...published, _id: undefined, … }`; the spread of a version that is missing is empty.
  pub draft_of_published :
      String → ReportTypeDocument → ReportFlowDraftInput → ℕ → Option Version → Version
  draft_of_published new_id t dto latest none =
      new_draft new_id t.id (suc latest) "en" dto.flow_nodes dto.flow_connections
  draft_of_published new_id t dto latest (some published) = record published {
    id = new_id;
    report_type_id = t.id;
    version_number = suc latest;
    status = PublicationStatus.draft;
    flow_nodes = dto.flow_nodes;
    flow_connections = dto.flow_connections;
  }

  abbrev pub add_version : Version → Catalog → Catalog
  add_version v s = record s { versions = s.versions ++ v ∷ [] }

  abbrev pub with_draft : String → ReportTypeDocument → ReportTypeDocument
  with_draft id t = record t { draft_version_id = some id }

  -- The flow that is written on a draft.
  pub write_flow : ReportFlowDraftInput → Version → Version
  write_flow dto v =
      let rows : List FlowNodeRow = normalized dto.flow_nodes in
      record v {
        flow_nodes = rows;
        flow_connections = dto.flow_connections;
        flow_validation_summary = some (
            validate_dynamic_report_flow categories now rows dto.flow_connections
              (load_node_definitions_for_flow assets dto.flow_nodes));
      }

  abbrev versions_of : ReportTypeDocument → Catalog → ℕ
  versions_of t s = length (filter (λ v. v.report_type_id == t.id) s.versions)

  -- The draft is there, is copied from the published version, or is new.
  pub save_flow :
      String
      → ReportFlowDraftInput
      → ReportTypeDocument
      → Option String
      → Option String
      → Catalog
      → Catalog
  unfolding write_flow draft_of_published
  save_flow new_id dto t (some draft_id) published s = record s {
    versions = update_one (λ v. v.id == draft_id) (write_flow dto) s.versions;
  }
  save_flow new_id dto t none (some published_id) s =
      let draft : Version =
        draft_of_published new_id t dto (versions_of t s) (find_version published_id s) in
      let saved : Catalog = save_report_type (with_draft new_id t) (add_version draft s) in
      record saved { versions = update_one (λ v. v.id == new_id) (write_flow dto) saved.versions }
  save_flow new_id dto t none none s =
      save_report_type (with_draft new_id t)
        (add_version (write_flow dto (new_draft new_id t.id 1 "en" [] [])) s)

  unfoldable pub save_report_flow :
      String → String → ReportFlowDraftInput → Catalog → Reply {0} Unit × Catalog
  unfolding save_flow
  save_report_flow new_id report_type_id dto s = elim (find_report_type report_type_id s) [
    | none ↦ (refused report_type_not_found, s)
    | some t ↦ (done tt, save_flow new_id dto t t.draft_version_id t.current_published_version_id s)
  ]

  unfoldable pub validate_report_flow :
      String → Option ReportFlowDraftInput → Catalog → Reply FlowValidationResultPayload
  validate_report_flow report_type_id dto s = elim (find_report_type report_type_id s) [
    | none ↦ refused report_type_not_found
    | some t ↦ elim (or_option t.draft_version_id t.current_published_version_id) [
      | none ↦ refused (HttpException.not_found "Report type version not found")
      | some version_id ↦ elim (find_version version_id s) [
        | none ↦ refused (HttpException.not_found "Report type version not found")
        | some v ↦ elim dto [
          | none ↦ done (
              validate_dynamic_report_flow categories now (normalized v.flow_nodes)
                v.flow_connections (load_node_definitions_for_flow assets v.flow_nodes))
          | some d ↦ done (
              validate_dynamic_report_flow categories now (normalized d.flow_nodes)
                d.flow_connections (load_node_definitions_for_flow assets d.flow_nodes))
        ]
      ]
    ]
  ]
