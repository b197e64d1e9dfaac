-- ===== src/Execution/Run/Published.antt =====
-- analyses/dynamic-flow-execution.service.ts, `runPublishedFlow`: the published version, its
-- snapshot, and the run. The version collection, the executors and `toLowerCase` are parameters; a
-- document's `_id` is held as the string that the code makes of it.
use roya_api.Prelude.{
  String, ℕ, Option, none, some, List, [], ◌∷◌, if◌then◌else◌, ◌==◌, string_eq, or_else,
}
use roya_api.Prelude.Dict.{put}
use roya_api.Prelude.Text.{template}
use roya_api.Prelude.Result.{Result, ok, threw, and_then}
use roya_api.Value.{Record, at, as_string}
use roya_api.Execution.{SnapshotNode, SnapshotConnection, Runtime}
use roya_api.Execution.PortMerge.{ByPort}
use roya_api.Execution.Upstream.{Documents}
use roya_api.Execution.Run.{run_flow}
use roya_api.Execution.Run.Report.{DynamicFlowExecutionResult, finish_run}

pub record PublishedFlowSnapshot : Type 0 where
  pub snapshot_version : Option ℕ
  pub nodes : Option (List SnapshotNode)
  pub connections : Option (List SnapshotConnection)
  pub node_definitions : Option (List Record)

pub record ReportTypeVersion : Type 0 where
  pub published_flow_snapshot : Option PublishedFlowSnapshot

pub record ReportType : Type 0 where
  pub slug : String
  pub current_published_version_id : Option String

pub index_documents : List Record → Documents → Documents
index_documents [] m = m
index_documents (doc ∷ docs) m =
    let id : String = or_else (as_string (at "_id" doc)) "" in
    index_documents docs (if id == "" then m else put id doc m)

module _ (find_by_id : String → Option ReportTypeVersion)
    (execute : SnapshotNode → List SnapshotConnection → Runtime → ByPort → Result Record)
    (lower_case : String → String) where
  pub run_snapshot : PublishedFlowSnapshot → Result DynamicFlowExecutionResult
  unfolding index_documents
  run_snapshot snap =
      let nodes : List SnapshotNode = or_else snap.nodes [] in
      and_then
        (run_flow execute (index_documents (or_else snap.node_definitions []) []) nodes
          (or_else snap.connections []))
        (λ s. ok (finish_run lower_case nodes (or_else snap.snapshot_version 1) s))

  pub run_version : String → String → Option ReportTypeVersion → Result DynamicFlowExecutionResult
  unfolding run_snapshot
  run_version slug id none = threw (
      some (
        template (
          "Report type \"" ∷ slug ∷ "\" points to a missing published version (" ∷ id ∷ ")." ∷ [])))
  run_version slug id (some version) = elim version.published_flow_snapshot [
    | none ↦ threw (
        some (
          template (
            "Report type \"" ∷ slug
            ∷ "\" published version has no dynamic flow snapshot. Republish the report type to build one."
            ∷ [])))
    | some snap ↦ run_snapshot snap
  ]

  unfoldable pub run_published_flow : ReportType → Result DynamicFlowExecutionResult
  unfolding run_version
  run_published_flow report_type = elim report_type.current_published_version_id [
    | none ↦ threw (
        some (
          template (
            "Report type \"" ∷ report_type.slug
            ∷ "\" has no published version. Publish a dynamic flow before running analyses." ∷ [])))
    | some id ↦ run_version report_type.slug id (find_by_id id)
  ]
