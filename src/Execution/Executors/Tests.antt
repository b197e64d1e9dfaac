-- ===== src/Execution/Executors/Tests.antt =====
-- A source node, and the theorems about dynamic-flow-node-executors.service.ts at it.
use roya_api.Prelude.{none, some, List, [], ◌∷◌, ◌≡◌, refl, string_eq}
use roya_api.Prelude.Dict.{get}
use roya_api.Prelude.Result.{Result, ok}
use roya_api.Value.{Value, Record, of_record}
use roya_api.Execution.{SnapshotNode, SnapshotConnection, Runtime}
use roya_api.Execution.PortMerge.{ByPort}
use roya_api.Category.{resolve_category}
use roya_api.Execution.Executors.{executor_for, choose_executor, port_outputs}
use roya_api.Execution.Executors.Ports.{port_outputs-get}
use roya_api.Execution.Executors.Registry.{execute_node}

abbrev keyed_source : SnapshotNode
keyed_source = record {
  node_id = "s";
  node_kind = "dataSource";
  definition_asset_id = none;
  category = none;
  builder_category_key = none;
  node_type_key = none;
  provider_key = some "WebScraper:v1";
  label = none;
  name = none;
  required = none;
  config = none;
  mapper_rules = none;
  terminal_config = none;
}

-- Services: a connector that answers with one field, a model
-- that answers `null`, and no mapper.
abbrev with_executors : SnapshotNode → List SnapshotConnection → Runtime → ByPort → Result Record
with_executors =
    execute_node
      (λ slug declared config definition required. ok (("title", Value.string slug) ∷ []))
      (λ request. ok Value.null) (λ fields rules. fields) []
      (record { slug = "r"; name = none; default_language = none; localized = [] }) none []

source_outputs_test :
    with_executors keyed_source [] [] []
    ≡ ok (
        ("payload", of_record (("title", Value.string "web-scraper") ∷ []))
        ∷ ("title", Value.string "web-scraper")
        ∷ [])
unfolding execute_node executor_for choose_executor port_outputs resolve_category
source_outputs_test = refl

abbrev bucket : Record
bucket = ("payload", Value.null) ∷ ("title", Value.string "Roya") ∷ []

port_outputs-get_example : get "payload" (port_outputs bucket) ≡ some (of_record bucket)
port_outputs-get_example = port_outputs-get bucket "payload" (refl, (refl, tt))
