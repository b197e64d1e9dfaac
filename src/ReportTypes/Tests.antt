-- ===== src/ReportTypes/Tests.antt =====
-- A report type with a small draft: it is published, and copied.
use roya_api.Prelude.{
  String, ℕ, true, false, none, some, List, [], ◌∷◌, ◌≡◌, refl, Memᴰ, Option, includes, map,
  string_eq, ◌↔◌, add_all,
}
use roya_api.Prelude.Distinct.{Distinct}
use roya_api.Prelude.Reply.{refused, HttpException}
use roya_api.Value.{Value, Record}
use roya_api.Enums.{NodeCategory, BuilderValueType, BuilderAssetStatus}
use roya_api.FlowGraph.{ConnectionPointContract, FlowNodePlain, Issues}
use roya_api.FlowGraph.Definition.{AssetDoc}
use roya_api.FlowGraph.Reached.Correct.{Reach}
use roya_api.Prelude.Dict.{get}
use roya_api.Prelude.Result.{Result, ok, threw}
use roya_api.Execution.{
  SnapshotNode, SnapshotConnection, NodeStatus, NodeRuntime, Runtime, is_completed, plain,
}
use roya_api.Execution.PortMerge.{ByPort}
use roya_api.Execution.Run.{RunState, run_flow}
use roya_api.ReportTypes.Publish.Runs.{run_published, published_version-completed}
use roya_api.Documents.{ReportTypeDocument, PublicationStatus}
use roya_api.ReportTypes.Snapshot.{
  SnapshotTerminalPath, PublishedSnapshot, FlowNodeRow, node_category,
  build_published_flow_snapshot, compute_terminal_paths,
}
use roya_api.ReportTypes.Snapshot.Targets.{known}
use roya_api.ReportTypes.Snapshot.Paths.{PathTo, entries}
use roya_api.ReportTypes.Snapshot.Terminals.{compute_terminal_paths-LeadsToOne}
use roya_api.ReportTypes.Validation.{checked_nodes, load_node_definitions_for_flow}
use roya_api.ReportTypes.Lifecycle.{
  Version, Catalog, find_report_type, find_version, new_draft, validated, report_type_not_found,
}
use roya_api.FlowGraph.Validate.{FlowValidationResultPayload}
use roya_api.ReportTypes.Publish.{PublishReply, published_version, publish}
use roya_api.ReportTypes.Publish.Accepts.{AcceptedFlow, IsSnapshot, publish-AcceptedFlow}
use roya_api.ReportTypes.Copies.{rename}
use roya_api.ReportTypes.Legacy.{
  DataSource, ReadReportType, Snapshot, derived_item, batch_slugs, id_by_provider,
  attach_derived_legacy_fields, find_by_slug,
}
use roya_api.ReportTypes.Legacy.Ids.{UsedBy}
use roya_api.ReportTypes.Legacy.Sources.{attach_derived_legacy_fields-UsedBy}

abbrev port : String → String → ℕ → ConnectionPointContract
port key direction least = record {
  key = key;
  direction = some direction;
  value_type = BuilderValueType.object;
  required = false;
  min_connections = least;
  max_connections = some 1;
  compatible_node_kinds = none;
  compatible_node_type_keys = none;
  compatible_value_types = [];
}

abbrev asset :
    String
    → String
    → NodeCategory
    → Option (List ConnectionPointContract)
    → Option (List ConnectionPointContract)
    → AssetDoc
asset id kind category inputs outputs = record {
  id = id;
  slug = none;
  asset_type = "nodeDefinition";
  status = BuilderAssetStatus.active;
  node_definition = some (record {
    node_kind = kind;
    category = some category;
    builder_category_key = none;
    node_type_key = none;
    provider_key = none;
    inputs = inputs;
    outputs = outputs;
    allowed_source_kinds = none;
    allowed_source_node_type_keys = none;
    allowed_target_kinds = none;
    allowed_target_node_type_keys = none;
    execution_role = "source";
  });
}

abbrev assets : List AssetDoc
assets =
    asset "d1" "dataSource" NodeCategory.source none (some (port "payload" "output" 0 ∷ []))
    ∷ asset "d2" "terminal" NodeCategory.terminal (some (port "in" "input" 1 ∷ [])) none
    ∷ []

abbrev row : String → String → String → Option String → FlowNodeRow
row id definition_id kind provider = record {
  checked = record {
    node_id = id;
    definition_asset_id = definition_id;
    node_kind = kind;
    category = none;
    builder_category_key = none;
    node_type_key = none;
    required = true;
    definition_slug = none;
    mapper_rules = none;
    terminal_config = none;
  };
  stored = record {
    node_id = id;
    node_kind = kind;
    definition_asset_id = some definition_id;
    category = none;
    builder_category_key = none;
    node_type_key = none;
    provider_key = provider;
    label = none;
    name = none;
    required = none;
    config = none;
    mapper_rules = none;
    terminal_config = none;
  };
}

abbrev rows : List FlowNodeRow
rows = row "a" "d1" "dataSource" (some "Semrush:keywords") ∷ row "t" "d2" "terminal" none ∷ []

abbrev wires : List SnapshotConnection
wires =
    record {
      connection_id = "c";
      source = record { node_id = "a"; port_key = "payload" };
      target = record { node_id = "t"; port_key = "in" };
      required = none;
    }
    ∷ []

abbrev seo : ReportTypeDocument
seo = record {
  id = "rt1";
  slug = "seo";
  name = none;
  localized_name = Value.undefined;
  description = none;
  localized_description = Value.undefined;
  scope = Value.string "global";
  organization_id = none;
  details = [];
  status = PublicationStatus.draft;
  current_published_version_id = none;
  draft_version_id = some "v1";
}

abbrev live : ReportTypeDocument
live = record seo {
  status = PublicationStatus.published;
  current_published_version_id = some "v1";
  draft_version_id = none;
}

abbrev old_copy : ReportTypeDocument
old_copy = record seo { id = "rt2"; slug = "seo-copy"; draft_version_id = none }

abbrev draft : Version
draft = new_draft "v1" "rt1" 1 "en" rows wires

abbrev catalog : Catalog
catalog = record { report_types = seo ∷ old_copy ∷ []; versions = draft ∷ [] }

compute_terminal_paths_test :
    map (λ p. p.node_ids) (compute_terminal_paths (checked_nodes rows) (map plain wires))
    ≡ ("a" ∷ "t" ∷ []) ∷ []
unfolding compute_terminal_paths roya_api.Category.resolve_category
compute_terminal_paths_test = refl

rename_blank_test :
    rename "rt9" "  " none catalog
    ≡ (refused (HttpException.bad_request "Name cannot be empty"), catalog)
unfolding rename roya_api.Prelude.Text.trim
rename_blank_test = refl

compute_terminal_paths-LeadsToOne_example :
    ((p : SnapshotTerminalPath)
      → Memᴰ p (compute_terminal_paths (checked_nodes rows) (map plain wires))
      → (t : FlowNodePlain) × Memᴰ t (checked_nodes rows)
        × (node_category t ≡ some NodeCategory.terminal)
        × (p.terminal_node_id ≡ t.node_id)
        × PathTo
            (known (checked_nodes rows) (map plain wires))
            (entries (checked_nodes rows) (map plain wires))
            t.node_id
            p.node_ids)
    × ((t : FlowNodePlain)
        → Memᴰ t (checked_nodes rows)
        → node_category t ≡ some NodeCategory.terminal
        → Reach
            (known (checked_nodes rows) (map plain wires))
            (entries (checked_nodes rows) (map plain wires))
            t.node_id
        → (p : SnapshotTerminalPath) × Memᴰ p
            (compute_terminal_paths (checked_nodes rows) (map plain wires))
          × (p.terminal_node_id ≡ t.node_id))
compute_terminal_paths-LeadsToOne_example =
    compute_terminal_paths-LeadsToOne (checked_nodes rows) (map plain wires)

publish-AcceptedFlow_example :
    let (reply, after) = publish assets [] 7 "rt1" catalog in
    (AcceptedFlow assets [] 7 draft
      → (reply ≡ PublishReply.published live)
        × (find_report_type "rt1" after ≡ some live)
        × (snap : PublishedSnapshot FlowValidationResultPayload) × (find_version "v1" after
            ≡ some (record draft {
              status = PublicationStatus.published;
              published_flow_snapshot = some snap;
            }))
        × IsSnapshot assets [] 7 draft snap)
    × ((AcceptedFlow assets [] 7 draft → ⊥)
        → (issues : Issues) × (reply ≡ PublishReply.unprocessable issues) × (after ≡ catalog))
publish-AcceptedFlow_example =
    publish-AcceptedFlow assets [] 7 "rt1" "v1" seo draft catalog refl refl refl

abbrev published_draft : Version
published_draft = published_version assets [] 7 draft

abbrev live_catalog : Catalog
live_catalog = record { report_types = live ∷ []; versions = published_draft ∷ [] }

abbrev data_sources : List DataSource
data_sources = record { id = "s1"; provider = "Semrush" } ∷ []

abbrev read_live : ReadReportType
read_live = derived_item data_sources [] live_catalog (batch_slugs live_catalog (live ∷ []) []) live

abbrev live_snapshot : Snapshot
live_snapshot =
    build_published_flow_snapshot 7 "en" rows wires (load_node_definitions_for_flow assets rows)
      (validated assets [] 7 rows wires)

data_source_ids_test : read_live.data_source_ids ≡ "s1" ∷ []
unfolding derived_item batch_slugs build_published_flow_snapshot roya_api.Category.resolve_category
    load_node_definitions_for_flow add_all roya_api.Execution.Executors.before_colon
data_source_ids_test = refl

attach_derived_legacy_fields-UsedBy_example :
    Distinct read_live.data_source_ids
    × ((i : String)
        → (includes read_live.data_source_ids i ≡ true)
          ↔ UsedBy
              (id_by_provider data_sources [])
              live_snapshot.node_definitions
              live_snapshot.nodes
              i)
unfolding attach_derived_legacy_fields derived_item
attach_derived_legacy_fields-UsedBy_example =
    attach_derived_legacy_fields-UsedBy live_catalog data_sources [] (live ∷ []) read_live
      live_snapshot (Memᴰ.head refl) refl

find_by_slug_test : find_by_slug [] [] catalog "audit" ≡ refused report_type_not_found
unfolding find_by_slug
find_by_slug_test = refl

draft_validates : (validated assets [] 7 rows wires).blocking_errors ≡ []
unfolding roya_api.ReportTypes.Validation.validate_dynamic_report_flow
    roya_api.FlowGraph.Validate.validate_dynamic_flow_graph
    roya_api.FlowGraph.Validate.blocking_errors roya_api.FlowGraph.Nodes.duplicate_nodes
    roya_api.Prelude.add roya_api.FlowGraph.Nodes.check_nodes roya_api.FlowGraph.Nodes.check_node
    roya_api.ReportTypes.Validation.build_definition_map load_node_definitions_for_flow add_all
    roya_api.FlowGraph.Definition.node_definition_from_asset roya_api.Category.resolve_category
    roya_api.FlowGraph.Nodes.check_definition roya_api.FlowGraph.Definition.normalize_wire_node_kind
    roya_api.FlowGraph.Wires.duplicate_connections roya_api.FlowGraph.Wires.check_connections
    roya_api.Category.is_category_pair_allowed roya_api.FlowGraph.Cardinality.check_cardinality
    roya_api.FlowGraph.Cardinality.check_inputs roya_api.FlowGraph.Cardinality.check_port
    roya_api.FlowGraph.Cardinality.count_inputs roya_api.FlowGraph.Cardinality.port_id
    roya_api.FlowGraph.Compatible.categories_compatible
    roya_api.FlowGraph.Compatible.kinds_compatible roya_api.FlowGraph.Compatible.point_by_key
    roya_api.FlowGraph.Compatible.terminal_sources_compatible
    roya_api.FlowGraph.Compatible.value_types_compatible roya_api.FlowGraph.Cycle.has_cycle
    roya_api.FlowGraph.Definition.has_mapper_slot_ports
    roya_api.FlowGraph.Definition.is_likely_input_port
    roya_api.FlowGraph.Definition.is_merger_multi_wire_catalog_asset
    roya_api.FlowGraph.Definition.merger_slug_from_flow_node
    roya_api.FlowGraph.MapperRules.check_mappers roya_api.FlowGraph.MapperRules.check_rules
    roya_api.FlowGraph.MapperRules.first_segment roya_api.FlowGraph.MapperRules.upstream_keys
    roya_api.FlowGraph.Nodes.index_nodes roya_api.FlowGraph.Reached.push_targets
    roya_api.FlowGraph.Reached.reached_from roya_api.FlowGraph.Reached.visit
    roya_api.FlowGraph.Validate.count_reached roya_api.FlowGraph.Validate.reached_ids
    roya_api.FlowGraph.Validate.roots roya_api.FlowGraph.Validate.terminal_errors
    roya_api.FlowGraph.Validate.unreachable_warnings roya_api.FlowGraph.Wires.check_definitions
    roya_api.FlowGraph.Wires.check_ends roya_api.FlowGraph.Wires.check_points
    roya_api.FlowGraph.Wires.check_ports roya_api.ReportTypes.Validation.category_policy
    roya_api.Prelude.Text.template
draft_validates = refl

-- Every node answers with one field.
abbrev execute : SnapshotNode → List SnapshotConnection → Runtime → ByPort → Result Record
execute n incoming runtime by_port = ok (("payload", Value.string n.node_id) ∷ [])

abbrev state_of : Result RunState → RunState
state_of (ok s) = s
state_of (threw e) = record {
  runtime = [];
  flow_warnings = [];
  required_failures = [];
  node_tries = [];
}

abbrev ended : RunState
ended = state_of (run_published (run_flow execute []) published_draft)

run_published_test : run_published (run_flow execute []) published_draft ≡ ok ended
unfolding run_flow roya_api.Execution.Order.topological_order build_published_flow_snapshot
    roya_api.Prelude.add roya_api.Execution.Upstream.resolve_inputs_for_node_trace
    roya_api.Category.resolve_category load_node_definitions_for_flow add_all
    roya_api.Execution.Run.snapshot_node_display_label
run_published_test = refl

abbrev only_wire : SnapshotConnection
only_wire = record {
  connection_id = "c";
  source = record { node_id = "a"; port_key = "payload" };
  target = record { node_id = "t"; port_key = "in" };
  required = none;
}

abbrev sink_entry : NodeRuntime
sink_entry = record {
  status = NodeStatus.completed;
  outputs = ("payload", Value.string "t") ∷ [];
  error_code = none;
  error_message = none;
}

found_at_end : get "t" ended.runtime ≡ some sink_entry
unfolding run_flow roya_api.Execution.Order.topological_order build_published_flow_snapshot
    roya_api.Prelude.add roya_api.Execution.Upstream.resolve_inputs_for_node_trace
    roya_api.Category.resolve_category load_node_definitions_for_flow add_all
    roya_api.Execution.Upstream.check_upstream roya_api.Execution.Upstream.index_incoming
    roya_api.Execution.Run.snapshot_node_display_label
found_at_end = refl

published_version-completed_example :
    (up : NodeRuntime) × (get "a" ended.runtime ≡ some up) × (is_completed up.status ≡ true)
published_version-completed_example =
    published_version-completed assets [] 7 draft execute [] ended draft_validates
      (refl, (refl, tt)) run_published_test only_wire (Memᴰ.head refl) refl sink_entry found_at_end
      refl
