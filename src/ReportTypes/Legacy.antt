-- ===== src/ReportTypes/Legacy.antt =====
-- report-types/report-types.service.ts: the fields that reads derive from the published snapshot,
-- `attachDerivedLegacyFields` less the schemas, which are in ReportTypes/Schemas.antt. The rows of data sources and of analysis types are
-- parameters; the versions that the code loads at once are looked up one by one.
pub mod Slugs
pub mod Ids
pub mod Sources
use roya_api.Prelude.{
  String, ℕ, Bool, true, Option, none, some, List, [], ◌∷◌, ◌++◌, map, filter, length, ltb,
  includes, add, if◌then◌else◌, or_else, or_option, find, ◌==◌, string_eq, option_eq,
}
use roya_api.Prelude.Dict.{get, put}
use roya_api.Prelude.Text.{trim}
use roya_api.Enums.{NodeCategory, category_eq}
use roya_api.Category.{resolve_category}
use roya_api.Value.{
  Value, Record, at, as_record, as_string, of_record, coalesce, truthy, is_nullish,
}
use roya_api.FlowGraph.Definition.{AssetDoc}
use roya_api.FlowGraph.Validate.{FlowValidationResultPayload}
use roya_api.Execution.{SnapshotNode}
use roya_api.Execution.Executors.{builder_data_source_slug_to_provider, before_colon}
use roya_api.Documents.{ReportTypeDocument}
use roya_api.ReportTypes.Snapshot.{PublishedSnapshot, raw_field, definition_in}
use roya_api.Prelude.Reply.{Reply, done, refused}
use roya_api.ReportTypes.Lifecycle.{
  Version, Catalog, report_type_not_found, find_report_type, find_version,
}
use roya_api.ReportTypes.Copies.{resolve_localized_text_body, resolve_report_type_name, or_text}
use roya_api.ReportTypes.Schemas.{LegacySchemas, snapshot_category, config_of, derive_schemas}

-- `new Map(defs.map(d => [String(d['_id']), d]))`
unfoldable pub definitions_by_id :
    List AssetDoc → List (String × AssetDoc) → List (String × AssetDoc)
definitions_by_id [] m = m
definitions_by_id (d ∷ ds) m = definitions_by_id ds (put d.id d m)

-- `node['providerKey'] ?? defById.get(String(node['definitionAssetId']))?.['nodeDefinition']?.['providerKey']`
unfoldable pub provider_key_of : List AssetDoc → SnapshotNode → Option String
unfolding definitions_by_id
provider_key_of defs n = or_option n.provider_key (
    raw_field (λ d. d.provider_key)
      (definition_in (get (or_else n.definition_asset_id "undefined") (definitions_by_id defs []))))

abbrev pub slug_of_key : Option String → Option String
slug_of_key none = none
slug_of_key (some key) = some (before_colon key)

abbrev pub legacy_provider : SnapshotNode → Option String
legacy_provider n =
    builder_data_source_slug_to_provider
      (or_else (as_string (at "dataSourceSlug" (config_of n))) "")

abbrev pub add_filled : Option String → List String → List String
add_filled none slugs = slugs
add_filled (some slug) slugs = if slug == "" then slugs else add slugs slug

abbrev pub is_source : SnapshotNode → Bool
is_source n = snapshot_category n == some NodeCategory.source

-- `providerSlugs`, after the nodes of one snapshot.
unfoldable pub provider_slugs : List AssetDoc → List SnapshotNode → List String → List String
unfolding provider_key_of
provider_slugs defs [] slugs = slugs
provider_slugs defs (n ∷ ns) slugs = provider_slugs defs ns (
    if is_source n
    then add_filled (legacy_provider n) (add_filled (slug_of_key (provider_key_of defs n)) slugs)
    else slugs)

pub record DataSource : Type 0 where
  pub id : String
  pub provider : String

-- `new Map(dsDocs.map(d => [d.provider, d._id]))`
unfoldable pub id_by_provider : List DataSource → List (String × String) → List (String × String)
id_by_provider [] m = m
id_by_provider (d ∷ ds) m = id_by_provider ds (put d.provider d.id m)

-- `providerKey?.split(':')[0] ?? BUILDER_DATA_SOURCE_SLUG_TO_PROVIDER[…]`
unfoldable pub provider_of : List AssetDoc → SnapshotNode → Option String
unfolding provider_key_of
provider_of defs n = or_option (slug_of_key (provider_key_of defs n)) (legacy_provider n)

abbrev pub source_id : List (String × String) → Option String → Option String
source_id by none = none
source_id by (some provider) = if provider == "" then none else get provider by

-- `if (id && !seen.has(String(id)))`
abbrev pub push_id : Option String → List String → List String
push_id none ids = ids
push_id (some id) ids = if includes ids id then ids else ids ++ id ∷ []

unfoldable pub data_source_ids :
    List (String × String) → List AssetDoc → List SnapshotNode → List String → List String
unfolding provider_of
data_source_ids by defs [] ids = ids
data_source_ids by defs (n ∷ ns) ids =
    data_source_ids by defs ns
      (if is_source n then push_id (source_id by (provider_of defs n)) ids else ids)

abbrev pub Snapshot : Type 0
Snapshot = PublishedSnapshot FlowValidationResultPayload

abbrev version_in : Catalog → Option String → Option Version
version_in s none = none
version_in s (some id) = find_version id s

abbrev snapshot_in : Option Version → Option Snapshot
snapshot_in none = none
snapshot_in (some v) = v.published_flow_snapshot

-- The published snapshot of a report type.
abbrev pub published_snapshot : Catalog → ReportTypeDocument → Option Snapshot
published_snapshot s t = snapshot_in (version_in s t.current_published_version_id)

abbrev slugs_in : Option Snapshot → List String → List String
slugs_in none slugs = slugs
slugs_in (some snap) slugs = provider_slugs snap.node_definitions snap.nodes slugs

-- `providerSlugs`, after all the items.
unfoldable pub batch_slugs : Catalog → List ReportTypeDocument → List String → List String
unfolding provider_slugs
batch_slugs s [] slugs = slugs
batch_slugs s (t ∷ ts) slugs = batch_slugs s ts (slugs_in (published_snapshot s t) slugs)

-- `dataSourceModel.find({ provider: { $in: [...providerSlugs] } })`
abbrev pub sources_of : List String → List DataSource → List DataSource
sources_of slugs = filter (λ d. includes slugs d.provider)

abbrev ids_in : List (String × String) → Option Snapshot → List String
ids_in by none = []
ids_in by (some snap) = data_source_ids by snap.node_definitions snap.nodes []

-- The ids of the data sources of an item, of a batch that uses `slugs`.
unfoldable pub item_source_ids : List String → List DataSource → Option Snapshot → List String
unfolding data_source_ids id_by_provider
item_source_ids slugs sources snap =
    if ltb 0 (length slugs) then ids_in (id_by_provider (sources_of slugs sources) []) snap else []

pub record AnalysisTypeRow : Type 0 where
  pub id : String
  pub report_types : List String

-- The first analysis type that refers to the report type.
pub analysis_type_of : String → List AnalysisTypeRow → Option String
analysis_type_of report_type [] = none
analysis_type_of report_type (a ∷ rows) =
    let rest = analysis_type_of report_type rows in
    if includes a.report_types report_type then some a.id else rest

abbrev schemas_in : String → Option Snapshot → LegacySchemas
schemas_in lang none = record { input_schema = []; output_schema = [] }
schemas_in lang (some snap) =
    derive_schemas lang snap.nodes (record { input_schema = []; output_schema = [] })

abbrev language_of : Option Version → String
language_of none = "en"
language_of (some v) = v.default_language

abbrev resolve_report_type_description : ReportTypeDocument → String
resolve_report_type_description t =
    or_text (trim (or_else t.description "")) (resolve_localized_text_body t.localized_description)

pub record ReadReportType : Type 0 where
  pub item : ReportTypeDocument
  pub name : String
  pub description : String
  pub input_schema : Record
  pub output_schema : Record
  pub data_source_ids : List String
  pub analysis_type_id : Option String

module _ (sources : List DataSource) (analysis_types : List AnalysisTypeRow) (s : Catalog) where
  unfoldable pub derived_item : List String → ReportTypeDocument → ReadReportType
  unfolding item_source_ids analysis_type_of derive_schemas
  derived_item slugs t =
      let version : Option Version = version_in s t.current_published_version_id in
      let schemas : LegacySchemas = schemas_in (language_of version) (published_snapshot s t) in
      record {
        item = t;
        name = resolve_report_type_name t;
        description = resolve_report_type_description t;
        input_schema = schemas.input_schema;
        output_schema = schemas.output_schema;
        data_source_ids = item_source_ids slugs sources (published_snapshot s t);
        analysis_type_id = analysis_type_of t.id analysis_types;
      }

  unfoldable pub attach_derived_legacy_fields : List ReportTypeDocument → List ReadReportType
  unfolding batch_slugs derived_item
  attach_derived_legacy_fields items = map (derived_item (batch_slugs s items [])) items

  -- `const [enriched] = await this.attachDerivedLegacyFields([item]); return enriched`
  abbrev enriched : Option ReportTypeDocument → Reply ReadReportType
  enriched none = refused report_type_not_found
  enriched (some t) = done (derived_item (batch_slugs s (t ∷ []) []) t)

  unfoldable pub find_by_id : String → Reply ReadReportType
  unfolding batch_slugs derived_item
  find_by_id id = enriched (find_report_type id s)

  unfoldable pub find_by_slug : String → Reply ReadReportType
  unfolding batch_slugs derived_item
  find_by_slug slug = enriched (find (λ t. t.slug == slug) s.report_types)
