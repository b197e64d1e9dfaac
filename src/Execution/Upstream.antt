-- ===== src/Execution/Upstream.antt =====
-- analyses/dynamic-flow-execution.service.ts: the connections into each node, the check of the
-- nodes before it, the flavor of a transform node and the inputs that its trace records.
pub mod Blocked
use roya_api.Prelude.{
  String, Bool, true, false, not, ◌&&◌, ◌||◌, Option, none, some, List, [], ◌∷◌, ◌++◌,
  if◌then◌else◌, ◌==◌, string_eq, option_eq, or_else,
}
use roya_api.Prelude.Dict.{get, put}
use roya_api.Prelude.Text.{template, trim}
use roya_api.Prelude.Result.{Result, ok}
use roya_api.Enums.{NodeCategory, nd_merger_definition_slug, category_eq}
use roya_api.Category.{resolve_category}
use roya_api.Value.{Record, at, as_record, as_string, of_list}
use roya_api.Execution.{SnapshotNode, SnapshotConnection, NodeRuntime, Runtime, is_completed}
use roya_api.Execution.PortMerge.{
  merge_incoming_generic, merge_mapper_keyed_inputs, collect_incoming_by_port,
  collect_merger_inbound_array,
}

-- `incomingByNode`
abbrev pub Incoming : Type 0
Incoming = List (String × List SnapshotConnection)

unfoldable pub index_incoming : List SnapshotConnection → Incoming → Incoming
index_incoming [] m = m
index_incoming (c ∷ cs) m =
    index_incoming cs (put c.target.node_id (or_else (get c.target.node_id m) [] ++ c ∷ []) m)

-- `!== false`
abbrev pub required_unless_false : Option Bool → Bool
required_unless_false none = true
required_unless_false (some b) = b

abbrev pub incomplete : Option NodeRuntime → Bool
incomplete none = false
incomplete (some upstream) = not (is_completed upstream.status)

-- A required connection from a node that ran and did not complete.
abbrev pub blocks : SnapshotConnection → Runtime → Bool
blocks c runtime = incomplete (get c.source.node_id runtime) && required_unless_false c.required

pub data Propagated : Type 0 where
  run : Propagated
  fail : String → String → Propagated
  skip : String → String → Propagated

unfoldable pub check_upstream : SnapshotNode → List SnapshotConnection → Runtime → Bool → Propagated
check_upstream n [] runtime node_required = Propagated.run
check_upstream n (c ∷ cs) runtime node_required =
    let rest = check_upstream n cs runtime node_required in
    if not (blocks c runtime)
    then rest
    else if node_required
    then Propagated.fail "upstream_required_failure" (
        template (
          "Required upstream node \"" ∷ c.source.node_id ∷ "\" failed; cannot run node \""
          ∷ n.node_id ∷ "\"." ∷ []))
    else Propagated.skip "upstream_required_failure_optional_skipped" (
        template (
          "Required upstream node \"" ∷ c.source.node_id ∷ "\" failed; optional node \"" ∷ n.node_id
          ∷ "\" skipped." ∷ []))

-- The flow's definition documents by their id.
abbrev pub Documents : Type 0
Documents = List (String × Record)

pub data Flavor : Type 0 where
  merger mapper : Flavor

abbrev pub field_string : String → Option Record → Option String
field_string k none = none
field_string k (some r) = as_string (at k r)

abbrev pub nested_node_type_key : Option Record → Option String
nested_node_type_key none = none
nested_node_type_key (some doc) = field_string "nodeTypeKey" (as_record (at "nodeDefinition" doc))

abbrev pub trimmed_is : String → Option String → Bool
trimmed_is word none = false
trimmed_is word (some s) = trim s == word

unfoldable pub transform_flavor : SnapshotNode → Option Record → Flavor
transform_flavor n doc =
    if trimmed_is "merger" n.node_type_key
    then Flavor.merger
    else if n.node_kind == "merger"
        || nested_node_type_key doc == some "merger"
        || field_string "slug" doc == some nd_merger_definition_slug
    then Flavor.merger
    else Flavor.mapper

-- `defId ? definitionByAssetId.get(defId) : undefined`
abbrev pub document : SnapshotNode → Documents → Option Record
document n docs = find_document n.definition_asset_id
  where
    find_document : Option String → Option Record
    find_document none = none
    find_document (some id) = if id == "" then none else get id docs

abbrev pub transform_inputs : Flavor → List SnapshotConnection → Runtime → Result Record
transform_inputs Flavor.merger incoming runtime =
    ok (("in", of_list (collect_merger_inbound_array incoming runtime)) ∷ [])
transform_inputs Flavor.mapper incoming runtime =
    merge_mapper_keyed_inputs (collect_incoming_by_port incoming runtime)

unfoldable pub resolve_inputs_for_node_trace :
    SnapshotNode → List SnapshotConnection → Runtime → Documents → Result Record
resolve_inputs_for_node_trace n incoming runtime docs =
    if resolve_category n.category (some n.node_kind) == some NodeCategory.transform
    then transform_inputs (transform_flavor n (document n docs)) incoming runtime
    else ok (merge_incoming_generic (collect_incoming_by_port incoming runtime))
