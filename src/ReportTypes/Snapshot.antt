-- ===== src/ReportTypes/Snapshot.antt =====
-- report-types/report-type-flow-snapshot.ts: the paths to the terminals of a flow, and the snapshot
-- that is published. A node of a draft is one row that the code reads through two types. `none` of
-- the search means that the fuel ran out.
pub mod Targets
pub mod Paths
pub mod Terminals
use roya_api.Prelude.{
  String, ℕ, zero, suc, ◌+◌, Bool, true, false, not, ◌||◌, Option, none, some, List, [], ◌∷◌, ◌++◌,
  map, filter, if◌then◌else◌, or_else, or_option, includes, add, length, ◌==◌, string_eq, option_eq,
}
use roya_api.Prelude.Dict.{get, put}
use roya_api.Prelude.Text.{template}
use roya_api.Enums.{NodeCategory, category_eq}
use roya_api.Category.{resolve_category}
use roya_api.FlowGraph.{FlowNodePlain, FlowConnectionPlain, TerminalConfig}
use roya_api.FlowGraph.Definition.{AssetDoc, RawNodeDefinition}
use roya_api.Execution.{SnapshotNode, SnapshotConnection, plain}

pub record SnapshotTerminalPath : Type 0 where
  pub path_id : String
  pub terminal_node_id : String
  pub node_ids : List String
  pub required : Bool
  pub output_key : String

abbrev pub node_category : FlowNodePlain → Option NodeCategory
node_category n = resolve_category n.category (some n.node_kind)

-- `incoming.has(id)`
abbrev pub has_incoming : List FlowConnectionPlain → String → Bool
has_incoming cs id = includes (map (λ c. c.target.node_id) cs) id

abbrev pub path_roots : List FlowNodePlain → List FlowConnectionPlain → List String
path_roots ns cs =
    map (λ n. n.node_id)
      (filter (λ n. not (has_incoming cs n.node_id) || (node_category n == some NodeCategory.input))
        ns)

abbrev pub Adjacency : Type 0
Adjacency = List (String × List String)

-- `adj.set(n.nodeId, [])`
pub no_targets : List FlowNodePlain → Adjacency → Adjacency
no_targets [] adj = adj
no_targets (n ∷ ns) adj = no_targets ns (put n.node_id [] adj)

abbrev pub push_target : String → Option (List String) → String → Adjacency → Adjacency
push_target u none v adj = adj
push_target u (some targets) v adj = put u (targets ++ v ∷ []) adj

-- `adj.get(c.source.nodeId)?.push(c.target.nodeId)`
pub push_all : List FlowConnectionPlain → Adjacency → Adjacency
push_all [] adj = adj
push_all (c ∷ cs) adj =
    push_all cs (push_target c.source.node_id (get c.source.node_id adj) c.target.node_id adj)

abbrev pub adjacency : List FlowNodePlain → List FlowConnectionPlain → Adjacency
adjacency ns cs = push_all cs (no_targets ns [])

-- An entry of the queue: an id, and the path to it.
abbrev pub Reaching : Type 0
Reaching = String × List String

module _ (target : String) (adj : Adjacency) where
  pub search : ℕ → List Reaching → List String → Option (List String)
  search fuel [] seen = some []
  search zero (r ∷ q) seen = none
  search (suc fuel) ((id, path) ∷ q) seen =
      let skip = search fuel q seen in
      let expand =
        search fuel (q ++ map (λ next. (next, path ++ next ∷ [])) (or_else (get id adj) []))
          (add seen id) in
      if id == target then some path else if includes seen id then skip else expand

-- `bfsPath`, with fuel for the roots and every connection.
pub bfs_path : List String → String → Adjacency → ℕ → List String
unfolding search
bfs_path roots target adj connections =
    or_else (search target adj (length roots + connections) (map (λ r. (r, r ∷ [])) roots) []) []

abbrev configured : (TerminalConfig → Bool) → Option TerminalConfig → Option Bool
configured f none = none
configured f (some t) = some (f t)

abbrev configured_key : Option TerminalConfig → Option String
configured_key none = none
configured_key (some t) = some t.terminal_key

abbrev pub terminal_path : FlowNodePlain → List String → SnapshotTerminalPath
terminal_path term found = record {
  path_id = template ("path-" ∷ term.node_id ∷ []);
  terminal_node_id = term.node_id;
  node_ids = found;
  required = or_else (configured (λ t. t.required) term.terminal_config) term.required;
  output_key = or_else (configured_key term.terminal_config) term.node_id;
}

-- `if (found.length) paths.push(…)`
abbrev pub push_path :
    FlowNodePlain → List String → List SnapshotTerminalPath → List SnapshotTerminalPath
push_path term [] rest = rest
push_path term (id ∷ ids) rest = terminal_path term (id ∷ ids) ∷ rest

module _ (ns : List FlowNodePlain) (cs : List FlowConnectionPlain) where
  pub path_to : String → List String
  unfolding bfs_path no_targets push_all
  path_to id = bfs_path (path_roots ns cs) id (adjacency ns cs) (length cs)

  pub terminal_paths : List FlowNodePlain → List SnapshotTerminalPath
  unfolding path_to
  terminal_paths [] = []
  terminal_paths (term ∷ terms) = push_path term (path_to term.node_id) (terminal_paths terms)

  abbrev pub terminals : List FlowNodePlain
  terminals = filter (λ n. node_category n == some NodeCategory.terminal) ns

  unfoldable pub compute_terminal_paths : List SnapshotTerminalPath
  unfolding terminal_paths
  compute_terminal_paths = terminal_paths terminals

-- A node of a draft, as the validation and as the execution read it.
pub record FlowNodeRow : Type 0 where
  pub checked : FlowNodePlain
  pub stored : SnapshotNode

-- `defByAssetId.get(defId)?.['nodeDefinition']`
pub index_by_id : List AssetDoc → List (String × AssetDoc) → List (String × AssetDoc)
index_by_id [] m = m
index_by_id (doc ∷ docs) m = index_by_id docs (if doc.id == "" then m else put doc.id doc m)

abbrev pub definition_in : Option AssetDoc → Option RawNodeDefinition
definition_in none = none
definition_in (some doc) = doc.node_definition

abbrev pub raw_field {ℓ} :
    {A : Type ℓ} → (RawNodeDefinition → Option A) → Option RawNodeDefinition → Option A
raw_field f none = none
raw_field f (some raw) = f raw

-- `...(v ? { k: v } : {})` on a string that the node has or not.
abbrev filled_or : Option String → Option String → Option String
filled_or none old = old
filled_or (some s) old = if s == "" then old else some s

unfoldable pub enrich_node : List (String × AssetDoc) → SnapshotNode → SnapshotNode
enrich_node defs n =
    let def : Option RawNodeDefinition =
      definition_in (get (or_else n.definition_asset_id "") defs) in
    record n {
      category =
          or_option
            (resolve_category (or_option n.category (raw_field (λ d. d.category) def))
              (some n.node_kind))
            n.category;
      builder_category_key =
          filled_or (or_option n.builder_category_key (raw_field (λ d. d.builder_category_key) def))
            n.builder_category_key;
      node_type_key =
          filled_or (or_option n.node_type_key (raw_field (λ d. d.node_type_key) def))
            n.node_type_key;
      provider_key =
          filled_or (or_option n.provider_key (raw_field (λ d. d.provider_key) def)) n.provider_key;
    }

pub record PublishedSnapshot (Summary : Type 0) : Type 0 where
  pub snapshot_version : ℕ
  pub published_at : ℕ
  pub default_language : String
  pub node_definitions : List AssetDoc
  pub nodes : List SnapshotNode
  pub connections : List SnapshotConnection
  pub terminal_paths : List SnapshotTerminalPath
  pub validation_summary : Summary

unfoldable pub build_published_flow_snapshot :
    {Summary : Type 0}
    → ℕ
    → String
    → List FlowNodeRow
    → List SnapshotConnection
    → List AssetDoc
    → Summary
    → PublishedSnapshot Summary
unfolding index_by_id enrich_node
build_published_flow_snapshot now default_language rows connections docs summary = record {
  snapshot_version = 1;
  published_at = now;
  default_language = if default_language == "" then "en" else default_language;
  node_definitions = docs;
  nodes = map (λ r. enrich_node (index_by_id docs []) r.stored) rows;
  connections = connections;
  terminal_paths = compute_terminal_paths (map (λ r. r.checked) rows) (map plain connections);
  validation_summary = summary;
}
