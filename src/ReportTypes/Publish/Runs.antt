-- ===== src/ReportTypes/Publish/Runs.antt =====
-- The runs of a flow that was published.
use roya_api.Prelude.{
  String, ℕ, true, none, some, List, [], ◌∷◌, map, includes, add_all, includes-add_all, Memᴰ,
  Memᴰ-map, All, All-mem, ◌≡◌, refl, sym, subst, ap, ◌∙◌, inl, inr, arith, ==_iff, string_eq,
}
use mathlib.Core.List.Memᴰ
use roya_api.Prelude.Dict.{get}
use roya_api.Prelude.Distinct.{Distinct}
use roya_api.Prelude.Result.{Result, ok, threw}
use roya_api.Value.{Record}
use roya_api.FlowGraph.{FlowNodePlain, FlowConnectionPlain}
use roya_api.FlowGraph.Definition.{AssetDoc}
use roya_api.FlowGraph.Cycle.Walks.{Edge, Walk, Cycle}
use roya_api.FlowGraph.Accepted.Nodes.{index_nodes-mem}
use roya_api.Execution.{
  SnapshotNode, SnapshotConnection, NodeRuntime, Runtime, is_completed, snapshot_ids, plain,
}
use roya_api.Execution.PortMerge.{ByPort}
use roya_api.Execution.Upstream.{Documents, required_unless_false}
use roya_api.Execution.Run.{RunState, run_flow}
use roya_api.Execution.Run.Safe.{run_flow-completed}
use roya_api.ReportTypes.Snapshot.{
  FlowNodeRow, index_by_id, enrich_node, build_published_flow_snapshot,
}
use roya_api.ReportTypes.Validation.{BuilderCategory, checked_nodes, load_node_definitions_for_flow}
use roya_api.ReportTypes.Lifecycle.{Version, validated}
use roya_api.ReportTypes.Publish.{published_version}
use roya_api.ReportTypes.Publish.Accepts.{AcceptedFlow, issues_of-AcceptedFlow}

-- The two readings of a row are of one node.
abbrev pub SameNode : FlowNodeRow → Type 0
SameNode r = r.stored.node_id ≡ r.checked.node_id

module _ (ids more : List String) (cs : List FlowConnectionPlain)
    (within : (a : String) → includes ids a ≡ true → includes more a ≡ true) where
  wider-Edge : {u v : String} → Edge ids cs u v → Edge more cs u v
  wider-Edge e = record {
    connection = e.connection;
    listed = e.listed;
    leaves = e.leaves;
    enters = e.enters;
    known = within _ e.known;
  }

  wider-Walk : {v u : String} → Walk ids cs v u → Walk more cs v u
  wider-Walk Walk.here = Walk.here
  wider-Walk (Walk.via e w) = Walk.via (wider-Edge e) (wider-Walk w)

  wider-Cycle : Cycle ids cs → Cycle more cs
  wider-Cycle c = record {
    last = c.last;
    first = c.first;
    closing = wider-Edge c.closing;
    around = wider-Walk c.around;
  }

mem-node_ids :
    (n : FlowNodePlain) (ns : List FlowNodePlain)
    → Memᴰ n ns
    → includes (map (λ x. x.node_id) ns) n.node_id ≡ true
mem-node_ids n [] m = absurd (Memᴰ.not-nil m)
mem-node_ids n (k ∷ ns) m = elim (Memᴰ.cases_cons m) [
  | inl same ↦ ground (arith, ==_iff k.node_id n.node_id, ap (λ x. x.node_id) same)
  | inr later ↦ ground (arith, mem-node_ids n ns later)
]

enriched-ids :
    (defs : List (String × AssetDoc)) (rows : List FlowNodeRow)
    → All SameNode rows
    → snapshot_ids (map (λ r. enrich_node defs r.stored) rows)
      ≡ map (λ n. n.node_id) (checked_nodes rows)
unfolding enrich_node
enriched-ids defs [] same = refl
enriched-ids defs (r ∷ rows) (e, same) =
    ap (λ i. i ∷ snapshot_ids (map (λ r. enrich_node defs r.stored) rows)) e
    ∙ ap (λ is. r.checked.node_id ∷ is) (enriched-ids defs rows same)

-- A run of the published snapshot of a version.
abbrev pub run_published :
    (List SnapshotNode → List SnapshotConnection → Result RunState) → Version → Result RunState
run_published run v = elim v.published_flow_snapshot [
  | none ↦ threw none
  | some snap ↦ run snap.nodes snap.connections
]

module _ (assets : List AssetDoc) (categories : List BuilderCategory) (now : ℕ) (v : Version) where
  abbrev ids : List String
  ids = map (λ n. n.node_id) (checked_nodes v.flow_nodes)

  acyclic_ids : AcceptedFlow assets categories now v → Cycle ids (map plain v.flow_connections) → ⊥
  acyclic_ids accepted c = accepted.acyclic (
      wider-Cycle ids (add_all [] ids) (map plain v.flow_connections)
        (λ a h. (includes-add_all [] ids a).1 (inr h)) c)

  ends_known :
      AcceptedFlow assets categories now v
      → (c : SnapshotConnection) → Memᴰ c v.flow_connections
      → (includes ids c.source.node_id ≡ true) × (includes ids c.target.node_id ≡ true)
  ends_known accepted c m =
      let joins =
        All-mem _ (plain c) (map plain v.flow_connections) accepted.connections
          (Memᴰ-map plain c _ m) in
      let (from, source) =
        index_nodes-mem (checked_nodes v.flow_nodes) c.source.node_id joins.from joins.from_found in
      let (to, target) =
        index_nodes-mem (checked_nodes v.flow_nodes) c.target.node_id joins.to joins.to_found in
      (
        subst (λ i. includes ids i ≡ true) source (mem-node_ids joins.from _ from),
        subst (λ i. includes ids i ≡ true) target (mem-node_ids joins.to _ to),
      )

  abbrev pub published_nodes : List SnapshotNode
  published_nodes =
      map
        (λ r.
          enrich_node (index_by_id (load_node_definitions_for_flow assets v.flow_nodes) [])
            r.stored)
        v.flow_nodes

  -- A run of the flow that `publish` puts on a draft without blocking errors, where the stored nodes
  -- have the ids of those that were validated: if it is finished, no node completed unless the
  -- source of every required connection into it completed.
  pub published_version-completed :
      (execute : SnapshotNode → List SnapshotConnection → Runtime → ByPort → Result Record)
      (docs : Documents) (t : RunState)
      → (validated assets categories now v.flow_nodes v.flow_connections).blocking_errors ≡ []
      → All SameNode v.flow_nodes
      → run_published (run_flow execute docs) (published_version assets categories now v) ≡ ok t
      → (c : SnapshotConnection) → Memᴰ c v.flow_connections
      → required_unless_false c.required ≡ true
      → (rt : NodeRuntime) → get c.target.node_id t.runtime ≡ some rt
      → is_completed rt.status ≡ true
      → (up : NodeRuntime) × (get c.source.node_id t.runtime ≡ some up)
        × (is_completed up.status ≡ true)
  unfolding build_published_flow_snapshot
  published_version-completed execute docs t valid same ran c listed required rt found done =
      let accepted = issues_of-AcceptedFlow assets categories now v valid in
      let (from, to) = ends_known accepted c listed in
      let here : ids ≡ snapshot_ids published_nodes = sym (enriched-ids _ v.flow_nodes same) in
      run_flow-completed execute docs published_nodes v.flow_connections t ran
        (subst Distinct here accepted.nodes_distinct)
        (subst (λ is. Cycle is (map plain v.flow_connections) → ⊥) here (acyclic_ids accepted)) c
        listed (subst (λ is. includes is c.source.node_id ≡ true) here from)
        (subst (λ is. includes is c.target.node_id ≡ true) here to) required rt found done
