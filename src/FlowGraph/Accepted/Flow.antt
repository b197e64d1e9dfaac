-- ===== src/FlowGraph/Accepted/Flow.antt =====
-- `validateDynamicFlowGraph` as a whole: when a flow has no blocking error.
use mathlib.Core.List.Memᴰ
use roya_api.Prelude.{
  String, ℕ, Bool, true, false, not, Option, some, List, [], ◌∷◌, ◌≡◌, ◌↔◌, ◌⊎◌, inl, inr, ⊎_elim,
  arith, All, All-mem, Memᴰ, refl, string_eq, includes, filter, Bool-cases, Memᴰ-cons,
}
use roya_api.Prelude.Distinct.{Distinct}
use roya_api.Prelude.Dict.{get}
use roya_api.FlowGraph.{
  NodeDefinitionContract, FlowNodePlain, FlowConnectionPlain, Definitions, def_for_node,
}
use roya_api.FlowGraph.Nodes.{index_nodes}
use roya_api.FlowGraph.Cycle.{has_cycle}
use roya_api.FlowGraph.Cycle.Walks.{Cycle}
use roya_api.FlowGraph.Cycle.Decides.{has_cycle_iff}
use roya_api.FlowGraph.Reached.Correct.{Reach, reached_from_iff}
use roya_api.FlowGraph.Validate.{
  is_terminal_node, node_ids, node_id_set, roots, reached_ids, terminal_errors, is_empty,
  blocking_errors, validate_dynamic_flow_graph,
}
use roya_api.FlowGraph.Accepted.{NodeFits, Joins, PortsFit, MapperFits}
use roya_api.FlowGraph.Accepted.Base.{append-nil_iff, when_append_iff}
use roya_api.FlowGraph.Accepted.Nodes.{
  connection_ids, duplicate_nodes_iff, duplicate_connections_iff, check_nodes_iff, index_nodes-mem,
}
use roya_api.FlowGraph.Accepted.Wires.{check_connections_iff}
use roya_api.FlowGraph.Accepted.Ports.{check_cardinality_iff}
use roya_api.FlowGraph.Accepted.Mappers.{check_mappers_iff}

-- The conditions under which a flow may be published.
pub record IsAccepted (defs : Definitions) (policy : Option (List (String × List String)))
    (ns : List FlowNodePlain) (cs : List FlowConnectionPlain) : Type 0 where
  pub nodes_distinct : Distinct (node_ids ns)
  pub nodes : All (NodeFits defs) ns
  pub connections_distinct : Distinct (connection_ids cs)
  pub connections : All (Joins policy defs (index_nodes [] ns)) cs
  pub ports : All (λ n. PortsFit cs n (def_for_node defs n)) ns
  pub terminal : FlowNodePlain
  pub terminal_listed : Memᴰ terminal ns
  pub terminal_is : is_terminal_node terminal ≡ true
  pub terminals_reached :
      All (λ n. (is_terminal_node n ≡ false) ⊎ Reach cs (roots defs ns cs) n.node_id) ns
  pub acyclic : ¬ Cycle (node_id_set ns) cs
  pub mappers : All (λ n. MapperFits defs (index_nodes [] ns) cs n (def_for_node defs n)) ns

is_empty-filter :
    (p : FlowNodePlain → Bool) (ns : List FlowNodePlain)
    → is_empty (filter p ns) ≡ false
    → (t : FlowNodePlain) × Memᴰ t ns × (p t ≡ true)
is_empty-filter p [] h = cc
is_empty-filter p (n ∷ ns) h = elim (Bool-cases (p n)) [
  | inl yes_n ↦ (n, Memᴰ.head refl, yes_n)
  | inr no_n ↦ let (t, m, e) = is_empty-filter p ns (rw no_n at h) in (t, Memᴰ.tail m, e)
]

filter-is_empty :
    (p : FlowNodePlain → Bool) (ns : List FlowNodePlain) (t : FlowNodePlain)
    → Memᴰ t ns
    → p t ≡ true
    → is_empty (filter p ns) ≡ false
filter-is_empty p [] t m h = absurd (Memᴰ.not-nil m)
filter-is_empty p (n ∷ ns) t m h = ground (arith, filter-is_empty p ns t, Memᴰ-cons t n ns)

terminal_errors_iff :
    (reached : List String) (p : FlowNodePlain → Bool) (ns : List FlowNodePlain)
    → (terminal_errors reached (filter p ns) ≡ [])
      ↔ All (λ n. (p n ≡ false) ⊎ (includes reached n.node_id ≡ true)) ns
unfolding terminal_errors
terminal_errors_iff reached p [] = (λ _. tt, λ _. refl)
terminal_errors_iff reached p (n ∷ ns) = ground (
  arith,
  terminal_errors_iff reached p ns,
  when_append_iff (not (includes reached n.node_id)) _ (terminal_errors reached (filter p ns)),
)

All-map_iff :
    {P Q : FlowNodePlain → Type 0}
    → ((n : FlowNodePlain) → P n ↔ Q n)
    → (ns : List FlowNodePlain) → All P ns ↔ All Q ns
All-map_iff f [] = (λ _. tt, λ _. tt)
All-map_iff f (n ∷ ns) = (
  λ (p, ps). ((f n).0 p, (All-map_iff f ns).0 ps),
  λ (q, qs). ((f n).1 q, (All-map_iff f ns).1 qs),
)

module _ (defs : Definitions) (policy : Option (List (String × List String)))
    (ns : List FlowNodePlain) (cs : List FlowConnectionPlain) where
  terminals_reached_iff :
      (terminal_errors (reached_ids defs ns cs) (filter is_terminal_node ns) ≡ [])
      ↔ All (λ n. (is_terminal_node n ≡ false) ⊎ Reach cs (roots defs ns cs) n.node_id) ns
  unfolding reached_ids
  terminals_reached_iff =
      let all = terminal_errors_iff (reached_ids defs ns cs) is_terminal_node ns in
      let each = All-map_iff reach_iff ns in (λ h. each.0 (all.0 h), λ h. all.1 (each.1 h))
    where
      reach_iff :
          (n : FlowNodePlain)
          → ((is_terminal_node n ≡ false) ⊎ (includes (reached_ids defs ns cs) n.node_id ≡ true))
            ↔ ((is_terminal_node n ≡ false) ⊎ Reach cs (roots defs ns cs) n.node_id)
      reach_iff n =
          let found = reached_from_iff cs (roots defs ns cs) n.node_id in
          (⊎_elim inl (λ h. inr (found.0 h)), ⊎_elim inl (λ h. inr (found.1 h)))

  defined_of_nodes :
      All (NodeFits defs) ns
      → (k : String) (n : FlowNodePlain) → get k (index_nodes [] ns) ≡ some n
      → (d : NodeDefinitionContract) × (def_for_node defs n ≡ some d)
  defined_of_nodes fits k n h =
      let fit = All-mem (NodeFits defs) n ns fits (index_nodes-mem ns k n h).0 in
      (fit.def, fit.found)

  blocking_errors-IsAccepted : blocking_errors defs policy ns cs ≡ [] → IsAccepted defs policy ns cs
  unfolding blocking_errors
  blocking_errors-IsAccepted h =
      let (a, h1) = (append-nil_iff _ _).0 h in
      let (b, h2) = (append-nil_iff _ _).0 h1 in
      let (c, h3) = (append-nil_iff _ _).0 h2 in
      let (d, h4) = (append-nil_iff _ _).0 h3 in
      let (e, h5) = (append-nil_iff _ _).0 h4 in
      let (f, h6) = (when_append_iff _ _ _).0 h5 in
      let (g, h7) = (append-nil_iff _ _).0 h6 in
      let (i, j) = (when_append_iff _ _ _).0 h7 in
      let fits = (check_nodes_iff defs ns).0 b in
      let (t, listed, is_terminal) = is_empty-filter is_terminal_node ns f in
      record {
        nodes_distinct = (duplicate_nodes_iff ns).0 a;
        nodes = fits;
        connections_distinct = (duplicate_connections_iff cs).0 c;
        connections =
            (check_connections_iff policy defs (index_nodes [] ns) (defined_of_nodes fits) cs).0 d;
        ports = (check_cardinality_iff cs defs ns).0 e;
        terminal = t;
        terminal_listed = listed;
        terminal_is = is_terminal;
        terminals_reached = terminals_reached_iff.0 g;
        acyclic = acyclic_of i;
        mappers = (check_mappers_iff defs (index_nodes [] ns) cs ns).0 j;
      }
    where
      acyclic_of : has_cycle (node_id_set ns) cs ≡ false → ¬ Cycle (node_id_set ns) cs
      acyclic_of i cycle = ground (arith, (has_cycle_iff (node_id_set ns) cs).1 cycle)

  IsAccepted-blocking_errors : IsAccepted defs policy ns cs → blocking_errors defs policy ns cs ≡ []
  unfolding blocking_errors
  IsAccepted-blocking_errors a = (append-nil_iff _ _).1 (
    (duplicate_nodes_iff ns).1 a.nodes_distinct,
    (append-nil_iff _ _).1 (
      (check_nodes_iff defs ns).1 a.nodes,
      (append-nil_iff _ _).1 (
        (duplicate_connections_iff cs).1 a.connections_distinct,
        (append-nil_iff _ _).1 (
          (check_connections_iff policy defs (index_nodes [] ns) (defined_of_nodes a.nodes) cs).1
              a.connections,
          (append-nil_iff _ _).1 (
            (check_cardinality_iff cs defs ns).1 a.ports,
            (when_append_iff _ _ _).1 (
              filter-is_empty is_terminal_node ns a.terminal a.terminal_listed a.terminal_is,
              (append-nil_iff _ _).1 (
                terminals_reached_iff.1 a.terminals_reached,
                (when_append_iff _ _ _).1
                    (no_cycle, (check_mappers_iff defs (index_nodes [] ns) cs ns).1 a.mappers),
              ),
            ),
          ),
        ),
      ),
    ),
  )
    where
      no_cycle : has_cycle (node_id_set ns) cs ≡ false
      no_cycle = elim (Bool-cases (has_cycle (node_id_set ns) cs)) [
        | inl found ↦ absurd (a.acyclic ((has_cycle_iff (node_id_set ns) cs).0 found))
        | inr free ↦ free
      ]

-- A flow has no blocking error exactly when it is accepted.
pub validate_dynamic_flow_graph_iff :
    (defs : Definitions) (policy : Option (List (String × List String))) (now : ℕ)
    (ns : List FlowNodePlain) (cs : List FlowConnectionPlain)
    → ((validate_dynamic_flow_graph defs policy now ns cs).blocking_errors ≡ [])
      ↔ IsAccepted defs policy ns cs
unfolding validate_dynamic_flow_graph
validate_dynamic_flow_graph_iff defs policy now [] cs =
    (λ h. cc, λ a. absurd (Memᴰ.not-nil a.terminal_listed))
validate_dynamic_flow_graph_iff defs policy now (n ∷ ns) cs = (
  blocking_errors-IsAccepted defs policy (n ∷ ns) cs,
  IsAccepted-blocking_errors defs policy (n ∷ ns) cs,
)
