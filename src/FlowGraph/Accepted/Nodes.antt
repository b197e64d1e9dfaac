-- ===== src/FlowGraph/Accepted/Nodes.antt =====
-- The node phase of `validateDynamicFlowGraph` against `Accepted`'s account of it.
use roya_api.Prelude.{
  ◌&&◌, Bool-cases, subst, String, true, false, Option, none, some, List, [], ◌∷◌, ◌≡◌, ◌↔◌, ◌⊎◌,
  arith, All, map, Memᴰ, refl, ==_iff, ◌==◌, string_eq, option_eq, not, includes, add, inl, inr,
  sym, Option-cases,
}
use roya_api.Prelude.Distinct.{Distinct}
use roya_api.Prelude.Dict.{get, put, get-put}
use roya_api.Enums.{category_eq, category_value, BuilderAssetStatus, asset_status_eq}
use roya_api.FlowGraph.{
  NodeDefinitionContract, FlowNodePlain, FlowConnectionPlain, Definitions, def_for_node,
}
use roya_api.FlowGraph.Definition.{normalize_wire_node_kind}
use roya_api.FlowGraph.Nodes.{
  duplicate_nodes, index_nodes, status_fault, kind_fault, category_fault, given, builder_key_fault,
  type_key_fault, check_definition, check_node, check_nodes,
}
use roya_api.FlowGraph.Wires.{duplicate_connections}
use roya_api.FlowGraph.Accepted.{NotGiven, NodeFits}
use roya_api.FlowGraph.Accepted.Base.{
  append-nil_iff, issue_when_iff, when_append_iff, no_repeats, no_repeats_iff,
}
use roya_api.FlowGraph.Validate.{node_ids}

duplicate_nodes-no_repeats :
    (seen : List String) (ns : List FlowNodePlain)
    → (duplicate_nodes seen ns ≡ []) ↔ (no_repeats seen (node_ids ns) ≡ true)
unfolding duplicate_nodes
duplicate_nodes-no_repeats seen [] = ground arith
duplicate_nodes-no_repeats seen (n ∷ ns) = ground (
  arith,
  duplicate_nodes-no_repeats (add seen n.node_id) ns,
  when_append_iff (includes seen n.node_id) _ (duplicate_nodes (add seen n.node_id) ns),
)

pub duplicate_nodes_iff :
    (ns : List FlowNodePlain) → (duplicate_nodes [] ns ≡ []) ↔ Distinct (node_ids ns)
duplicate_nodes_iff ns =
    ground (arith, duplicate_nodes-no_repeats [] ns, no_repeats_iff (node_ids ns))

abbrev pub connection_ids : List FlowConnectionPlain → List String
connection_ids = map (λ c. c.connection_id)

duplicate_connections-no_repeats :
    (seen : List String) (cs : List FlowConnectionPlain)
    → (duplicate_connections seen cs ≡ []) ↔ (no_repeats seen (connection_ids cs) ≡ true)
unfolding duplicate_connections
duplicate_connections-no_repeats seen [] = ground arith
duplicate_connections-no_repeats seen (c ∷ cs) = ground (
  arith,
  duplicate_connections-no_repeats (add seen c.connection_id) cs,
  when_append_iff (includes seen c.connection_id) _
      (duplicate_connections (add seen c.connection_id) cs),
)

pub duplicate_connections_iff :
    (cs : List FlowConnectionPlain)
    → (duplicate_connections [] cs ≡ []) ↔ Distinct (connection_ids cs)
duplicate_connections_iff cs =
    ground (arith, duplicate_connections-no_repeats [] cs, no_repeats_iff (connection_ids cs))

given_iff : (o : Option String) → (given o ≡ false) ↔ NotGiven o
given_iff none = ground arith
given_iff (some s) = ground (arith, ==_iff s "")

status_iff :
    (def : NodeDefinitionContract)
    → (status_fault def ≡ false) ↔ (def.status ≡ BuilderAssetStatus.active)
status_iff def = ground (arith, ==_iff def.status BuilderAssetStatus.active)

kind_iff :
    (n : FlowNodePlain) (def : NodeDefinitionContract)
    → (kind_fault n def ≡ false) ↔ (def.node_kind ≡ normalize_wire_node_kind n.node_kind)
kind_iff n def = ground (arith, ==_iff def.node_kind (normalize_wire_node_kind n.node_kind))

category_iff :
    (n : FlowNodePlain) (def : NodeDefinitionContract)
    → (category_fault n def ≡ false) ↔ ((n.category ≡ none) ⊎ (n.category ≡ some def.category))
category_iff n def = ground (arith, ==_iff n.category (some def.category))

key_cases :
    (o : Option String) (key category : String)
    → ((given o && not (o == some key) && not (o == some category && not (key == category)))
        ≡ false)
      ↔ (NotGiven o ⊎ (o ≡ some key) ⊎ (o ≡ some category))
key_cases none key category = ground arith
key_cases (some s) key category =
    ground (arith, ==_iff s "", ==_iff s key, ==_iff s category, ==_iff key category)

same_cases : (o d : Option String) → ((given o && not (d == o)) ≡ false) ↔ (NotGiven o ⊎ (o ≡ d))
same_cases none d = ground arith
same_cases (some s) none = ground (arith, ==_iff s "")
same_cases (some s) (some t) = ground (arith, ==_iff s "", ==_iff t s)

builder_key_iff :
    (n : FlowNodePlain) (def : NodeDefinitionContract)
    → (builder_key_fault n def ≡ false) ↔ (
        NotGiven n.builder_category_key
        ⊎ (n.builder_category_key ≡ some def.builder_category_key)
        ⊎ (n.builder_category_key ≡ some (category_value def.category)))
builder_key_iff n def =
    key_cases n.builder_category_key def.builder_category_key (category_value def.category)

type_key_iff :
    (n : FlowNodePlain) (def : NodeDefinitionContract)
    → (type_key_fault n def ≡ false)
      ↔ (NotGiven n.node_type_key ⊎ (n.node_type_key ≡ def.node_type_key))
type_key_iff n def = same_cases n.node_type_key def.node_type_key

check_definition_iff :
    (n : FlowNodePlain) (def : NodeDefinitionContract)
    → (check_definition n def ≡ []) ↔ (
        (status_fault def ≡ false)
        × (kind_fault n def ≡ false)
        × (category_fault n def ≡ false)
        × (builder_key_fault n def ≡ false)
        × (type_key_fault n def ≡ false))
unfolding check_definition
check_definition_iff n def = (
  λ h.
      let (a, h1) = (when_append_iff _ _ _).0 h in
      let (b, h2) = (when_append_iff _ _ _).0 h1 in
      let (c, h3) = (when_append_iff _ _ _).0 h2 in
      let (d, h4) = (when_append_iff _ _ _).0 h3 in (a, b, c, d, (issue_when_iff _ _).0 h4),
  λ (a, b, c, d, e). (when_append_iff _ _ _).1 (
    a,
    (when_append_iff _ _ _).1
        (b, (when_append_iff _ _ _).1 (c, (when_append_iff _ _ _).1 (d, (issue_when_iff _ _).1 e))),
  ),
)

check_node_iff :
    (defs : Definitions) (n : FlowNodePlain)
    → (check_node n (def_for_node defs n) ≡ []) ↔ NodeFits defs n
unfolding check_node
check_node_iff defs n = (
  λ h. elim (Option-cases (def_for_node defs n)) [
    | inl missing ↦ cc (rw missing at h)
    | inr (def, found) ↦
        let (a, b, c, d, e) = (check_definition_iff n def).0 (rw found at h) in
        record {
          def = def;
          found = found;
          active = (status_iff def).0 a;
          kind = (kind_iff n def).0 b;
          category = (category_iff n def).0 c;
          builder_key = (builder_key_iff n def).0 d;
          type_key = (type_key_iff n def).0 e;
        }
  ],
  λ f. rw f.found (
      (check_definition_iff n f.def).1 (
        (status_iff f.def).1 f.active,
        (kind_iff n f.def).1 f.kind,
        (category_iff n f.def).1 f.category,
        (builder_key_iff n f.def).1 f.builder_key,
        (type_key_iff n f.def).1 f.type_key,
      )),
)

pub check_nodes_iff :
    (defs : Definitions) (ns : List FlowNodePlain)
    → (check_nodes defs ns ≡ []) ↔ All (NodeFits defs) ns
unfolding check_nodes
check_nodes_iff defs [] = (λ _. tt, λ _. refl)
check_nodes_iff defs (n ∷ ns) = (
  λ h.
      let (a, b) = (append-nil_iff _ _).0 h in
      ((check_node_iff defs n).0 a, (check_nodes_iff defs ns).0 b),
  λ (a, b). (append-nil_iff _ _).1 ((check_node_iff defs n).1 a, (check_nodes_iff defs ns).1 b),
)

-- A node that the index gives is one of the flow's.
index_nodes-mem_from :
    (by_id : List (String × FlowNodePlain)) (ns : List FlowNodePlain) (k : String)
    (n : FlowNodePlain)
    → get k (index_nodes by_id ns) ≡ some n
    → (get k by_id ≡ some n) ⊎ Memᴰ n ns × (n.node_id ≡ k)
unfolding index_nodes
index_nodes-mem_from by_id [] k n h = inl h
index_nodes-mem_from by_id (m ∷ ns) k n h =
    elim (index_nodes-mem_from (put m.node_id m by_id) ns k n h) [
      | inr (later, same) ↦ inr (Memᴰ.tail later, same)
      | inl now ↦ elim (Bool-cases (m.node_id == k)) [
        | inr other ↦ inl (ground (arith, get-put m.node_id k m by_id))
        | inl same ↦
            let e : m ≡ n = ground (arith, get-put m.node_id k m by_id) in
            inr (Memᴰ.head (sym e), subst (λ x. x.node_id ≡ k) e ((==_iff _ _).0 same))
      ]
    ]

pub index_nodes-mem :
    (ns : List FlowNodePlain) (k : String) (n : FlowNodePlain)
    → get k (index_nodes [] ns) ≡ some n
    → Memᴰ n ns × (n.node_id ≡ k)
index_nodes-mem ns k n h = elim (index_nodes-mem_from [] ns k n h) [
  | inl none_yet ↦ cc
  | inr found ↦ found
]
