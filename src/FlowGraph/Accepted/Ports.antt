-- ===== src/FlowGraph/Accepted/Ports.antt =====
-- The cardinality phase of `validateDynamicFlowGraph` against `Accepted`'s account of it.
use roya_api.Prelude.{
  String, ℕ, ◌+◌, ◌≤◌, true, false, Option, none, some, List, [], ◌∷◌, ◌≡◌, ◌↔◌, ◌⊎◌, inl, inr,
  arith, All, refl, ==_iff, ◌==◌, string_eq, or_else, Bool-cases,
}
use roya_api.Prelude.Dict.{get, put, get-put}
use roya_api.FlowGraph.{
  ConnectionPointContract, NodeDefinitionContract, FlowNodePlain, FlowConnectionPlain, Definitions,
  def_for_node,
}
use roya_api.FlowGraph.Definition.{is_merger_multi_wire_catalog_asset, merger_slug_from_flow_node}
use roya_api.FlowGraph.Cardinality.{
  port_id, count_inputs, too_few, too_many, check_port, count_at, check_inputs, check_node_inputs,
  check_cardinality,
}
use roya_api.FlowGraph.Accepted.{wires_at, AtMost, PortFits, PortsFit}
use roya_api.FlowGraph.Accepted.Base.{append-nil_iff, issue_when_iff, when_append_iff}

count_inputs_from :
    (cs : List FlowConnectionPlain) (counts : List (String × ℕ)) (k : String)
    → or_else (get k (count_inputs counts cs)) 0 ≡ or_else (get k counts) 0 + wires_at k cs
unfolding count_inputs
count_inputs_from [] counts k = omega arith
count_inputs_from (c ∷ cs) counts k =
    let j : String = port_id c.target.node_id c.target.port_key in
    let counts' : List (String × ℕ) = put j (or_else (get j counts) 0 + 1) counts in
    elim (Bool-cases (j == k)) [
      | inl same ↦ ground (
        arith,
        count_inputs_from cs counts' k,
        get-put j k (or_else (get j counts) 0 + 1) counts,
        ==_iff j k,
      )
      | inr other ↦
          ground (
            arith,
            count_inputs_from cs counts' k,
            get-put j k (or_else (get j counts) 0 + 1) counts,
          )
    ]

-- `inCount` holds, for each port, the number of connections into it.
pub count_inputs-eq-wires_at :
    (cs : List FlowConnectionPlain) (k : String)
    → or_else (get k (count_inputs [] cs)) 0 ≡ wires_at k cs
count_inputs-eq-wires_at cs k = omega (arith, count_inputs_from cs [] k)

within_iff :
    (n : FlowNodePlain) (def : NodeDefinitionContract) (port : ConnectionPointContract) (count : ℕ)
    → (too_many n def port count ≡ false) ↔ (
        AtMost port.max_connections count
        ⊎ (port.key ≡ "in")
          × (is_merger_multi_wire_catalog_asset
                (merger_slug_from_flow_node def n)
                def.node_kind
                def.inputs
              ≡ true))
within_iff n def port count = ground (arith, ==_iff port.key "in")

check_port_iff :
    (n : FlowNodePlain) (def : NodeDefinitionContract) (port : ConnectionPointContract) (count : ℕ)
    → (check_port n def count port ≡ []) ↔ (
        (port.min_connections ≤ count)
        × (AtMost port.max_connections count
            ⊎ (port.key ≡ "in")
              × (is_merger_multi_wire_catalog_asset
                    (merger_slug_from_flow_node def n)
                    def.node_kind
                    def.inputs
                  ≡ true)))
unfolding check_port
check_port_iff n def port count = (
  λ h.
      let (a, b) = (when_append_iff _ _ _).0 h in
      (few.0 a, (within_iff n def port count).0 ((issue_when_iff _ _).0 b)),
  λ (a, b).
      (when_append_iff _ _ _).1
        (few.1 a, (issue_when_iff _ _).1 ((within_iff n def port count).1 b)),
)
  where
    few : (too_few port count ≡ false) ↔ (port.min_connections ≤ count)
    few = ground arith

module _ (cs : List FlowConnectionPlain) where
  check_inputs_iff :
      (n : FlowNodePlain) (def : NodeDefinitionContract) (ports : List ConnectionPointContract)
      → (check_inputs (count_inputs [] cs) n def ports ≡ []) ↔ All (PortFits cs n def) ports
  unfolding check_inputs
  check_inputs_iff n def [] = (λ _. tt, λ _. refl)
  check_inputs_iff n def (port ∷ ports) = (
    λ h.
        let (a, b) =
          (append-nil_iff (check_port n def (count_at (count_inputs [] cs) n port) port) _).0 h in
        (
          (check_port_iff n def port (wires_at (port_id n.node_id port.key) cs)).0
              (rw (count_inputs-eq-wires_at cs (port_id n.node_id port.key)) at a),
          (check_inputs_iff n def ports).0 b,
        ),
    λ (a, b). (append-nil_iff _ _).1 (
      rw (count_inputs-eq-wires_at cs (port_id n.node_id port.key))
          ((check_port_iff n def port (wires_at (port_id n.node_id port.key) cs)).1 a),
      (check_inputs_iff n def ports).1 b,
    ),
  )

  node_inputs_iff :
      (n : FlowNodePlain) (def : Option NodeDefinitionContract)
      → (check_node_inputs (count_inputs [] cs) n def ≡ []) ↔ PortsFit cs n def
  node_inputs_iff n none = (λ _. tt, λ _. refl)
  node_inputs_iff n (some def) = check_inputs_iff n def def.inputs

  pub check_cardinality_iff :
      (defs : Definitions) (ns : List FlowNodePlain)
      → (check_cardinality (count_inputs [] cs) defs ns ≡ [])
        ↔ All (λ n. PortsFit cs n (def_for_node defs n)) ns
  unfolding check_cardinality
  check_cardinality_iff defs [] = (λ _. tt, λ _. refl)
  check_cardinality_iff defs (n ∷ ns) = (
    λ h.
        let (a, b) = (append-nil_iff _ _).0 h in
        ((node_inputs_iff n (def_for_node defs n)).0 a, (check_cardinality_iff defs ns).0 b),
    λ (a, b).
        (append-nil_iff _ _).1
          ((node_inputs_iff n (def_for_node defs n)).1 a, (check_cardinality_iff defs ns).1 b),
  )
