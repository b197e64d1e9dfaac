-- ===== src/FlowGraph/Accepted/Wires.antt =====
-- The connection phase of `validateDynamicFlowGraph` against `Accepted`'s account of it.
use roya_api.Prelude.{
  String, Bool, true, false, not, ◌&&◌, Option, none, some, List, [], ◌∷◌, ◌≡◌, ◌≢◌, ◌↔◌, ◌⊎◌, inl,
  inr, ⊎_elim, arith, All, refl, ==_iff, ◌==◌, string_eq, option_eq, includes_iff, Option-cases,
  if◌then◌else◌, or_else, or_option,
}
use roya_api.Prelude.Dict.{get}
use roya_api.Enums.{NodeCategory, category_eq, NodeConnectionDirection}
use roya_api.Category.{resolve_category}
use roya_api.Category.Feeds.{Feeds, is_category_pair_allowed_iff}
use roya_api.FlowGraph.{
  ConnectionPointContract, NodeDefinitionContract, FlowNodePlain, FlowConnectionPlain, Definitions,
  def_for_node, DynamicValidationIssue, issue_when,
}
use roya_api.FlowGraph.Compatible.{point_by_key, categories_compatible, terminal_sources_compatible}
use roya_api.FlowGraph.Compatible.Rules.{
  KindsFit, ValueTypesFit, TerminalTakes, kinds_compatible_iff, value_types_compatible_iff,
  terminal_sources_compatible_iff,
}
use roya_api.FlowGraph.Wires.{
  feeds_terminal, categories_allowed_by, check_points, check_ports, check_definitions, check_ends,
  check_connections,
}
use roya_api.FlowGraph.Accepted.{Joins, CategoriesFit, CategoriesFitBy}
use roya_api.FlowGraph.Accepted.Base.{append-nil_iff, when_append_iff}

categories_compatible_iff :
    (s t : NodeDefinitionContract)
    → (categories_compatible s t ≡ true) ↔ Feeds s.category t.category
unfolding categories_compatible
categories_compatible_iff s t = is_category_pair_allowed_iff s.category t.category

categories_by_iff :
    (list : Option (List String)) (s t : NodeDefinitionContract)
    → (categories_allowed_by list s t ≡ true) ↔ CategoriesFitBy list s t
categories_by_iff none s t = categories_compatible_iff s t
categories_by_iff (some []) s t = categories_compatible_iff s t
categories_by_iff (some (k ∷ ks)) s t = includes_iff (k ∷ ks) t.builder_category_key

terminal_cases :
    (to : FlowNodePlain) (to_def : NodeDefinitionContract) (takes : Bool)
    → ((feeds_terminal to to_def && not takes) ≡ false)
      ↔ ((or_else to.category to_def.category ≢ NodeCategory.terminal) ⊎ (takes ≡ true))
unfolding resolve_category
terminal_cases to to_def takes = go to.category
  where
    go :
        (c : Option NodeCategory)
        → ((resolve_category (or_option c (some to_def.category)) (some to.node_kind)
                == some NodeCategory.terminal
              && not takes)
            ≡ false)
          ↔ ((or_else c to_def.category ≢ NodeCategory.terminal) ⊎ (takes ≡ true))
    go none = ground (arith, ==_iff to_def.category NodeCategory.terminal)
    go (some d) = ground (arith, ==_iff d NodeCategory.terminal)

true_of_negated : {b : Bool} → not b ≡ false → b ≡ true
true_of_negated {b} h = ground arith

negated_of_true : {b : Bool} → b ≡ true → not b ≡ false
negated_of_true h = ground arith

either_issue_iff :
    (a b : Bool) (i j : DynamicValidationIssue)
    → ((if not a then i ∷ [] else issue_when (not b) j) ≡ []) ↔ ((a ≡ true) × (b ≡ true))
either_issue_iff true b i j = ground arith
either_issue_iff false b i j = ground arith

module _ (policy : Option (List (String × List String))) (c : FlowConnectionPlain) where
  record PointsFit (to : FlowNodePlain) (s t : NodeDefinitionContract)
      (o i : ConnectionPointContract) : Type 0 where
    values : ValueTypesFit o.value_type i.value_type i.compatible_value_types
    terminal : (or_else to.category t.category ≢ NodeCategory.terminal) ⊎ TerminalTakes to s
    categories : CategoriesFit policy s t
    kinds : KindsFit s t o i

  check_points_iff :
      (to : FlowNodePlain) (s t : NodeDefinitionContract) (o i : ConnectionPointContract)
      → (check_points policy c to s t o i ≡ []) ↔ PointsFit to s t o i
  unfolding check_points
  check_points_iff to s t o i = (
    λ h.
        let (a, h1) = (when_append_iff _ _ _).0 h in
        let (b, h2) = (when_append_iff _ _ _).0 h1 in
        let (d, e) = (either_issue_iff _ _ _ _).0 h2 in
        record {
          values = (value_types_compatible_iff _ _ i).0 (true_of_negated a);
          terminal = terminal_to ((terminal_cases to t _).0 b);
          categories = (categories_by_iff _ s t).0 d;
          kinds = (kinds_compatible_iff s t o i).0 e;
        },
    λ f. (when_append_iff _ _ _).1 (
      negated_of_true ((value_types_compatible_iff _ _ i).1 f.values),
      (when_append_iff _ _ _).1 (
        (terminal_cases to t _).1 (terminal_from f.terminal),
        (either_issue_iff _ _ _ _).1
            ((categories_by_iff _ s t).1 f.categories, (kinds_compatible_iff s t o i).1 f.kinds),
      ),
    ),
  )
    where
      terminal_to :
          ((or_else to.category t.category ≢ NodeCategory.terminal)
            ⊎ (terminal_sources_compatible to s ≡ true))
          → (or_else to.category t.category ≢ NodeCategory.terminal) ⊎ TerminalTakes to s
      terminal_to = ⊎_elim inl (λ h. inr ((terminal_sources_compatible_iff to s).0 h))

      terminal_from :
          ((or_else to.category t.category ≢ NodeCategory.terminal) ⊎ TerminalTakes to s)
          → (or_else to.category t.category ≢ NodeCategory.terminal)
            ⊎ (terminal_sources_compatible to s ≡ true)
      terminal_from = ⊎_elim inl (λ h. inr ((terminal_sources_compatible_iff to s).1 h))

  module _ (defs : Definitions) (by_id : List (String × FlowNodePlain)) where
    PointsFit-Joins :
        (from to : FlowNodePlain) (s t : NodeDefinitionContract) (o i : ConnectionPointContract)
        → get c.source.node_id by_id ≡ some from
        → get c.target.node_id by_id ≡ some to
        → def_for_node defs from ≡ some s
        → def_for_node defs to ≡ some t
        → point_by_key s.outputs c.source.port_key NodeConnectionDirection.output ≡ some o
        → point_by_key t.inputs c.target.port_key NodeConnectionDirection.input ≡ some i
        → PointsFit to s t o i
        → Joins policy defs by_id c
    PointsFit-Joins from to s t o i hf ht hs hd ho hi f = record {
      from = from;
      to = to;
      from_def = s;
      to_def = t;
      out_point = o;
      in_point = i;
      from_found = hf;
      to_found = ht;
      from_defined = hs;
      to_defined = hd;
      out_found = ho;
      in_found = hi;
      values = f.values;
      terminal = f.terminal;
      categories = f.categories;
      kinds = f.kinds;
    }

    -- With both nodes and their definitions at hand.
    check_ports-Joins :
        (from to : FlowNodePlain) (s t : NodeDefinitionContract)
        → get c.source.node_id by_id ≡ some from
        → get c.target.node_id by_id ≡ some to
        → def_for_node defs from ≡ some s
        → def_for_node defs to ≡ some t
        → check_definitions policy c from to (some s) (some t) ≡ []
        → Joins policy defs by_id c
    unfolding check_definitions check_ports
    check_ports-Joins from to s t hf ht hs hd h = elim (Option-cases out) [
      | inl missing ↦ cc (rw missing at h)
      | inr (o, ho) ↦ elim (Option-cases inp) [
        | inl missing ↦ cc (rw (ho, missing) at h)
        | inr (i, hi) ↦
            PointsFit-Joins from to s t o i hf ht hs hd ho hi
              ((check_points_iff to s t o i).0 (rw (ho, hi) at h))
      ]
    ]
      where
        out : Option ConnectionPointContract
        out = point_by_key s.outputs c.source.port_key NodeConnectionDirection.output

        inp : Option ConnectionPointContract
        inp = point_by_key t.inputs c.target.port_key NodeConnectionDirection.input

    module _
        (defined : (k : String) (n : FlowNodePlain)
          → get k by_id ≡ some n
          → (d : NodeDefinitionContract) × (def_for_node defs n ≡ some d)) where
      check_ends-Joins :
          check_ends policy c defs (get c.source.node_id by_id) (get c.target.node_id by_id) ≡ []
          → Joins policy defs by_id c
      unfolding check_ends
      check_ends-Joins h = elim (Option-cases (get c.source.node_id by_id)) [
        | inl missing ↦ cc (rw missing at h)
        | inr (from, hf) ↦ elim (Option-cases (get c.target.node_id by_id)) [
          | inl missing ↦ cc (rw (hf, missing) at h)
          | inr (to, ht) ↦
              let (s, hs) = defined _ from hf in
              let (t, hd) = defined _ to ht in
              check_ports-Joins from to s t hf ht hs hd (rw (hf, ht, hs, hd) at h)
        ]
      ]

    Joins-check_ends :
        Joins policy defs by_id c
        → check_ends policy c defs (get c.source.node_id by_id) (get c.target.node_id by_id) ≡ []
    unfolding check_ends check_definitions check_ports
    Joins-check_ends j =
        rw (j.from_found, j.to_found, j.from_defined, j.to_defined, j.out_found, j.in_found)
          ((check_points_iff j.to j.from_def j.to_def j.out_point j.in_point).1 (record {
            values = j.values;
            terminal = j.terminal;
            categories = j.categories;
            kinds = j.kinds;
          }))

pub check_connections_iff :
    (policy : Option (List (String × List String))) (defs : Definitions)
    (by_id : List (String × FlowNodePlain))
    → ((k : String) (n : FlowNodePlain)
        → get k by_id ≡ some n
        → (d : NodeDefinitionContract) × (def_for_node defs n ≡ some d))
    → (cs : List FlowConnectionPlain)
    → (check_connections policy defs by_id cs ≡ []) ↔ All (Joins policy defs by_id) cs
unfolding check_connections
check_connections_iff policy defs by_id defined [] = (λ _. tt, λ _. refl)
check_connections_iff policy defs by_id defined (c ∷ cs) = (
  λ h.
      let (a, b) = (append-nil_iff _ _).0 h in
      (
        check_ends-Joins policy c defs by_id defined a,
        (check_connections_iff policy defs by_id defined cs).0 b,
      ),
  λ (a, b). (append-nil_iff _ _).1 (
    Joins-check_ends policy c defs by_id a,
    (check_connections_iff policy defs by_id defined cs).1 b,
  ),
)
