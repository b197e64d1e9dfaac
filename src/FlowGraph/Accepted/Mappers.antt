-- ===== src/FlowGraph/Accepted/Mappers.antt =====
-- The mapper phase of `validateDynamicFlowGraph` against `Accepted`'s account of it.
use roya_api.Prelude.{
  String, Bool, true, false, not, ◌&&◌, Option, none, some, List, [], ◌∷◌, ◌≡◌, ◌≢◌, ◌↔◌, ◌⊎◌, inr,
  arith, All, refl, ==_iff, string_eq, includes_iff, if◌then◌else◌, or_else, ⊎_elim,
}
use roya_api.Enums.{MapperTransform}
use roya_api.FlowGraph.{
  MapperRule, NodeDefinitionContract, FlowNodePlain, FlowConnectionPlain, Definitions, def_for_node,
  Issues,
}
use roya_api.FlowGraph.MapperRules.{
  first_segment, source_missing, rule_source_fault, rule_filter_fault, check_rules, is_merger_node,
  needs_mapper_rules, upstream_keys, check_mapper, check_mappers, is_direct, is_filter,
}
use roya_api.FlowGraph.Accepted.{SourceFits, RuleFits, MapperFits}
use roya_api.FlowGraph.Accepted.Base.{append-nil_iff, when_append_iff}

source_iff :
    (upstream : List String) (path : Option String)
    → (source_missing upstream path ≡ false) ↔ SourceFits upstream path
source_iff upstream none = ground arith
source_iff upstream (some path) =
    ground (
      arith,
      ==_iff path "",
      includes_iff upstream path,
      includes_iff upstream (first_segment path),
    )

direct_iff : (t : MapperTransform) → (is_direct t ≡ false) ↔ (t ≢ MapperTransform.direct)
direct_iff t = ground arith

filter_iff : (t : MapperTransform) → (is_filter t ≡ false) ↔ (t ≢ MapperTransform.filter)
filter_iff t = ground arith

and3_iff : (a b c : Bool) → ((a && b && c) ≡ false) ↔ ((a ≡ false) ⊎ (b ≡ false) ⊎ (c ≡ false))
and3_iff a b c = ground arith

and_not_iff : (a b : Bool) → ((a && not b) ≡ false) ↔ ((a ≡ false) ⊎ (b ≡ true))
and_not_iff a b = ground arith

rule_iff :
    (upstream : List String) (rule : MapperRule)
    → ((rule_source_fault upstream rule ≡ false) × (rule_filter_fault rule ≡ false))
      ↔ RuleFits upstream rule
rule_iff upstream rule = ground (
  arith,
  direct_iff rule.transform,
  filter_iff rule.transform,
  and3_iff (is_direct rule.transform) rule.required (source_missing upstream rule.source_path),
  and_not_iff (is_filter rule.transform) rule.has_field_parameter,
  source_iff upstream rule.source_path,
)

check_rules_iff :
    (n : FlowNodePlain) (upstream : List String) (rules : List MapperRule)
    → (check_rules n upstream rules ≡ []) ↔ All (RuleFits upstream) rules
unfolding check_rules
check_rules_iff n upstream [] = (λ _. tt, λ _. refl)
check_rules_iff n upstream (rule ∷ rules) = (
  λ h.
      let (a, h1) = (when_append_iff _ _ _).0 h in
      let (b, h2) = (when_append_iff _ _ _).0 h1 in
      ((rule_iff upstream rule).0 (a, b), (check_rules_iff n upstream rules).0 h2),
  λ (f, fs).
      let (a, b) = (rule_iff upstream rule).1 f in
      (when_append_iff _ _ _).1
        (a, (when_append_iff _ _ _).1 (b, (check_rules_iff n upstream rules).1 fs)),
)

skip_iff :
    (a b : Bool) (issues : Issues) {Q : Type 0}
    → (issues ≡ []) ↔ Q
    → ((if a then [] else if not b then [] else issues) ≡ []) ↔ ((a ≡ true) ⊎ (b ≡ false) ⊎ Q)
skip_iff true b issues h = ground arith
skip_iff false false issues h = ground arith
skip_iff false true issues h = (λ e. inr (inr (h.0 e)), ⊎_elim (λ e. cc) (⊎_elim (λ e. cc) h.1))

module _ (defs : Definitions) (by_id : List (String × FlowNodePlain))
    (cs : List FlowConnectionPlain) where
  mapper_iff :
      (n : FlowNodePlain) (def : Option NodeDefinitionContract)
      → (check_mapper defs by_id cs n def ≡ []) ↔ MapperFits defs by_id cs n def
  mapper_iff n none = (λ _. tt, λ _. refl)
  mapper_iff n (some def) =
      skip_iff (is_merger_node n def) (needs_mapper_rules n def) _
        (check_rules_iff n (upstream_keys defs by_id n.node_id [] cs) (or_else n.mapper_rules []))

  pub check_mappers_iff :
      (ns : List FlowNodePlain)
      → (check_mappers defs by_id cs ns ≡ [])
        ↔ All (λ n. MapperFits defs by_id cs n (def_for_node defs n)) ns
  unfolding check_mappers
  check_mappers_iff [] = (λ _. tt, λ _. refl)
  check_mappers_iff (n ∷ ns) = (
    λ h.
        let (a, b) = (append-nil_iff _ _).0 h in
        ((mapper_iff n (def_for_node defs n)).0 a, (check_mappers_iff ns).0 b),
    λ (a, b).
        (append-nil_iff _ _).1
          ((mapper_iff n (def_for_node defs n)).1 a, (check_mappers_iff ns).1 b),
  )
