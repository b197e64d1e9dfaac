-- ===== src/FlowGraph/MapperRules.antt =====
-- dynamic-flow-graph.validation.ts, `validateMapperRules` and the loop that calls it: the rules of
-- mapper nodes against the outputs that feed them.
use Prim.Native.Char.{code}
use roya_api.Prelude.{
  String, Bool, true, false, Option, none, some, List, [], ◌∷◌, ◌++◌, ◌&&◌, ◌||◌, not,
  if◌then◌else◌, ◌==◌, string_eq, option_eq, includes, add, is_some, nat_beq, or_else,
}
use roya_api.Prelude.Dict.{get}
use roya_api.Prelude.Text.{template}
use roya_api.Enums.{
  NodeKind, kind_value, nd_mapper_definition_slug, nd_merger_definition_slug, MapperTransform,
  NodeConnectionDirection, ValidationIssueSeverity,
}
use roya_api.FlowGraph.{
  MapperRule, NodeDefinitionContract, FlowNodePlain, FlowConnectionPlain, Issues, Definitions,
  DynamicValidationIssue, ConnectionPointContract, flow_issue, issue_when, no_refs, def_for_node,
}
use roya_api.FlowGraph.Definition.{is_merger_multi_wire_catalog_asset, merger_slug_from_flow_node}
use roya_api.FlowGraph.Compatible.{point_by_key}

-- `path.split('.')[0]`
unfoldable pub first_segment : String → String
first_segment String.[] = String.[]
first_segment (String.◌∷◌ c s) =
    if nat_beq (code c) b'.' then String.[] else String.◌∷◌ c (first_segment s)

abbrev pub is_direct : MapperTransform → Bool
is_direct MapperTransform.direct = true
is_direct _ = false

abbrev pub is_filter : MapperTransform → Bool
is_filter MapperTransform.filter = true
is_filter _ = false

-- `path && !has(path) && !has(path.split('.')[0])`
abbrev pub source_missing : List String → Option String → Bool
source_missing upstream none = false
source_missing upstream (some path) =
    not (path == "") && not (includes upstream path) && not (includes upstream (first_segment path))

abbrev pub rule_source_fault : List String → MapperRule → Bool
rule_source_fault upstream rule =
    is_direct rule.transform && rule.required && source_missing upstream rule.source_path

abbrev pub rule_filter_fault : MapperRule → Bool
rule_filter_fault rule = is_filter rule.transform && not rule.has_field_parameter

abbrev rule_error : FlowNodePlain → MapperRule → String → String → DynamicValidationIssue
rule_error n rule code message =
    flow_issue code (template ("flowNodes." ∷ n.node_id ∷ ".mapperRules." ∷ rule.rule_id ∷ []))
      message ValidationIssueSeverity.error no_refs

unfoldable pub check_rules : FlowNodePlain → List String → List MapperRule → Issues
check_rules n upstream [] = []
check_rules n upstream (rule ∷ rules) =
    issue_when (rule_source_fault upstream rule) (
      rule_error n rule "mapper_missing_source" (
        template (
          "Source path \""
          ∷ or_else rule.source_path ""
          ∷ "\" is not present on upstream outputs."
          ∷ [])))
    ++ (issue_when (rule_filter_fault rule) (
          rule_error n rule "mapper_filter_needs_field"
            "Filter transform requires a \"field\" parameter.")
        ++ check_rules n upstream rules)

abbrev pub is_merger_node : FlowNodePlain → NodeDefinitionContract → Bool
is_merger_node n def =
    n.node_kind == "merger"
    || is_merger_multi_wire_catalog_asset (merger_slug_from_flow_node def n) def.node_kind
        def.inputs

abbrev pub needs_mapper_rules : FlowNodePlain → NodeDefinitionContract → Bool
needs_mapper_rules n def =
    n.node_kind == "mapper"
    || def.slug == some nd_mapper_definition_slug
    || (n.node_kind == kind_value NodeKind.transform
        && is_some def.slug
        && not (def.slug == some nd_merger_definition_slug))

-- The key of the output port that a connection reads, if its source, definition and port are known.
abbrev source_port : Option NodeDefinitionContract → String → Option ConnectionPointContract
source_port none key = none
source_port (some def) key = point_by_key def.outputs key NodeConnectionDirection.output

abbrev source_point : Definitions → Option FlowNodePlain → String → Option ConnectionPointContract
source_point defs none key = none
source_point defs (some from) key = source_port (def_for_node defs from) key

abbrev add_point : List String → Option ConnectionPointContract → List String
add_point upstream none = upstream
add_point upstream (some op) = add upstream op.key

module _ (defs : Definitions) (by_id : List (String × FlowNodePlain)) where
  -- The set `upstream` of a node.
  unfoldable pub upstream_keys : String → List String → List FlowConnectionPlain → List String
  upstream_keys node_id upstream [] = upstream
  upstream_keys node_id upstream (c ∷ cs) =
      upstream_keys node_id
        (if not (c.target.node_id == node_id)
          then upstream
          else add_point upstream
              (source_point defs (get c.source.node_id by_id) c.source.port_key))
        cs

  abbrev pub check_mapper :
      List FlowConnectionPlain → FlowNodePlain → Option NodeDefinitionContract → Issues
  check_mapper cs n none = []
  check_mapper cs n (some def) =
      if is_merger_node n def
      then []
      else if not (needs_mapper_rules n def)
      then []
      else check_rules n (upstream_keys n.node_id [] cs) (or_else n.mapper_rules [])

  unfoldable pub check_mappers : List FlowConnectionPlain → List FlowNodePlain → Issues
  check_mappers cs [] = []
  check_mappers cs (n ∷ ns) = check_mapper cs n (def_for_node defs n) ++ check_mappers cs ns
