-- ===== src/FlowGraph/Definition.antt =====
-- dynamic-flow-graph.validation.ts, `normalizeWireNodeKind` to `nodeDefinitionFromAsset`: a node
-- definition read from a catalog row. The row's `unknown` values are given as far as the code's
-- type tests can tell them apart: a value that fails its test is `none`.
use Prim.Native.Char.{code}
use roya_api.Prelude.{
  String, ℕ, ◌+◌, Bool, true, false, Option, none, some, List, [], ◌∷◌, ◌&&◌, ◌||◌, not,
  if◌then◌else◌, ◌==◌, string_eq, option_eq, or_else, or_option, is_some, any, filter, map, nat_beq,
  leb,
}
use roya_api.Prelude.Text.{trim}
use roya_api.Enums.{
  NodeCategory, NodeKind, kind_value, category_value, BuilderAssetStatus, nd_merger_definition_slug,
}
use roya_api.Category.{resolve_category}
use roya_api.FlowGraph.{ConnectionPointContract, NodeDefinitionContract, FlowNodePlain}

unfoldable pub normalize_wire_node_kind : String → String
normalize_wire_node_kind s =
    if s == "mapper" || s == "merger" then kind_value NodeKind.transform else s

abbrev all_digits : String → Bool
all_digits String.[] = true
all_digits (String.◌∷◌ c s) = leb b'0' (code c) && leb (code c) b'9' && all_digits s

-- `word`, in lower case, begins `s` in either case, and digits follow to the end, at least one.
slot_key : List ℕ → String → Bool
slot_key [] String.[] = false
slot_key [] (String.◌∷◌ c s) = all_digits (String.◌∷◌ c s)
slot_key (w ∷ word) String.[] = false
slot_key (w ∷ word) (String.◌∷◌ c s) =
    (nat_beq (code c) w || nat_beq (code c + 32) w) && slot_key word s

-- `/^slot\d+$/i`
is_slot_key : String → Bool
unfolding slot_key
is_slot_key = slot_key (b's' ∷ b'l' ∷ b'o' ∷ b't' ∷ [])

unfoldable pub has_mapper_slot_ports : List ConnectionPointContract → Bool
unfolding is_slot_key
has_mapper_slot_ports inputs = any (λ p. is_slot_key p.key) inputs

-- `String(d).toLowerCase() === word`, for a word of ASCII letters that are no lower case of others.
equals_lower : String → String → Bool
equals_lower String.[] String.[] = true
equals_lower (String.◌∷◌ c s) (String.◌∷◌ w word) =
    (nat_beq (code c) (code w) || nat_beq (code c + 32) (code w)) && equals_lower s word
equals_lower _ _ = false

unfoldable pub is_likely_input_port : ConnectionPointContract → Bool
unfolding equals_lower
is_likely_input_port p = elim p.direction [ none ↦ true | some d ↦ not (equals_lower d "output") ]

-- A string that is not blank, trimmed.
abbrev trimmed : Option String → Option String
trimmed none = none
trimmed (some s) = if trim s == "" then none else some (trim s)

unfoldable pub merger_slug_from_flow_node : NodeDefinitionContract → FlowNodePlain → Option String
merger_slug_from_flow_node def n = or_option def.slug (trimmed n.definition_slug)

-- `inputPorts.length === 1 && inputPorts[0]?.key === 'in'`
abbrev only_in : List ConnectionPointContract → Bool
only_in (p ∷ []) = p.key == "in"
only_in _ = false

unfoldable pub is_merger_multi_wire_catalog_asset :
    Option String → String → List ConnectionPointContract → Bool
is_merger_multi_wire_catalog_asset slug kind inputs =
    if slug == some nd_merger_definition_slug
    then true
    else if not (kind == kind_value NodeKind.transform)
    then false
    else if has_mapper_slot_ports inputs
    then false
    else only_in (filter is_likely_input_port inputs)

-- A catalog row's `nodeDefinition`.
pub record RawNodeDefinition : Type 0 where
  pub node_kind : String
  pub category : Option NodeCategory
  pub builder_category_key : Option String
  pub node_type_key : Option String
  pub provider_key : Option String
  pub inputs : Option (List ConnectionPointContract)
  pub outputs : Option (List ConnectionPointContract)
  pub allowed_source_kinds : Option (List String)
  pub allowed_source_node_type_keys : Option (List String)
  pub allowed_target_kinds : Option (List String)
  pub allowed_target_node_type_keys : Option (List String)
  pub execution_role : String

pub record AssetDoc : Type 0 where
  pub id : String
  pub slug : Option String
  pub asset_type : String
  pub status : BuilderAssetStatus
  pub node_definition : Option RawNodeDefinition

-- The port without its upper bound, if it is the merger's `in`.
drop_in_max : ConnectionPointContract → ConnectionPointContract
drop_in_max p =
    if not (p.key == "in") || not (is_some p.max_connections)
    then p
    else record p { max_connections = none }

contract_of_raw : AssetDoc → RawNodeDefinition → NodeCategory → NodeDefinitionContract
contract_of_raw doc raw category =
    let kind : String = normalize_wire_node_kind raw.node_kind in
    let inputs : List ConnectionPointContract = or_else raw.inputs [] in
    let slug : Option String = trimmed doc.slug in
    record {
      asset_id = doc.id;
      slug = slug;
      node_kind = kind;
      category = category;
      builder_category_key = or_else (trimmed raw.builder_category_key) (category_value category);
      node_type_key = trimmed raw.node_type_key;
      provider_key = raw.provider_key;
      status = doc.status;
      inputs =
          if is_merger_multi_wire_catalog_asset slug kind inputs
          then map drop_in_max inputs
          else inputs;
      outputs = or_else raw.outputs [];
      allowed_source_kinds = raw.allowed_source_kinds;
      allowed_source_node_type_keys = raw.allowed_source_node_type_keys;
      allowed_target_kinds = raw.allowed_target_kinds;
      allowed_target_node_type_keys = raw.allowed_target_node_type_keys;
      execution_role = raw.execution_role;
    }

abbrev contract_of_category :
    AssetDoc → RawNodeDefinition → Option NodeCategory → Option NodeDefinitionContract
contract_of_category doc raw none = none
contract_of_category doc raw (some category) = some (contract_of_raw doc raw category)

abbrev contract_of_definition : AssetDoc → Option RawNodeDefinition → Option NodeDefinitionContract
contract_of_definition doc none = none
contract_of_definition doc (some raw) =
    contract_of_category doc raw
      (resolve_category raw.category (some (normalize_wire_node_kind raw.node_kind)))

unfoldable pub node_definition_from_asset : AssetDoc → Option NodeDefinitionContract
unfolding contract_of_raw drop_in_max
node_definition_from_asset doc =
    if doc.asset_type == "nodeDefinition"
    then contract_of_definition doc doc.node_definition
    else none
