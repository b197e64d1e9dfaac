-- ===== src/FlowGraph/Compatible/Rules.antt =====
-- What the compatibility tests of dynamic-flow-graph.validation.ts mean.
use roya_api.Prelude.{
  String, Bool, true, false, ◌||◌, Option, none, some, List, [], ◌∷◌, ◌≡◌, ◌≢◌, ◌↔◌, ◌⊎◌, arith,
  Memᴰ, includes_iff, ◌==◌, string_eq, refl, ==_iff, if◌then◌else◌,
}
use roya_api.Enums.{BuilderValueType, value_type_eq}
use roya_api.FlowGraph.{ConnectionPointContract, NodeDefinitionContract, FlowNodePlain}
use roya_api.FlowGraph.Compatible.{
  key_refused, kind_refused, listed_or_same, value_types_compatible, kinds_compatible,
  terminal_sources_compatible, accepted_kinds, accepted_node_types,
}

-- A list of node type keys that is missing or empty permits every node; else the node has a key,
-- and the key is listed.
abbrev pub PermitsKey : Option (List String) → Option String → Type 0
PermitsKey none key = Unit
PermitsKey (some []) key = Unit
PermitsKey (some (k ∷ ks)) none = ⊥
PermitsKey (some (k ∷ ks)) (some key) = (key ≢ "") × Memᴰ key (k ∷ ks)

-- A list of kinds that is missing or empty permits every kind.
abbrev pub PermitsKind : Option (List String) → String → Type 0
PermitsKind none kind = Unit
PermitsKind (some []) kind = Unit
PermitsKind (some (k ∷ ks)) kind = Memᴰ kind (k ∷ ks)

pub key_refused_iff :
    (list : Option (List String)) (key : Option String)
    → (key_refused list key ≡ false) ↔ PermitsKey list key
key_refused_iff none key = (λ _. tt, λ _. refl)
key_refused_iff (some []) key = (λ _. tt, λ _. refl)
key_refused_iff (some (k ∷ ks)) none = (λ h. cc, λ h. absurd h)
key_refused_iff (some (k ∷ ks)) (some key) =
    ground (arith, includes_iff (k ∷ ks) key, ==_iff key "")

pub kind_refused_iff :
    (list : Option (List String)) (kind : String)
    → (kind_refused list kind ≡ false) ↔ PermitsKind list kind
kind_refused_iff none kind = (λ _. tt, λ _. refl)
kind_refused_iff (some []) kind = (λ _. tt, λ _. refl)
kind_refused_iff (some (k ∷ ks)) kind = ground (arith, includes_iff (k ∷ ks) kind)

-- The eight lists of the two definitions and the two ports.
pub record KindsFit (source_def target_def : NodeDefinitionContract)
    (out_point in_point : ConnectionPointContract) : Type 0 where
  pub in_type : PermitsKey in_point.compatible_node_type_keys source_def.node_type_key
  pub out_type : PermitsKey out_point.compatible_node_type_keys target_def.node_type_key
  pub source_type : PermitsKey target_def.allowed_source_node_type_keys source_def.node_type_key
  pub target_type : PermitsKey source_def.allowed_target_node_type_keys target_def.node_type_key
  pub in_kind : PermitsKind in_point.compatible_node_kinds source_def.node_kind
  pub out_kind : PermitsKind out_point.compatible_node_kinds target_def.node_kind
  pub source_kind : PermitsKind target_def.allowed_source_kinds source_def.node_kind
  pub target_kind : PermitsKind source_def.allowed_target_kinds target_def.node_kind

unless_iff :
    (refused rest : Bool)
    → ((if refused then false else rest) ≡ true) ↔ ((refused ≡ false) × (rest ≡ true))
unless_iff refused rest = ground arith

-- `kindsCompatible` holds exactly when each of the eight lists permits the node at its other end.
pub kinds_compatible_iff :
    (s t : NodeDefinitionContract) (o i : ConnectionPointContract)
    → (kinds_compatible s t o i ≡ true) ↔ KindsFit s t o i
unfolding kinds_compatible
kinds_compatible_iff s t o i = (
  λ h0.
      let (a, h1) = (unless_iff _ _).0 h0 in
      let (b, h2) = (unless_iff _ _).0 h1 in
      let (c, h3) = (unless_iff _ _).0 h2 in
      let (d, h4) = (unless_iff _ _).0 h3 in
      let (e, h5) = (unless_iff _ _).0 h4 in
      let (f, h6) = (unless_iff _ _).0 h5 in
      let (g, h7) = (unless_iff _ _).0 h6 in
      let (h, _) = (unless_iff _ _).0 h7 in
      record {
        in_type = (key_refused_iff _ _).0 a;
        out_type = (key_refused_iff _ _).0 b;
        source_type = (key_refused_iff _ _).0 c;
        target_type = (key_refused_iff _ _).0 d;
        in_kind = (kind_refused_iff _ _).0 e;
        out_kind = (kind_refused_iff _ _).0 f;
        source_kind = (kind_refused_iff _ _).0 g;
        target_kind = (kind_refused_iff _ _).0 h;
      },
  λ fit. (unless_iff _ _).1 (
    (key_refused_iff _ _).1 fit.in_type,
    (unless_iff _ _).1 (
      (key_refused_iff _ _).1 fit.out_type,
      (unless_iff _ _).1 (
        (key_refused_iff _ _).1 fit.source_type,
        (unless_iff _ _).1 (
          (key_refused_iff _ _).1 fit.target_type,
          (unless_iff _ _).1 (
            (kind_refused_iff _ _).1 fit.in_kind,
            (unless_iff _ _).1 (
              (kind_refused_iff _ _).1 fit.out_kind,
              (unless_iff _ _).1 (
                (kind_refused_iff _ _).1 fit.source_kind,
                (unless_iff _ _).1 ((kind_refused_iff _ _).1 fit.target_kind, refl),
              ),
            ),
          ),
        ),
      ),
    ),
  ),
)

-- A value fits a port: one of the two types is `any`; or the port lists what it takes, and lists
-- the type or `any`; or it lists nothing, and the types are the same.
abbrev pub ValueTypesFit : BuilderValueType → BuilderValueType → List BuilderValueType → Type 0
ValueTypesFit out_type in_type [] =
    (in_type ≡ BuilderValueType.any) ⊎ (out_type ≡ BuilderValueType.any) ⊎ (out_type ≡ in_type)
ValueTypesFit out_type in_type (t ∷ ts) =
    (in_type ≡ BuilderValueType.any)
    ⊎ (out_type ≡ BuilderValueType.any)
    ⊎ Memᴰ out_type (t ∷ ts)
    ⊎ Memᴰ BuilderValueType.any (t ∷ ts)

fits_iff :
    (out_type in_type : BuilderValueType) (ts : List BuilderValueType)
    → ((if in_type == BuilderValueType.any || out_type == BuilderValueType.any
          then true
          else listed_or_same out_type in_type ts)
        ≡ true)
      ↔ ValueTypesFit out_type in_type ts
fits_iff out_type in_type [] = ground (
  arith,
  ==_iff in_type BuilderValueType.any,
  ==_iff out_type BuilderValueType.any,
  ==_iff out_type in_type,
)
fits_iff out_type in_type (t ∷ ts) = ground (
  arith,
  ==_iff in_type BuilderValueType.any,
  ==_iff out_type BuilderValueType.any,
  includes_iff (t ∷ ts) out_type,
  includes_iff (t ∷ ts) BuilderValueType.any,
)

-- `valueTypesCompatible` holds exactly when the value fits the port.
pub value_types_compatible_iff :
    (out_type in_type : BuilderValueType) (p : ConnectionPointContract)
    → (value_types_compatible out_type in_type p ≡ true)
      ↔ ValueTypesFit out_type in_type p.compatible_value_types
unfolding value_types_compatible
value_types_compatible_iff out_type in_type p = fits_iff out_type in_type p.compatible_value_types

abbrev pub TerminalTakes : FlowNodePlain → NodeDefinitionContract → Type 0
TerminalTakes node source_def =
    PermitsKey (accepted_node_types node.terminal_config) source_def.node_type_key
    × PermitsKind (accepted_kinds node.terminal_config) source_def.node_kind

pub terminal_sources_compatible_iff :
    (node : FlowNodePlain) (source_def : NodeDefinitionContract)
    → (terminal_sources_compatible node source_def ≡ true) ↔ TerminalTakes node source_def
unfolding terminal_sources_compatible
terminal_sources_compatible_iff node source_def = ground (
  arith,
  key_refused_iff (accepted_node_types node.terminal_config) source_def.node_type_key,
  kind_refused_iff (accepted_kinds node.terminal_config) source_def.node_kind,
)
