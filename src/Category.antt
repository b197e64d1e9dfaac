-- ===== src/Category.antt =====
-- common/node-category-rules.ts: which categories may feed which, and the category of a node.
-- A lookup in `NODE_KIND_TO_CATEGORY` is by the kind's string; a string that is no kind has none.
pub mod Feeds
use roya_api.Prelude.{
  String, Bool, true, false, Option, none, some, List, [], ◌∷◌, if◌then◌else◌, ◌==◌, ◌||◌, not,
  ◌&&◌, includes, string_eq,
}
use roya_api.Prelude.Dict.{get}
use roya_api.Enums.{NodeCategory, NodeKind, kind_value, category_eq}

pub node_category_rules : NodeCategory → List NodeCategory
node_category_rules NodeCategory.input =
    NodeCategory.source ∷ NodeCategory.transform ∷ NodeCategory.ai ∷ []
node_category_rules NodeCategory.source =
    NodeCategory.source ∷ NodeCategory.transform ∷ NodeCategory.schema ∷ NodeCategory.ai
    ∷ NodeCategory.terminal ∷ []
node_category_rules NodeCategory.transform =
    NodeCategory.transform ∷ NodeCategory.schema ∷ NodeCategory.ai ∷ NodeCategory.terminal ∷ []
node_category_rules NodeCategory.schema = NodeCategory.ai ∷ NodeCategory.terminal ∷ []
node_category_rules NodeCategory.ai = NodeCategory.terminal ∷ []
node_category_rules NodeCategory.terminal = []

abbrev pub node_kind_to_category : List (String × NodeCategory)
node_kind_to_category =
    (kind_value NodeKind.input_field, NodeCategory.input)
    ∷ (kind_value NodeKind.data_source, NodeCategory.source)
    ∷ (kind_value NodeKind.transform, NodeCategory.transform)
    ∷ (kind_value NodeKind.output_schema, NodeCategory.schema)
    ∷ (kind_value NodeKind.ai_provider, NodeCategory.ai)
    ∷ (kind_value NodeKind.terminal, NodeCategory.terminal)
    ∷ []

-- The category of a node kind's string.
kind_category : String → Option NodeCategory
kind_category k =
    if k == "mapper" || k == "merger"
    then some NodeCategory.transform
    else if not (k == "")
    then get k node_kind_to_category
    else none

unfoldable pub resolve_category : Option NodeCategory → Option String → Option NodeCategory
unfolding kind_category
resolve_category (some c) kind = some c
resolve_category none none = none
resolve_category none (some k) = kind_category k

unfoldable pub is_category_pair_allowed : NodeCategory → NodeCategory → Bool
unfolding node_category_rules
is_category_pair_allowed source_category target_category =
    includes (node_category_rules source_category) target_category
