-- ===== src/Category/Feeds.antt =====
-- The connection matrix of node-category-rules.ts as its comment gives it, against the table.
use roya_api.Prelude.{true, ◌≡◌, ◌↔◌, arith}
use roya_api.Enums.{NodeCategory, category_eq}
use roya_api.Category.{is_category_pair_allowed}

-- INPUT -> SOURCE | TRANSFORM | AI, and so on: a source may feed another source.
pub data Feeds : NodeCategory → NodeCategory → Type 0 where
  input_source : Feeds NodeCategory.input NodeCategory.source
  input_transform : Feeds NodeCategory.input NodeCategory.transform
  input_ai : Feeds NodeCategory.input NodeCategory.ai
  source_source : Feeds NodeCategory.source NodeCategory.source
  source_transform : Feeds NodeCategory.source NodeCategory.transform
  source_schema : Feeds NodeCategory.source NodeCategory.schema
  source_ai : Feeds NodeCategory.source NodeCategory.ai
  source_terminal : Feeds NodeCategory.source NodeCategory.terminal
  transform_transform : Feeds NodeCategory.transform NodeCategory.transform
  transform_schema : Feeds NodeCategory.transform NodeCategory.schema
  transform_ai : Feeds NodeCategory.transform NodeCategory.ai
  transform_terminal : Feeds NodeCategory.transform NodeCategory.terminal
  schema_ai : Feeds NodeCategory.schema NodeCategory.ai
  schema_terminal : Feeds NodeCategory.schema NodeCategory.terminal
  ai_terminal : Feeds NodeCategory.ai NodeCategory.terminal

is_category_pair_allowed-Feeds :
    (s t : NodeCategory) → is_category_pair_allowed s t ≡ true → Feeds s t
unfolding is_category_pair_allowed
is_category_pair_allowed-Feeds NodeCategory.input NodeCategory.source h = input_source
is_category_pair_allowed-Feeds NodeCategory.input NodeCategory.transform h = input_transform
is_category_pair_allowed-Feeds NodeCategory.input NodeCategory.ai h = input_ai
is_category_pair_allowed-Feeds NodeCategory.source NodeCategory.source h = source_source
is_category_pair_allowed-Feeds NodeCategory.source NodeCategory.transform h = source_transform
is_category_pair_allowed-Feeds NodeCategory.source NodeCategory.schema h = source_schema
is_category_pair_allowed-Feeds NodeCategory.source NodeCategory.ai h = source_ai
is_category_pair_allowed-Feeds NodeCategory.source NodeCategory.terminal h = source_terminal
is_category_pair_allowed-Feeds NodeCategory.transform NodeCategory.transform h = transform_transform
is_category_pair_allowed-Feeds NodeCategory.transform NodeCategory.schema h = transform_schema
is_category_pair_allowed-Feeds NodeCategory.transform NodeCategory.ai h = transform_ai
is_category_pair_allowed-Feeds NodeCategory.transform NodeCategory.terminal h = transform_terminal
is_category_pair_allowed-Feeds NodeCategory.schema NodeCategory.ai h = schema_ai
is_category_pair_allowed-Feeds NodeCategory.schema NodeCategory.terminal h = schema_terminal
is_category_pair_allowed-Feeds NodeCategory.ai NodeCategory.terminal h = ai_terminal
is_category_pair_allowed-Feeds _ _ h = cc

Feeds-is_category_pair_allowed :
    {s t : NodeCategory} → Feeds s t → is_category_pair_allowed s t ≡ true
unfolding is_category_pair_allowed
Feeds-is_category_pair_allowed input_source = ground arith
Feeds-is_category_pair_allowed input_transform = ground arith
Feeds-is_category_pair_allowed input_ai = ground arith
Feeds-is_category_pair_allowed source_source = ground arith
Feeds-is_category_pair_allowed source_transform = ground arith
Feeds-is_category_pair_allowed source_schema = ground arith
Feeds-is_category_pair_allowed source_ai = ground arith
Feeds-is_category_pair_allowed source_terminal = ground arith
Feeds-is_category_pair_allowed transform_transform = ground arith
Feeds-is_category_pair_allowed transform_schema = ground arith
Feeds-is_category_pair_allowed transform_ai = ground arith
Feeds-is_category_pair_allowed transform_terminal = ground arith
Feeds-is_category_pair_allowed schema_ai = ground arith
Feeds-is_category_pair_allowed schema_terminal = ground arith
Feeds-is_category_pair_allowed ai_terminal = ground arith

-- The table allows a pair of categories exactly when the documented matrix lists it.
pub is_category_pair_allowed_iff :
    (s t : NodeCategory) → (is_category_pair_allowed s t ≡ true) ↔ Feeds s t
is_category_pair_allowed_iff s t =
    (is_category_pair_allowed-Feeds s t, Feeds-is_category_pair_allowed)
