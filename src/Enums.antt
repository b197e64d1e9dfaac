-- ===== src/Enums.antt =====
-- common/enums/builder-node.enum.ts and builder-asset-status.enum.ts. An enum is a data type with
-- the string that each member stands for. A node kind is read from persisted rows that may hold
-- other strings (`mapper`, `merger`), so flows and definitions carry the string.
use roya_api.Prelude.{String, StrictEq, ◌≡◌, ◌↔◌, Bool, true, false, arith}

pub data NodeCategory : Type 0 where
  input source transform schema ai terminal : NodeCategory

abbrev pub category_value : NodeCategory → String
category_value NodeCategory.input = "input"
category_value NodeCategory.source = "source"
category_value NodeCategory.transform = "transform"
category_value NodeCategory.schema = "schema"
category_value NodeCategory.ai = "ai"
category_value NodeCategory.terminal = "terminal"

pub data NodeKind : Type 0 where
  input_field data_source transform output_schema ai_provider terminal : NodeKind

abbrev pub kind_value : NodeKind → String
kind_value NodeKind.input_field = "inputField"
kind_value NodeKind.data_source = "dataSource"
kind_value NodeKind.transform = "transform"
kind_value NodeKind.output_schema = "outputSchema"
kind_value NodeKind.ai_provider = "aiProvider"
kind_value NodeKind.terminal = "terminal"

abbrev pub nd_mapper_definition_slug : String
nd_mapper_definition_slug = "nd-mapper"

abbrev pub nd_merger_definition_slug : String
nd_merger_definition_slug = "nd-merger"

pub data NodeConnectionDirection : Type 0 where
  input output : NodeConnectionDirection

abbrev pub direction_value : NodeConnectionDirection → String
direction_value NodeConnectionDirection.input = "input"
direction_value NodeConnectionDirection.output = "output"

pub data BuilderValueType : Type 0 where
  string number boolean object array schema prompt result any : BuilderValueType

abbrev pub value_type_value : BuilderValueType → String
value_type_value BuilderValueType.string = "string"
value_type_value BuilderValueType.number = "number"
value_type_value BuilderValueType.boolean = "boolean"
value_type_value BuilderValueType.object = "object"
value_type_value BuilderValueType.array = "array"
value_type_value BuilderValueType.schema = "schema"
value_type_value BuilderValueType.prompt = "prompt"
value_type_value BuilderValueType.result = "result"
value_type_value BuilderValueType.any = "any"

pub data MapperTransform : Type 0 where
  direct default_value format_conversion filter combine_fields : MapperTransform

pub data BranchResultStatus : Type 0 where
  pending running completed failed warning : BranchResultStatus

pub data ValidationIssueSeverity : Type 0 where
  error warning : ValidationIssueSeverity

pub data FlowValidationTargetType : Type 0 where
  report_flow node_definition published_snapshot : FlowValidationTargetType

pub data BuilderAssetStatus : Type 0 where
  active inactive archived : BuilderAssetStatus

-- `===` on the members.
abbrev category_beq : NodeCategory → NodeCategory → Bool
category_beq NodeCategory.input NodeCategory.input = true
category_beq NodeCategory.source NodeCategory.source = true
category_beq NodeCategory.transform NodeCategory.transform = true
category_beq NodeCategory.schema NodeCategory.schema = true
category_beq NodeCategory.ai NodeCategory.ai = true
category_beq NodeCategory.terminal NodeCategory.terminal = true
category_beq _ _ = false

pub category_beq_iff : (a b : NodeCategory) → (category_beq a b ≡ true) ↔ (a ≡ b)
category_beq_iff NodeCategory.input b = ground arith
category_beq_iff NodeCategory.source b = ground arith
category_beq_iff NodeCategory.transform b = ground arith
category_beq_iff NodeCategory.schema b = ground arith
category_beq_iff NodeCategory.ai b = ground arith
category_beq_iff NodeCategory.terminal b = ground arith

instance abbrev pub category_eq : StrictEq NodeCategory
category_eq = record { equal = category_beq; equal_iff = category_beq_iff }

-- `===` on the members.
abbrev direction_beq : NodeConnectionDirection → NodeConnectionDirection → Bool
direction_beq NodeConnectionDirection.input NodeConnectionDirection.input = true
direction_beq NodeConnectionDirection.output NodeConnectionDirection.output = true
direction_beq _ _ = false

pub direction_beq_iff : (a b : NodeConnectionDirection) → (direction_beq a b ≡ true) ↔ (a ≡ b)
direction_beq_iff NodeConnectionDirection.input b = ground arith
direction_beq_iff NodeConnectionDirection.output b = ground arith

instance abbrev pub direction_eq : StrictEq NodeConnectionDirection
direction_eq = record { equal = direction_beq; equal_iff = direction_beq_iff }

-- `===` on the members.
abbrev value_type_beq : BuilderValueType → BuilderValueType → Bool
value_type_beq BuilderValueType.string BuilderValueType.string = true
value_type_beq BuilderValueType.number BuilderValueType.number = true
value_type_beq BuilderValueType.boolean BuilderValueType.boolean = true
value_type_beq BuilderValueType.object BuilderValueType.object = true
value_type_beq BuilderValueType.array BuilderValueType.array = true
value_type_beq BuilderValueType.schema BuilderValueType.schema = true
value_type_beq BuilderValueType.prompt BuilderValueType.prompt = true
value_type_beq BuilderValueType.result BuilderValueType.result = true
value_type_beq BuilderValueType.any BuilderValueType.any = true
value_type_beq _ _ = false

pub value_type_beq_iff : (a b : BuilderValueType) → (value_type_beq a b ≡ true) ↔ (a ≡ b)
value_type_beq_iff BuilderValueType.string b = ground arith
value_type_beq_iff BuilderValueType.number b = ground arith
value_type_beq_iff BuilderValueType.boolean b = ground arith
value_type_beq_iff BuilderValueType.object b = ground arith
value_type_beq_iff BuilderValueType.array b = ground arith
value_type_beq_iff BuilderValueType.schema b = ground arith
value_type_beq_iff BuilderValueType.prompt b = ground arith
value_type_beq_iff BuilderValueType.result b = ground arith
value_type_beq_iff BuilderValueType.any b = ground arith

instance abbrev pub value_type_eq : StrictEq BuilderValueType
value_type_eq = record { equal = value_type_beq; equal_iff = value_type_beq_iff }

-- `===` on the members.
abbrev asset_status_beq : BuilderAssetStatus → BuilderAssetStatus → Bool
asset_status_beq BuilderAssetStatus.active BuilderAssetStatus.active = true
asset_status_beq BuilderAssetStatus.inactive BuilderAssetStatus.inactive = true
asset_status_beq BuilderAssetStatus.archived BuilderAssetStatus.archived = true
asset_status_beq _ _ = false

pub asset_status_beq_iff : (a b : BuilderAssetStatus) → (asset_status_beq a b ≡ true) ↔ (a ≡ b)
asset_status_beq_iff BuilderAssetStatus.active b = ground arith
asset_status_beq_iff BuilderAssetStatus.inactive b = ground arith
asset_status_beq_iff BuilderAssetStatus.archived b = ground arith

instance abbrev pub asset_status_eq : StrictEq BuilderAssetStatus
asset_status_eq = record { equal = asset_status_beq; equal_iff = asset_status_beq_iff }
