-- ===== src/Value.antt =====
-- JavaScript's `unknown` as the source reads it: JSON values and `undefined`. A number is held by
-- its text and whether it is finite. The fields of an object stand in the order in which they were
-- set; the keys are the source's port and field names, none of them a whole number or a name that
-- every object inherits.
use roya_api.Prelude.{
  String, Bool, true, false, not, ◌||◌, Option, none, some, List, [], ◌∷◌, if◌then◌else◌, ◌==◌,
  string_eq, or_else, ◌≡◌, refl, ap,
}
use roya_api.Prelude.Dict.{get, put}

mutual
  pub data Value : Type 0 where
    undefined : Value
    null : Value
    boolean : Bool → Value
    number : Bool → String → Value
    string : String → Value
    array : Values → Value
    object : Fields → Value

  pub data Values : Type 0 where
    nil : Values
    item : Value → Values → Values

  pub data Fields : Type 0 where
    empty : Fields
    field : String → Value → Fields → Fields

-- `Record<string, unknown>`
abbrev pub Record : Type 0
Record = List (String × Value)

abbrev pub items : Values → List Value
items Values.nil = []
items (Values.item v vs) = v ∷ items vs

abbrev pub values_of : List Value → Values
values_of [] = Values.nil
values_of (v ∷ vs) = Values.item v (values_of vs)

-- `Object.entries(o)`
abbrev pub entries : Fields → Record
entries Fields.empty = []
entries (Fields.field k v fs) = (k, v) ∷ entries fs

abbrev pub fields_of : Record → Fields
fields_of [] = Fields.empty
fields_of ((k, v) ∷ r) = Fields.field k v (fields_of r)

abbrev pub of_record : Record → Value
of_record r = Value.object (fields_of r)

abbrev pub of_list : List Value → Value
of_list vs = Value.array (values_of vs)

pub entries-fields_of : (r : Record) → entries (fields_of r) ≡ r
entries-fields_of [] = refl
entries-fields_of ((k, v) ∷ r) = ap (λ t. (k, v) ∷ t) (entries-fields_of r)

pub items-values_of : (vs : List Value) → items (values_of vs) ≡ vs
items-values_of [] = refl
items-values_of (v ∷ vs) = ap (λ t. v ∷ t) (items-values_of vs)

-- `r[k]`
abbrev pub at : String → Record → Value
at k r = or_else (get k r) Value.undefined

-- `v != null && typeof v === 'object' && !Array.isArray(v)`
abbrev pub as_record : Value → Option Record
as_record Value.undefined = none
as_record Value.null = none
as_record (Value.boolean b) = none
as_record (Value.number f t) = none
as_record (Value.string s) = none
as_record (Value.array vs) = none
as_record (Value.object fs) = some (entries fs)

-- `typeof v === 'string'`
abbrev pub as_string : Value → Option String
as_string Value.undefined = none
as_string Value.null = none
as_string (Value.boolean b) = none
as_string (Value.number f t) = none
as_string (Value.string s) = some s
as_string (Value.array vs) = none
as_string (Value.object fs) = none

-- `Array.isArray(v)`
abbrev pub as_list : Value → Option (List Value)
as_list Value.undefined = none
as_list Value.null = none
as_list (Value.boolean b) = none
as_list (Value.number f t) = none
as_list (Value.string s) = none
as_list (Value.array vs) = some (items vs)
as_list (Value.object fs) = none

abbrev pub is_undefined : Value → Bool
is_undefined Value.undefined = true
is_undefined Value.null = false
is_undefined (Value.boolean b) = false
is_undefined (Value.number f t) = false
is_undefined (Value.string s) = false
is_undefined (Value.array vs) = false
is_undefined (Value.object fs) = false

-- `v == null`
abbrev pub is_nullish : Value → Bool
is_nullish Value.undefined = true
is_nullish Value.null = true
is_nullish (Value.boolean b) = false
is_nullish (Value.number f t) = false
is_nullish (Value.string s) = false
is_nullish (Value.array vs) = false
is_nullish (Value.object fs) = false

-- `v ?? w`
abbrev pub coalesce : Value → Value → Value
coalesce v w = if is_nullish v then w else v

-- `Boolean(v)`; the falsy numbers are 0, -0 and NaN.
abbrev pub truthy : Value → Bool
truthy Value.undefined = false
truthy Value.null = false
truthy (Value.boolean b) = b
truthy (Value.number f t) = not (t == "0" || t == "-0" || t == "NaN")
truthy (Value.string s) = not (s == "")
truthy (Value.array vs) = true
truthy (Value.object fs) = true

-- `Object.assign(out, v)`
unfoldable pub assign : Record → Record → Record
assign out [] = out
assign out ((k, v) ∷ r) = assign (put k v out) r
