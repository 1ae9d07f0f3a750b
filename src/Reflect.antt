-- ===== src/Reflect.antt =====
-- model.go, and what the package uses of `reflect`: struct types with their tags, struct values,
-- and fields by name, the promoted fields of an embedded `Model` included. A struct embeds no
-- other struct than `Model`, and a field's type is read off its zero value.
pub mod Laws
pub mod Embedding
use godynamo.Prelude.{
  ℕ, ◌^◌, String, str_eq, Bool, true, false, ◌&&◌, Option, none, some, List, [], ◌∷◌, map,
  if◌then◌else◌,
}
use godynamo.Dict.{Dict, lookup}
use godynamo.Fault.{Outcome, ok, panic}

-- An instant, counted from the zero `time.Time`.
abbrev pub Time : Type 0
Time = ℕ

-- A `uuid.UUID` by its number; `uuid.Nil` is 0.
abbrev pub Uuid : Type 0
Uuid = ℕ

-- An `int` is kept as its 64-bit pattern.
abbrev pub int_mod : ℕ
int_mod = 2 ^ 64

pub record Model : Type 0 where
  pub id : Uuid
  pub type_name : String
  pub created_at : Time
  pub created_by : String
  pub updated_at : Time
  pub updated_by : String
  pub version : ℕ

abbrev pub zero_model : Model
zero_model = record {
  id = 0;
  type_name = "";
  created_at = 0;
  created_by = "";
  updated_at = 0;
  updated_by = "";
  version = 0;
}

-- A dynamic value of type `any`; `other` is any value that the package passes on as it is.
pub data Any : Type 0 where
  nil : Any
  string : String → Any
  int : ℕ → Any
  time : Time → Any
  uuid : Uuid → Any
  other : ℕ → Any

-- What a field holds: a `Model`, or something else.
pub data FieldValue : Type 0 where
  model_value : Model → FieldValue
  plain : Any → FieldValue

-- `reflect.StructField`. `tag` is the tag string as `StructTag.Lookup` reads it.
pub record StructField : Type 0 where
  pub name : String
  pub anonymous : Bool
  pub exported : Bool
  pub zero_value : FieldValue
  pub tag : Dict String

pub record StructType : Type 0 where
  pub name : String
  pub fields : List StructField

pub record Slot : Type 0 where
  pub decl : StructField
  pub value : FieldValue

pub record Struct : Type 0 where
  pub type_name : String
  pub slots : List Slot

-- `v.Type()`
abbrev pub type_of : Struct → StructType
type_of v = record { name = v.type_name; fields = map (λ s. s.decl) v.slots }

-- `var zero T`
abbrev pub zero_of : StructType → Struct
zero_of t = record {
  type_name = t.name;
  slots = map (λ f. record { decl = f; value = f.zero_value }) t.fields;
}

abbrev pub is_model : FieldValue → Bool
is_model (model_value m) = true
is_model (plain a) = false

-- `field.Type == reflect.TypeFor[Model]()`
abbrev pub has_model_type : StructField → Bool
has_model_type f = is_model f.zero_value

-- `structTag.Lookup(key)`
abbrev pub tag_lookup : StructField → String → Option String
tag_lookup f key = lookup key f.tag

-- The fields of `Model`, by name.
unfoldable pub model_field : Model → String → Option Any
model_field m name =
    if str_eq name "ID"
    then some (uuid m.id)
    else if str_eq name "Type"
    then some (string m.type_name)
    else if str_eq name "CreatedAt"
    then some (time m.created_at)
    else if str_eq name "CreatedBy"
    then some (string m.created_by)
    else if str_eq name "UpdatedAt"
    then some (time m.updated_at)
    else if str_eq name "UpdatedBy"
    then some (string m.updated_by)
    else if str_eq name "Version"
    then some (int m.version)
    else none

unfoldable pub find_slot : String → List Slot → Option Slot
find_slot name [] = none
find_slot name (s ∷ slots) = if str_eq s.decl.name name then some s else find_slot name slots

unfoldable pub find_field : String → List StructField → Option StructField
find_field name [] = none
find_field name (f ∷ fields) = if str_eq f.name name then some f else find_field name fields

abbrev pub promoted : FieldValue → String → Option FieldValue
promoted (model_value m) name = elim (model_field m name) [ none ↦ none | some a ↦ some (plain a) ]
promoted (plain a) name = none

-- The first embedded `Model`, whose fields are promoted.
unfoldable pub find_promoted : String → List Slot → Option FieldValue
find_promoted name [] = none
find_promoted name (s ∷ slots) =
    if s.decl.anonymous && is_model s.value then promoted s.value name else find_promoted name slots

-- A field that a value has by name, and whether it is exported.
pub record Found : Type 0 where
  pub value : FieldValue
  pub exported : Bool

-- `v.FieldByName(name)`: a field of the struct itself hides a promoted one.
unfoldable pub field_by_name : Struct → String → Option Found
field_by_name v name = elim (find_slot name v.slots) [
  | some s ↦ some (record { value = s.value; exported = s.decl.exported })
  | none ↦ elim (find_promoted name v.slots) [
    | some a ↦ some (record { value = a; exported = true })
    | none ↦ none
  ]
]

abbrev promoted_decl : String → Any → StructField
promoted_decl name a = record {
  name = name;
  anonymous = false;
  exported = true;
  zero_value = plain a;
  tag = [];
}

-- `t.FieldByName(name)`; `Model`'s own fields have no tags.
unfoldable pub type_field_by_name : StructType → String → Option StructField
type_field_by_name t name = elim (find_field name t.fields) [
  | some f ↦ some f
  | none ↦ elim (find_promoted name (zero_of t).slots) [
    | some (plain a) ↦ some (promoted_decl name a)
    | _ ↦ none
  ]
]

abbrev model_of_slot : Option Slot → Option Model
model_of_slot (some s) = elim s.value [ model_value m ↦ some m | plain a ↦ none ]
model_of_slot none = none

-- `elem.FieldByName("Model")`, if it is valid and of type `Model`.
unfoldable pub model_of : Struct → Option Model
unfolding find_slot
model_of v = model_of_slot (find_slot "Model" v.slots)

-- `fv.Set(value)` on the struct's own field of that name.
unfoldable pub set_slot : String → FieldValue → List Slot → List Slot
set_slot name value [] = []
set_slot name value (s ∷ slots) =
    if str_eq s.decl.name name
    then record s { value = value } ∷ slots
    else s ∷ set_slot name value slots

abbrev pub set_field : String → FieldValue → Struct → Struct
set_field name value v = record v { slots = set_slot name value v.slots }

abbrev pub set_model : Model → Struct → Struct
set_model m v = set_field "Model" (model_value m) v
