-- ===== src/Sdk.antt =====
-- What the package takes from the AWS SDK and the standard library and does not implement: the
-- attribute values, and the codecs as a record of functions.
use godynamo.Prelude.{ℕ, String, List}
use godynamo.Dict.{Dict}
use godynamo.Fault.{Outcome}
use godynamo.Reflect.{Any, FieldValue, Struct}

abbrev pub Bytes : Type 0
Bytes = List ℕ

-- `types.AttributeValue`. The package makes and tells apart the members S and B; `member` stands
-- for any value of the others.
pub data AttributeValue : Type 0 where
  s : String → AttributeValue
  b : Bytes → AttributeValue
  member : ℕ → AttributeValue

-- `map[string]types.AttributeValue`
abbrev pub Item : Type 0
Item = Dict AttributeValue

pub record Runtime : Type 0 where
  -- `fmt.Sprint` of a value that is not a string (the `String` method of a UUID or a time)
  pub format : FieldValue → String
  -- package attributevalue: `MarshalMap`, `UnmarshalMap` into a struct (which is written to on
  -- errors too), and `Marshal`
  pub marshal_map : Struct → Outcome Item
  pub unmarshal_map : Item → Struct → Outcome (Unit {0}) × Struct
  pub marshal : Any → Outcome AttributeValue
  -- `json.Marshal`, and `json.Unmarshal` into a new value of the type of the first argument
  pub json_marshal : FieldValue → Outcome Bytes
  pub json_unmarshal : FieldValue → Bytes → Outcome FieldValue
  -- a gzip writer written to once and closed; a gzip reader read to its end
  pub gzip : Bytes → Outcome Bytes
  pub gunzip : Bytes → Outcome Bytes
