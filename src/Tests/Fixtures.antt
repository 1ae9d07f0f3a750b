-- ===== src/Tests/Fixtures.antt =====
-- The struct types of the tests, and a small world: codecs that keep text fields, and a client
-- that counts its calls and answers from a list.
use godynamo.Prelude.{
  ℕ, String, str_eq, true, false, Option, none, some, List, [], ◌∷◌, ◌++◌, ◌==◌, if◌then◌else◌,
}
use godynamo.Dict.{Dict, lookup}
use godynamo.Fault.{ok, err, foreign}
use godynamo.Reflect.{
  string, int, uuid, other, FieldValue, model_value, plain, Model, zero_model, Slot, Struct,
  StructField, StructType,
}
use godynamo.Sdk.{AttributeValue, s, b, member, Item, Runtime}

abbrev pub model_decl : Dict String → StructField
model_decl tag = record {
  name = "Model";
  anonymous = true;
  exported = true;
  zero_value = model_value zero_model;
  tag = tag;
}

abbrev pub text_decl : String → Dict String → StructField
text_decl name tag = record {
  name = name;
  anonymous = false;
  exported = true;
  zero_value = plain (string "");
  tag = tag;
}

-- `type Task struct { Model; Title string; Notes string }`, with `Notes` compressed
abbrev pub task : StructType
task = record {
  name = "Task";
  fields =
      model_decl [] ∷ text_decl "Title" [] ∷ text_decl "Notes" (("dynamo", "compress") ∷ []) ∷ [];
}

-- `type Order struct { Model "pk:CustomerID;sk:Status,CreatedDate"; ... }`
abbrev pub order : StructType
order = record {
  name = "Order";
  fields =
      model_decl (("dynamo", "pk:CustomerID,Region;sk:Status,CreatedDate") ∷ [])
      ∷ text_decl "CustomerID" []
      ∷ text_decl "Region" []
      ∷ text_decl "Status" (("dynamodbav", "st,omitempty") ∷ [])
      ∷ text_decl "CreatedDate" []
      ∷ [];
}

abbrev pub slot : StructField → FieldValue → Slot
slot f v = record { decl = f; value = v }

abbrev pub model_7 : Model
model_7 = record zero_model { id = 7 }

abbrev pub task_value : Model → String → String → Struct
task_value m title notes = record {
  type_name = "Task";
  slots =
      slot (model_decl []) (model_value m)
      ∷ slot (text_decl "Title" []) (plain (string title))
      ∷ slot (text_decl "Notes" (("dynamo", "compress") ∷ [])) (plain (string notes))
      ∷ [];
}

abbrev pub order_value : String → String → String → String → Struct
order_value customer region status date = record {
  type_name = "Order";
  slots =
      slot (model_decl (("dynamo", "pk:CustomerID,Region;sk:Status,CreatedDate") ∷ []))
        (model_value model_7)
      ∷ slot (text_decl "CustomerID" []) (plain (string customer))
      ∷ slot (text_decl "Region" []) (plain (string region))
      ∷ slot (text_decl "Status" (("dynamodbav", "st,omitempty") ∷ [])) (plain (string status))
      ∷ slot (text_decl "CreatedDate" []) (plain (string date))
      ∷ [];
}

abbrev digit : ℕ → String
digit n = if n == 7 then "7" else if n == 8 then "8" else "0"

abbrev pub show : FieldValue → String
show (plain (uuid n)) = digit n
show (plain (int n)) = digit n
show (plain (string t)) = t
show _ = "?"

abbrev pub attribute_of : Slot → Item
attribute_of x = elim x.value [
  | plain (string t) ↦ (x.decl.name, s t) ∷ []
  | plain _ ↦ []
  | model_value m ↦ ("ID", s (digit m.id)) ∷ ("Version", member m.version) ∷ []
]

abbrev pub attributes_of : List Slot → Item
attributes_of [] = []
attributes_of (x ∷ slots) = attribute_of x ++ attributes_of slots

abbrev pub text_or : Option AttributeValue → FieldValue → FieldValue
text_or (some (s t)) v = plain (string t)
text_or (some (b _)) v = v
text_or (some (member _)) v = v
text_or none v = v

abbrev pub read_slot : Item → Slot → Slot
read_slot av x = elim x.value [
  | plain (string t) ↦ record x { value = text_or (lookup x.decl.name av) x.value }
  | plain _ ↦ x
  | model_value m ↦ x
]

abbrev pub read_slots : Item → List Slot → List Slot
read_slots av [] = []
read_slots av (x ∷ slots) = read_slot av x ∷ read_slots av slots

-- Bytes that spell a text: "n" is one byte, and so on for the texts of the tests.
abbrev pub runtime : Runtime
runtime = record {
  format = show;
  marshal_map = λ v. ok (attributes_of v.slots);
  unmarshal_map = λ av v. (ok tt, record v { slots = read_slots av v.slots });
  marshal = λ a. elim a [
    | string t ↦ ok (s t)
    | other n ↦ err (foreign "cannot marshal")
    | _ ↦ ok (member 0)
  ];
  json_marshal = λ v. elim v [
    | plain (string t) ↦ ok (if str_eq t "note" then 1 ∷ [] else 2 ∷ [])
    | _ ↦ err (foreign "json")
  ];
  json_unmarshal = λ z raw. elim raw [
    | [] ↦ err (foreign "json")
    | c ∷ _ ↦ ok (plain (string (if c == 1 then "note" else "")))
  ];
  gzip = λ x. ok (31 ∷ x);
  gunzip = λ x. elim x [
    | [] ↦ err (foreign "gzip")
    | c ∷ rest ↦ if c == 31 then ok rest else err (foreign "gzip")
  ];
}
