-- ===== src/Tests/Rows.antt =====
-- A table of rows for the tests: codecs that keep texts and the numbers of a `Model`, and a client
-- that evaluates the conditions that `Put` sends.
use godynamo.Prelude.{
  ℕ, String, str_eq, ◌<>◌, Bool, true, false, Option, none, some, List, [], ◌∷◌, ◌++◌,
  if◌then◌else◌,
}
use godynamo.Dict.{lookup}
use godynamo.Fault.{ok}
use godynamo.Reflect.{Any, string, int, plain, model_value, Model, Slot, model_of}
use godynamo.Sdk.{AttributeValue, s, b, member, Item, Runtime}
use godynamo.Env.{ExpressionApi, WriteRequest}
use godynamo.Table.{is_none, is_number, number_in, version_in}
use godynamo.Tests.Fixtures.{task_value, model_7, text_or}
use godynamo.Tests.Fixtures
use godynamo.Tests.World

pub record RowWorld : Type 0 where
  pub time : ℕ
  pub fresh : ℕ
  pub rows : String → String → Option Item
  pub log : List WriteRequest

abbrev pub text_attr : Slot → Item
text_attr x = elim x.value [
  | plain (string t) ↦ (x.decl.name, s t) ∷ []
  | plain _ ↦ []
  | model_value m ↦ []
]

abbrev pub text_attrs : List Slot → Item
text_attrs [] = []
text_attrs (x ∷ slots) = text_attr x ++ text_attrs slots

abbrev pub model_attrs : Option Model → Item
model_attrs none = []
model_attrs (some m) =
    ("Version", member m.version)
    ∷ ("ID", member m.id)
    ∷ ("Type", s m.type_name)
    ∷ ("CreatedAt", member m.created_at)
    ∷ ("CreatedBy", s m.created_by)
    ∷ ("UpdatedAt", member m.updated_at)
    ∷ ("UpdatedBy", s m.updated_by)
    ∷ []

abbrev pub number_or_zero : Option AttributeValue → ℕ
number_or_zero (some (member n)) = n
number_or_zero (some (s t)) = 0
number_or_zero (some (b c)) = 0
number_or_zero none = 0

abbrev pub text_or_empty : Option AttributeValue → String
text_or_empty (some (s t)) = t
text_or_empty (some (member n)) = ""
text_or_empty (some (b c)) = ""
text_or_empty none = ""

abbrev pub model_from : Item → Model
model_from av = record {
  id = number_or_zero (lookup "ID" av);
  type_name = text_or_empty (lookup "Type" av);
  created_at = number_or_zero (lookup "CreatedAt" av);
  created_by = text_or_empty (lookup "CreatedBy" av);
  updated_at = number_or_zero (lookup "UpdatedAt" av);
  updated_by = text_or_empty (lookup "UpdatedBy" av);
  version = number_or_zero (lookup "Version" av);
}

abbrev pub slot_from : Item → Slot → Slot
slot_from av x = elim x.value [
  | plain (string t) ↦ record x { value = text_or (lookup x.decl.name av) x.value }
  | plain _ ↦ x
  | model_value m ↦ record x { value = model_value (model_from av) }
]

abbrev pub slots_from : Item → List Slot → List Slot
slots_from av [] = []
slots_from av (x ∷ slots) = slot_from av x ∷ slots_from av slots

abbrev pub row_runtime : Runtime
row_runtime = record Fixtures.runtime {
  marshal_map = λ v. ok (model_attrs (model_of v) ++ text_attrs v.slots);
  unmarshal_map = λ av v. (ok tt, record v { slots = slots_from av v.slots });
}

-- A condition is its text and its values.
abbrev pub value_of : Any → AttributeValue
value_of (int n) = member n
value_of (string t) = s t
value_of _ = s "?"

abbrev with_text : String → String × Item
with_text t = (t, [])

abbrev pub condition_text : Option (String × Item) → Option String
condition_text none = none
condition_text (some c) = some c.0

abbrev pub condition_values : Option (String × Item) → Item
condition_values none = []
condition_values (some c) = c.1

-- An update is its text and the number of its `ADD` clause.
abbrev pub add_number : Any → Option ℕ → Option ℕ
add_number (int n) o = some n
add_number (string t) o = o
add_number _ o = o

abbrev pub update_text : Option (String × Option ℕ) → Option String
update_text none = none
update_text (some u) = some u.0

abbrev pub update_values : Option (String × Option ℕ) → Item
update_values none = []
update_values (some (t, none)) = []
update_values (some (t, some n)) = (":add", member n) ∷ []

abbrev key_text : Option (String × List (String × Any)) → Option String
key_text none = none
key_text (some c) = some c.0

abbrev pub row_texts :
    ExpressionApi (String × Item) (String × List (String × Any)) (String × Option ℕ)
row_texts = record {
  attribute_exists = λ a. with_text ("exists " <> a);
  attribute_not_exists = λ a. with_text ("no " <> a);
  equal = λ a v. (a <> "=:v", (":v", value_of v) ∷ []);
  not_equal = λ a v. with_text a;
  greater_than = λ a v. with_text a;
  greater_than_equal = λ a v. with_text a;
  less_than = λ a v. with_text a;
  less_than_equal = λ a v. with_text a;
  begins_with = λ a p. with_text a;
  contains = λ a v. with_text a;
  cond_and = λ c d. (c.0 <> " AND " <> d.0, c.1 ++ d.1);
  key_equal = λ a v. (World.texts.key_equal a v, (a, v) ∷ []);
  key_begins_with = λ a p. (World.texts.key_begins_with a p, []);
  key_between = λ a v w. (World.texts.key_between a v w, []);
  key_and = λ c d. (World.texts.key_and c.0 d.0, c.1 ++ d.1);
  empty_update = ("", none);
  set = λ a v u. (u.0 <> " SET " <> a, u.1);
  add = λ a v u. (u.0 <> " ADD " <> a, add_number v u.1);
  build = λ key_cond filter cond upd. ok (record {
    condition = condition_text cond;
    filter = condition_text filter;
    key_condition = key_text key_cond;
    update = update_text upd;
    names = [];
    values = update_values upd ++ condition_values cond;
  });
}

abbrev pub number_of : AttributeValue → Option ℕ
number_of (member n) = some n
number_of (s t) = none
number_of (b c) = none

abbrev is_version : Option ℕ → Option Item → Bool
is_version none row = false
is_version (some n) row = is_number n (version_in number_of row)

-- The conditions that `Put` sends, on a row.
abbrev pub evaluate : Option String → Item → Option Item → Bool
evaluate none values row = true
evaluate (some t) values row =
    if str_eq t "no PK"
    then is_none row
    else if str_eq t "Version=:v"
    then is_version (number_in number_of (lookup ":v" values)) row
    else false
