-- ===== src/Table.antt =====
-- What the package relies on in DynamoDB for single items: a table of rows under a partition key and
-- a sort key, and a client that checks a write's condition against the row and then stores the item.
pub mod Accepted
pub mod Stamped
pub mod Located
pub mod Contention
pub mod ReadBack
pub mod Removed
pub mod Updated
pub mod Preparing
pub mod Queued
pub mod Transacted
pub mod Cancelled
pub mod Retried
pub mod Decided
pub mod Indexed
pub mod History
use godynamo.Prelude.{
  All, ◌⊎◌, ℕ, String, str_eq, ◌≡◌, Bool, true, false, ◌&&◌, Option, none, some, ◌==◌,
  if◌then◌else◌, List, [],
}
use godynamo.Dict.{lookup}
use godynamo.Fault.{Outcome, ok}
use godynamo.Reflect.{Model, Struct, StructType, StructField, int, model_of, type_of, tag_lookup}
use godynamo.Reflect.Embedding.{IsEmbedded, EmbedsModel}
use godynamo.Tags.{resolve_attr_name}
use godynamo.Sdk.{AttributeValue, s, Item}
use godynamo.ZeroKeys.{item_key}
use godynamo.Env.{Env, Expression, PutItemInput}
use godynamo.Db.{Db}

abbrev pub is_none : Option Item → Bool
is_none none = true
is_none (some av) = false

abbrev pub is_number : ℕ → Option ℕ → Bool
is_number n none = false
is_number n (some k) = n == k

abbrev pub number_in : (AttributeValue → Option ℕ) → Option AttributeValue → Option ℕ
number_in number_of none = none
number_in number_of (some a) = number_of a

-- The version that a row holds.
abbrev pub version_in : (AttributeValue → Option ℕ) → Option Item → Option ℕ
version_in number_of none = none
version_in number_of (some av) = number_in number_of (lookup "Version" av)

abbrev pub row_or_empty : Option Item → Item
row_or_empty none = []
row_or_empty (some av) = av

module _ (E : Env) (db : Db E) where
  -- A GetItem answers with a row, or with no attributes if there is none. `Get` asks for no consistent
  -- read, so that the row may be one that was there before.
  abbrev pub GetAnswers : E.Context → E.World → String → Option Item → Type 0
  GetAnswers ctx w key row =
      (db.client.get_item ctx (record { table_name = db.table; key = item_key key key }) w).0
      ≡ ok (row_or_empty row)

-- A PutItem of an item under a condition, as it was built.
abbrev pub conditional_put : String → Item → Expression → PutItemInput
conditional_put table av expr = record {
  table_name = table;
  item = av;
  condition_expression = expr.condition;
  expression_attribute_names = expr.names;
  expression_attribute_values = expr.values;
}

-- A field that leaves the attribute `Version` to the embedded `Model`: it is the `Model`, embedded under
-- no name of its own, or it is not embedded and is not stored as `Version`.
abbrev pub LeavesVersion : StructType → StructField → Type 0
LeavesVersion t f =
    (IsEmbedded f × (tag_lookup f "dynamodbav" ≡ none))
    ⊎ ((f.anonymous ≡ false) × (str_eq (resolve_attr_name t f.name) "Version" ≡ false))

-- The attribute `Version` of a type's items is the field of its `Model`: a field of the type's own that
-- is called or tagged `Version` would hide it.
pub record PromotesVersion (t : StructType) : Type 0 where
  pub embeds : EmbedsModel t.fields
  pub others : All (LeavesVersion t) t.fields

-- Each law is documented behaviour of the service or of an SDK package. A call may also fail in
-- other ways, of which nothing is assumed.
pub record Table (E : Env) (db : Db E) : Type 0 where
  pub rows : E.World → String → String → Option Item
  -- the number in an attribute of type N, as the 64-bit pattern of an `int`
  pub number_of : AttributeValue → Option ℕ
  -- whether a condition holds of a row
  pub holds : E.Condition → Option Item → Bool
  pub clock_rows : (w : E.World) → rows (db.clock w).1 ≡ rows w
  pub uuid_rows : (w : E.World) → rows (E.new_uuid w).1 ≡ rows w
  -- every row has a `PK`, so that it is absent only where there is no row
  pub not_exists_holds :
      (row : Option Item) → holds (E.expression.attribute_not_exists "PK") row ≡ is_none row
  pub equal_holds :
      (n : ℕ) (row : Option Item)
      → holds (E.expression.equal "Version" (int n)) row ≡ is_number n (version_in number_of row)
  -- `MarshalMap` writes the promoted field `Version` as a number, if nothing hides it
  pub marshal_version :
      (v : Struct) (m : Model) (base : Item)
      → PromotesVersion (type_of v)
      → model_of v ≡ some m
      → E.runtime.marshal_map v ≡ ok base
      → version_in number_of (some base) ≡ some m.version
  -- a PutItem that succeeds found its condition true, and stored its item under its keys
  pub put_holds :
      (ctx : E.Context) (w : E.World) (av : Item) (cond : E.Condition) (expr : Expression)
      (p q : String)
      → E.expression.build none none (some cond) none ≡ ok expr
      → lookup "PK" av ≡ some (s p)
      → lookup "SK" av ≡ some (s q)
      → (db.client.put_item ctx (conditional_put db.table av expr) w).0 ≡ ok tt
      → holds cond (rows w p q) ≡ true
  pub put_stores :
      (ctx : E.Context) (w : E.World) (av : Item) (cond : E.Condition) (expr : Expression)
      (p q x y : String)
      → E.expression.build none none (some cond) none ≡ ok expr
      → lookup "PK" av ≡ some (s p)
      → lookup "SK" av ≡ some (s q)
      → (db.client.put_item ctx (conditional_put db.table av expr) w).0 ≡ ok tt
      → rows (db.client.put_item ctx (conditional_put db.table av expr) w).1 x y
        ≡ (if str_eq p x && str_eq q y then some av else rows w x y)
  -- a DeleteItem that succeeds leaves no row under its keys
  pub delete_removes :
      (ctx : E.Context) (w : E.World) (p q x y : String)
      → (db.client.delete_item ctx (record { table_name = db.table; key = item_key p q }) w).0
        ≡ ok tt
      → rows
          (db.client.delete_item ctx (record { table_name = db.table; key = item_key p q }) w).1
          x
          y
        ≡ (if str_eq p x && str_eq q y then none else rows w x y)

-- The version that the write of an item expects in the table; `none` for a new item.
abbrev pub expected : Model → Option ℕ
expected m = if m.created_at == 0 then none else some m.version

-- The configured index attribute is none of the attributes that hold the keys and the version.
pub record HasOwnIndex (E : Env) (db : Db E) : Type 0 where
  pub not_pk : str_eq db.gsi1_pk_attr "PK" ≡ false
  pub not_sk : str_eq db.gsi1_pk_attr "SK" ≡ false
  pub not_version : str_eq db.gsi1_pk_attr "Version" ≡ false
