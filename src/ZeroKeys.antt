-- ===== src/ZeroKeys.antt =====
-- crud.go and model.go: the embedded `Model` of a struct, `SetType`, the keys of a zero value with
-- an ID, and the check that a type's keys need no more than the ID.
pub mod Laws
use godynamo.Prelude.{
  String, ◌<>◌, ◌&&◌, Option, none, some, List, [], ◌∷◌, is_empty, if◌then◌else◌,
}
use godynamo.Fault.{Outcome, Error, ok, err, panic, wrapped, sentinel, err_non_default_key, ◌>>=◌}
use godynamo.Reflect.{Model, Struct, StructType, Uuid, zero_of, model_of, set_model}
use godynamo.Sdk.{s, Item, Runtime}
use godynamo.Tags.{parse_tags_fresh}
use godynamo.Keys.{struct, pointer, pk, sk}

abbrev or_panic : String → Option Model → Outcome Model
or_panic m none = panic m
or_panic m (some model) = ok model

-- `modelFieldOf` on a pointer to this struct
unfoldable pub model_field_of : Struct → Outcome Model
model_field_of v = or_panic "godynamo: struct must embed godynamo.Model" (model_of v)

-- `SetType` on a pointer to this struct
unfoldable pub set_type : Struct → Outcome Struct
set_type v = do
  m ← or_panic "godynamo: SetType requires a struct embedding godynamo.Model" (model_of v)
  ok (set_model (record m { type_name = v.type_name }) v)

-- `itemKey`
abbrev pub item_key : String → String → Item
item_key p q = ("PK", s p) ∷ ("SK", s q) ∷ []

abbrev pub non_default_key_err : String → String → Error
non_default_key_err op type_name =
    wrapped
      ("godynamo: " <> op <> " requires T to use the default (ID-only) PK/SK; " <> type_name
        <> "'s dynamo tag references other fields — use Query or TransactGet instead")
      (sentinel err_non_default_key)

-- `requiresDefaultKey[T](op)`; `%T` of a zero value is taken to print the type's name.
unfoldable pub requires_default_key : StructType → String → Outcome (Unit {0})
requires_default_key t op = do
  mt ← parse_tags_fresh t
  if is_empty mt.pk_fields && is_empty mt.sk_fields
      then ok tt
      else err (non_default_key_err op t.name)

module _ (R : Runtime) where
  -- `zeroKeys[T](id)`
  unfoldable pub zero_keys : StructType → Uuid → Outcome (String × String)
  unfolding model_field_of
  zero_keys t id = do
    m ← model_field_of (zero_of t)
    let v = pointer (struct (set_model (record m { id = id }) (zero_of t)))
    p ← pk R v
    q ← sk R v
    ok (p, q)

  -- The keys of queued IDs, in order.
  unfoldable pub keys_of : StructType → List Uuid → Outcome (List Item)
  keys_of t [] = ok []
  keys_of t (id ∷ ids) =
      let rest = keys_of t ids in
      zero_keys t id >>= λ k. rest >>= λ keys. ok (item_key k.0 k.1 ∷ keys)
