-- ===== src/Crud.antt =====
-- crud.go: audit stamping, and Put, Get and Delete of one item.
pub mod Stamping
pub mod Written
pub mod Putting
use godynamo.Prelude.{
  ℕ, ◌+◌, ◌%◌, String, ◌<>◌, Bool, true, false, not, Option, none, some, List, [], ◌∷◌, is_empty,
  ◌==◌, if◌then◌else◌,
}
use godynamo.Dict.{insert}
use godynamo.Fault.{
  Outcome, ok, err, panic, Error, wrapped, sentinel, err_not_found, err_optimistic_lock,
  as_conditional_check_failed,
}
use godynamo.Io.{
  Pointer, null, at, State, Io, pure, fail, lift, call, ask, wrapping, map_err, heap_read,
  heap_write, ◌>>=◌, ◌>>◌,
}
use godynamo.Reflect.{int, Model, Struct, StructType, Uuid, Time, int_mod, zero_of, set_model}
use godynamo.Sdk.{AttributeValue, s, Item, Runtime}
use godynamo.Keys.{struct, pointer, pk, sk}
use godynamo.ZeroKeys.{model_field_of, set_type, item_key, requires_default_key, zero_keys}
use godynamo.Compress.{marshal_item, unmarshal_new}
use godynamo.Env.{Env, Client, Expression, KeyInput, PutItemInput}
use godynamo.Db.{Db}

-- `item.(*T)` as an address; a nil pointer panics in `modelFieldOf`.
abbrev pub address : Pointer → Outcome ℕ
address null = panic "godynamo: expected a non-nil pointer to a struct embedding Model"
address (at p) = ok p

module _ (E : Env) where
  open E use {World, Context, Condition, runtime, expression, uuid_string}

  -- `asOptimisticLockErr`
  unfoldable pub as_optimistic_lock_err : String → String → Uuid → Error → Error
  as_optimistic_lock_err action type_name id e =
      let message : String =
        "godynamo: " <> action <> " " <> type_name <> " (id=" <> uuid_string id <> ")" in
      if as_conditional_check_failed e
      then wrapped message (sentinel err_optimistic_lock)
      else wrapped message e

  -- The new `Model` of an item that is created.
  abbrev pub created : Struct → Model → Uuid → Time → String → Model
  created v m id now actor = record {
    id = id;
    type_name = v.type_name;
    created_at = now;
    created_by = actor;
    updated_at = now;
    updated_by = actor;
    version = 1;
  }

  -- The new `Model` of an item that is written again.
  abbrev pub updated : Model → Time → String → Model
  updated m now actor = record m {
    updated_at = now;
    updated_by = actor;
    version = (m.version + 1) % int_mod;
  }

  fresh_id : Model → Io World Uuid
  fresh_id m = if m.id == 0 then ask E.new_uuid else pure m.id

  -- The rest of `stampAndMarshal`: marshal the stamped item and put its keys in the map.
  unfoldable pub marshal_stamped :
      Db E
      → (p : ℕ) (type_name : String) (id : Uuid) → Condition
      → Bool
      → Io World (Item × Condition)
  marshal_stamped db p type_name id cond new_item = do
    v ← heap_read p
    av ←
        wrapping ("godynamo: marshaling " <> type_name <> " (id=" <> uuid_string id <> ")")
          (lift (marshal_item runtime v))
    k ← lift (pk runtime (pointer (struct v)))
    q ← lift (sk runtime (pointer (struct v)))
    let keyed = insert "SK" (s q) (insert "PK" (s k) av)
    pure ((if new_item then insert db.gsi1_pk_attr (s type_name) keyed else keyed), cond)

  -- The stamping of `stampAndMarshal`. The item is written to in place, before the marshaling that
  -- may fail; the error message has the ID from before the stamping.
  unfoldable pub stamp_and_marshal : Db E → Context → Pointer → Io World (Item × Condition)
  unfolding fresh_id
  stamp_and_marshal db ctx item = do
    p ← lift (address item)
    v ← heap_read p
    m ← lift (model_field_of v)
    now ← ask db.clock
    let actor = db.actor ctx
    let create : Io World (Item × Condition) = do
      id ← fresh_id m
      heap_write p (set_model (created v m id now actor) v)
      marshal_stamped db p v.type_name m.id (expression.attribute_not_exists "PK") true
    let rewrite : Io World (Item × Condition) = do
      heap_write p (set_model (updated m now actor) v)
      marshal_stamped db p v.type_name m.id (expression.equal "Version" (int m.version)) false
    if m.created_at == 0 then create else rewrite

  abbrev pub put_input : Db E → Item → Expression → PutItemInput
  put_input db av expr = record {
    table_name = db.table;
    item = av;
    condition_expression = expr.condition;
    expression_attribute_names = expr.names;
    expression_attribute_values = expr.values;
  }

  -- `Put[T]`
  unfoldable pub put : Db E → Context → StructType → Pointer → Io World (Unit {0})
  put db ctx t item = do
    stamped ← stamp_and_marshal db ctx item
    p ← lift (address item)
    v ← heap_read p
    m ← lift (model_field_of v)
    expr ←
        wrapping
          ("godynamo: building put condition for " <> t.name <> " (id=" <> uuid_string m.id <> ")")
          (lift (expression.build none none (some stamped.1) none))
    map_err (as_optimistic_lock_err "put" t.name m.id)
        (call (db.client.put_item ctx (put_input db stamped.0 expr)))

  -- `Get[T]`
  unfoldable pub get : Db E → Context → StructType → Uuid → Io World Struct
  get db ctx t id = do
    lift (requires_default_key t "Get[T]")
    k ← lift (zero_keys runtime t id)
    let context = t.name <> " (id=" <> uuid_string id <> ")"
    found ←
        wrapping ("godynamo: get " <> context)
          (call (db.client.get_item ctx (record { table_name = db.table; key = item_key k.0 k.1 })))
    if is_empty found
        then fail (wrapped ("godynamo: get " <> context) (sentinel err_not_found))
        else wrapping ("godynamo: unmarshal " <> context) (lift (unmarshal_new runtime t found))

  -- `Delete[T]`
  unfoldable pub delete : Db E → Context → StructType → Uuid → Io World (Unit {0})
  delete db ctx t id = do
    lift (requires_default_key t "Delete[T]")
    k ← lift (zero_keys runtime t id)
    wrapping ("godynamo: delete " <> t.name <> " (id=" <> uuid_string id <> ")") (
        call (db.client.delete_item ctx (record { table_name = db.table; key = item_key k.0 k.1 })))
