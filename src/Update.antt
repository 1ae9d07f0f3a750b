-- ===== src/Update.antt =====
-- The `UpdateBuilder` of crud.go.
use godynamo.Prelude.{
  ℕ, String, ◌<>◌, Bool, true, false, Option, none, some, List, [], ◌∷◌, ◌++◌, foldl, if◌then◌else◌,
}
use godynamo.Io.{Io, lift, call, ask, wrapping, map_err, ◌>>=◌, ◌>>◌}
use godynamo.Reflect.{Any, string, int, time, Struct, StructType, Uuid}
use godynamo.Tags.{resolve_attr_name}
use godynamo.ZeroKeys.{item_key, requires_default_key, zero_keys}
use godynamo.Env.{Env, Expression, UpdateItemInput}
use godynamo.Db.{Db}
use godynamo.Compress.{unmarshal_new}
use godynamo.Crud.{as_optimistic_lock_err}

pub record UpdateOp : Type 0 where
  pub name : String
  pub val : Any
  pub add : Bool

pub record UpdateBuilder (E : Env) : Type 0 where
  pub db : Db E
  pub id : Uuid
  pub ops : List UpdateOp
  pub version : Option ℕ

module _ (E : Env) where
  open E use {World, Context, Updates, runtime, expression, uuid_string}

  -- `Update[T]`
  unfoldable pub update : Db E → Uuid → UpdateBuilder E
  update db id = record { db = db; id = id; ops = []; version = none }

  unfoldable pub set : StructType → String → Any → UpdateBuilder E → UpdateBuilder E
  set t field value b =
      let attr = resolve_attr_name t field in
      record b { ops = b.ops ++ (record { name = attr; val = value; add = false } ∷ []) }

  unfoldable pub add : StructType → String → Any → UpdateBuilder E → UpdateBuilder E
  add t field delta b =
      let attr = resolve_attr_name t field in
      record b { ops = b.ops ++ (record { name = attr; val = delta; add = true } ∷ []) }

  unfoldable pub if_version : ℕ → UpdateBuilder E → UpdateBuilder E
  if_version v b = record b { version = some v }

  abbrev pub apply_op : Updates → UpdateOp → Updates
  apply_op upd op =
      if op.add then expression.add op.name op.val upd else expression.set op.name op.val upd

  abbrev pub version_condition : Option ℕ → Option E.Condition
  version_condition none = none
  version_condition (some v) = some (expression.equal "Version" (int v))

  abbrev pub update_input : Db E → String × String → Expression → UpdateItemInput
  update_input db k expr = record {
    table_name = db.table;
    key = item_key k.0 k.1;
    update_expression = expr.update;
    condition_expression = expr.condition;
    expression_attribute_names = expr.names;
    expression_attribute_values = expr.values;
    return_all_new = true;
  }

  -- `UpdateBuilder.Run`
  unfoldable pub run : Context → StructType → UpdateBuilder E → Io World Struct
  run ctx t b = do
    lift (requires_default_key t "UpdateBuilder.Run")
    k ← lift (zero_keys runtime t b.id)
    now ← ask b.db.clock
    let stamps =
        expression.set "UpdatedBy" (string (b.db.actor ctx))
          (expression.set "UpdatedAt" (time now) expression.empty_update)
    let upd = expression.add "Version" (int 1) (foldl apply_op stamps b.ops)
    let context = t.name <> " (id=" <> uuid_string b.id <> ")"
    expr ←
        wrapping ("godynamo: building update expression for " <> context)
          (lift (expression.build none none (version_condition b.version) (some upd)))
    out ←
        map_err (as_optimistic_lock_err E "update" t.name b.id)
          (call (b.db.client.update_item ctx (update_input b.db k expr)))
    wrapping ("godynamo: unmarshal " <> context) (lift (unmarshal_new runtime t out))
