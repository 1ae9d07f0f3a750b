-- ===== src/Tests/Writing.antt =====
-- Stamping and Put on a concrete task.
use godynamo.Prelude.{String, ◌≡◌, ◌≢◌, ◌⊎◌, refl, none, some, []}
use godynamo.Dict
use godynamo.Dict.{insert}
use godynamo.Fault.{Outcome, ok}
use godynamo.Text.{join, split, cut, trim_space, is_space}
use godynamo.Io.{State, at, store_at}
use godynamo.Reflect.{
  Model, model_of, set_model, set_slot, find_slot, find_field, find_promoted, field_by_name,
  type_field_by_name, model_field,
}
use godynamo.Tags.{
  split_fields, parse_clause, parse_model_clauses, parse_compress_fields, parse_tags_fresh,
  resolve_attr_name, compress_fields_of,
}
use godynamo.Sdk.{Item}
use godynamo.Keys.{struct_value_of, pk, sk, pk_fields_of, sk_fields_of, build_key, key_parts}
use godynamo.ZeroKeys.{model_field_of}
use godynamo.Compress.{marshal_item, compress_loop, compress_json}
use godynamo.Env.{Expression}
use godynamo.Crud.{stamp_and_marshal, marshal_stamped, put, put_input}
use godynamo.Crud.Stamping.{IsCreated, IsRewritten, stamp_and_marshal-item}
use godynamo.Crud.Written.{IsWritten, stamp_and_marshal-IsWritten}
use godynamo.Crud.Putting.{Reports, put-call}
use godynamo.Tests.Fixtures.{task, model_7}
use godynamo.Tests.World.{env, db, client, start, a_task}

a_task_model : model_of a_task ≡ some model_7
unfolding model_of find_slot
a_task_model = refl

stamp_and_marshal-item_example :
    (n : Model) × (model_of ((stamp_and_marshal env db "ann" (at 3) start).1.heap 3) ≡ some n)
    × ((stamp_and_marshal env db "ann" (at 3) start).1.heap
        ≡ store_at 3 (set_model n a_task) start.heap)
    × (((model_7.created_at ≡ 0) × IsCreated model_7 n 8 "Task" 1 "ann")
        ⊎ ((model_7.created_at ≢ 0) × IsRewritten model_7 n 1 "ann"))
stamp_and_marshal-item_example = stamp_and_marshal-item env db "ann" 3 model_7 start a_task_model

abbrev after : Outcome (Item × String) × State env.World
after = stamp_and_marshal env db "ann" (at 3) start

abbrev value_or_empty : Outcome (Item × String) → Item × String
value_or_empty (ok v) = v
value_or_empty _ = ([], "")

abbrev written : Item × String
written = value_or_empty after.0

stamped_ok : after.0 ≡ ok written
unfolding stamp_and_marshal marshal_stamped marshal_item model_field_of model_of parse_tags_fresh
    type_field_by_name find_field store_at set_slot compress_loop parse_compress_fields Dict.lookup
    trim_space field_by_name compress_json pk build_key key_parts pk_fields_of insert sk
    sk_fields_of struct_value_of find_promoted find_slot model_field compress_fields_of parse_clause
    parse_model_clauses resolve_attr_name split_fields cut is_space join split
stamped_ok = refl

stamp_and_marshal-IsWritten_example :
    IsWritten env db "ann" model_7 (after.1.heap 3) written.0 written.1
stamp_and_marshal-IsWritten_example =
    stamp_and_marshal-IsWritten env db "ann" 3 model_7 start written.0 written.1 a_task_model
      stamped_ok

abbrev built : Expression
built = record {
  condition = some written.1;
  filter = none;
  key_condition = none;
  update = none;
  names = [];
  values = [];
}

abbrev first_call : Outcome (Unit {0}) × env.World
first_call = client.put_item "ann" (put_input env db written.0 built) after.1.world

put-call_example :
    ((put env db "ann" task (at 3) start).1.world ≡ first_call.1)
    × Reports first_call.0 (put env db "ann" task (at 3) start).0
put-call_example =
    put-call env db "ann" task 3 model_7 start a_task_model written.0 written.1 built first_call.0
      first_call.1 stamped_ok refl refl
