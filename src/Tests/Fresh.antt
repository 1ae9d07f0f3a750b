-- ===== src/Tests/Fresh.antt =====
-- A Put of a task without an ID, for which the Put draws one, and a second Put of the task as it was left.
use godynamo.Prelude.{◌≡◌, ◌≢◌, refl, arith, some}
use godynamo.Dict.{lookup, insert}
use godynamo.Text.{join, split, cut, trim_space, is_space}
use godynamo.Fault.{ok}
use godynamo.Io.{at, State, store_at}
use godynamo.Reflect.{
  zero_model, model_of, set_slot, find_slot, find_field, find_promoted, field_by_name,
  type_field_by_name, model_field,
}
use godynamo.Tags.{
  split_fields, parse_clause, parse_model_clauses, parse_compress_fields, parse_tags_fresh,
  resolve_attr_name, compress_fields_of,
}
use godynamo.Keys.{struct_value_of, pk, sk, pk_fields_of, sk_fields_of, build_key, key_parts}
use godynamo.ZeroKeys.{model_field_of}
use godynamo.Compress.{marshal_item, compress_loop, compress_json}
use godynamo.Crud.{stamp_and_marshal, marshal_stamped, put, as_optimistic_lock_err}
use godynamo.Table.Stamped.{HasDefaultType}
use godynamo.Table.Retried.{put-after_put}
use godynamo.Tests.Rows.{RowWorld}
use godynamo.Tests.Client.{row_env, row_db}
use godynamo.Tests.Store.{row_table, row_db-HasOwnIndex}
use godynamo.Tests.Fixtures.{task, task_value}
use godynamo.Tests.Keying.{task_tags, parse_task, task-IsEntityType, task_tags-IsDefault}
use godynamo.Tests.Stored.{start, stored_model, task-KeepsVersion}

abbrev unsaved : State RowWorld
unsaved = record { world = start.world; heap = λ p. task_value zero_model "write" "note" }

unsaved-HasDefaultType : HasDefaultType task task_tags zero_model (unsaved.heap 3)
unfolding model_of find_slot
unsaved-HasDefaultType = record {
  entity = record { typed = (refl, (refl, (refl, tt))); entity = task-IsEntityType };
  typed = refl;
  parsed = parse_task;
  default = task_tags-IsDefault;
  found = refl;
}

-- The table is empty, and the task is as the Put left it.
abbrev again : State RowWorld
again = record { world = start.world; heap = (put row_env row_db "ann" task (at 3) unsaved).1.heap }

again_model : model_of (again.heap 3) ≡ some (record stored_model { id = 8 })
unfolding put as_optimistic_lock_err stamp_and_marshal marshal_stamped marshal_item model_field_of
    model_of parse_tags_fresh type_field_by_name find_field store_at set_slot compress_loop
    parse_compress_fields lookup trim_space field_by_name compress_json pk build_key key_parts
    pk_fields_of insert sk sk_fields_of struct_value_of find_promoted find_slot model_field
    compress_fields_of parse_clause parse_model_clauses resolve_attr_name split_fields cut is_space
    join split
again_model = refl

put-after_put_example : (put row_env row_db "bob" task (at 3) again).0 ≢ ok tt
unfolding row_table
put-after_put_example =
    put-after_put row_env row_db row_table row_db-HasOwnIndex task task_tags task-KeepsVersion "ann"
      "bob" 3 zero_model (record stored_model { id = 8 }) unsaved again unsaved-HasDefaultType
      (λ e. omega (arith, e)) refl again_model refl
