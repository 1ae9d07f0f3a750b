-- ===== src/Tests/Stored.antt =====
-- Two Puts of a new task on the tests' table of rows, and what they leave.
use godynamo.Prelude.{inl, inr, String, ◌≡◌, refl, arith, none, some, []}
use godynamo.Dict
use godynamo.Dict.{lookup, insert, copy, erase}
use godynamo.Fault.{Outcome, ok}
use godynamo.Text.{join, split, cut, trim_space, is_space}
use godynamo.Io.{State, at, store_at}
use godynamo.Reflect.{
  Model, Struct, model_of, set_slot, find_slot, find_field, find_promoted, field_by_name,
  type_field_by_name, model_field,
}
use godynamo.Tags.{
  split_fields, parse_clause, parse_model_clauses, parse_compress_fields, parse_tags_fresh,
  resolve_attr_name, compress_fields_of,
}
use godynamo.Keys.{struct_value_of, pk, sk, pk_fields_of, sk_fields_of, build_key, key_parts}
use godynamo.ZeroKeys.{model_field_of}
use godynamo.ZeroKeys.Laws.{id_key}
use godynamo.Compress.{marshal_item, compress_loop, compress_json}
use godynamo.Crud.{stamp_and_marshal, marshal_stamped, put, as_optimistic_lock_err}
use godynamo.Table.Accepted.{KeepsVersion, IsAccepted, put-IsAccepted}
use godynamo.Table.Stamped.{HasDefaultKey}
use godynamo.Tests.Fixtures.{task, model_7, task_value}
use godynamo.Tests.Keying.{
  task-IsEntityType, task_tags, parse_task, a_task-IsEntity, task_tags-IsDefault,
}
use godynamo.Tests.Rows.{RowWorld, row_runtime}
use godynamo.Tests.Client.{row_env, row_db}
use godynamo.Tests.Store.{row_table, row_db-HasOwnIndex}

abbrev a_task : Struct
a_task = task_value model_7 "write" "note"

-- An empty table.
abbrev pub start : State RowWorld
start = record {
  world = record { time = 0; fresh = 8; rows = λ p q. none; log = [] };
  heap = λ p. a_task;
}

a_task_model : model_of a_task ≡ some model_7
unfolding model_of find_slot
a_task_model = refl

pub task-KeepsVersion : KeepsVersion task
unfolding resolve_attr_name type_field_by_name find_field cut Dict.lookup
task-KeepsVersion = record {
  tags = task_tags;
  parsed = parse_task;
  other = (refl, tt);
  promoted = record {
    embeds = task-IsEntityType.embeds;
    others = (
      inl (record { named = refl; anonymous = refl; typed = refl }, refl),
      (inr (refl, refl), (inr (refl, refl), tt)),
    );
  };
}

pub a_task-HasDefaultKey : HasDefaultKey task task_tags model_7 a_task
a_task-HasDefaultKey = record {
  entity = a_task-IsEntity;
  typed = refl;
  parsed = parse_task;
  default = task_tags-IsDefault;
  found = a_task_model;
  has_id = λ _ e. omega (arith, e);
}

abbrev pub first : Outcome (Unit {0}) × State RowWorld
first = put row_env row_db "ann" task (at 3) start

pub first_ok : first.0 ≡ ok tt
unfolding put as_optimistic_lock_err stamp_and_marshal marshal_stamped marshal_item model_field_of
    model_of parse_tags_fresh type_field_by_name find_field store_at set_slot compress_loop
    parse_compress_fields Dict.lookup trim_space field_by_name compress_json pk build_key key_parts
    pk_fields_of insert sk sk_fields_of struct_value_of find_promoted find_slot model_field
    compress_fields_of parse_clause parse_model_clauses resolve_attr_name split_fields cut is_space
    join split
first_ok = refl

put-IsAccepted_example :
    (n : Model) × (model_of (first.1.heap 3) ≡ some n)
    × IsAccepted row_env row_db row_table "ann" model_7 n
        (first.1.heap 3)
        (row_table.rows start.world)
        (row_table.rows first.1.world)
put-IsAccepted_example =
    put-IsAccepted row_env row_db row_table row_db-HasOwnIndex "ann" task 3 model_7 start
      a_task_model task-KeepsVersion first_ok

abbrev pub stored_model : Model
stored_model = record {
  id = 7;
  type_name = "Task";
  created_at = 1;
  created_by = "ann";
  updated_at = 1;
  updated_by = "ann";
  version = 1;
}

abbrev pub stored_task : Struct
stored_task = task_value stored_model "write" "note"

pub stored_task_model : model_of stored_task ≡ some stored_model
unfolding model_of find_slot
stored_task_model = refl

pub first_leaves : first.1.heap 3 ≡ stored_task
unfolding put as_optimistic_lock_err stamp_and_marshal marshal_stamped marshal_item model_field_of
    model_of parse_tags_fresh type_field_by_name find_field store_at set_slot compress_loop
    parse_compress_fields Dict.lookup trim_space field_by_name compress_json pk build_key key_parts
    pk_fields_of insert sk sk_fields_of struct_value_of find_promoted find_slot model_field
    compress_fields_of parse_clause parse_model_clauses resolve_attr_name split_fields cut is_space
    join split
first_leaves = refl

-- The key of the task.
abbrev pub task_key : String
task_key = id_key row_runtime "Task" 7
