-- ===== src/Tests/Gone.antt =====
-- Put, Delete and Get on the tests' table of rows.
use godynamo.Prelude.{String, str_eq, ◌≡◌, refl, true, none, ◌&&◌, if◌then◌else◌}
use godynamo.Dict
use godynamo.Dict.{lookup}
use godynamo.Fault.{Outcome, ok, err, Error, errors_is, err_not_found}
use godynamo.Text.{join, split, cut, trim_space, is_space}
use godynamo.Io.{State}
use godynamo.Reflect.{
  model_of, set_slot, find_slot, find_field, find_promoted, field_by_name, type_field_by_name,
  model_field,
}
use godynamo.Tags.{
  split_fields, parse_clause, parse_model_clauses, parse_compress_fields, parse_tags_fresh,
  compress_fields_of,
}
use godynamo.Keys.{struct_value_of, pk, sk, pk_fields_of, sk_fields_of, build_key, key_parts}
use godynamo.ZeroKeys.{model_field_of, requires_default_key, zero_keys}
use godynamo.Crud.{get, delete}
use godynamo.Table.Removed.{get-delete}
use godynamo.Tests.Fixtures.{task}
use godynamo.Tests.Keying.{task_tags, parse_task, task-IsEntityType, task_tags-IsDefault}
use godynamo.Tests.Rows.{RowWorld}
use godynamo.Tests.Client.{row_env, row_db}
use godynamo.Tests.Store.{row_db-GetAnswers, row_table}
use godynamo.Tests.Stored.{first, task_key}

abbrev second : Outcome (Unit {0}) × State RowWorld
second = delete row_env row_db "bob" task 7 first.1

second_ok : second.0 ≡ ok tt
unfolding delete requires_default_key zero_keys parse_tags_fresh type_field_by_name find_field
    parse_model_clauses parse_clause split_fields parse_compress_fields compress_fields_of split cut
    trim_space is_space Dict.lookup model_of find_slot set_slot pk sk pk_fields_of sk_fields_of
    struct_value_of build_key key_parts join field_by_name find_promoted model_field model_field_of
second_ok = refl

get-delete_example :
    ((x y : String)
      → row_table.rows second.1.world x y ≡ (
          if str_eq task_key x && str_eq task_key y
          then none
          else row_table.rows first.1.world x y))
    × ((e : Error) × ((get row_env row_db "ann" task 7 second.1).0 ≡ err e)
        × (errors_is e err_not_found ≡ true))
get-delete_example =
    get-delete row_env row_db row_table task task_tags task-IsEntityType parse_task
      task_tags-IsDefault "bob" "ann" 7 first.1 second.1 second_ok
      (row_db-GetAnswers "ann" task_key second.1.world)
