-- ===== src/Tests/Locking.antt =====
-- The client of the tests' table of rows decides each PutItem by its condition; a Put of what was read
-- before an update, and one of what is there.
use godynamo.Prelude.{String, ◌≡◌, refl, Bool, true, false, some, arith, []}
use godynamo.Dict.{lookup, insert}
use godynamo.Text.{join, split, cut, trim_space, is_space}
use godynamo.Fault.{Outcome, ok, as_conditional_check_failed}
use godynamo.Io.{at, store_at}
use godynamo.Reflect.{
  model_of, set_slot, find_slot, find_field, find_promoted, field_by_name, type_field_by_name,
  model_field,
}
use godynamo.Sdk.{Item}
use godynamo.Tags.{
  split_fields, parse_clause, parse_model_clauses, parse_compress_fields, parse_tags_fresh,
  resolve_attr_name, compress_fields_of,
}
use godynamo.Keys.{struct_value_of, pk, sk, pk_fields_of, sk_fields_of, build_key, key_parts}
use godynamo.ZeroKeys.{model_field_of, requires_default_key, zero_keys}
use godynamo.Compress.{marshal_item, compress_loop, compress_json}
use godynamo.Crud.{stamp_and_marshal, marshal_stamped, put}
use godynamo.Update.{run}
use godynamo.Table.Decided.{Decides, DecidedBy}
use godynamo.Table.History.Decided.{Locks, put-Locks}
use godynamo.Tests.Rows.{RowWorld, evaluate}
use godynamo.Tests.Client.{row_env, row_db, rows_with, answer}
use godynamo.Tests.Store.{row_table, row_db-HasOwnIndex, put_expression}
use godynamo.Tests.Fixtures.{task}
use godynamo.Tests.Keying.{task_tags}
use godynamo.Tests.Stored.{stored_model}
use godynamo.Tests.Transacting.{row_transacts}
use godynamo.Tests.Updating.{row_updates, after_update, first_version}
use godynamo.Tests.Histories.{task-HasIdKeys, from_first, after_update-HasDefaultKey}

answer-DecidedBy : (holds : Bool) (stored w : RowWorld) → DecidedBy holds (answer holds stored w).0
unfolding as_conditional_check_failed
answer-DecidedBy true stored w = refl
answer-DecidedBy false stored w = (_, refl, refl)

row_db-Decides : Decides row_env row_db row_table
unfolding row_table
row_db-Decides = record {
  put_decides = λ ctx w av cond expr p q built k l.
      rw (put_expression av cond expr built ctx w p q k l)
        (answer-DecidedBy (evaluate (some cond.0) cond.1 (w.rows p q)) (rows_with av p q w) w);
}

abbrev stamped : Outcome (Item × (String × Item))
stamped = (stamp_and_marshal row_env row_db "eve" (at 3) after_update.1).0

abbrev written_of : Outcome (Item × (String × Item)) → Item × (String × Item)
written_of (ok written) = written
written_of _ = ([], ("", []))

stamped_ok : stamped ≡ ok (written_of stamped)
unfolding run stamp_and_marshal marshal_stamped marshal_item model_field_of model_of
    parse_tags_fresh type_field_by_name find_field store_at set_slot compress_loop
    parse_compress_fields lookup trim_space field_by_name compress_json pk build_key key_parts
    pk_fields_of insert sk sk_fields_of struct_value_of find_promoted find_slot model_field
    compress_fields_of parse_clause parse_model_clauses resolve_attr_name split_fields cut is_space
    join split put requires_default_key zero_keys
stamped_ok = refl

put-Locks_example : Locks false (put row_env row_db "eve" task (at 3) after_update.1).0
put-Locks_example =
    put-Locks row_env row_db row_table row_updates row_transacts row_db-Decides task task_tags 7
      row_db-HasOwnIndex task-HasIdKeys from_first "eve" 3 stored_model (written_of stamped).0
      (written_of stamped).1 _ (tt, λ d. d) (omega arith) first_version after_update-HasDefaultKey
      refl stamped_ok refl
