-- ===== src/Tests/Cancelling.antt =====
-- The client of the tests' table of rows cancels a transaction where a condition does not hold; a
-- transaction that puts a task that was read before an update.
use godynamo.Prelude.{
  eq_iff, ap, ◌≢◌, Option, String, ◌≡◌, refl, Bool, true, false, some, none, arith, List, [], ◌∷◌,
  ◌++◌, inl,
}
use godynamo.Dict.{lookup, insert}
use godynamo.Text.{join, split, cut, trim_space, is_space}
use godynamo.Fault.{
  Outcome, ok, err, Error, errors_is, err_optimistic_lock, as_transaction_canceled,
}
use godynamo.Io.{State, store_at}
use godynamo.Reflect.{
  model_of, set_slot, find_slot, find_field, find_promoted, field_by_name, type_field_by_name,
  model_field,
}
use godynamo.Sdk.{AttributeValue, s, Item}
use godynamo.Tags.{
  split_fields, parse_clause, parse_model_clauses, parse_compress_fields, parse_tags_fresh,
  resolve_attr_name, compress_fields_of,
}
use godynamo.Keys.{struct_value_of, pk, sk, pk_fields_of, sk_fields_of, build_key, key_parts}
use godynamo.ZeroKeys.{model_field_of, requires_default_key, zero_keys}
use godynamo.Compress.{marshal_item, compress_loop, compress_json}
use godynamo.Crud.{stamp_and_marshal, marshal_stamped, put}
use godynamo.Update.{run}
use godynamo.Env.{
  Expression, TransactWriteItem, put_entry, delete_entry, condition_check_entry, empty_entry,
}
use godynamo.Transact.{write_item, write_items, run_write}
use godynamo.Transact.Cancellation.{HasFailedCheck, reasons_or_none}
use godynamo.Table.{conditional_put}
use godynamo.Table.Cancelled.{Cancels, IsTransaction}
use godynamo.Table.History.Cancelled.{run_write-after_history}
use godynamo.Tests.Rows.{RowWorld, row_texts, evaluate}
use godynamo.Tests.Client.{
  row_env, row_db, rows_with, row_at, row_client, answer, transact_where, passed, unless_failed,
  cancelled,
}
use godynamo.Tests.Store.{row_table, row_db-HasOwnIndex, put_expression}
use godynamo.Tests.Fixtures.{task}
use godynamo.Tests.Keying.{task_tags}
use godynamo.Tests.Stored.{stored_model}
use godynamo.Tests.Transacting.{row_transacts, checks, transaction, entries_of}
use godynamo.Tests.Updating.{row_updates, after_update, first_version}
use godynamo.Tests.Histories.{task-HasIdKeys, from_first, after_update-HasDefaultKey}

abbrev IsCancelled : Outcome (Unit {0}) × RowWorld → Type 0
IsCancelled r =
    (e : Error) × (r.0 ≡ err e) × HasFailedCheck (reasons_or_none (as_transaction_canceled e))

cancelled-IsCancelled : (w : RowWorld) → IsCancelled (cancelled w)
unfolding as_transaction_canceled
cancelled-IsCancelled w = (_, refl, inl refl)

passed-IsCancelled :
    (held : Bool) (r : Outcome (Unit {0}) × RowWorld) (w : RowWorld)
    → IsCancelled r
    → IsCancelled (passed held r w)
passed-IsCancelled true r w c = c
passed-IsCancelled false r w c = cancelled-IsCancelled w

refused-IsCancelled :
    (held : Bool) (stored w : RowWorld)
    → held ≡ false
    → IsCancelled (unless_failed (answer held stored w) w)
refused-IsCancelled true stored w h = absurd (cc h)
refused-IsCancelled false stored w h = cancelled-IsCancelled w

module _ (av : Item) (cond : String × Item) (expr : Expression) (p q : String)
    (built : row_texts.build none none (some cond) none ≡ ok expr) (k : lookup "PK" av ≡ some (s p))
    (l : lookup "SK" av ≡ some (s q)) (w : RowWorld)
    (failed : evaluate (some cond.0) cond.1 (w.rows p q) ≡ false) where
  put-IsCancelled :
      IsCancelled (unless_failed (row_client.put_item "any" (conditional_put "tasks" av expr) w) w)
  put-IsCancelled = rw (put_expression av cond expr built "any" w p q k l) (
      refused-IsCancelled (evaluate (some cond.0) cond.1 (w.rows p q)) (rows_with av p q w) w
        failed)

  transact-IsCancelled :
      (earlier later : List TransactWriteItem)
      → IsCancelled
          (transact_where (earlier ++ (put_entry (conditional_put "tasks" av expr) ∷ later)) w)
  transact-IsCancelled [] [] = put-IsCancelled
  transact-IsCancelled [] (x ∷ later) = cancelled-IsCancelled w
  transact-IsCancelled (condition_check_entry table key text names values ∷ earlier) later =
      passed-IsCancelled (evaluate text values (row_at (lookup "PK" key) (lookup "SK" key) w)) _ w
        (transact-IsCancelled earlier later)
  transact-IsCancelled (put_entry input ∷ []) later = cancelled-IsCancelled w
  transact-IsCancelled (put_entry input ∷ x ∷ earlier) later = cancelled-IsCancelled w
  transact-IsCancelled (delete_entry input ∷ earlier) later = cancelled-IsCancelled w
  transact-IsCancelled (empty_entry ∷ earlier) later = cancelled-IsCancelled w

row_db-Cancels : Cancels row_env row_db row_table
unfolding row_table
row_db-Cancels = record {
  transact_cancels = λ ctx w earlier later av cond expr p q taken built k l failed.
      transact-IsCancelled av cond expr p q built k l w failed earlier later;
}

abbrev preparing : Outcome (List TransactWriteItem) × State RowWorld
preparing = write_items row_env row_db "eve" transaction.ops after_update.1

preparing_ok : preparing ≡ (ok (entries_of preparing.0), preparing.1)
unfolding run put write_items write_item stamp_and_marshal marshal_stamped marshal_item
    model_field_of model_of parse_tags_fresh type_field_by_name find_field store_at set_slot
    compress_loop parse_compress_fields lookup trim_space field_by_name compress_json pk build_key
    key_parts pk_fields_of insert sk sk_fields_of struct_value_of find_promoted find_slot
    model_field compress_fields_of parse_clause parse_model_clauses resolve_attr_name split_fields
    cut is_space join split requires_default_key zero_keys
preparing_ok = refl

abbrev key_of : Option (String × (Option AttributeValue × Option AttributeValue)) → String
key_of (some (table, (some (s key), sort))) = key
key_of _ = ""

abbrev row_target : String → Option (String × (Option AttributeValue × Option AttributeValue))
row_target key = some ("tasks", (some (s key), some (s key)))

other_rows : row_target "Task#7" ≢ row_target "Task#1"
other_rows e = cc ((eq_iff "Task#7" "Task#1").1 (ap key_of e))

taken : IsTransaction (entries_of preparing.0)
unfolding run put write_items write_item stamp_and_marshal marshal_stamped marshal_item
    model_field_of model_of parse_tags_fresh type_field_by_name find_field store_at set_slot
    compress_loop parse_compress_fields lookup trim_space field_by_name compress_json pk build_key
    key_parts pk_fields_of insert sk sk_fields_of struct_value_of find_promoted find_slot
    model_field compress_fields_of parse_clause parse_model_clauses resolve_attr_name split_fields
    cut is_space join split requires_default_key zero_keys
taken = record { few = omega arith; apart = ((λ e. cc e), (other_rows, tt), ((λ e. cc e), tt, tt)) }

run_write-after_history_example :
    (e : Error) × ((run_write row_env "eve" transaction after_update.1).0 ≡ err e)
    × (errors_is e err_optimistic_lock ≡ true)
run_write-after_history_example =
    run_write-after_history row_env row_db row_table row_updates row_transacts row_db-Cancels task
      task_tags 7 row_db-HasOwnIndex task-HasIdKeys from_first "eve" 3 stored_model checks []
      empty_entry (entries_of preparing.0) preparing.1 (tt, λ d. d) (omega arith) (omega arith)
      first_version after_update-HasDefaultKey refl ((λ e. cc e), tt) tt (omega arith) preparing_ok
      taken
