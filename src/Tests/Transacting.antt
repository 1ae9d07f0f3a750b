-- ===== src/Tests/Transacting.antt =====
-- Transactional writes on the tests' table of rows.
use godynamo.Prelude.{
  ◌≢◌, arith, ◌≡◌, refl, eq_refl, ap, ◌∙◌, Bool, true, false, none, some, List, [], ◌∷◌, ◌++◌,
  String,
}
use godynamo.Dict.{lookup, insert}
use godynamo.Text.{join, split, cut, trim_space, is_space}
use godynamo.Io.{State, store_at}
use godynamo.Reflect.{
  model_of, set_slot, find_slot, find_field, find_promoted, field_by_name, type_field_by_name,
  model_field,
}
use godynamo.Tags.{
  split_fields, parse_clause, parse_model_clauses, parse_compress_fields, parse_tags_fresh,
  resolve_attr_name, compress_fields_of,
}
use godynamo.Keys.{struct_value_of, pk, sk, pk_fields_of, sk_fields_of, build_key, key_parts}
use godynamo.ZeroKeys.{item_key, model_field_of}
use godynamo.Compress.{marshal_item, compress_loop, compress_json}
use godynamo.Crud.{stamp_and_marshal, marshal_stamped}
use godynamo.Transact.{TransactWriteOp, TransactWriteBuilder, write_item, write_items, run_write}
use godynamo.Tests.Fixtures.{task, model_7}
use godynamo.Tests.Keying.{task_tags}
use godynamo.Tests.Stored.{stored_model, start, task_key, a_task-HasDefaultKey, task-KeepsVersion}
use godynamo.Fault.{Outcome, ok, err, panic}
use godynamo.Sdk.{s, Item}
use godynamo.Env.{
  Expression, TransactWriteItem, put_entry, delete_entry, condition_check_entry, empty_entry,
}
use godynamo.Table.{conditional_put}
use godynamo.Table.Preparing.{put_of}
use godynamo.Table.Transacted.{Transacts, RowIsPut, run_write-RowIsPut}
use godynamo.Table.Retried.{run_write-after_run_write}
use godynamo.Tests.Rows.{RowWorld, row_texts, evaluate}
use godynamo.Tests.Client.{
  row_env, row_db, rows_with, row_at, transact_where, passed, unless_failed, row_client,
}
use godynamo.Tests.Store.{row_table, row_db-HasOwnIndex, put_stored}
use godynamo.Table.Stamped.{HasDefaultKey-HasDefaultType}

module _ (av : Item) (cond : String × Item) (expr : Expression) (p q : String)
    (built : row_texts.build none none (some cond) none ≡ ok expr) (k : lookup "PK" av ≡ some (s p))
    (l : lookup "SK" av ≡ some (s q)) (w : RowWorld) where
  abbrev with_put : (earlier later : List TransactWriteItem) → List TransactWriteItem
  with_put earlier later = earlier ++ (put_entry (conditional_put "tasks" av expr) ∷ later)

  abbrev PutIsDone : Outcome (Unit {0}) × RowWorld → Type 0
  PutIsDone r = (evaluate (some cond.0) cond.1 (w.rows p q) ≡ true) × (r.1 ≡ rows_with av p q w)

  passed-PutIsDone :
      (held : Bool) (r : Outcome (Unit {0}) × RowWorld)
      → (r.0 ≡ ok tt → PutIsDone r)
      → (passed held r w).0 ≡ ok tt
      → PutIsDone (passed held r w)
  passed-PutIsDone true r f h = f h
  passed-PutIsDone false r f h = absurd (cc h)

  stored-PutIsDone :
      (r : Outcome (Unit {0}) × RowWorld)
      → (r.0 ≡ ok tt → PutIsDone r)
      → (unless_failed r w).0 ≡ ok tt
      → PutIsDone (unless_failed r w)
  stored-PutIsDone (ok tt, stored) f h = f h
  stored-PutIsDone (err e, stored) f h = absurd (cc h)
  stored-PutIsDone (panic m, stored) f h = absurd (cc h)

  transact-PutIsDone :
      (earlier later : List TransactWriteItem)
      → (transact_where (with_put earlier later) w).0 ≡ ok tt
      → PutIsDone (transact_where (with_put earlier later) w)
  transact-PutIsDone [] [] h =
      stored-PutIsDone (row_client.put_item "any" (conditional_put "tasks" av expr) w)
        (put_stored av cond expr built "any" w p q k l) h
  transact-PutIsDone [] (x ∷ later) h = absurd (cc h)
  transact-PutIsDone (condition_check_entry table key text names values ∷ earlier) later h =
      passed-PutIsDone (evaluate text values (row_at (lookup "PK" key) (lookup "SK" key) w)) _
        (transact-PutIsDone earlier later) h
  transact-PutIsDone (put_entry input ∷ []) later h = absurd (cc h)
  transact-PutIsDone (put_entry input ∷ x ∷ earlier) later h = absurd (cc h)
  transact-PutIsDone (delete_entry input ∷ earlier) later h = absurd (cc h)
  transact-PutIsDone (empty_entry ∷ earlier) later h = absurd (cc h)

  found_again : (rows_with av p q w).rows p q ≡ some av
  found_again = rw (eq_refl p, eq_refl q) refl

pub row_transacts : Transacts row_env row_db row_table
unfolding row_table
row_transacts = record {
  transact_puts = λ ctx w earlier later av cond expr p q built k l h.
      let (held, stored) = transact-PutIsDone av cond expr p q built k l w earlier later h in
      (held, ap (λ (u : RowWorld). u.rows p q) stored ∙ found_again av cond expr p q built k l w);
}

-- A check of another row, and then the Put of a new task.
abbrev pub checks : List TransactWriteOp
checks =
    record {
      put = none;
      entry = condition_check_entry "tasks" (item_key "Task#1" "Task#1") (some "no PK") [] [];
    }
    ∷ []

abbrev pub transaction : TransactWriteBuilder row_env
transaction = record { db = row_db; ops = checks ++ (put_of 3 empty_entry ∷ []); failed = none }

abbrev pub after_transaction : Outcome (Unit {0}) × State RowWorld
after_transaction = run_write row_env "ann" transaction start

pub after_transaction_ok : after_transaction ≡ (ok tt, after_transaction.1)
unfolding run_write write_items write_item stamp_and_marshal marshal_stamped marshal_item
    model_field_of model_of parse_tags_fresh type_field_by_name find_field store_at set_slot
    compress_loop parse_compress_fields lookup trim_space field_by_name compress_json pk build_key
    key_parts pk_fields_of insert sk sk_fields_of struct_value_of find_promoted find_slot
    model_field compress_fields_of parse_clause parse_model_clauses resolve_attr_name split_fields
    cut is_space join split
after_transaction_ok = refl

run_write-RowIsPut_example :
    RowIsPut row_env row_db row_table "ann" task task_tags task_key model_7
      (after_transaction.1.heap 3)
      (row_table.rows start.world task_key task_key)
      (row_table.rows after_transaction.1.world task_key task_key)
run_write-RowIsPut_example =
    run_write-RowIsPut row_env row_db row_table row_transacts row_db-HasOwnIndex "ann" task
      task_tags task-KeepsVersion 3 model_7 checks [] empty_entry none start after_transaction.1
      a_task-HasDefaultKey ((λ e. cc e), tt) tt after_transaction_ok

abbrev preparing : Outcome (List TransactWriteItem) × State RowWorld
preparing = write_items row_env row_db "ann" transaction.ops start

abbrev pub entries_of : Outcome (List TransactWriteItem) → List TransactWriteItem
entries_of (ok items) = items
entries_of _ = []

preparing_ok : preparing ≡ (ok (entries_of preparing.0), preparing.1)
unfolding write_items write_item stamp_and_marshal marshal_stamped marshal_item model_field_of
    model_of parse_tags_fresh type_field_by_name find_field store_at set_slot compress_loop
    parse_compress_fields lookup trim_space field_by_name compress_json pk build_key key_parts
    pk_fields_of insert sk sk_fields_of struct_value_of find_promoted find_slot model_field
    compress_fields_of parse_clause parse_model_clauses resolve_attr_name split_fields cut is_space
    join split
preparing_ok = refl

-- The table is empty again, and the task is as the transaction left it.
abbrev emptied : State RowWorld
emptied = record { world = start.world; heap = after_transaction.1.heap }

emptied_model : model_of (emptied.heap 3) ≡ some stored_model
unfolding run_write write_items write_item stamp_and_marshal marshal_stamped marshal_item
    model_field_of model_of parse_tags_fresh type_field_by_name find_field store_at set_slot
    compress_loop parse_compress_fields lookup trim_space field_by_name compress_json pk build_key
    key_parts pk_fields_of insert sk sk_fields_of struct_value_of find_promoted find_slot
    model_field compress_fields_of parse_clause parse_model_clauses resolve_attr_name split_fields
    cut is_space join split
emptied_model = refl

run_write-after_run_write_example : (run_write row_env "bob" transaction emptied).0 ≢ ok tt
unfolding row_table
run_write-after_run_write_example =
    run_write-after_run_write row_env row_db row_table row_db-HasOwnIndex task task_tags
      task-KeepsVersion row_transacts 3 model_7 "ann" "bob" checks [] checks [] empty_entry
      empty_entry (entries_of preparing.0) stored_model start preparing.1 emptied
      (HasDefaultKey-HasDefaultType a_task-HasDefaultKey) (λ w e. omega (arith, e))
      ((λ e. cc e), tt) tt ((λ e. cc e), tt) tt (omega arith) preparing_ok refl emptied_model refl
