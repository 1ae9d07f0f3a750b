-- ===== src/Tests/Updating.antt =====
-- An update of a row of the tests' table, and a Put of what was read before it.
use godynamo.Prelude.{
  ℕ, String, str_eq, eq_refl, ◌≡◌, refl, sym, ap, ◌∙◌, arith, Bool, true, false, ◌&&◌, Option, none,
  some, [], ◌∷◌, ◌++◌,
}
use godynamo.Dict
use godynamo.Dict.{lookup, insert, lookup-insert_self}
use godynamo.Fault.{Outcome, ok}
use godynamo.Update.{UpdateBuilder, run}
use godynamo.Io.{State, store_at}
use godynamo.Text.{join, split, cut, trim_space, is_space}
use godynamo.Reflect.{
  int, string, Struct, model_of, set_slot, find_slot, find_field, find_promoted, field_by_name,
  type_field_by_name, model_field,
}
use godynamo.Tags.{
  split_fields, parse_clause, parse_model_clauses, parse_compress_fields, parse_tags_fresh,
  resolve_attr_name, compress_fields_of,
}
use godynamo.Keys.{struct_value_of, pk, sk, pk_fields_of, sk_fields_of, build_key, key_parts}
use godynamo.ZeroKeys.{model_field_of, zero_keys, requires_default_key}
use godynamo.Compress.{
  marshal_item, compress_loop, compress_json, unmarshal_new, unmarshal_item_into,
  extract_compressed_fields, extract_loop, apply_pending_compressed_fields, decompress_json,
}
use godynamo.Crud.{stamp_and_marshal, marshal_stamped, put, as_optimistic_lock_err}
use godynamo.Table.Accepted.{AsExpected}
use godynamo.Table.Stamped.{HasDefaultKey}
use godynamo.Sdk.{Item}
use godynamo.Env.{Expression}
use godynamo.Table.Updated.{Updates, conditional_update, run-IsUpdated, IsUpdated}
use godynamo.Tests.Fixtures.{task, task_value}
use godynamo.Tests.Keying.{task_tags, parse_task, task-IsEntityType, task_tags-IsDefault}
use godynamo.Tests.Stored.{task_key, first, stored_model, first_leaves}
use godynamo.Tests.Rows.{
  RowWorld, row_texts, evaluate, update_values, condition_text, condition_values,
}
use godynamo.Tests.Client.{
  row_env, row_db, row_client, rows_with, update_at, update_answer, updated_row,
}
use godynamo.Tests.Store.{row_table}

abbrev sent_expression : Option (String × Item) → String × Option ℕ → Expression
sent_expression cond upd = record {
  condition = condition_text cond;
  filter = none;
  key_condition = none;
  update = some upd.0;
  names = [];
  values = update_values (some upd) ++ condition_values cond;
}

abbrev update_call : Expression → (p q : String) → RowWorld → Outcome Item × RowWorld
update_call expr p q w = row_client.update_item "any" (conditional_update "tasks" p q expr) w

update_answer-eq-ok :
    (found : Bool) (row : Item) (stored w : RowWorld) (attrs : Item)
    → (update_answer found row stored w).0 ≡ ok attrs
    → (found ≡ true) × ((row ≡ attrs) × ((update_answer found row stored w).1 ≡ stored))
update_answer-eq-ok true row stored w attrs h = (refl, (cc h, refl))
update_answer-eq-ok false row stored w attrs h = cc

evaluate_updated :
    (n : Option ℕ) (u text : String) (values : Item) (row : Option Item)
    → evaluate (some text) (update_values (some (u, n)) ++ values) row
      ≡ evaluate (some text) values row
unfolding lookup
evaluate_updated none u text values row = refl
evaluate_updated (some n) u text values row = refl

update_answer_others :
    (found : Bool) (row : Item) (p q x y : String) (w : RowWorld)
    → (str_eq p x && str_eq q y) ≡ false
    → (update_answer found row (rows_with row p q w) w).1.rows x y ≡ w.rows x y
update_answer_others true row p q x y w h = rw h refl
update_answer_others false row p q x y w h = refl

found_again : (av : Item) (p q : String) (w : RowWorld) → (rows_with av p q w).rows p q ≡ some av
found_again av p q w = rw (eq_refl p, eq_refl q) refl

update_sent :
    (cond : Option (String × Item)) (upd : String × Option ℕ) (expr : Expression) (p q : String)
    (w : RowWorld) (attrs : Item)
    → row_texts.build none none cond (some upd) ≡ ok expr
    → (update_call expr p q w).0 ≡ ok attrs
    → (evaluate
          (condition_text cond)
          (update_values (some upd) ++ condition_values cond)
          (w.rows p q)
        ≡ true)
      × ((updated_row (update_values (some upd) ++ condition_values cond) (w.rows p q) ≡ attrs)
          × ((update_call expr p q w).1 ≡ rows_with attrs p q w))
unfolding lookup
update_sent cond upd expr p q w attrs built sent =
    let same : sent_expression cond upd ≡ expr = cc built in
    let values = update_values (some upd) ++ condition_values cond in
    let at_row = w.rows p q in
    let row = updated_row values at_row in
    let call : update_call expr p q w ≡ update_at (condition_text cond) values p q w =
      rw (sym same) refl in
    let (seen, (is_row, after)) =
      update_answer-eq-ok (evaluate (condition_text cond) values at_row) row (rows_with row p q w) w
        attrs (sym (ap (λ (r : Outcome Item × RowWorld). r.0) call) ∙ sent) in
    (
      seen,
      (
        is_row,
        ap (λ (r : Outcome Item × RowWorld). r.1) call
            ∙ after
            ∙ ap (λ (r : Item). rows_with r p q w) is_row,
      ),
    )

pub row_updates : Updates row_env row_db row_table
unfolding lookup row_table
row_updates = record {
  update_holds = λ ctx w p q cond upd expr attrs built sent.
      sym (evaluate_updated upd.1 upd.0 cond.0 cond.1 (w.rows p q))
      ∙ (update_sent (some cond) upd expr p q w attrs built sent).0;
  update_adds = λ ctx w p q cond n upd expr attrs built sent.
      let (seen, (is_row, after)) =
        update_sent cond (row_texts.add "Version" (int n) upd) expr p q w attrs built sent in
      (
        ap (λ (u : RowWorld). u.rows p q) after ∙ found_again attrs p q w,
        rw (sym is_row, lookup-insert_self) refl,
      );
  update_others = λ ctx w p q x y expr other.
      update_answer_others (evaluate expr.condition expr.values (w.rows p q))
        (updated_row expr.values (w.rows p q)) p q x y w other;
}

abbrev pub an_update : UpdateBuilder row_env
an_update = record {
  db = row_db;
  id = 7;
  ops = record { name = "Notes"; val = string "done"; add = false } ∷ [];
  version = some 1;
}

abbrev pub after_update : Outcome Struct × State RowWorld
after_update = run row_env "bob" task an_update first.1

abbrev pub updated_task : Struct
updated_task = task_value (record stored_model { version = 2 }) "write" "note"

pub after_update_ok : after_update.0 ≡ ok updated_task
unfolding run put as_optimistic_lock_err stamp_and_marshal marshal_stamped marshal_item
    model_field_of model_of parse_tags_fresh type_field_by_name find_field store_at set_slot
    compress_loop parse_compress_fields lookup trim_space field_by_name compress_json pk build_key
    key_parts pk_fields_of insert sk sk_fields_of struct_value_of find_promoted find_slot
    model_field compress_fields_of parse_clause parse_model_clauses resolve_attr_name split_fields
    cut is_space join split zero_keys requires_default_key unmarshal_new unmarshal_item_into
    extract_compressed_fields extract_loop apply_pending_compressed_fields decompress_json
    Dict.erase Dict.copy
after_update_ok = refl

run-IsUpdated_example :
    IsUpdated row_env an_update row_table row_updates task task_tags task-IsEntityType parse_task
      task_tags-IsDefault updated_task
      (row_table.rows first.1.world)
      (row_table.rows after_update.1.world)
run-IsUpdated_example =
    run-IsUpdated row_env an_update row_table row_updates task task_tags task-IsEntityType
      parse_task task_tags-IsDefault "bob" first.1 updated_task after_update_ok

pub stored_task-HasDefaultKey : HasDefaultKey task task_tags stored_model (first.1.heap 3)
unfolding model_of find_slot
stored_task-HasDefaultKey = rw first_leaves (record {
  entity = record { typed = (refl, (refl, (refl, tt))); entity = task-IsEntityType };
  typed = refl;
  parsed = parse_task;
  default = task_tags-IsDefault;
  found = refl;
  has_id = λ _ e. omega (arith, e);
})

pub first_version :
    AsExpected row_env row_db row_table stored_model
      (row_table.rows first.1.world task_key task_key)
unfolding row_table run put as_optimistic_lock_err stamp_and_marshal marshal_stamped marshal_item
    model_field_of model_of parse_tags_fresh type_field_by_name find_field store_at set_slot
    compress_loop parse_compress_fields lookup trim_space field_by_name compress_json pk build_key
    key_parts pk_fields_of insert sk sk_fields_of struct_value_of find_promoted find_slot
    model_field compress_fields_of parse_clause parse_model_clauses resolve_attr_name split_fields
    cut is_space join split zero_keys requires_default_key unmarshal_new unmarshal_item_into
    extract_compressed_fields extract_loop apply_pending_compressed_fields decompress_json
    Dict.erase Dict.copy
first_version = refl
