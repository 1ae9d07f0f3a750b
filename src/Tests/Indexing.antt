-- ===== src/Tests/Indexing.antt =====
-- The key conditions of queries on the tests' table of rows, and a second Put of a task, after which
-- no query by the type selects it.
use godynamo.Prelude.{
  some, String, ◌≡◌, refl, sym, Bool, true, false, ◌&&◌, none, Option, List, [], ◌∷◌,
}
use godynamo.Dict.{lookup, insert}
use godynamo.Text.{join, split, cut, trim_space, is_space}
use godynamo.Fault.{Outcome, ok}
use godynamo.Io.{at, State, store_at}
use godynamo.Reflect.{
  Model, Any, string, model_of, set_slot, find_slot, find_field, find_promoted, field_by_name,
  type_field_by_name, model_field,
}
use godynamo.Sdk.{AttributeValue, Item}
use godynamo.Tags.{
  split_fields, parse_clause, parse_model_clauses, parse_compress_fields, parse_tags_fresh,
  resolve_attr_name, compress_fields_of,
}
use godynamo.Keys.{struct_value_of, pk, sk, pk_fields_of, sk_fields_of, build_key, key_parts}
use godynamo.ZeroKeys.{model_field_of}
use godynamo.Compress.{marshal_item, compress_loop, compress_json}
use godynamo.Crud.{stamp_and_marshal, marshal_stamped, put, as_optimistic_lock_err}
use godynamo.Query.{QueryBuilder, sk_none}
use godynamo.Table.Indexed.{KeyMeaning, is_text, is_queried, put-is_queried}
use godynamo.Tests.Rows.{RowWorld, row_runtime}
use godynamo.Tests.Client.{row_env, row_db}
use godynamo.Tests.Store.{row_table, row_db-HasOwnIndex}
use godynamo.Tests.Fixtures.{task}
use godynamo.Tests.Keying.{task_tags}
use godynamo.Tests.Stored.{first, stored_model, task_key, task-KeepsVersion}
use godynamo.Tests.Updating.{stored_task-HasDefaultKey}
use godynamo.Table.Stamped.{HasDefaultKey-HasDefaultType}

abbrev is_value : Any → Option AttributeValue → Bool
is_value (string x) a = is_text x a
is_value _ a = false

abbrev are_values : List (String × Any) → Item → Bool
are_values [] av = true
are_values ((a, v) ∷ rest) av = is_value v (lookup a av) && are_values rest av

and_true : (b : Bool) → (b && true) ≡ b
and_true true = refl
and_true false = refl

row_keys : KeyMeaning row_env
row_keys = record {
  selects = λ c av. are_values c.1 av;
  equal_selects = λ a x av. and_true (is_text x (lookup a av));
}

abbrev tasks : QueryBuilder row_env
tasks = record {
  db = row_db;
  pk = none;
  sk = record { kind = sk_none; lo = ""; hi = "" };
  filters = [];
  index = "";
  limit = none;
}

abbrev second : Outcome (Unit {0}) × State RowWorld
second = put row_env row_db "bob" task (at 3) first.1

abbrev base_of : Outcome Item → Item
base_of (ok base) = base
base_of _ = []

abbrev second_item : Outcome Item
second_item = marshal_item row_runtime (second.1.heap 3)

-- The second Put counts the version up.
abbrev second_model : Model
second_model = record stored_model { updated_at = 2; updated_by = "bob"; version = 2 }

second_run :
    (second.0 ≡ ok tt)
    × (second_item ≡ ok (base_of second_item))
    × (lookup "GSI1PK" (base_of second_item) ≡ none)
    × (model_of (second.1.heap 3) ≡ some second_model)
unfolding put as_optimistic_lock_err stamp_and_marshal marshal_stamped marshal_item model_field_of
    model_of parse_tags_fresh type_field_by_name find_field store_at set_slot compress_loop
    parse_compress_fields lookup trim_space field_by_name compress_json pk build_key key_parts
    pk_fields_of insert sk sk_fields_of struct_value_of find_promoted find_slot model_field
    compress_fields_of parse_clause parse_model_clauses resolve_attr_name split_fields cut is_space
    join split
second_run = (refl, refl, refl, refl)

no_index : (base : Item) → second_item ≡ ok base → lookup "GSI1PK" base ≡ none
no_index base h =
    let (_, marshaled, missing, _) = second_run in
    let is_base : base_of second_item ≡ base = cc (marshaled, h) in rw (sym is_base) missing

put-is_queried_example :
    is_queried row_env row_keys task tasks (row_table.rows second.1.world task_key task_key) ≡ false
put-is_queried_example =
    put-is_queried row_env row_keys tasks row_table row_db-HasOwnIndex "bob" task task_tags
      task-KeepsVersion 3 stored_model second_model first.1
      (HasDefaultKey-HasDefaultType stored_task-HasDefaultKey) second_run.3 no_index refl refl
      second_run.0
