-- ===== src/Tests/Exact.antt =====
-- Batches on concrete worlds, whose clients take one entry per call.
use godynamo.Prelude.{◌≡◌, refl, sym, ap, none, List, [], ◌∷◌, ◌++◌, take, drop, take-append-drop}
use mathlib.Core.List.{Perm}
use mathlib.Core.List.Perm
use godynamo.Dict
use godynamo.Dict.{insert}
use godynamo.Fault.{Outcome, ok}
use godynamo.Text.{join, split, cut, trim_space, is_space}
use godynamo.Io.{State, at, null, store_at}
use godynamo.Reflect.{
  Struct, model_of, set_slot, find_slot, find_field, find_promoted, field_by_name,
  type_field_by_name, model_field, zero_of,
}
use godynamo.Tags.{
  split_fields, parse_clause, parse_model_clauses, parse_compress_fields, parse_tags_fresh,
  resolve_attr_name, compress_fields_of,
}
use godynamo.Sdk.{Item}
use godynamo.Keys.{struct_value_of, pk, sk, pk_fields_of, sk_fields_of, build_key, key_parts}
use godynamo.ZeroKeys.{item_key, model_field_of, requires_default_key, zero_keys, keys_of}
use godynamo.Compress.{
  marshal_item, compress_loop, compress_json, unmarshal_all, unmarshal_new, unmarshal_item_into,
  extract_compressed_fields, extract_loop, apply_pending_compressed_fields,
}
use godynamo.Env.{WriteRequest, delete_request, empty_request}
use godynamo.Crud.{stamp_and_marshal, marshal_stamped}
use godynamo.Chunks.{for_chunks}
use godynamo.Batch.{
  BatchWriteBuilder, write_requests, write_chunk, write_loop, write_round, run_write,
}
use godynamo.Batch.Reading.{get_chunk, get_loop, get_round, run_get}
use godynamo.Batch.Rows.{Answers, AreRowsOf, rows_of}
use godynamo.Batch.Answered.{run_get-AreRowsOf}
use godynamo.Batch.Applied.{run_write-applied}
use godynamo.Tests.Fixtures.{task}
use godynamo.Tests.World.{env, db}
use godynamo.Tests.World
use godynamo.Tests.Batches.{reads, keys, allowed, keys_ok}
use godynamo.Tests.Client.{row_env, row_db}
use godynamo.Tests.Store.{row_ledger}
use godynamo.Tests.Rows.{RowWorld}
use godynamo.Tests.Stored.{start}

abbrev queue : BatchWriteBuilder row_env
queue = record {
  db = row_db;
  ops =
      record { put = null; request = delete_request (item_key "Task#7" "Task#7") }
      ∷ record { put = at 3; request = empty_request }
      ∷ [];
  failed = none;
}

abbrev after : Outcome (List WriteRequest) × State RowWorld
after = write_requests row_env row_db "ann" task queue.ops start

abbrev requests_of : Outcome (List WriteRequest) → List WriteRequest
requests_of (ok writes) = writes
requests_of _ = []

built : after ≡ (ok (requests_of after.0), after.1)
unfolding write_requests stamp_and_marshal marshal_stamped marshal_item model_field_of model_of
    parse_tags_fresh type_field_by_name find_field store_at set_slot compress_loop
    parse_compress_fields Dict.lookup trim_space field_by_name compress_json pk build_key key_parts
    pk_fields_of insert sk sk_fields_of struct_value_of find_promoted find_slot model_field
    compress_fields_of parse_clause parse_model_clauses resolve_attr_name split_fields cut is_space
    join split
built = refl

sent : (run_write row_env "ann" task queue start).0 ≡ ok tt
unfolding run_write for_chunks write_chunk write_loop write_round write_requests stamp_and_marshal
    marshal_stamped marshal_item model_field_of model_of parse_tags_fresh type_field_by_name
    find_field store_at set_slot compress_loop parse_compress_fields Dict.lookup trim_space
    field_by_name compress_json pk build_key key_parts pk_fields_of insert sk sk_fields_of
    struct_value_of find_promoted find_slot model_field compress_fields_of parse_clause
    parse_model_clauses resolve_attr_name split_fields cut is_space join split
sent = refl

run_write-applied_example :
    Perm
      (row_ledger.applied (run_write row_env "ann" task queue start).1.world)
      (row_ledger.applied after.1.world ++ requests_of after.0)
run_write-applied_example =
    run_write-applied row_env "ann" task queue row_ledger (requests_of after.0) start after.1 refl
      (λ e. cc) built sent

rows_of_self : (keys : List Item) → rows_of (λ k. k ∷ []) keys ≡ keys
rows_of_self [] = refl
rows_of_self (k ∷ keys) = ap (λ (t : List Item). k ∷ t) (rows_of_self keys)

-- Each key is answered by an item of the key alone.
echoes : Answers env db
echoes = record {
  answers = λ k. k ∷ [];
  batch_get_splits = λ ctx keys w out h.
      let is_out : record { responses = λ _. take 1 keys; unprocessed_keys = λ _. drop 1 keys }
          ≡ out =
        cc h in
      rw (sym is_out, rows_of_self, rows_of_self, take-append-drop) Perm.rfl;
}

abbrev found : List Struct
found = zero_of task ∷ zero_of task ∷ []

fetched : (run_get env "ann" task reads World.start).0 ≡ ok found
unfolding run_get for_chunks get_chunk get_loop get_round keys_of zero_keys requires_default_key
    unmarshal_all unmarshal_new unmarshal_item_into extract_compressed_fields extract_loop
    apply_pending_compressed_fields parse_tags_fresh type_field_by_name find_field
    parse_model_clauses resolve_attr_name parse_clause split_fields parse_compress_fields
    compress_fields_of split cut trim_space is_space Dict.lookup Dict.copy Dict.erase model_of
    find_slot set_slot pk sk pk_fields_of sk_fields_of struct_value_of build_key key_parts join
    field_by_name find_promoted model_field model_field_of
fetched = refl

run_get-AreRowsOf_example : AreRowsOf env.runtime task echoes.answers keys found
run_get-AreRowsOf_example =
    run_get-AreRowsOf env "ann" task reads echoes keys World.start found (λ e. cc) allowed keys_ok
      fetched
