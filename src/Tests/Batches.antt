-- ===== src/Tests/Batches.antt =====
-- The pieces of batches on a concrete world.
use godynamo.Prelude.{◌≡◌, refl, none, List, [], ◌∷◌}
use godynamo.Dict
use godynamo.Dict.{insert}
use godynamo.Fault.{Outcome, ok}
use godynamo.Text.{join, split, cut, trim_space, is_space}
use godynamo.Io.{State, null, at, store_at}
use godynamo.Reflect.{
  model_of, set_slot, find_slot, find_field, find_promoted, field_by_name, type_field_by_name,
  model_field, zero_of,
}
use godynamo.Sdk.{Item}
use godynamo.Tags.{
  split_fields, parse_clause, parse_model_clauses, parse_compress_fields, parse_tags_fresh,
  resolve_attr_name, compress_fields_of,
}
use godynamo.Keys.{struct_value_of, pk, sk, pk_fields_of, sk_fields_of, build_key, key_parts}
use godynamo.ZeroKeys.{item_key, model_field_of, requires_default_key, zero_keys, keys_of}
use godynamo.Compress.{marshal_item, compress_loop, compress_json}
use godynamo.Env.{WriteRequest, delete_request, empty_request}
use godynamo.Crud.{stamp_and_marshal, marshal_stamped}
use godynamo.Chunks.Partition.{for_each}
use godynamo.Batch.{BatchWriteBuilder, write_requests, write_body, run_write}
use godynamo.Batch.Reading.{BatchGetBuilder}
use godynamo.Batch.Limits.{IsCutInto, run_write-pieces}
use godynamo.Tests.Fixtures.{task, runtime}
use godynamo.Tests.World.{env, db, start}

abbrev pub reads : BatchGetBuilder env
reads = record { db = db; ids = 7 ∷ 8 ∷ [] }

abbrev pub keys : List Item
keys = item_key "Task#7" "Task#7" ∷ item_key "Task#8" "Task#8" ∷ []

pub allowed : requires_default_key task "BatchGetBuilder.Run" ≡ ok tt
unfolding requires_default_key parse_tags_fresh type_field_by_name find_field parse_model_clauses
    parse_clause split_fields parse_compress_fields compress_fields_of split cut trim_space is_space
    Dict.lookup
allowed = refl

pub keys_ok : keys_of runtime task reads.ids ≡ ok keys
unfolding keys_of zero_keys parse_tags_fresh type_field_by_name find_field parse_model_clauses
    parse_clause split_fields parse_compress_fields compress_fields_of split cut trim_space is_space
    Dict.lookup model_of find_slot set_slot zero_of pk sk pk_fields_of sk_fields_of struct_value_of
    build_key key_parts join field_by_name find_promoted model_field model_field_of
keys_ok = refl

abbrev queue : BatchWriteBuilder env
queue = record {
  db = db;
  ops =
      record { put = null; request = delete_request (item_key "Task#7" "Task#7") }
      ∷ record { put = at 3; request = empty_request }
      ∷ [];
  failed = none;
}

abbrev after : Outcome (List WriteRequest) × State env.World
after = write_requests env db "ann" task queue.ops start

abbrev requests_of : Outcome (List WriteRequest) → List WriteRequest
requests_of (ok writes) = writes
requests_of _ = []

built : after ≡ (ok (requests_of after.0), after.1)
unfolding write_requests stamp_and_marshal marshal_stamped marshal_item model_field_of model_of
    parse_tags_fresh type_field_by_name find_field store_at set_slot compress_loop
    parse_compress_fields Dict.lookup trim_space field_by_name compress_json pk build_key key_parts
    pk_fields_of insert sk sk_fields_of struct_value_of find_promoted find_slot model_field
    compress_fields_of parse_clause parse_model_clauses resolve_attr_name split_fields cut is_space
    join split
built = refl

run_write-pieces_example :
    (pieces : List (List WriteRequest)) × IsCutInto 25 (requests_of after.0) pieces
    × (run_write env "ann" task queue start
        ≡ for_each (write_body env db "ann" task) pieces tt after.1)
run_write-pieces_example =
    run_write-pieces env "ann" task queue (requests_of after.0) start after.1 refl (λ e. cc) built
