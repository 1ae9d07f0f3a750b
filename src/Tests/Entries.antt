-- ===== src/Tests/Entries.antt =====
-- The entries of a transactional write on a concrete world.
use godynamo.Prelude.{◌≡◌, refl, none, some, List, [], ◌∷◌, ◌⊎◌}
use godynamo.Dict
use godynamo.Dict.{insert}
use godynamo.Fault.{Outcome, ok}
use godynamo.Text.{join, split, cut, trim_space, is_space}
use godynamo.Io.{State, at, store_at}
use godynamo.Reflect.{
  model_of, set_slot, find_slot, find_field, find_promoted, field_by_name, type_field_by_name,
  model_field,
}
use godynamo.Tags.{
  split_fields, parse_clause, parse_model_clauses, parse_compress_fields, parse_tags_fresh,
  resolve_attr_name, compress_fields_of,
}
use godynamo.Keys.{struct_value_of, pk, sk, pk_fields_of, sk_fields_of, build_key, key_parts}
use godynamo.ZeroKeys.{item_key, model_field_of}
use godynamo.Compress.{marshal_item, compress_loop, compress_json}
use godynamo.Env.{delete_entry, empty_entry}
use godynamo.Crud.{stamp_and_marshal, marshal_stamped}
use godynamo.Transact.{TransactWriteOp, TransactWriteBuilder, run_write, write_item, write_items}
use godynamo.Transact.Sending.{IsSent, run_write-IsSent}
use godynamo.Tests.World.{World, env, db, start}

abbrev queue : List TransactWriteOp
queue =
    record {
      put = none;
      entry = delete_entry (record { table_name = "tasks"; key = item_key "Task#7" "Task#7" });
    }
    ∷ record { put = some (at 3); entry = empty_entry }
    ∷ []

abbrev two_entries : TransactWriteBuilder env
two_entries = record { db = db; ops = queue; failed = none }

abbrev written : Outcome (Unit {0}) × State World
written = run_write env "ann" two_entries start

written_ok : written ≡ (ok tt, written.1)
unfolding run_write write_items write_item stamp_and_marshal marshal_stamped marshal_item
    model_field_of model_of parse_tags_fresh type_field_by_name find_field store_at set_slot
    compress_loop parse_compress_fields Dict.lookup trim_space field_by_name compress_json pk
    build_key key_parts pk_fields_of insert sk sk_fields_of struct_value_of find_promoted find_slot
    model_field compress_fields_of parse_clause parse_model_clauses resolve_attr_name split_fields
    cut is_space join split
written_ok = refl

run_write-IsSent_example :
    (two_entries.failed ≡ none)
    × (((two_entries.ops ≡ []) × (written.1 ≡ start))
        ⊎ IsSent env "ann" two_entries start written.1)
run_write-IsSent_example = run_write-IsSent env "ann" two_entries start written.1 written_ok
