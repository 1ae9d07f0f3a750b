-- ===== src/Tests/Returned.antt =====
-- Reads of a task by its ID after it was put, put in a transaction, and updated.
use godynamo.Prelude.{
  String, str_eq, ◌≡◌, ◌||◌, sym, refl, none, List, [], ◌∷◌, Bool, true, false, if◌then◌else◌,
}
use godynamo.Dict
use godynamo.Dict.{lookup, insert, copy, erase}
use godynamo.Fault.{ok}
use godynamo.Text.{split, cut, trim_space}
use godynamo.Reflect.{
  plain, string, zero_of, model_of, set_slot, find_slot, find_field, field_by_name,
  type_field_by_name,
}
use godynamo.Tags.{
  split_fields, parse_clause, parse_model_clauses, parse_compress_fields, parse_tags_fresh,
  resolve_attr_name,
}
use godynamo.Sdk.{Item, s, b, member}
use godynamo.Compress.{marshal_item, compress_loop, compress_json, unmarshal_new}
use godynamo.Crud.{get}
use godynamo.Compress.RoundTrip.{is_attr_of, without, IsCompressible}
use godynamo.Compress.Codec.{IsReadable, unmarshal_new-marshal_item}
use godynamo.Tests.Fixtures.{text_decl, slot, task}
use godynamo.Tests.Keying.{task_tags, parse_task, task_tags-IsDefault}
use godynamo.Tests.Rows.{row_runtime}
use godynamo.Tests.Client.{row_env, row_db}
use godynamo.Tests.Store.{row_db-GetAnswers, row_table}
use godynamo.Tests.Stored.{first, stored_task, task_key}
use godynamo.Table.ReadBack.Updated.{get-run}
use godynamo.Tests.Updating.{row_updates, an_update, after_update, after_update_ok, updated_task}
use godynamo.Tests.Keying.{task-IsEntityType}

abbrev is_one_of : List String → String → Bool
is_one_of [] a = false
is_one_of (name ∷ names) a = str_eq name a || is_one_of names a

abbrev task_attrs : List String
task_attrs =
    "Title" ∷ "Notes" ∷ "Version" ∷ "ID" ∷ "Type" ∷ "CreatedAt" ∷ "CreatedBy" ∷ "UpdatedAt"
    ∷ "UpdatedBy" ∷ []

abbrev stored_attrs : Item
stored_attrs =
    ("Version", member 1)
    ∷ ("ID", member 7)
    ∷ ("Type", s "Task")
    ∷ ("CreatedAt", member 1)
    ∷ ("CreatedBy", s "ann")
    ∷ ("UpdatedAt", member 1)
    ∷ ("UpdatedBy", s "ann")
    ∷ ("Title", s "write")
    ∷ ("Notes", s "note")
    ∷ []

notes-IsCompressible : IsCompressible row_runtime stored_task "Notes"
unfolding find_slot
notes-IsCompressible = record {
  slot = slot (text_decl "Notes" (("dynamo", "compress") ∷ [])) (plain (string "note"));
  found = refl;
  exported = refl;
  json_reads = λ raw h. let e : (1 ∷ []) ≡ raw = cc h in rw (sym e) refl;
}

stored_task_reads :
    (base item : Item)
    → row_runtime.marshal_map stored_task ≡ ok base
    → ((a : String)
        → is_one_of task_attrs a ≡ true
        → lookup a item ≡ (if is_attr_of task ("Notes" ∷ []) a then none else lookup a base))
    → row_runtime.unmarshal_map item (zero_of task) ≡ (ok tt, without ("Notes" ∷ []) stored_task)
unfolding find_slot set_slot model_of lookup resolve_attr_name type_field_by_name find_field cut
stored_task_reads base item h agree =
    let is_base : stored_attrs ≡ base = cc h in
    rw
      (
        agree "Title" refl,
        agree "Notes" refl,
        agree "Version" refl,
        agree "ID" refl,
        agree "Type" refl,
        agree "CreatedAt" refl,
        agree "CreatedBy" refl,
        agree "UpdatedAt" refl,
        agree "UpdatedBy" refl,
        sym is_base,
      )
      refl

stored_task-IsReadable : IsReadable row_runtime stored_task
stored_task-IsReadable = record {
  tags = task_tags;
  parsed = parse_task;
  compressible = (notes-IsCompressible, tt);
  own_attrs = (tt, tt);
  gzip_reads = λ raw content h. let e : (31 ∷ raw) ≡ content = cc h in rw (sym e) refl;
  reads = is_one_of task_attrs;
  map_reads = stored_task_reads;
}

abbrev stored_base : Item
stored_base =
    ("Version", member 1)
    ∷ ("ID", member 7)
    ∷ ("Type", s "Task")
    ∷ ("CreatedAt", member 1)
    ∷ ("CreatedBy", s "ann")
    ∷ ("UpdatedAt", member 1)
    ∷ ("UpdatedBy", s "ann")
    ∷ ("Title", s "write")
    ∷ ("Notes", b (31 ∷ 1 ∷ []))
    ∷ []

stored_base_wrote : marshal_item row_runtime stored_task ≡ ok stored_base
unfolding marshal_item parse_tags_fresh parse_model_clauses parse_clause split_fields
    parse_compress_fields type_field_by_name find_field split cut trim_space Dict.lookup
    compress_loop compress_json field_by_name find_slot insert resolve_attr_name model_of
stored_base_wrote = refl

unmarshal_new-marshal_item_example : unmarshal_new row_runtime task stored_base ≡ ok stored_task
unmarshal_new-marshal_item_example =
    unmarshal_new-marshal_item row_runtime stored_task stored_task-IsReadable stored_base
      stored_base stored_base_wrote (λ a _. refl)

get-run_example : (get row_env row_db "eve" task 7 after_update.1).0 ≡ ok updated_task
get-run_example =
    get-run row_env an_update row_table row_updates task task_tags task-IsEntityType parse_task
      task_tags-IsDefault "bob" "eve" first.1 after_update.1 updated_task after_update_ok
      (row_db-GetAnswers "eve" task_key after_update.1.world)
