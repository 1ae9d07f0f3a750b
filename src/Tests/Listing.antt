-- ===== src/Tests/Listing.antt =====
-- All pages, and the pieces of a batch, on a concrete world.
use godynamo.Prelude.{inr, ℕ, ◌≡◌, refl, arith, none, some, List, [], ◌∷◌, concat}
use godynamo.Dict
use godynamo.Fault.{ok}
use godynamo.Text.{split, cut, trim_space, is_space}
use godynamo.Io.{State}
use godynamo.Reflect.{Struct, find_slot, find_field, type_field_by_name, zero_model}
use godynamo.Sdk.{Item, s}
use godynamo.Tags.{
  split_fields, parse_clause, parse_model_clauses, parse_compress_fields, parse_tags_fresh,
  resolve_attr_name, compress_fields_of,
}
use godynamo.Compress.{
  unmarshal_all, unmarshal_new, unmarshal_item_into, extract_compressed_fields, extract_loop,
  apply_pending_compressed_fields,
}
use godynamo.Env.{QueryInput}
use godynamo.Query
use godynamo.Query.{QueryBuilder, query}
use godynamo.Statement
use godynamo.Statement.{StatementBuilder}
use godynamo.Listing.{
  QueryServes, last_page, next_page, StatementServes, last_rows, next_rows, query_all-Served,
  statement_all-Served,
}
use godynamo.Tests.Fixtures.{task, runtime, task_value}
use godynamo.Tests.World.{env, db, start, World, first_item, second_item, next_key}

abbrev two_pages : List (List Item)
two_pages = (first_item ∷ []) ∷ (second_item ∷ []) ∷ []

abbrev pub both : List Struct
both = task_value zero_model "one" "" ∷ task_value zero_model "two" "" ∷ []

both_ok : unmarshal_all runtime task (concat two_pages) ≡ ok both
unfolding unmarshal_all unmarshal_new unmarshal_item_into extract_compressed_fields extract_loop
    apply_pending_compressed_fields parse_tags_fresh parse_model_clauses parse_clause split_fields
    parse_compress_fields compress_fields_of resolve_attr_name type_field_by_name find_field split
    cut trim_space is_space Dict.lookup Dict.erase Dict.copy find_slot
both_ok = refl

abbrev pub after : ℕ → State World
after n = record start { world = record { time = 0; fresh = 8; calls = n } }

abbrev pub all_tasks : QueryBuilder env
all_tasks = record {
  db = db;
  pk = none;
  sk = record { kind = Query.sk_begins_with; lo = "Task#"; hi = "" };
  filters = [];
  index = "";
  limit = some 1;
}

abbrev query_input : QueryInput
query_input = record {
  table_name = "tasks";
  index_name = some "GSI1";
  key_condition_expression = some "GSI1PK=Task AND SK^Task#";
  filter_expression = none;
  expression_attribute_names = [];
  expression_attribute_values = [];
  limit = some 1;
  exclusive_start_key = [];
}

query_built : Query.build_input env task all_tasks ≡ ok query_input
unfolding Query.build_input Query.key_target Query.with_sk Query.Filters.filter_of
query_built = refl

query_serves : QueryServes env db "ann" query_input [] start.world two_pages (after 2).world
query_serves = next_page {next = next_key} {w₁ = (after 1).world} refl refl (last_page refl)

query_all-Served_example : Query.all env 2 "ann" task all_tasks start ≡ (ok both, after 2)
query_all-Served_example =
    query_all-Served env "ann" task 2 start (after 2).world (omega arith) both_ok all_tasks
      query_input query_built query_serves

abbrev a_statement : StatementBuilder env
a_statement = record {
  db = db;
  stmt = "SELECT * FROM tasks";
  params = s "x" ∷ [];
  failed = none;
  limit = none;
  consistent_read = none;
}

statement_serves :
    StatementServes env db "ann"
      (Statement.build_input env a_statement)
      none
      start.world
      two_pages
      (after 2).world
unfolding Statement.build_input
statement_serves =
    next_rows {token = "t"} {w₁ = (after 1).world} refl refl
      (last_rows {token = some ""} refl (inr refl))

statement_all-Served_example : Statement.all env 2 "ann" task a_statement start ≡ (ok both, after 2)
statement_all-Served_example =
    statement_all-Served env "ann" task 2 start (after 2).world (omega arith) both_ok a_statement
      refl statement_serves
