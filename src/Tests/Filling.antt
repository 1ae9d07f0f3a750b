-- ===== src/Tests/Filling.antt =====
-- A transactional read and filters on a concrete world.
use godynamo.Prelude.{
  length, ◌≤◌, String, str_eq, Bool, true, false, ◌&&◌, ◌||◌, ◌++◌, Bool-cases, inl, inr, ◌≡◌, refl,
  arith, [], ◌∷◌,
}
use godynamo.Dict
use godynamo.Fault.{ok}
use godynamo.Text.{join, split, cut, trim_space, is_space}
use godynamo.Io.{State, at}
use godynamo.Reflect.{
  string, model_of, set_slot, find_slot, find_field, find_promoted, field_by_name,
  type_field_by_name, model_field,
}
use godynamo.Sdk.{AttributeValue, s, Item}
use godynamo.Tags.{
  split_fields, parse_clause, parse_model_clauses, parse_compress_fields, parse_tags_fresh,
  compress_fields_of, resolve_attr_name,
}
use godynamo.Keys.{struct_value_of, pk, sk, pk_fields_of, sk_fields_of, build_key, key_parts}
use godynamo.Compress.{
  unmarshal_item_into, extract_compressed_fields, extract_loop, apply_pending_compressed_fields,
}
use godynamo.Db.{Db}
use godynamo.Transact.{key_of}
use godynamo.Transact.Reading.{TransactGetBuilder, fill, get_items, run_get, unmarshal_at}
use godynamo.Transact.Filled.{IsFetched, run_get-AreFilled}
use godynamo.Query
use godynamo.Query.{QueryBuilder, query}
use godynamo.Query.Passing.{Meaning, QueryFiltersAdd, ScanFiltersAdd, filters-Add}
use godynamo.Scan
use godynamo.Scan.{ScanBuilder, scan}
use godynamo.Tests.Fixtures.{task}
use godynamo.Tests.Client.{row_env, row_db}
use godynamo.Tests.World.{env, db, client, start, first_item}

-- A client that finds the first of two items.
abbrev one_of_two : Db env
one_of_two = record db {
  client = record client { transact_get_items = λ ctx items w. (ok (first_item ∷ [] ∷ []), w) };
}

abbrev reads : TransactGetBuilder env
reads = record { db = one_of_two; dsts = at 3 ∷ at 4 ∷ [] }

abbrev out : State env.World
out = (run_get env "ann" reads start).1

read_ok : run_get env "ann" reads start ≡ (ok tt, out)
unfolding run_get get_items key_of fill unmarshal_at parse_tags_fresh type_field_by_name find_field
    parse_model_clauses parse_clause split_fields parse_compress_fields compress_fields_of split cut
    trim_space is_space Dict.lookup Dict.copy Dict.erase model_of find_slot set_slot pk sk
    pk_fields_of sk_fields_of struct_value_of build_key key_parts join field_by_name find_promoted
    model_field unmarshal_item_into extract_compressed_fields extract_loop
    apply_pending_compressed_fields resolve_attr_name
read_ok = refl

run_get-AreFilled_example :
    (length reads.dsts ≤ 100) × IsFetched env "ann" reads (3 ∷ 4 ∷ []) start out
run_get-AreFilled_example =
    run_get-AreFilled env "ann" reads (3 ∷ 4 ∷ []) start out refl (λ e. cc)
      ((λ e. omega (arith, e), tt), (tt, tt)) read_ok

-- A condition holds of an item that has each of the condition's texts as an attribute.
abbrev is_text : String → AttributeValue → Bool
is_text t (s u) = str_eq t u
is_text t _ = false

abbrev has_text : String → Item → Bool
has_text t [] = false
has_text t ((a, v) ∷ av) = is_text t v || has_text t av

abbrev has_value : AttributeValue → Item → Bool
has_value (s t) av = has_text t av
has_value _ av = true

abbrev has_values : Item → Item → Bool
has_values [] av = true
has_values ((a, v) ∷ values) av = has_value v av && has_values values av

has_values-append :
    (xs ys av : Item) → has_values (xs ++ ys) av ≡ (has_values xs av && has_values ys av)
has_values-append [] ys av = refl
has_values-append ((a, v) ∷ xs) ys av = elim (Bool-cases (has_value v av)) [
  | inl e ↦ rw e (has_values-append xs ys av)
  | inr e ↦ rw e refl
]

texts_of : Meaning row_env
texts_of = record {
  holds = λ cond av. has_values cond.1 av;
  and_holds = λ c d av. has_values-append c.1 d.1 av;
}

abbrev queried : QueryBuilder row_env
queried = Query.filter_eq row_env task "Notes" (string "note") (query row_env row_db)

abbrev scanned : ScanBuilder row_env
scanned = Scan.filter_eq row_env task "Notes" (string "note") (scan row_env row_db)

filters-Add_example :
    QueryFiltersAdd row_env texts_of first_item task "Title" (string "one") "o" queried
    × ScanFiltersAdd row_env texts_of first_item task "Title" (string "one") "o" scanned
filters-Add_example =
    filters-Add row_env texts_of first_item task "Title" (string "one") "o" queried scanned
