-- ===== src/Tests/Pages.antt =====
-- The cursors of a query's pages on a concrete world.
use godynamo.Prelude.{
  String, str_eq, ◌≡◌, ◌≢◌, refl, sym, arith, false, eq_iff, Bool-cases, inl, inr, [], ◌∷◌,
  is_empty, if◌then◌else◌,
}
use godynamo.Dict
use godynamo.Fault.{Outcome, ok, err, foreign}
use godynamo.Text.{split, cut, trim_space, is_space}
use godynamo.Reflect.{find_slot, find_field, type_field_by_name, zero_model}
use godynamo.Sdk.{s, b, member, Bytes, Item}
use godynamo.Tags.{
  split_fields, parse_clause, parse_model_clauses, parse_compress_fields, parse_tags_fresh,
  resolve_attr_name, compress_fields_of,
}
use godynamo.Compress.{
  unmarshal_all, unmarshal_new, unmarshal_item_into, extract_compressed_fields, extract_loop,
  apply_pending_compressed_fields,
}
use godynamo.Query
use godynamo.Query.{page, build_input, start_of, next_cursor}
use godynamo.Query.Cursors.{CursorCodec, encode_cursor, decode_cursor}
use godynamo.Query.Opaque.{IsLossless}
use godynamo.Query.Chain.{Follows, last, more, EndsInTexts, all-Follows}
use godynamo.Query.Filters.{filter_of}
use godynamo.Tests.Fixtures.{task, task_value}
use godynamo.Tests.World.{env, start, next_key, page_at}
use godynamo.Tests.Listing.{both, after, all_tasks}

abbrev write_map : Item → Outcome Bytes
write_map ((a, s t) ∷ []) =
    if str_eq a "PK"
    then if str_eq t "one" then ok (1 ∷ []) else err (foreign "json")
    else err (foreign "json")
write_map _ = err (foreign "json")

abbrev read_map : Bytes → Outcome Item
read_map [] = err (foreign "json")
read_map (c ∷ raw) = ok next_key

abbrev write_text : Bytes → String
write_text [] = ""
write_text (c ∷ raw) = "AQ=="

abbrev read_text : String → Outcome Bytes
read_text t = if str_eq t "AQ==" then ok (1 ∷ []) else err (foreign "base64")

abbrev cursors : CursorCodec Item
cursors = record {
  unmarshal_map = λ key. ok key;
  json_marshal = write_map;
  encode_to_string = write_text;
  decode_string = read_text;
  json_unmarshal = read_map;
  marshal_map = λ m. ok m;
}

write_map-eq-ok :
    (m : Item) (raw : Bytes) → write_map m ≡ ok raw → (m ≡ next_key) × (raw ≡ (1 ∷ []))
write_map-eq-ok [] raw h = cc
write_map-eq-ok ((a, b content) ∷ []) raw h = cc
write_map-eq-ok ((a, member n) ∷ []) raw h = cc
write_map-eq-ok ((a, s t) ∷ []) raw h = elim (Bool-cases (str_eq a "PK")) [
  | inl e ↦ elim (Bool-cases (str_eq t "one")) [
    | inl e' ↦
        let r : (1 ∷ []) ≡ raw = cc (rw (e, e') at h) in
        (rw ((eq_iff a "PK").0 e, (eq_iff t "one").0 e') refl, sym r)
    | inr e' ↦ absurd (cc (rw (e, e') at h))
  ]
  | inr e ↦ absurd (cc (rw e at h))
]
write_map-eq-ok ((a, s t) ∷ (entry ∷ m)) raw h = cc
write_map-eq-ok ((a, b content) ∷ (entry ∷ m)) raw h = cc
write_map-eq-ok ((a, member n) ∷ (entry ∷ m)) raw h = cc

cursors-IsLossless : IsLossless cursors
cursors-IsLossless = record {
  map_back = λ key m texts h. cc;
  json_back = λ key m raw texts h e. let (k, r) = write_map-eq-ok m raw e in rw (k, r) refl;
  json_some = λ m raw e. let (k, r) = write_map-eq-ok m raw e in rw r refl;
  base64_back = λ m raw e. let (k, r) = write_map-eq-ok m raw e in rw r refl;
  base64_some = some_text;
}
  where
    some_text : (raw : Bytes) → is_empty raw ≡ false → write_text raw ≢ ""
    some_text [] h = absurd (cc h)
    some_text (c ∷ raw) h = λ z. cc z

encoded : next_cursor env cursors next_key ≡ ok "AQ=="
unfolding next_cursor encode_cursor
encoded = refl

ends_in_texts : EndsInTexts env cursors "ann" task all_tasks
ends_in_texts input w output h = elim (Bool-cases (is_empty input.exclusive_start_key)) [
  | inl e ↦ let o : page_at input.exclusive_start_key ≡ output = cc h in rw (← o, e) (tt, tt)
  | inr e ↦ let o : page_at input.exclusive_start_key ≡ output = cc h in rw (← o, e) tt
]

two_pages : Follows env cursors "ann" task all_tasks "" start 2 both (after 2)
unfolding page build_input Query.key_target Query.with_sk filter_of start_of next_cursor
    encode_cursor decode_cursor unmarshal_all unmarshal_new unmarshal_item_into
    extract_compressed_fields extract_loop apply_pending_compressed_fields parse_tags_fresh
    parse_model_clauses parse_clause split_fields parse_compress_fields compress_fields_of
    resolve_attr_name type_field_by_name find_field split cut trim_space is_space Dict.lookup
    Dict.erase Dict.copy find_slot
two_pages =
    more {next = "AQ=="} {st₁ = after 1} {items = task_value zero_model "one" "" ∷ []} refl
      (λ z. cc z) (last {items = task_value zero_model "two" "" ∷ []} refl)

all-Follows_example : Query.all env 2 "ann" task all_tasks start ≡ (ok both, after 2)
all-Follows_example =
    all-Follows env cursors "ann" task all_tasks 2 2 start (after 2) both cursors-IsLossless
      ends_in_texts two_pages (omega arith)
