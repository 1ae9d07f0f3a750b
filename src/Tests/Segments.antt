-- ===== src/Tests/Segments.antt =====
-- A parallel scan on a concrete world, with two segments whose goroutines interleave.
use godynamo.Prelude.{
  ℕ, zero, suc, ◌<◌, ◌≡◌, ◌⊎◌, refl, true, none, some, List, [], ◌∷◌, ◌++◌, ltb, length, arith,
}
use mathlib.Core.List.{Perm}
use godynamo.Dict
use godynamo.Fault.{Error, ok}
use godynamo.Text.{split, cut, trim_space, is_space}
use godynamo.Reflect.{Struct, find_slot, find_field, type_field_by_name, zero_model}
use godynamo.Tags.{
  split_fields, parse_clause, parse_model_clauses, parse_compress_fields, parse_tags_fresh,
  resolve_attr_name, compress_fields_of,
}
use godynamo.Compress.{
  unmarshal_all, unmarshal_new, unmarshal_item_into, extract_compressed_fields, extract_loop,
  apply_pending_compressed_fields,
}
use godynamo.Scan.{ScanBuilder, build_input, with_filters, with_segment, fetch}
use godynamo.Scan.Parallel.{
  Parallel, launch, turn, merge, brings, Reaches, launched, next, result_of, done,
}
use godynamo.Sdk.{Item}
use godynamo.Env.{ScanInput}
use godynamo.Scan.Parallel.Snapshot.{Serves, last, more, Segment}
use godynamo.Scan.Parallel.Shares.{all_found}
use godynamo.Scan.Parallel.Fair.{turns_of, run, run-Reaches-done}
use godynamo.Scan.Parallel.Complete.{result_of-Perm}
use godynamo.Scan.Parallel.Merged.{items_of, error_of, result_of-brought}
use godynamo.Tests.Fixtures.{task, task_value}
use godynamo.Tests.World.{env, db, start, first_item, second_item, next_key}

abbrev halves : ScanBuilder env
halves = record { db = db; filters = []; limit = none; total_segments = 2 }

-- The turns, the last one first.
abbrev after_turns : List ℕ → Parallel env
after_turns [] = launch env "ann" task halves start
after_turns (i ∷ turns) = turn env "ann" task halves i (after_turns turns)

abbrev brought_by : List ℕ → List (List Struct ⊎ Error)
brought_by [] = []
brought_by (i ∷ turns) = brought_by turns ++ brings ((after_turns turns).goroutines i)

reached :
    (turns : List ℕ) → Reaches env "ann" task halves start (brought_by turns) (after_turns turns)
reached [] = launched
reached (i ∷ turns) = next i (reached turns)

abbrev schedule : List ℕ
schedule = 0 ∷ 0 ∷ 1 ∷ 1 ∷ 0 ∷ 1 ∷ []

result_of-brought_example :
    result_of (after_turns schedule).first_err (after_turns schedule).items
    ≡ result_of (error_of (brought_by schedule)) (items_of (brought_by schedule))
result_of-brought_example =
    result_of-brought env "ann" task halves start (brought_by schedule) (after_turns schedule)
      (reached schedule)

abbrev both : List Struct
both = task_value zero_model "one" "" ∷ task_value zero_model "two" "" ∷ []

both_twice :
    result_of (after_turns schedule).first_err (after_turns schedule).items ≡ ok (both ++ both)
unfolding launch turn merge build_input with_filters with_segment fetch unmarshal_all unmarshal_new
    unmarshal_item_into extract_compressed_fields extract_loop apply_pending_compressed_fields
    parse_tags_fresh parse_model_clauses parse_clause split_fields parse_compress_fields
    compress_fields_of resolve_attr_name type_field_by_name find_field split cut trim_space is_space
    Dict.lookup Dict.erase Dict.copy find_slot
both_twice = refl

abbrev half_input : ℕ → ScanInput
half_input i = record {
  table_name = "tasks";
  filter_expression = none;
  expression_attribute_names = [];
  expression_attribute_values = [];
  limit = none;
  segment = some i;
  total_segments = some 2;
  exclusive_start_key = [];
}

abbrev half_pages : List (List Item)
half_pages = (first_item ∷ []) ∷ (second_item ∷ []) ∷ []

half-Serves : (i : ℕ) → Serves env "ann" task halves (half_input i) [] half_pages
unfolding fetch
half-Serves i = more {following = next_key} (λ st. refl) (last (λ st. refl))

half-Segment : (i : ℕ) → Segment env "ann" task halves i half_pages both
unfolding build_input with_filters with_segment fetch unmarshal_all unmarshal_new
    unmarshal_item_into extract_compressed_fields extract_loop apply_pending_compressed_fields
    parse_tags_fresh parse_model_clauses parse_clause split_fields parse_compress_fields
    compress_fields_of resolve_attr_name type_field_by_name find_field split cut trim_space is_space
    Dict.lookup Dict.erase Dict.copy find_slot
half-Segment i = record {
  input = half_input i;
  built = refl;
  serves = half-Serves i;
  unmarshaled = refl;
}

abbrev fair_schedule : List ℕ
fair_schedule = 1 ∷ 0 ∷ 1 ∷ 0 ∷ 0 ∷ 1 ∷ []

enough_turns : (i : ℕ) → ltb i 2 ≡ true → length half_pages < turns_of i fair_schedule
enough_turns zero l = omega arith
enough_turns (suc zero) l = omega arith
enough_turns (suc (suc i)) l = ground arith

abbrev ended : Parallel env
ended = run env "ann" task halves fair_schedule (launch env "ann" task halves start)

abbrev fair_end :
    ((brought : List (List Struct ⊎ Error)) × Reaches env "ann" task halves start brought ended)
    × ((i : ℕ) → ended.goroutines i ≡ done)
fair_end =
    run-Reaches-done env "ann" task halves start (λ i. half_pages) (λ i. both) fair_schedule
      (λ i _. half-Segment i) enough_turns

run-Reaches-done_example :
    ((brought : List (List Struct ⊎ Error)) × Reaches env "ann" task halves start brought ended)
    × ((i : ℕ) → ended.goroutines i ≡ done)
run-Reaches-done_example =
    run-Reaches-done env "ann" task halves start (λ i. half_pages) (λ i. both) fair_schedule
      (λ i _. half-Segment i) enough_turns

result_of-Perm_example :
    (items : List Struct) × (result_of ended.first_err ended.items ≡ ok items)
    × Perm items (all_found (λ i. both) 2)
result_of-Perm_example =
    result_of-Perm env "ann" task halves (λ i. half_pages) (λ i. both) start fair_end.0.0 ended
      (λ i _. half-Segment i) fair_end.0.1 fair_end.1
