-- ===== src/Scan.antt =====
-- scan.go: the scan builder, its input, and reading of one segment or of all, in parallel.
pub mod Parallel
use godynamo.Prelude.{
  ℕ, ◌-◌, ◌^◌, String, ◌<>◌, Option, none, some, List, [], ◌∷◌, ◌++◌, is_empty, ltb, if◌then◌else◌,
}
use godynamo.Fault.{Outcome, errorf, wrap_err, ok, err, ◌>>=◌ as ◌>>=ᵒ◌}
use godynamo.Text.{decimal}
use godynamo.Io.{Io, pure, lift, call, wrapping, ◌>>=◌}
use godynamo.Reflect.{Any, string, nil, Struct, StructType}
use godynamo.Sdk.{Item}
use godynamo.Tags.{resolve_attr_name}
use godynamo.Env.{Env, ScanInput}
use godynamo.Db.{Db}
use godynamo.Paging.{Page, pages}
use godynamo.Query.Filters.{
  FilterOp, filter_equal, filter_not_equal, filter_greater_than, filter_greater_or_equal,
  filter_less_than, filter_less_or_equal, filter_begins_with, filter_contains, filter_exists,
  filter_not_exists, FilterCondition, filter_expression,
}

abbrev pub max_int32 : ℕ
max_int32 = 2 ^ 31 - 1

-- `total_segments` is a Go `int` of at least 0 here: a negative one is like 0.
pub record ScanBuilder (E : Env) : Type 0 where
  pub db : Db E
  pub filters : List FilterCondition
  pub limit : Option ℕ
  pub total_segments : ℕ

module _ (E : Env) where
  open E use {World, Context, runtime, expression}

  abbrev pub Builder : Type 0
  Builder = ScanBuilder E

  -- `Scan[T]`
  unfoldable pub scan : Db E → Builder
  scan db = record { db = db; filters = []; limit = none; total_segments = 0 }

  unfoldable pub add_filter : StructType → FilterOp → String → Any → Builder → Builder
  add_filter t op field value b =
      let attr = resolve_attr_name t field in
      record b { filters = b.filters ++ (record { op = op; field = attr; value = value } ∷ []) }

  module _ (t : StructType) (field : String) where
    unfoldable pub filter : Any → Builder → Builder
    filter value b = add_filter t filter_equal field value b

    unfoldable pub filter_eq : Any → Builder → Builder
    filter_eq value b = add_filter t filter_equal field value b

    unfoldable pub filter_ne : Any → Builder → Builder
    filter_ne value b = add_filter t filter_not_equal field value b

    unfoldable pub filter_gt : Any → Builder → Builder
    filter_gt value b = add_filter t filter_greater_than field value b

    unfoldable pub filter_ge : Any → Builder → Builder
    filter_ge value b = add_filter t filter_greater_or_equal field value b

    unfoldable pub filter_lt : Any → Builder → Builder
    filter_lt value b = add_filter t filter_less_than field value b

    unfoldable pub filter_le : Any → Builder → Builder
    filter_le value b = add_filter t filter_less_or_equal field value b

    unfoldable pub filter_prefix : String → Builder → Builder
    filter_prefix prefix b = add_filter t filter_begins_with field (string prefix) b

    unfoldable pub filter_containing : Any → Builder → Builder
    filter_containing value b = add_filter t filter_contains field value b

    unfoldable pub filter_present : Builder → Builder
    filter_present b = add_filter t filter_exists field nil b

    unfoldable pub filter_absent : Builder → Builder
    filter_absent b = add_filter t filter_not_exists field nil b

  unfoldable pub limit : ℕ → Builder → Builder
  limit n b = record b { limit = some n }

  unfoldable pub parallel : ℕ → Builder → Builder
  parallel total b = record b { total_segments = total }

  abbrev plain_input : Builder → ScanInput
  plain_input b = record {
    table_name = b.db.table;
    filter_expression = none;
    expression_attribute_names = [];
    expression_attribute_values = [];
    limit = none;
    segment = none;
    total_segments = none;
    exclusive_start_key = [];
  }

  -- The filter part of `buildInput`
  unfoldable pub with_filters : List FilterCondition → ScanInput → Outcome ScanInput
  with_filters [] input = ok input
  with_filters (f ∷ fs) input =
      wrap_err "godynamo: building scan expression"
        (expression.build none (some (filter_expression E f fs)) none none)
      >>=ᵒ λ expr. ok (record input {
        filter_expression = expr.filter;
        expression_attribute_names = expr.names;
        expression_attribute_values = expr.values;
      })

  -- The segment part of `buildInput`
  unfoldable pub with_segment : Builder → ℕ → ScanInput → Outcome ScanInput
  with_segment b segment input =
      if ltb 1 b.total_segments
      then if ltb max_int32 b.total_segments
        then err (
            errorf (
              "godynamo: scan: totalSegments "
              <> decimal b.total_segments
              <> " exceeds int32 range"))
        else ok (record input { segment = some segment; total_segments = some b.total_segments })
      else ok input

  -- `ScanBuilder.buildInput`
  unfoldable pub build_input : Builder → ℕ → Outcome ScanInput
  build_input b segment = with_filters b.filters (plain_input b) >>=ᵒ λ input.
      with_segment b segment (record input { limit = b.limit })

  -- One call of the loop of `scanSegment`, started at a key.
  unfoldable pub fetch : Db E → Context → StructType → ScanInput → Item → Io World (Page Item)
  fetch db ctx t input start = do
    out ←
        wrapping ("godynamo: scan " <> t.name)
          (call (db.client.scan ctx (record input { exclusive_start_key = start })))
    pure (out.items, if is_empty out.last_evaluated_key then none else some out.last_evaluated_key)

  -- `ScanBuilder.scanSegment`, on fuel for its pages.
  unfoldable pub scan_segment : ℕ → Context → StructType → Builder → ℕ → Io World (List Struct)
  scan_segment fuel ctx t b segment = do
    input ← lift (build_input b segment)
    pages E t (fetch b.db ctx t input) fuel [] []
