-- ===== src/Query.antt =====
-- query.go: the query builder, its input, and reading of all pages or of one.
pub mod Filters
pub mod Passing
pub mod Cursors
pub mod Opaque
pub mod Chain
use godynamo.Prelude.{
  ℕ, String, str_eq, ◌<>◌, Option, none, some, List, [], ◌∷◌, ◌++◌, is_empty, if◌then◌else◌,
}
use godynamo.Fault.{Outcome, wrap_err, ok, err, panic, wrapped, ◌>>=◌ as ◌>>=ᵒ◌}
use godynamo.Io.{Io, pure, lift, call, wrapping, ◌>>=◌}
use godynamo.Reflect.{Any, string, nil, Struct, StructType}
use godynamo.Sdk.{Item}
use godynamo.Tags.{resolve_attr_name}
use godynamo.Env.{Env, Expression, QueryInput, PageOutput}
use godynamo.Db.{Db}
use godynamo.Compress.{unmarshal_all}
use godynamo.Paging.{Page, pages}
use godynamo.Query.Filters.{
  FilterOp, filter_equal, filter_not_equal, filter_greater_than, filter_greater_or_equal,
  filter_less_than, filter_less_or_equal, filter_begins_with, filter_contains, filter_exists,
  filter_not_exists, FilterCondition, filter_of,
}
use godynamo.Query.Cursors.{CursorCodec, encode_cursor, decode_cursor}

pub data SkConditionKind : Type 0 where
  sk_none sk_equals sk_begins_with sk_between : SkConditionKind

pub record SkCondition : Type 0 where
  pub kind : SkConditionKind
  pub lo : String
  pub hi : String

pub record QueryBuilder (E : Env) : Type 0 where
  pub db : Db E
  pub pk : Option String
  pub sk : SkCondition
  pub filters : List FilterCondition
  pub index : String
  pub limit : Option ℕ

module _ (E : Env) where
  open E use {World, Context, KeyCondition, runtime, expression}

  abbrev pub Builder : Type 0
  Builder = QueryBuilder E

  -- `Query[T]`
  unfoldable pub query : Db E → Builder
  query db = record {
    db = db;
    pk = none;
    sk = record { kind = sk_none; lo = ""; hi = "" };
    filters = [];
    index = "";
    limit = none;
  }

  unfoldable pub where_pk : String → Builder → Builder
  where_pk pk b = record b { pk = some pk }

  unfoldable pub sk_equal_to : String → Builder → Builder
  sk_equal_to sk b = record b { sk = record { kind = sk_equals; lo = sk; hi = "" } }

  unfoldable pub sk_starting_with : String → Builder → Builder
  sk_starting_with prefix b = record b {
    sk = record { kind = sk_begins_with; lo = prefix; hi = "" };
  }

  unfoldable pub sk_in : String → String → Builder → Builder
  sk_in lo hi b = record b { sk = record { kind = sk_between; lo = lo; hi = hi } }

  unfoldable pub add_filter : StructType → FilterOp → String → Any → Builder → Builder
  add_filter t op field value b =
      let attr = resolve_attr_name t field in
      record b { filters = b.filters ++ (record { op = op; field = attr; value = value } ∷ []) }

  module _ (t : StructType) (field : String) where
    unfoldable pub filter : Any → Builder → Builder
    filter value b = add_filter t filter_equal field value b

    unfoldable pub filter_eq : Any → Builder → Builder
    filter_eq value b = add_filter t filter_equal field value b

    unfoldable pub filter_ne : Any → Builder → Builder
    filter_ne value b = add_filter t filter_not_equal field value b

    unfoldable pub filter_gt : Any → Builder → Builder
    filter_gt value b = add_filter t filter_greater_than field value b

    unfoldable pub filter_ge : Any → Builder → Builder
    filter_ge value b = add_filter t filter_greater_or_equal field value b

    unfoldable pub filter_lt : Any → Builder → Builder
    filter_lt value b = add_filter t filter_less_than field value b

    unfoldable pub filter_le : Any → Builder → Builder
    filter_le value b = add_filter t filter_less_or_equal field value b

    unfoldable pub filter_prefix : String → Builder → Builder
    filter_prefix prefix b = add_filter t filter_begins_with field (string prefix) b

    unfoldable pub filter_containing : Any → Builder → Builder
    filter_containing value b = add_filter t filter_contains field value b

    unfoldable pub filter_present : Builder → Builder
    filter_present b = add_filter t filter_exists field nil b

    unfoldable pub filter_absent : Builder → Builder
    filter_absent b = add_filter t filter_not_exists field nil b

  unfoldable pub index : String → Builder → Builder
  index name b = record b { index = name }

  unfoldable pub limit : ℕ → Builder → Builder
  limit n b = record b { limit = some n }

  -- The first part of `buildInput`: the partition key condition, and the index.
  unfoldable pub key_target : StructType → Builder → Option String → KeyCondition × Option String
  key_target t b (some pk) = (expression.key_equal "PK" (string pk), none)
  key_target t b none = (
    expression.key_equal b.db.gsi1_pk_attr (string t.name),
    some (if str_eq b.index "" then b.db.gsi1_name else b.index),
  )

  -- The second part of `buildInput`: the sort key condition.
  unfoldable pub with_sk : SkCondition → KeyCondition → KeyCondition
  with_sk sk key_cond = elim sk.kind [
    | sk_none ↦ key_cond
    | sk_equals ↦ expression.key_and key_cond (expression.key_equal "SK" (string sk.lo))
    | sk_begins_with ↦ expression.key_and key_cond (expression.key_begins_with "SK" sk.lo)
    | sk_between ↦
        expression.key_and key_cond (expression.key_between "SK" (string sk.lo) (string sk.hi))
  ]

  abbrev query_input : Builder → Option String → Expression → QueryInput
  query_input b index_name expr = record {
    table_name = b.db.table;
    index_name = index_name;
    key_condition_expression = expr.key_condition;
    filter_expression = expr.filter;
    expression_attribute_names = expr.names;
    expression_attribute_values = expr.values;
    limit = b.limit;
    exclusive_start_key = [];
  }

  -- `QueryBuilder.buildInput`
  unfoldable pub build_input : StructType → Builder → Outcome QueryInput
  build_input t b =
      let (key_cond, index_name) = key_target t b b.pk in
      wrap_err "godynamo: building query expression"
        (expression.build (some (with_sk b.sk key_cond)) (filter_of E b.filters) none none)
      >>=ᵒ λ expr. ok (query_input b index_name expr)

  abbrev call_query : Db E → Context → StructType → QueryInput → Io World PageOutput
  call_query db ctx t input =
      wrapping ("godynamo: query " <> t.name) (call (db.client.query ctx input))

  -- One call of the loop of `All`, started at a key.
  unfoldable pub fetch : Db E → Context → StructType → QueryInput → Item → Io World (Page Item)
  fetch db ctx t input start = do
    out ← call_query db ctx t (record input { exclusive_start_key = start })
    pure (out.items, if is_empty out.last_evaluated_key then none else some out.last_evaluated_key)

  -- `QueryBuilder.All`, on fuel for its pages.
  unfoldable pub all : ℕ → Context → StructType → Builder → Io World (List Struct)
  all fuel ctx t b = do
    input ← lift (build_input t b)
    pages E t (fetch b.db ctx t input) fuel [] []

  module _ {M : Type 0} (C : CursorCodec M) where
    -- The start that a cursor stands for; the empty text is the beginning.
    unfoldable pub start_of : String → Outcome Item
    start_of cursor =
        let decoded = wrap_err "godynamo: decoding cursor" (decode_cursor C cursor) in
        if str_eq cursor "" then ok [] else decoded

    unfoldable pub next_cursor : Item → Outcome String
    next_cursor key =
        let encoded = wrap_err "godynamo: encoding cursor" (encode_cursor C key) in
        if is_empty key then ok "" else encoded

    -- `QueryBuilder.Page`
    unfoldable pub page : Context → StructType → Builder → String → Io World (List Struct × String)
    page ctx t b cursor = do
      input ← lift (build_input t b)
      start ← lift (start_of cursor)
      out ← call_query b.db ctx t (record input { exclusive_start_key = start })
      items ← wrapping ("godynamo: unmarshal " <> t.name) (lift (unmarshal_all runtime t out.items))
      next ← lift (next_cursor out.last_evaluated_key)
      pure (items, next)
