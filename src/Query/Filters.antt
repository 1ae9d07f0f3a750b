-- ===== src/Query/Filters.antt =====
-- The filters of query.go, which scan.go shares.
use godynamo.Prelude.{String, Option, none, some, List, [], ◌∷◌, foldl}
use godynamo.Reflect.{Any, string}
use godynamo.Env.{Env}

pub data FilterOp : Type 0 where
  filter_equal filter_not_equal filter_greater_than filter_greater_or_equal filter_less_than
        filter_less_or_equal filter_begins_with filter_contains filter_exists filter_not_exists :
      FilterOp

pub record FilterCondition : Type 0 where
  pub op : FilterOp
  pub field : String
  pub value : Any

-- `prefix, _ := f.value.(string)`
abbrev pub string_or_empty : Any → String
string_or_empty (string prefix) = prefix
string_or_empty _ = ""

module _ (E : Env) where
  open E use {Condition, expression}

  -- `filterCondition.buildCondition`
  unfoldable pub build_condition : FilterCondition → Condition
  build_condition f = elim f.op [
    | filter_equal ↦ expression.equal f.field f.value
    | filter_not_equal ↦ expression.not_equal f.field f.value
    | filter_greater_than ↦ expression.greater_than f.field f.value
    | filter_greater_or_equal ↦ expression.greater_than_equal f.field f.value
    | filter_less_than ↦ expression.less_than f.field f.value
    | filter_less_or_equal ↦ expression.less_than_equal f.field f.value
    | filter_begins_with ↦ expression.begins_with f.field (string_or_empty f.value)
    | filter_contains ↦ expression.contains f.field f.value
    | filter_exists ↦ expression.attribute_exists f.field
    | filter_not_exists ↦ expression.attribute_not_exists f.field
  ]

  -- `filterExpression` of the first filter and the others
  unfoldable pub filter_expression : FilterCondition → List FilterCondition → Condition
  filter_expression f fs =
      foldl (λ cond g. expression.cond_and cond (build_condition g)) (build_condition f) fs

  -- `if len(b.filters) > 0 { ... }`
  unfoldable pub filter_of : List FilterCondition → Option Condition
  filter_of [] = none
  filter_of (f ∷ fs) = some (filter_expression f fs)
