-- ===== src/Query/Passing.antt =====
-- The filters of query.go and scan.go: what passes the filters of a builder.
use godynamo.Prelude.{
  ◌≡◌, refl, Bool, true, ◌&&◌, String, Option, none, some, List, [], ◌∷◌, ◌++◌, foldl,
}
use godynamo.Reflect.{Any, StructType}
use godynamo.Sdk.{Item}
use godynamo.Tags.{resolve_attr_name}
use godynamo.Env.{Env}
use godynamo.Query
use godynamo.Query.{QueryBuilder}
use godynamo.Scan
use godynamo.Scan.{ScanBuilder}
use godynamo.Query.Filters.{FilterCondition, build_condition, filter_expression, filter_of}

-- Whether conditions hold of items: package expression's `And` holds if both of its conditions do.
pub record Meaning (E : Env) : Type 0 where
  pub holds : E.Condition → Item → Bool
  pub and_holds :
      (c d : E.Condition) (av : Item)
      → holds (E.expression.cond_and c d) av ≡ (holds c av && holds d av)

module _ (E : Env) (M : Meaning E) (av : Item) where
  -- Without a filter, everything passes.
  abbrev pub passes : Option E.Condition → Bool
  passes none = true
  passes (some cond) = M.holds cond av

  foldl-holds :
      (fs : List FilterCondition) (cond : E.Condition) (g : FilterCondition)
      → M.holds
          (foldl (λ c f. E.expression.cond_and c (build_condition E f)) cond (fs ++ (g ∷ [])))
          av
        ≡ (M.holds (foldl (λ c f. E.expression.cond_and c (build_condition E f)) cond fs) av
            && M.holds (build_condition E g) av)
  foldl-holds [] cond g = M.and_holds cond (build_condition E g) av
  foldl-holds (f ∷ fs) cond g = foldl-holds fs (E.expression.cond_and cond (build_condition E f)) g

  -- One more filter is one more condition.
  filter_of-append :
      (fs : List FilterCondition) (g : FilterCondition)
      → passes (filter_of E (fs ++ (g ∷ [])))
        ≡ (passes (filter_of E fs) && M.holds (build_condition E g) av)
  unfolding filter_of filter_expression
  filter_of-append [] g = refl
  filter_of-append (f ∷ fs) g = foldl-holds fs (build_condition E f) g

  -- What passes these filters is what passed the ones before and fulfils a condition.
  abbrev pub Adds : (before after : List FilterCondition) → E.Condition → Type 0
  Adds before after cond =
      passes (filter_of E after) ≡ (passes (filter_of E before) && M.holds cond av)

  module _ (t : StructType) (field : String) (value : Any) (prefix : String) where
    abbrev attr : String
    attr = resolve_attr_name t field

    -- That each filter method of a query adds its own condition, on the attribute of its field.
    abbrev pub QueryFiltersAdd : QueryBuilder E → Type 0
    QueryFiltersAdd b =
        Adds b.filters (Query.filter E t field value b).filters (E.expression.equal attr value)
        × Adds b.filters (Query.filter_eq E t field value b).filters (E.expression.equal attr value)
        × Adds b.filters (Query.filter_ne E t field value b).filters
            (E.expression.not_equal attr value)
        × Adds b.filters (Query.filter_gt E t field value b).filters
            (E.expression.greater_than attr value)
        × Adds b.filters (Query.filter_ge E t field value b).filters
            (E.expression.greater_than_equal attr value)
        × Adds b.filters (Query.filter_lt E t field value b).filters
            (E.expression.less_than attr value)
        × Adds b.filters (Query.filter_le E t field value b).filters
            (E.expression.less_than_equal attr value)
        × Adds b.filters (Query.filter_prefix E t field prefix b).filters
            (E.expression.begins_with attr prefix)
        × Adds b.filters (Query.filter_containing E t field value b).filters
            (E.expression.contains attr value)
        × Adds b.filters (Query.filter_present E t field b).filters
            (E.expression.attribute_exists attr)
        × Adds b.filters (Query.filter_absent E t field b).filters
            (E.expression.attribute_not_exists attr)

    -- That each filter method of a scan does.
    abbrev pub ScanFiltersAdd : ScanBuilder E → Type 0
    ScanFiltersAdd b =
        Adds b.filters (Scan.filter E t field value b).filters (E.expression.equal attr value)
        × Adds b.filters (Scan.filter_eq E t field value b).filters (E.expression.equal attr value)
        × Adds b.filters (Scan.filter_ne E t field value b).filters
            (E.expression.not_equal attr value)
        × Adds b.filters (Scan.filter_gt E t field value b).filters
            (E.expression.greater_than attr value)
        × Adds b.filters (Scan.filter_ge E t field value b).filters
            (E.expression.greater_than_equal attr value)
        × Adds b.filters (Scan.filter_lt E t field value b).filters
            (E.expression.less_than attr value)
        × Adds b.filters (Scan.filter_le E t field value b).filters
            (E.expression.less_than_equal attr value)
        × Adds b.filters (Scan.filter_prefix E t field prefix b).filters
            (E.expression.begins_with attr prefix)
        × Adds b.filters (Scan.filter_containing E t field value b).filters
            (E.expression.contains attr value)
        × Adds b.filters (Scan.filter_present E t field b).filters
            (E.expression.attribute_exists attr)
        × Adds b.filters (Scan.filter_absent E t field b).filters
            (E.expression.attribute_not_exists attr)

    query_filters : (b : QueryBuilder E) → QueryFiltersAdd b
    unfolding build_condition Query.add_filter Query.filter Query.filter_eq Query.filter_ne
        Query.filter_gt Query.filter_ge Query.filter_lt Query.filter_le Query.filter_prefix
        Query.filter_containing Query.filter_present Query.filter_absent
    query_filters b = (
      filter_of-append b.filters _,
      filter_of-append b.filters _,
      filter_of-append b.filters _,
      filter_of-append b.filters _,
      filter_of-append b.filters _,
      filter_of-append b.filters _,
      filter_of-append b.filters _,
      filter_of-append b.filters _,
      filter_of-append b.filters _,
      filter_of-append b.filters _,
      filter_of-append b.filters _,
    )

    scan_filters : (b : ScanBuilder E) → ScanFiltersAdd b
    unfolding build_condition Scan.add_filter Scan.filter Scan.filter_eq Scan.filter_ne
        Scan.filter_gt Scan.filter_ge Scan.filter_lt Scan.filter_le Scan.filter_prefix
        Scan.filter_containing Scan.filter_present Scan.filter_absent
    scan_filters b = (
      filter_of-append b.filters _,
      filter_of-append b.filters _,
      filter_of-append b.filters _,
      filter_of-append b.filters _,
      filter_of-append b.filters _,
      filter_of-append b.filters _,
      filter_of-append b.filters _,
      filter_of-append b.filters _,
      filter_of-append b.filters _,
      filter_of-append b.filters _,
      filter_of-append b.filters _,
    )

    -- Filters are a conjunction, whatever the order and the number of the calls: each filter method
    -- of a query, and each of a scan, adds to what must hold of an item its own condition, on the
    -- attribute of the field that it names.
    pub filters-Add :
        (b : QueryBuilder E) (c : ScanBuilder E) → QueryFiltersAdd b × ScanFiltersAdd c
    filters-Add b c = (query_filters b, scan_filters c)
