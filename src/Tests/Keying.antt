-- ===== src/Tests/Keying.antt =====
-- Tags, keys and attribute names on concrete structs.
use godynamo.Prelude.{ℕ, String, ◌≡◌, ◌==◌, if◌then◌else◌, refl, some, [], ◌∷◌, arith, eq_iff, inl}
use godynamo.Dict
use godynamo.Fault.{ok}
use godynamo.Text.{is_space, split, cut, trim_space, join}
use godynamo.Reflect.{
  Struct, StructType, model_of, find_slot, find_field, find_promoted, model_field, field_by_name,
  type_field_by_name,
}
use godynamo.Reflect.Embedding.{IsEntityType, IsEntity}
use godynamo.Tags.{
  ModelTags, split_fields, parse_clause, parse_model_clauses, parse_compress_fields,
  parse_tags_fresh, resolve_attr_name,
}
use godynamo.Tags.Parsing.{IsFieldName, parse_model_clauses-tag}
use godynamo.Tags.Cache.{parse_tags, IsValid, parse_tags-parse_tags_fresh}
use godynamo.Keys.{struct, pointer, pk, sk, pk_fields_of, sk_fields_of, key_parts, build_key}
use godynamo.ZeroKeys.{zero_keys}
use godynamo.ZeroKeys.Laws.{IsDefault, zero_keys-pk-sk}
use godynamo.Tests.Fixtures.{task, order, task_value, order_value, model_7, runtime}

abbrev pub order_tags : ModelTags
order_tags = record {
  struct_name = "Order";
  pk_fields = "CustomerID" ∷ "Region" ∷ [];
  sk_fields = "Status" ∷ "CreatedDate" ∷ [];
  compress_fields = [];
}

abbrev pub task_tags : ModelTags
task_tags = record {
  struct_name = "Task";
  pk_fields = [];
  sk_fields = [];
  compress_fields = "Notes" ∷ [];
}

pub parse_order : parse_tags_fresh order ≡ ok order_tags
unfolding parse_tags_fresh parse_model_clauses parse_clause split_fields parse_compress_fields
    type_field_by_name find_field split cut trim_space Dict.lookup
parse_order = refl

pub parse_task : parse_tags_fresh task ≡ ok task_tags
unfolding parse_tags_fresh parse_model_clauses parse_clause split_fields parse_compress_fields
    type_field_by_name find_field split cut trim_space Dict.lookup
parse_task = refl

abbrev an_order : Struct
an_order = order_value "c1" "eu" "open" "0728"

order_keys :
    (pk runtime (struct an_order) ≡ ok "Order#c1#eu")
    × (sk runtime (pointer (struct an_order)) ≡ ok "Order#open#0728#7")
unfolding parse_tags_fresh parse_model_clauses parse_clause split_fields parse_compress_fields
    type_field_by_name find_field split cut trim_space Dict.lookup pk sk pk_fields_of sk_fields_of
    build_key key_parts join field_by_name find_slot find_promoted model_field
order_keys = (refl, refl)

status_attr : resolve_attr_name order "Status" ≡ "st"
unfolding resolve_attr_name type_field_by_name find_field cut Dict.lookup
status_attr = refl

region-IsFieldName : IsFieldName "Region"
unfolding is_space
region-IsFieldName = record {
  not_blank = λ e. ground (arith, eq_iff "Region" "");
  no_space = (refl, (refl, (refl, (refl, (refl, (refl, tt))))));
  no_comma = omega arith;
  no_semicolon = omega arith;
}

parse_model_clauses-tag_example :
    (parse_model_clauses task_tags (some "pk:Region;sk:Region,Region")
      ≡ record task_tags { pk_fields = "Region" ∷ []; sk_fields = "Region" ∷ "Region" ∷ [] })
    × (parse_model_clauses task_tags (some "sk:Region,Region;pk:Region")
        ≡ record task_tags { pk_fields = "Region" ∷ []; sk_fields = "Region" ∷ "Region" ∷ [] })
unfolding join
parse_model_clauses-tag_example =
    parse_model_clauses-tag task_tags ("Region" ∷ []) ("Region" ∷ "Region" ∷ []) (cc) (cc)
      (region-IsFieldName, tt) (region-IsFieldName, (region-IsFieldName, tt))

abbrev types : ℕ → StructType
types n = if n == 0 then task else order

parse_tags-parse_tags_fresh_example :
    ((parse_tags types 1 ((0, task_tags) ∷ []) ((1, order_tags) ∷ [])).0 ≡ parse_tags_fresh order)
    × IsValid types (parse_tags types 1 ((0, task_tags) ∷ []) ((1, order_tags) ∷ [])).1
parse_tags-parse_tags_fresh_example =
    parse_tags-parse_tags_fresh types 1 ((0, task_tags) ∷ []) ((1, order_tags) ∷ [])
      (parse_task, tt) (parse_order, tt)

-- Another order of the same customer and region.
abbrev another_order : Struct
another_order = order_value "c1" "eu" "closed" "0801"

pub task-IsEntityType : IsEntityType task
task-IsEntityType = record {
  embeds = inl (
    record { named = refl; anonymous = refl; typed = refl },
    (
      record { named = λ e. cc ((eq_iff "Title" "Model").1 e); not_embedded = refl },
      (record { named = λ e. cc ((eq_iff "Notes" "Model").1 e); not_embedded = refl }, tt),
    ),
  );
  no_own_id = (
    λ e. cc ((eq_iff "Model" "ID").1 e),
    (λ e. cc ((eq_iff "Title" "ID").1 e), (λ e. cc ((eq_iff "Notes" "ID").1 e), tt)),
  );
}

abbrev pub a_task : Struct
a_task = task_value model_7 "write" "note"

pub a_task-IsEntity : IsEntity a_task
a_task-IsEntity = record { typed = (refl, (refl, (refl, tt))); entity = task-IsEntityType }

a_task_model : model_of a_task ≡ some model_7
unfolding model_of find_slot
a_task_model = refl

pub task_tags-IsDefault : IsDefault task_tags
task_tags-IsDefault = record { no_pk = refl; no_sk = refl }

zero_keys-pk-sk_example :
    (k : String) × (zero_keys runtime task 7 ≡ ok (k, k))
    × (pk runtime (struct a_task) ≡ ok k)
    × (sk runtime (struct a_task) ≡ ok k)
zero_keys-pk-sk_example =
    zero_keys-pk-sk runtime task task_tags task-IsEntityType parse_task task_tags-IsDefault a_task
      model_7 a_task-IsEntity refl a_task_model
