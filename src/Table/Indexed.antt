-- ===== src/Table/Indexed.antt =====
-- The index attribute of a row that `Put` of crud.go has written, and the type-index queries of
-- query.go, which ask for it.
use godynamo.Prelude.{
  ℕ, String, str_eq, eq_refl, eq_iff, ap, ◌≡◌, ◌∙◌, Bool, false, Option, none, some, ◌==◌,
  Bool-cases, inl, inr,
}
use godynamo.Dict.{lookup}
use godynamo.Fault.{ok}
use godynamo.Io.{at, State}
use godynamo.Reflect.{Model, Struct, StructType, string, type_of, model_of}
use godynamo.Sdk.{AttributeValue, s, Item}
use godynamo.Tags.{ModelTags}
use godynamo.ZeroKeys.Laws.{id_key}
use godynamo.Compress.{marshal_item}
use godynamo.Env.{Env}
use godynamo.Crud.{put}
use godynamo.Crud.Written.{IsWritten}
use godynamo.Query.{QueryBuilder, key_target, with_sk, sk_none}
use godynamo.Table.{Table, HasOwnIndex}
use godynamo.Table.Accepted.{KeepsVersion}
use godynamo.Table.Stamped.{HasDefaultType}
use godynamo.Table.Located.{row_as_put, put-HasDefaultType}

str_eq_swap : (a b : String) → str_eq a b ≡ false → str_eq b a ≡ false
str_eq_swap a b h = elim (Bool-cases (str_eq b a)) [
  | inl same ↦ absurd (cc (h, eq_refl a, (eq_iff b a).0 same))
  | inr other ↦ other
]

-- Whether an attribute is a given text.
abbrev pub is_text : String → Option AttributeValue → Bool
is_text x (some (s y)) = str_eq y x
is_text x _ = false

-- Whether the key conditions of a query hold of rows: an equality holds if the attribute is there and
-- is the text.
pub record KeyMeaning (E : Env) : Type 0 where
  pub selects : E.KeyCondition → Item → Bool
  pub equal_selects :
      (a x : String) (av : Item)
      → selects (E.expression.key_equal a (string x)) av ≡ is_text x (lookup a av)

module _ (E : Env) (K : KeyMeaning E) where
  -- The key condition of a query selects a row.
  abbrev pub is_queried : StructType → QueryBuilder E → Option Item → Bool
  is_queried t b none = false
  is_queried t b (some av) = K.selects (with_sk E b.sk (key_target E t b b.pk).0) av

  -- A query by the type, with no condition on the sort key, selects the rows that have the type's name
  -- under the index attribute.
  type_query :
      (t : StructType) (b : QueryBuilder E) (av : Item)
      → b.pk ≡ none
      → b.sk.kind ≡ sk_none
      → is_queried t b (some av) ≡ is_text t.name (lookup b.db.gsi1_pk_attr av)
  unfolding key_target with_sk
  type_query t b av type_index no_sk =
      rw (no_sk, type_index) (K.equal_selects b.db.gsi1_pk_attr t.name av)

  module _ (b : QueryBuilder E) (T : Table E b.db) (own : HasOwnIndex E b.db) (ctx : E.Context)
      (t : StructType) (mt : ModelTags) (keeps : KeepsVersion t) (p : ℕ) (m : Model) (n : Model)
      (st : State E.World) where
    written_index :
        (v : Struct) (av : Item) (cond : E.Condition)
        → (w : IsWritten E b.db ctx m v av cond) → type_of v ≡ t
        → lookup b.db.gsi1_pk_attr w.base ≡ none
        → is_text t.name (lookup b.db.gsi1_pk_attr av) ≡ (m.created_at == 0)
    written_index v av cond w typed own_attr = elim (Bool-cases (m.created_at == 0)) [
      | inl new ↦
          let name : v.type_name ≡ t.name = ap (λ (u : StructType). u.name) typed in
          rw (w.attributes b.db.gsi1_pk_attr, new, eq_refl b.db.gsi1_pk_attr, name, eq_refl t.name)
      | inr old ↦
          let sk : str_eq "SK" b.db.gsi1_pk_attr ≡ false =
            str_eq_swap b.db.gsi1_pk_attr "SK" own.not_sk in
          let pk : str_eq "PK" b.db.gsi1_pk_attr ≡ false =
            str_eq_swap b.db.gsi1_pk_attr "PK" own.not_pk in
          rw (w.attributes b.db.gsi1_pk_attr, old, sk, pk, own_attr)
    ]

    -- A Put leaves its row in the type index exactly if it has created it: in a table whose index
    -- attribute is none of PK, SK and Version, let a Put have succeeded of an entity, with an ID or
    -- without, of a type with the default keys that stores the version of its `Model`, none of
    -- whose fields is stored under the index attribute. A query by the type, with no condition on
    -- the sort key, selects the row under the key of the ID that the struct then has, if the item
    -- was new, and does not select it if it had been created before.
    pub put-is_queried :
        HasDefaultType t mt m (st.heap p)
        → model_of ((put E b.db ctx t (at p) st).1.heap p) ≡ some n
        → ((base : Item)
            → marshal_item E.runtime ((put E b.db ctx t (at p) st).1.heap p) ≡ ok base
            → lookup b.db.gsi1_pk_attr base ≡ none)
        → b.pk ≡ none
        → b.sk.kind ≡ sk_none
        → (put E b.db ctx t (at p) st).0 ≡ ok tt
        → is_queried t b (
            T.rows
              (put E b.db ctx t (at p) st).1.world
              (id_key E.runtime mt.struct_name n.id)
              (id_key E.runtime mt.struct_name n.id))
          ≡ (m.created_at == 0)
    put-is_queried h has own_attr type_index no_sk success =
        let still = put-HasDefaultType E b.db ctx t p st mt m n h has in
        let (av, cond, w, row) = row_as_put E b.db T own ctx t mt keeps p m st n h has success in
        rw row (
          type_query t b av type_index no_sk
          ∙ written_index _ av cond w still.typed (own_attr w.base w.marshaled))
