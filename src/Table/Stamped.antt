-- ===== src/Table/Stamped.antt =====
-- What `stampAndMarshal` of crud.go makes of an entity whose type has the default keys, for any write
-- that carries its condition.
use godynamo.Prelude.{
  ℕ, ◌+◌, ◌%◌, String, ◌≡◌, ◌≢◌, sym, ◌∙◌, Option, some, true, false, arith, ◌==◌, inl, inr,
}
use godynamo.Dict.{lookup}
use godynamo.Fault.{ok}
use godynamo.Io.{at, State, store_at}
use godynamo.Reflect.{Model, Struct, StructType, model_of, type_of, set_model, int_mod}
use godynamo.Reflect.Laws.{type_of-set_model}
use godynamo.Reflect.Embedding.{IsEntity, set_model-IsEntity}
use godynamo.Sdk.{s, Item}
use godynamo.Tags.{ModelTags, parse_tags_fresh}
use godynamo.Keys.{struct}
use godynamo.ZeroKeys.Laws.{IsDefault, id_key, pk_default, sk_default, pk_of_pointer, sk_of_pointer}
use godynamo.Env.{Env}
use godynamo.Db.{Db}
use godynamo.Crud.{stamp_and_marshal}
use godynamo.Crud.Stamping.{stamp_and_marshal-item, store_at_self}
use godynamo.Crud.Written.{stamp_and_marshal-IsWritten}
use godynamo.Table.{Table, version_in, HasOwnIndex}
use godynamo.Table.Accepted.{
  AsExpected, KeepsVersion, written_keys, holds-AsExpected, marshal_item-version,
}

-- An entity of a type that has the default keys.
pub record HasDefaultType (t : StructType) (mt : ModelTags) (m : Model) (v : Struct) : Type 0 where
  pub entity : IsEntity v
  pub typed : type_of v ≡ t
  pub parsed : parse_tags_fresh t ≡ ok mt
  pub default : IsDefault mt
  pub found : model_of v ≡ some m

-- Such an entity that has its ID already: it is not new, or an ID was given to it.
pub record HasDefaultKey (t : StructType) (mt : ModelTags) (m : Model) (v : Struct) : Type 0 where
  pub entity : IsEntity v
  pub typed : type_of v ≡ t
  pub parsed : parse_tags_fresh t ≡ ok mt
  pub default : IsDefault mt
  pub found : model_of v ≡ some m
  pub has_id : m.created_at ≡ 0 → m.id ≢ 0

pub HasDefaultKey-HasDefaultType :
    {t : StructType} {mt : ModelTags} {m : Model} {v : Struct}
    → HasDefaultKey t mt m v
    → HasDefaultType t mt m v
HasDefaultKey-HasDefaultType h = record {
  entity = h.entity;
  typed = h.typed;
  parsed = h.parsed;
  default = h.default;
  found = h.found;
}

pub HasDefaultType-HasDefaultKey :
    {t : StructType} {mt : ModelTags} {m : Model} {v : Struct}
    → HasDefaultType t mt m v
    → (m.created_at ≡ 0 → m.id ≢ 0)
    → HasDefaultKey t mt m v
HasDefaultType-HasDefaultKey h given = record {
  entity = h.entity;
  typed = h.typed;
  parsed = h.parsed;
  default = h.default;
  found = h.found;
  has_id = given;
}

pub store_at_other :
    (p q : ℕ) (v : Struct) (heap : ℕ → Struct) → p ≢ q → store_at p v heap q ≡ heap q
unfolding store_at
store_at_other p q v heap other = ground arith

module _ (E : Env) (db : Db E) (ctx : E.Context) (t : StructType) (mt : ModelTags) (p : ℕ)
    (m : Model) (st : State E.World) where
  -- The item stays an entity of its type.
  pub stamp-HasDefaultType :
      (n : Model)
      → HasDefaultType t mt m (st.heap p)
      → model_of ((stamp_and_marshal E db ctx (at p) st).1.heap p) ≡ some n
      → HasDefaultType t mt n ((stamp_and_marshal E db ctx (at p) st).1.heap p)
  stamp-HasDefaultType n h has =
      let (n', _, heap, _) = stamp_and_marshal-item E db ctx p m st h.found in
      let v_is : (stamp_and_marshal E db ctx (at p) st).1.heap p ≡ set_model n' (st.heap p) =
        rw heap (store_at_self p _ st.heap) in
      record {
        entity = rw v_is (set_model-IsEntity n' (st.heap p) h.entity);
        typed = rw (v_is, type_of-set_model n' (st.heap p)) h.typed;
        parsed = h.parsed;
        default = h.default;
        found = has;
      }

  -- An item that has its ID stays an entity under the same keys.
  pub stamp-HasDefaultKey :
      HasDefaultKey t mt m (st.heap p)
      → (n : Model) × (n.id ≡ m.id)
        × HasDefaultKey t mt n ((stamp_and_marshal E db ctx (at p) st).1.heap p)
  stamp-HasDefaultKey h =
      let (n, has, _, either) = stamp_and_marshal-item E db ctx p m st h.found in
      let still = stamp-HasDefaultType n (HasDefaultKey-HasDefaultType h) has in
      elim either [
        | inl (new, created) ↦
            let given : (m.id == 0) ≡ false = ground (arith, h.has_id new) in
            let same_id : n.id ≡ m.id = rw given at created.id_given in
            (n, same_id, HasDefaultType-HasDefaultKey still (λ _ z. h.has_id new (sym same_id ∙ z)))
        | inr (old, rewritten) ↦ (
          n,
          rewritten.id_kept,
          HasDefaultType-HasDefaultKey still
              (λ new. absurd (old (sym rewritten.created_at_kept ∙ new))),
        )
      ]

-- A stamped item and its condition: it has one key as partition key and as sort key, its version is
-- that of its stamped `Model`, 1 for a new item and one more than it was for another, and where the
-- condition holds, the row is as the item expects it.
pub record IsKeyed (E : Env) (db : Db E) (T : Table E db) (key : String) (m : Model) (av : Item)
    (cond : E.Condition) : Type 0 where
  pub pk_is : lookup "PK" av ≡ some (s key)
  pub sk_is : lookup "SK" av ≡ some (s key)
  pub stamped : ℕ
  pub version : version_in T.number_of (some av) ≡ some stamped
  pub first : m.created_at ≡ 0 → stamped ≡ 1
  pub next : m.created_at ≢ 0 → stamped ≡ (m.version + 1) % int_mod
  pub expects : (row : Option Item) → T.holds cond row ≡ true → AsExpected E db T m row

module _ (E : Env) (db : Db E) (T : Table E db) (own : HasOwnIndex E db) (ctx : E.Context)
    (t : StructType) (mt : ModelTags) (keeps : KeepsVersion t) (p : ℕ) (m : Model)
    (st : State E.World) (h : HasDefaultKey t mt m (st.heap p)) where
  pub stamp-IsKeyed :
      (av : Item) (cond : E.Condition)
      → (stamp_and_marshal E db ctx (at p) st).0 ≡ ok (av, cond)
      → IsKeyed E db T (id_key E.runtime mt.struct_name m.id) m av cond
  stamp-IsKeyed av cond e =
      let (n, same_id, h') = stamp-HasDefaultKey E db ctx t mt p m st h in
      let (n', has, _, either) = stamp_and_marshal-item E db ctx p m st h.found in
      let written = stamp_and_marshal-IsWritten E db ctx p m st av cond h.found e in
      let (k, q, ver) = written_keys E db own ctx m _ av cond written in
      let v = (stamp_and_marshal E db ctx (at p) st).1.heap p in
      let tags : parse_tags_fresh (type_of v) ≡ ok mt = rw h'.typed h'.parsed in
      let pk' = pk_default E.runtime v n mt h'.entity h'.found tags h'.default in
      let sk' = sk_default E.runtime v n mt h'.entity h'.found tags h'.default in
      let at_pk : written.key ≡ id_key E.runtime mt.struct_name m.id =
        cc (written.pk_is, pk_of_pointer E.runtime (struct v), rw same_id at pk') in
      let at_sk : written.sort ≡ id_key E.runtime mt.struct_name m.id =
        cc (written.sk_is, sk_of_pointer E.runtime (struct v), rw same_id at sk') in
      let version =
        marshal_item-version E db T v n' written.base (rw h'.typed keeps) has written.marshaled in
      let (first, next) : (m.created_at ≡ 0 → n'.version ≡ 1)
          × (m.created_at ≢ 0 → n'.version ≡ (m.version + 1) % int_mod) =
        elim either [
          | inl (new, made) ↦ (λ _. made.version, λ old. absurd (old new))
          | inr (old, rewritten) ↦ (λ new. absurd (old new), λ _. rewritten.version)
        ] in
      record {
        pk_is = rw at_pk at k;
        sk_is = rw at_sk at q;
        stamped = n'.version;
        version = rw ver version;
        first = first;
        next = next;
        expects = λ row. holds-AsExpected E db T m cond row written.condition;
      }
