-- ===== src/Table/Located.antt =====
-- Where `Put` of crud.go stores an entity whose type has the default keys, and what its stamping
-- keeps.
use godynamo.Prelude.{eq_refl, ℕ, String, str_eq, ◌&&◌, if◌then◌else◌, ◌≡◌, ◌≢◌, sym, Option, some}
use godynamo.Fault.{ok}
use godynamo.Io.{at, State}
use godynamo.Reflect.{Model, StructType, model_of, type_of}
use godynamo.Sdk.{Item}
use godynamo.Tags.{ModelTags, parse_tags_fresh}
use godynamo.Keys.{struct}
use godynamo.ZeroKeys.Laws.{id_key, pk_default, sk_default, pk_of_pointer, sk_of_pointer}
use godynamo.Env.{Env}
use godynamo.Db.{Db}
use godynamo.Crud.{put, stamp_and_marshal}
use godynamo.Crud.Stamping.{stamp_and_marshal-item}
use godynamo.Crud.Written.{IsWritten}
use godynamo.Crud.Putting.{put-heap}
use godynamo.Table.{Table, HasOwnIndex}
use godynamo.Table.Stamped.{
  HasDefaultKey, HasDefaultType, IsKeyed, stamp-HasDefaultType, store_at_other, stamp-HasDefaultKey,
  stamp-IsKeyed,
}
use godynamo.Table.Accepted.{
  AsExpected, IsAccepted, KeepsVersion, put-IsAccepted, put-eq-ok, stamping_rows,
}

module _ (E : Env) (db : Db E) (ctx : E.Context) (t : StructType) (p : ℕ) (st : State E.World) where
  -- A Put leaves the other structs alone.
  pub put-others :
      (m : Model) (q : ℕ)
      → model_of (st.heap p) ≡ some m
      → p ≢ q
      → (put E db ctx t (at p) st).1.heap q ≡ st.heap q
  put-others m q found other =
      let (n, _, heap, _) = stamp_and_marshal-item E db ctx p m st found in
      rw (put-heap E db ctx t p st, heap) (store_at_other p q _ st.heap other)

  -- The item of a Put stays an entity of its type.
  pub put-HasDefaultType :
      (mt : ModelTags) (m n : Model)
      → HasDefaultType t mt m (st.heap p)
      → model_of ((put E db ctx t (at p) st).1.heap p) ≡ some n
      → HasDefaultType t mt n ((put E db ctx t (at p) st).1.heap p)
  put-HasDefaultType mt m n h has =
      rw (put-heap E db ctx t p st)
        (stamp-HasDefaultType E db ctx t mt p m st n h (rw (put-heap E db ctx t p st) at has))

  -- The item of a Put stays an entity under the same keys.
  pub put-HasDefaultKey :
      (mt : ModelTags) (m : Model)
      → HasDefaultKey t mt m (st.heap p)
      → (n : Model) × (n.id ≡ m.id) × HasDefaultKey t mt n ((put E db ctx t (at p) st).1.heap p)
  put-HasDefaultKey mt m h =
      rw (put-heap E db ctx t p st) (stamp-HasDefaultKey E db ctx t mt p m st h)

module _ (E : Env) (db : Db E) (T : Table E db) where
  -- A write under one key, as partition key and as sort key, between two contents of the table.
  pub record IsStored (key : String) (m : Model) (before after : String → String → Option Item)
      : Type 0 where
    pub av : Item
    pub cond : E.Condition
    pub keyed : IsKeyed E db T key m av cond
    pub as_expected : AsExpected E db T m (before key key)
    pub rows :
        (x y : String) → after x y ≡ (if str_eq key x && str_eq key y then some av else before x y)

  module _ (own : HasOwnIndex E db) (ctx : E.Context) (t : StructType) (mt : ModelTags)
      (keeps : KeepsVersion t) (p : ℕ) (m : Model) (st : State E.World) where
    -- What is accepted stands under the key of the ID that the struct has afterwards.
    accepted-id_key :
        (n n' : Model) (before after : String → String → Option Item)
        → HasDefaultType t mt n ((put E db ctx t (at p) st).1.heap p)
        → (a : IsAccepted E db T ctx m n' ((put E db ctx t (at p) st).1.heap p) before after)
        → (a.written.key ≡ id_key E.runtime mt.struct_name n.id)
          × (a.written.sort ≡ id_key E.runtime mt.struct_name n.id)
    accepted-id_key n n' before after h a =
        let v = (put E db ctx t (at p) st).1.heap p in
        let tags : parse_tags_fresh (type_of v) ≡ ok mt = rw h.typed h.parsed in
        let k = pk_default E.runtime v n mt h.entity h.found tags h.default in
        let q = sk_default E.runtime v n mt h.entity h.found tags h.default in
        (
          cc (a.written.pk_is, pk_of_pointer E.runtime (struct v), k),
          cc (a.written.sk_is, sk_of_pointer E.runtime (struct v), q),
        )

    -- After a Put of an entity with the default keys, new or not, the row under the key of its ID is the
    -- written form of the struct as it is left.
    pub row_as_put :
        (n : Model)
        → HasDefaultType t mt m (st.heap p)
        → model_of ((put E db ctx t (at p) st).1.heap p) ≡ some n
        → (put E db ctx t (at p) st).0 ≡ ok tt
        → (av : Item) × (cond : E.Condition) × IsWritten E db ctx m
            ((put E db ctx t (at p) st).1.heap p)
            av
            cond
          × (T.rows
                (put E db ctx t (at p) st).1.world
                (id_key E.runtime mt.struct_name n.id)
                (id_key E.runtime mt.struct_name n.id)
              ≡ some av)
    row_as_put n h has success =
        let row_key = id_key E.runtime mt.struct_name n.id in
        let (n', _, a) =
          put-IsAccepted E db T own ctx t p m st h.found (rw h.typed keeps) success in
        let still = put-HasDefaultType E db ctx t p st mt m n h has in
        let (k, q) = accepted-id_key n n' _ _ still a in
        (a.av, a.cond, a.written, rw (k, q, eq_refl row_key) at (a.rows row_key row_key))

  module _ (own : HasOwnIndex E db) (ctx : E.Context) (t : StructType) (mt : ModelTags)
      (keeps : KeepsVersion t) (p : ℕ) (m : Model) (st : State E.World)
      (h : HasDefaultKey t mt m (st.heap p)) where
    abbrev row_key : String
    row_key = id_key E.runtime mt.struct_name m.id

    -- A Put that succeeds on an entity of a type with the default keys stores what it writes under
    -- the key of the entity's ID.
    pub put-IsStored :
        (put E db ctx t (at p) st).0 ≡ ok tt
        → IsStored
            (id_key E.runtime mt.struct_name m.id)
            m
            (T.rows st.world)
            (T.rows (put E db ctx t (at p) st).1.world)
    put-IsStored success =
        let (av, cond, expr, e, built, sent, w) = put-eq-ok E db ctx t p m st h.found success in
        let k = stamp-IsKeyed E db T own ctx t mt keeps p m st h av cond e in
        let w' = (stamp_and_marshal E db ctx (at p) st).1.world in
        let same = stamping_rows E db T ctx p m st h.found in
        let found = T.put_holds ctx w' av cond expr row_key row_key built k.pk_is k.sk_is sent in
        rw w (record {
          av = av;
          cond = cond;
          keyed = k;
          as_expected = rw (sym same) (k.expects _ found);
          rows = λ x y.
              rw (sym same)
                (T.put_stores ctx w' av cond expr row_key row_key x y built k.pk_is k.sk_is sent);
        })
