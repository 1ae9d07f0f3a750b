-- ===== src/Table/Accepted.antt =====
-- `Put` of crud.go on a table of rows: what a Put that succeeds found in the table, and what it
-- stored there.
use godynamo.Prelude.{
  ℕ, String, str_eq, ◌≡◌, refl, sym, ap, ◌∙◌, true, false, ◌&&◌, Option, none, some, All, ◌==◌,
  Bool-cases, inl, inr, if◌then◌else◌, arith,
}
use godynamo.Dict.{lookup}
use godynamo.Fault.{ok, >>=-eq-ok, map_err-eq-ok, wrap_err-eq-ok}
use godynamo.ZeroKeys.{model_field_of}
use godynamo.Io.{at, State, continue-eq-ok}
use godynamo.Reflect.{Model, Struct, StructType, model_of, type_of, int, set_model}
use godynamo.Reflect.Laws.{type_of-set_model}
use godynamo.Sdk.{s, Item}
use godynamo.Tags.{ModelTags, parse_tags_fresh, resolve_attr_name}
use godynamo.Compress.{marshal_item}
use godynamo.Compress.Laws.{compress_loop-lookup}
use godynamo.Env.{Env, Expression}
use godynamo.Db.{Db}
use godynamo.Crud.{stamp_and_marshal, put, put_input}
use godynamo.Crud.Stamping.{stamp_and_marshal-item, stamp_and_marshal-state, store_at_self}
use godynamo.Crud.Written.{IsWritten, stamp_and_marshal-IsWritten}
use godynamo.Crud.Putting.{put-sent, put-heap}
use godynamo.Table.{PromotesVersion, Table, is_none, is_number, version_in, HasOwnIndex}

-- The items of a type store the version of their `Model` as `Version`: no other field does, compressed
-- or not.
pub record KeepsVersion (t : StructType) : Type 0 where
  pub tags : ModelTags
  pub parsed : parse_tags_fresh t ≡ ok tags
  pub other :
      All
        (λ (name : String). str_eq (resolve_attr_name t name) "Version" ≡ false)
        tags.compress_fields
  pub promoted : PromotesVersion t

module _ (E : Env) (db : Db E) (ctx : E.Context) (t : StructType) (p : ℕ) (m : Model)
    (st : State E.World) (found : model_of (st.heap p) ≡ some m) where
  -- A Put succeeds only if all its steps do.
  pub put-eq-ok :
      (put E db ctx t (at p) st).0 ≡ ok tt
      → (av : Item) × (cond : E.Condition) × (expr : Expression) × ((stamp_and_marshal E db ctx
            (at p)
            st).0
          ≡ ok (av, cond))
        × (E.expression.build none none (some cond) none ≡ ok expr)
        × ((db.client.put_item ctx
              (put_input E db av expr)
              (stamp_and_marshal E db ctx (at p) st).1.world).0
            ≡ ok tt)
        × ((put E db ctx t (at p) st).1.world
            ≡ (db.client.put_item ctx
                (put_input E db av expr)
                (stamp_and_marshal E db ctx (at p) st).1.world).1)
  unfolding put model_field_of
  put-eq-ok h =
      let (n, has, _, _) = stamp_and_marshal-item E db ctx p m st found in
      let ((av, cond), stamped, h₁) =
        continue-eq-ok (stamp_and_marshal E db ctx (at p) st).0 _ _ h in
      let (expr, wrapped_ok, h₂) = continue-eq-ok _ _ _ (rw has at h₁) in
      let built = wrap_err-eq-ok _ _ wrapped_ok in
      let (_, sent) = put-sent E db ctx t p m st found av cond expr stamped built in
      (av, cond, expr, stamped, built, map_err-eq-ok _ _ h₂, ap (λ o. o.1.world) sent)

module _ (E : Env) (db : Db E) (own : HasOwnIndex E db) (ctx : E.Context) where
  module _ (m : Model) (v : Struct) (av : Item) (cond : E.Condition)
      (written : IsWritten E db ctx m v av cond) where
    -- The index attribute is no other attribute's name, so the keys are where they belong.
    pub written_keys :
        (lookup "PK" av ≡ some (s written.key))
        × (lookup "SK" av ≡ some (s written.sort))
        × (lookup "Version" av ≡ lookup "Version" written.base)
    written_keys = elim (Bool-cases (m.created_at == 0)) [
      | inl new ↦ (
        rw (written.attributes "PK", new, own.not_pk),
        rw (written.attributes "SK", new, own.not_sk),
        rw (written.attributes "Version", new, own.not_version),
      )
      | inr old ↦ (
        rw (written.attributes "PK", old),
        rw (written.attributes "SK", old),
        rw (written.attributes "Version", old),
      )
    ]

module _ (E : Env) (db : Db E) (T : Table E db) where
  -- The condition of a write is that the row is as the item expects it: absent for an item that is
  -- new, and at the item's version for another.
  abbrev pub AsExpected : Model → Option Item → Type 0
  AsExpected m row =
      if m.created_at == 0 then row ≡ none else version_in T.number_of row ≡ some m.version

  is_none-eq-true : (row : Option Item) → is_none row ≡ true → row ≡ none
  is_none-eq-true none h = refl
  is_none-eq-true (some av) h = cc

  pub is_number-eq-true : (n : ℕ) (k : Option ℕ) → is_number n k ≡ true → k ≡ some n
  is_number-eq-true n none h = cc
  is_number-eq-true n (some k) h = ground arith

  pub holds-AsExpected :
      (m : Model) (cond : E.Condition) (row : Option Item)
      → cond ≡ (
          if m.created_at == 0
          then E.expression.attribute_not_exists "PK"
          else E.expression.equal "Version" (int m.version))
      → T.holds cond row ≡ true
      → AsExpected m row
  holds-AsExpected m cond row e h = elim (Bool-cases (m.created_at == 0)) [
    | inl new ↦ rw new (is_none-eq-true row (rw (e, new, T.not_exists_holds) at h))
    | inr old ↦
        rw old (
          is_number-eq-true m.version (version_in T.number_of row)
            (rw (e, old, T.equal_holds) at h))
  ]

  pub marshal_item-version :
      (v : Struct) (n : Model) (base : Item)
      → KeepsVersion (type_of v)
      → model_of v ≡ some n
      → marshal_item E.runtime v ≡ ok base
      → version_in T.number_of (some base) ≡ some n.version
  unfolding marshal_item
  marshal_item-version v n base keeps has h =
      let (base0, e0, h1) = >>=-eq-ok (E.runtime.marshal_map v) _ h in
      let (mt, e1, h2) = >>=-eq-ok (parse_tags_fresh (type_of v)) _ h1 in
      let same : mt ≡ keeps.tags = cc (e1, keeps.parsed) in
      let looked =
        compress_loop-lookup E.runtime v "Version" mt.compress_fields base0 base
          (rw same keeps.other) h2 in
      rw looked (T.marshal_version v n base0 keeps.promoted has e0)

  -- The stamping reads the clock and draws IDs, which leaves the table as it is.
  pub stamping_rows :
      (ctx : E.Context) (p : ℕ) (m : Model) (st : State E.World)
      → model_of (st.heap p) ≡ some m
      → T.rows (stamp_and_marshal E db ctx (at p) st).1.world ≡ T.rows st.world
  stamping_rows ctx p m st found =
      rw (stamp_and_marshal-state E db ctx p m st found) (elim (Bool-cases (m.created_at == 0)) [
        | inl new ↦ elim (Bool-cases (m.id == 0)) [
          | inl no_id ↦ rw (new, no_id) (T.uuid_rows _ ∙ T.clock_rows st.world)
          | inr has_id ↦ rw (new, has_id) (T.clock_rows st.world)
        ]
        | inr old ↦ rw old (T.clock_rows st.world)
      ])

  -- A write of an item with the `Model` m, whose struct is v with the `Model` n once it is stamped,
  -- between two contents of the table: the row of the item was as m expects it, and what was
  -- written stands there afterwards, at the version of n; the other rows are as they were.
  pub record IsAccepted (ctx : E.Context) (m n : Model) (v : Struct)
      (before after : String → String → Option Item) : Type 0 where
    pub av : Item
    pub cond : E.Condition
    pub written : IsWritten E db ctx m v av cond
    pub as_expected : AsExpected m (before written.key written.sort)
    pub version : version_in T.number_of (some av) ≡ some n.version
    pub rows :
        (x y : String)
        → after x y
          ≡ (if str_eq written.key x && str_eq written.sort y then some av else before x y)

  module _ (own : HasOwnIndex E db) (ctx : E.Context) (t : StructType) (p : ℕ) (m : Model)
      (st : State E.World) (found : model_of (st.heap p) ≡ some m)
      (keeps : KeepsVersion (type_of (st.heap p))) where
    -- A Put that succeeds was accepted: in a table whose index attribute is none of PK, SK and
    -- Version, let a Put have succeeded of an item whose type stores the version of its `Model` as
    -- Version, and no other field, compressed or not. The row under its keys was absent for a new
    -- item and at the version of the item for another, the written item stands there afterwards at
    -- the version of the stamped item, and the other rows are as they were.
    pub put-IsAccepted :
        (put E db ctx t (at p) st).0 ≡ ok tt
        → (n : Model) × (model_of ((put E db ctx t (at p) st).1.heap p) ≡ some n)
          × IsAccepted ctx m n
              ((put E db ctx t (at p) st).1.heap p)
              (T.rows st.world)
              (T.rows (put E db ctx t (at p) st).1.world)
    put-IsAccepted h =
        let (av, cond, expr, e, built, sent, w) = put-eq-ok E db ctx t p m st found h in
        let (n, has, heap, _) = stamp_and_marshal-item E db ctx p m st found in
        let written = stamp_and_marshal-IsWritten E db ctx p m st av cond found e in
        let (k, q, ver) = written_keys E db own ctx m _ av cond written in
        let st' = (stamp_and_marshal E db ctx (at p) st).1 in
        let v_is : st'.heap p ≡ set_model n (st.heap p) =
          ap (λ (f : ℕ → Struct). f p) heap ∙ store_at_self p _ st.heap in
        let keeps' : KeepsVersion (type_of (st'.heap p)) =
          rw (v_is, type_of-set_model n (st.heap p)) keeps in
        let version =
          marshal_item-version (st'.heap p) n written.base keeps' has written.marshaled in
        let same = stamping_rows ctx p m st found in
        rw (put-heap E db ctx t p st, w)
          (
            n,
            has,
            record {
              av = av;
              cond = cond;
              written = written;
              as_expected = rw (sym same) (
                  holds-AsExpected m cond _ written.condition (
                    T.put_holds ctx st'.world av cond expr written.key written.sort built k q
                      sent));
              version = rw ver version;
              rows = λ x y. rw (sym same) (
                  T.put_stores ctx st'.world av cond expr written.key written.sort x y built k q
                    sent);
            },
          )
