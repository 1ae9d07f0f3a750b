-- ===== src/Crud/Written.antt =====
-- What `stampAndMarshal` of crud.go returns when it succeeds.
use godynamo.Prelude.{
  ℕ, String, str_eq, ◌≡◌, sym, ap, ◌∙◌, Bool, true, false, ◌&&◌, some, ◌==◌, if◌then◌else◌,
}
use godynamo.Dict.{lookup, insert, lookup-insert}
use godynamo.Fault.{ok, wrap_err-eq-ok}
use godynamo.Io.{at, State, continue-eq-ok}
use godynamo.Reflect.{Model, Struct, Uuid, int, model_of}
use godynamo.Sdk.{s, Item}
use godynamo.Keys.{struct, pointer, pk, sk}
use godynamo.Compress.{marshal_item}
use godynamo.Env.{Env}
use godynamo.Crud.Stamping.{
  stamped_state, write_condition, stamp_and_marshal-eq, stamp_and_marshal-state, store_at_self,
}
use godynamo.Db.{Db}
use godynamo.Crud.{stamp_and_marshal, marshal_stamped}

lookup_keyed :
    (new_item : Bool) (gsi name key sort : String) (base : Item) (a : String)
    → lookup a (
        if new_item
        then insert gsi (s name) (insert "SK" (s sort) (insert "PK" (s key) base))
        else insert "SK" (s sort) (insert "PK" (s key) base))
      ≡ (if new_item && str_eq gsi a
          then some (s name)
          else if str_eq "SK" a
          then some (s sort)
          else if str_eq "PK" a
          then some (s key)
          else lookup a base)
lookup_keyed true gsi name key sort base a = simp lookup-insert
lookup_keyed false gsi name key sort base a = simp lookup-insert

module _ (E : Env) (db : Db E) (ctx : E.Context) where
  -- What `stampAndMarshal` returns when it succeeds: the keys of the stamped item under `PK` and
  -- `SK`, the type's name under the index attribute if the item is new, all other attributes as
  -- the item marshals, and the condition of a creation or of a rewriting.
  pub record IsWritten (m : Model) (v : Struct) (av : Item) (cond : E.Condition) : Type 0 where
    pub base : Item
    pub key : String
    pub sort : String
    pub marshaled : marshal_item E.runtime v ≡ ok base
    pub pk_is : pk E.runtime (pointer (struct v)) ≡ ok key
    pub sk_is : sk E.runtime (pointer (struct v)) ≡ ok sort
    pub condition : cond ≡ (
        if m.created_at == 0
        then E.expression.attribute_not_exists "PK"
        else E.expression.equal "Version" (int m.version))
    pub attributes :
        (a : String)
        → lookup a av ≡ (
            if (m.created_at == 0) && str_eq db.gsi1_pk_attr a
            then some (s v.type_name)
            else if str_eq "SK" a
            then some (s sort)
            else if str_eq "PK" a
            then some (s key)
            else lookup a base)

  marshal_stamped-eq-ok :
      (p : ℕ) (name : String) (id : Uuid) (cond : E.Condition) (new_item : Bool)
      (st : State E.World) (av : Item) (c : E.Condition)
      → (marshal_stamped E db p name id cond new_item st).0 ≡ ok (av, c)
      → (base : Item) × (key : String) × (sort : String) × (marshal_item E.runtime (st.heap p)
          ≡ ok base)
        × (pk E.runtime (pointer (struct (st.heap p))) ≡ ok key)
        × (sk E.runtime (pointer (struct (st.heap p))) ≡ ok sort)
        × ((if new_item
              then insert db.gsi1_pk_attr (s name) (insert "SK" (s sort) (insert "PK" (s key) base))
              else insert "SK" (s sort) (insert "PK" (s key) base))
            ≡ av)
        × (cond ≡ c)
  unfolding marshal_stamped
  marshal_stamped-eq-ok p name id cond new_item st av c h =
      let (base, e1, h1) = continue-eq-ok _ _ st h in
      let (key, e2, h2) = continue-eq-ok _ _ st h1 in
      let (sort, e3, h3) = continue-eq-ok _ _ st h2 in
      (base, key, sort, wrap_err-eq-ok _ _ e1, e2, e3, cc h3, cc h3)

  -- A successful `stampAndMarshal` returns the written form of the stamped item.
  pub stamp_and_marshal-IsWritten :
      (p : ℕ) (m : Model) (st : State E.World) (av : Item) (cond : E.Condition)
      → model_of (st.heap p) ≡ some m
      → (stamp_and_marshal E db ctx (at p) st).0 ≡ ok (av, cond)
      → IsWritten m ((stamp_and_marshal E db ctx (at p) st).1.heap p) av cond
  stamp_and_marshal-IsWritten p m st av cond found h =
      let (base, key, sort, e1, e2, e3, e4, e5) =
        marshal_stamped-eq-ok p (st.heap p).type_name m.id (write_condition E db ctx p m st found)
          (m.created_at == 0) (stamped_state E db ctx p m st found) av cond
          (rw (stamp_and_marshal-eq E db ctx p m st found) at h) in
      rw (stamp_and_marshal-state E db ctx p m st found) (record {
        base = base;
        key = key;
        sort = sort;
        marshaled = e1;
        pk_is = e2;
        sk_is = e3;
        condition = sym e5;
        attributes = λ a. rw store_at_self (
            sym (ap (lookup a) e4)
            ∙ lookup_keyed (m.created_at == 0) db.gsi1_pk_attr (st.heap p).type_name key sort base
                a);
      })
