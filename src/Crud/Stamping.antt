-- ===== src/Crud/Stamping.antt =====
-- `stampAndMarshal` of crud.go: what it writes to the item, on success and on failure, and the
-- condition and the keys that it returns.
use godynamo.Prelude.{
  ℕ, ◌+◌, ◌%◌, String, ◌≡◌, ◌≢◌, ◌⊎◌, refl, ap, Bool, false, some, arith, ◌==◌, ==_iff, Bool-cases,
  inl, inr, if◌then◌else◌,
}
use godynamo.Io.{at, State, store_at}
use godynamo.Reflect.{Model, Struct, Uuid, Time, int, int_mod, model_of, set_model}
use godynamo.Reflect.Laws.{model_of-set_model}
use godynamo.ZeroKeys.{model_field_of}
use godynamo.Env.{Env}
use godynamo.Db.{Db}
use godynamo.Crud.{stamp_and_marshal, marshal_stamped, created, updated, fresh_id}

pub store_at_self : (p : ℕ) (v : Struct) (heap : ℕ → Struct) → store_at p v heap p ≡ v
unfolding store_at
store_at_self p v heap = rw (==_iff p p).1 refl

-- What a new item's `Model` holds once it is stamped.
pub record IsCreated (m n : Model) (fresh : Uuid) (name : String) (now : Time) (actor : String)
    : Type 0 where
  pub id_given : n.id ≡ (if m.id == 0 then fresh else m.id)
  pub type_name : n.type_name ≡ name
  pub created_at : n.created_at ≡ now
  pub created_by : n.created_by ≡ actor
  pub updated_at : n.updated_at ≡ now
  pub updated_by : n.updated_by ≡ actor
  pub version : n.version ≡ 1

-- What another item's `Model` holds: only the update's marks and the version have changed.
pub record IsRewritten (m n : Model) (now : Time) (actor : String) : Type 0 where
  pub id_kept : n.id ≡ m.id
  pub type_kept : n.type_name ≡ m.type_name
  pub created_at_kept : n.created_at ≡ m.created_at
  pub created_by_kept : n.created_by ≡ m.created_by
  pub updated_at : n.updated_at ≡ now
  pub updated_by : n.updated_by ≡ actor
  pub version : n.version ≡ (m.version + 1) % int_mod

module _ (E : Env) (db : Db E) (ctx : E.Context) where
  -- Marshaling leaves the state as it is.
  pub marshal_stamped-state :
      (p : ℕ) (name : String) (id : Uuid) (cond : E.Condition) (new_item : Bool)
      (st : State E.World)
      → (marshal_stamped E db p name id cond new_item st).1 ≡ st
  unfolding marshal_stamped
  marshal_stamped-state p name id cond new_item st = ground arith

  module _ (p : ℕ) (m : Model) (st : State E.World) (found : model_of (st.heap p) ≡ some m) where
    abbrev pub now : Time
    now = (db.clock st.world).0

    abbrev pub new_id : Uuid
    new_id = if m.id == 0 then (E.new_uuid (db.clock st.world).1).0 else m.id

    -- The `Model` that the stamping writes.
    abbrev pub stamped : Model
    stamped =
        if m.created_at == 0
        then created E (st.heap p) m new_id now (db.actor ctx)
        else updated E m now (db.actor ctx)

    -- The state after it: the uuid is drawn only for a new item without an ID.
    abbrev pub stamped_state : State E.World
    stamped_state = record {
      world =
          if m.created_at == 0
          then if m.id == 0 then (E.new_uuid (db.clock st.world).1).1 else (db.clock st.world).1
          else (db.clock st.world).1;
      heap = store_at p (set_model stamped (st.heap p)) st.heap;
    }

    -- The condition that a write of the item carries.
    abbrev pub write_condition : E.Condition
    write_condition =
        if m.created_at == 0
        then E.expression.attribute_not_exists "PK"
        else E.expression.equal "Version" (int m.version)

    -- `stampAndMarshal` is the stamping followed by the marshaling.
    pub stamp_and_marshal-eq :
        stamp_and_marshal E db ctx (at p) st
        ≡ marshal_stamped E db p
            (st.heap p).type_name
            m.id
            write_condition
            (m.created_at == 0)
            stamped_state
    unfolding stamp_and_marshal model_field_of fresh_id
    stamp_and_marshal-eq = elim (Bool-cases (m.created_at == 0)) [
      | inl new ↦ elim (Bool-cases (m.id == 0)) [
        | inl no_id ↦ rw (found, model_field_of, new, no_id)
        | inr has_id ↦ rw (found, model_field_of, new, has_id)
      ]
      | inr old ↦ rw (found, model_field_of, old)
    ]

    pub stamp_and_marshal-state : (stamp_and_marshal E db ctx (at p) st).1 ≡ stamped_state
    stamp_and_marshal-state = rw stamp_and_marshal-eq (
        marshal_stamped-state p (st.heap p).type_name m.id write_condition (m.created_at == 0)
          stamped_state)

  module _ (p : ℕ) (m : Model) (st : State E.World) (found : model_of (st.heap p) ≡ some m) where
    stamped-IsCreated :
        m.created_at ≡ 0
        → IsCreated m
            (stamped p m st found)
            (E.new_uuid (db.clock st.world).1).0
            (st.heap p).type_name
            (db.clock st.world).0
            (db.actor ctx)
    stamped-IsCreated new = rw ((==_iff m.created_at 0).1 new) (record {
      id_given = refl;
      type_name = refl;
      created_at = refl;
      created_by = refl;
      updated_at = refl;
      updated_by = refl;
      version = refl;
    })

    stamped-IsRewritten :
        m.created_at ≢ 0 → IsRewritten m (stamped p m st found) (db.clock st.world).0 (db.actor ctx)
    stamped-IsRewritten old =
        let test : (m.created_at == 0) ≡ false = ground arith in
        rw test (record {
          id_kept = refl;
          type_kept = refl;
          created_at_kept = refl;
          created_by_kept = refl;
          updated_at = refl;
          updated_by = refl;
          version = refl;
        })

  -- Whether the marshaling succeeds or fails, `stampAndMarshal` leaves every other struct alone,
  -- and leaves the item with the `Model` of a creation if it had no creation time, and of a
  -- rewriting if it had one. A creation keeps an ID that is given and draws one otherwise.
  pub stamp_and_marshal-item :
      (p : ℕ) (m : Model) (st : State E.World)
      → model_of (st.heap p) ≡ some m
      → (n : Model) × (model_of ((stamp_and_marshal E db ctx (at p) st).1.heap p) ≡ some n)
        × ((stamp_and_marshal E db ctx (at p) st).1.heap
            ≡ store_at p (set_model n (st.heap p)) st.heap)
        × (((m.created_at ≡ 0)
              × IsCreated m n
                  (E.new_uuid (db.clock st.world).1).0
                  (st.heap p).type_name
                  (db.clock st.world).0
                  (db.actor ctx))
            ⊎ ((m.created_at ≢ 0) × IsRewritten m n (db.clock st.world).0 (db.actor ctx)))
  stamp_and_marshal-item p m st found = (
    stamped p m st found,
    rw (stamp_and_marshal-state p m st found, store_at_self)
        (model_of-set_model (stamped p m st found) m (st.heap p) found),
    ap (λ (t : State E.World). t.heap) (stamp_and_marshal-state p m st found),
    elim (Bool-cases (m.created_at == 0)) [
      | inl new ↦
          let new' = (==_iff m.created_at 0).0 new in
          inl (new', stamped-IsCreated p m st found new')
      | inr old ↦
          let old' : m.created_at ≢ 0 = λ e. cc ((==_iff m.created_at 0).1 e) in
          inr (old', stamped-IsRewritten p m st found old')
    ],
  )
