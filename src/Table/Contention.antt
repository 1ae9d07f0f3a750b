-- ===== src/Table/Contention.antt =====
-- Two writers of one item: `Put` of crud.go on what was read before another Put.
use godynamo.Prelude.{
  ℕ, ◌+◌, ◌%◌, eq_refl, ◌≡◌, ◌≢◌, refl, sym, some, arith, ==_iff, ◌==◌, inl, inr, Bool-cases,
}
use godynamo.Fault.{ok}
use godynamo.Io.{at, State}
use godynamo.Reflect.{Model, StructType, int_mod}
use godynamo.Sdk.{Item}
use godynamo.Tags.{ModelTags}
use godynamo.ZeroKeys.Laws.{id_key}
use godynamo.Env.{Env}
use godynamo.Db.{Db}
use godynamo.Crud.{put}
use godynamo.Table.{Table, version_in, expected, HasOwnIndex}
use godynamo.Table.Accepted.{AsExpected, KeepsVersion}
use godynamo.Table.Stamped.{HasDefaultKey}
use godynamo.Table.Located.{put-others, put-IsStored}

module _ (E : Env) (db : Db E) (T : Table E db) where
  -- An item that a write has stored is not what the next write with the same expectation expects.
  stored_unexpected :
      (m m' : Model) (stamped : ℕ) (av : Item)
      → expected m ≡ expected m'
      → ((m.created_at ≢ 0) → stamped ≡ (m.version + 1) % int_mod)
      → version_in T.number_of (some av) ≡ some stamped
      → AsExpected E db T m' (some av)
      → ⊥
  stored_unexpected m m' stamped av same next v h = elim (Bool-cases (m'.created_at == 0)) [
    | inl new ↦ cc (rw new at h)
    | inr old ↦ elim (Bool-cases (m.created_at == 0)) [
      | inl new ↦ cc (rw (new, old) at same)
      | inr old' ↦
          let old_ne : m.created_at ≢ 0 = λ e. cc ((==_iff m.created_at 0).1 e) in
          let versions : m.version ≡ m'.version = cc (rw (old, old') at same) in
          let stored : stamped ≡ m'.version = cc (v, rw old at h) in
          omega (arith, next old_ne, versions, stored)
    ]
  ]

  module _ (own : HasOwnIndex E db) (ctx ctx' : E.Context) (t : StructType) (mt : ModelTags)
      (keeps : KeepsVersion t) (p q : ℕ) (m m' : Model) (st : State E.World) where
    -- At most one of two writers succeeds: of an entity type with the default keys, let two
    -- structs with one ID hold what was read from one state of the table, that is, both are new or
    -- both hold one version. Once a Put of the first has succeeded, a Put of the second fails.
    pub put-once :
        HasDefaultKey t mt m (st.heap p)
        → HasDefaultKey t mt m' (st.heap q)
        → p ≢ q
        → m.id ≡ m'.id
        → expected m ≡ expected m'
        → (put E db ctx t (at p) st).0 ≡ ok tt
        → (put E db ctx' t (at q) (put E db ctx t (at p) st).1).0 ≢ ok tt
    put-once h h' other ids same first second =
        let st' = (put E db ctx t (at p) st).1 in
        let kept = put-others E db ctx t p st m q h.found other in
        let at_q : HasDefaultKey t mt m' (st'.heap q) = rw kept h' in
        let a = put-IsStored E db T own ctx t mt keeps p m st h first in
        let a' = put-IsStored E db T own ctx' t mt keeps q m' st' at_q second in
        let key = id_key E.runtime mt.struct_name m.id in
        let row : T.rows st'.world key key ≡ some a.av = rw (a.rows key key, eq_refl key) refl in
        stored_unexpected m m' a.keyed.stamped a.av same a.keyed.next a.keyed.version
          (rw (sym ids, row) at a'.as_expected)
