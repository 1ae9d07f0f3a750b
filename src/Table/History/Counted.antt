-- ===== src/Table/History/Counted.antt =====
-- The version of an item over a history of its writes by crud.go and transact.go, and a `Put` of what
-- was read earlier in it.
use godynamo.Prelude.{
  ℕ, ◌+◌, ◌%◌, ◌<◌, ◌≡◌, ◌≢◌, refl, Option, some, arith, ◌==◌, Bool-cases, inl, inr, List,
}
use godynamo.Fault.{ok}
use godynamo.Io.{at, State}
use godynamo.Reflect.{Struct, Model, StructType, Uuid, int_mod}
use godynamo.Sdk.{Item}
use godynamo.Tags.{ModelTags}
use godynamo.Env.{Env}
use godynamo.Db.{Db}
use godynamo.Crud.{put}
use godynamo.Table.{Table, version_in, HasOwnIndex}
use godynamo.Table.Accepted.{AsExpected}
use godynamo.Table.Stamped.{HasDefaultKey}
use godynamo.Table.Located.{put-IsStored}
use godynamo.Table.Updated.{Updates}
use godynamo.Table.Transacted.{Transacts}
use godynamo.Table.History.Advances.{
  Advances, version_or_zero, unwritten, Advances-trans, wrote-Advances, updated-Advances,
  transacted-Advances, deleted_row,
}
use godynamo.Update.{UpdateOp, run}
use godynamo.Table.Updated.{run-IsUpdated}
use godynamo.Table.History.{
  updating, HasIdKeys, row_of, Step, wrote, updated, transacted, deleted, elsewhere, History, here,
  next, count_step, count, IsDelete, KeepsRow,
}

module _ (E : Env) (db : Db E) (T : Table E db) (U : Updates E db T) (X : Transacts E db T)
    (t : StructType) (mt : ModelTags) (id : Uuid) (own : HasOwnIndex E db)
    (keys : HasIdKeys t mt) where
  abbrev pub row_now : State E.World → Option Item
  row_now s = row_of E db T U X t mt id s

  abbrev RowAdvances : ℕ → State E.World → State E.World → Type 0
  RowAdvances c s u = Advances E db T c (row_now s) (row_now u)

  abbrev Steps : State E.World → State E.World → Type 0
  Steps s u = Step E db T U X t mt id s u

  abbrev pub Histories : State E.World → State E.World → Type 0
  Histories s u = History E db T U X t mt id s u

  -- The version of the item, 0 if there is no row, is a number, up to the wrap-around.
  abbrev pub VersionIs : State E.World → ℕ → Type 0
  VersionIs s n = version_or_zero E db T (row_now s) % int_mod ≡ n % int_mod

  step-VersionIs :
      {s u : State E.World} (n : ℕ) (step : Steps s u)
      → VersionIs s n
      → VersionIs u (count_step E db T U X t mt id n step)
  step-VersionIs {s} n (wrote ctx p m h i success e) v =
      let w = wrote-Advances E db T U X t mt id own keys s ctx p m h i success in
      rw e (omega (arith, w.version, v))
  step-VersionIs {s} n (updated ctx ops version o success e) v =
      let w = updated-Advances E db T U X t mt id own keys s ctx ops version o success in
      rw e (omega (arith, w.version, v))
  step-VersionIs {s} {u} n (transacted ctx p m earlier later entry h i f l success) v =
      let w =
        transacted-Advances E db T U X t mt id own keys s u ctx p m earlier later entry h i f l
          success in
      omega (arith, w.version, v)
  step-VersionIs {s} n (deleted ctx success e) v =
      rw (e, deleted_row E db T U X t mt id own keys s ctx success) refl
  step-VersionIs n (elsewhere e) v = rw e v

  -- The version counts the writes: in a table whose index attribute is none of PK, SK and Version,
  -- over any history of an item of a type with the default keys that stores the version of its
  -- `Model`, in which any number of clients put it, update it, put it in transactions and delete it
  -- in any order, its version is the number of the puts and updates since the last Delete, up to
  -- the wrap-around of Go's `int`. Before the first Delete they count from the version at the
  -- start, which is 0 if there was no row.
  pub count-VersionIs :
      {s u : State E.World} (n : ℕ) (h : Histories s u)
      → VersionIs s n
      → VersionIs u (count E db T U X t mt id n h)
  count-VersionIs n here v = v
  count-VersionIs n (next h step) v =
      step-VersionIs (count E db T U X t mt id n h) step (count-VersionIs n h v)

  step-Advances :
      {s u : State E.World} (n : ℕ) (step : Steps s u)
      → (¬ IsDelete E db T U X t mt id step)
      → (c : ℕ) × (count_step E db T U X t mt id n step ≡ n + c) × RowAdvances c s u
  step-Advances {s} n (wrote ctx p m h i success e) k =
      (1, refl, rw e (wrote-Advances E db T U X t mt id own keys s ctx p m h i success))
  step-Advances {s} n (updated ctx ops version o success e) k =
      (1, refl, rw e (updated-Advances E db T U X t mt id own keys s ctx ops version o success))
  step-Advances {s} {u} n (transacted ctx p m earlier later entry h i f l success) k = (
    1,
    refl,
    transacted-Advances E db T U X t mt id own keys s u ctx p m earlier later entry h i f l success,
  )
  step-Advances n (deleted ctx success e) k = absurd (k tt)
  step-Advances n (elsewhere e) k = (0, omega arith, unwritten E db T _ _ e)

  pub count-Advances :
      {s u : State E.World} (h : Histories s u)
      → KeepsRow E db T U X t mt id h
      → RowAdvances (count E db T U X t mt id 0 h) s u
  count-Advances {s} here k = unwritten E db T (row_now s) (row_now s) refl
  count-Advances (next h step) (k, last) =
      let (c, counted, w) = step-Advances (count E db T U X t mt id 0 h) step last in
      rw counted (Advances-trans E db T _ c _ _ _ (count-Advances h k) w)

  -- The version that was read before another write is not the version after it.
  advanced_version :
      (c v : ℕ) (before after : Option Item)
      → Advances E db T c before after
      → 0 < c
      → c < int_mod
      → version_in T.number_of before ≡ some v
      → version_in T.number_of after ≡ some v
      → ⊥
  advanced_version c v before after w some_write few read now =
      omega (arith, rw (read, now) at w.version)

  -- What was read before another write is not what a Put expects after it.
  pub advanced_unexpected :
      (c : ℕ) (m : Model) (before after : Option Item)
      → Advances E db T c before after
      → 0 < c
      → c < int_mod
      → AsExpected E db T m before
      → AsExpected E db T m after
      → ⊥
  advanced_unexpected c m before after w some_write few read now =
      elim (Bool-cases (m.created_at == 0)) [
        | inl new ↦ omega (arith, w.exists (rw new at now))
        | inr old ↦
            advanced_version c m.version before after w some_write few (rw old at read)
              (rw old at now)
      ]

  -- No update is lost: in a table whose index attribute is none of PK, SK and Version, let a client
  -- have read an item of a type with the default keys that stores the version of its `Model`, in a
  -- state of the table, as a struct that is new where there was no row, or of the row's version.
  -- Over any history from there in which nobody deletes the item and at least one client has put
  -- it, updated it or put it in a transaction, fewer than 2 ^ 64 times, a Put of that struct fails,
  -- which has the item's ID.
  pub put-after_history :
      {s u : State E.World} (h : Histories s u) (ctx : E.Context) (p : ℕ) (m : Model)
      → KeepsRow E db T U X t mt id h
      → 0 < count E db T U X t mt id 0 h
      → count E db T U X t mt id 0 h < int_mod
      → AsExpected E db T m (row_now s)
      → HasDefaultKey t mt m (u.heap p)
      → m.id ≡ id
      → (put E db ctx t (at p) u).0 ≢ ok tt
  put-after_history {u} h ctx p m kept some_write few read item same success =
      let a = put-IsStored E db T own ctx t mt keys.keeps p m u item success in
      let now : AsExpected E db T m (row_now u) = rw same at a.as_expected in
      advanced_unexpected _ m _ _ (count-Advances h kept) some_write few read now

  -- No update is lost to an update either: in a table whose index attribute is none of PK, SK and
  -- Version, let a client have read the version of an item of a type with the default keys that
  -- stores the version of its `Model`, in a state of the table. Over any history from there in
  -- which nobody deletes the item and at least one client has put it, updated it or put it in a
  -- transaction, fewer than 2 ^ 64 times, an update fails that asks for that version by
  -- `IfVersion`.
  pub run-after_history :
      {s u : State E.World} (h : Histories s u) (ctx : E.Context) (ops : List UpdateOp) (v : ℕ)
      (x : Struct)
      → KeepsRow E db T U X t mt id h
      → 0 < count E db T U X t mt id 0 h
      → count E db T U X t mt id 0 h < int_mod
      → version_in T.number_of (row_now s) ≡ some v
      → (run E ctx t (updating E db T U X t mt id ops (some v)) u).0 ≢ ok x
  run-after_history {u} h ctx ops v x kept some_write few read success =
      let i =
        run-IsUpdated E (updating E db T U X t mt id ops (some v)) T U t mt keys.entity keys.parsed
          keys.default ctx u x success in
      advanced_version _ v _ _ (count-Advances h kept) some_write few read i.had_version
