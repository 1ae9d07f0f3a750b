-- ===== src/Table/History/Decided.antt =====
-- A `Put` of crud.go of what was read earlier in a history of its item, on a table of rows whose
-- client decides each PutItem by its condition alone.
use godynamo.Prelude.{
  ℕ, ◌<◌, ◌≡◌, ◌≢◌, none, some, arith, ◌==◌, ==_iff, Bool, true, false, Bool-cases, inl, inr,
}
use godynamo.Fault.{Outcome, Error, ok, err, errors_is, err_optimistic_lock}
use godynamo.Io.{at, State}
use godynamo.Reflect.{Model, StructType, Uuid, int_mod}
use godynamo.Sdk.{Item}
use godynamo.Tags.{ModelTags}
use godynamo.Env.{Env, Expression}
use godynamo.Db.{Db}
use godynamo.Crud.{put, stamp_and_marshal}
use godynamo.Table.{Table, HasOwnIndex}
use godynamo.Table.Accepted.{AsExpected}
use godynamo.Table.Stamped.{HasDefaultKey}
use godynamo.Table.Updated.{Updates}
use godynamo.Table.Transacted.{Transacts}
use godynamo.Table.Decided.{Decides, put-IsDecided}
use godynamo.Table.History.{HasIdKeys, row_of, History, count, KeepsRow}
use godynamo.Table.History.Counted.{count-Advances, advanced_unexpected}

-- Success, or an error that wraps `ErrOptimisticLock`.
abbrev pub Locks : (unwritten : Bool) → Outcome (Unit {0}) → Type 0
Locks true r = r ≡ ok tt
Locks false r = (e : Error) × (r ≡ err e) × (errors_is e err_optimistic_lock ≡ true)

module _ (E : Env) (db : Db E) (T : Table E db) (U : Updates E db T) (X : Transacts E db T)
    (D : Decides E db T) (t : StructType) (mt : ModelTags) (id : Uuid) (own : HasOwnIndex E db)
    (keys : HasIdKeys t mt) where
  -- The optimistic locking is exact: in a table whose index attribute is none of PK, SK and
  -- Version, let a client have read an item of a type with the default keys that stores the version
  -- of its `Model`, in a state of the table, as a struct that is new where there was no row, or of
  -- the row's version. After any history from there in which nobody deletes the item, and it is
  -- put, updated and put in transactions fewer than 2 ^ 64 times, let a Put of the struct, which
  -- has the item's ID, stamp it and build its condition without an error, on a client that decides
  -- each PutItem by its condition. The Put succeeds if nobody has written the item in between, and
  -- fails with an error that wraps `ErrOptimisticLock` if somebody has.
  pub put-Locks :
      {s u : State E.World} (h : History E db T U X t mt id s u) (ctx : E.Context) (p : ℕ)
      (m : Model) (av : Item) (cond : E.Condition) (expr : Expression)
      → KeepsRow E db T U X t mt id h
      → count E db T U X t mt id 0 h < int_mod
      → AsExpected E db T m (row_of E db T U X t mt id s)
      → HasDefaultKey t mt m (u.heap p)
      → m.id ≡ id
      → (stamp_and_marshal E db ctx (at p) u).0 ≡ ok (av, cond)
      → E.expression.build none none (some cond) none ≡ ok expr
      → Locks (count E db T U X t mt id 0 h == 0) (put E db ctx t (at p) u).0
  put-Locks {s} {u} h ctx p m av cond expr kept few read item same stamped built =
      let d =
        rw same at
          (put-IsDecided E db T D own ctx t mt keys.keeps p m u av cond expr item stamped built) in
      let w = count-Advances E db T U X t mt id own keys h kept in
      elim (Bool-cases (count E db T U X t mt id 0 h == 0)) [
        | inl nobody ↦
            let stays = w.stays ((==_iff _ 0).0 nobody) in
            let now : AsExpected E db T m (row_of E db T U X t mt id u) = rw stays read in
            rw nobody (d.accepted now)
        | inr somebody ↦
            let written : count E db T U X t mt id 0 h ≢ 0 = λ z. cc ((==_iff _ 0).1 z) in
            rw somebody (
              d.refused (
                advanced_unexpected E db T U X t mt id own keys _ m _ _ w (omega (arith, written))
                  few read))
      ]
