-- ===== src/Table/History/Cancelled.antt =====
-- A transactional write of transact.go that puts what was read earlier in a history of its item, on a
-- table of rows whose client cancels it where the condition of a Put does not hold.
use godynamo.Prelude.{ℕ, ◌<◌, ◌≤◌, ◌≡◌, true, List, ◌∷◌, ◌++◌, length}
use godynamo.Fault.{Error, ok, err, errors_is, err_optimistic_lock}
use godynamo.Io.{State}
use godynamo.Reflect.{Model, StructType, Uuid, int_mod}
use godynamo.Tags.{ModelTags}
use godynamo.Env.{Env, TransactWriteItem}
use godynamo.Db.{Db}
use godynamo.Transact.{TransactWriteOp, write_items, run_write}
use godynamo.Table.{Table, HasOwnIndex}
use godynamo.Table.Accepted.{AsExpected}
use godynamo.Table.Preparing.{put_of, NotPut}
use godynamo.Table.Stamped.{HasDefaultKey}
use godynamo.Table.Updated.{Updates}
use godynamo.Table.Transacted.{Transacts}
use godynamo.Table.Cancelled.{Cancels, IsTransaction, run_write-cancelled}
use godynamo.Table.History.{HasIdKeys, row_of, queued, History, count, KeepsRow}
use godynamo.Table.History.Counted.{count-Advances, advanced_unexpected}

module _ (E : Env) (db : Db E) (T : Table E db) (U : Updates E db T) (X : Transacts E db T)
    (C : Cancels E db T) (t : StructType) (mt : ModelTags) (id : Uuid) (own : HasOwnIndex E db)
    (keys : HasIdKeys t mt) where
  -- A transaction is as safe as a Put: in a table whose index attribute is none of PK, SK and
  -- Version, let a client have read an item of a type with the default keys that stores the version
  -- of its `Model`, in a state of the table, as a struct that is new where there was no row, or of
  -- the row's version. After any history from there in which nobody deletes the item and at least
  -- one client has put it, updated it or put it in a transaction, fewer than 2 ^ 64 times, let the
  -- entries of a transactional write, at most 100, which put the struct once, its ID set, be
  -- prepared without an error as a transaction that the service takes: each entry is about a row,
  -- and no two are about one. On a client that cancels such a transaction where the condition of a
  -- Put does not hold, it fails with an error that wraps `ErrOptimisticLock`.
  pub run_write-after_history :
      {s u : State E.World} (h : History E db T U X t mt id s u) (ctx : E.Context) (p : ℕ)
      (m : Model) (earlier later : List TransactWriteOp) (entry : TransactWriteItem)
      (items : List TransactWriteItem) (prepared : State E.World)
      → KeepsRow E db T U X t mt id h
      → 0 < count E db T U X t mt id 0 h
      → count E db T U X t mt id 0 h < int_mod
      → AsExpected E db T m (row_of E db T U X t mt id s)
      → HasDefaultKey t mt m (u.heap p)
      → m.id ≡ id
      → NotPut p earlier
      → NotPut p later
      → length (earlier ++ (put_of p entry ∷ later)) ≤ 100
      → write_items E db ctx (earlier ++ (put_of p entry ∷ later)) u ≡ (ok items, prepared)
      → IsTransaction items
      → (e : Error) × ((run_write E ctx (queued E db T U X t mt id p earlier later entry) u).0
          ≡ err e)
        × (errors_is e err_optimistic_lock ≡ true)
  run_write-after_history h ctx p m earlier later entry items prepared kept some_write few read item
        same before after limit prepares taken =
      let w = count-Advances E db T U X t mt id own keys h kept in
      run_write-cancelled E db T C own ctx t mt keys.keeps p m earlier later entry items _ prepared
        item before after limit prepares taken
        (rw same (advanced_unexpected E db T U X t mt id own keys _ m _ _ w some_write few read))
