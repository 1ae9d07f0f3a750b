-- ===== src/Table/History.antt =====
-- What any number of clients do to one item by `Put`, by the `UpdateBuilder` and by `Delete` of
-- crud.go and by the transactional writes of transact.go, in any order: a step relation, and its histories.
pub mod Advances
pub mod Counted
pub mod Decided
pub mod Cancelled
use godynamo.Prelude.{ℕ, ◌+◌, String, ◌≡◌, Option, none, List, ◌∷◌, ◌++◌}
use godynamo.Fault.{ok}
use godynamo.Io.{at, State}
use godynamo.Reflect.{Model, Struct, StructType, Uuid}
use godynamo.Reflect.Embedding.{IsEntityType}
use godynamo.Tags.{ModelTags, parse_tags_fresh}
use godynamo.ZeroKeys.Laws.{IsDefault, id_key}
use godynamo.Sdk.{Item}
use godynamo.Env.{Env, TransactWriteItem}
use godynamo.Db.{Db}
use godynamo.Crud.{put, delete}
use godynamo.Update.{UpdateOp, UpdateBuilder, run}
use godynamo.Table.{Table}
use godynamo.Table.Accepted.{KeepsVersion}
use godynamo.Table.Stamped.{HasDefaultKey}
use godynamo.Table.Updated.{Updates}
use godynamo.Table.Preparing.{NotPut, put_of}
use godynamo.Table.Transacted.{Transacts}
use godynamo.Transact.{TransactWriteOp, TransactWriteBuilder, run_write}

-- A type whose items are found by their IDs.
pub record HasIdKeys (t : StructType) (mt : ModelTags) : Type 0 where
  pub entity : IsEntityType t
  pub parsed : parse_tags_fresh t ≡ ok mt
  pub default : IsDefault mt
  pub keeps : KeepsVersion t

module _ (E : Env) (db : Db E) (T : Table E db) (U : Updates E db T) (X : Transacts E db T)
    (t : StructType) (mt : ModelTags) (id : Uuid) where
  abbrev pub row_key : String
  row_key = id_key E.runtime mt.struct_name id

  -- The row of the item.
  abbrev pub row_of : State E.World → Option Item
  row_of st = T.rows st.world row_key row_key

  -- An update of the item.
  abbrev pub updating : List UpdateOp → Option ℕ → UpdateBuilder E
  updating ops version = record { db = db; id = id; ops = ops; version = version }

  -- A transactional write that puts the struct at an address among others.
  abbrev pub queued :
      ℕ → (earlier later : List TransactWriteOp) → TransactWriteItem → TransactWriteBuilder E
  queued p earlier later entry = record {
    db = db;
    ops = earlier ++ (put_of p entry ∷ later);
    failed = none;
  }

  -- One step: a client writes, updates or deletes the item, or puts it in a transaction, and the call
  -- returns no error; or
  -- something happens that leaves the row alone, such as a read, a write of another item, a failed
  -- call, or a change of the structs in memory.
  pub data Step (s u : State E.World) : Type 0 where
    wrote :
        (ctx : E.Context) (p : ℕ) (m : Model)
        → HasDefaultKey t mt m (s.heap p)
        → m.id ≡ id
        → (put E db ctx t (at p) s).0 ≡ ok tt
        → u ≡ (put E db ctx t (at p) s).1
        → Step s u
    updated :
        (ctx : E.Context) (ops : List UpdateOp) (version : Option ℕ) (v : Struct)
        → (run E ctx t (updating ops version) s).0 ≡ ok v
        → u ≡ (run E ctx t (updating ops version) s).1
        → Step s u
    deleted :
        (ctx : E.Context)
        → (delete E db ctx t id s).0 ≡ ok tt
        → u ≡ (delete E db ctx t id s).1
        → Step s u
    transacted :
        (ctx : E.Context) (p : ℕ) (m : Model) (earlier later : List TransactWriteOp)
        (entry : TransactWriteItem)
        → HasDefaultKey t mt m (s.heap p)
        → m.id ≡ id
        → NotPut p earlier
        → NotPut p later
        → run_write E ctx (queued p earlier later entry) s ≡ (ok tt, u)
        → Step s u
    elsewhere : row_of u ≡ row_of s → Step s u

  pub data History (s : State E.World) : State E.World → Type 0 where
    here : History s s
    next : {u v : State E.World} → History s u → Step u v → History s v

  -- The writes since a count, from which a Delete starts over.
  abbrev pub count_step : {s u : State E.World} → ℕ → Step s u → ℕ
  count_step n (wrote ctx p m h i success e) = n + 1
  count_step n (updated ctx ops version v success e) = n + 1
  count_step n (transacted ctx p m earlier later entry h i f l success) = n + 1
  count_step n (deleted ctx success e) = 0
  count_step n (elsewhere e) = n

  abbrev pub count : {s u : State E.World} → ℕ → History s u → ℕ
  count n here = n
  count n (next h step) = count_step (count n h) step

  abbrev pub IsDelete : {s u : State E.World} → Step s u → Type 0
  IsDelete (wrote ctx p m h i success e) = ⊥
  IsDelete (updated ctx ops version v success e) = ⊥
  IsDelete (transacted ctx p m earlier later entry h i f l success) = ⊥
  IsDelete (deleted ctx success e) = Unit
  IsDelete (elsewhere e) = ⊥

  -- Nobody has deleted the item.
  abbrev pub KeepsRow : {s u : State E.World} → History s u → Type 0
  KeepsRow here = Unit
  KeepsRow (next h step) = KeepsRow h × (¬ IsDelete step)
