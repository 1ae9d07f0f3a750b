-- ===== src/Table/Cancelled.antt =====
-- A transactional write of transact.go on a table of rows whose client cancels it where the condition
-- of a Put does not hold.
use godynamo.Prelude.{
  All, [], Option, ◌≢◌, ℕ, String, ◌≡◌, refl, ◌≤◌, true, false, none, some, List, ◌∷◌, ◌++◌, length,
  Bool-cases, inl, inr,
}
use godynamo.Dict.{lookup}
use godynamo.Fault.{Error, ok, err, errors_is, err_optimistic_lock, as_transaction_canceled}
use godynamo.Io.{State}
use godynamo.Reflect.{Model, StructType}
use godynamo.Sdk.{s, Item, AttributeValue}
use godynamo.Tags.{ModelTags}
use godynamo.ZeroKeys.Laws.{id_key}
use godynamo.Env.{
  Env, Expression, TransactWriteItem, put_entry, delete_entry, condition_check_entry, empty_entry,
}
use godynamo.Db.{Db}
use godynamo.Transact.{TransactWriteOp, write_items, run_write, translate_transact_write_err}
use godynamo.Transact.Prepared.{append_not_empty, run_write-prepared}
use godynamo.Transact.Cancellation.{
  HasFailedCheck, reasons_or_none, translate_transact_write_err-is,
}
use godynamo.Table.{Table, conditional_put, HasOwnIndex}
use godynamo.Table.Accepted.{AsExpected, KeepsVersion}
use godynamo.Table.Preparing.{put_of, NotPut}
use godynamo.Table.Queued.{write_items-IsQueued}
use godynamo.Table.Stamped.{HasDefaultKey}

-- The row that an entry is about.
abbrev pub target_of :
    TransactWriteItem → Option (String × (Option AttributeValue × Option AttributeValue))
target_of (put_entry input) =
    some (input.table_name, (lookup "PK" input.item, lookup "SK" input.item))
target_of (delete_entry input) =
    some (input.table_name, (lookup "PK" input.key, lookup "SK" input.key))
target_of (condition_check_entry table key text names values) =
    some (table, (lookup "PK" key, lookup "SK" key))
target_of empty_entry = none

abbrev pub AreApart : List TransactWriteItem → Type 0
AreApart [] = Unit
AreApart (item ∷ items) =
    (target_of item ≢ none)
    × All (λ (other : TransactWriteItem). target_of other ≢ target_of item) items
    × AreApart items

-- What the service takes as a transaction: at most 100 entries, each about a row, and no two about one.
pub record IsTransaction (items : List TransactWriteItem) : Type 0 where
  pub few : length items ≤ 100
  pub apart : AreApart items

-- A TransactWriteItems with a Put whose condition does not hold is cancelled, and a reason of the
-- cancellation is the failed condition check: it is a transaction that the service takes, it is not
-- throttled, and not lost or refused for another reason.
pub record Cancels (E : Env) (db : Db E) (T : Table E db) : Type 0 where
  pub transact_cancels :
      (ctx : E.Context) (w : E.World) (earlier later : List TransactWriteItem) (av : Item)
      (cond : E.Condition) (expr : Expression) (p q : String)
      → IsTransaction (earlier ++ (put_entry (conditional_put db.table av expr) ∷ later))
      → E.expression.build none none (some cond) none ≡ ok expr
      → lookup "PK" av ≡ some (s p)
      → lookup "SK" av ≡ some (s q)
      → T.holds cond (T.rows w p q) ≡ false
      → (e : Error) × ((db.client.transact_write_items ctx
            (earlier ++ (put_entry (conditional_put db.table av expr) ∷ later))
            w).0
          ≡ err e)
        × HasFailedCheck (reasons_or_none (as_transaction_canceled e))

module _ (E : Env) (db : Db E) (T : Table E db) where
  module _ (C : Cancels E db T) (own : HasOwnIndex E db) (ctx : E.Context) (t : StructType)
      (mt : ModelTags) (keeps : KeepsVersion t) (p : ℕ) (m : Model) where
    abbrev key : String
    key = id_key E.runtime mt.struct_name m.id

    sent-cancels :
        (earlier later : List TransactWriteOp) (entry : TransactWriteItem)
        (items : List TransactWriteItem) (st prepared : State E.World)
        → HasDefaultKey t mt m (st.heap p)
        → NotPut p earlier
        → NotPut p later
        → write_items E db ctx (earlier ++ (put_of p entry ∷ later)) st ≡ (ok items, prepared)
        → IsTransaction items
        → (¬ AsExpected E db T m (T.rows st.world key key))
        → (e : Error) × ((db.client.transact_write_items ctx items prepared.world).0 ≡ err e)
          × HasFailedCheck (reasons_or_none (as_transaction_canceled e))
    sent-cancels earlier later entry items st prepared h before after prepares taken unexpected =
        let i =
          write_items-IsQueued E db T own ctx t mt keeps p m earlier later entry items st prepared h
            before after prepares in
        elim (Bool-cases (T.holds i.cond (T.rows prepared.world key key))) [
          | inl held ↦ absurd (
              unexpected (rw i.same_rows at (i.keyed.expects (T.rows prepared.world key key) held)))
          | inr failed ↦ rw i.whole (
              C.transact_cancels ctx prepared.world i.items₁ i.items₂ i.av i.cond i.expr key key
                (rw i.whole at taken) i.built i.keyed.pk_is i.keyed.sk_is failed)
        ]

    -- A stale Put cancels its transaction: let a transactional write put an entity with the default keys
    -- once, among at most 100 entries, which are prepared without an error as a transaction that the
    -- service takes. If its row is not absent though it is new, or not of its version, the transaction
    -- fails with an error that wraps `ErrOptimisticLock`.
    pub run_write-cancelled :
        (earlier later : List TransactWriteOp) (entry : TransactWriteItem)
        (items : List TransactWriteItem) (st prepared : State E.World)
        → HasDefaultKey t mt m (st.heap p)
        → NotPut p earlier
        → NotPut p later
        → length (earlier ++ (put_of p entry ∷ later)) ≤ 100
        → write_items E db ctx (earlier ++ (put_of p entry ∷ later)) st ≡ (ok items, prepared)
        → IsTransaction items
        → (¬ AsExpected E db T m (
            T.rows st.world
              (id_key E.runtime mt.struct_name m.id)
              (id_key E.runtime mt.struct_name m.id)))
        → (e : Error) × ((run_write E ctx
              (record { db = db; ops = earlier ++ (put_of p entry ∷ later); failed = none })
              st).0
            ≡ err e)
          × (errors_is e err_optimistic_lock ≡ true)
    run_write-cancelled earlier later entry items st prepared h before after few prepares taken
          unexpected =
        let (e, is, failed) =
          sent-cancels earlier later entry items st prepared h before after prepares taken
            unexpected in
        let sent =
          run_write-prepared E db ctx (earlier ++ (put_of p entry ∷ later)) items st prepared
            (append_not_empty earlier (put_of p entry) later) few prepares in
        (
          translate_transact_write_err e,
          rw (sent, is) refl,
          (translate_transact_write_err-is e).1 (inl failed),
        )
