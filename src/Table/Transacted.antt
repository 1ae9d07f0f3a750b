-- ===== src/Table/Transacted.antt =====
-- A queued Put of a transactional write of transact.go on a table of rows: what it found in the
-- table, and what it stored there.
use godynamo.Prelude.{ℕ, String, ◌≡◌, ◌≢◌, true, Option, none, some, List, [], ◌∷◌, ◌++◌, inl, inr}
use godynamo.Dict.{lookup}
use godynamo.Fault.{Error, ok}
use godynamo.Io.{State}
use godynamo.Reflect.{Model, Struct, StructType}
use godynamo.Sdk.{s, Item}
use godynamo.Tags.{ModelTags}
use godynamo.ZeroKeys.Laws.{id_key}
use godynamo.Env.{Env, Expression, TransactWriteItem, put_entry}
use godynamo.Db.{Db}
use godynamo.Crud.Written.{IsWritten}
use godynamo.Transact.{TransactWriteOp, TransactWriteBuilder, write_items, run_write}
use godynamo.Transact.Sending.{run_write-IsSent}
use godynamo.Table.{Table, conditional_put, HasOwnIndex}
use godynamo.Table.Accepted.{AsExpected, KeepsVersion}
use godynamo.Table.Preparing.{put_of, NotPut}
use godynamo.Table.Queued.{write_items-IsQueued}
use godynamo.Table.Stamped.{HasDefaultKey, IsKeyed}

-- What a TransactWriteItems does that succeeds: the conditions of its Puts held, and their items are
-- stored.
pub record Transacts (E : Env) (db : Db E) (T : Table E db) : Type 0 where
  pub transact_puts :
      (ctx : E.Context) (w : E.World) (earlier later : List TransactWriteItem) (av : Item)
      (cond : E.Condition) (expr : Expression) (p q : String)
      → E.expression.build none none (some cond) none ≡ ok expr
      → lookup "PK" av ≡ some (s p)
      → lookup "SK" av ≡ some (s q)
      → (db.client.transact_write_items ctx
          (earlier ++ (put_entry (conditional_put db.table av expr) ∷ later))
          w).0
        ≡ ok tt
      → (T.holds cond (T.rows w p q) ≡ true)
        × (T.rows
              (db.client.transact_write_items ctx
                (earlier ++ (put_entry (conditional_put db.table av expr) ∷ later))
                w).1
              p
              q
            ≡ some av)

not_nil : {A : Type 0} (xs : List A) (y : A) (ys : List A) → xs ++ (y ∷ ys) ≢ []
not_nil [] y ys h = cc
not_nil (x ∷ xs) y ys h = cc

module _ (E : Env) (db : Db E) (T : Table E db) where
  -- A Put under one key, as to the row of the key: the row was as the item expects it, and the
  -- written form of the stamped struct stands there afterwards.
  pub record RowIsPut (ctx : E.Context) (t : StructType) (mt : ModelTags) (key : String) (m : Model)
      (left : Struct) (before after : Option Item) : Type 0 where
    pub n : Model
    pub same_id : n.id ≡ m.id
    pub still : HasDefaultKey t mt n left
    pub av : Item
    pub cond : E.Condition
    pub written : IsWritten E db ctx m left av cond
    pub keyed : IsKeyed E db T key m av cond
    pub as_expected : AsExpected E db T m before
    pub stored : after ≡ some av

  module _ (X : Transacts E db T) (own : HasOwnIndex E db) (ctx : E.Context) (t : StructType)
      (mt : ModelTags) (keeps : KeepsVersion t) (p : ℕ) (m : Model) where
    abbrev key : String
    key = id_key E.runtime mt.struct_name m.id

    sent-RowIsPut :
        (earlier later : List TransactWriteOp) (entry : TransactWriteItem)
        (items : List TransactWriteItem) (st prepared : State E.World)
        → HasDefaultKey t mt m (st.heap p)
        → NotPut p earlier
        → NotPut p later
        → write_items E db ctx (earlier ++ (put_of p entry ∷ later)) st ≡ (ok items, prepared)
        → (db.client.transact_write_items ctx items prepared.world).0 ≡ ok tt
        → RowIsPut ctx t mt key m
            (prepared.heap p)
            (T.rows st.world key key)
            (T.rows (db.client.transact_write_items ctx items prepared.world).1 key key)
    sent-RowIsPut earlier later entry items st prepared h before after prepares sent =
        let i =
          write_items-IsQueued E db T own ctx t mt keeps p m earlier later entry items st prepared h
            before after prepares in
        let (held, stored) =
          X.transact_puts ctx prepared.world i.items₁ i.items₂ i.av i.cond i.expr key key i.built
            i.keyed.pk_is i.keyed.sk_is (rw i.whole at sent) in
        record {
          n = i.n;
          same_id = i.same_id;
          still = i.still;
          av = i.av;
          cond = i.cond;
          written = i.written;
          keyed = i.keyed;
          as_expected = rw i.same_rows at (i.keyed.expects _ held);
          stored = rw i.whole stored;
        }

    -- A Put that is queued in a transactional write that succeeds was accepted: in a table whose
    -- index attribute is none of PK, SK and Version, let the struct be an entity of a type with the
    -- default keys that stores the version of its `Model`, which the transaction puts once, and
    -- which is not new or has been given an ID. The row of its ID was absent if it is new, and of
    -- its version if not, and what stands there afterwards is the written form of the stamped
    -- struct, as it is left in memory.
    pub run_write-RowIsPut :
        (earlier later : List TransactWriteOp) (entry : TransactWriteItem) (failed : Option Error)
        (st out : State E.World)
        → HasDefaultKey t mt m (st.heap p)
        → NotPut p earlier
        → NotPut p later
        → run_write E ctx
            (record { db = db; ops = earlier ++ (put_of p entry ∷ later); failed = failed })
            st
          ≡ (ok tt, out)
        → RowIsPut ctx t mt
            (id_key E.runtime mt.struct_name m.id)
            m
            (out.heap p)
            (T.rows st.world
              (id_key E.runtime mt.struct_name m.id)
              (id_key E.runtime mt.struct_name m.id))
            (T.rows out.world
              (id_key E.runtime mt.struct_name m.id)
              (id_key E.runtime mt.struct_name m.id))
    run_write-RowIsPut earlier later entry failed st out h before after success =
        let b : TransactWriteBuilder E = record {
          db = db;
          ops = earlier ++ (put_of p entry ∷ later);
          failed = failed;
        } in
        elim ((run_write-IsSent E ctx b st out success).1) [
          | inl (nothing, _) ↦ absurd (not_nil earlier (put_of p entry) later nothing)
          | inr call ↦ rw call.after (
              sent-RowIsPut earlier later entry call.items st call.prepared h before after
                call.prepares call.sent)
        ]
