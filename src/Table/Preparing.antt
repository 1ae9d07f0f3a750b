-- ===== src/Table/Preparing.antt =====
-- The preparing of a transactional write of transact.go on a table of rows: the rows and the structs
-- that it leaves alone, and a queued Put.
use godynamo.Prelude.{
  ℕ, ◌≡◌, ◌≢◌, sym, ap, ◌∙◌, Option, none, some, List, [], ◌∷◌, All, Option-cases, inl, inr,
}
use godynamo.Fault.{ok, wrap_err, wrap_err-eq-ok}
use godynamo.Io.{Pointer, null, at, State, continue-eq}
use godynamo.Reflect.{Model, model_of}
use godynamo.Sdk.{Item}
use godynamo.ZeroKeys.{model_field_of}
use godynamo.Env.{Env, Expression, TransactWriteItem, put_entry}
use godynamo.Db.{Db}
use godynamo.Crud.{stamp_and_marshal, put_input}
use godynamo.Crud.Stamping.{stamp_and_marshal-item}
use godynamo.Transact.{TransactWriteOp, write_item, write_items}
use godynamo.Transact.Prepared.{write_items-IsPrepared}
use godynamo.Table.{Table}
use godynamo.Table.Accepted.{stamping_rows}
use godynamo.Table.Stamped.{store_at_other}

-- The Put of a struct, as it is queued.
abbrev pub put_of : ℕ → TransactWriteItem → TransactWriteOp
put_of p entry = record { put = some (at p); entry = entry }

-- The struct at an address is put by none of these.
abbrev pub NotPut : ℕ → List TransactWriteOp → Type 0
NotPut p = All (λ (op : TransactWriteOp). op.put ≢ some (at p))

module _ (E : Env) (db : Db E) (ctx : E.Context) where
  stamped_model :
      (q : ℕ) (st : State E.World) {av : Item} {cond : E.Condition}
      → (stamp_and_marshal E db ctx (at q) st).0 ≡ ok (av, cond)
      → (m : Model) × (model_of (st.heap q) ≡ some m)
  unfolding stamp_and_marshal model_field_of
  stamped_model q st h = elim (Option-cases (model_of (st.heap q))) [
    | inl none_there ↦ absurd (cc (rw none_there at h))
    | inr (m, found) ↦ (m, found)
  ]

  null_unstamped :
      (st : State E.World) {av : Item} {cond : E.Condition}
      → (stamp_and_marshal E db ctx null st).0 ≡ ok (av, cond)
      → ⊥
  unfolding stamp_and_marshal
  null_unstamped st h = cc

  module _ (T : Table E db) where
    -- Preparing leaves the table as it is, and the structs that are not put.
    abbrev pub LeavesBe : ℕ → State E.World → State E.World → Type 0
    LeavesBe p st out = (T.rows out.world ≡ T.rows st.world) × (out.heap p ≡ st.heap p)

    write_item-LeavesBe :
        (p : ℕ) (o : Option Pointer) (entry item : TransactWriteItem) (st out : State E.World)
        → o ≢ some (at p)
        → write_item E db ctx (record { put = o; entry = entry }) st ≡ (ok item, out)
        → LeavesBe p st out
    unfolding write_item
    write_item-LeavesBe p none entry item st out other h =
        let same : st ≡ out = cc h in
        (
          ap (λ (u : State E.World). T.rows u.world) (sym same),
          ap (λ (u : State E.World). u.heap p) (sym same),
        )
    write_item-LeavesBe p (some null) entry item st out other h =
        let (_, wrapped_ok, _) = continue-eq _ _ _ h in
        absurd (null_unstamped st (wrap_err-eq-ok _ _ wrapped_ok))
    write_item-LeavesBe p (some (at q)) entry item st out other h =
        let ((av, cond), wrapped_ok, h₁) = continue-eq _ _ _ h in
        let stamped = wrap_err-eq-ok _ _ wrapped_ok in
        let (m, found) = stamped_model q st stamped in
        let (_, _, heap, _) = stamp_and_marshal-item E db ctx q m st found in
        let (expr, _, h₂) =
          continue-eq
            (wrap_err "godynamo: transact write: building put condition"
              (E.expression.build none none (some cond) none))
            _ _ h₁ in
        let same : (stamp_and_marshal E db ctx (at q) st).1 ≡ out = cc h₂ in
        let apart : q ≢ p = λ e. other (ap (λ (a : ℕ). some (at a)) e) in
        rw (sym same)
          (stamping_rows E db T ctx q m st found, rw heap (store_at_other q p _ st.heap apart))

    pub write_items-LeavesBe :
        (p : ℕ) (ops : List TransactWriteOp) (items : List TransactWriteItem)
        (st out : State E.World)
        → NotPut p ops
        → write_items E db ctx ops st ≡ (ok items, out)
        → LeavesBe p st out
    unfolding write_items
    write_items-LeavesBe p [] items st out _ h =
        let same : st ≡ out = cc h in
        (
          ap (λ (u : State E.World). T.rows u.world) (sym same),
          ap (λ (u : State E.World). u.heap p) (sym same),
        )
    write_items-LeavesBe p (op ∷ ops) items st out (other, others) h =
        let i = write_items-IsPrepared E db ctx op ops items st out h in
        let (rows, heap) =
          write_item-LeavesBe p op.put op.entry i.item st i.between other i.first in
        let (rows', heap') = write_items-LeavesBe p ops i.rest i.between out others i.others in
        (rows' ∙ rows, heap' ∙ heap)

  -- A queued Put that is prepared carries the item and the condition of its stamping.
  pub write_item-put_of :
      (p : ℕ) (entry item : TransactWriteItem) (st out : State E.World)
      → write_item E db ctx (put_of p entry) st ≡ (ok item, out)
      → (av : Item) × (cond : E.Condition) × (expr : Expression) × ((stamp_and_marshal E db ctx
            (at p)
            st).0
          ≡ ok (av, cond))
        × (E.expression.build none none (some cond) none ≡ ok expr)
        × (item ≡ put_entry (put_input E db av expr))
        × (out ≡ (stamp_and_marshal E db ctx (at p) st).1)
  unfolding write_item
  write_item-put_of p entry item st out h =
      let ((av, cond), wrapped_ok, h₁) = continue-eq _ _ _ h in
      let (expr, built, h₂) =
        continue-eq
          (wrap_err "godynamo: transact write: building put condition"
            (E.expression.build none none (some cond) none))
          _ _ h₁ in
      (av, cond, expr, wrap_err-eq-ok _ _ wrapped_ok, wrap_err-eq-ok _ _ built, cc h₂, cc h₂)
