-- ===== src/Transact/Limits.antt =====
-- The limit of 100 items of a transaction of transact.go.
use godynamo.Prelude.{
  ℕ, ◌<◌, ◌≡◌, refl, false, List, [], ◌∷◌, length, is_empty, lt→ltb, arith, Option-cases, inl, inr,
}
use godynamo.Fault.{err, Error}
use godynamo.Io.{State}
use godynamo.Env.{Env}
use godynamo.Transact.{TransactWriteBuilder, transact_max_items, run_write}
use godynamo.Transact.Reading.{TransactGetBuilder, run_get}

not_empty_of_long : {A : Type 0} (n : ℕ) (xs : List A) → n < length xs → is_empty xs ≡ false
not_empty_of_long n [] h = absurd (omega arith)
not_empty_of_long n (x ∷ xs) h = refl

module _ (E : Env) (ctx : E.Context) where
  -- With more than 100 items queued, a transactional read fails and leaves the world and the memory
  -- as they were: nothing is sent.
  pub run_get-over_limit :
      (b : TransactGetBuilder E) (st : State E.World)
      → 100 < length b.dsts
      → (e : Error) × (run_get E ctx b st ≡ (err e, st))
  unfolding run_get
  run_get-over_limit b st h =
      rw
        (not_empty_of_long transact_max_items b.dsts h, lt→ltb transact_max_items (length b.dsts) h)
        (_, refl)

  -- With more than 100 entries queued, a transactional write fails and leaves the world and the
  -- memory as they were: nothing is sent, and no queued item is stamped.
  pub run_write-over_limit :
      (b : TransactWriteBuilder E) (st : State E.World)
      → 100 < length b.ops
      → (e : Error) × (run_write E ctx b st ≡ (err e, st))
  unfolding run_write
  run_write-over_limit b st h = elim (Option-cases b.failed) [
    | inl fine ↦
        rw
          (
            fine,
            not_empty_of_long transact_max_items b.ops h,
            lt→ltb transact_max_items (length b.ops) h,
          )
          (_, refl)
    | inr (e, failed) ↦ rw failed (_, refl)
  ]
