-- ===== src/Transact/Sending.antt =====
-- What a transactional write of transact.go sends for its queue.
use godynamo.Prelude.{
  ◌≤◌, ◌≡◌, sym, ap, inl, inr, ◌⊎◌, Option, none, some, List, [], ◌∷◌, length, is_empty, ltb,
  Bool-cases, Option-cases, is_empty-eq-true, not_ltb→le,
}
use godynamo.Fault.{Outcome, ok, wrap_err-eq-ok, map_err-eq-ok}
use godynamo.Io.{State, Pointer, continue-eq, continue-eq-ok}
use godynamo.Sdk.{Item}
use godynamo.Env.{Env, Expression, TransactWriteItem, put_entry}
use godynamo.Db.{Db}
use godynamo.Crud.{stamp_and_marshal, put_input}
use godynamo.Transact.{
  TransactWriteOp, TransactWriteBuilder, transact_max_items, write_item, write_items, write_all,
  run_write,
}

module _ (E : Env) (db : Db E) (ctx : E.Context) where
  -- An entry that was built when it was queued is sent as it is; a queued Put is sent as a Put of
  -- what stamping the item gave in some state, with the condition that the stamping gave.
  abbrev pub IsSentFor : Option Pointer → TransactWriteItem → TransactWriteItem → Type 0
  IsSentFor none entry item = item ≡ entry
  IsSentFor (some p) entry item =
      (st : State E.World) × (av : Item) × (cond : E.Condition) × (expr : Expression)
      × ((stamp_and_marshal E db ctx p st).0 ≡ ok (av, cond))
      × (E.expression.build none none (some cond) none ≡ ok expr)
      × (item ≡ put_entry (put_input E db av expr))

  -- Entry by entry, with none left over.
  abbrev pub AllSent : List TransactWriteOp → List TransactWriteItem → Type 0
  AllSent [] [] = Unit
  AllSent (op ∷ ops) (item ∷ items) = IsSentFor op.put op.entry item × AllSent ops items
  AllSent _ _ = ⊥

  write_item-IsSentFor :
      (o : Option Pointer) (entry : TransactWriteItem) (st : State E.World)
      (item : TransactWriteItem)
      → (write_item E db ctx (record { put = o; entry = entry }) st).0 ≡ ok item
      → IsSentFor o entry item
  unfolding write_item
  write_item-IsSentFor none entry st item h = cc
  write_item-IsSentFor (some p) entry st item h =
      let (stamped, e, h1) = continue-eq-ok _ _ _ h in
      let (expr, e', h2) = continue-eq-ok _ _ _ h1 in
      (st, stamped.0, stamped.1, expr, wrap_err-eq-ok _ _ e, wrap_err-eq-ok _ _ e', cc)

  -- If the entries of a transactional write are prepared without an error, there is one for each
  -- that was queued, in the same order: those that were built when they were queued are as they
  -- were, and each queued Put carries the item and the condition of its stamping.
  pub write_items-AllSent :
      (ops : List TransactWriteOp) (st : State E.World) (items : List TransactWriteItem)
      → (write_items E db ctx ops st).0 ≡ ok items
      → AllSent ops items
  unfolding write_items
  write_items-AllSent [] st [] h = tt
  write_items-AllSent [] st (item ∷ items) h = absurd (cc)
  write_items-AllSent (op ∷ ops) st items h =
      let (item, e, h₁) = continue-eq-ok (write_item E db ctx op st).0 _ _ h in
      let (rest, e', h₂) = continue-eq-ok (write_items E db ctx ops _).0 _ _ h₁ in
      let same : items ≡ item ∷ rest = cc h₂ in
      rw same (write_item-IsSentFor op.put op.entry st item e, write_items-AllSent ops _ rest e')

module _ (E : Env) (ctx : E.Context) (b : TransactWriteBuilder E) where
  -- One call with the entries of the queue, prepared in order, at most 100 of them.
  pub record IsSent (st out : State E.World) : Type 0 where
    pub within_limit : length b.ops ≤ 100
    pub items : List TransactWriteItem
    pub prepared : State E.World
    pub prepares : write_items E b.db ctx b.ops st ≡ (ok items, prepared)
    pub all_sent : AllSent E b.db ctx b.ops items
    pub sent : (b.db.client.transact_write_items ctx items prepared.world).0 ≡ ok tt
    pub after :
        out
        ≡ record prepared { world = (b.db.client.transact_write_items ctx items prepared.world).1 }

  write_all-IsSent :
      (st out : State E.World)
      → length b.ops ≤ 100
      → write_all E ctx b st ≡ (ok tt, out)
      → IsSent st out
  write_all-IsSent st out within h =
      let made = write_items E b.db ctx b.ops st in
      let (items, e, h₁) = continue-eq made.0 _ _ h in
      record {
        within_limit = within;
        items = items;
        prepared = made.1;
        prepares = ap (λ (o : Outcome (List TransactWriteItem)). (o, made.1)) e;
        all_sent = write_items-AllSent E b.db ctx b.ops st items e;
        sent = map_err-eq-ok _ _ (ap (λ (r : Outcome (Unit {0}) × State E.World). r.0) h₁);
        after = sym (ap (λ (r : Outcome (Unit {0}) × State E.World). r.1) h₁);
      }

  -- A transactional write that succeeds has recorded no error, and either had nothing queued and has
  -- done nothing, or it had at most 100 entries queued and has made one call, which succeeded, with
  -- one entry for each that was queued, in the same order: those that were built when they were
  -- queued are as they were, and each queued Put carries the item and the condition of its stamping.
  pub run_write-IsSent :
      (st out : State E.World)
      → run_write E ctx b st ≡ (ok tt, out)
      → (b.failed ≡ none) × (((b.ops ≡ []) × (out ≡ st)) ⊎ IsSent st out)
  unfolding run_write
  run_write-IsSent st out h = elim (Option-cases b.failed) [
    | inl fine ↦ elim (Bool-cases (is_empty b.ops)) [
      | inl nothing ↦ (fine, inl (is_empty-eq-true b.ops nothing, cc (rw (fine, nothing) at h)))
      | inr queued ↦ elim (Bool-cases (ltb transact_max_items (length b.ops))) [
        | inl over ↦ absurd (cc (rw (fine, queued, over) at h))
        | inr within ↦
            let at_most = not_ltb→le transact_max_items (length b.ops) within in
            (fine, inr (write_all-IsSent st out at_most (rw (fine, queued, within) at h)))
      ]
    ]
    | inr (e, failed) ↦ absurd (cc (rw failed at h))
  ]
