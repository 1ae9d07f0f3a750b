-- ===== src/Transact/Prepared.antt =====
-- The preparing of the entries of a transactional write of transact.go, taken apart: one entry and
-- the others, and the entries before and after one.
use godynamo.Prelude.{
  is_empty, length, ◌≤◌, le→ltb, none, false, ◌≡◌, refl, sym, ap, List, [], ◌∷◌, ◌++◌,
}
use godynamo.Fault.{Outcome, ok, map_err}
use godynamo.Io.{State, continue-eq}
use godynamo.Env.{Env, TransactWriteItem}
use godynamo.Db.{Db}
use godynamo.Transact.{
  TransactWriteOp, write_item, write_items, run_write, transact_max_items,
  translate_transact_write_err,
}

pub append_not_empty :
    {A : Type 0} (xs : List A) (y : A) (ys : List A) → is_empty (xs ++ (y ∷ ys)) ≡ false
append_not_empty [] y ys = refl
append_not_empty (x ∷ xs) y ys = refl

module _ (E : Env) (db : Db E) (ctx : E.Context) where
  -- The preparing of a queue is that of its first entry and that of the others.
  pub record IsPrepared (op : TransactWriteOp) (ops : List TransactWriteOp)
      (items : List TransactWriteItem) (st out : State E.World) : Type 0 where
    pub item : TransactWriteItem
    pub rest : List TransactWriteItem
    pub between : State E.World
    pub first : write_item E db ctx op st ≡ (ok item, between)
    pub others : write_items E db ctx ops between ≡ (ok rest, out)
    pub whole : items ≡ item ∷ rest

  pub write_items-IsPrepared :
      (op : TransactWriteOp) (ops : List TransactWriteOp) (items : List TransactWriteItem)
      (st out : State E.World)
      → write_items E db ctx (op ∷ ops) st ≡ (ok items, out)
      → IsPrepared op ops items st out
  unfolding write_items
  write_items-IsPrepared op ops items st out h =
      let made = write_item E db ctx op st in
      let (item, e, h₁) = continue-eq made.0 _ _ h in
      let others = write_items E db ctx ops made.1 in
      let (rest, e', h₂) = continue-eq others.0 _ _ h₁ in
      let same : others.1 ≡ out = cc h₂ in
      record {
        item = item;
        rest = rest;
        between = made.1;
        first = ap (λ (o : Outcome TransactWriteItem). (o, made.1)) e;
        others = rw (sym same) (ap (λ (o : Outcome (List TransactWriteItem)). (o, others.1)) e');
        whole = cc h₂;
      }

  write_items-cons :
      (op : TransactWriteOp) (ops : List TransactWriteOp) (item : TransactWriteItem)
      (rest : List TransactWriteItem) (st between out : State E.World)
      → write_item E db ctx op st ≡ (ok item, between)
      → write_items E db ctx ops between ≡ (ok rest, out)
      → write_items E db ctx (op ∷ ops) st ≡ (ok (item ∷ rest), out)
  unfolding write_items
  write_items-cons op ops item rest st between out e e' = rw (e, e') refl

  -- The preparing of a queue, at one of its entries.
  pub record IsSplit (earlier : List TransactWriteOp) (op : TransactWriteOp)
      (later : List TransactWriteOp) (items : List TransactWriteItem) (st out : State E.World)
      : Type 0 where
    pub items₁ : List TransactWriteItem
    pub item : TransactWriteItem
    pub items₂ : List TransactWriteItem
    pub st₁ : State E.World
    pub st₂ : State E.World
    pub prepares₁ : write_items E db ctx earlier st ≡ (ok items₁, st₁)
    pub prepares : write_item E db ctx op st₁ ≡ (ok item, st₂)
    pub prepares₂ : write_items E db ctx later st₂ ≡ (ok items₂, out)
    pub whole : items ≡ items₁ ++ (item ∷ items₂)

  pub write_items-IsSplit :
      (earlier : List TransactWriteOp) (op : TransactWriteOp) (later : List TransactWriteOp)
      (items : List TransactWriteItem) (st out : State E.World)
      → write_items E db ctx (earlier ++ (op ∷ later)) st ≡ (ok items, out)
      → IsSplit earlier op later items st out
  unfolding write_items
  write_items-IsSplit [] op later items st out h =
      let i = write_items-IsPrepared op later items st out h in
      record {
        items₁ = [];
        item = i.item;
        items₂ = i.rest;
        st₁ = st;
        st₂ = i.between;
        prepares₁ = refl;
        prepares = i.first;
        prepares₂ = i.others;
        whole = i.whole;
      }
  write_items-IsSplit (first ∷ earlier) op later items st out h =
      let i = write_items-IsPrepared first (earlier ++ (op ∷ later)) items st out h in
      let split = write_items-IsSplit earlier op later i.rest i.between out i.others in
      record {
        items₁ = i.item ∷ split.items₁;
        item = split.item;
        items₂ = split.items₂;
        st₁ = split.st₁;
        st₂ = split.st₂;
        prepares₁ =
            write_items-cons first earlier i.item split.items₁ st i.between split.st₁ i.first
              split.prepares₁;
        prepares = split.prepares;
        prepares₂ = split.prepares₂;
        whole = cc (i.whole, split.whole);
      }

  -- A queue with at most 100 entries that are prepared without an error is sent in one call, whose
  -- error is translated.
  pub run_write-prepared :
      (ops : List TransactWriteOp) (items : List TransactWriteItem) (st prepared : State E.World)
      → is_empty ops ≡ false
      → length ops ≤ 100
      → write_items E db ctx ops st ≡ (ok items, prepared)
      → run_write E ctx (record { db = db; ops = ops; failed = none }) st ≡ (
        map_err translate_transact_write_err
            (db.client.transact_write_items ctx items prepared.world).0,
        record prepared { world = (db.client.transact_write_items ctx items prepared.world).1 },
      )
  unfolding run_write
  run_write-prepared ops items st prepared some_entry few prepares =
      rw (some_entry, le→ltb transact_max_items (length ops) few, prepares) refl
