-- ===== src/Table/Retried.antt =====
-- `Put` of crud.go and the transactional writes of transact.go, tried again with the struct as the
-- first try left it.
use godynamo.Prelude.{
  ℕ, ◌+◌, ◌%◌, ◌≤◌, ◌≡◌, ◌≢◌, sym, ap, ◌∙◌, none, some, List, ◌∷◌, ◌++◌, length, arith, ◌==◌,
  ==_iff, inl, inr, true, false, Option,
}
use godynamo.Fault.{Outcome, ok}
use godynamo.Io.{at, State}
use godynamo.Reflect.{Model, Struct, StructType, int_mod, model_of}
use godynamo.Sdk.{Item}
use godynamo.Tags.{ModelTags}
use godynamo.ZeroKeys.Laws.{id_key}
use godynamo.Env.{Env, TransactWriteItem}
use godynamo.Db.{Db}
use godynamo.Crud.{put, stamp_and_marshal}
use godynamo.Crud.Stamping.{stamp_and_marshal-item}
use godynamo.Crud.Putting.{put-heap}
use godynamo.Transact.{TransactWriteOp, TransactWriteBuilder, write_items, run_write}
use godynamo.Transact.Prepared.{append_not_empty, run_write-prepared, write_items-IsSplit}
use godynamo.Table.{Table, version_in, HasOwnIndex}
use godynamo.Table.Accepted.{AsExpected, KeepsVersion}
use godynamo.Table.Stamped.{
  HasDefaultKey, HasDefaultType, HasDefaultType-HasDefaultKey, stamp-HasDefaultType,
}
use godynamo.Table.Located.{put-IsStored}
use godynamo.Table.Preparing.{NotPut, put_of, write_items-LeavesBe, write_item-put_of}
use godynamo.Table.Transacted.{Transacts, run_write-RowIsPut}

module _ (E : Env) (db : Db E) (T : Table E db) (own : HasOwnIndex E db) (t : StructType)
    (mt : ModelTags) (keeps : KeepsVersion t) where
  -- A struct as stamping leaves it: it does not expect the row that it expected before.
  record IsSpent (m n : Model) (v : Struct) : Type 0 where
    item : HasDefaultKey t mt n v
    unexpected : (row : Option Item) → AsExpected E db T m row → AsExpected E db T n row → ⊥

  new_unexpected :
      (m n : Model) (row : Option Item)
      → m.created_at ≡ 0
      → n.created_at ≢ 0
      → AsExpected E db T m row
      → AsExpected E db T n row
      → ⊥
  new_unexpected m n row new later before after =
      let test : (m.created_at == 0) ≡ true = (==_iff m.created_at 0).1 new in
      let test' : (n.created_at == 0) ≡ false = ground arith in
      let absent : row ≡ none = rw test at before in
      let there : version_in T.number_of row ≡ some n.version = rw test' at after in
      cc (rw absent at there)

  old_unexpected :
      (m n : Model) (row : Option Item)
      → m.created_at ≢ 0
      → n.created_at ≢ 0
      → n.version ≡ (m.version + 1) % int_mod
      → AsExpected E db T m row
      → AsExpected E db T n row
      → ⊥
  old_unexpected m n row old later next before after =
      let test : (m.created_at == 0) ≡ false = ground arith in
      let test' : (n.created_at == 0) ≡ false = ground arith in
      let had : version_in T.number_of row ≡ some m.version = rw test at before in
      let has : version_in T.number_of row ≡ some n.version = rw test' at after in
      let same : m.version ≡ n.version = cc (had, has) in omega (arith, same, next)

  stamp-IsSpent :
      (ctx : E.Context) (p : ℕ) (m : Model) (st : State E.World)
      → HasDefaultType t mt m (st.heap p)
      → (db.clock st.world).0 ≢ 0
      → (n : Model) × IsSpent m n ((stamp_and_marshal E db ctx (at p) st).1.heap p)
  stamp-IsSpent ctx p m st h now =
      let (n, has, _, either) = stamp_and_marshal-item E db ctx p m st h.found in
      let later : n.created_at ≢ 0 = elim either [
        | inl (_, made) ↦ λ z. now (sym made.created_at ∙ z)
        | inr (old, rewritten) ↦ λ z. old (sym rewritten.created_at_kept ∙ z)
      ] in
      (
        n,
        record {
          item =
              HasDefaultType-HasDefaultKey (stamp-HasDefaultType E db ctx t mt p m st n h has)
                (λ z. absurd (later z));
          unexpected = λ row before after. elim either [
            | inl (new, _) ↦ new_unexpected m n row new later before after
            | inr (old, rewritten) ↦ old_unexpected m n row old later rewritten.version before after
          ];
        },
      )

  spent_again :
      (ctx : E.Context) (p : ℕ) (m n n' : Model) (later : State E.World)
      → HasDefaultKey t mt n' (later.heap p)
      → model_of (later.heap p) ≡ some n
      → ((row : Option Item) → AsExpected E db T m row → AsExpected E db T n' row → ⊥)
      → AsExpected E db T m (
          T.rows later.world
            (id_key E.runtime mt.struct_name n.id)
            (id_key E.runtime mt.struct_name n.id))
      → (put E db ctx t (at p) later).0 ≢ ok tt
  spent_again ctx p m n n' later item has unexpected expected success =
      let same : n ≡ n' = cc (has, item.found) in
      let a = put-IsStored E db T own ctx t mt keeps p n' later item success in
      unexpected _ (rw same at expected) a.as_expected

  -- A Put is not repeatable: in a table whose index attribute is none of PK, SK and Version, let an
  -- entity be put under a clock that is not zero, with an ID or without, of a type with the default
  -- keys that stores the version of its `Model`, whatever the outcome. In any later state that has
  -- the struct as it was left, and the row under the key of its ID as the first Put expected it, a
  -- Put of the struct fails.
  pub put-after_put :
      (ctx ctx' : E.Context) (p : ℕ) (m n : Model) (st later : State E.World)
      → HasDefaultType t mt m (st.heap p)
      → (db.clock st.world).0 ≢ 0
      → later.heap p ≡ (put E db ctx t (at p) st).1.heap p
      → model_of (later.heap p) ≡ some n
      → AsExpected E db T m (
          T.rows later.world
            (id_key E.runtime mt.struct_name n.id)
            (id_key E.runtime mt.struct_name n.id))
      → (put E db ctx' t (at p) later).0 ≢ ok tt
  put-after_put ctx ctx' p m n st later h now left has expected success =
      let (n', spent) = stamp-IsSpent ctx p m st h now in
      let item : HasDefaultKey t mt n' (later.heap p) =
        rw (left, put-heap E db ctx t p st) spent.item in
      spent_again ctx' p m n n' later item has spent.unexpected expected success

  module _ (X : Transacts E db T) (p : ℕ) (m : Model) where
    abbrev transaction :
        (earlier later : List TransactWriteOp) → TransactWriteItem → TransactWriteBuilder E
    transaction earlier later entry = record {
      db = db;
      ops = earlier ++ (put_of p entry ∷ later);
      failed = none;
    }

    -- Preparing a queue leaves a struct that it puts once spent.
    prepared-IsSpent :
        (ctx : E.Context) (earlier later : List TransactWriteOp) (entry : TransactWriteItem)
        (items : List TransactWriteItem) (st prepared : State E.World)
        → HasDefaultType t mt m (st.heap p)
        → ((w : E.World) → (db.clock w).0 ≢ 0)
        → NotPut p earlier
        → NotPut p later
        → write_items E db ctx (earlier ++ (put_of p entry ∷ later)) st ≡ (ok items, prepared)
        → (n : Model) × IsSpent m n (prepared.heap p)
    prepared-IsSpent ctx earlier later entry items st prepared h clock before after prepares =
        let i =
          write_items-IsSplit E db ctx earlier (put_of p entry) later items st prepared prepares in
        let (_, heap₁) =
          write_items-LeavesBe E db ctx T p earlier i.items₁ st i.st₁ before i.prepares₁ in
        let h₁ : HasDefaultType t mt m (i.st₁.heap p) = rw heap₁ h in
        let (_, _, _, _, _, _, is_st₂) =
          write_item-put_of E db ctx p entry i.item i.st₁ i.st₂ i.prepares in
        let (_, heap₂) =
          write_items-LeavesBe E db ctx T p later i.items₂ i.st₂ prepared after i.prepares₂ in
        rw (heap₂, is_st₂) (stamp-IsSpent ctx p m i.st₁ h₁ (clock i.st₁.world))

    -- A transactional write whose entries are prepared leaves the structs as the preparing does.
    run_write-heap :
        (ctx : E.Context) (earlier later : List TransactWriteOp) (entry : TransactWriteItem)
        (items : List TransactWriteItem) (st prepared : State E.World)
        → length (earlier ++ (put_of p entry ∷ later)) ≤ 100
        → write_items E db ctx (earlier ++ (put_of p entry ∷ later)) st ≡ (ok items, prepared)
        → (run_write E ctx (transaction earlier later entry) st).1.heap ≡ prepared.heap
    run_write-heap ctx earlier later entry items st prepared few prepares =
        ap (λ (r : Outcome (Unit {0}) × State E.World). r.1.heap)
          (run_write-prepared E db ctx (earlier ++ (put_of p entry ∷ later)) items st prepared
            (append_not_empty earlier (put_of p entry) later) few prepares)

    -- A transactional write is not repeatable: in a table whose index attribute is none of PK, SK
    -- and Version, let the entries of one, at most 100, have been prepared without an error under
    -- clocks that are not zero, whatever then came of its call, where it puts once an entity, with
    -- an ID or without, of a type with the default keys that stores the version of its `Model`. In
    -- any later state that has the struct as it was left, and the row under the key of its ID as
    -- the first transaction expected it, every transactional write fails that puts the struct once.
    pub run_write-after_run_write :
        (ctx ctx' : E.Context) (earlier later earlier' later' : List TransactWriteOp)
        (entry entry' : TransactWriteItem) (items : List TransactWriteItem) (n : Model)
        (st prepared again : State E.World)
        → HasDefaultType t mt m (st.heap p)
        → ((w : E.World) → (db.clock w).0 ≢ 0)
        → NotPut p earlier
        → NotPut p later
        → NotPut p earlier'
        → NotPut p later'
        → length (earlier ++ (put_of p entry ∷ later)) ≤ 100
        → write_items E db ctx (earlier ++ (put_of p entry ∷ later)) st ≡ (ok items, prepared)
        → again.heap p ≡ (run_write E ctx (transaction earlier later entry) st).1.heap p
        → model_of (again.heap p) ≡ some n
        → AsExpected E db T m (
            T.rows again.world
              (id_key E.runtime mt.struct_name n.id)
              (id_key E.runtime mt.struct_name n.id))
        → (run_write E ctx' (transaction earlier' later' entry') again).0 ≢ ok tt
    run_write-after_run_write ctx ctx' earlier later earlier' later' entry entry' items n st
          prepared again h clock before after before' after' few prepares left has expected
          success =
        let (n', spent) =
          prepared-IsSpent ctx earlier later entry items st prepared h clock before after
            prepares in
        let heap = run_write-heap ctx earlier later entry items st prepared few prepares in
        let item : HasDefaultKey t mt n' (again.heap p) = rw (left, heap) spent.item in
        let same : n ≡ n' = cc (has, item.found) in
        let second = run_write E ctx' (transaction earlier' later' entry') again in
        let a =
          run_write-RowIsPut E db T X own ctx' t mt keeps p n' earlier' later' entry' none again
            second.1 item before' after' (ap (λ (o : Outcome (Unit {0})). (o, second.1)) success) in
        spent.unexpected _ (rw same at expected) a.as_expected
