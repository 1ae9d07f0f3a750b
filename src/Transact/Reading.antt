-- ===== src/Transact/Reading.antt =====
-- The `TransactGetBuilder` of transact.go.
use godynamo.Prelude.{ℕ, ◌+◌, ◌<>◌, List, [], ◌∷◌, ◌++◌, length, is_empty, ltb, if◌then◌else◌}
use godynamo.Fault.{ok, panic, errorf}
use godynamo.Text.{decimal}
use godynamo.Io.{Pointer, null, at, store_at, Io, pure, fail, lift, call, wrapping, ◌>>=◌, ◌>>◌}
use godynamo.Sdk.{Item}
use godynamo.Env.{Env, KeyInput}
use godynamo.Db.{Db}
use godynamo.Compress.{unmarshal_item_into}
use godynamo.Transact.{transact_max_items, key_of}

pub record TransactGetBuilder (E : Env) : Type 0 where
  pub db : Db E
  pub dsts : List Pointer

module _ (E : Env) where
  open E use {World, Context, runtime, expression}

  -- `TransactGet` and `TransactGetBuilder.Get`
  unfoldable pub transact_get : Db E → TransactGetBuilder E
  transact_get db = record { db = db; dsts = [] }

  unfoldable pub get : Pointer → TransactGetBuilder E → TransactGetBuilder E
  get dst b = record b { dsts = b.dsts ++ (dst ∷ []) }

  unfoldable pub get_items : Db E → List Pointer → Io World (List KeyInput)
  get_items db [] st = (ok [], st)
  get_items db (dst ∷ dsts) st =
      let rest = get_items db dsts in
      (do
        key ← lift (key_of E st.heap dst)
        items ← rest
        pure (record { table_name = db.table; key = key } ∷ items))
        st

  -- `unmarshalItemInto(item, dst)`: what it wrote before a failure stays. The text of
  -- the panic goes on with the type of the pointer.
  unfoldable pub unmarshal_at : Item → Pointer → Io World (Unit {0})
  unmarshal_at item null st = (panic "godynamo: unmarshalItemInto requires a non-nil pointer", st)
  unmarshal_at item (at p) st =
      let (r, v) = unmarshal_item_into runtime item (st.heap p) in
      (r, record st { heap = store_at p v st.heap })

  -- The loop that fills the destinations, from index `i`.
  unfoldable pub fill : ℕ → List Pointer → List Item → Io World (Unit {0})
  fill i [] responses = pure tt
  fill i (dst ∷ dsts) [] = pure tt
  fill i (dst ∷ dsts) (item ∷ responses) =
      let rest = fill (i + 1) dsts responses in
      if is_empty item
      then rest
      else wrapping ("godynamo: transact get: unmarshal item " <> decimal i) (unmarshal_at item dst)
        >> rest

  abbrev pub fetch_all : Context → TransactGetBuilder E → Io World (Unit {0})
  fetch_all ctx b = do
    items ← get_items b.db b.dsts
    responses ← wrapping "godynamo: transact get" (call (b.db.client.transact_get_items ctx items))
    fill 0 b.dsts responses

  -- `TransactGetBuilder.Run`
  unfoldable pub run_get : Context → TransactGetBuilder E → Io World (Unit {0})
  run_get ctx b =
      if is_empty b.dsts
      then pure tt
      else if ltb transact_max_items (length b.dsts)
      then fail (
          errorf (
            "godynamo: transact get: "
            <> decimal (length b.dsts)
            <> " items queued, exceeds the "
            <> decimal transact_max_items
            <> "-item TransactGetItems limit (no auto-chunking — would break atomicity)"))
      else fetch_all ctx b
