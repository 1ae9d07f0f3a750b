-- ===== src/Batch.antt =====
-- batch.go: batched writes in chunks, with bounded retries of what stays unprocessed, and what the
-- reads share with them.
pub mod Reading
pub mod Retries
pub mod Limits
pub mod Applied
pub mod Rows
pub mod Answered
use godynamo.Prelude.{
  ℕ, zero, suc, ◌+◌, ◌*◌, String, ◌<>◌, Bool, true, false, Option, none, some, List, [], ◌∷◌, ◌++◌,
  map, length, is_empty, leb, if◌then◌else◌,
}
use godynamo.Fault.{Outcome, ok, err, panic, Error, errorf, wrapped}
use godynamo.Text.{decimal}
use godynamo.Io.{
  Pointer, null, at, State, Io, pure, fail, lift, call, ask, wrapping, map_err, ◌>>=◌, ◌>>◌,
}
use godynamo.Reflect.{Struct, StructType, Uuid}
use godynamo.Sdk.{Item}
use godynamo.ZeroKeys.{item_key, requires_default_key, keys_of}
use godynamo.Env.{Env, WriteRequest, put_request, delete_request, empty_request}
use godynamo.Db.{Db}
use godynamo.Compress.{unmarshal_all}
use godynamo.Crud.{stamp_and_marshal}
use godynamo.Chunks.{for_chunks}

abbrev pub batch_get_max_keys : ℕ
batch_get_max_keys = 100

abbrev pub batch_write_max_requests : ℕ
batch_write_max_requests = 25

abbrev pub batch_max_retries : ℕ
batch_max_retries = 5

-- In milliseconds.
unfoldable pub batch_backoff : ℕ → ℕ
batch_backoff attempt = (attempt + 1) * 10

-- Rounds enough for a chunk: the first call and `batch_max_retries` more.
abbrev pub max_rounds : ℕ
max_rounds = suc batch_max_retries

-- A queued Put has the pointer; a queued Delete has the request, and `null`.
pub record BatchWriteOp : Type 0 where
  pub put : Pointer
  pub request : WriteRequest

pub record BatchWriteBuilder (E : Env) : Type 0 where
  pub db : Db E
  pub ops : List BatchWriteOp
  pub failed : Option Error

module _ (E : Env) where
  open E use {World, Context, runtime}

  -- `BatchWrite[T]`
  unfoldable pub batch_write : Db E → BatchWriteBuilder E
  batch_write db = record { db = db; ops = []; failed = none }

  abbrev put_op : Pointer → BatchWriteOp
  put_op item = record { put = item; request = empty_request }

  abbrev delete_op : Item → BatchWriteOp
  delete_op key = record { put = null; request = delete_request key }

  -- `BatchWriteBuilder.Put`
  unfoldable pub put : List Pointer → BatchWriteBuilder E → BatchWriteBuilder E
  put items b = elim b.failed [ some e ↦ b | none ↦ record b { ops = b.ops ++ map put_op items } ]

  abbrev queue_deletes : BatchWriteBuilder E → Outcome (List Item) → Outcome (BatchWriteBuilder E)
  queue_deletes b (ok keys) = ok (record b { ops = b.ops ++ map delete_op keys })
  queue_deletes b (err e) = err e
  queue_deletes b (panic m) = panic m

  abbrev delete_checked :
      StructType
      → List Uuid
      → BatchWriteBuilder E
      → Outcome (Unit {0})
      → Outcome (BatchWriteBuilder E)
  delete_checked t ids b (ok _) = queue_deletes b (keys_of runtime t ids)
  delete_checked t ids b (err e) = ok (record b { failed = some e })
  delete_checked t ids b (panic m) = panic m

  -- `BatchWriteBuilder.Delete`; computing a key may panic.
  unfoldable pub delete :
      StructType → List Uuid → BatchWriteBuilder E → Outcome (BatchWriteBuilder E)
  delete t ids b = elim b.failed [
    | some e ↦ ok b
    | none ↦ delete_checked t ids b (requires_default_key t "BatchWriteBuilder.Delete")
  ]

  -- The request for one queued entry: a Put is stamped and marshaled now. A nil pointer is not told
  -- apart from a Delete.
  abbrev pub request_of :
      Db E → Context → StructType → Pointer → WriteRequest → Io World WriteRequest
  request_of db ctx t null request = pure request
  request_of db ctx t (at p) request = do
    stamped ← wrapping ("batch write " <> t.name) (stamp_and_marshal E db ctx (at p))
    pure (put_request stamped.0)

  -- The loop of `BatchWriteBuilder.Run` that turns the queue into requests.
  unfoldable pub write_requests :
      Db E → Context → StructType → List BatchWriteOp → Io World (List WriteRequest)
  write_requests db ctx t [] = pure []
  write_requests db ctx t (op ∷ ops) = do
    request ← request_of db ctx t op.put op.request
    requests ← write_requests db ctx t ops
    pure (request ∷ requests)

  -- One round of `BatchWriteBuilder.runChunk`, given what the next one does.
  unfoldable pub write_round :
      Db E
      → Context
      → (List WriteRequest → Io World (Unit {0}))
      → (attempt : ℕ) → List WriteRequest
      → Io World (Unit {0})
  write_round db ctx next attempt request = do
    out ← wrapping "godynamo: batch write" (call (db.client.batch_write_item ctx db.table request))
    let unprocessed = out db.table
    if is_empty unprocessed
        then pure tt
        else if leb batch_max_retries attempt
        then fail (
            errorf (
              "godynamo: "
              <> decimal (length unprocessed)
              <> " write requests still unprocessed after "
              <> decimal batch_max_retries
              <> " retries"))
        else ask (λ w. (tt {0}, E.sleep (batch_backoff attempt) w)) >> next unprocessed

  -- `BatchWriteBuilder.runChunk`, on fuel for its rounds.
  unfoldable pub write_loop :
      Db E → Context → ℕ → (attempt : ℕ) → List WriteRequest → Io World (Unit {0})
  write_loop db ctx zero attempt request = lift (panic "out of fuel")
  write_loop db ctx (suc fuel) attempt request =
      write_round db ctx (λ left. write_loop db ctx fuel (attempt + 1) left) attempt request

  unfoldable pub write_chunk : Db E → Context → List WriteRequest → Io World (Unit {0})
  write_chunk db ctx writes = write_loop db ctx max_rounds 0 writes

  abbrev pub write_body :
      Db E → Context → StructType → List WriteRequest → Unit {0} → Io World (Unit {0})
  write_body db ctx t chunk _ = wrapping ("batch write " <> t.name) (write_chunk db ctx chunk)

  abbrev pub write_unless_failed :
      Context → StructType → BatchWriteBuilder E → Option Error → Io World (Unit {0})
  write_unless_failed ctx t b (some e) = fail (wrapped ("batch write " <> t.name) e)
  write_unless_failed ctx t b none =
      let send : Io World (Unit {0}) = write_requests b.db ctx t b.ops >>= λ writes.
      for_chunks batch_write_max_requests writes (write_body b.db ctx t) (length writes) 0 tt in
      if is_empty b.ops then pure tt else send

  -- `BatchWriteBuilder.Run`
  unfoldable pub run_write : Context → StructType → BatchWriteBuilder E → Io World (Unit {0})
  run_write ctx t b = write_unless_failed ctx t b b.failed
