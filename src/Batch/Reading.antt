-- ===== src/Batch/Reading.antt =====
-- The `BatchGetBuilder` of batch.go.
use godynamo.Prelude.{ℕ, zero, suc, ◌+◌, ◌<>◌, List, [], ◌++◌, length, is_empty, leb, if◌then◌else◌}
use godynamo.Fault.{panic, errorf}
use godynamo.Text.{decimal}
use godynamo.Io.{Io, pure, fail, lift, call, ask, wrapping, ◌>>=◌, ◌>>◌}
use godynamo.Reflect.{Struct, StructType, Uuid}
use godynamo.Sdk.{Item}
use godynamo.ZeroKeys.{requires_default_key, keys_of}
use godynamo.Env.{Env}
use godynamo.Db.{Db}
use godynamo.Compress.{unmarshal_all}
use godynamo.Chunks.{for_chunks}
use godynamo.Batch.{batch_get_max_keys, batch_max_retries, batch_backoff, max_rounds}

pub record BatchGetBuilder (E : Env) : Type 0 where
  pub db : Db E
  pub ids : List Uuid

module _ (E : Env) where
  open E use {World, Context, runtime}

  -- `BatchGet[T]` and `IDs`
  unfoldable pub batch_get : Db E → BatchGetBuilder E
  batch_get db = record { db = db; ids = [] }

  unfoldable pub ids : List Uuid → BatchGetBuilder E → BatchGetBuilder E
  ids more b = record b { ids = b.ids ++ more }

  -- One round of `BatchGetBuilder.runChunk`, given what the next one does.
  unfoldable pub get_round :
      Db E
      → Context
      → StructType
      → (List Item → List Struct → Io World (List Struct))
      → (attempt : ℕ) → List Item
      → List Struct
      → Io World (List Struct)
  get_round db ctx t next attempt request items = do
    out ← wrapping "godynamo: batch get" (call (db.client.batch_get_item ctx db.table request))
    found ← lift (unmarshal_all runtime t (out.responses db.table))
    let unprocessed = out.unprocessed_keys db.table
    if is_empty unprocessed
        then pure (items ++ found)
        else if leb batch_max_retries attempt
        then fail (
            errorf (
              "godynamo: "
              <> decimal (length unprocessed)
              <> " keys still unprocessed after "
              <> decimal batch_max_retries
              <> " retries"))
        else ask (λ w. (tt {0}, E.sleep (batch_backoff attempt) w))
          >> next unprocessed (items ++ found)

  -- `BatchGetBuilder.runChunk`, on fuel for its rounds.
  unfoldable pub get_loop :
      Db E
      → Context
      → StructType
      → ℕ
      → (attempt : ℕ) → List Item
      → List Struct
      → Io World (List Struct)
  get_loop db ctx t zero attempt request items = lift (panic "out of fuel")
  get_loop db ctx t (suc fuel) attempt request items =
      get_round db ctx t (λ left found. get_loop db ctx t fuel (attempt + 1) left found) attempt
        request items

  unfoldable pub get_chunk : Db E → Context → StructType → List Item → Io World (List Struct)
  get_chunk db ctx t keys = get_loop db ctx t max_rounds 0 keys []

  abbrev pub get_body :
      Db E → Context → StructType → List Item → List Struct → Io World (List Struct)
  get_body db ctx t chunk items = do
    found ← wrapping ("batch get " <> t.name) (get_chunk db ctx t chunk)
    pure (items ++ found)

  -- `BatchGetBuilder.Run`
  unfoldable pub run_get : Context → StructType → BatchGetBuilder E → Io World (List Struct)
  run_get ctx t b = do
    lift (requires_default_key t "BatchGetBuilder.Run")
    let fetch : Io World (List Struct) = do
      keys ← lift (keys_of runtime t b.ids)
      for_chunks batch_get_max_keys keys (get_body b.db ctx t) (length keys) 0 []
    if is_empty b.ids then pure [] else fetch
