-- ===== src/Batch/Limits.antt =====
-- The chunks that the loops of batch.go send.
use godynamo.Prelude.{
  ℕ, ◌≤◌, ◌<◌, ◌≡◌, ◌≢◌, refl, false, none, List, [], ◌∷◌, arith, length, is_empty, concat, All,
}
use godynamo.Fault.{ok}
use godynamo.Io.{State}
use godynamo.Reflect.{StructType}
use godynamo.Sdk.{Item}
use godynamo.ZeroKeys.{requires_default_key, keys_of}
use godynamo.Env.{Env, WriteRequest}
use godynamo.Chunks.Partition.{chunks, for_each, concat-chunks, for_chunks-eq}
use godynamo.Batch.{
  batch_get_max_keys, batch_write_max_requests, BatchWriteBuilder, write_requests, write_body,
  run_write,
}
use godynamo.Batch.Reading.{BatchGetBuilder, get_body, run_get}

-- Cutting the list gives these pieces, none of them empty or longer than `size`.
pub record IsCutInto {A : Type 0} (size : ℕ) (xs : List A) (pieces : List (List A)) : Type 0 where
  pub whole : concat pieces ≡ xs
  pub sized : All (λ (piece : List A). (0 < length piece) × (length piece ≤ size)) pieces

cut_chunks :
    {A : Type 0} (size : ℕ) (xs : List A)
    → 0 < size
    → IsCutInto size xs (chunks size (length xs) xs)
cut_chunks size xs pos =
    let (whole, sized) = concat-chunks size (length xs) xs pos (omega arith) in
    record { whole = whole; sized = sized }

not_empty : {A : Type 0} (xs : List A) → xs ≢ [] → is_empty xs ≡ false
not_empty [] h = absurd (h refl)
not_empty (x ∷ xs) h = refl

module _ (E : Env) (ctx : E.Context) (t : StructType) where
  -- A batch read with IDs queued fetches the keys of all IDs, in order, in pieces of at most 100
  -- keys, none of them empty, and appends what the pieces give; the first failure ends it.
  pub run_get-pieces :
      (b : BatchGetBuilder E) (keys : List Item) (st : State E.World)
      → b.ids ≢ []
      → requires_default_key t "BatchGetBuilder.Run" ≡ ok tt
      → keys_of E.runtime t b.ids ≡ ok keys
      → (pieces : List (List Item)) × IsCutInto 100 keys pieces
        × (run_get E ctx t b st ≡ for_each (get_body E b.db ctx t) pieces [] st)
  unfolding run_get
  run_get-pieces b keys st some_ids allowed computed = (
    chunks batch_get_max_keys (length keys) keys,
    cut_chunks batch_get_max_keys keys (omega arith),
    rw
        (
          allowed,
          not_empty b.ids some_ids,
          computed,
          for_chunks-eq batch_get_max_keys keys (get_body E b.db ctx t) (length keys) 0 [],
        )
        refl,
  )

  -- A batch write that has no error recorded turns its queue into requests and, if that succeeds,
  -- sends all of them, in order, in pieces of at most 25 requests, none of them empty; the first
  -- failure ends it.
  pub run_write-pieces :
      (b : BatchWriteBuilder E) (writes : List WriteRequest) (st st' : State E.World)
      → b.failed ≡ none
      → b.ops ≢ []
      → write_requests E b.db ctx t b.ops st ≡ (ok writes, st')
      → (pieces : List (List WriteRequest)) × IsCutInto 25 writes pieces
        × (run_write E ctx t b st ≡ for_each (write_body E b.db ctx t) pieces tt st')
  unfolding run_write
  run_write-pieces b writes st st' fine some_ops built = (
    chunks batch_write_max_requests (length writes) writes,
    cut_chunks batch_write_max_requests writes (omega arith),
    rw
        (
          fine,
          not_empty b.ops some_ops,
          built,
          for_chunks-eq batch_write_max_requests writes (write_body E b.db ctx t) (length writes) 0
              tt,
        )
        refl,
  )
