-- ===== src/Tests/Reading.antt =====
-- Pages, batches, transactions and refusals on a concrete world.
use godynamo.Prelude.{
  ℕ, zero, suc, ◌+◌, ◌≤◌, String, ◌≡◌, ◌⊎◌, ◌↔◌, refl, true, none, some, List, [], ◌∷◌,
}
use godynamo.Fault.{
  ok, Error, sdk, wrapped, transaction_canceled_exception, errors_is, err_optimistic_lock,
  as_transaction_canceled,
}
use godynamo.Sdk.{Item}
use godynamo.ZeroKeys.{item_key}
use godynamo.ZeroKeys.Laws.{IsDefault}
use godynamo.Env.{WriteRequest, delete_request}
use godynamo.Crud.{get, delete}
use godynamo.Update.{UpdateBuilder, run}
use godynamo.Batch
use godynamo.Batch.{BatchWriteBuilder, write_chunk, write_loop, max_rounds}
use godynamo.Batch.Reading.{BatchGetBuilder, get_chunk, get_loop, run_get}
use godynamo.Batch.Retries.{Counts, rounds-enough, chunk-calls}
use godynamo.Transact.{translate_transact_write_err}
use godynamo.Transact.Cancellation.{
  HasFailedCheck, reasons_or_none, translate_transact_write_err-is,
}
use godynamo.Refusal.{IsRefused, operations-IsRefused}
use godynamo.Tests.Fixtures.{task, order}
use godynamo.Tests.Keying.{order_tags, parse_order}
use godynamo.Tests.World.{env, db, start}

order_keyed : ¬ IsDefault order_tags
order_keyed d = cc (d.no_pk)

abbrev change : UpdateBuilder env
change = record { db = db; id = 7; ops = []; version = none }

abbrev reads : BatchGetBuilder env
reads = record { db = db; ids = 7 ∷ 8 ∷ [] }

abbrev writes : BatchWriteBuilder env
writes = record { db = db; ops = []; failed = none }

operations-IsRefused_example :
    IsRefused (get env db "ann" order 7) start
    × IsRefused (delete env db "ann" order 7) start
    × IsRefused (run env "ann" order change) start
    × IsRefused (run_get env "ann" order reads) start
    × ((queued : BatchWriteBuilder env) × (Batch.delete env order (7 ∷ []) writes ≡ ok queued)
        × IsRefused (Batch.run_write env "ann" order queued) start)
operations-IsRefused_example =
    operations-IsRefused env "ann" order order_tags parse_order order_keyed db start 7 change reads
      writes (7 ∷ []) refl

abbrev many {ℓ} : {A : Type ℓ} → ℕ → A → List A
many zero x = []
many (suc n) x = x ∷ many n x

abbrev cancellation : Error
cancellation =
    wrapped "operation error"
      (sdk (transaction_canceled_exception (none ∷ some "ConditionalCheckFailed" ∷ [])))

translate_transact_write_err-is_example :
    (errors_is (translate_transact_write_err cancellation) err_optimistic_lock ≡ true) ↔ (
      HasFailedCheck (reasons_or_none (as_transaction_canceled cancellation))
      ⊎ (errors_is cancellation err_optimistic_lock ≡ true))
translate_transact_write_err-is_example = translate_transact_write_err-is cancellation

abbrev key : String → Item
key k = item_key k k

abbrev keys : List Item
keys = key "a" ∷ key "b" ∷ key "c" ∷ []

abbrev requests : List WriteRequest
requests = many 7 (delete_request (key "a"))

rounds-enough_example :
    (get_chunk env db "ann" task keys ≡ get_loop env db "ann" task (max_rounds + 2) 0 keys [])
    × (write_chunk env db "ann" requests ≡ write_loop env db "ann" (max_rounds + 2) 0 requests)
rounds-enough_example = rounds-enough env db "ann" 2 task keys requests

counts : Counts env db (λ w. w.calls)
counts = record {
  get_counts = λ ctx table ks w. refl;
  write_counts = λ ctx table ws w. refl;
  sleep_counts = λ n w. refl;
}

chunk-calls_example :
    ((get_loop env db "ann" task 100 0 keys [] start).1.world.calls ≤ start.world.calls + 6)
    × ((write_loop env db "ann" 100 0 requests start).1.world.calls ≤ start.world.calls + 6)
chunk-calls_example = chunk-calls env db "ann" (λ w. w.calls) counts 100 task keys requests start
