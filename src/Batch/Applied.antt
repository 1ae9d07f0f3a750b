-- ===== src/Batch/Applied.antt =====
-- Batch writes of batch.go on a client that does what it says of each request: it applies it, or
-- hands it back as unprocessed.
use godynamo.Prelude.{
  ℕ, zero, suc, ◌+◌, ◌≡◌, ◌≢◌, String, none, List, [], ◌∷◌, ◌++◌, is_empty, is_empty-eq-true, leb,
  concat, append_assoc, append-nil, Bool-cases, inl, inr,
}
use mathlib.Core.List.{Perm}
use mathlib.Core.List.Perm
use godynamo.Fault.{ok, wrap_err, wrap_err-eq-ok}
use godynamo.Io.{State, Io, continue-eq-ok}
use godynamo.Reflect.{StructType}
use godynamo.Env.{Env, WriteRequest}
use godynamo.Db.{Db}
use godynamo.Chunks.Partition.{for_each}
use godynamo.Batch.{
  batch_max_retries, batch_backoff, max_rounds, BatchWriteBuilder, write_requests, write_round,
  write_loop, write_chunk, write_body, run_write,
}
use godynamo.Batch.Limits.{run_write-pieces}

-- The requests that were applied so far, as the service sees them. A call that succeeds applies
-- some of its requests and returns the others; of a call that fails nothing is assumed.
pub record Ledger (E : Env) (db : Db E) : Type 0 where
  pub applied : E.World → List WriteRequest
  pub batch_write_splits :
      (ctx : E.Context) (requests : List WriteRequest) (w : E.World)
      (out : String → List WriteRequest)
      → (db.client.batch_write_item ctx db.table requests w).0 ≡ ok out
      → Perm
          (applied (db.client.batch_write_item ctx db.table requests w).1 ++ out db.table)
          (applied w ++ requests)
  pub sleep_applies : (n : ℕ) (w : E.World) → applied (E.sleep n w) ≡ applied w

module _ (E : Env) (db : Db E) (L : Ledger E db) (ctx : E.Context) where
  -- Exactly these requests have been applied in addition, each once.
  abbrev pub AppliedBetween : E.World → List WriteRequest → E.World → Type 0
  AppliedBetween w requests w' = Perm (L.applied w') (L.applied w ++ requests)

  abbrev Applies : (List WriteRequest → Io E.World (Unit {0})) → Type 0
  Applies send =
      (requests : List WriteRequest) (st : State E.World)
      → (send requests st).0 ≡ ok tt
      → AppliedBetween st.world requests (send requests st).1.world

  write_round-Applies :
      (attempt : ℕ) (next : List WriteRequest → Io E.World (Unit {0}))
      → Applies next
      → Applies (write_round E db ctx next attempt)
  unfolding write_round
  write_round-Applies attempt next h requests st success =
      let sending = db.client.batch_write_item ctx db.table requests st.world in
      let (out, sent_ok, h₁) =
        continue-eq-ok (wrap_err "godynamo: batch write" sending.0) _ _ success in
      let sent = wrap_err-eq-ok _ _ sent_ok in
      let splits = L.batch_write_splits ctx requests st.world out sent in
      elim (Bool-cases (is_empty (out db.table))) [
        | inl all ↦
            let splits' = rw (is_empty-eq-true (out db.table) all, append-nil) at splits in
            rw (sent, all) splits'
        | inr some_left ↦ elim (Bool-cases (leb batch_max_retries attempt)) [
          | inl last ↦ absurd (cc (rw (some_left, last) at h₁))
          | inr again ↦
              let later = h (out db.table) _ (rw (some_left, again) at h₁) in
              let later' = rw (L.sleep_applies (batch_backoff attempt) sending.1) at later in
              rw (sent, some_left, again) (Perm.trans later' splits)
        ]
      ]

  write_loop-Applies : (fuel attempt : ℕ) → Applies (write_loop E db ctx fuel attempt)
  unfolding write_loop
  write_loop-Applies zero attempt requests st success = absurd (cc success)
  write_loop-Applies (suc fuel) attempt requests st success =
      write_round-Applies attempt (λ left. write_loop E db ctx fuel (attempt + 1) left)
        (write_loop-Applies fuel (attempt + 1)) requests st success

  write_body-Applies : (t : StructType) → Applies (λ chunk. write_body E db ctx t chunk tt)
  unfolding write_chunk
  write_body-Applies t requests st success =
      write_loop-Applies max_rounds 0 requests st (wrap_err-eq-ok _ _ success)

  -- One chunk after the other.
  for_each-Applies :
      (t : StructType) (pieces : List (List WriteRequest)) (st : State E.World)
      → (for_each (write_body E db ctx t) pieces tt st).0 ≡ ok tt
      → AppliedBetween st.world
          (concat pieces)
          (for_each (write_body E db ctx t) pieces tt st).1.world
  for_each-Applies t [] st success = rw append-nil Perm.rfl
  for_each-Applies t (piece ∷ pieces) st success =
      let (_, e, h) = continue-eq-ok (write_body E db ctx t piece tt st).0 _ _ success in
      let first = write_body-Applies t piece st e in
      let rest = for_each-Applies t pieces (write_body E db ctx t piece tt st).1 h in
      let whole = Perm.trans rest (Perm.append_right (concat pieces) first) in
      rw (e, ← append_assoc) whole

module _ (E : Env) (ctx : E.Context) (t : StructType) (b : BatchWriteBuilder E)
    (L : Ledger E b.db) where
  -- A batch write that succeeds has applied everything exactly once: let its queue have been turned
  -- into requests, and let each call of the client that succeeds apply some of its requests and
  -- return the others. If Run returns no error, then what is applied is a permutation of what was
  -- applied before and all of the requests.
  pub run_write-applied :
      (writes : List WriteRequest) (st st' : State E.World)
      → b.failed ≡ none
      → b.ops ≢ []
      → write_requests E b.db ctx t b.ops st ≡ (ok writes, st')
      → (run_write E ctx t b st).0 ≡ ok tt
      → Perm (L.applied (run_write E ctx t b st).1.world) (L.applied st'.world ++ writes)
  run_write-applied writes st st' fine some_ops built success =
      let (pieces, cut, is_each) = run_write-pieces E ctx t b writes st st' fine some_ops built in
      let done = rw is_each at success in
      rw (is_each, ← cut.whole) (for_each-Applies E b.db L ctx t pieces st' done)
