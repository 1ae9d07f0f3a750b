-- ===== src/Batch/Retries.antt =====
-- The rounds of a chunk of batch.go, and the calls that they make.
use godynamo.Prelude.{
  ◌-◌, ℕ, zero, suc, String, [], ◌++◌, ◌+◌, ◌≤◌, ◌<◌, ◌≡◌, refl, ap, false, List, arith, leb,
  fun_ext, Bool-cases, inl, inr,
}
use godynamo.Fault.{Outcome-cases}
use godynamo.Io.{State, Io}
use godynamo.Compress.{unmarshal_all}
use godynamo.Reflect.{Struct, StructType}
use godynamo.Sdk.{Item}
use godynamo.Env.{Env, WriteRequest}
use godynamo.Db.{Db}
use godynamo.Batch.{
  batch_max_retries, max_rounds, write_round, write_loop, write_chunk, batch_backoff,
}
use godynamo.Batch.Reading.{get_chunk, get_loop, get_round}

retries_left : (attempt : ℕ) → leb batch_max_retries attempt ≡ false → attempt < batch_max_retries
retries_left attempt h = ground arith

module _ (E : Env) (db : Db E) (ctx : E.Context) where
  -- The next round counts only while retries are left.
  get_round-ext :
      (t : StructType) (attempt : ℕ)
      (next next' : List Item → List Struct → Io E.World (List Struct))
      → (attempt < batch_max_retries → next ≡ next')
      → (request : List Item) (items : List Struct)
      → get_round E db ctx t next attempt request items
        ≡ get_round E db ctx t next' attempt request items
  unfolding get_round
  get_round-ext t attempt next next' h request items =
      elim (Bool-cases (leb batch_max_retries attempt)) [
        | inl done ↦ rw done refl
        | inr left ↦ rw (h (retries_left attempt left)) refl
      ]

  write_round-ext :
      (attempt : ℕ) (next next' : List WriteRequest → Io E.World (Unit {0}))
      → (attempt < batch_max_retries → next ≡ next')
      → (request : List WriteRequest)
      → write_round E db ctx next attempt request ≡ write_round E db ctx next' attempt request
  unfolding write_round
  write_round-ext attempt next next' h request = elim (Bool-cases (leb batch_max_retries attempt)) [
    | inl done ↦ rw done refl
    | inr left ↦ rw (h (retries_left attempt left)) refl
  ]

  get_loop-enough :
      (t : StructType) (fuel attempt : ℕ)
      → max_rounds ≤ fuel + attempt
      → 0 < fuel
      → (extra : ℕ) → get_loop E db ctx t fuel attempt ≡ get_loop E db ctx t (fuel + extra) attempt
  unfolding get_loop
  get_loop-enough t zero attempt h pos extra = absurd (omega arith)
  get_loop-enough t (suc fuel) attempt h pos extra = rw (suc_add fuel extra) (
      fun_ext λ request. fun_ext λ items.
        get_round-ext t attempt _ _
          (λ left.
            get_loop-enough t fuel (attempt + 1) (omega (arith, h, left)) (omega (arith, h, left))
              extra)
          request items)
    where
      suc_add : (a b : ℕ) → suc a + b ≡ suc (a + b)
      suc_add a b = omega arith

  write_loop-enough :
      (fuel attempt : ℕ)
      → max_rounds ≤ fuel + attempt
      → 0 < fuel
      → (extra : ℕ) → write_loop E db ctx fuel attempt ≡ write_loop E db ctx (fuel + extra) attempt
  unfolding write_loop
  write_loop-enough zero attempt h pos extra = absurd (omega arith)
  write_loop-enough (suc fuel) attempt h pos extra = rw (suc_add fuel extra) (
      fun_ext λ request.
        write_round-ext attempt _ _
          (λ left.
            write_loop-enough fuel (attempt + 1) (omega (arith, h, left)) (omega (arith, h, left))
              extra)
          request)
    where
      suc_add : (a b : ℕ) → suc a + b ≡ suc (a + b)
      suc_add a b = omega arith

  -- The rounds that the chunks are given are enough: with any number more, a chunk of a read and a
  -- chunk of a write behave the same, whatever the client leaves unprocessed.
  pub rounds-enough :
      (extra : ℕ) (t : StructType) (keys : List Item) (writes : List WriteRequest)
      → (get_chunk E db ctx t keys ≡ get_loop E db ctx t (max_rounds + extra) 0 keys [])
        × (write_chunk E db ctx writes ≡ write_loop E db ctx (max_rounds + extra) 0 writes)
  unfolding get_chunk write_chunk
  rounds-enough extra t keys writes = (
    ap (λ f. f keys []) (get_loop-enough t max_rounds 0 (omega arith) (omega arith) extra),
    ap (λ f. f writes) (write_loop-enough max_rounds 0 (omega arith) (omega arith) extra),
  )

-- A count of the client's batch calls in the world.
pub record Counts (E : Env) (db : Db E) (calls : E.World → ℕ) : Type 0 where
  pub get_counts :
      (ctx : E.Context) (table : String) (keys : List Item) (w : E.World)
      → calls (db.client.batch_get_item ctx table keys w).1 ≡ suc (calls w)
  pub write_counts :
      (ctx : E.Context) (table : String) (writes : List WriteRequest) (w : E.World)
      → calls (db.client.batch_write_item ctx table writes w).1 ≡ suc (calls w)
  pub sleep_counts : (n : ℕ) (w : E.World) → calls (E.sleep n w) ≡ calls w

module _ (E : Env) (db : Db E) (ctx : E.Context) (calls : E.World → ℕ)
    (counts : Counts E db calls) where
  write_round-calls :
      (n attempt : ℕ) (next : List WriteRequest → Io E.World (Unit {0}))
      → ((left : List WriteRequest) (st : State E.World)
          → calls (next left st).1.world ≤ calls st.world + n)
      → (request : List WriteRequest) (st : State E.World)
      → calls (write_round E db ctx next attempt request st).1.world ≤ calls st.world + suc n
  unfolding write_round
  write_round-calls n attempt next h request st =
      let one = counts.write_counts ctx db.table request st.world in
      let w = (db.client.batch_write_item ctx db.table request st.world).1 in
      let slept = counts.sleep_counts (batch_backoff attempt) w in
      elim (Outcome-cases (db.client.batch_write_item ctx db.table request st.world).0) [
        | inl (out, e) ↦
            let later =
              h (out db.table) (record st { world = E.sleep (batch_backoff attempt) w }) in
            rw e (ground arith)
        | inr (inl (x, e)) ↦ rw e (omega arith)
        | inr (inr (m, e)) ↦ rw e (omega arith)
      ]

  get_round-calls :
      (t : StructType) (n attempt : ℕ) (next : List Item → List Struct → Io E.World (List Struct))
      → ((left : List Item) (found : List Struct) (st : State E.World)
          → calls (next left found st).1.world ≤ calls st.world + n)
      → (request : List Item) (items : List Struct) (st : State E.World)
      → calls (get_round E db ctx t next attempt request items st).1.world ≤ calls st.world + suc n
  unfolding get_round
  get_round-calls t n attempt next h request items st =
      let one = counts.get_counts ctx db.table request st.world in
      let w = (db.client.batch_get_item ctx db.table request st.world).1 in
      let slept = counts.sleep_counts (batch_backoff attempt) w in
      elim (Outcome-cases (db.client.batch_get_item ctx db.table request st.world).0) [
        | inl (out, e) ↦ elim (Outcome-cases (unmarshal_all E.runtime t (out.responses db.table))) [
          | inl (found, e') ↦
              let later =
                h (out.unprocessed_keys db.table) (items ++ found)
                  (record st { world = E.sleep (batch_backoff attempt) w }) in
              rw (e, e') (ground arith)
          | inr (inl (x, e')) ↦ rw (e, e') (omega arith)
          | inr (inr (m, e')) ↦ rw (e, e') (omega arith)
        ]
        | inr (inl (x, e)) ↦ rw e (omega arith)
        | inr (inr (m, e)) ↦ rw e (omega arith)
      ]

  write_loop-calls :
      (fuel attempt : ℕ) (request : List WriteRequest) (st : State E.World)
      → calls (write_loop E db ctx fuel attempt request st).1.world ≤ calls st.world + fuel
  unfolding write_loop
  write_loop-calls zero attempt request st = omega arith
  write_loop-calls (suc fuel) attempt request st =
      write_round-calls fuel attempt _ (write_loop-calls fuel (attempt + 1)) request st

  get_loop-calls :
      (t : StructType) (fuel attempt : ℕ) (request : List Item) (items : List Struct)
      (st : State E.World)
      → calls (get_loop E db ctx t fuel attempt request items st).1.world ≤ calls st.world + fuel
  unfolding get_loop
  get_loop-calls t zero attempt request items st = omega arith
  get_loop-calls t (suc fuel) attempt request items st =
      get_round-calls t fuel attempt _ (get_loop-calls t fuel (attempt + 1)) request items st

  calls_beyond :
      (extra : ℕ) (t : StructType) (keys : List Item) (writes : List WriteRequest)
      (st : State E.World)
      → (calls (get_loop E db ctx t (max_rounds + extra) 0 keys [] st).1.world ≤ calls st.world + 6)
        × (calls (write_loop E db ctx (max_rounds + extra) 0 writes st).1.world
            ≤ calls st.world + 6)
  calls_beyond extra t keys writes st =
      let got = get_loop-enough E db ctx t max_rounds 0 (omega arith) (omega arith) extra in
      let written = write_loop-enough E db ctx max_rounds 0 (omega arith) (omega arith) extra in
      (
        rw (← got) (get_loop-calls t max_rounds 0 keys [] st),
        rw (← written) (write_loop-calls max_rounds 0 writes st),
      )

  -- The attempts end the rounds: with any number of rounds, the loop of a chunk of a read and that
  -- of a chunk of a write make at most six calls of the client, the first and five retries, if the
  -- world counts the client's calls and sleeping leaves the count alone.
  pub chunk-calls :
      (rounds : ℕ) (t : StructType) (keys : List Item) (writes : List WriteRequest)
      (st : State E.World)
      → (calls (get_loop E db ctx t rounds 0 keys [] st).1.world ≤ calls st.world + 6)
        × (calls (write_loop E db ctx rounds 0 writes st).1.world ≤ calls st.world + 6)
  chunk-calls rounds t keys writes st = elim (Bool-cases (leb rounds max_rounds)) [
    | inl few ↦
        let got = get_loop-calls t rounds 0 keys [] st in
        let written = write_loop-calls rounds 0 writes st in
        (ground (arith, got, few), ground (arith, written, few))
    | inr many ↦
        let extra : rounds ≡ max_rounds + (rounds - max_rounds) = ground (arith, many) in
        rw extra (calls_beyond (rounds - max_rounds) t keys writes st)
  ]
