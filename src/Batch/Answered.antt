-- ===== src/Batch/Answered.antt =====
-- Batch reads of batch.go on a table that does not change meanwhile: each call returns the rows of
-- some of its keys, and the other keys as unprocessed.
use godynamo.Prelude.{
  ℕ, zero, suc, ◌+◌, ◌≡◌, ◌≢◌, sym, ap, ◌∙◌, List, [], ◌∷◌, ◌++◌, is_empty, is_empty-eq-true, leb,
  concat, append_assoc, append-nil, Bool-cases, inl, inr,
}
use mathlib.Core.List.Perm
use godynamo.Fault.{ok, wrap_err, wrap_err-eq-ok}
use godynamo.Io.{State, Io, continue-eq-ok}
use godynamo.Reflect.{Struct, StructType}
use godynamo.Sdk.{Item}
use godynamo.Env.{Env}
use godynamo.Db.{Db}
use godynamo.ZeroKeys.{requires_default_key, keys_of}
use godynamo.Compress.{unmarshal_all}
use godynamo.Chunks.Partition.{for_each}
use godynamo.Batch.{batch_max_retries, max_rounds}
use godynamo.Batch.Reading.{BatchGetBuilder, get_body, get_chunk, get_loop, get_round, run_get}
use godynamo.Batch.Rows.{
  Answers, AreRowsOf, AreRowsOf-append, unmarshal_all-both, unmarshal_all-nil,
}
use godynamo.Batch.Limits.{run_get-pieces}

module _ (E : Env) (db : Db E) (A : Answers E db) (ctx : E.Context) (t : StructType) where
  -- What is read is appended to what was there before.
  abbrev Extends : List Item → (before after : List Struct) → Type 0
  Extends keys before after =
      (found : List Struct) × (after ≡ before ++ found) × AreRowsOf E.runtime t A.answers keys found

  abbrev Fetches : (List Item → List Struct → Io E.World (List Struct)) → Type 0
  Fetches fetch =
      (keys : List Item) (items result : List Struct) (st : State E.World)
      → (fetch keys items st).0 ≡ ok result
      → Extends keys items result

  get_round-Fetches :
      (attempt : ℕ) (next : List Item → List Struct → Io E.World (List Struct))
      → Fetches next
      → Fetches (get_round E db ctx t next attempt)
  unfolding get_round
  get_round-Fetches attempt next h keys items result st success =
      let sending = db.client.batch_get_item ctx db.table keys st.world in
      let (out, sent_ok, h₁) =
        continue-eq-ok (wrap_err "godynamo: batch get" sending.0) _ _ success in
      let sent = wrap_err-eq-ok _ _ sent_ok in
      let (found, decoded, h₂) =
        continue-eq-ok (unmarshal_all E.runtime t (out.responses db.table)) _ _ h₁ in
      let splits = A.batch_get_splits ctx keys st.world out sent in
      let left = out.unprocessed_keys db.table in
      elim (Bool-cases (is_empty left)) [
        | inl all ↦
            let whole : items ++ found ≡ result = cc (rw all at h₂) in
            let complete = rw (is_empty-eq-true left all, append-nil) at splits in
            (
              found,
              sym whole,
              record { rows = out.responses db.table; unmarshaled = decoded; complete = complete },
            )
        | inr some_left ↦ elim (Bool-cases (leb batch_max_retries attempt)) [
          | inl last ↦ absurd (cc (rw (some_left, last) at h₂))
          | inr again ↦
              let (more, is_more, rest) =
                h left (items ++ found) result _ (rw (some_left, again) at h₂) in
              (
                found ++ more,
                is_more ∙ append_assoc items found more,
                record {
                  rows = out.responses db.table ++ rest.rows;
                  unmarshaled =
                      unmarshal_all-both E.runtime t (out.responses db.table) rest.rows found more
                        decoded rest.unmarshaled;
                  complete =
                      Perm.trans (Perm.append_left (out.responses db.table) rest.complete) splits;
                },
              )
        ]
      ]

  get_loop-Fetches : (fuel attempt : ℕ) → Fetches (get_loop E db ctx t fuel attempt)
  unfolding get_loop
  get_loop-Fetches zero attempt keys items result st success = absurd (cc success)
  get_loop-Fetches (suc fuel) attempt keys items result st success =
      get_round-Fetches attempt (λ left found. get_loop E db ctx t fuel (attempt + 1) left found)
        (get_loop-Fetches fuel (attempt + 1)) keys items result st success

  get_body-Fetches : Fetches (get_body E db ctx t)
  unfolding get_chunk
  get_body-Fetches keys items result st success =
      let (found, wrapped_ok, h) = continue-eq-ok _ _ _ success in
      let whole : items ++ found ≡ result = cc h in
      let (found', is_found, rows) =
        get_loop-Fetches max_rounds 0 keys [] found st (wrap_err-eq-ok _ _ wrapped_ok) in
      (found, sym whole, rw (sym is_found) at rows)

  for_each-Fetches :
      (pieces : List (List Item)) (items result : List Struct) (st : State E.World)
      → (for_each (get_body E db ctx t) pieces items st).0 ≡ ok result
      → Extends (concat pieces) items result
  for_each-Fetches [] items result st success =
      let same : items ≡ result = cc success in
      (
        [],
        sym same ∙ sym (append-nil items),
        record { rows = []; unmarshaled = unmarshal_all-nil E.runtime t; complete = Perm.nil },
      )
  for_each-Fetches (piece ∷ pieces) items result st success =
      let (so_far, e, h) = continue-eq-ok (get_body E db ctx t piece items st).0 _ _ success in
      let (us, is_us, first) = get_body-Fetches piece items so_far st e in
      let (ws, is_ws, rest) = for_each-Fetches pieces so_far result _ h in
      (
        us ++ ws,
        is_ws ∙ ap (λ (xs : List Struct). xs ++ ws) is_us ∙ append_assoc items us ws,
        AreRowsOf-append E.runtime t A.answers piece (concat pieces) us ws first rest,
      )

module _ (E : Env) (ctx : E.Context) (t : StructType) (b : BatchGetBuilder E)
    (A : Answers E b.db) where
  -- A batch read that succeeds is complete: let the table not change meanwhile, and let each call of
  -- the client that succeeds return the rows of some of its keys and the others as unprocessed. If
  -- Run returns structs, they are the rows of all queued IDs, each once, in some order.
  pub run_get-AreRowsOf :
      (keys : List Item) (st : State E.World) (found : List Struct)
      → b.ids ≢ []
      → requires_default_key t "BatchGetBuilder.Run" ≡ ok tt
      → keys_of E.runtime t b.ids ≡ ok keys
      → (run_get E ctx t b st).0 ≡ ok found
      → AreRowsOf E.runtime t A.answers keys found
  run_get-AreRowsOf keys st found some_ids allowed computed success =
      let (pieces, cut, is_each) = run_get-pieces E ctx t b keys st some_ids allowed computed in
      let (found', is_found, rows) =
        for_each-Fetches E b.db A ctx t pieces [] found st (rw is_each at success) in
      rw (← cut.whole, is_found) rows
