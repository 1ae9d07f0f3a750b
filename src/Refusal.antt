-- ===== src/Refusal.antt =====
-- The operations of crud.go and batch.go that compute a key from an ID alone, on a type whose keys
-- need more.
use godynamo.Prelude.{◌≡◌, refl, inl, inr, String, true, none, some, List}
use godynamo.Fault.{ok, err, Error, errors_is, err_non_default_key}
use godynamo.Io.{State, Io}
use godynamo.Reflect.{StructType, Uuid}
use godynamo.Tags.{ModelTags, parse_tags_fresh}
use godynamo.ZeroKeys.{requires_default_key}
use godynamo.ZeroKeys.Laws.{IsDefault, requires_default_key_of_tags}
use godynamo.Env.{Env}
use godynamo.Db.{Db}
use godynamo.Crud.{get, delete}
use godynamo.Update.{UpdateBuilder, run}
use godynamo.Batch.{BatchWriteBuilder, run_write}
use godynamo.Batch.Reading.{BatchGetBuilder, run_get}
use godynamo.Batch

-- The action fails with an error that wraps `ErrNonDefaultKey`, and changes nothing.
abbrev pub IsRefused : {W A : Type 0} → Io W A → State W → Type 0
IsRefused a st = (e : Error) × (a st ≡ (err e, st)) × (errors_is e err_non_default_key ≡ true)

module _ (E : Env) (ctx : E.Context) (t : StructType) (mt : ModelTags)
    (tags : parse_tags_fresh t ≡ ok mt) (keyed : ¬ IsDefault mt) where
  refused :
      (op : String)
      → (e : Error) × (requires_default_key t op ≡ err e) × (errors_is e err_non_default_key ≡ true)
  refused op = elim (requires_default_key_of_tags t op mt tags).1 [
    | inl default ↦ absurd (keyed default)
    | inr rejected ↦ rejected
  ]

  -- For a type whose tag lists a key field, Get, Delete, the run of an Update and the run of a batch
  -- read fail with an error that wraps `ErrNonDefaultKey` and change neither the world nor the
  -- memory; and a batch write that has queued a Delete of IDs has recorded such an error, with which
  -- its run fails, sending nothing and stamping nothing.
  pub operations-IsRefused :
      (db : Db E) (st : State E.World) (id : Uuid) (change : UpdateBuilder E)
      (reads : BatchGetBuilder E) (writes : BatchWriteBuilder E) (ids : List Uuid)
      → writes.failed ≡ none
      → IsRefused (get E db ctx t id) st
        × IsRefused (delete E db ctx t id) st
        × IsRefused (run E ctx t change) st
        × IsRefused (run_get E ctx t reads) st
        × ((queued : BatchWriteBuilder E) × (Batch.delete E t ids writes ≡ ok queued)
            × IsRefused (run_write E ctx t queued) st)
  unfolding get delete run run_get run_write Batch.delete errors_is
  operations-IsRefused db st id change reads writes ids fine =
      let (e1, h1, is1) = refused "Get[T]" in
      let (e2, h2, is2) = refused "Delete[T]" in
      let (e3, h3, is3) = refused "UpdateBuilder.Run" in
      let (e4, h4, is4) = refused "BatchGetBuilder.Run" in
      let (e5, h5, is5) = refused "BatchWriteBuilder.Delete" in
      (
        (e1, rw h1 refl, is1),
        (e2, rw h2 refl, is2),
        (e3, rw h3 refl, is3),
        (e4, rw h4 refl, is4),
        (record writes { failed = some e5 }, rw (fine, h5) refl, (_, refl, is5)),
      )
