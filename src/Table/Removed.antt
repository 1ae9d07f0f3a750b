-- ===== src/Table/Removed.antt =====
-- `Delete` and then `Get` of crud.go.
use godynamo.Prelude.{
  String, ◌<>◌, str_eq, eq_refl, ◌≡◌, refl, ◌∙◌, true, ◌&&◌, none, if◌then◌else◌,
}
use godynamo.Fault.{ok, err, Error, errors_is, err_not_found, wrap_err-eq-ok, sentinel, wrapped}
use godynamo.Io.{State}
use godynamo.Reflect.{StructType, Uuid}
use godynamo.Reflect.Embedding.{IsEntityType}
use godynamo.Tags.{ModelTags, parse_tags_fresh}
use godynamo.ZeroKeys.Laws.{IsDefault, id_key, zero_keys_default, requires_default_key_of_tags}
use godynamo.Env.{Env}
use godynamo.Db.{Db}
use godynamo.Crud.{get, delete}
use godynamo.Table.{Table, GetAnswers}

module _ (E : Env) (db : Db E) (T : Table E db) (t : StructType) (mt : ModelTags)
    (entity : IsEntityType t) (parsed : parse_tags_fresh t ≡ ok mt) (default : IsDefault mt) where
  abbrev pub row_key : Uuid → String
  row_key id = id_key E.runtime mt.struct_name id

  pub delete_row :
      (ctx : E.Context) (id : Uuid) (st : State E.World) (x y : String)
      → (delete E db ctx t id st).0 ≡ ok tt
      → T.rows (delete E db ctx t id st).1.world x y
        ≡ (if str_eq (row_key id) x && str_eq (row_key id) y then none else T.rows st.world x y)
  unfolding delete
  delete_row ctx id st x y success =
      let allowed = (requires_default_key_of_tags t "Delete[T]" mt parsed).0.1 default in
      let keys = zero_keys_default E.runtime t mt entity parsed default id in
      let success' = rw (allowed, keys) at success in
      rw (allowed, keys)
        (T.delete_removes ctx st.world (row_key id) (row_key id) x y (wrap_err-eq-ok _ _ success'))

  get_missing :
      (ctx : E.Context) (id : Uuid) (st : State E.World)
      → GetAnswers E db ctx st.world (row_key id) none
      → (e : Error) × ((get E db ctx t id st).0 ≡ err e) × (errors_is e err_not_found ≡ true)
  unfolding get errors_is
  get_missing ctx id st fetched =
      let allowed = (requires_default_key_of_tags t "Get[T]" mt parsed).0.1 default in
      let keys = zero_keys_default E.runtime t mt entity parsed default id in
      (
        wrapped ("godynamo: get " <> (t.name <> " (id=" <> E.uuid_string id <> ")"))
            (sentinel err_not_found),
        rw (allowed, keys, fetched) refl,
        refl,
      )

  -- Get after Delete: let a Delete by ID of an entity type with the default keys have succeeded.
  -- The other rows are as they were, and in any later state in which GetItem answers with the row
  -- of the ID as the Delete left it, a Get by the ID fails with an error that wraps `ErrNotFound`.
  pub get-delete :
      (ctx ctx' : E.Context) (id : Uuid) (st later : State E.World)
      → (delete E db ctx t id st).0 ≡ ok tt
      → GetAnswers E db ctx' later.world
          (row_key id)
          (T.rows (delete E db ctx t id st).1.world (row_key id) (row_key id))
      → ((x y : String)
          → T.rows (delete E db ctx t id st).1.world x y ≡ (
              if str_eq (row_key id) x && str_eq (row_key id) y then none else T.rows st.world x y))
        × ((e : Error) × ((get E db ctx' t id later).0 ≡ err e)
            × (errors_is e err_not_found ≡ true))
  get-delete ctx ctx' id st later success answered =
      let gone : T.rows (delete E db ctx t id st).1.world (row_key id) (row_key id) ≡ none =
        delete_row ctx id st (row_key id) (row_key id) success ∙ rw (eq_refl (row_key id)) refl in
      (λ x y. delete_row ctx id st x y success, get_missing ctx' id later (rw gone at answered))
