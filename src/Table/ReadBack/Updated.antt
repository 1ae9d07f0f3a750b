-- ===== src/Table/ReadBack/Updated.antt =====
-- The `UpdateBuilder` and then `Get` of crud.go on a table of rows.
use godynamo.Prelude.{◌≡◌, Option, some, [], ◌∷◌, refl, is_empty, false, ℕ}
use godynamo.Dict.{lookup}
use godynamo.Fault.{ok}
use godynamo.Io.{State}
use godynamo.Reflect.{Struct, StructType}
use godynamo.Reflect.Embedding.{IsEntityType}
use godynamo.Sdk.{Item, AttributeValue}
use godynamo.Tags.{ModelTags, parse_tags_fresh}
use godynamo.ZeroKeys.Laws.{IsDefault, id_key, zero_keys_default, requires_default_key_of_tags}
use godynamo.Env.{Env}
use godynamo.Crud.{get}
use godynamo.Update.{UpdateBuilder, run}
use godynamo.Table.{Table, version_in, GetAnswers}
use godynamo.Table.Updated.{Updates, run-IsUpdated}
use godynamo.Table.ReadBack.{get_row}

versioned :
    (number_of : AttributeValue → Option ℕ) (row : Item) (n : ℕ)
    → version_in number_of (some row) ≡ some n
    → is_empty row ≡ false
unfolding lookup
versioned number_of [] n h = cc
versioned number_of (entry ∷ row) n h = refl

module _ (E : Env) (b : UpdateBuilder E) (T : Table E b.db) (U : Updates E b.db T) (t : StructType)
    (mt : ModelTags) (entity : IsEntityType t) (parsed : parse_tags_fresh t ≡ ok mt)
    (default : IsDefault mt) where
  -- Get after Update: let an update of an entity type with the default keys have succeeded and have
  -- returned the struct v. In any later state in which GetItem answers with the row as the update
  -- left it, a Get by the ID returns v too.
  pub get-run :
      (ctx ctx' : E.Context) (st later : State E.World) (v : Struct)
      → (run E ctx t b st).0 ≡ ok v
      → GetAnswers E b.db ctx' later.world (id_key E.runtime mt.struct_name b.id) (
          T.rows
            (run E ctx t b st).1.world
            (id_key E.runtime mt.struct_name b.id)
            (id_key E.runtime mt.struct_name b.id))
      → (get E b.db ctx' t b.id later).0 ≡ ok v
  get-run ctx ctx' st later v success answered =
      let u = run-IsUpdated E b T U t mt entity parsed default ctx st v success in
      get_row E b.db T t mt parsed ctx' b.id later u.row v
        ((requires_default_key_of_tags t "Get[T]" mt parsed).0.1 default)
        (zero_keys_default E.runtime t mt entity parsed default b.id) (rw u.stored at answered)
        (versioned T.number_of u.row _ u.version) u.unmarshaled
