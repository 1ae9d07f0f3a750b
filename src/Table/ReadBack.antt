-- ===== src/Table/ReadBack.antt =====
-- `Put` and then `Get` of crud.go on a table of rows.
pub mod Transacted
pub mod Updated
use godynamo.Prelude.{
  String, str_eq, eq_iff, eq_refl, ◌≡◌, refl, sym, ap, ◌∙◌, Bool, true, false, ◌||◌, some, [], ◌∷◌,
  is_empty, arith, Bool-cases, inl, inr,
}
use mathlib.Core.Path.{subst}
use godynamo.Dict.{lookup}
use godynamo.Fault.{ok}
use godynamo.Io.{at, State}
use godynamo.Reflect.{Model, Struct, StructType, Uuid, type_of}
use godynamo.Sdk.{Item, Runtime, s}
use godynamo.Tags.{ModelTags, parse_tags_fresh}
use godynamo.ZeroKeys.{item_key, requires_default_key, zero_keys}
use godynamo.ZeroKeys.Laws.{id_key, zero_keys_default, requires_default_key_of_tags}
use godynamo.Compress.{unmarshal_new}
use godynamo.Compress.RoundTrip.{is_attr_of}
use godynamo.Compress.Codec.{IsReadable, Agree, unmarshal_new-marshal_item}
use godynamo.Env.{Env}
use godynamo.Db.{Db}
use godynamo.Crud.{get}
use godynamo.Crud.Written.{IsWritten}
use godynamo.Table.{Table, HasOwnIndex, GetAnswers}
use godynamo.Table.Accepted.{put-IsAccepted, written_keys}
use godynamo.Table.Stamped.{HasDefaultType}

-- Whether an attribute is read for a struct, as it is or as a compressed field's.
abbrev pub is_read : (R : Runtime) (v : Struct) → IsReadable R v → String → Bool
is_read R v r a = r.reads a || is_attr_of (type_of v) r.tags.compress_fields a

-- The attributes that `Put` adds are none of those that are read for the struct.
pub record IsApart (E : Env) (db : Db E) (v : Struct) (r : IsReadable E.runtime v) : Type 0 where
  pub no_pk : is_read E.runtime v r "PK" ≡ false
  pub no_sk : is_read E.runtime v r "SK" ≡ false
  pub no_index : is_read E.runtime v r db.gsi1_pk_attr ≡ false

different : (f : String → Bool) (a c : String) → f a ≡ false → f c ≡ true → str_eq a c ≡ false
different f a c out into = elim (Bool-cases (str_eq a c)) [
  | inl e ↦ absurd (cc (into, ap f ((eq_iff a c).0 e), out))
  | inr e ↦ e
]

written-Agree :
    (E : Env) (db : Db E) (ctx : E.Context) (m : Model) (v : Struct) (av : Item)
    (cond : E.Condition) (written : IsWritten E db ctx m v av cond) (r : IsReadable E.runtime v)
    → IsApart E db v r
    → Agree E.runtime v r av written.base
written-Agree E db ctx m v av cond written r apart a read =
    let k = different (is_read E.runtime v r) "PK" a apart.no_pk read in
    let q = different (is_read E.runtime v r) "SK" a apart.no_sk read in
    let i = different (is_read E.runtime v r) db.gsi1_pk_attr a apart.no_index read in
    written.attributes a ∙ ground (arith, k, q, i)

not_empty : (av : Item) (a key : String) → lookup a av ≡ some (s key) → is_empty av ≡ false
unfolding lookup
not_empty [] a key h = cc
not_empty (entry ∷ av) a key h = refl

module _ (E : Env) (db : Db E) (T : Table E db) (t : StructType) (mt : ModelTags)
    (parsed : parse_tags_fresh t ≡ ok mt) where
  -- A Get whose GetItem answers with a row unmarshals the row.
  pub get_row :
      (ctx : E.Context) (id : Uuid) (st : State E.World) (av : Item) (v : Struct)
      → requires_default_key t "Get[T]" ≡ ok tt
      → zero_keys E.runtime t id
        ≡ ok (id_key E.runtime mt.struct_name id, id_key E.runtime mt.struct_name id)
      → GetAnswers E db ctx st.world (id_key E.runtime mt.struct_name id) (some av)
      → is_empty av ≡ false
      → unmarshal_new E.runtime t av ≡ ok v
      → (get E db ctx t id st).0 ≡ ok v
  unfolding get
  get_row ctx id st av v default keys fetched some_attr reads =
      rw (default, keys, fetched, some_attr, reads)

  -- A Get whose GetItem answers with the written form of a struct, which the codecs read back,
  -- returns the struct.
  pub get_written :
      (own : HasOwnIndex E db) (ctx ctx' : E.Context) (later : State E.World) (m n : Model)
      (id : Uuid) (v : Struct) (av : Item) (cond : E.Condition)
      → IsWritten E db ctx m v av cond
      → HasDefaultType t mt n v
      → (readable : IsReadable E.runtime v) → IsApart E db v readable
      → GetAnswers E db ctx' later.world (id_key E.runtime mt.struct_name id) (some av)
      → (get E db ctx' t id later).0 ≡ ok v
  get_written own ctx ctx' later m n id v av cond written still readable apart fetched =
      let (pk_is, _, _) = written_keys E db own ctx m v av cond written in
      let agree = written-Agree E db ctx m v av cond written readable apart in
      let reads : unmarshal_new E.runtime t av ≡ ok v =
        ap (λ (u : StructType). unmarshal_new E.runtime u av) (sym still.typed)
        ∙ unmarshal_new-marshal_item E.runtime v readable written.base av written.marshaled agree in
      get_row ctx' id later av v
        ((requires_default_key_of_tags t "Get[T]" mt parsed).0.1 still.default)
        (zero_keys_default E.runtime t mt (rw still.typed at still.entity.entity) parsed
          still.default id)
        fetched (not_empty av "PK" _ pk_is) reads
