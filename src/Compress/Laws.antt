-- ===== src/Compress/Laws.antt =====
-- What the loop of `marshalItem` writes, and what it leaves alone.
use godynamo.Prelude.{
  String, str_eq, ◌≡◌, refl, ap, ◌∙◌, false, Option, none, some, List, [], ◌∷◌, All, Bool-cases,
  inl, inr,
}
use godynamo.Dict.{lookup, insert, lookup-insert}
use godynamo.Fault.{ok, >>=-eq-ok, wrap_err-eq-ok}
use godynamo.Reflect.{FieldValue, Struct, type_of, field_by_name, Found}
use godynamo.Sdk.{Bytes, Item, Runtime, b}
use godynamo.Tags.{resolve_attr_name}
use godynamo.Compress.{compress_value, compress_one, compress_loop, compress_json}

module _ (R : Runtime) where
  -- A field's bytes are its gzipped JSON.
  pub compress_value-eq-ok :
      (name : String) (value : FieldValue) (compressed : Bytes)
      → compress_value R name value ≡ ok compressed
      → (raw : Bytes) × (R.json_marshal value ≡ ok raw) × (R.gzip raw ≡ ok compressed)
  unfolding compress_json
  compress_value-eq-ok name value compressed h =
      let (raw, e, h1) = >>=-eq-ok _ _ h in
      (raw, wrap_err-eq-ok _ _ e, wrap_err-eq-ok _ _ (wrap_err-eq-ok _ _ h1))

  -- A round for a field that there is writes its bytes under its attribute.
  pub compress_one-eq-ok :
      (sv : Struct) (name : String) (fv : Found) (av base : Item)
      → compress_one R sv name (some fv) av ≡ ok base
      → (compressed : Bytes) × (compress_value R name fv.value ≡ ok compressed)
        × (base ≡ insert (resolve_attr_name (type_of sv) name) (b compressed) av)
  compress_one-eq-ok sv name fv av base h = elim (Bool-cases fv.exported) [
    | inl seen ↦
        let (compressed, e, h1) = >>=-eq-ok (compress_value R name fv.value) _ (rw seen at h) in
        (compressed, e, cc h1)
    | inr hidden ↦ absurd (cc (rw hidden at h))
  ]

  module _ (sv : Struct) (a : String) where
    compress_one-lookup :
        (name : String) (o : Option Found) (av base : Item)
        → str_eq (resolve_attr_name (type_of sv) name) a ≡ false
        → compress_one R sv name o av ≡ ok base
        → lookup a base ≡ lookup a av
    compress_one-lookup name none av base other h = cc
    compress_one-lookup name (some fv) av base other h =
        let (compressed, e, stored) = compress_one-eq-ok sv name fv av base h in
        ap (lookup a) stored ∙ lookup-insert _ a _ av ∙ rw other refl

    -- An attribute that is not one of the compressed fields' stays as it was.
    pub compress_loop-lookup :
        (names : List String) (av base : Item)
        → All (λ (name : String). str_eq (resolve_attr_name (type_of sv) name) a ≡ false) names
        → compress_loop R sv names av ≡ ok base
        → lookup a base ≡ lookup a av
    unfolding compress_loop
    compress_loop-lookup [] av base other h = cc
    compress_loop-lookup (name ∷ names) av base (o, other) h =
        let (av', e, h1) = >>=-eq-ok (compress_one R sv name (field_by_name sv name) av) _ h in
        compress_loop-lookup names av' base other h1
        ∙ compress_one-lookup name (field_by_name sv name) av av' o e
