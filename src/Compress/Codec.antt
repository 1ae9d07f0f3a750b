-- ===== src/Compress/Codec.antt =====
-- compress.go: what the codecs are taken to do with a struct, and `unmarshalItemInto` on what
-- `marshalItem` wrote.
use godynamo.Prelude.{
  String, str_eq, ◌≡◌, refl, ◌∙◌, ap, Bool, true, false, ◌||◌, eq_refl, none, List, [], ◌∷◌, All,
  is_empty, Bool-cases, inl, inr, if◌then◌else◌, arith,
}
use godynamo.Dict.{lookup, copy, lookup-copy}
use godynamo.Fault.{ok, >>=-eq-ok}
use godynamo.Reflect.{Struct, type_of, zero_of}
use godynamo.Reflect.Embedding.{type_of-zero_of}
use godynamo.Sdk.{Bytes, Item, Runtime}
use godynamo.Tags.{ModelTags, parse_tags_fresh, resolve_attr_name}
use godynamo.Compress.{
  CompressedField, extract_loop, extract_compressed_fields, compress_loop, marshal_item,
  apply_pending_compressed_fields, unmarshal_with, unmarshal_item_into, unmarshal_new,
}
use godynamo.Compress.Laws.{compress_loop-lookup}
use godynamo.Compress.RoundTrip.{
  without, is_attr_of, HaveOwnAttrs, IsCompressible, IsHeld, IsHeld-keep, compress_loop-IsHeld,
}
use godynamo.Compress.Restored.{extract_loop-lookup, apply_pending-restores}

-- The codecs read back what they write of this struct. `UnmarshalMap` looks only at the attributes
-- that it reads for the struct's type, and leaves a field at zero whose attribute is missing.
pub record IsReadable (R : Runtime) (v : Struct) : Type 0 where
  pub tags : ModelTags
  pub parsed : parse_tags_fresh (type_of v) ≡ ok tags
  pub compressible : All (IsCompressible R v) tags.compress_fields
  pub own_attrs : HaveOwnAttrs (type_of v) tags.compress_fields
  pub gzip_reads : (raw content : Bytes) → R.gzip raw ≡ ok content → R.gunzip content ≡ ok raw
  pub reads : String → Bool
  pub map_reads :
      (base item : Item)
      → R.marshal_map v ≡ ok base
      → ((a : String)
          → reads a ≡ true
          → lookup a item
            ≡ (if is_attr_of (type_of v) tags.compress_fields a then none else lookup a base))
      → R.unmarshal_map item (zero_of (type_of v)) ≡ (ok tt, without tags.compress_fields v)

-- An item agrees with another on what is read for a struct.
abbrev pub Agree : (R : Runtime) (v : Struct) → IsReadable R v → Item → Item → Type 0
Agree R v r item base =
    (a : String)
    → (r.reads a || is_attr_of (type_of v) r.tags.compress_fields a) ≡ true
    → lookup a item ≡ lookup a base

module _ (R : Runtime) (v : Struct) where
  All-IsHeld-agree :
      (item base : Item) (names : List String)
      → ((a : String) → is_attr_of (type_of v) names a ≡ true → lookup a item ≡ lookup a base)
      → All (IsHeld R v base) names
      → All (IsHeld R v item) names
  All-IsHeld-agree item base [] _ _ = tt
  All-IsHeld-agree item base (name ∷ names) agree (h, hs) = (
    IsHeld-keep R v base item name
        (agree (resolve_attr_name (type_of v) name)
          (rw (eq_refl (resolve_attr_name (type_of v) name)) refl))
        h,
    All-IsHeld-agree item base names
        (λ a e. agree a (ground (arith, e, str_eq (resolve_attr_name (type_of v) name) a))) hs,
  )

  unattributed :
      (names : List String) (a : String)
      → is_attr_of (type_of v) names a ≡ false
      → All (λ (name : String). str_eq (resolve_attr_name (type_of v) name) a ≡ false) names
  unattributed [] a h = tt
  unattributed (name ∷ names) a h =
      elim (Bool-cases (str_eq (resolve_attr_name (type_of v) name) a)) [
        | inl e ↦ absurd (cc (rw e at h))
        | inr e ↦ (e, unattributed names a (rw e at h))
      ]

  module _ (r : IsReadable R v) (base item : Item) (wrote : marshal_item R v ≡ ok base)
      (agree : Agree R v r item base) where
    abbrev fields : List String
    fields = r.tags.compress_fields

    -- What `marshalItem` has written: the marshaled map, and the compressed fields over it.
    wrote_fields :
        (base0 : Item) × (R.marshal_map v ≡ ok base0) × (compress_loop R v fields base0 ≡ ok base)
    unfolding marshal_item
    wrote_fields =
        let (base0, e0, h1) = >>=-eq-ok (R.marshal_map v) _ wrote in
        let (mt, e1, h2) = >>=-eq-ok (parse_tags_fresh (type_of v)) _ h1 in
        let same : mt ≡ r.tags = cc (e1, r.parsed) in (base0, e0, rw same at h2)

    item-IsHeld : All (IsHeld R v item) fields
    item-IsHeld =
        let (base0, _, written) = wrote_fields in
        All-IsHeld-agree item base fields (λ a e. agree a (rw e (or_true (r.reads a))))
          (compress_loop-IsHeld R v fields base0 base r.compressible r.own_attrs written)
      where
        or_true : (x : Bool) → (x || true) ≡ true
        or_true false = refl
        or_true true = refl

    -- The attributes that are read of what is left after the compressed fields are taken out.
    filtered-reads :
        (base0 filtered : Item)
        → compress_loop R v fields base0 ≡ ok base
        → ((a : String)
            → lookup a filtered ≡ (if is_attr_of (type_of v) fields a then none else lookup a item))
        → (a : String) → r.reads a ≡ true
        → lookup a filtered ≡ (if is_attr_of (type_of v) fields a then none else lookup a base0)
    filtered-reads base0 filtered written out a reads =
        elim (Bool-cases (is_attr_of (type_of v) fields a)) [
          | inl e ↦ rw (out a, e) refl
          | inr e ↦
              rw (out a, e)
                (agree a (rw reads refl)
                  ∙ compress_loop-lookup R v a fields base0 base (unattributed fields a e) written)
        ]

    read_direct :
        fields ≡ [] → R.unmarshal_map item (zero_of (type_of v)) ≡ (ok tt, without fields v)
    read_direct none_listed =
        let (base0, e0, written) = wrote_fields in
        r.map_reads base0 item e0 (
          filtered-reads base0 item written
            (λ a. rw (ap (λ (f : List String). is_attr_of (type_of v) f a) none_listed) refl))

    abbrev extracted : Item × List CompressedField
    extracted = extract_loop (type_of v) fields (copy item)

    copy-IsHeld : All (IsHeld R v (copy item)) fields
    copy-IsHeld = All-IsHeld-agree (copy item) item fields (λ a _. lookup-copy item a) item-IsHeld

    read_extracted : R.unmarshal_map extracted.0 (zero_of (type_of v)) ≡ (ok tt, without fields v)
    read_extracted =
        let (base0, e0, written) = wrote_fields in
        r.map_reads base0 extracted.0 e0 (
          filtered-reads base0 extracted.0 written (λ a.
            rw (extract_loop-lookup R v fields (copy item) a r.own_attrs copy-IsHeld, lookup-copy)
              refl))

    -- Without compressed fields the map is read as it is, and otherwise without them.
    unmarshal_fields :
        (names : List String)
        → fields ≡ names
        → unmarshal_with R item (zero_of (type_of v)) (ok r.tags) ≡ (ok tt, v)
    unfolding apply_pending_compressed_fields extract_compressed_fields
    unmarshal_fields [] none_listed = rw (none_listed, read_direct none_listed, none_listed) refl
    unmarshal_fields (name ∷ names) some_listed =
        let restored =
          apply_pending-restores R v r.gzip_reads fields (copy item) r.own_attrs copy-IsHeld in
        rw (ap is_empty some_listed, type_of-zero_of (type_of v), read_extracted) restored

    -- What `marshalItem` wrote is read back, from any item that agrees with it on the attributes
    -- that are read: the result is the struct that was written, its compressed fields included.
    pub unmarshal_new-marshal_item : unmarshal_new R (type_of v) item ≡ ok v
    unfolding unmarshal_new unmarshal_item_into
    unmarshal_new-marshal_item =
        let tags : parse_tags_fresh (type_of (zero_of (type_of v))) ≡ ok r.tags =
          rw (type_of-zero_of (type_of v)) r.parsed in
        rw (tags, unmarshal_fields fields refl)
