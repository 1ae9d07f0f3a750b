-- ===== src/ZeroKeys/Laws.antt =====
-- The keys that an ID gives, beside those of an entity, and the types that `requiresDefaultKey` of
-- crud.go refuses.
use godynamo.Prelude.{
  String, ◌≡◌, ◌↔◌, ◌⊎◌, refl, ◌∙◌, true, false, ◌&&◌, some, List, [], ◌∷◌, is_empty, inl, inr,
}
use godynamo.Fault.{ok, err, Error, errors_is, err_non_default_key}
use godynamo.Text.{join}
use godynamo.Reflect.{
  Model, Struct, StructType, Uuid, plain, uuid, type_of, zero_of, model_of, set_model,
}
use godynamo.Reflect.Laws.{type_of-set_model, model_of-set_model}
use godynamo.Reflect.Embedding.{
  IsEntity, IsEntityType, entity_model, entity_id, set_model-IsEntity, zero_of-IsEntity,
  type_of-zero_of,
}
use godynamo.Sdk.{Runtime}
use godynamo.Tags.{ModelTags, parse_tags_fresh}
use godynamo.Keys.{Arg, struct, pointer, pk, sk, pk_fields_of, sk_fields_of, key_parts, build_key}
use godynamo.ZeroKeys.{non_default_key_err, model_field_of, requires_default_key, zero_keys}

-- The tags of a type that lists no key fields.
pub record IsDefault (mt : ModelTags) : Type 0 where
  pub no_pk : mt.pk_fields ≡ []
  pub no_sk : mt.sk_fields ≡ []

module _ (R : Runtime) where
  -- `Type#ID`
  abbrev pub id_key : String → Uuid → String
  id_key name id = join (name ∷ R.format (plain (uuid id)) ∷ []) "#"

  module _ (v : Struct) (m : Model) (mt : ModelTags) (entity : IsEntity v)
      (found : model_of v ≡ some m) (tags : parse_tags_fresh (type_of v) ≡ ok mt)
      (default : IsDefault mt) where
    build_id_key : (name : String) → build_key R name v ("ID" ∷ []) ≡ ok (id_key name m.id)
    unfolding build_key key_parts
    build_id_key name = rw (entity_id v m entity found, key_parts)

    pub pk_default : pk R (struct v) ≡ ok (id_key mt.struct_name m.id)
    unfolding pk pk_fields_of
    pk_default = rw (tags, default.no_pk) (build_id_key mt.struct_name)

    pub sk_default : sk R (struct v) ≡ ok (id_key mt.struct_name m.id)
    unfolding sk sk_fields_of
    sk_default = rw (tags, default.no_sk) (build_id_key mt.struct_name)

  pub pk_of_pointer : (a : Arg) → pk R (pointer a) ≡ pk R a
  unfolding pk
  pk_of_pointer a = refl

  pub sk_of_pointer : (a : Arg) → sk R (pointer a) ≡ sk R a
  unfolding sk
  sk_of_pointer a = refl

  module _ (t : StructType) (mt : ModelTags) (entity : IsEntityType t)
      (tags : parse_tags_fresh t ≡ ok mt) (default : IsDefault mt) where
    pub zero_keys_default :
        (id : Uuid) → zero_keys R t id ≡ ok (id_key mt.struct_name id, id_key mt.struct_name id)
    unfolding zero_keys model_field_of
    zero_keys_default id =
        let zero = zero_of-IsEntity t entity in
        let (m, found, _) = entity_model (zero_of t) zero in
        let m' : Model = record m { id = id } in
        let v = set_model m' (zero_of t) in
        let ent = set_model-IsEntity m' (zero_of t) zero in
        let has = model_of-set_model m' m (zero_of t) found in
        let same : type_of v ≡ t = type_of-set_model m' (zero_of t) ∙ type_of-zero_of t in
        let tags' : parse_tags_fresh (type_of v) ≡ ok mt = rw same tags in
        rw (
          found,
          pk_of_pointer (struct v),
          pk_default v m' mt ent has tags' default,
          sk_of_pointer (struct v),
          sk_default v m' mt ent has tags' default,
        )

    -- For an entity type with the default keys, the keys that Get, Delete, Update and the batch
    -- operations compute from an ID are equal to each other, and are the partition key and the
    -- sort key of every entity of the type that has this ID.
    pub zero_keys-pk-sk :
        (v : Struct) (m : Model)
        → IsEntity v
        → type_of v ≡ t
        → model_of v ≡ some m
        → (k : String) × (zero_keys R t m.id ≡ ok (k, k))
          × (pk R (struct v) ≡ ok k)
          × (sk R (struct v) ≡ ok k)
    zero_keys-pk-sk v m ent same found =
        let tags' : parse_tags_fresh (type_of v) ≡ ok mt = rw same tags in
        (
          id_key mt.struct_name m.id,
          zero_keys_default m.id,
          pk_default v m mt ent found tags' default,
          sk_default v m mt ent found tags' default,
        )

empty_lists :
    (xs ys : List String)
    → ((xs ≡ []) × (ys ≡ []) × ((is_empty xs && is_empty ys) ≡ true))
      ⊎ (¬ ((xs ≡ []) × (ys ≡ [])) × ((is_empty xs && is_empty ys) ≡ false))
empty_lists [] [] = inl (refl, refl, refl)
empty_lists [] (y ∷ ys) = inr (λ (a, e). cc, refl)
empty_lists (x ∷ xs) ys = inr (λ (e, a). cc, refl)

-- A type is refused exactly if its tag lists a key field, and the error wraps `ErrNonDefaultKey`.
pub requires_default_key_of_tags :
    (t : StructType) (op : String) (mt : ModelTags)
    → parse_tags_fresh t ≡ ok mt
    → ((requires_default_key t op ≡ ok tt) ↔ IsDefault mt)
      × (IsDefault mt
          ⊎ ((e : Error) × (requires_default_key t op ≡ err e)
              × (errors_is e err_non_default_key ≡ true)))
unfolding requires_default_key errors_is
requires_default_key_of_tags t op mt tags = elim (empty_lists mt.pk_fields mt.sk_fields) [
  | inl (p, q, e) ↦ (
    (λ _. record { no_pk = p; no_sk = q }, λ _. rw (tags, e)),
    inl (record { no_pk = p; no_sk = q }),
  )
  | inr (other, e) ↦ (
    (λ h. cc (rw (tags, e) at h), λ d. absurd (other (d.no_pk, d.no_sk))),
    inr (non_default_key_err op t.name, rw (tags, e), refl),
  )
]
