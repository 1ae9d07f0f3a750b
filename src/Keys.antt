-- ===== src/Keys.antt =====
-- keys.go: partition and sort keys from the tags and the fields of a struct.
pub mod Laws
use godynamo.Prelude.{
  String, str_eq, ◌<>◌, Bool, true, false, not, Option, none, some, List, [], ◌∷◌, ◌++◌, is_empty,
  if◌then◌else◌,
}
use godynamo.Fault.{Outcome, ok, panic, ◌>>=◌}
use godynamo.Text.{join}
use godynamo.Reflect.{
  Any, nil, string, int, time, uuid, other, FieldValue, model_value, plain, Struct, type_of,
  field_by_name,
}
use godynamo.Sdk.{Runtime}
use godynamo.Tags.{ModelTags, parse_tags_fresh, id_field_name}

-- What a caller passes as `v any`: a struct, a pointer, nil pointers, or something else.
pub data Arg : Type 0 where
  struct : Struct → Arg
  pointer : Arg → Arg
  nil_pointer : Arg
  scalar : Any → Arg

unfoldable pub struct_value_of : Arg → Outcome Struct
struct_value_of (struct v) = ok v
struct_value_of (pointer a) = struct_value_of a
struct_value_of nil_pointer = panic "godynamo: nil pointer passed to key builder"
struct_value_of (scalar a) = panic "godynamo: value must be a struct or pointer to struct"

-- The last name of a list, `fields[len(fields)-1]`.
abbrev pub last_or : String → List String → String
last_or d [] = d
last_or d (f ∷ fields) = last_or f fields

unfoldable pub pk_fields_of : ModelTags → List String
pk_fields_of mt = if is_empty mt.pk_fields then id_field_name ∷ [] else mt.pk_fields

unfoldable pub sk_fields_of : ModelTags → List String
sk_fields_of mt =
    if is_empty mt.sk_fields
    then id_field_name ∷ []
    else if not (str_eq (last_or "" mt.sk_fields) id_field_name)
    then mt.sk_fields ++ (id_field_name ∷ [])
    else mt.sk_fields

module _ (R : Runtime) where
  -- `fmt.Sprint`
  abbrev pub sprint : FieldValue → String
  sprint (plain (string t)) = t
  sprint (plain nil) = R.format (plain nil)
  sprint (plain (int n)) = R.format (plain (int n))
  sprint (plain (time t)) = R.format (plain (time t))
  sprint (plain (uuid u)) = R.format (plain (uuid u))
  sprint (plain (other n)) = R.format (plain (other n))
  sprint (model_value m) = R.format (model_value m)

  -- The loop of `buildKey` over the field names.
  unfoldable pub key_parts : String → Struct → List String → Outcome (List String)
  key_parts struct_name sv [] = ok []
  key_parts struct_name sv (name ∷ fields) =
      let rest = key_parts struct_name sv fields in
      elim (field_by_name sv name) [
        | none ↦ panic ("godynamo: field " <> name <> " not found on struct " <> struct_name)
        | some fv ↦
            if not fv.exported
            then panic
                "reflect.Value.Interface: cannot return value obtained from unexported field or method"
            else rest >>= λ parts. ok (sprint fv.value ∷ parts)
      ]

  unfoldable pub build_key : String → Struct → List String → Outcome String
  build_key struct_name sv fields = do
    parts ← key_parts struct_name sv fields
    ok (join (struct_name ∷ parts) "#")

  unfoldable pub pk : Arg → Outcome String
  unfolding struct_value_of
  pk v = do
    sv ← struct_value_of v
    mt ← parse_tags_fresh (type_of sv)
    build_key mt.struct_name sv (pk_fields_of mt)

  unfoldable pub sk : Arg → Outcome String
  unfolding struct_value_of
  sk v = do
    sv ← struct_value_of v
    mt ← parse_tags_fresh (type_of sv)
    build_key mt.struct_name sv (sk_fields_of mt)

  -- `PK(v), SK(v)`
  unfoldable pub keys : Arg → Outcome (String × String)
  keys v = do p ← pk v; q ← sk v; ok (p, q)
