-- ===== src/Tags.antt =====
-- tags.go: the `dynamo` tag of the embedded `Model`, the `compress` tags, attribute names, and the
-- cache of parsed tags.
pub mod Parsing
pub mod Cache
use godynamo.Prelude.{
  ℕ, String, str_eq, ◌<>◌, Bool, true, false, ◌&&◌, ◌||◌, not, Option, none, some, List, [], ◌∷◌,
  ◌++◌, foldl, if◌then◌else◌,
}
use godynamo.Fault.{Outcome, ok, panic}
use godynamo.Text.{trim_space, split, cut}
use godynamo.Reflect.{
  StructField, StructType, tag_lookup, has_model_type, find_field, type_field_by_name,
}

abbrev pub tag_key : String
tag_key = "dynamo"

abbrev pub clause_sep : ℕ
clause_sep = b';'

abbrev pub field_sep : ℕ
field_sep = b','

abbrev pub kv_sep : ℕ
kv_sep = b':'

abbrev pub pk_clause_key : String
pk_clause_key = "pk"

abbrev pub sk_clause_key : String
sk_clause_key = "sk"

abbrev pub id_field_name : String
id_field_name = "ID"

abbrev pub compress_tag_value : String
compress_tag_value = "compress"

abbrev pub dynamodbav_tag_key : String
dynamodbav_tag_key = "dynamodbav"

-- A nil slice and an empty one are told apart nowhere, so both are the empty list.
pub record ModelTags : Type 0 where
  pub struct_name : String
  pub pk_fields : List String
  pub sk_fields : List String
  pub compress_fields : List String

-- The loop of `splitFields` over the parts.
keep_fields : List String → List String
keep_fields [] = []
keep_fields (p ∷ ps) =
    let name = trim_space p in
    let rest = keep_fields ps in if str_eq name "" then rest else name ∷ rest

unfoldable pub split_fields : String → List String
unfolding keep_fields
split_fields val = keep_fields (split val field_sep)

-- The body of the loop over the clauses: a later clause of the same key replaces an earlier one.
unfoldable pub parse_clause : ModelTags → String → ModelTags
parse_clause mt raw =
    let clause = trim_space raw in
    if str_eq clause ""
    then mt
    else let (key, val, found) = cut clause kv_sep in
      if not found
      then mt
      else let name = trim_space key in
        let fields = split_fields val in
        if str_eq name pk_clause_key
        then record mt { pk_fields = fields }
        else if str_eq name sk_clause_key
        then record mt { sk_fields = fields }
        else mt

-- `parseModelClauses` on the tag that `field.Tag.Lookup(tagKey)` gives.
unfoldable pub parse_model_clauses : ModelTags → Option String → ModelTags
parse_model_clauses mt none = mt
parse_model_clauses mt (some tag) =
    if str_eq (trim_space tag) "" then mt else foldl parse_clause mt (split tag clause_sep)

abbrev is_compress : Option String → Bool
is_compress none = false
is_compress (some val) = str_eq (trim_space val) compress_tag_value

-- The loop of `parseCompressFields` over the fields.
unfoldable pub compress_fields_of : List StructField → List String
compress_fields_of [] = []
compress_fields_of (sf ∷ fields) =
    let rest = compress_fields_of fields in
    if not (has_model_type sf) && is_compress (tag_lookup sf tag_key) then sf.name ∷ rest else rest

unfoldable pub parse_compress_fields : StructType → List String
unfolding compress_fields_of
parse_compress_fields t = compress_fields_of t.fields

-- What `parseTags` does when the cache has no entry for the type.
unfoldable pub parse_tags_fresh : StructType → Outcome ModelTags
parse_tags_fresh t = elim (type_field_by_name t "Model") [
  | none ↦ panic ("godynamo: struct " <> t.name <> " must embed godynamo.Model")
  | some field ↦
      if not (has_model_type field)
      then panic ("godynamo: struct " <> t.name <> " must embed godynamo.Model")
      else let mt : ModelTags = record {
        struct_name = t.name;
        pk_fields = [];
        sk_fields = [];
        compress_fields = [];
      } in
        ok (record (parse_model_clauses mt (tag_lookup field tag_key)) {
          compress_fields = parse_compress_fields t;
        })
]

abbrev attr_or : String → Option String → String
attr_or go_field_name none = go_field_name
attr_or go_field_name (some tag_str) =
    let name = (cut tag_str field_sep).0 in
    if str_eq name "" || str_eq name "-" then go_field_name else name

unfoldable pub resolve_attr_name : StructType → String → String
resolve_attr_name t go_field_name = elim (type_field_by_name t go_field_name) [
  | none ↦ go_field_name
  | some field ↦ attr_or go_field_name (tag_lookup field dynamodbav_tag_key)
]
