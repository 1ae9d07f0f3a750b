-- ===== src/Compress.antt =====
-- compress.go: structs to and from attribute maps, with the fields tagged `compress` as gzipped
-- JSON.
pub mod Laws
pub mod RoundTrip
pub mod Restored
pub mod Codec
use godynamo.Prelude.{String, ◌<>◌, not, Option, none, some, List, [], ◌∷◌, is_empty, if◌then◌else◌}
use godynamo.Dict.{lookup, insert, erase, copy}
use godynamo.Fault.{Outcome, ok, err, panic, wrapped, ◌>>=◌, wrap_err}
use godynamo.Reflect.{
  FieldValue, Slot, Struct, StructType, type_of, zero_of, find_slot, field_by_name, set_field,
  Found,
}
use godynamo.Sdk.{Bytes, b, Item, Runtime}
use godynamo.Tags.{ModelTags, parse_tags_fresh, resolve_attr_name}

pub record CompressedField : Type 0 where
  pub field_name : String
  pub content : Bytes

-- The loop of `extractCompressedFields` over the compressed fields.
unfoldable pub extract_loop : StructType → List String → Item → Item × List CompressedField
extract_loop t [] filtered = (filtered, [])
extract_loop t (name ∷ names) filtered = elim (lookup (resolve_attr_name t name) filtered) [
  | some (b content) ↦
      let (rest, pending) = extract_loop t names (erase (resolve_attr_name t name) filtered) in
      (rest, record { field_name = name; content = content } ∷ pending)
  | _ ↦ extract_loop t names filtered
]

unfoldable pub extract_compressed_fields :
    StructType → ModelTags → Item → Item × List CompressedField
extract_compressed_fields t mt av = extract_loop t mt.compress_fields (copy av)

module _ (R : Runtime) where
  unfoldable pub compress_json : Bytes → Outcome Bytes
  compress_json content = wrap_err "godynamo: gzip compress" (R.gzip content)

  unfoldable pub decompress_json : Bytes → Outcome Bytes
  decompress_json content = wrap_err "godynamo: gzip decompress" (R.gunzip content)

  abbrev pub compress_value : String → FieldValue → Outcome Bytes
  compress_value name value = do
    raw ← wrap_err ("godynamo: marshaling compressed field " <> name) (R.json_marshal value)
    wrap_err ("godynamo: compressing field " <> name) (compress_json raw)

  -- One round of the loop of `marshalItem`, on what `sv.FieldByName(fieldName)` gives.
  abbrev pub compress_one : Struct → String → Option Found → Item → Outcome Item
  compress_one sv name none av = ok av
  compress_one sv name (some fv) av =
      let stored : Outcome Item = compress_value name fv.value >>= λ compressed.
      ok (insert (resolve_attr_name (type_of sv) name) (b compressed) av) in
      if not fv.exported
      then panic
          "reflect.Value.Interface: cannot return value obtained from unexported field or method"
      else stored

  -- The loop of `marshalItem` over the compressed fields.
  unfoldable pub compress_loop : Struct → List String → Item → Outcome Item
  compress_loop sv [] av = ok av
  compress_loop sv (name ∷ names) av =
      compress_one sv name (field_by_name sv name) av >>= λ av'. compress_loop sv names av'

  unfoldable pub marshal_item : Struct → Outcome Item
  marshal_item sv = do
    av ← R.marshal_map sv
    mt ← parse_tags_fresh (type_of sv)
    compress_loop sv mt.compress_fields av

  abbrev pub set_decoded : String → Outcome FieldValue → Struct → Outcome (Unit {0}) × Struct
  set_decoded name (ok value) sv = (ok tt, set_field name value sv)
  set_decoded name (err e) sv =
      (err (wrapped ("godynamo: unmarshaling compressed field " <> name) e), sv)
  set_decoded name (panic m) sv = (panic m, sv)

  -- One round of `applyPendingCompressedFields`, on the outcome of the decompression.
  abbrev pub apply_one : String → Option Slot → Outcome Bytes → Struct → Outcome (Unit {0}) × Struct
  apply_one name slot (err e) sv = (err (wrapped ("godynamo: decompressing field " <> name) e), sv)
  apply_one name slot (panic m) sv = (panic m, sv)
  apply_one name none (ok raw) sv = (ok tt, sv)
  apply_one name (some fv) (ok raw) sv =
      if not fv.decl.exported
      then (ok tt, sv)
      else set_decoded name (R.json_unmarshal fv.decl.zero_value raw) sv

  unfoldable pub apply_pending_compressed_fields :
      List CompressedField → Struct → Outcome (Unit {0}) × Struct
  apply_pending_compressed_fields [] sv = (ok tt, sv)
  apply_pending_compressed_fields (p ∷ pending) sv =
      let (r, sv') =
        apply_one p.field_name (find_slot p.field_name sv.slots) (decompress_json p.content) sv in
      elim r [
        | ok _ ↦ apply_pending_compressed_fields pending sv'
        | err e ↦ (err e, sv')
        | panic m ↦ (panic m, sv')
      ]

  abbrev pub after_unmarshal :
      List CompressedField → Outcome (Unit {0}) × Struct → Outcome (Unit {0}) × Struct
  after_unmarshal pending (ok _, sv) = apply_pending_compressed_fields pending sv
  after_unmarshal pending (err e, sv) = (err (wrapped "godynamo: unmarshal" e), sv)
  after_unmarshal pending (panic m, sv) = (panic m, sv)

  abbrev pub unmarshal_with : Item → Struct → Outcome ModelTags → Outcome (Unit {0}) × Struct
  unmarshal_with av dst (ok mt) =
      if is_empty mt.compress_fields
      then after_unmarshal [] (R.unmarshal_map av dst)
      else let (filtered, pending) = extract_compressed_fields (type_of dst) mt av in
        after_unmarshal pending (R.unmarshal_map filtered dst)
  unmarshal_with av dst (err e) = (err e, dst)
  unmarshal_with av dst (panic m) = (panic m, dst)

  -- The outcome, and the destination as it is left, on errors too.
  unfoldable pub unmarshal_item_into : Item → Struct → Outcome (Unit {0}) × Struct
  unmarshal_item_into av dst = unmarshal_with av dst (parse_tags_fresh (type_of dst))

  abbrev pub decoded : Outcome (Unit {0}) × Struct → Outcome Struct
  decoded (ok _, v) = ok v
  decoded (err e, v) = err e
  decoded (panic m, v) = panic m

  -- `var item T; err := unmarshalItemInto(av, &item)`
  unfoldable pub unmarshal_new : StructType → Item → Outcome Struct
  unmarshal_new t av = decoded (unmarshal_item_into av (zero_of t))

  -- The loops that append each unmarshaled item to a slice: the first failure ends them.
  unfoldable pub unmarshal_all : StructType → List Item → Outcome (List Struct)
  unmarshal_all t [] = ok []
  unmarshal_all t (av ∷ avs) =
      let rest = unmarshal_all t avs in
      unmarshal_new t av >>= λ item. rest >>= λ items. ok (item ∷ items)
