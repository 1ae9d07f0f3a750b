-- ===== src/Compress/Restored.antt =====
-- `extractCompressedFields` and `applyPendingCompressedFields` of compress.go, one after the other.
use godynamo.Prelude.{
  String, str_eq, ◌≡◌, refl, ◌∙◌, ap, Option, none, some, List, [], ◌∷◌, All, arith, Bool-cases,
  inl, inr, if◌then◌else◌,
}
use godynamo.Dict.{lookup, erase, lookup-erase}
use godynamo.Fault.{ok, Outcome}
use godynamo.Reflect.{Struct, type_of, find_slot, Slot, set_field}
use godynamo.Sdk.{Bytes, Item, Runtime}
use godynamo.Tags.{resolve_attr_name}
use godynamo.Compress.{
  CompressedField, extract_loop, decompress_json, apply_one, apply_pending_compressed_fields,
}
use godynamo.Compress.RoundTrip.{
  without, is_attr_of, HaveOwnAttrs, IsHeld, All-IsHeld-erase, set_slot-blank,
}

module _ (R : Runtime) (v : Struct) where
  extract_loop-held :
      (name : String) (names : List String) (item : Item) (h : IsHeld R v item name)
      → extract_loop (type_of v) (name ∷ names) item ≡ (
        (extract_loop (type_of v) names (erase (resolve_attr_name (type_of v) name) item)).0,
        record { field_name = name; content = h.content }
            ∷ (extract_loop (type_of v) names (erase (resolve_attr_name (type_of v) name) item)).1,
      )
  unfolding extract_loop
  extract_loop-held name names item h = rw (h.held, extract_loop)

  -- The filtered item is without the attributes of the compressed fields.
  pub extract_loop-lookup :
      (names : List String) (item : Item) (a : String)
      → HaveOwnAttrs (type_of v) names
      → All (IsHeld R v item) names
      → lookup a (extract_loop (type_of v) names item).0
        ≡ (if is_attr_of (type_of v) names a then none else lookup a item)
  unfolding extract_loop
  extract_loop-lookup [] item a _ _ = refl
  extract_loop-lookup (name ∷ names) item a (own, owns) (h, hs) =
      let attr = resolve_attr_name (type_of v) name in
      let rest =
        extract_loop-lookup names (erase attr item) a owns
          (All-IsHeld-erase R v attr item names own hs) in
      ap (λ (r : Item × List CompressedField). lookup a r.0) (extract_loop-held name names item h)
      ∙ rest
      ∙ elim (Bool-cases (str_eq attr a)) [
        | inl e ↦ ground (arith, e, lookup-erase attr a item)
        | inr e ↦ ground (arith, e, lookup-erase attr a item)
      ]

  module _
      (gzip_reads : (raw content : Bytes)
        → R.gzip raw ≡ ok content
        → R.gunzip content ≡ ok raw) where
    apply_one-held :
        (name : String) (item : Item) (h : IsHeld R v item name) (sv : Struct) (slot : Option Slot)
        → slot ≡ some (record h.field.slot { value = h.field.slot.decl.zero_value })
        → apply_one R name slot (decompress_json R h.content) sv
          ≡ (ok tt, set_field name h.field.slot.value sv)
    unfolding decompress_json
    apply_one-held name item h sv slot found = rw (
      found,
      gzip_reads h.raw h.content h.compressed,
      h.field.exported,
      h.field.json_reads h.raw h.marshaled,
    )

    apply_pending-held :
        (name : String) (item : Item) (h : IsHeld R v item name) (sv : Struct)
        (pending : List CompressedField)
        → find_slot name sv.slots
          ≡ some (record h.field.slot { value = h.field.slot.decl.zero_value })
        → apply_pending_compressed_fields R
            (record { field_name = name; content = h.content } ∷ pending)
            sv
          ≡ apply_pending_compressed_fields R pending (set_field name h.field.slot.value sv)
    unfolding apply_pending_compressed_fields
    apply_pending-held name item h sv pending found =
        let step = apply_one-held name item h sv (find_slot name sv.slots) found in
        rw (step, apply_pending_compressed_fields)
          (ap (λ (r : Outcome (Unit {0}) × Struct). apply_pending_compressed_fields R pending r.1)
            step)

    -- The pending fields restore what was blanked.
    pub apply_pending-restores :
        (names : List String) (item : Item)
        → HaveOwnAttrs (type_of v) names
        → All (IsHeld R v item) names
        → apply_pending_compressed_fields R
            (extract_loop (type_of v) names item).1
            (without names v)
          ≡ (ok tt, v)
    unfolding apply_pending_compressed_fields extract_loop
    apply_pending-restores [] item _ _ = refl
    apply_pending-restores (name ∷ names) item (own, owns) (h, hs) =
        let attr = resolve_attr_name (type_of v) name in
        let pending = (extract_loop (type_of v) names (erase attr item)).1 in
        let rest =
          apply_pending-restores names (erase attr item) owns
            (All-IsHeld-erase R v attr item names own hs) in
        let (found, restored) =
          set_slot-blank (type_of v) name names h.field.slot v.slots own h.field.found in
        ap
          (λ (r : Item × List CompressedField).
            apply_pending_compressed_fields R r.1 (without (name ∷ names) v))
          (extract_loop-held name names item h)
        ∙ apply_pending-held name item h (without (name ∷ names) v) pending found
        ∙ ap
            (λ (slots : List Slot).
              apply_pending_compressed_fields R pending (record v { slots = slots }))
            restored
        ∙ rest
