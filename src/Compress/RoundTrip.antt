-- ===== src/Compress/RoundTrip.antt =====
-- compress.go: the fields that `marshalItem` writes, on the way back through `unmarshalItemInto`.
use godynamo.Prelude.{
  String, str_eq, eq_iff, eq_refl, ◌≡◌, refl, sym, ap, ◌∙◌, Bool, true, false, ◌||◌, Option, none,
  some, List, [], ◌∷◌, All, arith, Bool-cases, Option-cases, inl, inr,
}
use godynamo.Dict.{lookup, erase, lookup-erase, lookup-insert_self}
use godynamo.Fault.{ok, >>=-eq-ok}
use godynamo.Reflect.{Slot, Struct, StructType, type_of, find_slot, set_slot, Found, field_by_name}
use godynamo.Reflect.Laws.{set_slot-set_slot, find_slot-set_slot, find_slot_other, set_slot_self}
use godynamo.Sdk.{Bytes, Item, Runtime, b}
use godynamo.Tags.{resolve_attr_name}
use godynamo.Compress.{compress_one, compress_loop}
use godynamo.Compress.Laws.{compress_value-eq-ok, compress_one-eq-ok, compress_loop-lookup}

-- Resetting a field to the zero value of its type.
abbrev pub blank_slot : String → Option Slot → List Slot → List Slot
blank_slot name none slots = slots
blank_slot name (some s) slots = set_slot name s.decl.zero_value slots

abbrev pub blank : List String → List Slot → List Slot
blank [] slots = slots
blank (name ∷ names) slots =
    blank_slot name (find_slot name (blank names slots)) (blank names slots)

-- The struct with these fields at zero.
abbrev pub without : List String → Struct → Struct
without names v = record v { slots = blank names v.slots }

-- Whether an attribute is one of these fields'.
abbrev pub is_attr_of : StructType → List String → String → Bool
is_attr_of t [] a = false
is_attr_of t (name ∷ names) a = str_eq (resolve_attr_name t name) a || is_attr_of t names a

-- These fields are stored under different attributes.
abbrev pub HaveOwnAttrs : StructType → List String → Type 0
HaveOwnAttrs t [] = Unit
HaveOwnAttrs t (name ∷ names) =
    All (λ (other : String). str_eq (resolve_attr_name t other) (resolve_attr_name t name) ≡ false)
      names
    × HaveOwnAttrs t names

attr-distinct :
    (t : StructType) (j k : String)
    → str_eq (resolve_attr_name t j) (resolve_attr_name t k) ≡ false
    → str_eq j k ≡ false
attr-distinct t j k h = elim (Bool-cases (str_eq j k)) [
  | inl e ↦
      let same : str_eq (resolve_attr_name t j) (resolve_attr_name t k) ≡ true =
        rw ((eq_iff j k).0 e) (eq_refl (resolve_attr_name t k)) in
      absurd (cc (h, same))
  | inr e ↦ e
]

module _ (t : StructType) where
  -- A field whose name is not among them keeps its value.
  find_slot-blank :
      (name : String) (names : List String) (slots : List Slot)
      → All
          (λ (k : String). str_eq (resolve_attr_name t k) (resolve_attr_name t name) ≡ false)
          names
      → find_slot name (blank names slots) ≡ find_slot name slots
  find_slot-blank name [] slots _ = refl
  find_slot-blank name (k ∷ names) slots (other, others) =
      let rest = find_slot-blank name names slots others in
      elim (Option-cases (find_slot k (blank names slots))) [
        | inl e ↦ rw e rest
        | inr (s, e) ↦
            rw e
              (find_slot_other k name _ (blank names slots) (attr-distinct t k name other) ∙ rest)
      ]

  -- A blanked field is restored by writing its value.
  pub set_slot-blank :
      (name : String) (names : List String) (s : Slot) (slots : List Slot)
      → All
          (λ (k : String). str_eq (resolve_attr_name t k) (resolve_attr_name t name) ≡ false)
          names
      → find_slot name slots ≡ some s
      → (find_slot name (blank (name ∷ names) slots)
          ≡ some (record s { value = s.decl.zero_value }))
        × (set_slot name s.value (blank (name ∷ names) slots) ≡ blank names slots)
  set_slot-blank name names s slots others found =
      let kept = find_slot-blank name names slots others ∙ found in
      (
        rw kept (find_slot-set_slot name s.decl.zero_value (blank names slots) ∙ rw kept refl),
        rw kept (
            set_slot-set_slot name s.decl.zero_value s.value (blank names slots)
            ∙ set_slot_self name s (blank names slots) kept),
      )

module _ (R : Runtime) (v : Struct) where
  -- A field that there is, that is exported and that json reads back.
  pub record IsCompressible (name : String) : Type 0 where
    pub slot : Slot
    pub found : find_slot name v.slots ≡ some slot
    pub exported : slot.decl.exported ≡ true
    pub json_reads :
        (raw : Bytes)
        → R.json_marshal slot.value ≡ ok raw
        → R.json_unmarshal slot.decl.zero_value raw ≡ ok slot.value

  -- An item holds the gzipped JSON of the field under its attribute.
  pub record IsHeld (item : Item) (name : String) : Type 0 where
    pub field : IsCompressible name
    pub raw : Bytes
    pub content : Bytes
    pub marshaled : R.json_marshal field.slot.value ≡ ok raw
    pub compressed : R.gzip raw ≡ ok content
    pub held : lookup (resolve_attr_name (type_of v) name) item ≡ some (b content)

  pub IsHeld-keep :
      (item item' : Item) (name : String)
      → lookup (resolve_attr_name (type_of v) name) item'
        ≡ lookup (resolve_attr_name (type_of v) name) item
      → IsHeld item name
      → IsHeld item' name
  IsHeld-keep item item' name same h = record {
    field = h.field;
    raw = h.raw;
    content = h.content;
    marshaled = h.marshaled;
    compressed = h.compressed;
    held = same ∙ h.held;
  }

  -- What the loop of `marshalItem` writes is held.
  pub compress_loop-IsHeld :
      (names : List String) (av base : Item)
      → All IsCompressible names
      → HaveOwnAttrs (type_of v) names
      → compress_loop R v names av ≡ ok base
      → All (IsHeld base) names
  unfolding compress_loop field_by_name
  compress_loop-IsHeld [] av base _ _ h = tt
  compress_loop-IsHeld (name ∷ names) av base (c, cs) (own, owns) h =
      let (av', e, h1) = >>=-eq-ok (compress_one R v name (field_by_name v name) av) _ h in
      let fv : Found = record { value = c.slot.value; exported = c.slot.decl.exported } in
      let seen : field_by_name v name ≡ some fv = rw (c.found, field_by_name) refl in
      let (content, e1, stored) =
        compress_one-eq-ok R v name fv av av'
          (sym (ap (λ (o : Option Found). compress_one R v name o av) seen) ∙ e) in
      let (raw, e2, e3) = compress_value-eq-ok R name c.slot.value content e1 in
      let kept =
        compress_loop-lookup R v (resolve_attr_name (type_of v) name) names av' base own h1 in
      let held : IsHeld base name = record {
        field = c;
        raw = raw;
        content = content;
        marshaled = e2;
        compressed = e3;
        held =
            kept
            ∙ ap (lookup (resolve_attr_name (type_of v) name)) stored
            ∙ lookup-insert_self (resolve_attr_name (type_of v) name) (b content) av;
      } in
      (held, compress_loop-IsHeld names av' base cs owns h1)

  pub All-IsHeld-erase :
      (a : String) (item : Item) (names : List String)
      → All (λ (k : String). str_eq (resolve_attr_name (type_of v) k) a ≡ false) names
      → All (IsHeld item) names
      → All (IsHeld (erase a item)) names
  All-IsHeld-erase a item [] _ _ = tt
  All-IsHeld-erase a item (k ∷ names) (o, os) (h, hs) =
      let other : str_eq a (resolve_attr_name (type_of v) k) ≡ false = ground (
        arith,
        o,
        eq_iff a (resolve_attr_name (type_of v) k),
        eq_iff (resolve_attr_name (type_of v) k) a,
      ) in
      (
        IsHeld-keep item (erase a item) k (rw (lookup-erase, other) refl) h,
        All-IsHeld-erase a item names os hs,
      )
