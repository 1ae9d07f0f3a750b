-- ===== src/Reflect/Embedding.antt =====
-- Structs that embed `Model` and have no `ID` of their own: the shape that the package asks of an
-- entity. `Model` is then found under its name, and its ID is promoted.
use godynamo.Prelude.{
  String, eq_iff, str_ne, ◌≡◌, ◌≢◌, ◌⊎◌, inl, inr, refl, true, false, ◌&&◌, none, some, List, [],
  ◌∷◌, map, All, ap, sym,
}
use mathlib.Core.Path.{subst}
use godynamo.Reflect.Laws.{type_of-set_model}
use godynamo.Reflect.{
  FieldValue, Model, model_value, plain, uuid, Slot, Struct, StructField, StructType, is_model,
  has_model_type, find_slot, find_promoted, field_by_name, model_of, model_of_slot, model_field,
  zero_of, set_model, Found, promoted, set_slot, type_of,
}

-- A slot's value is a `Model` exactly if its declaration says so.
abbrev pub IsTyped : Slot → Type 0
IsTyped s = is_model s.value ≡ has_model_type s.decl

-- The embedded `Model`, which is called `Model`.
pub record IsEmbedded (f : StructField) : Type 0 where
  pub named : f.name ≡ "Model"
  pub anonymous : f.anonymous ≡ true
  pub typed : has_model_type f ≡ true

-- Any other field: it is not called `Model`, and embeds none.
pub record IsOther (f : StructField) : Type 0 where
  pub named : f.name ≢ "Model"
  pub not_embedded : (f.anonymous && has_model_type f) ≡ false

abbrev pub EmbedsModel : List StructField → Type 0
EmbedsModel [] = ⊥
EmbedsModel (f ∷ fields) = (IsEmbedded f × All IsOther fields) ⊎ (IsOther f × EmbedsModel fields)

-- What the package asks of an entity type.
pub record IsEntityType (t : StructType) : Type 0 where
  pub embeds : EmbedsModel t.fields
  pub no_own_id : All (λ f. f.name ≢ "ID") t.fields

abbrev decl_of : Slot → StructField
decl_of s = s.decl

-- A value whose slots are typed has a `Model`: the one that is called `Model` is the one whose
-- fields are promoted.
module _ (slot_id : String) where
  embedded_model :
      (slots : List Slot)
      → All IsTyped slots
      → EmbedsModel (map decl_of slots)
      → (m : Model) × (model_of_slot (find_slot "Model" slots) ≡ some m)
        × (find_promoted slot_id slots ≡ promoted (model_value m) slot_id)
  unfolding find_slot find_promoted
  embedded_model [] _ h = absurd h
  embedded_model (s ∷ slots) (ts, tss) (inl (e, _)) = embedded_first s slots ts e s.value refl
    where
      embedded_first :
          (s : Slot) (slots : List Slot)
          → IsTyped s
          → IsEmbedded s.decl
          → (value : FieldValue) → s.value ≡ value
          → (m : Model) × (model_of_slot (find_slot "Model" (s ∷ slots)) ≡ some m)
            × (find_promoted slot_id (s ∷ slots) ≡ promoted (model_value m) slot_id)
      embedded_first s slots ts e (model_value m) v =
          (m, rw ((eq_iff s.decl.name "Model").1 e.named, v), rw (e.anonymous, v))
      embedded_first s slots ts e (plain a) v = absurd (cc (e.typed, ts, v))
  embedded_model (s ∷ slots) (ts, tss) (inr (o, h)) =
      let (m, found, pro) = embedded_model slots tss h in
      (m, rw (str_ne s.decl.name "Model" o.named) found, rw (ts, o.not_embedded) pro)

find_slot_of_no_own :
    (name : String) (slots : List Slot)
    → All (λ (f : StructField). f.name ≢ name) (map decl_of slots)
    → find_slot name slots ≡ none
unfolding find_slot
find_slot_of_no_own name [] _ = refl
find_slot_of_no_own name (s ∷ slots) (h, hs) =
    rw (str_ne s.decl.name name h) (find_slot_of_no_own name slots hs)

-- A struct whose values fit their declarations, of an entity type.
pub record IsEntity (v : Struct) : Type 0 where
  pub typed : All IsTyped v.slots
  pub entity : IsEntityType (type_of v)

abbrev pub id_field : Model → Found
id_field m = record { value = plain (uuid m.id); exported = true }

-- The `Model` of an entity, and its ID as the field that `FieldByName("ID")` finds.
pub entity_model :
    (v : Struct)
    → IsEntity v
    → (m : Model) × (model_of v ≡ some m) × (field_by_name v "ID" ≡ some (id_field m))
unfolding model_of field_by_name model_field
entity_model v h =
    let (m, found, pro) = embedded_model "ID" v.slots h.typed h.entity.embeds in
    (m, found, rw (find_slot_of_no_own "ID" v.slots h.entity.no_own_id, pro, field_by_name))

pub entity_id :
    (v : Struct) (m : Model)
    → IsEntity v
    → model_of v ≡ some m
    → field_by_name v "ID" ≡ some (id_field m)
entity_id v m h found = let (n, found', id) = entity_model v h in cc (id, found, found')

-- Writing the embedded `Model` keeps the values typed.
set_slot-IsTyped :
    (m : Model) (slots : List Slot)
    → All IsTyped slots
    → EmbedsModel (map decl_of slots)
    → All IsTyped (set_slot "Model" (model_value m) slots)
unfolding set_slot
set_slot-IsTyped m [] _ h = tt
set_slot-IsTyped m (s ∷ slots) (ts, tss) (inl (e, _)) =
    rw ((eq_iff s.decl.name "Model").1 e.named) (sym e.typed, tss)
set_slot-IsTyped m (s ∷ slots) (ts, tss) (inr (o, h)) =
    rw (str_ne s.decl.name "Model" o.named) (ts, set_slot-IsTyped m slots tss h)

pub set_model-IsEntity : (m : Model) (v : Struct) → IsEntity v → IsEntity (set_model m v)
set_model-IsEntity m v h = record {
  typed = set_slot-IsTyped m v.slots h.typed h.entity.embeds;
  entity = subst IsEntityType (sym (type_of-set_model m v)) h.entity;
}

zero_slots-IsTyped :
    (fields : List StructField)
    → All IsTyped (map (λ f. record { decl = f; value = f.zero_value }) fields)
zero_slots-IsTyped [] = tt
zero_slots-IsTyped (f ∷ fields) = (refl, zero_slots-IsTyped fields)

decl_of-zero_slots :
    (fields : List StructField)
    → map decl_of (map (λ f. record { decl = f; value = f.zero_value }) fields) ≡ fields
decl_of-zero_slots [] = refl
decl_of-zero_slots (f ∷ fields) = ap (λ (t : List StructField). f ∷ t) (decl_of-zero_slots fields)

pub type_of-zero_of : (t : StructType) → type_of (zero_of t) ≡ t
type_of-zero_of t = cc (decl_of-zero_slots t.fields)

pub zero_of-IsEntity : (t : StructType) → IsEntityType t → IsEntity (zero_of t)
zero_of-IsEntity t h = record {
  typed = zero_slots-IsTyped t.fields;
  entity = subst IsEntityType (sym (type_of-zero_of t)) h;
}
