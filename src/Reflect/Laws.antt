-- ===== src/Reflect/Laws.antt =====
-- Reading and writing of fields: the laws of the model of `reflect`.
use godynamo.Prelude.{
  String, str_eq, eq_iff, Bool-cases, Option-cases, inl, inr, false, ◌≡◌, refl, ap, Option, none,
  some, List, [], ◌∷◌, map, arith,
}
use godynamo.Reflect.{
  FieldValue, Model, model_value, Slot, Struct, find_slot, set_slot, model_of_slot, model_of,
  set_model, type_of,
}

pub map-decl-set_slot :
    (name : String) (x : FieldValue) (slots : List Slot)
    → map (λ (s : Slot). s.decl) (set_slot name x slots) ≡ map (λ (s : Slot). s.decl) slots
unfolding set_slot
map-decl-set_slot name x [] = refl
map-decl-set_slot name x (s ∷ slots) = ground (arith, map-decl-set_slot name x slots)

pub type_of-set_model : (m : Model) (v : Struct) → type_of (set_model m v) ≡ type_of v
type_of-set_model m v = cc (map-decl-set_slot "Model" (model_value m) v.slots)

abbrev pub with_value : FieldValue → Option Slot → Option Slot
with_value x none = none
with_value x (some s) = some (record s { value = x })

pub find_slot-set_slot :
    (name : String) (x : FieldValue) (slots : List Slot)
    → find_slot name (set_slot name x slots) ≡ with_value x (find_slot name slots)
unfolding find_slot set_slot
find_slot-set_slot name x [] = refl
find_slot-set_slot name x (s ∷ slots) = elim (Bool-cases (str_eq s.decl.name name)) [
  | inl e ↦ rw (e, e)
  | inr e ↦ rw (e, e) (find_slot-set_slot name x slots)
]

-- A struct with a `Model` has the `Model` that was written last.
pub model_of-set_model :
    (m n : Model) (v : Struct) → model_of v ≡ some n → model_of (set_model m v) ≡ some m
unfolding model_of
model_of-set_model m n v h = elim (Option-cases (find_slot "Model" v.slots)) [
  | inl e ↦ cc (ap model_of_slot e)
  | inr (s, e) ↦ rw (find_slot-set_slot, e)
]

-- Writing twice is writing once.
pub set_slot-set_slot :
    (name : String) (x y : FieldValue) (slots : List Slot)
    → set_slot name y (set_slot name x slots) ≡ set_slot name y slots
unfolding set_slot
set_slot-set_slot name x y [] = refl
set_slot-set_slot name x y (s ∷ slots) = elim (Bool-cases (str_eq s.decl.name name)) [
  | inl e ↦ rw (e, e)
  | inr e ↦ rw (e, e) (ap (λ (t : List Slot). s ∷ t) (set_slot-set_slot name x y slots))
]

pub set_model-set_model : (m n : Model) (v : Struct) → set_model n (set_model m v) ≡ set_model n v
set_model-set_model m n v = cc (set_slot-set_slot "Model" (model_value m) (model_value n) v.slots)

-- Writing a field leaves the fields of other names alone.
pub find_slot_other :
    (j k : String) (x : FieldValue) (slots : List Slot)
    → str_eq j k ≡ false
    → find_slot k (set_slot j x slots) ≡ find_slot k slots
unfolding find_slot set_slot
find_slot_other j k x [] other = refl
find_slot_other j k x (s ∷ slots) other = elim (Bool-cases (str_eq s.decl.name j)) [
  | inl e ↦ ground (arith, e, other, eq_iff s.decl.name j, eq_iff j k, eq_iff s.decl.name k)
  | inr e ↦ rw e (ground (arith, find_slot_other j k x slots other))
]

-- Writing what a field holds changes nothing.
pub set_slot_self :
    (name : String) (s : Slot) (slots : List Slot)
    → find_slot name slots ≡ some s
    → set_slot name s.value slots ≡ slots
unfolding find_slot set_slot
set_slot_self name s [] h = cc
set_slot_self name s (t ∷ slots) h = elim (Bool-cases (str_eq t.decl.name name)) [
  | inl e ↦ rw e (cc (rw e at h))
  | inr e ↦ rw e (ap (λ (r : List Slot). t ∷ r) (set_slot_self name s slots (rw e at h)))
]
