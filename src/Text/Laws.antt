-- ===== src/Text/Laws.antt =====
-- Laws of the `strings` functions: splitting and joining, cutting, and trimming.
use Prim.Native.Char.{Char, code}
use Prim.Native.String.{[] as empty, ◌∷◌ as ◌◂◌}
use text.Mathlib.TextLemmas.{nil-append, cons-append}
use godynamo.Prelude.{
  ℕ, suc, ◌≤◌, String, ◌<>◌, ◌≡◌, ◌≢◌, refl, ap, ◌∙◌, true, false, List, [], ◌∷◌, arith, Bool-cases,
  inl, inr, All,
}
use godynamo.Text.{is_space, trim_left, trim_right, trim_space, split, cut, join}

-- No character of the text has this code point.
abbrev pub Lacks : ℕ → String → Type 0
Lacks b empty = Unit
Lacks b (c ◂ s) = (code c ≢ b) × Lacks b s

abbrev pub HasNoSpace : String → Type 0
HasNoSpace empty = Unit
HasNoSpace (c ◂ s) = (is_space (code c) ≡ false) × HasNoSpace s

split_of_Lacks : (s : String) (sep : ℕ) → Lacks sep s → split s sep ≡ s ∷ []
unfolding split
split_of_Lacks empty sep h = refl
split_of_Lacks (c ◂ s) sep (h, hs) = ground (arith, split_of_Lacks s sep hs)

split_at_sep :
    (p s : String) (d : Char) (sep : ℕ)
    → code d ≡ sep
    → Lacks sep p
    → split (p <> (d ◂ s)) sep ≡ p ∷ split s sep
unfolding split
split_at_sep empty s d sep e _ = rw nil-append (ground arith)
split_at_sep (c ◂ p) s d sep e (h, hp) =
    rw cons-append (ground (arith, split_at_sep p s d sep e hp))

-- Splitting a join gives the parts back, if there is a part and none holds the separator.
pub split-join :
    (ps : List String) (d : Char)
    → ps ≢ []
    → All (Lacks (code d)) ps
    → split (join ps (d ◂ "")) (code d) ≡ ps
unfolding join
split-join [] d h _ = absurd (h refl)
split-join (p ∷ []) d _ (hp, _) = split_of_Lacks p (code d) hp
split-join (p ∷ q ∷ ps) d _ (hp, hps) =
    rw (cons-append, nil-append)
      (split_at_sep p (join (q ∷ ps) (d ◂ "")) d (code d) refl hp
        ∙ ap (λ (t : List String). p ∷ t) (split-join (q ∷ ps) d (cc) hps))

pub cut_of_Lacks : (s : String) (sep : ℕ) → Lacks sep s → cut s sep ≡ (s, "", false)
unfolding cut
cut_of_Lacks empty sep h = refl
cut_of_Lacks (c ◂ s) sep (h, hs) = ground (arith, cut_of_Lacks s sep hs)

pub cut_at_sep :
    (p s : String) (d : Char) → Lacks (code d) p → cut (p <> (d ◂ s)) (code d) ≡ (p, s, true)
unfolding cut
cut_at_sep empty s d _ = rw nil-append (ground arith)
cut_at_sep (c ◂ p) s d (h, hp) = rw cons-append (ground (arith, cut_at_sep p s d hp))

trim_left_of_HasNoSpace : (s : String) → HasNoSpace s → trim_left s ≡ s
unfolding trim_left
trim_left_of_HasNoSpace empty h = refl
trim_left_of_HasNoSpace (c ◂ s) (h, _) = rw h

trim_right_of_HasNoSpace : (s : String) → HasNoSpace s → trim_right s ≡ s
unfolding trim_right
trim_right_of_HasNoSpace empty h = refl
trim_right_of_HasNoSpace (c ◂ s) (h, hs) = rw (h, trim_right_of_HasNoSpace s hs)

pub trim_space_of_HasNoSpace : (s : String) → HasNoSpace s → trim_space s ≡ s
unfolding trim_space
trim_space_of_HasNoSpace s h = rw (trim_left_of_HasNoSpace s h) (trim_right_of_HasNoSpace s h)

-- A text that neither begins nor ends with a space.
trim_left_idem : (s : String) → trim_left (trim_left s) ≡ trim_left s
unfolding trim_left
trim_left_idem empty = refl
trim_left_idem (c ◂ s) = ground (arith, trim_left_idem s)

trim_right_idem : (s : String) → trim_right (trim_right s) ≡ trim_right s
unfolding trim_right
trim_right_idem empty = refl
trim_right_idem (c ◂ s) = ground (arith, trim_right_idem s)

abbrev size : String → ℕ
size empty = 0
size (c ◂ s) = suc (size s)

size-trim_left : (s : String) → size (trim_left s) ≤ size s
unfolding trim_left
size-trim_left empty = omega arith
size-trim_left (c ◂ s) = ground (arith, size-trim_left s)

-- Trimming on the right keeps a text that does not begin with a space so.
trim_left-trim_right : (s : String) → trim_left s ≡ s → trim_left (trim_right s) ≡ trim_right s
unfolding trim_left trim_right
trim_left-trim_right empty h = refl
trim_left-trim_right (c ◂ s) h = elim (Bool-cases (is_space (code c))) [
  | inl e ↦ absurd (omega (arith, size-trim_left s, ap size (rw e at h)))
  | inr e ↦ rw (e, e)
]

pub trim_space_idem : (s : String) → trim_space (trim_space s) ≡ trim_space s
unfolding trim_space
trim_space_idem s =
    rw (trim_left-trim_right (trim_left s) (trim_left_idem s)) (trim_right_idem (trim_left s))

pub Lacks-append : (b : ℕ) (s t : String) → Lacks b s → Lacks b t → Lacks b (s <> t)
Lacks-append b empty t hs ht = rw nil-append ht
Lacks-append b (c ◂ s) t (h, hs) ht = rw cons-append (h, Lacks-append b s t hs ht)

pub Lacks-join :
    (b : ℕ) (ps : List String) (sep : String)
    → All (Lacks b) ps
    → Lacks b sep
    → Lacks b (join ps sep)
unfolding join
Lacks-join b [] sep _ hs = tt
Lacks-join b (p ∷ []) sep (hp, _) hs = hp
Lacks-join b (p ∷ q ∷ ps) sep (hp, hps) hs =
    Lacks-append b p _ hp (Lacks-append b sep _ hs (Lacks-join b (q ∷ ps) sep hps hs))

pub HasNoSpace-append : (s t : String) → HasNoSpace s → HasNoSpace t → HasNoSpace (s <> t)
HasNoSpace-append empty t hs ht = rw nil-append ht
HasNoSpace-append (c ◂ s) t (h, hs) ht = rw cons-append (h, HasNoSpace-append s t hs ht)

pub HasNoSpace-join :
    (ps : List String) (sep : String)
    → All HasNoSpace ps
    → HasNoSpace sep
    → HasNoSpace (join ps sep)
unfolding join
HasNoSpace-join [] sep _ hs = tt
HasNoSpace-join (p ∷ []) sep (hp, _) hs = hp
HasNoSpace-join (p ∷ q ∷ ps) sep (hp, hps) hs =
    HasNoSpace-append p _ hp (HasNoSpace-append sep _ hs (HasNoSpace-join (q ∷ ps) sep hps hs))
