-- ===== src/Scan/Parallel/Merged.antt =====
-- What a parallel scan returns: the items that its segments brought, or the first of their errors.
use godynamo.Prelude.{
  ℕ, ◌≡◌, ◌⊎◌, inl, inr, refl, sym, ◌∙◌, ap, Option, none, some, List, [], ◌∷◌, ◌++◌, append_assoc,
  append-nil,
}
use godynamo.Fault.{Error}
use godynamo.Io.{State}
use godynamo.Reflect.{Struct, StructType}
use godynamo.Env.{Env}
use godynamo.Scan.{ScanBuilder}
use godynamo.Scan.Parallel.{
  Goroutine, scanning, waiting, panicked, done, or_first, turn_of, Parallel, launch, merge, turn,
  brings, Reaches, launched, next, result_of,
}

-- The items of the outcomes that succeeded, in order.
abbrev pub items_of : List (List Struct ⊎ Error) → List Struct
items_of [] = []
items_of (inl found ∷ brought) = found ++ items_of brought
items_of (inr e ∷ brought) = items_of brought

-- The first outcome that failed.
abbrev pub error_of : List (List Struct ⊎ Error) → Option Error
error_of [] = none
error_of (inl found ∷ brought) = error_of brought
error_of (inr e ∷ brought) = some e

abbrev else_error : Option Error → Option Error → Option Error
else_error none o = o
else_error (some e) o = some e

items_of-append :
    (xs ys : List (List Struct ⊎ Error)) → items_of (xs ++ ys) ≡ items_of xs ++ items_of ys
items_of-append [] ys = refl
items_of-append (inl found ∷ xs) ys =
    rw (items_of-append xs ys) (sym (append_assoc found (items_of xs) (items_of ys)))
items_of-append (inr e ∷ xs) ys = items_of-append xs ys

error_of-append :
    (xs ys : List (List Struct ⊎ Error))
    → error_of (xs ++ ys) ≡ else_error (error_of xs) (error_of ys)
error_of-append [] ys = refl
error_of-append (inl found ∷ xs) ys = error_of-append xs ys
error_of-append (inr e ∷ xs) ys = refl

else_none : (o : Option Error) → o ≡ else_error o none
else_none none = refl
else_none (some e) = refl

or_first_is : (o : Option Error) (e : Error) → or_first o e ≡ else_error o (some e)
or_first_is none e = refl
or_first_is (some first) e = refl

module _ (E : Env) (ctx : E.Context) (t : StructType) (b : ScanBuilder E) where
  -- What the mutex guards after a turn.
  turn_guarded :
      (i : ℕ) (g : Goroutine) (p : Parallel E)
      → ((turn_of E ctx t b i g p).items ≡ p.items ++ items_of (brings g))
        × ((turn_of E ctx t b i g p).first_err ≡ else_error p.first_err (error_of (brings g)))
  unfolding merge
  turn_guarded i (scanning input start items) p = (sym (append-nil p.items), else_none p.first_err)
  turn_guarded i (waiting (inl found)) p = (rw (append-nil found) refl, else_none p.first_err)
  turn_guarded i (waiting (inr e)) p = (sym (append-nil p.items), or_first_is p.first_err e)
  turn_guarded i (panicked m) p = (sym (append-nil p.items), else_none p.first_err)
  turn_guarded i done p = (sym (append-nil p.items), else_none p.first_err)

  guarded :
      {st : State E.World} {brought : List (List Struct ⊎ Error)} {p : Parallel E}
      → Reaches E ctx t b st brought p
      → (p.items ≡ items_of brought) × (p.first_err ≡ error_of brought)
  unfolding launch turn
  guarded launched = (refl, refl)
  guarded (next {brought} {p} i reached) =
      let (items, first) = guarded reached in
      let (items', first') = turn_guarded i (p.goroutines i) p in
      (
        items' ∙ rw items (sym (items_of-append brought (brings (p.goroutines i)))),
        first' ∙ rw first (sym (error_of-append brought (brings (p.goroutines i)))),
      )

  -- Whatever the order in which the goroutines of a parallel scan take their turns, its result is
  -- the first error that one of them brought to the mutex or, if none did, everything that they
  -- brought, each segment's items whole and in the order in which the segments came.
  pub result_of-brought :
      (st : State E.World) (brought : List (List Struct ⊎ Error)) (p : Parallel E)
      → Reaches E ctx t b st brought p
      → result_of p.first_err p.items ≡ result_of (error_of brought) (items_of brought)
  result_of-brought st brought p reached =
      let (items, first) = guarded reached in
      ap (λ (e : Option Error). result_of e p.items) first
      ∙ ap (λ (xs : List Struct). result_of (error_of brought) xs) items
