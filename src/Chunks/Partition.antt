-- ===== src/Chunks/Partition.antt =====
-- The chunks: what they are, and that the loop runs over them.
use godynamo.Prelude.{
  ℕ, zero, suc, ◌+◌, ◌-◌, ◌≤◌, ◌<◌, min, ◌≡◌, refl, sym, ap, ◌∙◌, List, [], ◌∷◌, arith, length,
  take, drop, concat, All, take-append-drop, length-take, length-drop, fun_ext, lt→ltb, le→ltb,
}
use godynamo.Io.{Io, pure, ◌>>=◌}
use godynamo.Chunks.{slice, for_chunks}

-- The chunks of a list, cut off from the front; the fuel bounds their number.
abbrev pub chunks {ℓ} : {A : Type ℓ} → ℕ → ℕ → List A → List (List A)
chunks size zero xs = []
chunks size (suc fuel) [] = []
chunks size (suc fuel) (x ∷ xs) = take size (x ∷ xs) ∷ chunks size fuel (drop size (x ∷ xs))

-- Run the body on each chunk in turn.
module _ {W A S : Type 0} (body : List A → S → Io W S) where
  abbrev pub for_each : List (List A) → S → Io W S
  for_each [] acc = pure acc
  for_each (c ∷ cs) acc = body c acc >>= λ acc'. for_each cs acc'

module _ {ℓ} {A : Type ℓ} where
  take-min : (n : ℕ) (xs : List A) → take (min n (length xs)) xs ≡ take n xs
  take-min zero xs = rw (zero_min (length xs))
    where
      zero_min : (k : ℕ) → min zero k ≡ zero
      zero_min k = omega arith
  take-min (suc n) [] = rw (min_zero (suc n))
    where
      min_zero : (k : ℕ) → min k zero ≡ zero
      min_zero k = omega arith
  take-min (suc n) (x ∷ xs) =
      rw (min_suc n (length xs)) (ap (λ (t : List A). x ∷ t) (take-min n xs))
    where
      min_suc : (a b : ℕ) → min (suc a) (suc b) ≡ suc (min a b)
      min_suc a b = omega arith

  drop-drop : (n m : ℕ) (xs : List A) → drop m (drop n xs) ≡ drop (n + m) xs
  drop-drop zero m xs = rw (zero_add m)
    where
      zero_add : (k : ℕ) → zero + k ≡ k
      zero_add k = omega arith
  drop-drop (suc n) m [] = drop_nil m ∙ sym (drop_nil (suc n + m))
    where
      drop_nil : (k : ℕ) → drop {A = A} k [] ≡ []
      drop_nil zero = refl
      drop_nil (suc k) = refl
  drop-drop (suc n) m (x ∷ xs) = rw (suc_add n m) (drop-drop n m xs)
    where
      suc_add : (a b : ℕ) → suc a + b ≡ suc (a + b)
      suc_add a b = omega arith

  -- With fuel for every element, the chunks make up the list, each of them not empty and at most
  -- `size` long.
  pub concat-chunks :
      (size fuel : ℕ) (xs : List A)
      → 0 < size
      → length xs ≤ fuel
      → (concat (chunks size fuel xs) ≡ xs)
        × All (λ (c : List A). (0 < length c) × (length c ≤ size)) (chunks size fuel xs)
  concat-chunks size zero [] hs h = (refl, tt)
  concat-chunks size zero (x ∷ xs) hs h = absurd (omega arith)
  concat-chunks size (suc fuel) [] hs h = (refl, tt)
  concat-chunks size (suc fuel) (x ∷ xs) hs h =
      let shorter : length (drop size (x ∷ xs)) ≤ fuel = omega (arith, length-drop size (x ∷ xs)) in
      let (whole, sized) = concat-chunks size fuel (drop size (x ∷ xs)) hs shorter in
      (
        rw whole (take-append-drop size (x ∷ xs)),
        (
          (omega (arith, length-take size (x ∷ xs)), omega (arith, length-take size (x ∷ xs))),
          sized,
        ),
      )

module _ {W A S : Type 0} (size : ℕ) (xs : List A) (body : List A → S → Io W S) where
  slice_of_chunk :
      (start : ℕ) → slice start (min (start + size) (length xs)) xs ≡ take size (drop start xs)
  slice_of_chunk start =
      ap (λ (n : ℕ). take n (drop start xs)) (bound start) ∙ take-min size (drop start xs)
    where
      bound :
          (start : ℕ) → min (start + size) (length xs) - start ≡ min size (length (drop start xs))
      bound start = omega (arith, length-drop start xs)

  -- One round, given what the later rounds do.
  for_chunks_round :
      (fuel start : ℕ) (acc : S) (ys : List A)
      → drop start xs ≡ ys
      → ((acc' : S)
          → for_chunks size xs body fuel (start + size) acc'
            ≡ for_each body (chunks size fuel (drop (start + size) xs)) acc')
      → for_chunks size xs body (suc fuel) start acc ≡ for_each body (chunks size (suc fuel) ys) acc
  unfolding for_chunks
  for_chunks_round fuel start acc [] e later =
      rw (le→ltb start (length xs) (omega (arith, length-drop start xs, ap length e)))
  for_chunks_round fuel start acc (y ∷ ys) e later =
      let here : start < length xs = omega (arith, length-drop start xs, ap length e) in
      rw (
        lt→ltb start (length xs) here,
        slice_of_chunk start,
        fun_ext later,
        ← drop-drop start size xs,
        e,
      )

  -- The loop runs the body on each chunk in turn.
  pub for_chunks-eq :
      (fuel start : ℕ) (acc : S)
      → for_chunks size xs body fuel start acc
        ≡ for_each body (chunks size fuel (drop start xs)) acc
  unfolding for_chunks
  for_chunks-eq zero start acc = refl
  for_chunks-eq (suc fuel) start acc =
      for_chunks_round fuel start acc (drop start xs) refl (for_chunks-eq fuel (start + size))
