-- ===== src/Scan/Parallel/Shares.antt =====
-- The shares of the segments in what a parallel scan of scan.go has merged.
use godynamo.Prelude.{
  ℕ, zero, suc, ◌<◌, ◌≡◌, refl, ap, arith, Bool, true, false, ==_iff, ◌==◌, inl, inr, Bool-cases,
  List, [], ◌++◌, append_assoc, if◌then◌else◌,
}
use mathlib.Core.List.{Perm, perm_append_comm}
use mathlib.Core.List.Perm
use godynamo.Reflect.{Struct}
use godynamo.Scan.Parallel.{Goroutine, scanning, waiting, panicked, done}

abbrev pub is_done : Goroutine → Bool
is_done done = true
is_done (scanning input start items) = false
is_done (waiting r) = false
is_done (panicked m) = false

module _ (found : ℕ → List Struct) where
  -- What the segments below a number hold, the last one first.
  abbrev pub all_found : ℕ → List Struct
  all_found zero = []
  all_found (suc n) = found n ++ all_found n

  -- Of these, what the segments hold whose goroutines are done.
  abbrev pub merged_of : ℕ → (ℕ → Goroutine) → List Struct
  merged_of zero g = []
  merged_of (suc n) g = (if is_done (g n) then found n else []) ++ merged_of n g

  pub merged_of_none :
      (n : ℕ) (g : ℕ → Goroutine) → ((i : ℕ) → i < n → is_done (g i) ≡ false) → merged_of n g ≡ []
  merged_of_none zero g h = refl
  merged_of_none (suc n) g h =
      rw (h n (omega arith)) (merged_of_none n g (λ i l. h i (omega (arith, l))))

  pub merged_of_all :
      (n : ℕ) (g : ℕ → Goroutine)
      → ((i : ℕ) → i < n → is_done (g i) ≡ true)
      → merged_of n g ≡ all_found n
  merged_of_all zero g h = refl
  merged_of_all (suc n) g h =
      rw (h n (omega arith)) (
        ap (λ (xs : List Struct). found n ++ xs)
          (merged_of_all n g (λ i l. h i (omega (arith, l)))))

  pub merged_of_same :
      (n : ℕ) (g g' : ℕ → Goroutine)
      → ((i : ℕ) → i < n → is_done (g' i) ≡ is_done (g i))
      → merged_of n g' ≡ merged_of n g
  merged_of_same zero g g' h = refl
  merged_of_same (suc n) g g' h = rw (h n (omega arith)) (
      ap (λ (xs : List Struct). (if is_done (g n) then found n else []) ++ xs)
        (merged_of_same n g g' (λ i l. h i (omega (arith, l)))))

  -- A goroutine that becomes done adds what its segment holds.
  pub merged_of_more :
      (n i : ℕ) (g : ℕ → Goroutine)
      → i < n
      → is_done (g i) ≡ false
      → Perm (merged_of n g ++ found i) (merged_of n (λ j. if i == j then done else g j))
  merged_of_more zero i g l undone = absurd (omega (arith, l))
  merged_of_more (suc n) i g l undone = elim (Bool-cases (i == n)) [
    | inl e ↦
        let same : i ≡ n = (==_iff i n).0 e in
        let rest =
          merged_of_same n g (λ j. if i == j then done else g j)
            (λ j below.
              let other : (i == j) ≡ false = ground (arith, same, below) in rw other refl) in
        rw (e, rest, ← same, undone) (perm_append_comm (merged_of i g) (found i))
    | inr e ↦
        let rest = merged_of_more n i g (ground (arith, l, e)) undone in
        rw (e, append_assoc) (Perm.append_left (if is_done (g n) then found n else []) rest)
  ]
