-- ===== src/Chunks.antt =====
-- The loop of batch.go over the chunks of a slice:
-- `for start := 0; start < len(xs); start += size { end := min(start+size, len(xs)); ... }`
pub mod Partition
use godynamo.Prelude.{ℕ, zero, suc, ◌+◌, ◌-◌, min, List, length, take, drop, ltb, if◌then◌else◌}
use godynamo.Io.{Io, pure, ◌>>=◌}

abbrev pub slice {ℓ} : {A : Type ℓ} → ℕ → ℕ → List A → List A
slice lo hi xs = take (hi - lo) (drop lo xs)

module _ {W A S : Type 0} (size : ℕ) (xs : List A) (body : List A → S → Io W S) where
  -- The fuel bounds the rounds; callers give the length of the slice, and a round takes at least one
  -- element.
  unfoldable pub for_chunks : ℕ → ℕ → S → Io W S
  for_chunks zero start acc = pure acc
  for_chunks (suc fuel) start acc =
      let round = body (slice start (min (start + size) (length xs)) xs) acc >>= λ acc'.
      for_chunks fuel (start + size) acc' in
      if ltb start (length xs) then round else pure acc
