-- ===== src/Scan/Parallel/Fair.antt =====
-- The end of `allParallel` of scan.go under schedules that give each goroutine enough turns.
use godynamo.Prelude.{
  ℕ, zero, suc, ◌<◌, ◌≤◌, ◌≡◌, refl, sym, ◌∙◌, arith, true, false, ==_iff, ◌==◌, ltb, ◌⊎◌, inl, inr,
  Bool-cases, List, [], ◌∷◌, length, if◌then◌else◌,
}
use godynamo.Fault.{Error}
use godynamo.Io.{State}
use godynamo.Reflect.{Struct, StructType}
use godynamo.Sdk.{Item}
use godynamo.Env.{Env}
use godynamo.Scan.{ScanBuilder}
use godynamo.Scan.Parallel.{
  Goroutine, scanning, waiting, panicked, done, Parallel, launch, turn, turn_of, merge, Reaches,
  launched, next,
}
use godynamo.Scan.Parallel.Snapshot.{
  Segment, OnTrack, in_pages, at_mutex, at_end, launch_one-OnTrack, round-OnTrack,
}

-- How often a goroutine has its turn in a schedule.
abbrev pub turns_of : ℕ → List ℕ → ℕ
turns_of i [] = 0
turns_of i (j ∷ turns) = if j == i then suc (turns_of i turns) else turns_of i turns

-- The turns that are left of so many after one, and after several.
abbrev pub before : ℕ → ℕ
before zero = 0
before (suc k) = k

abbrev pub left_of : ℕ → ℕ → ℕ
left_of k zero = k
left_of k (suc n) = left_of (before k) n

left_of_enough : (k n : ℕ) → k ≤ n → left_of k n ≡ 0
left_of_enough zero zero h = refl
left_of_enough (suc k) zero h = absurd (omega (arith, h))
left_of_enough zero (suc n) h = left_of_enough zero n (omega arith)
left_of_enough (suc k) (suc n) h = left_of_enough k n (omega (arith, h))

module _ (E : Env) (ctx : E.Context) (t : StructType) (b : ScanBuilder E) where
  abbrev pub run : List ℕ → Parallel E → Parallel E
  run [] p = p
  run (i ∷ turns) p = run turns (turn E ctx t b i p)

  pub run-Reaches :
      (turns : List ℕ) {st : State E.World} {brought : List (List Struct ⊎ Error)} {p : Parallel E}
      → Reaches E ctx t b st brought p
      → (brought' : List (List Struct ⊎ Error)) × Reaches E ctx t b st brought' (run turns p)
  run-Reaches [] reached = (_, reached)
  run-Reaches (i ∷ turns) reached = run-Reaches turns (next i reached)

  -- A turn leaves its goroutine one turn less to go.
  turn_of-OnTrack :
      (i : ℕ) (found : List Struct) (k : ℕ) (g : Goroutine) (p : Parallel E)
      → p.goroutines i ≡ g
      → OnTrack E ctx t b found k g
      → OnTrack E ctx t b found (before k) ((turn_of E ctx t b i g p).goroutines i)
  unfolding merge
  turn_of-OnTrack i found _ _ p e (in_pages {input} {start} {items} {rest} {served} s all whole) =
      rw ((==_iff i i).1 refl)
        (round-OnTrack E ctx t b input start items rest found served p.state s all whole)
  turn_of-OnTrack i found _ _ p e at_mutex = rw ((==_iff i i).1 refl) at_end
  turn_of-OnTrack i found _ _ p e at_end = rw e at_end

  -- The others' turns are as they were.
  turn_of_other :
      (i j : ℕ) (g : Goroutine) (p : Parallel E)
      → (i == j) ≡ false
      → (turn_of E ctx t b i g p).goroutines j ≡ p.goroutines j
  unfolding merge
  turn_of_other i j (scanning input start items) p other = rw other refl
  turn_of_other i j (waiting (inl found)) p other = rw other refl
  turn_of_other i j (waiting (inr e)) p other = rw other refl
  turn_of_other i j (panicked m) p other = refl
  turn_of_other i j done p other = refl

  -- After a schedule, a goroutine has its turns less to go.
  run-OnTrack :
      (turns : List ℕ) (j : ℕ) (found : List Struct) (k : ℕ) (p : Parallel E)
      → OnTrack E ctx t b found k (p.goroutines j)
      → OnTrack E ctx t b found (left_of k (turns_of j turns)) ((run turns p).goroutines j)
  unfolding turn
  run-OnTrack [] j found k p h = h
  run-OnTrack (i ∷ turns) j found k p h = elim (Bool-cases (i == j)) [
    | inl e ↦
        let same : i ≡ j = (==_iff i j).0 e in
        let mine : OnTrack E ctx t b found k (p.goroutines i) = rw same h in
        rw e (
          run-OnTrack turns j found (before k) (turn E ctx t b i p)
            (rw (sym same) (turn_of-OnTrack i found k (p.goroutines i) p refl mine)))
    | inr e ↦ rw e (
        run-OnTrack turns j found k (turn E ctx t b i p)
          (rw (turn_of_other i j (p.goroutines i) p e) h))
  ]

  -- There is no goroutine behind the segments, and none starts later.
  run_unused :
      (turns : List ℕ) (j : ℕ) (p : Parallel E)
      → p.goroutines j ≡ done
      → (run turns p).goroutines j ≡ done
  unfolding turn
  run_unused [] j p h = h
  run_unused (i ∷ turns) j p h =
      run_unused turns j (turn E ctx t b i p) (elim (Bool-cases (i == j)) [
        | inl e ↦ rw ((==_iff i j).0 e, h, h) refl
        | inr e ↦ turn_of_other i j (p.goroutines i) p e ∙ h
      ])

  is_done :
      (found : List Struct) (k : ℕ) (g : Goroutine) → k ≡ 0 → OnTrack E ctx t b found k g → g ≡ done
  is_done found _ _ z (in_pages s all whole) = absurd (omega (arith, z))
  is_done found _ _ z at_mutex = absurd (omega (arith, z))
  is_done found _ _ z at_end = refl

  -- A parallel scan ends under every fair schedule: if the client serves the pages of each segment
  -- whatever happens between its calls, and each goroutine has more turns than its segment has
  -- pages, then the goroutines reach, from the launch, a state in which all of them are done.
  pub run-Reaches-done :
      (st : State E.World) (served : ℕ → List (List Item)) (found : ℕ → List Struct)
      (turns : List ℕ)
      → ((i : ℕ) → ltb i b.total_segments ≡ true → Segment E ctx t b i (served i) (found i))
      → ((i : ℕ) → ltb i b.total_segments ≡ true → length (served i) < turns_of i turns)
      → ((brought : List (List Struct ⊎ Error)) × Reaches E ctx t b st brought
            (run turns (launch E ctx t b st)))
        × ((i : ℕ) → (run turns (launch E ctx t b st)).goroutines i ≡ done)
  unfolding launch
  run-Reaches-done st served found turns segments fair = (
    run-Reaches turns launched,
    λ i. elim (Bool-cases (ltb i b.total_segments)) [
      | inl e ↦
          is_done (found i) _ _
            (left_of_enough (suc (length (served i))) (turns_of i turns) (omega (arith, fair i e)))
            (run-OnTrack turns i (found i) (suc (length (served i))) (launch E ctx t b st)
              (rw e (launch_one-OnTrack E ctx t b i (served i) (found i) (segments i e))))
      | inr e ↦ run_unused turns i (launch E ctx t b st) (rw e refl)
    ],
  )
