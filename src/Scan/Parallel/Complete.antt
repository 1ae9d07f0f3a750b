-- ===== src/Scan/Parallel/Complete.antt =====
-- What a parallel scan of scan.go returns of a table that does not change meanwhile.
use godynamo.Prelude.{
  ℕ, suc, ◌≡◌, ◌≢◌, length, refl, ap, arith, true, false, ==_iff, ◌==◌, ltb, lt→ltb, ltb→lt, ◌⊎◌,
  inl, inr, Bool-cases, none, List, if◌then◌else◌,
}
use mathlib.Core.List.{Perm}
use mathlib.Core.List.Perm
use godynamo.Fault.{Error, ok}
use godynamo.Io.{State}
use godynamo.Reflect.{Struct, StructType}
use godynamo.Sdk.{Item}
use godynamo.Env.{Env, ScanInput}
use godynamo.Scan.{ScanBuilder}
use godynamo.Scan.Parallel.{
  Goroutine, done, Parallel, launch, turn, turn_of, merge, set_goroutine, round, after_round,
  Reaches, launched, next, result_of,
}
use godynamo.Scan.Parallel.Shares.{
  is_done, all_found, merged_of, merged_of_none, merged_of_all, merged_of_same, merged_of_more,
}
use godynamo.Scan.Parallel.Snapshot.{
  Serves, last, more, Segment, OnTrack, in_pages, at_mutex, at_end, launch_one-OnTrack,
  round-OnTrack,
}

module _ (E : Env) (ctx : E.Context) (t : StructType) (b : ScanBuilder E)
    (served : ℕ → List (List Item)) (found : ℕ → List Struct) where
  -- Every goroutine is on its way or done, none has failed, and what the mutex guards is what those
  -- that are done have found.
  record IsWhole (p : Parallel E) : Type 0 where
    no_error : p.first_err ≡ none
    tracks :
        (i : ℕ)
        → ltb i b.total_segments ≡ true
        → (k : ℕ) × OnTrack E ctx t b (found i) k (p.goroutines i)
    unused : (i : ℕ) → ltb i b.total_segments ≡ false → p.goroutines i ≡ done
    merged : Perm p.items (merged_of found b.total_segments p.goroutines)

  launch-IsWhole :
      (st : State E.World)
      → ((i : ℕ) → ltb i b.total_segments ≡ true → Segment E ctx t b i (served i) (found i))
      → IsWhole (launch E ctx t b st)
  unfolding launch
  launch-IsWhole st segments = record {
    no_error = refl;
    tracks = λ i e. (
      suc (length (served i)),
      rw e (launch_one-OnTrack E ctx t b i (served i) (found i) (segments i e)),
    );
    unused = λ i e. rw e refl;
    merged =
        rw
          (merged_of_none found b.total_segments (launch E ctx t b st).goroutines
            (λ i l. let e = lt→ltb i b.total_segments l in rw (e, (segments i e).built) refl))
          Perm.rfl;
  }

  undone :
      (xs : List Struct) (k : ℕ) (g : Goroutine)
      → k ≢ 0
      → OnTrack E ctx t b xs k g
      → is_done g ≡ false
  undone xs _ _ some_left (in_pages s all whole) = refl
  undone xs _ _ some_left at_mutex = refl
  undone xs _ _ some_left at_end = absurd (some_left refl)

  has_pages :
      {input : ScanInput} {start : Item} {pages : List (List Item)}
      → Serves E ctx t b input start pages
      → length pages ≢ 0
  has_pages (last e) z = omega (arith, z)
  has_pages (more e s) z = omega (arith, z)

  -- One goroutine goes on, and the mutex guards what it should.
  set_goroutine-IsWhole :
      (i : ℕ) (g : Goroutine) (k : ℕ) (p q : Parallel E)
      → IsWhole p
      → ltb i b.total_segments ≡ true
      → OnTrack E ctx t b (found i) k g
      → q.goroutines ≡ p.goroutines
      → q.first_err ≡ none
      → Perm q.items (merged_of found b.total_segments (λ j. if i == j then g else p.goroutines j))
      → IsWhole (set_goroutine E ctx t b i g q)
  set_goroutine-IsWhole i g k p q w l track same fine merged = record {
    no_error = fine;
    tracks = λ j e. elim (Bool-cases (i == j)) [
      | inl at_i ↦ (k, rw (at_i, ← (==_iff i j).0 at_i) track)
      | inr other ↦ rw (other, same) (w.tracks j e)
    ];
    unused = λ j e.
        let other : (i == j) ≡ false = ground (arith, l, e) in rw (other, same) (w.unused j e);
    merged = rw same merged;
  }

  -- A turn of a goroutine that is on its way.
  turn_of-IsWhole :
      (i : ℕ) (g : Goroutine) (k : ℕ) (p : Parallel E)
      → ltb i b.total_segments ≡ true
      → p.goroutines i ≡ g
      → OnTrack E ctx t b (found i) k g
      → IsWhole p
      → IsWhole (turn_of E ctx t b i g p)
  unfolding merge
  turn_of-IsWhole i _ _ p l e (in_pages {input} {start} {items} {rest} {served} s all whole) w =
      let g' = after_round E ctx t b input (round E ctx t b input start items p.state).0 in
      let track =
        round-OnTrack E ctx t b input start items rest (found i) served p.state s all whole in
      let off = undone (found i) (length served) g' (has_pages s) track in
      set_goroutine-IsWhole i g' (length served) p _ w l track refl w.no_error (
        rw
          (merged_of_same found b.total_segments p.goroutines
            (λ j. if i == j then g' else p.goroutines j)
            (λ j _. elim (Bool-cases (i == j)) [
              | inl at_i ↦ rw (at_i, off, ← (==_iff i j).0 at_i, e) refl
              | inr other ↦ rw other refl
            ]))
          w.merged)
  turn_of-IsWhole i _ _ p l e at_mutex w =
      set_goroutine-IsWhole i done 0 p _ w l at_end refl w.no_error (
        Perm.trans (Perm.append_right (found i) w.merged) (
          merged_of_more found b.total_segments i p.goroutines (ltb→lt i b.total_segments l)
            (rw e refl)))
  turn_of-IsWhole i _ _ p l e at_end w = w

  reached-IsWhole :
      {st : State E.World} {brought : List (List Struct ⊎ Error)} {p : Parallel E}
      → ((i : ℕ) → ltb i b.total_segments ≡ true → Segment E ctx t b i (served i) (found i))
      → Reaches E ctx t b st brought p
      → IsWhole p
  unfolding turn
  reached-IsWhole {st} segments launched = launch-IsWhole st segments
  reached-IsWhole segments (next {p = p} i reached) =
      let w = reached-IsWhole segments reached in
      elim (Bool-cases (ltb i b.total_segments)) [
        | inl l ↦
            let (k, track) = w.tracks i l in turn_of-IsWhole i (p.goroutines i) k p l refl track w
        | inr out ↦ rw (w.unused i out) w
      ]

  -- A parallel scan is complete: let the client serve the pages of each segment whatever happens
  -- between its calls, and let their items unmarshal. Whatever the order in which the goroutines
  -- take their turns, once all are done the scan returns no error, and its items are a permutation
  -- of the segments' items, each exactly once.
  pub result_of-Perm :
      (st : State E.World) (brought : List (List Struct ⊎ Error)) (p : Parallel E)
      → ((i : ℕ) → ltb i b.total_segments ≡ true → Segment E ctx t b i (served i) (found i))
      → Reaches E ctx t b st brought p
      → ((i : ℕ) → p.goroutines i ≡ done)
      → (items : List Struct) × (result_of p.first_err p.items ≡ ok items)
        × Perm items (all_found found b.total_segments)
  result_of-Perm st brought p segments reached ended =
      let w = reached-IsWhole segments reached in
      let all = merged_of_all found b.total_segments p.goroutines (λ i _. ap is_done (ended i)) in
      (p.items, rw w.no_error refl, rw all at w.merged)
