-- ===== src/Scan/Parallel.antt =====
-- `allParallel` of scan.go: goroutines that take turns in any order, and the merging of what they
-- return under a mutex.
pub mod Merged
pub mod Snapshot
pub mod Shares
pub mod Fair
pub mod Complete
use godynamo.Prelude.{
  ℕ, ◌+◌, String, ◌<>◌, Bool, true, false, ◌≡◌, ◌⊎◌, inl, inr, ◌==◌, ltb, Option, none, some, List,
  [], ◌∷◌, ◌++◌, if◌then◌else◌,
}
use godynamo.Fault.{Outcome, ok, err, panic, Error}
use godynamo.Io.{State, Io, pure, lift, wrapping, ◌>>=◌}
use godynamo.Reflect.{Struct, StructType}
use godynamo.Sdk.{Item}
use godynamo.Env.{Env, ScanInput}
use godynamo.Compress.{unmarshal_all}
use godynamo.Scan.{ScanBuilder, build_input, fetch, scan_segment}

-- A goroutine: in its loop over pages, returned from `scanSegment` and waiting for the mutex, or
-- done. One that panics ends the program.
pub data Goroutine : Type 0 where
  scanning : (input : ScanInput) (start : Item) (items : List Struct) → Goroutine
  waiting : List Struct ⊎ Error → Goroutine
  panicked : String → Goroutine
  done : Goroutine

-- The state that the goroutines share: the world, and what the mutex guards.
pub record Parallel (E : Env) : Type 0 where
  pub state : State E.World
  pub goroutines : ℕ → Goroutine
  pub items : List Struct
  pub first_err : Option Error

-- A goroutine whose segment's input is built; one whose input fails returns at once.
abbrev pub launch_one : Outcome ScanInput → Goroutine
launch_one (ok input) = scanning input [] []
launch_one (err e) = waiting (inr e)
launch_one (panic m) = panicked m

abbrev or_first : Option Error → Error → Option Error
or_first none e = some e
or_first (some first) e = some first

-- `if firstErr != nil { return nil, firstErr }; return items, nil`
abbrev pub result_of : Option Error → List Struct → Outcome (List Struct)
result_of none items = ok items
result_of (some e) items = err e

-- What a goroutine brings to the mutex at its turn.
abbrev pub brings : Goroutine → List (List Struct ⊎ Error)
brings (waiting r) = r ∷ []
brings _ = []

module _ (E : Env) (ctx : E.Context) (t : StructType) (b : ScanBuilder E) where
  -- `for segment := range b.totalSegments { go ... }`
  unfoldable pub launch : State E.World → Parallel E
  launch st = record {
    state = st;
    goroutines = λ i. if ltb i b.total_segments then launch_one (build_input E b i) else done;
    items = [];
    first_err = none;
  }

  -- One round of the loop of `scanSegment`.
  abbrev pub round : ScanInput → Item → List Struct → Io E.World (List Struct × Option Item)
  round input start items = do
    page ← fetch E b.db ctx t input start
    found ← wrapping ("godynamo: unmarshal " <> t.name) (lift (unmarshal_all E.runtime t page.0))
    pure (items ++ found, page.1)

  abbrev pub after_round : ScanInput → Outcome (List Struct × Option Item) → Goroutine
  after_round input (ok (items, none)) = waiting (inl items)
  after_round input (ok (items, some next)) = scanning input next items
  after_round input (err e) = waiting (inr e)
  after_round input (panic m) = panicked m

  abbrev pub set_goroutine : ℕ → Goroutine → Parallel E → Parallel E
  set_goroutine i g p = record p { goroutines = λ j. if i == j then g else p.goroutines j }

  -- What the goroutine does while it holds the mutex.
  unfoldable pub merge : ℕ → List Struct ⊎ Error → Parallel E → Parallel E
  merge i (inl found) p = set_goroutine i done (record p { items = p.items ++ found })
  merge i (inr e) p = set_goroutine i done (record p { first_err = or_first p.first_err e })

  abbrev pub turn_of : ℕ → Goroutine → Parallel E → Parallel E
  turn_of i (scanning input start items) p =
      let (r, st') = round input start items p.state in
      set_goroutine i (after_round input r) (record p { state = st' })
  turn_of i (waiting r) p = merge i r p
  turn_of i (panicked m) p = p
  turn_of i done p = p

  -- A turn of a goroutine: a call of the client, or the merging.
  unfoldable pub turn : ℕ → Parallel E → Parallel E
  turn i p = turn_of i (p.goroutines i) p

  -- From the launch, the turns of some goroutines lead there, and these
  -- outcomes were brought to the mutex, in this order.
  pub data Reaches (st : State E.World) : List (List Struct ⊎ Error) → Parallel E → Type 0 where
    launched : Reaches st [] (launch st)
    next :
        {brought : List (List Struct ⊎ Error)} {p : Parallel E}
        → (i : ℕ) → Reaches st brought p
        → Reaches st (brought ++ brings (p.goroutines i)) (turn i p)

  -- What `All` may return, with the goroutines in any order: in a parallel scan, when every goroutine is
  -- done. The fuel is for the pages of a scan that is not parallel.
  pub data AllReturns (fuel : ℕ) (st : State E.World) : Outcome (List Struct) → Type 0 where
    sequential :
        ltb 1 b.total_segments ≡ false → AllReturns fuel st (scan_segment E fuel ctx t b 0 st).0
    parallel :
        {brought : List (List Struct ⊎ Error)} {p : Parallel E}
        → ltb 1 b.total_segments ≡ true
        → Reaches st brought p
        → ((i : ℕ) → p.goroutines i ≡ done)
        → AllReturns fuel st (result_of p.first_err p.items)
