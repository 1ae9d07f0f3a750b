-- ===== src/Scan/Parallel/Snapshot.antt =====
-- The segments of a parallel scan of a table that does not change meanwhile, and how far a goroutine
-- of `allParallel` of scan.go has come in its segment.
use godynamo.Prelude.{
  ℕ, suc, ◌≡◌, refl, sym, ◌∙◌, inl, none, some, List, [], ◌∷◌, ◌++◌, length, concat, append_assoc,
  append-nil,
}
use godynamo.Fault.{ok}
use godynamo.Io.{State}
use godynamo.Reflect.{Struct, StructType}
use godynamo.Sdk.{Item}
use godynamo.Env.{Env, ScanInput}
use godynamo.Compress.{unmarshal_all}
use godynamo.Paging.Served.{unmarshal_all-append}
use godynamo.Scan.{ScanBuilder, build_input, fetch}
use godynamo.Scan.Parallel.{Goroutine, scanning, waiting, done, launch_one, round, after_round}

module _ (E : Env) (ctx : E.Context) (t : StructType) (b : ScanBuilder E) where
  -- From a start, the client serves these pages, whatever happens in the world between its calls.
  pub data Serves (input : ScanInput) : Item → List (List Item) → Type 0 where
    last :
        {start : Item} {items : List Item}
        → ((st : State E.World) → (fetch E b.db ctx t input start st).0 ≡ ok (items, none))
        → Serves input start (items ∷ [])
    more :
        {start following : Item} {items : List Item} {rest : List (List Item)}
        → ((st : State E.World)
            → (fetch E b.db ctx t input start st).0 ≡ ok (items, some following))
        → Serves input following rest
        → Serves input start (items ∷ rest)

  -- What a segment holds: its pages, and the structs that their items are.
  pub record Segment (i : ℕ) (served : List (List Item)) (found : List Struct) : Type 0 where
    pub input : ScanInput
    pub built : build_input E b i ≡ ok input
    pub serves : Serves input [] served
    pub unmarshaled : unmarshal_all E.runtime t (concat served) ≡ ok found

  -- A goroutine has so many turns to go until it is done, and then has brought what was found.
  pub data OnTrack (found : List Struct) : ℕ → Goroutine → Type 0 where
    in_pages :
        {input : ScanInput} {start : Item} {items rest : List Struct} {served : List (List Item)}
        → Serves input start served
        → unmarshal_all E.runtime t (concat served) ≡ ok rest
        → items ++ rest ≡ found
        → OnTrack found (suc (length served)) (scanning input start items)
    at_mutex : OnTrack found 1 (waiting (inl found))
    at_end : OnTrack found 0 done

  pub launch_one-OnTrack :
      (i : ℕ) (served : List (List Item)) (found : List Struct)
      → Segment i served found
      → OnTrack found (suc (length served)) (launch_one (build_input E b i))
  launch_one-OnTrack i served found s = rw s.built (in_pages s.serves s.unmarshaled refl)

  -- A round over a page leaves one turn less to go.
  pub round-OnTrack :
      (input : ScanInput) (start : Item) (items rest found : List Struct)
      (served : List (List Item)) (st : State E.World)
      → Serves input start served
      → unmarshal_all E.runtime t (concat served) ≡ ok rest
      → items ++ rest ≡ found
      → OnTrack found
          (length served)
          (after_round E ctx t b input (round E ctx t b input start items st).0)
  round-OnTrack input start items rest found _ st (last {items = page} e) all whole =
      let all' = rw (append-nil page) at all in rw (e st, all', whole) at_mutex
  round-OnTrack input start items rest found _ st (more {items = page} {rest = later} e s) all
        whole =
      let (us, ws, e1, e2, e3) = unmarshal_all-append E.runtime t page (concat later) all in
      rw (e st, e1) (in_pages s e2 (append_assoc items us ws ∙ rw (sym e3) whole))
