-- ===== src/Query/Chain.antt =====
-- The cursors of `Page` of query.go, followed to the end, beside `All`.
use godynamo.Prelude.{
  ℕ, zero, suc, ◌≤◌, String, ◌<>◌, ◌≡◌, ◌≢◌, ◌↔◌, refl, false, arith, none, some, List, [], ◌∷◌,
  ◌++◌, is_empty, append_assoc, if◌then◌else◌,
}
use godynamo.Fault.{Outcome, ok, wrap_err, wrap_err-eq-ok}
use godynamo.Io.{State, continue-eq}
use godynamo.Reflect.{Struct, StructType}
use godynamo.Sdk.{Item}
use godynamo.Env.{Env, QueryInput, PageOutput}
use godynamo.Compress.{unmarshal_all}
use godynamo.Paging.{pages}
use godynamo.Query.{QueryBuilder, build_input, fetch, all, start_of, next_cursor, page}
use godynamo.Query.Cursors.{CursorCodec}
use godynamo.Query.Opaque.{IsTextKey, IsLossless, start_of-next_cursor}

pure-injective :
    {A B S : Type 0} (a x : A) (b y : B) (s s' : S)
    → ◌≡◌ {A = Outcome (A × B) × S} (ok (a, b), s) (ok (x, y), s')
    → (a ≡ x) × (b ≡ y) × (s ≡ s')
pure-injective a x b y s s' h = (cc h, cc h, cc h)

is_empty_not : (key : Item) → key ≢ [] → is_empty key ≡ false
is_empty_not [] some_key = absurd (some_key refl)
is_empty_not (entry ∷ key) some_key = refl

module _ (E : Env) {M : Type 0} (C : CursorCodec M) (ctx : E.Context) (t : StructType)
    (b : QueryBuilder E) where
  -- What a successful call of Page has done.
  record IsPage (cursor next : String) (st st' : State E.World) (items : List Struct) : Type 0 where
    input : QueryInput
    start : Item
    output : PageOutput
    built : build_input E t b ≡ ok input
    started : start_of E C cursor ≡ ok start
    queried :
        (b.db.client.query ctx (record input { exclusive_start_key = start }) st.world).0
        ≡ ok output
    ended :
        record st {
          world = (b.db.client.query ctx (record input { exclusive_start_key = start }) st.world).1;
        }
        ≡ st'
    unmarshaled : unmarshal_all E.runtime t output.items ≡ ok items
    continued : next_cursor E C output.last_evaluated_key ≡ ok next

  page-IsPage :
      (cursor next : String) (st st' : State E.World) (items : List Struct)
      → page E C ctx t b cursor st ≡ (ok (items, next), st')
      → IsPage cursor next st st' items
  unfolding page
  page-IsPage cursor next st st' items h =
      let (input, built, h1) = continue-eq (build_input E t b) _ st h in
      let (start, started, h2) = continue-eq (start_of E C cursor) _ st h1 in
      let called = b.db.client.query ctx (record input { exclusive_start_key = start }) st.world in
      let st1 : State E.World = record st { world = called.1 } in
      let (output, queried, h3) =
        continue-eq (wrap_err ("godynamo: query " <> t.name) called.0) _ st1 h2 in
      let (found, unmarshaled, h4) =
        continue-eq
          (wrap_err ("godynamo: unmarshal " <> t.name) (unmarshal_all E.runtime t output.items)) _
          st1 h3 in
      let (text, continued, h5) =
        continue-eq (next_cursor E C output.last_evaluated_key) _ st1 h4 in
      let (same_items, same_text, ended) = pure-injective found items text next st1 st' h5 in
      record {
        input = input;
        start = start;
        output = output;
        built = built;
        started = started;
        queried = wrap_err-eq-ok _ _ queried;
        ended = ended;
        unmarshaled = rw same_items at (wrap_err-eq-ok _ _ unmarshaled);
        continued = rw same_text at continued;
      }

  -- The cursors of Page followed from one to the end: the pages' items, and how many pages.
  pub data Follows : String → State E.World → ℕ → List Struct → State E.World → Type 0 where
    last :
        {cursor : String} {st st' : State E.World} {items : List Struct}
        → page E C ctx t b cursor st ≡ (ok (items, ""), st')
        → Follows cursor st 1 items st'
    more :
        {cursor next : String} {st st₁ st' : State E.World} {n : ℕ} {items rest : List Struct}
        → page E C ctx t b cursor st ≡ (ok (items, next), st₁)
        → next ≢ ""
        → Follows next st₁ n rest st'
        → Follows cursor st (suc n) (items ++ rest) st'

  -- The keys at which the client ends its pages are texts.
  abbrev pub EndsInTexts : Type 0
  EndsInTexts =
      (input : QueryInput) (w : E.World) (output : PageOutput)
      → (b.db.client.query ctx input w).0 ≡ ok output
      → IsTextKey output.last_evaluated_key

  module _ (lossless : IsLossless C) (texts : EndsInTexts) (input : QueryInput)
      (built : build_input E t b ≡ ok input) where
    -- A Page is a round of the loop of All.
    page-fetch :
        (cursor next : String) (st st' : State E.World) (items : List Struct) (start : Item)
        → start_of E C cursor ≡ ok start
        → page E C ctx t b cursor st ≡ (ok (items, next), st')
        → (avs : List Item) × (key : Item) × (fetch E b.db ctx t input start st
            ≡ (ok (avs, if is_empty key then none else some key), st'))
          × (unmarshal_all E.runtime t avs ≡ ok items)
          × (start_of E C next ≡ ok key)
          × ((next ≡ "") ↔ (key ≡ []))
    unfolding fetch
    page-fetch cursor next st st' items start from h =
        let pg = page-IsPage cursor next st st' items h in
        let same_input : pg.input ≡ input = cc (pg.built, built) in
        let same_start : pg.start ≡ start = cc (pg.started, from) in
        let (back, ends) =
          start_of-next_cursor C lossless E pg.output.last_evaluated_key next
            (texts _ st.world pg.output pg.queried) pg.continued in
        let queried = rw (same_input, same_start) at pg.queried in
        let ended = rw (same_input, same_start) at pg.ended in
        (
          pg.output.items,
          pg.output.last_evaluated_key,
          rw (queried, ended) refl,
          pg.unmarshaled,
          back,
          ends,
        )

    pages-Follows :
        (fuel : ℕ) (start : Item) (acc : List Struct) {cursor : String} {st st' : State E.World}
        {n : ℕ} {items : List Struct}
        → Follows cursor st n items st'
        → start_of E C cursor ≡ ok start
        → n ≤ fuel
        → pages E t (fetch E b.db ctx t input) fuel start acc st ≡ (ok (acc ++ items), st')
    unfolding pages
    pages-Follows zero start acc (last h) from enough = absurd (omega (arith, enough))
    pages-Follows zero start acc (more h go f) from enough = absurd (omega (arith, enough))
    pages-Follows (suc fuel) start acc {cursor} {st} {st'} (last {items = items} h) from enough =
        let (avs, key, e1, e2, back, ends) = page-fetch cursor "" st st' items start from h in
        rw (e1, ends.0 refl, e2) refl
    pages-Follows (suc fuel) start acc {cursor} {st} {st'}
          (more {next = next} {st₁ = st₁} {items = items} {rest = rest} h go f) from enough =
        let (avs, key, e1, e2, back, ends) = page-fetch cursor next st st₁ items start from h in
        let some_key : is_empty key ≡ false = is_empty_not key (λ z. go (ends.1 z)) in
        rw (e1, some_key, e2, ← append_assoc acc items rest)
          (pages-Follows fuel key (acc ++ items) f back (omega (arith, enough)))

  first_page :
      {cursor : String} {st st' : State E.World} {n : ℕ} {items : List Struct}
      → Follows cursor st n items st'
      → (input : QueryInput) × (build_input E t b ≡ ok input)
  first_page {cursor} {st} {st'} (last {items = items} h) =
      let pg = page-IsPage cursor "" st st' items h in (pg.input, pg.built)
  first_page {cursor} {st} (more {next = next} {st₁ = st₁} {items = items} h go f) =
      let pg = page-IsPage cursor next st st₁ items h in (pg.input, pg.built)

  -- Page and All agree: if the keys at which the client ends its pages are texts, and the codecs
  -- lose nothing of such keys, then following the cursors of Page from the empty one to the end
  -- reads what All reads with fuel for as many pages, in the same order, and leaves the same state.
  pub all-Follows :
      (fuel n : ℕ) (st st' : State E.World) (items : List Struct)
      → IsLossless C
      → EndsInTexts
      → Follows "" st n items st'
      → n ≤ fuel
      → all E fuel ctx t b st ≡ (ok items, st')
  unfolding all start_of
  all-Follows fuel n st st' items lossless texts follows enough =
      let (input, built) = first_page follows in
      rw built (pages-Follows lossless texts input built fuel [] [] follows refl enough)
