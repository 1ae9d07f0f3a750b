-- ===== src/Listing.antt =====
-- The terminal methods that read every page: `All` of a query and of a statement, and the reading
-- of one segment of a scan.
use godynamo.Prelude.{
  some, String, str_eq, is_empty, false, ◌∷◌, ◌⊎◌, inl, inr, ℕ, ◌≤◌, ◌≡◌, refl, ap, ◌∙◌, Option,
  none, List, [], length, concat,
}
use godynamo.Fault.{ok, Error}
use godynamo.Io.{State, Heap}
use godynamo.Reflect.{Struct, StructType}
use godynamo.Sdk.{Item}
use godynamo.Env.{Env, QueryInput, ScanInput, StatementInput}
use godynamo.Db.{Db}
use godynamo.Compress.{unmarshal_all}
use godynamo.Paging
use godynamo.Paging.{Page}
use godynamo.Paging.Served.{Served, last, more, pages-Served}
use godynamo.Query
use godynamo.Query.{QueryBuilder}
use godynamo.Scan
use godynamo.Scan.{ScanBuilder, scan_segment}
use godynamo.Statement
use godynamo.Statement.{StatementBuilder, unless_failed}

-- The client answers the calls of a query, from a start and a world: it serves these pages, each but the
-- last with a key at which the next call starts, and ends in that world.
pub data QueryServes (E : Env) (db : Db E) (ctx : E.Context) (input : QueryInput)
    : Item → E.World → List (List Item) → E.World → Type 0 where
  last_page :
      {start : Item} {w w' : E.World} {items : List Item}
      → db.client.query ctx (record input { exclusive_start_key = start }) w
        ≡ (ok (record { items = items; last_evaluated_key = [] }), w')
      → QueryServes E db ctx input start w (items ∷ []) w'
  next_page :
      {start next : Item} {w w₁ w' : E.World} {items : List Item} {rest : List (List Item)}
      → db.client.query ctx (record input { exclusive_start_key = start }) w
        ≡ (ok (record { items = items; last_evaluated_key = next }), w₁)
      → is_empty next ≡ false
      → QueryServes E db ctx input next w₁ rest w'
      → QueryServes E db ctx input start w (items ∷ rest) w'

-- The same of the calls of a statement, whose last page has no token or an empty one.
pub data StatementServes (E : Env) (db : Db E) (ctx : E.Context) (input : StatementInput)
    : Option String → E.World → List (List Item) → E.World → Type 0 where
  last_rows :
      {start token : Option String} {w w' : E.World} {items : List Item}
      → db.client.execute_statement ctx (record input { next_token = start }) w
        ≡ (ok (record { items = items; next_token = token }), w')
      → (token ≡ none) ⊎ (token ≡ some "")
      → StatementServes E db ctx input start w (items ∷ []) w'
  next_rows :
      {start : Option String} {token : String} {w w₁ w' : E.World} {items : List Item}
      {rest : List (List Item)}
      → db.client.execute_statement ctx (record input { next_token = start }) w
        ≡ (ok (record { items = items; next_token = some token }), w₁)
      → str_eq token "" ≡ false
      → StatementServes E db ctx input (some token) w₁ rest w'
      → StatementServes E db ctx input start w (items ∷ rest) w'

module _ (E : Env) (db : Db E) (ctx : E.Context) (t : StructType) (heap : Heap) where
  abbrev at_world : E.World → State E.World
  at_world w = record { world = w; heap = heap }

  query-Served :
      {input : QueryInput} {start : Item} {w w' : E.World} {served : List (List Item)}
      → QueryServes E db ctx input start w served w'
      → Served (Query.fetch E db ctx t input) start (at_world w) served (at_world w')
  unfolding Query.fetch
  query-Served (last_page e) = last (rw e refl)
  query-Served (next_page {w₁ = w₁} e some_key rest) =
      more {st₁ = at_world w₁} (rw (e, some_key) refl) (query-Served rest)

  statement-Served :
      {input : StatementInput} {start : Option String} {w w' : E.World} {served : List (List Item)}
      → StatementServes E db ctx input start w served w'
      → Served (Statement.fetch E db ctx t input) start (at_world w) served (at_world w')
  unfolding Statement.fetch
  statement-Served (last_rows e (inl ends)) = last (rw (e, ends) refl)
  statement-Served (last_rows e (inr ends)) = last (rw (e, ends) refl)
  statement-Served (next_rows {w₁ = w₁} e some_token rest) =
      more {st₁ = at_world w₁} (rw (e, some_token) refl) (statement-Served rest)

module _ (E : Env) (ctx : E.Context) (t : StructType) (fuel : ℕ) {served : List (List Item)}
    {found : List Struct} (st st' : State E.World) (enough : length served ≤ fuel)
    (unmarshaled : unmarshal_all E.runtime t (concat served) ≡ ok found) where
  -- If the client serves the pages of one segment of a scan, or of a whole scan that is not parallel,
  -- until one has no continuation, then reading it with fuel for as many pages returns the items of all
  -- of them, in order, and makes no other call.
  pub scan_segment-Served :
      (b : ScanBuilder E) (segment : ℕ) (input : ScanInput)
      → Scan.build_input E b segment ≡ ok input
      → Served (Scan.fetch E b.db ctx t input) [] st served st'
      → scan_segment E fuel ctx t b segment st ≡ (ok found, st')
  unfolding scan_segment
  scan_segment-Served b segment input built pages =
      rw (built, pages-Served E t _ fuel pages enough [] unmarshaled) refl

module _ (E : Env) (ctx : E.Context) (t : StructType) (fuel : ℕ) {served : List (List Item)}
    {found : List Struct} (st : State E.World) (w' : E.World) (enough : length served ≤ fuel)
    (unmarshaled : unmarshal_all E.runtime t (concat served) ≡ ok found) where
  -- If the client serves a query's pages, each call started at the key that the one before ended
  -- at, until one ends at no key, and their items unmarshal, then All, with fuel for as many pages,
  -- returns the items of all of them, in order, and makes no other call.
  pub query_all-Served :
      (b : QueryBuilder E) (input : QueryInput)
      → Query.build_input E t b ≡ ok input
      → QueryServes E b.db ctx input [] st.world served w'
      → Query.all E fuel ctx t b st ≡ (ok found, record st { world = w' })
  unfolding Query.all
  query_all-Served b input built pages =
      let calls = query-Served E b.db ctx t st.heap pages in
      rw (built, pages-Served E t _ fuel calls enough [] unmarshaled) refl

  -- If the parameters of a statement marshaled and the client serves its pages, each call with the
  -- token of the one before, until one has no token or an empty one, and their items unmarshal,
  -- then All, with fuel for as many pages, returns the items of all of them, in order, and makes no
  -- other call.
  pub statement_all-Served :
      (b : StatementBuilder E)
      → b.failed ≡ none
      → StatementServes E b.db ctx (Statement.build_input E b) none st.world served w'
      → Statement.all E fuel ctx t b st ≡ (ok found, record st { world = w' })
  unfolding Statement.all
  statement_all-Served b fine pages =
      let calls = statement-Served E b.db ctx t st.heap pages in
      ap
        (λ (failed : Option Error).
          unless_failed E failed
            (Paging.pages E t (Statement.fetch E b.db ctx t (Statement.build_input E b)) fuel none
              [])
            st)
        fine
      ∙ pages-Served E t _ fuel calls enough [] unmarshaled
