-- ===== src/Paging/Served.antt =====
-- The loops over pages, on a client that serves a given list of pages.
use godynamo.Prelude.{
  ℕ, zero, suc, ◌≤◌, ◌≡◌, refl, none, some, List, [], ◌∷◌, ◌++◌, arith, length, concat,
  append_assoc, append-nil,
}
use godynamo.Fault.{ok, >>=-eq-ok}
use godynamo.Io.{State, Io}
use godynamo.Reflect.{Struct, StructType}
use godynamo.Sdk.{Item, Runtime}
use godynamo.Env.{Env}
use godynamo.Compress.{unmarshal_new, unmarshal_all}
use godynamo.Paging.{Page, pages}

-- From a start and a state, the client serves these pages, one call for each, and ends in that
-- state.
pub data Served {W K : Type 0} (fetch : K → Io W (Page K))
    : K → State W → List (List Item) → State W → Type 0 where
  last :
      {start : K} {st st' : State W} {items : List Item}
      → fetch start st ≡ (ok (items, none), st')
      → Served fetch start st (items ∷ []) st'
  more :
      {start next : K} {st st₁ st' : State W} {items : List Item} {rest : List (List Item)}
      → fetch start st ≡ (ok (items, some next), st₁)
      → Served fetch next st₁ rest st'
      → Served fetch start st (items ∷ rest) st'

module _ (R : Runtime) (t : StructType) where
  -- The items of two lists unmarshal one after the other.
  pub unmarshal_all-append :
      (xs ys : List Item) {vs : List Struct}
      → unmarshal_all R t (xs ++ ys) ≡ ok vs
      → (us : List Struct) × (ws : List Struct) × (unmarshal_all R t xs ≡ ok us)
        × (unmarshal_all R t ys ≡ ok ws)
        × (vs ≡ us ++ ws)
  unfolding unmarshal_all
  unmarshal_all-append [] ys {vs} h = ([], vs, refl, h, refl)
  unmarshal_all-append (x ∷ xs) ys h =
      let (v, e, h1) = >>=-eq-ok (unmarshal_new R t x) _ h in
      let (rest, e', h2) = >>=-eq-ok (unmarshal_all R t (xs ++ ys)) _ h1 in
      let (us, ws, e1, e2, e3) = unmarshal_all-append xs ys e' in
      (v ∷ us, ws, rw (e, e1) refl, e2, cc)

module _ (E : Env) {K : Type 0} (t : StructType) (fetch : K → Io E.World (Page K)) where
  -- With fuel for the pages that the client serves, the loop returns what it had and then the items
  -- of all pages, in order.
  pub pages-Served :
      (fuel : ℕ) {start : K} {st st' : State E.World} {served : List (List Item)}
      → Served fetch start st served st'
      → length served ≤ fuel
      → (acc : List Struct) {found : List Struct}
      → unmarshal_all E.runtime t (concat served) ≡ ok found
      → pages E t fetch fuel start acc st ≡ (ok (acc ++ found), st')
  unfolding pages
  pages-Served zero (last e) h acc all = absurd (omega arith)
  pages-Served zero (more e s) h acc all = absurd (omega arith)
  pages-Served (suc fuel) (last {items = items} e) h acc all =
      rw (e, rw (append-nil items) at all) refl
  pages-Served (suc fuel) (more {items = items} {rest = rest} e s) h acc all =
      let (us, ws, e1, e2, e3) = unmarshal_all-append E.runtime t items (concat rest) all in
      rw (e, e1, e3, ← append_assoc acc us ws)
        (pages-Served fuel s (omega (arith, h)) (acc ++ us) e2)
