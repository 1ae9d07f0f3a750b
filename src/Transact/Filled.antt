-- ===== src/Transact/Filled.antt =====
-- What a transactional read of transact.go writes to its destinations.
use godynamo.Prelude.{
  ℕ, ◌+◌, ◌≡◌, ◌≢◌, refl, sym, ap, ◌∙◌, false, arith, List, [], ◌∷◌, map, All, Bool-cases, inl, inr,
  is_empty, ltb, ◌≤◌, not_ltb→le, length, if◌then◌else◌,
}
use godynamo.Fault.{Outcome, ok, Outcome-cases, wrap_err-eq-ok}
use godynamo.Io.{Pointer, at, State, store_at, continue-eq, continue-eq-ok}
use godynamo.Reflect.{Struct}
use godynamo.Sdk.{Item}
use godynamo.Compress.{unmarshal_item_into}
use godynamo.Env.{Env, KeyInput}
use godynamo.Db.{Db}
use godynamo.Crud.Stamping.{store_at_self}
use godynamo.Transact.{transact_max_items, key_of}
use godynamo.Transact.Reading.{
  TransactGetBuilder, fetch_all, fill, get_items, run_get, unmarshal_at,
}

-- No pointer is given twice.
abbrev pub AreDistinct : List ℕ → Type 0
AreDistinct [] = Unit
AreDistinct (p ∷ ps) = All (λ (q : ℕ). p ≢ q) ps × AreDistinct ps

store_at_other : (p q : ℕ) (v : Struct) (heap : ℕ → Struct) → p ≢ q → store_at p v heap q ≡ heap q
unfolding store_at
store_at_other p q v heap other = ground arith

module _ (E : Env) where
  module _ (heap heap' : ℕ → Struct) where
    -- A missing item leaves its destination as it was, and another is unmarshaled into it.
    abbrev pub IsFilled : ℕ → Item → Type 0
    IsFilled p item =
        if is_empty item
        then heap' p ≡ heap p
        else unmarshal_item_into E.runtime item (heap p) ≡ (ok tt, heap' p)

    -- The destinations in order, each with its response; those without one are as they were.
    abbrev pub AreFilled : List ℕ → List Item → Type 0
    AreFilled [] responses = Unit
    AreFilled (p ∷ ps) [] = (heap' p ≡ heap p) × AreFilled ps []
    AreFilled (p ∷ ps) (item ∷ responses) = IsFilled p item × AreFilled ps responses

  AreFilled-from :
      (heap heap₁ heap' : ℕ → Struct) (ps : List ℕ) (responses : List Item)
      → All (λ (q : ℕ). heap₁ q ≡ heap q) ps
      → AreFilled heap₁ heap' ps responses
      → AreFilled heap heap' ps responses
  AreFilled-from heap heap₁ heap' [] responses _ f = tt
  AreFilled-from heap heap₁ heap' (p ∷ ps) [] (same, sames) (f, fs) =
      (f ∙ same, AreFilled-from heap heap₁ heap' ps [] sames fs)
  AreFilled-from heap heap₁ heap' (p ∷ ps) (item ∷ responses) (same, sames) (f, fs) =
      (rw same at f, AreFilled-from heap heap₁ heap' ps responses sames fs)

  untouched :
      (p : ℕ) (v : Struct) (heap : ℕ → Struct) (ps : List ℕ)
      → All (λ (q : ℕ). p ≢ q) ps
      → All (λ (q : ℕ). store_at p v heap q ≡ heap q) ps
  untouched p v heap [] _ = tt
  untouched p v heap (q ∷ ps) (other, others) =
      (store_at_other p q v heap other, untouched p v heap ps others)

  not_filled : (heap heap' : ℕ → Struct) (ps : List ℕ) → heap' ≡ heap → AreFilled heap heap' ps []
  not_filled heap heap' [] same = tt
  not_filled heap heap' (p ∷ ps) same =
      (ap (λ (h : ℕ → Struct). h p) same, not_filled heap heap' ps same)

  fill-AreFilled :
      (i : ℕ) (ps : List ℕ) (responses : List Item) (st out : State E.World)
      → AreDistinct ps
      → fill E i (map at ps) responses st ≡ (ok tt, out)
      → AreFilled st.heap out.heap ps responses
        × ((q : ℕ) → All (λ (p : ℕ). q ≢ p) ps → out.heap q ≡ st.heap q)
        × (out.world ≡ st.world)
  unfolding fill unmarshal_at
  fill-AreFilled i [] responses st out _ h =
      let same : st ≡ out = cc h in
      (tt, λ q _. ap (λ (s : State E.World). s.heap q) (sym same), cc same)
  fill-AreFilled i (p ∷ ps) [] st out _ h =
      let same : out.heap ≡ st.heap = cc h in
      (
        (ap (λ (f : ℕ → Struct). f p) same, not_filled st.heap out.heap ps same),
        λ q _. ap (λ (f : ℕ → Struct). f q) same,
        cc h,
      )
  fill-AreFilled i (p ∷ ps) (item ∷ responses) st out (apart, distinct) h =
      elim (Bool-cases (is_empty item)) [
        | inl missing ↦
            let (filled, kept, world) =
              fill-AreFilled (i + 1) ps responses st out distinct (rw missing at h) in
            ((rw missing (kept p apart), filled), λ q others. kept q others.1, world)
        | inr some_item ↦
            let v = (unmarshal_item_into E.runtime item (st.heap p)).1 in
            let st₁ : State E.World = record st { heap = store_at p v st.heap } in
            let (_, wrapped_ok, rest) = continue-eq _ _ _ (rw some_item at h) in
            let (filled, kept, world) = fill-AreFilled (i + 1) ps responses st₁ out distinct rest in
            let here : out.heap p ≡ v = kept p apart ∙ store_at_self p v st.heap in
            (
              (
                rw (some_item, here)
                    (ap (λ (o : Outcome (Unit {0})). (o, v)) (wrap_err-eq-ok _ _ wrapped_ok)),
                AreFilled-from st.heap st₁.heap out.heap ps responses
                    (untouched p v st.heap ps apart) filled,
              ),
              λ q others. kept q others.1 ∙ store_at_other p q v st.heap (λ z. others.0 (sym z)),
              world,
            )
      ]

module _ (E : Env) (db : Db E) where
  -- The keys of the destinations, in order.
  abbrev pub AsksFor : (ℕ → Struct) → List ℕ → List KeyInput → Type 0
  AsksFor heap [] [] = Unit
  AsksFor heap (p ∷ ps) (input ∷ inputs) =
      (input.table_name ≡ db.table) × (key_of E heap (at p) ≡ ok input.key) × AsksFor heap ps inputs
  AsksFor _ _ _ = ⊥

  get_items-state : (dsts : List Pointer) (st : State E.World) → (get_items E db dsts st).1 ≡ st
  unfolding get_items
  get_items-state [] st = refl
  get_items-state (dst ∷ dsts) st = elim (Outcome-cases (key_of E st.heap dst)) [
    | inl (key, e) ↦ elim (Outcome-cases (get_items E db dsts st).0) [
      | inl (rest, e') ↦ rw (e, e') (get_items-state dsts st)
      | inr (inl (x, e')) ↦ rw (e, e') (get_items-state dsts st)
      | inr (inr (m, e')) ↦ rw (e, e') (get_items-state dsts st)
    ]
    | inr (inl (x, e)) ↦ rw e refl
    | inr (inr (m, e)) ↦ rw e refl
  ]

  get_items-AsksFor :
      (ps : List ℕ) (st : State E.World) (inputs : List KeyInput)
      → (get_items E db (map at ps) st).0 ≡ ok inputs
      → AsksFor st.heap ps inputs
  unfolding get_items
  get_items-AsksFor [] st inputs h = let e : [] ≡ inputs = cc h in rw (sym e) tt
  get_items-AsksFor (p ∷ ps) st inputs h =
      let (key, keyed, h₁) = continue-eq-ok (key_of E st.heap (at p)) _ st h in
      let (rest, asked, h₂) = continue-eq-ok (get_items E db (map at ps) st).0 _ _ h₁ in
      let whole : record { table_name = db.table; key = key } ∷ rest ≡ inputs = cc h₂ in
      rw (sym whole) (refl, keyed, get_items-AsksFor ps st rest asked)

module _ (E : Env) (ctx : E.Context) (b : TransactGetBuilder E) where
  -- One call for the keys of the destinations, which succeeds, and what is left of it in memory.
  pub record IsFetched (ps : List ℕ) (st out : State E.World) : Type 0 where
    pub inputs : List KeyInput
    pub responses : List Item
    pub asks : AsksFor E b.db st.heap ps inputs
    pub fetched : (b.db.client.transact_get_items ctx inputs st.world).0 ≡ ok responses
    pub world : out.world ≡ (b.db.client.transact_get_items ctx inputs st.world).1
    pub filled : AreFilled E st.heap out.heap ps responses
    pub others : (q : ℕ) → All (λ (p : ℕ). q ≢ p) ps → out.heap q ≡ st.heap q

  fetch_all-IsFetched :
      (ps : List ℕ) (st out : State E.World)
      → b.dsts ≡ map at ps
      → AreDistinct ps
      → fetch_all E ctx b st ≡ (ok tt, out)
      → IsFetched ps st out
  fetch_all-IsFetched ps st out queued distinct h =
      let (inputs, asked, h₁) =
        continue-eq (get_items E b.db (map at ps) st).0 _ _ (rw queued at h) in
      let (responses, wrapped_ok, h₂) =
        continue-eq _ _ _ (rw (get_items-state E b.db (map at ps) st) at h₁) in
      let st₁ : State E.World = record st {
        world = (b.db.client.transact_get_items ctx inputs st.world).1;
      } in
      let (filled, kept, world) = fill-AreFilled E 0 ps responses st₁ out distinct h₂ in
      record {
        inputs = inputs;
        responses = responses;
        asks = get_items-AsksFor E b.db ps st inputs asked;
        fetched = wrap_err-eq-ok _ _ wrapped_ok;
        world = world;
        filled = filled;
        others = kept;
      }

  -- A transactional read into distinct destinations that succeeds has at most 100 of them and has made
  -- one call, for the keys of the destinations in order, and each destination holds what unmarshaling
  -- its response into it gives: it is as it was if its item is missing, and so are all other structs.
  pub run_get-AreFilled :
      (ps : List ℕ) (st out : State E.World)
      → b.dsts ≡ map at ps
      → ps ≢ []
      → AreDistinct ps
      → run_get E ctx b st ≡ (ok tt, out)
      → (length b.dsts ≤ 100) × IsFetched ps st out
  unfolding run_get
  run_get-AreFilled [] st out queued some_dst distinct h = absurd (some_dst refl)
  run_get-AreFilled (p ∷ ps) st out queued some_dst distinct h =
      let full : is_empty b.dsts ≡ false = ap is_empty queued in
      elim (Bool-cases (ltb transact_max_items (length b.dsts))) [
        | inl over ↦ absurd (cc (rw (full, over) at h))
        | inr within ↦ (
          not_ltb→le transact_max_items (length b.dsts) within,
          fetch_all-IsFetched (p ∷ ps) st out queued distinct (rw (full, within) at h),
        )
      ]
