-- ===== src/Crud/Putting.antt =====
-- `Put` of crud.go: what it sends, how it reports the client's errors, and what a retry does.
use godynamo.Prelude.{
  ℕ, String, ◌≡◌, ◌≢◌, refl, sym, ◌∙◌, false, ◌||◌, none, some, arith, ◌==◌, Bool-cases, inl, inr,
}
use godynamo.Fault.{
  Outcome, ok, err, panic, Error, errors_is, err_optimistic_lock, as_conditional_check_failed,
  map_err,
}
use godynamo.Io.{at, State}
use godynamo.Reflect.{Model, StructType, Uuid, int, model_of}
use godynamo.Sdk.{Item}
use godynamo.ZeroKeys.{model_field_of}
use godynamo.Env.{Env, Expression}
use godynamo.Db.{Db}
use godynamo.Crud.{stamp_and_marshal, as_optimistic_lock_err, put, put_input}
use godynamo.Crud.Stamping.{IsCreated, stamp_and_marshal-item}
use godynamo.Crud.Written.{stamp_and_marshal-IsWritten}

-- The error wraps `ErrOptimisticLock` exactly if the client reported a failed condition (or the
-- error was one before).
as_optimistic_lock_err-is :
    (E : Env) (action name : String) (id : Uuid) (e : Error)
    → errors_is (as_optimistic_lock_err E action name id e) err_optimistic_lock
      ≡ (as_conditional_check_failed e || errors_is e err_optimistic_lock)
unfolding as_optimistic_lock_err errors_is
as_optimistic_lock_err-is E action name id e = elim (Bool-cases (as_conditional_check_failed e)) [
  | inl failed ↦ rw failed
  | inr other ↦ rw other
]

-- What an outcome of the client's call becomes.
abbrev pub Reports : Outcome (Unit {0}) → Outcome (Unit {0}) → Type 0
Reports (ok _) (ok _) = Unit
Reports (err e) (err e') =
    errors_is e' err_optimistic_lock
    ≡ (as_conditional_check_failed e || errors_is e err_optimistic_lock)
Reports (panic m) (panic m') = m ≡ m'
Reports _ _ = ⊥

module _ (E : Env) (db : Db E) (ctx : E.Context) (t : StructType) where
  map_err-Reports :
      (id : Uuid) (r : Outcome (Unit {0}))
      → Reports r (map_err (as_optimistic_lock_err E "put" t.name id) r)
  map_err-Reports id (ok _) = tt
  map_err-Reports id (err e) = as_optimistic_lock_err-is E "put" t.name id e
  map_err-Reports id (panic m) = refl

  -- The memory after a Put is the memory after its stamping.
  pub put-heap :
      (p : ℕ) (st : State E.World)
      → (put E db ctx t (at p) st).1.heap ≡ (stamp_and_marshal E db ctx (at p) st).1.heap
  unfolding put
  put-heap p st = ground arith

  module _ (p : ℕ) (m : Model) (st : State E.World) (found : model_of (st.heap p) ≡ some m) where
    put-stamp_error :
        (e : Error)
        → (stamp_and_marshal E db ctx (at p) st).0 ≡ err e
        → put E db ctx t (at p) st ≡ (err e, (stamp_and_marshal E db ctx (at p) st).1)
    unfolding put
    put-stamp_error e h = rw h

    pub put-sent :
        (av : Item) (cond : E.Condition) (expr : Expression)
        → (stamp_and_marshal E db ctx (at p) st).0 ≡ ok (av, cond)
        → E.expression.build none none (some cond) none ≡ ok expr
        → (id : Uuid) × (put E db ctx t (at p) st ≡ (
          map_err
              (as_optimistic_lock_err E "put" t.name id)
              (db.client.put_item ctx
                (put_input E db av expr)
                (stamp_and_marshal E db ctx (at p) st).1.world).0,
          record (stamp_and_marshal E db ctx (at p) st).1 {
            world =
                (db.client.put_item ctx
                  (put_input E db av expr)
                  (stamp_and_marshal E db ctx (at p) st).1.world).1;
          },
        ))
    unfolding put model_field_of
    put-sent av cond expr h hb =
        let (n, has, _, _) = stamp_and_marshal-item E db ctx p m st found in (n.id, rw (h, has, hb))

    -- If the stamping and the building of the condition succeed, Put makes one call of PutItem,
    -- with the stamped item, the text of the condition, its names and its values, and leaves the
    -- world as the call does. It reports the call's outcome: it succeeds exactly if the call does,
    -- and if the call fails, Put fails with an error that wraps `ErrOptimisticLock` exactly if the
    -- client's error is, or wraps, a failed condition check or that sentinel.
    pub put-call :
        (av : Item) (cond : E.Condition) (expr : Expression) (r : Outcome (Unit {0})) (w : E.World)
        → (stamp_and_marshal E db ctx (at p) st).0 ≡ ok (av, cond)
        → E.expression.build none none (some cond) none ≡ ok expr
        → db.client.put_item ctx
            (record {
              table_name = db.table;
              item = av;
              condition_expression = expr.condition;
              expression_attribute_names = expr.names;
              expression_attribute_values = expr.values;
            })
            (stamp_and_marshal E db ctx (at p) st).1.world
          ≡ (r, w)
        → ((put E db ctx t (at p) st).1.world ≡ w) × Reports r (put E db ctx t (at p) st).0
    put-call av cond expr r w h hb hc =
        let (id, sent) = put-sent av cond expr h hb in rw (sent, hc) (refl, map_err-Reports id r)

  -- After a Put of a new item, successful or not, the item is no longer new: if it is stamped
  -- again, as by a retry, the condition is that version 1 is stored, and not that nothing is.
  pub put-retry :
      (p : ℕ) (m : Model) (st : State E.World) (av : Item) (cond : E.Condition)
      → model_of (st.heap p) ≡ some m
      → m.created_at ≡ 0
      → (db.clock st.world).0 ≢ 0
      → (stamp_and_marshal E db ctx (at p) (put E db ctx t (at p) st).1).0 ≡ ok (av, cond)
      → cond ≡ E.expression.equal "Version" (int 1)
  put-retry p m st av cond found new now h =
      let (n, has, _, either) = stamp_and_marshal-item E db ctx p m st found in
      let has' : model_of ((put E db ctx t (at p) st).1.heap p) ≡ some n = rw (put-heap p st) has in
      let written =
        stamp_and_marshal-IsWritten E db ctx p n (put E db ctx t (at p) st).1 av cond has' h in
      let created : IsCreated m n (E.new_uuid (db.clock st.world).1).0 (st.heap p).type_name
          (db.clock st.world).0 (db.actor ctx) =
        elim either [ inl (_, created) ↦ created | inr (old, _) ↦ absurd (old new) ] in
      let later : n.created_at ≢ 0 = λ z. now (sym created.created_at ∙ z) in
      let test : (n.created_at == 0) ≡ false = ground arith in
      written.condition ∙ rw (test, created.version)
