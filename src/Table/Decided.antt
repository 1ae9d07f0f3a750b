-- ===== src/Table/Decided.antt =====
-- `Put` of crud.go on a table of rows whose client decides each PutItem by its condition alone.
use godynamo.Prelude.{
  ℕ, String, ◌≡◌, refl, Bool, true, false, none, some, arith, ◌==◌, Bool-cases, inl, inr, Option,
  if◌then◌else◌,
}
use godynamo.Dict.{lookup}
use godynamo.Fault.{
  Outcome, Error, ok, err, panic, errors_is, err_optimistic_lock, as_conditional_check_failed,
}
use godynamo.Io.{at, State}
use godynamo.Reflect.{Model, StructType, int}
use godynamo.Sdk.{s, Item}
use godynamo.Tags.{ModelTags}
use godynamo.ZeroKeys.Laws.{id_key}
use godynamo.Env.{Env, Expression}
use godynamo.Db.{Db}
use godynamo.Crud.{put, put_input, stamp_and_marshal}
use godynamo.Crud.Putting.{put-call, Reports}
use godynamo.Crud.Written.{stamp_and_marshal-IsWritten}
use godynamo.Table.{Table, conditional_put, HasOwnIndex, version_in, is_number}
use godynamo.Table.Accepted.{AsExpected, KeepsVersion, stamping_rows}
use godynamo.Table.Stamped.{HasDefaultKey, stamp-IsKeyed}

-- An outcome that is decided by a condition: success where it holds, and where it does not, an error
-- that reports a failed condition check.
abbrev pub DecidedBy : Bool → Outcome (Unit {0}) → Type 0
DecidedBy true r = r ≡ ok tt
DecidedBy false r = (e : Error) × (r ≡ err e) × (as_conditional_check_failed e ≡ true)

-- A client that answers each PutItem by its condition: it is not throttled, and no request of it is
-- lost or refused for another reason.
pub record Decides (E : Env) (db : Db E) (T : Table E db) : Type 0 where
  pub put_decides :
      (ctx : E.Context) (w : E.World) (av : Item) (cond : E.Condition) (expr : Expression)
      (p q : String)
      → E.expression.build none none (some cond) none ≡ ok expr
      → lookup "PK" av ≡ some (s p)
      → lookup "SK" av ≡ some (s q)
      → DecidedBy
          (T.holds cond (T.rows w p q))
          (db.client.put_item ctx (conditional_put db.table av expr) w).0

module _ (E : Env) (db : Db E) (T : Table E db) where
  is_number_self : (n : ℕ) → is_number n (some n) ≡ true
  is_number_self n = ground arith

  -- The condition of a write holds of a row that is as the item expects it.
  AsExpected-holds :
      (m : Model) (cond : E.Condition) (row : Option Item)
      → cond ≡ (
          if m.created_at == 0
          then E.expression.attribute_not_exists "PK"
          else E.expression.equal "Version" (int m.version))
      → AsExpected E db T m row
      → T.holds cond row ≡ true
  AsExpected-holds m cond row e x = elim (Bool-cases (m.created_at == 0)) [
    | inl new ↦ let gone : row ≡ none = rw new at x in rw (e, new, T.not_exists_holds, gone) refl
    | inr old ↦
        let same : version_in T.number_of row ≡ some m.version = rw old at x in
        rw (e, old, T.equal_holds, same) (is_number_self m.version)
  ]

  -- The outcome of a Put that is decided by the row: success where it is as the item expects it, and
  -- an error that wraps `ErrOptimisticLock` where it is not.
  pub record IsDecided (m : Model) (row : Option Item) (r : Outcome (Unit {0})) : Type 0 where
    pub accepted : AsExpected E db T m row → r ≡ ok tt
    pub refused :
        (¬ AsExpected E db T m row)
        → (e : Error) × (r ≡ err e) × (errors_is e err_optimistic_lock ≡ true)

  reported_ok : (r r' : Outcome (Unit {0})) → Reports r r' → r ≡ ok tt → r' ≡ ok tt
  reported_ok r (ok tt) h e = refl
  reported_ok r (err x) h e = absurd (rw e at h)
  reported_ok r (panic m) h e = absurd (rw e at h)

  reported_err :
      (r r' : Outcome (Unit {0})) (e : Error)
      → Reports r r'
      → r ≡ err e
      → as_conditional_check_failed e ≡ true
      → (e' : Error) × (r' ≡ err e') × (errors_is e' err_optimistic_lock ≡ true)
  reported_err r (ok tt) e h is failed = absurd (rw is at h)
  reported_err r (err x) e h is failed = (x, refl, rw (is, failed) at h)
  reported_err r (panic m) e h is failed = absurd (rw is at h)

  module _ (D : Decides E db T) (own : HasOwnIndex E db) (ctx : E.Context) (t : StructType)
      (mt : ModelTags) (keeps : KeepsVersion t) (p : ℕ) (m : Model) (st : State E.World) where
    abbrev key : String
    key = id_key E.runtime mt.struct_name m.id

    -- Put is decided by the row: let an entity with the default keys have been stamped and its
    -- condition built without an error. A Put of it succeeds if its row is absent and it is new, or
    -- if its row is of its version; and otherwise it fails with an error that wraps
    -- `ErrOptimisticLock`.
    pub put-IsDecided :
        (av : Item) (cond : E.Condition) (expr : Expression)
        → HasDefaultKey t mt m (st.heap p)
        → (stamp_and_marshal E db ctx (at p) st).0 ≡ ok (av, cond)
        → E.expression.build none none (some cond) none ≡ ok expr
        → IsDecided m
            (T.rows st.world
              (id_key E.runtime mt.struct_name m.id)
              (id_key E.runtime mt.struct_name m.id))
            (put E db ctx t (at p) st).0
    put-IsDecided av cond expr h stamped built =
        let k = stamp-IsKeyed E db T own ctx t mt keeps p m st h av cond stamped in
        let written = stamp_and_marshal-IsWritten E db ctx p m st av cond h.found stamped in
        let w = (stamp_and_marshal E db ctx (at p) st).1.world in
        let same = stamping_rows E db T ctx p m st h.found in
        let sent = db.client.put_item ctx (put_input E db av expr) w in
        let (_, reports) =
          put-call E db ctx t p m st h.found av cond expr sent.0 sent.1 stamped built refl in
        let decided = rw same at (D.put_decides ctx w av cond expr key key built k.pk_is k.sk_is) in
        record {
          accepted = λ x. reported_ok sent.0 _ reports (
              rw (AsExpected-holds m cond (T.rows st.world key key) written.condition x) at
                decided);
          refused = λ x. elim (Bool-cases (T.holds cond (T.rows st.world key key))) [
            | inl held ↦ absurd (x (k.expects _ held))
            | inr failed ↦
                let (e, is, checked) = rw failed at decided in
                reported_err sent.0 _ e reports is checked
          ];
        }
