-- ===== src/Table/History/Advances.antt =====
-- What one successful step of a history does to the row of its item.
use godynamo.Prelude.{
  ℕ, List, ◌+◌, ◌%◌, ◌≡◌, ◌≢◌, refl, sym, ◌∙◌, Option, none, some, arith, eq_refl, ◌==◌, ==_iff,
  Bool-cases, inl, inr,
}
use godynamo.Fault.{ok}
use godynamo.Io.{at, State}
use godynamo.Reflect.{Model, Struct, StructType, Uuid, int_mod}
use godynamo.Sdk.{Item}
use godynamo.Tags.{ModelTags}
use godynamo.Env.{Env}
use godynamo.Db.{Db}
use godynamo.Crud.{put, delete}
use godynamo.Update.{UpdateOp, run}
use godynamo.Table.{Table, version_in, HasOwnIndex}
use godynamo.Table.Accepted.{AsExpected}
use godynamo.Table.Stamped.{HasDefaultKey}
use godynamo.Table.Located.{put-IsStored}
use godynamo.Table.Removed.{delete_row}
use godynamo.Table.Updated.{Updates, or_zero, run-IsUpdated}
use godynamo.Table.Preparing.{NotPut}
use godynamo.Table.Transacted.{Transacts, run_write-RowIsPut}
use godynamo.Transact.{TransactWriteOp, run_write}
use godynamo.Env.{TransactWriteItem}
use godynamo.Table.History.{HasIdKeys, row_key, row_of, updating, queued}

module _ (E : Env) (db : Db E) (T : Table E db) where
  abbrev pub version_or_zero : Option Item → ℕ
  version_or_zero row = or_zero (version_in T.number_of row)

  -- What a number of writes do to a row: its version, 0 if there is none, is as much more, up to
  -- the wrap-around of Go's `int`; without a write the row is the same, and with one it is there.
  pub record Advances (c : ℕ) (before after : Option Item) : Type 0 where
    pub version : version_or_zero after % int_mod ≡ (version_or_zero before + c) % int_mod
    pub stays : c ≡ 0 → after ≡ before
    pub exists : after ≡ none → c ≡ 0

  pub unwritten : (before after : Option Item) → after ≡ before → Advances 0 before after
  unwritten before after same = record {
    version = rw same (omega arith);
    stays = λ _. same;
    exists = λ _. refl;
  }

  pub Advances-trans :
      (c d : ℕ) (r₁ r₂ r₃ : Option Item)
      → Advances c r₁ r₂
      → Advances d r₂ r₃
      → Advances (c + d) r₁ r₃
  Advances-trans c d r₁ r₂ r₃ f g = record {
    version = omega (arith, f.version, g.version);
    stays = λ z. g.stays (omega arith) ∙ f.stays (omega arith);
    exists = λ missing.
        let d_zero = g.exists missing in
        let c_zero = f.exists (sym (g.stays d_zero) ∙ missing) in omega (arith, d_zero, c_zero);
  }

  -- One write that stores an item at a version that counts one more than the row's.
  written_once :
      (before after : Option Item) (av : Item) (k : ℕ)
      → after ≡ some av
      → version_in T.number_of (some av) ≡ some k
      → k % int_mod ≡ (version_or_zero before + 1) % int_mod
      → Advances 1 before after
  written_once before after av k is_av version counted = record {
    version = rw (is_av, version) counted;
    stays = λ z. absurd (omega (arith, z));
    exists = λ missing. cc;
  }

  -- What a Put expects of a row is the version that it counts from.
  expected_version :
      (m : Model) (row : Option Item) (k : ℕ)
      → AsExpected E db T m row
      → (m.created_at ≡ 0 → k ≡ 1)
      → (m.created_at ≢ 0 → k ≡ (m.version + 1) % int_mod)
      → k % int_mod ≡ (version_or_zero row + 1) % int_mod
  expected_version m row k h first later = elim (Bool-cases (m.created_at == 0)) [
    | inl new ↦
        let absent : row ≡ none = rw new at h in
        rw absent (omega (arith, first ((==_iff m.created_at 0).0 new)))
    | inr old ↦
        let old_ne : m.created_at ≢ 0 = λ e. cc ((==_iff m.created_at 0).1 e) in
        let version : version_in T.number_of row ≡ some m.version = rw old at h in
        rw version (omega (arith, later old_ne))
  ]

module _ (E : Env) (db : Db E) (T : Table E db) (U : Updates E db T) (X : Transacts E db T)
    (t : StructType) (mt : ModelTags) (id : Uuid) (own : HasOwnIndex E db)
    (keys : HasIdKeys t mt) where
  abbrev pub row_at : State E.World → Option Item
  row_at st = row_of E db T U X t mt id st

  pub wrote-Advances :
      (s : State E.World) (ctx : E.Context) (p : ℕ) (m : Model)
      → HasDefaultKey t mt m (s.heap p)
      → m.id ≡ id
      → (put E db ctx t (at p) s).0 ≡ ok tt
      → Advances E db T 1 (row_at s) (row_at (put E db ctx t (at p) s).1)
  wrote-Advances s ctx p m h same success =
      let a = put-IsStored E db T own ctx t mt keys.keeps p m s h success in
      let key = row_key E db T U X t mt id in
      let expected : AsExpected E db T m (row_at s) = rw same at a.as_expected in
      written_once E db T (row_at s) _ a.av a.keyed.stamped
        (rw same at a.rows key key ∙ rw (eq_refl key) refl) a.keyed.version
        (expected_version E db T m (row_at s) a.keyed.stamped expected a.keyed.first a.keyed.next)

  pub updated-Advances :
      (s : State E.World) (ctx : E.Context) (ops : List UpdateOp) (version : Option ℕ) (v : Struct)
      → (run E ctx t (updating E db T U X t mt id ops version) s).0 ≡ ok v
      → Advances E db T 1
          (row_at s)
          (row_at (run E ctx t (updating E db T U X t mt id ops version) s).1)
  updated-Advances s ctx ops version v success =
      let u =
        run-IsUpdated E (updating E db T U X t mt id ops version) T U t mt keys.entity keys.parsed
          keys.default ctx s v success in
      written_once E db T (row_at s) _ u.row _ u.stored u.version (omega arith)

  pub transacted-Advances :
      (s u : State E.World) (ctx : E.Context) (p : ℕ) (m : Model)
      (earlier later : List TransactWriteOp) (entry : TransactWriteItem)
      → HasDefaultKey t mt m (s.heap p)
      → m.id ≡ id
      → NotPut p earlier
      → NotPut p later
      → run_write E ctx (queued E db T U X t mt id p earlier later entry) s ≡ (ok tt, u)
      → Advances E db T 1 (row_at s) (row_at u)
  transacted-Advances s u ctx p m earlier later entry h same first last success =
      let a =
        run_write-RowIsPut E db T X own ctx t mt keys.keeps p m earlier later entry none s u h first
          last success in
      let expected : AsExpected E db T m (row_at s) = rw same at a.as_expected in
      written_once E db T (row_at s) (row_at u) a.av a.keyed.stamped (rw same at a.stored)
        a.keyed.version
        (expected_version E db T m (row_at s) a.keyed.stamped expected a.keyed.first a.keyed.next)

  pub deleted_row :
      (s : State E.World) (ctx : E.Context)
      → (delete E db ctx t id s).0 ≡ ok tt
      → row_at (delete E db ctx t id s).1 ≡ none
  deleted_row s ctx success =
      let key = row_key E db T U X t mt id in
      delete_row E db T t mt keys.entity keys.parsed keys.default ctx id s key key success
      ∙ rw (eq_refl key) refl
