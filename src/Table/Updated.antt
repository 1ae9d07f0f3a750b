-- ===== src/Table/Updated.antt =====
-- The `UpdateBuilder` of crud.go on a table of rows, and a `Put` of what was read before an update.
use godynamo.Prelude.{
  ℕ, ◌+◌, ◌%◌, String, str_eq, ◌≡◌, ◌≢◌, sym, ap, ◌∙◌, true, false, ◌&&◌, Option, none, some, foldl,
  arith, ◌==◌, Bool-cases, inl, inr,
}
use godynamo.Fault.{ok, wrap_err-eq-ok, map_err-eq-ok}
use godynamo.Io.{at, State, continue-eq-ok}
use godynamo.Reflect.{Model, Struct, StructType, int, string, time, int_mod}
use godynamo.Reflect.Embedding.{IsEntityType}
use godynamo.Sdk.{Item}
use godynamo.Tags.{ModelTags, parse_tags_fresh}
use godynamo.ZeroKeys.{item_key}
use godynamo.ZeroKeys.Laws.{IsDefault, id_key, zero_keys_default, requires_default_key_of_tags}
use godynamo.Compress.{unmarshal_new}
use godynamo.Env.{Env, Expression, UpdateItemInput}
use godynamo.Db.{Db}
use godynamo.Crud.{put}
use godynamo.Update.{UpdateBuilder, run, apply_op, version_condition}
use godynamo.Table.{Table, version_in, HasOwnIndex}
use godynamo.Table.Accepted.{AsExpected, KeepsVersion, is_number-eq-true}
use godynamo.Table.Stamped.{HasDefaultKey}
use godynamo.Table.Located.{put-IsStored}

-- An UpdateItem under the keys, as it was built.
abbrev pub conditional_update : String → String → String → Expression → UpdateItemInput
conditional_update table p q expr = record {
  table_name = table;
  key = item_key p q;
  update_expression = expr.update;
  condition_expression = expr.condition;
  expression_attribute_names = expr.names;
  expression_attribute_values = expr.values;
  return_all_new = true;
}

-- A missing number counts as 0.
abbrev pub or_zero : Option ℕ → ℕ
or_zero none = 0
or_zero (some n) = n

-- What an UpdateItem does that succeeds: its condition held of the row, it adds to the number of an
-- `ADD` clause, it returns the new row, and it leaves the other rows alone.
pub record Updates (E : Env) (db : Db E) (T : Table E db) : Type 0 where
  pub update_holds :
      (ctx : E.Context) (w : E.World) (p q : String) (cond : E.Condition) (upd : E.Updates)
      (expr : Expression) (attrs : Item)
      → E.expression.build none none (some cond) (some upd) ≡ ok expr
      → (db.client.update_item ctx (conditional_update db.table p q expr) w).0 ≡ ok attrs
      → T.holds cond (T.rows w p q) ≡ true
  pub update_adds :
      (ctx : E.Context) (w : E.World) (p q : String) (cond : Option E.Condition) (n : ℕ)
      (upd : E.Updates) (expr : Expression) (attrs : Item)
      → E.expression.build none none cond (some (E.expression.add "Version" (int n) upd)) ≡ ok expr
      → (db.client.update_item ctx (conditional_update db.table p q expr) w).0 ≡ ok attrs
      → (T.rows (db.client.update_item ctx (conditional_update db.table p q expr) w).1 p q
          ≡ some attrs)
        × (version_in T.number_of (some attrs)
            ≡ some ((or_zero (version_in T.number_of (T.rows w p q)) + n) % int_mod))
  pub update_others :
      (ctx : E.Context) (w : E.World) (p q x y : String) (expr : Expression)
      → (str_eq p x && str_eq q y) ≡ false
      → T.rows (db.client.update_item ctx (conditional_update db.table p q expr) w).1 x y
        ≡ T.rows w x y

module _ (E : Env) (b : UpdateBuilder E) (T : Table E b.db) (U : Updates E b.db T) (t : StructType)
    (mt : ModelTags) (entity : IsEntityType t) (parsed : parse_tags_fresh t ≡ ok mt)
    (default : IsDefault mt) where
  abbrev row_key : String
  row_key = id_key E.runtime mt.struct_name b.id

  -- The version that an update asks for.
  abbrev pub HasVersion : Option ℕ → Option Item → Type 0
  HasVersion none row = Unit
  HasVersion (some v) row = version_in T.number_of row ≡ some v

  -- What an update that succeeds has done between two states of the table.
  pub record IsUpdated (v : Struct) (before after : String → String → Option Item) : Type 0 where
    pub row : Item
    pub had_version : HasVersion b.version (before row_key row_key)
    pub stored : after row_key row_key ≡ some row
    pub version :
        version_in T.number_of (some row)
        ≡ some ((or_zero (version_in T.number_of (before row_key row_key)) + 1) % int_mod)
    pub unmarshaled : unmarshal_new E.runtime t row ≡ ok v
    pub others :
        (x y : String) → (str_eq row_key x && str_eq row_key y) ≡ false → after x y ≡ before x y

  had_version_of :
      (ctx : E.Context) (w : E.World) (o : Option ℕ) (upd : E.Updates) (expr : Expression)
      (attrs : Item)
      → E.expression.build none none (version_condition E o) (some upd) ≡ ok expr
      → (b.db.client.update_item ctx (conditional_update b.db.table row_key row_key expr) w).0
        ≡ ok attrs
      → HasVersion o (T.rows w row_key row_key)
  had_version_of ctx w none upd expr attrs built sent = tt
  had_version_of ctx w (some v) upd expr attrs built sent =
      is_number-eq-true E b.db T v (version_in T.number_of (T.rows w row_key row_key)) (
        sym (T.equal_holds v (T.rows w row_key row_key))
        ∙ U.update_holds ctx w row_key row_key (E.expression.equal "Version" (int v)) upd expr attrs
            built sent)

  module _ (ctx : E.Context) (st : State E.World) where
    abbrev ticked : E.World
    ticked = (b.db.clock st.world).1

    abbrev sent_updates : E.Updates
    sent_updates =
        foldl (apply_op E)
          (E.expression.set "UpdatedBy" (string (b.db.actor ctx))
            (E.expression.set "UpdatedAt" (time (b.db.clock st.world).0) E.expression.empty_update))
          b.ops

    -- An update that succeeds, of an entity type with the default keys: it had asked for the
    -- version of the row, if for one, the row's version is one more than it was, or 1 if there was
    -- none, with the wrap-around of Go's `int`, the struct that is returned is the new row, and the
    -- other rows are as they were.
    pub run-IsUpdated :
        (v : Struct)
        → (run E ctx t b st).0 ≡ ok v
        → IsUpdated v (T.rows st.world) (T.rows (run E ctx t b st).1.world)
    unfolding run
    run-IsUpdated v success =
        let allowed = (requires_default_key_of_tags t "UpdateBuilder.Run" mt parsed).0.1 default in
        let keys = zero_keys_default E.runtime t mt entity parsed default b.id in
        let upd = E.expression.add "Version" (int 1) sent_updates in
        let same = T.clock_rows st.world in
        let success' = rw (allowed, keys) at success in
        let (expr, wrapped_ok, h) = continue-eq-ok _ _ _ success' in
        let built = wrap_err-eq-ok _ _ wrapped_ok in
        let (attrs, sent_ok, h₁) = continue-eq-ok _ _ _ h in
        let sent = map_err-eq-ok _ _ sent_ok in
        let (stored, version) =
          U.update_adds ctx ticked row_key row_key (version_condition E b.version) 1 sent_updates
            expr attrs built sent in
        let had = had_version_of ctx ticked b.version upd expr attrs built sent in
        rw (allowed, keys, built, sent)
          (record {
            row = attrs;
            had_version = rw same at had;
            stored = stored;
            version = rw same at version;
            unmarshaled = wrap_err-eq-ok _ _ h₁;
            others = λ x y other.
                U.update_others ctx ticked row_key row_key x y expr other
                ∙ ap (λ (r : String → String → Option Item). r x y) same;
          })

    -- An update leaves the memory alone.
    pub run-heap : (run E ctx t b st).1.heap ≡ st.heap
    unfolding run
    run-heap = ground arith

    -- No Put overwrites an update that it has not seen: let a struct with the ID of the update be as
    -- the table has it, that is, new where there is no row, or of the row's version. Once the update
    -- has succeeded, a Put of the struct fails.
    pub put-after_run :
        (own : HasOwnIndex E b.db) (ctx' : E.Context) (keeps : KeepsVersion t) (p : ℕ) (m : Model)
        (v : Struct)
        → HasDefaultKey t mt m (st.heap p)
        → m.id ≡ b.id
        → AsExpected E b.db T m (T.rows st.world row_key row_key)
        → (run E ctx t b st).0 ≡ ok v
        → (put E b.db ctx' t (at p) (run E ctx t b st).1).0 ≢ ok tt
    put-after_run own ctx' keeps p m v h ids read first second =
        let st' = (run E ctx t b st).1 in
        let u = run-IsUpdated v first in
        let h' : HasDefaultKey t mt m (st'.heap p) = rw run-heap h in
        let a = put-IsStored E b.db T own ctx' t mt keeps p m st' h' second in
        let expected = rw (ids, u.stored) at a.as_expected in
        elim (Bool-cases (m.created_at == 0)) [
          | inl new ↦ absurd (cc (rw new at expected))
          | inr old ↦
              let before = rw old at read in
              let after = rw old at expected in
              let counted : version_in T.number_of (some u.row) ≡ some ((m.version + 1) % int_mod) =
                u.version ∙ ap (λ (k : Option ℕ). some ((or_zero k + 1) % int_mod)) before in
              let bumped : m.version ≡ (m.version + 1) % int_mod = cc (counted, after) in
              omega (arith, bumped)
        ]
