-- ===== src/Tests/Store.antt =====
-- That the tests' client is a client of a table of rows.
use godynamo.Prelude.{
  String, ◌≡◌, refl, ap, sym, ◌∙◌, Bool, true, false, none, some, ◌++◌, drop, append_assoc,
  take-append-drop,
}
use godynamo.Dict.{lookup}
use godynamo.Fault.{Outcome, ok}
use godynamo.Reflect.{Struct, Model, model_of, type_of}
use godynamo.Sdk.{s, Item}
use godynamo.Env.{Expression}
use mathlib.Core.List.Perm
use godynamo.Batch.Applied.{Ledger}
use godynamo.Table.{GetAnswers, PromotesVersion, Table, conditional_put, version_in, HasOwnIndex}
use godynamo.Tests.Rows.{
  RowWorld, row_runtime, row_texts, evaluate, number_of, model_attrs, text_attrs,
}
use godynamo.Tests.Client.{answer, row_client, row_db, row_env, row_expression, rows_with}

pub row_db-HasOwnIndex : HasOwnIndex row_env row_db
row_db-HasOwnIndex = record { not_pk = refl; not_sk = refl; not_version = refl }

pub marshaled_version :
    (v : Struct) (m : Model) (base : Item)
    → PromotesVersion (type_of v)
    → model_of v ≡ some m
    → row_runtime.marshal_map v ≡ ok base
    → version_in number_of (some base) ≡ some m.version
unfolding lookup
marshaled_version v m base promoted found h =
    let is_base : model_attrs (model_of v) ++ text_attrs v.slots ≡ base = cc h in
    rw (sym is_base, found) refl

module _ (av : Item) (cond : String × Item) (expr : Expression)
    (built : row_texts.build none none (some cond) none ≡ ok expr) where
  pub put_expression :
      (ctx : String) (w : RowWorld) (p q : String)
      → lookup "PK" av ≡ some (s p)
      → lookup "SK" av ≡ some (s q)
      → row_client.put_item ctx (conditional_put "tasks" av expr) w
        ≡ answer (evaluate (some cond.0) cond.1 (w.rows p q)) (rows_with av p q w) w
  put_expression ctx w p q k l =
      let same : row_expression cond ≡ expr = cc built in rw (sym same, k, l) refl

  answer-eq-ok :
      (found : Bool) (stored w : RowWorld)
      → (answer found stored w).0 ≡ ok tt
      → (found ≡ true) × ((answer found stored w).1 ≡ stored)
  answer-eq-ok true stored w h = (refl, refl)
  answer-eq-ok false stored w h = cc

  pub put_stored :
      (ctx : String) (w : RowWorld) (p q : String)
      → lookup "PK" av ≡ some (s p)
      → lookup "SK" av ≡ some (s q)
      → (row_client.put_item ctx (conditional_put "tasks" av expr) w).0 ≡ ok tt
      → (evaluate (some cond.0) cond.1 (w.rows p q) ≡ true)
        × ((row_client.put_item ctx (conditional_put "tasks" av expr) w).1 ≡ rows_with av p q w)
  put_stored ctx w p q k l h =
      let e = put_expression ctx w p q k l in
      let (seen, stored) =
        answer-eq-ok (evaluate (some cond.0) cond.1 (w.rows p q)) (rows_with av p q w) w
          (sym (ap (λ (r : Outcome (Unit {0}) × RowWorld). r.0) e) ∙ h) in
      (seen, ap (λ (r : Outcome (Unit {0}) × RowWorld). r.1) e ∙ stored)

unfoldable pub row_table : Table row_env row_db
unfolding lookup
row_table = record {
  rows = λ w. w.rows;
  number_of = number_of;
  holds = λ cond row. evaluate (some cond.0) cond.1 row;
  clock_rows = λ w. refl;
  uuid_rows = λ w. refl;
  not_exists_holds = λ row. refl;
  equal_holds = λ n row. refl;
  marshal_version = marshaled_version;
  put_holds =
      λ ctx w av cond expr p q built k l h. (put_stored av cond expr built ctx w p q k l h).0;
  put_stores = λ ctx w av cond expr p q x y built k l h.
      ap (λ (u : RowWorld). u.rows x y) (put_stored av cond expr built ctx w p q k l h).1;
  delete_removes = λ ctx w p q x y h. refl;
}

pub row_ledger : Ledger row_env row_db
row_ledger = record {
  applied = λ w. w.log;
  batch_write_splits = λ ctx requests w out h.
      let is_out : (λ (_ : String). drop 1 requests) ≡ out = cc h in
      rw (sym is_out, append_assoc, take-append-drop) Perm.rfl;
  sleep_applies = λ n w. refl;
}

-- The tests' GetItem answers with the row that is there.
pub row_db-GetAnswers :
    (ctx key : String) (w : RowWorld)
    → GetAnswers row_env row_db ctx w key (row_table.rows w key key)
unfolding lookup row_table
row_db-GetAnswers ctx key w = refl
