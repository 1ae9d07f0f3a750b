-- ===== src/Batch/Rows.antt =====
-- The rows that batch reads of batch.go return, and what is assumed of the client that returns them.
use godynamo.Prelude.{◌≡◌, refl, sym, List, [], ◌∷◌, ◌++◌, map, concat, append_assoc}
use mathlib.Core.List.{Perm}
use mathlib.Core.List.Perm
use godynamo.Fault.{ok, >>=-eq-ok}
use godynamo.Reflect.{Struct, StructType}
use godynamo.Sdk.{Item, Runtime}
use godynamo.Env.{Env, BatchGetOutput}
use godynamo.Db.{Db}
use godynamo.Compress.{unmarshal_new, unmarshal_all}

-- The rows of keys: at most one for each in a table, none for a key that is not there.
abbrev pub rows_of : (Item → List Item) → List Item → List Item
rows_of answers keys = concat (map answers keys)

-- What a call returns that succeeds, and the rows of the keys that it leaves unprocessed, are the
-- rows of its keys.
pub record Answers (E : Env) (db : Db E) : Type 0 where
  pub answers : Item → List Item
  pub batch_get_splits :
      (ctx : E.Context) (keys : List Item) (w : E.World) (out : BatchGetOutput)
      → (db.client.batch_get_item ctx db.table keys w).0 ≡ ok out
      → Perm
          (out.responses db.table ++ rows_of answers (out.unprocessed_keys db.table))
          (rows_of answers keys)

rows_of-append :
    (answers : Item → List Item) (xs ys : List Item)
    → rows_of answers (xs ++ ys) ≡ rows_of answers xs ++ rows_of answers ys
rows_of-append answers [] ys = refl
rows_of-append answers (x ∷ xs) ys =
    rw (rows_of-append answers xs ys)
      (sym (append_assoc (answers x) (rows_of answers xs) (rows_of answers ys)))

module _ (R : Runtime) (t : StructType) where
  pub unmarshal_all-nil : unmarshal_all R t [] ≡ ok []
  unfolding unmarshal_all
  unmarshal_all-nil = refl

  pub unmarshal_all-both :
      (xs ys : List Item) (us ws : List Struct)
      → unmarshal_all R t xs ≡ ok us
      → unmarshal_all R t ys ≡ ok ws
      → unmarshal_all R t (xs ++ ys) ≡ ok (us ++ ws)
  unfolding unmarshal_all
  unmarshal_all-both [] ys us ws h h' = let e : [] ≡ us = cc h in rw (← e) h'
  unmarshal_all-both (x ∷ xs) ys us ws h h' =
      let (v, e, h1) = >>=-eq-ok (unmarshal_new R t x) _ h in
      let (rest, e', h2) = >>=-eq-ok (unmarshal_all R t xs) _ h1 in
      let whole : v ∷ rest ≡ us = cc h2 in
      rw (e, unmarshal_all-both xs ys rest ws e' h', ← whole) refl

  -- The structs are the rows of the keys, each once, in some order.
  pub record AreRowsOf (answers : Item → List Item) (keys : List Item) (found : List Struct)
      : Type 0 where
    pub rows : List Item
    pub unmarshaled : unmarshal_all R t rows ≡ ok found
    pub complete : Perm rows (rows_of answers keys)

  pub AreRowsOf-append :
      (answers : Item → List Item) (xs ys : List Item) (us ws : List Struct)
      → AreRowsOf answers xs us
      → AreRowsOf answers ys ws
      → AreRowsOf answers (xs ++ ys) (us ++ ws)
  AreRowsOf-append answers xs ys us ws h h' = record {
    rows = h.rows ++ h'.rows;
    unmarshaled = unmarshal_all-both h.rows h'.rows us ws h.unmarshaled h'.unmarshaled;
    complete = rw (rows_of-append answers xs ys) (Perm.append h.complete h'.complete);
  }
