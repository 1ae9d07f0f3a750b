-- ===== src/Table/Queued.antt =====
-- A struct that a transactional write of transact.go puts once, on a table of rows: what the preparing
-- of the entries makes of it.
use godynamo.Prelude.{ℕ, String, ◌≡◌, ap, ◌∙◌, none, some, List, ◌∷◌, ◌++◌, Option}
use godynamo.Fault.{ok}
use godynamo.Io.{at, State}
use godynamo.Reflect.{Model, Struct, StructType}
use godynamo.Sdk.{Item}
use godynamo.Tags.{ModelTags}
use godynamo.ZeroKeys.Laws.{id_key}
use godynamo.Env.{Env, Expression, TransactWriteItem, put_entry}
use godynamo.Db.{Db}
use godynamo.Crud.{stamp_and_marshal}
use godynamo.Crud.Written.{IsWritten, stamp_and_marshal-IsWritten}
use godynamo.Transact.{TransactWriteOp, write_items}
use godynamo.Transact.Prepared.{write_items-IsSplit}
use godynamo.Table.{Table, conditional_put, HasOwnIndex}
use godynamo.Table.Accepted.{KeepsVersion, stamping_rows}
use godynamo.Table.Preparing.{put_of, NotPut, write_items-LeavesBe, write_item-put_of}
use godynamo.Table.Stamped.{HasDefaultKey, IsKeyed, stamp-HasDefaultKey, stamp-IsKeyed}

module _ (E : Env) (db : Db E) (T : Table E db) where
  -- The stamped struct is still an entity under its key, the entry of its Put carries its written form
  -- and its condition, and the rows are as they were.
  pub record IsQueued (ctx : E.Context) (t : StructType) (mt : ModelTags) (m : Model)
      (items : List TransactWriteItem) (left : Struct)
      (before prepared : String → String → Option Item) : Type 0 where
    pub n : Model
    pub same_id : n.id ≡ m.id
    pub still : HasDefaultKey t mt n left
    pub av : Item
    pub cond : E.Condition
    pub expr : Expression
    pub written : IsWritten E db ctx m left av cond
    pub keyed : IsKeyed E db T (id_key E.runtime mt.struct_name m.id) m av cond
    pub built : E.expression.build none none (some cond) none ≡ ok expr
    pub items₁ : List TransactWriteItem
    pub items₂ : List TransactWriteItem
    pub whole : items ≡ items₁ ++ (put_entry (conditional_put db.table av expr) ∷ items₂)
    pub same_rows : prepared ≡ before

  pub write_items-IsQueued :
      (own : HasOwnIndex E db) (ctx : E.Context) (t : StructType) (mt : ModelTags)
      (keeps : KeepsVersion t) (p : ℕ) (m : Model) (earlier later : List TransactWriteOp)
      (entry : TransactWriteItem) (items : List TransactWriteItem) (st prepared : State E.World)
      → HasDefaultKey t mt m (st.heap p)
      → NotPut p earlier
      → NotPut p later
      → write_items E db ctx (earlier ++ (put_of p entry ∷ later)) st ≡ (ok items, prepared)
      → IsQueued ctx t mt m items (prepared.heap p) (T.rows st.world) (T.rows prepared.world)
  write_items-IsQueued own ctx t mt keeps p m earlier later entry items st prepared h before after
        prepares =
      let i =
        write_items-IsSplit E db ctx earlier (put_of p entry) later items st prepared prepares in
      let (rows₁, heap₁) =
        write_items-LeavesBe E db ctx T p earlier i.items₁ st i.st₁ before i.prepares₁ in
      let h₁ : HasDefaultKey t mt m (i.st₁.heap p) = rw heap₁ h in
      let (av, cond, expr, stamped, built, is_item, is_st₂) =
        write_item-put_of E db ctx p entry i.item i.st₁ i.st₂ i.prepares in
      let (rows₂, heap₂) =
        write_items-LeavesBe E db ctx T p later i.items₂ i.st₂ prepared after i.prepares₂ in
      let left : prepared.heap p ≡ (stamp_and_marshal E db ctx (at p) i.st₁).1.heap p =
        heap₂ ∙ ap (λ (u : State E.World). u.heap p) is_st₂ in
      let (n, same_id, still) = stamp-HasDefaultKey E db ctx t mt p m i.st₁ h₁ in
      record {
        n = n;
        same_id = same_id;
        still = rw left still;
        av = av;
        cond = cond;
        expr = expr;
        written = rw left (stamp_and_marshal-IsWritten E db ctx p m i.st₁ av cond h₁.found stamped);
        keyed = stamp-IsKeyed E db T own ctx t mt keeps p m i.st₁ h₁ av cond stamped;
        built = built;
        items₁ = i.items₁;
        items₂ = i.items₂;
        whole = i.whole ∙ ap (λ (item : TransactWriteItem). i.items₁ ++ (item ∷ i.items₂)) is_item;
        same_rows =
            rows₂
            ∙ ap (λ (u : State E.World). T.rows u.world) is_st₂
            ∙ stamping_rows E db T ctx p m i.st₁ h₁.found
            ∙ rows₁;
      }
