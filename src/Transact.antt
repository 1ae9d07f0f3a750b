-- ===== src/Transact.antt =====
-- transact.go: writes of up to 100 items in one transaction, and what the reads share with them.
pub mod Reading
pub mod Cancellation
pub mod Limits
pub mod Prepared
pub mod Sending
pub mod Filled
use godynamo.Prelude.{
  ℕ, ◌+◌, String, str_eq, ◌<>◌, Bool, true, false, Option, none, some, List, [], ◌∷◌, ◌++◌, map,
  length, is_empty, ltb, if◌then◌else◌,
}
use godynamo.Fault.{
  Outcome, ok, err, panic, Error, errorf, wrapped, wrap_err, sentinel, err_optimistic_lock,
  as_transaction_canceled, ◌>>=◌ as ◌>>=ᵒ◌,
}
use godynamo.Text.{decimal, join}
use godynamo.Io.{
  Pointer, null, at, State, Heap, store_at, Io, pure, fail, lift, call, wrapping, map_err, ◌>>=◌,
  ◌>>◌,
}
use godynamo.Reflect.{int}
use godynamo.Sdk.{Item}
use godynamo.Keys.{Arg, struct, pointer, nil_pointer, pk, sk}
use godynamo.ZeroKeys.{item_key}
use godynamo.Env.{
  Env, Expression, KeyInput, TransactWriteItem, put_entry, delete_entry, condition_check_entry,
  empty_entry,
}
use godynamo.Db.{Db}
use godynamo.Compress.{unmarshal_item_into}
use godynamo.Crud.{stamp_and_marshal, put_input}

abbrev pub transact_max_items : ℕ
transact_max_items = 100

abbrev pub conditional_check_failed_code : String
conditional_check_failed_code = "ConditionalCheckFailed"

-- `cancellationReasonCodes`
unfoldable pub cancellation_reason_codes : List (Option String) → List String
cancellation_reason_codes [] = []
cancellation_reason_codes (some code ∷ reasons) = code ∷ cancellation_reason_codes reasons
cancellation_reason_codes (none ∷ reasons) = "None" ∷ cancellation_reason_codes reasons

-- The search for a reason whose code is `ConditionalCheckFailed`.
unfoldable pub any_check_failed : List (Option String) → Bool
any_check_failed [] = false
any_check_failed (none ∷ reasons) = any_check_failed reasons
any_check_failed (some code ∷ reasons) =
    let rest = any_check_failed reasons in
    if str_eq code conditional_check_failed_code then true else rest

-- `%v` of a slice of strings
abbrev show_codes : List String → String
show_codes codes = "[" <> join codes " " <> "]"

abbrev canceled : Error → List (Option String) → Error
canceled e reasons =
    let codes = show_codes (cancellation_reason_codes reasons) in
    if any_check_failed reasons
    then wrapped ("godynamo: transact write (reasons=" <> codes <> ")")
        (sentinel err_optimistic_lock)
    else wrapped ("godynamo: transact write: transaction canceled (reasons=" <> codes <> ")") e

abbrev pub translated : Error → Option (List (Option String)) → Error
translated e (some reasons) = canceled e reasons
translated e none = wrapped "godynamo: transact write" e

-- `translateTransactWriteErr`
unfoldable pub translate_transact_write_err : Error → Error
translate_transact_write_err e = translated e (as_transaction_canceled e)

-- A pointer to a struct as an argument of `PK` and `SK`.
abbrev pub arg_of : Heap → Pointer → Arg
arg_of heap null = nil_pointer
arg_of heap (at p) = pointer (struct (heap p))

-- `put` is `none` for a nil interface, which also marks an entry that is built already.
pub record TransactWriteOp : Type 0 where
  pub put : Option Pointer
  pub entry : TransactWriteItem

pub record TransactWriteBuilder (E : Env) : Type 0 where
  pub db : Db E
  pub ops : List TransactWriteOp
  pub failed : Option Error

module _ (E : Env) where
  open E use {World, Context, runtime, expression}

  -- `itemKey(PK(v), SK(v))`
  unfoldable pub key_of : Heap → Pointer → Outcome Item
  key_of heap p =
      pk runtime (arg_of heap p) >>=ᵒ λ k. sk runtime (arg_of heap p) >>=ᵒ λ q. ok (item_key k q)

  -- `TransactWrite`
  unfoldable pub transact_write : Db E → TransactWriteBuilder E
  transact_write db = record { db = db; ops = []; failed = none }

  abbrev queue : TransactWriteOp → TransactWriteBuilder E → TransactWriteBuilder E
  queue op b = record b { ops = b.ops ++ (op ∷ []) }

  abbrev built : TransactWriteItem → TransactWriteOp
  built entry = record { put = none; entry = entry }

  -- `TransactWriteBuilder.Put`
  unfoldable pub put : Option Pointer → TransactWriteBuilder E → TransactWriteBuilder E
  put item b = elim b.failed [
    | some e ↦ b
    | none ↦ queue (record { put = item; entry = empty_entry }) b
  ]

  -- `TransactWriteBuilder.Delete`
  unfoldable pub delete : Heap → Pointer → TransactWriteBuilder E → Outcome (TransactWriteBuilder E)
  delete heap p b = elim b.failed [
    | some e ↦ ok b
    | none ↦ key_of heap p >>=ᵒ λ key.
        ok (queue (built (delete_entry (record { table_name = b.db.table; key = key }))) b)
  ]

  abbrev checked :
      Heap
      → Pointer
      → TransactWriteBuilder E
      → Outcome Expression
      → Outcome (TransactWriteBuilder E)
  checked heap p b (ok expr) = key_of heap p >>=ᵒ λ key.
      ok (
        queue (built (condition_check_entry b.db.table key expr.condition expr.names expr.values))
          b)
  checked heap p b (err e) =
      ok (record b { failed = some (wrapped "godynamo: building condition check" e) })
  checked heap p b (panic m) = panic m

  -- `TransactWriteBuilder.ConditionCheck`
  unfoldable pub condition_check :
      Heap → Pointer → ℕ → TransactWriteBuilder E → Outcome (TransactWriteBuilder E)
  condition_check heap p expected_version b = elim b.failed [
    | some e ↦ ok b
    | none ↦
        checked heap p b (
          expression.build none none (some (expression.equal "Version" (int expected_version)))
            none)
  ]

  -- One entry of `TransactWriteBuilder.Run`: a queued Put is stamped and marshaled now.
  unfoldable pub write_item : Db E → Context → TransactWriteOp → Io World TransactWriteItem
  write_item db ctx op = elim op.put [
    | none ↦ pure op.entry
    | some p ↦ do
      stamped ← wrapping "transact write" (stamp_and_marshal E db ctx p)
      expr ←
          wrapping "godynamo: transact write: building put condition"
            (lift (expression.build none none (some stamped.1) none))
      pure (put_entry (put_input E db stamped.0 expr))
  ]

  unfoldable pub write_items :
      Db E → Context → List TransactWriteOp → Io World (List TransactWriteItem)
  write_items db ctx [] = pure []
  write_items db ctx (op ∷ ops) = do
    item ← write_item db ctx op
    items ← write_items db ctx ops
    pure (item ∷ items)

  abbrev pub write_all : Context → TransactWriteBuilder E → Io World (Unit {0})
  write_all ctx b = do
    items ← write_items b.db ctx b.ops
    map_err translate_transact_write_err (call (b.db.client.transact_write_items ctx items))

  abbrev pub write_unless_failed :
      Context → TransactWriteBuilder E → Option Error → Io World (Unit {0})
  write_unless_failed ctx b (some e) = fail (wrapped "transact write" e)
  write_unless_failed ctx b none =
      if is_empty b.ops
      then pure tt
      else if ltb transact_max_items (length b.ops)
      then fail (
          errorf (
            "godynamo: transact write: "
            <> decimal (length b.ops)
            <> " entries queued, exceeds the "
            <> decimal transact_max_items
            <> "-entry TransactWriteItems limit (no auto-chunking — would break atomicity)"))
      else write_all ctx b

  -- `TransactWriteBuilder.Run`
  unfoldable pub run_write : Context → TransactWriteBuilder E → Io World (Unit {0})
  run_write ctx b = write_unless_failed ctx b b.failed
