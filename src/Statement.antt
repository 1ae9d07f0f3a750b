-- ===== src/Statement.antt =====
-- statement.go: PartiQL statements, read to the end or by pages.
use godynamo.Prelude.{
  ℕ, ◌+◌, String, str_eq, ◌<>◌, Bool, Option, none, some, List, [], ◌∷◌, ◌++◌, if◌then◌else◌,
}
use godynamo.Fault.{Outcome, ok, err, panic, Error, wrapped}
use godynamo.Text.{decimal}
use godynamo.Io.{Io, pure, fail, lift, call, wrapping, ◌>>=◌}
use godynamo.Reflect.{Any, Struct, StructType}
use godynamo.Sdk.{AttributeValue}
use godynamo.Env.{Env, StatementInput, StatementOutput}
use godynamo.Db.{Db}
use godynamo.Compress.{unmarshal_all}
use godynamo.Paging.{Page, pages}

pub record StatementBuilder (E : Env) : Type 0 where
  pub db : Db E
  pub stmt : String
  pub params : List AttributeValue
  pub failed : Option Error
  pub limit : Option ℕ
  pub consistent_read : Option Bool

module _ (E : Env) where
  open E use {World, Context, runtime}

  abbrev pub Builder : Type 0
  Builder = StatementBuilder E

  abbrev with_param :
      (Builder → Outcome Builder) → ℕ → Builder → Outcome AttributeValue → Outcome Builder
  with_param next i b (ok av) = next (record b { params = b.params ++ (av ∷ []) })
  with_param next i b (err e) = ok (record b {
    failed = some (wrapped ("godynamo: marshaling statement parameter " <> decimal i) e);
  })
  with_param next i b (panic m) = panic m

  -- The loop of `Statement[T]` over its parameters, from index `i`: the first that does not marshal
  -- is recorded and ends it. The parameters behind it, which the source leaves nil, are not kept,
  -- since a builder with an error never sends them.
  unfoldable pub marshal_params : ℕ → List Any → Builder → Outcome Builder
  marshal_params i [] b = ok b
  marshal_params i (p ∷ params) b =
      with_param (λ b'. marshal_params (i + 1) params b') i b (runtime.marshal p)

  -- `Statement[T]`
  unfoldable pub statement : Db E → String → List Any → Outcome Builder
  statement db stmt params = marshal_params 0 params (record {
    db = db;
    stmt = stmt;
    params = [];
    failed = none;
    limit = none;
    consistent_read = none;
  })

  unfoldable pub limit : ℕ → Builder → Builder
  limit n b = record b { limit = some n }

  unfoldable pub consistent_read : Bool → Builder → Builder
  consistent_read v b = record b { consistent_read = some v }

  -- `StatementBuilder.buildInput`
  unfoldable pub build_input : Builder → StatementInput
  build_input b = record {
    statement = b.stmt;
    parameters = b.params;
    limit = b.limit;
    consistent_read = b.consistent_read;
    next_token = none;
  }

  abbrev execute : Db E → Context → StructType → StatementInput → Io World StatementOutput
  execute db ctx t input =
      wrapping ("godynamo: execute statement " <> t.name)
        (call (db.client.execute_statement ctx input))

  -- `out.NextToken == nil || *out.NextToken == ""`
  abbrev pub token_or_end : Option String → Option (Option String)
  token_or_end none = none
  token_or_end (some token) = if str_eq token "" then none else some (some token)

  -- One call of the loop of `All`, started at a token.
  unfoldable pub fetch :
      Db E → Context → StructType → StatementInput → Option String → Io World (Page (Option String))
  fetch db ctx t input start = do
    out ← execute db ctx t (record input { next_token = start })
    pure (out.items, token_or_end out.next_token)

  -- The builder's error ends a terminal method at once.
  abbrev pub unless_failed : {A : Type 0} → Option Error → Io World A → Io World A
  unless_failed (some e) a = fail e
  unless_failed none a = a

  -- `StatementBuilder.All`, on fuel for its pages.
  unfoldable pub all : ℕ → Context → StructType → Builder → Io World (List Struct)
  all fuel ctx t b =
      unless_failed b.failed (pages E t (fetch b.db ctx t (build_input b)) fuel none [])

  abbrev pub text_of : Option String → String
  text_of none = ""
  text_of (some token) = token

  abbrev page_at : Context → StructType → Builder → StatementInput → Io World (List Struct × String)
  page_at ctx t b input = do
    out ← execute b.db ctx t input
    items ← wrapping ("godynamo: unmarshal " <> t.name) (lift (unmarshal_all runtime t out.items))
    pure (items, text_of out.next_token)

  -- `StatementBuilder.Page`
  unfoldable pub page : Context → StructType → Builder → String → Io World (List Struct × String)
  page ctx t b cursor =
      let start : Option String = if str_eq cursor "" then none else some cursor in
      unless_failed b.failed (page_at ctx t b (record (build_input b) { next_token = start }))
