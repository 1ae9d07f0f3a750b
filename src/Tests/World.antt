-- ===== src/Tests/World.antt =====
-- A small world for the tests: a clock, a source of IDs, a count of calls, and a client that puts
-- once and then reports a failed condition, serves two pages, and takes one batch entry per call.
use godynamo.Prelude.{
  ℕ, suc, ◌+◌, String, ◌<>◌, Option, none, some, [], ◌∷◌, take, drop, is_empty, ◌==◌, if◌then◌else◌,
}
use godynamo.Fault.{ok, err, sdk, conditional_check_failed_exception}
use godynamo.Io.{State}
use godynamo.Reflect.{Any, string, Struct, Time}
use godynamo.Sdk.{s, Item}
use godynamo.Env.{Env, ExpressionApi, Client, PageOutput, StatementOutput}
use godynamo.Db.{Db}
use godynamo.Tests.Fixtures.{runtime, task_value, model_7}

pub record World : Type 0 where
  pub time : ℕ
  pub fresh : ℕ
  pub calls : ℕ

abbrev called : World → World
called w = record w { calls = suc w.calls }

abbrev pub text : Any → String
text (string t) = t
text _ = "?"

abbrev pub texts : ExpressionApi String String String
texts = record {
  attribute_exists = λ a. "exists " <> a;
  attribute_not_exists = λ a. "no " <> a;
  equal = λ a v. a <> "=" <> text v;
  not_equal = λ a v. a <> "<>" <> text v;
  greater_than = λ a v. a <> ">" <> text v;
  greater_than_equal = λ a v. a <> ">=" <> text v;
  less_than = λ a v. a <> "<" <> text v;
  less_than_equal = λ a v. a <> "<=" <> text v;
  begins_with = λ a p. a <> "^" <> p;
  contains = λ a v. a <> "~" <> text v;
  cond_and = λ c d. c <> " AND " <> d;
  key_equal = λ a v. a <> "=" <> text v;
  key_begins_with = λ a p. a <> "^" <> p;
  key_between = λ a v w. a <> ":" <> text v <> "-" <> text w;
  key_and = λ c d. c <> " AND " <> d;
  empty_update = "";
  set = λ a v u. u <> " SET " <> a;
  add = λ a v u. u <> " ADD " <> a;
  build = λ key_cond filter cond upd. ok (record {
    condition = cond;
    filter = filter;
    key_condition = key_cond;
    update = upd;
    names = [];
    values = [];
  });
}

abbrev pub env : Env
env = record {
  Context = String;
  World = World;
  Condition = String;
  KeyCondition = String;
  Updates = String;
  runtime = runtime;
  expression = texts;
  new_uuid = λ w. (w.fresh, record w { fresh = suc w.fresh });
  sleep = λ ms w. record w { time = w.time + ms };
  uuid_string = λ id. "uuid";
}

abbrev pub first_item : Item
first_item = ("Title", s "one") ∷ []

abbrev pub second_item : Item
second_item = ("Title", s "two") ∷ []

abbrev pub next_key : Item
next_key = ("PK", s "one") ∷ []

abbrev pub page_at : Item → PageOutput
page_at start =
    if is_empty start
    then record { items = first_item ∷ []; last_evaluated_key = next_key }
    else record { items = second_item ∷ []; last_evaluated_key = [] }

abbrev statement_page : Option String → StatementOutput
statement_page none = record { items = first_item ∷ []; next_token = some "t" }
statement_page (some token) = record { items = second_item ∷ []; next_token = some "" }

abbrev pub client : Client String World
client = record {
  get_item = λ ctx input w. (ok first_item, called w);
  put_item = λ ctx input w.
      (if w.calls == 0 then ok tt else err (sdk conditional_check_failed_exception), called w);
  update_item = λ ctx input w. (ok first_item, called w);
  delete_item = λ ctx input w. (ok tt, called w);
  query = λ ctx input w. (ok (page_at input.exclusive_start_key), called w);
  scan = λ ctx input w. (ok (page_at input.exclusive_start_key), called w);
  batch_get_item = λ ctx table keys w.
      (ok (record { responses = λ _. take 1 keys; unprocessed_keys = λ _. drop 1 keys }), called w);
  batch_write_item = λ ctx table writes w. (ok (λ _. drop 1 writes), called w);
  transact_get_items = λ ctx items w. (ok [], called w);
  transact_write_items = λ ctx items w. (ok tt, called w);
  execute_statement = λ ctx input w. (ok (statement_page input.next_token), called w);
}

abbrev pub tick : World → Time × World
tick w = (suc w.time, record w { time = suc w.time })

abbrev pub db : Db env
db = record {
  client = client;
  table = "tasks";
  gsi1_name = "GSI1";
  gsi1_pk_attr = "GSI1PK";
  clock = tick;
  actor = λ ctx. ctx;
}

abbrev pub a_task : Struct
a_task = task_value model_7 "write" "note"

-- Every address leads to a task that is not stored yet.
abbrev pub start : State World
start = record { world = record { time = 0; fresh = 8; calls = 0 }; heap = λ p. a_task }
