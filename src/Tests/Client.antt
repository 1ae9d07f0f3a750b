-- ===== src/Tests/Client.antt =====
-- The client of the tests' table of rows, which evaluates the conditions that are sent to it.
use godynamo.Prelude.{
  ◌%◌, ℕ, suc, ◌+◌, String, str_eq, Bool, true, false, ◌&&◌, Option, List, ◌∷◌, none, some, [],
  ◌++◌, take, drop, if◌then◌else◌,
}
use godynamo.Dict.{lookup, insert}
use godynamo.Fault.{
  Outcome, ok, err, sdk, conditional_check_failed_exception, transaction_canceled_exception,
}
use godynamo.Reflect.{int_mod, Any}
use godynamo.Sdk.{AttributeValue, s, member, Item}
use godynamo.Env.{Env, Client, Expression, TransactWriteItem, condition_check_entry, put_entry}
use godynamo.Transact.{conditional_check_failed_code}
use godynamo.Db.{Db}
use godynamo.Table.{version_in, row_or_empty}
use godynamo.Table.Updated.{or_zero}
use godynamo.Tests.World
use godynamo.Tests.Rows.{number_or_zero, RowWorld, row_runtime, row_texts, evaluate, number_of}

abbrev pub row_env : Env
row_env = record {
  Context = String;
  World = RowWorld;
  Condition = String × Item;
  KeyCondition = String × List (String × Any);
  Updates = String × Option ℕ;
  runtime = row_runtime;
  expression = row_texts;
  new_uuid = λ w. (w.fresh, record w { fresh = suc w.fresh });
  sleep = λ ms w. w;
  uuid_string = λ id. "uuid";
}

abbrev pub row_expression : String × Item → Expression
row_expression cond = record {
  condition = some cond.0;
  filter = none;
  key_condition = none;
  update = none;
  names = [];
  values = cond.1;
}

abbrev pub rows_with : Item → (p q : String) → RowWorld → RowWorld
rows_with av p q w = record w {
  rows = λ x y. if str_eq p x && str_eq q y then some av else w.rows x y;
}

abbrev pub answer : (holds : Bool) (stored w : RowWorld) → Outcome (Unit {0}) × RowWorld
answer true stored w = (ok tt, stored)
answer false stored w = (err (sdk conditional_check_failed_exception), w)

abbrev put_where :
    Option String
    → (values av : Item) → Option AttributeValue
    → Option AttributeValue
    → RowWorld
    → Outcome (Unit {0}) × RowWorld
put_where text values av (some (s p)) (some (s q)) w =
    answer (evaluate text values (w.rows p q)) (rows_with av p q w) w
put_where text values av _ _ w = (err (sdk conditional_check_failed_exception), w)

abbrev without_row : Option AttributeValue → Option AttributeValue → RowWorld → RowWorld
without_row (some (s p)) (some (s q)) w = record w {
  rows = λ x y. if str_eq p x && str_eq q y then none else w.rows x y;
}
without_row _ _ w = w

abbrev pub row_at : Option AttributeValue → Option AttributeValue → RowWorld → Option Item
row_at (some (s p)) (some (s q)) w = w.rows p q
row_at _ _ w = none

abbrev version_sum : Option AttributeValue → Option Item → ℕ
version_sum added row = (or_zero (version_in number_of row) + number_or_zero added) % int_mod

abbrev pub updated_row : Item → Option Item → Item
updated_row values row =
    insert "Version" (member (version_sum (lookup ":add" values) row)) (row_or_empty row)

abbrev pub update_answer :
    (holds : Bool) (row : Item) (stored w : RowWorld) → Outcome Item × RowWorld
update_answer true row stored w = (ok row, stored)
update_answer false row stored w = (err (sdk conditional_check_failed_exception), w)

abbrev pub update_at : Option String → Item → (p q : String) → RowWorld → Outcome Item × RowWorld
update_at text values p q w =
    let row = updated_row values (w.rows p q) in
    update_answer (evaluate text values (w.rows p q)) row (rows_with row p q w) w

abbrev update_where :
    Option String
    → Item
    → Option AttributeValue
    → Option AttributeValue
    → RowWorld
    → Outcome Item × RowWorld
update_where text values (some (s p)) (some (s q)) w = update_at text values p q w
update_where text values _ _ w = (err (sdk conditional_check_failed_exception), w)

-- A cancellation for a condition that did not hold.
abbrev pub cancelled : RowWorld → Outcome (Unit {0}) × RowWorld
cancelled w =
    (err (sdk (transaction_canceled_exception (some conditional_check_failed_code ∷ []))), w)

abbrev pub passed : Bool → Outcome (Unit {0}) × RowWorld → RowWorld → Outcome (Unit {0}) × RowWorld
passed true rest w = rest
passed false rest w = cancelled w

abbrev pub unless_failed : Outcome (Unit {0}) × RowWorld → RowWorld → Outcome (Unit {0}) × RowWorld
unless_failed (ok tt, stored) w = (ok tt, stored)
unless_failed _ w = cancelled w

-- A transaction of checks and of one Put, which comes last.
abbrev pub transact_where : List TransactWriteItem → RowWorld → Outcome (Unit {0}) × RowWorld
transact_where (condition_check_entry table key text names values ∷ items) w =
    passed (evaluate text values (row_at (lookup "PK" key) (lookup "SK" key) w))
      (transact_where items w) w
transact_where (put_entry input ∷ []) w =
    unless_failed
      (put_where input.condition_expression input.expression_attribute_values input.item
        (lookup "PK" input.item) (lookup "SK" input.item) w)
      w
transact_where _ w = cancelled w

abbrev pub row_client : Client String RowWorld
row_client = record {
  get_item = λ ctx input w.
      (ok (row_or_empty (row_at (lookup "PK" input.key) (lookup "SK" input.key) w)), w);
  put_item = λ ctx input w.
      put_where input.condition_expression input.expression_attribute_values input.item
        (lookup "PK" input.item) (lookup "SK" input.item) w;
  update_item = λ ctx input w.
      update_where input.condition_expression input.expression_attribute_values
        (lookup "PK" input.key) (lookup "SK" input.key) w;
  delete_item =
      λ ctx input w. (ok tt, without_row (lookup "PK" input.key) (lookup "SK" input.key) w);
  query = λ ctx input w. (ok (World.page_at input.exclusive_start_key), w);
  scan = λ ctx input w. (ok (World.page_at input.exclusive_start_key), w);
  batch_get_item =
      λ ctx table keys w. (ok (record { responses = λ _. keys; unprocessed_keys = λ _. [] }), w);
  batch_write_item =
      λ ctx table writes w. (ok (λ _. drop 1 writes), record w { log = w.log ++ take 1 writes });
  transact_get_items = λ ctx items w. (ok [], w);
  transact_write_items = λ ctx items w. transact_where items w;
  execute_statement = λ ctx input w. (ok (record { items = []; next_token = none }), w);
}

abbrev pub row_db : Db row_env
row_db = record {
  client = row_client;
  table = "tasks";
  gsi1_name = "GSI1";
  gsi1_pk_attr = "GSI1PK";
  clock = λ w. (suc w.time, record w { time = suc w.time });
  actor = λ ctx. ctx;
}
