-- ===== src/Env.antt =====
-- The world around the package: the packages `expression` and `uuid`, the DynamoDB client, time,
-- and the memory that pointers lead to. `client.go` declares the client's interface.
use godynamo.Prelude.{ℕ, String, Bool, Option, List}
use godynamo.Dict.{Dict}
use godynamo.Fault.{Outcome}
use godynamo.Reflect.{Any, Uuid}
use godynamo.Sdk.{AttributeValue, Item, Runtime}

-- What `Build` of a built expression gives.
pub record Expression : Type 0 where
  pub condition : Option String
  pub filter : Option String
  pub key_condition : Option String
  pub update : Option String
  pub names : Dict String
  pub values : Item

-- Package `expression`: conditions `C`, key conditions `K` and updates `U`. `build` takes what
-- `NewBuilder()` was given by `WithKeyCondition`, `WithFilter`, `WithCondition` and `WithUpdate`.
pub record ExpressionApi (C K U : Type 0) : Type 0 where
  pub attribute_exists : String → C
  pub attribute_not_exists : String → C
  pub equal : String → Any → C
  pub not_equal : String → Any → C
  pub greater_than : String → Any → C
  pub greater_than_equal : String → Any → C
  pub less_than : String → Any → C
  pub less_than_equal : String → Any → C
  pub begins_with : String → String → C
  pub contains : String → Any → C
  pub cond_and : C → C → C
  pub key_equal : String → Any → K
  pub key_begins_with : String → String → K
  pub key_between : String → Any → Any → K
  pub key_and : K → K → K
  pub empty_update : U
  pub set : String → Any → U → U
  pub add : String → Any → U → U
  pub build : Option K → Option C → Option C → Option U → Outcome Expression

-- The fields of the SDK's inputs and outputs that the package writes and reads.
pub record PutItemInput : Type 0 where
  pub table_name : String
  pub item : Item
  pub condition_expression : Option String
  pub expression_attribute_names : Dict String
  pub expression_attribute_values : Item

pub record KeyInput : Type 0 where
  pub table_name : String
  pub key : Item

pub record UpdateItemInput : Type 0 where
  pub table_name : String
  pub key : Item
  pub update_expression : Option String
  pub condition_expression : Option String
  pub expression_attribute_names : Dict String
  pub expression_attribute_values : Item
  pub return_all_new : Bool

pub record QueryInput : Type 0 where
  pub table_name : String
  pub index_name : Option String
  pub key_condition_expression : Option String
  pub filter_expression : Option String
  pub expression_attribute_names : Dict String
  pub expression_attribute_values : Item
  pub limit : Option ℕ
  pub exclusive_start_key : Item

pub record ScanInput : Type 0 where
  pub table_name : String
  pub filter_expression : Option String
  pub expression_attribute_names : Dict String
  pub expression_attribute_values : Item
  pub limit : Option ℕ
  pub segment : Option ℕ
  pub total_segments : Option ℕ
  pub exclusive_start_key : Item

-- A page of a Query or a Scan: its items, and the last evaluated key, empty at the end.
pub record PageOutput : Type 0 where
  pub items : List Item
  pub last_evaluated_key : Item

pub record StatementInput : Type 0 where
  pub statement : String
  pub parameters : List AttributeValue
  pub limit : Option ℕ
  pub consistent_read : Option Bool
  pub next_token : Option String

pub record StatementOutput : Type 0 where
  pub items : List Item
  pub next_token : Option String

-- `RequestItems`, `Responses` and `UnprocessedKeys` by table
pub record BatchGetOutput : Type 0 where
  pub responses : String → List Item
  pub unprocessed_keys : String → List Item

-- A request with neither a put nor a delete is the zero value of `types.WriteRequest`.
pub data WriteRequest : Type 0 where
  put_request : Item → WriteRequest
  delete_request : Item → WriteRequest
  empty_request : WriteRequest

pub data TransactWriteItem : Type 0 where
  put_entry : PutItemInput → TransactWriteItem
  delete_entry : KeyInput → TransactWriteItem
  condition_check_entry :
      (table_name : String) (key : Item) (condition_expression : Option String)
      (names : Dict String) (values : Item)
      → TransactWriteItem
  empty_entry : TransactWriteItem

-- `dynamoAPI`, over contexts `X` and a world `W` that the calls read and change.
pub record Client (X W : Type 0) : Type 0 where
  pub get_item : X → KeyInput → W → Outcome Item × W
  pub put_item : X → PutItemInput → W → Outcome (Unit {0}) × W
  pub update_item : X → UpdateItemInput → W → Outcome Item × W
  pub delete_item : X → KeyInput → W → Outcome (Unit {0}) × W
  pub query : X → QueryInput → W → Outcome PageOutput × W
  pub scan : X → ScanInput → W → Outcome PageOutput × W
  pub batch_get_item : X → String → List Item → W → Outcome BatchGetOutput × W
  pub batch_write_item :
      X → String → List WriteRequest → W → Outcome (String → List WriteRequest) × W
  pub transact_get_items : X → List KeyInput → W → Outcome (List Item) × W
  pub transact_write_items : X → List TransactWriteItem → W → Outcome (Unit {0}) × W
  pub execute_statement : X → StatementInput → W → Outcome StatementOutput × W

pub record Env : Type 1 where
  pub Context : Type 0
  pub World : Type 0
  pub Condition : Type 0
  pub KeyCondition : Type 0
  pub Updates : Type 0
  pub runtime : Runtime
  pub expression : ExpressionApi Condition KeyCondition Updates
  -- `uuid.New`, `time.Sleep` (in milliseconds), and `UUID.String`
  pub new_uuid : World → Uuid × World
  pub sleep : ℕ → World → World
  pub uuid_string : Uuid → String
