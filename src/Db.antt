-- ===== src/Db.antt =====
-- client.go and options.go: the configuration of a `DB`, `New` and its options.
use godynamo.Prelude.{String, List, foldl}
use godynamo.Reflect.{Time}
use godynamo.Env.{Env, Client}

abbrev pub default_gsi1_name : String
default_gsi1_name = "GSI1"

abbrev pub default_gsi1_pk_attr : String
default_gsi1_pk_attr = "GSI1PK"

pub record Db (E : Env) : Type 0 where
  pub client : Client E.Context E.World
  pub table : String
  pub gsi1_name : String
  pub gsi1_pk_attr : String
  pub clock : E.World → Time × E.World
  pub actor : E.Context → String

module _ (E : Env) where
  abbrev pub Choice : Type 0
  Choice = Db E → Db E

  unfoldable pub with_gsi1_name : String → Choice
  with_gsi1_name name db = record db { gsi1_name = name }

  unfoldable pub with_gsi1_pk_attr : String → Choice
  with_gsi1_pk_attr name db = record db { gsi1_pk_attr = name }

  unfoldable pub with_clock : (E.World → Time × E.World) → Choice
  with_clock clock db = record db { clock = clock }

  unfoldable pub with_actor : (E.Context → String) → Choice
  with_actor actor db = record db { actor = actor }

  -- `New`, with `time.Now` as an argument.
  unfoldable pub new :
      (E.World → Time × E.World) → Client E.Context E.World → String → List Choice → Db E
  new now client table opts =
      let db : Db E = record {
        client = client;
        table = table;
        gsi1_name = default_gsi1_name;
        gsi1_pk_attr = default_gsi1_pk_attr;
        clock = now;
        actor = λ _. "";
      } in
      foldl (λ d opt. opt d) db opts
