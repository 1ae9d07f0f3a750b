-- ===== src/Paging.antt =====
-- The loops of query.go, scan.go and statement.go that follow a page's continuation to the end:
-- `for { out, err := ...; ...; if <no continuation> { break }; <continue there> }`
pub mod Served
use godynamo.Prelude.{ℕ, zero, suc, String, ◌<>◌, Option, none, some, List, [], ◌∷◌, ◌++◌}
use godynamo.Fault.{Outcome, panic}
use godynamo.Io.{Io, pure, lift, wrapping, ◌>>=◌}
use godynamo.Reflect.{Struct, StructType}
use godynamo.Sdk.{Item}
use godynamo.Env.{Env}
use godynamo.Compress.{unmarshal_all}

-- Where the next page starts; `none` at the end.
abbrev pub Page : Type 0 → Type 0
Page K = List Item × Option K

module _ (E : Env) {K : Type 0} (t : StructType) (fetch : K → Io E.World (Page K)) where
  abbrev pub continue_at :
      (K → Io E.World (List Struct)) → List Struct → Option K → Io E.World (List Struct)
  continue_at next items none = pure items
  continue_at next items (some start) = next start

  -- The fuel bounds the pages; a client whose pages end needs as much as it has pages.
  unfoldable pub pages : ℕ → K → List Struct → Io E.World (List Struct)
  pages zero start items = lift (panic "out of fuel")
  pages (suc fuel) start items = do
    page ← fetch start
    found ← wrapping ("godynamo: unmarshal " <> t.name) (lift (unmarshal_all E.runtime t page.0))
    continue_at (λ next. pages fuel next (items ++ found)) (items ++ found) page.1
