-- ===== src/Query/Cursors.antt =====
-- The cursors of query.go: a last evaluated key as an opaque text, and back.
use godynamo.Prelude.{String}
use godynamo.Fault.{Outcome, ok, wrap_err, ◌>>=◌}
use godynamo.Sdk.{Bytes, Item}

-- Packages attributevalue, encoding/json and encoding/base64 on a `map[string]any`, which is `M`.
pub record CursorCodec (M : Type 0) : Type 0 where
  pub unmarshal_map : Item → Outcome M
  pub json_marshal : M → Outcome Bytes
  pub encode_to_string : Bytes → String
  pub decode_string : String → Outcome Bytes
  pub json_unmarshal : Bytes → Outcome M
  pub marshal_map : M → Outcome Item

module _ {M : Type 0} (C : CursorCodec M) where
  unfoldable pub encode_cursor : Item → Outcome String
  encode_cursor key = do
    m ← wrap_err "godynamo: unmarshaling cursor key" (C.unmarshal_map key)
    raw ← wrap_err "godynamo: marshaling cursor" (C.json_marshal m)
    ok (C.encode_to_string raw)

  unfoldable pub decode_cursor : String → Outcome Item
  decode_cursor cursor = do
    raw ← wrap_err "godynamo: invalid cursor encoding" (C.decode_string cursor)
    m ← wrap_err "godynamo: invalid cursor payload" (C.json_unmarshal raw)
    wrap_err "godynamo: marshaling cursor key" (C.marshal_map m)
