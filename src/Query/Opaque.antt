-- ===== src/Query/Opaque.antt =====
-- The cursors of query.go: what a cursor that `encodeCursor` made stands for.
use godynamo.Prelude.{String, str_ne, ◌≡◌, ◌≢◌, ◌↔◌, refl, sym, ◌∙◌, false, [], ◌∷◌, is_empty}
use godynamo.Fault.{ok, >>=-eq-ok, wrap_err-eq-ok}
use godynamo.Sdk.{AttributeValue, s, b, member, Bytes, Item}
use godynamo.Env.{Env}
use godynamo.Query.{start_of, next_cursor}
use godynamo.Query.Cursors.{CursorCodec, encode_cursor, decode_cursor}

-- The keys of the package's tables and indexes are texts.
abbrev pub IsText : AttributeValue → Type 0
IsText (s t) = Unit
IsText (b content) = ⊥
IsText (member n) = ⊥

abbrev pub IsTextKey : Item → Type 0
IsTextKey [] = Unit
IsTextKey ((a, v) ∷ key) = IsText v × IsTextKey key

-- What the packages do with such a key: attributevalue makes a map of strings of it and the key of
-- that map, json reads back what it wrote of the map, which is not empty, and base64 is a coding of
-- bytes that gives no text only for no bytes.
pub record IsLossless {M : Type 0} (C : CursorCodec M) : Type 0 where
  pub map_back :
      (key : Item) (m : M) → IsTextKey key → C.unmarshal_map key ≡ ok m → C.marshal_map m ≡ ok key
  pub json_back :
      (key : Item) (m : M) (raw : Bytes)
      → IsTextKey key
      → C.unmarshal_map key ≡ ok m
      → C.json_marshal m ≡ ok raw
      → C.json_unmarshal raw ≡ ok m
  pub json_some : (m : M) (raw : Bytes) → C.json_marshal m ≡ ok raw → is_empty raw ≡ false
  pub base64_back :
      (m : M) (raw : Bytes)
      → C.json_marshal m ≡ ok raw
      → C.decode_string (C.encode_to_string raw) ≡ ok raw
  pub base64_some : (raw : Bytes) → is_empty raw ≡ false → C.encode_to_string raw ≢ ""

module _ {M : Type 0} (C : CursorCodec M) (lossless : IsLossless C) where
  -- A cursor is no empty text, and decodes to its key.
  pub decode_cursor-encode_cursor :
      (key : Item) (cursor : String)
      → IsTextKey key
      → encode_cursor C key ≡ ok cursor
      → (decode_cursor C cursor ≡ ok key) × (cursor ≢ "")
  unfolding encode_cursor decode_cursor
  decode_cursor-encode_cursor key cursor texts h =
      let (m, e1, h1) = >>=-eq-ok _ _ h in
      let (raw, e2, h2) = >>=-eq-ok _ _ h1 in
      let e1' = wrap_err-eq-ok _ _ e1 in
      let e2' = wrap_err-eq-ok _ _ e2 in
      let is_text : C.encode_to_string raw ≡ cursor = cc h2 in
      (
        rw
            (
              sym is_text,
              lossless.base64_back m raw e2',
              lossless.json_back key m raw texts e1' e2',
              lossless.map_back key m texts e1',
            )
            refl,
        λ z. lossless.base64_some raw (lossless.json_some m raw e2') (is_text ∙ z),
      )

  -- Where `Page` starts with the cursor that it has returned: at the key at which the page ended,
  -- and with no text only at the end of all pages.
  pub start_of-next_cursor :
      (E : Env) (key : Item) (cursor : String)
      → IsTextKey key
      → next_cursor E C key ≡ ok cursor
      → (start_of E C cursor ≡ ok key) × ((cursor ≡ "") ↔ (key ≡ []))
  unfolding start_of next_cursor
  start_of-next_cursor E [] cursor texts h =
      let e : "" ≡ cursor = cc h in (rw (sym e) refl, (λ _. refl, λ _. sym e))
  start_of-next_cursor E (entry ∷ key) cursor texts h =
      let encoded = wrap_err-eq-ok _ _ h in
      let (back, some_text) = decode_cursor-encode_cursor (entry ∷ key) cursor texts encoded in
      (rw (str_ne cursor "" some_text, back) refl, (λ z. absurd (some_text z), λ z. absurd (cc z)))
