-- ===== src/Token.antt =====
-- header/lang/token.h and src/lang/token.c: the kinds of a token.
use volatile.Base.{Bool, true, false}

-- `Vltl_lang_token_kind`
pub data TokenKind : Type 0 where
  unset invalid unknown literal constant global char string local function attribute operation
        type :
      TokenKind

-- `vltl_lang_token_kind_valid`
unfoldable pub token_kind_valid : TokenKind → Bool
token_kind_valid unset = false
token_kind_valid invalid = false
token_kind_valid _ = true
