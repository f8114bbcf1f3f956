-- ===== src/Lexer/Line.antt =====
-- src/lexer.c: a line as a list of tokens, `vltl_lexer_line_convert`. The fields of `Vltl_lexer_line` other
-- than `tokens` and `token_count` are constants of the function; `token_count` is the length of the list.
pub mod Blank
pub mod Pieces
pub mod Offsets
use volatile.Base.{
  ℕ, zero, suc, ◌+◌, ◌-◌, ◌%◌, ◌^◌, Bool, true, false, Option, none, some, List, [], ◌∷◌, Bytes,
  ◌==◌, if◌then◌else◌, Code, einval, enodata, enomem, exfull, Result, ok, err, fault, ◌>>=◌, drop,
}
use volatile.Token.{TokenKind, token_kind_valid}
use volatile.Lang.{comment}
use volatile.Lexer.{Chomped, chomp}
use volatile.Lexer.Tokenize.{Services, LangToken, as_operation, tokenize}

-- `Vltl_lexer_token`
pub record LexerToken : Type 0 where
  pub offset_into_line : ℕ
  pub token : LangToken

-- `vltl_lexer_token_init`, whose token has a kind.
unfoldable pub token_init : ℕ → TokenKind → LangToken → Result LexerToken
token_init offset kind t =
    if token_kind_valid kind
    then ok (record { offset_into_line = offset; token = t })
    else err einval

-- `VLTL_LEXER_LINE_TOKENS_MAX`
abbrev pub line_tokens_max : ℕ
line_tokens_max = 99

-- `sizeof(Vltl_trace)`: four pointers.
abbrev pub trace_size : ℕ
trace_size = 32

unfoldable pub is_comment : LangToken → Bool
is_comment (as_operation comment) = true
is_comment _ = false

-- The `offset_into_line` that is stored at an index, for a token `start` bytes after `offset`; a
-- `size_t` wraps around.
unfoldable pub stored_offset : ℕ → ℕ → ℕ → ℕ
stored_offset zero offset start = (offset + (2 ^ 64 - start)) % 2 ^ 64
stored_offset (suc i) offset start = (1 + offset + (2 ^ 64 - start)) % 2 ^ 64

-- The body of the loop for a token that `vltl_lexer_token_chomp` found at `offset`, where the bytes
-- `src` stand: the memory of its text, its text, the token, and the memory of its trace.
unfoldable pub convert_token :
    {A : Type 0} → Services A → A → ℕ → ℕ → Bytes → Chomped → Result (A × LexerToken)
convert_token env arena index offset src t = elim (env.alloc arena (t.end - t.start + 1)) [
  | none ↦ err enomem
  | some arena1 ↦ do
    text ← env.strncpy (drop t.start src) (t.end - t.start)
    (arena2, token) ← tokenize env arena1 t.kind text
    elim (env.alloc arena2 trace_size) [
      | none ↦ fault
      | some arena3 ↦
          ok (
            arena3,
            record { offset_into_line = stored_offset index offset t.start; token = token },
          )
    ]
]

-- The return of `vltl_lexer_token_chomp` that is not 0: ENODATA ends the line.
unfoldable pub chomp_failed : {A : Type 0} → Code → A → Result (A × List LexerToken)
chomp_failed enodata arena = ok (arena, [])
chomp_failed e arena = err e

-- The loop, with room for `room` tokens from `index` on; `src` stands at `offset` of the line.
unfoldable pub convert_loop :
    {A : Type 0} → Services A → A → ℕ → ℕ → ℕ → Bytes → Result (A × List LexerToken)
convert_loop env arena zero index offset src = err exfull
convert_loop env arena (suc room) index offset src = elim (chomp src) [
  | fault ↦ fault
  | err e ↦ chomp_failed e arena
  | ok t ↦ do
    (arena', token) ← convert_token env arena index offset src t
    elim (is_comment token.token) [
      | true ↦ ok (arena', [])
      | false ↦ do
        (arena'', rest) ← convert_loop env arena' room (suc index) (offset + t.end) (drop t.end src)
        ok (arena'', token ∷ rest)
    ]
]

-- `vltl_lexer_line_convert`
unfoldable pub line_convert : {A : Type 0} → Services A → A → Bytes → Result (A × List LexerToken)
unfolding convert_loop
line_convert env arena src = convert_loop env arena line_tokens_max 0 0 src
