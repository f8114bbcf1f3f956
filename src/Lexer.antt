-- ===== src/Lexer.antt =====
-- header/lexer.h and src/lexer.c: how a line is cut into tokens, `vltl_lexer_token_chomp`. A line is
-- the list of its bytes without the terminating 0, which is what a read past the list stands for.
pub mod Lexeme
pub mod Escape
pub mod Scan
pub mod Quoted
pub mod Sound
pub mod Chomp
pub mod Tokenize
pub mod Line
use volatile.Base.{
  ℕ, ◌+◌, Bool, true, false, not, ◌&&◌, ◌||◌, Option, none, some, List, [], ◌∷◌, ltb, leb, ◌==◌,
  if◌then◌else◌, Code, einval, enodata, Result, ok, err, ◌>>=◌,
}
use volatile.Token.{TokenKind, literal, unknown, char, string, operation}

abbrev pub nul : ℕ
nul = 0

abbrev pub newline : ℕ
newline = 10

abbrev pub space : ℕ
space = 32

abbrev pub double_quote : ℕ
double_quote = 34

abbrev pub single_quote : ℕ
single_quote = 39

abbrev pub dot : ℕ
dot = 46

abbrev within : ℕ → ℕ → ℕ → Bool
within lo hi c = leb lo c && leb c hi

-- `case '0'` to `case '9'`
unfoldable pub is_digit : ℕ → Bool
is_digit c = within b'0' b'9' c

-- `case 'a'` to `case 'z'`, `case 'A'` to `case 'Z'` and `case '_'`
unfoldable pub is_letter : ℕ → Bool
is_letter c = within b'a' b'z' c || within b'A' b'Z' c || c == b'_'

unfoldable pub is_word : ℕ → Bool
unfolding is_digit is_letter
is_word c = is_digit c || is_letter c

-- `case 0` and `case '\n'`
unfoldable pub is_end : ℕ → Bool
is_end c = c == nul || c == newline

-- The bytes that end an operation.
unfoldable pub is_break : ℕ → Bool
unfolding is_end is_word
is_break c = is_end c || c == space || is_word c

-- The kind that the first byte of a token lets the lexer presume.
unfoldable pub presumed_kind : ℕ → TokenKind
unfolding is_digit is_letter
presumed_kind c =
    if is_digit c
    then literal
    else if is_letter c
    then unknown
    else if c == single_quote
    then char
    else if c == double_quote
    then string
    else operation

-- `*start_of_next_token`, `*end_of_next_token` and `*presumed_token_kind`
pub record Chomped : Type 0 where
  pub start : ℕ
  pub end : ℕ
  pub kind : TokenKind

-- The first loop: the start of the token, its first byte and the bytes after that. `none` is the
-- return of ENODATA.
unfoldable pub find_start : List ℕ → ℕ → Option (ℕ × ℕ × List ℕ)
find_start [] i = none
find_start (c ∷ cs) i =
    if is_end c then none else if c == space then find_start cs (i + 1) else some (i, c, cs)

-- The second loop at a token kind whose loop only tests each byte: `is_word` for UNKNOWN, and what is
-- no `is_break` for OPERATION.
unfoldable pub scan_while : (ℕ → Bool) → List ℕ → ℕ → ℕ
scan_while p [] e = e
scan_while p (c ∷ cs) e = if p c then scan_while p cs (e + 1) else e

-- The second loop at LITERAL.
unfoldable pub scan_literal : List ℕ → ℕ → Result ℕ
scan_literal [] e = ok e
scan_literal (c ∷ cs) e =
    if c == dot then err einval else if is_digit c then scan_literal cs (e + 1) else ok e

-- The second loop at CHAR and STRING, from the byte after the opening quote `q`; `before` is
-- `line[end_of_token - 1]`.
unfoldable pub scan_quoted : ℕ → ℕ → List ℕ → ℕ → Result ℕ
scan_quoted q before [] e = err einval
scan_quoted q before (c ∷ cs) e =
    if c == nul
    then err einval
    else if c == q && not (before == q)
    then ok (e + 1)
    else scan_quoted q c cs (e + 1)

abbrev pub not_break : ℕ → Bool
not_break c = not (is_break c)

-- The second loop, at a token that starts at `s` with the byte `c` and goes on with `cs`.
unfoldable pub scan : TokenKind → ℕ → List ℕ → ℕ → Result ℕ
scan literal c cs s = scan_literal (c ∷ cs) s
scan char c cs s = if c == single_quote then scan_quoted single_quote c cs (s + 1) else err einval
scan string c cs s = if c == double_quote then scan_quoted double_quote c cs (s + 1) else err einval
scan operation c cs s = ok (scan_while not_break (c ∷ cs) s)
scan unknown c cs s = ok (scan_while is_word (c ∷ cs) s)
scan _ c cs s = err einval

-- `vltl_lexer_token_chomp`
unfoldable pub chomp : List ℕ → Result Chomped
chomp line = elim (find_start line 0) [
  | none ↦ err enodata
  | some (s, c, cs) ↦ do
    e ← scan (presumed_kind c) c cs s
    ok (record { start = s; end = e; kind = presumed_kind c })
]
