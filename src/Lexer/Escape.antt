-- ===== src/Lexer/Escape.antt =====
-- src/lexer.c: the escapes `\b…` and `\x…` of a char, `vltl_lexer_token_tokenize_binary` and
-- `vltl_lexer_token_tokenize_hexadecimal`. A `char` is its 8-bit pattern.
pub mod Value
use volatile.Base.{
  ℕ, zero, suc, ◌+◌, ◌-◌, ◌*◌, ◌%◌, ◌^◌, Bool, true, false, ◌&&◌, Option, none, some, List, [], ◌∷◌,
  leb, ◌==◌, if◌then◌else◌, Code, einval, Result, ok, err,
}
use volatile.Lexer.{single_quote}

-- `case '0'` and `case '1'`
unfoldable pub binary_digit : ℕ → Option ℕ
binary_digit c = if leb b'0' c && leb c b'1' then some (c - b'0') else none

-- `case '0'` to `case '9'`, `case 'a'` to `case 'f'` and `case 'A'` to `case 'F'`
unfoldable pub hexadecimal_digit : ℕ → Option ℕ
hexadecimal_digit c =
    if leb b'0' c && leb c b'9'
    then some (c - b'0')
    else if leb b'a' c && leb c b'f'
    then some (c - b'a' + 10)
    else if leb b'A' c && leb c b'F'
    then some (c - b'A' + 10)
    else none

-- The loop of both functions, with `n` rounds left at `src`: `return_this` is shifted by the bits of a
-- digit, which multiplies it by `base`, and the digit is added. After the last round the next byte
-- must be the closing quote; a closing quote before that ends the loop.
unfoldable pub read_digits : (ℕ → Option ℕ) → ℕ → ℕ → List ℕ → ℕ → Result ℕ
read_digits digit base n [] v = err einval
read_digits digit base zero (c ∷ cs) v = if c == single_quote then ok v else err einval
read_digits digit base (suc n) (c ∷ cs) v = elim (digit c) [
  | some d ↦ read_digits digit base n cs ((v * base % 2 ^ 8 + d) % 2 ^ 8)
  | none ↦ if c == single_quote then ok v else err einval
]

-- `vltl_lexer_token_tokenize_binary`
unfoldable pub tokenize_binary : List ℕ → Result ℕ
unfolding read_digits binary_digit
tokenize_binary src = read_digits binary_digit 2 8 src 0

-- `vltl_lexer_token_tokenize_hexadecimal`
unfoldable pub tokenize_hexadecimal : List ℕ → Result ℕ
unfolding read_digits hexadecimal_digit
tokenize_hexadecimal src = read_digits hexadecimal_digit 16 2 src 0
