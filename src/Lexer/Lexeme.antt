-- ===== src/Lexer/Lexeme.antt =====
-- What a token is, stated without the lexer's loops: its bytes, and the bytes that may follow it.
use volatile.Base.{
  ℕ, ◌≡◌, Bool, true, false, List, [], ◌∷◌, ◌++◌, ◌==◌, All, replicate, length, ◌+◌,
}
use volatile.Token.{TokenKind, literal, unknown, char, string, operation}
use volatile.Lexer.{
  is_digit, is_letter, is_word, not_break, nul, dot, space, single_quote, double_quote, Chomped,
  presumed_kind,
}

-- Every byte of a list passes a test.
abbrev pub Every : (ℕ → Bool) → List ℕ → Type 0
Every p = All (λ c. p c ≡ true)

-- The list is empty, or its first byte fails a test.
abbrev pub Stops : (ℕ → Bool) → List ℕ → Type 0
Stops p [] = Unit
Stops p (c ∷ cs) = p c ≡ false

-- A byte inside of quotes: neither the quote nor 0.
abbrev pub is_inner : ℕ → ℕ → Bool
is_inner q c = elim (c == q) [
  | true ↦ false
  | false ↦ elim (c == nul) [ true ↦ false | false ↦ true ]
]

-- `Lexeme kind text rest`: the bytes `text` form a token of that kind when `rest` follows them.
pub data Lexeme : TokenKind → List ℕ → List ℕ → Type 0 where
  -- A number is a longest run of digits, and no dot follows it.
  number :
      (d : ℕ) (ds rest : List ℕ)
      → Every is_digit (d ∷ ds)
      → Stops is_digit rest
      → Stops (λ c. c == dot) rest
      → Lexeme literal (d ∷ ds) rest
  -- A word is a longest run of letters and digits that a letter begins.
  word :
      (c : ℕ) (cs rest : List ℕ)
      → is_letter c ≡ true
      → Every is_word cs
      → Stops is_word rest
      → Lexeme unknown (c ∷ cs) rest
  -- An operation is a longest run of other bytes that no quote begins.
  symbol :
      (c : ℕ) (cs rest : List ℕ)
      → presumed_kind c ≡ operation
      → Every not_break (c ∷ cs)
      → Stops not_break rest
      → Lexeme operation (c ∷ cs) rest
  -- A quoted token: one or more quotes, at least one other byte, and the next quote.
  quoted_char :
      (k b : ℕ) (body rest : List ℕ)
      → Every (is_inner single_quote) (b ∷ body)
      → Lexeme char
          (single_quote ∷ (replicate k single_quote ++ (b ∷ body ++ (single_quote ∷ []))))
          rest
  quoted_string :
      (k b : ℕ) (body rest : List ℕ)
      → Every (is_inner double_quote) (b ∷ body)
      → Lexeme string
          (double_quote ∷ (replicate k double_quote ++ (b ∷ body ++ (double_quote ∷ []))))
          rest

-- `t` is the first token of a line: after spaces, `t.start` bytes in, up to `t.end`.
pub record Chomps (line : List ℕ) (t : Chomped) : Type 0 where
  pub spaces : List ℕ
  pub text : List ℕ
  pub rest : List ℕ
  pub splits : line ≡ spaces ++ (text ++ rest)
  pub blank : Every (λ c. c == space) spaces
  pub start : t.start ≡ length spaces
  pub end : t.end ≡ length spaces + length text
  pub lexeme : Lexeme t.kind text rest
