-- ===== src/Lexer/Line/Pieces.antt =====
-- What the tokens of a line are, stated without the loop: the line is cut into its first token and the
-- rest, again and again, up to a blank rest or a comment.
pub mod Convert
use volatile.Base.{
  ℕ, zero, suc, ◌+◌, ◌-◌, ◌<◌, ◌≤◌, ◌≡◌, refl, ap, sym, ◌∙◌, Bool, true, false, Option, none, some,
  List, [], ◌∷◌, ◌++◌, Bytes, arith, Code, Result, ok, ◌>>=◌, Result-cases, fault, err,
  Option-cases, inl, inr, length, take, drop, length-append,
}
use mathlib.Core.Path.{subst}
use volatile.Token.{TokenKind}
use volatile.Lexer.{Chomped}
use volatile.Lexer.Lexeme.{Lexeme, number, word, symbol, quoted_char, quoted_string, Chomps}
use volatile.Lexer.Tokenize.{Services, LangToken, tokenize}
use volatile.Lexer.Line.{LexerToken, stored_offset, trace_size, is_comment, convert_token}
use volatile.Lexer.Line.Blank.{Blank}

-- `btrc_strncpy` copies as many bytes as it is asked for, where the string has them.
abbrev pub Copies : {A : Type 0} → Services A → Type 0
Copies env = (s : Bytes) (n : ℕ) → 0 < n → n ≤ length s → env.strncpy s n ≡ ok (take n s)

module _ {A : Type 0} (env : Services A) where
  -- The token at index `i` of a line comes from its first token `t`, whose text starts `t.start` bytes
  -- after `offset`.
  pub record Converts (arena : A) (i offset : ℕ) (src : Bytes) (t : Chomped) (arena' : A)
      (token : LexerToken) : Type 0 where
    pub chomps : Chomps src t
    pub arena1 : A
    pub allocated : env.alloc arena (length chomps.text + 1) ≡ some arena1
    pub arena2 : A
    pub tokenized : tokenize env arena1 t.kind chomps.text ≡ ok (arena2, token.token)
    pub traced : env.alloc arena2 trace_size ≡ some arena'
    pub position : token.offset_into_line ≡ stored_offset i offset t.start

  -- The tokens of the bytes `src`, which stand at `offset` of a line and at index `i` of its tokens.
  pub data Pieces : A → ℕ → ℕ → Bytes → A → List LexerToken → Type 0 where
    blank :
        {arena : A} {i offset : ℕ} {src : Bytes} → Blank src → Pieces arena i offset src arena []
    comment :
        {arena arena' : A} {i offset : ℕ} {src : Bytes} {t : Chomped} {token : LexerToken}
        → Converts arena i offset src t arena' token
        → is_comment token.token ≡ true
        → Pieces arena i offset src arena' []
    piece :
        {arena arena' arena'' : A} {i offset : ℕ} {src : Bytes} {t : Chomped} {token : LexerToken}
        {tokens : List LexerToken}
        → Converts arena i offset src t arena' token
        → is_comment token.token ≡ false
        → Pieces arena' (suc i) (offset + t.end) (drop t.end src) arena'' tokens
        → Pieces arena i offset src arena'' (token ∷ tokens)

Lexeme-nonempty : {kind : TokenKind} {text rest : Bytes} → Lexeme kind text rest → 0 < length text
Lexeme-nonempty (number d ds rest h s t) = omega arith
Lexeme-nonempty (word c cs rest l h s) = omega arith
Lexeme-nonempty (symbol c cs rest k h s) = omega arith
Lexeme-nonempty (quoted_char k b body rest h) = omega arith
Lexeme-nonempty (quoted_string k b body rest h) = omega arith

drop-append : (xs ys : Bytes) → drop (length xs) (xs ++ ys) ≡ ys
drop-append [] ys = refl
drop-append (x ∷ xs) ys = drop-append xs ys

take-append : (xs ys : Bytes) → take (length xs) (xs ++ ys) ≡ xs
take-append [] ys = refl
take-append (x ∷ xs) ys = ap (λ r. x ∷ r) (take-append xs ys)

module _ {A : Type 0} (env : Services A) (copies : Copies env) where
  -- The bytes that are copied are the text of the token.
  copied :
      (src : Bytes) (t : Chomped) (c : Chomps src t)
      → env.strncpy (drop t.start src) (t.end - t.start) ≡ ok c.text
  copied src t c =
      let d : drop t.start src ≡ c.text ++ c.rest =
        ap (λ s. drop s src) c.start
        ∙ ap (drop (length c.spaces)) c.splits
        ∙ drop-append c.spaces (c.text ++ c.rest) in
      let n : t.end - t.start ≡ length c.text = omega (arith, c.start, c.end) in
      rw (d, n)
        (copies (c.text ++ c.rest) (length c.text) (Lexeme-nonempty c.lexeme)
            (omega (arith, length-append c.text c.rest))
          ∙ ap ok (take-append c.text c.rest))

  size : (src : Bytes) (t : Chomped) (c : Chomps src t) → t.end - t.start + 1 ≡ length c.text + 1
  size src t c = omega (arith, c.start, c.end)

  pub convert_token-Converts :
      (arena : A) (i offset : ℕ) (src : Bytes) (t : Chomped) (arena' : A) (token : LexerToken)
      → Chomps src t
      → convert_token env arena i offset src t ≡ ok (arena', token)
      → Converts env arena i offset src t arena' token
  unfolding convert_token
  convert_token-Converts arena i offset src t arena' token c e =
      let m = size src t c in
      let s = copied src t c in
      elim (Option-cases (env.alloc arena (t.end - t.start + 1))) [
        | inl f ↦ absurd (ground arith)
        | inr (arena1, f) ↦ elim (Result-cases (tokenize env arena1 t.kind c.text)) [
          | inr (inl (k, g)) ↦ absurd (ground arith)
          | inr (inr g) ↦ absurd (ground arith)
          | inl ((arena2, token'), g) ↦ elim (Option-cases (env.alloc arena2 trace_size)) [
            | inl h ↦ absurd (ground arith)
            | inr (arena3, h) ↦ record {
              chomps = c;
              arena1 = arena1;
              allocated = ap (env.alloc arena) (sym m) ∙ f;
              arena2 = arena2;
              tokenized = ground arith;
              traced = ground arith;
              position = ground arith;
            }
          ]
        ]
      ]

  pub Converts-convert_token :
      (arena : A) (i offset : ℕ) (src : Bytes) (t : Chomped) (arena' : A) (token : LexerToken)
      → Converts env arena i offset src t arena' token
      → convert_token env arena i offset src t ≡ ok (arena', token)
  unfolding convert_token
  Converts-convert_token arena i offset src t arena' token c =
      let m : env.alloc arena (t.end - t.start + 1) ≡ some c.arena1 =
        ap (env.alloc arena) (size src t c.chomps) ∙ c.allocated in
      let s = copied src t c.chomps in
      let k = c.tokenized in let p = c.position in let tr = c.traced in ground arith
