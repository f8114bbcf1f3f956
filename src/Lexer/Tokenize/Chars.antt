-- ===== src/Lexer/Tokenize/Chars.antt =====
-- The tokens of a char with a hexadecimal escape.
use volatile.Base.{
  ℕ, ◌+◌, ◌^◌, ◌≤◌, ltb, Bool-cases, ◌<◌, ◌≡◌, ◌↔◌, refl, sym, ap, ◌∙◌, ◌∷◌, Bytes, length, ok,
  Result-cases, inl, inr, arith,
}
use volatile.Token.{char, token_kind_valid}
use volatile.Lexer.{single_quote}
use mathlib.Core.Path.{subst}
use volatile.Lexer.Escape.{tokenize_hexadecimal}
use volatile.Lexer.Escape.Value.{Escapes, HexadecimalDigit, tokenize_hexadecimal-Escapes}
use volatile.Lexer.Tokenize.{
  Services, as_literal, long_literal, backslash, escaped_char, extend_sign, tokenize_char,
  tokenize_kind, tokenize,
}
use volatile.Lexer.Tokenize.Text.{tokenize-short}

-- The 64-bit pattern of the signed number that a byte is: from 128 on it stands for the number 256 below it.
pub data IsSigned (byte n : ℕ) : Type 0 where
  positive : byte < 128 → n ≡ byte → IsSigned byte n
  negative : 128 ≤ byte → n + 256 ≡ 2 ^ 64 + byte → IsSigned byte n

extend_sign-IsSigned : (v : ℕ) → IsSigned v (extend_sign v)
unfolding extend_sign
extend_sign-IsSigned v = elim (Bool-cases (ltb v 128)) [
  | inl t ↦ positive (ground (arith, t)) (ground (arith, t))
  | inr t ↦ negative (ground (arith, t)) (ground (arith, t))
]

IsSigned-extend_sign : (v n : ℕ) → IsSigned v n → n ≡ extend_sign v
unfolding extend_sign
IsSigned-extend_sign v n (positive l e) = ground arith
IsSigned-extend_sign v n (negative l e) = ground arith

-- A hexadecimal escape, and the value of the `char` that it denotes.
pub record Extends (src : Bytes) (n : ℕ) : Type 0 where
  pub byte : ℕ
  pub escapes : Escapes HexadecimalDigit 16 2 src 0 byte
  pub extended : IsSigned byte n

tokenize_char-hexadecimal :
    {A : Type 0} (env : Services A) (arena : A) (src : Bytes) (v : ℕ)
    → tokenize_hexadecimal src ≡ ok v
    → tokenize_kind env arena char (single_quote ∷ backslash ∷ b'x' ∷ src)
      ≡ ok (arena, as_literal (long_literal (extend_sign v)))
unfolding tokenize_kind tokenize_char escaped_char
tokenize_char-hexadecimal env arena src v e = rw e refl

-- A char token of fewer than 999 bytes that begins with a hexadecimal escape is accepted exactly when at most
-- two hexadecimal digits and a closing quote follow the `\x`, and becomes the literal of the 64-bit
-- pattern of the byte that they denote, as a signed char.
pub tokenize-Extends :
    {A : Type 0} (env : Services A) (arena : A) (src : Bytes) (n : ℕ)
    → length src < 996
    → (tokenize env arena char (single_quote ∷ backslash ∷ b'x' ∷ src)
        ≡ ok (arena, as_literal (long_literal n)))
      ↔ Extends src n
unfolding token_kind_valid tokenize_kind tokenize_char escaped_char
tokenize-Extends env arena src n l =
    let s =
      tokenize-short env arena char (single_quote ∷ backslash ∷ b'x' ∷ src) refl (omega arith)
        (omega arith) in
    (
      λ e. elim (Result-cases (tokenize_hexadecimal src)) [
        | inl (v, f) ↦ record {
          byte = v;
          escapes = (tokenize_hexadecimal-Escapes src v).0 f;
          extended = subst (IsSigned v) (ground (arith, sym s ∙ e)) (extend_sign-IsSigned v);
        }
        | inr (inl (c, f)) ↦ absurd (ground (arith, sym s ∙ e))
        | inr (inr f) ↦ absurd (ground (arith, sym s ∙ e))
      ],
      λ x.
          s
          ∙ tokenize_char-hexadecimal env arena src x.byte
              ((tokenize_hexadecimal-Escapes src x.byte).1 x.escapes)
          ∙ ap (λ v. ok (arena, as_literal (long_literal v)))
              (sym (IsSigned-extend_sign x.byte n x.extended)),
    )
