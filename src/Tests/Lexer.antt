-- ===== src/Tests/Lexer.antt =====
-- Lines and tokens, with the services of the lexer instantiated.
use volatile.Base.{
  ℕ, ◌+◌, ◌≤◌, ◌≡◌, ◌≢◌, ◌↔◌, refl, true, none, some, List, [], ◌∷◌, Bytes, codes, lookup, bytes_eq,
  arith, ok, err, fault, enodata, take, replicate, length,
}
use volatile.Token.{TokenKind, literal, unknown, char, string, operation}
use volatile.Lang.{operations, attributes, types, add, equals, operation_name}
use volatile.Lexer.{Chomped, chomp}
use volatile.Lexer.Lexeme.{Chomps}
use volatile.Lexer.Chomp.{chomp-Chomps}
use volatile.Lexer.Escape.{tokenize_binary, tokenize_hexadecimal}
use volatile.Lexer.Escape.Value.{
  Escapes, BinaryDigit, HexadecimalDigit, tokenize_binary-Escapes, tokenize_hexadecimal-Escapes,
}
use volatile.Lexer.Tokenize.{
  Services, Found, found, missing, LangToken, as_local, as_literal, as_operation, as_unknown,
  as_global, nullstr_literal, long_literal, tokenize,
}
use volatile.Lexer.Tokenize.Text.{tokenize_string_lem}
use volatile.Lexer.Tokenize.Chars.{Extends, tokenize-Extends}
use volatile.Lexer.Tokenize.Words.{tokenize-fault, tokenize-local}
use volatile.Lexer.Line.{LexerToken, line_convert, stored_offset}
use volatile.Lexer.Line.Offsets.{stored_offset-first, stored_offset-later}
use volatile.Lexer.Line.Blank.{Blank, chomp-Blank}
use volatile.Lexer.Line.Pieces.{Copies, Pieces}
use volatile.Lexer.Line.Pieces.Convert.{line_convert-Pieces}
use volatile.Asm.Decimal.{read_decimal}

table : {A : Type 0} → List (Bytes × A) → Bytes → Found A
unfolding lookup bytes_eq
table m k = elim (lookup k m) [ none ↦ missing | some v ↦ found v ]

-- An allocator that never fails, a table of one local, and a table of one global of the same name.
abbrev services : Services Unit
services = record {
  alloc = λ a n. some tt;
  strncpy = λ s n. ok (take n s);
  scan_long = λ s. read_decimal 0 s;
  operation = table operations;
  attribute = table attributes;
  type = table types;
  in_function = true;
  local = table ((codes "x", 7) ∷ []);
  global = table ((codes "x", 8) ∷ (codes "y", 9) ∷ []);
  constant = λ s. missing;
  function = λ s. missing;
}

services-Copies : Copies services
services-Copies s n p l = refl

abbrev line : Bytes
line = codes "x = y + 12 // sum"

abbrev line_tokens : List LexerToken
line_tokens =
    record { offset_into_line = 0; token = as_local 7 }
    ∷ record { offset_into_line = 1; token = as_operation equals }
    ∷ record { offset_into_line = 3; token = as_global 9 }
    ∷ record { offset_into_line = 5; token = as_operation add }
    ∷ record { offset_into_line = 7; token = as_literal (long_literal 12) }
    ∷ []

line_converted : line_convert services tt line ≡ ok (tt, line_tokens)
unfolding line_convert chomp volatile.Lexer.find_start volatile.Lexer.is_end volatile.Lexer.scan
    volatile.Lexer.presumed_kind volatile.Lexer.Line.convert_token tokenize
    volatile.Lexer.scan_while volatile.Lexer.is_word volatile.Token.token_kind_valid
    volatile.Lexer.Tokenize.tokenize_kind volatile.Lexer.Tokenize.tokenize_word table operations
    volatile.Lexer.Tokenize.tokenize_name attributes types bytes_eq lookup operation_name
    volatile.Lexer.Line.chomp_failed volatile.Lexer.Line.convert_loop volatile.Lexer.Line.is_comment
    stored_offset volatile.Lexer.Tokenize.local_or_else volatile.Lexer.Tokenize.or_else
    volatile.Lexer.is_break volatile.Lexer.is_digit volatile.Lexer.is_letter
    volatile.Lexer.scan_literal read_decimal
line_converted = refl

line_convert-Pieces_example :
    (line_convert services tt line ≡ ok (tt, line_tokens))
    ↔ (Pieces services tt 0 0 line tt line_tokens × (length line_tokens ≤ 98))
line_convert-Pieces_example = line_convert-Pieces services tt line tt line_tokens services-Copies

abbrev first_token : Chomped
first_token = record { start = 2; end = 5; kind = unknown }

chomp-Chomps_example :
    (chomp (codes "  abc=1") ≡ ok first_token) ↔ Chomps (codes "  abc=1") first_token
chomp-Chomps_example = chomp-Chomps (codes "  abc=1") first_token

chomp-Blank_example : (chomp (codes "   ") ≡ err enodata) ↔ Blank (codes "   ")
chomp-Blank_example = chomp-Blank (codes "   ")

tokenize-local_example : (tokenize services tt unknown (codes "x") ≡ ok (tt, as_local 7)) ↔ (
    (services.operation (codes "x") ≡ missing)
    × (services.attribute (codes "x") ≡ missing)
    × (services.type (codes "x") ≡ missing)
    × (services.in_function ≡ true)
    × (services.local (codes "x") ≡ found 7))
tokenize-local_example = tokenize-local services tt (codes "x") 7 (omega arith) (omega arith)

abbrev long_name : Bytes
long_name = replicate 999 97

unknown-ne-string : ◌≢◌ {A = TokenKind} unknown string
unknown-ne-string e = cc

tokenize-fault_example :
    (tokenize services tt unknown long_name ≡ fault)
    ↔ ((999 ≤ length long_name) × (length long_name ≤ 1000))
unfolding volatile.Token.token_kind_valid
tokenize-fault_example = tokenize-fault services tt unknown long_name refl unknown-ne-string

tokenize_string_lem_example :
    tokenize services tt string (codes "\"hi\"")
    ≡ ok (tt, as_literal (nullstr_literal (codes "hi")))
tokenize_string_lem_example =
    tokenize_string_lem services tt tt (104 ∷ []) 105 (refl, (refl, tt)) (λ e. absurd (omega arith))
      (omega arith) refl

tokenize_hexadecimal-Escapes_example :
    (tokenize_hexadecimal (codes "fF'") ≡ ok 255)
    ↔ Escapes HexadecimalDigit 16 2 (codes "fF'") 0 255
tokenize_hexadecimal-Escapes_example = tokenize_hexadecimal-Escapes (codes "fF'") 255

tokenize_binary-Escapes_example :
    (tokenize_binary (codes "101'") ≡ ok 5) ↔ Escapes BinaryDigit 2 8 (codes "101'") 0 5
tokenize_binary-Escapes_example = tokenize_binary-Escapes (codes "101'") 5

stored_offset-first_example : (stored_offset 0 0 2 ≡ 0 + 2) ↔ (◌≡◌ {A = ℕ} 2 0)
stored_offset-first_example = stored_offset-first 2 (omega arith)

stored_offset-later_example : stored_offset 1 5 1 ≢ 5 + 1
stored_offset-later_example = stored_offset-later 0 5 1 (omega arith)

-- The escape of the byte 255, which is -1 as a signed char.
tokenize-Extends_example :
    (tokenize services tt char (39 ∷ 92 ∷ 120 ∷ codes "fF'")
      ≡ ok (tt, as_literal (long_literal 18446744073709551615)))
    ↔ Extends (codes "fF'") 18446744073709551615
tokenize-Extends_example =
    tokenize-Extends services tt (codes "fF'") 18446744073709551615 (omega arith)
