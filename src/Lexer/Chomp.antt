-- ===== src/Lexer/Chomp.antt =====
-- `vltl_lexer_token_chomp` finds exactly the first token of a line.
use volatile.Base.{
  ℕ, suc, ◌+◌, ◌≡◌, refl, ◌∙◌, ap, ◌↔◌, true, false, List, [], ◌∷◌, ◌++◌, ◌==◌, replicate, length,
  arith, ok,
}
use volatile.Token.{TokenKind, literal, unknown, char, string, operation}
use volatile.Lexer.{
  is_digit, is_letter, is_word, is_break, not_break, is_end, nul, space, single_quote, double_quote,
  scan_quoted, scan, chomp, Chomped, presumed_kind,
}
use volatile.Lexer.Lexeme.{
  Every, is_inner, Lexeme, number, word, symbol, quoted_char, quoted_string, Chomps,
}
use volatile.Lexer.Scan.{find_start-spaces, scan_while-run, scan_literal-run}
use volatile.Lexer.Sound.{chomp_sound, split_quoted, length_quoted}
use volatile.Lexer.Quoted.{scan_quoted-run}

-- The first token of `spaces ++ c ∷ cs`, once the scan from `c` on is known.
chomp-at :
    (spaces : List ℕ) (c : ℕ) (cs : List ℕ) (kind : TokenKind) (n : ℕ)
    → Every (λ b. b == space) spaces
    → is_end c ≡ false
    → (c == space) ≡ false
    → presumed_kind c ≡ kind
    → scan kind c cs (length spaces) ≡ ok n
    → chomp (spaces ++ (c ∷ cs)) ≡ ok (record { start = length spaces; end = n; kind = kind })
unfolding chomp
chomp-at spaces c cs kind n b e f k h =
    rw (find_start-spaces spaces 0 c cs b e f, chomp) (ground arith)

digit-kind :
    (c : ℕ)
    → is_digit c ≡ true
    → (presumed_kind c ≡ literal) × (is_end c ≡ false) × ((c == space) ≡ false)
unfolding presumed_kind is_end is_digit
digit-kind c h = ground arith

letter-kind :
    (c : ℕ)
    → is_letter c ≡ true
    → (presumed_kind c ≡ unknown) × (is_end c ≡ false) × ((c == space) ≡ false) × (is_word c ≡ true)
unfolding presumed_kind is_end is_word
letter-kind c h = ground arith

break-kind : (c : ℕ) → not_break c ≡ true → (is_end c ≡ false) × ((c == space) ≡ false)
unfolding is_break
break-kind c h = ground arith

quoted-scan :
    (q k x : ℕ) (body rest : List ℕ) (s : ℕ)
    → (q == nul) ≡ false
    → Every (is_inner q) (x ∷ body)
    → scan_quoted q q ((replicate k q ++ (x ∷ body ++ (q ∷ []))) ++ rest) (s + 1)
      ≡ ok (s + suc (length (replicate k q ++ (x ∷ body ++ (q ∷ [])))))
quoted-scan q k x body rest s z h =
    rw
      (
        ← split_quoted q k x body rest,
        length_quoted q k x body,
        scan_quoted-run q k x body rest (s + 1) z h,
      )
      (ap ok (omega arith))

Lexeme-scan :
    (spaces : List ℕ) {kind : TokenKind} {text rest : List ℕ}
    → Every (λ b. b == space) spaces
    → Lexeme kind text rest
    → chomp (spaces ++ (text ++ rest))
      ≡ ok (record { start = length spaces; end = length spaces + length text; kind = kind })
unfolding scan presumed_kind is_end is_digit is_letter
Lexeme-scan spaces b (number d ds rest h s t) =
    let (k, e, f) = digit-kind d h.0 in
    chomp-at spaces d (ds ++ rest) literal _ b e f k
      (scan_literal-run (d ∷ ds) rest (length spaces) h s t)
Lexeme-scan spaces b (word c cs rest l h s) =
    let (k, e, f, w) = letter-kind c l in
    chomp-at spaces c (cs ++ rest) unknown _ b e f k
      (ap ok (scan_while-run is_word (c ∷ cs) rest (length spaces) (w, h) s))
Lexeme-scan spaces b (symbol c cs rest k h s) =
    let (e, f) = break-kind c h.0 in
    chomp-at spaces c (cs ++ rest) operation _ b e f k
      (ap ok (scan_while-run not_break (c ∷ cs) rest (length spaces) h s))
Lexeme-scan spaces b (quoted_char k x body rest h) =
    chomp-at spaces single_quote _ char _ b refl refl refl
      (quoted-scan single_quote k x body rest (length spaces) refl h)
Lexeme-scan spaces b (quoted_string k x body rest h) =
    chomp-at spaces double_quote _ string _ b refl refl refl
      (quoted-scan double_quote k x body rest (length spaces) refl h)

chomp_complete : (line : List ℕ) (t : Chomped) → Chomps line t → chomp line ≡ ok t
chomp_complete line t c =
    ap chomp c.splits
    ∙ Lexeme-scan c.spaces c.blank c.lexeme
    ∙ ap ok (ground (arith, c.start, c.end))

-- `vltl_lexer_token_chomp` succeeds exactly on the lines that begin, after any spaces, with a token: a
-- longest run of digits that no dot follows, a longest run of letters and digits that a letter begins,
-- a longest run of other bytes that no quote begins, or a char or string from its opening quotes to the
-- next quote. It returns the position where that token starts, the position where it ends and its
-- presumed kind.
pub chomp-Chomps : (line : List ℕ) (t : Chomped) → (chomp line ≡ ok t) ↔ Chomps line t
chomp-Chomps line t = (chomp_sound line t, chomp_complete line t)
