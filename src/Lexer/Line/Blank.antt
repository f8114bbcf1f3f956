-- ===== src/Lexer/Line/Blank.antt =====
-- The lines without a token: `vltl_lexer_token_chomp` returns ENODATA on them, and on no others.
use volatile.Base.{
  ℕ, ◌+◌, ◌≡◌, ◌≢◌, ◌↔◌, refl, ap, true, none, List, [], ◌∷◌, ◌++◌, ◌==◌, arith, err, enodata,
  Bool-cases, Option-cases, inl, inr,
}
use volatile.Token.{TokenKind, literal, char, string}
use volatile.Lexer.{
  is_end, space, find_start, scan_literal, scan_quoted, scan, chomp, presumed_kind,
}
use volatile.Lexer.Lexeme.{Every}

-- The line, or its first byte, ends it.
abbrev pub Ends : List ℕ → Type 0
Ends [] = Unit
Ends (c ∷ cs) = is_end c ≡ true

-- Spaces, and the end of the line.
pub record Blank (line : List ℕ) : Type 0 where
  pub spaces : List ℕ
  pub rest : List ℕ
  pub splits : line ≡ spaces ++ rest
  pub blank : Every (λ c. c == space) spaces
  pub ends : Ends rest

find_start-Blank : (line : List ℕ) (i : ℕ) → find_start line i ≡ none → Blank line
unfolding find_start
find_start-Blank [] i e = record { spaces = []; rest = []; splits = refl; blank = tt; ends = tt }
find_start-Blank (b ∷ bs) i e = elim (Bool-cases (is_end b)) [
  | inl f ↦ record { spaces = []; rest = b ∷ bs; splits = refl; blank = tt; ends = f }
  | inr f ↦ elim (Bool-cases (b == space)) [
    | inl g ↦
        let r = find_start-Blank bs (i + 1) (ground arith) in
        record {
          spaces = b ∷ r.spaces;
          rest = r.rest;
          splits = ap (λ l. b ∷ l) r.splits;
          blank = (g, r.blank);
          ends = r.ends;
        }
    | inr g ↦ absurd (ground arith)
  ]
]

find_start-none :
    (spaces rest : List ℕ) (i : ℕ)
    → Every (λ c. c == space) spaces
    → Ends rest
    → find_start (spaces ++ rest) i ≡ none
unfolding find_start is_end
find_start-none [] [] i b e = refl
find_start-none [] (c ∷ cs) i b e = ground arith
find_start-none (s ∷ ss) rest i b e = ground (arith, find_start-none ss rest (i + 1))

scan_literal-ne-enodata : (cs : List ℕ) (e : ℕ) → scan_literal cs e ≢ err enodata
unfolding scan_literal
scan_literal-ne-enodata [] e h = cc
scan_literal-ne-enodata (c ∷ cs) e h = ground (arith, scan_literal-ne-enodata cs (e + 1))

scan_quoted-ne-enodata : (q b : ℕ) (cs : List ℕ) (e : ℕ) → scan_quoted q b cs e ≢ err enodata
unfolding scan_quoted
scan_quoted-ne-enodata q b [] e h = cc
scan_quoted-ne-enodata q b (c ∷ cs) e h = ground (arith, scan_quoted-ne-enodata q c cs (e + 1))

scan-ne-enodata : (kind : TokenKind) (c : ℕ) (cs : List ℕ) (s : ℕ) → scan kind c cs s ≢ err enodata
unfolding scan
scan-ne-enodata literal c cs s h = scan_literal-ne-enodata (c ∷ cs) s h
scan-ne-enodata char c cs s h = ground (arith, scan_quoted-ne-enodata 39 c cs (s + 1))
scan-ne-enodata string c cs s h = ground (arith, scan_quoted-ne-enodata 34 c cs (s + 1))
scan-ne-enodata _ c cs s h = cc

-- `vltl_lexer_token_chomp` returns ENODATA exactly on the lines that hold only spaces up to their end,
-- which is a newline, a 0 or the end of the string.
pub chomp-Blank : (line : List ℕ) → (chomp line ≡ err enodata) ↔ Blank line
unfolding chomp
chomp-Blank line = (
  λ e. elim (Option-cases (find_start line 0)) [
    | inl f ↦ find_start-Blank line 0 f
    | inr ((s, c, cs), f) ↦ absurd (ground (arith, scan-ne-enodata (presumed_kind c) c cs s))
  ],
  λ b. rw (b.splits, chomp, find_start-none b.spaces b.rest 0 b.blank b.ends) refl,
)
