-- ===== src/Lexer/Sound.antt =====
-- What `vltl_lexer_token_chomp` returns is the first token of the line.
use volatile.Base.{
  ok_through, ℕ, ◌+◌, ◌≡◌, refl, ◌∙◌, ap, Bool, true, false, List, [], ◌∷◌, ◌++◌, ◌==◌, replicate,
  length, arith, ok, Option-cases, inl, inr, append_assoc, length-append, length-replicate,
}
use mathlib.Core.Path.{subst}
use volatile.Token.{TokenKind, literal, unknown, char, string, operation}
use volatile.Lexer.{
  is_digit, is_letter, is_word, is_break, not_break, is_end, space, single_quote, double_quote,
  find_start, scan_while, scan_literal, scan, chomp, Chomped, presumed_kind,
}
use volatile.Lexer.Lexeme.{Lexeme, number, word, symbol, quoted_char, quoted_string, Chomps}
use volatile.Lexer.Scan.{
  Starts, find_start-some, Runs, digit-ne-dot, scan_while-Runs, scan_literal-Runs,
}
use volatile.Lexer.Quoted.{scan_quoted-Encloses}

-- A token that begins with `c ∷ cs` and ends `n` bytes into the line.
record Scanned (kind : TokenKind) (c : ℕ) (cs : List ℕ) (s n : ℕ) : Type 0 where
  text : List ℕ
  rest : List ℕ
  splits : c ∷ cs ≡ text ++ rest
  at : n ≡ s + length text
  lexeme : Lexeme kind text rest

scan_number :
    (c : ℕ) (cs : List ℕ) (s n : ℕ)
    → is_digit c ≡ true
    → scan_literal (c ∷ cs) s ≡ ok n
    → Scanned literal c cs s n
unfolding scan_literal
scan_number c cs s n d h =
    let (r, stop) = scan_literal-Runs cs (s + 1) n (ground (arith, digit-ne-dot c d)) in
    record {
      text = c ∷ r.text;
      rest = r.rest;
      splits = ap (λ l. c ∷ l) r.splits;
      at = omega (arith, r.at);
      lexeme = number c r.text r.rest (d, r.passes) r.stops stop;
    }

scan_run :
    (p : ℕ → Bool) (c : ℕ) (cs : List ℕ) (s : ℕ)
    → p c ≡ true
    → (r : Runs p cs (s + 1) (scan_while p cs (s + 1))) × (scan_while p (c ∷ cs) s
        ≡ s + length (c ∷ r.text))
unfolding scan_while
scan_run p c cs s h = let r = scan_while-Runs p cs (s + 1) in (r, rw h (omega (arith, r.at)))

kind-literal : (c : ℕ) → presumed_kind c ≡ literal → is_digit c ≡ true
unfolding presumed_kind
kind-literal c h = ground arith

kind-unknown : (c : ℕ) → presumed_kind c ≡ unknown → (is_letter c ≡ true) × (is_word c ≡ true)
unfolding presumed_kind is_word
kind-unknown c h = ground arith

kind-char : (c : ℕ) → presumed_kind c ≡ char → c ≡ single_quote
unfolding presumed_kind
kind-char c h = ground arith

kind-string : (c : ℕ) → presumed_kind c ≡ string → c ≡ double_quote
unfolding presumed_kind
kind-string c h = ground arith

kind-operation :
    (c : ℕ)
    → presumed_kind c ≡ operation
    → is_end c ≡ false
    → (c == space) ≡ false
    → not_break c ≡ true
unfolding presumed_kind is_break is_word
kind-operation c h e f = ground arith

pub split_quoted :
    (q k b : ℕ) (body rest : List ℕ)
    → replicate k q ++ (b ∷ body ++ (q ∷ rest)) ≡ (replicate k q ++ (b ∷ body ++ (q ∷ []))) ++ rest
split_quoted q k b body rest = simp (append_assoc)

pub length_quoted :
    (q k b : ℕ) (body : List ℕ)
    → length (replicate k q ++ (b ∷ body ++ (q ∷ []))) ≡ k + length body + 2
length_quoted q k b body = simp (length-append, length-replicate) (omega arith)

scan_kind :
    (kind : TokenKind) (c : ℕ) (cs : List ℕ) (s n : ℕ)
    → presumed_kind c ≡ kind
    → is_end c ≡ false
    → (c == space) ≡ false
    → scan kind c cs s ≡ ok n
    → Scanned kind c cs s n
unfolding scan
scan_kind literal c cs s n k e f h = scan_number c cs s n (kind-literal c k) h
scan_kind unknown c cs s n k e f h =
    let (letter, w) = kind-unknown c k in
    let (r, at) = scan_run is_word c cs s w in
    record {
      text = c ∷ r.text;
      rest = r.rest;
      splits = ap (λ l. c ∷ l) r.splits;
      at = ground (arith, at);
      lexeme = word c r.text r.rest letter r.passes r.stops;
    }
scan_kind operation c cs s n k e f h =
    let w = kind-operation c k e f in
    let (r, at) = scan_run not_break c cs s w in
    record {
      text = c ∷ r.text;
      rest = r.rest;
      splits = ap (λ l. c ∷ l) r.splits;
      at = ground (arith, at);
      lexeme = symbol c r.text r.rest k (w, r.passes) r.stops;
    }
scan_kind char c cs s n k e f h =
    let e' = kind-char c k in
    let r = scan_quoted-Encloses single_quote cs (s + 1) n (ground arith) in
    record {
      text = single_quote ∷ (replicate r.k single_quote ++ (r.b ∷ r.body ++ (single_quote ∷ [])));
      rest = r.rest;
      splits =
          rw e' (
            ap (λ l. single_quote ∷ l)
              (r.splits ∙ split_quoted single_quote r.k r.b r.body r.rest));
      at = omega (arith, r.at, length_quoted single_quote r.k r.b r.body);
      lexeme = quoted_char r.k r.b r.body r.rest r.inner;
    }
scan_kind string c cs s n k e f h =
    let e' = kind-string c k in
    let r = scan_quoted-Encloses double_quote cs (s + 1) n (ground arith) in
    record {
      text = double_quote ∷ (replicate r.k double_quote ++ (r.b ∷ r.body ++ (double_quote ∷ [])));
      rest = r.rest;
      splits =
          rw e' (
            ap (λ l. double_quote ∷ l)
              (r.splits ∙ split_quoted double_quote r.k r.b r.body r.rest));
      at = omega (arith, r.at, length_quoted double_quote r.k r.b r.body);
      lexeme = quoted_string r.k r.b r.body r.rest r.inner;
    }
scan_kind _ c cs s n k e f h = cc

-- What a scan of a token found, after the spaces that the first loop skipped.
Chomps-found :
    (line : List ℕ) {s c n : ℕ} {cs : List ℕ}
    → Starts line 0 s c cs
    → Scanned (presumed_kind c) c cs s n
    → Chomps line (record { start = s; end = n; kind = presumed_kind c })
Chomps-found line st r = record {
  spaces = st.spaces;
  text = r.text;
  rest = r.rest;
  splits = st.splits ∙ ap (λ l. st.spaces ++ l) r.splits;
  blank = st.blank;
  start = omega (arith, st.at);
  end = omega (arith, st.at, r.at);
  lexeme = r.lexeme;
}

pub chomp_sound : (line : List ℕ) (t : Chomped) → chomp line ≡ ok t → Chomps line t
unfolding chomp
chomp_sound line t h = elim (Option-cases (find_start line 0)) [
  | inl e ↦ absurd (ground arith)
  | inr (a, e) ↦
      let (s, c, cs) = a in
      let st = find_start-some line 0 s c cs e in
      let (n, sc, eq) = ok_through _ (scan (presumed_kind c) c cs s) (rw (e, chomp) at h) in
      subst (Chomps line) (ground arith) (
        Chomps-found line st (scan_kind (presumed_kind c) c cs s n refl st.not_end st.not_space sc))
]
