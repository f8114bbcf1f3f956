-- ===== src/Lexer/Scan.antt =====
-- The loops of `vltl_lexer_token_chomp`, one lemma for what each finds and one for when.
use volatile.Base.{
  ℕ, ◌+◌, ◌≡◌, refl, ap, Bool, true, false, some, List, [], ◌∷◌, ◌++◌, ◌==◌, length, arith, ok,
  Bool-cases, inl, inr,
}
use volatile.Lexer.{is_digit, is_end, dot, space, find_start, scan_while, scan_literal}
use volatile.Lexer.Lexeme.{Every, Stops}

pub record Starts (line : List ℕ) (i s c : ℕ) (cs : List ℕ) : Type 0 where
  pub spaces : List ℕ
  pub splits : line ≡ spaces ++ (c ∷ cs)
  pub blank : Every (λ b. b == space) spaces
  pub at : s ≡ i + length spaces
  pub not_end : is_end c ≡ false
  pub not_space : (c == space) ≡ false

pub find_start-some :
    (line : List ℕ) (i s c : ℕ) (cs : List ℕ)
    → find_start line i ≡ some (s, c, cs)
    → Starts line i s c cs
unfolding find_start
find_start-some [] i s c cs h = cc
find_start-some (b ∷ bs) i s c cs h = elim (Bool-cases (is_end b)) [
  | inl e ↦ absurd (ground arith)
  | inr e ↦ elim (Bool-cases (b == space)) [
    | inl f ↦
        let r = find_start-some bs (i + 1) s c cs (ground arith) in
        record {
          spaces = b ∷ r.spaces;
          splits = ap (λ l. b ∷ l) r.splits;
          blank = (f, r.blank);
          at = omega (arith, r.at);
          not_end = r.not_end;
          not_space = r.not_space;
        }
    | inr f ↦ record {
      spaces = [];
      splits = ground arith;
      blank = tt;
      at = ground arith;
      not_end = ground arith;
      not_space = ground arith;
    }
  ]
]

pub find_start-spaces :
    (spaces : List ℕ) (i c : ℕ) (cs : List ℕ)
    → Every (λ b. b == space) spaces
    → is_end c ≡ false
    → (c == space) ≡ false
    → find_start (spaces ++ (c ∷ cs)) i ≡ some (i + length spaces, c, cs)
unfolding find_start is_end
find_start-spaces [] i c cs h e f = ground arith
find_start-spaces (b ∷ spaces) i c cs h e f = ground (arith, find_start-spaces spaces (i + 1) c cs)

-- A run of bytes that pass a test, as long as possible.
pub record Runs (p : ℕ → Bool) (cs : List ℕ) (e n : ℕ) : Type 0 where
  pub text : List ℕ
  pub rest : List ℕ
  pub splits : cs ≡ text ++ rest
  pub passes : Every p text
  pub stops : Stops p rest
  pub at : n ≡ e + length text

pub scan_while-Runs : (p : ℕ → Bool) (cs : List ℕ) (e : ℕ) → Runs p cs e (scan_while p cs e)
unfolding scan_while
scan_while-Runs p [] e = record {
  text = [];
  rest = [];
  splits = refl;
  passes = tt;
  stops = tt;
  at = omega arith;
}
scan_while-Runs p (c ∷ cs) e = elim (Bool-cases (p c)) [
  | inl h ↦
      let r = scan_while-Runs p cs (e + 1) in
      record {
        text = c ∷ r.text;
        rest = r.rest;
        splits = ap (λ l. c ∷ l) r.splits;
        passes = (h, r.passes);
        stops = r.stops;
        at = rw h (omega (arith, r.at));
      }
  | inr h ↦ record {
    text = [];
    rest = c ∷ cs;
    splits = refl;
    passes = tt;
    stops = h;
    at = rw h (omega arith);
  }
]

pub scan_while-run :
    (p : ℕ → Bool) (text rest : List ℕ) (e : ℕ)
    → Every p text
    → Stops p rest
    → scan_while p (text ++ rest) e ≡ e + length text
unfolding scan_while
scan_while-run p [] [] e h s = omega arith
scan_while-run p [] (c ∷ rest) e h s = rw s (omega arith)
scan_while-run p (c ∷ text) rest e h s = ground (arith, scan_while-run p text rest (e + 1))

pub scan_literal-Runs :
    (cs : List ℕ) (e n : ℕ)
    → scan_literal cs e ≡ ok n
    → (r : Runs is_digit cs e n) × Stops (λ c. c == dot) r.rest
unfolding scan_literal
scan_literal-Runs [] e n h =
    (record { text = []; rest = []; splits = refl; passes = tt; stops = tt; at = ground arith }, tt)
scan_literal-Runs (c ∷ cs) e n h = elim (Bool-cases (c == dot)) [
  | inl d ↦ absurd (ground arith)
  | inr d ↦ elim (Bool-cases (is_digit c)) [
    | inl f ↦
        let (r, s) = scan_literal-Runs cs (e + 1) n (ground arith) in
        (
          record {
            text = c ∷ r.text;
            rest = r.rest;
            splits = ap (λ l. c ∷ l) r.splits;
            passes = (f, r.passes);
            stops = r.stops;
            at = omega (arith, r.at);
          },
          s,
        )
    | inr f ↦ (
      record { text = []; rest = c ∷ cs; splits = refl; passes = tt; stops = f; at = ground arith },
      d,
    )
  ]
]

pub digit-ne-dot : (c : ℕ) → is_digit c ≡ true → (c == dot) ≡ false
unfolding is_digit
digit-ne-dot c h = ground arith

pub scan_literal-run :
    (text rest : List ℕ) (e : ℕ)
    → Every is_digit text
    → Stops is_digit rest
    → Stops (λ c. c == dot) rest
    → scan_literal (text ++ rest) e ≡ ok (e + length text)
unfolding scan_literal
scan_literal-run [] [] e h s d = ground arith
scan_literal-run [] (c ∷ rest) e h s d = ground arith
scan_literal-run (c ∷ text) rest e h s d =
    ground (arith, digit-ne-dot c, scan_literal-run text rest (e + 1))
