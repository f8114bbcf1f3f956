-- ===== src/Lexer/Escape/Value.antt =====
-- What the escapes of a char denote.
use volatile.Base.{
  ℕ, zero, suc, ◌+◌, ◌*◌, ◌%◌, ◌^◌, ◌≤◌, ◌<◌, ◌≡◌, ◌↔◌, refl, sym, ◌-◌, leb, ◌&&◌, ◌==◌, Bool-cases,
  ap, Option, none, some, List, [], ◌∷◌, ◌++◌, ok, length, Option-cases, inl, inr, arith, ==_iff,
}
use mathlib.Core.Path.{subst}
use volatile.Lexer.{single_quote}
use volatile.Lexer.Escape.{
  binary_digit, hexadecimal_digit, read_digits, tokenize_binary, tokenize_hexadecimal,
}

-- The digits and their values.
pub data BinaryDigit : ℕ → ℕ → Type 0 where
  digit0 : BinaryDigit b'0' 0
  digit1 : BinaryDigit b'1' 1

pub data HexadecimalDigit : ℕ → ℕ → Type 0 where
  decimal : {d : ℕ} → d < 10 → HexadecimalDigit (b'0' + d) d
  lower : {d : ℕ} → d < 6 → HexadecimalDigit (b'a' + d) (10 + d)
  upper : {d : ℕ} → d < 6 → HexadecimalDigit (b'A' + d) (10 + d)

-- `Denotes Digit base cs v n`: the bytes `cs` are digits, and read after `v` they denote `n`.
pub data Denotes (Digit : ℕ → ℕ → Type 0) (base : ℕ) : List ℕ → ℕ → ℕ → Type 0 where
  stop : {v : ℕ} → Denotes Digit base [] v v
  more :
      {c d v n : ℕ} {cs : List ℕ}
      → Digit c d
      → Denotes Digit base cs (v * base + d) n
      → Denotes Digit base (c ∷ cs) v n

-- A run of at most `rounds` digits, which denotes `n`, and the closing quote.
pub record Escapes (Digit : ℕ → ℕ → Type 0) (base rounds : ℕ) (src : List ℕ) (v n : ℕ)
    : Type 0 where
  pub digits : List ℕ
  pub rest : List ℕ
  pub splits : src ≡ digits ++ (single_quote ∷ rest)
  pub few : length digits ≤ rounds
  pub denotes : Denotes Digit base digits v n

-- What the loop needs of a base: digits are below it and no quote is one.
record IsBase (digit : ℕ → Option ℕ) (Digit : ℕ → ℕ → Type 0) (base : ℕ) : Type 0 where
  sound : (c d : ℕ) → digit c ≡ some d → Digit c d
  complete : (c d : ℕ) → Digit c d → digit c ≡ some d
  positive : 0 < base
  digit_lt : (c d : ℕ) → digit c ≡ some d → d < base
  quote : digit single_quote ≡ none

binary_sound : (c d : ℕ) → binary_digit c ≡ some d → BinaryDigit c d
unfolding binary_digit
binary_sound c d e = elim (Bool-cases (leb b'0' c && leb c b'1')) [
  | inr t ↦ absurd (ground (arith, e, t))
  | inl t ↦ elim (Bool-cases (c == b'0')) [
    | inl u ↦
        let p : c ≡ b'0' = (==_iff c b'0').0 u in
        let q : d ≡ 0 = ground (arith, e, t, p) in
        subst (λ x. BinaryDigit x d) (sym p) (subst (BinaryDigit b'0') (sym q) digit0)
    | inr u ↦
        let p : c ≡ b'1' = ground (arith, t, u) in
        let q : d ≡ 1 = ground (arith, e, t, p) in
        subst (λ x. BinaryDigit x d) (sym p) (subst (BinaryDigit b'1') (sym q) digit1)
  ]
]

binary_complete : (c d : ℕ) → BinaryDigit c d → binary_digit c ≡ some d
unfolding binary_digit
binary_complete c d digit0 = refl
binary_complete c d digit1 = refl

binary-IsBase : IsBase binary_digit BinaryDigit 2
unfolding binary_digit
binary-IsBase = record {
  sound = binary_sound;
  complete = binary_complete;
  positive = omega arith;
  digit_lt = λ c d h. ground arith;
  quote = refl;
}

hexadecimal_sound : (c d : ℕ) → hexadecimal_digit c ≡ some d → HexadecimalDigit c d
unfolding hexadecimal_digit
hexadecimal_sound c d e = elim (Bool-cases (leb b'0' c && leb c b'9')) [
  | inl t ↦
      let p : d ≡ c - b'0' = ground (arith, e, t) in
      let q : b'0' + d ≡ c = ground (arith, p, t) in
      subst (λ x. HexadecimalDigit x d) q (decimal (ground (arith, p, t)))
  | inr t ↦ elim (Bool-cases (leb b'a' c && leb c b'f')) [
    | inl u ↦
        let p : 10 + (c - b'a') ≡ d = ground (arith, e, t, u) in
        let q : b'a' + (c - b'a') ≡ c = ground (arith, u) in
        subst (λ x. HexadecimalDigit x d) q
          (subst (HexadecimalDigit (b'a' + (c - b'a'))) p (lower (ground (arith, u))))
    | inr u ↦ elim (Bool-cases (leb b'A' c && leb c b'F')) [
      | inl v ↦
          let p : 10 + (c - b'A') ≡ d = ground (arith, e, t, u, v) in
          let q : b'A' + (c - b'A') ≡ c = ground (arith, v) in
          subst (λ x. HexadecimalDigit x d) q
            (subst (HexadecimalDigit (b'A' + (c - b'A'))) p (upper (ground (arith, v))))
      | inr v ↦ absurd (ground (arith, e, t, u, v))
    ]
  ]
]

hexadecimal_complete : (c d : ℕ) → HexadecimalDigit c d → hexadecimal_digit c ≡ some d
unfolding hexadecimal_digit
hexadecimal_complete c d (decimal l) = ground arith
hexadecimal_complete c d (lower l) = ground arith
hexadecimal_complete c d (upper l) = ground arith

hexadecimal-IsBase : IsBase hexadecimal_digit HexadecimalDigit 16
unfolding hexadecimal_digit
hexadecimal-IsBase = record {
  sound = hexadecimal_sound;
  complete = hexadecimal_complete;
  positive = omega arith;
  digit_lt = λ c d h. ground arith;
  quote = refl;
}

scale : ℕ → ℕ → ℕ
scale base zero = 1
scale base (suc n) = base * scale base n

-- With `n` rounds left a value has room for `n` more digits below 256.
Room : ℕ → ℕ → ℕ → Type 0
Room base n v = (v + 1) * scale base n ≤ 256

mul-le-mul : (a b k : ℕ) → a ≤ b → a * k ≤ b * k
mul-le-mul a b k h = grind arith

scale_pos : (base n : ℕ) → 0 < base → 1 ≤ scale base n
unfolding scale
scale_pos base zero h = omega arith
scale_pos base (suc n) h = let i = scale_pos base n h in grind arith

Room-lt : (base n v : ℕ) → 0 < base → Room base n v → v < 256
unfolding Room
Room-lt base n v p h = omega (arith, mul-le-mul 1 (scale base n) (v + 1) (scale_pos base n p))

Room-step : (base n v d : ℕ) → d < base → Room base (suc n) v → Room base n (v * base + d)
unfolding Room scale
Room-step base n v d h r =
    omega (arith, mul-le-mul (v * base + d + 1) ((v + 1) * base) (scale base n) (omega arith))

module _ (digit : ℕ → Option ℕ) (Digit : ℕ → ℕ → Type 0) (base : ℕ)
    (b : IsBase digit Digit base) where
  -- In a round that has room no bit is lost.
  exact :
      (n v c d : ℕ)
      → Room base (suc n) v
      → digit c ≡ some d
      → ((v * base % 2 ^ 8 + d) % 2 ^ 8 ≡ v * base + d) × Room base n (v * base + d)
  exact n v c d r h =
      let lt = b.digit_lt c d h in
      let r' = Room-step base n v d lt r in
      (omega (arith, Room-lt base n (v * base + d) b.positive r'), r')

  read_digits-Escapes :
      (n : ℕ) (src : List ℕ) (v m : ℕ)
      → Room base n v
      → read_digits digit base n src v ≡ ok m
      → Escapes Digit base n src v m
  unfolding read_digits
  read_digits-Escapes n [] v m r h = cc
  read_digits-Escapes zero (c ∷ cs) v m r h = record {
    digits = [];
    rest = cs;
    splits = ground (arith, ==_iff c single_quote);
    few = omega arith;
    denotes = subst (Denotes Digit base [] v) (ground arith) stop;
  }
  read_digits-Escapes (suc n) (c ∷ cs) v m r h = elim (Option-cases (digit c)) [
    | inl e ↦ record {
      digits = [];
      rest = cs;
      splits = ground (arith, ==_iff c single_quote);
      few = omega arith;
      denotes = subst (Denotes Digit base [] v) (ground arith) stop;
    }
    | inr (d, e) ↦
        let (x, r') = exact n v c d r e in
        let s = read_digits-Escapes n cs (v * base + d) m r' (ground arith) in
        record {
          digits = c ∷ s.digits;
          rest = s.rest;
          splits = ap (λ l. c ∷ l) s.splits;
          few = omega (arith, s.few);
          denotes = more (b.sound c d e) s.denotes;
        }
  ]

  Escapes-read_digits :
      (n : ℕ) (digits rest : List ℕ) (v m : ℕ)
      → Room base n v
      → length digits ≤ n
      → Denotes Digit base digits v m
      → read_digits digit base n (digits ++ (single_quote ∷ rest)) v ≡ ok m
  unfolding read_digits
  Escapes-read_digits zero [] rest v m r f stop = refl
  Escapes-read_digits (suc n) [] rest v m r f stop = rw b.quote
  Escapes-read_digits zero (c ∷ cs) rest v m r f d = absurd (omega arith)
  Escapes-read_digits (suc n) (c ∷ cs) rest v m r f (more {d = d} g t) =
      let e = b.complete c d g in
      let (x, r') = exact n v c d r e in
      rw (e, x) (Escapes-read_digits n cs rest (v * base + d) m r' (omega arith) t)

-- `\b…`: the function succeeds exactly on at most eight binary digits and a closing quote, and returns
-- the number that the digits denote.
pub tokenize_binary-Escapes :
    (src : List ℕ) (n : ℕ) → (tokenize_binary src ≡ ok n) ↔ Escapes BinaryDigit 2 8 src 0 n
unfolding tokenize_binary Room scale
tokenize_binary-Escapes src n = (
  read_digits-Escapes binary_digit BinaryDigit 2 binary-IsBase 8 src 0 n (omega arith),
  λ e. rw e.splits (
      Escapes-read_digits binary_digit BinaryDigit 2 binary-IsBase 8 e.digits e.rest 0 n
        (omega arith) e.few e.denotes),
)

-- `\x…`: the function succeeds exactly on at most two hexadecimal digits, in either case, and a closing
-- quote, and returns the number that the digits denote.
pub tokenize_hexadecimal-Escapes :
    (src : List ℕ) (n : ℕ)
    → (tokenize_hexadecimal src ≡ ok n) ↔ Escapes HexadecimalDigit 16 2 src 0 n
unfolding tokenize_hexadecimal Room scale
tokenize_hexadecimal-Escapes src n = (
  read_digits-Escapes hexadecimal_digit HexadecimalDigit 16 hexadecimal-IsBase 2 src 0 n
      (omega arith),
  λ e. rw e.splits (
      Escapes-read_digits hexadecimal_digit HexadecimalDigit 16 hexadecimal-IsBase 2 e.digits e.rest
        0 n (omega arith) e.few e.denotes),
)
