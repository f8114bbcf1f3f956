-- ===== src/Asm/Decimal.antt =====
-- Numbers in decimal, as `printf` writes them.
use volatile.Base.{
  ℕ, zero, suc, ◌+◌, ◌-◌, ◌*◌, ◌/◌, ◌%◌, ◌^◌, ◌<◌, ◌≤◌, ◌≡◌, refl, ◌∙◌, [], ◌∷◌, ◌++◌, Bytes, ltb,
  if◌then◌else◌, arith, Bool-cases, inl, inr, length, length-append, ◌==◌, false,
}

-- The digits of a number of at most `n + 1` digits.
unfoldable pub digits : ℕ → ℕ → Bytes
digits zero v = (b'0' + v % 10) ∷ []
digits (suc n) v =
    let rest = digits n (v / 10) in
    if ltb v 10 then (b'0' + v) ∷ [] else rest ++ ((b'0' + v % 10) ∷ [])

-- A 64-bit number has at most 20 digits.
unfoldable pub decimal : ℕ → Bytes
unfolding digits
decimal v = digits 19 v

-- The number that digits denote after `v`.
unfoldable pub read_decimal : ℕ → Bytes → ℕ
read_decimal v [] = v
read_decimal v (c ∷ cs) = read_decimal (v * 10 + (c - b'0')) cs

read_decimal-concat :
    (v : ℕ) (cs : Bytes) (d : ℕ)
    → read_decimal v (cs ++ ((b'0' + d) ∷ [])) ≡ read_decimal v cs * 10 + d
unfolding read_decimal
read_decimal-concat v [] d = omega arith
read_decimal-concat v (c ∷ cs) d = read_decimal-concat (v * 10 + (c - b'0')) cs d

read_decimal-digits : (n v : ℕ) → v < 10 ^ (suc n) → read_decimal 0 (digits n v) ≡ v
unfolding digits read_decimal
read_decimal-digits zero v h = omega arith
read_decimal-digits (suc n) v h = elim (Bool-cases (ltb v 10)) [
  | inl e ↦ ground arith
  | inr e ↦
      let l : v / 10 < 10 ^ suc n = grind arith in
      rw e (
        read_decimal-concat 0 (digits n (v / 10)) (v % 10)
        ∙ omega (arith, read_decimal-digits n (v / 10) l))
]

length-digits : (n v : ℕ) → length (digits n v) ≤ suc n
unfolding digits
length-digits zero v = omega arith
length-digits (suc n) v =
    ground
      (arith, length-digits n (v / 10), length-append (digits n (v / 10)) ((b'0' + v % 10) ∷ []))

-- No digit is a minus sign.
pub record Unsigned (text : Bytes) : Type 0 where
  pub first : ℕ
  pub rest : Bytes
  pub splits : text ≡ first ∷ rest
  pub digit : (first == b'-') ≡ false

digits-Unsigned : (n v : ℕ) → Unsigned (digits n v)
unfolding digits
digits-Unsigned zero v = record {
  first = b'0' + v % 10;
  rest = [];
  splits = refl;
  digit = ground arith;
}
digits-Unsigned (suc n) v = elim (Bool-cases (ltb v 10)) [
  | inl e ↦ record { first = b'0' + v; rest = []; splits = ground arith; digit = ground arith }
  | inr e ↦
      let u = digits-Unsigned n (v / 10) in
      record {
        first = u.first;
        rest = u.rest ++ ((b'0' + v % 10) ∷ []);
        splits = rw (e, u.splits) refl;
        digit = u.digit;
      }
]

pub decimal-Unsigned : (v : ℕ) → Unsigned (decimal v)
unfolding decimal
decimal-Unsigned v = digits-Unsigned 19 v

-- A 64-bit number is read back from its decimal digits.
pub read_decimal-decimal : (v : ℕ) → v < 2 ^ 64 → read_decimal 0 (decimal v) ≡ v
unfolding decimal
read_decimal-decimal v h = read_decimal-digits 19 v (omega arith)

pub length-decimal : (v : ℕ) → length (decimal v) ≤ 20
unfolding decimal
length-decimal v = length-digits 19 v
