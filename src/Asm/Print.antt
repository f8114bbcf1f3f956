-- ===== src/Asm/Print.antt =====
-- What is written for a valid operand determines it.
use volatile.Base.{
  ℕ, ◌-◌, ◌^◌, ◌<◌, ◌≡◌, refl, ◌∙◌, true, some, List, [], ◌∷◌, Bytes, codes, bytes_eq, lookup, ltb,
  ◌==◌, if◌then◌else◌, ok, length, arith, Bool-cases, inl, inr,
}
use volatile.Asm.{
  AsmRegister, OperandRegister, OperandImmediate, register, immediate, Printing, register_valid,
  immediate_valid, register_name, register_declared, register_detokenize, signed_decimal,
  immediate_detokenize, operand_detokenize, operand_stringify, unset, invalid, eof, rax, rbx, rcx,
  rdx, rsi, rdi, rbp, rsp, r8, r9, r10, r11, r12, r13, r14, r15,
}
use volatile.Asm.Decimal.{
  decimal, read_decimal, read_decimal-decimal, length-decimal, Unsigned, decimal-Unsigned,
}

-- The macro around `snprintf` succeeds with a text that fits.
abbrev pub Fits : Printing → Type 0
Fits env = (n : ℕ) (text : Bytes) → length text < n → env.snprintf n text ≡ ok text

-- The registers by the text of an operand.
abbrev pub register_texts : List (Bytes × AsmRegister)
register_texts =
    (codes "%rax", rax)
    ∷ (codes "%rbx", rbx)
    ∷ (codes "%rcx", rcx)
    ∷ (codes "%rdx", rdx)
    ∷ (codes "%rsi", rsi)
    ∷ (codes "%rdi", rdi)
    ∷ (codes "%rbp", rbp)
    ∷ (codes "%rsp", rsp)
    ∷ (codes "%r8", r8)
    ∷ (codes "%r9", r9)
    ∷ (codes "%r10", r10)
    ∷ (codes "%r11", r11)
    ∷ (codes "%r12", r12)
    ∷ (codes "%r13", r13)
    ∷ (codes "%r14", r14)
    ∷ (codes "%r15", r15)
    ∷ []

-- A text and the register that it names.
pub record Names (env : Printing) (r : OperandRegister) : Type 0 where
  pub text : Bytes
  pub written : operand_stringify env (register r) ≡ ok text
  pub read : lookup text register_texts ≡ some r.value_amd64

register_name-read :
    (v : AsmRegister)
    → register_declared v ≡ true
    → (lookup (b'%' ∷ register_name v) register_texts ≡ some v) × (length (register_name v) < 98)
unfolding register_declared lookup bytes_eq register_name
register_name-read unset h = cc
register_name-read invalid h = cc
register_name-read eof h = cc
register_name-read _ h = (refl, omega arith)

-- Where the macro around `snprintf` succeeds with texts that fit, every valid register operand is written
-- successfully, and the text names its register and no other.
pub register_stringify-Names :
    (env : Printing) (r : OperandRegister) → Fits env → register_valid r ≡ true → Names env r
unfolding register_valid operand_stringify operand_detokenize register_detokenize
register_stringify-Names env r fits h =
    let (k, l) = register_name-read r.value_amd64 (ground arith) in
    record {
      text = b'%' ∷ register_name r.value_amd64;
      written = ground (arith, fits 99 (b'%' ∷ register_name r.value_amd64));
      read = k;
    }

-- The 64-bit pattern that a text denotes, after a minus sign as a negative number.
unfoldable pub read_signed : Bytes → ℕ
read_signed [] = 0
read_signed (c ∷ cs) = if c == b'-' then 2 ^ 64 - read_decimal 0 cs else read_decimal 0 (c ∷ cs)

read_signed-Unsigned : (text : Bytes) → Unsigned text → read_signed text ≡ read_decimal 0 text
unfolding read_signed
read_signed-Unsigned text u = rw (u.splits, u.digit) refl

read_signed-signed_decimal : (v : ℕ) → v < 2 ^ 64 → read_signed (signed_decimal v) ≡ v
unfolding signed_decimal read_signed
read_signed-signed_decimal v h = elim (Bool-cases (ltb v (2 ^ 63))) [
  | inl e ↦ rw e (read_signed-Unsigned (decimal v) (decimal-Unsigned v) ∙ read_decimal-decimal v h)
  | inr e ↦ let r = read_decimal-decimal (2 ^ 64 - v) (ground arith) in rw e (omega (arith, r))
]

length-signed_decimal : (v : ℕ) → length (signed_decimal v) < 99
unfolding signed_decimal
length-signed_decimal v = ground (arith, length-decimal v, length-decimal (2 ^ 64 - v))

-- A text and the 64-bit pattern that it denotes.
pub record Denotes (env : Printing) (i : OperandImmediate) : Type 0 where
  pub text : Bytes
  pub written : operand_stringify env (immediate i) ≡ ok text
  pub read : read_signed text ≡ i.value

-- Where the macro around `snprintf` succeeds with texts that fit, every valid immediate operand of a 64-bit
-- value is written successfully, in whatever base its representation is, and the value is read back
-- from the text as a signed decimal number.
pub immediate_stringify-Denotes :
    (env : Printing) (i : OperandImmediate)
    → Fits env
    → immediate_valid i ≡ true
    → i.value < 2 ^ 64
    → Denotes env i
unfolding immediate_valid operand_stringify operand_detokenize immediate_detokenize
immediate_stringify-Denotes env i fits h l = record {
  text = signed_decimal i.value;
  written = ground (arith, fits 99 (signed_decimal i.value), length-signed_decimal i.value);
  read = read_signed-signed_decimal i.value l;
}
