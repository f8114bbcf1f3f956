-- ===== src/Sast/Fold.antt =====
-- src/sast.c: the values that are computed while the program is compiled.
use volatile.Base.{
  Option, ℕ, zero, suc, ◌+◌, ◌-◌, ◌*◌, ◌/◌, ◌%◌, ◌^◌, ◌<◌, ◌≤◌, ◌≡◌, inl, inr, refl, sym,
  Bool-cases, ==_iff, ◌==◌, if◌then◌else◌, Result, ok, err, fault, ◌>>=◌, arith, enotrecoverable,
}
use native.Mathlib.Nat.{div-le_self, mod-lt, div-add-mod'}
use volatile.Asm.{Operand, OperandImmediate, immediate, int_scalar64, base10}
use volatile.Sast.{
  node, destination, address, indirection, load, lea, load_src3, external, function, SastKind,
  SastOperation, Operations, nil, cons, evaluates_to, add, sub, mul, div, test_equals,
  grouping_open, global, constant, local, ret, if_kind, while_kind, elif_kind, store, unset,
  invalid, eof,
}

-- `vltl_sast_tree_connect_add_two`
unfoldable pub add_two : ℕ → ℕ → Result ℕ
add_two a b = ok ((a + b) % 2 ^ 64)

-- `vltl_sast_tree_connect_sub_two`
unfoldable pub sub_two : ℕ → ℕ → Result ℕ
sub_two a b = ok ((a + (2 ^ 64 - b)) % 2 ^ 64)

-- `vltl_sast_tree_connect_mul_two`
unfoldable pub mul_two : ℕ → ℕ → Result ℕ
mul_two a b = ok (a * b % 2 ^ 64)

-- `vltl_sast_tree_connect_div_two`; a division by 0 has no meaning.
unfoldable pub div_two : ℕ → ℕ → Result ℕ
div_two a b = if b == 0 then fault else ok (a / b)

-- `vltl_sast_tree_connect_test_equals`
unfoldable pub test_two : ℕ → ℕ → Result ℕ
test_two a b = ok (if a == b then 1 else 0)

abbrev pub number : ℕ → Operand
number v = immediate (record { integral_type = int_scalar64; representation = base10; value = v })

-- `vltl_sast_tree_connect_evaluate_two`: what the parent evaluates to after.
unfoldable pub evaluate_two : Operand → Operand → Operand → (ℕ → ℕ → Result ℕ) → Result Operand
evaluate_two parent (immediate i) (immediate j) math_function =
    math_function i.value j.value >>= λ v. ok (number v)
evaluate_two parent one two math_function = ok parent

-- `evaluates_to` of the argument at a place; there is none behind NULL.
unfoldable pub value_at : Operations → ℕ → Result Operand
unfolding evaluates_to
value_at nil i = fault
value_at (cons x xs) zero = ok (evaluates_to x)
value_at (cons x xs) (suc i) = value_at xs i

two_values : Operand → Operations → (ℕ → ℕ → Result ℕ) → Result Operand
unfolding value_at evaluate_two
two_values parent xs math_function =
    value_at xs 0 >>= λ one. value_at xs 1 >>= λ two. evaluate_two parent one two math_function

-- The switch of `vltl_sast_tree_connect_recurse` under "can parent evaluate to one of its arguments value?", for
-- an operation that has arguments: what it evaluates to after.
unfoldable pub evaluate : SastKind → Operand → Operations → Result Operand
unfolding two_values add_two sub_two mul_two div_two test_two value_at
evaluate k parent xs = elim k [
  | add ↦ two_values parent xs add_two
  | sub ↦ two_values parent xs sub_two
  | mul ↦ two_values parent xs mul_two
  | div ↦ two_values parent xs div_two
  | test_equals ↦ two_values parent xs test_two
  | grouping_open ↦ value_at xs 0
  | global ↦ value_at xs 0
  | constant ↦ value_at xs 0
  | local ↦ value_at xs 0
  | ret ↦ value_at xs 0
  | if_kind ↦ value_at xs 0
  | while_kind ↦ value_at xs 0
  | elif_kind ↦ value_at xs 1
  | store ↦ value_at xs 1
  | unset ↦ err enotrecoverable
  | invalid ↦ err enotrecoverable
  | eof ↦ err enotrecoverable
  | _ ↦ ok parent
]

-- `destination` of the argument at a place.
unfoldable pub destination_at : Operations → ℕ → Result Operand
unfolding destination
destination_at nil i = fault
destination_at (cons x xs) zero = ok (destination x)
destination_at (cons x xs) (suc i) = destination_at xs i

-- The switch under "does parent get first argument destination?": `evaluates_to` and `destination` after.
unfoldable pub connect_destination :
    SastKind → Operand → Operand → Operations → Result (Operand × Operand)
unfolding destination_at value_at
connect_destination k e d xs =
    let first = destination_at xs 0 >>= λ v. ok (e, v) in
    let value = value_at xs 0 >>= λ v. ok (v, d) in
    elim k [
      | address ↦ first
      | indirection ↦ first
      | add ↦ first
      | sub ↦ first
      | mul ↦ first
      | div ↦ first
      | test_equals ↦ first
      | load ↦ first
      | lea ↦ first
      | load_src3 ↦ first
      | grouping_open ↦ first
      | global ↦ first
      | constant ↦ first
      | local ↦ first
      | ret ↦ first
      | if_kind ↦ first
      | while_kind ↦ first
      | elif_kind ↦ destination_at xs 1 >>= λ v. ok (e, v)
      | store ↦ value_at xs 0 >>= λ v. ok (e, v)
      | external ↦ value
      | function ↦ value
      | unset ↦ err enotrecoverable
      | invalid ↦ err enotrecoverable
      | eof ↦ err enotrecoverable
      | _ ↦ ok (e, d)
    ]

-- Both switches, for an operation that has arguments, which are connected.
unfoldable pub connect_values : SastOperation → Result SastOperation
unfolding connect_destination evaluate
connect_values (node k p xs bs cs e d) = connect_destination k e d xs >>= λ (e₁, d₁).
    evaluate k e₁ xs >>= λ e₂. ok (node k p xs bs cs e₂ d₁)

-- The arithmetic of 64-bit numbers, by what the exact numbers are: a sum with its carry, a difference with its
-- borrow, a product up to a multiple of 2 ^ 64, a quotient with its remainder, and a comparison.
pub data Computes (a b v : ℕ) : SastKind → Type 0 where
  sum : (carry : ℕ) → carry ≤ 1 → a + b ≡ v + 2 ^ 64 * carry → Computes a b v add
  difference : (borrow : ℕ) → borrow ≤ 1 → v + b ≡ a + 2 ^ 64 * borrow → Computes a b v sub
  product : (high : ℕ) → a * b ≡ v + 2 ^ 64 * high → Computes a b v mul
  quotient : (remainder : ℕ) → remainder < b → a ≡ v * b + remainder → Computes a b v div
  same : a ≡ b → v ≡ 1 → Computes a b v test_equals
  different : ¬ (a ≡ b) → v ≡ 0 → Computes a b v test_equals

-- Operations on two numbers.
pub data Arithmetic : Type 0 where
  plus minus times over equal : Arithmetic

abbrev pub sast_kind : Arithmetic → SastKind
sast_kind plus = add
sast_kind minus = sub
sast_kind times = mul
sast_kind over = div
sast_kind equal = test_equals

-- The operation of two arguments after it is connected: its value is computed, and its destination is that of the
-- first argument.
pub record Folds (k : SastKind) (x y : SastOperation) (a b : ℕ) : Type 0 where
  pub value : ℕ
  pub folded :
      (p : Option SastKind) (bs cs : Operations) (e d : Operand)
      → connect_values (node k p (cons x (cons y nil)) bs cs e d)
        ≡ ok (node k p (cons x (cons y nil)) bs cs (number value) (destination x))
  pub word : value < 2 ^ 64
  pub computes : Computes a b value k

-- For two arguments that evaluate to 64-bit numbers, an arithmetic operation, and a comparison, evaluates to a
-- 64-bit number while the program is compiled: the exact result, up to the carry, the borrow or the high part
-- that 64 bits leave out, and its destination becomes that of the first argument. Of a division the divisor
-- is not 0.
pub connect_values-Folds :
    (f : Arithmetic) (x y : SastOperation) (i j : OperandImmediate)
    → evaluates_to x ≡ immediate i
    → evaluates_to y ≡ immediate j
    → i.value < 2 ^ 64
    → j.value < 2 ^ 64
    → (f ≡ over → 0 < j.value)
    → Folds (sast_kind f) x y i.value j.value
unfolding connect_values evaluate
connect_values-Folds plus x y i j p q h k z = record {
  value = (i.value + j.value) % 2 ^ 64;
  folded = λ u bs cs v d. rw (p, q) refl;
  word = omega arith;
  computes = sum ((i.value + j.value) / 2 ^ 64) (omega arith) (omega arith);
}
connect_values-Folds minus x y i j p q h k z = record {
  value = (i.value + (2 ^ 64 - j.value)) % 2 ^ 64;
  folded = λ u bs cs v d. rw (p, q) refl;
  word = omega arith;
  computes = difference (1 - (i.value + (2 ^ 64 - j.value)) / 2 ^ 64) (omega arith) (omega arith);
}
connect_values-Folds times x y i j p q h k z = record {
  value = i.value * j.value % 2 ^ 64;
  folded = λ u bs cs v d. rw (p, q) refl;
  word = omega arith;
  computes = product (i.value * j.value / 2 ^ 64) (omega arith);
}
connect_values-Folds over x y i j p q h k z = elim (Bool-cases (j.value == 0)) [
  | inl e ↦ absurd (ground (arith, z refl))
  | inr e ↦ record {
    value = i.value / j.value;
    folded = λ u bs cs v d. rw (p, q) (rw e refl);
    word = omega (arith, h, div-le_self i.value j.value);
    computes =
        quotient (i.value % j.value) (mod-lt i.value (z refl)) (sym (div-add-mod' i.value j.value));
  }
]
connect_values-Folds equal x y i j p q h k z = elim (Bool-cases (i.value == j.value)) [
  | inl e ↦ record {
    value = 1;
    folded = λ u bs cs v d. rw (p, q) (rw e refl);
    word = omega arith;
    computes = same ((==_iff i.value j.value).0 e) refl;
  }
  | inr e ↦ record {
    value = 0;
    folded = λ u bs cs v d. rw (p, q) (rw e refl);
    word = omega arith;
    computes = different (λ s. ground arith) refl;
  }
]
