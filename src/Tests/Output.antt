-- ===== src/Tests/Output.antt =====
-- Locals, operands and instructions.
use volatile.Base.{
  ℕ, ◌≡◌, ◌≢◌, ◌⊎◌, ◌↔◌, refl, true, none, some, List, [], ◌∷◌, Bytes, codes, lookup, bytes_eq,
  arith, exfull, ok, err, if◌then◌else◌, ltb, length, take, bytes_eq_refl, bytes_eq→eq, Bool-cases,
  inl, inr,
}
use volatile.Registers.{Ptr, GlobalRegister, unused, rsi}
use volatile.Lang.{long}
use volatile.Lexer.Tokenize.{Found, found, missing}
use volatile.Scope.{Nkht, Scope, local_get, local_set}
use volatile.Scope.Locals.{IsTable, Innermost, local_get-Innermost}
use volatile.Scope.Frame.{IsFramed, Sets, local_set-Sets}
use volatile.Asm.{Printing, OperandRegister, OperandImmediate, amd64, r12, base10, int_scalar64}
use volatile.Asm
use volatile.Asm.Decimal.{read_decimal, decimal, read_decimal-decimal}
use volatile.Asm.Print.{Fits, Names, Denotes, register_stringify-Names, immediate_stringify-Denotes}
use volatile.Asm.Instruction.{
  instruction_detokenize, instruction_valid, mov, lea, instruction_detokenize-valid,
}
use volatile.Asm.Instruction
use volatile.Convert.Inverse.{
  IsNumbered, Pairs, Returns, register_to_operand-Pairs, operand_to_register-Returns,
}

-- The macro around `snprintf`, which fails on a text that does not fit.
abbrev printing : Printing
printing = record {
  snprintf = λ n text. if ltb (length text) n then ok text else err exfull;
  strncpy = λ s n. ok (take n s);
  frame_offset = λ s. ok 8;
  pic_enabled = true;
}

printing-Fits : Fits printing
printing-Fits n text l = ground arith

abbrev r12_operand : OperandRegister
r12_operand = record { isa = amd64; value_amd64 = r12 }

register_stringify-Names_example : Names printing r12_operand
unfolding Asm.register_valid
register_stringify-Names_example = register_stringify-Names printing r12_operand printing-Fits refl

-- The 64-bit pattern of -5.
abbrev minus_five : OperandImmediate
minus_five = record {
  integral_type = int_scalar64;
  representation = base10;
  value = 18446744073709551611;
}

immediate_stringify-Denotes_example : Denotes printing minus_five
unfolding Asm.immediate_valid
immediate_stringify-Denotes_example =
    immediate_stringify-Denotes printing minus_five printing-Fits refl (omega arith)

read_decimal-decimal_example : read_decimal 0 (decimal 1234) ≡ 1234
read_decimal-decimal_example = read_decimal-decimal 1234 (omega arith)

instruction_detokenize-valid_example : (instruction_detokenize (Instruction.amd64 lea) ≢ none) ↔ (
    (instruction_valid (Instruction.amd64 lea) ≡ true)
    ⊎ (Instruction.amd64 lea ≡ Instruction.amd64 lea))
instruction_detokenize-valid_example = instruction_detokenize-valid (Instruction.amd64 lea)

abbrev objects : Ptr → GlobalRegister
objects p = record { status_current = unused; status_default = unused; as_amd64 = p }

objects-IsNumbered : IsNumbered objects
objects-IsNumbered p h = refl

register_to_operand-Pairs_example : Pairs objects rsi
register_to_operand-Pairs_example = register_to_operand-Pairs objects rsi objects-IsNumbered refl

operand_to_register-Returns_example : Returns objects r12_operand
unfolding Asm.register_valid
operand_to_register-Returns_example =
    operand_to_register-Returns objects r12_operand objects-IsNumbered refl

-- A table as the list of its entries, the newest first.
table_get : List (Bytes × ℕ) → Bytes → Found ℕ
unfolding lookup bytes_eq
table_get m k = elim (lookup k m) [ none ↦ missing | some v ↦ found v ]

abbrev nkht : Nkht (List (Bytes × ℕ)) Unit
nkht = record { get = table_get; put = λ t k p. ok ((k, p) ∷ t); alloc = λ a. some tt }

ok-injective : {A : Type 0} {a b : A} → ok a ≡ ok b → a ≡ b
ok-injective e = cc

get_new : (t : List (Bytes × ℕ)) (k : Bytes) (p : ℕ) → table_get ((k, p) ∷ t) k ≡ found p
unfolding table_get lookup
get_new t k p = ground (arith, bytes_eq_refl k)

get_old :
    (t : List (Bytes × ℕ)) (k j : Bytes) (p : ℕ) → k ≢ j → table_get ((k, p) ∷ t) j ≡ table_get t j
unfolding table_get lookup
get_old t k j p n = elim (Bool-cases (bytes_eq k j)) [
  | inl e ↦ absurd (n (bytes_eq→eq k j e))
  | inr e ↦ ground arith
]

nkht-IsTable : IsTable nkht
nkht-IsTable = record {
  get-put = λ t t' k p e. rw (← ok-injective e) (get_new t k p);
  get-put-other = λ t t' k j p e n. rw (← ok-injective e) (get_old t k j p n);
}

-- The body of a function without locals, inside of which an empty body is open.
abbrev scope : Scope (List (Bytes × ℕ)) Unit
scope = record {
  bodies = [] ∷ [] ∷ [];
  locals = [];
  arena = tt;
  stack_frame_size = 0;
  stack_frame_cap = 0;
}

scope-IsFramed : IsFramed scope
scope-IsFramed = record { stacked = tt; size = refl; cap = refl }

abbrev scope_with_x : Scope (List (Bytes × ℕ)) Unit
scope_with_x = record {
  bodies = ((codes "x", 0) ∷ []) ∷ [] ∷ [];
  locals = record { name = codes "x"; type = long; frame_offset = 8 } ∷ [];
  arena = tt;
  stack_frame_size = 8;
  stack_frame_cap = 8;
}

scope_set : local_set nkht scope (codes "x") long ≡ ok scope_with_x
unfolding local_set table_get
scope_set = refl

local_set-Sets_example : Sets nkht scope (codes "x") long scope_with_x
local_set-Sets_example =
    local_set-Sets nkht nkht-IsTable scope scope_with_x (codes "x") long scope-IsFramed
      (omega arith) scope_set

local_get-Innermost_example :
    (local_get nkht scope_with_x.bodies (codes "x") ≡ found 0)
    ↔ Innermost nkht scope_with_x.bodies (codes "x") 0
local_get-Innermost_example = local_get-Innermost nkht scope_with_x.bodies (codes "x") 0
