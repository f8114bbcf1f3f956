-- ===== src/Convert/Inverse.antt =====
-- The two conversions are inverse to each other.
use volatile.Base.{
  ℕ, ◌≡◌, refl, ◌∙◌, sym, ap, true, false, some, List, [], ◌∷◌, ◌==◌, ok, contains, arith,
  Bool-cases, Option-cases, inl, inr, ==_iff,
}
use volatile.Registers.{Ptr, null, GlobalRegister, amd64_order}
use volatile.Asm.{
  amd64, AsmRegister, OperandRegister, register, register_declared, register_valid, unset, invalid,
  eof,
}
use volatile.Convert.{
  assoc, asm_registers, amd64_register_to_operand, register_object, amd64_operand_to_register,
  register_to_operand, operand_to_register,
}

-- Every object of the program has the enumerator of its own number.
abbrev pub IsNumbered : (Ptr → GlobalRegister) → Type 0
IsNumbered objects = (p : Ptr) → contains amd64_order p ≡ true → (objects p).as_amd64 ≡ p

-- The operand of a register, and the way back.
pub record Pairs (objects : Ptr → GlobalRegister) (p : Ptr) : Type 0 where
  pub operand : OperandRegister
  pub to : register_to_operand amd64 objects p ≡ ok (register operand)
  pub valid : register_valid operand ≡ true
  pub from : operand_to_register amd64 (register operand) ≡ ok p

AllFound : List (ℕ × AsmRegister) → Type 0
AllFound [] = Unit
AllFound ((p, v) ∷ m) = (register_object v ≡ some p) × (register_declared v ≡ true) × AllFound m

assoc-found :
    (m : List (ℕ × AsmRegister)) (p : ℕ) (v : AsmRegister)
    → AllFound m
    → assoc p m ≡ some v
    → (register_object v ≡ some p) × (register_declared v ≡ true)
unfolding AllFound assoc
assoc-found [] p v a e = cc
assoc-found ((j, w) ∷ m) p v (f, d, a) e = elim (Bool-cases (j == p)) [
  | inl h ↦ ground (arith, ==_iff j p)
  | inr h ↦ assoc-found m p v a (ground arith)
]

all_found : AllFound asm_registers
unfolding AllFound asm_registers register_object register_declared
all_found = (
  refl,
  refl,
  (
    refl,
    refl,
    (
      refl,
      refl,
      (
        refl,
        refl,
        (
          refl,
          refl,
          (
            refl,
            refl,
            (
              refl,
              refl,
              (
                refl,
                refl,
                (
                  refl,
                  refl,
                  (
                    refl,
                    refl,
                    (
                      refl,
                      refl,
                      (refl, refl, (refl, refl, (refl, refl, (refl, refl, (refl, refl, tt))))),
                    ),
                  ),
                ),
              ),
            ),
          ),
        ),
      ),
    ),
  ),
)

assoc-declared :
    (p : ℕ) → contains amd64_order p ≡ true → (v : AsmRegister) × (assoc p asm_registers ≡ some v)
unfolding assoc asm_registers
assoc-declared p h = elim (Option-cases (assoc p asm_registers)) [
  | inl e ↦ absurd (ground arith)
  | inr x ↦ x
]

declared-nonnull : (p : Ptr) → contains amd64_order p ≡ true → (p == null) ≡ false
declared-nonnull p h = ground arith

operand_at :
    (objects : Ptr → GlobalRegister) (p : Ptr) (v : AsmRegister)
    → (objects p).as_amd64 ≡ p
    → (p == null) ≡ false
    → assoc p asm_registers ≡ some v
    → register_to_operand amd64 objects p ≡ ok (register (record { isa = amd64; value_amd64 = v }))
unfolding register_to_operand amd64_register_to_operand
operand_at objects p v k z e = rw (z, amd64_register_to_operand, k, e) refl

isa-amd64 :
    (r : OperandRegister)
    → register_valid r ≡ true
    → r ≡ record { isa = amd64; value_amd64 = r.value_amd64 }
unfolding register_valid
isa-amd64 r h = ground arith

-- Where each register object of the program has its own number, every one of them has an operand, which is
-- valid and leads back to that object.
pub register_to_operand-Pairs :
    (objects : Ptr → GlobalRegister) (p : Ptr)
    → IsNumbered objects
    → contains amd64_order p ≡ true
    → Pairs objects p
unfolding register_to_operand amd64_register_to_operand operand_to_register
    amd64_operand_to_register register_valid
register_to_operand-Pairs objects p n h =
    let (v, e) = assoc-declared p h in
    let (f, d) = assoc-found asm_registers p v all_found e in
    record {
      operand = record { isa = amd64; value_amd64 = v };
      to = operand_at objects p v (n p h) (declared-nonnull p h) e;
      valid = d;
      from = ground arith;
    }

register_object-assoc :
    (v : AsmRegister)
    → register_declared v ≡ true
    → (p : Ptr) × (register_object v ≡ some p)
      × (contains amd64_order p ≡ true)
      × (assoc p asm_registers ≡ some v)
unfolding register_declared register_object assoc asm_registers
register_object-assoc unset h = cc
register_object-assoc invalid h = cc
register_object-assoc eof h = cc
register_object-assoc _ h = (_, refl, refl, refl)

-- A register object, and the way back to the operand.
pub record Returns (objects : Ptr → GlobalRegister) (operand : OperandRegister) : Type 0 where
  pub object : Ptr
  pub from : operand_to_register amd64 (register operand) ≡ ok object
  pub declared : contains amd64_order object ≡ true
  pub to : register_to_operand amd64 objects object ≡ ok (register operand)

-- Where each register object of the program has its own number, every valid register operand leads to one of
-- these objects, and from there back to the operand.
pub operand_to_register-Returns :
    (objects : Ptr → GlobalRegister) (operand : OperandRegister)
    → IsNumbered objects
    → register_valid operand ≡ true
    → Returns objects operand
unfolding register_to_operand amd64_register_to_operand operand_to_register
    amd64_operand_to_register register_valid
operand_to_register-Returns objects operand n h =
    let (p, e, c, a) = register_object-assoc operand.value_amd64 (ground arith) in
    record {
      object = p;
      from = ground arith;
      declared = c;
      to =
          operand_at objects p operand.value_amd64 (n p c) (declared-nonnull p c) a
          ∙ ap (λ r. ok (register r)) (sym (isa-amd64 operand h));
    }
