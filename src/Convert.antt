-- ===== src/Convert.antt =====
-- header/convert.h and src/convert.c: the registers of the register file as operands of the assembly, and back.
-- Both outer functions switch on `vltl_global_config.isa`, which is an argument here.
pub mod Inverse
use volatile.Base.{
  ℕ, Bool, true, false, Option, none, some, List, [], ◌∷◌, ◌==◌, if◌then◌else◌, Code, einval,
  Result, ok, err, fault,
}
use volatile.Registers.{Ptr, null, GlobalRegister}
use volatile.Registers
use volatile.Asm.{
  Isa, amd64, AsmRegister, OperandRegister, Operand, register, rax, rbx, rcx, rdx, rsi, rdi, rbp,
  rsp, r8, r9, r10, r11, r12, r13, r14, r15,
}

-- The value at a number.
unfoldable pub assoc {ℓ} : {A : Type ℓ} → ℕ → List (ℕ × A) → Option A
assoc k [] = none
assoc k ((j, v) ∷ m) = if j == k then some v else assoc k m

-- The cases of `vltl_convert_amd64_global_register_to_asm_operand`. The number of an enumerator of
-- `Vltl_global_register_amd64` is that of its object.
unfoldable pub asm_registers : List (ℕ × AsmRegister)
asm_registers =
    (Registers.rax, rax)
    ∷ (Registers.rbx, rbx)
    ∷ (Registers.rcx, rcx)
    ∷ (Registers.rdx, rdx)
    ∷ (Registers.rdi, rdi)
    ∷ (Registers.rsi, rsi)
    ∷ (Registers.rbp, rbp)
    ∷ (Registers.rsp, rsp)
    ∷ (Registers.r8, r8)
    ∷ (Registers.r9, r9)
    ∷ (Registers.r10, r10)
    ∷ (Registers.r11, r11)
    ∷ (Registers.r12, r12)
    ∷ (Registers.r13, r13)
    ∷ (Registers.r14, r14)
    ∷ (Registers.r15, r15)
    ∷ []

-- `vltl_convert_amd64_global_register_to_asm_operand`
unfoldable pub amd64_register_to_operand : GlobalRegister → Result Operand
unfolding assoc asm_registers
amd64_register_to_operand src = elim (assoc src.as_amd64 asm_registers) [
  | none ↦ err einval
  | some v ↦ ok (register (record { isa = amd64; value_amd64 = v }))
]

-- The cases of `vltl_convert_amd64_asm_operand_to_global_register`.
unfoldable pub register_object : AsmRegister → Option Ptr
register_object rax = some Registers.rax
register_object rbx = some Registers.rbx
register_object rcx = some Registers.rcx
register_object rdx = some Registers.rdx
register_object rdi = some Registers.rdi
register_object rsi = some Registers.rsi
register_object rbp = some Registers.rbp
register_object rsp = some Registers.rsp
register_object r8 = some Registers.r8
register_object r9 = some Registers.r9
register_object r10 = some Registers.r10
register_object r11 = some Registers.r11
register_object r12 = some Registers.r12
register_object r13 = some Registers.r13
register_object r14 = some Registers.r14
register_object r15 = some Registers.r15
register_object _ = none

-- `vltl_convert_amd64_asm_operand_to_global_register`, which does not test the kind: on an operand of
-- another kind it reads the bytes of another member, which is `fault`.
unfoldable pub amd64_operand_to_register : Operand → Result Ptr
unfolding register_object
amd64_operand_to_register (register r) = elim (register_object r.value_amd64) [
  | none ↦ err einval
  | some p ↦ ok p
]
amd64_operand_to_register _ = fault

-- `vltl_convert_global_register_to_asm_operand`, from the object at an address.
unfoldable pub register_to_operand : Isa → (Ptr → GlobalRegister) → Ptr → Result Operand
unfolding amd64_register_to_operand
register_to_operand isa objects p =
    if p == null
    then err einval
    else elim isa [ amd64 ↦ amd64_register_to_operand (objects p) | _ ↦ err einval ]

-- `vltl_convert_asm_operand_to_global_register`
unfoldable pub operand_to_register : Isa → Operand → Result Ptr
unfolding amd64_operand_to_register
operand_to_register amd64 operand = amd64_operand_to_register operand
operand_to_register _ operand = err einval
