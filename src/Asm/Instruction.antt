-- ===== src/Asm/Instruction.antt =====
-- header/asm/instruction.h and src/asm/instruction.c.
use volatile.Base.{
  ◌≡◌, ◌≢◌, ◌↔◌, refl, Bool, true, false, Option, none, some, Bytes, codes, einval, Result, ok, err,
  fault, arith, ◌⊎◌, inl, inr,
}

-- `Vltl_asm_instruction_amd64`
pub data InstructionAmd64 : Type 0 where
  unset invalid call inc dec nop mov lea add sub imul idiv ret : InstructionAmd64

-- `Vltl_asm_instruction`, with its kind.
pub data Instruction : Type 0 where
  unset invalid : Instruction
  amd64 : InstructionAmd64 → Instruction

-- `vltl_asm_instruction_amd64_valid`
unfoldable pub amd64_valid : InstructionAmd64 → Bool
amd64_valid call = true
amd64_valid nop = true
amd64_valid mov = true
amd64_valid inc = true
amd64_valid dec = true
amd64_valid add = true
amd64_valid sub = true
amd64_valid imul = true
amd64_valid idiv = true
amd64_valid ret = true
amd64_valid _ = false

-- `vltl_asm_instruction_amd64_detokenize`; `none` is NULL.
unfoldable pub amd64_detokenize : InstructionAmd64 → Option Bytes
amd64_detokenize call = some (codes "call")
amd64_detokenize nop = some (codes "nop")
amd64_detokenize mov = some (codes "mov")
amd64_detokenize lea = some (codes "lea")
amd64_detokenize inc = some (codes "inc")
amd64_detokenize dec = some (codes "dec")
amd64_detokenize add = some (codes "add")
amd64_detokenize sub = some (codes "sub")
amd64_detokenize imul = some (codes "imul")
amd64_detokenize idiv = some (codes "xor %rdx, %rdx\n\tidiv")
amd64_detokenize ret = some (
    codes
      "mov %rsp, %rbp\n\tpop %r15\n\tpop %r14\n\tpop %r13\n\tpop %r12\n\tpop %rbx\n\tpop %rbp\n\tret")
amd64_detokenize _ = none

-- `vltl_asm_instruction_valid`
unfoldable pub instruction_valid : Instruction → Bool
unfolding amd64_valid
instruction_valid (amd64 i) = amd64_valid i
instruction_valid _ = false

-- `vltl_asm_instruction_detokenize`
unfoldable pub instruction_detokenize : Instruction → Option Bytes
unfolding amd64_detokenize
instruction_detokenize (amd64 i) = amd64_detokenize i
instruction_detokenize _ = none

-- `vltl_asm_instruction_stringify`: what it writes; `fputs` has no meaning for NULL.
unfoldable pub instruction_stringify : Instruction → Result Bytes
unfolding amd64_detokenize
instruction_stringify (amd64 i) = elim (amd64_detokenize i) [ none ↦ fault | some s ↦ ok s ]
instruction_stringify _ = err einval

-- The instructions that can be written are the valid ones and `lea`, which the validity test leaves
-- out.
pub instruction_detokenize-valid :
    (i : Instruction)
    → (instruction_detokenize i ≢ none) ↔ ((instruction_valid i ≡ true) ⊎ (i ≡ amd64 lea))
unfolding instruction_detokenize amd64_detokenize instruction_valid amd64_valid
instruction_detokenize-valid unset = (λ h. absurd (h refl), λ h. ground arith)
instruction_detokenize-valid invalid = (λ h. absurd (h refl), λ h. ground arith)
instruction_detokenize-valid (amd64 unset) = (λ h. absurd (h refl), λ h. ground arith)
instruction_detokenize-valid (amd64 invalid) = (λ h. absurd (h refl), λ h. ground arith)
instruction_detokenize-valid (amd64 lea) = (λ h. inr refl, λ h e. cc)
instruction_detokenize-valid (amd64 _) = (λ h. inl refl, λ h e. cc)
