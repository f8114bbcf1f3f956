-- ===== src/Sast/Connect/Inuse.antt =====
-- src/sast.c: the registers that are in use.
use volatile.Base.{
  ℕ, ◌≡◌, refl, sym, ap, ◌∙◌, Bool, true, false, List, [], ◌∷◌, ◌==◌, ==_iff, get_or, if◌then◌else◌,
}
use volatile.Asm.{
  AsmRegister, unset, invalid, eof, rax, rbx, rcx, rdx, rdi, rsi, rbp, rsp, r8, r9, r10, r11, r12,
  r13, r14, r15, Operand, register,
}

-- The number of an enumerator of `Vltl_asm_register_amd64`.
unfoldable pub register_number : AsmRegister → ℕ
register_number unset = 0
register_number invalid = 1
register_number rax = 2
register_number rbx = 3
register_number rcx = 4
register_number rdx = 5
register_number rsi = 6
register_number rdi = 7
register_number rbp = 8
register_number rsp = 9
register_number r8 = 10
register_number r9 = 11
register_number r10 = 12
register_number r11 = 13
register_number r12 = 14
register_number r13 = 15
register_number r14 = 16
register_number r15 = 17
register_number eof = 18

-- The registers from the one after `VLTL_ASM_REGISTER_AMD64_INVALID` to the one before `VLTL_ASM_REGISTER_AMD64_EOF`.
abbrev pub all_registers : List AsmRegister
all_registers =
    rax ∷ rbx ∷ rcx ∷ rdx ∷ rsi ∷ rdi ∷ rbp ∷ rsp ∷ r8 ∷ r9 ∷ r10 ∷ r11 ∷ r12 ∷ r13 ∷ r14 ∷ r15 ∷ []

-- An array of Booleans, by register.
abbrev pub Inuse : Type 0
Inuse = AsmRegister → Bool

unfoldable pub same_register : AsmRegister → AsmRegister → Bool
unfolding register_number
same_register r s = register_number r == register_number s

-- A write to the array.
unfoldable pub mark : AsmRegister → Bool → Inuse → Inuse
unfolding same_register
mark r b inuse s = if same_register s r then b else inuse s

-- The register of an operand; the bytes of another operand there are zero.
unfoldable pub register_of : Operand → AsmRegister
register_of (register r) = r.value_amd64
register_of _ = unset

unfoldable pub is_register : Operand → Bool
is_register (register r) = true
is_register _ = false

register_table : List AsmRegister
register_table =
    unset ∷ invalid ∷ rax ∷ rbx ∷ rcx ∷ rdx ∷ rsi ∷ rdi ∷ rbp ∷ rsp ∷ r8 ∷ r9 ∷ r10 ∷ r11 ∷ r12
    ∷ r13 ∷ r14 ∷ r15 ∷ eof ∷ []

get_or-register_number : (r : AsmRegister) → get_or register_table (register_number r) unset ≡ r
unfolding register_number register_table
get_or-register_number unset = refl
get_or-register_number _ = refl

pub same_register_iff : (r s : AsmRegister) → same_register r s ≡ true → r ≡ s
unfolding same_register
same_register_iff r s e =
    sym (get_or-register_number r)
    ∙ ap (λ n. get_or register_table n unset) ((==_iff _ _).0 e)
    ∙ get_or-register_number s
