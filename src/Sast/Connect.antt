-- ===== src/Sast/Connect.antt =====
-- src/sast.c: the choice of a register for an operand that is to be determined.
pub mod Inuse
pub mod Recurse
pub mod Distinct
pub mod Gives
pub mod Keeps
pub mod Own
pub mod Temporaries
use volatile.Base.{
  ◌≡◌, refl, Bool, true, false, List, [], ◌∷◌, ◌++◌, All, if◌then◌else◌, Result, ok, err, ◌>>=◌,
  einval, enotrecoverable, Bool-cases, inl, inr, ◌⊎◌, ap,
}
use volatile.Asm.{
  Operand, AsmRegister, register, amd64, register_declared, rax, rbx, rcx, rdx, rdi, rsi, r8, r9,
  r10, r11, r12, r13, r14, r15,
}
use volatile.Sast.{SastOperation, node, kind, eval, evaluates_to, destination}

-- `use_these_registers_amd64`
abbrev pub preferred_registers : List AsmRegister
preferred_registers =
    r11 ∷ r10 ∷ r9 ∷ r8 ∷ rcx ∷ rdx ∷ rsi ∷ rdi ∷ rax ∷ r15 ∷ r14 ∷ r13 ∷ r12 ∷ rbx ∷ []

-- The operand of a register: the switch of `vltl_sast_tree_connect_resolve_tbd`.
unfoldable pub operand_of : AsmRegister → Result Operand
unfolding register_declared
operand_of r =
    if register_declared r
    then ok (register (record { isa = amd64; value_amd64 = r }))
    else err einval

-- The loop of `vltl_sast_tree_connect_resolve_tbd`.
unfoldable pub first_free : (AsmRegister → Bool) → List AsmRegister → Result Operand
unfolding operand_of
first_free inuse [] = err enotrecoverable
first_free inuse (r ∷ rs) = let rest = first_free inuse rs in if inuse r then rest else operand_of r

-- How an operation stands below its parent.
pub data Place : Type 0 where
  no_parent is_lchild other_child : Place

-- `vltl_sast_tree_connect_resolve_tbd`, of whether a function is open, the place of the operation, and the
-- registers in use above it.
unfoldable pub resolve_tbd :
    Bool → Place → (AsmRegister → Bool) → List AsmRegister → SastOperation → Result SastOperation
unfolding first_free kind
resolve_tbd false place inuse preferred o = ok o
resolve_tbd true place inuse preferred (node eval p xs bs cs e d) = elim place [
  | is_lchild ↦
      first_free inuse preferred >>= λ use_this. ok (node eval p xs bs cs use_this use_this)
  | _ ↦ err enotrecoverable
]
resolve_tbd true place inuse preferred o = ok o

abbrev pub register_operand : AsmRegister → Operand
register_operand r = register (record { isa = amd64; value_amd64 = r })

-- The first register of a list that is not in use.
pub record FirstFree (inuse : AsmRegister → Bool) (preferred : List AsmRegister) : Type 0 where
  pub taken : List AsmRegister
  pub chosen : AsmRegister
  pub later : List AsmRegister
  pub split : preferred ≡ taken ++ (chosen ∷ later)
  pub all_taken : All (λ r. inuse r ≡ true) taken
  pub free : inuse chosen ≡ false

first_free-cases :
    (inuse : AsmRegister → Bool) (rs : List AsmRegister)
    → All (λ r. register_declared r ≡ true) rs
    → ((f : FirstFree inuse rs) × (first_free inuse rs ≡ ok (register_operand f.chosen)))
      ⊎ (All (λ r. inuse r ≡ true) rs × (first_free inuse rs ≡ err enotrecoverable))
unfolding first_free operand_of
first_free-cases inuse [] d = inr (tt, refl)
first_free-cases inuse (r ∷ rs) d = elim (Bool-cases (inuse r)) [
  | inr e ↦ inl (
    record { taken = []; chosen = r; later = rs; split = refl; all_taken = tt; free = e },
    rw e (rw (d.0) refl),
  )
  | inl e ↦ elim (first_free-cases inuse rs d.1) [
    | inl (f, p) ↦ inl (
      record {
        taken = r ∷ f.taken;
        chosen = f.chosen;
        later = f.later;
        split = ap (λ l. r ∷ l) f.split;
        all_taken = (e, f.all_taken);
        free = f.free;
      },
      rw e p,
    )
    | inr (a, p) ↦ inr ((e, a), rw e p)
  ]
]

-- In a function, an operand that is the first argument of its parent becomes the first of the preferred registers
-- that is not in use above it, as its value and its destination, where the preferred registers are ones
-- that exist; when all of them are in use, it is an error.
pub resolve_tbd-FirstFree :
    (inuse : AsmRegister → Bool) (preferred : List AsmRegister) (o : SastOperation)
    → All (λ r. register_declared r ≡ true) preferred
    → kind o ≡ eval
    → ((f : FirstFree inuse preferred) × (resolved : SastOperation) × (resolve_tbd true is_lchild
            inuse preferred o
          ≡ ok resolved)
        × (evaluates_to resolved ≡ register_operand f.chosen)
        × (destination resolved ≡ register_operand f.chosen))
      ⊎ (All (λ r. inuse r ≡ true) preferred
          × (resolve_tbd true is_lchild inuse preferred o ≡ err enotrecoverable))
unfolding resolve_tbd evaluates_to destination
resolve_tbd-FirstFree inuse preferred (node eval p xs bs cs e d) h k =
    elim (first_free-cases inuse preferred h) [
      | inl (f, q) ↦ inl (
        f,
        node eval p xs bs cs (register_operand f.chosen) (register_operand f.chosen),
        rw q refl,
        refl,
        refl,
      )
      | inr (a, q) ↦ inr (a, rw q refl)
    ]
resolve_tbd-FirstFree inuse preferred (node k p xs bs cs e d) h q = cc
