-- ===== src/Compile/Plain.antt =====
-- src/compile.c: the operations that neither open nor close a body.
use volatile.Base.{
  ℕ, ◌≡◌, ◌≢◌, refl, Bool, true, false, List, [], ◌∷◌, All, if◌then◌else◌, Result, ok, err, fault,
  Code, ◌>>=◌, Bytes, arith, Option, none, some, Bool-cases, ◌++◌, codes, inl, inr,
}
use volatile.Asm.{Operand}
use volatile.Asm.Instruction.{InstructionAmd64, amd64, instruction_stringify}
use volatile.Sast.{
  SastKind, SastOperation, Operations, node, kind, arguments, body_open, body_close, unset, invalid,
  eof, eval, load_src3, indirection, index_close, cdecl0, cdecl1, cdecl2, cdecl3, cdecl4, if_kind,
  elif_kind, else_kind, while_kind, test_equals,
}
use volatile.Compile.{Context, Piece, text, label, Target}
use volatile.Compile.Emit.{prologue, keep, test_body, test_equal, convert_label, operand_text, nth}
use volatile.Asm.{is_amd64}
use volatile.Compile.Line.{
  convert, convert_instruction, write_indirection, convert_load_src3, print_arguments,
  instruction_of, write_instruction,
}

-- An operation that neither opens nor closes a body.
abbrev pub IsPlain : SastOperation → Type 0
IsPlain o = (kind o ≢ body_open) × (kind o ≢ body_close)

-- A piece that defines no label.
abbrev pub NoLabel : Piece → Type 0
NoLabel (label n) = ⊥
NoLabel _ = Unit

abbrev Unlabelled : Result (List Piece) → Type 0
Unlabelled r = (out : List Piece) → r ≡ ok out → All NoLabel out

bind_Unlabelled :
    {A : Type 0} (r : Result A) (next : A → Result (List Piece))
    → ((a : A) → Unlabelled (next a))
    → Unlabelled (r >>= next)
bind_Unlabelled fault next u out h = cc
bind_Unlabelled (err c) next u out h = cc
bind_Unlabelled (ok a) next u out h = u a out h

text_Unlabelled : (s : Bytes) → Unlabelled (ok (text s ∷ []))
text_Unlabelled s out h = ground arith

prologue-Unlabelled : (e : Operand) (n : ℕ) → Unlabelled (prologue e n)
unfolding prologue
prologue-Unlabelled e n out h = ground arith

module _ {Table Heap : Type 0} (env : Target Table Heap) where
  abbrev Keeps : Context Table Heap → Result (List Piece × Context Table Heap) → Type 0
  Keeps ctx r =
      (out : List Piece) (ctx' : Context Table Heap)
      → r ≡ ok (out, ctx')
      → (ctx' ≡ ctx) × All NoLabel out

  keep-Keeps :
      (ctx : Context Table Heap) (r : Result (List Piece))
      → Unlabelled r
      → Keeps ctx (keep env ctx r)
  unfolding keep
  keep-Keeps ctx fault u out ctx' h = cc
  keep-Keeps ctx (err c) u out ctx' h = cc
  keep-Keeps ctx (ok ls) u out ctx' h = (ground arith, u out (ground arith))

  guarded :
      (b : Bool) (c : Code) (ctx : Context Table Heap)
      (r : Result (List Piece × Context Table Heap))
      → Keeps ctx r
      → Keeps ctx (if b then err c else r)
  guarded true c ctx r k out ctx' h = cc
  guarded false c ctx r k out ctx' h = k out ctx' h

  error-Keeps : (c : Code) (ctx : Context Table Heap) → Keeps ctx (err c)
  error-Keeps c ctx out ctx' h = cc

  nothing-Keeps : (ctx : Context Table Heap) → Keeps ctx (ok ([], ctx))
  nothing-Keeps ctx out ctx' h = ground arith

  test_body-Unlabelled :
      (ctx : Context Table Heap) (o : SastOperation) (n : ℕ) → Unlabelled (test_body env ctx o n)
  unfolding test_body
  test_body-Unlabelled ctx o n = bind_Unlabelled (operand_text env o) _ λ s out h. ground arith

  test_equal-Unlabelled : (o : SastOperation) → Unlabelled (test_equal env o)
  unfolding test_equal
  test_equal-Unlabelled o = bind_Unlabelled (nth env (arguments o) 0) _ λ x.
      bind_Unlabelled (operand_text env x) _ λ a. bind_Unlabelled (nth env (arguments o) 1) _ λ y.
        bind_Unlabelled (operand_text env y) _
          λ b. bind_Unlabelled (operand_text env o) _ λ d out h. ground arith

  write_indirection-Unlabelled : (o : SastOperation) → Unlabelled (write_indirection env o)
  unfolding write_indirection
  write_indirection-Unlabelled o = search (bind_Unlabelled, text_Unlabelled)

  convert_load_src3-Unlabelled : (o : SastOperation) → Unlabelled (convert_load_src3 env o)
  unfolding convert_load_src3
  convert_load_src3-Unlabelled o = bind_Unlabelled (operand_text env o) _ λ d.
      bind_Unlabelled (nth env (arguments o) 1) _ λ x. bind_Unlabelled (operand_text env x) _ λ a.
        bind_Unlabelled (nth env (arguments o) 3) _
          λ y. bind_Unlabelled (operand_text env y) _ λ b out h. ground arith

  write_instruction-Unlabelled :
      (k : SastKind) (xs : Operations) (i : Option InstructionAmd64)
      → Unlabelled (write_instruction env k xs i)
  unfolding write_instruction
  write_instruction-Unlabelled k xs none = λ out h. cc
  write_instruction-Unlabelled k xs (some i) =
      bind_Unlabelled (instruction_stringify (amd64 i)) _ λ s out h.
        elim (Bool-cases (is_amd64 env.isa)) [
          | inr e ↦ absurd (ground arith)
          | inl e ↦
              bind_Unlabelled (print_arguments env k 0 xs)
                (λ operands. ok (text (s ++ operands ++ codes "\n") ∷ []))
                (λ operands out' h'. ground arith) out (ground arith)
        ]

  convert_instruction-Unlabelled : (o : SastOperation) → Unlabelled (convert_instruction env o)
  unfolding convert_instruction
  convert_instruction-Unlabelled (node eval parent xs bs cs e d) = λ out h. ground arith
  convert_instruction-Unlabelled (node k parent xs bs cs e d) =
      write_instruction-Unlabelled k xs (instruction_of k)

  -- The code of a plain operation leaves the context as it is, and defines no label.
  pub convert-Keeps :
      (ctx : Context Table Heap) (o : SastOperation) → IsPlain o → Keeps ctx (convert env ctx o)
  unfolding convert convert_label
  convert-Keeps ctx (node body_open parent xs bs cs e d) p = absurd (p.0 refl)
  convert-Keeps ctx (node body_close parent xs bs cs e d) p = absurd (p.1 refl)
  convert-Keeps ctx (node unset parent xs bs cs e d) p = guarded _ _ ctx _ (error-Keeps _ ctx)
  convert-Keeps ctx (node invalid parent xs bs cs e d) p = guarded _ _ ctx _ (error-Keeps _ ctx)
  convert-Keeps ctx (node eof parent xs bs cs e d) p = guarded _ _ ctx _ (error-Keeps _ ctx)
  convert-Keeps ctx (node cdecl0 parent xs bs cs e d) p =
      guarded _ _ ctx _ (keep-Keeps ctx _ (prologue-Unlabelled e 0))
  convert-Keeps ctx (node cdecl1 parent xs bs cs e d) p =
      guarded _ _ ctx _ (keep-Keeps ctx _ (prologue-Unlabelled e 1))
  convert-Keeps ctx (node cdecl2 parent xs bs cs e d) p =
      guarded _ _ ctx _ (keep-Keeps ctx _ (prologue-Unlabelled e 2))
  convert-Keeps ctx (node cdecl3 parent xs bs cs e d) p =
      guarded _ _ ctx _ (keep-Keeps ctx _ (prologue-Unlabelled e 3))
  convert-Keeps ctx (node cdecl4 parent xs bs cs e d) p =
      guarded _ _ ctx _ (keep-Keeps ctx _ (prologue-Unlabelled e 4))
  convert-Keeps ctx (node if_kind parent xs bs cs e d) p =
      guarded _ _ ctx _
        (keep-Keeps ctx _ (test_body-Unlabelled ctx (node if_kind parent xs bs cs e d) 12))
  convert-Keeps ctx (node elif_kind parent xs bs cs e d) p =
      guarded _ _ ctx _
        (keep-Keeps ctx _ (test_body-Unlabelled ctx (node elif_kind parent xs bs cs e d) 13))
  convert-Keeps ctx (node while_kind parent xs bs cs e d) p =
      guarded _ _ ctx _
        (keep-Keeps ctx _ (test_body-Unlabelled ctx (node while_kind parent xs bs cs e d) 15))
  convert-Keeps ctx (node else_kind parent xs bs cs e d) p = guarded _ _ ctx _ (nothing-Keeps ctx)
  convert-Keeps ctx (node index_close parent xs bs cs e d) p = guarded _ _ ctx _ (nothing-Keeps ctx)
  convert-Keeps ctx (node test_equals parent xs bs cs e d) p =
      guarded _ _ ctx _
        (keep-Keeps ctx _ (test_equal-Unlabelled (node test_equals parent xs bs cs e d)))
  convert-Keeps ctx (node indirection parent xs bs cs e d) p =
      guarded _ _ ctx _
        (keep-Keeps ctx _ (write_indirection-Unlabelled (node indirection parent xs bs cs e d)))
  convert-Keeps ctx (node load_src3 parent xs bs cs e d) p =
      guarded _ _ ctx _
        (keep-Keeps ctx _ (convert_load_src3-Unlabelled (node load_src3 parent xs bs cs e d)))
  convert-Keeps ctx (node k parent xs bs cs e d) p =
      guarded _ _ ctx _
        (keep-Keeps ctx _ (convert_instruction-Unlabelled (node k parent xs bs cs e d)))
