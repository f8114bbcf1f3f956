-- ===== src/Compile/Line.antt =====
-- src/compile.c: the instruction of an operation, and the code of a tree.
use volatile.Base.{
  ℕ, suc, Bool, true, false, Option, none, some, List, [], ◌∷◌, ◌++◌, Bytes, codes, ◌==◌, leb,
  if◌then◌else◌, not, Result, ok, err, ◌>>=◌, einval, enotrecoverable,
}
use volatile.Asm.{is_amd64, operand_stringify}
use volatile.Asm.Instruction.{InstructionAmd64, amd64, instruction_stringify}
use volatile.Sast.{
  SastKind, SastOperation, Operations, operation_valid, kind_valid, kind, arguments, nil, cons,
  node, eval, call, comma, grouping_open, grouping_close, csv, load, lea, address, indirection, add,
  sub, mul, div, store, ret, load_src3, index_close, cdecl0, cdecl1, cdecl2, cdecl3, cdecl4,
  body_open, body_close, if_kind, elif_kind, else_kind, while_kind, test_equals,
}
use volatile.Compile.{Context, Piece, text, Target, operandify}
use volatile.Compile.Emit.{convert_label, keep, operand_text, nth}

-- The first switch of `vltl_compile_operation_convert_instruction`.
unfoldable pub instruction_of : SastKind → Option InstructionAmd64
instruction_of call = some InstructionAmd64.call
instruction_of comma = some InstructionAmd64.nop
instruction_of grouping_open = some InstructionAmd64.nop
instruction_of grouping_close = some InstructionAmd64.nop
instruction_of csv = some InstructionAmd64.nop
instruction_of load = some InstructionAmd64.mov
instruction_of lea = some InstructionAmd64.lea
instruction_of address = some InstructionAmd64.inc
instruction_of indirection = some InstructionAmd64.dec
instruction_of add = some InstructionAmd64.add
instruction_of sub = some InstructionAmd64.sub
instruction_of mul = some InstructionAmd64.imul
instruction_of div = some InstructionAmd64.idiv
instruction_of store = some InstructionAmd64.mov
instruction_of ret = some InstructionAmd64.ret
instruction_of _ = none

-- `never_print_this_argument`
unfoldable pub never_print : SastKind → ℕ → Bool
never_print call i = i == 1
never_print grouping_open i = leb i 1
never_print comma i = leb i 1
never_print csv i = true
never_print ret i = i == 0
never_print div i = i == 0
never_print _ i = false

-- Whether a comma follows the argument before `i`: there is one more, and it is printed.
unfoldable pub is_printed : SastKind → ℕ → Operations → Bool
unfolding never_print
is_printed k i nil = false
is_printed k i (cons x xs) = not (never_print k i)

module _ {Table Heap : Type 0} (env : Target Table Heap) where
  -- The loop over the arguments, from the argument `i` on.
  unfoldable pub print_arguments : SastKind → ℕ → Operations → Result Bytes
  unfolding never_print operandify operand_stringify is_printed
  print_arguments k i nil = ok []
  print_arguments k i (cons x xs) =
      let rest = print_arguments k (suc i) xs in
      if never_print k i
      then rest
      else (operandify x >>= λ operand. operand_stringify env.printing operand >>= λ s.
          rest >>= λ more.
          ok (codes " " ++ s ++ (if is_printed k (suc i) xs then codes "," else []) ++ more))

  -- The instruction and its operands.
  unfoldable pub write_instruction :
      SastKind → Operations → Option InstructionAmd64 → Result (List Piece)
  unfolding instruction_stringify is_amd64 print_arguments
  write_instruction k xs none = err einval
  write_instruction k xs (some i) = instruction_stringify (amd64 i) >>= λ s.
      if not (is_amd64 env.isa)
      then err enotrecoverable
      else (print_arguments k 0 xs >>= λ operands. ok (text (s ++ operands ++ codes "\n") ∷ []))

  -- `vltl_compile_operation_convert_instruction`
  unfoldable pub convert_instruction : SastOperation → Result (List Piece)
  unfolding instruction_of write_instruction
  convert_instruction (node eval parent xs bs cs e d) = ok []
  convert_instruction (node k parent xs bs cs e d) = write_instruction k xs (instruction_of k)

  -- The case `INDIRECTION` of `vltl_compile_operation_convert`.
  unfoldable pub write_indirection : SastOperation → Result (List Piece)
  unfolding operand_text nth arguments
  write_indirection o = operand_text env o >>= λ d. nth env (arguments o) 0 >>= λ x.
      operand_text env x >>= λ a. ok (
        text (
          codes "mov "
          ++ d
          ++ codes ", "
          ++ a
          ++ codes "\n\tmov "
          ++ d
          ++ codes ", ["
          ++ d
          ++ codes "]\n")
        ∷ [])

  -- The case `LOAD_SRC3`.
  unfoldable pub convert_load_src3 : SastOperation → Result (List Piece)
  unfolding operand_text nth arguments
  convert_load_src3 o = operand_text env o >>= λ d. nth env (arguments o) 1 >>= λ x.
      operand_text env x >>= λ a. nth env (arguments o) 3 >>= λ y. operand_text env y >>= λ b.
      ok (
        text (codes "mov " ++ d ++ codes ", [" ++ a ++ codes " + 8 * " ++ b ++ codes " + 0]\n")
        ∷ [])

  -- `vltl_compile_operation_convert`
  unfoldable pub convert :
      Context Table Heap → SastOperation → Result (List Piece × Context Table Heap)
  unfolding convert_label keep convert_instruction write_indirection convert_load_src3 is_amd64
      operation_valid kind
  convert ctx o =
      if not (is_amd64 env.isa)
      then err enotrecoverable
      else if not (operation_valid o)
      then err einval
      else elim (kind o) [
        | cdecl0 ↦ convert_label env ctx o
        | cdecl1 ↦ convert_label env ctx o
        | cdecl2 ↦ convert_label env ctx o
        | cdecl3 ↦ convert_label env ctx o
        | cdecl4 ↦ convert_label env ctx o
        | body_open ↦ convert_label env ctx o
        | body_close ↦ convert_label env ctx o
        | if_kind ↦ convert_label env ctx o
        | elif_kind ↦ convert_label env ctx o
        | else_kind ↦ convert_label env ctx o
        | while_kind ↦ convert_label env ctx o
        | test_equals ↦ convert_label env ctx o
        | indirection ↦ keep env ctx (write_indirection o)
        | load_src3 ↦ keep env ctx (convert_load_src3 o)
        | index_close ↦ ok ([], ctx)
        | _ ↦ keep env ctx (convert_instruction o)
      ]

  -- To write one thing after another.
  unfoldable pub then_write :
      Result (List Piece × Context Table Heap)
      → (Context Table Heap → Result (List Piece × Context Table Heap))
      → Result (List Piece × Context Table Heap)
  then_write first next = first >>= λ p. next p.1 >>= λ q. ok (p.0 ++ q.0, q.1)

unfoldable pub is_eval : SastOperation → Bool
unfolding kind
is_eval o = elim (kind o) [ eval ↦ true | _ ↦ false ]

module _ {Table Heap : Type 0} (env : Target Table Heap) where
  -- `fputs("\t", dest)` and `vltl_compile_operation_convert`.
  unfoldable pub convert_indented :
      Context Table Heap → SastOperation → Result (List Piece × Context Table Heap)
  unfolding convert
  convert_indented ctx o = convert env ctx o >>= λ p. ok (text (codes "\t") ∷ p.0, p.1)

  -- `vltl_compile_convert_recurse`, and its loops over `arguments`, which passes over `EVAL`, and over
  -- `before` and `after`. The counts of an operation that is not valid are 0.
  unfoldable mutual
    unfolding then_write convert_indented is_eval kind_valid

    pub recurse : Context Table Heap → SastOperation → Result (List Piece × Context Table Heap)
    recurse ctx (node k parent xs bs cs e d) =
        if kind_valid k
        then (then_write env (recurse_arguments ctx xs) λ c₁.
            then_write env (recurse_all c₁ bs) λ c₂.
              then_write env (convert_indented c₂ (node k parent xs bs cs e d))
                λ c₃. recurse_all c₃ cs)
        else convert_indented ctx (node k parent xs bs cs e d)

    pub recurse_arguments :
        Context Table Heap → Operations → Result (List Piece × Context Table Heap)
    recurse_arguments ctx nil = ok ([], ctx)
    recurse_arguments ctx (cons x xs) =
        if is_eval x
        then recurse_arguments ctx xs
        else (then_write env (recurse ctx x) λ c. recurse_arguments c xs)

    pub recurse_all : Context Table Heap → Operations → Result (List Piece × Context Table Heap)
    recurse_all ctx nil = ok ([], ctx)
    recurse_all ctx (cons x xs) = then_write env (recurse ctx x) λ c. recurse_all c xs
