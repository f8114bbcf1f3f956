-- ===== src/Compile/Emit.antt =====
-- src/compile.c: what is written for one operation.
use volatile.Base.{
  ℕ, zero, suc, ◌+◌, ◌-◌, ◌*◌, ◌%◌, ◌^◌, Bool, true, false, Option, none, some, List, [], ◌∷◌, ◌++◌,
  Bytes, codes, ◌==◌, ltb, if◌then◌else◌, Result, ok, err, fault, ◌>>=◌, einval, enotrecoverable,
}
use volatile.Asm.{Operand, function, operand_detokenize}
use volatile.Sast.{
  SastKind, SastOperation, Operations, arguments, nil, cons, node, if_kind, elif_kind, else_kind,
  while_kind, cdecl0, cdecl1, cdecl2, cdecl3, cdecl4, body_open, body_close, test_equals,
}
use volatile.Compile.{
  Context, Piece, text, label, jump_forward, jump_back, test_zero, Target, BodyKind, bare, if_body,
  elif_body, else_body, while_body, function_body, body_cap, label_iterate, chain_offset,
  open_offset, operandify,
}

-- The parameters that `vltl_compile_operation_convert_label` stores from their registers.
unfoldable pub parameter_moves : ℕ → Bytes
parameter_moves zero = []
parameter_moves (suc zero) = codes "\tmov -8[%rbp], %rdi\n"
parameter_moves (suc (suc zero)) = codes "\tmov -8[%rbp], %rdi\n\tmov -16[%rbp], %rsi\n"
parameter_moves (suc (suc (suc zero))) =
    codes "\tmov -8[%rbp], %rdi\n\tmov -16[%rbp], %rsi\n\tmov -24[%rbp], %rdx\n"
parameter_moves _ =
    codes
      "\tmov -8[%rbp], %rdi\n\tmov -16[%rbp], %rsi\n\tmov -24[%rbp], %rdx\n\tmov -32[%rbp], %rcx\n"

-- The cases of `CDECL0` to `CDECL4`; the name of an operand that is no function has no meaning.
unfoldable pub prologue : Operand → ℕ → Result (List Piece)
unfolding parameter_moves
prologue (function name) n = ok (
    text (
      name
      ++ codes
          ":\n\tpush %rbp\n\tpush %rbx\n\tpush %r12\n\tpush %r13\n\tpush %r14\n\tpush %r15\n\tmov %rbp, %rsp\n\tsub %rsp, 0x400\n"
      ++ parameter_moves n
      ++ codes "\n")
    ∷ [])
prologue _ n = fault

-- The kind of the body that is opened below a parent.
unfoldable pub opened_kind : Option SastKind → Result BodyKind
opened_kind none = ok bare
opened_kind (some k) = elim k [
  | SastKind.function ↦ ok function_body
  | if_kind ↦ ok if_body
  | elif_kind ↦ ok elif_body
  | else_kind ↦ ok else_body
  | while_kind ↦ ok while_body
  | _ ↦ err enotrecoverable
]

-- A label as a `size_t`: the offset in the thousand of a level.
unfoldable pub numbered : ℕ → ℕ → ℕ
numbered n offset = (n * label_iterate + offset) % 2 ^ 64

-- Where a body that is closed was inside another: the first switch of `BODY_CLOSE`.
unfoldable pub close_chain : ℕ → Option SastKind → BodyKind → List Piece
unfolding numbered
close_chain n parent else_body = label (numbered n chain_offset) ∷ []
close_chain n none if_body = label (numbered n chain_offset) ∷ []
close_chain n none elif_body = label (numbered n chain_offset) ∷ []
close_chain n none while_body = label (numbered n chain_offset) ∷ []
close_chain n (some k) if_body = jump_forward (numbered n chain_offset) ∷ []
close_chain n (some k) elif_body = jump_forward (numbered n chain_offset) ∷ []
close_chain n (some k) while_body = jump_forward (numbered n chain_offset) ∷ []
close_chain n parent _ = []

-- The second switch; a body of `else` gets the closing label of `elif`.
unfoldable pub close_body : ℕ → BodyKind → Result (List Piece)
unfolding numbered
close_body n bare = ok (label (numbered n 11) ∷ [])
close_body n if_body = ok (label (numbered n 12) ∷ [])
close_body n elif_body = ok (label (numbered n 13) ∷ [])
close_body n else_body = ok (label (numbered n 13) ∷ [])
close_body n while_body = ok (jump_back (numbered n 5) ∷ label (numbered n 15) ∷ [])
close_body n _ = err enotrecoverable

unfoldable pub is_function : BodyKind → Bool
is_function function_body = true
is_function _ = false

module _ {Table Heap : Type 0} (env : Target Table Heap) where
  -- The case `BODY_OPEN`. The guard lets `indentation_level` be `VLTL_LANG_BODY_CAP`, where the body is past
  -- the end of the array.
  unfoldable pub open_body :
      Context Table Heap → Option SastKind → Result (List Piece × Context Table Heap)
  unfolding opened_kind numbered open_offset
  open_body ctx parent =
      let level = ctx.indentation_level in
      if ltb level (body_cap + 1)
      then (if ltb level body_cap
          then (env.nkht_init ctx.heap >>= λ p. opened_kind parent >>= λ k. ok (
            label (numbered level (open_offset k)) ∷ [],
            record ctx {
              indentation_level = level + 1;
              body_kind = λ i. if i == level then k else ctx.body_kind i;
              local_variables = λ i. if i == level then p.0 else ctx.local_variables i;
              heap = p.1;
            },
          ))
          else fault)
      else err enotrecoverable

  -- The end of `BODY_CLOSE`, at the level that is left.
  unfoldable pub after_close :
      Context Table Heap → ℕ → Option SastKind → Result (List Piece × Context Table Heap)
  unfolding is_function numbered close_chain close_body
  after_close ctx zero parent =
      if is_function (ctx.body_kind 0)
      then ok (
        label (numbered 0 16) ∷ [],
        record ctx {
          indentation_level = 0;
          has_function = false;
          heap = if ctx.has_function then env.vht_destroy ctx.heap else ctx.heap;
        },
      )
      else err enotrecoverable
  after_close ctx (suc n) parent = close_body (suc n) (ctx.body_kind (suc n)) >>= λ lines. ok (
    close_chain (suc n) parent (ctx.body_kind (suc n)) ++ lines,
    record ctx { indentation_level = suc n },
  )

  -- The case `BODY_CLOSE`; a body past the end of the array cannot be read.
  unfoldable pub shut_body :
      Context Table Heap → Option SastKind → Result (List Piece × Context Table Heap)
  unfolding after_close
  shut_body ctx parent = elim ctx.indentation_level [
    | zero ↦ err enotrecoverable
    | suc n ↦
        if ltb n body_cap
        then after_close (record ctx { heap = env.nkht_deinit (ctx.local_variables n) ctx.heap }) n
            parent
        else fault
  ]

  -- The text of what an operation stands for, in a buffer of 99 bytes.
  unfoldable pub operand_text : SastOperation → Result Bytes
  unfolding operandify operand_detokenize
  operand_text o =
      operandify o >>= λ operand. operand_detokenize env.printing 99 env.stack_buffer operand

  -- The cases `IF`, `ELIF` and `WHILE`: the offset is the one of the closing label.
  unfoldable pub test_body : Context Table Heap → SastOperation → ℕ → Result (List Piece)
  unfolding operand_text numbered
  test_body ctx o offset =
      let n = numbered ((ctx.indentation_level + (2 ^ 64 - 1)) % 2 ^ 64) offset in
      operand_text o >>= λ s. ok (test_zero s n ∷ [])

  unfoldable pub nth : Operations → ℕ → Result SastOperation
  nth nil i = fault
  nth (cons x xs) zero = ok x
  nth (cons x xs) (suc i) = nth xs i

  -- The case `TEST_EQUALS`.
  unfoldable pub test_equal : SastOperation → Result (List Piece)
  unfolding operand_text nth arguments
  test_equal o = nth (arguments o) 0 >>= λ x. operand_text x >>= λ a. nth (arguments o) 1 >>= λ y.
      operand_text y >>= λ b. operand_text o >>= λ d. ok (
        text (
          codes "cmp "
          ++ a
          ++ codes ", "
          ++ b
          ++ codes "\n\tmov "
          ++ d
          ++ codes ", 0\n\tmov "
          ++ b
          ++ codes ", 1\n\tcmove "
          ++ d
          ++ codes ", "
          ++ b
          ++ codes "\n")
        ∷ [])

  -- Without a change of the context.
  unfoldable pub keep :
      Context Table Heap → Result (List Piece) → Result (List Piece × Context Table Heap)
  keep ctx out = out >>= λ lines. ok (lines, ctx)

  -- `vltl_compile_operation_convert_label`
  unfoldable pub convert_label :
      Context Table Heap → SastOperation → Result (List Piece × Context Table Heap)
  unfolding keep prologue open_body shut_body test_body test_equal
  convert_label ctx (node k parent xs bs cs e d) =
      let o = node k parent xs bs cs e d in
      elim k [
        | cdecl0 ↦ keep ctx (prologue e 0)
        | cdecl1 ↦ keep ctx (prologue e 1)
        | cdecl2 ↦ keep ctx (prologue e 2)
        | cdecl3 ↦ keep ctx (prologue e 3)
        | cdecl4 ↦ keep ctx (prologue e 4)
        | body_open ↦ open_body ctx parent
        | body_close ↦ shut_body ctx parent
        | if_kind ↦ keep ctx (test_body ctx o 12)
        | elif_kind ↦ keep ctx (test_body ctx o 13)
        | else_kind ↦ ok ([], ctx)
        | while_kind ↦ keep ctx (test_body ctx o 15)
        | test_equals ↦ keep ctx (test_equal o)
        | _ ↦ err einval
      ]
