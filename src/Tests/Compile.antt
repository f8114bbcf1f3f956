-- ===== src/Tests/Compile.antt =====
-- A loop in a function, compiled.
use volatile.Base.{
  false, ℕ, refl, ◌≡◌, suc, ◌+◌, ◌≤◌, true, none, some, List, [], ◌∷◌, ◌++◌, codes, arith, ok, err,
  length, ltb, if◌then◌else◌, exfull, take, ◌==◌,
}
use volatile.Asm.{
  Printing, amd64, Operand, register, r10, register_declared, register_name, representation_valid,
}
use volatile.Asm.Decimal.{decimal}
use volatile.Sast.{
  SastOperation, node, nil, cons, kind, while_kind, body_open, body_close, load, eval,
}
use volatile.Sast.Fold.{number}
use volatile.Compile.{
  Context, Target, Piece, text, label, jump_back, test_zero, function_body, bare, while_body,
}
use volatile.Compile.Emit.{opened_kind}
use volatile.Asm.{is_amd64}
use volatile.Compile.Line.{recurse, convert_indented}
use volatile.Compile.Order.{post_order, write_all, recurse-post_order}
use volatile.Compile.Run.{parent}
use volatile.Compile.Nested.{done}
use volatile.Compile.Tested.{while_test}
use volatile.Compile.Jumps.{Guards, write_all-Guards}
use volatile.Compile.Depth.{opens, shuts, total, recurse-level}
use volatile.Compile.Written.{IsWritable, nothing, nest}
use volatile.Compile.Function.{Making, Succeeds, Compiled, write_function-Compiled}

abbrev printing : Printing
printing = record {
  snprintf = λ n text. if ltb (length text) n then ok text else err exfull;
  strncpy = λ s n. ok (take n s);
  frame_offset = λ s. ok 8;
  pic_enabled = true;
}

abbrev target : Target ℕ ℕ
target = record {
  printing = printing;
  isa = amd64;
  stack_buffer = [];
  nkht_init = λ heap. ok (heap, suc heap);
  nkht_deinit = λ t heap. heap;
  vht_destroy = λ heap. heap;
}

-- In the body of a function.
abbrev in_function : Context ℕ ℕ
in_function = record {
  indentation_level = 1;
  body_kind = λ i. function_body;
  local_variables = λ i. 0;
  has_function = true;
  heap = 1;
}

abbrev r10_operand : Operand
r10_operand = register (record { isa = amd64; value_amd64 = r10 })

abbrev value : ℕ → SastOperation
value n = node eval none nil nil nil (number n) Operand.unset

-- `mov %r10, 5`
abbrev condition : SastOperation
condition =
    node load (some while_kind)
      (cons (node eval (some load) nil nil nil r10_operand r10_operand) (cons (value 5) nil)) nil
      nil r10_operand r10_operand

abbrev opening : SastOperation
opening = node body_open (some while_kind) nil nil nil Operand.unset Operand.unset

abbrev closing : SastOperation
closing = node body_close none nil nil nil Operand.unset Operand.unset

abbrev loop : SastOperation
loop = node while_kind none (cons condition (cons opening nil)) nil nil r10_operand r10_operand

recurse-post_order_example :
    recurse target in_function loop ≡ write_all target in_function (post_order loop)
recurse-post_order_example = recurse-post_order target in_function loop

loop_order : post_order loop ≡ condition ∷ opening ∷ loop ∷ []
unfolding post_order
loop_order = refl

abbrev in_loop : Context ℕ ℕ
in_loop = record {
  indentation_level = 2;
  body_kind = λ i. if i == 1 then while_body else function_body;
  local_variables = λ i. if i == 1 then 1 else 0;
  has_function = true;
  heap = 2;
}

abbrev tab : Piece
tab = text (codes "\t")

abbrev opening_lines : List Piece
opening_lines = tab ∷ label 1005 ∷ tab ∷ test_zero (codes "%r10") 1015 ∷ []

abbrev loop_lines : List Piece
loop_lines = tab ∷ text (codes "mov %r10, 5\n") ∷ opening_lines

-- The condition is computed before the label that the loop jumps back to.
loop_runs : recurse target in_function loop ≡ ok (loop_lines, in_loop)
unfolding recurse register_declared register_name representation_valid decimal
loop_runs = refl

recurse-level_example :
    (2 ≤ 256) × (2 + total shuts (post_order loop) ≡ 1 + total opens (post_order loop))
recurse-level_example =
    recurse-level target in_function in_loop loop loop_lines (omega arith) loop_runs

abbrev after_loop : Context ℕ ℕ
after_loop = record in_loop { indentation_level = 1 }

abbrev whole_lines : List Piece
whole_lines = opening_lines ++ (tab ∷ label 1021 ∷ jump_back 1005 ∷ label 1015 ∷ [])

whole_runs :
    write_all target in_function (opening ∷ ((loop ∷ []) ++ (closing ∷ [])))
    ≡ ok (whole_lines, after_loop)
unfolding write_all convert_indented register_declared register_name
whole_runs = refl

write_all-Guards_example : Guards target while_test 1 whole_lines
unfolding kind parent
write_all-Guards_example =
    write_all-Guards target while_test in_function after_loop opening loop closing whole_lines
      (omega arith) refl refl refl done refl whole_runs

abbrev bare_opening : SastOperation
bare_opening = node body_open none nil nil nil Operand.unset Operand.unset

bare_IsWritable : IsWritable target 1 (bare_opening ∷ closing ∷ [])
unfolding kind parent opened_kind
bare_IsWritable = nest bare_opening closing bare refl refl (λ e. cc) refl nothing nothing refl

abbrev making : Making ℕ
making = record {
  alloc = λ heap. some (suc heap);
  vht_create = λ heap. some (suc heap);
  nkht_set = λ name heap. ok (suc heap);
}

-- Outside every function.
abbrev outside : Context ℕ ℕ
outside = record in_function { indentation_level = 0; has_function = false }

making_Succeeds : Succeeds target making
making_Succeeds = record {
  init = λ heap. ((heap, suc heap), refl);
  alloc = λ heap. (suc heap, refl);
  create = λ heap. (suc heap, refl);
  set = λ name heap. (suc heap, refl);
}

write_function-Compiled_example :
    Compiled target making outside (codes "main") (bare_opening ∷ closing ∷ []) closing
unfolding is_amd64 kind
write_function-Compiled_example =
    write_function-Compiled target making outside (codes "main") closing refl making_Succeeds refl
      (omega arith) bare_IsWritable refl

-- With 256 bodies open.
abbrev deepest : Context ℕ ℕ
deepest = record in_function { indentation_level = 256 }
