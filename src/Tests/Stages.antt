-- ===== src/Tests/Stages.antt =====
-- A line whose syntax tree cannot be built.
use volatile.Base.{ℕ, suc, ◌≡◌, refl, true, false, einval, success, codes, ok, err}
use volatile.Compile.Stages.{Stages, compile_line}

-- Stages that count what is written.
abbrev counted : Stages ℕ
counted = record {
  line_convert = λ line st. ok st;
  token_count = λ st. 3;
  ast_tree_convert = λ st. (einval, st);
  reshape_ast_tree = λ st. ok (false, st);
  sast_tree_convert = λ st. ok st;
  compile_convert = λ st. (success, suc st);
  write_comment = λ n st. suc st;
  write_break = λ st. suc st;
  dump_ast = λ st. ok st;
}

-- The line is compiled all the same.
failed_line_compiles : compile_line counted false (codes "1 1") 1 0 ≡ ok 3
unfolding compile_line
failed_line_compiles = refl

-- With debugging it is not.
failed_line_fails : compile_line counted true (codes "1 1") 1 0 ≡ err einval
unfolding compile_line
failed_line_fails = refl
