-- ===== src/Compile/Stages.antt =====
-- src/compile.c: `vltl_compile_line`, the stages that a line goes through.
use volatile.Base.{ℕ, Bool, if◌then◌else◌, ◌==◌, Bytes, Code, success, Result, ok, err, ◌>>=◌}

-- The stages of a line, on the state of the program with the line and its trees. A stage whose code is not read at
-- once returns it with the state that it leaves; the others return a state or a code.
pub record Stages (State : Type 0) : Type 0 where
  pub line_convert : Bytes → State → Result State
  pub token_count : State → ℕ
  pub ast_tree_convert : State → Code × State
  -- `vltl_reshape_ast_tree`, with `done_now`.
  pub reshape_ast_tree : State → Result (Bool × State)
  pub sast_tree_convert : State → Result State
  pub compile_convert : State → Code × State
  -- The comment with the number of the line, and the line break.
  pub write_comment : ℕ → State → State
  pub write_break : State → State
  -- The graph of the syntax tree, which is written where `VLTL_DEBUG` is 1.
  pub dump_ast : State → Result State

-- `if(ret) { return ret; }`
unfoldable pub code_returned : {State : Type 0} → Code → State → Result State
code_returned success st = ok st
code_returned c st = err c

module _ {State : Type 0} (stages : Stages State) where
  -- The block of the syntax tree up to its reshaping.
  unfoldable pub ast_stage : Bool → State → Result State
  unfolding code_returned
  ast_stage debug st =
      let (ret, st₁) = stages.ast_tree_convert st in
      if debug then (stages.dump_ast st₁ >>= code_returned ret) else ok st₁

  -- The block that compiles.
  unfoldable pub compile_stage : ℕ → State → Result State
  unfolding code_returned
  compile_stage line_number st =
      let (ret, st₁) = stages.compile_convert (stages.write_comment line_number st) in
      code_returned ret (stages.write_break st₁)

  -- `vltl_compile_line`, of a file and a line that are not NULL; `debug` is `VLTL_DEBUG == 1`.
  unfoldable pub compile_line : Bool → Bytes → ℕ → State → Result State
  unfolding ast_stage compile_stage
  compile_line debug src_line line_number st = stages.line_convert src_line st >>= λ st₁.
      if stages.token_count st₁ == 0
      then ok (stages.write_break (stages.write_comment line_number st₁))
      else (ast_stage debug st₁ >>= λ st₂. stages.reshape_ast_tree st₂ >>= λ (done_now, st₃).
          (if debug then stages.dump_ast st₃ else ok st₃) >>= λ st₄.
          if done_now then ok st₄ else (stages.sast_tree_convert st₄ >>= compile_stage line_number))
