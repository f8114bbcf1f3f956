-- ===== src/Sast/Source.antt =====
-- header/ast.h: the tree that src/sast.c converts.
use volatile.Base.{ℕ, suc, ◌+◌, Bool, Option, Bytes, ◌&&◌}
use volatile.Asm.{Integral}
use volatile.Ast.{AstKind, kind_valid}

-- The token that `evaluates_to` of an operation points to, as far as the conversion reads it: the value of a
-- constant, the type and value of a literal, names; `missing` is NULL.
pub data Meaning : Type 0 where
  constant : ℕ → Meaning
  literal : Integral → ℕ → Meaning
  global local unknown : Option Bytes → Meaning
  function : Bytes → Meaning
  other missing : Meaning

-- `Vltl_ast_operation` with the operations below it: its kind, `evaluates_to`, whether `result_type` is not NULL, the
-- kind of its parent where it is the parent's left child, and the arguments before the first NULL.
mutual
  pub data Source : Type 0 where
    source : AstKind → Meaning → Bool → Option AstKind → Sources → Source

  pub data Sources : Type 0 where
    empty : Sources
    arg : Source → Sources → Sources

-- `vltl_ast_operation_argc`
unfoldable pub source_argc : Sources → ℕ
source_argc empty = 0
source_argc (arg s ss) = suc (source_argc ss)

-- `vltl_ast_operation_valid`
unfoldable pub source_valid : Source → Bool
unfolding kind_valid
source_valid (source k m typed l ss) = kind_valid k && typed

-- How many operations there are.
unfoldable mutual
  pub size : Source → ℕ
  size (source k m typed l ss) = suc (size_all ss)

  pub size_all : Sources → ℕ
  size_all empty = 0
  size_all (arg s ss) = size s + size_all ss
