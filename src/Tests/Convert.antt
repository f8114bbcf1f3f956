-- ===== src/Tests/Convert.antt =====
-- A statement converted from the syntax tree.
use volatile.Base.{ℕ, suc, ◌+◌, ◌≡◌, refl, true, Option, none, some, [], codes, Result, ok}
use volatile.Sast.Convert.Paths.{find, modify, append_argument}
use volatile.Asm.{is_amd64, amd64, int_scalar64, rax, MemoryKind, Operand}
use volatile.Ast.{AstKind}
use volatile.Sast.{SastOperation, node, nil, cons, ret, store, div}
use volatile.Sast.Fold.{number}
use volatile.Sast.Connect.{register_operand}
use volatile.Sast.Source.{Meaning, Source, source, empty, arg, size}
use volatile.Sast.Convert.{eval_below, bare_node, named, meaning_operand}
use volatile.Sast.Convert.Loop.{State, convert_tree}
use volatile.Sast.Convert.Lower.{Lowers, value, returned, divided}
use volatile.Sast.Convert.Runs.{building, convert_tree-Lowers}
use volatile.Sast.Convert.Ends.{convert_tree-Ends}

abbrev allocate : ℕ → Option ℕ
allocate heap = some (suc heap)

abbrev a_local : Source
a_local = source AstKind.eval (Meaning.local (some (codes "a"))) true none empty

abbrev five : Source
five = source AstKind.eval (Meaning.literal int_scalar64 5) true none empty

-- `return a / 5`
abbrev statement : Source
statement =
    source AstKind.return Meaning.missing true none
      (arg (source AstKind.div Meaning.missing true none (arg a_local (arg five empty))) empty)

abbrev into_rax : SastOperation → SastOperation
into_rax x = bare_node store none (cons (eval_below none (register_operand rax)) (cons x nil))

abbrev lowered : SastOperation
lowered = bare_node ret none (
    cons
      (into_rax (
        node div (some store)
          (cons (into_rax (eval_below (some store) (named MemoryKind.local (some (codes "a")))))
            (cons (eval_below (some div) (number 5)) nil))
          nil nil Operand.unset (register_operand rax)))
      nil)

statement-Lowers : Lowers none statement lowered
unfolding meaning_operand
statement-Lowers = returned (divided (value _ refl) (value _ refl))

statement_runs : convert_tree allocate amd64 4 statement 0 ≡ some (ok (building lowered [] [] 8))
unfolding convert_tree find modify append_argument
statement_runs = refl

-- Of three rounds the last operation is left.
statement_waits : convert_tree allocate amd64 3 statement 0 ≡ none
unfolding convert_tree find modify append_argument
statement_waits = refl

convert_tree-Lowers_example :
    (heap' : ℕ) × (convert_tree allocate amd64 4 statement 0
      ≡ some (ok (building lowered [] [] heap')))
unfolding size is_amd64
convert_tree-Lowers_example =
    convert_tree-Lowers allocate amd64 (λ heap. (suc heap, refl)) refl statement lowered 0
      statement-Lowers

convert_tree-Ends_example :
    (r : Result (State ℕ)) × ((more : ℕ)
      → convert_tree allocate amd64 (4 + more) statement 0 ≡ some r)
unfolding size is_amd64
convert_tree-Ends_example = convert_tree-Ends allocate amd64 statement 0
