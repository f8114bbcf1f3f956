-- ===== src/Sast.antt =====
-- header/sast.h and src/sast.c: the operations of the simple syntax tree, from which code is written. A node
-- is its fields; of its parent only the kind is read here.
pub mod Names
pub mod Fold
pub mod Connect
pub mod Append
pub mod Call
pub mod Reshape
pub mod Source
pub mod Convert
use volatile.Base.{
  ℕ, zero, suc, ◌+◌, Bool, true, false, Option, none, some, ltb, if◌then◌else◌, Result, ok, err,
  einval, ◌&&◌, not, ◌||◌,
}
use volatile.Asm.{Operand}

-- `Vltl_sast_operation_kind`
pub data SastKind : Type 0 where
  unset invalid eval call grouping_open grouping_close index_open index_close load load_src3 store
        address lea indirection add sub mul div test_equals comma typeas csv global constant
        external local function if_kind elif_kind else_kind while_kind body_open body_close ret
        cdecl0 cdecl1 cdecl2 cdecl3 cdecl4 eof :
      SastKind

-- `vltl_sast_operation_kind_valid`
unfoldable pub kind_valid : SastKind → Bool
kind_valid unset = false
kind_valid invalid = false
kind_valid eof = false
kind_valid _ = true

-- `Vltl_sast_operation`: the kind, the kind of the parent, the entries of `arguments`, `before` and `after`
-- up to the first that is NULL, `evaluates_to` and `destination`.
mutual
  pub data SastOperation : Type 0 where
    node :
        SastKind
        → Option SastKind
        → Operations
        → Operations
        → Operations
        → Operand
        → Operand
        → SastOperation

  pub data Operations : Type 0 where
    nil : Operations
    cons : SastOperation → Operations → Operations

-- `VLTL_SAST_OPERATION_ARGUMENTS_MAX`
abbrev pub arguments_max : ℕ
arguments_max = 9

unfoldable pub kind : SastOperation → SastKind
kind (node k p xs bs cs e d) = k

unfoldable pub arguments : SastOperation → Operations
arguments (node k p xs bs cs e d) = xs

unfoldable pub before : SastOperation → Operations
before (node k p xs bs cs e d) = bs

unfoldable pub after : SastOperation → Operations
after (node k p xs bs cs e d) = cs

unfoldable pub evaluates_to : SastOperation → Operand
evaluates_to (node k p xs bs cs e d) = e

unfoldable pub destination : SastOperation → Operand
destination (node k p xs bs cs e d) = d

-- `vltl_sast_operation_valid`
unfoldable pub operation_valid : SastOperation → Bool
unfolding kind_valid kind
operation_valid o = kind_valid (kind o)

unfoldable pub count : Operations → ℕ
count nil = 0
count (cons x xs) = suc (count xs)

-- `vltl_sast_operation_args_argc`
unfoldable pub args_argc : SastOperation → ℕ
unfolding operation_valid count arguments
args_argc o = if operation_valid o then count (arguments o) else 0

-- `vltl_sast_operation_before_argc`
unfoldable pub before_argc : SastOperation → ℕ
unfolding operation_valid count before
before_argc o = if operation_valid o then count (before o) else 0

-- `vltl_sast_operation_after_argc`
unfoldable pub after_argc : SastOperation → ℕ
unfolding operation_valid count after
after_argc o = if operation_valid o then count (after o) else 0

-- `vltl_sast_operation_variable_argc`
unfoldable pub variable_argc : SastOperation → Bool
unfolding kind
variable_argc o = elim (kind o) [ csv ↦ true | _ ↦ false ]

-- `vltl_sast_operation_expected_argc`
unfoldable pub expected_argc : SastOperation → ℕ
unfolding kind args_argc
expected_argc o = elim (kind o) [
  | global ↦ 1
  | constant ↦ 1
  | local ↦ 1
  | external ↦ 1
  | ret ↦ 1
  | address ↦ 1
  | indirection ↦ 1
  | call ↦ 2
  | grouping_open ↦ 2
  | load ↦ 2
  | lea ↦ 2
  | store ↦ 2
  | add ↦ 2
  | sub ↦ 2
  | mul ↦ 2
  | div ↦ 2
  | test_equals ↦ 2
  | if_kind ↦ 2
  | else_kind ↦ 2
  | while_kind ↦ 2
  | comma ↦ 2
  | typeas ↦ 2
  | elif_kind ↦ 3
  | function ↦ 3
  | index_open ↦ 3
  | load_src3 ↦ 5
  | csv ↦ args_argc o
  | _ ↦ 0
]

-- The first entry of the nine that is NULL is filled; when there is none, nothing happens.
unfoldable pub append_within : ℕ → Operations → SastOperation → Operations
append_within zero xs x = xs
append_within (suc n) nil x = cons x nil
append_within (suc n) (cons y ys) x = cons y (append_within n ys x)

-- `vltl_sast_operation_before_append`
unfoldable pub before_append : SastOperation → SastOperation → Result SastOperation
unfolding operation_valid append_within
before_append (node k p xs bs cs e d) add_this =
    if not (operation_valid (node k p xs bs cs e d)) || not (operation_valid add_this)
    then err einval
    else ok (node k p xs (append_within arguments_max bs add_this) cs e d)

-- `vltl_sast_operation_after_append`
unfoldable pub after_append : SastOperation → SastOperation → Result SastOperation
unfolding operation_valid append_within
after_append (node k p xs bs cs e d) add_this =
    if not (operation_valid (node k p xs bs cs e d)) || not (operation_valid add_this)
    then err einval
    else ok (node k p xs bs (append_within arguments_max cs add_this) e d)

-- `vltl_sast_operation_before_clear`
unfoldable pub before_clear : SastOperation → SastOperation
before_clear (node k p xs bs cs e d) = node k p xs nil cs e d

-- `vltl_sast_operation_after_clear`
unfoldable pub after_clear : SastOperation → SastOperation
after_clear (node k p xs bs cs e d) = node k p xs bs nil e d

-- `vltl_sast_operation_init`
unfoldable pub init : SastKind → Operand → Operand → Result SastOperation
unfolding kind_valid
init k e d = if not (kind_valid k) then err einval else ok (node k none nil nil nil e d)
