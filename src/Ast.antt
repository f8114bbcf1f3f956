-- ===== src/Ast.antt =====
-- header/ast.h and src/ast.c: the operations of the syntax tree, their precedence, and how they are linked.
pub mod Precedence
pub mod Links
pub mod Insert
pub mod Convert
use volatile.Base.{
  ℕ, suc, zero, ◌+◌, Bool, true, false, not, ◌&&◌, ◌||◌, Option, none, some, List, [], ◌∷◌, leb,
  ltb, ◌==◌, if◌then◌else◌, set, get_or, contains, Code, success, einval, exfull, Result, ok, err,
}
use volatile.Registers.{Ptr, null}

-- `Vltl_ast_operation_kind`
pub data AstKind : Type 0 where
  unset invalid eval attribute address indirection grouping_open grouping_close : AstKind
  index_open index_close call mul div add sub test_equals comma csv typeas equals return : AstKind
  global constant external local function if_kind elif_kind else_kind while_kind : AstKind
  body_open body_close cdecl0 cdecl1 cdecl2 cdecl3 cdecl4 eof : AstKind

-- `vltl_ast_operation_kind_valid`
unfoldable pub kind_valid : AstKind → Bool
kind_valid unset = false
kind_valid invalid = false
kind_valid eof = false
kind_valid _ = true

-- `VLTL_AST_OPERATION_ARGUMENTS_MAX`
abbrev pub arguments_max : ℕ
arguments_max = 9

-- `Vltl_ast_operation`, as far as the links go; `typed` says that `result_type` is not NULL.
pub record AstOperation : Type 0 where
  pub kind : AstKind
  pub parent : Ptr
  pub arguments : List Ptr
  pub typed : Bool

-- The operations in memory, and `Vltl_ast_tree`.
pub record Forest : Type 0 where
  pub operations : Ptr → AstOperation
  pub root : Ptr
  pub last : Ptr

-- `vltl_ast_operation_valid`
unfoldable pub operation_valid : AstOperation → Bool
operation_valid o = kind_valid o.kind && o.typed

-- The leading arguments that are not NULL.
unfoldable pub leading : List Ptr → ℕ
leading [] = 0
leading (p ∷ ps) = let rest = leading ps in if p == null then 0 else suc rest

-- `vltl_ast_operation_argc`
unfoldable pub argc : AstOperation → ℕ
argc o = leading o.arguments

-- The switch of `vltl_ast_operation_expected_argc`, with the number of arguments there are.
abbrev pub expected_of : AstKind → ℕ → ℕ
expected_of k n = elim k [
  | attribute ↦ 1
  | index_open ↦ 3
  | grouping_open ↦ 2
  | call ↦ 1
  | address ↦ 1
  | indirection ↦ 1
  | add ↦ 2
  | sub ↦ 2
  | mul ↦ 2
  | div ↦ 2
  | test_equals ↦ 2
  | typeas ↦ 2
  | comma ↦ 2
  | csv ↦ n
  | local ↦ 1
  | constant ↦ 1
  | external ↦ 2
  | global ↦ 1
  | return ↦ 1
  | equals ↦ 2
  | function ↦ 3
  | if_kind ↦ 2
  | elif_kind ↦ 3
  | else_kind ↦ 2
  | while_kind ↦ 2
  | _ ↦ 0
]

-- `vltl_ast_operation_expected_argc`
unfoldable pub expected_argc : AstOperation → ℕ
unfolding argc
expected_argc o = expected_of o.kind (argc o)

-- `Vltl_ast_operation_precedence_order`
pub data PrecedenceOrder : Type 0 where
  left_to_right right_to_left : PrecedenceOrder

-- `vltl_ast_operation_precedence_valid`; a precedence is its number from 0 to 20.
unfoldable pub precedence_valid : ℕ → Bool
precedence_valid n = leb n 20

-- `vltl_ast_operation_precedence_order_determine`
unfoldable pub precedence_order : ℕ → Result PrecedenceOrder
unfolding precedence_valid
precedence_order n =
    if not (precedence_valid n)
    then err einval
    else if n == 2 || n == 13 || n == 14 || n == 19 || n == 20
    then ok right_to_left
    else ok left_to_right

-- The `switch` of `vltl_ast_operation_precedence_determine`.
unfoldable pub kind_precedence : AstKind → Option ℕ
kind_precedence eval = some 0
kind_precedence attribute = some 0
kind_precedence body_open = some 0
kind_precedence body_close = some 0
kind_precedence grouping_close = some 0
kind_precedence grouping_open = some 0
kind_precedence index_close = some 0
kind_precedence index_open = some 0
kind_precedence call = some 1
kind_precedence address = some 2
kind_precedence indirection = some 2
kind_precedence mul = some 3
kind_precedence div = some 3
kind_precedence add = some 4
kind_precedence sub = some 4
kind_precedence test_equals = some 7
kind_precedence typeas = some 13
kind_precedence equals = some 14
kind_precedence comma = some 15
kind_precedence csv = some 15
kind_precedence external = some 19
kind_precedence unset = none
kind_precedence invalid = none
kind_precedence eof = none
kind_precedence _ = some 18

-- `vltl_ast_operation_precedence_determine`
unfoldable pub precedence : AstOperation → Result ℕ
unfolding operation_valid kind_precedence
precedence o =
    if operation_valid o
    then elim (kind_precedence o.kind) [ none ↦ err einval | some n ↦ ok n ]
    else err einval

-- A store of one operation.
abbrev pub store : (Ptr → AstOperation) → Ptr → AstOperation → Ptr → AstOperation
store h p o q = if q == p then o else h q

-- `vltl_ast_operation_insert`, of a tree and a child that are not NULL; no position is past the array.
unfoldable pub insert : Ptr → Ptr → ℕ → Forest → Code × Forest
unfolding operation_valid
insert parent child index f =
    let h = f.operations in
    if not (parent == null) && not (operation_valid (h parent))
    then (einval, f)
    else if not (operation_valid (h child))
    then (einval, f)
    else if parent == null
    then (if not (f.root == null) then (einval, f) else (
      success,
      record f { root = child; operations = store h child (record (h child) { parent = parent }) },
    ))
    else let h' =
        store h parent (record (h parent) { arguments = set (h parent).arguments index child }) in
      (success, record f { operations = store h' child (record (h' child) { parent = parent }) })

-- The search for `adopt_this` among its parent's arguments, and the write to the place found.
unfoldable pub replace : List Ptr → Ptr → Ptr → List Ptr
replace [] a b = []
replace (p ∷ ps) a b = let rest = replace ps a b in if p == a then b ∷ ps else p ∷ rest

-- The last writes of `vltl_ast_operation_adopt`.
unfoldable pub relink : Ptr → Ptr → Forest → Forest
relink new_parent adopted f =
    let h = f.operations in
    let h' = store h new_parent (record (h new_parent) { parent = (h adopted).parent }) in
    record f {
      last = new_parent;
      operations = store h' adopted (record (h' adopted) { parent = new_parent });
    }

-- `vltl_ast_operation_adopt`, of arguments that are not NULL. When the parent does not hold the adopted
-- operation, the write to the new parent's arguments stays.
unfoldable pub adopt : Ptr → Ptr → Forest → Code × Forest
unfolding relink replace argc operation_valid
adopt new_parent adopted f =
    let h = f.operations in
    if not (operation_valid (h new_parent))
    then (einval, f)
    else if not (operation_valid (h adopted))
    then (einval, f)
    else let n = h new_parent in
      let h1 = store h new_parent (record n { arguments = set n.arguments (argc n) adopted }) in
      let up = (h1 adopted).parent in
      let u = h1 up in
      let h2 = store h1 up (record u { arguments = replace u.arguments adopted new_parent }) in
      if up == null
      then (success, relink new_parent adopted (record f { root = new_parent; operations = h1 }))
      else if contains u.arguments adopted
      then (success, relink new_parent adopted (record f { operations = h2 }))
      else (exfull, record f { operations = h1 })
