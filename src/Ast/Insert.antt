-- ===== src/Ast/Insert.antt =====
-- src/ast.c: where a new operation goes, `vltl_ast_tree_insert`. The traces, which only messages read, are left
-- out. A walk towards the root is given a number of steps; `fault` is a walk that needs more.
pub mod Walk
pub mod Linked
pub mod Csv
pub mod Place
pub mod Grow
use volatile.Base.{
  ℕ, zero, suc, Bool, true, false, not, ◌&&◌, ◌||◌, List, [], ◌∷◌, leb, ltb, ◌==◌, if◌then◌else◌,
  replicate, Code, success, einval, enomem, enotrecoverable, Result, ok, err, fault, ◌>>=◌,
}
use volatile.Registers.{Ptr, null}
use volatile.Ast.{
  AstKind, grouping_open, grouping_close, csv, AstOperation, Forest, operation_valid, argc,
  expected_argc, precedence, precedence_order, PrecedenceOrder, left_to_right, right_to_left, store,
  insert, adopt, arguments_max,
}

-- An operation with fewer arguments than it expects.
unfoldable pub hungry : AstOperation → Bool
hungry o = ltb (argc o) (expected_argc o)

unfoldable pub is_grouping_open : AstKind → Bool
is_grouping_open grouping_open = true
is_grouping_open _ = false

unfoldable pub is_grouping_close : AstKind → Bool
is_grouping_close grouping_close = true
is_grouping_close _ = false

-- The `while` loop: the first operation from `p` towards the root that takes an argument of the
-- precedence; null is none.
unfoldable pub find_hungry : ℕ → ℕ → (Ptr → AstOperation) → Ptr → Result Ptr
find_hungry zero pushed h p = fault
find_hungry (suc n) pushed h p = elim (p == null) [
  | true ↦ ok null
  | false ↦ do
    own ← precedence (h p)
    elim (leb pushed own && hungry (h p)) [
      | true ↦ ok p
      | false ↦ find_hungry n pushed h (h p).parent
    ]
]

-- `parent_lower_than_pushed`
unfoldable pub lower : PrecedenceOrder → ℕ → ℕ → Bool
lower left_to_right pushed above = leb above pushed
lower right_to_left pushed above = ltb above pushed

-- The `for` loop: the first operation from `p` towards the root that the new one displaces; null is
-- none.
unfoldable pub find_target : ℕ → ℕ → (Ptr → AstOperation) → Ptr → Result Ptr
unfolding lower hungry is_grouping_open
find_target zero pushed h p = fault
find_target (suc n) pushed h p = elim (p == null || (h p).parent == null) [
  | true ↦ ok null
  | false ↦ do
    above ← precedence (h (h p).parent)
    own ← precedence (h p)
    order ← precedence_order own
    elim (lower order pushed above
        && not (is_grouping_open (h (h p).parent).kind && hungry (h (h p).parent))) [
          | true ↦ find_target n pushed h (h p).parent
          | false ↦ ok p
        ]
]

-- An insertion at the first free place, after which the new operation is the last.
unfoldable pub insert_last : Ptr → Ptr → Forest → Code × Forest
insert_last p pushed f =
    let r = insert p pushed (argc (f.operations p)) f in
    elim r.0 [ success ↦ (success, record r.1 { last = pushed }) | _ ↦ r ]

-- `vltl_ast_operation_init` of an empty csv.
abbrev pub empty_csv : AstOperation
empty_csv = record {
  kind = csv;
  parent = null;
  arguments = replicate arguments_max null;
  typed = true;
}

-- The first branch, at an operation that takes the new one: an empty csv comes first in `()`. `memory`
-- is what the allocator returns for it.
unfoldable pub insert_below : Ptr → Ptr → Forest → Code × Forest
unfolding insert_last is_grouping_open is_grouping_close
insert_below memory pushed f =
    let h = f.operations in
    elim (is_grouping_open (h f.last).kind
      && (argc (h f.last) == 0)
      && is_grouping_close (h pushed).kind) [
        | false ↦ insert_last f.last pushed f
        | true ↦
            if memory == null
            then (enomem, f)
            else let r =
                insert f.last memory (argc (h f.last))
                  (record f { operations = store h memory empty_csv }) in
              elim r.0 [ success ↦ insert_last f.last pushed r.1 | _ ↦ r ]
      ]

-- The end of the function: the new operation displaces the target, or the root.
unfoldable pub displace : ℕ → ℕ → Ptr → Forest → Result (Code × Forest)
unfolding hungry
displace steps rank pushed f = elim (find_target steps rank f.operations f.last) [
  | fault ↦ fault
  | err e ↦ ok (e, f)
  | ok target ↦
      if not (hungry (f.operations pushed))
      then ok (einval, f)
      else ok (adopt pushed (if target == null then f.root else target) f)
]

-- The search for an operation that takes the new one, for those that are complete and for groupings.
unfoldable pub place_above : ℕ → ℕ → Ptr → Forest → Result (Code × Forest)
unfolding displace find_hungry insert_last is_grouping_open
place_above steps rank pushed f =
    let o = f.operations pushed in
    elim ((argc o == expected_argc o) || is_grouping_open o.kind) [
      | false ↦ displace steps rank pushed f
      | true ↦ elim (find_hungry steps rank f.operations f.last) [
        | fault ↦ fault
        | err e ↦ ok (e, f)
        | ok p ↦ if p == null then displace steps rank pushed f else ok (insert_last p pushed f)
      ]
    ]

-- `vltl_ast_tree_insert`
unfoldable pub tree_insert : ℕ → Ptr → Ptr → Forest → Result (Code × Forest)
unfolding insert_below place_above insert_last hungry
tree_insert steps memory pushed f =
    let h = f.operations in
    if not (operation_valid (h pushed))
    then ok (einval, f)
    else if f.root == null
    then (let r = insert null pushed 0 f in
        elim r.0 [ success ↦ ok (success, record r.1 { last = pushed }) | _ ↦ ok r ])
    else if f.last == null
    then ok (enotrecoverable, f)
    else elim (precedence (h pushed)) [
      | fault ↦ fault
      | err e ↦ ok (e, f)
      | ok rank ↦ elim (precedence (h f.last)) [
        | fault ↦ fault
        | err e ↦ ok (e, f)
        | ok last_rank ↦ elim (leb rank last_rank && hungry (h f.last)) [
          | true ↦ ok (insert_below memory pushed f)
          | false ↦ place_above steps rank pushed f
        ]
      ]
    ]
