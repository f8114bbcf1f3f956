-- ===== src/Sast/Convert/Loop.antt =====
-- src/sast.c: the loop of vltl_sast_tree_convert, over two stacks.
use volatile.Base.{
  ℕ, zero, suc, Bool, Option, none, some, List, [], ◌∷◌, ◌++◌, ◌==◌, leb, not, ◌&&◌, if◌then◌else◌,
  Result, ok, err, fault, ◌>>=◌, einval, exfull,
}
use mathlib.Core.List.{map}
use volatile.Asm.{Isa}
use volatile.Ast.{expected_of}
use volatile.Sast.{
  SastKind, SastOperation, node, kind, args_argc, expected_argc, variable_argc, operation_valid,
}
use volatile.Sast.Source.{Source, Sources, source, empty, arg, source_argc}
use volatile.Sast.Convert.{Pointer, convert_operation}
use volatile.Sast.Convert.Paths.{find, modify, append_argument}

-- The tree that is built, `ast_operations_to_visit` and `sast_operations_to_insert_below`, the top first, and memory.
-- A stack of 999 places has room for the operations of a line of 98 tokens.
pub record State (Heap : Type 0) : Type 0 where
  pub root : Option SastOperation
  pub to_visit : List Source
  pub insert_below : List Pointer
  pub heap : Heap

-- The parent that an operation has from its insertion on.
unfoldable pub set_parent : Option SastKind → SastOperation → SastOperation
set_parent q (node k p xs bs cs e d) = node k q xs bs cs e d

-- That an operation cannot take another argument.
unfoldable pub is_full : SastOperation → Bool
unfolding variable_argc args_argc expected_argc
is_full o = not (variable_argc o) && leb (expected_argc o) (args_argc o)

-- Pushes of the arguments, the last one first.
unfoldable pub push_arguments : Sources → List Source → List Source
push_arguments empty rest = rest
push_arguments (arg s ss) rest = s ∷ push_arguments ss rest

-- An error in a round ends the loop.
unfoldable pub unless_failed : {A : Type 0} → (A → Option (Result A)) → Result A → Option (Result A)
unless_failed next (ok a) = next a
unless_failed next r = some r

module _ {Heap : Type 0} (varena_alloc : Heap → Option Heap) (isa : Isa) where
  -- `vltl_sast_tree_convert_helper` on the operation that it takes from the stack, where `insert_below` is empty.
  unfoldable pub convert_root : Source → State Heap → Result (State Heap)
  unfolding convert_operation operation_valid push_arguments set_parent
  convert_root (source k m t l ss) st =
      convert_operation varena_alloc isa (source k m t l ss) st.heap >>= λ c.
      if not (operation_valid c.equivalent) then err einval else elim st.root [
        | some r ↦ err einval
        | none ↦ ok (record {
          root = some (set_parent none c.equivalent);
          to_visit = push_arguments ss st.to_visit;
          insert_below = c.pushed;
          heap = c.heap;
        })
      ]

  -- The same below an operation, which it takes from the other stack.
  unfoldable pub convert_below :
      Source → SastOperation → Pointer → SastOperation → State Heap → Result (State Heap)
  unfolding convert_operation operation_valid push_arguments set_parent is_full
  convert_below (source k m t l ss) root path parent st =
      if is_full parent
      then err exfull
      else convert_operation varena_alloc isa (source k m t l ss) st.heap >>= λ c.
          if not (operation_valid parent)
          then err einval
          else if not (operation_valid c.equivalent)
          then err einval
          else ok (record {
            root =
                some (
                  modify path (append_argument (set_parent (some (kind parent)) c.equivalent))
                    root);
            to_visit = push_arguments ss st.to_visit;
            insert_below =
                map (λ q. (path ++ (args_argc parent ∷ [])) ++ q) c.pushed ++ st.insert_below;
            heap = c.heap;
          })

  -- `vltl_sast_tree_convert_helper`. A pointer leads to an operation of the tree.
  unfoldable pub convert_helper : State Heap → Result (State Heap)
  unfolding convert_root convert_below source_argc
  convert_helper st = elim st.to_visit [
    | [] ↦ ok st
    | source k m t l ss ∷ visit ↦
        if not (source_argc ss == expected_of k (source_argc ss))
        then err einval
        else elim st.insert_below [
          | [] ↦ convert_root (source k m t l ss) (record st { to_visit = visit })
          | path ∷ paths ↦ elim st.root [
            | none ↦ fault
            | some root ↦ elim (find path root) [
              | none ↦ fault
              | some parent ↦
                  convert_below (source k m t l ss) root path parent
                    (record st { to_visit = visit; insert_below = paths })
            ]
          ]
        ]
  ]

  -- The loop of `vltl_sast_tree_convert`, for a number of rounds: `none` if they do not end it.
  unfoldable pub tree_loop : ℕ → State Heap → Option (Result (State Heap))
  unfolding convert_helper unless_failed
  tree_loop zero st = elim st.to_visit [ [] ↦ some (ok st) | _ ↦ none ]
  tree_loop (suc rounds) st = elim st.to_visit [
    | [] ↦ some (ok st)
    | _ ↦ unless_failed (tree_loop rounds) (convert_helper st)
  ]

  -- The loop of `vltl_sast_tree_convert` from its start, on a tree whose root is not NULL.
  unfoldable pub convert_tree : ℕ → Source → Heap → Option (Result (State Heap))
  unfolding tree_loop
  convert_tree rounds s heap =
      tree_loop rounds (record { root = none; to_visit = s ∷ []; insert_below = []; heap = heap })
