-- ===== src/Sast/Convert.antt =====
-- src/sast.c: an operation of the syntax tree, converted.
pub mod Paths
pub mod Loop
pub mod Lower
pub mod Made
pub mod Runs
pub mod Ends
use volatile.Base.{
  ℕ, zero, suc, ◌≡◌, refl, Bool, true, false, Option, none, some, List, [], ◌∷◌, replicate, Bytes,
  ◌==◌, if◌then◌else◌, not, Result, ok, err, fault, ◌>>=◌, einval,
}
use volatile.Asm.{
  Operand, OperandMemory, MemoryKind, int_scalar64, base10, immediate, Isa, is_amd64, rax,
}
use volatile.Ast.{AstKind}
use volatile.Sast.{
  SastKind, SastOperation, Operations, node, nil, cons, eval, store, load, lea, load_src3, call,
  address, indirection, add, sub, mul, div, test_equals, comma, csv, typeas, global, constant,
  local, external, function, if_kind, elif_kind, else_kind, while_kind, body_open, body_close, ret,
  cdecl0, cdecl1, cdecl2, cdecl3, cdecl4, grouping_open, grouping_close, index_close,
}
use volatile.Sast.Fold.{number}
use volatile.Sast.Connect.{register_operand}
use volatile.Sast.Call.{allocated}
use volatile.Sast.Source.{Meaning, missing, Source, Sources, source, source_argc, source_valid}

-- A pointer to an operation of a tree: the indices of the arguments that lead to it from above.
abbrev pub Pointer : Type 0
Pointer = List ℕ

-- The memory that a global or local name stands for.
abbrev pub named : MemoryKind → Option Bytes → Operand
named k name = Operand.memory (record { memory_kind = k; name = name })

-- The switch of `vltl_sast_operation_convert_amd64_eval`.
unfoldable pub meaning_operand : Meaning → Result Operand
meaning_operand (Meaning.constant v) = ok (number v)
meaning_operand (Meaning.literal t v) =
    ok (immediate (record { integral_type = t; representation = base10; value = v }))
meaning_operand (Meaning.global n) = ok (named MemoryKind.global n)
meaning_operand (Meaning.local n) = ok (named MemoryKind.local n)
meaning_operand (Meaning.unknown n) = ok (Operand.unknown n)
meaning_operand missing = fault
meaning_operand _ = err einval

-- A read of the member `function`; another member has no meaning as a function.
unfoldable pub function_operand : Meaning → Result Operand
function_operand (Meaning.function f) = ok (Operand.function f)
function_operand _ = fault

-- A value below a parent of a kind.
abbrev pub eval_below : Option SastKind → Operand → SastOperation
eval_below p e = node eval p nil nil nil e Operand.unset

-- An operation with arguments, and no operand yet.
abbrev pub bare_node : SastKind → Option SastKind → Operations → SastOperation
bare_node k p xs = node k p xs nil nil Operand.unset Operand.unset

-- An allocation that is tested by `IESTACK_SUPPOSE` with EINVAL, and one that is not tested.
unfoldable pub supposed : {A : Type 0} → Option A → Result A
supposed none = err einval
supposed (some a) = ok a

unfoldable pub written : {A : Type 0} → Option A → Result A
written none = fault
written (some a) = ok a

-- What is made of an operation, `equivalent`, and the pointers that are pushed on `insert_below_next`, the top first,
-- from `equivalent` on.
pub record Converted (Heap : Type 0) : Type 0 where
  pub equivalent : SastOperation
  pub pushed : List Pointer
  pub heap : Heap

module _ {Heap : Type 0} (varena_alloc : Heap → Option Heap) where
  -- A new operation of a kind, below which a number of arguments is inserted next: what most of the functions
  -- `vltl_sast_operation_convert_amd64_X` do.
  unfoldable pub convert_plain : SastKind → ℕ → Heap → Result (Converted Heap)
  unfolding allocated
  convert_plain k n heap = allocated (varena_alloc heap) >>= λ heap₁.
      ok (record { equivalent = bare_node k none nil; pushed = replicate n []; heap = heap₁ })

  -- `vltl_sast_operation_convert_amd64_eval`
  unfoldable pub convert_eval : Meaning → Heap → Result (Converted Heap)
  unfolding allocated meaning_operand
  convert_eval m heap = allocated (varena_alloc heap) >>= λ heap₁. meaning_operand m >>= λ e.
      ok (record { equivalent = eval_below none e; pushed = []; heap = heap₁ })

  -- `vltl_sast_operation_convert_amd64_store`
  unfoldable pub convert_store : Heap → Result (Converted Heap)
  unfolding convert_plain
  convert_store = convert_plain store 2

  -- `vltl_sast_operation_convert_amd64_return`
  unfoldable pub convert_return : Heap → Result (Converted Heap)
  unfolding allocated
  convert_return heap = allocated (varena_alloc heap) >>= λ heap₁.
      allocated (varena_alloc heap₁) >>= λ heap₂. allocated (varena_alloc heap₂) >>= λ heap₃.
      ok (record {
        equivalent =
            bare_node ret none
              (cons (bare_node store none (cons (eval_below none (register_operand rax)) nil)) nil);
        pushed = (0 ∷ []) ∷ [];
        heap = heap₃;
      })

  -- `vltl_sast_operation_convert_amd64_call`
  unfoldable pub convert_call : Meaning → Heap → Result (Converted Heap)
  unfolding allocated function_operand
  convert_call m heap = allocated (varena_alloc heap) >>= λ heap₁.
      allocated (varena_alloc heap₁) >>= λ heap₂. function_operand m >>= λ e. ok (record {
        equivalent =
            node call none (cons (eval_below (some call) e) nil) nil nil Operand.unset
              (register_operand rax);
        pushed = [] ∷ [];
        heap = heap₂;
      })

  -- `vltl_sast_operation_convert_amd64_address`
  unfoldable pub convert_address : Heap → Result (Converted Heap)
  unfolding allocated
  convert_address heap = allocated (varena_alloc heap) >>= λ heap₁.
      allocated (varena_alloc heap₁) >>= λ heap₂. ok (record {
        equivalent = bare_node lea none (cons (eval_below (some lea) Operand.tbd) nil);
        pushed = [] ∷ [];
        heap = heap₂;
      })

  -- `vltl_sast_operation_convert_amd64_indirection_get`
  unfoldable pub convert_indirection_get : Heap → Result (Converted Heap)
  unfolding convert_plain
  convert_indirection_get = convert_plain indirection 1

  -- `vltl_sast_operation_convert_amd64_indirection_set`
  unfoldable pub convert_indirection_set : Heap → Result (Converted Heap)
  unfolding convert_plain
  convert_indirection_set = convert_plain indirection 1

  -- `vltl_sast_operation_convert_amd64_indirection`, of the kind of the parent whose left child it is.
  unfoldable pub convert_indirection : Option AstKind → Heap → Result (Converted Heap)
  unfolding convert_indirection_get convert_indirection_set
  convert_indirection none = convert_indirection_get
  convert_indirection (some AstKind.equals) = convert_indirection_set
  convert_indirection (some _) = convert_indirection_get

  -- `vltl_sast_operation_convert_amd64_div`: only the first allocation is tested.
  unfoldable pub convert_div : Heap → Result (Converted Heap)
  unfolding allocated written
  convert_div heap = allocated (varena_alloc heap) >>= λ heap₁.
      written (varena_alloc heap₁) >>= λ heap₂. written (varena_alloc heap₂) >>= λ heap₃.
      ok (record {
        equivalent =
            node div none
              (cons (bare_node store none (cons (eval_below none (register_operand rax)) nil)) nil)
              nil nil Operand.unset (register_operand rax);
        pushed = (0 ∷ []) ∷ [] ∷ [];
        heap = heap₃;
      })

  -- `vltl_sast_operation_convert_amd64_index_open`
  unfoldable pub convert_index_open : Heap → Result (Converted Heap)
  unfolding supposed
  convert_index_open heap = supposed (varena_alloc heap) >>= λ heap₁.
      supposed (varena_alloc heap₁) >>= λ heap₂. supposed (varena_alloc heap₂) >>= λ heap₃.
      supposed (varena_alloc heap₃) >>= λ heap₄. supposed (varena_alloc heap₄) >>= λ heap₅.
      ok (record {
        equivalent =
            node load_src3 none
              (cons (eval_below (some load_src3) Operand.tbd) (
                cons
                  (bare_node load (some load_src3) (cons (eval_below (some load) Operand.tbd) nil))
                  (cons (eval_below (some load_src3) (number 0)) nil)))
              nil nil Operand.unset Operand.tbd;
        pushed = (1 ∷ []) ∷ [] ∷ [] ∷ [];
        heap = heap₅;
      })

  -- `vltl_sast_operation_convert_amd64_csv`
  unfoldable pub convert_csv : Sources → Heap → Result (Converted Heap)
  unfolding convert_plain source_argc
  convert_csv ss = convert_plain csv (source_argc ss)

  -- `vltl_sast_operation_convert_amd64_cdecl0`, and so on to 4.
  unfoldable pub convert_cdecl : SastKind → Meaning → Heap → Result (Converted Heap)
  unfolding allocated function_operand
  convert_cdecl k m heap = allocated (varena_alloc heap) >>= λ heap₁. function_operand m >>= λ e.
      ok
        (record { equivalent = node k none nil nil nil e Operand.unset; pushed = []; heap = heap₁ })

  -- `vltl_sast_operation_convert_amd64_add`
  unfoldable pub convert_add : Heap → Result (Converted Heap)
  unfolding convert_plain
  convert_add = convert_plain add 2

  -- `vltl_sast_operation_convert_amd64_sub`
  unfoldable pub convert_sub : Heap → Result (Converted Heap)
  unfolding convert_plain
  convert_sub = convert_plain sub 2

  -- `vltl_sast_operation_convert_amd64_mul`
  unfoldable pub convert_mul : Heap → Result (Converted Heap)
  unfolding convert_plain
  convert_mul = convert_plain mul 2

  -- `vltl_sast_operation_convert_amd64_test_equals`
  unfoldable pub convert_test_equals : Heap → Result (Converted Heap)
  unfolding convert_plain
  convert_test_equals = convert_plain test_equals 2

  -- `vltl_sast_operation_convert_amd64_comma`
  unfoldable pub convert_comma : Heap → Result (Converted Heap)
  unfolding convert_plain
  convert_comma = convert_plain comma 2

  -- `vltl_sast_operation_convert_amd64_typeas`
  unfoldable pub convert_typeas : Heap → Result (Converted Heap)
  unfolding convert_plain
  convert_typeas = convert_plain typeas 2

  -- `vltl_sast_operation_convert_amd64_global`
  unfoldable pub convert_global : Heap → Result (Converted Heap)
  unfolding convert_plain
  convert_global = convert_plain global 1

  -- `vltl_sast_operation_convert_amd64_local`
  unfoldable pub convert_local : Heap → Result (Converted Heap)
  unfolding convert_plain
  convert_local = convert_plain local 1

  -- `vltl_sast_operation_convert_amd64_constant`
  unfoldable pub convert_constant : Heap → Result (Converted Heap)
  unfolding convert_plain
  convert_constant = convert_plain constant 1

  -- `vltl_sast_operation_convert_amd64_function`
  unfoldable pub convert_function : Heap → Result (Converted Heap)
  unfolding convert_plain
  convert_function = convert_plain function 3

  -- `vltl_sast_operation_convert_amd64_external`
  unfoldable pub convert_external : Heap → Result (Converted Heap)
  unfolding convert_plain
  convert_external = convert_plain external 1

  -- `vltl_sast_operation_convert_amd64_body_open`
  unfoldable pub convert_body_open : Heap → Result (Converted Heap)
  unfolding convert_plain
  convert_body_open = convert_plain body_open 0

  -- `vltl_sast_operation_convert_amd64_if`
  unfoldable pub convert_if : Heap → Result (Converted Heap)
  unfolding convert_plain
  convert_if = convert_plain if_kind 2

  -- `vltl_sast_operation_convert_amd64_elif`
  unfoldable pub convert_elif : Heap → Result (Converted Heap)
  unfolding convert_plain
  convert_elif = convert_plain elif_kind 3

  -- `vltl_sast_operation_convert_amd64_else`
  unfoldable pub convert_else : Heap → Result (Converted Heap)
  unfolding convert_plain
  convert_else = convert_plain else_kind 2

  -- `vltl_sast_operation_convert_amd64_while`
  unfoldable pub convert_while : Heap → Result (Converted Heap)
  unfolding convert_plain
  convert_while = convert_plain while_kind 2

  -- `vltl_sast_operation_convert_amd64_body_close`
  unfoldable pub convert_body_close : Heap → Result (Converted Heap)
  unfolding convert_plain
  convert_body_close = convert_plain body_close 0

  -- `vltl_sast_operation_convert_amd64_grouping_open`
  unfoldable pub convert_grouping_open : Heap → Result (Converted Heap)
  unfolding convert_plain
  convert_grouping_open = convert_plain grouping_open 2

  -- `vltl_sast_operation_convert_amd64_grouping_close`
  unfoldable pub convert_grouping_close : Heap → Result (Converted Heap)
  unfolding convert_plain
  convert_grouping_close = convert_plain grouping_close 0

  -- `vltl_sast_operation_convert_amd64_index_close`
  unfoldable pub convert_index_close : Heap → Result (Converted Heap)
  unfolding convert_plain
  convert_index_close = convert_plain index_close 0

  -- The switch of `vltl_sast_operation_convert_amd64`.
  unfoldable pub convert_amd64 : Source → Heap → Result (Converted Heap)
  unfolding convert_eval convert_store convert_return convert_call convert_address
      convert_indirection convert_div convert_index_open convert_csv convert_cdecl convert_add
      convert_sub convert_mul convert_test_equals convert_comma convert_typeas convert_global
      convert_local convert_constant convert_function convert_external convert_body_open convert_if
      convert_elif convert_else convert_while convert_body_close convert_grouping_open
      convert_grouping_close convert_index_close
  convert_amd64 (source k m typed lchild_of ss) = elim k [
    | AstKind.eval ↦ convert_eval m
    | AstKind.grouping_open ↦ convert_grouping_open
    | AstKind.grouping_close ↦ convert_grouping_close
    | AstKind.index_open ↦ convert_index_open
    | AstKind.index_close ↦ convert_index_close
    | AstKind.call ↦ convert_call m
    | AstKind.address ↦ convert_address
    | AstKind.indirection ↦ convert_indirection lchild_of
    | AstKind.add ↦ convert_add
    | AstKind.sub ↦ convert_sub
    | AstKind.mul ↦ convert_mul
    | AstKind.div ↦ convert_div
    | AstKind.test_equals ↦ convert_test_equals
    | AstKind.comma ↦ convert_comma
    | AstKind.csv ↦ convert_csv ss
    | AstKind.typeas ↦ convert_typeas
    | AstKind.equals ↦ convert_store
    | AstKind.global ↦ convert_global
    | AstKind.constant ↦ convert_constant
    | AstKind.local ↦ convert_local
    | AstKind.external ↦ convert_external
    | AstKind.function ↦ convert_function
    | AstKind.cdecl0 ↦ convert_cdecl cdecl0 m
    | AstKind.cdecl1 ↦ convert_cdecl cdecl1 m
    | AstKind.cdecl2 ↦ convert_cdecl cdecl2 m
    | AstKind.cdecl3 ↦ convert_cdecl cdecl3 m
    | AstKind.cdecl4 ↦ convert_cdecl cdecl4 m
    | AstKind.if_kind ↦ convert_if
    | AstKind.elif_kind ↦ convert_elif
    | AstKind.else_kind ↦ convert_else
    | AstKind.while_kind ↦ convert_while
    | AstKind.body_open ↦ convert_body_open
    | AstKind.body_close ↦ convert_body_close
    | AstKind.return ↦ convert_return
    | _ ↦ (λ heap. err einval)
  ]

  -- `vltl_sast_operation_convert`
  unfoldable pub convert_operation : Isa → Source → Heap → Result (Converted Heap)
  unfolding source_valid is_amd64 convert_amd64
  convert_operation isa src heap =
      if not (source_valid src)
      then err einval
      else if is_amd64 isa
      then convert_amd64 src heap
      else err einval
