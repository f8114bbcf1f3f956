-- ===== src/Sast/Convert/Lower.antt =====
-- src/sast.c: what a tree is converted to, without the loop and its stacks.
use volatile.Base.{ℕ, ◌≡◌, true, Option, none, some, ok}
use volatile.Asm.{Operand, rax}
use volatile.Ast.{AstKind}
use volatile.Sast.{
  SastKind, SastOperation, Operations, node, nil, cons, store, load, lea, load_src3, call,
  indirection, add, sub, mul, div, test_equals, comma, csv, typeas, global, constant, local,
  function, if_kind, elif_kind, else_kind, while_kind, body_open, body_close, ret, cdecl0, cdecl1,
  cdecl2, cdecl3, cdecl4, grouping_open, grouping_close, index_close,
}
use volatile.Sast.Fold.{number}
use volatile.Sast.Connect.{register_operand}
use volatile.Sast.Source.{Meaning, Source, Sources, source, empty, arg, source_argc}
use volatile.Sast.Convert.{eval_below, bare_node, meaning_operand, function_operand}

-- The kinds whose operations become one operation of a kind over the converted arguments, and their number.
abbrev pub simple_kind : AstKind → Option (SastKind × ℕ)
simple_kind k = elim k [
  | AstKind.grouping_open ↦ some (grouping_open, 2)
  | AstKind.grouping_close ↦ some (grouping_close, 0)
  | AstKind.index_close ↦ some (index_close, 0)
  | AstKind.indirection ↦ some (indirection, 1)
  | AstKind.add ↦ some (add, 2)
  | AstKind.sub ↦ some (sub, 2)
  | AstKind.mul ↦ some (mul, 2)
  | AstKind.test_equals ↦ some (test_equals, 2)
  | AstKind.comma ↦ some (comma, 2)
  | AstKind.typeas ↦ some (typeas, 2)
  | AstKind.equals ↦ some (store, 2)
  | AstKind.global ↦ some (global, 1)
  | AstKind.constant ↦ some (constant, 1)
  | AstKind.local ↦ some (local, 1)
  | AstKind.function ↦ some (function, 3)
  | AstKind.if_kind ↦ some (if_kind, 2)
  | AstKind.elif_kind ↦ some (elif_kind, 3)
  | AstKind.else_kind ↦ some (else_kind, 2)
  | AstKind.while_kind ↦ some (while_kind, 2)
  | AstKind.body_open ↦ some (body_open, 0)
  | AstKind.body_close ↦ some (body_close, 0)
  | _ ↦ none
]

abbrev pub cdecl_kind : AstKind → Option SastKind
cdecl_kind k = elim k [
  | AstKind.cdecl0 ↦ some cdecl0
  | AstKind.cdecl1 ↦ some cdecl1
  | AstKind.cdecl2 ↦ some cdecl2
  | AstKind.cdecl3 ↦ some cdecl3
  | AstKind.cdecl4 ↦ some cdecl4
  | _ ↦ none
]

-- A tree that is converted and what it becomes below a parent of a kind: a value becomes an operand, most operations
-- one of the same arguments, and a division, a return, an address, an index and a call the operations that
-- load their arguments to where they are needed.
mutual
  pub data Lowers : Option SastKind → Source → SastOperation → Type 0 where
    value :
        {q : Option SastKind} {m : Meaning} {l : Option AstKind} (e : Operand)
        → meaning_operand m ≡ ok e
        → Lowers q (source AstKind.eval m true l empty) (eval_below q e)
    declared :
        {q : Option SastKind} {k : AstKind} {m : Meaning} {l : Option AstKind} (k' : SastKind)
        (e : Operand)
        → cdecl_kind k ≡ some k'
        → function_operand m ≡ ok e
        → Lowers q (source k m true l empty) (node k' q nil nil nil e Operand.unset)
    simple :
        {q : Option SastKind} {k : AstKind} {m : Meaning} {l : Option AstKind} {ss : Sources}
        {xs : Operations} (k' : SastKind)
        → simple_kind k ≡ some (k', source_argc ss)
        → LowersAll (some k') ss xs
        → Lowers q (source k m true l ss) (bare_node k' q xs)
    listed :
        {q : Option SastKind} {m : Meaning} {l : Option AstKind} {ss : Sources} {xs : Operations}
        → LowersAll (some csv) ss xs
        → Lowers q (source AstKind.csv m true l ss) (bare_node csv q xs)
    called :
        {q : Option SastKind} {m : Meaning} {l : Option AstKind} {s : Source} {x : SastOperation}
        (e : Operand)
        → function_operand m ≡ ok e
        → Lowers (some call) s x
        → Lowers q (source AstKind.call m true l (arg s empty)) (
            node call q
              (cons (eval_below (some call) e) (cons x nil))
              nil
              nil
              Operand.unset
              (register_operand rax))
    addressed :
        {q : Option SastKind} {m : Meaning} {l : Option AstKind} {s : Source} {x : SastOperation}
        → Lowers (some lea) s x
        → Lowers q
            (source AstKind.address m true l (arg s empty))
            (bare_node lea q (cons (eval_below (some lea) Operand.tbd) (cons x nil)))
    returned :
        {q : Option SastKind} {m : Meaning} {l : Option AstKind} {s : Source} {x : SastOperation}
        → Lowers (some store) s x
        → Lowers q (source AstKind.return m true l (arg s empty)) (
            bare_node ret q (
              cons
                (bare_node store none (cons (eval_below none (register_operand rax)) (cons x nil)))
                nil))
    divided :
        {q : Option SastKind} {m : Meaning} {l : Option AstKind} {s₁ s₂ : Source}
        {x y : SastOperation}
        → Lowers (some store) s₁ x
        → Lowers (some div) s₂ y
        → Lowers q (source AstKind.div m true l (arg s₁ (arg s₂ empty))) (
            node div q
              (cons
                (bare_node store none (cons (eval_below none (register_operand rax)) (cons x nil)))
                (cons y nil))
              nil
              nil
              Operand.unset
              (register_operand rax))
    indexed :
        {q : Option SastKind} {m : Meaning} {l : Option AstKind} {s₁ s₂ s₃ : Source}
        {x y z : SastOperation}
        → Lowers (some load) s₁ x
        → Lowers (some load_src3) s₂ y
        → Lowers (some load_src3) s₃ z
        → Lowers q (source AstKind.index_open m true l (arg s₁ (arg s₂ (arg s₃ empty)))) (
            node load_src3 q
              (cons (eval_below (some load_src3) Operand.tbd) (
                cons
                  (bare_node load
                    (some load_src3)
                    (cons (eval_below (some load) Operand.tbd) (cons x nil)))
                  (cons (eval_below (some load_src3) (number 0)) (cons y (cons z nil)))))
              nil
              nil
              Operand.unset
              Operand.tbd)

  pub data LowersAll : Option SastKind → Sources → Operations → Type 0 where
    none_left : {q : Option SastKind} → LowersAll q empty nil
    next :
        {q : Option SastKind} {s : Source} {ss : Sources} {x : SastOperation} {xs : Operations}
        → Lowers q s x
        → LowersAll q ss xs
        → LowersAll q (arg s ss) (cons x xs)
