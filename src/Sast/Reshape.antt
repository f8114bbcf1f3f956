-- ===== src/Sast/Reshape.antt =====
-- src/sast.c: the reshaping of a tree before its registers are chosen.
pub mod Shape
use volatile.Base.{
  ℕ, suc, Bool, true, false, Option, none, some, ◌==◌, ◌||◌, if◌then◌else◌, Result, ok, err, ◌>>=◌,
  einval,
}
use volatile.Asm.{Operand, register}
use volatile.Sast.{
  SastKind, SastOperation, Operations, node, nil, cons, kind, kind_valid, eval, call, store, typeas,
  address, function, lea, load_src3,
}
use volatile.Sast.Call.{allocated, adopt, reshape_call}

-- An operand that needs no register, or has one.
unfoldable pub settled : Operand → Bool
settled Operand.tbd = true
settled (register r) = true
settled _ = false

-- That an argument of a parent of a kind, at an index, stays as it is: the switch of `vltl_sast_tree_reshape_eval`
-- on the kind of the parent, and the test for NULL before.
unfoldable pub stays : Option SastKind → ℕ → Bool
stays none index = true
stays (some q) index = elim q [
  | typeas ↦ true
  | call ↦ true
  | address ↦ index == 0
  | store ↦ index == 0
  | function ↦ index == 0
  | lea ↦ index == 1
  | load_src3 ↦ index == 1
  | _ ↦ false
]

-- A failure below is EINVAL.
unfoldable pub failure_below : {A : Type 0} → Result A → Result A
failure_below (err c) = err einval
failure_below r = r

-- `store_operation` of `vltl_sast_tree_reshape_eval`.
abbrev pub store_of : Operand → SastOperation
store_of e =
    node store none (cons (node eval (some store) nil nil nil Operand.tbd Operand.unset) nil) nil
      nil e Operand.unset

module _ {Heap : Type 0} (varena_alloc : Heap → Option Heap) where
  -- `vltl_sast_tree_reshape_eval` on the argument at an index of its parent: what stands in its place after.
  unfoldable pub reshape_eval : ℕ → SastOperation → Heap → Result (SastOperation × Heap)
  unfolding settled stays allocated adopt
  reshape_eval index (node k p xs bs cs e d) heap =
      if settled e || (settled d || stays p index)
      then ok (node k p xs bs cs e d, heap)
      else (allocated (varena_alloc heap) >>= λ heap₁. allocated (varena_alloc heap₁) >>= λ heap₂.
          adopt (store_of e) (node k p xs bs cs e d) >>= λ o. ok (o, heap₂))

  -- The switch of `vltl_sast_tree_reshape_recurse`.
  unfoldable pub reshape_here : ℕ → SastOperation → Heap → Result (SastOperation × Heap)
  unfolding kind reshape_eval reshape_call
  reshape_here index o heap = elim (kind o) [
    | eval ↦ reshape_eval index o heap
    | call ↦ reshape_call varena_alloc o heap
    | _ ↦ ok (o, heap)
  ]

  -- `vltl_sast_tree_reshape_recurse`, and its loop over the arguments.
  unfoldable mutual
    unfolding reshape_here kind_valid failure_below

    pub reshape_recurse : ℕ → SastOperation → Heap → Result (SastOperation × Heap)
    reshape_recurse index (node k p xs bs cs e d) heap =
        let children = reshape_each 0 xs heap in
        (if kind_valid k then children else ok (xs, heap)) >>= λ (ys, heap₁).
        reshape_here index (node k p ys bs cs e d) heap₁

    pub reshape_each : ℕ → Operations → Heap → Result (Operations × Heap)
    reshape_each index nil heap = ok (nil, heap)
    reshape_each index (cons x xs) heap =
        failure_below (reshape_recurse index x heap) >>= λ (y, heap₁).
        reshape_each (suc index) xs heap₁ >>= λ (ys, heap₂). ok (cons y ys, heap₂)
