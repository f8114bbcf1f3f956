-- ===== src/Sast/Call.antt =====
-- src/sast.c: an operation above another, and the arguments of a call.
use volatile.Base.{
  ℕ, suc, length, ◌⊎◌, ◌≢◌, ◌<◌, ◌≤◌, ◌≡◌, refl, ◌∙◌, true, Option, none, some, List, [], ◌∷◌, ◌==◌,
  ltb, not, ◌||◌, if◌then◌else◌, Result, ok, err, fault, ◌>>=◌, einval, enomem, enotrecoverable,
  arith, inl, inr,
}
use volatile.Asm.{Operand, AsmRegister, rdi, rsi, rdx, rcx}
use volatile.Sast.{
  SastKind, SastOperation, Operations, node, nil, cons, kind, kind_valid, arguments, destination,
  operation_valid, count, arguments_max, append_within, load, eval, csv,
}
use volatile.Sast.Connect.{register_operand}

-- An allocation that gives NULL is ENOMEM.
unfoldable pub allocated : {A : Type 0} → Option A → Result A
allocated none = err enomem
allocated (some a) = ok a

-- An operation below a parent of a kind.
unfoldable pub below : SastKind → SastOperation → SastOperation
below q (node k p xs bs cs e d) = node k (some q) xs bs cs e d

-- `vltl_sast_operation_adopt`: what stands in the place of `adopt_this` after. The array of a new parent that is
-- full is overrun.
unfoldable pub adopt : SastOperation → SastOperation → Result SastOperation
unfolding operation_valid count append_within below
adopt (node k p xs bs cs e d) (node k₁ p₁ xs₁ bs₁ cs₁ e₁ d₁) =
    if not (operation_valid (node k p xs bs cs e d))
      || not (operation_valid (node k₁ p₁ xs₁ bs₁ cs₁ e₁ d₁))
    then err einval
    else if ltb (count xs) arguments_max
    then ok (
        node k p₁ (append_within arguments_max xs (below k (node k₁ p₁ xs₁ bs₁ cs₁ e₁ d₁))) bs cs e
          d)
    else fault

-- The switch of `vltl_sast_tree_reshape_call_helper`.
unfoldable pub call_register : ℕ → Result AsmRegister
call_register index =
    if index == 0
    then ok rdi
    else if index == 1
    then ok rsi
    else if index == 2
    then ok rdx
    else if index == 3
    then ok rcx
    else err enotrecoverable

-- `destination_operation` of `vltl_sast_tree_reshape_call_helper`.
abbrev pub loaded_register : AsmRegister → SastOperation
loaded_register r = node eval (some load) nil nil nil (register_operand r) Operand.unset

module _ {Heap : Type 0} (varena_alloc : Heap → Option Heap) where
  -- `vltl_sast_tree_reshape_call_helper`: what stands in the place of the argument after.
  unfoldable pub call_helper : ℕ → SastOperation → Heap → Result (SastOperation × Heap)
  unfolding allocated adopt call_register
  call_helper index operation heap = call_register index >>= λ r.
      allocated (varena_alloc heap) >>= λ heap₁. allocated (varena_alloc heap₁) >>= λ heap₂.
      adopt
        (node load none (cons (loaded_register r) nil) nil nil Operand.unset (register_operand r))
        operation
      >>= λ o. ok (o, heap₂)

  -- The loop of `vltl_sast_tree_reshape_call` over the arguments of a list.
  unfoldable pub call_each : ℕ → Operations → Heap → Result (Operations × Heap)
  unfolding call_helper
  call_each index nil heap = ok (nil, heap)
  call_each index (cons x xs) heap = call_helper index x heap >>= λ (y, heap₁).
      call_each (suc index) xs heap₁ >>= λ (ys, heap₂). ok (cons y ys, heap₂)

  -- `vltl_sast_tree_reshape_call` on `function_arguments`.
  unfoldable pub call_arguments : SastOperation → Heap → Result (SastOperation × Heap)
  unfolding call_each
  call_arguments (node csv p xs bs cs e d) heap =
      call_each 0 xs heap >>= λ (ys, heap₁). ok (node csv p ys bs cs e d, heap₁)
  call_arguments o heap = call_helper 0 o heap

  -- `vltl_sast_tree_reshape_call`
  unfoldable pub reshape_call : SastOperation → Heap → Result (SastOperation × Heap)
  unfolding call_arguments
  reshape_call (node k p (cons x (cons (node k₁ p₁ (cons y ys) bs₁ cs₁ e₁ d₁) zs)) bs cs e d) heap =
      call_arguments y heap >>= λ (y₁, heap₁).
      ok (node k p (cons x (cons (node k₁ p₁ (cons y₁ ys) bs₁ cs₁ e₁ d₁) zs)) bs cs e d, heap₁)
  reshape_call o heap = err einval

-- The registers of the arguments of a call.
abbrev pub argument_registers : List AsmRegister
argument_registers = rdi ∷ rsi ∷ rdx ∷ rcx ∷ []

-- Each argument is loaded to its register, in order: an operation stands above it.
pub data Loads : List AsmRegister → Operations → Operations → Type 0 where
  none_left : {rs : List AsmRegister} → Loads rs nil nil
  next :
      {r : AsmRegister} {rs : List AsmRegister} {x y : SastOperation} {xs ys : Operations}
      → kind y ≡ load
      → arguments y ≡ cons (loaded_register r) (cons (below load x) nil)
      → destination y ≡ register_operand r
      → Loads rs xs ys
      → Loads (r ∷ rs) (cons x xs) (cons y ys)

pub data AllValid : Operations → Type 0 where
  none_left : AllValid nil
  next :
      {x : SastOperation} {xs : Operations}
      → operation_valid x ≡ true
      → AllValid xs
      → AllValid (cons x xs)

-- The registers that are left from an index on.
data From : ℕ → List AsmRegister → Type 0 where
  last : {index : ℕ} → call_register index ≡ err enotrecoverable → From index []
  more :
      {index : ℕ} {r : AsmRegister} {rs : List AsmRegister}
      → call_register index ≡ ok r
      → From (suc index) rs
      → From index (r ∷ rs)

argument_registers-From : From 0 argument_registers
unfolding call_register
argument_registers-From = more refl (more refl (more refl (more refl (last refl))))

single :
    {Heap : Type 0} (varena_alloc : Heap → Option Heap) (o : SastOperation) (heap : Heap)
    → kind o ≢ csv
    → call_arguments varena_alloc o heap ≡ call_helper varena_alloc 0 o heap
unfolding call_arguments kind
single varena_alloc (node csv p xs bs cs e d) heap n = absurd (n refl)
single varena_alloc (node _ p xs bs cs e d) heap n = refl

module _ {Heap : Type 0} (varena_alloc : Heap → Option Heap)
    (allocates : (heap : Heap) → (h : Heap) × (varena_alloc heap ≡ some h)) where
  call_helper-load :
      (index : ℕ) (r : AsmRegister) (x : SastOperation) (heap : Heap)
      → call_register index ≡ ok r
      → operation_valid x ≡ true
      → (y : SastOperation) × (heap' : Heap) × (call_helper varena_alloc index x heap
          ≡ ok (y, heap'))
        × (kind y ≡ load)
        × (arguments y ≡ cons (loaded_register r) (cons (below load x) nil))
        × (destination y ≡ register_operand r)
  unfolding call_helper allocated adopt operation_valid kind_valid kind arguments destination below
      append_within count
  call_helper-load index r (node k p xs bs cs e d) heap q v =
      let (heap₁, a) = allocates heap in
      let (heap₂, b) = allocates heap₁ in
      (
        node load p (cons (loaded_register r) (cons (below load (node k p xs bs cs e d)) nil)) nil
            nil Operand.unset (register_operand r),
        heap₂,
        rw (q, a, b, v) refl,
        refl,
        refl,
        refl,
      )

  call_each-Loads :
      {index : ℕ} {rs : List AsmRegister} (xs : Operations) (heap : Heap)
      → From index rs
      → AllValid xs
      → ((count xs ≤ length rs)
          × ((ys : Operations) × (heap' : Heap) × (call_each varena_alloc index xs heap
                ≡ ok (ys, heap'))
              × Loads rs xs ys))
        ⊎ ((length rs < count xs) × (call_each varena_alloc index xs heap ≡ err enotrecoverable))
  unfolding call_each call_helper count
  call_each-Loads nil heap f none_left = inl (omega arith, (nil, heap, refl, none_left))
  call_each-Loads (cons x xs) heap (last q) (next v w) = inr (omega arith, rw q refl)
  call_each-Loads {index} (cons x xs) heap (more {r} q f) (next v w) =
      let (y, heap₁, e, k, a, d) = call_helper-load index r x heap q v in
      elim (call_each-Loads xs heap₁ f w) [
        | inl (l, (ys, heap₂, g, t)) ↦
            inl (omega (arith, l), (cons y ys, heap₂, rw (e, g) refl, next k a d t))
        | inr (l, g) ↦ inr (omega (arith, l), rw (e, g) refl)
      ]

  -- Where the allocations succeed: the arguments of a call, valid operations in a list, are loaded one after the other
  -- to rdi, rsi, rdx and rcx, where there are at most four; more are an error. A valid argument that is not a list
  -- is loaded to rdi.
  pub call_arguments-Loads :
      (p : Option SastKind) (xs bs cs : Operations) (e d : Operand) (o : SastOperation)
      (heap : Heap)
      → AllValid xs
      → operation_valid o ≡ true
      → kind o ≢ csv
      → (((count xs ≤ 4)
            × ((ys : Operations) × (heap' : Heap) × (call_arguments varena_alloc
                    (node csv p xs bs cs e d)
                    heap
                  ≡ ok (node csv p ys bs cs e d, heap'))
                × Loads argument_registers xs ys))
          ⊎ ((4 < count xs)
              × (call_arguments varena_alloc (node csv p xs bs cs e d) heap ≡ err enotrecoverable)))
        × ((y : SastOperation) × (heap' : Heap) × (call_arguments varena_alloc o heap
              ≡ ok (y, heap'))
            × Loads (rdi ∷ []) (cons o nil) (cons y nil))
  unfolding call_arguments call_register
  call_arguments-Loads p xs bs cs e d o heap w v n =
      let (y, heap₁, f, k, a, t) = call_helper-load 0 rdi o heap refl v in
      (
        elim (call_each-Loads xs heap argument_registers-From w) [
          | inl (l, (ys, heap₂, g, u)) ↦ inl (l, (ys, heap₂, rw g refl, u))
          | inr (l, g) ↦ inr (l, rw g refl)
        ],
        (y, heap₁, single varena_alloc o heap n ∙ f, next k a t none_left),
      )
