-- ===== src/Sast/Reshape/Shape.antt =====
-- src/sast.c: what the reshaping of a tree makes of it.
use volatile.Base.{
  ℕ, suc, ◌≡◌, ◌≢◌, refl, true, false, Option, none, some, ◌||◌, ok, Bool-cases, inl, inr, sym,
  ==_iff, ◌⊎◌, arith,
}
use mathlib.Core.Path.{subst}
use volatile.Asm.{Operand, OperandRegister, register}
use volatile.Sast.{
  unset, invalid, eof, SastKind, SastOperation, Operations, node, nil, cons, kind, kind_valid,
  operation_valid, count, append_within, eval, call, store, typeas, address, function, lea,
  load_src3,
}
use volatile.Sast.Call.{allocated, adopt, below}
use volatile.Sast.Reshape.{
  settled, stays, reshape_eval, reshape_here, reshape_recurse, reshape_each,
}

-- A tree without calls.
mutual
  pub data NoCalls : SastOperation → Type 0 where
    no_call :
        {k : SastKind} {p : Option SastKind} {xs bs cs : Operations} {e d : Operand}
        → k ≢ call
        → NoneCalls xs
        → NoCalls (node k p xs bs cs e d)

  pub data NoneCalls : Operations → Type 0 where
    none_left : NoneCalls nil
    next : {x : SastOperation} {xs : Operations} → NoCalls x → NoneCalls xs → NoneCalls (cons x xs)

-- An operand that is a register, or is to be determined.
pub data IsRegister : Operand → Type 0 where
  determined_later : IsRegister Operand.tbd
  in_register : {r : OperandRegister} → IsRegister (register r)

-- Where no register is expected: without a parent, below a type annotation or a call, at the destination of a store
-- and the first arguments of an address and of a function, and at the second argument of lea and of the load of an
-- index.
pub data Expected : Option SastKind → ℕ → Type 0 where
  at_root : {index : ℕ} → Expected none index
  annotated : {index : ℕ} → Expected (some typeas) index
  passed : {index : ℕ} → Expected (some call) index
  of_address : Expected (some address) 0
  stored_to : Expected (some store) 0
  of_function : Expected (some function) 0
  of_lea : Expected (some lea) 1
  of_load : Expected (some load_src3) 1

-- A value that stays as it is.
abbrev pub IsPlaced : ℕ → Option SastKind → Operand → Operand → Type 0
IsPlaced index p e d = IsRegister e ⊎ (IsRegister d ⊎ Expected p index)

settled-IsRegister : (o : Operand) → settled o ≡ true → IsRegister o
unfolding settled
settled-IsRegister Operand.tbd t = determined_later
settled-IsRegister (register r) t = in_register
settled-IsRegister _ t = cc

IsRegister-settled : {o : Operand} → IsRegister o → settled o ≡ true
unfolding settled
IsRegister-settled determined_later = refl
IsRegister-settled in_register = refl

stays-Expected : (p : Option SastKind) (index : ℕ) → stays p index ≡ true → Expected p index
unfolding stays
stays-Expected none index t = at_root
stays-Expected (some typeas) index t = annotated
stays-Expected (some call) index t = passed
stays-Expected (some address) index t =
    subst (Expected (some address)) (sym ((==_iff index 0).0 t)) of_address
stays-Expected (some store) index t =
    subst (Expected (some store)) (sym ((==_iff index 0).0 t)) stored_to
stays-Expected (some function) index t =
    subst (Expected (some function)) (sym ((==_iff index 0).0 t)) of_function
stays-Expected (some lea) index t = subst (Expected (some lea)) (sym ((==_iff index 1).0 t)) of_lea
stays-Expected (some load_src3) index t =
    subst (Expected (some load_src3)) (sym ((==_iff index 1).0 t)) of_load
stays-Expected (some _) index t = cc

Expected-stays : {p : Option SastKind} {index : ℕ} → Expected p index → stays p index ≡ true
unfolding stays
Expected-stays at_root = refl
Expected-stays annotated = refl
Expected-stays passed = refl
Expected-stays of_address = refl
Expected-stays stored_to = refl
Expected-stays of_function = refl
Expected-stays of_lea = refl
Expected-stays of_load = refl

IsPlaced-test :
    (index : ℕ) (p : Option SastKind) (e d : Operand)
    → (settled e || (settled d || stays p index)) ≡ true
    → IsPlaced index p e d
IsPlaced-test index p e d t = elim (Bool-cases (settled e)) [
  | inl a ↦ inl (settled-IsRegister e a)
  | inr a ↦ elim (Bool-cases (settled d)) [
    | inl b ↦ inr (inl (settled-IsRegister d b))
    | inr b ↦ inr (inr (stays-Expected p index (ground (arith, t, a, b))))
  ]
]

test-IsPlaced :
    (index : ℕ) (p : Option SastKind) (e d : Operand)
    → IsPlaced index p e d
    → (settled e || (settled d || stays p index)) ≡ true
test-IsPlaced index p e d (inl a) = ground (arith, IsRegister-settled a)
test-IsPlaced index p e d (inr (inl b)) = ground (arith, IsRegister-settled b)
test-IsPlaced index p e d (inr (inr c)) = ground (arith, Expected-stays c)

-- What stands in the place of an operation: itself, if it is no value, or a value that needs no register or stays
-- where it is; else a store of it to a register that is to be determined.
pub data Placed : ℕ → SastOperation → SastOperation → Type 0 where
  other_kind : {index : ℕ} {o : SastOperation} → kind o ≢ eval → Placed index o o
  left :
      {index : ℕ} {p : Option SastKind} {xs bs cs : Operations} {e d : Operand}
      → IsPlaced index p e d
      → Placed index (node eval p xs bs cs e d) (node eval p xs bs cs e d)
  stored :
      {index : ℕ} {p : Option SastKind} {xs bs cs : Operations} {e d : Operand}
      → ¬ IsPlaced index p e d
      → Placed index (node eval p xs bs cs e d) (
          node store p
            (cons
              (node eval (some store) nil nil nil Operand.tbd Operand.unset)
              (cons (node eval (some store) xs bs cs e d) nil))
            nil
            nil
            e
            Operand.unset)

-- The kinds of operations that are not valid, whose arguments are not read.
pub data IsUnread : SastKind → Type 0 where
  is_unset : IsUnread unset
  is_invalid : IsUnread invalid
  is_eof : IsUnread eof

kind_valid-IsUnread : (k : SastKind) → kind_valid k ≡ false → IsUnread k
unfolding kind_valid
kind_valid-IsUnread unset v = is_unset
kind_valid-IsUnread invalid v = is_invalid
kind_valid-IsUnread eof v = is_eof
kind_valid-IsUnread _ v = cc

IsUnread-kind_valid : {k : SastKind} → IsUnread k → kind_valid k ≡ false
unfolding kind_valid
IsUnread-kind_valid is_unset = refl
IsUnread-kind_valid is_invalid = refl
IsUnread-kind_valid is_eof = refl

-- A tree and what it is reshaped to.
mutual
  pub data Reshaped : ℕ → SastOperation → SastOperation → Type 0 where
    read :
        {index : ℕ} {k : SastKind} {p : Option SastKind} {xs ys bs cs : Operations} {e d : Operand}
        {y : SastOperation}
        → ¬ IsUnread k
        → ReshapedAll 0 xs ys
        → Placed index (node k p ys bs cs e d) y
        → Reshaped index (node k p xs bs cs e d) y
    unread :
        {index : ℕ} {k : SastKind} {p : Option SastKind} {xs bs cs : Operations} {e d : Operand}
        → IsUnread k
        → Reshaped index (node k p xs bs cs e d) (node k p xs bs cs e d)

  pub data ReshapedAll : ℕ → Operations → Operations → Type 0 where
    none_left : {index : ℕ} → ReshapedAll index nil nil
    next :
        {index : ℕ} {x y : SastOperation} {xs ys : Operations}
        → Reshaped index x y
        → ReshapedAll (suc index) xs ys
        → ReshapedAll index (cons x xs) (cons y ys)

module _ {Heap : Type 0} (varena_alloc : Heap → Option Heap)
    (allocates : (heap : Heap) → (h : Heap) × (varena_alloc heap ≡ some h)) where
  reshape_here-Placed :
      (index : ℕ) (k : SastKind) (p : Option SastKind) (ys bs cs : Operations) (e d : Operand)
      (heap : Heap)
      → k ≢ call
      → (y : SastOperation) × (heap' : Heap) × (reshape_here varena_alloc index
            (node k p ys bs cs e d)
            heap
          ≡ ok (y, heap'))
        × Placed index (node k p ys bs cs e d) y
  unfolding reshape_here reshape_eval allocated adopt kind operation_valid kind_valid count
      append_within below
  reshape_here-Placed index call p ys bs cs e d heap n = absurd (n refl)
  reshape_here-Placed index eval p ys bs cs e d heap n =
      let (heap₁, a) = allocates heap in
      let (heap₂, b) = allocates heap₁ in
      elim (Bool-cases (settled e || (settled d || stays p index))) [
        | inl t ↦ (node eval p ys bs cs e d, heap, rw t refl, left (IsPlaced-test index p e d t))
        | inr t ↦ (
          node store p
              (cons (node eval (some store) nil nil nil Operand.tbd Operand.unset)
                (cons (node eval (some store) ys bs cs e d) nil))
              nil nil e Operand.unset,
          heap₂,
          rw t (rw (a, b) refl),
          stored (λ i. let q = test-IsPlaced index p e d i in cc),
        )
      ]
  reshape_here-Placed index k p ys bs cs e d heap n =
      (node k p ys bs cs e d, heap, refl, other_kind (λ q. cc))

  invalid_stays :
      (index : ℕ) (k : SastKind) (p : Option SastKind) (xs bs cs : Operations) (e d : Operand)
      (heap : Heap)
      → kind_valid k ≡ false
      → reshape_here varena_alloc index (node k p xs bs cs e d) heap
        ≡ ok (node k p xs bs cs e d, heap)
  unfolding reshape_here kind kind_valid
  invalid_stays index unset p xs bs cs e d heap v = refl
  invalid_stays index invalid p xs bs cs e d heap v = refl
  invalid_stays index eof p xs bs cs e d heap v = refl
  invalid_stays index _ p xs bs cs e d heap v = cc

  mutual
    unfolding reshape_recurse operation_valid kind

    recurse_lem :
        (index : ℕ) (o : SastOperation) (heap : Heap)
        → NoCalls o
        → (y : SastOperation) × (heap' : Heap) × (reshape_recurse varena_alloc index o heap
            ≡ ok (y, heap'))
          × Reshaped index o y
    recurse_lem index (node k p xs bs cs e d) heap (no_call n w) =
        elim (Bool-cases (kind_valid k)) [
          | inl t ↦
              let (ys, heap₁, f, u) = each_lem 0 xs heap w in
              let (y, heap₂, g, v) = reshape_here-Placed index k p ys bs cs e d heap₁ n in
              (y, heap₂, rw t (rw f g), read (λ i. let q = IsUnread-kind_valid i in cc) u v)
          | inr t ↦ (
            node k p xs bs cs e d,
            heap,
            rw t (invalid_stays index k p xs bs cs e d heap t),
            unread (kind_valid-IsUnread k t),
          )
        ]

    each_lem :
        (index : ℕ) (xs : Operations) (heap : Heap)
        → NoneCalls xs
        → (ys : Operations) × (heap' : Heap) × (reshape_each varena_alloc index xs heap
            ≡ ok (ys, heap'))
          × ReshapedAll index xs ys
    each_lem index nil heap none_left = (nil, heap, refl, none_left)
    each_lem index (cons x xs) heap (next v w) =
        let (y, heap₁, f, r) = recurse_lem index x heap v in
        let (ys, heap₂, g, q) = each_lem (suc index) xs heap₁ w in
        (cons y ys, heap₂, rw f (rw g refl), next r q)

  -- Where the allocations succeed, a tree without calls is reshaped: every value that needs a register, where one is
  -- expected, is stored to a register that is to be determined, and all else stays as it is.
  pub reshape_recurse-Reshaped :
      (index : ℕ) (o : SastOperation) (heap : Heap)
      → NoCalls o
      → (y : SastOperation) × (heap' : Heap) × (reshape_recurse varena_alloc index o heap
          ≡ ok (y, heap'))
        × Reshaped index o y
  reshape_recurse-Reshaped = recurse_lem
