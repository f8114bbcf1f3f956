-- ===== src/Tests/Sast.antt =====
-- Runs of the operations of src/sast.c.
use volatile.Base.{
  ◌⊎◌, All, Option, Bool, false, ℕ, refl, ◌≡◌, ◌<◌, suc, ◌≤◌, true, none, some, [], ◌∷◌, arith, ok,
  err, enotrecoverable,
}
use volatile.Asm.{
  AsmRegister, rdi, r11, Printing, amd64, Operand, register, r10, immediate, register_declared,
  register_name, representation_valid,
}
use volatile.Asm
use volatile.Sast.{
  add, store, csv, Operations, destination, SastOperation, node, nil, cons, operation_valid, kind,
  before, after, count, before_append, after_append, evaluates_to, eval, sub,
}
use volatile.Sast.Connect.{
  FirstFree, preferred_registers, is_lchild, resolve_tbd, resolve_tbd-FirstFree,
}
use volatile.Sast.Fold.{Folds, connect_values-Folds, minus, number}
use volatile.Sast.Call.{
  allocated, call_arguments, Loads, argument_registers, next, none_left, call_arguments-Loads,
}
use volatile.Sast.Reshape.{reshape_recurse}
use volatile.Sast.Reshape.Shape.{NoCalls, no_call, NoneCalls, Reshaped, reshape_recurse-Reshaped}
use volatile.Sast.Append.{Appends, SameCore, append-Appends}

abbrev value : ℕ → SastOperation
value n = node eval none nil nil nil (number n) Operand.unset

connect_values-Folds_example : Folds sub (value 3) (value 5) 3 5
unfolding evaluates_to
connect_values-Folds_example =
    connect_values-Folds minus (value 3) (value 5)
      (record { integral_type = Asm.int_scalar64; representation = Asm.base10; value = 3 })
      (record { integral_type = Asm.int_scalar64; representation = Asm.base10; value = 5 }) refl
      refl (omega arith) (omega arith) (λ e. cc)

append-Appends_example :
    ((b : SastOperation) × (before_append (value 3) (value 5) ≡ ok b)
      × Appends 9 (before (value 3)) (value 5) (before b)
      × SameCore (value 3) b
      × (after b ≡ after (value 3)))
    × ((a : SastOperation) × (after_append (value 3) (value 5) ≡ ok a)
        × Appends 9 (after (value 3)) (value 5) (after a)
        × SameCore (value 3) a
        × (before a ≡ before (value 3)))
unfolding operation_valid before after count
append-Appends_example = append-Appends (value 3) (value 5) refl refl (omega arith) (omega arith)

abbrev allocate : ℕ → Option ℕ
allocate heap = some (suc heap)

abbrev two_arguments : Operations
two_arguments = cons (value 3) (cons (value 3) nil)

value_IsValid : operation_valid (value 3) ≡ true
unfolding operation_valid
value_IsValid = refl

call_arguments-Loads_example :
    (((2 ≤ 4)
        × ((ys : Operations) × (heap' : ℕ) × (call_arguments allocate
                (node csv none two_arguments nil nil Operand.unset Operand.unset)
                0
              ≡ ok (node csv none ys nil nil Operand.unset Operand.unset, heap'))
            × Loads argument_registers two_arguments ys))
      ⊎ ((4 < 2)
          × (call_arguments allocate
                (node csv none two_arguments nil nil Operand.unset Operand.unset)
                0
              ≡ err enotrecoverable)))
    × ((y : SastOperation) × (heap' : ℕ) × (call_arguments allocate (value 5) 0 ≡ ok (y, heap'))
        × Loads (rdi ∷ []) (cons (value 5) nil) (cons y nil))
unfolding count kind operation_valid
call_arguments-Loads_example =
    call_arguments-Loads allocate (λ heap. (suc heap, refl)) none two_arguments nil nil
      Operand.unset Operand.unset (value 5) 0 (next value_IsValid (next value_IsValid none_left))
      refl (λ e. cc)

abbrev plus_value : ℕ → SastOperation
plus_value n = node eval (some add) nil nil nil (number n) Operand.unset

abbrev stored_value : ℕ → SastOperation
stored_value n =
    node store (some add)
      (cons (node eval (some store) nil nil nil Operand.tbd Operand.unset)
        (cons (node eval (some store) nil nil nil (number n) Operand.unset) nil))
      nil nil (number n) Operand.unset

abbrev addition : Operations → SastOperation
addition xs = node add none xs nil nil Operand.tbd Operand.unset

addition-NoCalls : NoCalls (addition (cons (plus_value 3) (cons (plus_value 5) nil)))
addition-NoCalls =
    no_call (λ e. cc)
      (NoneCalls.next (no_call (λ e. cc) NoneCalls.none_left)
        (NoneCalls.next (no_call (λ e. cc) NoneCalls.none_left) NoneCalls.none_left))

addition_runs :
    reshape_recurse allocate 0 (addition (cons (plus_value 3) (cons (plus_value 5) nil))) 0
    ≡ ok (addition (cons (stored_value 3) (cons (stored_value 5) nil)), 4)
unfolding reshape_recurse allocated
addition_runs = refl

reshape_recurse-Reshaped_example :
    (y : SastOperation) × (heap' : ℕ) × (reshape_recurse allocate 0
        (addition (cons (plus_value 3) (cons (plus_value 5) nil)))
        0
      ≡ ok (y, heap'))
    × Reshaped 0 (addition (cons (plus_value 3) (cons (plus_value 5) nil))) y
reshape_recurse-Reshaped_example =
    reshape_recurse-Reshaped allocate (λ heap. (suc heap, refl)) 0
      (addition (cons (plus_value 3) (cons (plus_value 5) nil))) 0 addition-NoCalls

abbrev is_r11 : AsmRegister → Bool
is_r11 r11 = true
is_r11 _ = false

preferred_declared : All (λ r. register_declared r ≡ true) preferred_registers
unfolding register_declared
preferred_declared = ground arith

resolve_tbd-FirstFree_example :
    ((f : FirstFree (λ r. is_r11 r) preferred_registers) × (resolved : SastOperation) × (resolve_tbd
          true is_lchild
          (λ r. is_r11 r)
          preferred_registers
          (value 5)
        ≡ ok resolved)
      × (evaluates_to resolved ≡ register (record { isa = amd64; value_amd64 = f.chosen }))
      × (destination resolved ≡ register (record { isa = amd64; value_amd64 = f.chosen })))
    ⊎ (All (λ r. is_r11 r ≡ true) preferred_registers
        × (resolve_tbd true is_lchild (λ r. is_r11 r) preferred_registers (value 5)
            ≡ err enotrecoverable))
unfolding kind register_declared
resolve_tbd-FirstFree_example =
    resolve_tbd-FirstFree (λ r. is_r11 r) preferred_registers (value 5) preferred_declared refl
