-- ===== src/Tests/Connect.antt =====
-- Registers chosen for additions of values that stand in registers.
use volatile.Base.{ℕ, suc, ◌≡◌, refl, true, false, some, List, [], ◌∷◌, Bytes, codes, Result, ok}
use volatile.Asm.{AsmRegister, Operand, r10, r11, rdx}
use volatile.Lexer.Tokenize.{missing}
use volatile.Scope.{Nkht}
use volatile.Sast.{SastOperation, Operations, node, nil, cons, eval, add, div, arguments, count}
use volatile.Sast.Connect.{register_operand}
use volatile.Sast.Connect.Inuse.{Inuse}
use volatile.Sast.Connect.Distinct.{Distinct}
use volatile.Sast.Connect.Recurse.{connect_recurse}
use volatile.Sast.Connect.Own.{counted_goals}
use volatile.Sast.Connect.Temporaries.{
  OpenedFunction, opened_function, opened_alloc, opened_tmp_name, opened_local_set,
  connect_recurse-Separates,
}

abbrev no_locals : Nkht (List Bytes) ℕ
no_locals = record { get = λ t k. missing; put = λ t k p. ok (k ∷ t); alloc = λ n. some (suc n) }

abbrev tmp : ℕ → Result Bytes
tmp n = ok (codes "_tmp_0x1")

abbrev opened : OpenedFunction (List Bytes) ℕ
opened = record {
  is_open = true;
  num_tmp_variables = 0;
  scope = record {
    bodies = [] ∷ [];
    locals = [];
    arena = 0;
    stack_frame_size = 0;
    stack_frame_cap = 0;
  };
}

abbrev in_register : AsmRegister → SastOperation
in_register r = node eval (some add) nil nil nil (register_operand r) (register_operand r)

abbrev addition : Operations → SastOperation
addition xs = node add (some add) xs nil nil Operand.unset Operand.unset

abbrev division : SastOperation
division =
    node div (some add) (cons (in_register r11) (cons (in_register r10) nil)) nil nil
      (register_operand r11) (register_operand r11)

abbrev connected : SastOperation → Result (SastOperation × (Inuse × OpenedFunction (List Bytes) ℕ))
connected o = connect_recurse (opened_function tmp no_locals) 0 (λ r. false) o opened

abbrev both_in_r11 : SastOperation
both_in_r11 = addition (cons (in_register r11) (cons (in_register r11) nil))

abbrev outcome : SastOperation × (Inuse × OpenedFunction (List Bytes) ℕ)
outcome = elim (connected both_in_r11) [ ok x ↦ x | _ ↦ (both_in_r11, ((λ r. false), opened)) ]

outcome_runs : connected both_in_r11 ≡ ok outcome
unfolding connect_recurse opened_alloc opened_tmp_name opened_local_set
outcome_runs = refl

connect_recurse-Separates_example : Distinct (some r11 ∷ some r10 ∷ [])
unfolding connect_recurse opened_alloc opened_tmp_name opened_local_set counted_goals
connect_recurse-Separates_example =
    connect_recurse-Separates tmp no_locals 0 (λ r. false) outcome.1.0 both_in_r11 outcome.0 opened
      outcome.1.1 refl outcome_runs

-- How many operations follow the first argument.
stores_after_first : Result (SastOperation × (Inuse × OpenedFunction (List Bytes) ℕ)) → ℕ
unfolding arguments count
stores_after_first r = elim r [
  | ok (y, rest) ↦ elim (arguments y) [ cons (node k p xs bs cs e d) ys ↦ count cs | nil ↦ 0 ]
  | _ ↦ 0
]

-- A value in rdx is stored to a local when its sibling is a division.
division_saves :
    stores_after_first (connected (addition (cons (in_register rdx) (cons division nil)))) ≡ 1
unfolding stores_after_first connect_recurse opened_alloc opened_tmp_name opened_local_set
division_saves = refl

-- It is not when the division stands one level deeper.
deeper_division_unsaved :
    stores_after_first (
      connected (
        addition (
          cons
            (in_register rdx)
            (cons (addition (cons division (cons (in_register r10) nil))) nil))))
    ≡ 0
unfolding stores_after_first connect_recurse opened_alloc opened_tmp_name opened_local_set
deeper_division_unsaved = refl
