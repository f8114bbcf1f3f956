-- ===== src/Sast/Connect/Keeps.antt =====
-- src/sast.c: what the choice of registers keeps.
use volatile.Base.{
  ℕ, zero, suc, ◌≡◌, refl, ap, ◌∙◌, true, some, List, [], ◌∷◌, Bytes, not, ◌||◌, ◌&&◌, ok,
  Bool-cases, inl, inr,
}
use volatile.Asm.{AsmRegister}
use volatile.Sast.{
  SastOperation, Operations, node, nil, cons, arguments, destination, operation_valid, after_append,
  before_append,
}
use volatile.Sast.Connect.Inuse.{Inuse, same_register, register_of, is_register}
use volatile.Sast.Connect.Recurse.{
  Function, saved_at, with_arguments, written_many, save, protect_register, protect_siblings,
  goes_to,
}
use volatile.Sast.Connect.Distinct.{goal_of, goals}
use volatile.Sast.Connect.Gives.{
  Gives, gives, no_result, after_result, give, Gives-map, allocated-Gives, written-Gives,
}
use volatile.Sast.Call.{allocated}

-- That a function stays open while its locals are set.
pub record StaysOpen {State : Type 0} (function : Function State) : Type 0 where
  pub varena_alloc :
      (st st' : State)
      → function.varena_alloc st ≡ some st'
      → function.is_open st' ≡ function.is_open st
  pub tmp_name :
      (st st' : State) (name : Bytes)
      → function.tmp_name st ≡ ok (name, st')
      → function.is_open st' ≡ function.is_open st
  pub local_set :
      (st st' : State) (name : Bytes)
      → function.local_set name st ≡ ok st'
      → function.is_open st' ≡ function.is_open st

after_append-goal : (x y : SastOperation) → Gives (λ z. goal_of z ≡ goal_of x) (after_append x y)
unfolding after_append goal_of destination
after_append-goal (node k p xs bs cs e d) y =
    elim (Bool-cases (not (operation_valid (node k p xs bs cs e d)) || not (operation_valid y))) [
      | inl t ↦ rw t no_result
      | inr t ↦ rw t (gives refl)
    ]

saved_at-goals :
    (r : AsmRegister) (xs : Operations) (saving : SastOperation)
    → Gives (λ ys. goals ys ≡ goals xs) (saved_at r xs saving)
unfolding saved_at goals
saved_at-goals r nil saving = gives refl
saved_at-goals r (cons x xs) saving =
    elim (Bool-cases
      (is_register (destination x) && same_register (register_of (destination x)) r)) [
        | inl t ↦
            rw t
              (after_result (after_append-goal x saving) (λ z e. gives (ap (λ g. g ∷ goals xs) e)))
        | inr t ↦ rw t (
            after_result (saved_at-goals r xs saving) (λ ys e. gives (ap (λ gs. goal_of x ∷ gs) e)))
      ]

-- An operation keeps where its arguments go.
before_append-goals :
    (x y : SastOperation)
    → Gives (λ z. goals (arguments z) ≡ goals (arguments x)) (before_append x y)
unfolding before_append arguments
before_append-goals (node k p xs bs cs e d) y =
    elim (Bool-cases (not (operation_valid (node k p xs bs cs e d)) || not (operation_valid y))) [
      | inl t ↦ rw t no_result
      | inr t ↦ rw t (gives refl)
    ]

pub with_arguments-arguments :
    (xs : Operations) (o : SastOperation) → arguments (with_arguments xs o) ≡ xs
unfolding with_arguments arguments
with_arguments-arguments xs (node k p ys bs cs e d) = refl

module _ {State : Type 0} (function : Function State) (stays : StaysOpen function) where
  -- That a function is open.
  abbrev pub Open : State → Type 0
  Open st = function.is_open st ≡ true

  pub alloc-Open : (st : State) → Open st → Gives Open (allocated (function.varena_alloc st))
  alloc-Open st o = allocated-Gives _ (λ st' e. stays.varena_alloc st st' e ∙ o)

  written_many-Open : (n : ℕ) (st : State) → Open st → Gives Open (written_many function n st)
  unfolding written_many
  written_many-Open zero st o = gives o
  written_many-Open (suc n) st o =
      after_result (written-Gives _ (λ st' e. stays.varena_alloc st st' e ∙ o))
        (λ st' o'. written_many-Open n st' o')

  -- What saving a register keeps: the registers that arguments go to.
  abbrev pub KeepsGoals : SastOperation → SastOperation × State → Type 0
  KeepsGoals parent (saved, st) = (goals (arguments saved) ≡ goals (arguments parent)) × Open st

  save-KeepsGoals :
      (r : AsmRegister) (parent : SastOperation) (st : State)
      → Open st
      → Gives (KeepsGoals parent) (save function r parent st)
  unfolding save
  save-KeepsGoals r parent st o = after_result (written_many-Open 2 st o) λ st₁ o₁.
      after_result
        (give (function.tmp_name st₁) (λ (name, st₂) e. stays.tmp_name st₁ st₂ name e ∙ o₁))
        λ (name, st₂) o₂.
          after_result
            (give (function.local_set name st₂) (λ st₃ e. stays.local_set st₂ st₃ name e ∙ o₂))
            λ st₃ o₃. after_result (written_many-Open 3 st₃ o₃) λ st₄ o₄.
              after_result (saved_at-goals r (arguments parent) _) λ xs e.
                after_result (written_many-Open 3 st₄ o₄) λ st₅ o₅.
                  after_result (before_append-goals (with_arguments xs parent) _)
                    λ saved f. gives (f ∙ ap goals (with_arguments-arguments xs parent) ∙ e, o₅)

  protect_register-KeepsGoals :
      (r : AsmRegister) (parent : SastOperation) (from below child : Inuse) (st : State)
      → Open st
      → Gives
          (λ (saved, (b, st')). KeepsGoals parent (saved, st'))
          (protect_register function r parent from below child st)
  unfolding protect_register
  protect_register-KeepsGoals r parent from below child st o =
      elim (Bool-cases (not (child r) || not (from r))) [
        | inl u ↦ rw (o, u) (gives (refl, o))
        | inr u ↦ elim (Bool-cases (goes_to r (arguments parent))) [
          | inr v ↦ rw (o, u, v) (gives (refl, o))
          | inl v ↦
              rw (o, u, v) (after_result (save-KeepsGoals r parent st o) λ (saved, st₁) k. gives k)
        ]
      ]

  pub protect_siblings-KeepsGoals :
      (rs : List AsmRegister) (parent : SastOperation) (from below child : Inuse) (st : State)
      → Open st
      → Gives
          (λ (saved, (b, st')). KeepsGoals parent (saved, st'))
          (protect_siblings function rs parent from below child st)
  unfolding protect_siblings
  protect_siblings-KeepsGoals [] parent from below child st o = gives (refl, o)
  protect_siblings-KeepsGoals (r ∷ rs) parent from below child st o =
      after_result (protect_register-KeepsGoals r parent from below child st o)
        λ (saved, (below₁, st₁)) (e, o₁).
          Gives-map (λ (end, (b, st₂)) (f, o₂). (f ∙ e, o₂))
            (protect_siblings-KeepsGoals rs saved from below₁ child st₁ o₁)
