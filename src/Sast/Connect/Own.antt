-- ===== src/Sast/Connect/Own.antt =====
-- src/sast.c: in a function, the arguments of an operation go to different registers.
use volatile.Base.{
  ℕ, suc, ◌≡◌, refl, sym, ap, ◌∙◌, true, false, Option, none, some, List, [], ◌∷◌, ◌++◌, ◌==◌,
  if◌then◌else◌, ok, ◌>>=◌, Bool-cases, inl, inr, arith, All,
}
use mathlib.Core.Path.{subst}
use volatile.Asm.{Operand, AsmRegister, register_declared}
use volatile.Sast.{
  SastOperation, Operations, node, nil, cons, kind, arguments, evaluates_to, destination,
  operation_valid, args_argc, count, store,
}
use volatile.Sast.Fold.{connect_values, connect_destination, evaluate}
use volatile.Sast.Connect.{
  resolve_tbd, preferred_registers, is_lchild, resolve_tbd-FirstFree, register_operand,
}
use volatile.Sast.Connect.Inuse.{Inuse, register_of, is_register, all_registers}
use volatile.Sast.Connect.Recurse.{
  Function, with_arguments, protect_siblings, adopt_tbd, with_first, settle, join_argument,
  resolve_own, place_of, connect_recurse, connect_each,
}
use volatile.Sast.Connect.Distinct.{
  goal_of, goals, Distinct, Marked, none_left, Distinct-none, Distinct-some, Marked-none,
  Marked-some,
}
use volatile.Sast.Connect.Gives.{Gives, gives, no_result, after_result, given, any_result}
use volatile.Sast.Connect.Keeps.{
  StaysOpen, Open, alloc-Open, with_arguments-arguments, protect_siblings-KeepsGoals,
}
use volatile.Sast.Call.{adopt}
use volatile.Sast.Convert.{eval_below}
use volatile.Sast.Convert.Paths.{append_argument, snoc}

preferred_declared : All (λ r. register_declared r ≡ true) preferred_registers
unfolding register_declared
preferred_declared = ground arith

resolve_tbd-Gives :
    (inuse : Inuse)
    → Gives
        (λ dest. (r : AsmRegister) × (evaluates_to dest ≡ register_operand r) × (inuse r ≡ false))
        (resolve_tbd true is_lchild inuse preferred_registers (eval_below (some store) Operand.tbd))
unfolding kind
resolve_tbd-Gives inuse =
    elim (resolve_tbd-FirstFree inuse preferred_registers (eval_below (some store) Operand.tbd)
      preferred_declared refl) [
        | inl (f, dest, q, v, d) ↦ rw q (gives (f.chosen, v, f.free))
        | inr (a, q) ↦ rw q no_result
      ]

destination-with_first : (x o : SastOperation) → destination (with_first x o) ≡ evaluates_to x
unfolding with_first destination
destination-with_first x (node k p nil bs cs e d) = refl
destination-with_first x (node k p (cons y ys) bs cs e d) = refl

goals-snoc :
    (xs : Operations) (x : SastOperation) → goals (snoc xs x) ≡ goals xs ++ (goal_of x ∷ [])
unfolding goals snoc
goals-snoc nil x = refl
goals-snoc (cons y ys) x = ap (λ gs. goal_of y ∷ gs) (goals-snoc ys x)

arguments-append_argument :
    (x o : SastOperation) → arguments (append_argument x o) ≡ snoc (arguments o) x
unfolding arguments append_argument
arguments-append_argument x (node k p xs bs cs e d) = refl

goals-append :
    {gs : List (Option AsmRegister)} (y saved : SastOperation)
    → goals (arguments saved) ≡ gs
    → goals (arguments (append_argument y saved)) ≡ gs ++ (goal_of y ∷ [])
goals-append y saved e =
    ap goals (arguments-append_argument y saved)
    ∙ goals-snoc (arguments saved) y
    ∙ ap (λ gs. gs ++ (goal_of y ∷ [])) e

connect_values-arguments :
    (o : SastOperation) → Gives (λ o'. arguments o' ≡ arguments o) (connect_values o)
unfolding connect_values arguments
connect_values-arguments (node k p xs bs cs e d) =
    any_result (connect_destination k e d xs)
      λ (e₁, d₁). any_result (evaluate k e₁ xs) λ e₂. gives refl

-- The registers of the arguments that `vltl_sast_operation_args_argc` counts.
unfoldable pub counted_goals : SastOperation → List (Option AsmRegister)
unfolding goals arguments operation_valid
counted_goals o = if operation_valid o then goals (arguments o) else []

counted_goals-Distinct :
    (o : SastOperation) → Distinct (goals (arguments o)) → Distinct (counted_goals o)
unfolding counted_goals
counted_goals-Distinct o d = elim (Bool-cases (operation_valid o)) [
  | inl t ↦ rw t d
  | inr t ↦ rw t none_left
]

counted_goals_none : (o : SastOperation) → (args_argc o == 0) ≡ true → Distinct (counted_goals o)
unfolding counted_goals args_argc goals count arguments operation_valid kind
counted_goals_none (node k p nil bs cs e d) z =
    counted_goals-Distinct (node k p nil bs cs e d) none_left
counted_goals_none (node k p (cons x xs) bs cs e d) z =
    elim (Bool-cases (operation_valid (node k p (cons x xs) bs cs e d))) [
      | inl t ↦ absurd (ground (arith, t, z))
      | inr t ↦ rw t none_left
    ]

module _ {State : Type 0} (function : Function State) (stays : StaysOpen function) where
  -- A register that is not in use.
  abbrev Unused : Inuse → SastOperation × State → Type 0
  Unused inuse (y, st) =
      (goal_of y ≡ some (register_of (destination y)))
      × (inuse (register_of (destination y)) ≡ false)
      × Open function stays st

  adopt_tbd-Unused :
      (x : SastOperation) (inuse : Inuse) (st : State)
      → Open function stays st
      → Gives (Unused inuse) (adopt_tbd function x inuse st)
  unfolding adopt_tbd goal_of is_register register_of
  adopt_tbd-Unused x inuse st o = after_result (alloc-Open function stays st o) λ st₁ o₁.
      after_result (alloc-Open function stays st₁ o₁) λ st₂ o₂.
        any_result
          (adopt
            (node store none (cons (eval_below (some store) Operand.tbd) nil) nil nil
              (evaluates_to x) Operand.tbd)
            x)
          λ s. rw o₂ (
            after_result (resolve_tbd-Gives inuse)
              λ dest (r, v, f). gives (rw (destination-with_first dest s, v) (refl, f, o₂)))

  -- What the arguments that are done keep.
  abbrev Kept : Inuse → List (Option AsmRegister) → State → Type 0
  Kept inuse gs st = Distinct gs × Marked inuse gs × Open function stays st

  append_argument-Kept :
      (parent saved y : SastOperation) (from : Inuse) (st : State)
      → goals (arguments saved) ≡ goals (arguments parent)
      → Kept from (goals (arguments parent) ++ (goal_of y ∷ [])) st
      → Kept from (goals (arguments (append_argument y saved))) st
  append_argument-Kept parent saved y from st e k =
      subst (λ gs. Kept from gs st) (sym (goals-append y saved e)) k

  fresh :
      (x : SastOperation) (from : Inuse) (st : State)
      → is_register (destination x) ≡ true
      → Open function stays st
      → Gives
          (Unused from)
          (if from (register_of (destination x)) then adopt_tbd function x from st else ok (x, st))
  unfolding goal_of
  fresh x from st t o = elim (Bool-cases (from (register_of (destination x)))) [
    | inl b ↦ rw b (adopt_tbd-Unused x from st o)
    | inr b ↦ rw b (gives (rw t refl, b, o))
  ]

  settle-Kept :
      (x : SastOperation) (from above below : Inuse) (st : State) (gs : List (Option AsmRegister))
      → Kept from gs st
      → Gives
          (λ (y, (from', (above', (below', st')))). Kept from' (gs ++ (goal_of y ∷ [])) st')
          (settle function x from above below st)
  unfolding settle goal_of
  settle-Kept x from above below st gs (d, m, o) = elim (Bool-cases (is_register (destination x))) [
    | inr t ↦ rw t (gives (rw t (Distinct-none d), rw t (Marked-none m), o))
    | inl t ↦ rw t (
        after_result (fresh x from st t o) λ (y, st₁) (e, f, o₁).
          gives (rw e (Distinct-some from _ f m d), rw e (Marked-some _ m), o₁))
  ]

  protect_siblings-Kept :
      (rs : List AsmRegister) (parent y : SastOperation) (from above below child : Inuse)
      (st : State)
      → Kept from (goals (arguments parent) ++ (goal_of y ∷ [])) st
      → Gives {A = SastOperation × (Inuse × (Inuse × (Inuse × State)))}
          (λ (parent', (from', (above', (below', st')))).
            Kept from' (goals (arguments parent')) st')
          (protect_siblings function rs parent from below child st >>= λ (saved, (below₂, st₂)).
            ok (append_argument y saved, (from, (above, (below₂, st₂)))))
  protect_siblings-Kept rs parent y from above below child st (d, m, o) =
      after_result (protect_siblings-KeepsGoals function stays rs parent from below child st o)
        λ (saved, (below₂, st₂)) (e, o₂).
          gives (append_argument-Kept parent saved y from st₂ e (d, m, o₂))

  join_argument-Kept :
      (parent x : SastOperation) (from above below child : Inuse) (st : State)
      → Kept from (goals (arguments parent)) st
      → Gives
          (λ (parent', (from', (above', (below', st')))).
            Kept from' (goals (arguments parent')) st')
          (join_argument function parent x from above below child st)
  unfolding join_argument
  join_argument-Kept parent x from above below child st k =
      after_result (settle-Kept x from above below st (goals (arguments parent)) k)
        λ (y, (from₁, (above₁, (below₁, st₁)))) (d, m, o).
          protect_siblings-Kept all_registers parent y from₁ above₁ below₁ child st₁ (d, m, o)

  no_arguments :
      (own : SastOperation) (st : State)
      → Open function stays st
      → Kept (λ r. false) (goals (arguments (with_arguments nil own))) st
  unfolding goals
  no_arguments own st o = rw (with_arguments-arguments nil own) (none_left, none_left, o)

  mutual
    unfolding connect_recurse

    recurse_lem :
        (index : ℕ) (above : Inuse) (o : SastOperation) (st : State)
        → Open function stays st
        → Gives
            (λ (y, (below, st')). Distinct (counted_goals y) × Open function stays st')
            (connect_recurse function index above o st)
    recurse_lem index above (node k p xs bs cs e d) st o =
        any_result (resolve_own function (place_of p index) above (node k p xs bs cs e d) st) λ own.
          elim (Bool-cases (args_argc own == 0)) [
            | inl z ↦ rw z (gives (counted_goals_none own z, o))
            | inr z ↦ rw z (
                after_result
                  (each_lem 0 (with_arguments nil own) (λ r. false) above (λ r. false) xs st
                    (no_arguments own st o))
                  λ (own₁, (below, st₁)) (d₁, o₁).
                    after_result (connect_values-arguments own₁)
                      λ own₂ q. gives (counted_goals-Distinct own₂ (rw q d₁), o₁))
          ]

    each_lem :
        (index : ℕ) (parent : SastOperation) (from above below : Inuse) (xs : Operations)
        (st : State)
        → Kept from (goals (arguments parent)) st
        → Gives
            (λ (parent', (below', st')).
              Distinct (goals (arguments parent')) × Open function stays st')
            (connect_each function index parent from above below xs st)
    each_lem index parent from above below nil st (d, m, o) = gives (d, o)
    each_lem index parent from above below (cons x xs) st (d, m, o) =
        after_result (recurse_lem index above x st o) λ (y, (child, st₁)) (_, o₁).
          after_result (join_argument-Kept parent y from above below child st₁ (d, m, o₁))
            λ (parent₁, (from₁, (above₁, (below₁, st₂)))) k.
              each_lem (suc index) parent₁ from₁ above₁ below₁ xs st₂ k

  -- In a function, where setting locals keeps it open: when an operation is connected, its arguments go to different registers.
  pub connect_recurse-Distinct :
      (index : ℕ) (above below : Inuse) (o y : SastOperation) (st st' : State)
      → function.is_open st ≡ true
      → connect_recurse function index above o st ≡ ok (y, (below, st'))
      → Distinct (counted_goals y)
  connect_recurse-Distinct index above below o y st st' t e =
      (given (recurse_lem index above o st t) e).0
