-- ===== src/Sast/Convert/Ends.antt =====
-- src/sast.c: the loop of vltl_sast_tree_convert ends.
use volatile.Base.{
  ℕ, zero, suc, ◌+◌, ◌≡◌, ◌≤◌, refl, Bool, true, false, Option, none, some, List, [], ◌∷◌, ◌==◌,
  arith, if◌then◌else◌, Result, ok, err, fault, ◌>>=◌, Code, exfull, einval, not,
}
use volatile.Asm.{Isa}
use volatile.Ast.{AstKind, expected_of}
use volatile.Sast.{SastOperation, operation_valid}
use volatile.Sast.Source.{Meaning, Source, Sources, source, empty, arg, source_argc, size, size_all}
use volatile.Sast.Convert.{Pointer, convert_operation}
use volatile.Sast.Convert.Paths.{find}
use volatile.Sast.Convert.Loop.{
  State, is_full, push_arguments, convert_root, convert_below, convert_helper, unless_failed,
  tree_loop, convert_tree,
}

-- How many operations are left.
operations_left : List Source → ℕ
unfolding size
operations_left [] = 0
operations_left (s ∷ ss) = size s + operations_left ss

operations_left-push_arguments :
    (ss : Sources) (rest : List Source)
    → operations_left (push_arguments ss rest) ≡ size_all ss + operations_left rest
unfolding operations_left push_arguments size
operations_left-push_arguments empty rest = omega arith
operations_left-push_arguments (arg s ss) rest =
    omega (arith, operations_left-push_arguments ss rest)

-- That a result, if there is one, has certain operations left.
abbrev Leads : {Heap : Type 0} → Result (State Heap) → List Source → Type 0
Leads (ok st) visit = st.to_visit ≡ visit
Leads _ visit = visit ≡ visit

suc-add : (n m : ℕ) → suc n + m ≡ suc (n + m)
suc-add n m = omega arith

module _ {Heap : Type 0} where
  after_test :
      (b : Bool) (c : Code) (r : Result (State Heap)) (visit : List Source)
      → Leads r visit
      → Leads (if b then err c else r) visit
  after_test true c r visit l = refl
  after_test false c r visit l = l

  after_bind :
      {A : Type 0} (r : Result A) (f : A → Result (State Heap)) (visit : List Source)
      → ((a : A) → Leads (f a) visit)
      → Leads (r >>= f) visit
  after_bind (ok a) f visit l = l a
  after_bind (err c) f visit l = refl
  after_bind fault f visit l = refl

  after_option :
      {A : Type 0} (o : Option A) (f : A → Result (State Heap)) (visit : List Source)
      → ((a : A) → Leads (f a) visit)
      → Leads (elim o [ none ↦ fault | some a ↦ f a ]) visit
  after_option none f visit l = refl
  after_option (some a) f visit l = l a

module _ {Heap : Type 0} (varena_alloc : Heap → Option Heap) (isa : Isa) where
  convert_root-Leads :
      (k : AstKind) (m : Meaning) (t : Bool) (l : Option AstKind) (ss : Sources)
      (visit : List Source) (r : Option SastOperation) (paths : List Pointer) (heap : Heap)
      → Leads
          (convert_root varena_alloc isa
            (source k m t l ss)
            (record { root = r; to_visit = visit; insert_below = paths; heap = heap }))
          (push_arguments ss visit)
  unfolding convert_root
  convert_root-Leads k m t l ss visit (some r) paths heap =
      after_bind (convert_operation varena_alloc isa (source k m t l ss) heap) _ _
        (λ c. after_test (not (operation_valid c.equivalent)) einval _ _ refl)
  convert_root-Leads k m t l ss visit none paths heap =
      after_bind (convert_operation varena_alloc isa (source k m t l ss) heap) _ _
        (λ c. after_test (not (operation_valid c.equivalent)) einval _ _ refl)

  convert_below-Leads :
      (k : AstKind) (m : Meaning) (t : Bool) (l : Option AstKind) (ss : Sources)
      (r o : SastOperation) (p : Pointer) (st : State Heap)
      → Leads
          (convert_below varena_alloc isa (source k m t l ss) r p o st)
          (push_arguments ss st.to_visit)
  unfolding convert_below
  convert_below-Leads k m t l ss r o p st = after_test (is_full o) exfull _ _ (
      after_bind (convert_operation varena_alloc isa (source k m t l ss) st.heap) _ _ (λ c.
        after_test (not (operation_valid o)) einval _ _
          (after_test (not (operation_valid c.equivalent)) einval _ _ refl)))

  convert_helper-Leads :
      (k : AstKind) (m : Meaning) (t : Bool) (l : Option AstKind) (ss : Sources)
      (visit : List Source) (r : Option SastOperation) (paths : List Pointer) (heap : Heap)
      → Leads
          (convert_helper varena_alloc isa (record {
            root = r;
            to_visit = source k m t l ss ∷ visit;
            insert_below = paths;
            heap = heap;
          }))
          (push_arguments ss visit)
  unfolding convert_helper
  convert_helper-Leads k m t l ss visit r [] heap =
      after_test (not (source_argc ss == expected_of k (source_argc ss))) einval _ _
        (convert_root-Leads k m t l ss visit r [] heap)
  convert_helper-Leads k m t l ss visit none (p ∷ paths) heap =
      after_test (not (source_argc ss == expected_of k (source_argc ss))) einval _ _ refl
  convert_helper-Leads k m t l ss visit (some root) (p ∷ paths) heap =
      after_test (not (source_argc ss == expected_of k (source_argc ss))) einval _ _ (
        after_option (find p root) _ _ (λ o.
          convert_below-Leads k m t l ss root o p
            (record { root = some root; to_visit = visit; insert_below = paths; heap = heap })))

  -- Rounds that end a loop, however many more there are.
  Ends : ℕ → State Heap → Type 0
  Ends n st =
      (r : Result (State Heap)) × ((more : ℕ) → tree_loop varena_alloc isa (n + more) st ≡ some r)

  stopped :
      (n : ℕ) (r : Option SastOperation) (paths : List Pointer) (heap : Heap)
      → tree_loop varena_alloc isa n
          (record { root = r; to_visit = []; insert_below = paths; heap = heap })
        ≡ some (ok (record { root = r; to_visit = []; insert_below = paths; heap = heap }))
  unfolding tree_loop
  stopped zero r paths heap = refl
  stopped (suc n) r paths heap = refl

  after_round :
      (n : ℕ) (r : Result (State Heap)) (visit : List Source)
      → Leads r visit
      → ((st : State Heap) → st.to_visit ≡ visit → Ends n st)
      → (end : Result (State Heap)) × ((more : ℕ)
          → unless_failed (tree_loop varena_alloc isa (n + more)) r ≡ some end)
  unfolding Ends unless_failed
  after_round n (ok st) visit l e = e st l
  after_round n (err c) visit l e = (err c, λ more. refl)
  after_round n fault visit l e = (fault, λ more. refl)

  enough :
      (n : ℕ) (visit : List Source) (r : Option SastOperation) (paths : List Pointer) (heap : Heap)
      → operations_left visit ≤ n
      → Ends n (record { root = r; to_visit = visit; insert_below = paths; heap = heap })
  unfolding Ends tree_loop operations_left size
  enough n [] r paths heap l = (_, λ more. stopped (n + more) r paths heap)
  enough zero (source k m t u ss ∷ visit) r paths heap l = absurd (omega (arith, l))
  enough (suc n) (source k m t u ss ∷ visit) r paths heap l =
      let (end, e) =
        after_round n
          (convert_helper varena_alloc isa (record {
            root = r;
            to_visit = source k m t u ss ∷ visit;
            insert_below = paths;
            heap = heap;
          }))
          (push_arguments ss visit) (convert_helper-Leads k m t u ss visit r paths heap)
          (λ st q.
            enough n st.to_visit st.root st.insert_below st.heap
              (rw q (omega (arith, l, operations_left-push_arguments ss visit)))) in
      (end, λ more. rw (suc-add n more) (e more))

  -- The loop over the stacks ends on every tree: as many rounds as it has operations come to a result, and however many more
  -- there are, it is that one.
  pub convert_tree-Ends :
      (s : Source) (heap : Heap)
      → (r : Result (State Heap)) × ((more : ℕ)
          → convert_tree varena_alloc isa (size s + more) s heap ≡ some r)
  unfolding convert_tree operations_left Ends
  convert_tree-Ends s heap = enough (size s) (s ∷ []) none [] heap (omega arith)
