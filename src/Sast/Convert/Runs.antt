-- ===== src/Sast/Convert/Runs.antt =====
-- src/sast.c: the loop of vltl_sast_tree_convert makes what a tree lowers to.
use volatile.Base.{
  ℕ, suc, ◌+◌, ◌≡◌, refl, ap, ◌∙◌, sym, true, false, Option, none, some, List, [], ◌∷◌, ◌++◌, ok,
  arith,
}
use mathlib.Core.List.{map}
use native.Mathlib.Nat.{add_assoc, zero-add, add-zero}
use volatile.Asm.{Isa, is_amd64}
use volatile.Ast.{AstKind}
use volatile.Sast.{SastOperation, kind, arguments, count, operation_valid}
use volatile.Sast.Source.{Meaning, Source, Sources, source, empty, arg, size, size_all}
use volatile.Sast.Convert.{Pointer}
use volatile.Sast.Convert.Paths.{
  find, modify, append_argument, find-append, find-modify, modify-modify, find-inserted,
  modify-inserted,
}
use volatile.Sast.Convert.Loop.{
  State, set_parent, is_full, push_arguments, convert_root, convert_below, convert_helper,
  unless_failed, tree_loop, convert_tree,
}
use volatile.Sast.Convert.Lower.{Lowers}
use volatile.Sast.Convert.Made.{Fills, filled, fill, Made, made}

-- The loop in the middle of its work, and before it.
abbrev pub building :
    {Heap : Type 0} → SastOperation → List Source → List Pointer → Heap → State Heap
building t visit paths heap = record {
  root = some t;
  to_visit = visit;
  insert_below = paths;
  heap = heap;
}

suc-add : (n m : ℕ) → suc n + m ≡ suc (n + m)
suc-add n m = omega arith

module _ {Heap : Type 0} (varena_alloc : Heap → Option Heap) (isa : Isa)
    (allocates : (heap : Heap) → (h : Heap) × (varena_alloc heap ≡ some h))
    (amd64 : is_amd64 isa ≡ true) where
  -- One round, below an operation that has room.
  step_below :
      (k : AstKind) (m : Meaning) (l : Option AstKind) (ss : Sources) (x t o : SastOperation)
      (b : Pointer) (visit : List Source) (paths : List Pointer) (heap : Heap)
      (c : Made varena_alloc isa (some (kind o)) k m l ss x heap)
      → find b t ≡ some o
      → is_full o ≡ false
      → operation_valid o ≡ true
      → convert_helper varena_alloc isa (building t (source k m true l ss ∷ visit) (b ∷ paths) heap)
        ≡ ok (
            building
              (modify b (append_argument (set_parent (some (kind o)) c.converted.equivalent)) t)
              (push_arguments ss visit)
              (map (λ q. (b ++ (count (arguments o) ∷ [])) ++ q) c.converted.pushed ++ paths)
              c.converted.heap)
  unfolding convert_helper convert_below
  step_below k m l ss x t o b visit paths heap c f r v =
      rw (c.takes, f, r, c.converts, v, c.valid) refl

  -- A number of rounds takes the loop from one state to another.
  Takes : ℕ → State Heap → State Heap → Type 0
  Takes n st st' =
      (more : ℕ) → tree_loop varena_alloc isa (n + more) st ≡ tree_loop varena_alloc isa more st'

  no_rounds : (st : State Heap) → Takes 0 st st
  unfolding Takes
  no_rounds st more = ap (λ n. tree_loop varena_alloc isa n st) (zero-add more)

  one_round :
      (n : ℕ) (t : SastOperation) (s : Source) (visit : List Source) (paths : List Pointer)
      (heap : Heap) (st st' : State Heap)
      → convert_helper varena_alloc isa (building t (s ∷ visit) paths heap) ≡ ok st
      → Takes n st st'
      → Takes (suc n) (building t (s ∷ visit) paths heap) st'
  unfolding Takes tree_loop unless_failed
  one_round n t s visit paths heap st st' e r more = rw (suc-add n more) (rw e (r more))

  rounds_after :
      (n m : ℕ) (st st₁ st₂ : State Heap) → Takes n st st₁ → Takes m st₁ st₂ → Takes (n + m) st st₂
  unfolding Takes
  rounds_after n m st st₁ st₂ r q more = rw (add_assoc n m more) (r (m + more) ∙ q more)

  mutual
    unfolding size push_arguments Takes

    -- What is below an operation that has room is built there.
    run_below :
        (s : Source) (x t o : SastOperation) (b : Pointer) (visit : List Source)
        (paths : List Pointer) (heap : Heap)
        → Lowers (some (kind o)) s x
        → find b t ≡ some o
        → is_full o ≡ false
        → operation_valid o ≡ true
        → (heap' : Heap) × Takes
            (size s)
            (building t (s ∷ visit) (b ∷ paths) heap)
            (building (modify b (append_argument x) t) visit paths heap')
    run_below (source k m typed l ss) x t o b visit paths heap lowers f r v =
        let (valid, c) =
          made varena_alloc isa allocates amd64 (some (kind o)) k m typed l ss x heap lowers in
        let c₀ = set_parent (some (kind o)) c.converted.equivalent in
        let t₁ = modify b (append_argument c₀) t in
        let a = b ++ (count (arguments o) ∷ []) in
        let (heap', run) =
          run_fills ss c₀ x t₁ c₀ a c.converted.pushed visit paths c.converted.heap c.fills
            (find-inserted b c₀ t o f) in
        (
          heap',
          rw valid (
              one_round (size_all ss) t _ visit (b ∷ paths) heap _ _
                (step_below k m l ss x t o b visit paths heap c f r v)
                (rw (modify-inserted b c₀ c₀ t o f, modify-inserted b c₀ x t o f) at run)),
        )

    -- What is below several is built there.
    run_fills :
        (ss : Sources) (c c' t t₀ : SastOperation) (a : Pointer) (ps : List Pointer)
        (visit : List Source) (paths : List Pointer) (heap : Heap)
        → Fills c ps ss c'
        → find a t ≡ some t₀
        → (heap' : Heap) × Takes
            (size_all ss)
            (building
              (modify a (λ u. c) t)
              (push_arguments ss visit)
              (map (λ q. a ++ q) ps ++ paths)
              heap)
            (building (modify a (λ u. c') t) visit paths heap')
    run_fills empty c c' t t₀ a ps visit paths heap filled h = (heap, no_rounds _)
    run_fills (arg s ss) c c' t t₀ a ps visit paths heap
          (fill {o = o} {x = x} {p = p} {ps = qs} f r v l rest) h =
        let t₁ = modify a (λ u. c) t in
        let (heap₁, first) =
          run_below s x t₁ o (a ++ p) (push_arguments ss visit) (map (λ q. a ++ q) qs ++ paths) heap
            l (find-append a p t₁ c (find-modify a (λ u. c) t t₀ h) ∙ f) r v in
        let (heap₂, others) =
          run_fills ss (modify p (append_argument x) c) c' t t₀ a qs visit paths heap₁ rest h in
        (
          heap₂,
          rounds_after (size s) (size_all ss) _ _ _
              (rw
                (modify-modify a p (append_argument x) (λ u. c)
                  (λ u. modify p (append_argument x) c) t t₀ h refl)
                at first)
              others,
        )

  from_root : (ps : List Pointer) → map (λ q. [] ++ q) ps ++ [] ≡ ps
  from_root [] = refl
  from_root (p ∷ ps) = ap (λ qs. p ∷ qs) (from_root ps)

  step_root :
      (k : AstKind) (m : Meaning) (l : Option AstKind) (ss : Sources) (x : SastOperation)
      (heap : Heap) (c : Made varena_alloc isa none k m l ss x heap)
      → convert_helper varena_alloc isa (record {
        root = none;
        to_visit = source k m true l ss ∷ [];
        insert_below = [];
        heap = heap;
      })
        ≡ ok (
            building
              (set_parent none c.converted.equivalent)
              (push_arguments ss [])
              c.converted.pushed
              c.converted.heap)
  unfolding convert_helper convert_root
  step_root k m l ss x heap c = rw (c.takes, c.converts, c.valid) refl

  -- For AMD64, where the allocations succeed: a tree that lowers to another is converted to it, in as many rounds as it has
  -- operations, and both stacks are empty then.
  pub convert_tree-Lowers :
      (s : Source) (x : SastOperation) (heap : Heap)
      → Lowers none s x
      → (heap' : Heap) × (convert_tree varena_alloc isa (size s) s heap
          ≡ some (ok (building x [] [] heap')))
  unfolding convert_tree tree_loop unless_failed size modify find Takes push_arguments
  convert_tree-Lowers (source k m typed l ss) x heap lowers =
      let (valid, c) = made varena_alloc isa allocates amd64 none k m typed l ss x heap lowers in
      let c₀ = set_parent none c.converted.equivalent in
      let (heap', run) =
        run_fills ss c₀ x c₀ c₀ [] c.converted.pushed [] [] c.converted.heap c.fills refl in
      (
        heap',
        rw (valid, step_root k m l ss x heap c)
            (ap
                (λ n.
                  tree_loop varena_alloc isa n
                    (building c₀ (push_arguments ss []) c.converted.pushed c.converted.heap))
                (sym (add-zero (size_all ss)))
              ∙ (rw (from_root c.converted.pushed) at run) 0),
      )
