-- ===== src/Sast/Convert/Paths.antt =====
-- src/sast.c: the operations of a tree that is built, by the pointers that lead to them.
use volatile.Base.{
  Option-cases, arith, ℕ, zero, suc, ◌≡◌, refl, ap, ◌∙◌, Option, none, some, inl, inr, [], ◌∷◌,
  ◌++◌,
}
use volatile.Sast.{SastOperation, Operations, node, nil, cons, arguments, count}
use volatile.Sast.Convert.{Pointer}

unfoldable pub argument_at : Operations → ℕ → Option SastOperation
argument_at nil i = none
argument_at (cons x xs) zero = some x
argument_at (cons x xs) (suc i) = argument_at xs i

unfoldable pub update_argument : ℕ → (SastOperation → SastOperation) → Operations → Operations
update_argument i f nil = nil
update_argument zero f (cons x xs) = cons (f x) xs
update_argument (suc i) f (cons x xs) = cons x (update_argument i f xs)

-- The operation that a pointer leads to.
unfoldable pub find : Pointer → SastOperation → Option SastOperation
unfolding argument_at arguments
find [] t = some t
find (i ∷ p) t = elim (argument_at (arguments t) i) [ none ↦ none | some x ↦ find p x ]

-- A change of the operation that a pointer leads to.
unfoldable pub modify : Pointer → (SastOperation → SastOperation) → SastOperation → SastOperation
unfolding update_argument
modify [] f t = f t
modify (i ∷ p) f (node k q xs bs cs e d) = node k q (update_argument i (modify p f) xs) bs cs e d

unfoldable pub snoc : Operations → SastOperation → Operations
snoc nil x = cons x nil
snoc (cons y ys) x = cons y (snoc ys x)

-- The first argument that is NULL, set.
unfoldable pub append_argument : SastOperation → SastOperation → SastOperation
unfolding snoc
append_argument x (node k q xs bs cs e d) = node k q (snoc xs x) bs cs e d

argument_at-update_argument :
    (i : ℕ) (f : SastOperation → SastOperation) (xs : Operations) (x : SastOperation)
    → argument_at xs i ≡ some x
    → argument_at (update_argument i f xs) i ≡ some (f x)
unfolding argument_at update_argument
argument_at-update_argument i f nil x h = cc
argument_at-update_argument zero f (cons y ys) x h =
    ap (λ o. elim o [ none ↦ none | some z ↦ some (f z) ]) h
argument_at-update_argument (suc i) f (cons y ys) x h = argument_at-update_argument i f ys x h

update_argument-update_argument :
    (i : ℕ) (f g h : SastOperation → SastOperation) (xs : Operations) (x : SastOperation)
    → argument_at xs i ≡ some x
    → f (g x) ≡ h x
    → update_argument i f (update_argument i g xs) ≡ update_argument i h xs
unfolding argument_at update_argument
update_argument-update_argument i f g h nil x p q = refl
update_argument-update_argument zero f g h (cons y ys) x p q = cc
update_argument-update_argument (suc i) f g h (cons y ys) x p q =
    ap (cons y) (update_argument-update_argument i f g h ys x p q)

argument_at-snoc :
    (xs : Operations) (x : SastOperation) → argument_at (snoc xs x) (count xs) ≡ some x
unfolding argument_at snoc count
argument_at-snoc nil x = refl
argument_at-snoc (cons y ys) x = argument_at-snoc ys x

update_argument-snoc :
    (xs : Operations) (x : SastOperation) (f : SastOperation → SastOperation)
    → update_argument (count xs) f (snoc xs x) ≡ snoc xs (f x)
unfolding update_argument snoc count
update_argument-snoc nil x f = refl
update_argument-snoc (cons y ys) x f = ap (cons y) (update_argument-snoc ys x f)

-- A pointer leads to an argument first.
find_step :
    (i : ℕ) (p : Pointer) (t c : SastOperation)
    → find (i ∷ p) t ≡ some c
    → (x : SastOperation) × (argument_at (arguments t) i ≡ some x) × (find p x ≡ some c)
unfolding find
find_step i p t c h = elim (Option-cases (argument_at (arguments t) i)) [
  | inl e ↦ absurd (ground arith)
  | inr (x, e) ↦ (x, e, rw (find, e) at h)
]

-- What is found further on.
pub find-append :
    (p q : Pointer) (t c : SastOperation) → find p t ≡ some c → find (p ++ q) t ≡ find q c
unfolding find
find-append [] q t c h = ap (λ o. elim o [ none ↦ none | some x ↦ find q x ]) h
find-append (i ∷ p) q t c h =
    let (x, e, g) = find_step i p t c h in rw (find, e) (find-append p q x c g)

pub find-modify :
    (p : Pointer) (f : SastOperation → SastOperation) (t c : SastOperation)
    → find p t ≡ some c
    → find p (modify p f t) ≡ some (f c)
unfolding find modify arguments
find-modify [] f t c h = ap (λ o. elim o [ none ↦ none | some z ↦ some (f z) ]) h
find-modify (i ∷ p) f (node k q xs bs cs v d) c h =
    let (x, e, g) = find_step i p (node k q xs bs cs v d) c h in
    rw (find, argument_at-update_argument i (modify p f) xs x e) (find-modify p f x c g)

-- One change after another further on is one change.
pub modify-modify :
    (p q : Pointer) (f g h : SastOperation → SastOperation) (t c : SastOperation)
    → find p t ≡ some c
    → modify q f (g c) ≡ h c
    → modify (p ++ q) f (modify p g t) ≡ modify p h t
unfolding find modify arguments
modify-modify [] q f g h t c a b = cc
modify-modify (i ∷ p) q f g h (node k r xs bs cs v d) c a b =
    let (x, e, z) = find_step i p (node k r xs bs cs v d) c a in
    ap (λ ys. node k r ys bs cs v d)
      (update_argument-update_argument i (modify (p ++ q) f) (modify p g) (modify p h) xs x e
        (modify-modify p q f g h x c z b))

-- The operation that is inserted below another is found behind its arguments.
pub find-inserted :
    (p : Pointer) (c t o : SastOperation)
    → find p t ≡ some o
    → find (p ++ (count (arguments o) ∷ [])) (modify p (append_argument c) t) ≡ some c
unfolding find append_argument arguments
find-inserted p c t (node k q xs bs cs e d) h =
    find-append p (count xs ∷ []) _ _ (find-modify p (append_argument c) t _ h)
    ∙ ap (λ o. elim o [ none ↦ none | some x ↦ some x ]) (argument_at-snoc xs c)

-- A change of what was inserted is a change of what is inserted.
pub modify-inserted :
    (p : Pointer) (c c' t o : SastOperation)
    → find p t ≡ some o
    → modify (p ++ (count (arguments o) ∷ [])) (λ x. c') (modify p (append_argument c) t)
      ≡ modify p (append_argument c') t
unfolding modify append_argument arguments
modify-inserted p c c' t (node k q xs bs cs e d) h =
    modify-modify p (count xs ∷ []) (λ x. c') (append_argument c) (append_argument c') t _ h
      (ap (λ ys. node k q ys bs cs e d) (update_argument-snoc xs c (λ x. c')))
