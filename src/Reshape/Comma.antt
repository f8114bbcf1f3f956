-- ===== src/Reshape/Comma.antt =====
-- src/reshape.c: the list that a comma becomes.
use volatile.Base.{
  ℕ, zero, suc, ◌+◌, ◌-◌, ◌<◌, ◌≤◌, ◌≡◌, ◌≢◌, refl, sym, ap, ◌∙◌, true, false, List, [], ◌∷◌,
  get_or, set, take, length, contains, ltb, ◌==◌, ==_iff, if◌then◌else◌, arith, Bool-cases, inl,
  inr,
}
use mathlib.Core.Path.{subst, subst₂}
use volatile.Registers.{Ptr, null}
use volatile.Ast.{store}
use volatile.Reshape.Overwrite.{collected, overwrite, take_all}
use volatile.Reshape.{Memory, is_csv, take_over}

-- What a loop did that took the values `xs` over, with `first` places in use before.
pub record Takes (operation : Ptr) (xs : List Ptr) (first : ℕ) (h : Memory) (r : ℕ × Memory)
    : Type 0 where
  pub count : r.0 ≡ first + length xs
  pub arguments : (r.1 operation).arguments ≡ overwrite (h operation).arguments first xs
  pub others : (p : Ptr) → p ≢ operation → (r.1 p).arguments ≡ (h p).arguments
  pub kinds : (p : Ptr) → (r.1 p).kind ≡ (h p).kind
  pub taken : (p : Ptr) → contains xs p ≡ true → (r.1 p).parent ≡ operation
  pub left : (p : Ptr) → contains xs p ≡ false → (r.1 p).parent ≡ (h p).parent

-- One round.
took : Ptr → Ptr → ℕ → Memory → Memory
took operation a first h =
    let h₁ =
      store h operation
        (record (h operation) { arguments = set (h operation).arguments first a }) in
    store h₁ a (record (h₁ a) { parent = operation })

took-Takes :
    (operation a : Ptr) (first : ℕ) (h : Memory)
    → Takes operation (a ∷ []) first h (suc first, took operation a first h)
unfolding took
took-Takes operation a first h = record {
  count = omega arith;
  arguments = ground (arith, ==_iff operation a, ==_iff operation operation);
  others = λ p d. ground (arith, ==_iff p a, ==_iff p operation, ==_iff a operation);
  kinds = λ p. ground (arith, ==_iff p a, ==_iff p operation, ==_iff a operation);
  taken = λ p e. ground (arith, ==_iff p a, ==_iff a p);
  left = λ p e. ground (arith, ==_iff p a, ==_iff a p, ==_iff p operation);
}

Takes-nothing : (operation : Ptr) (first : ℕ) (h : Memory) → Takes operation [] first h (first, h)
Takes-nothing operation first h = record {
  count = omega arith;
  arguments = refl;
  others = λ p d. refl;
  kinds = λ p. refl;
  taken = λ p e. cc;
  left = λ p e. refl;
}

Takes-cons :
    (operation a : Ptr) (xs : List Ptr) (first : ℕ) (h h' : Memory) (r : ℕ × Memory)
    → Takes operation (a ∷ []) first h (suc first, h')
    → Takes operation xs (suc first) h' r
    → Takes operation (a ∷ xs) first h r
Takes-cons operation a xs first h h' r p q = record {
  count = omega (arith, q.count);
  arguments = q.arguments ∙ ap (λ l. overwrite l (suc first) xs) p.arguments;
  others = λ x d. q.others x d ∙ p.others x d;
  kinds = λ x. q.kinds x ∙ p.kinds x;
  taken = λ x e. elim (Bool-cases (contains xs x)) [
    | inl k ↦ q.taken x k
    | inr k ↦ q.left x k ∙ p.taken x (ground arith)
  ];
  left = λ x e. q.left x (ground arith) ∙ p.left x (ground arith);
}

take-nothing : (n : ℕ) → take {A = Ptr} n [] ≡ []
take-nothing zero = refl
take-nothing (suc n) = refl

take-one :
    (first : ℕ) (a : Ptr) (xs : List Ptr)
    → first < 9
    → take (9 - first) (a ∷ xs) ≡ a ∷ take (9 - suc first) xs
take-one first a xs l =
    let e : 9 - first ≡ suc (9 - suc first) = omega arith in ap (λ k. take k (a ∷ xs)) e

take_over_step :
    (n : ℕ) (operation from : Ptr) (i first : ℕ) (h : Memory)
    → from ≢ operation
    → ltb first 9 ≡ true
    → (get_or (h from).arguments i null == null) ≡ false
    → take_over (suc n) operation from i first h
      ≡ take_over n operation from
          (suc i)
          (suc first)
          (took operation (get_or (h from).arguments i null) first h)
unfolding take_over took
take_over_step n operation from i first h d l z =
    let a = get_or (h from).arguments i null in
    let h₁ : Memory =
      store h operation
        (record (h operation) { arguments = set (h operation).arguments first a }) in
    let b : get_or (h₁ from).arguments i null ≡ a =
      ap (λ xs. get_or xs i null) (ground (arith, ==_iff from operation)) in
    rw (l, z)
      (ap
        (λ c.
          take_over n operation from (suc i) (suc first)
            (store h₁ c (record (h₁ c) { parent = operation })))
        b)

-- The loop takes over the arguments of the child up to the first that is NULL, as far as there is room.
pub take_over-Takes :
    (n : ℕ) (operation from : Ptr) (i first : ℕ) (h : Memory)
    → from ≢ operation
    → Takes operation
        (take (9 - first) (collected n (h from).arguments i))
        first
        h
        (take_over n operation from i first h)
unfolding take_over
take_over-Takes zero operation from i first h d =
    subst (λ xs. Takes operation xs first h (first, h)) (sym (take-nothing (9 - first)))
      (Takes-nothing operation first h)
take_over-Takes (suc n) operation from i first h d = elim (Bool-cases (ltb first 9)) [
  | inr l ↦
      let none_left : 9 - first ≡ 0 = ground arith in
      subst₂ (λ xs r. Takes operation xs first h r)
        (ap (λ k. take k (collected (suc n) (h from).arguments i)) (sym none_left)) (rw l refl)
        (Takes-nothing operation first h)
  | inl l ↦ elim (Bool-cases (get_or (h from).arguments i null == null)) [
    | inl z ↦
        subst₂ (λ xs r. Takes operation xs first h r) (rw z (sym (take-nothing (9 - first))))
          (rw (l, z) refl) (Takes-nothing operation first h)
    | inr z ↦
        let a = get_or (h from).arguments i null in
        let h' = took operation a first h in
        let p = took-Takes operation a first h in
        let q = take_over-Takes n operation from (suc i) (suc first) h' d in
        let after = take_over n operation from (suc i) (suc first) h' in
        let rest : List Ptr = collected n (h from).arguments (suc i) in
        let same : collected n (h' from).arguments (suc i) ≡ rest =
          ap (λ xs. collected n xs (suc i)) (p.others from d) in
        let listed : take (9 - first) (collected (suc n) (h from).arguments i)
            ≡ a ∷ take (9 - suc first) rest =
          rw z (take-one first a rest (ground arith)) in
        subst₂ (λ xs r. Takes operation xs first h r) (sym listed)
          (sym (take_over_step n operation from i first h d l z))
          (Takes-cons operation a (take (9 - suc first) rest) first h h' after p
            (subst (λ xs. Takes operation (take (9 - suc first) xs) (suc first) h' after) same q))
  ]
]

-- The values that a child stands for: the list of a csv operation, and itself otherwise.
abbrev pub values : Memory → Ptr → List Ptr
values h p = if is_csv (h p).kind then collected 9 (h p).arguments 0 else p ∷ []

-- The operation while its list is built: `first` values from the children are in its arguments.
pub record Joins (operation : Ptr) (xs : List Ptr) (first : ℕ) (h : Memory) (r : ℕ × Memory)
    : Type 0 where
  pub count : r.0 ≡ first + length xs
  pub arguments : (r.1 operation).arguments ≡ overwrite (h operation).arguments first xs
  pub others : (p : Ptr) → p ≢ operation → (r.1 p).arguments ≡ (h p).arguments
  pub kinds : (p : Ptr) → (r.1 p).kind ≡ (h p).kind
  pub taken : (p : Ptr) → contains xs p ≡ true → (r.1 p).parent ≡ operation
  pub stays : (p : Ptr) → (h p).parent ≡ operation → (r.1 p).parent ≡ operation

Takes→Joins :
    (operation : Ptr) (xs : List Ptr) (first : ℕ) (h : Memory) (r : ℕ × Memory)
    → Takes operation xs first h r
    → Joins operation xs first h r
Takes→Joins operation xs first h r t = record {
  count = t.count;
  arguments = t.arguments;
  others = t.others;
  kinds = t.kinds;
  taken = t.taken;
  stays = λ p e. elim (Bool-cases (contains xs p)) [ inl k ↦ t.taken p k | inr k ↦ t.left p k ∙ e ];
}

-- A csv child gives all its values, where there is room.
pub csv-Joins :
    (operation child : Ptr) (first : ℕ) (h : Memory)
    → child ≢ operation
    → first + length (collected 9 (h child).arguments 0) ≤ 9
    → Joins operation
        (collected 9 (h child).arguments 0)
        first
        h
        (take_over 9 operation child 0 first h)
csv-Joins operation child first h d l =
    let xs = collected 9 (h child).arguments 0 in
    Takes→Joins operation xs first h _ (
      subst (λ ys. Takes operation ys first h (take_over 9 operation child 0 first h))
        (take_all (9 - first) xs (omega (arith, l)))
        (take_over-Takes 9 operation child 0 first h d))

-- Another child is stored itself.
pub child-Joins :
    (operation child : Ptr) (first : ℕ) (h : Memory)
    → (h child).parent ≡ operation
    → Joins operation (child ∷ []) first h (
      suc first,
      store h operation
          (record (h operation) { arguments = set (h operation).arguments first child }),
    )
child-Joins operation child first h e = record {
  count = omega arith;
  arguments = ground (arith, ==_iff operation operation);
  others = λ p d. ground (arith, ==_iff p operation);
  kinds = λ p. ground (arith, ==_iff p operation);
  taken = λ p k. ground (arith, ==_iff child p, ==_iff p operation);
  stays = λ p k. ground (arith, ==_iff p operation);
}

-- A left child that is no list is in its place already.
pub first-Joins :
    (operation child : Ptr) (args : List Ptr) (h : Memory)
    → (h operation).arguments ≡ child ∷ args
    → (h child).parent ≡ operation
    → Joins operation (child ∷ []) 0 h (1, h)
first-Joins operation child args h a e = record {
  count = omega arith;
  arguments = a ∙ sym (ap (λ l. set l 0 child) a);
  others = λ p d. refl;
  kinds = λ p. refl;
  taken = λ p k. ap (λ q. (h q).parent) (sym ((==_iff child p).0 (ground arith))) ∙ e;
  stays = λ p k. k;
}
