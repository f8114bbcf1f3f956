-- ===== src/Reshape/Flatten.antt =====
-- src/reshape.c: a comma of two lists is one list.
use volatile.Base.{
  ℕ, suc, ◌+◌, ◌<◌, ◌≤◌, ◌≡◌, ◌≢◌, refl, ap, ◌∙◌, true, false, List, [], ◌∷◌, ◌++◌, length, get_or,
  contains, replicate, set, leb, ◌==◌, ==_iff, if◌then◌else◌, ok, fault, arith, Bool-cases, inl,
  inr, length-append, contains-append,
}
use mathlib.Core.Path.{subst, ap₂}
use volatile.Registers.{Ptr, null}
use volatile.Ast.{csv, store}
use volatile.Reshape.{Memory, is_csv, take_over, join_right, reshape_comma}
use volatile.Reshape.Overwrite.{
  collected, overwrite, NoNull, collected-NoNull, overwrite-append, collected-overwrite,
}
use volatile.Reshape.Comma.{values, Joins, csv-Joins, child-Joins, first-Joins}

left-Joins :
    (operation l : Ptr) (args : List Ptr) (h : Memory)
    → (h operation).arguments ≡ l ∷ args
    → l ≢ operation
    → (h l).parent ≡ operation
    → length (values h l) ≤ 9
    → Joins operation
        (values h l)
        0
        h
        (if is_csv (h l).kind then take_over 9 operation l 0 0 h else (1, h))
left-Joins operation l args h a d e b = elim (Bool-cases (is_csv (h l).kind)) [
  | inl k ↦ rw k (csv-Joins operation l 0 h d (ground arith))
  | inr k ↦ rw k (first-Joins operation l args h a e)
]

right-Joins :
    (operation r : Ptr) (first : ℕ) (h : Memory)
    → r ≢ null
    → r ≢ operation
    → (h r).parent ≡ operation
    → first < 9
    → first + length (values h r) ≤ 9
    → (n : ℕ) × (h' : Memory) × (join_right operation r (first, h) ≡ ok h')
      × Joins operation (values h r) first h (n, h')
unfolding join_right
right-Joins operation r first h z d e f b =
    let room : leb 9 first ≡ false = ground arith in
    let there : (r == null) ≡ false = ground (arith, ==_iff r null) in
    elim (Bool-cases (is_csv (h r).kind)) [
      | inl k ↦
          let t = take_over 9 operation r 0 first h in
          (
            t.0,
            t.1,
            rw (room, there, k) refl,
            rw k (csv-Joins operation r first h d (ground arith)),
          )
      | inr k ↦ (
        suc first,
        store h operation
            (record (h operation) { arguments = set (h operation).arguments first r }),
        rw (room, there, k) refl,
        rw k (child-Joins operation r first h e),
      )
    ]

values-NoNull : (h : Memory) (p : Ptr) → p ≢ null → NoNull (values h p)
values-NoNull h p z = elim (Bool-cases (is_csv (h p).kind)) [
  | inl k ↦ rw k (collected-NoNull 9 (h p).arguments 0)
  | inr k ↦ rw k (ground (arith, ==_iff p null), tt)
]

NoNull-append : (xs ys : List Ptr) → NoNull xs → NoNull ys → NoNull (xs ++ ys)
NoNull-append [] ys h k = k
NoNull-append (x ∷ xs) ys h k = (h.0, NoNull-append xs ys h.1 k)

-- The operation holds the list `xs`, and the list's operations have it ps their parent; other operations keep
-- their kinds and arguments.
pub record Flattens (operation : Ptr) (xs : List Ptr) (h h' : Memory) : Type 0 where
  pub kind : (h' operation).kind ≡ csv
  pub listed : collected 9 (h' operation).arguments 0 ≡ xs
  pub parents : (p : Ptr) → contains xs p ≡ true → (h' p).parent ≡ operation
  pub arguments : (p : Ptr) → p ≢ operation → (h' p).arguments ≡ (h p).arguments
  pub kinds : (p : Ptr) → p ≢ operation → (h' p).kind ≡ (h p).kind

-- The right child is joined to the list of the left one.
joined-Flattens :
    (operation l r : Ptr) (h : Memory) (j : ℕ × Memory) (xs : List Ptr)
    → (h operation).kind ≡ csv
    → (h operation).arguments ≡ l ∷ r ∷ replicate 7 null
    → Joins operation xs 0 h j
    → NoNull xs
    → r ≢ null
    → r ≢ operation
    → (h r).parent ≡ operation
    → 0 < length xs
    → 0 < length (values h r)
    → length xs + length (values h r) ≤ 9
    → (h' : Memory) × (join_right operation r j ≡ ok h')
      × Flattens operation (xs ++ values h r) h h'
joined-Flattens operation l r h (first, h₁) xs kind args left nx rz rd re lp rp b =
    let ys = values h r in
    let same : values h₁ r ≡ ys =
      ap₂ (λ k ps. if is_csv k then collected 9 ps 0 else r ∷ []) (left.kinds r)
        (left.others r rd) in
    let (n, h', joined, right) =
      right-Joins operation r first h₁ rz rd (left.stays r re) (omega (arith, left.count, b, rp))
        (omega (arith, left.count, ap length same, b)) in
    let right' : Joins operation ys first h₁ (n, h') =
      subst (λ v. Joins operation v first h₁ (n, h')) same right in
    let written : (h' operation).arguments ≡ overwrite (l ∷ r ∷ replicate 7 null) 0 (xs ++ ys) =
      right'.arguments
      ∙ ap₂ (λ ps k. overwrite ps k ys) (left.arguments ∙ ap (λ ps. overwrite ps 0 xs) args)
          left.count
      ∙ overwrite-append (l ∷ r ∷ replicate 7 null) 0 xs ys in
    (
      h',
      joined,
      record {
        kind = right'.kinds operation ∙ left.kinds operation ∙ kind;
        listed =
            ap (λ ps. collected 9 ps 0) written
            ∙ collected-overwrite l r (xs ++ ys) (NoNull-append xs ys nx (values-NoNull h r rz))
                (omega (arith, length-append xs ys, lp, rp))
                (omega (arith, length-append xs ys, b));
        parents = λ p k. elim (Bool-cases (contains ys p)) [
          | inl m ↦ right'.taken p m
          | inr m ↦ right'.stays p (left.taken p (ground (arith, contains-append xs ys p)))
        ];
        arguments = λ p d. right'.others p d ∙ left.others p d;
        kinds = λ p d. right'.kinds p ∙ left.kinds p;
      },
    )

-- The memory in which the comma is a list already.
abbrev listing : Ptr → Memory → Memory
listing operation h = store h operation (record (h operation) { kind = csv })

reshape_comma_step :
    (operation l r : Ptr) (rest : List Ptr) (h : Memory)
    → (h operation).arguments ≡ l ∷ r ∷ rest
    → l ≢ null
    → reshape_comma operation h
      ≡ join_right operation r (
          if is_csv (listing operation h l).kind
          then take_over 9 operation l 0 0 (listing operation h)
          else (1, listing operation h))
unfolding reshape_comma
reshape_comma_step operation l r rest h a z =
    let there : (l == null) ≡ false = ground (arith, ==_iff l null) in
    ap₂
      (λ lchild rchild.
        if lchild == null
        then fault
        else join_right operation rchild (
            if is_csv (listing operation h lchild).kind
            then take_over 9 operation lchild 0 0 (listing operation h)
            else (1, listing operation h)))
      (ap (λ ps. get_or ps 0 null) a) (ap (λ ps. get_or ps 1 null) a)
    ∙ rw there refl

-- Where a comma has two children, which are not itself and have it ps their parent, and each stands for at least one
-- value and both together for at most nine, it becomes the list of the values of the left child and then of
-- the right one.
pub reshape_comma-Flattens :
    (operation l r : Ptr) (h : Memory)
    → (h operation).arguments ≡ l ∷ r ∷ replicate 7 null
    → l ≢ null
    → r ≢ null
    → l ≢ operation
    → r ≢ operation
    → (h l).parent ≡ operation
    → (h r).parent ≡ operation
    → 0 < length (values h l)
    → 0 < length (values h r)
    → length (values h l) + length (values h r) ≤ 9
    → (h' : Memory) × (reshape_comma operation h ≡ ok h')
      × Flattens operation (values h l ++ values h r) h h'
reshape_comma-Flattens operation l r h a lz rz ld rd le re lp rp b =
    let h₁ = listing operation h in
    let other : (p : Ptr) → p ≢ operation → h₁ p ≡ h p =
      λ p d. ground (arith, ==_iff p operation) in
    let here : h₁ operation ≡ record (h operation) { kind = csv } =
      ground (arith, ==_iff operation operation) in
    let of : (p : Ptr) → p ≢ operation → values h₁ p ≡ values h p =
      λ p d. ap (λ o. if is_csv o.kind then collected 9 o.arguments 0 else p ∷ []) (other p d) in
    let args = ap (λ o. o.arguments) here ∙ a in
    let left =
      left-Joins operation l (r ∷ replicate 7 null) h₁ args ld
        (ap (λ o. o.parent) (other l ld) ∙ le) (omega (arith, ap length (of l ld), b)) in
    let (h', run, f) =
      joined-Flattens operation l r h₁ _ (values h₁ l) (ap (λ o. o.kind) here) args left
        (values-NoNull h₁ l lz) rz rd (ap (λ o. o.parent) (other r rd) ∙ re)
        (omega (arith, ap length (of l ld), lp)) (omega (arith, ap length (of r rd), rp))
        (omega (arith, ap length (of l ld), ap length (of r rd), b)) in
    (
      h',
      reshape_comma_step operation l r (replicate 7 null) h a lz ∙ run,
      record {
        kind = f.kind;
        listed = f.listed ∙ ap₂ (λ xs ys. xs ++ ys) (of l ld) (of r rd);
        parents = λ p k. f.parents p (ap₂ (λ xs ys. contains (xs ++ ys) p) (of l ld) (of r rd) ∙ k);
        arguments = λ p d. f.arguments p d ∙ ap (λ o. o.arguments) (other p d);
        kinds = λ p d. f.kinds p d ∙ ap (λ o. o.kind) (other p d);
      },
    )
