-- ===== src/Ast/Insert/Walk.antt =====
-- The walks towards the root end, and never reach an operation that is no one's parent.
use volatile.Base.{
  ℕ, zero, suc, ◌<◌, ◌≤◌, ◌≡◌, ◌≢◌, ◌⊎◌, refl, sym, true, false, not, ◌&&◌, ◌||◌, leb, ◌==◌, Code,
  Result, ok, err, fault, Result-cases, Bool-cases, inl, inr, arith,
}
use mathlib.Core.Path.{subst}
use volatile.Registers.{Ptr, null}
use volatile.Ast.{
  AstKind, csv, AstOperation, argc, expected_argc, precedence, precedence_order, precedence_valid,
}
use volatile.Ast.Insert.{hungry, lower, is_grouping_open, find_hungry, find_target}

pub precedence-ne-fault : (o : AstOperation) → precedence o ≢ fault
unfolding precedence
precedence-ne-fault o e = ground arith

precedence_order-ne-fault : (n : ℕ) → precedence_order n ≢ fault
unfolding precedence_order precedence_valid
precedence_order-ne-fault n e = ground arith

expected_small :
    (o : AstOperation)
    → (k : AstKind) → o.kind ≡ k
    → (expected_argc o ≤ 3) ⊎ (expected_argc o ≡ argc o)
unfolding expected_argc
expected_small o csv e = inr (rw e refl)
expected_small o _ e = inl (rw e (omega arith))

-- An operation that expects another argument has at most two.
pub hungry-small : (o : AstOperation) → hungry o ≡ true → argc o < 3
unfolding hungry
hungry-small o h = ground (arith, expected_small o o.kind refl)

-- A measure that shrinks from an operation to its parent, null included.
abbrev pub Sinks : (Ptr → ℕ) → (Ptr → AstOperation) → Type 0
Sinks depth h = (p : Ptr) → (p == null) ≡ false → depth (h p).parent < depth p

-- The result of a walk, which is not `pushed`.
pub data Walked (pushed : Ptr) (r : Result Ptr) : Type 0 where
  failed : (e : Code) → r ≡ err e → Walked pushed r
  reached : (t : Ptr) → r ≡ ok t → (t == pushed) ≡ false → Walked pushed r

module _ (depth : Ptr → ℕ) (h : Ptr → AstOperation) (s : Sinks depth h) (pushed : Ptr)
    (nn : (pushed == null) ≡ false) (apart : (p : Ptr) → ((h p).parent == pushed) ≡ false) where
  pub find_hungry-Walked :
      (n rank p : ℕ) → depth p < n → (p == pushed) ≡ false → Walked pushed (find_hungry n rank h p)
  unfolding find_hungry
  find_hungry-Walked zero rank p d a = absurd (omega arith)
  find_hungry-Walked (suc n) rank p d a = elim (Bool-cases (p == null)) [
    | inl e ↦ reached null (ground arith) (ground arith)
    | inr e ↦ elim (Result-cases (precedence (h p))) [
      | inr (inr f) ↦ absurd (precedence-ne-fault (h p) f)
      | inr (inl (c, f)) ↦ failed c (ground arith)
      | inl (own, f) ↦ elim (Bool-cases (leb rank own && hungry (h p))) [
        | inl g ↦ reached p (ground arith) a
        | inr g ↦
            let next : find_hungry (suc n) rank h p ≡ find_hungry n rank h (h p).parent =
              ground arith in
            let sink = s p e in
            subst (Walked pushed) (sym next)
              (find_hungry-Walked n rank (h p).parent (omega arith) (apart p))
      ]
    ]
  ]

  pub find_target-Walked :
      (n rank p : ℕ) → depth p < n → (p == pushed) ≡ false → Walked pushed (find_target n rank h p)
  unfolding find_target
  find_target-Walked zero rank p d a = absurd (omega arith)
  find_target-Walked (suc n) rank p d a = elim (Bool-cases (p == null || (h p).parent == null)) [
    | inl e ↦ reached null (ground arith) (ground arith)
    | inr e ↦ elim (Result-cases (precedence (h (h p).parent))) [
      | inr (inr f) ↦ absurd (precedence-ne-fault (h (h p).parent) f)
      | inr (inl (c, f)) ↦ failed c (ground arith)
      | inl (above, f) ↦ elim (Result-cases (precedence (h p))) [
        | inr (inr f') ↦ absurd (precedence-ne-fault (h p) f')
        | inr (inl (c, f')) ↦ failed c (ground arith)
        | inl (own, f') ↦ elim (Result-cases (precedence_order own)) [
          | inr (inr k) ↦ absurd (precedence_order-ne-fault own k)
          | inr (inl (c, k)) ↦ failed c (ground arith)
          | inl (order, k) ↦
              elim (Bool-cases (
                lower order rank above
                && not (is_grouping_open (h (h p).parent).kind && hungry (h (h p).parent)))) [
                  | inr g ↦ reached p (ground arith) a
                  | inl g ↦
                      let next : find_target (suc n) rank h p ≡ find_target n rank h (h p).parent =
                        ground arith in
                      let sink = s p (ground arith) in
                      subst (Walked pushed) (sym next)
                        (find_target-Walked n rank (h p).parent (omega arith) (apart p))
                ]
        ]
      ]
    ]
  ]

-- What `find_hungry` reaches takes an argument.
pub find_hungry-hungry :
    (n rank : ℕ) (h : Ptr → AstOperation) (p t : Ptr)
    → find_hungry n rank h p ≡ ok t
    → (t == null) ≡ false
    → hungry (h t) ≡ true
unfolding find_hungry
find_hungry-hungry zero rank h p t e n = cc
find_hungry-hungry (suc k) rank h p t e n = elim (Bool-cases (p == null)) [
  | inl f ↦ absurd (ground arith)
  | inr f ↦ elim (Result-cases (precedence (h p))) [
    | inr (inr g) ↦ absurd (ground arith)
    | inr (inl (c, g)) ↦ absurd (ground arith)
    | inl (own, g) ↦ elim (Bool-cases (leb rank own && hungry (h p))) [
      | inl l ↦ ground arith
      | inr l ↦ find_hungry-hungry k rank h (h p).parent t (ground arith) n
    ]
  ]
]
