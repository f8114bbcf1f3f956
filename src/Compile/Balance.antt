-- ===== src/Compile/Balance.antt =====
-- src/compile.c: what the bodies that are opened and closed leave of the context, and the labels that they
-- define.
use volatile.Base.{
  ℕ, zero, suc, ◌+◌, ◌*◌, ◌<◌, ◌≤◌, ◌≡◌, sym, Option, none, some, List, [], ◌∷◌, ◌++◌, All, ltb, ok,
  arith, Bool-cases, Result-cases, inl, inr,
}
use mathlib.Core.Path.{subst}
use volatile.Sast.{SastKind}
use volatile.Compile.{Context, Piece, label, Target, BodyKind, open_offset}
use volatile.Compile.Emit.{
  open_body, shut_body, after_close, opened_kind, numbered, close_chain, close_body, is_function,
}

-- A label that a piece defines is above `n`.
abbrev pub Above : ℕ → Piece → Type 0
Above n (label m) = n < m
Above n _ = Unit

pub All-append :
    {A : Type 0} (P : A → Type 0) (xs ys : List A) → All P xs → All P ys → All P (xs ++ ys)
All-append P [] ys hx hy = hy
All-append P (x ∷ xs) ys hx hy = (hx.0, All-append P xs ys hx.1 hy)

pub opened_kind-offset :
    (parent : Option SastKind) (k : BodyKind)
    → opened_kind parent ≡ ok k
    → (0 < open_offset k) × (open_offset k < 7)
unfolding opened_kind open_offset
opened_kind-offset parent k h = ground arith

pub numbered_small :
    (n offset : ℕ) → n ≤ 256 → offset < 1000 → numbered n offset ≡ n * 1000 + offset
unfolding numbered
numbered_small n offset h k = omega arith

close_chain-Above :
    (n : ℕ) (parent : Option SastKind) (k : BodyKind)
    → n < 256
    → All (Above (n * 1000)) (close_chain n parent k)
unfolding close_chain numbered
close_chain-Above n none k l = ground arith
close_chain-Above n (some p) k l = ground arith

close_body-Above :
    (n : ℕ) (k : BodyKind) (ls : List Piece)
    → n < 256
    → close_body n k ≡ ok ls
    → All (Above (n * 1000)) ls
unfolding close_body numbered
close_body-Above n k ls l h = ground arith

module _ {Table Heap : Type 0} where
  -- What holds of the context after code in which every body that is opened is closed: the level, the bodies
  -- that were open and their locals, and whether a function is open, are as before; the labels defined are
  -- above the ones of the enclosing bodies.
  pub record Balanced (ctx ctx' : Context Table Heap) (out : List Piece) : Type 0 where
    pub level : ctx'.indentation_level ≡ ctx.indentation_level
    pub kinds : (i : ℕ) → i < ctx.indentation_level → ctx'.body_kind i ≡ ctx.body_kind i
    pub tables :
        (i : ℕ) → i < ctx.indentation_level → ctx'.local_variables i ≡ ctx.local_variables i
    pub function : 0 < ctx.indentation_level → ctx'.has_function ≡ ctx.has_function
    pub labels : All (Above (ctx.indentation_level * 1000)) out

  pub record Opens (ctx ctx' : Context Table Heap) (parent : Option SastKind) (out : List Piece)
      : Type 0 where
    pub bound : ctx.indentation_level < 256
    pub opened : BodyKind
    pub opens : opened_kind parent ≡ ok opened
    pub written : out ≡ label (ctx.indentation_level * 1000 + open_offset opened) ∷ []
    pub level : ctx'.indentation_level ≡ suc ctx.indentation_level
    pub kind_here : ctx'.body_kind ctx.indentation_level ≡ opened
    pub kinds : (i : ℕ) → i < ctx.indentation_level → ctx'.body_kind i ≡ ctx.body_kind i
    pub tables :
        (i : ℕ) → i < ctx.indentation_level → ctx'.local_variables i ≡ ctx.local_variables i
    pub function : ctx'.has_function ≡ ctx.has_function

  pub open_body-Opens :
      (env : Target Table Heap) (ctx ctx' : Context Table Heap) (parent : Option SastKind)
      (out : List Piece)
      → open_body env ctx parent ≡ ok (out, ctx')
      → Opens ctx ctx' parent out
  unfolding open_body
  open_body-Opens env ctx ctx' parent out h = elim (Bool-cases (ltb ctx.indentation_level 256)) [
    | inr e ↦ absurd (ground arith)
    | inl e ↦ elim (Result-cases (env.nkht_init ctx.heap)) [
      | inr (inl (c, m)) ↦ absurd (ground arith)
      | inr (inr m) ↦ absurd (ground arith)
      | inl ((t, heap), m) ↦ elim (Result-cases (opened_kind parent)) [
        | inr (inl (c, q)) ↦ absurd (ground arith)
        | inr (inr q) ↦ absurd (ground arith)
        | inl (k, q) ↦ record {
          bound = ground arith;
          opened = k;
          opens = q;
          written = ground (
            arith,
            numbered_small ctx.indentation_level (open_offset k),
            opened_kind-offset parent k q,
          );
          level = ground arith;
          kind_here = ground arith;
          kinds = λ i l. ground arith;
          tables = λ i l. ground arith;
          function = ground arith;
        }
      ]
    ]
  ]

  pub record Closes (ctx ctx' : Context Table Heap) (parent : Option SastKind) (n : ℕ)
      (out : List Piece) : Type 0 where
    pub bound : n < 256
    pub level : ctx'.indentation_level ≡ n
    pub kinds : ctx'.body_kind ≡ ctx.body_kind
    pub tables : ctx'.local_variables ≡ ctx.local_variables
    pub function : 0 < n → ctx'.has_function ≡ ctx.has_function
    pub labels : All (Above (n * 1000)) out
    pub lines :
        0 < n
        → (ls : List Piece) × (close_body n (ctx.body_kind n) ≡ ok ls)
          × (out ≡ close_chain n parent (ctx.body_kind n) ++ ls)

  after_close-Closes :
      (env : Target Table Heap) (ctx ctx' : Context Table Heap) (n : ℕ) (parent : Option SastKind)
      (out : List Piece)
      → n < 256
      → after_close env ctx n parent ≡ ok (out, ctx')
      → Closes ctx ctx' parent n out
  unfolding after_close
  after_close-Closes env ctx ctx' zero parent out l h =
      elim (Bool-cases (is_function (ctx.body_kind 0))) [
        | inr e ↦ absurd (ground arith)
        | inl e ↦
            let labels_zero : label (numbered 0 16) ∷ [] ≡ out = ground arith in
            record {
              bound = l;
              level = ground arith;
              kinds = ground arith;
              tables = ground arith;
              function = λ p. absurd (omega arith);
              labels = subst (All (Above 0)) labels_zero (omega (arith, numbered_small 0 16), tt);
              lines = λ p. absurd (omega arith);
            }
      ]
  after_close-Closes env ctx ctx' (suc n) parent out l h =
      elim (Result-cases (close_body (suc n) (ctx.body_kind (suc n)))) [
        | inr (inl (c, m)) ↦ absurd (ground arith)
        | inr (inr m) ↦ absurd (ground arith)
        | inl (ls, m) ↦
            let q : close_chain (suc n) parent (ctx.body_kind (suc n)) ++ ls ≡ out = ground arith in
            record {
              bound = l;
              level = ground arith;
              kinds = ground arith;
              tables = ground arith;
              function = λ p. ground arith;
              labels = subst (All (Above (suc n * 1000))) q (
                  All-append (Above (suc n * 1000))
                    (close_chain (suc n) parent (ctx.body_kind (suc n))) ls
                    (close_chain-Above (suc n) parent _ l) (close_body-Above (suc n) _ ls l m));
              lines = λ p. (ls, m, sym q);
            }
      ]

  pub shut_body-Closes :
      (env : Target Table Heap) (ctx ctx' : Context Table Heap) (n : ℕ) (parent : Option SastKind)
      (out : List Piece)
      → ctx.indentation_level ≡ suc n
      → shut_body env ctx parent ≡ ok (out, ctx')
      → Closes ctx ctx' parent n out
  unfolding shut_body
  shut_body-Closes env ctx ctx' n parent out e h = elim (Bool-cases (ltb n 256)) [
    | inr l ↦ absurd (ground arith)
    | inl l ↦
        let left : Context Table Heap = record ctx {
          heap = env.nkht_deinit (ctx.local_variables n) ctx.heap;
        } in
        let r = after_close-Closes env left ctx' n parent out (ground arith) (ground arith) in
        record {
          bound = r.bound;
          level = r.level;
          kinds = r.kinds;
          tables = r.tables;
          function = r.function;
          labels = r.labels;
          lines = r.lines;
        }
  ]
