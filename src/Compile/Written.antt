-- ===== src/Compile/Written.antt =====
-- src/compile.c: code whose bodies are not nested too deep is written.
use volatile.Base.{
  ℕ, suc, ◌+◌, ◌<◌, ◌≤◌, ◌≡◌, ◌≢◌, refl, sym, ap, ◌∙◌, true, Option, List, [], ◌∷◌, ◌++◌, Result,
  ok, arith, Result-cases, inl, inr, codes,
}
use volatile.Sast.{SastKind, SastOperation, node, kind, body_open, body_close}
use volatile.Compile.{
  Context, Piece, text, Target, BodyKind, bare, if_body, elif_body, else_body, while_body, unset,
  invalid, function_body,
}
use volatile.Compile.Emit.{
  open_body, shut_body, after_close, opened_kind, close_body, convert_label,
}
use volatile.Asm.{is_amd64}
use volatile.Compile.Line.{convert_indented, then_write, convert}
use volatile.Compile.Order.{write_all, write_all-append}
use volatile.Compile.Balance.{Balanced, Opens, Closes, open_body-Opens, shut_body-Closes}
use volatile.Compile.Plain.{IsPlain}
use volatile.Compile.Depth.{ℕ-cases}
use volatile.Compile.Run.{parent, indented, convert-open_body, convert-shut_body}
use volatile.Compile.Nested.{IsNested, done, plain, body, write_all-Balanced}

opened_kind-closes :
    (p : Option SastKind) (k : BodyKind) (n : ℕ)
    → opened_kind p ≡ ok k
    → k ≢ function_body
    → (ls : List Piece) × (close_body n k ≡ ok ls)
unfolding opened_kind close_body
opened_kind-closes p bare n h f = (_, refl)
opened_kind-closes p if_body n h f = (_, refl)
opened_kind-closes p elif_body n h f = (_, refl)
opened_kind-closes p else_body n h f = (_, refl)
opened_kind-closes p while_body n h f = (_, refl)
opened_kind-closes p function_body n h f = absurd (f refl)
opened_kind-closes p unset n h f = absurd (ground arith)
opened_kind-closes p invalid n h f = absurd (ground arith)

module _ {Table Heap : Type 0} (env : Target Table Heap) where
  -- An operation whose code is written in every context, and which leaves it as it is.
  abbrev pub Writes : SastOperation → Type 0
  Writes o =
      (ctx : Context Table Heap)
      → (lines : List Piece) × (convert_indented env ctx o ≡ ok (lines, ctx))

  -- Code in which bodies are closed as they are opened, at most `d` of them inside one another, and the rest
  -- is written.
  pub data IsWritable : ℕ → List SastOperation → Type 0 where
    nothing : {d : ℕ} → IsWritable d []
    write :
        {d : ℕ} (o : SastOperation) {rest : List SastOperation}
        → IsPlain o
        → Writes o
        → IsWritable d rest
        → IsWritable d (o ∷ rest)
    nest :
        {d : ℕ} (o c : SastOperation) (k : BodyKind) {inside rest whole : List SastOperation}
        → kind o ≡ body_open
        → opened_kind (parent o) ≡ ok k
        → k ≢ function_body
        → kind c ≡ body_close
        → IsWritable d inside
        → IsWritable (suc d) rest
        → whole ≡ o ∷ (inside ++ (c ∷ rest))
        → IsWritable (suc d) whole

  writable-IsNested : {d : ℕ} {os : List SastOperation} → IsWritable d os → IsNested os
  writable-IsNested nothing = done
  writable-IsNested (write o p w r) = plain o p (writable-IsNested r)
  writable-IsNested (nest o c k ho hk nf hc i r e) =
      body o c ho hc (writable-IsNested i) (writable-IsNested r) e

  pub then_write-ok :
      {first : Result (List Piece × Context Table Heap)}
      (next : Context Table Heap → Result (List Piece × Context Table Heap)) {xs ys : List Piece}
      {middle end : Context Table Heap}
      → first ≡ ok (xs, middle)
      → next middle ≡ ok (ys, end)
      → then_write env first next ≡ ok (xs ++ ys, end)
  unfolding then_write
  then_write-ok next p q = rw (p, q) refl

  -- That a result is no error and no fault.
  abbrev pub Written : Result (List Piece × Context Table Heap) → Type 0
  Written r = (out : List Piece) × (end : Context Table Heap) × (r ≡ ok (out, end))

  open_body-Written :
      (ctx : Context Table Heap) (p : Option SastKind) (k : BodyKind)
      → ((heap : Heap) → (r : Table × Heap) × (env.nkht_init heap ≡ ok r))
      → opened_kind p ≡ ok k
      → ctx.indentation_level < 256
      → Written (open_body env ctx p)
  unfolding open_body
  open_body-Written ctx p k i q l =
      let (r, t) = i ctx.heap in
      elim (Result-cases (open_body env ctx p)) [
        | inl ((out, end), e) ↦ (out, end, e)
        | inr (inl (c, e)) ↦ absurd (ground arith)
        | inr (inr e) ↦ absurd (ground arith)
      ]

  shut_body-Written :
      (ctx : Context Table Heap) (p q : Option SastKind) (n : ℕ) (k : BodyKind)
      → ctx.indentation_level ≡ suc (suc n)
      → suc n < 256
      → ctx.body_kind (suc n) ≡ k
      → opened_kind q ≡ ok k
      → k ≢ function_body
      → Written (shut_body env ctx p)
  unfolding shut_body after_close
  shut_body-Written ctx p q n k e l h o f =
      let (ls, m) = opened_kind-closes q k (suc n) o f in
      elim (Result-cases (shut_body env ctx p)) [
        | inl ((out, end), e) ↦ (out, end, e)
        | inr (inl (c, g)) ↦ absurd (ground arith)
        | inr (inr g) ↦ absurd (ground arith)
      ]

  -- What is written for an operation that opens or closes is written with a tab before it.
  pub indented-Written :
      (ctx : Context Table Heap) (o : SastOperation)
      → Written (convert env ctx o)
      → Written (convert_indented env ctx o)
  unfolding convert_indented
  indented-Written ctx o (out, end, e) = (text (codes "\t") ∷ out, end, rw e refl)

  convert-open_body-Written :
      (ctx : Context Table Heap) (o : SastOperation)
      → is_amd64 env.isa ≡ true
      → kind o ≡ body_open
      → Written (open_body env ctx (parent o))
      → Written (convert env ctx o)
  unfolding convert convert_label parent
  convert-open_body-Written ctx (node body_open p xs bs cs e d) a h (out, end, w) =
      (out, end, rw (a, w) refl)
  convert-open_body-Written ctx (node k p xs bs cs e d) a h w = cc

  pub convert-shut_body-Written :
      (ctx : Context Table Heap) (o : SastOperation)
      → is_amd64 env.isa ≡ true
      → kind o ≡ body_close
      → Written (shut_body env ctx (parent o))
      → Written (convert env ctx o)
  unfolding convert convert_label parent
  convert-shut_body-Written ctx (node body_close p xs bs cs e d) a h (out, end, w) =
      (out, end, rw (a, w) refl)
  convert-shut_body-Written ctx (node k p xs bs cs e d) a h w = cc

  -- What follows from an operation that opens a body being written.
  indented-Opens :
      (ctx end : Context Table Heap) (o : SastOperation) (out : List Piece)
      → kind o ≡ body_open
      → convert_indented env ctx o ≡ ok (out, end)
      → (xs : List Piece) × Opens ctx end (parent o) xs
  indented-Opens ctx end o out h e =
      let (xs, c, _) = indented env ctx o out end e in
      (xs, open_body-Opens env ctx end (parent o) xs (convert-open_body env ctx o (xs, end) h c))

  indented-Closes :
      (ctx end : Context Table Heap) (o : SastOperation) (n : ℕ) (out : List Piece)
      → kind o ≡ body_close
      → ctx.indentation_level ≡ suc n
      → convert_indented env ctx o ≡ ok (out, end)
      → (xs : List Piece) × Closes ctx end (parent o) n xs
  indented-Closes ctx end o n out h l e =
      let (xs, c, _) = indented env ctx o out end e in
      (
        xs,
        shut_body-Closes env ctx end n (parent o) xs l (convert-shut_body env ctx o (xs, end) h c),
      )

  opened_is :
      (ctx end : Context Table Heap) (p : Option SastKind) (k : BodyKind) (xs : List Piece)
      (r : Opens ctx end p xs)
      → opened_kind p ≡ ok k
      → end.body_kind ctx.indentation_level ≡ k
  opened_is ctx end p k xs r h = ground (arith, r.kind_here, r.opens, h)

  module _ (amd64 : is_amd64 env.isa ≡ true)
      (init : (heap : Heap) → (r : Table × Heap) × (env.nkht_init heap ≡ ok r)) where
    write_all-Written :
        (ctx : Context Table Heap) (n : ℕ) {d : ℕ} {os : List SastOperation}
        → ctx.indentation_level ≡ suc n
        → suc n + d ≤ 256
        → IsWritable d os
        → Written (write_all env ctx os)
    unfolding write_all
    write_all-Written ctx n l b nothing = ([], ctx, refl)
    write_all-Written ctx n l b (write o {rest} p w r) =
        let (xs, e) = w ctx in
        let (ys, end, f) = write_all-Written ctx n l b r in
        (xs ++ ys, end, then_write-ok (λ m. write_all env m rest) e f)
    write_all-Written ctx n l b (nest o c k {inside} {rest} ho hk nf hc i r q) =
        let (xs, opened, e₁) = indented-Written ctx o (
          convert-open_body-Written ctx o amd64 ho
            (open_body-Written ctx (parent o) k init hk (omega (arith, l, b)))) in
        let (xs', opens) = indented-Opens ctx opened o xs ho e₁ in
        let (ys, inner, e₂) =
          write_all-Written opened (suc n) (opens.level ∙ ap suc l) (omega (arith, b)) i in
        let balanced = write_all-Balanced env opened inner ys (writable-IsNested i) e₂ in
        let level : inner.indentation_level ≡ suc (suc n) =
          balanced.level ∙ opens.level ∙ ap suc l in
        let here : inner.body_kind (suc n) ≡ k =
          balanced.kinds (suc n) (omega (arith, opens.level, l))
          ∙ ap opened.body_kind (sym l)
          ∙ opened_is ctx opened (parent o) k xs' opens hk in
        let (zs, closed, e₃) = indented-Written inner c (
          convert-shut_body-Written inner c amd64 hc (
            shut_body-Written inner (parent c) (parent o) n k level (omega (arith, b)) here hk
              nf)) in
        let (_, closes) = indented-Closes inner closed c (suc n) zs hc level e₃ in
        let (ws, end, e₄) = write_all-Written closed n closes.level b r in
        (
          xs ++ (ys ++ (zs ++ ws)),
          end,
          ap (write_all env ctx) q
              ∙ then_write-ok (λ m. write_all env m (inside ++ (c ∷ rest))) e₁
                  (write_all-append env opened inside (c ∷ rest)
                    ∙ then_write-ok (λ m. write_all env m (c ∷ rest)) e₂
                        (then_write-ok (λ m. write_all env m rest) e₃ e₄)),
        )

  -- For AMD64, where `nkht_init` succeeds: below an open function, code whose other operations can be written,
  -- whose bodies are closed as they are opened, and nested at most as deep as 256 open bodies allow, is
  -- written successfully, and is balanced.
  pub write_all-Completes :
      (ctx : Context Table Heap) {d : ℕ} {os : List SastOperation}
      → is_amd64 env.isa ≡ true
      → ((heap : Heap) → (r : Table × Heap) × (env.nkht_init heap ≡ ok r))
      → 0 < ctx.indentation_level
      → ctx.indentation_level + d ≤ 256
      → IsWritable d os
      → (out : List Piece) × (end : Context Table Heap) × (write_all env ctx os ≡ ok (out, end))
        × Balanced ctx end out
  write_all-Completes ctx amd64 init pos b w = elim (ℕ-cases ctx.indentation_level) [
    | inl z ↦ absurd (omega arith)
    | inr (n, l) ↦
        let (out, end, e) = write_all-Written amd64 init ctx n l (omega (arith, l, b)) w in
        (out, end, e, write_all-Balanced env ctx end out (writable-IsNested w) e)
  ]
