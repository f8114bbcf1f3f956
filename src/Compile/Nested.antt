-- ===== src/Compile/Nested.antt =====
-- src/compile.c: code in which every body that is opened is closed.
use volatile.Base.{
  ℕ, ◌*◌, ◌<◌, ◌≤◌, ◌≡◌, refl, sym, ap, ◌∙◌, Option, List, [], ◌∷◌, ◌++◌, All, ok, arith, codes,
}
use mathlib.Core.Path.{subst, subst₂}
use volatile.Sast.{SastKind, SastOperation, kind, body_open, body_close}
use volatile.Compile.{Context, Piece, text, label, Target}
use volatile.Compile.Line.{convert_indented}
use volatile.Compile.Order.{write_all}
use volatile.Compile.Balance.{
  Above, All-append, Balanced, Opens, Closes, open_body-Opens, shut_body-Closes, opened_kind-offset,
}
use volatile.Compile.Plain.{IsPlain, NoLabel, convert-Keeps}
use volatile.Compile.Run.{parent, then_write-Splits, indented, write_all-BodyRun}

-- Operations in which each body that is opened is closed after it, and none is closed that was open before.
pub data IsNested : List SastOperation → Type 0 where
  done : IsNested []
  plain :
      (o : SastOperation) {rest : List SastOperation}
      → IsPlain o
      → IsNested rest
      → IsNested (o ∷ rest)
  body :
      (o c : SastOperation) {inside rest whole : List SastOperation}
      → kind o ≡ body_open
      → kind c ≡ body_close
      → IsNested inside
      → IsNested rest
      → whole ≡ o ∷ (inside ++ (c ∷ rest))
      → IsNested whole

pub All-map :
    {A : Type 0} (P Q : A → Type 0) (xs : List A) → ((x : A) → P x → Q x) → All P xs → All Q xs
All-map P Q [] f h = tt
All-map P Q (x ∷ xs) f h = (f x h.0, All-map P Q xs f h.1)

NoLabel→Above : (n : ℕ) (p : Piece) → NoLabel p → Above n p
NoLabel→Above n (label m) h = absurd h
NoLabel→Above n _ h = tt

Above-≤ : (m n : ℕ) (p : Piece) → n ≤ m → Above m p → Above n p
Above-≤ m n (label k) h a = omega arith
Above-≤ m n _ h a = tt

module _ {Table Heap : Type 0} (env : Target Table Heap) where
  -- Code that is balanced goes on as balanced code.
  Balanced-trans :
      {ctx middle end : Context Table Heap} (xs ys : List Piece)
      → Balanced ctx middle xs
      → Balanced middle end ys
      → Balanced ctx end (xs ++ ys)
  Balanced-trans {ctx} xs ys p q = record {
    level = q.level ∙ p.level;
    kinds = λ i h. q.kinds i (rw p.level h) ∙ p.kinds i h;
    tables = λ i h. q.tables i (rw p.level h) ∙ p.tables i h;
    function = λ h. q.function (rw p.level h) ∙ p.function h;
    labels =
        All-append (Above (ctx.indentation_level * 1000)) xs ys p.labels (rw (← p.level) q.labels);
  }

  -- A body with balanced code inside is balanced.
  Balanced-body :
      (ctx opened inner closed : Context Table Heap) (p q : Option SastKind) (xs ys zs : List Piece)
      → Opens ctx opened p xs
      → Balanced opened inner ys
      → Closes inner closed q ctx.indentation_level zs
      → Balanced ctx closed ((text (codes "\t") ∷ xs) ++ (ys ++ (text (codes "\t") ∷ zs)))
  Balanced-body ctx opened inner closed p q xs ys zs o b c =
      let n = ctx.indentation_level in
      let up : (i : ℕ) → i < n → i < opened.indentation_level = λ i h. omega (arith, o.level) in
      record {
        level = c.level;
        kinds = λ i h. ap (λ f. f i) c.kinds ∙ b.kinds i (up i h) ∙ o.kinds i h;
        tables = λ i h. ap (λ f. f i) c.tables ∙ b.tables i (up i h) ∙ o.tables i h;
        function = λ h. c.function h ∙ b.function (omega (arith, o.level)) ∙ o.function;
        labels =
            All-append (Above (n * 1000)) (text (codes "\t") ∷ xs) _
              (
                tt,
                subst (All (Above (n * 1000))) (sym o.written)
                    (omega (arith, opened_kind-offset p o.opened o.opens), tt),
              )
              (All-append (Above (n * 1000)) ys _
                (All-map (Above (opened.indentation_level * 1000)) (Above (n * 1000)) ys
                  (λ x.
                    Above-≤ (opened.indentation_level * 1000) (n * 1000) x (omega (arith, o.level)))
                  b.labels)
                (tt, c.labels));
      }

  Balanced-nothing : (ctx : Context Table Heap) → Balanced ctx ctx []
  Balanced-nothing ctx = record {
    level = refl;
    kinds = λ i h. refl;
    tables = λ i h. refl;
    function = λ h. refl;
    labels = tt;
  }

  Balanced-plain :
      (ctx : Context Table Heap) (xs : List Piece)
      → All NoLabel xs
      → Balanced ctx ctx (text (codes "\t") ∷ xs)
  Balanced-plain ctx xs u = record {
    level = refl;
    kinds = λ i h. refl;
    tables = λ i h. refl;
    function = λ h. refl;
    labels = (
      tt,
      All-map NoLabel (Above (ctx.indentation_level * 1000)) xs
          (NoLabel→Above (ctx.indentation_level * 1000)) u,
    );
  }

  -- Where code whose bodies are all closed is written successfully, it is balanced.
  pub write_all-Balanced :
      (ctx end : Context Table Heap) {os : List SastOperation} (out : List Piece)
      → IsNested os
      → write_all env ctx os ≡ ok (out, end)
      → Balanced ctx end out
  unfolding write_all
  write_all-Balanced ctx end out done h =
      subst₂ (Balanced ctx) (ground arith) (ground arith) (Balanced-nothing ctx)
  write_all-Balanced ctx end out (plain o {rest} p n) h =
      let a =
        then_write-Splits env (convert_indented env ctx o) (λ m. write_all env m rest) out end h in
      let (xs, converted, x) = indented env ctx o a.out₁ a.middle a.before in
      let (same, u) = convert-Keeps env ctx o p xs a.middle converted in
      let first : Balanced ctx a.middle a.out₁ =
        subst₂ (Balanced ctx) (sym same) (sym x) (Balanced-plain ctx xs u) in
      subst (Balanced ctx end) a.joined
        (Balanced-trans a.out₁ a.out₂ first (write_all-Balanced a.middle end a.out₂ n a.after))
  write_all-Balanced ctx end out (body o c {inside} {rest} ho hc i n e) h =
      let r =
        write_all-BodyRun env ctx end o c inside rest out ho hc
          (ap (write_all env ctx) (sym e) ∙ h) in
      let opens = open_body-Opens env ctx r.opened (parent o) r.open_lines r.opening in
      let b = write_all-Balanced r.opened r.inner r.inside_lines i r.within in
      let closes =
        shut_body-Closes env r.inner r.closed ctx.indentation_level (parent c) r.shut_lines
          (b.level ∙ opens.level) r.closing in
      let bb =
        Balanced-body ctx r.opened r.inner r.closed (parent o) (parent c) r.open_lines
          r.inside_lines r.shut_lines opens b closes in
      let rr = write_all-Balanced r.closed end r.rest_lines n r.going_on in
      subst (Balanced ctx end) (sym r.joined) (Balanced-trans _ r.rest_lines bb rr)
