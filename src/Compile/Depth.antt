-- ===== src/Compile/Depth.antt =====
-- src/compile.c: how deep bodies are nested.
use volatile.Base.{
  ℕ, zero, suc, ◌+◌, ◌≤◌, ◌≡◌, refl, sym, ap, ◌∙◌, Option, List, [], ◌∷◌, ok, arith, inl, inr, ◌⊎◌,
}
use volatile.Sast.{SastKind, SastOperation, node, kind, body_open, body_close}
use volatile.Compile.{Context, Piece, Target}
use volatile.Compile.Emit.{shut_body}
use volatile.Compile.Line.{convert_indented, convert, recurse}
use volatile.Compile.Order.{write_all, post_order, recurse-post_order}
use volatile.Compile.Balance.{open_body-Opens, shut_body-Closes}
use volatile.Compile.Plain.{convert-Keeps}
use volatile.Compile.Run.{parent, then_write-Splits, indented, convert-open_body, convert-shut_body}

-- 1 for an operation that opens a body, and for one that closes one.
abbrev pub opens : SastOperation → ℕ
opens o = elim (kind o) [ body_open ↦ 1 | _ ↦ 0 ]

abbrev pub shuts : SastOperation → ℕ
shuts o = elim (kind o) [ body_close ↦ 1 | _ ↦ 0 ]

abbrev pub total : (SastOperation → ℕ) → List SastOperation → ℕ
total f [] = 0
total f (o ∷ os) = f o + total f os

pub ℕ-cases : (n : ℕ) → (n ≡ 0) ⊎ ((m : ℕ) × (n ≡ suc m))
ℕ-cases zero = inl refl
ℕ-cases (suc n) = inr (n, refl)

module _ {Table Heap : Type 0} (env : Target Table Heap) where
  shut_body-zero :
      (ctx : Context Table Heap) (p : Option SastKind) (r : List Piece × Context Table Heap)
      → ctx.indentation_level ≡ 0
      → ¬ (shut_body env ctx p ≡ ok r)
  unfolding shut_body
  shut_body-zero ctx p r e h = ground arith

  -- One operation changes the level by what it opens and closes, and does not bring it past 256.
  convert-level :
      (ctx end : Context Table Heap) (o : SastOperation) (lines : List Piece)
      → ctx.indentation_level ≤ 256
      → convert env ctx o ≡ ok (lines, end)
      → (end.indentation_level ≤ 256)
        × (end.indentation_level + shuts o ≡ ctx.indentation_level + opens o)
  unfolding kind parent
  convert-level ctx end (node body_open p xs bs cs e d) lines l h =
      let r =
        open_body-Opens env ctx end p lines
          (convert-open_body env ctx (node body_open p xs bs cs e d) (lines, end) refl h) in
      (omega (arith, r.level, r.bound), omega (arith, r.level))
  convert-level ctx end (node body_close p xs bs cs e d) lines l h =
      elim (ℕ-cases ctx.indentation_level) [
        | inl z ↦ absurd (
            shut_body-zero ctx p (lines, end) z
              (convert-shut_body env ctx (node body_close p xs bs cs e d) (lines, end) refl h))
        | inr (n, s) ↦
            let r =
              shut_body-Closes env ctx end n p lines s
                (convert-shut_body env ctx (node body_close p xs bs cs e d) (lines, end) refl h) in
            (omega (arith, r.level, r.bound), omega (arith, r.level, s))
      ]
  convert-level ctx end (node k p xs bs cs e d) lines l h =
      let (same, _) =
        convert-Keeps env ctx (node k p xs bs cs e d) (λ e. cc, λ e. cc) lines end h in
      let level : end.indentation_level ≡ ctx.indentation_level =
        ap (λ c. c.indentation_level) same in
      (omega (arith, level), omega (arith, level))

  write_all-level :
      (ctx end : Context Table Heap) (os : List SastOperation) (out : List Piece)
      → ctx.indentation_level ≤ 256
      → write_all env ctx os ≡ ok (out, end)
      → (end.indentation_level ≤ 256)
        × (end.indentation_level + total shuts os ≡ ctx.indentation_level + total opens os)
  unfolding write_all
  write_all-level ctx end [] out l h =
      let level : ctx.indentation_level ≡ end.indentation_level = ground arith in
      (omega (arith, level), omega (arith, level))
  write_all-level ctx end (o ∷ os) out l h =
      let a =
        then_write-Splits env (convert_indented env ctx o) (λ m. write_all env m os) out end h in
      let (xs, converted, _) = indented env ctx o a.out₁ a.middle a.before in
      let (b, e) = convert-level ctx a.middle o xs l converted in
      let (c, f) = write_all-level a.middle end os a.out₂ b a.after in (c, omega (arith, e, f))

  -- Where at most 256 bodies are open and the code of a tree is written successfully, at most 256 are open
  -- after it: the level has grown by the bodies that the tree opens and shrunk by the ones that it closes.
  pub recurse-level :
      (ctx end : Context Table Heap) (o : SastOperation) (out : List Piece)
      → ctx.indentation_level ≤ 256
      → recurse env ctx o ≡ ok (out, end)
      → (end.indentation_level ≤ 256)
        × (end.indentation_level + total shuts (post_order o)
            ≡ ctx.indentation_level + total opens (post_order o))
  recurse-level ctx end o out l h =
      write_all-level ctx end (post_order o) out l (sym (recurse-post_order env ctx o) ∙ h)
