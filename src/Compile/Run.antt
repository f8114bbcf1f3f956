-- ===== src/Compile/Run.antt =====
-- src/compile.c: the parts of a run in which a body is opened and closed.
use volatile.Base.{
  ◌≡◌, sym, ap, append_assoc, ◌∙◌, Option, List, ◌∷◌, ◌++◌, Result, ok, ◌>>=◌, ok_through, arith,
  Bool-cases, inl, inr, codes,
}
use volatile.Sast.{SastKind, SastOperation, node, kind, body_open, body_close}
use volatile.Compile.{Context, Piece, text, Target}
use volatile.Compile.Emit.{open_body, shut_body, convert_label}
use volatile.Asm.{is_amd64}
use volatile.Compile.Line.{convert_indented, then_write, convert}
use volatile.Compile.Order.{write_all, write_all-append}

-- The kind of the parent.
unfoldable pub parent : SastOperation → Option SastKind
parent (node k p xs bs cs e d) = p

module _ {Table Heap : Type 0} (env : Target Table Heap) where
  -- The parts of what is written one after another.
  pub record Splits (first : Result (List Piece × Context Table Heap))
      (next : Context Table Heap → Result (List Piece × Context Table Heap)) (out : List Piece)
      (end : Context Table Heap) : Type 0 where
    pub out₁ : List Piece
    pub middle : Context Table Heap
    pub out₂ : List Piece
    pub before : first ≡ ok (out₁, middle)
    pub after : next middle ≡ ok (out₂, end)
    pub joined : out₁ ++ out₂ ≡ out

  pub then_write-Splits :
      (first : Result (List Piece × Context Table Heap))
      (next : Context Table Heap → Result (List Piece × Context Table Heap)) (out : List Piece)
      (end : Context Table Heap)
      → then_write env first next ≡ ok (out, end)
      → Splits first next out end
  unfolding then_write
  then_write-Splits first next out end h =
      let ((out₁, middle), p, q) =
        ok_through (λ p. next p.1 >>= λ q. ok (p.0 ++ q.0, q.1)) first h in
      let ((out₂, last), r, t) = ok_through (λ q. ok (out₁ ++ q.0, q.1)) (next middle) q in
      record {
        out₁ = out₁;
        middle = middle;
        out₂ = out₂;
        before = p;
        after = ground arith;
        joined = ground arith;
      }

  -- What a successful `convert_indented` has written.
  pub indented :
      (ctx : Context Table Heap) (o : SastOperation) (out : List Piece) (end : Context Table Heap)
      → convert_indented env ctx o ≡ ok (out, end)
      → (lines : List Piece) × (convert env ctx o ≡ ok (lines, end))
        × (out ≡ text (codes "\t") ∷ lines)
  unfolding convert_indented
  indented ctx o out end h =
      let ((lines, c), p, q) =
        ok_through (λ p. ok (text (codes "\t") ∷ p.0, p.1)) (convert env ctx o) h in
      (lines, ground arith, ground arith)

  pub convert-open_body :
      (ctx : Context Table Heap) (o : SastOperation) (r : List Piece × Context Table Heap)
      → kind o ≡ body_open
      → convert env ctx o ≡ ok r
      → open_body env ctx (parent o) ≡ ok r
  unfolding convert convert_label parent
  convert-open_body ctx (node body_open p xs bs cs e d) r h c =
      elim (Bool-cases (is_amd64 env.isa)) [ inl a ↦ ground arith | inr a ↦ absurd (ground arith) ]
  convert-open_body ctx (node k p xs bs cs e d) r h c = cc

  pub convert-shut_body :
      (ctx : Context Table Heap) (o : SastOperation) (r : List Piece × Context Table Heap)
      → kind o ≡ body_close
      → convert env ctx o ≡ ok r
      → shut_body env ctx (parent o) ≡ ok r
  unfolding convert convert_label parent
  convert-shut_body ctx (node body_close p xs bs cs e d) r h c =
      elim (Bool-cases (is_amd64 env.isa)) [ inl a ↦ ground arith | inr a ↦ absurd (ground arith) ]
  convert-shut_body ctx (node k p xs bs cs e d) r h c = cc

  joined_parts :
      (a₁ a₂ b₁ b₂ c₁ c₂ out : List Piece)
      → a₁ ++ a₂ ≡ out
      → b₁ ++ b₂ ≡ a₂
      → c₁ ++ c₂ ≡ b₂
      → out ≡ (a₁ ++ (b₁ ++ c₁)) ++ c₂
  joined_parts a₁ a₂ b₁ b₂ c₁ c₂ out p q r =
      sym p
      ∙ ap (λ l. a₁ ++ l) (sym q ∙ ap (λ l. b₁ ++ l) (sym r) ∙ sym (append_assoc b₁ c₁ c₂))
      ∙ sym (append_assoc a₁ (b₁ ++ c₁) c₂)

  -- A run of a body: its opening, what is inside, its closing, and the rest.
  pub record BodyRun (ctx end : Context Table Heap) (o c : SastOperation)
      (inside rest : List SastOperation) (out : List Piece) : Type 0 where
    pub opened : Context Table Heap
    pub inner : Context Table Heap
    pub closed : Context Table Heap
    pub open_lines : List Piece
    pub inside_lines : List Piece
    pub shut_lines : List Piece
    pub rest_lines : List Piece
    pub opening : open_body env ctx (parent o) ≡ ok (open_lines, opened)
    pub within : write_all env opened inside ≡ ok (inside_lines, inner)
    pub closing : shut_body env inner (parent c) ≡ ok (shut_lines, closed)
    pub going_on : write_all env closed rest ≡ ok (rest_lines, end)
    pub joined :
        out
        ≡ ((text (codes "\t") ∷ open_lines) ++ (inside_lines ++ (text (codes "\t") ∷ shut_lines)))
          ++ rest_lines

  pub write_all-BodyRun :
      (ctx end : Context Table Heap) (o c : SastOperation) (inside rest : List SastOperation)
      (out : List Piece)
      → kind o ≡ body_open
      → kind c ≡ body_close
      → write_all env ctx (o ∷ (inside ++ (c ∷ rest))) ≡ ok (out, end)
      → BodyRun ctx end o c inside rest out
  unfolding write_all
  write_all-BodyRun ctx end o c inside rest out ho hc h =
      let a =
        then_write-Splits (convert_indented env ctx o) (λ m. write_all env m (inside ++ (c ∷ rest)))
          out end h in
      let (xs, converted, x) = indented ctx o a.out₁ a.middle a.before in
      let b =
        then_write-Splits (write_all env a.middle inside) (λ m. write_all env m (c ∷ rest)) a.out₂
          end (sym (write_all-append env a.middle inside (c ∷ rest)) ∙ a.after) in
      let d =
        then_write-Splits (convert_indented env b.middle c) (λ m. write_all env m rest) b.out₂ end
          b.after in
      let (zs, shut, z) = indented b.middle c d.out₁ d.middle d.before in
      record {
        opened = a.middle;
        inner = b.middle;
        closed = d.middle;
        open_lines = xs;
        inside_lines = b.out₁;
        shut_lines = zs;
        rest_lines = d.out₂;
        opening = convert-open_body ctx o (xs, a.middle) ho converted;
        within = b.before;
        closing = convert-shut_body b.middle c (zs, d.middle) hc shut;
        going_on = d.after;
        joined =
            joined_parts (text (codes "\t") ∷ xs) a.out₂ b.out₁ b.out₂ (text (codes "\t") ∷ zs)
              d.out₂ out (ap (λ l. l ++ a.out₂) (sym x) ∙ a.joined) b.joined
              (ap (λ l. l ++ d.out₂) (sym z) ∙ d.joined);
      }
