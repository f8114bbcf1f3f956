-- ===== src/Compile/Jumps.antt =====
-- src/compile.c: where the jumps around a body that has a condition go.
use volatile.Base.{
  ℕ, suc, ◌+◌, ◌-◌, ◌*◌, ◌%◌, ◌^◌, ◌<◌, ◌≡◌, sym, ap, append_assoc, append-nil, ◌∙◌, Bool, true,
  false, some, List, [], ◌∷◌, ◌++◌, All, Result, ok, err, fault, ok_through, arith, not, Code,
  enotrecoverable, if◌then◌else◌, Bytes, codes,
}
use mathlib.Core.Path.{subst}
use volatile.Sast.{SastOperation, node, kind, body_open, body_close, if_kind, elif_kind, while_kind}
use volatile.Compile.{
  Context, Piece, text, label, jump_back, test_zero, Target, while_body, open_offset,
}
use volatile.Compile.Emit.{
  convert_label, numbered, close_chain, close_body, test_body, keep, operand_text,
}
use volatile.Asm.{is_amd64}
use volatile.Compile.Line.{convert_indented, convert}
use volatile.Compile.Order.{write_all}
use volatile.Compile.Balance.{Above, All-append, open_body-Opens, shut_body-Closes, numbered_small}
use volatile.Compile.Plain.{convert-Keeps}
use volatile.Compile.Run.{parent, then_write-Splits, indented, write_all-BodyRun}
use volatile.Compile.Nested.{IsNested, All-map, write_all-Balanced}
use volatile.Compile.Tested.{
  Test, if_test, elif_test, while_test, test_kind, tested, shut_offset, Misses, Above-Misses,
  close_body-Shuts, opened_kind-tested, test-IsPlain, shut_offset_small, open_offset_small,
}

abbrev laid_out : Piece → List Piece → List Piece → List Piece → List Piece → List Piece
laid_out tab opening inside closing rest = ((tab ∷ opening) ++ (inside ++ (tab ∷ closing))) ++ rest

laid_out_cong :
    (tab : Piece) {a a' b b' c c' d d' : List Piece}
    → a ≡ a'
    → b ≡ b'
    → c ≡ c'
    → d ≡ d'
    → laid_out tab a b c d ≡ laid_out tab a' b' c' d'
laid_out_cong tab p q r s = cc

laid_out_lem :
    (tab l z e : Piece) (inside front : List Piece)
    → laid_out tab (l ∷ []) ((tab ∷ z ∷ []) ++ inside) (front ++ (e ∷ [])) []
      ≡ tab ∷ l ∷ tab ∷ z ∷ ((inside ++ (tab ∷ front)) ++ (e ∷ []))
laid_out_lem tab l z e inside front =
    ap (λ r. tab ∷ l ∷ tab ∷ z ∷ r)
      (append-nil (inside ++ (tab ∷ (front ++ (e ∷ []))))
        ∙ sym (append_assoc inside (tab ∷ front) (e ∷ [])))

module _ {Table Heap : Type 0} (env : Target Table Heap) where
  -- The code of a body with a condition, from level `n`: the body's label, the test that jumps forward when the
  -- condition is zero, what is skipped by the jump, and at the very end the label that is jumped to. No
  -- label before is that one, nor is the body's own label defined again; a loop jumps back to it before the end.
  pub record Guards (t : Test) (n : ℕ) (out : List Piece) : Type 0 where
    pub operand : Bytes
    pub skipped : List Piece
    pub shape :
        out
        ≡ text (codes "\t")
          ∷ label (n * 1000 + open_offset (tested t))
          ∷ text (codes "\t")
          ∷ test_zero operand (n * 1000 + shut_offset t)
          ∷ (skipped ++ (label (n * 1000 + shut_offset t) ∷ []))
    pub forward : All (Misses (n * 1000 + shut_offset t)) skipped
    pub once : All (Misses (n * 1000 + open_offset (tested t))) skipped
    pub back :
        t ≡ while_test
        → (start : List Piece) × (skipped
            ≡ start ++ (jump_back (n * 1000 + open_offset while_body) ∷ []))

  -- What is written for a test, one level in.
  test_body-target :
      (ctx : Context Table Heap) (o : SastOperation) (n offset : ℕ) (lines : List Piece)
      → ctx.indentation_level ≡ suc n
      → n < 256
      → offset < 1000
      → test_body env ctx o offset ≡ ok lines
      → (s : Bytes) × (lines ≡ test_zero s (n * 1000 + offset) ∷ [])
  unfolding test_body
  test_body-target ctx o n offset lines e l k h =
      let (s, p, q) =
        ok_through
          (λ s.
            ok (
              test_zero s (numbered ((ctx.indentation_level + (2 ^ 64 - 1)) % 2 ^ 64) offset) ∷ []))
          (operand_text env o) h in
      let level : (ctx.indentation_level + (2 ^ 64 - 1)) % 2 ^ 64 ≡ n = omega (arith, e, l) in
      (
        s,
        sym (ground (arith, q))
            ∙ ap (λ m. test_zero s m ∷ [])
                (ap (λ m. numbered m offset) level ∙ numbered_small n offset (omega arith) k),
      )

  kept :
      (b : Bool) (c : Code) (ctx end : Context Table Heap) (r : Result (List Piece))
      (lines : List Piece)
      → (if b then err c else keep env ctx r) ≡ ok (lines, end)
      → r ≡ ok lines
  unfolding keep
  kept true c ctx end r lines h = cc
  kept false c ctx end fault lines h = cc
  kept false c ctx end (err d) lines h = cc
  kept false c ctx end (ok ls) lines h = ground arith

  convert-test :
      (t : Test) (ctx end : Context Table Heap) (o : SastOperation) (n : ℕ) (lines : List Piece)
      → kind o ≡ test_kind t
      → ctx.indentation_level ≡ suc n
      → n < 256
      → convert env ctx o ≡ ok (lines, end)
      → (s : Bytes) × (lines ≡ test_zero s (n * 1000 + shut_offset t) ∷ [])
  unfolding convert convert_label keep
  convert-test if_test ctx end (node if_kind p xs bs cs e d) n lines h l b c =
      test_body-target ctx (node if_kind p xs bs cs e d) n 12 lines l b (omega arith)
        (kept (not (is_amd64 env.isa)) enotrecoverable ctx end _ lines c)
  convert-test if_test ctx end (node k p xs bs cs e d) n lines h l b c = cc
  convert-test elif_test ctx end (node elif_kind p xs bs cs e d) n lines h l b c =
      test_body-target ctx (node elif_kind p xs bs cs e d) n 13 lines l b (omega arith)
        (kept (not (is_amd64 env.isa)) enotrecoverable ctx end _ lines c)
  convert-test elif_test ctx end (node k p xs bs cs e d) n lines h l b c = cc
  convert-test while_test ctx end (node while_kind p xs bs cs e d) n lines h l b c =
      test_body-target ctx (node while_kind p xs bs cs e d) n 15 lines l b (omega arith)
        (kept (not (is_amd64 env.isa)) enotrecoverable ctx end _ lines c)
  convert-test while_test ctx end (node k p xs bs cs e d) n lines h l b c = cc

  Above-inside :
      (n m : ℕ) (lines : List Piece)
      → m < 1000
      → All (Above (suc n * 1000)) lines
      → All (Misses (n * 1000 + m)) lines
  Above-inside n m lines h a =
      All-map (Above (suc n * 1000)) (Misses (n * 1000 + m)) lines
        (λ p. Above-Misses (suc n * 1000) (n * 1000 + m) p (omega arith)) a

  -- Where the code of a body that is opened inside another below `if`, `elif` or `while`, of its condition's
  -- test, of operations in which all bodies are closed, and of its closing, is written successfully, the
  -- test jumps to the label at the very end of that code when the condition is zero, and no label before
  -- it has that number; a loop ends with a jump back to the body's label, which is defined once.
  pub write_all-Guards :
      (t : Test) (ctx end : Context Table Heap) (o test c : SastOperation)
      {inside : List SastOperation} (out : List Piece)
      → 0 < ctx.indentation_level
      → kind o ≡ body_open
      → parent o ≡ some (test_kind t)
      → kind test ≡ test_kind t
      → IsNested inside
      → kind c ≡ body_close
      → write_all env ctx (o ∷ ((test ∷ inside) ++ (c ∷ []))) ≡ ok (out, end)
      → Guards t ctx.indentation_level out
  unfolding write_all open_offset
  write_all-Guards t ctx end o test c {inside} out pos ho hp ht i hc h =
      let n = ctx.indentation_level in
      let r = write_all-BodyRun env ctx end o c (test ∷ inside) [] out ho hc h in
      let opens = open_body-Opens env ctx r.opened (parent o) r.open_lines r.opening in
      let is : opens.opened ≡ tested t = ground (arith, opens.opens, opened_kind-tested t) in
      let a =
        then_write-Splits env (convert_indented env r.opened test) (λ m. write_all env m inside)
          r.inside_lines r.inner r.within in
      let (ts, converted, x) = indented env r.opened test a.out₁ a.middle a.before in
      let (same, _) =
        convert-Keeps env r.opened test (test-IsPlain t test ht) ts a.middle converted in
      let (s, jump) =
        convert-test t r.opened a.middle test n ts ht opens.level opens.bound converted in
      let b = write_all-Balanced env a.middle r.inner a.out₂ i a.after in
      let level : a.middle.indentation_level ≡ suc n =
        ap (λ m. m.indentation_level) same ∙ opens.level in
      let closes =
        shut_body-Closes env r.inner r.closed n (parent c) r.shut_lines (b.level ∙ level)
          r.closing in
      let (ls, shut, lines) = closes.lines pos in
      let here : r.inner.body_kind n ≡ tested t =
        b.kinds n (omega (arith, level)) ∙ ap (λ m. m.body_kind n) same ∙ opens.kind_here ∙ is in
      let shuts =
        close_body-Shuts t n (parent c) ls opens.bound (ap (close_body n) (sym here) ∙ shut) in
      record {
        operand = s;
        skipped = a.out₂ ++ (text (codes "\t") ∷ shuts.front);
        shape =
            r.joined
            ∙ laid_out_cong (text (codes "\t"))
                (opens.written ∙ ap (λ k. label (n * 1000 + open_offset k) ∷ []) is)
                (sym a.joined ∙ ap (λ l. l ++ a.out₂) (x ∙ ap (λ l. text (codes "\t") ∷ l) jump))
                (lines ∙ ap (λ k. close_chain n (parent c) k ++ ls) here ∙ shuts.shape)
                (ground (arith, r.going_on))
            ∙ laid_out_lem _ _ _ _ a.out₂ shuts.front;
        forward =
            All-append (Misses (n * 1000 + shut_offset t)) a.out₂ _
              (Above-inside n (shut_offset t) a.out₂ (shut_offset_small t)
                (subst (λ v. All (Above (v * 1000)) a.out₂) level b.labels))
              (tt, shuts.misses);
        once =
            All-append (Misses (n * 1000 + open_offset (tested t))) a.out₂ _
              (Above-inside n (open_offset (tested t)) a.out₂ (open_offset_small t)
                (subst (λ v. All (Above (v * 1000)) a.out₂) level b.labels))
              (tt, shuts.misses_open);
        back = λ e.
            let (start, q) = shuts.back e in
            (
              a.out₂ ++ (text (codes "\t") ∷ start),
              ap (λ l. a.out₂ ++ (text (codes "\t") ∷ l)) q
                  ∙ sym (append_assoc a.out₂ (text (codes "\t") ∷ start) _),
            );
      }
