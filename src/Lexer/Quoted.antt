-- ===== src/Lexer/Quoted.antt =====
-- The loop of `vltl_lexer_token_chomp` over a char or a string.
use volatile.Base.{
  ℕ, zero, suc, ◌+◌, ◌≡◌, ap, false, List, [], ◌∷◌, ◌++◌, ◌==◌, replicate, length, arith, ok,
  Bool-cases, inl, inr, ==_iff, ==_refl,
}
use volatile.Lexer.{nul, scan_quoted}
use volatile.Lexer.Lexeme.{Every, is_inner}

-- What follows an opening quote: more quotes, at least one other byte, and the closing quote.
pub record Encloses (q : ℕ) (cs : List ℕ) (e n : ℕ) : Type 0 where
  pub k : ℕ
  pub b : ℕ
  pub body : List ℕ
  pub rest : List ℕ
  pub splits : cs ≡ replicate k q ++ (b ∷ body ++ (q ∷ rest))
  pub inner : Every (is_inner q) (b ∷ body)
  pub at : n ≡ e + k + length body + 2

record Closes (q : ℕ) (cs : List ℕ) (e n : ℕ) : Type 0 where
  body : List ℕ
  rest : List ℕ
  splits : cs ≡ body ++ (q ∷ rest)
  inner : Every (is_inner q) body
  at : n ≡ e + length body + 1

-- Behind a byte that is no quote the loop looks for the next quote.
scan_quoted-Closes :
    (q before : ℕ) (cs : List ℕ) (e n : ℕ)
    → (before == q) ≡ false
    → scan_quoted q before cs e ≡ ok n
    → Closes q cs e n
unfolding scan_quoted
scan_quoted-Closes q before [] e n h s = cc
scan_quoted-Closes q before (c ∷ cs) e n h s = elim (Bool-cases (c == q)) [
  | inl f ↦ record {
    body = [];
    rest = cs;
    splits = ap (λ x. x ∷ cs) ((==_iff c q).0 f);
    inner = tt;
    at = ground arith;
  }
  | inr f ↦
      let r = scan_quoted-Closes q c cs (e + 1) n f (ground arith) in
      record {
        body = c ∷ r.body;
        rest = r.rest;
        splits = ap (λ l. c ∷ l) r.splits;
        inner = (ground arith, r.inner);
        at = omega (arith, r.at);
      }
]

pub scan_quoted-Encloses :
    (q : ℕ) (cs : List ℕ) (e n : ℕ) → scan_quoted q q cs e ≡ ok n → Encloses q cs e n
unfolding scan_quoted
scan_quoted-Encloses q [] e n s = cc
scan_quoted-Encloses q (c ∷ cs) e n s = elim (Bool-cases (c == q)) [
  | inl f ↦
      let e' = (==_iff c q).0 f in
      let s' : scan_quoted q q cs (e + 1) ≡ ok n = ground (arith, ==_refl q) in
      let r = scan_quoted-Encloses q cs (e + 1) n s' in
      record {
        k = suc r.k;
        b = r.b;
        body = r.body;
        rest = r.rest;
        splits = rw e' (ap (λ l. q ∷ l) r.splits);
        inner = r.inner;
        at = omega (arith, r.at);
      }
  | inr f ↦
      let r = scan_quoted-Closes q c cs (e + 1) n f (ground arith) in
      record {
        k = 0;
        b = c;
        body = r.body;
        rest = r.rest;
        splits = ap (λ l. c ∷ l) r.splits;
        inner = (ground arith, r.inner);
        at = omega (arith, r.at);
      }
]

scan_quoted-body :
    (q before : ℕ) (body rest : List ℕ) (e : ℕ)
    → (q == nul) ≡ false
    → (before == q) ≡ false
    → Every (is_inner q) body
    → scan_quoted q before (body ++ (q ∷ rest)) e ≡ ok (e + length body + 1)
unfolding scan_quoted
scan_quoted-body q before [] rest e z h i = ground (arith, ==_refl q)
scan_quoted-body q before (c ∷ body) rest e z h i =
    ground (arith, scan_quoted-body q c body rest (e + 1) z)

pub scan_quoted-run :
    (q k b : ℕ) (body rest : List ℕ) (e : ℕ)
    → (q == nul) ≡ false
    → Every (is_inner q) (b ∷ body)
    → scan_quoted q q (replicate k q ++ (b ∷ body ++ (q ∷ rest))) e ≡ ok (e + k + length body + 2)
unfolding scan_quoted
scan_quoted-run q zero b body rest e z i = ground (arith, scan_quoted-body q b body rest (e + 1) z)
scan_quoted-run q (suc k) b body rest e z i =
    ground (arith, ==_refl q, scan_quoted-run q k b body rest (e + 1) z)
