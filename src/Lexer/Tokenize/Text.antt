-- ===== src/Lexer/Tokenize/Text.antt =====
-- The tokens that quotes enclose.
use volatile.Base.{
  ℕ, ◌+◌, ◌<◌, ◌≡◌, ◌≢◌, refl, ap, sym, ◌∙◌, true, some, List, [], ◌∷◌, ◌++◌, Bytes, ok, length,
  get_or, take, arith, length-append,
}
use volatile.Token.{TokenKind, string, token_kind_valid}
use volatile.Lexer.{double_quote}
use volatile.Lexer.Lexeme.{Every, is_inner}
use volatile.Lexer.Tokenize.{
  Services, nullstr_literal, as_literal, strchr, backslash, tokenize_string, tokenize_kind,
  tokenize,
}

strchr-end :
    (body : Bytes)
    → Every (is_inner double_quote) body
    → strchr (body ++ (double_quote ∷ [])) double_quote ≡ some (length body)
unfolding strchr
strchr-end [] h = refl
strchr-end (c ∷ cs) h = rw (strchr-end cs h.1) (ground (arith, h.0))

take-append : {A : Type 0} (xs ys : List A) → take (length xs) (xs ++ ys) ≡ xs
take-append [] ys = refl
take-append (x ∷ xs) ys = ap (λ r. x ∷ r) (take-append xs ys)

last : ℕ → Bytes → ℕ
last c [] = c
last c (b ∷ bs) = last b bs

get_or-last : (c : ℕ) (body rest : Bytes) → get_or (c ∷ body ++ rest) (length body) 0 ≡ last c body
unfolding last
get_or-last c [] rest = refl
get_or-last c (b ∷ bs) rest = get_or-last b bs rest

last-concat : (c : ℕ) (init : Bytes) (b : ℕ) → last c (init ++ (b ∷ [])) ≡ b
unfolding last
last-concat c [] b = refl
last-concat c (x ∷ xs) b = last-concat x xs b

string_body :
    {A : Type 0} (env : Services A) (arena arena' : A) (body : Bytes)
    → Every (is_inner double_quote) body
    → last double_quote body ≢ backslash
    → env.alloc arena (length body + 1) ≡ some arena'
    → tokenize_string env arena (double_quote ∷ (body ++ (double_quote ∷ [])))
      ≡ ok (arena', as_literal (nullstr_literal body))
unfolding tokenize_string
string_body env arena arena' body h n m =
    rw (strchr-end body h, tokenize_string)
      (ground (
        arith,
        get_or-last double_quote body (double_quote ∷ []),
        m,
        take-append body (double_quote ∷ []),
      ))

-- Within the buffer the presumed kind decides.
pub tokenize-short :
    {A : Type 0} (env : Services A) (arena : A) (kind : TokenKind) (src : Bytes)
    → token_kind_valid kind ≡ true
    → 0 < length src
    → length src < 999
    → tokenize env arena kind src ≡ tokenize_kind env arena kind src
unfolding tokenize
tokenize-short env arena kind src v p l = ground arith

-- A string whose bytes between the quotes are no quotes and no zeros, and whose last such byte is no
-- backslash, becomes a `nullstr` literal of exactly these bytes, when they are fewer than 997 and
-- the allocator gives one byte more than they take.
pub tokenize_string_lem :
    {A : Type 0} (env : Services A) (arena arena' : A) (init : Bytes) (b : ℕ)
    → Every (is_inner double_quote) (init ++ (b ∷ []))
    → b ≢ backslash
    → length init < 996
    → env.alloc arena (length init + 2) ≡ some arena'
    → tokenize env arena string (double_quote ∷ ((init ++ (b ∷ [])) ++ (double_quote ∷ [])))
      ≡ ok (arena', as_literal (nullstr_literal (init ++ (b ∷ []))))
unfolding tokenize token_kind_valid tokenize_kind
tokenize_string_lem env arena arena' init b h n l m =
    let e = length-append init (b ∷ []) in
    let e' = length-append (init ++ (b ∷ [])) (double_quote ∷ []) in
    tokenize-short env arena string _ refl (omega arith) (omega (arith, e, e'))
    ∙ string_body env arena arena' (init ++ (b ∷ [])) h
        (λ q. n (sym (last-concat double_quote init b) ∙ q))
        (ap (env.alloc arena) (omega (arith, e)) ∙ m)
