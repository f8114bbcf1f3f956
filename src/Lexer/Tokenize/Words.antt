-- ===== src/Lexer/Tokenize/Words.antt =====
-- The tokens that are looked up by name, and the lengths that the buffer does not hold.
use volatile.Base.{
  ℕ, zero, ◌*◌, ◌%◌, ◌^◌, suc, ◌+◌, ◌≤◌, ◌<◌, ◌≡◌, ◌≢◌, ◌↔◌, refl, sym, ◌∙◌, Bool, true, false, not,
  Option, [], ◌∷◌, Bytes, ◌==◌, if◌then◌else◌, Code, einval, Result, ok, err, fault, ◌>>=◌, length,
  arith, Option-cases, inl, inr, drop, get_or,
}
use volatile.Token.{TokenKind, literal, char, string, unknown, token_kind_valid}
use volatile.Lexer.{single_quote}
use volatile.Lexer.Escape.{
  read_digits, binary_digit, hexadecimal_digit, tokenize_binary, tokenize_hexadecimal,
}
use volatile.Lexer.Tokenize.{
  Services, Found, found, missing, failed, LangToken, as_local, as_attribute, as_type, as_global,
  as_constant, as_function, as_unknown, or_else, local_or_else, as_literal, long_literal,
  tokenize_name, tokenize_word, tokenize_char, escaped_char, extend_sign, tokenize_kind, tokenize,
  backslash,
}
use volatile.Lexer.Tokenize.Text.{tokenize-short}

read_digits-ne-fault :
    (digit : ℕ → Option ℕ) (base n : ℕ) (src : Bytes) (v : ℕ)
    → read_digits digit base n src v ≢ fault
unfolding read_digits
read_digits-ne-fault digit base n [] v e = cc
read_digits-ne-fault digit base zero (c ∷ cs) v e = ground arith
read_digits-ne-fault digit base (suc n) (c ∷ cs) v e = elim (Option-cases (digit c)) [
  | inl q ↦ ground arith
  | inr (d, q) ↦
      read_digits-ne-fault digit base n cs ((v * base % 2 ^ 8 + d) % 2 ^ 8) (ground arith)
]

escaped_char-ne-fault : (c : ℕ) (src : Bytes) → escaped_char c src ≢ fault
unfolding escaped_char tokenize_binary tokenize_hexadecimal
escaped_char-ne-fault c src e = ground (
  arith,
  read_digits-ne-fault hexadecimal_digit 16 2 src 0,
  read_digits-ne-fault binary_digit 2 8 src 0,
)

>>=-ne-fault :
    {A B : Type 0} (m : Result A) (f : A → Result B)
    → m ≢ fault
    → ((a : A) → f a ≢ fault)
    → (m >>= f) ≢ fault
>>=-ne-fault (ok a) f h k e = k a e
>>=-ne-fault (err c) f h k e = cc
>>=-ne-fault fault f h k e = h refl

ok-ne-fault : {A : Type 0} (a : A) → ok a ≢ fault
ok-ne-fault a e = cc

err-ne-fault : {A : Type 0} (c : Code) → ◌≢◌ {A = Result A} (err c) fault
err-ne-fault c e = cc

if-ne-fault :
    {A : Type 0} (b : Bool) (x y : Result A) → x ≢ fault → y ≢ fault → (if b then x else y) ≢ fault
if-ne-fault true x y h k = h
if-ne-fault false x y h k = k

tokenize_char-ne-fault : (tmp : Bytes) → tokenize_char tmp ≢ fault
unfolding tokenize_char
tokenize_char-ne-fault tmp =
    if-ne-fault (not (get_or tmp 0 0 == single_quote)) _ _ (err-ne-fault einval) (
      if-ne-fault (get_or tmp 1 0 == 0) _ _ (err-ne-fault einval) (
        >>=-ne-fault _ _
          (if-ne-fault (get_or tmp 1 0 == backslash) _ _
            (escaped_char-ne-fault (get_or tmp 2 0) (drop 3 tmp)) (ok-ne-fault (get_or tmp 1 0)))
          (λ v. ok-ne-fault (as_literal (long_literal (extend_sign v))))))

or_else-ne-fault :
    {A : Type 0} (x : Found A) (f : A → LangToken) (next : Result LangToken)
    → next ≢ fault
    → or_else x f next ≢ fault
unfolding or_else
or_else-ne-fault (found a) f next h e = cc
or_else-ne-fault missing f next h e = h e
or_else-ne-fault failed f next h e = cc

local_or_else-ne-fault :
    {A : Type 0} (env : Services A) (tmp : Bytes) (next : Result LangToken)
    → next ≢ fault
    → local_or_else env tmp next ≢ fault
unfolding local_or_else
local_or_else-ne-fault env tmp next h e =
    ground (arith, or_else-ne-fault (env.local tmp) as_local next h)

tokenize_name-ne-fault :
    {A : Type 0} (env : Services A) (tmp : Bytes) → tokenize_name env tmp ≢ fault
unfolding tokenize_name
tokenize_name-ne-fault env tmp = or_else-ne-fault (env.attribute tmp) as_attribute _ (
    or_else-ne-fault (env.type tmp) as_type _ (
      local_or_else-ne-fault env tmp _ (
        or_else-ne-fault (env.global tmp) as_global _ (
          or_else-ne-fault (env.constant tmp) as_constant _
            (or_else-ne-fault (env.function tmp) as_function _ (ok-ne-fault (as_unknown tmp)))))))

tokenize_word-ne-fault :
    {A : Type 0} (env : Services A) (kind : TokenKind) (tmp : Bytes)
    → tokenize_word env kind tmp ≢ fault
unfolding tokenize_word
tokenize_word-ne-fault env kind tmp e = ground (arith, tokenize_name-ne-fault env tmp)

tokenize_kind-ne-fault :
    {A : Type 0} (env : Services A) (arena : A) (kind : TokenKind) (tmp : Bytes)
    → kind ≢ string
    → tokenize_kind env arena kind tmp ≢ fault
unfolding tokenize_kind
tokenize_kind-ne-fault env arena literal tmp h = ok-ne-fault _
tokenize_kind-ne-fault env arena string tmp h = absurd (h refl)
tokenize_kind-ne-fault env arena char tmp h =
    >>=-ne-fault _ _ (tokenize_char-ne-fault tmp) (λ t. ok-ne-fault (arena, t))
tokenize_kind-ne-fault env arena kind tmp h =
    >>=-ne-fault _ _ (tokenize_word-ne-fault env kind tmp) (λ t. ok-ne-fault (arena, t))

-- A token of a valid kind other than STRING is written past the end of the buffer exactly when it
-- is 999 or 1000 bytes long: the guard on the length lets these two through.
pub tokenize-fault :
    {A : Type 0} (env : Services A) (arena : A) (kind : TokenKind) (src : Bytes)
    → token_kind_valid kind ≡ true
    → kind ≢ string
    → (tokenize env arena kind src ≡ fault) ↔ ((999 ≤ length src) × (length src ≤ 1000))
unfolding tokenize
tokenize-fault env arena kind src v s =
    (λ e. ground (arith, tokenize_kind-ne-fault env arena kind src s), λ (lo, hi). ground arith)

-- A word of fewer than 999 bytes is taken for a local exactly when no operation, attribute or type
-- has that name, the line stands in the body of a function and the function has that local: a local
-- hides every global, constant and function of its name.
pub tokenize-local :
    {A : Type 0} (env : Services A) (arena : A) (src : Bytes) (l : ℕ)
    → 0 < length src
    → length src < 999
    → (tokenize env arena unknown src ≡ ok (arena, as_local l)) ↔ (
        (env.operation src ≡ missing)
        × (env.attribute src ≡ missing)
        × (env.type src ≡ missing)
        × (env.in_function ≡ true)
        × (env.local src ≡ found l))
unfolding token_kind_valid tokenize_kind tokenize_word tokenize_name or_else local_or_else
tokenize-local env arena src l p h =
    let e = tokenize-short env arena unknown src refl p h in
    (λ q. ground (arith, sym e ∙ q), λ (o, a, t, f, x). e ∙ ground arith)
