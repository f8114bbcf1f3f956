-- ===== src/Lexer/Tokenize.antt =====
-- src/lexer.c: what the bytes of a token mean, `vltl_lexer_token_tokenize`. The tables are reached through
-- the hash tables of src/ds/nkht.c, memory comes from src/ds/varena.c and numbers are read by `sscanf`: all
-- three are parameters. The bytes of a token hold no 0, as the lexer's loops leave them.
pub mod Text
pub mod Words
pub mod Chars
use volatile.Base.{
  ℕ, suc, ◌+◌, ◌-◌, ◌^◌, Bool, true, false, not, ◌||◌, Option, none, some, List, [], ◌∷◌, Bytes,
  ltb, leb, ◌==◌, if◌then◌else◌, Code, einval, enotrecoverable, Result, ok, err, fault, ◌>>=◌,
  length, get_or, take, drop,
}
use volatile.Token.{TokenKind, literal, char, string, operation, token_kind_valid}
use volatile.Lang.{LangOperation, TypeAttribute, LangType}
use volatile.Lexer.{double_quote, single_quote, nul}
use volatile.Lexer.Escape.{tokenize_binary, tokenize_hexadecimal}

abbrev pub backslash : ℕ
backslash = 92

-- What `nkht_get` returns: 0 and a value, ENODATA, or another code.
pub data Found (A : Type 0) : Type 0 where
  found : A → Found A
  missing failed : Found A

-- What the lexer uses of the rest of the program. A local, global, constant or function is its address.
pub record Services (Arena : Type 0) : Type 0 where
  -- `varena_alloc` on `vltl_global_allocator`; `none` is NULL.
  pub alloc : Arena → ℕ → Option Arena
  -- `btrc_strncpy`: the bytes copied.
  pub strncpy : Bytes → ℕ → Result Bytes
  -- `sscanf` with "%li" into a zeroed word: its 64-bit pattern.
  pub scan_long : Bytes → ℕ
  pub operation : Bytes → Found LangOperation
  pub attribute : Bytes → Found TypeAttribute
  pub type : Bytes → Found LangType
  -- `vltl_global_context.function != NULL`
  pub in_function : Bool
  pub local : Bytes → Found ℕ
  pub global : Bytes → Found ℕ
  pub constant : Bytes → Found ℕ
  pub function : Bytes → Found ℕ

-- `Vltl_lang_literal`, by its type: `long` with a 64-bit pattern, or `nullstr` with the bytes of a string.
pub data LangLiteral : Type 0 where
  long_literal : ℕ → LangLiteral
  nullstr_literal : Bytes → LangLiteral

-- `Vltl_lang_token`; `zeroed` is the token of zeros.
pub data LangToken : Type 0 where
  zeroed : LangToken
  as_unknown : Bytes → LangToken
  as_literal : LangLiteral → LangToken
  as_type : LangType → LangToken
  as_operation : LangOperation → LangToken
  as_attribute : TypeAttribute → LangToken
  as_constant as_global as_local as_function : ℕ → LangToken

-- `tmp_cap`
abbrev pub tmp_cap : ℕ
tmp_cap = 999

-- `strchr`: the position of a byte in a string.
unfoldable pub strchr : Bytes → ℕ → Option ℕ
strchr [] q = none
strchr (c ∷ cs) q =
    let rest = strchr cs q in
    if c == q
    then some 0
    else if c == nul
    then none
    else elim rest [ some i ↦ some (suc i) | none ↦ none ]

-- The branch at STRING, on `tmp`. When the quote that the first search finds follows a backslash, the
-- next search starts at `tmp` again: it finds the opening quote, which fails the test `> tmp`, or, on a
-- `tmp` that no quote opens, the same quote again and again.
unfoldable pub tokenize_string : {A : Type 0} → Services A → A → Bytes → Result (A × LangToken)
tokenize_string env arena [] = err einval
tokenize_string env arena (c ∷ cs) = elim (strchr cs double_quote) [
  | none ↦ err einval
  | some i ↦
      if get_or (c ∷ cs) i 0 == backslash
      then (if c == double_quote || c == nul then err einval else fault)
      else elim (env.alloc arena (i + 1)) [
        | none ↦ fault
        | some arena' ↦ ok (arena', as_literal (nullstr_literal (take i cs)))
      ]
]

-- The `switch` on the byte after a backslash: `char_value` as an 8-bit pattern.
unfoldable pub escaped_char : ℕ → Bytes → Result ℕ
escaped_char c src =
    if c == single_quote
    then ok backslash
    else if c == b't'
    then ok 9
    else if c == b'n'
    then ok 10
    else if c == b'r'
    then ok 13
    else if c == b'x'
    then tokenize_hexadecimal src
    else if c == b'b'
    then tokenize_binary src
    else err einval

-- The conversion of a signed `char` to `uint64_t`.
unfoldable pub extend_sign : ℕ → ℕ
extend_sign v = if ltb v 128 then v else (2 ^ 64 - 256) + v

-- The branch at CHAR, on `tmp`.
unfoldable pub tokenize_char : Bytes → Result LangToken
unfolding extend_sign
tokenize_char tmp =
    if not (get_or tmp 0 0 == single_quote)
    then err einval
    else if get_or tmp 1 0 == 0
    then err einval
    else do
      v ←
          (if get_or tmp 1 0 == backslash
            then escaped_char (get_or tmp 2 0) (drop 3 tmp)
            else ok (get_or tmp 1 0))
      ok (as_literal (long_literal (extend_sign v)))

-- A lookup that is skipped when its table lacks the name.
unfoldable pub or_else :
    {A : Type 0} → Found A → (A → LangToken) → Result LangToken → Result LangToken
or_else (found a) f next = ok (f a)
or_else missing f next = next
or_else failed f next = err enotrecoverable

-- The lookup of locals, which only the body of a function has.
unfoldable pub local_or_else :
    {A : Type 0} → Services A → Bytes → Result LangToken → Result LangToken
unfolding or_else
local_or_else env tmp next = if env.in_function then or_else (env.local tmp) as_local next else next

-- The lookups after that of operations.
unfoldable pub tokenize_name : {A : Type 0} → Services A → Bytes → Result LangToken
unfolding or_else local_or_else
tokenize_name env tmp = or_else (env.attribute tmp) as_attribute (
    or_else (env.type tmp) as_type (
      local_or_else env tmp (
        or_else (env.global tmp) as_global (
          or_else (env.constant tmp) as_constant
            (or_else (env.function tmp) as_function (ok (as_unknown tmp)))))))

is_operation : TokenKind → Bool
is_operation operation = true
is_operation _ = false

-- The lookup of operations, and the others.
unfoldable pub tokenize_word : {A : Type 0} → Services A → TokenKind → Bytes → Result LangToken
unfolding is_operation
tokenize_word env kind tmp = elim (env.operation tmp) [
  | found o ↦ ok (as_operation o)
  | missing ↦ if is_operation kind then err einval else tokenize_name env tmp
  | failed ↦ err einval
]

-- What the token's presumed kind selects.
unfoldable pub tokenize_kind :
    {A : Type 0} → Services A → A → TokenKind → Bytes → Result (A × LangToken)
tokenize_kind env arena literal tmp = ok (arena, as_literal (long_literal (env.scan_long tmp)))
tokenize_kind env arena string tmp = tokenize_string env arena tmp
tokenize_kind env arena char tmp = do t ← tokenize_char tmp; ok (arena, t)
tokenize_kind env arena kind tmp = do t ← tokenize_word env kind tmp; ok (arena, t)

-- `vltl_lexer_token_tokenize`, whose copy to `tmp` needs `src_len + 1` bytes of its 999: `fault` is a
-- write past them.
unfoldable pub tokenize : {A : Type 0} → Services A → A → TokenKind → Bytes → Result (A × LangToken)
tokenize env arena kind src =
    if length src == 0
    then err einval
    else if not (token_kind_valid kind)
    then err einval
    else if ltb tmp_cap (length src - 1)
    then err einval
    else if leb tmp_cap (length src)
    then fault
    else tokenize_kind env arena kind src
