-- ===== src/Sast/Names.antt =====
-- src/sast.c: the text of the kind of an operation.
use volatile.Base.{
  ℕ, ◌+◌, ◌<◌, ◌≡◌, refl, true, some, List, [], ◌∷◌, Bytes, codes, lookup, bytes_eq, length, ltb,
  ◌==◌, if◌then◌else◌, Result, ok, err, einval, enomem, arith,
}
use volatile.Sast.{
  SastKind, kind_valid, unset, invalid, eof, eval, call, grouping_open, grouping_close, index_open,
  index_close, load, lea, load_src3, store, address, indirection, add, sub, mul, div, test_equals,
  typeas, comma, csv, ret, global, constant, local, external, function, cdecl0, cdecl1, cdecl2,
  cdecl3, cdecl4, if_kind, elif_kind, else_kind, while_kind, body_open, body_close,
}

-- The switch of `vltl_sast_operation_kind_detokenize`.
unfoldable pub kind_name : SastKind → Bytes
kind_name eval = codes "EVAL"
kind_name call = codes "CALL"
kind_name grouping_open = codes "GROUPING_OPEN"
kind_name grouping_close = codes "GROUPING_CLOSE"
kind_name index_open = codes "INDEX_OPEN"
kind_name index_close = codes "INDEX_CLOSE"
kind_name load = codes "LOAD"
kind_name lea = codes "LEA"
kind_name load_src3 = codes "MOV_SRC3"
kind_name store = codes "STORE"
kind_name address = codes "ADDRESS"
kind_name indirection = codes "INDIRECTION"
kind_name add = codes "ADD"
kind_name sub = codes "SUB"
kind_name mul = codes "MUL"
kind_name div = codes "DIV"
kind_name test_equals = codes "TEST_EQUALS"
kind_name typeas = codes "TYPEAS"
kind_name comma = codes "COMMA"
kind_name csv = codes "CSV"
kind_name ret = codes "RETURN"
kind_name global = codes "GLOBAL"
kind_name constant = codes "CONSTANT"
kind_name local = codes "LOCAL"
kind_name external = codes "EXTERNAL"
kind_name function = codes "FUNCTION"
kind_name cdecl0 = codes "CDECL0"
kind_name cdecl1 = codes "CDECL1"
kind_name cdecl2 = codes "CDECL2"
kind_name cdecl3 = codes "CDECL3"
kind_name cdecl4 = codes "CDECL4"
kind_name if_kind = codes "IF"
kind_name elif_kind = codes "ELIF"
kind_name else_kind = codes "ELSE"
kind_name while_kind = codes "WHILE"
kind_name body_open = codes "BODY_OPEN"
kind_name body_close = codes "BODY_CLOSE"
kind_name _ = codes "???"

-- `vltl_sast_operation_kind_detokenize`: the text, which a NUL follows.
unfoldable pub kind_detokenize : ℕ → SastKind → Result Bytes
unfolding kind_name
kind_detokenize dest_cap src =
    if dest_cap == 0
    then err einval
    else if ltb dest_cap (length (kind_name src) + 1)
    then err enomem
    else ok (kind_name src)

abbrev kinds_by_name : List (Bytes × SastKind)
kinds_by_name =
    (codes "EVAL", eval)
    ∷ (codes "CALL", call)
    ∷ (codes "GROUPING_OPEN", grouping_open)
    ∷ (codes "GROUPING_CLOSE", grouping_close)
    ∷ (codes "INDEX_OPEN", index_open)
    ∷ (codes "INDEX_CLOSE", index_close)
    ∷ (codes "LOAD", load)
    ∷ (codes "LEA", lea)
    ∷ (codes "MOV_SRC3", load_src3)
    ∷ (codes "STORE", store)
    ∷ (codes "ADDRESS", address)
    ∷ (codes "INDIRECTION", indirection)
    ∷ (codes "ADD", add)
    ∷ (codes "SUB", sub)
    ∷ (codes "MUL", mul)
    ∷ (codes "DIV", div)
    ∷ (codes "TEST_EQUALS", test_equals)
    ∷ (codes "TYPEAS", typeas)
    ∷ (codes "COMMA", comma)
    ∷ (codes "CSV", csv)
    ∷ (codes "RETURN", ret)
    ∷ (codes "GLOBAL", global)
    ∷ (codes "CONSTANT", constant)
    ∷ (codes "LOCAL", local)
    ∷ (codes "EXTERNAL", external)
    ∷ (codes "FUNCTION", function)
    ∷ (codes "CDECL0", cdecl0)
    ∷ (codes "CDECL1", cdecl1)
    ∷ (codes "CDECL2", cdecl2)
    ∷ (codes "CDECL3", cdecl3)
    ∷ (codes "CDECL4", cdecl4)
    ∷ (codes "IF", if_kind)
    ∷ (codes "ELIF", elif_kind)
    ∷ (codes "ELSE", else_kind)
    ∷ (codes "WHILE", while_kind)
    ∷ (codes "BODY_OPEN", body_open)
    ∷ (codes "BODY_CLOSE", body_close)
    ∷ []

kind_name-read :
    (k : SastKind)
    → kind_valid k ≡ true
    → (lookup (kind_name k) kinds_by_name ≡ some k) × (length (kind_name k) < 20)
unfolding kind_valid kind_name lookup bytes_eq
kind_name-read unset h = cc
kind_name-read invalid h = cc
kind_name-read eof h = cc
kind_name-read _ h = (refl, omega arith)

-- A text and the kind that it names.
record Reads (k : SastKind) (dest_cap : ℕ) : Type 0 where
  text : Bytes
  written : kind_detokenize dest_cap k ≡ ok text
  read : lookup text kinds_by_name ≡ some k

-- In a buffer of twenty bytes or more, the text of every valid kind is written, and names that kind and no other.
kind_detokenize-Reads :
    (k : SastKind) (dest_cap : ℕ) → kind_valid k ≡ true → 19 < dest_cap → Reads k dest_cap
unfolding kind_detokenize
kind_detokenize-Reads k dest_cap v l =
    let (read, short) = kind_name-read k v in
    record { text = kind_name k; written = ground arith; read = read }
