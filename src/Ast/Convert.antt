-- ===== src/Ast/Convert.antt =====
-- src/ast.c: `vltl_ast_tree_convert`, the syntax tree of a line. The traces, which only messages read, are left out.
pub mod Logs
pub mod Inserts
use volatile.Base.{
  ℕ, ◌+◌, ◌%◌, ◌^◌, Bool, true, false, not, if◌then◌else◌, Option, none, some, List, [], ◌∷◌, Bytes,
  einval, enomem, Result, ok, err, ◌>>=◌,
}
use volatile.Lang.{LangOperation, LangType}
use volatile.Lexer.Tokenize.{
  LangLiteral, LangToken, nullstr_literal, as_unknown, as_literal, as_type, as_operation,
  as_attribute, as_constant, as_global, as_local, as_function, zeroed,
}
use volatile.Ast.{AstKind, kind_valid}

-- An operation that is initialised: its kind, `evaluates_to`, where none is NULL, and `result_type`.
pub record Initial : Type 0 where
  pub kind : AstKind
  pub evaluates_to : Option LangToken
  pub result_type : LangType

-- What the conversion uses of the rest of the program.
pub record Program (State : Type 0) : Type 0 where
  -- `varena_alloc` on `vltl_global_allocator`; `none` is NULL.
  pub varena_alloc : State → Option State
  -- `snprintf` of "__my_interned_string_%zu" to 99 bytes.
  pub snprintf : ℕ → Result Bytes
  -- `nkht_set` of a new global in `vltl_global_table_globals`, and the address of the global.
  pub nkht_set : Bytes → LangLiteral → State → Result (ℕ × State)
  -- `vltl_ast_tree_insert` of an operation in the tree that is built.
  pub tree_insert : Initial → State → Result State

-- The switch over the kinds of operations of the language.
unfoldable pub operation_kind : LangOperation → Option AstKind
operation_kind LangOperation.global = some AstKind.global
operation_kind LangOperation.constant = some AstKind.constant
operation_kind LangOperation.external = some AstKind.external
operation_kind LangOperation.local = some AstKind.local
operation_kind LangOperation.function = some AstKind.function
operation_kind LangOperation.if_open = some AstKind.if_kind
operation_kind LangOperation.elif_open = some AstKind.elif_kind
operation_kind LangOperation.else_open = some AstKind.else_kind
operation_kind LangOperation.while_open = some AstKind.while_kind
operation_kind LangOperation.body_open = some AstKind.body_open
operation_kind LangOperation.body_close = some AstKind.body_close
operation_kind LangOperation.grouping_open = some AstKind.grouping_open
operation_kind LangOperation.grouping_close = some AstKind.grouping_close
operation_kind LangOperation.index_open = some AstKind.index_open
operation_kind LangOperation.index_close = some AstKind.index_close
operation_kind LangOperation.address = some AstKind.address
operation_kind LangOperation.indirection = some AstKind.indirection
operation_kind LangOperation.add = some AstKind.add
operation_kind LangOperation.sub = some AstKind.sub
operation_kind LangOperation.mul = some AstKind.mul
operation_kind LangOperation.div = some AstKind.div
operation_kind LangOperation.test_equals = some AstKind.test_equals
operation_kind LangOperation.typeas = some AstKind.typeas
operation_kind LangOperation.comma = some AstKind.comma
operation_kind LangOperation.equals = some AstKind.equals
operation_kind LangOperation.return_value = some AstKind.return
operation_kind LangOperation.comment = none

-- `vltl_ast_operation_init`, of a `result_type` that is not NULL.
unfoldable pub operation_init : AstKind → Option LangToken → LangType → Result Initial
unfolding kind_valid
operation_init kind token type =
    if kind_valid kind
    then ok (record { kind = kind; evaluates_to = token; result_type = type })
    else err einval

module _ {State : Type 0} (program : Program State) where
  -- Memory that is tested.
  unfoldable pub tested_memory : State → Result State
  tested_memory st = elim (program.varena_alloc st) [ none ↦ err enomem | some st' ↦ ok st' ]

  -- A case of the switch over the kinds of tokens that copies the token.
  unfoldable pub copied_token : AstKind → LangToken → LangType → State → Result (Initial × State)
  unfolding tested_memory operation_init
  copied_token kind token type st =
      tested_memory st >>= λ st₁. operation_init kind (some token) type >>= λ o. ok (o, st₁)

  -- The switch over the kinds of tokens.
  unfoldable pub initialised : LangToken → State → Result (Initial × State)
  unfolding copied_token operation_kind operation_init
  initialised (as_attribute a) st = copied_token AstKind.attribute (as_attribute a) LangType.long st
  initialised (as_type t) st = copied_token AstKind.eval (as_type t) t st
  initialised (as_function p) st = copied_token AstKind.call (as_function p) LangType.long st
  initialised (as_constant p) st = copied_token AstKind.eval (as_constant p) LangType.long st
  initialised (as_local p) st = copied_token AstKind.eval (as_local p) LangType.long st
  initialised (as_global p) st = copied_token AstKind.eval (as_global p) LangType.long st
  initialised (as_literal l) st = copied_token AstKind.eval (as_literal l) LangType.long st
  initialised (as_operation o) st = elim (operation_kind o) [
    | some kind ↦ operation_init kind none LangType.long >>= λ i. ok (i, st)
    | none ↦ err einval
  ]
  initialised (as_unknown name) st =
      operation_init AstKind.eval (some (as_unknown name)) LangType.long >>= λ i. ok (i, st)
  initialised zeroed st = err einval

  -- A string becomes the address of a global: the token of the global, the new `interned_string_counter`, and memory
  -- for the next operation.
  unfoldable pub interned : LangLiteral → ℕ → State → Result (LangToken × (ℕ × State))
  unfolding tested_memory operation_init
  interned literal counter st = operation_init AstKind.address none LangType.long >>= λ o.
      program.tree_insert o st >>= λ st₁. tested_memory st₁ >>= λ st₂. tested_memory st₂ >>= λ st₃.
      program.snprintf counter >>= λ name. tested_memory st₃ >>= λ st₄. tested_memory st₄ >>= λ st₅.
      program.nkht_set name literal st₅ >>= λ (global, st₆).
      ok (as_global global, ((counter + 1) % 2 ^ 64, st₆))

  unfoldable pub string_or_other : LangToken → ℕ → State → Result (LangToken × (ℕ × State))
  unfolding interned
  string_or_other (as_literal (nullstr_literal s)) counter st =
      interned (nullstr_literal s) counter st
  string_or_other token counter st = ok (token, (counter, st))

  -- The body of the loop.
  unfoldable pub convert_one : LangToken → ℕ → State → Result (LangToken × (ℕ × State))
  unfolding tested_memory string_or_other initialised
  convert_one token counter st = tested_memory st >>= λ st₁.
      string_or_other token counter st₁ >>= λ (token', (counter', st₂)).
      initialised token' st₂ >>= λ (o, st₃).
      program.tree_insert o st₃ >>= λ st₄. ok (token', (counter', st₄))

  -- `vltl_ast_tree_convert` on a valid line, from an empty tree: the tokens that it leaves in the line.
  unfoldable pub convert_line : List LangToken → ℕ → State → Result (List LangToken × (ℕ × State))
  unfolding convert_one
  convert_line [] counter st = ok ([], (counter, st))
  convert_line (token ∷ tokens) counter st =
      convert_one token counter st >>= λ (token', (counter', st')).
      convert_line tokens counter' st' >>= λ (tokens', (counter'', st'')).
      ok (token' ∷ tokens', (counter'', st''))
