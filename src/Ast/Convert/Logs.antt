-- ===== src/Ast/Convert/Logs.antt =====
-- src/ast.c: the operations and globals of the tokens of a line.
use volatile.Base.{
  Bool, true, false, refl, ℕ, ◌+◌, ◌%◌, ◌^◌, ◌≡◌, sym, ap, ◌∙◌, Option, none, some, List, [], ◌∷◌,
  ◌++◌, Bytes, Result, ok, err, Code, append-nil, append_assoc,
}
use volatile.Lang.{LangOperation, LangType, TypeAttribute}
use volatile.Lexer.Tokenize.{
  LangLiteral, LangToken, nullstr_literal, as_unknown, as_literal, as_type, as_operation,
  as_attribute, as_constant, as_global, as_local, as_function,
}
use volatile.Ast.{AstKind, kind_valid}
use volatile.Ast.Convert.{Initial, Program, operation_kind}

abbrev pub operation_of : AstKind → Option LangToken → Initial
operation_of k t = record { kind = k; evaluates_to = t; result_type = LangType.long }

-- The kind of an operation of the language in the syntax tree; a comment has none.
pub data IsKind : LangOperation → AstKind → Type 0 where
  is_global : IsKind LangOperation.global AstKind.global
  is_constant : IsKind LangOperation.constant AstKind.constant
  is_external : IsKind LangOperation.external AstKind.external
  is_local : IsKind LangOperation.local AstKind.local
  is_function : IsKind LangOperation.function AstKind.function
  is_if_open : IsKind LangOperation.if_open AstKind.if_kind
  is_elif_open : IsKind LangOperation.elif_open AstKind.elif_kind
  is_else_open : IsKind LangOperation.else_open AstKind.else_kind
  is_while_open : IsKind LangOperation.while_open AstKind.while_kind
  is_body_open : IsKind LangOperation.body_open AstKind.body_open
  is_body_close : IsKind LangOperation.body_close AstKind.body_close
  is_grouping_open : IsKind LangOperation.grouping_open AstKind.grouping_open
  is_grouping_close : IsKind LangOperation.grouping_close AstKind.grouping_close
  is_index_open : IsKind LangOperation.index_open AstKind.index_open
  is_index_close : IsKind LangOperation.index_close AstKind.index_close
  is_address : IsKind LangOperation.address AstKind.address
  is_indirection : IsKind LangOperation.indirection AstKind.indirection
  is_add : IsKind LangOperation.add AstKind.add
  is_sub : IsKind LangOperation.sub AstKind.sub
  is_mul : IsKind LangOperation.mul AstKind.mul
  is_div : IsKind LangOperation.div AstKind.div
  is_test_equals : IsKind LangOperation.test_equals AstKind.test_equals
  is_typeas : IsKind LangOperation.typeas AstKind.typeas
  is_comma : IsKind LangOperation.comma AstKind.comma
  is_equals : IsKind LangOperation.equals AstKind.equals
  is_return_value : IsKind LangOperation.return_value AstKind.return

-- Of an operation that has a kind.
abbrev pub Kinds : LangOperation → Option AstKind → Type 0
Kinds o (some k) = IsKind o k
Kinds o none = Unit

pub operation_kind-IsKind : (o : LangOperation) → Kinds o (operation_kind o)
unfolding operation_kind
operation_kind-IsKind LangOperation.comment = tt
operation_kind-IsKind LangOperation.global = is_global
operation_kind-IsKind LangOperation.constant = is_constant
operation_kind-IsKind LangOperation.external = is_external
operation_kind-IsKind LangOperation.local = is_local
operation_kind-IsKind LangOperation.function = is_function
operation_kind-IsKind LangOperation.if_open = is_if_open
operation_kind-IsKind LangOperation.elif_open = is_elif_open
operation_kind-IsKind LangOperation.else_open = is_else_open
operation_kind-IsKind LangOperation.while_open = is_while_open
operation_kind-IsKind LangOperation.body_open = is_body_open
operation_kind-IsKind LangOperation.body_close = is_body_close
operation_kind-IsKind LangOperation.grouping_open = is_grouping_open
operation_kind-IsKind LangOperation.grouping_close = is_grouping_close
operation_kind-IsKind LangOperation.index_open = is_index_open
operation_kind-IsKind LangOperation.index_close = is_index_close
operation_kind-IsKind LangOperation.address = is_address
operation_kind-IsKind LangOperation.indirection = is_indirection
operation_kind-IsKind LangOperation.add = is_add
operation_kind-IsKind LangOperation.sub = is_sub
operation_kind-IsKind LangOperation.mul = is_mul
operation_kind-IsKind LangOperation.div = is_div
operation_kind-IsKind LangOperation.test_equals = is_test_equals
operation_kind-IsKind LangOperation.typeas = is_typeas
operation_kind-IsKind LangOperation.comma = is_comma
operation_kind-IsKind LangOperation.equals = is_equals
operation_kind-IsKind LangOperation.return_value = is_return_value

pub operation_kind_valid :
    (o : LangOperation) → elim (operation_kind o) [ some k ↦ kind_valid k | none ↦ true ] ≡ true
unfolding operation_kind kind_valid
operation_kind_valid LangOperation.comment = refl
operation_kind_valid _ = refl

-- A token that is a string.
unfoldable pub is_string : LangToken → Bool
is_string (as_literal (nullstr_literal s)) = true
is_string _ = false

-- The operation of a token.
pub data Describes : LangToken → Initial → Type 0 where
  of_attribute :
      {a : TypeAttribute}
      → Describes (as_attribute a) (operation_of AstKind.attribute (some (as_attribute a)))
  of_type :
      {t : LangType}
      → Describes
          (as_type t)
          (record { kind = AstKind.eval; evaluates_to = some (as_type t); result_type = t })
  of_function :
      {p : ℕ} → Describes (as_function p) (operation_of AstKind.call (some (as_function p)))
  of_constant :
      {p : ℕ} → Describes (as_constant p) (operation_of AstKind.eval (some (as_constant p)))
  of_local : {p : ℕ} → Describes (as_local p) (operation_of AstKind.eval (some (as_local p)))
  of_global : {p : ℕ} → Describes (as_global p) (operation_of AstKind.eval (some (as_global p)))
  of_literal :
      {l : LangLiteral} → Describes (as_literal l) (operation_of AstKind.eval (some (as_literal l)))
  of_unknown :
      {name : Bytes}
      → Describes (as_unknown name) (operation_of AstKind.eval (some (as_unknown name)))
  of_operation :
      {o : LangOperation} {k : AstKind}
      → IsKind o k
      → Describes (as_operation o) (operation_of k none)

-- A result, or a code; the code always returns.
pub data Yields {A : Type 0} (P : A → Type 0) : Result A → Type 0 where
  yields : {a : A} → P a → Yields P (ok a)
  fails : {c : Code} → Yields P (err c)

-- A global in the table: its name, its literal and its address.
pub record SetGlobal : Type 0 where
  pub name : Bytes
  pub literal : LangLiteral
  pub address : ℕ

module _ {State : Type 0} (program : Program State) (inserted : State → List Initial)
    (globals : State → List SetGlobal) where
  -- From one state to another, these operations are inserted and these globals are set.
  pub record Logs (st st' : State) (is : List Initial) (ns : List SetGlobal) : Type 0 where
    pub inserts : inserted st' ≡ inserted st ++ is
    pub sets : globals st' ≡ globals st ++ ns

  -- What the rest of the program inserts and sets.
  pub record IsLogged : Type 0 where
    pub varena_alloc : (st st' : State) → program.varena_alloc st ≡ some st' → Logs st st' [] []
    pub snprintf : (n : ℕ) → Yields (λ name. program.snprintf n ≡ ok name) (program.snprintf n)
    pub nkht_set :
        (name : Bytes) (l : LangLiteral) (st : State)
        → Yields
            (λ (p, st'). Logs st st' [] (record { name = name; literal = l; address = p } ∷ []))
            (program.nkht_set name l st)
    pub tree_insert :
        (o : Initial) (st : State)
        → Yields (λ st'. Logs st st' (o ∷ []) []) (program.tree_insert o st)

  pub Logs-refl : (st : State) → Logs st st [] []
  Logs-refl st = record {
    inserts = sym (append-nil (inserted st));
    sets = sym (append-nil (globals st));
  }

  pub Logs-trans :
      {st st₁ st₂ : State} {is js : List Initial} {ns ms : List SetGlobal}
      → Logs st st₁ is ns
      → Logs st₁ st₂ js ms
      → Logs st st₂ (is ++ js) (ns ++ ms)
  Logs-trans {st} {is = is} {js} {ns} {ms} l k = record {
    inserts = k.inserts ∙ ap (λ xs. xs ++ js) l.inserts ∙ append_assoc (inserted st) is js;
    sets = k.sets ∙ ap (λ xs. xs ++ ms) l.sets ∙ append_assoc (globals st) ns ms;
  }

  -- A token, at a value of `interned_string_counter`.
  pub data Converts (counter : ℕ)
      : LangToken → LangToken → List Initial → List SetGlobal → ℕ → Type 0 where
    string :
        {s name : Bytes} {p : ℕ}
        → program.snprintf counter ≡ ok name
        → Converts counter
            (as_literal (nullstr_literal s))
            (as_global p)
            (operation_of AstKind.address none
              ∷ operation_of AstKind.eval (some (as_global p))
              ∷ [])
            (record { name = name; literal = nullstr_literal s; address = p } ∷ [])
            ((counter + 1) % 2 ^ 64)
    other :
        {t : LangToken} {o : Initial}
        → is_string t ≡ false
        → Describes t o
        → Converts counter t t (o ∷ []) [] counter

  -- The tokens of a line.
  pub data ConvertsAll
      : ℕ → List LangToken → List LangToken → List Initial → List SetGlobal → ℕ → Type 0 where
    done : {counter : ℕ} → ConvertsAll counter [] [] [] [] counter
    next :
        {t t' : LangToken} {ts ts' : List LangToken} {is js : List Initial} {ns ms : List SetGlobal}
        {counter counter' counter'' : ℕ}
        → Converts counter t t' is ns counter'
        → ConvertsAll counter' ts ts' js ms counter''
        → ConvertsAll counter (t ∷ ts) (t' ∷ ts') (is ++ js) (ns ++ ms) counter''
