-- ===== src/Tests/Syntax.antt =====
-- The operations of a line with a string.
use volatile.Base.{ap, ◌≡◌, refl, none, some, List, [], ◌∷◌, ◌++◌, codes, ok, append-nil, sym, ◌+◌}
use volatile.Lang
use volatile.Lexer.Tokenize.{
  LangToken, as_local, as_operation, as_literal, as_global, nullstr_literal,
}
use volatile.Ast.{AstKind}
use volatile.Ast.Convert.{Initial, Program, convert_line}
use volatile.Ast.Convert.Logs.{SetGlobal, IsLogged, Logs, Yields, yields, ConvertsAll, operation_of}
use volatile.Ast.Convert.Inserts.{convert_line-ConvertsAll}
use mathlib.Core.Path.{subst}

-- What was inserted, and the globals that were set.
abbrev Log : Type 0
Log = List Initial × List SetGlobal

abbrev program : Program Log
program = record {
  varena_alloc = λ log. some log;
  snprintf = λ n. ok (codes "__my_interned_string_" ++ ((48 + n) ∷ []));
  nkht_set = λ name l log.
      ok (7, (log.0, log.1 ++ (record { name = name; literal = l; address = 7 } ∷ [])));
  tree_insert = λ o log. ok (log.0 ++ (o ∷ []), log.1);
}

program-IsLogged : IsLogged program (λ log. log.0) (λ log. log.1)
program-IsLogged = record {
  varena_alloc = λ st st' e.
      subst (λ s. Logs program (λ log. log.0) (λ log. log.1) st s [] [])
        (ap (λ o. elim o [ some s ↦ s | none ↦ st ]) e)
        (record { inserts = sym (append-nil st.0); sets = sym (append-nil st.1) });
  snprintf = λ n. yields refl;
  nkht_set = λ name l st. yields (record { inserts = sym (append-nil st.0); sets = refl });
  tree_insert = λ o st. yields (record { inserts = refl; sets = sym (append-nil st.1) });
}

abbrev line : List LangToken
line =
    as_local 5 ∷ as_operation volatile.Lang.equals ∷ as_literal (nullstr_literal (codes "hi")) ∷ []

line_runs :
    convert_line program line 0 ([], [])
    ≡ ok (
      as_local 5 ∷ as_operation volatile.Lang.equals ∷ as_global 7 ∷ [],
      (
        1,
        (
          operation_of AstKind.eval (some (as_local 5))
              ∷ operation_of AstKind.equals none
              ∷ operation_of AstKind.address none
              ∷ operation_of AstKind.eval (some (as_global 7))
              ∷ [],
          record {
            name = codes "__my_interned_string_0";
            literal = nullstr_literal (codes "hi");
            address = 7;
          }
              ∷ [],
        ),
      ),
    )
unfolding convert_line
line_runs = refl

convert_line-ConvertsAll_example :
    Yields
      (λ (ts', (counter', st')).
        (is : List Initial) × (ns : List SetGlobal) × ConvertsAll program
          (λ log. log.0)
          (λ log. log.1)
          0
          line
          ts'
          is
          ns
          counter'
        × Logs program (λ log. log.0) (λ log. log.1) ([], []) st' is ns)
      (convert_line program line 0 ([], []))
convert_line-ConvertsAll_example =
    convert_line-ConvertsAll program (λ log. log.0) (λ log. log.1) program-IsLogged line 0 ([], [])
