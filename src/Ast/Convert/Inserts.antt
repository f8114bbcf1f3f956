-- ===== src/Ast/Convert/Inserts.antt =====
-- src/ast.c: what is inserted for the tokens of a line.
use mathlib.Core.Path.{subst}
use volatile.Base.{
  ℕ, ◌+◌, ◌%◌, ◌^◌, ◌≡◌, refl, sym, true, none, some, List, [], ◌∷◌, ◌++◌, Bytes, Result, ◌>>=◌,
  append-nil, Option-cases, inl, inr,
}
use volatile.Lang.{LangType}
use volatile.Lexer.Tokenize.{
  LangToken, nullstr_literal, as_unknown, as_literal, as_type, as_operation, as_attribute,
  as_constant, as_global, as_local, as_function, zeroed,
}
use volatile.Ast.{AstKind, kind_valid}
use volatile.Ast.Convert.{
  Initial, Program, operation_kind, operation_init, tested_memory, copied_token, initialised,
  interned, string_or_other, convert_one, convert_line,
}
use volatile.Ast.Convert.Logs.{
  Kinds, operation_kind-IsKind, operation_kind_valid, IsKind, SetGlobal, operation_of, Describes,
  is_string, of_attribute, of_type, of_function, of_constant, of_local, of_global, of_literal,
  of_unknown, of_operation, Yields, yields, fails, Logs, IsLogged, Logs-refl, Logs-trans, Converts,
  ConvertsAll, string, other, done, next,
}

described_global :
    {p : ℕ} {o : Initial}
    → Describes (as_global p) o
    → o ≡ operation_of AstKind.eval (some (as_global p))
described_global of_global = refl

and_then :
    {A B : Type 0} {P : A → Type 0} {Q : B → Type 0} {r : Result A} {next : A → Result B}
    → Yields P r
    → ((a : A) → P a → Yields Q (next a))
    → Yields Q (r >>= next)
and_then (yields {a} p) q = q a p
and_then fails q = fails

module _ {State : Type 0} (program : Program State) (inserted : State → List Initial)
    (globals : State → List SetGlobal) (logged : IsLogged program inserted globals) where
  tested_memory-Logs :
      (st : State)
      → Yields (λ st'. Logs program inserted globals st st' [] []) (tested_memory program st)
  unfolding tested_memory
  tested_memory-Logs st = elim (Option-cases (program.varena_alloc st)) [
    | inl e ↦ rw (e, tested_memory) fails
    | inr (st', e) ↦ rw (e, tested_memory) (yields (logged.varena_alloc st st' e))
  ]

  -- An operation that is initialised, before it is inserted.
  abbrev Waits : State → Initial → Initial × State → Type 0
  Waits st i (o, st') = (o ≡ i) × Logs program inserted globals st st' [] []

  copied_token-Waits :
      (k : AstKind) (t : LangToken) (type : LangType) (st : State)
      → kind_valid k ≡ true
      → Yields
          (Waits st (record { kind = k; evaluates_to = some t; result_type = type }))
          (copied_token program k t type st)
  unfolding copied_token operation_init
  copied_token-Waits k t type st v =
      and_then (tested_memory-Logs st) λ st₁ l. rw v (yields (refl, l))

  described :
      (st : State) {t : LangToken} {i : Initial} {r : Result (Initial × State)}
      → Describes t i
      → Yields (Waits st i) r
      → Yields (λ (o, st'). Describes t o × Logs program inserted globals st st' [] []) r
  described st {t} d (yields (e, l)) = yields (subst (Describes t) (sym e) d, l)
  described st d fails = fails

  initialised-Describes :
      (t : LangToken) (st : State)
      → Yields
          (λ (o, st'). Describes t o × Logs program inserted globals st st' [] [])
          (initialised program t st)
  unfolding initialised operation_init kind_valid
  initialised-Describes (as_attribute a) st =
      described st of_attribute (copied_token-Waits _ _ _ st refl)
  initialised-Describes (as_type t) st = described st of_type (copied_token-Waits _ _ _ st refl)
  initialised-Describes (as_function p) st =
      described st of_function (copied_token-Waits _ _ _ st refl)
  initialised-Describes (as_constant p) st =
      described st of_constant (copied_token-Waits _ _ _ st refl)
  initialised-Describes (as_local p) st = described st of_local (copied_token-Waits _ _ _ st refl)
  initialised-Describes (as_global p) st = described st of_global (copied_token-Waits _ _ _ st refl)
  initialised-Describes (as_literal l) st =
      described st of_literal (copied_token-Waits _ _ _ st refl)
  initialised-Describes (as_unknown name) st =
      yields (of_unknown, Logs-refl program inserted globals st)
  initialised-Describes zeroed st = fails
  initialised-Describes (as_operation o) st = elim (Option-cases (operation_kind o)) [
    | inl e ↦ rw (e, initialised) fails
    | inr (k, e) ↦
        let v : kind_valid k ≡ true =
          subst (λ x. elim x [ some k ↦ kind_valid k | none ↦ true ] ≡ true) e
            (operation_kind_valid o) in
        let g : IsKind o k = subst (Kinds o) e (operation_kind-IsKind o) in
        rw (e, initialised, v) (yields (of_operation g, Logs-refl program inserted globals st))
  ]

  -- What a token has converted to so far.
  abbrev Strings : ℕ → LangToken → State → LangToken × (ℕ × State) → Type 0
  Strings counter t st (t', (counter', st')) =
      (is : List Initial) × (ns : List SetGlobal) × Logs program inserted globals st st' is ns
      × ((o : Initial)
          → Describes t' o
          → Converts program inserted globals counter t t' (is ++ (o ∷ [])) ns counter')

  interned-Strings :
      (s : Bytes) (counter : ℕ) (st : State)
      → Yields
          (Strings counter (as_literal (nullstr_literal s)) st)
          (interned program (nullstr_literal s) counter st)
  unfolding interned operation_init kind_valid
  interned-Strings s counter st =
      and_then (logged.tree_insert (operation_of AstKind.address none) st) λ st₁ l₁.
        and_then (tested_memory-Logs st₁) λ st₂ l₂. and_then (tested_memory-Logs st₂) λ st₃ l₃.
          and_then (logged.snprintf counter) λ name q. and_then (tested_memory-Logs st₃) λ st₄ l₄.
            and_then (tested_memory-Logs st₄) λ st₅ l₅.
              and_then (logged.nkht_set name (nullstr_literal s) st₅) λ (p, st₆) l₆. yields (
                operation_of AstKind.address none ∷ [],
                record { name = name; literal = nullstr_literal s; address = p } ∷ [],
                Logs-trans program inserted globals l₁ (
                    Logs-trans program inserted globals l₂ (
                      Logs-trans program inserted globals l₃ (
                        Logs-trans program inserted globals l₄
                          (Logs-trans program inserted globals l₅ l₆)))),
                λ o d.
                    subst
                      (λ i.
                        Converts program inserted globals counter (as_literal (nullstr_literal s))
                          (as_global p) (operation_of AstKind.address none ∷ i ∷ [])
                          (record { name = name; literal = nullstr_literal s; address = p } ∷ [])
                          ((counter + 1) % 2 ^ 64))
                      (sym (described_global d)) (string q),
              )

  string_or_other-Strings :
      (t : LangToken) (counter : ℕ) (st : State)
      → Yields (Strings counter t st) (string_or_other program t counter st)
  unfolding string_or_other is_string
  string_or_other-Strings (as_literal (nullstr_literal s)) counter st =
      interned-Strings s counter st
  string_or_other-Strings t counter st =
      yields ([], [], Logs-refl program inserted globals st, λ o d. other refl d)

  convert_one-Converts :
      (t : LangToken) (counter : ℕ) (st : State)
      → Yields
          (λ (t', (counter', st')).
            (is : List Initial) × (ns : List SetGlobal) × Converts program inserted globals counter
              t t' is ns counter'
            × Logs program inserted globals st st' is ns)
          (convert_one program t counter st)
  unfolding convert_one
  convert_one-Converts t counter st = and_then (tested_memory-Logs st) λ st₁ l₁.
      and_then (string_or_other-Strings t counter st₁) λ (t', (counter', st₂)) (is, ns, l₂, c).
        and_then (initialised-Describes t' st₂) λ (o, st₃) (d, l₃).
          and_then (logged.tree_insert o st₃) λ st₄ l₄. yields (
            is ++ (o ∷ []),
            ns,
            c o d,
            subst (Logs program inserted globals st st₄ (is ++ (o ∷ []))) (append-nil ns) (
                Logs-trans program inserted globals l₁ (
                  Logs-trans program inserted globals l₂
                    (Logs-trans program inserted globals l₃ l₄))),
          )

  -- Where operations, globals and names are inserted, set and printed, or a code is returned: the conversion of a
  -- line returns. When it succeeds, one operation is inserted for each token, in their order, and before that of a
  -- string its address; each string is set as the literal of a new global, whose name has the next number, and the
  -- token and the operation of the string become that global.
  pub convert_line-ConvertsAll :
      (ts : List LangToken) (counter : ℕ) (st : State)
      → Yields
          (λ (ts', (counter', st')).
            (is : List Initial) × (ns : List SetGlobal) × ConvertsAll program inserted globals
              counter ts ts' is ns counter'
            × Logs program inserted globals st st' is ns)
          (convert_line program ts counter st)
  unfolding convert_line
  convert_line-ConvertsAll [] counter st =
      yields ([], [], done, Logs-refl program inserted globals st)
  convert_line-ConvertsAll (t ∷ ts) counter st =
      and_then (convert_one-Converts t counter st) λ (t', (counter', st')) (is, ns, c, l).
        and_then (convert_line-ConvertsAll ts counter' st')
          λ (ts', (counter'', st'')) (js, ms, cs, ls).
            yields (is ++ js, ns ++ ms, next c cs, Logs-trans program inserted globals l ls)
