-- ===== src/Lexer/Line/Pieces/Convert.antt =====
-- `vltl_lexer_line_convert` finds exactly the pieces of a line.
use volatile.Base.{
  ℕ, zero, suc, ◌+◌, ◌<◌, ◌≤◌, ◌≡◌, ◌↔◌, ap, ◌∙◌, List, [], ◌∷◌, Bytes, arith, Code, enodata, ok,
  err, Result-cases, Bool-cases, inl, inr, length, drop,
}
use volatile.Lexer.{chomp}
use volatile.Lexer.Chomp.{chomp-Chomps}
use volatile.Lexer.Tokenize.{Services}
use volatile.Lexer.Line.{
  LexerToken, is_comment, convert_token, chomp_failed, convert_loop, line_convert,
}
use volatile.Lexer.Line.Blank.{chomp-Blank}
use volatile.Lexer.Line.Pieces.{
  Copies, Pieces, blank, comment, piece, convert_token-Converts, Converts-convert_token,
}

chomp_failed-ok :
    {A : Type 0} (e : Code) (arena arena' : A) (tokens : List LexerToken)
    → chomp_failed e arena ≡ ok (arena', tokens)
    → (e ≡ enodata) × (arena ≡ arena') × (tokens ≡ [])
unfolding chomp_failed
chomp_failed-ok enodata arena arena' tokens h = ground arith
chomp_failed-ok _ arena arena' tokens h = cc

module _ {A : Type 0} (env : Services A) (copies : Copies env) where
  convert_loop-Pieces :
      (room i offset : ℕ) (arena : A) (src : Bytes) (arena' : A) (tokens : List LexerToken)
      → convert_loop env arena room i offset src ≡ ok (arena', tokens)
      → Pieces env arena i offset src arena' tokens × (length tokens < room)
  unfolding convert_loop
  convert_loop-Pieces zero i offset arena src arena' tokens e = cc
  convert_loop-Pieces (suc room) i offset arena src arena' tokens e =
      elim (Result-cases (chomp src)) [
        | inr (inr f) ↦ absurd (ground arith)
        | inr (inl (k, f)) ↦
            let (n, a, t) = chomp_failed-ok k arena arena' tokens (ground arith) in
            let b = (chomp-Blank src).0 (f ∙ ap err n) in rw (← a, t) (blank b, omega arith)
        | inl (t, f) ↦
            let c = (chomp-Chomps src t).0 f in
            elim (Result-cases (convert_token env arena i offset src t)) [
              | inr (inl (k, g)) ↦ absurd (ground arith)
              | inr (inr g) ↦ absurd (ground arith)
              | inl ((arena1, token), g) ↦
                  let v = convert_token-Converts env copies arena i offset src t arena1 token c g in
                  elim (Bool-cases (is_comment token.token)) [
                    | inl h ↦
                        let (a, n) : (arena1 ≡ arena') × (tokens ≡ []) = ground arith in
                        rw (← a, n) (comment v h, omega arith)
                    | inr h ↦
                        elim (Result-cases (
                          convert_loop env arena1 room (suc i) (offset + t.end) (drop t.end src))) [
                            | inr (inl (k, m)) ↦ absurd (ground arith)
                            | inr (inr m) ↦ absurd (ground arith)
                            | inl ((arena2, rest), m) ↦
                                let (p, l) =
                                  convert_loop-Pieces room (suc i) (offset + t.end) arena1
                                    (drop t.end src) arena2 rest m in
                                let (a, n) : (arena2 ≡ arena') × (tokens ≡ token ∷ rest) =
                                  ground arith in
                                rw (← a, n) (piece v h p, omega arith)
                          ]
                  ]
            ]
      ]

  Pieces-convert_loop :
      (room : ℕ) {arena : A} {i offset : ℕ} {src : Bytes} {arena' : A} {tokens : List LexerToken}
      → Pieces env arena i offset src arena' tokens
      → length tokens < room
      → convert_loop env arena room i offset src ≡ ok (arena', tokens)
  unfolding convert_loop chomp_failed
  Pieces-convert_loop zero p l = absurd (omega arith)
  Pieces-convert_loop (suc room) (blank {src = src} b) l =
      let e = (chomp-Blank src).1 b in ground arith
  Pieces-convert_loop (suc room) {i = i} {offset = offset} {src = src}
        (comment {arena = arena} {arena' = arena'} {t = t} {token = token} c h) l =
      let e = (chomp-Chomps src t).1 c.chomps in
      let v = Converts-convert_token env copies arena i offset src t arena' token c in ground arith
  Pieces-convert_loop (suc room) {i = i} {offset = offset} {src = src}
        (piece {arena = arena} {arena' = arena'} {t = t} {token = token} c h p) l =
      let e = (chomp-Chomps src t).1 c.chomps in
      let v = Converts-convert_token env copies arena i offset src t arena' token c in
      let r = Pieces-convert_loop room p (omega arith) in ground arith

-- Where `btrc_strncpy` copies what it is asked for, `vltl_lexer_line_convert` succeeds with a list of
-- tokens exactly when the line is cut into pieces that these tokens come from, and they are at most 98.
pub line_convert-Pieces :
    {A : Type 0} (env : Services A) (arena : A) (src : Bytes) (arena' : A)
    (tokens : List LexerToken)
    → Copies env
    → (line_convert env arena src ≡ ok (arena', tokens))
      ↔ (Pieces env arena 0 0 src arena' tokens × (length tokens ≤ 98))
unfolding line_convert
line_convert-Pieces env arena src arena' tokens copies = (
  λ e.
      let (p, l) = convert_loop-Pieces env copies 99 0 0 arena src arena' tokens e in
      (p, omega arith),
  λ (p, l). Pieces-convert_loop env copies 99 p (omega arith),
)
