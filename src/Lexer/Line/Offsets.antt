-- ===== src/Lexer/Line/Offsets.antt =====
-- The positions that the tokens of a line carry.
use volatile.Base.{ℕ, suc, ◌+◌, ◌^◌, ◌<◌, ◌≡◌, ◌≢◌, ◌↔◌, arith}
use volatile.Lexer.Line.{stored_offset}

-- The position of the first token of a line that is shorter than 2^63 bytes is stored rightly exactly
-- when no space comes before the token.
pub stored_offset-first :
    (start : ℕ) → start < 2 ^ 63 → (stored_offset 0 0 start ≡ 0 + start) ↔ (start ≡ 0)
unfolding stored_offset
stored_offset-first start h = (λ e. omega arith, λ e. omega arith)

-- The position that is stored for a later token is never that of the token, on a line of any length
-- that a `size_t` can count.
pub stored_offset-later :
    (i offset start : ℕ)
    → offset + start < 2 ^ 64
    → stored_offset (suc i) offset start ≢ offset + start
unfolding stored_offset
stored_offset-later i offset start h e = omega arith
