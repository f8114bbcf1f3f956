-- ===== src/Compile/Tested.antt =====
-- src/compile.c: what closes a body that has a condition.
use volatile.Base.{
  ℕ, ◌+◌, ◌*◌, ◌<◌, ◌≤◌, ◌≡◌, ◌≢◌, refl, Option, none, some, List, [], ◌∷◌, ◌++◌, All, ok, arith,
}
use volatile.Sast.{SastKind, SastOperation, kind, if_kind, elif_kind, while_kind}
use volatile.Compile.{
  Piece, text, label, jump_forward, jump_back, test_zero, BodyKind, if_body, elif_body, while_body,
  open_offset,
}
use volatile.Compile.Emit.{opened_kind, numbered, close_chain, close_body}
use volatile.Compile.Balance.{Above, numbered_small}
use volatile.Compile.Plain.{IsPlain}

-- The operations that test a condition before a body.
pub data Test : Type 0 where
  if_test elif_test while_test : Test

abbrev pub test_kind : Test → SastKind
test_kind if_test = if_kind
test_kind elif_test = elif_kind
test_kind while_test = while_kind

abbrev pub tested : Test → BodyKind
tested if_test = if_body
tested elif_test = elif_body
tested while_test = while_body

-- The `VLTL_LANG_BODY_LABEL_..._CLOSE` of the body.
abbrev pub shut_offset : Test → ℕ
shut_offset if_test = 12
shut_offset elif_test = 13
shut_offset while_test = 15

-- A piece that does not define the label `n`.
abbrev pub Misses : ℕ → Piece → Type 0
Misses n (label m) = m ≢ n
Misses n _ = Unit

pub Above-Misses : (m n : ℕ) (p : Piece) → n ≤ m → Above m p → Misses n p
Above-Misses m n (label k) h a = λ e. omega (arith, e, a, h)
Above-Misses m n (text s) h a = tt
Above-Misses m n (jump_forward k) h a = tt
Above-Misses m n (jump_back k) h a = tt
Above-Misses m n (test_zero s k) h a = tt

-- What closes the body of a test at the level `n`: the last piece is the label that the test jumps to.
pub record Shuts (t : Test) (n : ℕ) (lines : List Piece) : Type 0 where
  pub front : List Piece
  pub shape : lines ≡ front ++ (label (n * 1000 + shut_offset t) ∷ [])
  pub misses : All (Misses (n * 1000 + shut_offset t)) front
  pub misses_open : All (Misses (n * 1000 + open_offset (tested t))) front
  pub back :
      t ≡ while_test → (start : List Piece) × (front ≡ start ++ (jump_back (n * 1000 + 5) ∷ []))

pub close_body-Shuts :
    (t : Test) (n : ℕ) (p : Option SastKind) (lines : List Piece)
    → n < 256
    → close_body n (tested t) ≡ ok lines
    → Shuts t n (close_chain n p (tested t) ++ lines)
unfolding close_body close_chain open_offset
close_body-Shuts if_test n none lines l h = record {
  front = label (numbered n 21) ∷ [];
  shape = ground (arith, numbered_small n 12);
  misses = ground (arith, numbered_small n 21);
  misses_open = ground (arith, numbered_small n 21);
  back = λ e. cc;
}
close_body-Shuts if_test n (some k) lines l h = record {
  front = jump_forward (numbered n 21) ∷ [];
  shape = ground (arith, numbered_small n 12);
  misses = ground (arith, numbered_small n 21);
  misses_open = ground (arith, numbered_small n 21);
  back = λ e. cc;
}
close_body-Shuts elif_test n none lines l h = record {
  front = label (numbered n 21) ∷ [];
  shape = ground (arith, numbered_small n 13);
  misses = ground (arith, numbered_small n 21);
  misses_open = ground (arith, numbered_small n 21);
  back = λ e. cc;
}
close_body-Shuts elif_test n (some k) lines l h = record {
  front = jump_forward (numbered n 21) ∷ [];
  shape = ground (arith, numbered_small n 13);
  misses = ground (arith, numbered_small n 21);
  misses_open = ground (arith, numbered_small n 21);
  back = λ e. cc;
}
close_body-Shuts while_test n none lines l h = record {
  front = label (numbered n 21) ∷ jump_back (numbered n 5) ∷ [];
  shape = ground (arith, numbered_small n 15);
  misses = ground (arith, numbered_small n 21);
  misses_open = ground (arith, numbered_small n 21);
  back = λ e. (label (numbered n 21) ∷ [], ground (arith, numbered_small n 5));
}
close_body-Shuts while_test n (some k) lines l h = record {
  front = jump_forward (numbered n 21) ∷ jump_back (numbered n 5) ∷ [];
  shape = ground (arith, numbered_small n 15);
  misses = ground (arith, numbered_small n 21);
  misses_open = ground (arith, numbered_small n 21);
  back = λ e. (jump_forward (numbered n 21) ∷ [], ground (arith, numbered_small n 5));
}

pub opened_kind-tested : (t : Test) → opened_kind (some (test_kind t)) ≡ ok (tested t)
unfolding opened_kind
opened_kind-tested if_test = refl
opened_kind-tested elif_test = refl
opened_kind-tested while_test = refl

pub test-IsPlain : (t : Test) (o : SastOperation) → kind o ≡ test_kind t → IsPlain o
test-IsPlain if_test o h = (λ e. cc, λ e. cc)
test-IsPlain elif_test o h = (λ e. cc, λ e. cc)
test-IsPlain while_test o h = (λ e. cc, λ e. cc)

pub shut_offset_small : (t : Test) → shut_offset t < 1000
shut_offset_small t = ground arith

pub open_offset_small : (t : Test) → open_offset (tested t) < 1000
unfolding open_offset
open_offset_small t = ground arith
