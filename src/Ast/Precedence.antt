-- ===== src/Ast/Precedence.antt =====
-- The precedence of operations.
use volatile.Base.{ℕ, ◌≤◌, ◌≡◌, refl, true, ok, arith, some, ◌==◌, ◌||◌, Bool-cases, inl, inr}
use volatile.Ast.{
  AstKind, unset, invalid, eof, AstOperation, kind_valid, operation_valid, kind_precedence,
  precedence, precedence_order, precedence_valid, PrecedenceOrder, left_to_right, right_to_left,
}

-- A precedence and the order in which its operations associate.
record Ranked (o : AstOperation) : Type 0 where
  rank : ℕ
  determined : precedence o ≡ ok rank
  bounded : rank ≤ 19
  order : PrecedenceOrder
  ordered : precedence_order rank ≡ ok order

kind_valid-precedence :
    (k : AstKind) → kind_valid k ≡ true → (n : ℕ) × (kind_precedence k ≡ some n) × (n ≤ 19)
unfolding kind_precedence kind_valid
kind_valid-precedence unset v = cc
kind_valid-precedence invalid v = cc
kind_valid-precedence eof v = cc
kind_valid-precedence _ v = (_, refl, omega arith)

order_of : (n : ℕ) → n ≤ 20 → (o : PrecedenceOrder) × (precedence_order n ≡ ok o)
unfolding precedence_order precedence_valid
order_of n h = elim (Bool-cases (n == 2 || n == 13 || n == 14 || n == 19 || n == 20)) [
  | inl e ↦ (right_to_left, ground arith)
  | inr e ↦ (left_to_right, ground arith)
]

-- Every valid operation has a precedence of at most 19, which has an order of association.
operation_valid-Ranked : (o : AstOperation) → operation_valid o ≡ true → Ranked o
unfolding operation_valid precedence
operation_valid-Ranked o v =
    let (n, e, l) = kind_valid-precedence o.kind (ground arith) in
    let (d, f) = order_of n (omega arith) in
    record { rank = n; determined = ground arith; bounded = l; order = d; ordered = f }
