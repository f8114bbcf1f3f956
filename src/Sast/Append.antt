-- ===== src/Sast/Append.antt =====
-- src/sast.c: the operations that are written before and after an operation.
use volatile.Base.{
  ℕ, zero, suc, ◌<◌, ◌≤◌, ◌≡◌, refl, ap, true, Option, List, [], ◌∷◌, ◌++◌, ok, arith,
}
use volatile.Asm.{Operand}
use volatile.Sast.{
  SastKind, kind, evaluates_to, destination, SastOperation, Operations, nil, cons, node,
  operation_valid, arguments, before, after, count, append_within, before_append, after_append,
}

abbrev pub listed : Operations → List SastOperation
listed nil = []
listed (cons x xs) = x ∷ listed xs

-- The array that `x` is appended to: `x` is its last entry after, if there was room among the `n`, and the
-- array is as before if there was none.
pub record Appends (n : ℕ) (xs : Operations) (x : SastOperation) (ys : Operations) : Type 0 where
  pub room : count xs < n → listed ys ≡ listed xs ++ (x ∷ [])
  pub full : n ≤ count xs → ys ≡ xs
  pub bound : count ys ≤ n

append_within-Appends :
    (n : ℕ) (xs : Operations) (x : SastOperation)
    → count xs ≤ n
    → Appends n xs x (append_within n xs x)
unfolding append_within count
append_within-Appends zero xs x h = record {
  room = λ l. absurd (omega arith);
  full = λ l. refl;
  bound = h;
}
append_within-Appends (suc n) nil x h = record {
  room = λ l. refl;
  full = λ l. absurd (omega arith);
  bound = omega arith;
}
append_within-Appends (suc n) (cons y ys) x h =
    let r = append_within-Appends n ys x (omega (arith, h)) in
    record {
      room = λ l. ap (λ v. y ∷ v) (r.room (omega (arith, l)));
      full = λ l. ap (cons y) (r.full (omega (arith, l)));
      bound = omega (arith, r.bound);
    }

abbrev pub parent_kind : SastOperation → Option SastKind
parent_kind (node k p xs bs cs e d) = p

-- Two operations that differ at most in what is before and after them.
pub record SameCore (o r : SastOperation) : Type 0 where
  pub kind : kind r ≡ kind o
  pub parent : parent_kind r ≡ parent_kind o
  pub arguments : arguments r ≡ arguments o
  pub evaluates_to : evaluates_to r ≡ evaluates_to o
  pub destination : destination r ≡ destination o

SameCore-node :
    (k : SastKind) (p : Option SastKind) (xs bs cs bs' cs' : Operations) (e d : Operand)
    → SameCore (node k p xs bs cs e d) (node k p xs bs' cs' e d)
unfolding kind arguments evaluates_to destination
SameCore-node k p xs bs cs bs' cs' e d = record {
  kind = refl;
  parent = refl;
  arguments = refl;
  evaluates_to = refl;
  destination = refl;
}

-- Of valid operations whose nine places are not exceeded, both functions succeed: the one changes only what is
-- before, and the other only what is after. With nine there already nothing is appended.
pub append-Appends :
    (o x : SastOperation)
    → operation_valid o ≡ true
    → operation_valid x ≡ true
    → count (before o) ≤ 9
    → count (after o) ≤ 9
    → ((b : SastOperation) × (before_append o x ≡ ok b)
        × Appends 9 (before o) x (before b)
        × SameCore o b
        × (after b ≡ after o))
      × ((a : SastOperation) × (after_append o x ≡ ok a)
          × Appends 9 (after o) x (after a)
          × SameCore o a
          × (before a ≡ before o))
unfolding before_append after_append before after
append-Appends (node k p xs bs cs e d) x v w h l = (
  (
    node k p xs (append_within 9 bs x) cs e d,
    rw (v, w) refl,
    append_within-Appends 9 bs x h,
    SameCore-node k p xs bs cs _ cs e d,
    refl,
  ),
  (
    node k p xs bs (append_within 9 cs x) e d,
    rw (v, w) refl,
    append_within-Appends 9 cs x l,
    SameCore-node k p xs bs cs bs _ e d,
    refl,
  ),
)
