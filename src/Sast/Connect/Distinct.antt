-- ===== src/Sast/Connect/Distinct.antt =====
-- src/sast.c: the arguments of an operation get registers of their own.
use volatile.Base.{
  ◌≡◌, ◌≢◌, ap, Bool, true, false, Option, none, some, List, [], ◌∷◌, ◌++◌, if◌then◌else◌, arith,
}
use volatile.Asm.{AsmRegister}
use volatile.Sast.{SastOperation, Operations, nil, cons, destination}
use volatile.Sast.Connect.Inuse.{Inuse, same_register, mark, register_of, is_register}

-- The registers that arguments go to.
unfoldable pub goal_of : SastOperation → Option AsmRegister
unfolding register_of is_register destination
goal_of x = if is_register (destination x) then some (register_of (destination x)) else none

unfoldable pub goals : Operations → List (Option AsmRegister)
unfolding goal_of
goals nil = []
goals (cons x xs) = goal_of x ∷ goals xs

-- No two of them are the same.
pub data Avoids (r : AsmRegister) : List (Option AsmRegister) → Type 0 where
  none_left : Avoids r []
  no_register : {gs : List (Option AsmRegister)} → Avoids r gs → Avoids r (none ∷ gs)
  another :
      {gs : List (Option AsmRegister)} {s : AsmRegister}
      → s ≢ r
      → Avoids r gs
      → Avoids r (some s ∷ gs)

pub data Distinct : List (Option AsmRegister) → Type 0 where
  none_left : Distinct []
  no_register : {gs : List (Option AsmRegister)} → Distinct gs → Distinct (none ∷ gs)
  own :
      {gs : List (Option AsmRegister)} {r : AsmRegister}
      → Avoids r gs
      → Distinct gs
      → Distinct (some r ∷ gs)

-- All of them are in use.
pub data Marked (inuse : Inuse) : List (Option AsmRegister) → Type 0 where
  none_left : Marked inuse []
  no_register : {gs : List (Option AsmRegister)} → Marked inuse gs → Marked inuse (none ∷ gs)
  marked :
      {gs : List (Option AsmRegister)} {r : AsmRegister}
      → inuse r ≡ true
      → Marked inuse gs
      → Marked inuse (some r ∷ gs)

Avoids-none :
    {r : AsmRegister} {gs : List (Option AsmRegister)} → Avoids r gs → Avoids r (gs ++ (none ∷ []))
Avoids-none none_left = no_register none_left
Avoids-none (no_register a) = no_register (Avoids-none a)
Avoids-none (another n a) = another n (Avoids-none a)

Avoids-some :
    {r s : AsmRegister} {gs : List (Option AsmRegister)}
    → s ≢ r
    → Avoids r gs
    → Avoids r (gs ++ (some s ∷ []))
Avoids-some n none_left = another n none_left
Avoids-some n (no_register a) = no_register (Avoids-some n a)
Avoids-some n (another m a) = another m (Avoids-some n a)

pub Distinct-none : {gs : List (Option AsmRegister)} → Distinct gs → Distinct (gs ++ (none ∷ []))
Distinct-none none_left = no_register none_left
Distinct-none (no_register d) = no_register (Distinct-none d)
Distinct-none (own a d) = own (Avoids-none a) (Distinct-none d)

test_differs : {b c : Bool} → b ≡ true → c ≡ false → c ≢ b
test_differs t f e = cc

-- A register that is not in use is another one.
pub Distinct-some :
    (inuse : Inuse) (r : AsmRegister) {gs : List (Option AsmRegister)}
    → inuse r ≡ false
    → Marked inuse gs
    → Distinct gs
    → Distinct (gs ++ (some r ∷ []))
Distinct-some inuse r f m none_left = own none_left none_left
Distinct-some inuse r f (no_register m) (no_register d) = no_register (Distinct-some inuse r f m d)
Distinct-some inuse r f (marked t m) (own a d) =
    own (Avoids-some (λ e. test_differs t f (ap inuse e)) a) (Distinct-some inuse r f m d)

pub Marked-none :
    {inuse : Inuse} {gs : List (Option AsmRegister)}
    → Marked inuse gs
    → Marked inuse (gs ++ (none ∷ []))
Marked-none none_left = no_register none_left
Marked-none (no_register m) = no_register (Marked-none m)
Marked-none (marked t m) = marked t (Marked-none m)

mark_kept : (r s : AsmRegister) (inuse : Inuse) → inuse s ≡ true → mark r true inuse s ≡ true
unfolding mark
mark_kept r s inuse t = ground arith

mark_self : (r : AsmRegister) (inuse : Inuse) → mark r true inuse r ≡ true
unfolding mark same_register
mark_self r inuse = ground arith

pub Marked-some :
    {inuse : Inuse} (r : AsmRegister) {gs : List (Option AsmRegister)}
    → Marked inuse gs
    → Marked (mark r true inuse) (gs ++ (some r ∷ []))
Marked-some {inuse} r none_left = marked (mark_self r inuse) none_left
Marked-some r (no_register m) = no_register (Marked-some r m)
Marked-some {inuse} r (marked {r = s} t m) = marked (mark_kept r s inuse t) (Marked-some r m)
