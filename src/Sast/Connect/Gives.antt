-- ===== src/Sast/Connect/Gives.antt =====
-- What a result satisfies, if there is one.
use mathlib.Core.Path.{subst}
use volatile.Base.{ap, arith, ◌≡◌, refl, Option, none, some, Result, ok, err, fault, ◌>>=◌, Code}
use volatile.Sast.Call.{allocated}
use volatile.Sast.Convert.{written}

pub data Gives {A : Type 0} (P : A → Type 0) : Result A → Type 0 where
  gives : {a : A} → P a → Gives P (ok a)
  no_result : {c : Code} → Gives P (err c)
  no_end : Gives P fault

-- From a result on.
pub after_result :
    {A B : Type 0} {P : A → Type 0} {Q : B → Type 0} {r : Result A} {next : A → Result B}
    → Gives P r
    → ((a : A) → P a → Gives Q (next a))
    → Gives Q (r >>= next)
after_result (gives {a} p) q = q a p
after_result no_result q = no_result
after_result no_end q = no_end

pub given : {A : Type 0} {P : A → Type 0} {a : A} {r : Result A} → Gives P r → r ≡ ok a → P a
given {P = P} (gives {a = b} p) e = subst P (ap (λ r. elim r [ ok x ↦ x | _ ↦ b ]) e) p
given no_result e = absurd (ground arith)
given no_end e = absurd (ground arith)

pub give : {A : Type 0} {P : A → Type 0} (r : Result A) → ((a : A) → r ≡ ok a → P a) → Gives P r
give (ok a) p = gives (p a refl)
give (err c) p = no_result
give fault p = no_end

-- From memory that is handed out on.
pub allocated-Gives :
    {A : Type 0} {P : A → Type 0} (o : Option A)
    → ((a : A) → o ≡ some a → P a)
    → Gives P (allocated o)
unfolding allocated
allocated-Gives none p = no_result
allocated-Gives (some a) p = gives (p a refl)

pub written-Gives :
    {A : Type 0} {P : A → Type 0} (o : Option A)
    → ((a : A) → o ≡ some a → P a)
    → Gives P (written o)
unfolding written
written-Gives none p = no_end
written-Gives (some a) p = gives (p a refl)

pub Gives-map :
    {A : Type 0} {P Q : A → Type 0} {r : Result A} → ((a : A) → P a → Q a) → Gives P r → Gives Q r
Gives-map f (gives {a} p) = gives (f a p)
Gives-map f no_result = no_result
Gives-map f no_end = no_end

-- From a result on of which nothing is known.
pub any_result :
    {A B : Type 0} {Q : B → Type 0} (r : Result A) {next : A → Result B}
    → ((a : A) → Gives Q (next a))
    → Gives Q (r >>= next)
any_result (ok a) q = q a
any_result (err c) q = no_result
any_result fault q = no_end
