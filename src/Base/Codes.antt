-- ===== src/Base/Codes.antt =====
-- The codes of <errno.h> that the compiler's functions return, and results that carry one.
use mathlib.Core.Path.{◌≡◌, refl}
use mathlib.Core.Logic.{◌⊎◌, inl, inr}

-- `success` is 0.
pub data Code : Type 0 where
  success einval enodata enomem exfull enotrecoverable : Code

-- `fault` stands where the C code has no result: it overruns a buffer, or it does not return.
pub data Result (A : Type 0) : Type 0 where
  fault : Result A
  err : Code → Result A
  ok : A → Result A

infixl 5 ◌>>=◌
abbrev pub ◌>>=◌ : {A B : Type 0} → Result A → (A → Result B) → Result B
fault >>= next = fault
err code >>= next = err code
ok value >>= next = next value

-- To split on a computed result and keep the equation.
pub Result-cases :
    {A : Type 0} (r : Result A)
    → ((a : A) × (r ≡ ok a)) ⊎ (((c : Code) × (r ≡ err c)) ⊎ (r ≡ fault))
Result-cases fault = inr (inr refl)
Result-cases (err c) = inr (inl (c, refl))
Result-cases (ok a) = inl (a, refl)

-- What a chain that succeeds has gone through.
pub ok_through :
    {A B : Type 0} (next : A → Result B) (first : Result A) {end : B}
    → (first >>= next) ≡ ok end
    → (middle : A) × (first ≡ ok middle) × (next middle ≡ ok end)
ok_through next fault h = cc
ok_through next (err code) h = cc
ok_through next (ok value) h = (value, refl, h)
