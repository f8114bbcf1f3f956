-- ===== src/Reshape/Overwrite.antt =====
-- src/reshape.c: the array of arguments, as the list of those before the first NULL.
use volatile.Base.{
  ℕ, zero, suc, ◌+◌, ◌≤◌, ◌≡◌, refl, ap, ◌∙◌, false, List, [], ◌∷◌, ◌++◌, get_or, set, take, drop,
  length, replicate, All, ◌==◌, if◌then◌else◌, arith, Bool-cases, inl, inr, ◌⊎◌, length-set,
}
use volatile.Registers.{Ptr, null}

-- The arguments from the place `i` on, up to the first that is NULL, among `n`.
abbrev pub collected : ℕ → List Ptr → ℕ → List Ptr
collected zero args i = []
collected (suc n) args i =
    let rest = collected n args (suc i) in
    if get_or args i null == null then [] else get_or args i null ∷ rest

-- The places from `k` on are written.
abbrev pub overwrite : List Ptr → ℕ → List Ptr → List Ptr
overwrite args k [] = args
overwrite args k (x ∷ xs) = overwrite (set args k x) (suc k) xs

abbrev until_null : List Ptr → List Ptr
until_null [] = []
until_null (p ∷ ps) = if p == null then [] else p ∷ until_null ps

abbrev pub NoNull : List Ptr → Type 0
NoNull = All (λ p. (p == null) ≡ false)

drop-cases :
    (args : List Ptr) (i : ℕ)
    → ((drop i args ≡ []) × (get_or args i null ≡ null))
      ⊎ (drop i args ≡ get_or args i null ∷ drop (suc i) args)
drop-cases [] zero = inl (refl, refl)
drop-cases [] (suc i) = inl (refl, refl)
drop-cases (x ∷ xs) zero = inr refl
drop-cases (x ∷ xs) (suc i) = drop-cases xs i

drop-all : (args : List Ptr) (i : ℕ) → length args ≤ i → drop i args ≡ []
drop-all [] zero h = refl
drop-all [] (suc i) h = refl
drop-all (x ∷ xs) zero h = absurd (omega arith)
drop-all (x ∷ xs) (suc i) h = drop-all xs i (omega (arith, h))

collected_until :
    (n : ℕ) (args : List Ptr) (i : ℕ)
    → length args ≤ n + i
    → collected n args i ≡ until_null (drop i args)
collected_until zero args i h = rw (drop-all args i (omega (arith, h))) refl
collected_until (suc n) args i h = elim (drop-cases args i) [
  | inl (e, z) ↦ rw (e, z) refl
  | inr e ↦ rw e (elim (Bool-cases (get_or args i null == null)) [
    | inl z ↦ rw z refl
    | inr z ↦
        rw z (ap (λ l. get_or args i null ∷ l) (collected_until n args (suc i) (omega (arith, h))))
  ])
]

pub collected-NoNull : (n : ℕ) (args : List Ptr) (i : ℕ) → NoNull (collected n args i)
collected-NoNull zero args i = tt
collected-NoNull (suc n) args i = elim (Bool-cases (get_or args i null == null)) [
  | inl z ↦ rw z tt
  | inr z ↦ rw z (z, collected-NoNull n args (suc i))
]

until_null-append : (xs ys : List Ptr) → NoNull xs → until_null ys ≡ [] → until_null (xs ++ ys) ≡ xs
until_null-append [] ys h e = e
until_null-append (x ∷ xs) ys h e = rw (h.0) (ap (λ l. x ∷ l) (until_null-append xs ys h.1 e))

until_null-drop : (m n : ℕ) → until_null (drop m (replicate n null)) ≡ []
until_null-drop zero zero = refl
until_null-drop zero (suc n) = refl
until_null-drop (suc m) zero = refl
until_null-drop (suc m) (suc n) = until_null-drop m n

overwrite-suc :
    (a : Ptr) (args : List Ptr) (k : ℕ) (xs : List Ptr)
    → overwrite (a ∷ args) (suc k) xs ≡ a ∷ overwrite args k xs
overwrite-suc a args k [] = refl
overwrite-suc a args k (x ∷ xs) = overwrite-suc a (set args k x) (suc k) xs

overwrite_lem :
    (args xs : List Ptr)
    → length xs ≤ length args
    → overwrite args 0 xs ≡ xs ++ drop (length xs) args
overwrite_lem args [] h = refl
overwrite_lem [] (x ∷ xs) h = absurd (omega arith)
overwrite_lem (a ∷ args) (x ∷ xs) h =
    overwrite-suc x args 0 xs ∙ ap (λ l. x ∷ l) (overwrite_lem args xs (omega (arith, h)))

pub overwrite-append :
    (args : List Ptr) (k : ℕ) (xs ys : List Ptr)
    → overwrite (overwrite args k xs) (k + length xs) ys ≡ overwrite args k (xs ++ ys)
overwrite-append args k [] ys = ap (λ n. overwrite args n ys) (omega arith)
overwrite-append args k (x ∷ xs) ys =
    ap (λ n. overwrite (overwrite (set args k x) (suc k) xs) n ys) (omega arith)
    ∙ overwrite-append (set args k x) (suc k) xs ys

length-overwrite :
    (args : List Ptr) (k : ℕ) (xs : List Ptr) → length (overwrite args k xs) ≡ length args
length-overwrite args k [] = refl
length-overwrite args k (x ∷ xs) = length-overwrite (set args k x) (suc k) xs ∙ length-set args k x

until_null-pair : (l r : Ptr) (n : ℕ) → 2 ≤ n → until_null (drop n (l ∷ r ∷ replicate 7 null)) ≡ []
until_null-pair l r zero h = absurd (omega arith)
until_null-pair l r (suc zero) h = absurd (omega arith)
until_null-pair l r (suc (suc m)) h = until_null-drop m 7

-- Two or more values, written over an array of two arguments and NULLs from the start on, are the values of the array.
pub collected-overwrite :
    (l r : Ptr) (xs : List Ptr)
    → NoNull xs
    → 2 ≤ length xs
    → length xs ≤ 9
    → collected 9 (overwrite (l ∷ r ∷ replicate 7 null) 0 xs) 0 ≡ xs
collected-overwrite l r xs h m b =
    let args : List Ptr = l ∷ r ∷ replicate 7 null in
    collected_until 9 (overwrite args 0 xs) 0 (omega (arith, length-overwrite args 0 xs))
    ∙ ap until_null (overwrite_lem args xs b)
    ∙ until_null-append xs (drop (length xs) args) h (until_null-pair l r (length xs) m)

pub take_all : (n : ℕ) (xs : List Ptr) → length xs ≤ n → take n xs ≡ xs
take_all zero [] h = refl
take_all zero (x ∷ xs) h = absurd (omega arith)
take_all (suc n) [] h = refl
take_all (suc n) (x ∷ xs) h = ap (λ l. x ∷ l) (take_all n xs (omega (arith, h)))
