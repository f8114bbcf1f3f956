-- ===== src/Ast/Links/Places.antt =====
-- The places of an operation's arguments.
use volatile.Base.{
  ℕ, suc, zero, ◌<◌, ◌≡◌, refl, true, false, Bool, not, ◌&&◌, ◌||◌, List, [], ◌∷◌, ◌==◌, set,
  get_or, contains, length, arith, ==_iff, ==_refl, if◌then◌else◌,
}
use volatile.Registers.{Ptr, null}
use volatile.Ast.{leading, replace}

-- No operation stands at two places.
unfoldable pub once : List Ptr → Bool
once [] = true
once (p ∷ ps) = (p == null || not (contains ps p)) && once ps

pub set-contains :
    (ps : List Ptr) (i : ℕ) (v : Ptr) → i < length ps → contains (set ps i v) v ≡ true
set-contains [] i v h = absurd (omega arith)
set-contains (p ∷ ps) zero v h = ground (arith, ==_refl v)
set-contains (p ∷ ps) (suc i) v h = ground (arith, set-contains ps i v)

-- A write to a place that holds null loses no other element.
pub set-keeps :
    (ps : List Ptr) (i : ℕ) (v q : Ptr)
    → get_or ps i null ≡ null
    → (q == null) ≡ false
    → contains ps q ≡ true
    → contains (set ps i v) q ≡ true
set-keeps [] i v q e n h = cc
set-keeps (p ∷ ps) zero v q e n h = ground arith
set-keeps (p ∷ ps) (suc i) v q e n h = ground (arith, set-keeps ps i v q)

-- What a list holds after a write, apart from what is written, it held before.
pub set-contained :
    (ps : List Ptr) (i : ℕ) (v q : Ptr)
    → (q == v) ≡ false
    → contains (set ps i v) q ≡ true
    → contains ps q ≡ true
set-contained [] i v q n h = h
set-contained (p ∷ ps) zero v q n h = ground (arith, ==_iff v q, ==_refl q)
set-contained (p ∷ ps) (suc i) v q n h = ground (arith, set-contained ps i v q n)

pub set-once :
    (ps : List Ptr) (i : ℕ) (v : Ptr)
    → contains ps v ≡ false
    → once ps ≡ true
    → once (set ps i v) ≡ true
unfolding once
set-once [] i v n o = refl
set-once (p ∷ ps) zero v n o = ground arith
set-once (p ∷ ps) (suc i) v n o =
    ground (arith, set-once ps i v, set-contained ps i v p, ==_iff p v, ==_refl p)

pub replace-contains :
    (ps : List Ptr) (a b : Ptr) → contains ps a ≡ true → contains (replace ps a b) b ≡ true
unfolding replace
replace-contains [] a b h = cc
replace-contains (p ∷ ps) a b h = ground (arith, replace-contains ps a b, ==_refl b)

pub replace-keeps :
    (ps : List Ptr) (a b q : Ptr)
    → (q == a) ≡ false
    → contains ps q ≡ true
    → contains (replace ps a b) q ≡ true
unfolding replace
replace-keeps [] a b q n h = cc
replace-keeps (p ∷ ps) a b q n h =
    ground (arith, replace-keeps ps a b q, ==_iff p a, ==_iff p q, ==_refl q)

-- What a list holds after a replacement, apart from what is put in, it held before, and it is not what was replaced.
pub replace-contained :
    (ps : List Ptr) (a b q : Ptr)
    → once ps ≡ true
    → (a == null) ≡ false
    → (q == b) ≡ false
    → contains (replace ps a b) q ≡ true
    → (contains ps q ≡ true) × ((q == a) ≡ false)
unfolding replace once
replace-contained [] a b q o z n h = absurd cc
replace-contained (p ∷ ps) a b q o z n h = (
  ground (arith, replace-contained ps a b q, ==_iff p a, ==_iff b q, ==_refl q),
  ground (
    arith,
    replace-contained ps a b q,
    ==_iff p a,
    ==_iff q a,
    ==_iff b q,
    ==_iff p q,
    ==_refl q,
    ==_refl a,
  ),
)

pub replace-once :
    (ps : List Ptr) (a b : Ptr)
    → contains ps b ≡ false
    → (a == null) ≡ false
    → once ps ≡ true
    → once (replace ps a b) ≡ true
unfolding replace once
replace-once [] a b n z o = refl
replace-once (p ∷ ps) a b n z o = ground (
  arith,
  replace-once ps a b,
  replace-contained ps a b p,
  ==_iff p a,
  ==_iff p b,
  ==_refl b,
  ==_refl p,
)

get_or-contains :
    (ps : List Ptr) (a : Ptr) (i : ℕ)
    → (a == null) ≡ false
    → contains ps a ≡ false
    → (get_or ps i null == a) ≡ false
get_or-contains [] a i z n = ground (arith, z, ==_iff null a, ==_iff a null)
get_or-contains (p ∷ ps) a zero z n = ground arith
get_or-contains (p ∷ ps) a (suc i) z n = ground (arith, get_or-contains ps a i z)

-- The places after a replacement.
pub get_or-replace :
    (ps : List Ptr) (a b : Ptr) (i : ℕ)
    → once ps ≡ true
    → (a == null) ≡ false
    → get_or (replace ps a b) i null ≡ (if get_or ps i null == a then b else get_or ps i null)
unfolding replace once
get_or-replace [] a b i o z = ground arith
get_or-replace (p ∷ ps) a b zero o z = ground arith
get_or-replace (p ∷ ps) a b (suc i) o z =
    ground (arith, get_or-replace ps a b i, get_or-contains ps a i z, ==_iff p a)

-- The first place after the leading arguments holds null.
pub leading-null : (ps : List Ptr) → leading ps < length ps → get_or ps (leading ps) null ≡ null
unfolding leading
leading-null [] h = refl
leading-null (p ∷ ps) h = ground (arith, leading-null ps, ==_iff p null)
