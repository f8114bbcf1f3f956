-- ===== src/Scope/Locals.antt =====
-- Looking a local up, and declaring one.
use volatile.Base.{
  ℕ, ◌≡◌, ◌≢◌, ◌↔◌, ◌⊎◌, inl, inr, refl, ap, List, [], ◌∷◌, ◌++◌, Bytes, ok, All, arith,
}
use volatile.Lexer.Tokenize.{Found, found, missing, failed}
use volatile.Scope.{Nkht, local_get}

-- What is relied on of a table: a name that is put is found, and no other changes.
pub record IsTable {Table Arena : Type 0} (nkht : Nkht Table Arena) : Type 0 where
  pub get-put :
      (t t' : Table) (k : Bytes) (p : ℕ) → nkht.put t k p ≡ ok t' → nkht.get t' k ≡ found p
  pub get-put-other :
      (t t' : Table) (k j : Bytes) (p : ℕ)
      → nkht.put t k p ≡ ok t'
      → k ≢ j
      → nkht.get t' j ≡ nkht.get t j

pub Found-cases :
    {A : Type 0} (x : Found A) → ((a : A) × (x ≡ found a)) ⊎ ((x ≡ missing) ⊎ (x ≡ failed))
Found-cases (found a) = inl (a, refl)
Found-cases missing = inr (inl refl)
Found-cases failed = inr (inr refl)

module _ {Table Arena : Type 0} (nkht : Nkht Table Arena) where
  -- The innermost body with a name decides.
  pub record Innermost (bodies : List Table) (name : Bytes) (p : ℕ) : Type 0 where
    pub inner : List Table
    pub body : Table
    pub outer : List Table
    pub splits : bodies ≡ inner ++ (body ∷ outer)
    pub absent : All (λ b. nkht.get b name ≡ missing) inner
    pub present : nkht.get body name ≡ found p

  local_get-skip :
      (inner : List Table) (body : Table) (outer : List Table) (name : Bytes) (p : ℕ)
      → All (λ b. nkht.get b name ≡ missing) inner
      → nkht.get body name ≡ found p
      → local_get nkht (inner ++ (body ∷ outer)) name ≡ found p
  unfolding local_get
  local_get-skip [] body outer name p a e = ground arith
  local_get-skip (b ∷ inner) body outer name p (m, a) e =
      ground (arith, local_get-skip inner body outer name p a e)

  local_get_sound :
      (bodies : List Table) (name : Bytes) (p : ℕ)
      → local_get nkht bodies name ≡ found p
      → Innermost bodies name p
  unfolding local_get
  local_get_sound [] name p e = cc
  local_get_sound (b ∷ bs) name p e = elim (Found-cases (nkht.get b name)) [
    | inl (q, f) ↦ record {
      inner = [];
      body = b;
      outer = bs;
      splits = refl;
      absent = tt;
      present = ground arith;
    }
    | inr (inl f) ↦
        let r = local_get_sound bs name p (ground arith) in
        record {
          inner = b ∷ r.inner;
          body = r.body;
          outer = r.outer;
          splits = ap (λ l. b ∷ l) r.splits;
          absent = (f, r.absent);
          present = r.present;
        }
    | inr (inr f) ↦ absurd (ground arith)
  ]

-- A local is found exactly when a body that is open has it and no body inside of that one has its
-- name: the innermost declaration hides the others.
pub local_get-Innermost :
    {Table Arena : Type 0} (nkht : Nkht Table Arena) (bodies : List Table) (name : Bytes) (p : ℕ)
    → (local_get nkht bodies name ≡ found p) ↔ Innermost nkht bodies name p
local_get-Innermost nkht bodies name p = (
  local_get_sound nkht bodies name p,
  λ i. rw i.splits (local_get-skip nkht i.inner i.body i.outer name p i.absent i.present),
)
