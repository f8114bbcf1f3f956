-- ===== src/Scope/Frame.antt =====
-- The frame of a function: where its locals stand.
use volatile.Base.{
  ℕ, ◌+◌, ◌*◌, ◌%◌, ◌^◌, ◌<◌, ◌≡◌, ◌≢◌, ◌⊎◌, inl, inr, refl, sym, ap, ◌∙◌, List, [], ◌∷◌, ◌++◌,
  Bytes, set, ok, length, arith, Option-cases, Result-cases, length-append,
}
use mathlib.Core.Path.{subst}
use volatile.Lexer.Tokenize.{found}
use volatile.Lang.{LangType}
use volatile.Scope.{Nkht, LangLocal, Scope, local_get, local_set, local_create, place}
use volatile.Scope.Locals.{IsTable, Found-cases}

-- Locals at `n + 8`, `n + 16` and so on.
abbrev pub Stacked : ℕ → List LangLocal → Type 0
Stacked n [] = Unit
Stacked n (l ∷ ls) = (l.frame_offset ≡ n + 8) × Stacked (n + 8) ls

-- Each local has eight bytes of the frame for itself, in the order of their declarations, and the frame
-- holds nothing else.
pub record IsFramed {Table Arena : Type 0} (s : Scope Table Arena) : Type 0 where
  pub stacked : Stacked 0 s.locals
  pub size : s.stack_frame_size ≡ 8 * length s.locals
  pub cap : s.stack_frame_cap ≡ s.stack_frame_size

Stacked-concat :
    (n : ℕ) (ls : List LangLocal) (l : LangLocal)
    → Stacked n ls
    → l.frame_offset ≡ n + 8 * length ls + 8
    → Stacked n (ls ++ (l ∷ []))
Stacked-concat n [] l t e = (omega (arith, e), tt)
Stacked-concat n (k ∷ ls) l (f, t) e = (f, Stacked-concat (n + 8) ls l t (omega (arith, e)))

set-last :
    (ls : List LangLocal) (k l : LangLocal) → set (ls ++ (k ∷ [])) (length ls) l ≡ ls ++ (l ∷ [])
set-last [] k l = refl
set-last (m ∷ ls) k l = ap (λ r. m ∷ r) (set-last ls k l)

List-cases : {A : Type 0} (xs : List A) → (xs ≡ []) ⊎ ((x : A) × (ys : List A) × (xs ≡ x ∷ ys))
List-cases [] = inl refl
List-cases (x ∷ xs) = inr (x, xs, refl)

module _ {Table Arena : Type 0} (nkht : Nkht Table Arena) where
  -- What `vltl_lang_function_local_set` did to a scope: the name is found in the innermost body, other
  -- names are as before, and the new local stands after the others, at the end of the frame.
  pub record Sets (s : Scope Table Arena) (name : Bytes) (type : LangType) (s' : Scope Table Arena)
      : Type 0 where
    pub framed : IsFramed s'
    pub found_new : local_get nkht s'.bodies name ≡ found (length s.locals)
    pub others : (j : Bytes) → name ≢ j → local_get nkht s'.bodies j ≡ local_get nkht s.bodies j
    pub appended :
        s'.locals
        ≡ s.locals
          ++ (record { name = name; type = type; frame_offset = 8 * length s.locals + 8 } ∷ [])

  -- The state after the name is in the table.
  placed :
      (s : Scope Table Arena) (b : Table) (bs : List Table) (arena : Arena) (name : Bytes)
      (type : LangType)
      → Scope Table Arena
  placed s b bs arena name type =
      place nkht
        (record s {
          bodies = b ∷ bs;
          arena = arena;
          locals = s.locals ++ (record { name = name; type = type; frame_offset = 0 } ∷ []);
        })
        name type (length s.locals)

  placed-IsFramed :
      (s : Scope Table Arena) (b : Table) (bs : List Table) (arena : Arena) (name : Bytes)
      (type : LangType)
      → IsFramed s
      → 8 * length s.locals + 8 < 2 ^ 64
      → IsFramed (placed s b bs arena name type)
        × ((placed s b bs arena name type).locals
            ≡ s.locals
              ++ (record { name = name; type = type; frame_offset = 8 * length s.locals + 8 } ∷ []))
  unfolding placed place
  placed-IsFramed s b bs arena name type f l =
      let n : LangLocal = record {
        name = name;
        type = type;
        frame_offset = 8 * length s.locals + 8;
      } in
      let o : (s.stack_frame_size + 8) % 2 ^ 64 ≡ 8 * length s.locals + 8 = omega (arith, f.size) in
      let e : (placed s b bs arena name type).locals ≡ s.locals ++ (n ∷ []) =
        set-last s.locals (record { name = name; type = type; frame_offset = 0 }) _
        ∙ ap (λ v. s.locals ++ (record { name = name; type = type; frame_offset = v } ∷ [])) o in
      (
        record {
          stacked = subst (Stacked 0) (sym e) (Stacked-concat 0 s.locals n f.stacked (omega arith));
          size = o ∙ omega (arith, ap length e, length-append s.locals (n ∷ []));
          cap = ground (arith, f.cap);
        },
        e,
      )

  -- Where the table of a body keeps what is put in it, and the frame has eight bytes for each local and
  -- fits a `size_t` with one more, a successful declaration keeps the frame so: the new local gets
  -- the next eight bytes, is found under its name, and no other name's lookup changes.
  pub local_set-Sets :
      (t : IsTable nkht) (s s' : Scope Table Arena) (name : Bytes) (type : LangType)
      → IsFramed s
      → 8 * length s.locals + 8 < 2 ^ 64
      → local_set nkht s name type ≡ ok s'
      → Sets s name type s'
  unfolding local_set local_create local_get placed place
  local_set-Sets t s s' name type f l e = elim (List-cases s.bodies) [
    | inl h ↦ absurd (ground arith)
    | inr (b, bs, h) ↦ elim (Found-cases (nkht.get b name)) [
      | inl (q, g) ↦ absurd (ground arith)
      | inr (inr g) ↦ absurd (ground arith)
      | inr (inl g) ↦ elim (Option-cases (nkht.alloc s.arena)) [
        | inl k ↦ absurd (ground arith)
        | inr (arena, k) ↦ elim (Result-cases (nkht.put b name (length s.locals))) [
          | inr (inl (c, m)) ↦ absurd (ground arith)
          | inr (inr m) ↦ absurd (ground arith)
          | inl (b', m) ↦
              let q : placed s b' bs arena name type ≡ s' = ground arith in
              let (framed, appended) = placed-IsFramed s b' bs arena name type f l in
              subst (Sets s name type) q (record {
                framed = framed;
                found_new = ground (arith, t.get-put b b' name (length s.locals) m);
                others = λ j d. ground (arith, t.get-put-other b b' name j (length s.locals) m d);
                appended = appended;
              })
        ]
      ]
    ]
  ]
