-- ===== src/Ast/Links.antt =====
-- The links of the tree: an operation is an argument of its parent and of no other operation.
pub mod Places
use volatile.Base.{
  if◌then◌else◌, ℕ, suc, zero, ◌<◌, ◌≡◌, refl, true, false, List, [], ◌∷◌, ◌==◌, set, get_or,
  contains, length, Code, success, arith, Bool-cases, inl, inr, ==_iff, ==_refl,
}
use volatile.Registers.{Ptr, null}
use volatile.Ast.Links.Places.{
  once, set-contains, set-keeps, set-contained, set-once, replace-contains, replace-keeps,
  replace-contained, replace-once, get_or-replace, leading-null,
}
use volatile.Ast.{
  AstOperation, Forest, operation_valid, leading, argc, insert, replace, relink, adopt,
}

-- Parents and arguments agree: an operation is an argument of its parent, at one place, and of no other operation.
pub record IsLinked (f : Forest) : Type 0 where
  pub linked :
      (p : Ptr)
      → ((f.operations p).parent == null) ≡ false
      → contains (f.operations (f.operations p).parent).arguments p ≡ true
  pub no_null_child : (p : Ptr) → ((f.operations p).parent == null) ≡ false → (p == null) ≡ false
  pub held :
      (q p : Ptr)
      → (q == null) ≡ false
      → (p == null) ≡ false
      → contains (f.operations q).arguments p ≡ true
      → (f.operations p).parent ≡ q
  pub single : (q : Ptr) → (q == null) ≡ false → once (f.operations q).arguments ≡ true

-- An operation without a parent is no argument.
pub unheld :
    (f : Forest) (p : Ptr)
    → IsLinked f
    → (f.operations p).parent ≡ null
    → (p == null) ≡ false
    → (q : Ptr) → (q == null) ≡ false
    → contains (f.operations q).arguments p ≡ false
unheld f p l o np q nq = elim (Bool-cases (contains (f.operations q).arguments p)) [
  | inr e ↦ e
  | inl e ↦ absurd (ground (arith, l.held q p nq np e, o, nq, ==_refl null))
]

-- A child that is inserted at the first free place of a parent.
pub record Inserts (parent child : Ptr) (f : Forest) (r : Code × Forest) : Type 0 where
  pub succeeds : r.0 ≡ success
  pub linked : IsLinked r.1
  pub parent_set : (r.1.operations child).parent ≡ parent
  pub held : contains (r.1.operations parent).arguments child ≡ true

-- In a tree where parents and arguments agree, inserting a valid operation without a parent below another one that is
-- valid and has a free place, neither of them NULL, at the first free place, succeeds; the child is one of the
-- parent's arguments, and parents and arguments agree after.
pub insert-Inserts :
    (f : Forest) (parent child : Ptr)
    → IsLinked f
    → (parent == null) ≡ false
    → (child == null) ≡ false
    → (child == parent) ≡ false
    → operation_valid (f.operations parent) ≡ true
    → operation_valid (f.operations child) ≡ true
    → (f.operations child).parent ≡ null
    → argc (f.operations parent) < length (f.operations parent).arguments
    → Inserts parent child f (insert parent child (argc (f.operations parent)) f)
unfolding insert argc
insert-Inserts f parent child l np nc d vp vc top room =
    let h = f.operations in
    let u = unheld f child l top nc in
    let z = leading-null (h parent).arguments room in
    let c = set-contains (h parent).arguments (leading (h parent).arguments) child room in
    let k = set-keeps (h parent).arguments (leading (h parent).arguments) child in
    record {
      succeeds = ground arith;
      linked = record {
        linked = λ p e. ground (
          arith,
          c,
          z,
          k p,
          l.linked p,
          l.no_null_child p,
          ==_iff p child,
          ==_iff (h p).parent parent,
          ==_iff (h p).parent child,
          ==_refl parent,
        );
        no_null_child = λ p e. ground (arith, l.no_null_child p, ==_iff p child);
        held = λ q p nq n e. ground (
          arith,
          l.held q p nq n,
          u q,
          set-contained (h parent).arguments (leading (h parent).arguments) child p,
          ==_iff p child,
          ==_iff q parent,
          ==_iff q child,
          ==_refl child,
        );
        single = λ q nq. ground (
          arith,
          l.single q nq,
          l.single parent np,
          u parent np,
          set-once (h parent).arguments (leading (h parent).arguments) child,
          ==_iff q parent,
          ==_iff q child,
        );
      };
      parent_set = ground (arith, ==_refl child);
      held = ground (arith, ==_refl parent);
    }

-- An operation that takes the place of another one, which becomes its argument.
pub record Adopts (new_parent adopted : Ptr) (f : Forest) (r : Code × Forest) : Type 0 where
  pub succeeds : r.0 ≡ success
  pub linked : IsLinked r.1
  pub below : (r.1.operations adopted).parent ≡ new_parent
  pub held : contains (r.1.operations new_parent).arguments adopted ≡ true
  pub above : (r.1.operations new_parent).parent ≡ (f.operations adopted).parent
  pub last_set : r.1.last ≡ new_parent
  pub rooted : (f.operations adopted).parent ≡ null → r.1.root ≡ new_parent
  pub placed :
      ((f.operations adopted).parent == null) ≡ false
      → (i : ℕ)
      → get_or (r.1.operations (f.operations adopted).parent).arguments i null ≡ (
          if get_or (f.operations (f.operations adopted).parent).arguments i null == adopted
          then new_parent
          else get_or (f.operations (f.operations adopted).parent).arguments i null)

module _ (f : Forest) (new_parent adopted : Ptr) (l : IsLinked f)
    (nn : (new_parent == null) ≡ false) (na : (adopted == null) ≡ false)
    (d : (adopted == new_parent) ≡ false)
    (e : ((f.operations adopted).parent == new_parent) ≡ false)
    (loop : ((f.operations adopted).parent == adopted) ≡ false)
    (vn : operation_valid (f.operations new_parent) ≡ true)
    (va : operation_valid (f.operations adopted) ≡ true)
    (top : (f.operations new_parent).parent ≡ null)
    (room : argc (f.operations new_parent) < length (f.operations new_parent).arguments) where
  h : Ptr → AstOperation
  h = f.operations

  adopt_root : (h adopted).parent ≡ null → Adopts new_parent adopted f (adopt new_parent adopted f)
  unfolding h adopt argc relink
  adopt_root u =
      let w = unheld f adopted l u na in
      let v = unheld f new_parent l top nn in
      let z = leading-null (h new_parent).arguments room in
      let c =
        set-contains (h new_parent).arguments (leading (h new_parent).arguments) adopted room in
      let k = set-keeps (h new_parent).arguments (leading (h new_parent).arguments) adopted in
      record {
        succeeds = ground arith;
        linked = record {
          linked = λ p q. ground (
            arith,
            c,
            z,
            k p,
            l.linked p,
            l.no_null_child p,
            ==_iff p adopted,
            ==_iff p new_parent,
            ==_iff (h p).parent new_parent,
            ==_iff (h p).parent adopted,
            ==_refl new_parent,
          );
          no_null_child =
              λ p q. ground (arith, l.no_null_child p, ==_iff p adopted, ==_iff p new_parent);
          held = λ q p nq n x. ground (
            arith,
            l.held q p nq n,
            w q,
            v q,
            set-contained (h new_parent).arguments (leading (h new_parent).arguments) adopted p,
            ==_iff p adopted,
            ==_iff p new_parent,
            ==_iff q new_parent,
            ==_iff q adopted,
            ==_refl adopted,
            ==_refl new_parent,
          );
          single = λ q nq. ground (
            arith,
            l.single q nq,
            l.single new_parent nn,
            w new_parent nn,
            set-once (h new_parent).arguments (leading (h new_parent).arguments) adopted,
            ==_iff q new_parent,
            ==_iff q adopted,
          );
        };
        below = ground (arith, ==_refl adopted);
        held = ground (arith, ==_refl new_parent);
        above = ground (arith, ==_refl new_parent);
        last_set = ground arith;
        rooted = λ x. ground arith;
        placed = λ n i. absurd (ground (arith, n, u, ==_refl null));
      }

  -- Its new parent does not hold it before.
  unheld_by_new : contains (h new_parent).arguments adopted ≡ false
  unfolding h
  unheld_by_new = elim (Bool-cases (contains (h new_parent).arguments adopted)) [
    | inr x ↦ x
    | inl x ↦ absurd (ground (arith, l.held new_parent adopted nn na x, e, ==_refl new_parent))
  ]

  adopt_inner :
      ((h adopted).parent == null) ≡ false
      → Adopts new_parent adopted f (adopt new_parent adopted f)
  unfolding h adopt argc relink
  adopt_inner u =
      let up = (h adopted).parent in
      let o = l.single up u in
      let w = unheld_by_new in
      let v = unheld f new_parent l top nn in
      let z = leading-null (h new_parent).arguments room in
      let c =
        set-contains (h new_parent).arguments (leading (h new_parent).arguments) adopted room in
      let k = set-keeps (h new_parent).arguments (leading (h new_parent).arguments) adopted in
      let m = l.linked adopted u in
      let b = replace-contains (h (h adopted).parent).arguments adopted new_parent m in
      let s = replace-keeps (h (h adopted).parent).arguments adopted new_parent in
      record {
        succeeds = ground arith;
        linked = record {
          linked = λ p q. ground (
            arith,
            c,
            z,
            b,
            k p,
            s p,
            l.linked p,
            l.no_null_child p,
            ==_iff p adopted,
            ==_iff p new_parent,
            ==_iff (h p).parent new_parent,
            ==_iff (h p).parent adopted,
            ==_iff (h p).parent (h adopted).parent,
            ==_refl new_parent,
            ==_refl (h adopted).parent,
          );
          no_null_child =
              λ p q. ground (arith, l.no_null_child p, ==_iff p adopted, ==_iff p new_parent);
          held = λ q p nq n x. ground (
            arith,
            m,
            w,
            o,
            l.held q p nq n,
            v q nq,
            set-contained (h new_parent).arguments (leading (h new_parent).arguments) adopted p,
            replace-contained (h up).arguments adopted new_parent p,
            ==_iff p adopted,
            ==_iff p new_parent,
            ==_iff q new_parent,
            ==_iff q adopted,
            ==_iff q up,
            ==_refl adopted,
            ==_refl new_parent,
            ==_refl up,
          );
          single = λ q nq. ground (
            arith,
            w,
            o,
            l.single q nq,
            l.single new_parent nn,
            v up u,
            set-once (h new_parent).arguments (leading (h new_parent).arguments) adopted,
            replace-once (h up).arguments adopted new_parent,
            ==_iff q new_parent,
            ==_iff q adopted,
            ==_iff q up,
          );
        };
        below = ground (arith, ==_refl adopted);
        held = ground (arith, ==_refl new_parent);
        above = ground (arith, ==_refl new_parent);
        last_set = ground arith;
        rooted = λ x. absurd (ground (arith, u, x, ==_refl null));
        placed = λ n i. ground (
          arith,
          m,
          get_or-replace (h up).arguments adopted new_parent i o na,
          ==_iff up new_parent,
          ==_iff up adopted,
          ==_refl up,
        );
      }

  -- In a tree where parents and arguments agree, adopting an operation, which is not NULL nor its own parent, by
  -- another one that has no parent yet, is not NULL, not the adopted one nor the parent of it and has a free place,
  -- both of them valid, succeeds: the new parent gets the adopted one among its arguments, takes its parent over, and
  -- stands at the place where the adopted one stood among that parent's arguments, of which the others stay, or at
  -- the root; it is the last of the tree, and parents and arguments agree after.
  pub adopt-Adopts : Adopts new_parent adopted f (adopt new_parent adopted f)
  unfolding h
  adopt-Adopts = elim (Bool-cases ((h adopted).parent == null)) [
    | inl u ↦ adopt_root ((==_iff (h adopted).parent null).0 u)
    | inr u ↦ adopt_inner u
  ]
