-- ===== src/Ast/Insert/Linked.antt =====
-- `vltl_ast_tree_insert` returns, and leaves a linked tree.
use mathlib.Core.Path.{subst}
use volatile.Base.{
  ℕ, suc, ◌<◌, ◌≡◌, sym, ap, true, false, ◌&&◌, ◌==◌, get_or, length, Code, success, Result, ok,
  Bool-cases, inl, inr, arith, ==_iff,
}
use volatile.Registers.{Ptr, null}
use volatile.Ast.{Forest, operation_valid, argc, insert, adopt}
use volatile.Ast.Links.{IsLinked, insert-Inserts, adopt-Adopts}
use volatile.Ast.Insert.{hungry, insert_last}
use volatile.Ast.Insert.Walk.{hungry-small, Sinks}

-- A tree whose operations have places for nine arguments, those after the first free one free too, and
-- whose root has no parent; the measure shrinks from every operation to its parent.
pub record IsTree (depth : Ptr → ℕ) (f : Forest) : Type 0 where
  pub links : IsLinked f
  pub sinks : Sinks depth f.operations
  pub wide : (p : Ptr) → length (f.operations p).arguments ≡ 9
  pub spare :
      (p : Ptr) → get_or (f.operations p).arguments (suc (argc (f.operations p))) null ≡ null
  pub top : (f.root == null) ≡ false → (f.operations f.root).parent ≡ null

-- An operation that is not in the tree.
pub record IsFresh (f : Forest) (p : Ptr) : Type 0 where
  pub nonnull : (p == null) ≡ false
  pub orphan : (f.operations p).parent ≡ null
  pub childless : (q : Ptr) → ((f.operations q).parent == p) ≡ false
  pub not_root : (f.root == p) ≡ false
  pub not_last : (f.last == p) ≡ false

-- A call that returns, with a linked tree.
pub record Grows (r : Result (Code × Forest)) : Type 0 where
  pub code : Code
  pub forest : Forest
  pub returns : r ≡ ok (code, forest)
  pub linked : IsLinked forest

pub relast : (f : Forest) (p : Ptr) → IsLinked f → IsLinked (record f { last = p })
relast f p l = record {
  linked = l.linked;
  no_null_child = l.no_null_child;
  held = l.held;
  single = l.single;
}

insert_refused :
    (f : Forest) (parent child : Ptr) (i : ℕ)
    → (parent == null) ≡ false
    → (operation_valid (f.operations parent) && operation_valid (f.operations child)) ≡ false
    → (insert parent child i f).1 ≡ f
unfolding insert
insert_refused f parent child i n e = ground arith

pub insert-IsLinked :
    (f : Forest) (parent child : Ptr)
    → IsLinked f
    → (parent == null) ≡ false
    → (child == null) ≡ false
    → (child == parent) ≡ false
    → (f.operations child).parent ≡ null
    → argc (f.operations parent) < length (f.operations parent).arguments
    → IsLinked (insert parent child (argc (f.operations parent)) f).1
insert-IsLinked f parent child l np nc d top room =
    elim (Bool-cases
      (operation_valid (f.operations parent) && operation_valid (f.operations child))) [
        | inr e ↦
            subst IsLinked (sym (insert_refused f parent child (argc (f.operations parent)) np e)) l
        | inl v ↦
            (insert-Inserts f parent child l np nc d (ground arith) (ground arith) top room).linked
      ]

pub insert_root-IsLinked :
    (f : Forest) (child : Ptr) (i : ℕ)
    → IsLinked f
    → (f.operations child).parent ≡ null
    → IsLinked (insert null child i f).1
unfolding insert
insert_root-IsLinked f child i l top = record {
  linked = λ p e.
      ground (
        arith,
        l.linked p,
        l.no_null_child p,
        ==_iff p child,
        ==_iff (f.operations p).parent child,
      );
  no_null_child = λ p e. ground (arith, l.no_null_child p);
  held =
      λ q p nq n e. ground (arith, l.held q p nq n, ==_iff p child, ==_iff q child, ==_iff q null);
  single = λ q nq. ground (arith, l.single q nq, ==_iff q child);
}

-- What `insert_last` makes of the result of the insertion.
after_insert : Ptr → Code × Forest → Code × Forest
after_insert child r = elim r.0 [ success ↦ (success, record r.1 { last = child }) | _ ↦ r ]

after_insert-IsLinked :
    (child : Ptr) (c : Code) (g : Forest) → IsLinked g → IsLinked (after_insert child (c, g)).1
unfolding after_insert
after_insert-IsLinked child success g m = relast g child m
after_insert-IsLinked child _ g m = m

pub insert_last-IsLinked :
    (f : Forest) (parent child : Ptr)
    → IsLinked f
    → (parent == null) ≡ false
    → (child == null) ≡ false
    → (child == parent) ≡ false
    → (f.operations child).parent ≡ null
    → argc (f.operations parent) < length (f.operations parent).arguments
    → IsLinked (insert_last parent child f).1
unfolding insert_last after_insert
insert_last-IsLinked f parent child l np nc d top room =
    let r = insert parent child (argc (f.operations parent)) f in
    after_insert-IsLinked child r.0 r.1 (insert-IsLinked f parent child l np nc d top room)

pub adopt_refused :
    (f : Forest) (new_parent adopted : Ptr)
    → (operation_valid (f.operations new_parent) && operation_valid (f.operations adopted)) ≡ false
    → (adopt new_parent adopted f).1 ≡ f
unfolding adopt
adopt_refused f new_parent adopted e = ground arith

module _ (depth : Ptr → ℕ) (f : Forest) (t : IsTree depth f) (pushed : Ptr)
    (fresh : IsFresh f pushed) where
  not_own_parent : (p : Ptr) → (p == null) ≡ false → ((f.operations p).parent == p) ≡ false
  not_own_parent p n = elim (Bool-cases ((f.operations p).parent == p)) [
    | inr e ↦ e
    | inl e ↦ absurd (omega (arith, t.sinks p n, ap depth ((==_iff (f.operations p).parent p).0 e)))
  ]

  pub adopt-IsLinked :
      (adopted : Ptr)
      → (adopted == null) ≡ false
      → (adopted == pushed) ≡ false
      → hungry (f.operations pushed) ≡ true
      → IsLinked (adopt pushed adopted f).1
  adopt-IsLinked adopted n a r =
      elim (Bool-cases
        (operation_valid (f.operations pushed) && operation_valid (f.operations adopted))) [
          | inr e ↦ subst IsLinked (sym (adopt_refused f pushed adopted e)) t.links
          | inl v ↦
              (adopt-Adopts f pushed adopted t.links fresh.nonnull n a (fresh.childless adopted)
                (not_own_parent adopted n) (ground arith) (ground arith) fresh.orphan
                (omega (arith, hungry-small (f.operations pushed) r, t.wide pushed))).linked
        ]

  pub insert_hungry-IsLinked :
      (p : Ptr)
      → (p == null) ≡ false
      → (p == pushed) ≡ false
      → hungry (f.operations p) ≡ true
      → IsLinked (insert_last p pushed f).1
  insert_hungry-IsLinked p n a r =
      insert_last-IsLinked f p pushed t.links n fresh.nonnull (ground arith) fresh.orphan
        (omega (arith, hungry-small (f.operations p) r, t.wide p))
