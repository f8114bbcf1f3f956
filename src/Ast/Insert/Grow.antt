-- ===== src/Ast/Insert/Grow.antt =====
-- `vltl_ast_tree_insert`, from its parts.
use mathlib.Core.Path.{subst}
use volatile.Base.{
  ℕ, suc, ◌<◌, ◌≡◌, sym, ap, ◌∙◌, true, false, ◌&&◌, leb, ◌==◌, get_or, success, einval,
  enotrecoverable, Result-cases, Bool-cases, inl, inr, arith, ==_iff,
}
use volatile.Registers.{Ptr, null}
use volatile.Ast.{Forest, operation_valid, argc, insert, precedence}
use volatile.Ast.Links.{IsLinked}
use volatile.Ast.Insert.{hungry, insert_last, insert_below, place_above, tree_insert}
use volatile.Ast.Insert.Csv.{
  IsSpare, due, csv_forest, csv_inserted, after_csv, after_csv-IsLinked, csv_forest-IsLinked,
  csv_forest-top, csv_inserted-top, csv-argc, csv_first-room, csv-room,
}
use volatile.Ast.Insert.Walk.{precedence-ne-fault}
use volatile.Ast.Insert.Linked.{
  IsTree, IsFresh, Grows, relast, insert-IsLinked, insert_root-IsLinked, insert_last-IsLinked,
  insert_hungry-IsLinked,
}
use volatile.Ast.Insert.Place.{place_above-Grows}

module _ (depth : Ptr → ℕ) (f : Forest) (t : IsTree depth f) (pushed : Ptr)
    (fresh : IsFresh f pushed) (steps : ℕ) (enough : depth f.last < steps) where
  not_due :
      (memory : Ptr)
      → due f pushed ≡ false
      → insert_below memory pushed f ≡ insert_last f.last pushed f
  unfolding insert_below due
  not_due memory c = ground arith

  no_memory :
      (memory : Ptr)
      → due f pushed ≡ true
      → (memory == null) ≡ true
      → (insert_below memory pushed f).1 ≡ f
  unfolding insert_below due
  no_memory memory c z = ground arith

  with_csv :
      (memory : Ptr)
      → due f pushed ≡ true
      → (memory == null) ≡ false
      → insert_below memory pushed f ≡ after_csv f.last pushed (csv_inserted f memory)
  unfolding insert_below due after_csv csv_inserted csv_forest
  with_csv memory c z = ground arith

  due-argc : due f pushed ≡ true → argc (f.operations f.last) ≡ 0
  unfolding due
  due-argc c = ground (arith, ==_iff (argc (f.operations f.last)) 0)

  csv_inserted-IsLinked :
      (memory : Ptr)
      → (memory == null) ≡ false
      → IsSpare f pushed memory
      → (f.last == null) ≡ false
      → argc (f.operations f.last) ≡ 0
      → IsLinked (csv_inserted f memory).1
  unfolding csv_inserted
  csv_inserted-IsLinked memory z s n a =
      let e = csv-argc f memory pushed s z in
      rw (← e) (
        insert-IsLinked (csv_forest f memory) f.last memory
          (csv_forest-IsLinked f memory pushed s z t.links) n z s.not_last
          (csv_forest-top f memory pushed s z)
          (csv_first-room f memory pushed s z a (t.wide f.last)))

  after_csv-csv_inserted-IsLinked :
      (memory : Ptr)
      → (memory == null) ≡ false
      → IsSpare f pushed memory
      → (f.last == null) ≡ false
      → due f pushed ≡ true
      → IsLinked (after_csv f.last pushed (csv_inserted f memory)).1
  after_csv-csv_inserted-IsLinked memory z s n c =
      let r = csv_inserted f memory in
      let a = due-argc c in
      let w = t.wide f.last in
      let l1 = csv_inserted-IsLinked memory z s n a in
      after_csv-IsLinked f.last pushed r.0 r.1 l1 (
        insert_last-IsLinked r.1 f.last pushed l1 n fresh.nonnull (ground (arith, fresh.not_last))
          (csv_inserted-top f memory pushed s z fresh.orphan)
          (csv-room f memory pushed s z a
            (ap (λ k. get_or (f.operations f.last).arguments (suc k) null) (sym a) ∙ t.spare f.last)
            w))

  -- The insertion below the last operation, with an empty csv first where it is due.
  insert_below-IsLinked :
      (memory : Ptr)
      → IsSpare f pushed memory
      → (f.last == null) ≡ false
      → hungry (f.operations f.last) ≡ true
      → IsLinked (insert_below memory pushed f).1
  insert_below-IsLinked memory s n h = elim (Bool-cases (due f pushed)) [
    | inr c ↦
        subst (λ r. IsLinked r.1) (sym (not_due memory c))
          (insert_hungry-IsLinked depth f t pushed fresh f.last n fresh.not_last h)
    | inl c ↦ elim (Bool-cases (memory == null)) [
      | inl z ↦ subst IsLinked (sym (no_memory memory c z)) t.links
      | inr z ↦
          subst (λ r. IsLinked r.1) (sym (with_csv memory c z))
            (after_csv-csv_inserted-IsLinked memory z s n c)
    ]
  ]

  root-Grows :
      (memory : Ptr)
      → operation_valid (f.operations pushed) ≡ true
      → (f.root == null) ≡ true
      → Grows (tree_insert steps memory pushed f)
  unfolding tree_insert insert
  root-Grows memory v r =
      let g = (insert null pushed 0 f).1 in
      record {
        code = success;
        forest = record g { last = pushed };
        returns = ground arith;
        linked = relast g pushed (insert_root-IsLinked f pushed 0 t.links fresh.orphan);
      }

  -- In a tree, with memory for an empty csv that is null or in no operation's use, and with more steps than
  -- the measure of the last operation, inserting an operation that is not in the tree returns, whatever code, and
  -- leaves a tree where each operation is an argument of its parent, at one place, and of no other operation.
  pub tree_insert-Grows :
      (memory : Ptr) → IsSpare f pushed memory → Grows (tree_insert steps memory pushed f)
  unfolding tree_insert
  tree_insert-Grows memory s = elim (Bool-cases (operation_valid (f.operations pushed))) [
    | inr v ↦ record { code = einval; forest = f; returns = ground arith; linked = t.links }
    | inl v ↦ elim (Bool-cases (f.root == null)) [
      | inl r ↦ root-Grows memory v r
      | inr r ↦ elim (Bool-cases (f.last == null)) [
        | inl n ↦ record {
          code = enotrecoverable;
          forest = f;
          returns = ground arith;
          linked = t.links;
        }
        | inr n ↦ elim (Result-cases (precedence (f.operations pushed))) [
          | inr (inr e) ↦ absurd (precedence-ne-fault (f.operations pushed) e)
          | inr (inl (c, e)) ↦ record {
            code = c;
            forest = f;
            returns = ground arith;
            linked = t.links;
          }
          | inl (rank, e) ↦ elim (Result-cases (precedence (f.operations f.last))) [
            | inr (inr g) ↦ absurd (precedence-ne-fault (f.operations f.last) g)
            | inr (inl (c, g)) ↦ record {
              code = c;
              forest = f;
              returns = ground arith;
              linked = t.links;
            }
            | inl (last_rank, g) ↦
                elim (Bool-cases (leb rank last_rank && hungry (f.operations f.last))) [
                  | inl h ↦
                      let x = insert_below memory pushed f in
                      record {
                        code = x.0;
                        forest = x.1;
                        returns = ground arith;
                        linked = insert_below-IsLinked memory s n (ground arith);
                      }
                  | inr h ↦
                      let q : tree_insert steps memory pushed f ≡ place_above steps rank pushed f =
                        ground arith in
                      subst Grows (sym q)
                        (place_above-Grows depth f t pushed fresh steps enough rank r)
                ]
          ]
        ]
      ]
    ]
  ]
