-- ===== src/Tests/Trees.antt =====
-- A small tree: an addition, 1, of one operand so far, 2.
use volatile.Base.{
  ℕ, ◌≡◌, ◌++◌, ok, replicate, refl, true, [], ◌∷◌, ◌==◌, if◌then◌else◌, arith, ==_iff,
}
use volatile.Registers.{Ptr}
use volatile.Reshape.{is_csv, reshape_comma}
use volatile.Reshape.Comma.{values}
use volatile.Reshape.Flatten.{Flattens, reshape_comma-Flattens}
use volatile.Ast.{
  eval, add, mul, comma, csv, AstOperation, Forest, operation_valid, argc, leading, insert, adopt,
  kind_valid,
}
use volatile.Ast.Links.Places.{once}
use volatile.Ast.Links.{IsLinked, Inserts, insert-Inserts, Adopts, adopt-Adopts}
use volatile.Ast.Insert.{tree_insert}
use volatile.Ast.Insert.Linked.{IsTree, IsFresh, Grows}
use volatile.Ast.Insert.Csv.{IsSpare}
use volatile.Ast.Insert.Grow.{tree_insert-Grows}

abbrev plus : AstOperation
plus = record {
  kind = add;
  parent = 0;
  arguments = 2 ∷ 0 ∷ 0 ∷ 0 ∷ 0 ∷ 0 ∷ 0 ∷ 0 ∷ 0 ∷ [];
  typed = true;
}

abbrev operand : AstOperation
operand = record {
  kind = eval;
  parent = 1;
  arguments = 0 ∷ 0 ∷ 0 ∷ 0 ∷ 0 ∷ 0 ∷ 0 ∷ 0 ∷ 0 ∷ [];
  typed = true;
}

abbrev fresh_operand : AstOperation
fresh_operand = record operand { parent = 0 }

abbrev times : AstOperation
times = record fresh_operand { kind = mul }

abbrev memory : Ptr → AstOperation
memory p =
    if p == 1 then plus else if p == 2 then operand else if p == 4 then times else fresh_operand

abbrev tree : Forest
tree = record { operations = memory; root = 1; last = 2 }

tree-IsLinked : IsLinked tree
unfolding once
tree-IsLinked = record {
  held = λ q p nq n e.
      ground
        (arith, ==_iff q 1, ==_iff q 2, ==_iff q 4, ==_iff p 2, ==_iff 2 p, ==_iff 0 p, ==_iff p 0);
  single = λ q nq. ground (arith, ==_iff q 1, ==_iff q 2, ==_iff q 4);
  linked = λ p e. ground (arith, ==_iff p 1, ==_iff p 2);
  no_null_child = λ p e. ground (arith, ==_iff p 1, ==_iff p 2);
}

insert-Inserts_example : Inserts 1 3 tree (insert 1 3 (argc (tree.operations 1)) tree)
unfolding operation_valid kind_valid argc leading
insert-Inserts_example =
    insert-Inserts tree 1 3 tree-IsLinked refl refl refl refl refl refl (omega arith)

adopt-Adopts_example : Adopts 4 2 tree (adopt 4 2 tree)
unfolding operation_valid kind_valid argc leading
adopt-Adopts_example =
    adopt-Adopts tree 4 2 tree-IsLinked refl refl refl refl refl refl refl refl (omega arith)

abbrev depth : Ptr → ℕ
depth p = if p == 0 then 0 else if p == 2 then 2 else 1

tree-IsTree : IsTree depth tree
unfolding argc leading
tree-IsTree = record {
  links = tree-IsLinked;
  sinks = λ p n. ground (arith, ==_iff p 1, ==_iff p 2, ==_iff p 4);
  wide = λ p. ground arith;
  spare = λ p. ground arith;
  top = λ n. refl;
}

tree-IsFresh : IsFresh tree 4
tree-IsFresh = record {
  nonnull = refl;
  orphan = refl;
  childless = λ q. ground arith;
  not_root = refl;
  not_last = refl;
}

tree-IsSpare : IsSpare tree 4 5
tree-IsSpare = record {
  apart = refl;
  not_last = refl;
  childless = λ z q. ground arith;
  unheld = λ z q nq. ground arith;
}

tree_insert-Grows_example : Grows (tree_insert 3 5 4 tree)
tree_insert-Grows_example =
    tree_insert-Grows depth tree tree-IsTree 4 tree-IsFresh 3 (omega arith) 5 tree-IsSpare

-- The comma of the list 4, 5 and the value 3.
abbrev separated : Ptr → AstOperation
separated p =
    if p == 1
    then record { kind = comma; parent = 0; arguments = 2 ∷ 3 ∷ replicate 7 0; typed = true }
    else if p == 2
    then record { kind = csv; parent = 1; arguments = 4 ∷ 5 ∷ replicate 7 0; typed = true }
    else record { kind = eval; parent = 1; arguments = replicate 9 0; typed = true }

reshape_comma-Flattens_example :
    (h' : Ptr → AstOperation) × (reshape_comma 1 separated ≡ ok h')
    × Flattens 1 (values separated 2 ++ values separated 3) separated h'
unfolding is_csv
reshape_comma-Flattens_example =
    reshape_comma-Flattens 1 2 3 separated refl (λ e. omega (arith, e)) (λ e. omega (arith, e))
      (λ e. omega (arith, e)) (λ e. omega (arith, e)) refl refl (omega arith) (omega arith)
      (omega arith)

comma_values : values separated 2 ++ values separated 3 ≡ 4 ∷ 5 ∷ 3 ∷ []
unfolding is_csv
comma_values = refl
