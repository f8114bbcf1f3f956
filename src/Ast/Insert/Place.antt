-- ===== src/Ast/Insert/Place.antt =====
-- The operation that takes the new one, or that it displaces.
use mathlib.Core.Path.{subst}
use volatile.Base.{
  ℕ, ◌<◌, ◌≡◌, sym, true, false, ◌||◌, ◌==◌, if◌then◌else◌, einval, ok, Bool-cases, inl, inr, arith,
}
use volatile.Registers.{Ptr, null}
use volatile.Ast.{Forest, argc, expected_argc, adopt}
use volatile.Ast.Links.{IsLinked}
use volatile.Ast.Insert.{
  hungry, is_grouping_open, find_hungry, find_target, insert_last, displace, place_above,
}
use volatile.Ast.Insert.Walk.{
  Walked, failed, reached, find_hungry-Walked, find_target-Walked, find_hungry-hungry,
}
use volatile.Ast.Insert.Linked.{IsTree, IsFresh, Grows, adopt-IsLinked, insert_hungry-IsLinked}

module _ (depth : Ptr → ℕ) (f : Forest) (t : IsTree depth f) (pushed : Ptr)
    (fresh : IsFresh f pushed) (steps : ℕ) (enough : depth f.last < steps) where
  walk_target : (rank : ℕ) → Walked pushed (find_target steps rank f.operations f.last)
  walk_target rank =
      find_target-Walked depth f.operations t.sinks pushed fresh.nonnull fresh.childless steps rank
        f.last enough fresh.not_last

  walk_hungry : (rank : ℕ) → Walked pushed (find_hungry steps rank f.operations f.last)
  walk_hungry rank =
      find_hungry-Walked depth f.operations t.sinks pushed fresh.nonnull fresh.childless steps rank
        f.last enough fresh.not_last

  displaced :
      (target : Ptr)
      → (target == pushed) ≡ false
      → (f.root == null) ≡ false
      → hungry (f.operations pushed) ≡ true
      → IsLinked (adopt pushed (if target == null then f.root else target) f).1
  displaced target a r h = elim (Bool-cases (target == null)) [
    | inl e ↦ rw e (adopt-IsLinked depth f t pushed fresh f.root r fresh.not_root h)
    | inr e ↦ rw e (adopt-IsLinked depth f t pushed fresh target e a h)
  ]

  displace-Grows : (rank : ℕ) → (f.root == null) ≡ false → Grows (displace steps rank pushed f)
  unfolding displace
  displace-Grows rank r = elim (walk_target rank) [
    | failed e w ↦ record { code = e; forest = f; returns = ground arith; linked = t.links }
    | reached target w a ↦ elim (Bool-cases (hungry (f.operations pushed))) [
      | inr h ↦ record { code = einval; forest = f; returns = ground arith; linked = t.links }
      | inl h ↦
          let x = adopt pushed (if target == null then f.root else target) f in
          record {
            code = x.0;
            forest = x.1;
            returns = ground arith;
            linked = displaced target a r h;
          }
    ]
  ]

  below :
      (rank : ℕ)
      → ((argc (f.operations pushed) == expected_argc (f.operations pushed))
          || is_grouping_open (f.operations pushed).kind)
        ≡ false
      → place_above steps rank pushed f ≡ displace steps rank pushed f
  unfolding place_above
  below rank c = ground arith

  nowhere :
      (rank : ℕ)
      → ((argc (f.operations pushed) == expected_argc (f.operations pushed))
          || is_grouping_open (f.operations pushed).kind)
        ≡ true
      → (p : Ptr) → find_hungry steps rank f.operations f.last ≡ ok p
      → (p == null) ≡ true
      → place_above steps rank pushed f ≡ displace steps rank pushed f
  unfolding place_above
  nowhere rank c p w z = ground arith

  pub place_above-Grows :
      (rank : ℕ) → (f.root == null) ≡ false → Grows (place_above steps rank pushed f)
  unfolding place_above
  place_above-Grows rank r =
      let o = f.operations pushed in
      let d = displace-Grows rank r in
      elim (Bool-cases ((argc o == expected_argc o) || is_grouping_open o.kind)) [
        | inr c ↦ subst Grows (sym (below rank c)) d
        | inl c ↦ elim (walk_hungry rank) [
          | failed e w ↦ record { code = e; forest = f; returns = ground arith; linked = t.links }
          | reached p w a ↦ elim (Bool-cases (p == null)) [
            | inl z ↦ subst Grows (sym (nowhere rank c p w z)) d
            | inr z ↦
                let x = insert_last p pushed f in
                record {
                  code = x.0;
                  forest = x.1;
                  returns = ground arith;
                  linked =
                      insert_hungry-IsLinked depth f t pushed fresh p z a
                        (find_hungry-hungry steps rank f.operations f.last p w z);
                }
          ]
        ]
      ]
