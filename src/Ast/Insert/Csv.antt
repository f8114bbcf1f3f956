-- ===== src/Ast/Insert/Csv.antt =====
-- `()`: the empty csv that comes between the brackets.
use volatile.Base.{
  ◌<◌, ◌≡◌, Bool, false, ◌&&◌, List, [], ◌∷◌, ◌==◌, set, get_or, length, contains, Code, success,
  arith, ==_iff, ==_refl,
}
use volatile.Registers.{Ptr, null}
use volatile.Ast.{Forest, leading, argc, store, insert}
use volatile.Ast.Links.{IsLinked}
use volatile.Ast.Links.Places.{once}
use volatile.Ast.Insert.{is_grouping_open, is_grouping_close, insert_last, empty_csv}

-- Memory that the allocator gives is null or an operation that is not in the tree, apart from the new one.
pub record IsSpare (f : Forest) (pushed memory : Ptr) : Type 0 where
  pub apart : (memory == pushed) ≡ false
  pub not_last : (memory == f.last) ≡ false
  pub childless : (memory == null) ≡ false → (q : Ptr) → ((f.operations q).parent == memory) ≡ false
  pub unheld :
      (memory == null) ≡ false
      → (q : Ptr) → (q == null) ≡ false
      → contains (f.operations q).arguments memory ≡ false

-- The test for `()`.
unfoldable pub due : Forest → Ptr → Bool
due f pushed =
    is_grouping_open (f.operations f.last).kind
    && (argc (f.operations f.last) == 0)
    && is_grouping_close (f.operations pushed).kind

-- The tree with an empty csv in memory, and with that below the last operation.
unfoldable pub csv_forest : Forest → Ptr → Forest
csv_forest f memory = record f { operations = store f.operations memory empty_csv }

unfoldable pub csv_inserted : Forest → Ptr → Code × Forest
csv_inserted f memory = insert f.last memory (argc (f.operations f.last)) (csv_forest f memory)

unfoldable pub after_csv : Ptr → Ptr → Code × Forest → Code × Forest
after_csv last pushed r = elim r.0 [ success ↦ insert_last last pushed r.1 | _ ↦ r ]

pub after_csv-IsLinked :
    (last pushed : Ptr) (c : Code) (g : Forest)
    → IsLinked g
    → IsLinked (insert_last last pushed g).1
    → IsLinked (after_csv last pushed (c, g)).1
unfolding after_csv
after_csv-IsLinked last pushed success g l m = m
after_csv-IsLinked last pushed _ g l m = l

leading-set :
    (ps : List Ptr) (v : Ptr)
    → leading ps ≡ 0
    → get_or ps 1 null ≡ null
    → length ps ≡ 9
    → leading (set ps 0 v) < length (set ps 0 v)
unfolding leading
leading-set [] v e g l = absurd (omega arith)
leading-set (p ∷ []) v e g l = absurd (omega arith)
leading-set (p ∷ q ∷ ps) v e g l = ground arith

module _ (f : Forest) (memory : Ptr) (pushed : Ptr) (s : IsSpare f pushed memory)
    (z : (memory == null) ≡ false) where
  pub csv_forest-IsLinked : IsLinked f → IsLinked (csv_forest f memory)
  unfolding csv_forest once
  csv_forest-IsLinked l = record {
    linked = λ p e. ground (
      arith,
      l.linked p,
      s.childless z p,
      ==_iff p memory,
      ==_iff (f.operations p).parent memory,
    );
    no_null_child = λ p e. ground (arith, l.no_null_child p, ==_iff p memory);
    held = λ q p nq n e. ground (
      arith,
      l.held q p nq n,
      s.unheld z q nq,
      n,
      ==_iff p memory,
      ==_iff q memory,
      ==_iff null p,
      ==_iff p null,
    );
    single = λ q nq. ground (arith, l.single q nq, ==_iff q memory);
  }

  pub csv_forest-top : ((csv_forest f memory).operations memory).parent ≡ null
  unfolding csv_forest
  csv_forest-top = ground (arith, ==_refl memory)

  pub csv_inserted-top :
      (f.operations pushed).parent ≡ null
      → ((csv_inserted f memory).1.operations pushed).parent ≡ null
  unfolding csv_inserted csv_forest insert
  csv_inserted-top o = ground (
    arith,
    s.apart,
    o,
    ==_iff pushed memory,
    ==_refl memory,
    ==_iff pushed f.last,
    ==_iff f.last memory,
  )

  csv-apart : (f.last == memory) ≡ false
  csv-apart = ground (arith, s.not_last)

  pub csv-argc : argc ((csv_forest f memory).operations f.last) ≡ argc (f.operations f.last)
  unfolding csv_forest
  csv-argc = ground (arith, csv-apart)

  pub csv_first-room :
      argc (f.operations f.last) ≡ 0
      → length (f.operations f.last).arguments ≡ 9
      → argc ((csv_forest f memory).operations f.last)
        < length ((csv_forest f memory).operations f.last).arguments
  unfolding csv_forest
  csv_first-room e l = ground (arith, csv-apart)

  pub csv-room :
      argc (f.operations f.last) ≡ 0
      → get_or (f.operations f.last).arguments 1 null ≡ null
      → length (f.operations f.last).arguments ≡ 9
      → argc ((csv_inserted f memory).1.operations f.last)
        < length ((csv_inserted f memory).1.operations f.last).arguments
  unfolding csv_inserted csv_forest insert argc
  csv-room e g l = ground (
    arith,
    csv-apart,
    s.not_last,
    ==_refl f.last,
    leading-set (f.operations f.last).arguments memory e g l,
  )
