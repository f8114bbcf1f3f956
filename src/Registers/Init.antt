-- ===== src/Registers/Init.antt =====
-- `vltl_global_registers_init_amd64`: the file it builds, and the code it returns.
use volatile.Base.{
  ℕ, ◌+◌, ◌≤◌, ◌≡◌, refl, ◌∙◌, ap, Bool, true, false, ◌||◌, List, [], ◌∷◌, ◌++◌, arith, ◌==◌,
  if◌then◌else◌, contains, IsDistinct, length, enotrecoverable, ==_iff, ==_refl, append_assoc,
  append-nil, contains-append, length-append,
}
use volatile.Registers.{
  RegisterStatus, unused, inuse, Ptr, null, GlobalRegister, Machine, listed, current, rbp, rsp,
  insert, insert_all, reset, clear, amd64_order, init_amd64, max_total, is_unused, is_inuse,
}
use volatile.Registers.Counts.{to_ℕ, is_other, is_reserved, tally, IsValid, length-listed}
use volatile.Registers.Update.{insert-IsValid}
use volatile.Registers.Clear.{Clears, clear-Clears}

-- Registers that can be appended: distinct, not null, not listed yet, with a proper status.
record Fresh (ps : List Ptr) (m : Machine) : Type 0 where
  distinct : IsDistinct ps
  nonnull : contains ps null ≡ false
  apart : (q : Ptr) → contains ps q ≡ true → contains (listed m) q ≡ false
  proper : (q : Ptr) → contains ps q ≡ true → is_other (current m q) ≡ false

record Inserted (ps : List Ptr) (m m' : Machine) : Type 0 where
  valid : IsValid m'
  list : listed m' ≡ listed m ++ ps
  objects : m'.objects ≡ m.objects

insert_all-Inserted :
    (ps : List Ptr) (m : Machine)
    → IsValid m
    → m.file.num_total + length ps ≤ max_total
    → Fresh ps m
    → Inserted ps m (insert_all ps m)
unfolding insert_all
insert_all-Inserted [] m v room f = record { valid = v; list = rw append-nil; objects = refl }
insert_all-Inserted (p ∷ ps) m v room f =
    let (_, list, objects, v') =
      insert-IsValid p v (omega arith) (λ e. ground (arith, f.nonnull))
        (f.apart p (ground (arith, ==_refl p))) (f.proper p (ground (arith, ==_refl p))) in
    let m' = (insert p m).1 in
    let total : m'.file.num_total + length ps ≤ max_total = omega (
      arith,
      length-listed m' v',
      length-listed m v,
      ap length list,
      length-append (listed m) (p ∷ []),
    ) in
    let rest = insert_all-Inserted ps m' v' total (record {
      distinct = f.distinct.1;
      nonnull = ground (arith, f.nonnull);
      apart =
          λ q h. rw (list, contains-append) (ground (arith, f.apart q, ==_iff p q, f.distinct.0));
      proper = λ q h. ap (λ o. is_other (o q).status_current) objects ∙ f.proper q (ground arith);
    }) in
    record {
      valid = rest.valid;
      list = rest.list ∙ rw list (append_assoc (listed m) (p ∷ []) ps);
      objects = rest.objects ∙ objects;
    }

-- The tally of a list whose statuses are those of a function.
tally_of : (RegisterStatus → Bool) → (Ptr → RegisterStatus) → List Ptr → ℕ
tally_of is f [] = 0
tally_of is f (p ∷ ps) = to_ℕ (is (f p)) + tally_of is f ps

tally-eq-tally_of :
    (is : RegisterStatus → Bool) (objects : Ptr → GlobalRegister) (f : Ptr → RegisterStatus)
    (ps : List Ptr)
    → ((q : Ptr) → contains ps q ≡ true → (objects q).status_current ≡ f q)
    → tally is objects ps ≡ tally_of is f ps
unfolding tally tally_of
tally-eq-tally_of is objects f [] h = refl
tally-eq-tally_of is objects f (p ∷ ps) h =
    rw (h p (ground (arith, ==_refl p))) (
      ap (λ n. to_ℕ (is (f p)) + n) (tally-eq-tally_of is objects f ps (λ q e. h q (ground arith))))

-- The defaults that the file's globals declare.
abbrev pub declared_default : Ptr → RegisterStatus
declared_default q = if q == rbp || q == rsp then inuse else unused

-- The amd64 registers have their declared defaults, and proper statuses.
abbrev pub IsDeclared : Machine → Type 0
IsDeclared m =
    (q : Ptr)
    → contains amd64_order q ≡ true
    → ((m.objects q).status_default ≡ declared_default q) × (is_other (current m q) ≡ false)

reset-IsValid : (m : Machine) → IsValid (reset m)
unfolding reset tally
reset-IsValid m = record {
  width = refl;
  room = omega arith;
  distinct = tt;
  nonnull = refl;
  unused_counted = refl;
  reserved_counted = refl;
  inuse_counted = refl;
  none_other = refl;
}

module _ (m : Machine) (d : IsDeclared m) where
  filled : Machine
  filled = insert_all amd64_order (reset m)

  filled-Inserted : Inserted amd64_order (reset m) filled
  unfolding filled reset
  filled-Inserted =
      insert_all-Inserted amd64_order (reset m) (reset-IsValid m) (omega arith) (record {
        distinct = ground arith;
        nonnull = refl;
        apart = λ q h. refl;
        proper = λ q h. (d q h).1;
      })

  filled_list : listed filled ≡ amd64_order
  unfolding reset
  filled_list = filled-Inserted.list

  filled_default :
      (q : Ptr)
      → contains amd64_order q ≡ true
      → (filled.objects q).status_default ≡ declared_default q
  unfolding reset
  filled_default q h = ap (λ o. (o q).status_default) filled-Inserted.objects ∙ (d q h).0

  cleared : Clears (listed filled) filled (clear filled)
  cleared =
      clear-Clears filled-Inserted.valid
        λ q h. (h, rw (filled_default q (rw filled_list at h)) (ground arith))

  cleared_list : listed (clear filled).1 ≡ amd64_order
  cleared_list = cleared.list ∙ filled_list

  cleared_status :
      (q : Ptr) → contains amd64_order q ≡ true → current (clear filled).1 q ≡ declared_default q
  cleared_status q h =
      ground (arith, cleared.statuses q, ap (λ l. contains l q) filled_list, filled_default q h)

  cleared_tally :
      (is : RegisterStatus → Bool)
      → tally is (clear filled).1.objects (listed (clear filled).1)
        ≡ tally_of is declared_default amd64_order
  cleared_tally is =
      rw cleared_list
        (tally-eq-tally_of is (clear filled).1.objects declared_default amd64_order cleared_status)

  counted_unused : (clear filled).1.file.num_unused ≡ 14
  unfolding tally_of
  counted_unused = cleared.valid.unused_counted ∙ cleared_tally is_unused

  counted_reserved : (clear filled).1.file.num_reserved ≡ 0
  unfolding tally_of
  counted_reserved = cleared.valid.reserved_counted ∙ cleared_tally is_reserved

  counted_inuse : (clear filled).1.file.num_inuse ≡ 2
  unfolding tally_of
  counted_inuse = cleared.valid.inuse_counted ∙ cleared_tally is_inuse

  -- The code that the counters lead to: that of the failed comparison.
  code-init_amd64 : (init_amd64 m).0 ≡ enotrecoverable
  unfolding init_amd64 filled
  code-init_amd64 = ground (arith, counted_unused)

  machine-init_amd64 : (init_amd64 m).1 ≡ (clear filled).1
  unfolding init_amd64 filled
  machine-init_amd64 = ground arith

  default-init_amd64 :
      (q : Ptr) → ((init_amd64 m).1.objects q).status_default ≡ (m.objects q).status_default
  unfolding filled reset
  default-init_amd64 q =
      ap (λ a. (a.objects q).status_default) machine-init_amd64
      ∙ cleared.defaults q
      ∙ ap (λ o. (o q).status_default) filled-Inserted.objects

  -- From register objects with their declared defaults and proper statuses, the initialisation of the amd64
  -- register file builds a valid file of the 16 registers in the order of the insertions, each with
  -- its declared default status and no default changed, 14 of them unused, none reserved and 2 in use; it returns
  -- ENOTRECOVERABLE all the same, since it compares these counters with 12, 2 and 2.
  pub init_amd64_lem :
      let (code, m') = init_amd64 m in
      (code ≡ enotrecoverable)
      × IsValid m'
      × (listed m' ≡ amd64_order)
      × ((q : Ptr) → contains amd64_order q ≡ true → current m' q ≡ declared_default q)
      × ((q : Ptr) → (m'.objects q).status_default ≡ (m.objects q).status_default)
      × (m'.file.num_unused ≡ 14)
      × (m'.file.num_reserved ≡ 0)
      × (m'.file.num_inuse ≡ 2)
  init_amd64_lem = (
    code-init_amd64,
    rw machine-init_amd64 cleared.valid,
    rw machine-init_amd64 cleared_list,
    λ q h. ap (λ a. current a q) machine-init_amd64 ∙ cleared_status q h,
    default-init_amd64,
    rw machine-init_amd64 counted_unused,
    rw machine-init_amd64 counted_reserved,
    rw machine-init_amd64 counted_inuse,
  )
