-- ===== src/Registers/Counts.antt =====
-- How many listed registers have a status, and the invariant that ties the counters of
-- `Vltl_global_registers` to it.
use volatile.Base.{
  ℕ, ◌+◌, ◌≤◌, ◌≡◌, refl, Bool, true, false, List, [], ◌∷◌, ◌++◌, arith, ◌==◌, length, contains,
  IsDistinct, ==_iff, Code, success, Bool-cases, inl, inr, length-take,
}
use volatile.Registers.{
  RegisterStatus, reserved, other, Ptr, null, GlobalRegister, Machine, listed, current, is_unused,
  is_inuse, write, max_total,
}

abbrev pub is_reserved : RegisterStatus → Bool
is_reserved reserved = true
is_reserved _ = false

abbrev pub is_other : RegisterStatus → Bool
is_other other = true
is_other _ = false

abbrev pub to_ℕ : Bool → ℕ
to_ℕ true = 1
to_ℕ false = 0

-- How many registers of a list have a status that passes a test.
unfoldable pub tally : (RegisterStatus → Bool) → (Ptr → GlobalRegister) → List Ptr → ℕ
tally is objects [] = 0
tally is objects (p ∷ ps) = to_ℕ (is (objects p).status_current) + tally is objects ps

-- The listed registers are distinct, and each counter is the number of those with its status.
pub record IsValid (m : Machine) : Type 0 where
  pub width : length m.file.registers ≡ max_total
  pub room : m.file.num_total ≤ max_total
  pub distinct : IsDistinct (listed m)
  pub nonnull : contains (listed m) null ≡ false
  pub unused_counted : m.file.num_unused ≡ tally is_unused m.objects (listed m)
  pub reserved_counted : m.file.num_reserved ≡ tally is_reserved m.objects (listed m)
  pub inuse_counted : m.file.num_inuse ≡ tally is_inuse m.objects (listed m)
  pub none_other : tally is_other m.objects (listed m) ≡ 0

module _ (is : RegisterStatus → Bool) (objects : Ptr → GlobalRegister) where
  pub tally-append :
      (ps qs : List Ptr) → tally is objects (ps ++ qs) ≡ tally is objects ps + tally is objects qs
  unfolding tally
  tally-append [] qs = omega arith
  tally-append (p ∷ ps) qs = omega (arith, tally-append ps qs)

  -- A write to a register that a list does not hold leaves its tally.
  pub tally-write_absent :
      (p : Ptr) (st : RegisterStatus) (ps : List Ptr)
      → contains ps p ≡ false
      → tally is (write objects p st) ps ≡ tally is objects ps
  unfolding tally
  tally-write_absent p st [] h = refl
  tally-write_absent p st (q ∷ ps) h = ground (arith, tally-write_absent p st ps)

  -- A write to a register that a list holds once moves it from its old status to the new one.
  pub tally-write :
      (p : Ptr) (st : RegisterStatus) (ps : List Ptr)
      → IsDistinct ps
      → contains ps p ≡ true
      → tally is (write objects p st) ps + to_ℕ (is (objects p).status_current)
        ≡ tally is objects ps + to_ℕ (is st)
  unfolding tally
  tally-write p st [] d h = cc
  tally-write p st (q ∷ ps) d h = elim (Bool-cases (q == p)) [
    | inl e ↦ let e' = (==_iff q p).0 e in ground (arith, tally-write_absent p st ps)
    | inr e ↦ ground (arith, tally-write p st ps)
  ]

-- The four tallies make up the length.
pub tally_total :
    (objects : Ptr → GlobalRegister) (ps : List Ptr)
    → tally is_unused objects ps
        + tally is_reserved objects ps
        + tally is_inuse objects ps
        + tally is_other objects ps
      ≡ length ps
unfolding tally
tally_total objects [] = omega arith
tally_total objects (p ∷ ps) = ground (arith, tally_total objects ps)

pub length-listed : (m : Machine) → IsValid m → length (listed m) ≡ m.file.num_total
length-listed m v = omega (arith, length-take m.file.num_total m.file.registers)

-- An update of a listed register to a proper status succeeds, and writes that status alone.
pub record Updates (p : Ptr) (st : RegisterStatus) (m : Machine) (r : Code × Machine) : Type 0 where
  pub succeeds : r.0 ≡ success
  pub writes : r.1.objects ≡ write m.objects p st
  pub registers : r.1.file.registers ≡ m.file.registers
  pub num_total : r.1.file.num_total ≡ m.file.num_total
  pub unused_moved :
      r.1.file.num_unused + to_ℕ (is_unused (current m p)) ≡ m.file.num_unused + to_ℕ (is_unused st)
  pub valid : IsValid r.1
