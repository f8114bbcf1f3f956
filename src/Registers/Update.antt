-- ===== src/Registers/Update.antt =====
-- `vltl_global_registers_insert` and `vltl_global_registers_update` keep the counters right.
use volatile.Base.{
  ◌+◌, ◌≤◌, ◌<◌, ◌≡◌, true, false, [], ◌∷◌, ◌++◌, arith, ◌==◌, contains, length-set, take-set,
  ==_iff, IsDistinct-concat, success, Bool-cases, inl, inr, contains-append, ◌≢◌,
}
use volatile.Registers.{
  RegisterStatus, Ptr, null, Machine, listed, current, is_unused, is_inuse, write, count_in,
  count_out, insert, update, max_total,
}
use volatile.Registers.Counts.{
  is_reserved, is_other, to_ℕ, tally, IsValid, tally-append, tally-write, tally_total,
  length-listed, Updates,
}

module _ {m : Machine} (v : IsValid m) (p : Ptr) (st : RegisterStatus)
    (held : contains (listed m) p ≡ true) (proper : is_other st ≡ false) where
  -- What the update does to each counter, in one place.
  counters :
      (tally is_unused (write m.objects p st) (listed m) + to_ℕ (is_unused (current m p))
        ≡ m.file.num_unused + to_ℕ (is_unused st))
      × (tally is_reserved (write m.objects p st) (listed m) + to_ℕ (is_reserved (current m p))
          ≡ m.file.num_reserved + to_ℕ (is_reserved st))
      × (tally is_inuse (write m.objects p st) (listed m) + to_ℕ (is_inuse (current m p))
          ≡ m.file.num_inuse + to_ℕ (is_inuse st))
      × (tally is_other (write m.objects p st) (listed m) + to_ℕ (is_other (current m p))
          ≡ 0 + to_ℕ (is_other st))
  counters = omega (
    arith,
    tally-write is_unused m.objects p st (listed m) v.distinct held,
    tally-write is_reserved m.objects p st (listed m) v.distinct held,
    tally-write is_inuse m.objects p st (listed m) v.distinct held,
    tally-write is_other m.objects p st (listed m) v.distinct held,
  )

  bounded : m.file.num_unused + m.file.num_reserved + m.file.num_inuse ≤ 128
  bounded = omega (arith, tally_total m.objects (listed m), length-listed m v)

  pub p_nonnull : (p == null) ≡ false
  p_nonnull = elim (Bool-cases (p == null)) [
    | inr e ↦ e
    | inl e ↦ let e' = (==_iff p null).0 e in ground (arith, v.nonnull)
  ]

  -- On a valid register file, the update of a listed register to a status that is an enumerator succeeds,
  -- writes that status alone, moves the register from one counter to the other, and leaves the file
  -- valid.
  pub update-Updates : Updates p st m (update p st m)
  unfolding update count_in count_out
  update-Updates = ground (arith, counters, bounded, p_nonnull)

-- On a valid register file whose array has room, inserting a register that is not NULL, not listed and of
-- a proper status succeeds, appends it to the list, changes no register and leaves the file valid.
pub insert-IsValid :
    {m : Machine} (p : Ptr)
    → IsValid m
    → m.file.num_total < max_total
    → p ≢ null
    → contains (listed m) p ≡ false
    → is_other (current m p) ≡ false
    → ((insert p m).0 ≡ success)
      × (listed (insert p m).1 ≡ listed m ++ (p ∷ []))
      × ((insert p m).1.objects ≡ m.objects)
      × IsValid (insert p m).1
unfolding insert count_in tally
insert-IsValid {m} p v space nonnull fresh proper = ground (
  arith,
  length-set m.file.registers m.file.num_total p,
  take-set m.file.num_total m.file.registers p,
  IsDistinct-concat (listed m) p,
  contains-append (listed m) (p ∷ []) null,
  tally-append is_unused m.objects (listed m) (p ∷ []),
  tally-append is_reserved m.objects (listed m) (p ∷ []),
  tally-append is_inuse m.objects (listed m) (p ∷ []),
  tally-append is_other m.objects (listed m) (p ∷ []),
  tally_total m.objects (listed m),
  length-listed m v,
)
