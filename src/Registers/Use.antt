-- ===== src/Registers/Use.antt =====
-- `vltl_global_registers_use`, `_reserve` and `_inuse`: which register a client gets, and when.
use volatile.Base.{
  ◌+◌, ◌<◌, ◌≡◌, refl, true, false, Option, none, some, List, [], ◌∷◌, arith, contains, Code,
  einval, exfull, Bool-cases, inl, inr, Option-cases, ==_refl,
}
use volatile.Registers.{
  RegisterStatus, unused, reserved, inuse, Ptr, GlobalRegister, Machine, listed, current, is_unused,
  is_inuse, first_unused, use_any, claim, reserve, mark_inuse,
}
use volatile.Registers.Counts.{is_other, tally, IsValid, Updates}
use volatile.Registers.Update.{update-Updates, p_nonnull}

-- `first_unused` finds a register exactly when the tally of unused ones is not zero.
first_unused-none :
    (objects : Ptr → GlobalRegister) (ps : List Ptr)
    → first_unused objects ps ≡ none
    → tally is_unused objects ps ≡ 0
unfolding first_unused tally
first_unused-none objects [] h = refl
first_unused-none objects (p ∷ ps) h = ground (arith, first_unused-none objects ps)

first_unused-some :
    (objects : Ptr → GlobalRegister) (ps : List Ptr) {p : Ptr}
    → first_unused objects ps ≡ some p
    → (contains ps p ≡ true)
      × ((objects p).status_current ≡ unused)
      × (0 < tally is_unused objects ps)
unfolding first_unused tally
first_unused-some objects [] h = cc
first_unused-some objects (q ∷ ps) {p} h =
    ground (arith, first_unused-some objects ps {p = p}, ==_refl p)

-- What a call of `vltl_global_registers_use` does: it fails and changes nothing when no register is
-- unused, and else hands out a listed register that was unused and is in use afterwards.
pub data Used (m : Machine) (r : Code × Option Ptr × Machine) : Type 0 where
  full : m.file.num_unused ≡ 0 → r ≡ (exfull, none, m) → Used m r
  got :
      (p : Ptr)
      → r.1 ≡ some p
      → contains (listed m) p ≡ true
      → current m p ≡ unused
      → Updates p inuse m (r.0, r.2)
      → r.2.file.num_unused + 1 ≡ m.file.num_unused
      → Used m r

-- On a valid register file, asking for a register fails with EXFULL and changes nothing when none is
-- unused; else it hands out a listed register that was unused, whose status alone changes, to in
-- use, and the file stays valid with one fewer unused.
pub use_any-Used : {m : Machine} → IsValid m → Used m (use_any m)
unfolding use_any
use_any-Used {m} v = elim (Option-cases (first_unused m.objects (listed m))) [
  | inl e ↦
      full (omega (arith, v.unused_counted, first_unused-none m.objects (listed m) e))
        (rw (e, use_any))
  | inr (p, e) ↦
      let (held, free, _) = first_unused-some m.objects (listed m) e in
      let u = update-Updates v p inuse held refl in
      got p (rw (e, use_any)) held free (rw (e, use_any) u)
        (rw (e, use_any) (ground (arith, u.unused_moved)))
]

-- The results of `vltl_global_registers_reserve` and `vltl_global_registers_inuse` on every branch.
pub data Claimed (p : Ptr) (st : RegisterStatus) (m : Machine) (r : Code × Machine) : Type 0 where
  unlisted : contains (listed m) p ≡ false → r ≡ (einval, m) → Claimed p st m r
  taken : contains (listed m) p ≡ true → current m p ≡ inuse → r ≡ (exfull, m) → Claimed p st m r
  moved :
      contains (listed m) p ≡ true
      → is_inuse (current m p) ≡ false
      → Updates p st m r
      → Claimed p st m r

is_inuse→inuse : (st : RegisterStatus) → is_inuse st ≡ true → st ≡ inuse
is_inuse→inuse st h = ground arith

claim-Claimed :
    {m : Machine}
    → IsValid m
    → (p : Ptr) (st : RegisterStatus) → is_other st ≡ false
    → Claimed p st m (claim st p m)
unfolding claim
claim-Claimed {m} v p st proper = elim (Bool-cases (contains (listed m) p)) [
  | inr e ↦ unlisted e (rw (e, claim) (ground arith))
  | inl e ↦ elim (Bool-cases (is_inuse (current m p))) [
    | inl b ↦ taken e (is_inuse→inuse (current m p) b) (ground (arith, p_nonnull v p st e proper))
    | inr b ↦
        let u = update-Updates v p st e proper in
        let n = p_nonnull v p st e proper in moved e b (rw (n, e, b, claim) u)
  ]
]

-- On a valid register file, reserving a register fails when it is not in the file or in use, and
-- changes nothing then; a register that is listed and not in use becomes reserved, no other register
-- changes, and the file stays valid.
pub reserve-Claimed : {m : Machine} → IsValid m → (p : Ptr) → Claimed p reserved m (reserve p m)
unfolding reserve
reserve-Claimed v p = claim-Claimed v p reserved refl

-- On a valid register file, putting a register in use fails when it is not in the file or in use
-- already, and changes nothing then; a register that is listed and not in use becomes in use, no
-- other register changes, and the file stays valid.
pub mark_inuse-Claimed : {m : Machine} → IsValid m → (p : Ptr) → Claimed p inuse m (mark_inuse p m)
unfolding mark_inuse
mark_inuse-Claimed v p = claim-Claimed v p inuse refl
