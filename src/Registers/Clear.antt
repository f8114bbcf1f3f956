-- ===== src/Registers/Clear.antt =====
-- `vltl_global_registers_clear` gives every listed register its default status.
use volatile.Base.{
  ◌≡◌, refl, ◌∙◌, ap, true, false, List, [], ◌∷◌, arith, ◌==◌, if◌then◌else◌, contains, ==_iff,
  ==_refl, Code, success,
}
use volatile.Registers.{
  RegisterStatus, Ptr, GlobalRegister, Machine, listed, current, write, update, clear_from, clear,
  and_then,
}
use volatile.Registers.Counts.{is_other, IsValid}
use volatile.Registers.Update.{update-Updates}

-- Every register of `ps` is listed, and its default status is an enumerator.
abbrev pub Clearable : List Ptr → Machine → Type 0
Clearable ps m =
    (q : Ptr)
    → contains ps q ≡ true
    → (contains (listed m) q ≡ true) × (is_other (m.objects q).status_default ≡ false)

-- The registers of `ps` get their default status, and no other register changes.
pub record Clears (ps : List Ptr) (m : Machine) (r : Code × Machine) : Type 0 where
  pub succeeds : r.0 ≡ success
  pub valid : IsValid r.1
  pub list : listed r.1 ≡ listed m
  pub defaults : (q : Ptr) → (r.1.objects q).status_default ≡ (m.objects q).status_default
  pub statuses :
      (q : Ptr)
      → current r.1 q ≡ (if contains ps q then (m.objects q).status_default else current m q)

default-write :
    (objects : Ptr → GlobalRegister) (p : Ptr) (st : RegisterStatus) (q : Ptr)
    → (write objects p st q).status_default ≡ (objects q).status_default
default-write objects p st q = ground arith

status-write :
    (objects : Ptr → GlobalRegister) (p : Ptr) (st : RegisterStatus) (q : Ptr)
    → (write objects p st q).status_current ≡ (if q == p then st else (objects q).status_current)
status-write objects p st q = ground arith

clear_from-Clears :
    (ps : List Ptr) (m : Machine) → IsValid m → Clearable ps m → Clears ps m (clear_from ps m)
unfolding clear_from
clear_from-Clears [] m v c = record {
  succeeds = refl;
  valid = v;
  list = refl;
  defaults = λ q. refl;
  statuses = λ q. refl;
}
clear_from-Clears (p ∷ ps) m v c =
    let d = (m.objects p).status_default in
    let here = c p (ground (arith, ==_refl p)) in
    let u = update-Updates v p d here.0 here.1 in
    let m' = (update p d m).1 in
    let same : listed m' ≡ listed m = ground (arith, u) in
    let default' : (q : Ptr) → (m'.objects q).status_default ≡ (m.objects q).status_default =
      λ q. ap (λ o. (o q).status_default) u.writes ∙ default-write m.objects p d q in
    let status' : (q : Ptr) → current m' q ≡ (if q == p then d else current m q) =
      λ q. ap (λ o. (o q).status_current) u.writes ∙ status-write m.objects p d q in
    let rest =
      clear_from-Clears ps m' u.valid (λ q h. rw (same, default' q) (c q (ground arith))) in
    rw (u.succeeds, and_then)
      (record {
        succeeds = rest.succeeds;
        valid = rest.valid;
        list = rest.list ∙ same;
        defaults = λ q. rest.defaults q ∙ default' q;
        statuses =
            λ q. ground (arith, rest.statuses q, default' q, status' q, ==_iff p q, ==_iff q p);
      })

-- Clearing a valid register file whose listed registers have proper defaults succeeds: each listed
-- register gets its default status, no other register changes, the listed registers and all the
-- defaults stay, and the counters are right again.
pub clear-Clears :
    {m : Machine} → IsValid m → Clearable (listed m) m → Clears (listed m) m (clear m)
unfolding clear
clear-Clears {m} v c = clear_from-Clears (listed m) m v c
