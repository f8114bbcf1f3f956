-- ===== src/Registers/Session.antt =====
-- Sequences of calls on a register file.
use volatile.Base.{
  ℕ, zero, suc, ◌+◌, ◌≤◌, ◌<◌, ◌≡◌, refl, ◌∙◌, ap, Bool, true, false, ◌||◌, Option, none, some,
  List, [], ◌∷◌, arith, ◌==◌, if◌then◌else◌, contains, Code,
}
use volatile.Registers.{
  RegisterStatus, unused, inuse, Ptr, Machine, listed, current, use_any, reserve, mark_inuse, clear,
}
use volatile.Registers.Counts.{IsValid, Updates}
use volatile.Registers.Use.{
  Used, full, got, use_any-Used, Claimed, unlisted, taken, moved, reserve-Claimed,
  mark_inuse-Claimed,
}
use volatile.Registers.Clear.{Clearable, clear-Clears}

-- The calls that a client makes after the initialisation.
pub data Call : Type 0 where
  use_one : Call
  reserve_one : Ptr → Call
  inuse_one : Ptr → Call
  clear_all : Call

unfoldable pub perform : Call → Machine → Machine
perform use_one m = (use_any m).2
perform (reserve_one p) m = (reserve p m).1
perform (inuse_one p) m = (mark_inuse p m).1
perform clear_all m = (clear m).1

unfoldable pub run : List Call → Machine → Machine
unfolding perform
run [] m = m
run (c ∷ cs) m = run cs (perform c m)

-- What a call leaves: a valid file of the same registers with the same defaults.
pub record Keeps (m m' : Machine) : Type 0 where
  pub valid : IsValid m'
  pub list : listed m' ≡ listed m
  pub defaults : (q : Ptr) → (m'.objects q).status_default ≡ (m.objects q).status_default

Keeps-refl : {m : Machine} → IsValid m → Keeps m m
Keeps-refl v = record { valid = v; list = refl; defaults = λ q. refl }

Updates-Keeps :
    {p : Ptr} {st : RegisterStatus} {m : Machine} {r : Code × Machine}
    → Updates p st m r
    → Keeps m r.1
Updates-Keeps {p} {st} {m} {r} u = record {
  valid = u.valid;
  list = ground (arith, u);
  defaults = λ q. ap (λ o. (o q).status_default) u.writes ∙ ground arith;
}

Used-Keeps : {m : Machine} {r : Code × Option Ptr × Machine} → IsValid m → Used m r → Keeps m r.2
Used-Keeps v (full _ e) = rw e (Keeps-refl v)
Used-Keeps v (got p _ _ _ u _) = Updates-Keeps u

Claimed-Keeps :
    {p : Ptr} {st : RegisterStatus} {m : Machine} {r : Code × Machine}
    → IsValid m
    → Claimed p st m r
    → Keeps m r.1
Claimed-Keeps v (unlisted _ e) = rw e (Keeps-refl v)
Claimed-Keeps v (taken _ _ e) = rw e (Keeps-refl v)
Claimed-Keeps v (moved _ _ u) = Updates-Keeps u

perform-Keeps :
    (c : Call) {m : Machine} → IsValid m → Clearable (listed m) m → Keeps m (perform c m)
unfolding perform
perform-Keeps use_one v d = Used-Keeps v (use_any-Used v)
perform-Keeps (reserve_one p) v d = Claimed-Keeps v (reserve-Claimed v p)
perform-Keeps (inuse_one p) v d = Claimed-Keeps v (mark_inuse-Claimed v p)
perform-Keeps clear_all v d =
    let c = clear-Clears v d in record { valid = c.valid; list = c.list; defaults = c.defaults }

Clearable-Keeps : {m m' : Machine} → Keeps m m' → Clearable (listed m) m → Clearable (listed m') m'
Clearable-Keeps k d q h = let e = d q (rw k.list at h) in (h, rw (k.defaults q) e.1)

-- Any sequence of use, reserve, in-use and clear calls on a valid register file with proper defaults
-- leaves a valid one, with the same registers in the same order and the same defaults.
pub run-Keeps :
    (cs : List Call) {m : Machine} → IsValid m → Clearable (listed m) m → Keeps m (run cs m)
unfolding run
run-Keeps [] v d = Keeps-refl v
run-Keeps (c ∷ cs) {m} v d =
    let k = perform-Keeps c v d in
    let r = run-Keeps cs k.valid (Clearable-Keeps k d) in
    record { valid = r.valid; list = r.list ∙ k.list; defaults = λ q. r.defaults q ∙ k.defaults q }

-- `n` calls of `vltl_global_registers_use`, with the registers that they hand out.
unfoldable pub draw : ℕ → Machine → List (Option Ptr) × Machine
draw zero m = ([], m)
draw (suc n) m = let (_, p, m') = use_any m in let (ps, last) = draw n m' in (p ∷ ps, last)

-- Every entry is a register of the file that is unused in `m`, and none occurs twice.
abbrev pub AreFresh : Machine → List (Option Ptr) → Type 0
AreFresh m [] = Unit
AreFresh m (none ∷ ps) = ⊥
AreFresh m (some p ∷ ps) = (contains (listed m) p ≡ true) × (current m p ≡ unused) × AreFresh m ps

abbrev pub holds : List (Option Ptr) → Ptr → Bool
holds [] q = false
holds (none ∷ ps) q = holds ps q
holds (some p ∷ ps) q = p == q || holds ps q

abbrev pub AreDistinct : List (Option Ptr) → Type 0
AreDistinct [] = Unit
AreDistinct (none ∷ ps) = AreDistinct ps
AreDistinct (some p ∷ ps) = (holds ps p ≡ false) × AreDistinct ps

module _ {p : Ptr} {m : Machine} {r : Code × Machine} (u : Updates p inuse m r) where
  status-after : (q : Ptr) → current r.1 q ≡ (if q == p then inuse else current m q)
  status-after q = ap (λ o. (o q).status_current) u.writes ∙ ground arith

  -- What is unused after `p` has been handed out was unused before, and is not `p`.
  fresh-before : (ps : List (Option Ptr)) → AreFresh r.1 ps → AreFresh m ps × (holds ps p ≡ false)
  fresh-before [] f = (tt, refl)
  fresh-before (none ∷ ps) f = absurd f
  fresh-before (some q ∷ ps) f =
      let same : listed r.1 ≡ listed m = ground (arith, u) in
      ground (arith, same, status-after q, fresh-before ps, ap (λ l. contains l q) same)

-- `n` calls while at least `n` registers are unused.
pub record Draws (n : ℕ) (m : Machine) (r : List (Option Ptr) × Machine) : Type 0 where
  pub fresh : AreFresh m r.0
  pub distinct : AreDistinct r.0
  pub fewer : r.1.file.num_unused + n ≡ m.file.num_unused
  pub valid : IsValid r.1

draw-step :
    (n : ℕ) {m : Machine} {r : Code × Option Ptr × Machine}
    → n < m.file.num_unused
    → Used m r
    → (n ≤ r.2.file.num_unused → Draws n r.2 (draw n r.2))
    → let (ps, last) = draw n r.2 in Draws (suc n) m (r.1 ∷ ps, last)
draw-step n h (full e _) ih = absurd (omega arith)
draw-step n {m} {r} h (got p given held free u fewer) ih =
    let d = ih (omega arith) in
    let (fresh, apart) = fresh-before u (draw n r.2).0 d.fresh in
    rw given (record {
      fresh = (held, free, fresh);
      distinct = (apart, d.distinct);
      fewer = omega (arith, d.fewer);
      valid = d.valid;
    })

Used-IsValid : {m : Machine} {r : Code × Option Ptr × Machine} → IsValid m → Used m r → IsValid r.2
Used-IsValid v w = (Used-Keeps v w).valid

-- While at least as many registers of a valid file are unused, calls of `vltl_global_registers_use` hand out as many distinct
-- registers, each listed and unused before, and leave that many fewer unused.
pub draw-Draws : (n : ℕ) {m : Machine} → IsValid m → n ≤ m.file.num_unused → Draws n m (draw n m)
unfolding draw
draw-Draws zero v h = record { fresh = tt; distinct = tt; fewer = omega arith; valid = v }
draw-Draws (suc n) {m} v h =
    let w = use_any-Used v in draw-step n h w (draw-Draws n (Used-IsValid v w))
