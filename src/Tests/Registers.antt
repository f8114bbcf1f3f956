-- ===== src/Tests/Registers.antt =====
-- The register file after its initialisation.
use volatile.Base.{
  ◌≡◌, refl, ap, ◌∙◌, true, false, some, [], ◌∷◌, replicate, arith, contains, enotrecoverable,
}
use volatile.Registers.{
  RegisterStatus, unused, inuse, reserved, Ptr, Machine, GlobalRegister, listed, current, rax, rcx,
  rdx, rbx, rbp, r11, insert, update, use_any, reserve, mark_inuse, clear, init_amd64, reset,
  amd64_order,
}
use volatile.Registers.Counts.{is_other, IsValid, tally}
use volatile.Registers.Clear.{Clearable}
use volatile.Registers.Init.{declared_default, IsDeclared, init_amd64_lem}
use volatile.Registers.Session.{
  use_one, reserve_one, inuse_one, clear_all, run, Keeps, run-Keeps, draw, Draws, draw-Draws,
}

abbrev boot_objects : Ptr → GlobalRegister
boot_objects p = record {
  status_current = declared_default p;
  status_default = declared_default p;
  as_amd64 = p;
}

-- The program before `vltl_global_registers_init_amd64`.
abbrev boot : Machine
boot = record {
  objects = boot_objects;
  file = record {
    registers = replicate 128 0;
    num_total = 0;
    num_unused = 0;
    num_reserved = 0;
    num_inuse = 0;
  };
}

boot-IsDeclared : IsDeclared boot
boot-IsDeclared q h = (refl, ground arith)

abbrev ready : Machine
ready = (init_amd64 boot).1

ready-IsValid : IsValid ready
ready-IsValid = (init_amd64_lem boot boot-IsDeclared).1

ready-listed : listed ready ≡ amd64_order
ready-listed = (init_amd64_lem boot boot-IsDeclared).2

ready_unused : ready.file.num_unused ≡ 14
ready_unused = (init_amd64_lem boot boot-IsDeclared).5

ready_status : (q : Ptr) → contains amd64_order q ≡ true → current ready q ≡ declared_default q
ready_status = (init_amd64_lem boot boot-IsDeclared).3

ready_default : (q : Ptr) → (ready.objects q).status_default ≡ declared_default q
ready_default = (init_amd64_lem boot boot-IsDeclared).4

declared_proper : (q : Ptr) → is_other (declared_default q) ≡ false
declared_proper q = ground arith

ready-Clearable : Clearable (listed ready) ready
ready-Clearable q h = (h, ap is_other (ready_default q) ∙ declared_proper q)

draw-Draws_example : Draws 3 ready (draw 3 ready)
draw-Draws_example = draw-Draws 3 ready-IsValid (omega (arith, ready_unused))

run-Keeps_example :
    Keeps ready (run (use_one ∷ reserve_one rbx ∷ inuse_one rbx ∷ clear_all ∷ []) ready)
run-Keeps_example =
    run-Keeps (use_one ∷ reserve_one rbx ∷ inuse_one rbx ∷ clear_all ∷ []) ready-IsValid
      ready-Clearable

abbrev empty : Machine
empty = record boot { objects = boot_objects }

empty-IsValid : IsValid empty
unfolding tally
empty-IsValid = record {
  width = refl;
  room = omega arith;
  distinct = tt;
  nonnull = refl;
  unused_counted = refl;
  reserved_counted = refl;
  inuse_counted = refl;
  none_other = refl;
}

init_amd64_lem_example :
    let (code, m') = init_amd64 boot in
    (code ≡ enotrecoverable)
    × IsValid m'
    × (listed m' ≡ amd64_order)
    × ((q : Ptr) → contains amd64_order q ≡ true → current m' q ≡ declared_default q)
    × ((q : Ptr) → (m'.objects q).status_default ≡ declared_default q)
    × (m'.file.num_unused ≡ 14)
    × (m'.file.num_reserved ≡ 0)
    × (m'.file.num_inuse ≡ 2)
init_amd64_lem_example = init_amd64_lem boot boot-IsDeclared

-- The first register that is handed out.
use_any_first : (use_any ready).1 ≡ some r11
unfolding use_any init_amd64 volatile.Registers.first_unused clear volatile.Registers.clear_from
    volatile.Registers.insert_all insert reset update
use_any_first = refl
