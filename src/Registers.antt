-- ===== src/Registers.antt =====
-- header/global.h and src/global.c: the register file, `vltl_global_registers`.
pub mod Counts
pub mod Update
pub mod Use
pub mod Clear
pub mod Init
pub mod Session
use volatile.Base.{
  ℕ, ◌+◌, ◌-◌, ◌%◌, ◌^◌, Bool, true, false, not, ◌||◌, Option, none, some, List, [], ◌∷◌, ◌==◌,
  if◌then◌else◌, set, take, replicate, contains, Code, success, einval, exfull, enotrecoverable,
}

-- `Vltl_global_register_status`; `other` stands for the values outside the enumerators.
pub data RegisterStatus : Type 0 where
  unused reserved inuse other : RegisterStatus

-- The address of a `Vltl_global_register`.
abbrev pub Ptr : Type 0
Ptr = ℕ

abbrev pub null : Ptr
null = 0

-- `Vltl_global_register`, without the members for the 8086 and intel32, which no code reads.
pub record GlobalRegister : Type 0 where
  pub status_current : RegisterStatus
  pub status_default : RegisterStatus
  pub as_amd64 : ℕ

-- `Vltl_global_registers`; `registers` is the whole array.
pub record GlobalRegisters : Type 0 where
  pub registers : List Ptr
  pub num_total : ℕ
  pub num_unused : ℕ
  pub num_reserved : ℕ
  pub num_inuse : ℕ

-- The register objects in memory, and the singleton.
pub record Machine : Type 0 where
  pub objects : Ptr → GlobalRegister
  pub file : GlobalRegisters

-- `size_t` increments and decrements.
abbrev pub inc : ℕ → ℕ
inc n = (n + 1) % 2 ^ 64

abbrev pub dec : ℕ → ℕ
dec n = (n + 2 ^ 64 - 1) % 2 ^ 64

-- `registers[0]`, …, `registers[num_total - 1]`, which every loop of the file runs over.
abbrev pub listed : Machine → List Ptr
listed m = take m.file.num_total m.file.registers

abbrev pub current : Machine → Ptr → RegisterStatus
current m p = (m.objects p).status_current

abbrev pub is_unused : RegisterStatus → Bool
is_unused unused = true
is_unused _ = false

abbrev pub is_inuse : RegisterStatus → Bool
is_inuse inuse = true
is_inuse _ = false

abbrev pub with_status : GlobalRegister → RegisterStatus → GlobalRegister
with_status r st = record r { status_current = st }

-- `reg->status_current = st`
abbrev pub write : (Ptr → GlobalRegister) → Ptr → RegisterStatus → Ptr → GlobalRegister
write objects p st q = if q == p then with_status (objects q) st else objects q

-- `switch(status)` with the counter of each status incremented; `none` is the `default` case.
unfoldable pub count_in : RegisterStatus → GlobalRegisters → Option GlobalRegisters
count_in unused f = some (record f { num_unused = inc f.num_unused })
count_in reserved f = some (record f { num_reserved = inc f.num_reserved })
count_in inuse f = some (record f { num_inuse = inc f.num_inuse })
count_in other f = none

-- The same with the counter decremented.
unfoldable pub count_out : RegisterStatus → GlobalRegisters → Option GlobalRegisters
count_out unused f = some (record f { num_unused = dec f.num_unused })
count_out reserved f = some (record f { num_reserved = dec f.num_reserved })
count_out inuse f = some (record f { num_inuse = dec f.num_inuse })
count_out other f = none

-- `vltl_global_registers_insert`
unfoldable pub insert : Ptr → Machine → Code × Machine
unfolding count_in
insert p m = if p == null then (einval, m) else elim (count_in (current m p) m.file) [
  | none ↦ (einval, m)
  | some f ↦ (
    success,
    record m {
      file = record f { registers = set f.registers f.num_total p; num_total = inc f.num_total };
    },
  )
]

-- `vltl_global_registers_update`. The last `default` returns after the first counter has moved.
unfoldable pub update : Ptr → RegisterStatus → Machine → Code × Machine
unfolding count_in count_out
update p st m =
    if p == null || not (contains (listed m) p) then (einval, m) else elim (count_in st m.file) [
      | none ↦ (einval, m)
      | some f ↦ elim (count_out (current m p) f) [
        | none ↦ (enotrecoverable, record m { file = f })
        | some g ↦ (success, record { objects = write m.objects p st; file = g })
      ]
    ]

-- The first register of a list that is unused.
unfoldable pub first_unused : (Ptr → GlobalRegister) → List Ptr → Option Ptr
first_unused objects [] = none
first_unused objects (p ∷ ps) =
    if is_unused (objects p).status_current then some p else first_unused objects ps

-- `vltl_global_registers_use`; the option is what goes through `dest_ptr`.
unfoldable pub use_any : Machine → Code × Option Ptr × Machine
use_any m = elim (first_unused m.objects (listed m)) [
  | none ↦ (exfull, none, m)
  | some p ↦ let (c, m') = update p inuse m in (c, some p, m')
]

-- The loop that `vltl_global_registers_reserve` and `vltl_global_registers_inuse` share, which
-- differ in the status that they write.
unfoldable pub claim : RegisterStatus → Ptr → Machine → Code × Machine
claim st p m =
    if p == null || not (contains (listed m) p)
    then (einval, m)
    else if is_inuse (current m p)
    then (exfull, m)
    else update p st m

-- `vltl_global_registers_reserve`
unfoldable pub reserve : Ptr → Machine → Code × Machine
reserve = claim reserved

-- `vltl_global_registers_inuse`
unfoldable pub mark_inuse : Ptr → Machine → Code × Machine
mark_inuse = claim inuse

-- Goes on after a success, and returns any other code with the state at that point.
abbrev pub and_then : Code × Machine → (Machine → Code × Machine) → Code × Machine
and_then (success, m) k = k m
and_then (c, m) k = (c, m)

-- The loop of `vltl_global_registers_clear`, which stops at the first failure.
unfoldable pub clear_from : List Ptr → Machine → Code × Machine
clear_from [] m = (success, m)
clear_from (p ∷ ps) m = and_then (update p (m.objects p).status_default m) (clear_from ps)

-- `vltl_global_registers_clear`
unfoldable pub clear : Machine → Code × Machine
clear m = clear_from (listed m) m

abbrev pub max_total : ℕ
max_total = 128

-- The objects that the file's globals define, by the number of their `as_amd64`.
abbrev pub rax : Ptr
rax = 2

abbrev pub rbx : Ptr
rbx = 3

abbrev pub rcx : Ptr
rcx = 4

abbrev pub rdx : Ptr
rdx = 5

abbrev pub rdi : Ptr
rdi = 6

abbrev pub rsi : Ptr
rsi = 7

abbrev pub rbp : Ptr
rbp = 8

abbrev pub rsp : Ptr
rsp = 9

abbrev pub r8 : Ptr
r8 = 10

abbrev pub r9 : Ptr
r9 = 11

abbrev pub r10 : Ptr
r10 = 12

abbrev pub r11 : Ptr
r11 = 13

abbrev pub r12 : Ptr
r12 = 14

abbrev pub r13 : Ptr
r13 = 15

abbrev pub r14 : Ptr
r14 = 16

abbrev pub r15 : Ptr
r15 = 17

-- `vltl_global_registers_reset`
unfoldable pub reset : Machine → Machine
reset m = record m {
  file = record {
    registers = replicate max_total null;
    num_total = 0;
    num_unused = 0;
    num_reserved = 0;
    num_inuse = 0;
  };
}

-- The registers in the order in which `vltl_global_registers_init_amd64` inserts them.
abbrev pub amd64_order : List Ptr
amd64_order =
    r11 ∷ r10 ∷ r9 ∷ r8 ∷ rcx ∷ rdx ∷ rsi ∷ rdi ∷ rax ∷ r15 ∷ r14 ∷ r13 ∷ r12 ∷ rbx ∷ rbp ∷ rsp ∷ []

-- Insertions whose results are not looked at.
unfoldable pub insert_all : List Ptr → Machine → Machine
insert_all [] m = m
insert_all (p ∷ ps) m = insert_all ps (insert p m).1

-- `VLTL_GLOBAL_REGISTERS_AMD64_TOTAL`, `_UNUSED`, `_RESERVED` and `_INUSE`
abbrev pub amd64_total : ℕ
amd64_total = 16

abbrev pub amd64_unused : ℕ
amd64_unused = 12

abbrev pub amd64_reserved : ℕ
amd64_reserved = 2

abbrev pub amd64_inuse : ℕ
amd64_inuse = 2

-- `vltl_global_registers_init_amd64`; the result of `vltl_global_registers_clear` is not looked at.
unfoldable pub init_amd64 : Machine → Code × Machine
init_amd64 m =
    let m' = (clear (insert_all amd64_order (reset m))).1 in
    let f = m'.file in
    if not (f.num_total == amd64_total)
      || not (f.num_unused == amd64_unused)
      || not (f.num_reserved == amd64_reserved)
      || not (f.num_inuse == amd64_inuse)
    then (enotrecoverable, m')
    else (success, m')
