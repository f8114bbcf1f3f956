-- ===== src/Asm.antt =====
-- header/asm and src/asm: the operands and instructions of the assembly that is written. The target is
-- `VLTL_ISA_AMD64`, which `vltl_global_config` has from its initialisation on. `snprintf` truncates, and the
-- macro around it in header/ds/btrc.h decides what that means: it is a parameter, the return code and the
-- text for a capacity and the formatted text.
pub mod Decimal
pub mod Instruction
pub mod Print
use volatile.Base.{
  ℕ, ◌+◌, ◌-◌, ◌^◌, Bool, true, false, ◌&&◌, Option, none, some, List, [], ◌∷◌, ◌++◌, Bytes, codes,
  ltb, leb, if◌then◌else◌, Code, einval, enodata, Result, ok, err, fault, ◌>>=◌, ◌==◌,
}
use volatile.Asm.Decimal.{decimal}

-- `Vltl_isa`
pub data Isa : Type 0 where
  unset invalid isa_8086 intel32 amd64 : Isa

-- `vltl_isa_valid`
unfoldable pub isa_valid : Isa → Bool
isa_valid isa_8086 = true
isa_valid intel32 = true
isa_valid amd64 = true
isa_valid _ = false

-- `Vltl_asm_register_amd64`
pub data AsmRegister : Type 0 where
  unset invalid rax rbx rcx rdx rsi rdi rbp rsp r8 r9 r10 r11 r12 r13 r14 r15 eof : AsmRegister

-- `vltl_asm_register_detokenize_table`, at the entries that are read.
unfoldable pub register_name : AsmRegister → Bytes
register_name rax = codes "rax"
register_name rbx = codes "rbx"
register_name rcx = codes "rcx"
register_name rdx = codes "rdx"
register_name rsi = codes "rsi"
register_name rdi = codes "rdi"
register_name rbp = codes "rbp"
register_name rsp = codes "rsp"
register_name r8 = codes "r8"
register_name r9 = codes "r9"
register_name r10 = codes "r10"
register_name r11 = codes "r11"
register_name r12 = codes "r12"
register_name r13 = codes "r13"
register_name r14 = codes "r14"
register_name r15 = codes "r15"
register_name _ = []

-- `Vltl_asm_operand_register`, with the value for amd64.
pub record OperandRegister : Type 0 where
  pub isa : Isa
  pub value_amd64 : AsmRegister

-- `Vltl_asm_operand_immediate_representation`
pub data Representation : Type 0 where
  unset invalid base2 base10 base16 : Representation

-- `Vltl_lang_type_integral`, as far as the operands and literals of the compiler use it; `other` stands for
-- the remaining enumerators.
pub data Integral : Type 0 where
  unset invalid tbd int_scalar8 int_scalar16 int_scalar32 int_scalar64 other : Integral

-- `Vltl_asm_operand_immediate`; the value is a 64-bit pattern.
pub record OperandImmediate : Type 0 where
  pub integral_type : Integral
  pub representation : Representation
  pub value : ℕ

-- `Vltl_asm_operand_memory_kind`
pub data MemoryKind : Type 0 where
  unset invalid local global : MemoryKind

-- `Vltl_asm_operand_memory`, without the type and value, which are not read; no name is NULL.
pub record OperandMemory : Type 0 where
  pub memory_kind : MemoryKind
  pub name : Option Bytes

-- `Vltl_asm_operand`, with the member that its kind selects; a function is its name.
pub data Operand : Type 0 where
  unset invalid tbd : Operand
  unknown : Option Bytes → Operand
  function : Bytes → Operand
  memory : OperandMemory → Operand
  register : OperandRegister → Operand
  immediate : OperandImmediate → Operand

-- `vltl_lang_type_integral_valid`
unfoldable pub integral_valid : Integral → Bool
integral_valid tbd = true
integral_valid int_scalar8 = true
integral_valid int_scalar16 = true
integral_valid int_scalar32 = true
integral_valid int_scalar64 = true
integral_valid _ = false

is_scalar : Integral → Bool
is_scalar int_scalar8 = true
is_scalar int_scalar16 = true
is_scalar int_scalar32 = true
is_scalar int_scalar64 = true
is_scalar _ = false

unfoldable pub representation_valid : Representation → Bool
representation_valid base2 = true
representation_valid base10 = true
representation_valid base16 = true
representation_valid _ = false

-- `vltl_asm_operand_immediate_amd64_valid`
unfoldable pub immediate_valid : OperandImmediate → Bool
unfolding is_scalar integral_valid representation_valid
immediate_valid i =
    integral_valid i.integral_type
    && is_scalar i.integral_type
    && representation_valid i.representation

unfoldable pub register_declared : AsmRegister → Bool
register_declared unset = false
register_declared invalid = false
register_declared eof = false
register_declared _ = true

unfoldable pub is_amd64 : Isa → Bool
is_amd64 amd64 = true
is_amd64 _ = false

-- `vltl_asm_operand_register_amd64_valid`
unfoldable pub register_valid : OperandRegister → Bool
unfolding is_amd64 register_declared
register_valid r = is_amd64 r.isa && register_declared r.value_amd64

-- `vltl_asm_operand_memory_kind_valid`
unfoldable pub memory_kind_valid : MemoryKind → Bool
memory_kind_valid local = true
memory_kind_valid global = true
memory_kind_valid _ = false

-- `vltl_asm_operand_memory_amd64_valid`
unfoldable pub memory_valid : OperandMemory → Bool
unfolding memory_kind_valid
memory_valid m = elim m.name [ none ↦ false | some n ↦ memory_kind_valid m.memory_kind ]

-- `vltl_asm_operand_valid`
unfoldable pub operand_valid : Operand → Bool
unfolding memory_valid register_valid immediate_valid
operand_valid (unknown none) = false
operand_valid (unknown (some s)) = true
operand_valid tbd = true
operand_valid (function name) = true
operand_valid (memory m) = memory_valid m
operand_valid (register r) = register_valid r
operand_valid (immediate i) = immediate_valid i
operand_valid _ = false

-- What the printing uses of the rest of the program.
pub record Printing : Type 0 where
  -- `BTRC_SNPRINTF` of a text to a buffer of a capacity.
  pub snprintf : ℕ → Bytes → Result Bytes
  -- `btrc_strncpy`: the bytes copied.
  pub strncpy : Bytes → ℕ → Result Bytes
  -- `frame_offset` of the local that `vltl_lang_function_local_get` finds.
  pub frame_offset : Bytes → Result ℕ
  -- `vltl_global_config.pic_enabled`
  pub pic_enabled : Bool

-- "%zd" of a 64-bit pattern.
unfoldable pub signed_decimal : ℕ → Bytes
signed_decimal v = if ltb v (2 ^ 63) then decimal v else b'-' ∷ decimal (2 ^ 64 - v)

-- `vltl_asm_operand_immediate_amd64_detokenize`: on a representation that is none, it returns `false`,
-- which is 0, and leaves the buffer as it is.
unfoldable pub immediate_detokenize : Printing → ℕ → Bytes → OperandImmediate → Result Bytes
unfolding signed_decimal
immediate_detokenize env buf_cap buf i =
    if leb buf_cap 1
    then err einval
    else if representation_valid i.representation
    then env.snprintf buf_cap (signed_decimal i.value)
    else ok buf

-- `vltl_asm_operand_register_amd64_detokenize`, which the switch on `operand.isa` leads to.
unfoldable pub register_detokenize : Printing → ℕ → OperandRegister → Result Bytes
unfolding is_amd64
register_detokenize env buf_cap r =
    if leb buf_cap 1
    then err einval
    else if is_amd64 r.isa
    then (if register_declared r.value_amd64
        then env.snprintf buf_cap (b'%' ∷ register_name r.value_amd64)
        else err einval)
    else err einval

-- `vltl_asm_operand_memory_amd64_detokenize`; the name of a local that is NULL is EINVAL for
-- `vltl_lang_function_local_get`, and "%s" has no meaning for one.
unfoldable pub memory_detokenize : Printing → ℕ → OperandMemory → Result Bytes
memory_detokenize env buf_cap m = if leb buf_cap 1 then err einval else elim m.memory_kind [
  | local ↦ elim m.name [
    | none ↦ err einval
    | some name ↦ do
      n ← env.frame_offset name
      env.snprintf buf_cap (b'-' ∷ (decimal n ++ codes "[%rbp]"))
  ]
  | global ↦ elim m.name [
    | none ↦ fault
    | some name ↦ env.snprintf buf_cap (if env.pic_enabled then name ++ codes "[%rip]" else name)
  ]
  | _ ↦ err einval
]

-- `vltl_asm_operand_function_detokenize`
unfoldable pub function_detokenize : Printing → ℕ → Bytes → Result Bytes
function_detokenize env buf_cap name =
    if buf_cap == 0 then err einval else env.snprintf buf_cap (name ++ codes "@PLT")

-- `vltl_asm_operand_detokenize`, from a buffer that holds `buf`: the text that it holds after.
unfoldable pub operand_detokenize : Printing → ℕ → Bytes → Operand → Result Bytes
unfolding function_detokenize memory_detokenize register_detokenize immediate_detokenize
operand_detokenize env buf_cap buf unset = env.strncpy (codes "???") 3
operand_detokenize env buf_cap buf (unknown none) = err einval
operand_detokenize env buf_cap buf (unknown (some s)) = env.snprintf buf_cap s
operand_detokenize env buf_cap buf tbd = env.strncpy (codes "TBD") 3
operand_detokenize env buf_cap buf (function name) = function_detokenize env buf_cap name
operand_detokenize env buf_cap buf (memory m) = memory_detokenize env buf_cap m
operand_detokenize env buf_cap buf (register r) = register_detokenize env buf_cap r
operand_detokenize env buf_cap buf (immediate i) = immediate_detokenize env buf_cap buf i
operand_detokenize env buf_cap buf invalid = err einval

-- `VLTL_ASM_OPERAND_STRINGIFY_BUF_CAP`
abbrev pub stringify_cap : ℕ
stringify_cap = 99

-- `vltl_asm_operand_stringify`: what it writes.
unfoldable pub operand_stringify : Printing → Operand → Result Bytes
unfolding operand_detokenize
operand_stringify env operand = operand_detokenize env stringify_cap [] operand
