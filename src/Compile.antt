-- ===== src/Compile.antt =====
-- src/compile.c and header/lang/body.h: the assembly that is written for a tree, and the bodies that
-- are open while it is written. A call that fails ends the compilation of the file, so that an error
-- carries no state.
pub mod Emit
pub mod Line
pub mod Order
pub mod Balance
pub mod Plain
pub mod Run
pub mod Nested
pub mod Tested
pub mod Jumps
pub mod Depth
pub mod Written
pub mod Function
pub mod Stages
use volatile.Base.{ℕ, ◌++◌, Bool, Bytes, codes, if◌then◌else◌, not, Result, ok, err, einval}
use volatile.Asm.{Operand, Printing, Isa}
use volatile.Asm.Decimal.{decimal}
use volatile.Sast.{
  SastOperation, operation_valid, kind, evaluates_to, destination, eval, call, grouping_open,
  grouping_close, comma, load, load_src3, store, add, address, lea, indirection, sub, mul, div,
  test_equals, ret, if_kind, elif_kind, while_kind,
}

-- `Vltl_lang_body_kind`
pub data BodyKind : Type 0 where
  unset invalid bare if_body elif_body else_body while_body function_body : BodyKind

-- `VLTL_LANG_BODY_CAP`
abbrev pub body_cap : ℕ
body_cap = 256

-- `VLTL_LANG_BODY_LABEL_ITERATE`
abbrev pub label_iterate : ℕ
label_iterate = 1000

-- The `VLTL_LANG_BODY_LABEL_..._OPEN` of a body.
unfoldable pub open_offset : BodyKind → ℕ
open_offset bare = 1
open_offset if_body = 2
open_offset elif_body = 3
open_offset else_body = 4
open_offset while_body = 5
open_offset function_body = 6
open_offset _ = 0

-- `VLTL_LANG_BODY_LABEL_IFELIFELSE_CLOSE`
abbrev pub chain_offset : ℕ
chain_offset = 21

-- `vltl_global_context`, as far as bodies go: `indentation_level`, the bodies' kinds and tables of locals,
-- whether `function` is set; and the memory that tables are allocated in.
pub record Context (Table Heap : Type 0) : Type 0 where
  pub indentation_level : ℕ
  pub body_kind : ℕ → BodyKind
  pub local_variables : ℕ → Table
  pub has_function : Bool
  pub heap : Heap

-- What is written: a numeric label, a jump forward or back to one, a test that jumps forward when the
-- operand is zero, and any other text.
pub data Piece : Type 0 where
  text : Bytes → Piece
  label : ℕ → Piece
  jump_forward : ℕ → Piece
  jump_back : ℕ → Piece
  test_zero : Bytes → ℕ → Piece

-- The bytes of a piece, as `fprintf` writes them.
unfoldable pub render : Piece → Bytes
render (text s) = s
render (label n) = decimal n ++ codes ":\n"
render (jump_forward n) = codes "jmp " ++ decimal n ++ codes "f\n"
render (jump_back n) = codes "jmp " ++ decimal n ++ codes "b\n"
render (test_zero s n) =
    codes "test " ++ s ++ codes ", " ++ s ++ codes "\n\tjz " ++ decimal n ++ codes "f\n"

-- What the writing uses of the rest of the program: the printing of operands, `vltl_global_config.isa`, what
-- a buffer on the stack holds before it is written, `nkht_init` and `nkht_deinit` of a table of locals, and
-- `vht_destroy` of the registers that the function uses.
pub record Target (Table Heap : Type 0) : Type 0 where
  pub printing : Printing
  pub isa : Isa
  pub stack_buffer : Bytes
  pub nkht_init : Heap → Result (Table × Heap)
  pub nkht_deinit : Table → Heap → Heap
  pub vht_destroy : Heap → Heap

-- `vltl_compile_operation_operandify`
unfoldable pub operandify : SastOperation → Result Operand
unfolding operation_valid kind evaluates_to destination
operandify o = if not (operation_valid o) then err einval else elim (kind o) [
  | eval ↦ ok (evaluates_to o)
  | call ↦ ok (destination o)
  | grouping_open ↦ ok (destination o)
  | grouping_close ↦ ok (destination o)
  | comma ↦ ok (destination o)
  | load ↦ ok (destination o)
  | load_src3 ↦ ok (destination o)
  | store ↦ ok (destination o)
  | add ↦ ok (destination o)
  | address ↦ ok (destination o)
  | lea ↦ ok (destination o)
  | indirection ↦ ok (destination o)
  | sub ↦ ok (destination o)
  | mul ↦ ok (destination o)
  | div ↦ ok (destination o)
  | test_equals ↦ ok (destination o)
  | ret ↦ ok (destination o)
  | if_kind ↦ ok (destination o)
  | elif_kind ↦ ok (destination o)
  | while_kind ↦ ok (destination o)
  | _ ↦ err einval
]
