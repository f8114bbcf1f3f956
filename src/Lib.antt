-- ===== src/Lib.antt =====
-- The vltl compiler, a model of its front end and of its target's registers and operands.
--
-- The program reads a source file line by line. `src/compile.c` drives it: `src/lexer.c` cuts a line into
-- tokens, which it resolves with the tables of `src/global.c` and the locals of `src/lang/function.c`;
-- `src/ast.c` and `src/reshape.c` build a tree of them, `src/sast.c` lowers it, with registers that it asks
-- the register file of `src/global.c` for, and `src/asm` writes the operands and instructions; `src/convert.c`
-- leads from a register of the file to an operand and back.
--
-- - Base: names of the libraries, tests, arrays as lists, byte strings, errno codes and results. A function
--   that returns a code and writes through a pointer returns a `Result`, whose `fault` stands for a
--   write or read out of bounds, or a loop that does not end.
-- - Registers: `vltl_global_registers`. The state is a `Machine`, the register objects by address and the
--   file; each operation `vltl_global_registers_X` is a function from the machine to a code and a
--   machine (use: use_any, inuse: mark_inuse, init_amd64, reset, clear, insert, update, reserve).
-- - Token, Lang: the enumerations of `header/lang`, and the names that the tables hold at start.
-- - Lexer: `vltl_lexer_token_chomp` (chomp). Lexer/Lexeme says what a token is without its loops.
--   Lexer/Escape: `vltl_lexer_token_tokenize_binary` and `vltl_lexer_token_tokenize_hexadecimal`.
--   Lexer/Tokenize: `vltl_lexer_token_tokenize` (tokenize). Lexer/Line: `vltl_lexer_line_convert`.
-- - Ast: `src/ast.c`, the operations of the tree (Ast), their precedence (Ast/Precedence), their links
--   (Ast/Links; the places of arguments, Ast/Links/Places) and `vltl_ast_tree_insert` (Ast/Insert). Memory is a
--   function from addresses to operations.
--   Ast/Convert: `vltl_ast_tree_convert`, where the insertion is an operation of the record Program.
-- - Scope: `vltl_lang_function_local_get`, `_set`, `_exists` and `_exists_here`.
-- - Asm: `src/asm`, the operands (Asm) and instructions (Asm/Instruction). Convert: `src/convert.c`.
-- - Reshape: `vltl_reshape_ast_tree_recurse_comma` of `src/reshape.c`, on the memory of Ast. Reshape/Overwrite and
--   Reshape/Comma follow its two loops, Reshape/Flatten the whole.
-- - Sast: `src/sast.c`, the operations of the simple syntax tree, what is written before and after one
--   (Sast/Append), the names of the kinds (Sast/Names), the operands that an operation gets from its arguments, with
--   the values that are computed while compiling (Sast/Fold), the register of an operand that is to be
--   determined (Sast/Connect), the registers of a tree (Sast/Connect/Recurse; what it uses of the function that is
--   open is the record Function, which Sast/Connect/Temporaries fills with the locals of Scope), the registers of
--   the arguments of a call (Sast/Call), and the reshaping of a tree (Sast/Reshape; what it makes of it,
--   Sast/Reshape/Shape). Sast/Source is the syntax tree that it is converted from, Sast/Convert the conversion of
--   an operation, Sast/Convert/Loop the loop over two stacks; Sast/Convert/Lower says without them what a tree
--   lowers to. A pointer into the tree that is built is a path from its root (Sast/Convert/Paths).
-- - Compile: `src/compile.c`, what is written for an operation (Compile/Emit, Compile/Line) and the order of a
--   tree (Compile/Order). The output is a list of pieces, labels, jumps and other text, which
--   `render` turns to bytes. The bodies that are open are `vltl_global_context` (Context): Compile/Balance
--   and Compile/Run take a body apart, Compile/Nested puts bodies inside one another, Compile/Tested and
--   Compile/Jumps follow the jumps, Compile/Depth and Compile/Written the depth.
--   Compile/Function opens a function, as `src/reshape.c` does too, and follows it to its end. Compile/Stages is
--   `vltl_compile_line`; the stages of a line are a record that it is given.
-- - Tests: runs on concrete input.
--
-- Recursion is structural: on the bytes of a line, the list of registers or bodies. The loop of
-- `vltl_lexer_line_convert` recurs on the number of tokens that the array has room for, 99 at its start
-- (`VLTL_LEXER_LINE_TOKENS_MAX`), which is the loop's own test. The loops of the escapes recur on the rounds
-- left, 8 and 2. The walks of `vltl_ast_tree_insert` towards the root recur on a number of steps, and one more
-- than the depth of the last operation is enough. The rounds of `vltl_sast_tree_convert` are counted, and the number
-- of operations of the tree is enough. Decimal digits recur on 20, which is enough for 64 bits.
--
-- Parameters stand for the library in `src/ds`: hash tables (nkht), memory (varena), bounded copies and
-- prints (btrc). Memory that is handed out is counted, not laid out. Pointers that the callers never
-- leave null are not tested. A `size_t` wraps around at 2 ^ 64 where the code adds or subtracts.
--
-- A tree of `src/sast.c` is finite, and its traversal recurs on it; the arrays of an operation are lists of the
-- entries before the first NULL, and of the parent only the kind is kept. An operation that takes the place of
-- another is what the function that puts it there returns; `last` and `function_call_on_tree` of the tree, and the
-- traces, are left out.
--
-- Not modelled: of `src/ast.c`, `src/reshape.c`, `src/sast.c` and `src/compile.c` what is not listed above:
-- declarations, and the driver that reads and writes files;
-- diagnostics (`src/error.c`, `src/trace.c`), program entry
-- (`src/core.c`), and the copies of other projects in `src/ds`, `src/siphash.c` and `src/dye.c`.
pub mod Base
pub mod Registers
pub mod Reshape
pub mod Sast
pub mod Compile
pub mod Token
pub mod Lang
pub mod Lexer
pub mod Scope
pub mod Ast
pub mod Asm
pub mod Convert
pub mod Tests
