-- ===== src/Lib.antt =====
-- Verification of the O language compiler, a compiler in C from the language O to x86-64 machine code.
--
-- The program reads a file (src/frontend/lexer.c, src/frontend/parser.c), resolves names and types
-- (src/frontend/sema.c), lowers the syntax tree to a three-address code (src/ir/codegen.c on the
-- builder in src/ir/ir.c), and translates that to machine code with the encoders of
-- src/backend/x64.c, for execution in memory (src/jit) or for a file (src/output).
--
-- Which file models what:
--   Prelude            native numbers, Boolean tests, lists, C's signed integers, lookup tables
--   Core/Arena         include/core/arena.h: chunks, allocation, mark and restore; below it Restore
--   Frontend/Types     include/frontend/ast.h: TypeKind, TypeNode and the ty_ functions
--   Frontend/Ast       include/frontend/ast.h: expressions, statements, declarations
--   Frontend/Lexer     src/frontend/lexer.c: tokens, keywords, the lexer's state; below it Scan (white
--                      space, identifiers, literals), Next (lexer_next), Keywords, and Behind,
--                      Progress and End (what a token takes, and the end of the source)
--   Frontend/Parser    src/frontend/parser.c: Parser, advance, check, match, expect; below it ParseType,
--                      Expressions, Statements and Declarations (parse_source)
--   Frontend/Parser/Stuck
--                      a token that fits nowhere in the body of a structure
--   Frontend/Parser/LeftFold
--                      the levels of binary operators against the list of operators that is read
--   Frontend/Scope     src/frontend/sema.c: Symbol, Scope, str_hash, scope_define, scope_lookup
--   Frontend/TypeEquality
--                      src/frontend/sema.c: types_equal and the tests on a type
--   Frontend/ScopeMap  a chain of scopes against an ordered list of definitions
--   Ir/Values          include/ir/ir.h: values, instructions, blocks, functions, modules
--   Ir/Build           src/ir/ir.c: ir_block_new, ir_emit and the other builder operations
--   Ir/Steps, Ir/BuilderSteps
--                      the builder as a step relation on functions, and what its steps keep
--   Ir/Codegen         src/ir/codegen.c: CgCtx and the operator tables; below it Expressions (cg_expr),
--                      Statements (cg_stmt, cg_emit_defers), Functions (cg_func, codegen_module), and
--                      the proofs Framed, Grown, Lowered, Ssa, Lookup, Diverges, Total, Fuel
--   Backend/CodeBuf, Labels, Asm, Mov, Alu, Jump, Sse, Frame
--                      src/backend/x64.c, section by section: the code buffer, the label and fixup
--                      tables, the operand bytes, and one function for each encoder
--   Backend/Decode, Immediate
--                      a decoder written from the format of the instructions, independent of the
--                      encoders
--   Backend/Operand, Prefix, Encode, TwoOperand, OneOperand, AluImm, MovImm
--                      encoders against that decoder
--   Backend/Patch, Resolve, Fixups, Padding, Buffer
--                      patches, jumps, alignment and the buffer's bounds
--   Jit                include/jit/jit.h: VRegInfo and JITContext; below it Liveness
--                      (jit_liveness_analysis), LinearScan (jit_linear_scan_alloc), Values, Arith, Memory,
--                      Calls and Instr (jit_emit_instr, case by case), Compile (jit_compile_func,
--                      jit_compile_module, jit_find_func), all of src/jit/jit.c
--   Jit/LiveRanges, Covers, StoreAddress, Registers, Expire, Allocated, Held, Disjoint, Allocation
--                      the register allocator: live ranges, the address of a store, the invariant of
--                      the scan, and both passes
--   Jit/Compare, Frames, Module
--                      comparisons, frames and the compiled functions by name
--   Output/File        the ee_ functions of src/output/elf/exec.c: a file that is written in order
--   Output/ElfExec     ElfExecCtx and its operations, of include/lib/elf/exec.h and
--                      src/output/elf/exec.c; below it Image (the structures as bytes, the tables) and
--                      Write (elf_exec_write)
--   Output/ElfExec/Lengths, Placed, Fields, Headers, Externs, Segments, Tables
--                      where the parts of the file stand, the fields of the headers in the file, the
--                      indices of external names, the loaded addresses, and overflowing arrays
--   Tests, Backend/Tests
--                      the bytes of concrete instructions, and the theorems at concrete inputs
--
-- How the state corresponds. A C object behind a pointer is a record that operations take and return.
-- An array with its count is a list, and a capacity stays a field. A string view is the list of its
-- bytes. A register is its number, an i32 or i64 is an integer with its wrap-around where the code
-- casts it. A pointer to a block is the block's place in its function. A null Expr, Stmt or TypeNode
-- is a constructor. Failed assertions and panics are `none`.
-- A u32 that is used as a set of registers is the list of its bits.
--
-- The lexer's loops take the number of bytes that are left as fuel, since every turn consumes one; the
-- C library's strtod, the system's mmap in the arena, and the addresses that the JIT puts into its code
-- (strings, table entries, dlsym) are parameters.
--
-- Bounds. Memory is taken to suffice: where an allocation fails the code panics or would follow a null
-- pointer. The counters of registers and labels are not wrapped at 32 bits, since a function with so
-- many instructions does not fit in memory; nor is the parser's count of errors, which is an int.
-- `ALIGN_UP` is written with a division, which is the mask for the powers of two that the code passes.
-- The label arrays of loops have 32 entries, the variables 512, the deferred statements 32, as in the
-- source. `cg_stmt` recurses through deferred statements, which is not structural, and takes fuel;
-- `none` is then a lowering that the fuel does not cover, and there are programs for which no fuel is
-- enough. The parser takes one fuel for its recursion and for its loops: a nested call stands behind a
-- token that was taken, and so does the next turn of a loop except in the bodies of structures and
-- enumerations.
--
-- Not modelled: the rest of the semantic analysis, the writers of object files, PE
-- and ISO images, the driver and the Windows layer, which come later or are input and output.
pub mod Prelude
pub mod Core
pub mod Frontend
pub mod Ir
pub mod Backend
pub mod Jit
pub mod Output
mod Tests
