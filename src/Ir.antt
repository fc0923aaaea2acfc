-- ===== src/Ir.antt =====
-- include/ir/ir.h, src/ir/ir.c and src/ir/codegen.c: the three-address code, its builder, and the
-- lowering of the syntax tree.
pub mod Values
pub mod Build
pub mod Steps
pub mod BuilderSteps
pub mod Codegen
