-- ===== src/Backend.antt =====
-- src/backend/x64.c and include/backend/x64.h: the code buffer, labels and fixups, and the
-- x86-64 machine code encoder.
pub mod CodeBuf
pub mod Labels
pub mod Asm
pub mod Bytes
pub mod Decode
pub mod Operand
pub mod Prefix
pub mod Encode
pub mod TwoOperand
pub mod Patch
pub mod Resolve
pub mod Fixups
pub mod Padding
pub mod Buffer
pub mod Immediate
pub mod MovImm
pub mod OneOperand
pub mod AluImm
pub mod Mov
pub mod Alu
pub mod Jump
pub mod Sse
pub mod Frame
mod Tests
