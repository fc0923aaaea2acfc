-- ===== src/Backend/TwoOperand.antt =====
-- `x64_mov_rr`, `x64_mov_rm`, `x64_mov_mr` and the arithmetic of two registers in
-- src/backend/x64.c, against the decoder.
use o.Prelude.{ℕ, ◌+◌, ◌^◌, ◌<◌, ◌≡◌, refl, arith, ◌==◌, if◌then◌else◌}
use o.Prelude.Int.{ℤ, FitsSigned}
use o.Backend.Asm.{X64Reg, X64Asm}
use o.Backend.Mov.{x64_mov_rr, x64_mov_rm, x64_mov_mr}
use o.Backend.Alu.{
  alu_rr, x64_add_rr, x64_sub_rr, x64_and_rr, x64_or_rr, x64_xor_rr, x64_cmp_rr, x64_test_rr,
}
use o.Backend.Decode.{Insn, direct, indirect}
use o.Backend.Prefix.{OpSize, byte, word, dword, qword, bytes_of, Nameable}
use o.Backend.Encode.{Encodes, Opcodes, opcode_of, insn_of, Encodes-reg, Encodes-mem}

-- The step appends one instruction to the code buffer and leaves the tables alone.
abbrev pub Writes : X64Asm → X64Asm → Insn → Type 0
Writes a a' insn = Encodes a.cb a'.cb insn × (a'.ft ≡ a.ft) × (a'.lt ≡ a.lt)

opcode_if :
    (s : OpSize) (opc8 opc : ℕ) → (if bytes_of s == 1 then opc8 else opc) ≡ opcode_of s opc8 opc
opcode_if byte opc8 opc = refl
opcode_if word opc8 opc = refl
opcode_if dword opc8 opc = refl
opcode_if qword opc8 opc = refl

-- Two-operand instructions of the manual, by the opcode of their byte form.
pub data Op : Type 0 where
  add or and sub xor cmp test mov : Op

abbrev pub manual_opcode : Op → ℕ
manual_opcode add = 0x00
manual_opcode or = 0x08
manual_opcode and = 0x20
manual_opcode sub = 0x28
manual_opcode xor = 0x30
manual_opcode cmp = 0x38
manual_opcode test = 0x84
manual_opcode mov = 0x88

-- The encoder of each.
abbrev pub encoder : Op → X64Asm → X64Reg → X64Reg → ℕ → X64Asm
encoder add = x64_add_rr
encoder or = x64_or_rr
encoder and = x64_and_rr
encoder sub = x64_sub_rr
encoder xor = x64_xor_rr
encoder cmp = x64_cmp_rr
encoder test = x64_test_rr
encoder mov = x64_mov_rr

manual-Opcodes : (op : Op) → Opcodes (manual_opcode op) (manual_opcode op + 1)
manual-Opcodes add = omega arith
manual-Opcodes _ = omega arith

alu_rr-Encodes :
    (a : X64Asm) (s : OpSize) (opc8 opc dst src : ℕ)
    → Opcodes opc8 opc
    → Nameable s src dst
    → dst < 16
    → src < 16
    → Encodes a.cb (alu_rr a.cb opc8 opc dst src (bytes_of s)) (insn_of s opc8 opc src (direct dst))
unfolding alu_rr
alu_rr-Encodes a s opc8 opc dst src o n hd hs =
    rw (opcode_if s opc8 opc) (Encodes-reg s opc8 opc src dst o n hs a.cb hd)

-- For two of the sixteen registers add, or, and, sub, xor, cmp, test and mov of two registers are
-- each read back with the opcode that the manual gives it, in every operand size, with `src` in the
-- register field and `dst` as the r/m operand; the fixups and labels stay as they are. In 16-bit
-- form the registers must be among the low eight.
pub encoder-Writes :
    (op : Op) (a : X64Asm) (s : OpSize) (dst src : X64Reg)
    → Nameable s src dst
    → dst < 16
    → src < 16
    → Writes a
        (encoder op a dst src (bytes_of s))
        (insn_of s (manual_opcode op) (manual_opcode op + 1) src (direct dst))
unfolding x64_add_rr x64_sub_rr x64_and_rr x64_or_rr x64_xor_rr x64_cmp_rr x64_test_rr x64_mov_rr
    alu_rr
encoder-Writes add a s dst src n hd hs =
    (alu_rr-Encodes a s _ _ dst src (manual-Opcodes add) n hd hs, refl, refl)
encoder-Writes or a s dst src n hd hs =
    (alu_rr-Encodes a s _ _ dst src (manual-Opcodes or) n hd hs, refl, refl)
encoder-Writes and a s dst src n hd hs =
    (alu_rr-Encodes a s _ _ dst src (manual-Opcodes and) n hd hs, refl, refl)
encoder-Writes sub a s dst src n hd hs =
    (alu_rr-Encodes a s _ _ dst src (manual-Opcodes sub) n hd hs, refl, refl)
encoder-Writes xor a s dst src n hd hs =
    (alu_rr-Encodes a s _ _ dst src (manual-Opcodes xor) n hd hs, refl, refl)
encoder-Writes cmp a s dst src n hd hs =
    (alu_rr-Encodes a s _ _ dst src (manual-Opcodes cmp) n hd hs, refl, refl)
encoder-Writes test a s dst src n hd hs =
    (alu_rr-Encodes a s _ _ dst src (manual-Opcodes test) n hd hs, refl, refl)
encoder-Writes mov a s dst src n hd hs =
    (alu_rr-Encodes a s _ _ dst src (manual-Opcodes mov) n hd hs, refl, refl)

-- A load is read back as a load of `dst` from `base` and `disp`, for two of the sixteen registers,
-- in 16-bit form of the low eight, and every 32-bit displacement; the fixups and labels stay as
-- they are.
pub x64_mov_rm-Writes :
    (a : X64Asm) (s : OpSize) (dst base : X64Reg) (disp : ℤ)
    → Nameable s dst base
    → dst < 16
    → base < 16
    → FitsSigned (2 ^ 31) disp
    → Writes a
        (x64_mov_rm a dst base disp (bytes_of s))
        (insn_of s 0x8A 0x8B dst (indirect base disp))
unfolding x64_mov_rm
x64_mov_rm-Writes a s dst base disp n hd hb f = (
  rw (opcode_if s 0x8A 0x8B) (Encodes-mem s 0x8A 0x8B dst base (omega arith) n hd a.cb disp hb f),
  refl,
  refl,
)

-- A store is read back as a store of `src` to `base` and `disp`, for two of the sixteen registers,
-- in 16-bit form of the low eight, and every 32-bit displacement; the fixups and labels stay as
-- they are.
pub x64_mov_mr-Writes :
    (a : X64Asm) (s : OpSize) (base : X64Reg) (disp : ℤ) (src : X64Reg)
    → Nameable s src base
    → src < 16
    → base < 16
    → FitsSigned (2 ^ 31) disp
    → Writes a
        (x64_mov_mr a base disp src (bytes_of s))
        (insn_of s 0x88 0x89 src (indirect base disp))
unfolding x64_mov_mr
x64_mov_mr-Writes a s base disp src n hs hb f = (
  rw (opcode_if s 0x88 0x89) (Encodes-mem s 0x88 0x89 src base (omega arith) n hs a.cb disp hb f),
  refl,
  refl,
)
