-- ===== src/Backend/AluImm.antt =====
-- `alu_ri` of src/backend/x64.c, arithmetic with an immediate, against the decoder.
use mathlib.Core.List.{append_assoc, append-nil}
use o.Prelude.{
  ℕ, ◌^◌, ◌<◌, true, false, ◌++◌, Option, ◌≡◌, refl, sym, ◌∙◌, arith, ◌==◌, if◌then◌else◌, some,
  bit_and, Bool-cases, inl, inr,
}
use o.Prelude.Int.{ℤ, FitsSigned}
use o.Backend.CodeBuf.{Bytes, CodeBuf, codebuf_emit_byte}
use o.Backend.Asm.{X64Reg, X64Asm, modrm, ext, maybe_size16, fits_i8, u8_of}
use o.Backend.Alu.{
  alu_ri, rex_rm, x64_add_ri, x64_or_ri, x64_and_ri, x64_sub_ri, x64_xor_ri, x64_cmp_ri,
  x64_test_ri,
}
use o.Backend.Bytes.{emit_byte-buf, emit_i32-buf}
use o.Backend.Decode.{Insn, Operand, direct, decode, decode_disp, indirect}
use o.Backend.Operand.{disp_bytes, decode_disp-disp_bytes}
use o.Backend.Prefix.{OpSize, dword, qword, bytes_of, Nameable, prefix_bytes, emit_rex-buf}
use o.Backend.Encode.{Opcodes, insn_of, opcode_of}
use o.Backend.OneOperand.{Encodes-extension}

-- The group-1 instructions, with the manual's extensions.
pub data Group1 : Type 0 where
  add or and sub xor cmp : Group1

abbrev pub group1_extension : Group1 → ℕ
group1_extension add = 0
group1_extension or = 1
group1_extension and = 4
group1_extension sub = 5
group1_extension xor = 6
group1_extension cmp = 7

abbrev pub group1_encoder : Group1 → X64Asm → X64Reg → ℤ → ℕ → X64Asm
group1_encoder add = x64_add_ri
group1_encoder or = x64_or_ri
group1_encoder and = x64_and_ri
group1_encoder sub = x64_sub_ri
group1_encoder xor = x64_xor_ri
group1_encoder cmp = x64_cmp_ri

-- The immediate of a group-1 instruction: one byte behind opcode 0x83, four behind 0x81, either with
-- its sign extended. It is read as a displacement is, of mode 1 or 2.
abbrev pub decode_imm : ℕ → Bytes → Option (Operand × Bytes)
decode_imm opcode bs = decode_disp (if opcode == 0x83 then 1 else 2) 0 bs

abbrev pub imm_opcode : ℤ → ℕ
imm_opcode imm = if fits_i8 imm then 0x83 else 0x81

-- An instruction is read back, and behind it the immediate.
abbrev pub EncodesImm : CodeBuf → CodeBuf → Insn → ℤ → Type 0
EncodesImm cb cb' insn imm =
    (code : Bytes) × (tail : Bytes) × (cb'.buf ≡ cb.buf ++ (code ++ tail))
    × ((rest : Bytes) → decode (code ++ (tail ++ rest)) ≡ some (insn, tail ++ rest))
    × ((rest : Bytes) → decode_imm insn.opcode (tail ++ rest) ≡ some (indirect 0 imm, rest))

-- The two sizes that the compiler uses for arithmetic.
pub data Wide : Type 0 where
  w32 w64 : Wide

abbrev pub op_size : Wide → OpSize
op_size w32 = dword
op_size w64 = qword

rex_rm-buf :
    (w : Wide) (cb : CodeBuf) (e r : ℕ)
    → e < 8
    → (rex_rm cb (bytes_of (op_size w)) r).buf ≡ cb.buf ++ prefix_bytes (op_size w) e r
unfolding rex_rm
rex_rm-buf w32 cb e r h =
    let low : ext e ≡ false = ground arith in
    elim (Bool-cases (ext r)) [
      | inl high ↦ rw (low, high) (emit_rex-buf cb false false false true)
      | inr none_high ↦ rw (low, none_high) (sym (append-nil cb.buf))
    ]
rex_rm-buf w64 cb e r h =
    let low : ext e ≡ false = ground arith in rw low (emit_rex-buf cb true false false (ext r))

decode_imm-disp_bytes :
    (imm : ℤ) (rest : Bytes)
    → FitsSigned (2 ^ 31) imm
    → decode_imm (imm_opcode imm) (disp_bytes (if fits_i8 imm then 1 else 2) imm ++ rest)
      ≡ some (indirect 0 imm, rest)
decode_imm-disp_bytes imm rest f = elim (Bool-cases (fits_i8 imm)) [
  | inl small ↦
      rw small (
        decode_disp-disp_bytes 0 imm 1 rest (omega arith) (λ e. absurd (omega arith)) (λ e. small)
          f)
  | inr large ↦ rw large (
      decode_disp-disp_bytes 0 imm 2 rest (omega arith) (λ e. absurd (omega arith))
        (λ e. absurd (omega arith)) f)
]

imm-Opcodes : (imm : ℤ) → Opcodes 0x80 (imm_opcode imm)
imm-Opcodes imm = elim (Bool-cases (fits_i8 imm)) [
  | inl small ↦ rw small (omega arith)
  | inr large ↦ rw large (omega arith)
]

-- The instruction up to its immediate.
abbrev alu_ri_head : Wide → CodeBuf → ℕ → ℕ → ℤ → CodeBuf
alu_ri_head w cb e r imm =
    codebuf_emit_byte
      (codebuf_emit_byte (rex_rm cb (bytes_of (op_size w)) r)
        (opcode_of (op_size w) 0x80 (imm_opcode imm)))
      (modrm 3 e (bit_and r 7))

alu_ri-buf :
    (w : Wide) (cb : CodeBuf) (e r : ℕ) (imm : ℤ)
    → (alu_ri cb e r imm (bytes_of (op_size w))).buf
      ≡ (alu_ri_head w cb e r imm).buf ++ disp_bytes (if fits_i8 imm then 1 else 2) imm
unfolding alu_ri maybe_size16
alu_ri-buf w32 cb e r imm = elim (Bool-cases (fits_i8 imm)) [
  | inl small ↦ rw small (emit_byte-buf _ (u8_of imm))
  | inr large ↦ rw large (emit_i32-buf _ imm)
]
alu_ri-buf w64 cb e r imm = elim (Bool-cases (fits_i8 imm)) [
  | inl small ↦ rw small (emit_byte-buf _ (u8_of imm))
  | inr large ↦ rw large (emit_i32-buf _ imm)
]

op_size-opcode : (w : Wide) (opc8 opc : ℕ) → opcode_of (op_size w) opc8 opc ≡ opc
op_size-opcode w32 opc8 opc = refl
op_size-opcode w64 opc8 opc = refl

op_size-Nameable : (w : Wide) (e r : ℕ) → Nameable (op_size w) e r
op_size-Nameable w32 e r = tt
op_size-Nameable w64 e r = tt

alu_ri-EncodesImm :
    (w : Wide) (cb : CodeBuf) (e r : ℕ) (imm : ℤ)
    → e < 8
    → r < 16
    → FitsSigned (2 ^ 31) imm
    → EncodesImm cb
        (alu_ri cb e r imm (bytes_of (op_size w)))
        (insn_of (op_size w) 0x80 (imm_opcode imm) e (direct r))
        imm
alu_ri-EncodesImm w cb e r imm he hr f =
    let (code, written, read) =
      Encodes-extension (op_size w) 0x80 (imm_opcode imm) e r cb
        (rex_rm cb (bytes_of (op_size w)) r) (imm-Opcodes imm) (op_size-Nameable w e r) he hr
        (rex_rm-buf w cb e r he) in
    (
      code,
      disp_bytes (if fits_i8 imm then 1 else 2) imm,
      alu_ri-buf w cb e r imm ∙ rw written (append_assoc cb.buf code _),
      λ rest. read (disp_bytes (if fits_i8 imm then 1 else 2) imm ++ rest),
      λ rest. rw op_size-opcode (decode_imm-disp_bytes imm rest f),
    )

-- For each of the sixteen registers and every 32-bit immediate, arithmetic with an immediate, in
-- 32-bit and 64-bit form, is read back with the manual's extension on the register that was named,
-- and behind it the immediate, in whichever of the two lengths was chosen.
pub group1_encoder-EncodesImm :
    (op : Group1) (w : Wide) (a : X64Asm) (r : X64Reg) (imm : ℤ)
    → r < 16
    → FitsSigned (2 ^ 31) imm
    → EncodesImm a.cb
        (group1_encoder op a r imm (bytes_of (op_size w))).cb
        (insn_of (op_size w) 0x80 (imm_opcode imm) (group1_extension op) (direct r))
        imm
unfolding x64_add_ri x64_or_ri x64_and_ri x64_sub_ri x64_xor_ri x64_cmp_ri
group1_encoder-EncodesImm add w a r imm h f = alu_ri-EncodesImm w a.cb 0 r imm (omega arith) h f
group1_encoder-EncodesImm or w a r imm h f = alu_ri-EncodesImm w a.cb 1 r imm (omega arith) h f
group1_encoder-EncodesImm and w a r imm h f = alu_ri-EncodesImm w a.cb 4 r imm (omega arith) h f
group1_encoder-EncodesImm sub w a r imm h f = alu_ri-EncodesImm w a.cb 5 r imm (omega arith) h f
group1_encoder-EncodesImm xor w a r imm h f = alu_ri-EncodesImm w a.cb 6 r imm (omega arith) h f
group1_encoder-EncodesImm cmp w a r imm h f = alu_ri-EncodesImm w a.cb 7 r imm (omega arith) h f

-- For each of the sixteen registers and every 32-bit immediate, `x64_test_ri`, in 32-bit and
-- 64-bit form, writes the group-1 instruction with extension 0, an addition to the register that
-- it should only test.
pub x64_test_ri_adds :
    (w : Wide) (a : X64Asm) (r : X64Reg) (imm : ℤ)
    → r < 16
    → FitsSigned (2 ^ 31) imm
    → EncodesImm a.cb
        (x64_test_ri a r imm (bytes_of (op_size w))).cb
        (insn_of (op_size w) 0x80 (imm_opcode imm) (group1_extension add) (direct r))
        imm
unfolding x64_test_ri
x64_test_ri_adds w a r imm h f = alu_ri-EncodesImm w a.cb 0 r imm (omega arith) h f
