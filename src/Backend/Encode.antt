-- ===== src/Backend/Encode.antt =====
-- The two-operand encoders of src/backend/x64.c against the decoder: each instruction is read back
-- with its opcode, its operand size and its operands.
use mathlib.Core.List.{append_assoc}
use o.Prelude.{
  ℕ, ◌+◌, ◌*◌, ◌%◌, ◌^◌, ◌<◌, false, [], ◌∷◌, ◌++◌, ◌≡◌, refl, ap, ◌∙◌, arith, some, bit_and,
}
use o.Prelude.Int.{ℤ, FitsSigned}
use o.Backend.CodeBuf.{Bytes, CodeBuf, u8, codebuf_emit_byte}
use o.Backend.Asm.{X64Reg, maybe_size16, ext, modrm, emit_mem_opnd}
use o.Backend.Bytes.{emit_byte-buf, emit_modrm-buf, low3}
use o.Backend.Mov.{rex_for}
use o.Backend.Decode.{
  Insn, Operand, direct, indirect, decode_body, decode, decode_modrm, byte_operand, byte_reg,
  op_size, extend,
}
use o.Backend.Operand.{
  mem_bytes, emit_mem_opnd-buf, decode_modrm-mem_bytes, decode_modrm_reg, extend-low,
}
use o.Backend.Prefix.{
  OpSize, byte, word, dword, qword, bytes_of, is_word, Nameable, rex_of, prefix_bytes, rex_for-buf,
  IsOpcode, decode_prefix-prefix_bytes,
}

-- What an encoder appends to the buffer is one instruction, which the decoder reads back whatever
-- follows it.
abbrev pub Encodes : CodeBuf → CodeBuf → Insn → Type 0
Encodes cb cb' insn =
    (code : Bytes) × (cb'.buf ≡ cb.buf ++ code)
    × ((rest : Bytes) → decode (code ++ rest) ≡ some (insn, rest))

-- The opcode of an operand size: even for bytes, odd for the other sizes.
abbrev pub opcode_of : OpSize → ℕ → ℕ → ℕ
opcode_of byte opc8 opc = opc8
opcode_of _ opc8 opc = opc

pub record Opcodes (opc8 opc : ℕ) : Type 0 where
  pub even : opc8 % 2 ≡ 0
  pub uneven : opc % 2 ≡ 1
  pub small8 : opc8 < 256
  pub small : opc < 256
  pub is_opcode8 : IsOpcode opc8
  pub is_opcode : IsOpcode opc

abbrev pub insn_of : OpSize → ℕ → ℕ → X64Reg → Operand → Insn
insn_of s opc8 opc reg operand = record {
  size = bytes_of s;
  opcode = opcode_of s opc8 opc;
  field = reg;
  operand = operand;
}

-- In every size the decoder names the register that is meant.
op_size-opcode_of :
    (s : OpSize) (reg rm : X64Reg) (opc8 opc : ℕ)
    → Opcodes opc8 opc
    → op_size (is_word s) (rex_of s reg rm) (opcode_of s opc8 opc) ≡ bytes_of s
op_size-opcode_of byte reg rm opc8 opc o = ground arith
op_size-opcode_of word reg rm opc8 opc o = ground arith
op_size-opcode_of dword reg rm opc8 opc o = ground arith
op_size-opcode_of qword reg rm opc8 opc o = ground arith

byte_reg-rex_of : (s : OpSize) (reg rm r : X64Reg) → byte_reg (bytes_of s) (rex_of s reg rm) r ≡ r
byte_reg-rex_of byte reg rm r = refl
byte_reg-rex_of _ reg rm r = refl

byte_operand-rex_of :
    (s : OpSize) (reg rm : X64Reg) (operand : Operand)
    → byte_operand (bytes_of s) (rex_of s reg rm) operand ≡ operand
byte_operand-rex_of s reg rm (direct r) = ap direct (byte_reg-rex_of s reg rm r)
byte_operand-rex_of s reg rm (indirect base disp) = refl

extend-rex_r :
    (s : OpSize) (reg rm : X64Reg)
    → Nameable s reg rm
    → reg < 16
    → extend (rex_of s reg rm).r (reg % 8) ≡ reg
extend-rex_r byte reg rm n h = extend-low reg h
extend-rex_r word reg rm n h = ground arith
extend-rex_r dword reg rm n h = extend-low reg h
extend-rex_r qword reg rm n h = extend-low reg h

pub rex_b-ext : (s : OpSize) (reg rm : X64Reg) → Nameable s reg rm → (rex_of s reg rm).b ≡ ext rm
rex_b-ext word reg rm n = ground arith
rex_b-ext _ reg rm n = refl

rex_x-false : (s : OpSize) (reg rm : X64Reg) → (rex_of s reg rm).x ≡ false
rex_x-false byte reg rm = refl
rex_x-false _ reg rm = refl

IsOpcode-opcode_of :
    (s : OpSize) {opc8 opc : ℕ} → Opcodes opc8 opc → IsOpcode (opcode_of s opc8 opc)
IsOpcode-opcode_of byte o = o.is_opcode8
IsOpcode-opcode_of word o = o.is_opcode
IsOpcode-opcode_of dword o = o.is_opcode
IsOpcode-opcode_of qword o = o.is_opcode

pub opcode_of-lt :
    (s : OpSize) {opc8 opc : ℕ}
    → Opcodes opc8 opc
    → u8 (opcode_of s opc8 opc) ≡ opcode_of s opc8 opc
opcode_of-lt byte o = omega (arith, o.small8)
opcode_of-lt word o = omega (arith, o.small)
opcode_of-lt dword o = omega (arith, o.small)
opcode_of-lt qword o = omega (arith, o.small)

module _ (s : OpSize) (opc8 opc reg rm : ℕ) (o : Opcodes opc8 opc) (n : Nameable s reg rm)
    (hr : reg < 16) where
  decode_body-operands :
      (bs rest : Bytes) (operand : Operand)
      → decode_modrm (rex_of s reg rm) bs
        ≡ some (extend (rex_of s reg rm).r (reg % 8), operand, rest)
      → decode_body (is_word s) (rex_of s reg rm) (opcode_of s opc8 opc ∷ bs)
        ≡ some (insn_of s opc8 opc reg operand, rest)
  unfolding decode_body
  decode_body-operands bs rest operand h =
      rw (h, decode_body)
        (rw (
          op_size-opcode_of s reg rm opc8 opc o,
          extend-rex_r s reg rm n hr,
          byte_reg-rex_of s reg rm reg,
          byte_operand-rex_of s reg rm operand,
        ))

  -- The prefixes and the opcode, with operand bytes that the decoder reads back, are an instruction.
  pub decode-operands :
      (tail rest : Bytes) (operand : Operand)
      → decode_modrm (rex_of s reg rm) (tail ++ rest)
        ≡ some (extend (rex_of s reg rm).r (reg % 8), operand, rest)
      → decode ((prefix_bytes s reg rm ++ (opcode_of s opc8 opc ∷ tail)) ++ rest)
        ≡ some (insn_of s opc8 opc reg operand, rest)
  unfolding decode
  decode-operands tail rest operand h =
      let split = decode_prefix-prefix_bytes s reg rm _ (tail ++ rest) n (IsOpcode-opcode_of s o) in
      rw (append_assoc, split) (decode_body-operands (tail ++ rest) rest operand h)

  -- What the encoders write before the operands.
  opcode-buf :
      (cb : CodeBuf)
      → (codebuf_emit_byte
          (rex_for (maybe_size16 cb (bytes_of s)) (bytes_of s) reg rm)
          (opcode_of s opc8 opc)).buf
        ≡ cb.buf ++ (prefix_bytes s reg rm ++ opcode_of s opc8 opc ∷ [])
  opcode-buf cb =
      rw (emit_byte-buf, rex_for-buf cb s reg rm n, opcode_of-lt s o) (append_assoc cb.buf _ _)

  -- A register operand.
  pub Encodes-reg :
      (cb : CodeBuf)
      → rm < 16
      → Encodes cb
          (codebuf_emit_byte
            (codebuf_emit_byte
              (rex_for (maybe_size16 cb (bytes_of s)) (bytes_of s) reg rm)
              (opcode_of s opc8 opc))
            (modrm 3 (bit_and reg 7) (bit_and rm 7)))
          (insn_of s opc8 opc reg (direct rm))
  Encodes-reg cb hm = (
    prefix_bytes s reg rm ++ (opcode_of s opc8 opc ∷ (3 * 64 + reg % 8 * 8 + rm % 8) ∷ []),
    rw
        (
          low3 reg hr,
          low3 rm hm,
          emit_modrm-buf _ 3 (reg % 8) (rm % 8) (omega arith) (omega arith) (omega arith),
          opcode-buf cb,
        )
        (simp append_assoc),
    λ rest. decode-operands ((3 * 64 + reg % 8 * 8 + rm % 8) ∷ []) rest (direct rm) (
        decode_modrm_reg (rex_of s reg rm) (reg % 8) (rm % 8) (omega arith) (omega arith) rest
        ∙ rw (rex_b-ext s reg rm n, extend-low rm hm)),
  )

  -- A memory operand.
  pub Encodes-mem :
      (cb : CodeBuf) (disp : ℤ)
      → rm < 16
      → FitsSigned (2 ^ 31) disp
      → Encodes cb
          (emit_mem_opnd
            (codebuf_emit_byte
              (rex_for (maybe_size16 cb (bytes_of s)) (bytes_of s) reg rm)
              (opcode_of s opc8 opc))
            (bit_and reg 7)
            rm
            disp)
          (insn_of s opc8 opc reg (indirect rm disp))
  Encodes-mem cb disp hm f = (
    prefix_bytes s reg rm ++ (opcode_of s opc8 opc ∷ mem_bytes (reg % 8) rm disp),
    rw (low3 reg hr, emit_mem_opnd-buf _ (reg % 8) rm disp (omega arith) hm, opcode-buf cb)
        (simp append_assoc),
    λ rest. decode-operands (mem_bytes (reg % 8) rm disp) rest (indirect rm disp) (
        decode_modrm-mem_bytes (rex_of s reg rm) (reg % 8) rm disp (omega arith) hm
          (rex_b-ext s reg rm n) (rex_x-false s reg rm) f rest),
  )
