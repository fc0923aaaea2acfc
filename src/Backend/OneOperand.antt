-- ===== src/Backend/OneOperand.antt =====
-- The one-operand and immediate forms of src/backend/x64.c against the decoder.
use mathlib.Core.List.{append_assoc}
use o.Prelude.{
  ap, ℕ, ◌+◌, ◌*◌, ◌%◌, ◌<◌, true, false, [], ◌∷◌, ◌++◌, ◌≡◌, refl, ◌∙◌, arith, ◌==◌, bit_and,
}
use o.Backend.CodeBuf.{CodeBuf, codebuf_emit_byte}
use o.Backend.Asm.{X64Reg, X64Asm, modrm, emit_rex, ext}
use o.Backend.Alu.{
  unary_group, x64_neg, x64_not, x64_div, x64_idiv, x64_inc, x64_dec, x64_shl_cl, x64_shr_cl,
  x64_sar_cl, shift_cl,
}
use o.Backend.Bytes.{emit_byte-buf, emit_modrm-buf, low3}
use o.Backend.Decode.{direct}
use o.Backend.Operand.{decode_modrm_reg, extend-low}
use o.Backend.Prefix.{emit_rex-buf, OpSize, qword, Nameable, prefix_bytes, rex_of}
use o.Backend.Encode.{
  Encodes, Opcodes, opcode_of, insn_of, decode-operands, opcode_of-lt, rex_b-ext,
}
use o.Backend.TwoOperand.{Writes}

-- An opcode with an extension in the register field, behind the prefixes of its operand.
pub Encodes-extension :
    (s : OpSize) (opc8 opc e r : ℕ) (cb cb1 : CodeBuf)
    → Opcodes opc8 opc
    → Nameable s e r
    → e < 8
    → r < 16
    → cb1.buf ≡ cb.buf ++ prefix_bytes s e r
    → Encodes cb
        (codebuf_emit_byte (codebuf_emit_byte cb1 (opcode_of s opc8 opc)) (modrm 3 e (bit_and r 7)))
        (insn_of s opc8 opc e (direct r))
Encodes-extension s opc8 opc e r cb cb1 o n he hr written = (
  prefix_bytes s e r ++ (opcode_of s opc8 opc ∷ (3 * 64 + e * 8 + r % 8) ∷ []),
  rw
      (
        low3 r hr,
        emit_modrm-buf _ 3 e (r % 8) (omega arith) he (omega arith),
        emit_byte-buf,
        opcode_of-lt s o,
        written,
      )
      (simp append_assoc),
  λ rest.
      decode-operands s opc8 opc e r o n (omega arith) ((3 * 64 + e * 8 + r % 8) ∷ []) rest
        (direct r)
        (decode_modrm_reg (rex_of s e r) e (r % 8) he (omega arith) rest
          ∙ rw (rex_b-ext s e r n, extend-low r hr, whole)),
)
  where
    whole : e % 8 ≡ e
    whole = omega arith

-- The eight one-operand instructions that share an encoder, with the manual's opcode and extension.
pub data Unary : Type 0 where
  not neg div inc dec shl_cl shr_cl sar_cl : Unary

abbrev pub unary_opcode : Unary → ℕ
unary_opcode not = 0xF6
unary_opcode neg = 0xF6
unary_opcode div = 0xF6
unary_opcode inc = 0xFE
unary_opcode dec = 0xFE
unary_opcode shl_cl = 0xD2
unary_opcode shr_cl = 0xD2
unary_opcode sar_cl = 0xD2

abbrev pub unary_extension : Unary → ℕ
unary_extension not = 2
unary_extension neg = 3
unary_extension div = 6
unary_extension inc = 0
unary_extension dec = 1
unary_extension shl_cl = 4
unary_extension shr_cl = 5
unary_extension sar_cl = 7

abbrev pub unary_encoder : Unary → X64Asm → X64Reg → ℕ → X64Asm
unary_encoder not = x64_not
unary_encoder neg = x64_neg
unary_encoder div = x64_div
unary_encoder inc = x64_inc
unary_encoder dec = x64_dec
unary_encoder shl_cl = x64_shl_cl
unary_encoder shr_cl = x64_shr_cl
unary_encoder sar_cl = x64_sar_cl

unary-Opcodes : (op : Unary) → Opcodes (unary_opcode op) (unary_opcode op + 1)
unary-Opcodes not = omega arith
unary-Opcodes _ = omega arith

unary-lt : (op : Unary) → unary_extension op < 8
unary-lt not = omega arith
unary-lt _ = omega arith

-- Each is `unary_group` at the manual's numbers.
unary_encoder-group :
    (op : Unary) (a : X64Asm) (r sz : ℕ)
    → (unary_encoder op a r sz) ≡ record a {
      cb = unary_group a.cb (unary_opcode op) (unary_opcode op + 1) (unary_extension op) r sz;
    }
unfolding x64_not x64_neg x64_div x64_inc x64_dec x64_shl_cl x64_shr_cl x64_sar_cl shift_cl
unary_encoder-group not a r sz = refl
unary_encoder-group _ a r sz = refl

-- These, and the division of signed numbers.
pub data OneOperand : Type 0 where
  group : Unary → OneOperand
  idiv : OneOperand

abbrev pub one_operand_opcode : OneOperand → ℕ
one_operand_opcode (group op) = unary_opcode op
one_operand_opcode idiv = 0xF6

abbrev pub one_operand_extension : OneOperand → ℕ
one_operand_extension (group op) = unary_extension op
one_operand_extension idiv = 7

abbrev pub one_operand_encoder : OneOperand → X64Asm → X64Reg → ℕ → X64Asm
one_operand_encoder (group op) = unary_encoder op
one_operand_encoder idiv = x64_idiv

-- In 64-bit form the prefix has the high bit of the register.
wide_group :
    (a : X64Asm) (opc8 e : ℕ) (r : X64Reg)
    → Opcodes opc8 (opc8 + 1)
    → e < 8
    → r < 16
    → Encodes a.cb
        (codebuf_emit_byte
          (codebuf_emit_byte
            (emit_rex a.cb true false false (ext r))
            (opcode_of qword opc8 (opc8 + 1)))
          (modrm 3 e (bit_and r 7)))
        (insn_of qword opc8 (opc8 + 1) e (direct r))
wide_group a opc8 e r o he h =
    Encodes-extension qword opc8 (opc8 + 1) e r a.cb (emit_rex a.cb true false false (ext r)) o tt
      he h
      (let low : ext e ≡ false = ground (arith, he) in
        rw low (emit_rex-buf a.cb true false false (ext r)))

-- In 64-bit form not, neg, div, idiv, inc, dec and the shifts shl, shr and sar by cl, on one of the
-- sixteen registers, are each read back with the manual's opcode and extension on the register that
-- was named; the fixups and labels stay as they are.
pub unary_encoder-Writes :
    (op : OneOperand) (a : X64Asm) (r : X64Reg)
    → r < 16
    → Writes a (one_operand_encoder op a r 8) (
        insn_of qword
          (one_operand_opcode op)
          (one_operand_opcode op + 1)
          (one_operand_extension op)
          (direct r))
unfolding unary_group x64_idiv
unary_encoder-Writes (group op) a r h = rw (unary_encoder-group op a r 8) (
  wide_group a (unary_opcode op) (unary_extension op) r (unary-Opcodes op) (unary-lt op) h,
  refl,
  refl,
)
unary_encoder-Writes idiv a r h = (wide_group a 0xF6 7 r (omega arith) (omega arith) h, refl, refl)

unary_group_drops_high_bit :
    (cb : CodeBuf) (opc8 opc e r sz : ℕ)
    → r < 8
    → (sz == 8) ≡ false
    → unary_group cb opc8 opc e (r + 8) sz ≡ unary_group cb opc8 opc e r sz
unfolding unary_group
unary_group_drops_high_bit cb opc8 opc e r sz h other =
    let same : (r + 8) % 8 ≡ r % 8 = omega arith in
    rw other (rw (low3 (r + 8) (omega arith), low3 r (omega arith), same))

-- In every form but the 64-bit one, not, neg, div, inc, dec and the shifts shl, shr and sar by cl of
-- one of r8 to r15 are written, byte for byte, as the same instruction of the register eight below it.
pub unary_encoder_drops_high_bit :
    (op : Unary) (a : X64Asm) (r sz : ℕ)
    → r < 8
    → (sz == 8) ≡ false
    → unary_encoder op a (r + 8) sz ≡ unary_encoder op a r sz
unary_encoder_drops_high_bit op a r sz h other =
    rw (unary_encoder-group op a (r + 8) sz, unary_encoder-group op a r sz)
      (ap (λ cb. record a { cb = cb })
        (unary_group_drops_high_bit a.cb (unary_opcode op) (unary_opcode op + 1)
          (unary_extension op) r sz h other))
