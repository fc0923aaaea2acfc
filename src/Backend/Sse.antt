-- ===== src/Backend/Sse.antt =====
-- src/backend/x64.c, "SSE2": scalar floating-point moves, arithmetic, comparison and conversion.
use o.Prelude.{ℕ, bit_and, bit_or, false, not, ◌||◌, ◌==◌, if◌then◌else◌}
use o.Prelude.Int.{ℤ}
use o.Backend.CodeBuf.{CodeBuf, codebuf_emit_byte}
use o.Backend.Asm.{X64Reg, X64Asm, on_cb, emit_rex, modrm, emit_mem_opnd, ext, bit_if}

-- `if (dst >= 8 || src >= 8) emit(0x40 | ((dst>=8)?4:0) | ((src>=8)?1:0))`
sse_rex : CodeBuf → X64Reg → X64Reg → CodeBuf
sse_rex cb reg rm =
    if ext reg || ext rm
    then codebuf_emit_byte cb (bit_or (bit_or 0x40 (bit_if (ext reg) 4)) (bit_if (ext rm) 1))
    else cb

-- The prefix, REX and opcode bytes; a second opcode byte of 0 is left out.
sse_opcode : CodeBuf → ℕ → ℕ → ℕ → X64Reg → X64Reg → CodeBuf
unfolding sse_rex
sse_opcode cb pfx op1 op2 reg rm =
    let cb1 = sse_rex (codebuf_emit_byte cb pfx) reg rm in
    let cb2 = codebuf_emit_byte (codebuf_emit_byte cb1 0x0F) op1 in
    if not (op2 == 0) then codebuf_emit_byte cb2 op2 else cb2

unfoldable pub sse2_rr : CodeBuf → ℕ → ℕ → ℕ → X64Reg → X64Reg → CodeBuf
unfolding sse_opcode
sse2_rr cb pfx op1 op2 dst src =
    codebuf_emit_byte (sse_opcode cb pfx op1 op2 dst src) (modrm 3 (bit_and dst 7) (bit_and src 7))

unfoldable pub sse2_mem : CodeBuf → ℕ → ℕ → ℕ → X64Reg → X64Reg → ℤ → CodeBuf
unfolding sse_opcode
sse2_mem cb pfx op1 op2 dst base disp =
    emit_mem_opnd (sse_opcode cb pfx op1 op2 dst base) (bit_and dst 7) base disp

unfoldable pub x64_movsd_rr : X64Asm → X64Reg → X64Reg → X64Asm
x64_movsd_rr a d s = on_cb (λ cb. sse2_rr cb 0xF2 0x10 0 d s) a

unfoldable pub x64_movss_rr : X64Asm → X64Reg → X64Reg → X64Asm
x64_movss_rr a d s = on_cb (λ cb. sse2_rr cb 0xF3 0x10 0 d s) a

unfoldable pub x64_addsd : X64Asm → X64Reg → X64Reg → X64Asm
x64_addsd a d s = on_cb (λ cb. sse2_rr cb 0xF2 0x58 0 d s) a

unfoldable pub x64_subsd : X64Asm → X64Reg → X64Reg → X64Asm
x64_subsd a d s = on_cb (λ cb. sse2_rr cb 0xF2 0x5C 0 d s) a

unfoldable pub x64_mulsd : X64Asm → X64Reg → X64Reg → X64Asm
x64_mulsd a d s = on_cb (λ cb. sse2_rr cb 0xF2 0x59 0 d s) a

unfoldable pub x64_divsd : X64Asm → X64Reg → X64Reg → X64Asm
x64_divsd a d s = on_cb (λ cb. sse2_rr cb 0xF2 0x5E 0 d s) a

unfoldable pub x64_addss : X64Asm → X64Reg → X64Reg → X64Asm
x64_addss a d s = on_cb (λ cb. sse2_rr cb 0xF3 0x58 0 d s) a

unfoldable pub x64_subss : X64Asm → X64Reg → X64Reg → X64Asm
x64_subss a d s = on_cb (λ cb. sse2_rr cb 0xF3 0x5C 0 d s) a

unfoldable pub x64_mulss : X64Asm → X64Reg → X64Reg → X64Asm
x64_mulss a d s = on_cb (λ cb. sse2_rr cb 0xF3 0x59 0 d s) a

unfoldable pub x64_divss : X64Asm → X64Reg → X64Reg → X64Asm
x64_divss a d s = on_cb (λ cb. sse2_rr cb 0xF3 0x5E 0 d s) a

unfoldable pub x64_ucomisd : X64Asm → X64Reg → X64Reg → X64Asm
x64_ucomisd a d s = on_cb (λ cb. sse2_rr cb 0x66 0x2E 0 d s) a

unfoldable pub x64_cvtsd2ss : X64Asm → X64Reg → X64Reg → X64Asm
x64_cvtsd2ss a d s = on_cb (λ cb. sse2_rr cb 0xF2 0x5A 0 d s) a

unfoldable pub x64_cvtss2sd : X64Asm → X64Reg → X64Reg → X64Asm
x64_cvtss2sd a d s = on_cb (λ cb. sse2_rr cb 0xF3 0x5A 0 d s) a

unfoldable pub x64_movsd_load : X64Asm → X64Reg → X64Reg → ℤ → X64Asm
x64_movsd_load a d b dp = on_cb (λ cb. sse2_mem cb 0xF2 0x10 0 d b dp) a

unfoldable pub x64_movsd_store : X64Asm → X64Reg → ℤ → X64Reg → X64Asm
x64_movsd_store a b dp s = on_cb (λ cb. sse2_mem cb 0xF2 0x11 0 s b dp) a

unfoldable pub x64_movss_load : X64Asm → X64Reg → X64Reg → ℤ → X64Asm
x64_movss_load a d b dp = on_cb (λ cb. sse2_mem cb 0xF3 0x10 0 d b dp) a

unfoldable pub x64_movss_store : X64Asm → X64Reg → ℤ → X64Reg → X64Asm
x64_movss_store a b dp s = on_cb (λ cb. sse2_mem cb 0xF3 0x11 0 s b dp) a

unfoldable pub x64_ucomiss : X64Asm → X64Reg → X64Reg → X64Asm
unfolding sse_rex
x64_ucomiss a l r =
    on_cb
      (λ cb.
        codebuf_emit_byte (codebuf_emit_byte (codebuf_emit_byte (sse_rex cb l r) 0x0F) 0x2E)
          (modrm 3 (bit_and l 7) (bit_and r 7)))
      a

-- A conversion between an integer register and an XMM register: REX.W by the integer's size.
convert : CodeBuf → ℕ → ℕ → ℕ → X64Reg → X64Reg → CodeBuf
convert cb pfx op sz d s =
    let cb1 = emit_rex (codebuf_emit_byte cb pfx) (sz == 8) (ext d) false (ext s) in
    codebuf_emit_byte (codebuf_emit_byte (codebuf_emit_byte cb1 0x0F) op)
      (modrm 3 (bit_and d 7) (bit_and s 7))

unfoldable pub x64_cvtsi2sd : X64Asm → X64Reg → X64Reg → ℕ → X64Asm
unfolding convert
x64_cvtsi2sd a d s sz = on_cb (λ cb. convert cb 0xF2 0x2A sz d s) a

unfoldable pub x64_cvtsi2ss : X64Asm → X64Reg → X64Reg → ℕ → X64Asm
unfolding convert
x64_cvtsi2ss a d s sz = on_cb (λ cb. convert cb 0xF3 0x2A sz d s) a

unfoldable pub x64_cvttsd2si : X64Asm → X64Reg → X64Reg → ℕ → X64Asm
unfolding convert
x64_cvttsd2si a d s sz = on_cb (λ cb. convert cb 0xF2 0x2C sz d s) a

unfoldable pub x64_cvttss2si : X64Asm → X64Reg → X64Reg → ℕ → X64Asm
unfolding convert
x64_cvttss2si a d s sz = on_cb (λ cb. convert cb 0xF3 0x2C sz d s) a
