-- ===== src/Backend/Tests/JumpBytes.antt =====
-- src/backend/x64.c, jumps and calls: the bytes that instructions are written as.
use o.Prelude.{[], ◌∷◌, ◌≡◌, refl}
use o.Prelude.Int.{wrap}
use o.Backend.CodeBuf.{
  codebuf_ensure, codebuf_emit_byte, codebuf_emit_u16, codebuf_emit_u32, codebuf_emit_u64,
  codebuf_emit_i32, codebuf_emit_i64, codebuf_emit_bytes,
}
use o.Backend.Labels.{fixup_add}
use o.Backend.Asm.{
  emit_rex, emit_rex_forced, rex_byte, modrm, sib_byte, emit_base_sib, emit_mem_opnd, maybe_size16,
}
use o.Backend.Jump.{
  x64_je, x64_jne, x64_jl, x64_jle, x64_jg, x64_jge, x64_jb, x64_jbe, x64_ja, x64_jae, x64_call_reg,
  x64_ret, x64_nop, jcc_rel32,
}
use o.Backend.Tests.{written}

jump_bytes :
    written (
      (λ a. x64_je a 1)
      ∷ (λ a. x64_jne a 1)
      ∷ (λ a. x64_jl a 1)
      ∷ (λ a. x64_jle a 1)
      ∷ (λ a. x64_jg a 1)
      ∷ (λ a. x64_jge a 1)
      ∷ (λ a. x64_jb a 1)
      ∷ (λ a. x64_jbe a 1)
      ∷ (λ a. x64_ja a 1)
      ∷ (λ a. x64_jae a 1)
      ∷ (λ a. x64_call_reg a 10)
      ∷ (λ a. x64_ret a)
      ∷ (λ a. x64_nop a)
      ∷ [])
    ≡ ((0x0F ∷ 0x84 ∷ 0x00 ∷ 0x00 ∷ 0x00 ∷ 0x00 ∷ [])
        ∷ (0x0F ∷ 0x85 ∷ 0x00 ∷ 0x00 ∷ 0x00 ∷ 0x00 ∷ [])
        ∷ (0x0F ∷ 0x8C ∷ 0x00 ∷ 0x00 ∷ 0x00 ∷ 0x00 ∷ [])
        ∷ (0x0F ∷ 0x8E ∷ 0x00 ∷ 0x00 ∷ 0x00 ∷ 0x00 ∷ [])
        ∷ (0x0F ∷ 0x8F ∷ 0x00 ∷ 0x00 ∷ 0x00 ∷ 0x00 ∷ [])
        ∷ (0x0F ∷ 0x8D ∷ 0x00 ∷ 0x00 ∷ 0x00 ∷ 0x00 ∷ [])
        ∷ (0x0F ∷ 0x82 ∷ 0x00 ∷ 0x00 ∷ 0x00 ∷ 0x00 ∷ [])
        ∷ (0x0F ∷ 0x86 ∷ 0x00 ∷ 0x00 ∷ 0x00 ∷ 0x00 ∷ [])
        ∷ (0x0F ∷ 0x87 ∷ 0x00 ∷ 0x00 ∷ 0x00 ∷ 0x00 ∷ [])
        ∷ (0x0F ∷ 0x83 ∷ 0x00 ∷ 0x00 ∷ 0x00 ∷ 0x00 ∷ [])
        ∷ (0x41 ∷ 0xFF ∷ 0xD2 ∷ [])
        ∷ (0xC3 ∷ [])
        ∷ (0x90 ∷ [])
        ∷ [])
unfolding codebuf_ensure codebuf_emit_byte codebuf_emit_u16 codebuf_emit_u32 codebuf_emit_u64
    codebuf_emit_i32 codebuf_emit_i64 codebuf_emit_bytes wrap emit_rex emit_rex_forced rex_byte
    modrm sib_byte emit_base_sib emit_mem_opnd maybe_size16 jcc_rel32 x64_je x64_jne x64_jl x64_jle
    x64_jg x64_jge x64_jb x64_jbe x64_ja x64_jae x64_call_reg x64_ret x64_nop fixup_add
jump_bytes = refl
