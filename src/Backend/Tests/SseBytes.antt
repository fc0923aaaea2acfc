-- ===== src/Backend/Tests/SseBytes.antt =====
-- src/backend/x64.c, floating point: the bytes that instructions are written as.
use o.Prelude.{[], ◌∷◌, ◌≡◌, refl}
use o.Prelude.Int.{pos, negsuc, wrap}
use o.Backend.CodeBuf.{
  codebuf_ensure, codebuf_emit_byte, codebuf_emit_u16, codebuf_emit_u32, codebuf_emit_u64,
  codebuf_emit_i32, codebuf_emit_i64, codebuf_emit_bytes,
}
use o.Backend.Asm.{
  emit_rex, emit_rex_forced, rex_byte, modrm, sib_byte, emit_base_sib, emit_mem_opnd, maybe_size16,
}
use o.Backend.Sse.{
  x64_movsd_rr, x64_movss_rr, x64_addsd, x64_subsd, x64_mulsd, x64_divsd, x64_addss, x64_subss,
  x64_mulss, x64_divss, x64_ucomisd, x64_ucomiss, x64_cvtsd2ss, x64_cvtss2sd, x64_movsd_load,
  x64_movsd_store, x64_movss_load, x64_movss_store, x64_cvtsi2sd, x64_cvtsi2ss, x64_cvttsd2si,
  x64_cvttss2si, sse2_rr, sse2_mem,
}
use o.Backend.Tests.{written}

sse_bytes :
    written (
      (λ a. x64_movsd_rr a 0 9)
      ∷ (λ a. x64_movss_rr a 1 2)
      ∷ (λ a. x64_addsd a 0 1)
      ∷ (λ a. x64_subsd a 0 1)
      ∷ (λ a. x64_mulsd a 0 1)
      ∷ (λ a. x64_divsd a 0 1)
      ∷ (λ a. x64_addss a 0 1)
      ∷ (λ a. x64_subss a 0 1)
      ∷ (λ a. x64_mulss a 0 1)
      ∷ (λ a. x64_divss a 0 1)
      ∷ (λ a. x64_ucomisd a 2 3)
      ∷ (λ a. x64_ucomiss a 2 3)
      ∷ (λ a. x64_cvtsd2ss a 0 1)
      ∷ (λ a. x64_cvtss2sd a 0 1)
      ∷ (λ a. x64_movsd_load a 0 5 (negsuc 7))
      ∷ (λ a. x64_movsd_store a 4 (pos 8) 1)
      ∷ (λ a. x64_movss_load a 8 0 (pos 0))
      ∷ (λ a. x64_movss_store a 0 (pos 0) 8)
      ∷ (λ a. x64_cvtsi2sd a 0 1 8)
      ∷ (λ a. x64_cvtsi2ss a 0 1 4)
      ∷ (λ a. x64_cvttsd2si a 9 1 8)
      ∷ (λ a. x64_cvttss2si a 1 1 4)
      ∷ [])
    ≡ ((0xF2 ∷ 0x41 ∷ 0x0F ∷ 0x10 ∷ 0xC1 ∷ [])
        ∷ (0xF3 ∷ 0x0F ∷ 0x10 ∷ 0xCA ∷ [])
        ∷ (0xF2 ∷ 0x0F ∷ 0x58 ∷ 0xC1 ∷ [])
        ∷ (0xF2 ∷ 0x0F ∷ 0x5C ∷ 0xC1 ∷ [])
        ∷ (0xF2 ∷ 0x0F ∷ 0x59 ∷ 0xC1 ∷ [])
        ∷ (0xF2 ∷ 0x0F ∷ 0x5E ∷ 0xC1 ∷ [])
        ∷ (0xF3 ∷ 0x0F ∷ 0x58 ∷ 0xC1 ∷ [])
        ∷ (0xF3 ∷ 0x0F ∷ 0x5C ∷ 0xC1 ∷ [])
        ∷ (0xF3 ∷ 0x0F ∷ 0x59 ∷ 0xC1 ∷ [])
        ∷ (0xF3 ∷ 0x0F ∷ 0x5E ∷ 0xC1 ∷ [])
        ∷ (0x66 ∷ 0x0F ∷ 0x2E ∷ 0xD3 ∷ [])
        ∷ (0x0F ∷ 0x2E ∷ 0xD3 ∷ [])
        ∷ (0xF2 ∷ 0x0F ∷ 0x5A ∷ 0xC1 ∷ [])
        ∷ (0xF3 ∷ 0x0F ∷ 0x5A ∷ 0xC1 ∷ [])
        ∷ (0xF2 ∷ 0x0F ∷ 0x10 ∷ 0x45 ∷ 0xF8 ∷ [])
        ∷ (0xF2 ∷ 0x0F ∷ 0x11 ∷ 0x4C ∷ 0x24 ∷ 0x08 ∷ [])
        ∷ (0xF3 ∷ 0x44 ∷ 0x0F ∷ 0x10 ∷ 0x00 ∷ [])
        ∷ (0xF3 ∷ 0x44 ∷ 0x0F ∷ 0x11 ∷ 0x00 ∷ [])
        ∷ (0xF2 ∷ 0x48 ∷ 0x0F ∷ 0x2A ∷ 0xC1 ∷ [])
        ∷ (0xF3 ∷ 0x0F ∷ 0x2A ∷ 0xC1 ∷ [])
        ∷ (0xF2 ∷ 0x4C ∷ 0x0F ∷ 0x2C ∷ 0xC9 ∷ [])
        ∷ (0xF3 ∷ 0x0F ∷ 0x2C ∷ 0xC9 ∷ [])
        ∷ [])
unfolding codebuf_ensure codebuf_emit_byte codebuf_emit_u16 codebuf_emit_u32 codebuf_emit_u64
    codebuf_emit_i32 codebuf_emit_i64 codebuf_emit_bytes wrap emit_rex emit_rex_forced rex_byte
    modrm sib_byte emit_base_sib emit_mem_opnd maybe_size16 sse2_rr sse2_mem x64_movsd_rr
    x64_movss_rr x64_addsd x64_subsd x64_mulsd x64_divsd x64_addss x64_subss x64_mulss x64_divss
    x64_ucomisd x64_ucomiss x64_cvtsd2ss x64_cvtss2sd x64_movsd_load x64_movsd_store x64_movss_load
    x64_movss_store x64_cvtsi2sd x64_cvtsi2ss x64_cvttsd2si x64_cvttss2si
sse_bytes = refl
