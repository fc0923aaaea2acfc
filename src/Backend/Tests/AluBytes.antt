-- ===== src/Backend/Tests/AluBytes.antt =====
-- src/backend/x64.c, two-register and immediate arithmetic: the bytes that instructions are written as.
use o.Prelude.{[], ◌∷◌, ◌≡◌, refl}
use o.Prelude.Int.{pos, wrap}
use o.Backend.CodeBuf.{
  codebuf_ensure, codebuf_emit_byte, codebuf_emit_u16, codebuf_emit_u32, codebuf_emit_u64,
  codebuf_emit_i32, codebuf_emit_i64, codebuf_emit_bytes,
}
use o.Backend.Asm.{
  emit_rex, emit_rex_forced, rex_byte, modrm, sib_byte, emit_base_sib, emit_mem_opnd, maybe_size16,
}
use o.Backend.Alu.{
  x64_test_ri, x64_add_rm, x64_imul_rr, x64_imul_rri, x64_idiv, x64_cdq, x64_cqo, x64_shl_ri,
  x64_shr_ri, x64_sar_ri, x64_sete, x64_setne, x64_setl, x64_setle, x64_setg, x64_setge, x64_setb,
  x64_setbe, x64_seta, x64_setae, alu_ri, rex_rm, rex_8, shift_ri, setcc,
}
use o.Backend.Tests.{written}

alu_bytes :
    written (
      (λ a. x64_test_ri a 1 (pos 5) 4)
      ∷ (λ a. x64_add_rm a 9 4 (pos 8) 8)
      ∷ (λ a. x64_imul_rr a 1 10 8)
      ∷ (λ a. x64_imul_rri a 1 2 (pos 300) 4)
      ∷ (λ a. x64_idiv a 3 8)
      ∷ (λ a. x64_cdq a)
      ∷ (λ a. x64_cqo a)
      ∷ (λ a. x64_shl_ri a 3 1 4)
      ∷ (λ a. x64_shr_ri a 9 5 8)
      ∷ (λ a. x64_sar_ri a 2 7 1)
      ∷ (λ a. x64_sete a 1)
      ∷ (λ a. x64_setne a 6)
      ∷ (λ a. x64_setl a 9)
      ∷ (λ a. x64_setle a 0)
      ∷ (λ a. x64_setg a 0)
      ∷ (λ a. x64_setge a 0)
      ∷ (λ a. x64_setb a 0)
      ∷ (λ a. x64_setbe a 0)
      ∷ (λ a. x64_seta a 0)
      ∷ (λ a. x64_setae a 0)
      ∷ [])
    ≡ ((0x83 ∷ 0xC1 ∷ 0x05 ∷ [])
        ∷ (0x4C ∷ 0x03 ∷ 0x4C ∷ 0x24 ∷ 0x08 ∷ [])
        ∷ (0x49 ∷ 0x0F ∷ 0xAF ∷ 0xCA ∷ [])
        ∷ (0x69 ∷ 0xCA ∷ 0x2C ∷ 0x01 ∷ 0x00 ∷ 0x00 ∷ [])
        ∷ (0x48 ∷ 0xF7 ∷ 0xFB ∷ [])
        ∷ (0x99 ∷ [])
        ∷ (0x48 ∷ 0x99 ∷ [])
        ∷ (0xD1 ∷ 0xE3 ∷ [])
        ∷ (0x49 ∷ 0xC1 ∷ 0xE9 ∷ 0x05 ∷ [])
        ∷ (0xC0 ∷ 0xFA ∷ 0x07 ∷ [])
        ∷ (0x40 ∷ 0x0F ∷ 0x94 ∷ 0xC1 ∷ [])
        ∷ (0x40 ∷ 0x0F ∷ 0x95 ∷ 0xC6 ∷ [])
        ∷ (0x41 ∷ 0x0F ∷ 0x9C ∷ 0xC1 ∷ [])
        ∷ (0x40 ∷ 0x0F ∷ 0x9E ∷ 0xC0 ∷ [])
        ∷ (0x40 ∷ 0x0F ∷ 0x9F ∷ 0xC0 ∷ [])
        ∷ (0x40 ∷ 0x0F ∷ 0x9D ∷ 0xC0 ∷ [])
        ∷ (0x40 ∷ 0x0F ∷ 0x92 ∷ 0xC0 ∷ [])
        ∷ (0x40 ∷ 0x0F ∷ 0x96 ∷ 0xC0 ∷ [])
        ∷ (0x40 ∷ 0x0F ∷ 0x97 ∷ 0xC0 ∷ [])
        ∷ (0x40 ∷ 0x0F ∷ 0x93 ∷ 0xC0 ∷ [])
        ∷ [])
unfolding codebuf_ensure codebuf_emit_byte codebuf_emit_u16 codebuf_emit_u32 codebuf_emit_u64
    codebuf_emit_i32 codebuf_emit_i64 codebuf_emit_bytes wrap emit_rex emit_rex_forced rex_byte
    modrm sib_byte emit_base_sib emit_mem_opnd maybe_size16 alu_ri rex_rm rex_8 shift_ri setcc
    x64_test_ri x64_add_rm x64_imul_rr x64_imul_rri x64_idiv x64_cdq x64_cqo x64_shl_ri x64_shr_ri
    x64_sar_ri x64_sete x64_setne x64_setl x64_setle x64_setg x64_setge x64_setb x64_setbe x64_seta
    x64_setae
alu_bytes = refl
