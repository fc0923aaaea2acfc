-- ===== src/Backend/Tests/MovBytes.antt =====
-- src/backend/x64.c, moves: the bytes that instructions are written as.
use o.Prelude.{[], ◌∷◌, ◌≡◌, refl}
use o.Prelude.Int.{pos, negsuc, wrap}
use o.Backend.CodeBuf.{
  codebuf_ensure, codebuf_emit_byte, codebuf_emit_u16, codebuf_emit_u32, codebuf_emit_u64,
  codebuf_emit_i32, codebuf_emit_i64, codebuf_emit_bytes,
}
use o.Backend.Asm.{
  emit_rex, emit_rex_forced, rex_byte, modrm, sib_byte, emit_base_sib, emit_mem_opnd, maybe_size16,
}
use o.Backend.Mov.{
  x64_mov_ri, x64_mov_mi, x64_lea, x64_movsx, x64_movzx, x64_movsx_mem, x64_movzx_mem, x64_push,
  x64_pop, x64_push_imm, rex_for, rex_b_if, mov_ri64,
}
use o.Backend.Tests.{written}

mov_bytes :
    written (
      (λ a. x64_mov_ri a 0 (pos 7) 4)
      ∷ (λ a. x64_mov_mi a 5 (pos 0) (negsuc 0) 4)
      ∷ (λ a. x64_lea a 0 13 (pos 0))
      ∷ (λ a. x64_movsx a 0 1 4 8)
      ∷ (λ a. x64_movzx a 0 6 1 4)
      ∷ (λ a. x64_movsx_mem a 0 4 (pos 16) 1 8)
      ∷ (λ a. x64_movzx_mem a 1 2 (pos 0) 2 4)
      ∷ (λ a. x64_push a 12)
      ∷ (λ a. x64_pop a 3)
      ∷ (λ a. x64_push_imm a (negsuc 127))
      ∷ [])
    ≡ ((0xB8 ∷ 0x07 ∷ 0x00 ∷ 0x00 ∷ 0x00 ∷ [])
        ∷ (0xC7 ∷ 0x45 ∷ 0x00 ∷ 0xFF ∷ 0xFF ∷ 0xFF ∷ 0xFF ∷ [])
        ∷ (0x49 ∷ 0x8D ∷ 0x45 ∷ 0x00 ∷ [])
        ∷ (0x48 ∷ 0x63 ∷ 0xC1 ∷ [])
        ∷ (0x0F ∷ 0xB6 ∷ 0xC6 ∷ [])
        ∷ (0x48 ∷ 0x0F ∷ 0xBE ∷ 0x44 ∷ 0x24 ∷ 0x10 ∷ [])
        ∷ (0x0F ∷ 0xB7 ∷ 0x0A ∷ [])
        ∷ (0x41 ∷ 0x54 ∷ [])
        ∷ (0x5B ∷ [])
        ∷ (0x6A ∷ 0x80 ∷ [])
        ∷ [])
unfolding codebuf_ensure codebuf_emit_byte codebuf_emit_u16 codebuf_emit_u32 codebuf_emit_u64
    codebuf_emit_i32 codebuf_emit_i64 codebuf_emit_bytes wrap emit_rex emit_rex_forced rex_byte
    modrm sib_byte emit_base_sib emit_mem_opnd maybe_size16 rex_for rex_b_if mov_ri64 x64_mov_ri
    x64_mov_mi x64_lea x64_movsx x64_movzx x64_movsx_mem x64_movzx_mem x64_push x64_pop x64_push_imm
mov_bytes = refl
