-- ===== src/Backend/Tests/FrameBytes.antt =====
-- src/backend/x64.c, frames: the bytes that instructions are written as.
use o.Prelude.{[], ◌∷◌, ◌≡◌, refl}
use o.Prelude.Int.{wrap, signed}
use o.Backend.CodeBuf.{
  codebuf_ensure, codebuf_emit_byte, codebuf_emit_u16, codebuf_emit_u32, codebuf_emit_u64,
  codebuf_emit_i32, codebuf_emit_i64, codebuf_emit_bytes,
}
use o.Backend.Asm.{
  emit_rex, emit_rex_forced, rex_byte, modrm, sib_byte, emit_base_sib, emit_mem_opnd, maybe_size16,
}
use o.Backend.Frame.{x64_emit_prologue, x64_emit_epilogue}
use o.Backend.Mov.{x64_push, x64_pop, x64_mov_rr, rex_for}
use o.Backend.Alu.{x64_sub_ri, alu_ri, alu_rr, rex_rm}
use o.Backend.Jump.{x64_ret}
use o.Backend.Tests.{written}

frame_bytes : written ((λ a. x64_emit_prologue a 32) ∷ (λ a. x64_emit_epilogue a) ∷ []) ≡ (
    (0x55 ∷ 0x48 ∷ 0x89 ∷ 0xE5 ∷ 0x48 ∷ 0x83 ∷ 0xEC ∷ 0x20 ∷ [])
    ∷ (0x48 ∷ 0x89 ∷ 0xEC ∷ 0x5D ∷ 0xC3 ∷ [])
    ∷ [])
unfolding codebuf_ensure codebuf_emit_byte codebuf_emit_u16 codebuf_emit_u32 codebuf_emit_u64
    codebuf_emit_i32 codebuf_emit_i64 codebuf_emit_bytes wrap emit_rex emit_rex_forced rex_byte
    modrm sib_byte emit_base_sib emit_mem_opnd maybe_size16 x64_emit_prologue x64_emit_epilogue
    signed x64_push x64_pop x64_mov_rr rex_for x64_sub_ri alu_ri alu_rr rex_rm x64_ret
frame_bytes = refl
