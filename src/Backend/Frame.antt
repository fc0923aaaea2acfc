-- ===== src/Backend/Frame.antt =====
-- src/backend/x64.c, "Prologue / Epilogue": stack frames, and alignment of code by no-operations.
use o.Prelude.{ℕ, ◌%◌, ◌^◌, [], ◌∷◌, ltb, leb, if◌then◌else◌, ◌-◌, ◌/◌}
use o.Prelude.Int.{signed}
use o.Backend.CodeBuf.{CodeBuf, len, align_up, codebuf_emit_bytes}
use o.Backend.Asm.{X64Asm, on_cb, rsp, rbp}
use o.Backend.CodeBuf.{Bytes}
use o.Prelude.{zero, suc}
use o.Backend.Mov.{x64_push, x64_pop, x64_mov_rr}
use o.Backend.Alu.{x64_sub_ri}
use o.Backend.Jump.{x64_ret}

-- `frame_size = (u32)ALIGN_UP(frame_size, 16)`, then its cast to i32.
unfoldable pub x64_emit_prologue : X64Asm → ℕ → X64Asm
x64_emit_prologue a frame_size =
    let a1 = x64_mov_rr (x64_push a rbp) rbp rsp 8 in
    if ltb 0 frame_size
    then x64_sub_ri a1 rsp (signed (2 ^ 32) (align_up frame_size 16 % 2 ^ 32)) 8
    else a1

unfoldable pub x64_emit_epilogue : X64Asm → X64Asm
x64_emit_epilogue a = x64_ret (x64_pop (x64_mov_rr a rsp rbp 8) rbp)

abbrev pub nop1 : Bytes
nop1 = 0x90 ∷ []

abbrev pub nop2 : Bytes
nop2 = 0x66 ∷ 0x90 ∷ []

abbrev pub nop3 : Bytes
nop3 = 0x0F ∷ 0x1F ∷ 0x00 ∷ []

abbrev pub nop4 : Bytes
nop4 = 0x0F ∷ 0x1F ∷ 0x40 ∷ 0x00 ∷ []

abbrev pub nop8 : Bytes
nop8 = 0x0F ∷ 0x1F ∷ 0x84 ∷ 0x00 ∷ 0x00 ∷ 0x00 ∷ 0x00 ∷ 0x00 ∷ []

-- `while (pad >= 8) { emit(nop8); pad -= 8; }`: the rounds, and what is left of `pad` is `pad % 8`.
unfoldable pub emit_nop8 : ℕ → CodeBuf → CodeBuf
emit_nop8 zero cb = cb
emit_nop8 (suc n) cb = emit_nop8 n (codebuf_emit_bytes cb nop8)

-- One of the tests behind the loop: `if (pad >= k) { emit(nop); pad -= k; }`.
unfoldable pub emit_nop_if : ℕ → Bytes → CodeBuf × ℕ → CodeBuf × ℕ
emit_nop_if k nop (cb, pad) = if leb k pad then (codebuf_emit_bytes cb nop, pad - k) else (cb, pad)

unfoldable pub pad_nops : CodeBuf → ℕ → CodeBuf
pad_nops cb pad =
    let s8 : CodeBuf × ℕ = (emit_nop8 (pad / 8) cb, pad % 8) in
    let s4 = emit_nop_if 4 nop4 s8 in
    let s3 = emit_nop_if 3 nop3 s4 in let s2 = emit_nop_if 2 nop2 s3 in (emit_nop_if 1 nop1 s2).0

unfoldable pub x64_align : X64Asm → ℕ → X64Asm
x64_align a align = on_cb (λ cb. pad_nops cb (align_up (len cb) align - len cb)) a
