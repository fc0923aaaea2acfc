-- ===== src/Backend/Mov.antt =====
-- src/backend/x64.c, "MOV" and "Stack": moves between registers, memory and immediates, with and
-- without extension, and pushes and pops. `sz` is the operand size in bytes.
use o.Prelude.{ℕ, ◌^◌, bit_and, bit_or, true, false, ◌&&◌, ◌||◌, ltb, ◌==◌, if◌then◌else◌}
use o.Prelude.Int.{ℤ, pos, negsuc, wrap, ◌≤ℤ?◌}
use o.Backend.CodeBuf.{
  CodeBuf, codebuf_emit_byte, codebuf_emit_u16, codebuf_emit_u32, codebuf_emit_i32,
  codebuf_emit_i64,
}
use o.Backend.Asm.{
  X64Reg, X64Asm, on_cb, emit_rex, emit_rex_forced, modrm, fits_i8, u8_of, emit_mem_opnd,
  maybe_size16, ext,
}

-- The REX prefix of a two-operand instruction: always for 8 bytes, forced for 1 byte, for 4 bytes
-- if a register is extended, and never for 2 bytes.
unfoldable pub rex_for : CodeBuf → ℕ → X64Reg → X64Reg → CodeBuf
rex_for cb sz reg rm =
    if sz == 8
    then emit_rex cb true (ext reg) false (ext rm)
    else if sz == 4
    then (if ext reg || ext rm then emit_rex cb false (ext reg) false (ext rm) else cb)
    else if sz == 1
    then emit_rex_forced cb false (ext reg) false (ext rm)
    else cb

mov_rr : CodeBuf → X64Reg → X64Reg → ℕ → CodeBuf
mov_rr cb dst src sz =
    let cb1 = rex_for (maybe_size16 cb sz) sz src dst in
    let cb2 = codebuf_emit_byte cb1 (if sz == 1 then 0x88 else 0x89) in
    codebuf_emit_byte cb2 (modrm 3 (bit_and src 7) (bit_and dst 7))

unfoldable pub x64_mov_rr : X64Asm → X64Reg → X64Reg → ℕ → X64Asm
unfolding mov_rr
x64_mov_rr a dst src sz = on_cb (λ cb. mov_rr cb dst src sz) a

-- `if (dst >= 8) emit_rex(cb, false, false, false, true)`
unfoldable pub rex_b_if : CodeBuf → X64Reg → CodeBuf
rex_b_if cb r = if ext r then emit_rex cb false false false true else cb

-- The three encodings of a 64-bit immediate.
unfoldable pub mov_ri64 : CodeBuf → X64Reg → ℤ → CodeBuf
mov_ri64 cb dst imm =
    if pos 0 ≤ℤ? imm && imm ≤ℤ? pos 0xFFFFFFFF
    then codebuf_emit_u32 (codebuf_emit_byte (rex_b_if cb dst) (bit_or 0xB8 (bit_and dst 7)))
        (wrap (2 ^ 32) imm)
    else if negsuc 0x7FFFFFFF ≤ℤ? imm && imm ≤ℤ? pos 0x7FFFFFFF
    then codebuf_emit_i32
        (codebuf_emit_byte (codebuf_emit_byte (emit_rex cb true false false (ext dst)) 0xC7)
          (modrm 3 0 (bit_and dst 7)))
        imm
    else codebuf_emit_i64
        (codebuf_emit_byte (emit_rex cb true false false (ext dst)) (bit_or 0xB8 (bit_and dst 7)))
        imm

mov_ri : CodeBuf → X64Reg → ℤ → ℕ → CodeBuf
mov_ri cb0 dst imm sz =
    let cb = maybe_size16 cb0 sz in
    if sz == 8
    then mov_ri64 cb dst imm
    else if sz == 4
    then codebuf_emit_u32 (codebuf_emit_byte (rex_b_if cb dst) (bit_or 0xB8 (bit_and dst 7)))
        (wrap (2 ^ 32) imm)
    else if sz == 2
    then codebuf_emit_u16 (codebuf_emit_byte cb (bit_or 0xB8 (bit_and dst 7))) (wrap (2 ^ 16) imm)
    else codebuf_emit_byte
        (codebuf_emit_byte (emit_rex_forced cb false false false (ext dst))
          (bit_or 0xB0 (bit_and dst 7)))
        (u8_of imm)

unfoldable pub x64_mov_ri : X64Asm → X64Reg → ℤ → ℕ → X64Asm
unfolding mov_ri
x64_mov_ri a dst imm sz = on_cb (λ cb. mov_ri cb dst imm sz) a

mov_rm : CodeBuf → X64Reg → X64Reg → ℤ → ℕ → CodeBuf
mov_rm cb dst base disp sz =
    let cb1 = rex_for (maybe_size16 cb sz) sz dst base in
    emit_mem_opnd (codebuf_emit_byte cb1 (if sz == 1 then 0x8A else 0x8B)) (bit_and dst 7) base disp

unfoldable pub x64_mov_rm : X64Asm → X64Reg → X64Reg → ℤ → ℕ → X64Asm
unfolding mov_rm
x64_mov_rm a dst base disp sz = on_cb (λ cb. mov_rm cb dst base disp sz) a

mov_mr : CodeBuf → X64Reg → ℤ → X64Reg → ℕ → CodeBuf
mov_mr cb base disp src sz =
    let cb1 = rex_for (maybe_size16 cb sz) sz src base in
    emit_mem_opnd (codebuf_emit_byte cb1 (if sz == 1 then 0x88 else 0x89)) (bit_and src 7) base disp

unfoldable pub x64_mov_mr : X64Asm → X64Reg → ℤ → X64Reg → ℕ → X64Asm
unfolding mov_mr
x64_mov_mr a base disp src sz = on_cb (λ cb. mov_mr cb base disp src sz) a

mov_mi : CodeBuf → X64Reg → ℤ → ℤ → ℕ → CodeBuf
mov_mi cb base disp imm sz =
    let cb0 = maybe_size16 cb sz in
    let cb1 = if sz == 8 then emit_rex cb0 true false false (ext base) else rex_b_if cb0 base in
    let cb2 = codebuf_emit_byte cb1 (if sz == 1 then 0xC6 else 0xC7) in
    let cb3 = emit_mem_opnd cb2 0 base disp in
    if sz == 1
    then codebuf_emit_byte cb3 (u8_of imm)
    else if sz == 2
    then codebuf_emit_u16 cb3 (wrap (2 ^ 16) imm)
    else codebuf_emit_i32 cb3 imm

unfoldable pub x64_mov_mi : X64Asm → X64Reg → ℤ → ℤ → ℕ → X64Asm
unfolding mov_mi
x64_mov_mi a base disp imm sz = on_cb (λ cb. mov_mi cb base disp imm sz) a

unfoldable pub x64_lea : X64Asm → X64Reg → X64Reg → ℤ → X64Asm
x64_lea a dst base disp =
    on_cb
      (λ cb.
        emit_mem_opnd (codebuf_emit_byte (emit_rex cb true (ext dst) false (ext base)) 0x8D)
          (bit_and dst 7) base disp)
      a

-- The opcode of a sign extension by the size of its source.
movsx_opcode : CodeBuf → ℕ → CodeBuf
movsx_opcode cb src_sz =
    if src_sz == 1
    then codebuf_emit_byte (codebuf_emit_byte cb 0x0F) 0xBE
    else if src_sz == 2
    then codebuf_emit_byte (codebuf_emit_byte cb 0x0F) 0xBF
    else codebuf_emit_byte cb 0x63

-- Both arms of the source's last test emit the same ModRM byte.
unfoldable pub x64_movsx : X64Asm → X64Reg → X64Reg → ℕ → ℕ → X64Asm
unfolding movsx_opcode
x64_movsx a dst src src_sz dst_sz =
    on_cb
      (λ cb.
        let cb1 = movsx_opcode (emit_rex cb (dst_sz == 8) (ext dst) false (ext src)) src_sz in
        if ltb src_sz 4 || dst_sz == 8
        then codebuf_emit_byte cb1 (modrm 3 (bit_and dst 7) (bit_and src 7))
        else codebuf_emit_byte cb1 (modrm 3 (bit_and dst 7) (bit_and src 7)))
      a

movzx_opcode : CodeBuf → ℕ → CodeBuf
movzx_opcode cb src_sz =
    codebuf_emit_byte (codebuf_emit_byte cb 0x0F) (if src_sz == 1 then 0xB6 else 0xB7)

unfoldable pub x64_movzx : X64Asm → X64Reg → X64Reg → ℕ → ℕ → X64Asm
unfolding movzx_opcode
x64_movzx a dst src src_sz dst_sz =
    on_cb
      (λ cb.
        codebuf_emit_byte
          (movzx_opcode (emit_rex cb (dst_sz == 8) (ext dst) false (ext src)) src_sz)
          (modrm 3 (bit_and dst 7) (bit_and src 7)))
      a

unfoldable pub x64_movsx_mem : X64Asm → X64Reg → X64Reg → ℤ → ℕ → ℕ → X64Asm
unfolding movsx_opcode
x64_movsx_mem a dst base disp src_sz dst_sz =
    on_cb
      (λ cb.
        emit_mem_opnd (movsx_opcode (emit_rex cb (dst_sz == 8) (ext dst) false (ext base)) src_sz)
          (bit_and dst 7) base disp)
      a

unfoldable pub x64_movzx_mem : X64Asm → X64Reg → X64Reg → ℤ → ℕ → ℕ → X64Asm
unfolding movzx_opcode
x64_movzx_mem a dst base disp src_sz dst_sz =
    on_cb
      (λ cb.
        emit_mem_opnd (movzx_opcode (emit_rex cb (dst_sz == 8) (ext dst) false (ext base)) src_sz)
          (bit_and dst 7) base disp)
      a

-- A REX.B prefix and an opcode with the register in its low bits.
push_pop : ℕ → CodeBuf → X64Reg → CodeBuf
push_pop opcode cb r =
    codebuf_emit_byte (if ext r then codebuf_emit_byte cb 0x41 else cb)
      (bit_or opcode (bit_and r 7))

unfoldable pub x64_push : X64Asm → X64Reg → X64Asm
unfolding push_pop
x64_push a r = on_cb (λ cb. push_pop 0x50 cb r) a

unfoldable pub x64_pop : X64Asm → X64Reg → X64Asm
unfolding push_pop
x64_pop a r = on_cb (λ cb. push_pop 0x58 cb r) a

unfoldable pub x64_push_imm : X64Asm → ℤ → X64Asm
x64_push_imm a imm =
    on_cb
      (λ cb.
        if fits_i8 imm
        then codebuf_emit_byte (codebuf_emit_byte cb 0x6A) (u8_of imm)
        else codebuf_emit_i32 (codebuf_emit_byte cb 0x68) imm)
      a
