-- ===== src/Backend/Alu.antt =====
-- src/backend/x64.c, "ALU helper macros", "Bitwise" and "Compare & TEST": two-operand arithmetic,
-- multiplication and division, shifts, and the SETcc family.
use o.Prelude.{ℕ, ◌^◌, bit_and, true, false, ◌&&◌, ◌||◌, ltb, ◌==◌, if◌then◌else◌}
use o.Prelude.Int.{ℤ, wrap}
use o.Backend.CodeBuf.{CodeBuf, codebuf_emit_byte, codebuf_emit_u16, codebuf_emit_i32}
use o.Backend.Asm.{
  X64Reg, X64Asm, on_cb, emit_rex, emit_rex_forced, modrm, fits_i8, u8_of, emit_mem_opnd,
  maybe_size16, ext,
}
use o.Backend.Mov.{rex_for}

unfoldable pub alu_rr : CodeBuf → ℕ → ℕ → X64Reg → X64Reg → ℕ → CodeBuf
alu_rr cb opc8 opc dst src sz =
    let cb1 = rex_for (maybe_size16 cb sz) sz src dst in
    codebuf_emit_byte (codebuf_emit_byte cb1 (if sz == 1 then opc8 else opc))
      (modrm 3 (bit_and src 7) (bit_and dst 7))

-- The REX prefix of the one-operand forms: for 8 bytes, and for 4 bytes with an extended register.
unfoldable pub rex_rm : CodeBuf → ℕ → X64Reg → CodeBuf
rex_rm cb sz r =
    if sz == 8
    then emit_rex cb true false false (ext r)
    else if sz == 4 && ext r
    then emit_rex cb false false false true
    else cb

-- The forms that write a REX prefix for 8 bytes only.
unfoldable pub rex_8 : CodeBuf → ℕ → X64Reg → CodeBuf
rex_8 cb sz r = if sz == 8 then emit_rex cb true false false (ext r) else cb

unfoldable pub alu_ri : CodeBuf → ℕ → X64Reg → ℤ → ℕ → CodeBuf
unfolding rex_rm
alu_ri cb extension dst imm sz =
    let cb1 = rex_rm (maybe_size16 cb sz) sz dst in
    let s8 = fits_i8 imm && ltb 1 sz in
    let cb2 = codebuf_emit_byte cb1 (if sz == 1 then 0x80 else if s8 then 0x83 else 0x81) in
    let cb3 = codebuf_emit_byte cb2 (modrm 3 extension (bit_and dst 7)) in
    if sz == 1
    then codebuf_emit_byte cb3 (u8_of imm)
    else if s8
    then codebuf_emit_byte cb3 (u8_of imm)
    else if sz == 2
    then codebuf_emit_u16 cb3 (wrap (2 ^ 16) imm)
    else codebuf_emit_i32 cb3 imm

unfoldable pub x64_add_rr : X64Asm → X64Reg → X64Reg → ℕ → X64Asm
x64_add_rr a d s sz = on_cb (λ cb. alu_rr cb 0x00 0x01 d s sz) a

unfoldable pub x64_sub_rr : X64Asm → X64Reg → X64Reg → ℕ → X64Asm
x64_sub_rr a d s sz = on_cb (λ cb. alu_rr cb 0x28 0x29 d s sz) a

unfoldable pub x64_and_rr : X64Asm → X64Reg → X64Reg → ℕ → X64Asm
x64_and_rr a d s sz = on_cb (λ cb. alu_rr cb 0x20 0x21 d s sz) a

unfoldable pub x64_or_rr : X64Asm → X64Reg → X64Reg → ℕ → X64Asm
x64_or_rr a d s sz = on_cb (λ cb. alu_rr cb 0x08 0x09 d s sz) a

unfoldable pub x64_xor_rr : X64Asm → X64Reg → X64Reg → ℕ → X64Asm
x64_xor_rr a d s sz = on_cb (λ cb. alu_rr cb 0x30 0x31 d s sz) a

unfoldable pub x64_cmp_rr : X64Asm → X64Reg → X64Reg → ℕ → X64Asm
x64_cmp_rr a d s sz = on_cb (λ cb. alu_rr cb 0x38 0x39 d s sz) a

unfoldable pub x64_test_rr : X64Asm → X64Reg → X64Reg → ℕ → X64Asm
x64_test_rr a d s sz = on_cb (λ cb. alu_rr cb 0x84 0x85 d s sz) a

unfoldable pub x64_add_ri : X64Asm → X64Reg → ℤ → ℕ → X64Asm
x64_add_ri a d imm sz = on_cb (λ cb. alu_ri cb 0 d imm sz) a

unfoldable pub x64_sub_ri : X64Asm → X64Reg → ℤ → ℕ → X64Asm
x64_sub_ri a d imm sz = on_cb (λ cb. alu_ri cb 5 d imm sz) a

unfoldable pub x64_and_ri : X64Asm → X64Reg → ℤ → ℕ → X64Asm
x64_and_ri a d imm sz = on_cb (λ cb. alu_ri cb 4 d imm sz) a

unfoldable pub x64_or_ri : X64Asm → X64Reg → ℤ → ℕ → X64Asm
x64_or_ri a d imm sz = on_cb (λ cb. alu_ri cb 1 d imm sz) a

unfoldable pub x64_xor_ri : X64Asm → X64Reg → ℤ → ℕ → X64Asm
x64_xor_ri a d imm sz = on_cb (λ cb. alu_ri cb 6 d imm sz) a

unfoldable pub x64_cmp_ri : X64Asm → X64Reg → ℤ → ℕ → X64Asm
x64_cmp_ri a d imm sz = on_cb (λ cb. alu_ri cb 7 d imm sz) a

-- The source passes extension 0.
unfoldable pub x64_test_ri : X64Asm → X64Reg → ℤ → ℕ → X64Asm
x64_test_ri a r imm sz = on_cb (λ cb. alu_ri cb 0 r imm sz) a

unfoldable pub x64_add_rm : X64Asm → X64Reg → X64Reg → ℤ → ℕ → X64Asm
x64_add_rm a d b dp sz =
    on_cb
      (λ cb0.
        let cb = maybe_size16 cb0 sz in
        let cb1 =
          if sz == 8
          then emit_rex cb true (ext d) false (ext b)
          else if sz == 4 && (ext d || ext b)
          then emit_rex cb false (ext d) false (ext b)
          else cb in
        emit_mem_opnd (codebuf_emit_byte cb1 (if sz == 1 then 0x02 else 0x03)) (bit_and d 7) b dp)
      a

unfoldable pub x64_imul_rr : X64Asm → X64Reg → X64Reg → ℕ → X64Asm
x64_imul_rr a d s sz =
    on_cb
      (λ cb0.
        let cb = maybe_size16 cb0 sz in
        let cb1 =
          if sz == 8
          then emit_rex cb true (ext d) false (ext s)
          else if ext d || ext s
          then emit_rex cb false (ext d) false (ext s)
          else cb in
        codebuf_emit_byte (codebuf_emit_byte (codebuf_emit_byte cb1 0x0F) 0xAF)
          (modrm 3 (bit_and d 7) (bit_and s 7)))
      a

unfoldable pub x64_imul_rri : X64Asm → X64Reg → X64Reg → ℤ → ℕ → X64Asm
x64_imul_rri a d s imm sz =
    on_cb
      (λ cb0.
        let cb = maybe_size16 cb0 sz in
        let cb1 = if sz == 8 then emit_rex cb true (ext d) false (ext s) else cb in
        let s8 = fits_i8 imm in
        let cb2 = codebuf_emit_byte cb1 (if s8 then 0x6B else 0x69) in
        let cb3 = codebuf_emit_byte cb2 (modrm 3 (bit_and d 7) (bit_and s 7)) in
        if s8 then codebuf_emit_byte cb3 (u8_of imm) else codebuf_emit_i32 cb3 imm)
      a

unfoldable pub x64_idiv : X64Asm → X64Reg → ℕ → X64Asm
x64_idiv a divisor sz =
    on_cb
      (λ cb.
        let cb1 =
          if sz == 8
          then emit_rex cb true false false (ext divisor)
          else if ext divisor
          then emit_rex cb false false false true
          else cb in
        codebuf_emit_byte (codebuf_emit_byte cb1 (if sz == 1 then 0xF6 else 0xF7))
          (modrm 3 7 (bit_and divisor 7)))
      a

-- The one-operand group: two opcodes by size, and an extension in ModRM.
unfoldable pub unary_group : CodeBuf → ℕ → ℕ → ℕ → X64Reg → ℕ → CodeBuf
unfolding rex_8
unary_group cb opc8 opc extension r sz =
    codebuf_emit_byte (codebuf_emit_byte (rex_8 cb sz r) (if sz == 1 then opc8 else opc))
      (modrm 3 extension (bit_and r 7))

unfoldable pub x64_div : X64Asm → X64Reg → ℕ → X64Asm
unfolding unary_group
x64_div a r sz = on_cb (λ cb. unary_group cb 0xF6 0xF7 6 r sz) a

unfoldable pub x64_neg : X64Asm → X64Reg → ℕ → X64Asm
unfolding unary_group
x64_neg a r sz = on_cb (λ cb. unary_group cb 0xF6 0xF7 3 r sz) a

unfoldable pub x64_inc : X64Asm → X64Reg → ℕ → X64Asm
unfolding unary_group
x64_inc a r sz = on_cb (λ cb. unary_group cb 0xFE 0xFF 0 r sz) a

unfoldable pub x64_dec : X64Asm → X64Reg → ℕ → X64Asm
unfolding unary_group
x64_dec a r sz = on_cb (λ cb. unary_group cb 0xFE 0xFF 1 r sz) a

unfoldable pub x64_not : X64Asm → X64Reg → ℕ → X64Asm
unfolding unary_group
x64_not a r sz = on_cb (λ cb. unary_group cb 0xF6 0xF7 2 r sz) a

unfoldable pub x64_cdq : X64Asm → X64Asm
x64_cdq a = on_cb (λ cb. codebuf_emit_byte cb 0x99) a

unfoldable pub x64_cqo : X64Asm → X64Asm
x64_cqo a = on_cb (λ cb. codebuf_emit_byte (codebuf_emit_byte cb 0x48) 0x99) a

unfoldable pub shift_ri : CodeBuf → ℕ → X64Reg → ℕ → ℕ → CodeBuf
unfolding rex_rm
shift_ri cb extension r amt sz =
    let cb1 = rex_rm cb sz r in
    if amt == 1
    then codebuf_emit_byte (codebuf_emit_byte cb1 (if sz == 1 then 0xD0 else 0xD1))
        (modrm 3 extension (bit_and r 7))
    else codebuf_emit_byte
        (codebuf_emit_byte (codebuf_emit_byte cb1 (if sz == 1 then 0xC0 else 0xC1))
          (modrm 3 extension (bit_and r 7)))
        (bit_and amt 63)

unfoldable pub shift_cl : CodeBuf → ℕ → X64Reg → ℕ → CodeBuf
unfolding unary_group
shift_cl cb extension r sz = unary_group cb 0xD2 0xD3 extension r sz

unfoldable pub x64_shl_ri : X64Asm → X64Reg → ℕ → ℕ → X64Asm
x64_shl_ri a r amt sz = on_cb (λ cb. shift_ri cb 4 r amt sz) a

unfoldable pub x64_shl_cl : X64Asm → X64Reg → ℕ → X64Asm
x64_shl_cl a r sz = on_cb (λ cb. shift_cl cb 4 r sz) a

unfoldable pub x64_shr_ri : X64Asm → X64Reg → ℕ → ℕ → X64Asm
x64_shr_ri a r amt sz = on_cb (λ cb. shift_ri cb 5 r amt sz) a

unfoldable pub x64_shr_cl : X64Asm → X64Reg → ℕ → X64Asm
x64_shr_cl a r sz = on_cb (λ cb. shift_cl cb 5 r sz) a

unfoldable pub x64_sar_ri : X64Asm → X64Reg → ℕ → ℕ → X64Asm
x64_sar_ri a r amt sz = on_cb (λ cb. shift_ri cb 7 r amt sz) a

unfoldable pub x64_sar_cl : X64Asm → X64Reg → ℕ → X64Asm
x64_sar_cl a r sz = on_cb (λ cb. shift_cl cb 7 r sz) a

unfoldable pub setcc : CodeBuf → ℕ → X64Reg → CodeBuf
setcc cb cc r =
    let cb1 =
      if ext r
      then emit_rex cb false false false true
      else emit_rex_forced cb false false false false in
    codebuf_emit_byte (codebuf_emit_byte (codebuf_emit_byte cb1 0x0F) cc) (modrm 3 0 (bit_and r 7))

unfoldable pub x64_sete : X64Asm → X64Reg → X64Asm
x64_sete a r = on_cb (λ cb. setcc cb 0x94 r) a

unfoldable pub x64_setne : X64Asm → X64Reg → X64Asm
x64_setne a r = on_cb (λ cb. setcc cb 0x95 r) a

unfoldable pub x64_setl : X64Asm → X64Reg → X64Asm
x64_setl a r = on_cb (λ cb. setcc cb 0x9C r) a

unfoldable pub x64_setle : X64Asm → X64Reg → X64Asm
x64_setle a r = on_cb (λ cb. setcc cb 0x9E r) a

unfoldable pub x64_setg : X64Asm → X64Reg → X64Asm
x64_setg a r = on_cb (λ cb. setcc cb 0x9F r) a

unfoldable pub x64_setge : X64Asm → X64Reg → X64Asm
x64_setge a r = on_cb (λ cb. setcc cb 0x9D r) a

unfoldable pub x64_setb : X64Asm → X64Reg → X64Asm
x64_setb a r = on_cb (λ cb. setcc cb 0x92 r) a

unfoldable pub x64_setbe : X64Asm → X64Reg → X64Asm
x64_setbe a r = on_cb (λ cb. setcc cb 0x96 r) a

unfoldable pub x64_seta : X64Asm → X64Reg → X64Asm
x64_seta a r = on_cb (λ cb. setcc cb 0x97 r) a

unfoldable pub x64_setae : X64Asm → X64Reg → X64Asm
x64_setae a r = on_cb (λ cb. setcc cb 0x93 r) a
