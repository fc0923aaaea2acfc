-- ===== src/Backend/Jump.antt =====
-- src/backend/x64.c, "Jumps": jumps and calls to labels, whose 32-bit displacement is a fixup, and
-- label definitions.
use o.Prelude.{ℕ, bit_and, if◌then◌else◌}
use o.Prelude.Int.{pos}
use o.Backend.CodeBuf.{len, codebuf_emit_byte, codebuf_emit_i32}
use o.Prelude.{Option, some}
use o.Backend.Labels.{fixup_add, label_define, ◌>>=◌}
use o.Backend.Asm.{X64Reg, X64Asm, on_cb, modrm, ext}

-- `fixup_add(ft, cb->len, label_id); codebuf_emit_i32(cb, 0)`
emit_fixup : X64Asm → ℕ → X64Asm
emit_fixup a id = record a { cb = codebuf_emit_i32 a.cb (pos 0); ft = fixup_add a.ft (len a.cb) id }

unfoldable pub jcc_rel32 : X64Asm → ℕ → ℕ → X64Asm
unfolding emit_fixup
jcc_rel32 a cc label_id =
    emit_fixup (on_cb (λ cb. codebuf_emit_byte (codebuf_emit_byte cb 0x0F) cc) a) label_id

unfoldable pub x64_jmp : X64Asm → ℕ → X64Asm
unfolding emit_fixup
x64_jmp a id = emit_fixup (on_cb (λ cb. codebuf_emit_byte cb 0xE9) a) id

unfoldable pub x64_je : X64Asm → ℕ → X64Asm
x64_je a id = jcc_rel32 a 0x84 id

unfoldable pub x64_jne : X64Asm → ℕ → X64Asm
x64_jne a id = jcc_rel32 a 0x85 id

unfoldable pub x64_jl : X64Asm → ℕ → X64Asm
x64_jl a id = jcc_rel32 a 0x8C id

unfoldable pub x64_jle : X64Asm → ℕ → X64Asm
x64_jle a id = jcc_rel32 a 0x8E id

unfoldable pub x64_jg : X64Asm → ℕ → X64Asm
x64_jg a id = jcc_rel32 a 0x8F id

unfoldable pub x64_jge : X64Asm → ℕ → X64Asm
x64_jge a id = jcc_rel32 a 0x8D id

unfoldable pub x64_jb : X64Asm → ℕ → X64Asm
x64_jb a id = jcc_rel32 a 0x82 id

unfoldable pub x64_jbe : X64Asm → ℕ → X64Asm
x64_jbe a id = jcc_rel32 a 0x86 id

unfoldable pub x64_ja : X64Asm → ℕ → X64Asm
x64_ja a id = jcc_rel32 a 0x87 id

unfoldable pub x64_jae : X64Asm → ℕ → X64Asm
x64_jae a id = jcc_rel32 a 0x83 id

unfoldable pub x64_call_reg : X64Asm → X64Reg → X64Asm
x64_call_reg a r =
    on_cb
      (λ cb.
        codebuf_emit_byte (codebuf_emit_byte (if ext r then codebuf_emit_byte cb 0x41 else cb) 0xFF)
          (modrm 3 2 (bit_and r 7)))
      a

unfoldable pub x64_call_label : X64Asm → ℕ → X64Asm
unfolding emit_fixup
x64_call_label a label_id = emit_fixup (on_cb (λ cb. codebuf_emit_byte cb 0xE8) a) label_id

unfoldable pub x64_ret : X64Asm → X64Asm
x64_ret a = on_cb (λ cb. codebuf_emit_byte cb 0xC3) a

unfoldable pub x64_nop : X64Asm → X64Asm
x64_nop a = on_cb (λ cb. codebuf_emit_byte cb 0x90) a

-- `none` is the panic of `label_define`.
unfoldable pub x64_def_label : X64Asm → ℕ → Option X64Asm
x64_def_label a label_id = do
  lt ← label_define a.lt label_id (len a.cb)
  some (record a { lt = lt })
