-- ===== src/Backend/Asm.antt =====
-- include/backend/x64.h and src/backend/x64.c, "Encoding helpers": registers, the assembler's
-- state, and the REX, ModRM, SIB and displacement bytes of an operand.
use o.Prelude.{
  ℕ, ◌*◌, ◌%◌, ◌^◌, bit_and, bit_or, Bool, not, ◌&&◌, ◌||◌, List, [], ◌∷◌, leb, ◌==◌, if◌then◌else◌,
}
use o.Prelude.Int.{ℤ, pos, negsuc, wrap, ◌≤ℤ?◌}
use o.Backend.CodeBuf.{CodeBuf, codebuf_emit_byte, codebuf_emit_i32}
use o.Backend.Labels.{FixupTable, LabelTable}

-- `X64Reg` and `X64XmmReg`: C enumerations, 0 to 15.
abbrev pub X64Reg : Type 0
X64Reg = ℕ

abbrev pub rax : X64Reg
rax = 0

abbrev pub rcx : X64Reg
rcx = 1

abbrev pub rdx : X64Reg
rdx = 2

abbrev pub rsp : X64Reg
rsp = 4

abbrev pub rbp : X64Reg
rbp = 5

abbrev pub rsi : X64Reg
rsi = 6

abbrev pub rdi : X64Reg
rdi = 7

abbrev pub sysv_int_arg_regs : List X64Reg
sysv_int_arg_regs = rdi ∷ rsi ∷ rdx ∷ rcx ∷ 8 ∷ 9 ∷ []

abbrev pub sysv_flt_arg_regs : List X64Reg
sysv_flt_arg_regs = 0 ∷ 1 ∷ 2 ∷ 3 ∷ 4 ∷ 5 ∷ 6 ∷ 7 ∷ []

-- The three objects that `X64Asm` points to.
pub record X64Asm : Type 0 where
  pub cb : CodeBuf
  pub ft : FixupTable
  pub lt : LabelTable

unfoldable pub x64asm_init : CodeBuf → FixupTable → LabelTable → X64Asm
x64asm_init cb ft lt = record { cb = cb; ft = ft; lt = lt }

-- An encoder that writes to the code buffer only.
abbrev pub on_cb : (CodeBuf → CodeBuf) → X64Asm → X64Asm
on_cb f a = record a { cb = f a.cb }

abbrev pub bit_if : Bool → ℕ → ℕ
bit_if b n = if b then n else 0

-- `0x40 | (W ? 8 : 0) | (R ? 4 : 0) | (X ? 2 : 0) | (B ? 1 : 0)`
unfoldable pub rex_byte : Bool → Bool → Bool → Bool → ℕ
rex_byte w r x b =
    bit_or (bit_or (bit_or (bit_or 0x40 (bit_if w 8)) (bit_if r 4)) (bit_if x 2)) (bit_if b 1)

unfoldable pub emit_rex : CodeBuf → Bool → Bool → Bool → Bool → CodeBuf
emit_rex cb w r x b =
    let rex = rex_byte w r x b in if not (rex == 0x40) || w then codebuf_emit_byte cb rex else cb

unfoldable pub emit_rex_forced : CodeBuf → Bool → Bool → Bool → Bool → CodeBuf
emit_rex_forced cb w r x b = codebuf_emit_byte cb (rex_byte w r x b)

unfoldable pub modrm : ℕ → ℕ → ℕ → ℕ
modrm m reg rm = bit_or (bit_or (m * 64) (bit_and reg 7 * 8)) (bit_and rm 7) % 256

unfoldable pub sib_byte : ℕ → ℕ → ℕ → ℕ
sib_byte scale idx base = bit_or (bit_or (scale * 64) (bit_and idx 7 * 8)) (bit_and base 7) % 256

-- `imm >= -128 && imm <= 127`
abbrev pub fits_i8 : ℤ → Bool
fits_i8 v = negsuc 127 ≤ℤ? v && v ≤ℤ? pos 127

abbrev pub is_zero : ℤ → Bool
is_zero v = pos 0 ≤ℤ? v && v ≤ℤ? pos 0

-- `(u8)(i8)v` and `(u8)v`
abbrev pub u8_of : ℤ → ℕ
u8_of v = wrap (2 ^ 8) v

-- A base of rsp or r12 needs the SIB byte.
unfoldable pub emit_base_sib : CodeBuf → ℕ → CodeBuf
emit_base_sib cb base_low = if base_low == 4 then codebuf_emit_byte cb (sib_byte 0 4 4) else cb

unfoldable pub emit_mem_opnd : CodeBuf → ℕ → X64Reg → ℤ → CodeBuf
emit_mem_opnd cb reg_field base disp =
    let base_low = bit_and base 7 in
    if is_zero disp && not (base_low == 5)
    then emit_base_sib (codebuf_emit_byte cb (modrm 0 reg_field base_low)) base_low
    else if fits_i8 disp
    then codebuf_emit_byte
        (emit_base_sib (codebuf_emit_byte cb (modrm 1 reg_field base_low)) base_low) (u8_of disp)
    else codebuf_emit_i32
        (emit_base_sib (codebuf_emit_byte cb (modrm 2 reg_field base_low)) base_low) disp

unfoldable pub maybe_size16 : CodeBuf → ℕ → CodeBuf
maybe_size16 cb sz = if sz == 2 then codebuf_emit_byte cb 0x66 else cb

-- `r >= 8`: one of r8 to r15.
abbrev pub ext : X64Reg → Bool
ext r = leb 8 r
