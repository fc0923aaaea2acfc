-- ===== src/Jit/Values.antt =====
-- src/jit/jit.c, "Code generation": the sizes of values, and where their registers are. `none` is a
-- failed assertion or a panic.
use o.Prelude.{ℕ, ◌==◌, Bool, true, false, Option, none, some, if◌then◌else◌, ltb}
use o.Frontend.Types.{TypeKind, ty_primitive_size, ty_void}
use o.Ir.Values.{IrVal, void, temp, const_i, const_f, global, func, label}
use o.Backend.Asm.{X64Reg, X64Asm, rbp}
use o.Backend.Mov.{x64_mov_rm, x64_mov_mr, x64_mov_ri, x64_mov_rr}
use o.Jit.{VRegInfo, JitContext, Runtime, info_of, in_register, is_spilled}

unfoldable pub ty_size : TypeKind → ℕ
ty_size ty = ty_primitive_size ty

-- `sz = ty_size(ty); if (!sz) sz = d`
abbrev pub size_or : ℕ → TypeKind → ℕ
size_or d ty = if ty_size ty == 0 then d else ty_size ty

-- `v.type`; that of a label, a function or a void value is the zero of the enumeration.
abbrev pub type_of : IrVal → TypeKind
type_of (temp _ ty) = ty
type_of (const_i _ ty) = ty
type_of (const_f _ ty) = ty
type_of (global _ ty) = ty
type_of _ = ty_void

-- `instr->dst.vreg`, which the code reads of temporaries only, or of zeroed memory.
abbrev pub vreg_of : IrVal → ℕ
vreg_of (temp v _) = v
vreg_of _ = 0

abbrev pub is_temporary : IrVal → Bool
is_temporary (temp _ _) = true
is_temporary _ = false

abbrev pub emit_on : JitContext → (X64Asm → X64Asm) → JitContext
emit_on ctx f = record ctx { asm = f ctx.asm }

abbrev pub info : JitContext → IrVal → VRegInfo
info ctx v = info_of ctx.vregs (vreg_of v)

unfoldable pub vreg_to_reg : JitContext → ℕ → Option X64Reg
vreg_to_reg ctx vr =
    if ltb vr 1024
    then (if in_register (info_of ctx.vregs vr).state
        then (if (info_of ctx.vregs vr).is_float then none else some (info_of ctx.vregs vr).reg)
        else none)
    else none

unfoldable pub vreg_to_xmm : JitContext → ℕ → Option X64Reg
vreg_to_xmm ctx vr =
    if ltb vr 1024
    then (if in_register (info_of ctx.vregs vr).state
        then (if (info_of ctx.vregs vr).is_float then some (info_of ctx.vregs vr).reg else none)
        else none)
    else none

-- The register with the value, and the context after the instruction that may load it.
unfoldable pub jit_val_to_reg : Runtime → JitContext → IrVal → X64Reg → Option (X64Reg × JitContext)
jit_val_to_reg rt ctx (temp v ty) scratch =
    let i = info_of ctx.vregs v in
    if in_register i.state
    then some (i.reg, ctx)
    else some (scratch, emit_on ctx (λ a. x64_mov_rm a scratch rbp i.stack_off (size_or 8 ty)))
jit_val_to_reg rt ctx (const_i v ty) scratch =
    some (scratch, emit_on ctx (λ a. x64_mov_ri a scratch v 8))
jit_val_to_reg rt ctx (global name ty) scratch =
    some (scratch, emit_on ctx (λ a. x64_mov_ri a scratch (rt.string_addr name) 8))
jit_val_to_reg rt ctx void scratch = none
jit_val_to_reg rt ctx (const_f _ _) scratch = none
jit_val_to_reg rt ctx (func _) scratch = none
jit_val_to_reg rt ctx (label _) scratch = none

unfoldable pub jit_store_vreg : JitContext → ℕ → X64Reg → JitContext
jit_store_vreg ctx vr src =
    let i = info_of ctx.vregs vr in
    if is_spilled i.state then emit_on ctx (λ a. x64_mov_mr a rbp i.stack_off src 8) else ctx

-- `if (dst != src) x64_mov_rr(a, dst, src, sz)`
abbrev pub mov_if : X64Reg → X64Reg → ℕ → X64Asm → X64Asm
mov_if dst src sz a = if dst == src then a else x64_mov_rr a dst src sz

-- `di->state == VREG_IN_REGISTER ? di->phys_reg : X64_RAX`
abbrev pub reg_or : VRegInfo → X64Reg → X64Reg
reg_or i r = if in_register i.state then i.reg else r

-- The result of an instruction that leaves it in `src`: into the register if that is another one,
-- or into the spill slot.
unfoldable pub jit_result : VRegInfo → X64Reg → ℕ → X64Asm → X64Asm
jit_result i src sz a =
    if in_register i.state
    then mov_if i.reg src sz a
    else if is_spilled i.state
    then x64_mov_mr a rbp i.stack_off src sz
    else a
