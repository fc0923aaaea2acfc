-- ===== src/Jit/Arith.antt =====
-- src/jit/jit.c, jit_emit_instr: moves, arithmetic, comparisons and conversions.
use o.Prelude.{ℕ, ◌==◌, Option, some, if◌then◌else◌}
use o.Prelude.Int.{ℤ}
use o.Ir.Values.{
  IrVal, temp, const_i, IrOp, IrInstr, iop_cmp_eq, iop_cmp_ne, iop_cmp_lt, iop_cmp_le, iop_cmp_gt,
  iop_cmp_ge,
}
use o.Backend.Labels.{◌>>=◌}
use o.Backend.Asm.{X64Reg, X64Asm, rax, rcx, rdx, rbp}
use o.Backend.Mov.{x64_mov_rr, x64_mov_ri, x64_mov_mr, x64_movsx, x64_movzx}
use o.Backend.Alu.{
  x64_xor_rr, x64_cmp_rr, x64_idiv, x64_neg, x64_cdq, x64_cqo, x64_sete, x64_setne, x64_setl,
  x64_setle, x64_setg, x64_setge,
}
use o.Jit.{VRegInfo, JitContext, Runtime, in_register}
use o.Jit.Values.{
  size_or, type_of, vreg_of, is_temporary, emit_on, info, jit_val_to_reg, jit_store_vreg, mov_if,
  reg_or, jit_result,
}

-- `x64_mov_ri` into the register of the virtual register, or through rax into its slot.
abbrev mov_const : VRegInfo → ℤ → ℕ → X64Asm → X64Asm
mov_const di v sz a =
    if in_register di.state
    then x64_mov_ri a di.reg v sz
    else x64_mov_mr (x64_mov_ri a rax v sz) rbp di.stack_off rax sz

abbrev mov_temp : VRegInfo → X64Reg → ℕ → X64Asm → X64Asm
mov_temp di src sz a =
    if in_register di.state then mov_if di.reg src sz a else x64_mov_mr a rbp di.stack_off src sz

unfoldable pub jit_mov_from : Runtime → JitContext → IrInstr → IrVal → Option JitContext
jit_mov_from rt ctx ins (const_i v ty) =
    some (emit_on ctx (mov_const (info ctx ins.dst) v (size_or 8 ins.result_type)))
jit_mov_from rt ctx ins (temp v ty) = do
  (src, ctx') ← jit_val_to_reg rt ctx (temp v ty) rax
  some (emit_on ctx' (mov_temp (info ctx' ins.dst) src (size_or 8 ins.result_type)))
jit_mov_from rt ctx ins _ = some ctx

unfoldable pub jit_mov : Runtime → JitContext → IrInstr → Option JitContext
jit_mov rt ctx ins = if is_temporary ins.dst then jit_mov_from rt ctx ins ins.src1 else some ctx

-- The left operand goes to r10 before the right one is loaded, so that they cannot meet.
unfoldable pub jit_operands : Runtime → JitContext → IrInstr → ℕ → Option (X64Reg × JitContext)
jit_operands rt ctx ins sz = do
  (lhs, ctx1) ← jit_val_to_reg rt ctx ins.src1 10
  jit_val_to_reg rt (emit_on ctx1 (mov_if 10 lhs sz)) ins.src2 11

abbrev pub Alu : Type 0
Alu = X64Asm → X64Reg → X64Reg → ℕ → X64Asm

-- ADD, SUB, MUL, AND, OR and XOR differ in the last instruction.
unfoldable pub jit_binary : Alu → Runtime → JitContext → IrInstr → Option JitContext
jit_binary op rt ctx ins =
    let sz = size_or 8 ins.result_type in
    do
      (rhs, ctx2) ← jit_operands rt ctx ins sz
      let dst = reg_or (info ctx2 ins.dst) rax
      some (
          jit_store_vreg (emit_on ctx2 (λ a. op (mov_if dst 10 sz a) dst rhs sz)) (vreg_of ins.dst)
            dst)

-- ADD and SUB do nothing without a destination.
unfoldable pub jit_add_sub : Alu → Runtime → JitContext → IrInstr → Option JitContext
jit_add_sub op rt ctx ins = if is_temporary ins.dst then jit_binary op rt ctx ins else some ctx

-- The sign of rax goes to rdx, then the division.
unfoldable pub divide : X64Reg → ℕ → X64Asm → X64Asm
divide rhs sz a = x64_idiv (if sz == 8 then x64_cqo a else x64_cdq a) rhs sz

unfoldable pub jit_divide : Runtime → JitContext → IrInstr → ℕ → Option JitContext
jit_divide rt ctx ins sz = do
  (rhs, ctx1) ← jit_val_to_reg rt ctx ins.src2 rcx
  (lhs, ctx2) ← jit_val_to_reg rt ctx1 ins.src1 rax
  some (emit_on ctx2 (λ a. divide rhs sz (mov_if rax lhs sz a)))

unfoldable pub jit_div : Runtime → JitContext → IrInstr → Option JitContext
jit_div rt ctx ins =
    let sz = size_or 8 ins.result_type in
    do ctx' ← jit_divide rt ctx ins sz; some (emit_on ctx' (jit_result (info ctx' ins.dst) rax sz))

-- The remainder is in rdx; it is always moved.
unfoldable pub jit_mod : Runtime → JitContext → IrInstr → Option JitContext
jit_mod rt ctx ins =
    let sz = size_or 8 ins.result_type in
    do
      ctx' ← jit_divide rt ctx ins sz
      let di = info ctx' ins.dst
      some (
          emit_on ctx' (λ a.
            if in_register di.state
            then x64_mov_rr a di.reg rdx sz
            else x64_mov_mr a rbp di.stack_off rdx sz))

-- The shape of NEG, SEXT and ZEXT.
abbrev unary_to :
    (X64Asm → X64Reg → X64Reg → X64Asm) → Runtime → JitContext → IrInstr → Option JitContext
unary_to op rt ctx ins = do
  (src, ctx1) ← jit_val_to_reg rt ctx ins.src1 rax
  let dst = reg_or (info ctx1 ins.dst) rax
  some (jit_store_vreg (emit_on ctx1 (λ a. op a dst src)) (vreg_of ins.dst) dst)

unfoldable pub jit_neg : Runtime → JitContext → IrInstr → Option JitContext
jit_neg rt ctx ins =
    let sz = size_or 8 ins.result_type in
    unary_to (λ a dst src. x64_neg (mov_if dst src sz a) dst sz) rt ctx ins

unfoldable pub jit_sext : Runtime → JitContext → IrInstr → Option JitContext
jit_sext rt ctx ins =
    unary_to
      (λ a dst src. x64_movsx a dst src (size_or 4 (type_of ins.src1)) (size_or 8 ins.result_type))
      rt ctx ins

unfoldable pub jit_zext : Runtime → JitContext → IrInstr → Option JitContext
jit_zext rt ctx ins =
    unary_to
      (λ a dst src. x64_movzx a dst src (size_or 4 (type_of ins.src1)) (size_or 8 ins.result_type))
      rt ctx ins

unfoldable pub set_on : IrOp → X64Asm → X64Asm
set_on iop_cmp_eq a = x64_sete a rax
set_on iop_cmp_ne a = x64_setne a rax
set_on iop_cmp_lt a = x64_setl a rax
set_on iop_cmp_le a = x64_setle a rax
set_on iop_cmp_gt a = x64_setg a rax
set_on iop_cmp_ge a = x64_setge a rax
set_on _ a = a

-- The flags are set, then rax is cleared by a 32-bit exclusive or, then its low byte is set.
unfoldable pub jit_compare : Runtime → JitContext → IrInstr → Option JitContext
jit_compare rt ctx ins =
    let sz = size_or 8 (type_of ins.src1) in
    do
      (rhs, ctx2) ← jit_operands rt ctx ins sz
      some (
          emit_on ctx2 (λ a.
            jit_result (info ctx2 ins.dst) rax 1
              (set_on ins.op (x64_xor_rr (x64_cmp_rr a 10 rhs sz) rax rax 4))))
