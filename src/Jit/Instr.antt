-- ===== src/Jit/Instr.antt =====
-- src/jit/jit.c, jit_emit_instr: the code of one instruction, by its operation.
use o.Prelude.{Option, some, List, [], ◌∷◌}
use o.Ir.Values.{
  IrOp, iop_add, iop_sub, iop_mul, iop_div, iop_mod, iop_and, iop_or, iop_xor, iop_neg, iop_cmp_eq,
  iop_cmp_ne, iop_cmp_lt, iop_cmp_le, iop_cmp_gt, iop_cmp_ge, iop_mov, iop_load, iop_store,
  iop_sext, iop_zext, iop_label, iop_jmp, iop_jz, iop_jnz, iop_call, iop_ret, iop_ret_void,
  iop_alloca, iop_nop, IrInstr,
}
use o.Backend.Labels.{◌>>=◌}
use o.Backend.Alu.{x64_add_rr, x64_sub_rr, x64_and_rr, x64_or_rr, x64_xor_rr, x64_imul_rr}
use o.Backend.Jump.{x64_jmp, x64_nop}
use o.Jit.{JitContext, Runtime}
use o.Jit.Values.{emit_on}
use o.Jit.Arith.{
  jit_mov, jit_binary, jit_add_sub, jit_div, jit_mod, jit_neg, jit_sext, jit_zext, jit_compare,
}
use o.Jit.Memory.{
  label_of, jit_alloca, jit_load, jit_store, jit_label, jit_jz, jit_jnz, jit_leave, jit_ret,
}
use o.Jit.Calls.{jit_call}

-- An operation that has no case gets a no-operation.
unfoldable pub jit_emit_op : IrOp → Runtime → JitContext → IrInstr → Option JitContext
jit_emit_op iop_mov rt ctx ins = jit_mov rt ctx ins
jit_emit_op iop_add rt ctx ins = jit_add_sub x64_add_rr rt ctx ins
jit_emit_op iop_sub rt ctx ins = jit_add_sub x64_sub_rr rt ctx ins
jit_emit_op iop_mul rt ctx ins = jit_binary x64_imul_rr rt ctx ins
jit_emit_op iop_div rt ctx ins = jit_div rt ctx ins
jit_emit_op iop_mod rt ctx ins = jit_mod rt ctx ins
jit_emit_op iop_and rt ctx ins = jit_binary x64_and_rr rt ctx ins
jit_emit_op iop_or rt ctx ins = jit_binary x64_or_rr rt ctx ins
jit_emit_op iop_xor rt ctx ins = jit_binary x64_xor_rr rt ctx ins
jit_emit_op iop_neg rt ctx ins = jit_neg rt ctx ins
jit_emit_op iop_cmp_eq rt ctx ins = jit_compare rt ctx ins
jit_emit_op iop_cmp_ne rt ctx ins = jit_compare rt ctx ins
jit_emit_op iop_cmp_lt rt ctx ins = jit_compare rt ctx ins
jit_emit_op iop_cmp_le rt ctx ins = jit_compare rt ctx ins
jit_emit_op iop_cmp_gt rt ctx ins = jit_compare rt ctx ins
jit_emit_op iop_cmp_ge rt ctx ins = jit_compare rt ctx ins
jit_emit_op iop_label rt ctx ins = jit_label ctx ins
jit_emit_op iop_jmp rt ctx ins = some (emit_on ctx (λ a. x64_jmp a (label_of ins.src1)))
jit_emit_op iop_jz rt ctx ins = jit_jz rt ctx ins
jit_emit_op iop_jnz rt ctx ins = jit_jnz rt ctx ins
jit_emit_op iop_call rt ctx ins = jit_call rt ctx ins
jit_emit_op iop_ret rt ctx ins = jit_ret rt ctx ins
jit_emit_op iop_ret_void rt ctx ins = some (jit_leave ctx)
jit_emit_op iop_alloca rt ctx ins = some (jit_alloca ctx ins)
jit_emit_op iop_load rt ctx ins = jit_load rt ctx ins
jit_emit_op iop_store rt ctx ins = jit_store rt ctx ins
jit_emit_op iop_sext rt ctx ins = jit_sext rt ctx ins
jit_emit_op iop_zext rt ctx ins = jit_zext rt ctx ins
jit_emit_op iop_nop rt ctx ins = some (emit_on ctx x64_nop)
jit_emit_op _ rt ctx ins = some (emit_on ctx x64_nop)

unfoldable pub jit_emit_instr : Runtime → JitContext → IrInstr → Option JitContext
jit_emit_instr rt ctx ins = jit_emit_op ins.op rt ctx ins

unfoldable pub jit_emit_instrs : Runtime → JitContext → List IrInstr → Option JitContext
jit_emit_instrs rt ctx [] = some ctx
jit_emit_instrs rt ctx (ins ∷ rest) = do
  ctx' ← jit_emit_instr rt ctx ins
  jit_emit_instrs rt ctx' rest
