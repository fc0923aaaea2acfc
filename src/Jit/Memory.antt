-- ===== src/Jit/Memory.antt =====
-- src/jit/jit.c, jit_emit_instr: stack slots, loads and stores, labels, jumps and returns.
use o.Prelude.{ℕ, ◌^◌, List, [], ◌∷◌, Option, some, take, reverse}
use o.Prelude.Int.{ℤ, pos, wrap, signed}
use o.Ir.Values.{IrVal, const_i, label, IrInstr}
use o.Backend.Labels.{◌>>=◌}
use o.Backend.Asm.{X64Reg, X64Asm, rax, rcx, rbp}
use o.Backend.Mov.{x64_mov_rm, x64_mov_mr, x64_lea, x64_pop}
use o.Backend.Alu.{x64_test_rr}
use o.Backend.Jump.{x64_je, x64_jne, x64_def_label}
use o.Backend.Frame.{x64_emit_epilogue}
use o.Jit.{vreg_spilled, JitContext, Runtime, info_of, below, jit_alloc_stack_slot}
use o.Jit.Liveness.{put}
use o.Jit.Values.{
  size_or, type_of, vreg_of, emit_on, info, jit_val_to_reg, jit_store_vreg, mov_if, reg_or,
}

-- `v.ival`, which shares its memory with nothing else that the code reads; zeroed memory otherwise.
abbrev ival_of : IrVal → ℤ
ival_of (const_i v _) = v
ival_of _ = pos 0

-- `(v.kind == IRVAL_CONST_I) ? (i32)v.ival : 0`
abbrev pub offset_of : IrVal → ℤ
offset_of v = signed (2 ^ 32) (wrap (2 ^ 32) (ival_of v))

-- `v.label_id`
abbrev pub label_of : IrVal → ℕ
label_of (label l) = l
label_of _ = 0

-- A slot for the object, and a slot for its address, which is always spilled.
unfoldable pub jit_alloca : JitContext → IrInstr → JitContext
jit_alloca ctx ins =
    let data_slot = jit_alloc_stack_slot ctx.depth (wrap 256 (ival_of ins.src1)) in
    let slot = jit_alloc_stack_slot data_slot 8 in
    let dst = vreg_of ins.dst in
    record ctx {
      vregs =
          put ctx.vregs dst
            (record (info_of ctx.vregs dst) { state = vreg_spilled; stack_off = below slot });
      asm = x64_mov_mr (x64_lea ctx.asm 11 rbp (below data_slot)) rbp (below slot) 11 8;
      depth = slot;
    }

unfoldable pub jit_load : Runtime → JitContext → IrInstr → Option JitContext
jit_load rt ctx ins = do
  (base, ctx1) ← jit_val_to_reg rt ctx ins.src1 rcx
  let dst = reg_or (info ctx1 ins.dst) rax
  some (
      jit_store_vreg
        (emit_on ctx1 (λ a. x64_mov_rm a dst base (offset_of ins.src2) (size_or 8 ins.result_type)))
        (vreg_of ins.dst) dst)

-- The address is the destination of the instruction.
unfoldable pub jit_store : Runtime → JitContext → IrInstr → Option JitContext
jit_store rt ctx ins = do
  (base, ctx1) ← jit_val_to_reg rt ctx ins.dst rcx
  (val, ctx2) ← jit_val_to_reg rt ctx1 ins.src2 rax
  some (
      emit_on ctx2 (λ a. x64_mov_mr a base (offset_of ins.src1) val (size_or 8 (type_of ins.src2))))

unfoldable pub jit_label : JitContext → IrInstr → Option JitContext
jit_label ctx ins = do a ← x64_def_label ctx.asm (label_of ins.src1); some (record ctx { asm = a })

-- The condition is tested as 32 bits.
abbrev branch_on : (X64Asm → ℕ → X64Asm) → Runtime → JitContext → IrInstr → Option JitContext
branch_on jcc rt ctx ins = do
  (cond, ctx1) ← jit_val_to_reg rt ctx ins.src1 rax
  some (emit_on ctx1 (λ a. jcc (x64_test_rr a cond cond 4) (label_of ins.src2)))

unfoldable pub jit_jz : Runtime → JitContext → IrInstr → Option JitContext
jit_jz = branch_on x64_je

unfoldable pub jit_jnz : Runtime → JitContext → IrInstr → Option JitContext
jit_jnz = branch_on x64_jne

-- rbx, r12 to r15
abbrev pub callee_saved_regs : List X64Reg
callee_saved_regs = 3 ∷ 12 ∷ 13 ∷ 14 ∷ 15 ∷ []

unfoldable pub pop_all : List X64Reg → X64Asm → X64Asm
pop_all [] a = a
pop_all (r ∷ rs) a = pop_all rs (x64_pop a r)

-- `for (ci = callee_saved_used - 1; ci >= 0; ci--) x64_pop(..., CALLEE_SAVED_REGS[ci])`
unfoldable pub restored : ℕ → List X64Reg
restored n = reverse (take n callee_saved_regs)

unfoldable pub jit_leave : JitContext → JitContext
jit_leave ctx = emit_on ctx (λ a. x64_emit_epilogue (pop_all (restored ctx.callee_saved) a))

unfoldable pub jit_ret : Runtime → JitContext → IrInstr → Option JitContext
jit_ret rt ctx ins = do
  (src, ctx1) ← jit_val_to_reg rt ctx ins.src1 rax
  some (jit_leave (emit_on ctx1 (mov_if rax src (size_or 8 (type_of ins.src1)))))
