-- ===== src/Tests/JitExamples.antt =====
-- A function with five virtual registers through the passes of src/jit/jit.c.
use o.Prelude.{
  ℕ, zero, suc, ◌+◌, ◌%◌, ◌≤◌, ◌<◌, ◌≡◌, ◌++◌, refl, sym, true, get_elem?, false, [], ◌∷◌, some,
  arith,
}
use o.Prelude.Int.{pos}
use o.Frontend.Types.{TypeNode, ty_i64, ty_void}
use o.Ir.Values.{
  IrVal, IrInstr, IrFunc, IrModule, iop_store, iop_nop, iop_add, iop_mov, iop_ret, iop_cmp_lt,
}
use o.Frontend.Types.{ty_bool, ty_is_float, ty_primitive_size}
use o.Backend.CodeBuf.{CodeBuf, codebuf_init_exec, codebuf_patch_i32}
use o.Backend.Labels.{◌>>=◌, fixup_table_init, label_table_init, fixup_resolve_all, resolve_from}
use o.Backend.Asm.{X64Asm, x64asm_init, rax}
use o.Backend.Mov.{x64_mov_ri, x64_mov_rr, x64_push}
use o.Backend.Alu.{x64_cmp_rr}
use o.Jit.{info_of, JitContext, Runtime}
use o.Jit.Liveness.{
  jit_vregs, mark_instrs, mark_instr, mark_def, mark_args, mark_vreg_use, used_at, defined_at,
  instrs_of, jit_liveness_analysis,
}
use o.Jit.LinearScan.{
  any_reg, lowest_reg, add_regs, int_registers, xmm_registers, free_reg, move_last, expire_from,
  expire_old, push_active, spill, hold, hold_int, hold_xmm, assign, never_defined, scan_vreg,
  scan_vregs, scan_init, allocate, allocated, jit_linear_scan_alloc,
}
use o.Jit.Values.{ty_size, emit_on, info, jit_val_to_reg, jit_result}
use o.Jit.Arith.{jit_operands, jit_compare}
use o.Jit.Compile.{
  jit_frame_size, jit_find_func, jit_entry, jit_compile_func, JitCache, jit_register,
  jit_compile_module, jit_compile_funcs, jit_params, jit_prologue, emit_sub_rsp, saved_regs,
  used_among, uses_reg, push_all,
}
use o.Jit.Instr.{jit_emit_instrs}
use o.Jit.LiveRanges.{jit_liveness_analysis-unheld}
use mathlib.Core.Path.{subst}
use mathlib.Core.Option.{some-injective}
use o.Jit.StoreAddress.{jit_liveness_analysis-store_missed}
use o.Jit.Covers.{has_operand, reads}
use o.Jit.Disjoint.{jit_linear_scan_alloc-disjoint}
use o.Jit.Allocation.{jit_vregs-unheld}
use o.Jit.Frames.{jit_frame_size_lem}
use o.Jit.Compare.{Cpu, run, code_of, jit_compare_ignores_operands}
use o.Jit.Module.{find_named, jit_find_func-compiled}

abbrev v : ℕ → IrVal
v n = IrVal.temp n ty_i64

abbrev nop : IrInstr
nop = record {
  op = iop_nop;
  dst = IrVal.void;
  src1 = IrVal.void;
  src2 = IrVal.void;
  args = [];
  result_type = ty_void;
}

abbrev add_2 : IrInstr
add_2 = record nop { op = iop_add; dst = v 2; src1 = v 0; src2 = v 1; result_type = ty_i64 }

abbrev mov : ℕ → ℕ → IrInstr
mov d s = record nop { op = iop_mov; dst = v d; src1 = v s; result_type = ty_i64 }

abbrev ret_4 : IrInstr
ret_4 = record nop { op = iop_ret; src1 = v 4 }

abbrev sum : IrFunc
sum = record {
  name = 115 ∷ [];
  ret_type = TypeNode.prim ty_i64;
  param_names = (97 ∷ []) ∷ (98 ∷ []) ∷ [];
  param_types = ty_i64 ∷ ty_i64 ∷ [];
  variadic = false;
  blocks =
      (record {
        id = 0;
        name = [];
        instrs = nop ∷ add_2 ∷ mov 3 2 ∷ mov 4 3 ∷ ret_4 ∷ [];
        instr_cap = 32;
      })
      ∷ [];
  block_cap = 16;
  next_vreg = 5;
  next_label = 0;
}

-- rax and rcx are given out again.
regs_lem :
    ((info_of (allocated sum) 0).reg ≡ 0)
    × ((info_of (allocated sum) 1).reg ≡ 1)
    × ((info_of (allocated sum) 2).reg ≡ 2)
    × ((info_of (allocated sum) 3).reg ≡ 0)
    × ((info_of (allocated sum) 4).reg ≡ 1)
unfolding allocate jit_linear_scan_alloc scan_vregs scan_vreg scan_init never_defined assign
    hold_int hold_xmm hold spill any_reg lowest_reg push_active expire_old expire_from free_reg
    move_last int_registers xmm_registers add_regs jit_liveness_analysis instrs_of mark_instrs
    mark_instr mark_def mark_args mark_vreg_use used_at defined_at jit_vregs ty_is_float
regs_lem = (refl, refl, refl, refl, refl)

between_0_3 :
    (c : ℕ)
    → 0 < c
    → c < 3
    → (info_of (allocated sum) c).first_use ≤ (info_of (allocated sum) 3).first_use
unfolding allocate jit_linear_scan_alloc scan_vregs scan_vreg scan_init never_defined assign
    hold_int hold_xmm hold spill any_reg lowest_reg push_active expire_old expire_from free_reg
    move_last int_registers xmm_registers add_regs jit_liveness_analysis instrs_of mark_instrs
    mark_instr mark_def mark_args mark_vreg_use used_at defined_at jit_vregs ty_is_float
between_0_3 zero h k = absurd (omega arith)
between_0_3 (suc zero) h k = omega arith
between_0_3 (suc (suc zero)) h k = omega arith
between_0_3 (suc (suc (suc c))) h k = absurd (omega arith)

-- The table of the liveness analysis, before registers are given out.
jit_linear_scan_alloc-disjoint_example :
    let out = (jit_linear_scan_alloc 5 (jit_liveness_analysis jit_vregs sum)).vregs in
    (info_of out 0).last_use < (info_of out 3).first_use
unfolding allocate jit_linear_scan_alloc scan_vregs scan_vreg scan_init never_defined assign
    hold_int hold_xmm hold spill any_reg lowest_reg push_active expire_old expire_from free_reg
    move_last int_registers xmm_registers add_regs jit_liveness_analysis instrs_of mark_instrs
    mark_instr mark_def mark_args mark_vreg_use used_at defined_at jit_vregs ty_is_float
jit_linear_scan_alloc-disjoint_example =
    jit_linear_scan_alloc-disjoint 5 (jit_liveness_analysis jit_vregs sum)
      (jit_liveness_analysis-unheld jit_vregs sum jit_vregs-unheld) (omega arith) 0 3 (omega arith)
      refl refl (refl, refl) between_0_3

jit_frame_size_lem_example :
    (20 ≤ jit_frame_size 20) × (jit_frame_size 20 < 20 + 24) × (jit_frame_size 20 % 16 ≡ 8)
jit_frame_size_lem_example = jit_frame_size_lem 20

-- A process in which every address is 0.
abbrev nowhere : Runtime
nowhere = record {
  string_addr = λ s. pos 0;
  slot_addr = λ i. pos 0;
  dlsym = λ s. pos 0;
  cached_names = [];
}

abbrev start : JitContext
start = record {
  vregs = [];
  asm = x64asm_init (codebuf_init_exec 4096) fixup_table_init label_table_init;
  depth = 0;
  callee_saved = 0;
}

-- 7 < 3
abbrev less : IrInstr
less = record nop {
  op = iop_cmp_lt;
  dst = v 0;
  src1 = IrVal.const_i (pos 7) ty_i64;
  src2 = IrVal.const_i (pos 3) ty_i64;
  result_type = ty_bool;
}

loaded : JitContext
loaded = emit_on start (λ a. x64_mov_ri (x64_mov_ri a 10 (pos 7) 8) 11 (pos 3) 8)

jit_compare_ignores_operands_example :
    (after : X64Asm) × (after.cb.buf ≡ (x64_cmp_rr loaded.asm 10 11 8).cb.buf ++ code_of 0x9C)
    × ((c : Cpu) → (c' : Cpu) × (run (code_of 0x9C) c ≡ some c') × (c'.eax ≡ 0))
    × (jit_compare nowhere start less
        ≡ some (record loaded { asm = jit_result (info loaded (v 0)) rax 1 after }))
unfolding loaded jit_operands jit_val_to_reg ty_size ty_primitive_size
jit_compare_ignores_operands_example =
    jit_compare_ignores_operands nowhere start loaded less 11 0x9C refl refl

-- A function with no parameters and no instructions.
abbrev empty : IrFunc
empty = record sum { param_names = []; param_types = []; blocks = []; next_vreg = 0 }

empty_code : CodeBuf
empty_code =
    let (off, ctx) = jit_entry empty in
    codebuf_patch_i32 ctx.asm.cb (off + 3) (pos (jit_frame_size ctx.depth))

abbrev one_function : IrModule
one_function = record { funcs = empty ∷ []; func_cap = 16 }

abbrev one_entry : JitCache
one_entry = record { cached_names = (115 ∷ []) ∷ []; cached_funcs = some empty_code ∷ [] }

empty_compiles : jit_compile_module nowhere one_function ≡ some one_entry
unfolding empty_code jit_compile_module jit_register jit_compile_funcs jit_compile_func
    jit_emit_instrs instrs_of fixup_resolve_all resolve_from jit_entry jit_params jit_prologue
    emit_sub_rsp x64_push x64_mov_rr x64asm_init saved_regs used_among uses_reg push_all
    fixup_table_init
empty_compiles = refl

jit_find_func-compiled_example : jit_find_func one_entry (115 ∷ []) ≡ (
    find_named (empty ∷ []) (115 ∷ [])
    >>= jit_compile_func (record nowhere { cached_names = (115 ∷ []) ∷ [] }))
jit_find_func-compiled_example =
    jit_find_func-compiled nowhere one_function (115 ∷ []) one_entry empty_compiles

-- v0 := v1, and then the store of v1 to the address v0.
abbrev store_0 : IrInstr
store_0 = record nop { op = iop_store; dst = v 0; src2 = v 1; result_type = ty_i64 }

abbrev storing : IrFunc
storing = record sum {
  blocks =
      (record { id = 0; name = []; instrs = nop ∷ mov 0 1 ∷ store_0 ∷ []; instr_cap = 32 }) ∷ [];
}

no_operand_0 :
    (k : ℕ) (other : IrInstr)
    → get_elem? (nop ∷ mov 0 1 ∷ store_0 ∷ []) k ≡ some other
    → has_operand 0 other ≡ true
    → k < 2
no_operand_0 zero other q h = omega arith
no_operand_0 (suc zero) other q h = omega arith
no_operand_0 (suc (suc zero)) other q h =
    absurd
      (other_than (subst (λ i. has_operand 0 i ≡ true) (sym (some-injective store_0 other q)) h))
  where
    other_than : has_operand 0 store_0 ≡ true → ⊥
    other_than e = ground arith
no_operand_0 (suc (suc (suc k))) other q h = ground arith

jit_liveness_analysis-store_missed_example :
    (reads 0 store_0 ≡ true) × ((info_of (jit_liveness_analysis jit_vregs storing) 0).last_use < 2)
unfolding instrs_of
jit_liveness_analysis-store_missed_example =
    jit_liveness_analysis-store_missed storing 0 2 store_0 (omega arith) refl refl no_operand_0
