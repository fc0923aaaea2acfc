-- ===== src/Jit/Calls.antt =====
-- src/jit/jit.c, jit_emit_instr: calls.
use o.Prelude.{
  ℕ, ◌+◌, ◌-◌, ◌*◌, ltb, List, [], ◌∷◌, Option, none, some, if◌then◌else◌, take, drop, reverse,
  length,
}
use o.Prelude.Int.{pos}
use o.Frontend.Types.{StrView, sv_eq}
use o.Ir.Values.{IrVal, func, IrInstr}
use o.Backend.Labels.{◌>>=◌}
use o.Backend.Asm.{X64Reg, X64Asm, rax, rsp, sysv_int_arg_regs}
use o.Backend.Mov.{x64_mov_ri, x64_mov_rm, x64_push}
use o.Backend.Alu.{x64_add_ri}
use o.Backend.Jump.{x64_call_reg}
use o.Jit.{JitContext, Runtime}
use o.Jit.Values.{is_temporary, emit_on, info, jit_val_to_reg, mov_if, jit_result}

-- Each of the first arguments is moved to its register, in order.
unfoldable pub jit_reg_args : Runtime → JitContext → List X64Reg → List IrVal → Option JitContext
jit_reg_args rt ctx [] vs = some ctx
jit_reg_args rt ctx (r ∷ rs) [] = some ctx
jit_reg_args rt ctx (r ∷ rs) (v ∷ vs) = do
  (src, ctx1) ← jit_val_to_reg rt ctx v 10
  jit_reg_args rt (emit_on ctx1 (mov_if r src 8)) rs vs

-- The others are pushed through rax.
unfoldable pub jit_push_args : Runtime → JitContext → List IrVal → Option JitContext
jit_push_args rt ctx [] = some ctx
jit_push_args rt ctx (v ∷ vs) = do
  (src, ctx1) ← jit_val_to_reg rt ctx v 10
  jit_push_args rt (emit_on ctx1 (λ a. x64_push (mov_if rax src 8 a) rax)) vs

-- The place of the first function with the name, counted from `i`.
unfoldable pub find_cached : List StrView → StrView → ℕ → Option ℕ
find_cached [] name i = none
find_cached (n ∷ ns) name i = if sv_eq n name then some i else find_cached ns name (i + 1)

-- A function of the module is called through its entry of the table; of another one the name,
-- cut to 255 bytes, is looked up in the process.
unfoldable pub call_named : Runtime → StrView → X64Asm → X64Asm
call_named rt name a = elim (find_cached rt.cached_names name 0) [
  | some i ↦ x64_call_reg (x64_mov_rm (x64_mov_ri a rax (rt.slot_addr i) 8) rax rax (pos 0) 8) rax
  | none ↦ x64_call_reg (x64_mov_ri a rax (rt.dlsym (take 255 name)) 8) rax
]

unfoldable pub jit_call_target : Runtime → JitContext → IrVal → Option JitContext
jit_call_target rt ctx (func name) = some (emit_on ctx (call_named rt name))
jit_call_target rt ctx v = do
  (r, ctx1) ← jit_val_to_reg rt ctx v rax
  some (emit_on ctx1 (λ a. x64_call_reg a r))

-- `if (n > 6) rsp += (n - 6) * 8`
unfoldable pub drop_args : ℕ → X64Asm → X64Asm
drop_args n a = if ltb 6 n then x64_add_ri a rsp (pos ((n - 6) * 8)) 8 else a

unfoldable pub jit_call : Runtime → JitContext → IrInstr → Option JitContext
jit_call rt ctx ins = do
  ctx1 ← jit_reg_args rt ctx sysv_int_arg_regs ins.args
  ctx2 ← jit_push_args rt ctx1 (reverse (drop 6 ins.args))
  ctx3 ← jit_call_target rt ctx2 ins.src1
  let ctx4 = emit_on ctx3 (drop_args (length ins.args))
  some (if is_temporary ins.dst then emit_on ctx4 (jit_result (info ctx4 ins.dst) rax 8) else ctx4)
