-- ===== src/Jit/Compile.antt =====
-- src/jit/jit.c: the code of a function and of a module. The code buffer's memory is the system's; a
-- failure to map it is not modelled. `none` is a panic.
use o.Prelude.{
  ℕ, zero, suc, ◌+◌, ◌*◌, ◌/◌, ◌%◌, ◌==◌, ◌&&◌, ◌||◌, Bool, false, List, [], ◌∷◌, Option, none,
  some, if◌then◌else◌, length, map, replicate, set, get_or,
}
use o.Prelude.Int.{pos}
use o.Frontend.Types.{StrView}
use o.Ir.Values.{IrFunc, IrModule}
use o.Backend.CodeBuf.{
  CodeBuf, len, align_up, codebuf_init_exec, codebuf_emit_byte, codebuf_emit_i32, codebuf_patch_i32,
}
use o.Backend.Labels.{◌>>=◌, fixup_table_init, label_table_init, fixup_resolve_all}
use o.Backend.Asm.{X64Reg, X64Asm, rsp, rbp, modrm, on_cb, x64asm_init, sysv_int_arg_regs}
use o.Backend.Mov.{x64_push, x64_mov_rr}
use o.Jit.{VRegInfo, JitContext, Runtime, info_of, in_register}
use o.Jit.Liveness.{instrs_of}
use o.Jit.LinearScan.{allocate}
use o.Jit.Values.{jit_result}
use o.Jit.Memory.{callee_saved_regs}
use o.Jit.Calls.{find_cached}
use o.Jit.Instr.{jit_emit_instrs}

-- Some virtual register below `n` is in the register. The register of a float counts by its number.
unfoldable pub uses_reg : List VRegInfo → ℕ → X64Reg → Bool
uses_reg vregs zero r = false
uses_reg vregs (suc n) r =
    (in_register (info_of vregs n).state && (info_of vregs n).reg == r) || uses_reg vregs n r

unfoldable pub used_among : List VRegInfo → ℕ → List X64Reg → List X64Reg
used_among vregs n [] = []
used_among vregs n (r ∷ rs) =
    let rest = used_among vregs n rs in if uses_reg vregs n r then r ∷ rest else rest

-- The registers of `callee_used`, in order.
unfoldable pub saved_regs : List VRegInfo → ℕ → List X64Reg
saved_regs vregs n = used_among vregs n callee_saved_regs

unfoldable pub push_all : List X64Reg → X64Asm → X64Asm
push_all [] a = a
push_all (r ∷ rs) a = push_all rs (x64_push a r)

unfoldable pub jit_prologue : List X64Reg → X64Asm → X64Asm
jit_prologue saved a = push_all saved (x64_mov_rr (x64_push a rbp) rbp rsp 8)

-- `sub rsp, imm32` with a placeholder.
unfoldable pub emit_sub_rsp : X64Asm → X64Asm
emit_sub_rsp a =
    on_cb
      (λ cb.
        codebuf_emit_i32
          (codebuf_emit_byte (codebuf_emit_byte (codebuf_emit_byte cb 0x48) 0x81) (modrm 3 5 4))
          (pos 0))
      a

-- The parameters come in the argument registers; parameter `i` is virtual register `i`.
unfoldable pub jit_params : List VRegInfo → ℕ → ℕ → List X64Reg → X64Asm → X64Asm
jit_params vregs zero i rs a = a
jit_params vregs (suc n) i [] a = a
jit_params vregs (suc n) i (r ∷ rs) a =
    jit_params vregs n (i + 1) rs (jit_result (info_of vregs i) r 8 a)

-- `(frame_size & 8) == 0` tests bit 3 of the size.
unfoldable pub jit_frame_size : ℕ → ℕ
jit_frame_size depth = let size = align_up depth 16 in if size / 8 % 2 == 0 then size + 8 else size

-- The start of the code and the context behind it, for the instructions.
unfoldable pub jit_entry : IrFunc → ℕ × JitContext
jit_entry fn =
    let scan = allocate fn in
    let saved = saved_regs scan.vregs fn.next_vreg in
    let a0 = x64asm_init (codebuf_init_exec (64 * 1024)) fixup_table_init label_table_init in
    let a1 = jit_prologue saved a0 in
    let a2 = jit_params scan.vregs (length fn.param_names) 0 sysv_int_arg_regs (emit_sub_rsp a1) in
    (
      len a1.cb,
      record { vregs = scan.vregs; asm = a2; depth = scan.depth; callee_saved = length saved },
    )

unfoldable pub jit_compile_func : Runtime → IrFunc → Option CodeBuf
jit_compile_func rt fn =
    let (sub_rsp_off, ctx) = jit_entry fn in
    do
      ctx' ← jit_emit_instrs rt ctx (instrs_of fn.blocks)
      let cb = codebuf_patch_i32 ctx'.asm.cb (sub_rsp_off + 3) (pos (jit_frame_size ctx'.depth))
      fixup_resolve_all ctx'.asm.ft ctx'.asm.lt cb

-- The parallel arrays of the engine: the names, and the functions that are compiled so far.
pub record JitCache : Type 0 where
  pub cached_names : List StrView
  pub cached_funcs : List (Option CodeBuf)

-- All names are registered before the first function is compiled.
unfoldable pub jit_register : List IrFunc → JitCache
jit_register fns = record {
  cached_names = map (λ (fn : IrFunc). fn.name) fns;
  cached_funcs = replicate (length fns) none;
}

-- `e->cached_funcs[i] = cf` for the functions from index `i` on. The table of entry addresses is
-- what the process has.
unfoldable pub jit_compile_funcs : Runtime → JitCache → ℕ → List IrFunc → Option JitCache
jit_compile_funcs rt cache i [] = some cache
jit_compile_funcs rt cache i (fn ∷ fns) = do
  cf ← jit_compile_func rt fn
  jit_compile_funcs rt (record cache { cached_funcs = set cache.cached_funcs i (some cf) }) (i + 1)
      fns

unfoldable pub jit_compile_module : Runtime → IrModule → Option JitCache
jit_compile_module rt m =
    let cache = jit_register m.funcs in
    jit_compile_funcs (record rt { cached_names = cache.cached_names }) cache 0 m.funcs

unfoldable pub func_at : List (Option CodeBuf) → Option ℕ → Option CodeBuf
func_at funcs none = none
func_at funcs (some i) = get_or funcs i none

unfoldable pub jit_find_func : JitCache → StrView → Option CodeBuf
jit_find_func cache name = func_at cache.cached_funcs (find_cached cache.cached_names name 0)
