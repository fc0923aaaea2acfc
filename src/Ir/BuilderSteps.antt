-- ===== src/Ir/BuilderSteps.antt =====
-- src/ir/ir.c: every operation of the builder is a sequence of steps.
use o.Prelude.{ℕ, Bool, true, false, not, ◌&&◌, List, [], ◌≡◌, ◌⊎◌, inl, inr, refl, sym}
use mathlib.Core.Path.{subst}
use o.Frontend.Types.{TypeKind, ty_void, same_kind}
use o.Ir.Values.{
  IrVal, void, IrOp, iop_add, iop_sub, iop_mul, iop_div, iop_mod, iop_and, iop_or, iop_xor, iop_shl,
  iop_shr, iop_sar, iop_neg, iop_not, iop_bnot, iop_fadd, iop_fsub, iop_fmul, iop_fdiv, iop_fneg,
  iop_cmp_eq, iop_cmp_ne, iop_cmp_lt, iop_cmp_le, iop_cmp_gt, iop_cmp_ge, iop_cmp_flt, iop_cmp_fle,
  iop_cmp_fgt, iop_cmp_fge, iop_cmp_feq, iop_cmp_fne, iop_mov, iop_load, iop_store, iop_lea,
  iop_sext, iop_zext, iop_trunc, iop_itof, iop_ftoi, iop_bitcast, iop_label, iop_jmp, iop_jz,
  iop_jnz, iop_call, iop_ret, iop_ret_void, iop_alloca, iop_memcpy, iop_memset, iop_nop, IrFunc,
}
use o.Ir.Build.{
  with_result, ir_new_vreg, ir_emit, ir_emit_call, ir_emit_alloca, ir_emit_store, ir_emit_load,
  ir_emit_jmp, ir_emit_branch, ir_emit_ret, block_alloc_instr, instr,
}
use o.Ir.Steps.{result_of, Built-trans, new_instr, new_result, Built, step}

-- Every operation but a store defines its destination.
IsResult : IrOp → Type 0
IsResult op = (dst : IrVal) → result_of op dst ≡ dst

store-cases : (op : IrOp) → (op ≡ iop_store) ⊎ IsResult op
unfolding IsResult
store-cases iop_add = inr (λ d. refl)
store-cases iop_sub = inr (λ d. refl)
store-cases iop_mul = inr (λ d. refl)
store-cases iop_div = inr (λ d. refl)
store-cases iop_mod = inr (λ d. refl)
store-cases iop_and = inr (λ d. refl)
store-cases iop_or = inr (λ d. refl)
store-cases iop_xor = inr (λ d. refl)
store-cases iop_shl = inr (λ d. refl)
store-cases iop_shr = inr (λ d. refl)
store-cases iop_sar = inr (λ d. refl)
store-cases iop_neg = inr (λ d. refl)
store-cases iop_not = inr (λ d. refl)
store-cases iop_bnot = inr (λ d. refl)
store-cases iop_fadd = inr (λ d. refl)
store-cases iop_fsub = inr (λ d. refl)
store-cases iop_fmul = inr (λ d. refl)
store-cases iop_fdiv = inr (λ d. refl)
store-cases iop_fneg = inr (λ d. refl)
store-cases iop_cmp_eq = inr (λ d. refl)
store-cases iop_cmp_ne = inr (λ d. refl)
store-cases iop_cmp_lt = inr (λ d. refl)
store-cases iop_cmp_le = inr (λ d. refl)
store-cases iop_cmp_gt = inr (λ d. refl)
store-cases iop_cmp_ge = inr (λ d. refl)
store-cases iop_cmp_flt = inr (λ d. refl)
store-cases iop_cmp_fle = inr (λ d. refl)
store-cases iop_cmp_fgt = inr (λ d. refl)
store-cases iop_cmp_fge = inr (λ d. refl)
store-cases iop_cmp_feq = inr (λ d. refl)
store-cases iop_cmp_fne = inr (λ d. refl)
store-cases iop_mov = inr (λ d. refl)
store-cases iop_load = inr (λ d. refl)
store-cases iop_store = inl refl
store-cases iop_lea = inr (λ d. refl)
store-cases iop_sext = inr (λ d. refl)
store-cases iop_zext = inr (λ d. refl)
store-cases iop_trunc = inr (λ d. refl)
store-cases iop_itof = inr (λ d. refl)
store-cases iop_ftoi = inr (λ d. refl)
store-cases iop_bitcast = inr (λ d. refl)
store-cases iop_label = inr (λ d. refl)
store-cases iop_jmp = inr (λ d. refl)
store-cases iop_jz = inr (λ d. refl)
store-cases iop_jnz = inr (λ d. refl)
store-cases iop_call = inr (λ d. refl)
store-cases iop_ret = inr (λ d. refl)
store-cases iop_ret_void = inr (λ d. refl)
store-cases iop_alloca = inr (λ d. refl)
store-cases iop_memcpy = inr (λ d. refl)
store-cases iop_memset = inr (λ d. refl)
store-cases iop_nop = inr (λ d. refl)

result_of-void : (op : IrOp) → result_of op void ≡ void
unfolding IsResult
result_of-void op = elim (store-cases op) [ inl e ↦ rw e refl | inr h ↦ h void ]

with_result-Built :
    (res : Bool) (fn : IrFunc) (b : ℕ) (ty : TypeKind) (op : IrOp) (a c : IrVal) (args : List IrVal)
    (t : TypeKind)
    → IsResult op
    → Built fn (with_result res fn b ty (λ dst. instr op dst a c args t)).1
unfolding with_result ir_new_vreg IsResult
with_result-Built true fn b ty op a c args t h = step (new_result fn b ty _ (h _))
with_result-Built false fn b ty op a c args t h = step (new_instr fn b _ (h _))

no_dst-Built :
    (fn : IrFunc) (b : ℕ) (op : IrOp) (a c : IrVal) (args : List IrVal) (t : TypeKind)
    → Built fn (block_alloc_instr fn b (instr op void a c args t))
no_dst-Built fn b op a c args t = step (new_instr fn b _ (result_of-void op))

pub ir_emit_store-Built :
    (fn : IrFunc) (b : ℕ) (p o v : IrVal) → Built fn (ir_emit_store fn b p o v)
unfolding ir_emit_store
ir_emit_store-Built fn b p o v = step (new_instr fn b (instr iop_store p o v [] ty_void) refl)

-- A store given to `ir_emit` gets no register.
store_emit :
    (fn : IrFunc) (b : ℕ) (a c : IrVal) (ty : TypeKind) (t : Bool)
    → Built fn (with_result (not t && false) fn b ty (λ dst. instr iop_store dst a c [] ty)).1
unfolding with_result
store_emit fn b a c ty true = no_dst-Built fn b iop_store a c [] ty
store_emit fn b a c ty false = no_dst-Built fn b iop_store a c [] ty

pub ir_emit-Built :
    (fn : IrFunc) (b : ℕ) (op : IrOp) (a c : IrVal) (ty : TypeKind)
    → Built fn (ir_emit fn b op a c ty).1
unfolding ir_emit with_result
ir_emit-Built fn b op a c ty = elim (store-cases op) [
  | inr h ↦ with_result-Built _ fn b ty op a c [] ty h
  | inl e ↦
      subst (λ o. Built fn (ir_emit fn b o a c ty).1) (sym e)
        (store_emit fn b a c ty (same_kind ty ty_void))
]

pub ir_emit_call-Built :
    (fn : IrFunc) (b : ℕ) (f : IrVal) (args : List IrVal) (ty : TypeKind)
    → Built fn (ir_emit_call fn b f args ty).1
unfolding ir_emit_call IsResult
ir_emit_call-Built fn b f args ty = with_result-Built _ fn b ty _ f _ args ty (λ d. refl)

pub ir_emit_alloca-Built :
    (fn : IrFunc) (b : ℕ) (ty : TypeKind) (size : ℕ) → Built fn (ir_emit_alloca fn b ty size).1
unfolding ir_emit_alloca IsResult
ir_emit_alloca-Built fn b ty size = with_result-Built true fn b _ _ _ _ [] _ (λ d. refl)

pub ir_emit_load-Built :
    (fn : IrFunc) (b : ℕ) (p o : IrVal) (ty : TypeKind) → Built fn (ir_emit_load fn b p o ty).1
unfolding ir_emit_load IsResult
ir_emit_load-Built fn b p o ty = with_result-Built true fn b ty _ p o [] ty (λ d. refl)

pub ir_emit_jmp-Built : (fn : IrFunc) (b l : ℕ) → Built fn (ir_emit_jmp fn b l)
unfolding ir_emit_jmp
ir_emit_jmp-Built fn b l = no_dst-Built fn b _ _ _ _ _

pub ir_emit_branch-Built :
    (fn : IrFunc) (b : ℕ) (c : IrVal) (tl el : ℕ) → Built fn (ir_emit_branch fn b c tl el)
unfolding ir_emit_branch
ir_emit_branch-Built fn b c tl el =
    Built-trans (no_dst-Built fn b _ _ _ _ _) (ir_emit_jmp-Built _ b el)

pub ir_emit_ret-Built : (fn : IrFunc) (b : ℕ) (v : IrVal) → Built fn (ir_emit_ret fn b v)
unfolding ir_emit_ret
ir_emit_ret-Built fn b v = no_dst-Built fn b _ _ _ _ _
