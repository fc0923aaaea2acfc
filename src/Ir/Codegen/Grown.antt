-- ===== src/Ir/Codegen/Grown.antt =====
-- src/ir/codegen.c, `cg_stmt`: the function that is built grows by calls of the builder only.
use o.Prelude.{ℕ, ◌≡◌, refl, ltb, length, Option, none, some, Bool-cases, inl, inr}
use o.Frontend.Types.{StrView, TypeKind}
use o.Frontend.Ast.{Expr, Stmt}
use o.Ir.Values.{IrVal}
use o.Ir.Build.{ir_emit_alloca}
use o.Ir.Steps.{Built, start, Built-trans, new_block, step}
use o.Ir.Steps
use o.Ir.BuilderSteps.{
  ir_emit-Built, ir_emit_alloca-Built, ir_emit_jmp-Built, ir_emit_branch-Built, ir_emit_ret-Built,
}
use o.Ir.Codegen.{LocalVar, CgCtx, G, building, cg_new_block, max_locals, max_defers, max_loops}
use o.Ir.Codegen.Expressions.{cg_expr}
use o.Ir.Codegen.Framed.{Framed, cg_expr-Framed}
use o.Ir.Codegen.Statements.{
  S, lift, and_then, ◌>>=◌, new_label, jmp, branch, emit_ret, open_block, dead_block, push_local,
  push_defer, enter_loop, leave_loop, modify,
}

-- A finished lowering has built on the function that it started from.
unfoldable pub GrownFrom : {A : Type 0} → CgCtx → Option (A × CgCtx) → Type 0
GrownFrom ctx none = Unit {0}
GrownFrom ctx (some (_, ctx')) = Built ctx.fn ctx'.fn

unfoldable pub Grown : {A : Type 0} → S A → Type 0
Grown m = (ctx : CgCtx) → GrownFrom ctx (m ctx)

GrownFrom-trans :
    {A : Type 0} (c ctx : CgCtx) (o : Option (A × CgCtx))
    → Built c.fn ctx.fn
    → GrownFrom ctx o
    → GrownFrom c o
unfolding GrownFrom
GrownFrom-trans c ctx none p h = tt
GrownFrom-trans c ctx (some (_, _)) p h = Built-trans p h

pub and_then-GrownFrom :
    {A B : Type 0} (ctx : CgCtx) (o : Option (A × CgCtx)) (k : A → S B)
    → GrownFrom ctx o
    → ((a : A) → Grown (k a))
    → GrownFrom ctx (and_then o k)
unfolding GrownFrom Grown and_then
and_then-GrownFrom ctx none k h hk = tt
and_then-GrownFrom ctx (some (a, c)) k h hk = GrownFrom-trans ctx c (k a c) h (hk a c)

pub bind-Grown :
    {A B : Type 0} (m : S A) (k : A → S B) → Grown m → ((a : A) → Grown (k a)) → Grown (m >>= k)
unfolding Grown ◌>>=◌
bind-Grown m k hm hk ctx = and_then-GrownFrom ctx (m ctx) k (hm ctx) hk

pub lift-Grown :
    {A : Type 0} (m : G A) → ((ctx : CgCtx) → Built ctx.fn (m ctx).1.fn) → Grown (lift m)
unfolding Grown GrownFrom
lift-Grown m h ctx = h ctx

pub Framed-Grown : {A : Type 0} (m : G A) → Framed m → Grown (lift m)
unfolding Framed
Framed-Grown m h = lift-Grown m (λ ctx. (h ctx).0)

-- A change of the context that leaves the function alone.
pub modify-Grown : (f : CgCtx → CgCtx) → ((ctx : CgCtx) → (f ctx).fn ≡ ctx.fn) → Grown (modify f)
unfolding Grown GrownFrom
modify-Grown f h ctx = rw (h ctx) (start ctx.fn)

pub new_label-Grown : Grown (lift new_label)
unfolding new_label
new_label-Grown = lift-Grown new_label (λ ctx. step (Steps.new_label ctx.fn))

pub jmp-Grown : (l : ℕ) → Grown (lift (jmp l))
unfolding jmp
jmp-Grown l = lift-Grown (jmp l) (λ ctx. ir_emit_jmp-Built ctx.fn ctx.cur_block l)

pub branch-Grown : (c : IrVal) (tl el : ℕ) → Grown (lift (branch c tl el))
unfolding branch
branch-Grown c tl el =
    lift-Grown (branch c tl el) (λ ctx. ir_emit_branch-Built ctx.fn ctx.cur_block c tl el)

pub emit_ret-Grown : (v : IrVal) → Grown (lift (emit_ret v))
unfolding emit_ret
emit_ret-Grown v = lift-Grown (emit_ret v) (λ ctx. ir_emit_ret-Built ctx.fn ctx.cur_block v)

pub open_block-Grown : (name : StrView) (l : ℕ) → Grown (lift (open_block name l))
unfolding open_block cg_new_block
open_block-Grown name l =
    lift-Grown (open_block name l)
      (λ ctx. Built-trans (step (new_block ctx.fn name)) (ir_emit-Built _ _ _ _ _ _))

pub dead_block-Grown : (name : StrView) → Grown (lift (dead_block name))
unfolding dead_block cg_new_block
dead_block-Grown name = lift-Grown (dead_block name) (λ ctx. step (new_block ctx.fn name))

pub alloca-Grown :
    (ty : TypeKind) (size : ℕ) → Grown (lift (building (λ fn blk. ir_emit_alloca fn blk ty size)))
alloca-Grown ty size =
    lift-Grown (building (λ fn blk. ir_emit_alloca fn blk ty size))
      (λ ctx. ir_emit_alloca-Built ctx.fn ctx.cur_block ty size)

push_local-fn : (lv : LocalVar) (ctx : CgCtx) → (push_local lv ctx).fn ≡ ctx.fn
unfolding push_local
push_local-fn lv ctx = elim (Bool-cases (ltb (length ctx.locals) max_locals)) [
  | inl e ↦ rw (e, push_local) refl
  | inr e ↦ rw (e, push_local) refl
]

pub push_defer-fn : (s : Stmt) (ctx : CgCtx) → (push_defer s ctx).fn ≡ ctx.fn
unfolding push_defer
push_defer-fn s ctx = elim (Bool-cases (ltb (length ctx.defers) max_defers)) [
  | inl e ↦ rw (e, push_defer) refl
  | inr e ↦ rw (e, push_defer) refl
]

enter_loop-fn : (b c : ℕ) (ctx : CgCtx) → (enter_loop b c ctx).fn ≡ ctx.fn
unfolding enter_loop
enter_loop-fn b c ctx = elim (Bool-cases (ltb ctx.loop_depth max_loops)) [
  | inl e ↦ rw (e, enter_loop) refl
  | inr e ↦ rw (e, enter_loop) refl
]

pub leave_loop-Grown : Grown (modify leave_loop)
unfolding leave_loop
leave_loop-Grown = modify-Grown leave_loop (λ ctx. refl)

pub push_local-Grown : (lv : LocalVar) → Grown (modify (push_local lv))
push_local-Grown lv = modify-Grown (push_local lv) (push_local-fn lv)

pub enter_loop-Grown : (b c : ℕ) → Grown (modify (enter_loop b c))
enter_loop-Grown b c = modify-Grown (enter_loop b c) (enter_loop-fn b c)

pub expr-Grown : (e : Expr) → Grown (lift (cg_expr e))
expr-Grown e = Framed-Grown (cg_expr e) (cg_expr-Framed e)
