-- ===== src/Ir/Codegen/Total.antt =====
-- src/ir/codegen.c: the parts of a statement's lowering finish where nothing is deferred.
use o.Prelude.{
  ℕ, ◌-◌, ◌≡◌, refl, ap, ◌∙◌, [], ltb, length, get_or, Option, none, some, Bool-cases, inl, inr,
}
use o.Frontend.Types.{StrView, TypeNode}
use o.Frontend.Ast.{Expr, expr}
use o.Ir.Values.{IrVal}
use o.Ir.Codegen.{LocalVar, CgCtx, G, emit_store, cg_new_block, max_locals, max_loops}
use o.Ir.Codegen.BlockNames.{name_after_continue}
use o.Ir.Codegen.Expressions.{cg_expr}
use o.Ir.Codegen.Framed.{Framed, cg_expr-Framed, emit_store-Framed}
use o.Ir.Codegen.Statements.{
  S, done, lift, and_then, ◌>>=◌, new_label, jmp, branch, emit_ret, open_block, dead_block,
  push_local, enter_loop, leave_loop, modify, cg_init, cg_let, cg_for_cond, cg_continue,
}

-- The lowering is finished, and no statement is deferred.
unfoldable pub Ends : {A : Type 0} → Option (A × CgCtx) → Type 0
Ends none = ⊥
Ends (some (_, c)) = c.defers ≡ []

-- Where no statement is deferred the lowering finishes so.
unfoldable pub Total : {A : Type 0} → S A → Type 0
Total m = (ctx : CgCtx) → ctx.defers ≡ [] → Ends (m ctx)

pub and_then-Ends :
    {A B : Type 0} (o : Option (A × CgCtx)) (k : A → S B)
    → Ends o
    → ((a : A) → Total (k a))
    → Ends (and_then o k)
unfolding Ends Total and_then
and_then-Ends none k h hk = absurd h
and_then-Ends (some (a, c)) k h hk = hk a c h

pub bind-Total :
    {A B : Type 0} (m : S A) (k : A → S B) → Total m → ((a : A) → Total (k a)) → Total (m >>= k)
unfolding Total ◌>>=◌
bind-Total m k hm hk ctx e = and_then-Ends (m ctx) k (hm ctx e) hk

pub lift-Total :
    {A : Type 0} (m : G A) → ((ctx : CgCtx) → (m ctx).1.defers ≡ ctx.defers) → Total (lift m)
unfolding Total Ends
lift-Total m h ctx e = h ctx ∙ e

pub Framed-Total : {A : Type 0} (m : G A) → Framed m → Total (lift m)
unfolding Framed
Framed-Total m h = lift-Total m (λ ctx. ap (λ c. c.defers) (h ctx).1)

pub modify-Total :
    (f : CgCtx → CgCtx) → ((ctx : CgCtx) → (f ctx).defers ≡ ctx.defers) → Total (modify f)
unfolding Total Ends
modify-Total f h ctx e = h ctx ∙ e

pub done-Total : Total (done tt)
unfolding Total Ends
done-Total ctx e = e

pub new_label-Total : Total (lift new_label)
unfolding new_label
new_label-Total = lift-Total new_label (λ ctx. refl)

pub jmp-Total : (l : ℕ) → Total (lift (jmp l))
unfolding jmp
jmp-Total l = lift-Total (jmp l) (λ ctx. refl)

pub branch-Total : (c : IrVal) (tl el : ℕ) → Total (lift (branch c tl el))
unfolding branch
branch-Total c tl el = lift-Total (branch c tl el) (λ ctx. refl)

pub open_block-Total : (name : StrView) (l : ℕ) → Total (lift (open_block name l))
unfolding open_block cg_new_block
open_block-Total name l = lift-Total (open_block name l) (λ ctx. refl)

pub dead_block-Total : (name : StrView) → Total (lift (dead_block name))
unfolding dead_block cg_new_block
dead_block-Total name = lift-Total (dead_block name) (λ ctx. refl)

pub emit_ret-Total : (v : IrVal) → Total (lift (emit_ret v))
unfolding emit_ret
emit_ret-Total v = lift-Total (emit_ret v) (λ ctx. refl)

pub expr-Total : (e : Expr) → Total (lift (cg_expr e))
expr-Total e = Framed-Total (cg_expr e) (cg_expr-Framed e)

pub push_local-Total : (lv : LocalVar) → Total (modify (push_local lv))
unfolding push_local
push_local-Total lv = modify-Total (push_local lv) same
  where
    same : (ctx : CgCtx) → (push_local lv ctx).defers ≡ ctx.defers
    same ctx = elim (Bool-cases (ltb (length ctx.locals) max_locals)) [
      | inl e ↦ rw (e, push_local) refl
      | inr e ↦ rw (e, push_local) refl
    ]

pub enter_loop-Total : (b c : ℕ) → Total (modify (enter_loop b c))
unfolding enter_loop
enter_loop-Total b c = modify-Total (enter_loop b c) same
  where
    same : (ctx : CgCtx) → (enter_loop b c ctx).defers ≡ ctx.defers
    same ctx = elim (Bool-cases (ltb ctx.loop_depth max_loops)) [
      | inl e ↦ rw (e, enter_loop) refl
      | inr e ↦ rw (e, enter_loop) refl
    ]

pub leave_loop-Total : Total (modify leave_loop)
unfolding leave_loop
leave_loop-Total = modify-Total leave_loop (λ ctx. refl)

pub cg_init-Total : (ptr : IrVal) (e : Expr) → Total (cg_init ptr e)
unfolding cg_init
cg_init-Total ptr Expr.null = done-Total
cg_init-Total ptr (expr t l n) =
    bind-Total _ _ (expr-Total (expr t l n))
      λ v. Framed-Total (emit_store ptr v) (emit_store-Framed ptr v)

pub cg_let-Total : (name : StrView) (type : TypeNode) (e : Expr) → Total (cg_let name type e)
unfolding cg_let
cg_let-Total name type e =
    bind-Total _ _ (lift-Total _ (λ ctx. refl))
      λ ptr. bind-Total _ _ (push_local-Total _) λ _. cg_init-Total ptr e

pub cg_for_cond-Total : (e : Expr) (bl el : ℕ) → Total (cg_for_cond e bl el)
unfolding cg_for_cond
cg_for_cond-Total Expr.null bl el = jmp-Total bl
cg_for_cond-Total (expr t l n) bl el =
    bind-Total _ _ (expr-Total (expr t l n)) λ c. branch-Total c bl el

pub cg_continue-Total : Total cg_continue
unfolding Total Ends cg_continue
cg_continue-Total ctx d = elim (Bool-cases (ltb 0 ctx.loop_depth)) [
  | inr e ↦ rw (e, cg_continue) d
  | inl e ↦
      rw (e, cg_continue)
        (bind-Total (lift (jmp (get_or ctx.continue_labels (ctx.loop_depth - 1) 0))) _ (jmp-Total _)
          (λ _. dead_block-Total name_after_continue) ctx d)
]
