-- ===== src/Ir/Codegen/Lowered.antt =====
-- src/ir/codegen.c, `cg_stmt`: every statement grows the function by calls of the builder only.
use o.Prelude.{
  ℕ, zero, suc, ◌-◌, refl, List, [], ◌∷◌, ltb, length, take, drop, reverse, get_or, some,
  Bool-cases, inl, inr,
}
use o.Frontend.Types.{StrView, TypeNode}
use o.Frontend.Ast.{
  Expr, expr, Stmt, block, expr_stmt, let_stmt, ret, if_stmt, while_stmt, for_stmt, break_stmt,
  continue_stmt, defer_stmt, Stmts,
}
use o.Ir.Values.{IrVal}
use o.Ir.Steps.{start}
use o.Ir.Codegen.{CgCtx, emit_store}
use o.Ir.Codegen.BlockNames.{name_after_break, name_after_continue}
use o.Ir.Codegen.Expressions.{cg_expr}
use o.Ir.Codegen.Framed.{Framed, cg_expr-Framed, emit_store-Framed}
use o.Ir.Codegen.Grown.{
  GrownFrom, Grown, and_then-GrownFrom, bind-Grown, modify-Grown, lift-Grown, Framed-Grown,
  new_label-Grown, jmp-Grown, branch-Grown, emit_ret-Grown, open_block-Grown, dead_block-Grown,
  alloca-Grown, push_local-Grown, push_defer-fn, enter_loop-Grown, leave_loop-Grown, expr-Grown,
}
use o.Ir.Codegen.Statements.{
  S, done, lift, ◌>>◌, Rec, jmp, open_block, leave_loop, push_defer, modify, run_all,
  cg_emit_defers_from, cg_emit_defers, run_block, cg_block, cg_init, cg_let, cg_return, cg_if,
  cg_while, cg_for_cond, cg_for, cg_break, cg_continue, cg_step, cg_stmt,
}

pub done-Grown : Grown (done tt)
unfolding Grown GrownFrom
done-Grown ctx = start ctx.fn

cg_init-Grown : (ptr : IrVal) (e : Expr) → Grown (cg_init ptr e)
unfolding cg_init
cg_init-Grown ptr Expr.null = done-Grown
cg_init-Grown ptr (expr t l n) =
    bind-Grown _ _ (expr-Grown (expr t l n))
      λ v. Framed-Grown (emit_store ptr v) (emit_store-Framed ptr v)

cg_let-Grown : (name : StrView) (type : TypeNode) (e : Expr) → Grown (cg_let name type e)
unfolding cg_let
cg_let-Grown name type e =
    bind-Grown _ _ (alloca-Grown _ _)
      λ ptr. bind-Grown _ _ (push_local-Grown _) λ _. cg_init-Grown ptr e

cg_for_cond-Grown : (e : Expr) (bl el : ℕ) → Grown (cg_for_cond e bl el)
unfolding cg_for_cond
cg_for_cond-Grown Expr.null bl el = jmp-Grown bl
cg_for_cond-Grown (expr t l n) bl el =
    bind-Grown _ _ (expr-Grown (expr t l n)) λ c. branch-Grown c bl el

cg_continue-Grown : Grown cg_continue
unfolding Grown GrownFrom cg_continue
cg_continue-Grown ctx = elim (Bool-cases (ltb 0 ctx.loop_depth)) [
  | inr e ↦ rw (e, cg_continue) (start ctx.fn)
  | inl e ↦
      rw (e, cg_continue)
        (bind-Grown (lift (jmp (get_or ctx.continue_labels (ctx.loop_depth - 1) 0))) _ (jmp-Grown _)
          (λ _. dead_block-Grown name_after_continue) ctx)
]

expr_stmt-Grown : (e : Expr) → Grown (λ ctx. some (tt {0}, (cg_expr e ctx).1))
unfolding Framed
expr_stmt-Grown e = lift-Grown (λ ctx. (tt, (cg_expr e ctx).1)) (λ ctx. (cg_expr-Framed e ctx).0)

-- The statements, on a recursive call that grows the function.
module _ (rec : Rec) (rec-Grown : (s : Stmt) → Grown (rec s)) where
  run_all-Grown : (ss : List Stmt) → Grown (run_all rec ss)
  unfolding Grown GrownFrom run_all
  run_all-Grown [] ctx = start ctx.fn
  run_all-Grown (s ∷ ss) ctx =
      and_then-GrownFrom ctx (rec s ctx) (λ _. run_all rec ss) (rec-Grown s ctx)
        (λ _. run_all-Grown ss)

  defers-Grown : (from : ℕ) → Grown (cg_emit_defers_from rec from)
  unfolding Grown cg_emit_defers_from
  defers-Grown from ctx = run_all-Grown (reverse (drop from ctx.defers)) ctx

  pub emit_defers-Grown : Grown (cg_emit_defers rec)
  unfolding cg_emit_defers
  emit_defers-Grown = defers-Grown 0

  run_block-Grown : (ss : Stmts) → Grown (run_block rec ss)
  unfolding Grown GrownFrom run_block
  run_block-Grown Stmts.nil ctx = start ctx.fn
  run_block-Grown (Stmts.cons s ss) ctx =
      and_then-GrownFrom ctx (rec s ctx) (λ _. run_block rec ss) (rec-Grown s ctx)
        (λ _. run_block-Grown ss)

  cg_block-Grown : (ss : Stmts) → Grown (cg_block rec ss)
  unfolding Grown cg_block
  cg_block-Grown ss ctx =
      bind-Grown _ _ (run_block-Grown ss)
        (λ _.
          bind-Grown _ _ (defers-Grown (length ctx.defers))
            (λ _. modify-Grown (close ctx) (λ c. refl)))
        ctx
    where
      close : CgCtx → CgCtx → CgCtx
      close ctx c = record c {
        locals = take (length ctx.locals) c.locals;
        defers = take (length ctx.defers) c.defers;
      }

  cg_return-Grown : (e : Expr) → Grown (cg_return rec e)
  unfolding cg_return
  cg_return-Grown e = bind-Grown _ _ emit_defers-Grown λ _.
      bind-Grown _ _ (expr-Grown e) λ v. bind-Grown _ _ (emit_ret-Grown v) λ _. dead_block-Grown _

  -- A block with a statement in it, which jumps on.
  arm-Grown :
      (name : StrView) (l next : ℕ) (s : Stmt) (k : S (Unit {0}))
      → Grown k
      → Grown (lift (open_block name l) >> (rec s >> (lift (jmp next) >> k)))
  arm-Grown name l next s k h =
      bind-Grown _ _ (open_block-Grown name l)
        λ _. bind-Grown _ _ (rec-Grown s) λ _. bind-Grown _ _ (jmp-Grown next) λ _. h

  -- The end of a loop.
  leave-Grown : (name : StrView) (l : ℕ) → Grown (lift (open_block name l) >> modify leave_loop)
  leave-Grown name l = bind-Grown _ _ (open_block-Grown name l) λ _. leave_loop-Grown

  cg_if-Grown : (c : Expr) (t e : Stmt) → Grown (cg_if rec c t e)
  unfolding cg_if
  cg_if-Grown c t e = bind-Grown _ _ new_label-Grown λ tl. bind-Grown _ _ new_label-Grown λ el.
      bind-Grown _ _ new_label-Grown λ endl. bind-Grown _ _ (expr-Grown c) λ v.
        bind-Grown _ _ (branch-Grown v tl el)
          λ _. arm-Grown _ tl endl t _ (arm-Grown _ el endl e _ (open_block-Grown _ endl))

  cg_while-Grown : (c : Expr) (b : Stmt) → Grown (cg_while rec c b)
  unfolding cg_while
  cg_while-Grown c b = bind-Grown _ _ new_label-Grown λ cl. bind-Grown _ _ new_label-Grown λ bl.
      bind-Grown _ _ new_label-Grown λ el. bind-Grown _ _ (enter_loop-Grown el cl) λ _.
        bind-Grown _ _ (jmp-Grown cl) λ _. bind-Grown _ _ (open_block-Grown _ cl) λ _.
          bind-Grown _ _ (expr-Grown c)
            λ v. bind-Grown _ _ (branch-Grown v bl el) λ _. arm-Grown _ bl cl b _ (leave-Grown _ el)

  cg_for-Grown : (i : Stmt) (c : Expr) (p b : Stmt) → Grown (cg_for rec i c p b)
  unfolding cg_for
  cg_for-Grown i c p b = bind-Grown _ _ new_label-Grown λ cl. bind-Grown _ _ new_label-Grown λ bl.
      bind-Grown _ _ new_label-Grown λ pl. bind-Grown _ _ new_label-Grown λ el.
        bind-Grown _ _ (enter_loop-Grown el pl) λ _. bind-Grown _ _ (rec-Grown i) λ _.
          bind-Grown _ _ (jmp-Grown cl) λ _. bind-Grown _ _ (open_block-Grown _ cl) λ _.
            bind-Grown _ _ (cg_for_cond-Grown c bl el)
              λ _. arm-Grown _ bl pl b _ (arm-Grown _ pl cl p _ (leave-Grown _ el))

  cg_break-Grown : Grown (cg_break rec)
  unfolding Grown GrownFrom cg_break
  cg_break-Grown ctx = elim (Bool-cases (ltb 0 ctx.loop_depth)) [
    | inr e ↦ rw (e, cg_break) (start ctx.fn)
    | inl e ↦
        rw (e, cg_break)
          (bind-Grown _ _ emit_defers-Grown
            (λ _.
              bind-Grown jump_out _ (λ c. jmp-Grown (get_or c.break_labels (c.loop_depth - 1) 0) c)
                (λ _. dead_block-Grown name_after_break))
            ctx)
  ]
    where
      jump_out : S (Unit {0})
      jump_out c = lift (jmp (get_or c.break_labels (c.loop_depth - 1) 0)) c

  pub cg_step-Grown : (s : Stmt) → Grown (cg_step rec s)
  unfolding cg_step
  cg_step-Grown Stmt.null = done-Grown
  cg_step-Grown (block ss) = cg_block-Grown ss
  cg_step-Grown (let_stmt name type init _ _) = cg_let-Grown name type init
  cg_step-Grown (expr_stmt e) = expr_stmt-Grown e
  cg_step-Grown (ret value) = cg_return-Grown value
  cg_step-Grown (if_stmt c t e) = cg_if-Grown c t e
  cg_step-Grown (while_stmt c b) = cg_while-Grown c b
  cg_step-Grown (for_stmt i c p b) = cg_for-Grown i c p b
  cg_step-Grown break_stmt = cg_break-Grown
  cg_step-Grown continue_stmt = cg_continue-Grown
  cg_step-Grown (defer_stmt s) = modify-Grown (push_defer s) (push_defer-fn s)

pub cg_stmt-Grown : (fuel : ℕ) (s : Stmt) → Grown (cg_stmt fuel s)
unfolding Grown GrownFrom cg_stmt
cg_stmt-Grown zero s ctx = tt
cg_stmt-Grown (suc fuel) s ctx = cg_step-Grown (cg_stmt fuel) (cg_stmt-Grown fuel) s ctx
