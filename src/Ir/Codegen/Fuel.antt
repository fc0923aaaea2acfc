-- ===== src/Ir/Codegen/Fuel.antt =====
-- src/ir/codegen.c, `cg_stmt`: enough fuel for a statement that defers nothing.
use o.Prelude.{
  ℕ, zero, suc, ◌-◌, ◌≡◌, refl, ap, List, [], ltb, length, take, drop, get_or, some, Bool-cases,
  inl, inr,
}
use o.Frontend.Types.{StrView}
use o.Frontend.Ast.{
  Expr, Stmt, block, expr_stmt, let_stmt, ret, if_stmt, while_stmt, for_stmt, break_stmt,
  continue_stmt, defer_stmt, Stmts,
}
use o.Ir.Codegen.{CgCtx}
use o.Ir.Codegen.BlockNames.{name_after_break}
use o.Ir.Codegen.Expressions.{cg_expr}
use o.Ir.Codegen.Framed.{Framed, cg_expr-Framed}
use o.Ir.Codegen.Statements.{
  S, lift, ◌>>=◌, ◌>>◌, Rec, jmp, open_block, leave_loop, modify, run_all, cg_emit_defers_from,
  cg_emit_defers, run_block, cg_block, cg_return, cg_if, cg_while, cg_for, cg_break, cg_step,
  cg_stmt,
}
use o.Ir.Codegen.Total.{
  Ends, Total, and_then-Ends, bind-Total, lift-Total, new_label-Total, jmp-Total, branch-Total,
  open_block-Total, dead_block-Total, emit_ret-Total, expr-Total, enter_loop-Total,
  leave_loop-Total, cg_let-Total, cg_for_cond-Total, cg_continue-Total,
}

-- A statement that defers nothing and is nested less deeply than the fuel.
unfoldable mutual
  pub Fits : ℕ → Stmt → Type 0
  Fits zero s = ⊥
  Fits (suc n) (block ss) = AllFit n ss
  Fits (suc n) (if_stmt _ t e) = Fits n t × Fits n e
  Fits (suc n) (while_stmt _ b) = Fits n b
  Fits (suc n) (for_stmt i _ p b) = Fits n i × Fits n p × Fits n b
  Fits (suc n) (defer_stmt _) = ⊥
  Fits (suc n) _ = Unit

  pub AllFit : ℕ → Stmts → Type 0
  AllFit n Stmts.nil = Unit
  AllFit n (Stmts.cons s ss) = Fits n s × AllFit n ss

drop-nil : {A : Type 0} (n : ℕ) → ◌≡◌ {A = List A} (drop n []) []
drop-nil zero = refl
drop-nil (suc n) = refl

take-nil : {A : Type 0} (n : ℕ) → ◌≡◌ {A = List A} (take n []) []
take-nil zero = refl
take-nil (suc n) = refl

-- The statements, on a recursive call that finishes on the statements inside.
module _ (rec : Rec) where
  defers-Total : (from : ℕ) → Total (cg_emit_defers_from rec from)
  unfolding Total Ends cg_emit_defers_from run_all
  defers-Total from ctx e = rw (e, drop-nil {A = Stmt} from) refl

  emit_defers-Total : Total (cg_emit_defers rec)
  unfolding cg_emit_defers
  emit_defers-Total = defers-Total 0

  cg_return-Total : (e : Expr) → Total (cg_return rec e)
  unfolding cg_return
  cg_return-Total e = bind-Total _ _ emit_defers-Total λ _.
      bind-Total _ _ (expr-Total e) λ v. bind-Total _ _ (emit_ret-Total v) λ _. dead_block-Total _

  -- A block with a statement in it, which jumps on.
  arm-Total :
      (name : StrView) (l next : ℕ) (s : Stmt) (k : S (Unit {0}))
      → Total (rec s)
      → Total k
      → Total (lift (open_block name l) >> (rec s >> (lift (jmp next) >> k)))
  arm-Total name l next s k hs h =
      bind-Total _ _ (open_block-Total name l)
        λ _. bind-Total _ _ hs λ _. bind-Total _ _ (jmp-Total next) λ _. h

  -- The end of a loop.
  leave-Total : (name : StrView) (l : ℕ) → Total (lift (open_block name l) >> modify leave_loop)
  leave-Total name l = bind-Total _ _ (open_block-Total name l) λ _. leave_loop-Total

  cg_if-Total : (c : Expr) (t e : Stmt) → Total (rec t) → Total (rec e) → Total (cg_if rec c t e)
  unfolding cg_if
  cg_if-Total c t e ht he = bind-Total _ _ new_label-Total λ tl.
      bind-Total _ _ new_label-Total λ el. bind-Total _ _ new_label-Total λ endl.
        bind-Total _ _ (expr-Total c) λ v.
          bind-Total _ _ (branch-Total v tl el)
            λ _. arm-Total _ tl endl t _ ht (arm-Total _ el endl e _ he (open_block-Total _ endl))

  cg_while-Total : (c : Expr) (b : Stmt) → Total (rec b) → Total (cg_while rec c b)
  unfolding cg_while
  cg_while-Total c b hb = bind-Total _ _ new_label-Total λ cl. bind-Total _ _ new_label-Total λ bl.
      bind-Total _ _ new_label-Total λ el. bind-Total _ _ (enter_loop-Total el cl) λ _.
        bind-Total _ _ (jmp-Total cl) λ _. bind-Total _ _ (open_block-Total _ cl) λ _.
          bind-Total _ _ (expr-Total c) λ v.
            bind-Total _ _ (branch-Total v bl el) λ _. arm-Total _ bl cl b _ hb (leave-Total _ el)

  cg_for-Total :
      (i : Stmt) (c : Expr) (p b : Stmt)
      → Total (rec i)
      → Total (rec p)
      → Total (rec b)
      → Total (cg_for rec i c p b)
  unfolding cg_for
  cg_for-Total i c p b hi hp hb = bind-Total _ _ new_label-Total λ cl.
      bind-Total _ _ new_label-Total λ bl. bind-Total _ _ new_label-Total λ pl.
        bind-Total _ _ new_label-Total λ el. bind-Total _ _ (enter_loop-Total el pl) λ _.
          bind-Total _ _ hi λ _. bind-Total _ _ (jmp-Total cl) λ _.
            bind-Total _ _ (open_block-Total _ cl) λ _.
              bind-Total _ _ (cg_for_cond-Total c bl el)
                λ _. arm-Total _ bl pl b _ hb (arm-Total _ pl cl p _ hp (leave-Total _ el))

  cg_break-Total : Total (cg_break rec)
  unfolding Total Ends cg_break
  cg_break-Total ctx d = elim (Bool-cases (ltb 0 ctx.loop_depth)) [
    | inr e ↦ rw (e, cg_break) d
    | inl e ↦
        rw (e, cg_break)
          (bind-Total _ _ emit_defers-Total
            (λ _.
              bind-Total jump_out _ (λ c. jmp-Total (get_or c.break_labels (c.loop_depth - 1) 0) c)
                (λ _. dead_block-Total name_after_break))
            ctx d)
  ]
    where
      jump_out : S (Unit {0})
      jump_out c = lift (jmp (get_or c.break_labels (c.loop_depth - 1) 0)) c

expr_stmt-Total : (e : Expr) → Total (λ ctx. some (tt {0}, (cg_expr e ctx).1))
unfolding Framed
expr_stmt-Total e =
    lift-Total (λ ctx. (tt, (cg_expr e ctx).1)) (λ ctx. ap (λ c. c.defers) (cg_expr-Framed e ctx).1)

-- A change of the context that keeps an empty list of deferred statements empty.
shrink-Total :
    (f : CgCtx → CgCtx) → ((ctx : CgCtx) → ctx.defers ≡ [] → (f ctx).defers ≡ []) → Total (modify f)
unfolding Total Ends
shrink-Total f h ctx e = h ctx e

-- The end of a block that was entered with `l` variables and `d` deferred statements.
abbrev close : ℕ → ℕ → CgCtx → CgCtx
close l d c = record c { locals = take l c.locals; defers = take d c.defers }

close-Total : (rec : Rec) (l d : ℕ) → Total (cg_emit_defers_from rec d >> modify (close l d))
close-Total rec l d =
    bind-Total _ _ (defers-Total rec d)
      (λ _. shrink-Total (close l d) (λ c e. rw (e, take-nil {A = Stmt} d) refl))

mutual
  unfolding cg_stmt cg_step cg_block run_block Fits AllFit Total Ends ◌>>=◌

  stmt-Total : (n : ℕ) (s : Stmt) → Fits n s → Total (cg_stmt n s)
  stmt-Total zero s h ctx e = absurd h
  stmt-Total (suc n) Stmt.null h ctx e = e
  stmt-Total (suc n) (block ss) h ctx e =
      and_then-Ends (run_block (cg_stmt n) ss ctx) _ (block-Total n ss h ctx e)
        (λ _. close-Total (cg_stmt n) (length ctx.locals) (length ctx.defers))
  stmt-Total (suc n) (let_stmt name type init c m) h ctx e = cg_let-Total name type init ctx e
  stmt-Total (suc n) (expr_stmt x) h ctx e = expr_stmt-Total x ctx e
  stmt-Total (suc n) (ret v) h ctx e = cg_return-Total (cg_stmt n) v ctx e
  stmt-Total (suc n) (if_stmt c t f) h ctx e =
      cg_if-Total (cg_stmt n) c t f (stmt-Total n t h.0) (stmt-Total n f h.1) ctx e
  stmt-Total (suc n) (while_stmt c b) h ctx e =
      cg_while-Total (cg_stmt n) c b (stmt-Total n b h) ctx e
  stmt-Total (suc n) (for_stmt i c p b) h ctx e =
      cg_for-Total (cg_stmt n) i c p b (stmt-Total n i h.0) (stmt-Total n p h.1)
        (stmt-Total n b h.2) ctx e
  stmt-Total (suc n) break_stmt h ctx e = cg_break-Total (cg_stmt n) ctx e
  stmt-Total (suc n) continue_stmt h ctx e = cg_continue-Total ctx e
  stmt-Total (suc n) (defer_stmt s) h ctx e = absurd h

  block-Total : (n : ℕ) (ss : Stmts) → AllFit n ss → Total (run_block (cg_stmt n) ss)
  block-Total n Stmts.nil h ctx e = e
  block-Total n (Stmts.cons s ss) h ctx e =
      and_then-Ends (cg_stmt n s ctx) (λ _. run_block (cg_stmt n) ss) (stmt-Total n s h.0 ctx e)
        (λ _. block-Total n ss h.1)

-- Where nothing is deferred, lowering a statement that defers nothing finishes with any fuel above
-- the depth of its nesting, and nothing is deferred afterwards.
pub cg_stmt-Ends :
    (fuel : ℕ) (s : Stmt) (ctx : CgCtx) → Fits fuel s → ctx.defers ≡ [] → Ends (cg_stmt fuel s ctx)
unfolding Total
cg_stmt-Ends fuel s ctx h e = stmt-Total fuel s h ctx e
