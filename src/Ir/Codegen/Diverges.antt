-- ===== src/Ir/Codegen/Diverges.antt =====
-- src/ir/codegen.c, `cg_return` and `cg_emit_defers`: a deferred return.
use o.Prelude.{
  ℕ, zero, suc, ◌<◌, ◌≡◌, refl, ap, ◌∙◌, List, [], ◌∷◌, ◌++◌, length, reverse, lt→ltb, none,
}
use o.Frontend.Ast.{Expr, Stmt, block, ret, defer_stmt, Stmts}
use o.Ir.Codegen.{CgCtx, max_defers}
use o.Ir.Codegen.Statements.{
  ◌>>=◌, Rec, and_then, push_defer, run_all, cg_emit_defers_from, cg_emit_defers, run_block,
  cg_block, cg_return, cg_step, cg_stmt,
}

reverse-append : (ss : List Stmt) (s : Stmt) → reverse (ss ++ s ∷ []) ≡ s ∷ reverse ss
reverse-append [] s = refl
reverse-append (t ∷ ss) s = rw (reverse-append ss s) refl

run_all-none :
    (rec : Rec) (ds : List Stmt) (s : Stmt) (ctx : CgCtx)
    → ctx.defers ≡ ds ++ s ∷ []
    → rec s ctx ≡ none
    → cg_emit_defers rec ctx ≡ none
unfolding cg_emit_defers cg_emit_defers_from run_all and_then
run_all-none rec ds s ctx e h =
    ap (λ ss. run_all rec (reverse ss) ctx) e
    ∙ ap (λ ss. run_all rec ss ctx) (reverse-append ds s)
    ∙ rw h refl

-- A return under a deferred return never finishes, whatever the fuel.
return_diverges :
    (fuel : ℕ) (v w : Expr) (ds : List Stmt) (ctx : CgCtx)
    → ctx.defers ≡ ds ++ ret v ∷ []
    → cg_stmt fuel (ret w) ctx ≡ none
unfolding cg_stmt cg_step cg_return ◌>>=◌ and_then
return_diverges zero v w ds ctx e = refl
return_diverges (suc fuel) v w ds ctx e =
    rw (run_all-none (cg_stmt fuel) ds (ret v) ctx e (return_diverges fuel v v ds ctx e)) refl

push_defer-defers :
    (s : Stmt) (ctx : CgCtx)
    → length ctx.defers < max_defers
    → (push_defer s ctx).defers ≡ ctx.defers ++ s ∷ []
unfolding push_defer
push_defer-defers s ctx h = rw (lt→ltb (length ctx.defers) max_defers h) refl

-- Lowering a block that defers a return and then returns never finishes, whatever the fuel, where
-- there is room for the deferred statement.
pub defer_return_diverges :
    (fuel : ℕ) (v w : Expr) (ctx : CgCtx)
    → length ctx.defers < max_defers
    → cg_stmt fuel (block (Stmts.cons (defer_stmt (ret v)) (Stmts.cons (ret w) Stmts.nil))) ctx
      ≡ none
unfolding cg_stmt cg_step cg_block run_block ◌>>=◌ and_then
defer_return_diverges zero v w ctx h = refl
defer_return_diverges (suc zero) v w ctx h = refl
defer_return_diverges (suc (suc fuel)) v w ctx h =
    rw
      (return_diverges (suc fuel) v w ctx.defers (push_defer (ret v) ctx)
        (push_defer-defers (ret v) ctx h))
      refl
