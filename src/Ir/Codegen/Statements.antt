-- ===== src/Ir/Codegen/Statements.antt =====
-- src/ir/codegen.c, `cg_stmt` and `cg_emit_defers`. Running a deferred statement lowers it again
-- with the deferred statements still in place, so the recursion is not structural: `cg_stmt` takes
-- fuel, and `none` is a lowering that the fuel does not cover. A step takes the recursive call as a
-- parameter. Every step works on a whole context, whose `locals` and `defers` grow at the end.
use o.Prelude.{
  ℕ, zero, suc, ◌+◌, ◌-◌, max, List, [], ◌∷◌, ◌++◌, ltb, if◌then◌else◌, length, get_or, take, drop,
  set, reverse, Option, none, some,
}
use o.Frontend.Types.{StrView, TypeKind, ty_i64, ty_void, TypeNode, ty_primitive_size}
use o.Frontend.Ast.{
  Expr, Stmt, block, expr_stmt, let_stmt, ret, if_stmt, while_stmt, for_stmt, break_stmt,
  continue_stmt, defer_stmt, Stmts,
}
use o.Ir.Values.{IrVal, void, label, iop_label}
use o.Ir.Build.{ir_new_label, ir_emit, ir_emit_alloca, ir_emit_jmp, ir_emit_branch, ir_emit_ret}
use o.Ir.Codegen.BlockNames.{
  name_dead, name_if_then, name_if_else, name_if_end, name_while_cond, name_while_body,
  name_while_end, name_for_cond, name_for_body, name_for_post, name_for_end, name_after_break,
  name_after_continue,
}
use o.Ir.Codegen.{
  LocalVar, CgCtx, max_locals, max_defers, max_loops, G, building, emit_store, cg_new_block,
  kind_or,
}
use o.Ir.Codegen.Expressions.{cg_expr}

-- A lowering that can run out of fuel.
abbrev pub S : Type 0 → Type 0
S A = CgCtx → Option (A × CgCtx)

abbrev pub done : {A : Type 0} → A → S A
done a ctx = some (a, ctx)

abbrev pub lift : {A : Type 0} → G A → S A
lift m ctx = some (m ctx)

unfoldable pub and_then : {A B : Type 0} → Option (A × CgCtx) → (A → S B) → Option (B × CgCtx)
and_then none k = none
and_then (some (a, ctx)) k = k a ctx

infixl 5 ◌>>=◌ ◌>>◌
unfoldable pub ◌>>=◌ : {A B : Type 0} → S A → (A → S B) → S B
◌>>=◌ m k ctx = and_then (m ctx) k

abbrev pub ◌>>◌ : {B : Type 0} → S (Unit {0}) → S B → S B
m >> k = m >>= λ _. k

-- The recursive call.
abbrev pub Rec : Type 0
Rec = Stmt → S (Unit {0})

unfoldable pub new_label : G ℕ
new_label ctx = let (l, fn) = ir_new_label ctx.fn in (l, record ctx { fn = fn })

unfoldable pub jmp : ℕ → G (Unit {0})
jmp l = building (λ fn blk. (tt, ir_emit_jmp fn blk l))

unfoldable pub branch : IrVal → ℕ → ℕ → G (Unit {0})
branch c tl el = building (λ fn blk. (tt, ir_emit_branch fn blk c tl el))

unfoldable pub emit_ret : IrVal → G (Unit {0})
emit_ret v = building (λ fn blk. (tt, ir_emit_ret fn blk v))

-- A new block that starts with its label and becomes the current one.
unfoldable pub open_block : StrView → ℕ → G (Unit {0})
open_block name l ctx =
    let (b, ctx') = cg_new_block name ctx in
    (tt, record ctx' { fn = (ir_emit ctx'.fn b iop_label (label l) void ty_void).1; cur_block = b })

-- `ctx->cur_block=cg_new_block(ctx, name)`
unfoldable pub dead_block : StrView → G (Unit {0})
dead_block name ctx = let (b, ctx') = cg_new_block name ctx in (tt, record ctx' { cur_block = b })

unfoldable pub push_local : LocalVar → CgCtx → CgCtx
push_local lv ctx =
    if ltb (length ctx.locals) max_locals
    then record ctx { locals = ctx.locals ++ lv ∷ [] }
    else ctx

unfoldable pub push_defer : Stmt → CgCtx → CgCtx
push_defer s ctx =
    if ltb (length ctx.defers) max_defers then record ctx { defers = ctx.defers ++ s ∷ [] } else ctx

unfoldable pub enter_loop : ℕ → ℕ → CgCtx → CgCtx
enter_loop break_label continue_label ctx =
    if ltb ctx.loop_depth max_loops
    then record ctx {
      break_labels = set ctx.break_labels ctx.loop_depth break_label;
      continue_labels = set ctx.continue_labels ctx.loop_depth continue_label;
      loop_depth = ctx.loop_depth + 1;
    }
    else ctx

-- `if(ctx->loop_depth>0)ctx->loop_depth--`
unfoldable pub leave_loop : CgCtx → CgCtx
leave_loop ctx = record ctx { loop_depth = ctx.loop_depth - 1 }

abbrev pub modify : (CgCtx → CgCtx) → S (Unit {0})
modify f ctx = some (tt, f ctx)

unfoldable pub run_all : Rec → List Stmt → S (Unit {0})
run_all rec [] ctx = some (tt, ctx)
run_all rec (s ∷ ss) ctx = and_then (rec s ctx) (λ _. run_all rec ss)

-- `ctx->defers[count - 1]` down to `ctx->defers[from]`. A deferred `defer` adds a statement behind
-- the count that the loop starts from, which the loop does not see.
unfoldable pub cg_emit_defers_from : Rec → ℕ → S (Unit {0})
cg_emit_defers_from rec from ctx = run_all rec (reverse (drop from ctx.defers)) ctx

unfoldable pub cg_emit_defers : Rec → S (Unit {0})
cg_emit_defers rec = cg_emit_defers_from rec 0

unfoldable pub run_block : Rec → Stmts → S (Unit {0})
run_block rec Stmts.nil ctx = some (tt, ctx)
run_block rec (Stmts.cons s ss) ctx = and_then (rec s ctx) (λ _. run_block rec ss)

-- The variables and the deferred statements of a block end with it.
unfoldable pub cg_block : Rec → Stmts → S (Unit {0})
cg_block rec ss ctx =
    (do
      run_block rec ss
      cg_emit_defers_from rec (length ctx.defers)
      modify (λ c. record c {
        locals = take (length ctx.locals) c.locals;
        defers = take (length ctx.defers) c.defers;
      }))
      ctx

-- The size of a variable on the stack: at least eight bytes.
unfoldable pub slot_size : TypeKind → ℕ
slot_size ty = max (ty_primitive_size ty) 8

unfoldable pub cg_init : IrVal → Expr → S (Unit {0})
cg_init ptr Expr.null = done tt
cg_init ptr init = do v ← lift (cg_expr init); lift (emit_store ptr v)

unfoldable pub cg_let : StrView → TypeNode → Expr → S (Unit {0})
cg_let name type init =
    let ty = kind_or ty_i64 type in
    do
      ptr ← lift (building (λ fn blk. ir_emit_alloca fn blk ty (slot_size ty)))
      modify (push_local record { name = name; ptr = ptr; type = ty })
      cg_init ptr init

-- A return without a value lowers the null expression, which is `void`.
unfoldable pub cg_return : Rec → Expr → S (Unit {0})
cg_return rec value = do
  cg_emit_defers rec
  v ← lift (cg_expr value)
  lift (emit_ret v)
  lift (dead_block name_dead)

unfoldable pub cg_if : Rec → Expr → Stmt → Stmt → S (Unit {0})
cg_if rec cond then_body else_body = do
  tl ← lift new_label
  el ← lift new_label
  endl ← lift new_label
  c ← lift (cg_expr cond)
  lift (branch c tl el)
  lift (open_block name_if_then tl)
  rec then_body
  lift (jmp endl)
  lift (open_block name_if_else el)
  rec else_body
  lift (jmp endl)
  lift (open_block name_if_end endl)

unfoldable pub cg_while : Rec → Expr → Stmt → S (Unit {0})
cg_while rec cond body = do
  cl ← lift new_label
  bl ← lift new_label
  el ← lift new_label
  modify (enter_loop el cl)
  lift (jmp cl)
  lift (open_block name_while_cond cl)
  c ← lift (cg_expr cond)
  lift (branch c bl el)
  lift (open_block name_while_body bl)
  rec body
  lift (jmp cl)
  lift (open_block name_while_end el)
  modify leave_loop

-- Without a condition the loop jumps into its body.
unfoldable pub cg_for_cond : Expr → ℕ → ℕ → S (Unit {0})
cg_for_cond Expr.null bl el = lift (jmp bl)
cg_for_cond cond bl el = do c ← lift (cg_expr cond); lift (branch c bl el)

unfoldable pub cg_for : Rec → Stmt → Expr → Stmt → Stmt → S (Unit {0})
cg_for rec init cond post body = do
  cl ← lift new_label
  bl ← lift new_label
  pl ← lift new_label
  el ← lift new_label
  modify (enter_loop el pl)
  rec init
  lift (jmp cl)
  lift (open_block name_for_cond cl)
  cg_for_cond cond bl el
  lift (open_block name_for_body bl)
  rec body
  lift (jmp pl)
  lift (open_block name_for_post pl)
  rec post
  lift (jmp cl)
  lift (open_block name_for_end el)
  modify leave_loop

unfoldable pub cg_break : Rec → S (Unit {0})
cg_break rec ctx =
    if ltb 0 ctx.loop_depth
    then (do
      cg_emit_defers rec
      (λ c. lift (jmp (get_or c.break_labels (c.loop_depth - 1) 0)) c)
      lift (dead_block name_after_break))
        ctx
    else some (tt, ctx)

unfoldable pub cg_continue : S (Unit {0})
cg_continue ctx =
    if ltb 0 ctx.loop_depth
    then (do
      lift (jmp (get_or ctx.continue_labels (ctx.loop_depth - 1) 0))
      lift (dead_block name_after_continue))
        ctx
    else some (tt, ctx)

unfoldable pub cg_step : Rec → Stmt → S (Unit {0})
cg_step rec Stmt.null = done tt
cg_step rec (block ss) = cg_block rec ss
cg_step rec (let_stmt name type init _ _) = cg_let name type init
cg_step rec (expr_stmt e) = λ ctx. some (tt, (cg_expr e ctx).1)
cg_step rec (ret value) = cg_return rec value
cg_step rec (if_stmt c t e) = cg_if rec c t e
cg_step rec (while_stmt c b) = cg_while rec c b
cg_step rec (for_stmt i c p b) = cg_for rec i c p b
cg_step rec break_stmt = cg_break rec
cg_step rec continue_stmt = cg_continue
cg_step rec (defer_stmt s) = modify (push_defer s)

-- `cg_stmt`, with fuel for the depth of the recursion.
unfoldable pub cg_stmt : ℕ → Stmt → S (Unit {0})
cg_stmt zero s ctx = none
cg_stmt (suc fuel) s ctx = cg_step (cg_stmt fuel) s ctx
