-- ===== src/Frontend/Parser/Statements.antt =====
-- src/frontend/parser.c: statements. `rec` is `parse_stmt`.
use o.Prelude.{ℕ, zero, suc, none}
use o.Frontend.Types.{TypeNode, is_null}
use o.Frontend.Ast.{
  Expr, Stmt, block, expr_stmt, let_stmt, ret, if_stmt, while_stmt, for_stmt, break_stmt,
  continue_stmt, defer_stmt, Stmts,
}
use o.Frontend.Lexer.{
  tok_ident, tok_kw_let, tok_kw_const, tok_kw_return, tok_kw_if, tok_kw_else, tok_kw_while,
  tok_kw_for, tok_kw_break, tok_kw_continue, tok_kw_defer, tok_kw_mut, tok_lbrace, tok_rbrace,
  tok_semi, tok_colon, tok_assign,
}
use o.Frontend.Parser.{
  Parse, done, ◌>>=◌, ◌>>◌, out_of_fuel, parse_error, advance, check, either, if_check, on, taken,
  expect, at_end,
}
use o.Frontend.Parser.ParseType.{parse_type}
use o.Frontend.Parser.Expressions.{parse_expr}

unfoldable pub block_stmts : ℕ → Parse Stmt → Parse Stmts
block_stmts zero rec = out_of_fuel
block_stmts (suc n) rec =
    at_end tok_rbrace
    >>= either (done Stmts.nil) (do s ← rec; ss ← block_stmts n rec; done (Stmts.cons s ss))

unfoldable pub parse_block : ℕ → Parse Stmt → Parse Stmt
parse_block n rec = do expect tok_lbrace; ss ← block_stmts n rec; expect tok_rbrace; done (block ss)

-- `if (match(p, TOK_COLON)) ty = parse_type(p)`
unfoldable pub opt_type : ℕ → Parse TypeNode
opt_type n = on tok_colon (parse_type n) (done TypeNode.null)

-- A binding with neither a type nor a value is an error.
unfoldable pub let_init : ℕ → TypeNode → Parse Expr
let_init n ty =
    on tok_assign (parse_expr n)
      (either (parse_error >> done Expr.null) (done Expr.null) (is_null ty))

unfoldable pub parse_let : ℕ → Parse Stmt
parse_let n = do
  is_const ← check tok_kw_const
  advance
  is_mut ← taken tok_kw_mut
  nt ← expect tok_ident
  ty ← opt_type n
  init ← let_init n ty
  expect tok_semi
  done (let_stmt nt.text ty init is_const is_mut)

unfoldable pub parse_return : ℕ → Parse Stmt
parse_return n = do
  v ← if_check tok_semi (done Expr.null) (parse_expr n)
  expect tok_semi
  done (ret v)

unfoldable pub parse_else : ℕ → Parse Stmt → Parse Stmt
parse_else n rec = on tok_kw_else (if_check tok_kw_if rec (parse_block n rec)) (done Stmt.null)

unfoldable pub parse_if : ℕ → Parse Stmt → Parse Stmt
parse_if n rec = do
  cond ← parse_expr n
  then_body ← parse_block n rec
  els ← parse_else n rec
  done (if_stmt cond then_body els)

unfoldable pub parse_while : ℕ → Parse Stmt → Parse Stmt
parse_while n rec = do c ← parse_expr n; b ← parse_block n rec; done (while_stmt c b)

unfoldable pub for_init : Parse Stmt → Parse Stmt
for_init rec = if_check tok_semi (advance >> done Stmt.null) rec

unfoldable pub for_post : ℕ → Parse Stmt
for_post n = if_check tok_lbrace (done Stmt.null) (parse_expr n >>= λ pe. done (expr_stmt pe))

unfoldable pub parse_for : ℕ → Parse Stmt → Parse Stmt
parse_for n rec = do
  init_s ← for_init rec
  cond ← if_check tok_semi (done Expr.null) (parse_expr n)
  expect tok_semi
  post_s ← for_post n
  body ← parse_block n rec
  done (for_stmt init_s cond post_s body)

unfoldable pub parse_expr_stmt : ℕ → Parse Stmt
parse_expr_stmt n = do e ← parse_expr n; expect tok_semi; done (expr_stmt e)

unfoldable pub stmt_step : ℕ → Parse Stmt → Parse Stmt
stmt_step n rec = if_check tok_lbrace (parse_block n rec) (
    if_check tok_kw_let (parse_let n) (
      if_check tok_kw_const (parse_let n) (
        on tok_kw_return (parse_return n) (
          on tok_kw_if (parse_if n rec) (
            on tok_kw_while (parse_while n rec) (
              on tok_kw_for (parse_for n rec) (
                on tok_kw_break (expect tok_semi >> done break_stmt) (
                  on tok_kw_continue (expect tok_semi >> done continue_stmt)
                    (on tok_kw_defer (rec >>= λ d. done (defer_stmt d)) (parse_expr_stmt n))))))))))

unfoldable pub parse_stmt : ℕ → Parse Stmt
parse_stmt zero strtod p = none
parse_stmt (suc n) strtod p = stmt_step n (parse_stmt n) strtod p
