-- ===== src/Frontend/Parser/LeftFold.antt =====
-- src/frontend/parser.c, BINLEVEL: the operators of a level associate to the left.
use o.Prelude.{ℕ, zero, suc, ◌<◌, ◌≡◌, ◌∙◌, List, [], ◌∷◌, none, some, length, arith}
use o.Frontend.Types.{StrView}
use o.Frontend.Ast.{F64, BinOpKind, Expr, binary}
use o.Frontend.Parser.{Parser, Parse, done}
use o.Frontend.Parser.ParseType.{match_in}
use o.Frontend.Parser.Expressions.{alloc_expr, Operators, level_turn, level_loop, bin_level}
use o.Frontend.Parser.Stuck.{bind_some}

-- From the first state to the second the tokens read as these operators with their right operands, and
-- then none of the operators follows.
pub data Chain (ops : Operators) (next : Parse Expr) (strtod : StrView → F64)
    : Parser → List (BinOpKind × Expr) → Parser → Type 0 where
  stop : {p q : Parser} → match_in ops strtod p ≡ some (none, q) → Chain ops next strtod p [] q
  turn :
      {p p1 p2 q : Parser} {op : BinOpKind} {e : Expr} {rest : List (BinOpKind × Expr)}
      → match_in ops strtod p ≡ some (some op, p1)
      → next strtod p1 ≡ some (e, p2)
      → Chain ops next strtod p2 rest q
      → Chain ops next strtod p ((op, e) ∷ rest) q

-- The operands from the left to the right.
unfoldable pub fold_left : Expr → List (BinOpKind × Expr) → Expr
fold_left lhs [] = lhs
fold_left lhs ((op, e) ∷ rest) = fold_left (alloc_expr (binary op lhs e)) rest

level_loop-fold_left :
    {ops : Operators} {next : Parse Expr} {strtod : StrView → F64} (k : ℕ) (lhs : Expr)
    {p q : Parser} {rest : List (BinOpKind × Expr)}
    → length rest < k
    → Chain ops next strtod p rest q
    → level_loop k ops next lhs strtod p ≡ some (fold_left lhs rest, q)
unfolding level_loop level_turn fold_left done
level_loop-fold_left zero lhs h c = ground arith
level_loop-fold_left (suc k) lhs h (stop e) = bind_some _ _ _ _ _ e
level_loop-fold_left (suc k) lhs h (turn e n c) =
    bind_some _ _ _ _ _ e ∙ bind_some _ _ _ _ _ n ∙ level_loop-fold_left k _ (omega arith) c

-- A level whose first operand is read, and then operators of the level with their right operands, gives
-- with fuel above the number of these operators the operations from the left to the right.
pub bin_level-fold_left :
    (ops : Operators) (next : Parse Expr) (strtod : StrView → F64) (p p0 q : Parser) (e : Expr)
    (rest : List (BinOpKind × Expr)) (n : ℕ)
    → next strtod p ≡ some (e, p0)
    → Chain ops next strtod p0 rest q
    → length rest < n
    → bin_level n ops next strtod p ≡ some (fold_left e rest, q)
unfolding bin_level
bin_level-fold_left ops next strtod p p0 q e rest n first c h =
    bind_some next (level_loop n ops next) strtod p (e, p0) first ∙ level_loop-fold_left n e h c
