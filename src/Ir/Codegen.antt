-- ===== src/Ir/Codegen.antt =====
-- src/ir/codegen.c: the lowering's context, its monads, and the tables of operations.
pub mod BlockNames
pub mod Expressions
pub mod Framed
pub mod Statements
pub mod Grown
pub mod Lowered
pub mod Functions
pub mod Ssa
pub mod Lookup
pub mod Diverges
pub mod Total
pub mod Fuel
use o.Prelude.{ℕ, List, [], ◌∷◌, if◌then◌else◌, Option, none, some}
use o.Prelude.Int.{pos}
use o.Frontend.Types.{StrView, sv_eq, TypeKind, ty_i64, TypeNode, kind_of, is_null}
use o.Frontend.Ast.{BinOpKind, Stmt}
use o.Ir.Values.{
  IrVal, const_i, IrOp, iop_add, iop_sub, iop_mul, iop_div, iop_mod, iop_and, iop_or, iop_xor,
  iop_shl, iop_shr, iop_cmp_eq, iop_cmp_ne, iop_cmp_lt, iop_cmp_gt, iop_cmp_le, iop_cmp_ge, IrFunc,
}
use o.Ir.Build.{ir_block_new, ir_emit, ir_emit_store, ir_emit_load}

pub record LocalVar : Type 0 where
  pub name : StrView
  pub ptr : IrVal
  pub type : TypeKind

abbrev pub max_locals : ℕ
max_locals = 512

abbrev pub max_defers : ℕ
max_defers = 32

abbrev pub max_loops : ℕ
max_loops = 32

-- `local_count` and `defer_count` are the lengths of their lists. The label arrays have 32 entries.
pub record CgCtx : Type 0 where
  pub fn : IrFunc
  pub cur_block : ℕ
  pub locals : List LocalVar
  pub break_labels : List ℕ
  pub continue_labels : List ℕ
  pub loop_depth : ℕ
  pub defers : List Stmt

-- Expressions always lower: a state monad.
abbrev pub G : Type 0 → Type 0
G A = CgCtx → A × CgCtx

unfoldable pub pure : {A : Type 0} → A → G A
pure a ctx = (a, ctx)

infixl 5 ◌>>=◌ ◌>>◌
unfoldable pub ◌>>=◌ : {A B : Type 0} → G A → (A → G B) → G B
◌>>=◌ m f ctx = f (m ctx).0 (m ctx).1

abbrev pub ◌>>◌ : {B : Type 0} → G (Unit {0}) → G B → G B
m >> k = m >>= λ _. k

-- A builder step on the function, at the current block.
abbrev pub building : {A : Type 0} → (IrFunc → ℕ → A × IrFunc) → G A
building f ctx = ((f ctx.fn ctx.cur_block).0, record ctx { fn = (f ctx.fn ctx.cur_block).1 })

abbrev pub emit : IrOp → IrVal → IrVal → TypeKind → G IrVal
emit op a b ty = building (λ fn blk. ir_emit fn blk op a b ty)

abbrev pub zero_offset : IrVal
zero_offset = const_i (pos 0) ty_i64

abbrev pub emit_store : IrVal → IrVal → G (Unit {0})
emit_store ptr v = building (λ fn blk. (tt, ir_emit_store fn blk ptr zero_offset v))

abbrev pub emit_load : IrVal → TypeKind → G IrVal
emit_load ptr ty = building (λ fn blk. ir_emit_load fn blk ptr zero_offset ty)

unfoldable pub cg_new_block : StrView → G ℕ
cg_new_block name ctx = let (fn, b) = ir_block_new ctx.fn name in (b, record ctx { fn = fn })

unfoldable pub cg_switch_block : ℕ → G (Unit {0})
cg_switch_block b ctx = (tt, record ctx { cur_block = b })

unfoldable pub find_local : List LocalVar → StrView → Option LocalVar
find_local [] name = none
find_local (l ∷ ls) name = if sv_eq l.name name then some l else find_local ls name

unfoldable pub cg_find_local : StrView → CgCtx → Option LocalVar
cg_find_local name ctx = find_local ctx.locals name

-- `t ? t->kind : d`
abbrev pub kind_or : TypeKind → TypeNode → TypeKind
kind_or d t = if is_null t then d else kind_of t

unfoldable pub cg_typekind : TypeNode → TypeKind
cg_typekind t = kind_or ty_i64 t

-- The table `cm` of compound assignments.
unfoldable pub compound_op : BinOpKind → Option IrOp
compound_op BinOpKind.add_assign = some iop_add
compound_op BinOpKind.sub_assign = some iop_sub
compound_op BinOpKind.mul_assign = some iop_mul
compound_op BinOpKind.div_assign = some iop_div
compound_op BinOpKind.mod_assign = some iop_mod
compound_op BinOpKind.and_assign = some iop_and
compound_op BinOpKind.or_assign = some iop_or
compound_op BinOpKind.xor_assign = some iop_xor
compound_op BinOpKind.shl_assign = some iop_shl
compound_op BinOpKind.shr_assign = some iop_shr
compound_op _ = none

-- The table `bm` of the other binary operations.
unfoldable pub binary_op : BinOpKind → Option IrOp
binary_op BinOpKind.add = some iop_add
binary_op BinOpKind.sub = some iop_sub
binary_op BinOpKind.mul = some iop_mul
binary_op BinOpKind.div = some iop_div
binary_op BinOpKind.modulo = some iop_mod
binary_op BinOpKind.and = some iop_and
binary_op BinOpKind.or = some iop_or
binary_op BinOpKind.xor = some iop_xor
binary_op BinOpKind.shl = some iop_shl
binary_op BinOpKind.shr = some iop_shr
binary_op BinOpKind.land = some iop_and
binary_op BinOpKind.lor = some iop_or
binary_op BinOpKind.eq = some iop_cmp_eq
binary_op BinOpKind.neq = some iop_cmp_ne
binary_op BinOpKind.lt = some iop_cmp_lt
binary_op BinOpKind.gt = some iop_cmp_gt
binary_op BinOpKind.le = some iop_cmp_le
binary_op BinOpKind.ge = some iop_cmp_ge
binary_op _ = none
