-- ===== src/Ir/Values.antt =====
-- include/ir/ir.h: values, operations, instructions, blocks and functions.
use o.Prelude.{ℕ, Bool, List}
use o.Prelude.Int.{ℤ}
use o.Frontend.Types.{StrView, TypeKind, TypeNode}
use o.Frontend.Ast.{F64}

-- `IrVal`, by its kind. The type of a label, a function and a void value is never set.
pub data IrVal : Type 0 where
  void : IrVal
  temp : ℕ → TypeKind → IrVal
  const_i : ℤ → TypeKind → IrVal
  const_f : F64 → TypeKind → IrVal
  global : StrView → TypeKind → IrVal
  func : StrView → IrVal
  label : ℕ → IrVal

pub data IrOp : Type 0 where
  iop_add iop_sub iop_mul iop_div iop_mod iop_and iop_or iop_xor iop_shl iop_shr iop_sar : IrOp
  iop_neg iop_not iop_bnot iop_fadd iop_fsub iop_fmul iop_fdiv iop_fneg : IrOp
  iop_cmp_eq iop_cmp_ne iop_cmp_lt iop_cmp_le iop_cmp_gt iop_cmp_ge : IrOp
  iop_cmp_flt iop_cmp_fle iop_cmp_fgt iop_cmp_fge iop_cmp_feq iop_cmp_fne : IrOp
  iop_mov iop_load iop_store iop_lea iop_sext iop_zext iop_trunc iop_itof iop_ftoi : IrOp
  iop_bitcast iop_label iop_jmp iop_jz iop_jnz iop_call iop_ret iop_ret_void : IrOp
  iop_alloca iop_memcpy iop_memset iop_nop : IrOp

-- `arg_count` is the length of `args`.
pub record IrInstr : Type 0 where
  pub op : IrOp
  pub dst : IrVal
  pub src1 : IrVal
  pub src2 : IrVal
  pub args : List IrVal
  pub result_type : TypeKind

-- `instr_count` is the length of `instrs`. No code under src/ sets the graph's edges.
pub record IrBlock : Type 0 where
  pub id : ℕ
  pub name : StrView
  pub instrs : List IrInstr
  pub instr_cap : ℕ

-- `block_count` is the length of `blocks`, `param_count` that of the parameter lists.
pub record IrFunc : Type 0 where
  pub name : StrView
  pub ret_type : TypeNode
  pub param_names : List StrView
  pub param_types : List TypeKind
  pub variadic : Bool
  pub blocks : List IrBlock
  pub block_cap : ℕ
  pub next_vreg : ℕ
  pub next_label : ℕ

-- `func_count` is the length of `funcs`.
pub record IrModule : Type 0 where
  pub funcs : List IrFunc
  pub func_cap : ℕ
