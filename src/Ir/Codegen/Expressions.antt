-- ===== src/Ir/Codegen/Expressions.antt =====
-- src/ir/codegen.c, `cg_expr`: the lowering of expressions.
use o.Prelude.{
  ℕ, ◌^◌, max, Bool, true, false, ◌&&◌, List, [], ◌∷◌, ltb, if◌then◌else◌, Option, none, some,
}
use o.Prelude.Int.{ℤ, pos, signed}
use o.Frontend.Types.{
  StrView, TypeKind, ty_void, ty_bool, ty_i8, ty_i64, ty_f64, ty_usize, ty_pointer, TypeNode,
  same_kind, ty_is_float, ty_is_integer, ty_is_signed, ty_primitive_size,
}
use o.Frontend.Ast.{
  UnOpKind, pre_inc, post_inc, post_dec, BinOpKind, assign, Expr, expr, ExprNode, int_lit,
  float_lit, string_lit, char_lit, bool_lit, null_lit, ident, call, index, field, deref, addr_of,
  size_of, align_of, cast, unary, binary, ternary, struct_init, array_init, Exprs, FieldInits, end,
  field_init,
}
use o.Ir.Values.{
  IrVal, void, const_i, const_f, global, func, IrOp, iop_add, iop_sub, iop_mul, iop_neg, iop_not,
  iop_bnot, iop_ftoi, iop_itof, iop_sext, iop_zext, iop_trunc, iop_bitcast,
}
use o.Ir.Build.{ir_emit_call}
use o.Ir.Codegen.{
  LocalVar, G, pure, ◌>>=◌, ◌>>◌, building, emit, emit_store, emit_load, cg_find_local, kind_or,
  cg_typekind, compound_op, binary_op,
}

-- The name that an identifier holds.
abbrev pub ident_name : Expr → Option StrView
ident_name (expr _ _ (ident name)) = some name
ident_name _ = none

-- `(e->kind == EXPR_IDENT) ? cg_find_local(ctx, e->str_val) : NULL`
unfoldable pub local_of : Expr → G (Option LocalVar)
local_of e ctx = (elim (ident_name e) [ none ↦ none | some name ↦ cg_find_local name ctx ], ctx)

-- `if (lv) ir_emit_store(..., lv->ptr, 0, v)`
unfoldable pub store_local : Option LocalVar → IrVal → G (Unit {0})
store_local none v = pure tt
store_local (some lv) v = emit_store lv.ptr v

unfoldable pub cg_ident : TypeNode → StrView → G IrVal
cg_ident ty name ctx = elim (cg_find_local name ctx) [
  | none ↦ (global name (kind_or ty_i64 ty), ctx)
  | some lv ↦ emit_load lv.ptr lv.type ctx
]

-- The step of ++ and --.
abbrev pub inc_op : UnOpKind → IrOp
inc_op pre_inc = iop_add
inc_op post_inc = iop_add
inc_op _ = iop_sub

-- Prefix forms give the new value, postfix forms the old one.
abbrev pub inc_result : UnOpKind → IrVal → IrVal → IrVal
inc_result post_inc old res = old
inc_result post_dec old res = old
inc_result _ old res = res

-- `x++` and its kin, on the value that the operand lowers to.
unfoldable pub cg_inc : TypeKind → UnOpKind → Option LocalVar → IrVal → G IrVal
cg_inc rty op lv old = do
  res ← emit (inc_op op) old (const_i (pos 1) rty) rty
  store_local lv res
  pure (inc_result op old res)

-- The other unary operators, and ++ and -- on an operand with its variable.
unfoldable pub cg_unary : TypeKind → UnOpKind → Option LocalVar → IrVal → G IrVal
cg_unary rty UnOpKind.neg lv v = emit iop_neg v void rty
cg_unary rty UnOpKind.not lv v = emit iop_not v void ty_bool
cg_unary rty UnOpKind.bnot lv v = emit iop_bnot v void rty
cg_unary rty op lv v = cg_inc rty op lv v

abbrev pub is_assign : BinOpKind → Bool
is_assign assign = true
is_assign _ = false

-- Behind the assignment: compound assignments, and the other operators.
unfoldable pub cg_binary : TypeKind → BinOpKind → Option LocalVar → IrVal → IrVal → G IrVal
cg_binary ty op lv lhs rhs = elim (compound_op op) [
  | some iop ↦ (emit iop lhs rhs ty >>= λ res. store_local lv res >> pure res)
  | none ↦ elim (binary_op op) [ some iop ↦ emit iop lhs rhs ty | none ↦ pure lhs ]
]

-- The operation of a cast between types of different kinds, by the tests of the source.
unfoldable pub cast_op : TypeKind → TypeKind → IrOp
cast_op ft tt' =
    let fs = ty_primitive_size ft in
    let ts = ty_primitive_size tt' in
    if ty_is_float ft && ty_is_integer tt'
    then iop_ftoi
    else if ty_is_integer ft && ty_is_float tt'
    then iop_itof
    else if ltb fs ts
    then (if ty_is_signed ft then iop_sext else iop_zext)
    else if ltb ts fs
    then iop_trunc
    else iop_bitcast

unfoldable pub cg_cast : TypeKind → TypeKind → IrVal → G IrVal
cg_cast ft tt' v = if same_kind ft tt' then pure v else emit (cast_op ft tt') v void tt'

abbrev pub resolved_type : Expr → TypeNode
resolved_type Expr.null = TypeNode.null
resolved_type (expr ty _ _) = ty

unfoldable pub cg_index : TypeKind → IrVal → IrVal → G IrVal
cg_index ety base idx = do
  off ← emit iop_mul idx (const_i (pos (max (ty_primitive_size ety) 1)) ty_i64) ty_i64
  addr ← emit iop_add base off ty_pointer
  emit_load addr ety

abbrev pub bool_value : Bool → ℕ
bool_value b = if b then 1 else 0

-- `(i64)v`
abbrev pub i64_of : ℕ → ℤ
i64_of v = signed (2 ^ 64) v

unfoldable mutual
  pub cg_expr : Expr → G IrVal
  cg_expr Expr.null = pure void
  cg_expr (expr ty _ node) = cg_node ty node

  pub cg_node : TypeNode → ExprNode → G IrVal
  cg_node ty (int_lit v) = pure (const_i (i64_of v) (kind_or ty_i64 ty))
  cg_node ty (float_lit v) = pure (const_f v (kind_or ty_f64 ty))
  cg_node ty (bool_lit b) = pure (const_i (pos (bool_value b)) ty_bool)
  cg_node ty null_lit = pure (const_i (pos 0) ty_pointer)
  cg_node ty (char_lit v) = pure (const_i (i64_of v) ty_i8)
  cg_node ty (string_lit s) = pure (global s ty_pointer)
  cg_node ty (ident name) = cg_ident ty name
  cg_node ty (unary op e) = do lv ← local_of e; v ← cg_expr e; cg_unary (cg_typekind ty) op lv v
  cg_node ty (binary op lhs rhs) = elim (is_assign op) [
    | true ↦ (cg_expr rhs >>= λ rv. cg_target lhs rv >> pure rv)
    | false ↦
        (cg_expr lhs >>= λ l.
        cg_expr rhs >>= λ r. local_of lhs >>= λ lv. cg_binary (cg_typekind ty) op lv l r)
  ]
  cg_node ty (call callee args) = do
    f ← elim (ident_name callee) [ some name ↦ pure (func name) | none ↦ cg_expr callee ]
    vs ← cg_args args
    building (λ fn blk. ir_emit_call fn blk f vs (kind_or ty_void ty))
  cg_node ty (index base i) = do b ← cg_expr base; v ← cg_expr i; cg_index (cg_typekind ty) b v
  cg_node ty (deref e) = do p ← cg_expr e; emit_load p (cg_typekind ty)
  cg_node ty (addr_of e _) = do lv ← local_of e; elim lv [ some l ↦ pure l.ptr | none ↦ cg_expr e ]
  cg_node ty (cast e to) = do
    v ← cg_expr e
    cg_cast (cg_typekind (resolved_type e)) (cg_typekind to) v
  cg_node ty (size_of t) = pure (const_i (pos (ty_primitive_size (cg_typekind t))) ty_usize)
  cg_node ty (align_of t) = pure (const_i (pos (ty_primitive_size (cg_typekind t))) ty_usize)
  cg_node ty (field base _) = do p ← cg_expr base; emit_load p (cg_typekind ty)
  cg_node ty (struct_init _ fields) = do cg_fields fields; pure (const_i (pos 0) ty_pointer)
  cg_node ty ternary = pure (const_i (pos 0) ty_i64)
  cg_node ty (array_init _) = pure (const_i (pos 0) ty_i64)

  -- The left-hand side of an assignment.
  pub cg_target : Expr → IrVal → G (Unit {0})
  cg_target (expr _ _ (deref e)) rv = do p ← cg_expr e; emit_store p rv
  cg_target lhs rv = do lv ← local_of lhs; store_local lv rv

  pub cg_args : Exprs → G (List IrVal)
  cg_args Exprs.nil = pure []
  cg_args (Exprs.cons e es) = do v ← cg_expr e; vs ← cg_args es; pure (v ∷ vs)

  pub cg_fields : FieldInits → G (Unit {0})
  cg_fields end = pure tt
  cg_fields (field_init _ e rest) = do _ ← cg_expr e; cg_fields rest
