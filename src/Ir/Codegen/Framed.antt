-- ===== src/Ir/Codegen/Framed.antt =====
-- src/ir/codegen.c, `cg_expr`: what the lowering of an expression leaves alone.
use o.Prelude.{◌≡◌, refl, ap, ◌∙◌, List, Option, none, some, Bool-cases, Option-cases, inl, inr}
use o.Frontend.Types.{StrView, TypeKind, TypeNode, same_kind}
use o.Frontend.Ast.{
  UnOpKind, pre_inc, pre_dec, post_inc, post_dec, BinOpKind, Expr, expr, ExprNode, int_lit,
  float_lit, string_lit, char_lit, bool_lit, null_lit, ident, call, index, field, deref, addr_of,
  size_of, align_of, cast, unary, binary, ternary, struct_init, array_init, Exprs, FieldInits, end,
  field_init,
}
use o.Ir.Values.{IrVal, func, IrOp}
use o.Ir.Steps.{Built, start, Built-trans}
use o.Ir.BuilderSteps.{ir_emit-Built, ir_emit_call-Built, ir_emit_store-Built, ir_emit_load-Built}
use o.Ir.Build.{ir_emit_call}
use o.Ir.Codegen.{
  LocalVar, CgCtx, G, pure, ◌>>=◌, ◌>>◌, building, emit, emit_store, emit_load, cg_find_local,
  compound_op, binary_op,
}
use o.Ir.Codegen.Expressions.{
  local_of, store_local, cg_ident, cg_inc, inc_op, inc_result, cg_unary, cg_binary, cast_op,
  is_assign, cg_cast, ident_name, cg_index, cg_expr, cg_node, cg_target, cg_args, cg_fields,
}

-- The function grows by steps of the builder, and the rest of the context stays: the current block,
-- the variables, the loops and the deferred statements.
unfoldable pub Framed : {A : Type 0} → G A → Type 0
Framed m =
    (ctx : CgCtx) → Built ctx.fn (m ctx).1.fn × ((m ctx).1 ≡ record ctx { fn = (m ctx).1.fn })

pub bind-Framed :
    {A B : Type 0} (m : G A) (k : A → G B) → Framed m → ((a : A) → Framed (k a)) → Framed (m >>= k)
unfolding Framed ◌>>=◌
bind-Framed m k hm hk ctx =
    let (bm, em) = hm ctx in
    let (bk, ek) = hk (m ctx).0 (m ctx).1 in
    (
      Built-trans bm bk,
      ek ∙ ap {A = CgCtx} {B = CgCtx} (λ c. record c { fn = (k (m ctx).0 (m ctx).1).1.fn }) em,
    )

pub pure-Framed : {A : Type 0} (a : A) → Framed (pure a)
unfolding Framed pure
pure-Framed a ctx = (start ctx.fn, refl)

emit-Framed : (op : IrOp) (a b : IrVal) (ty : TypeKind) → Framed (emit op a b ty)
unfolding Framed
emit-Framed op a b ty ctx = (ir_emit-Built ctx.fn ctx.cur_block op a b ty, refl)

pub emit_store-Framed : (p v : IrVal) → Framed (emit_store p v)
unfolding Framed
emit_store-Framed p v ctx = (ir_emit_store-Built ctx.fn ctx.cur_block p _ v, refl)

emit_load-Framed : (p : IrVal) (ty : TypeKind) → Framed (emit_load p ty)
unfolding Framed
emit_load-Framed p ty ctx = (ir_emit_load-Built ctx.fn ctx.cur_block p _ ty, refl)

emit_call-Framed :
    (f : IrVal) (args : List IrVal) (ty : TypeKind)
    → Framed (building (λ fn blk. ir_emit_call fn blk f args ty))
unfolding Framed
emit_call-Framed f args ty ctx = (ir_emit_call-Built ctx.fn ctx.cur_block f args ty, refl)

local_of-Framed : (e : Expr) → Framed (local_of e)
unfolding Framed local_of
local_of-Framed e ctx = (start ctx.fn, refl)

store_local-Framed : (lv : Option LocalVar) (v : IrVal) → Framed (store_local lv v)
unfolding store_local
store_local-Framed none v = pure-Framed tt
store_local-Framed (some lv) v = emit_store-Framed lv.ptr v

cg_ident-Framed : (ty : TypeNode) (name : StrView) → Framed (cg_ident ty name)
unfolding Framed cg_ident
cg_ident-Framed ty name ctx = elim (Option-cases (cg_find_local name ctx)) [
  | inl e ↦ rw (e, cg_ident) (start ctx.fn, refl)
  | inr (lv, e) ↦ rw (e, cg_ident) (ir_emit_load-Built ctx.fn ctx.cur_block lv.ptr _ lv.type, refl)
]

-- An operation whose result is stored in the variable, where there is one.
emit_to-Framed :
    (op : IrOp) (a b : IrVal) (ty : TypeKind) (lv : Option LocalVar) (k : IrVal → IrVal)
    → Framed (emit op a b ty >>= λ res. store_local lv res >> pure (k res))
emit_to-Framed op a b ty lv k =
    bind-Framed _ _ (emit-Framed op a b ty)
      λ res. bind-Framed _ _ (store_local-Framed lv res) λ _. pure-Framed (k res)

cg_inc-Framed :
    (ty : TypeKind) (op : UnOpKind) (lv : Option LocalVar) (v : IrVal) → Framed (cg_inc ty op lv v)
unfolding cg_inc
cg_inc-Framed ty op lv v = emit_to-Framed (inc_op op) v _ ty lv (inc_result op v)

cg_unary-Framed :
    (ty : TypeKind) (op : UnOpKind) (lv : Option LocalVar) (v : IrVal)
    → Framed (cg_unary ty op lv v)
unfolding cg_unary
cg_unary-Framed ty UnOpKind.neg lv v = emit-Framed _ v _ ty
cg_unary-Framed ty UnOpKind.not lv v = emit-Framed _ v _ _
cg_unary-Framed ty UnOpKind.bnot lv v = emit-Framed _ v _ ty
cg_unary-Framed ty pre_inc lv v = cg_inc-Framed ty pre_inc lv v
cg_unary-Framed ty pre_dec lv v = cg_inc-Framed ty pre_dec lv v
cg_unary-Framed ty post_inc lv v = cg_inc-Framed ty post_inc lv v
cg_unary-Framed ty post_dec lv v = cg_inc-Framed ty post_dec lv v

cg_binary-Framed :
    (ty : TypeKind) (op : BinOpKind) (lv : Option LocalVar) (a b : IrVal)
    → Framed (cg_binary ty op lv a b)
unfolding cg_binary
cg_binary-Framed ty op lv a b = elim (Option-cases (compound_op op)) [
  | inr (iop, e) ↦ rw (e, cg_binary) (emit_to-Framed iop a b ty lv (λ res. res))
  | inl e ↦ elim (Option-cases (binary_op op)) [
    | inl e' ↦ rw (e, e', cg_binary) (pure-Framed a)
    | inr (iop, e') ↦ rw (e, e', cg_binary) (emit-Framed iop a b ty)
  ]
]

cg_cast-Framed : (f t : TypeKind) (v : IrVal) → Framed (cg_cast f t v)
unfolding cg_cast
cg_cast-Framed f t v = elim (Bool-cases (same_kind f t)) [
  | inl e ↦ rw (e, cg_cast) (pure-Framed v)
  | inr e ↦ rw (e, cg_cast) (emit-Framed (cast_op f t) v _ t)
]

cg_index-Framed : (ty : TypeKind) (b i : IrVal) → Framed (cg_index ty b i)
unfolding cg_index
cg_index-Framed ty b i =
    bind-Framed _ _ (emit-Framed _ i _ _)
      λ off. bind-Framed _ _ (emit-Framed _ b off _) λ addr. emit_load-Framed addr ty

store_to-Framed : (e : Expr) (v : IrVal) → Framed (local_of e >>= λ lv. store_local lv v)
store_to-Framed e v = bind-Framed _ _ (local_of-Framed e) λ lv. store_local-Framed lv v

-- The address of a callee, and of an operand of `&`.
callee_or-Framed :
    (m : G IrVal) (o : Option StrView)
    → Framed m
    → Framed (elim o [ some name ↦ pure (func name) | none ↦ m ])
callee_or-Framed m none h = h
callee_or-Framed m (some name) h = pure-Framed _

ptr_or-Framed :
    (m : G IrVal) (o : Option LocalVar)
    → Framed m
    → Framed (elim o [ some l ↦ pure l.ptr | none ↦ m ])
ptr_or-Framed m none h = h
ptr_or-Framed m (some l) h = pure-Framed _

mutual
  unfolding cg_expr cg_node cg_target cg_args cg_fields

  any_expr-Framed : (e : Expr) → Framed (cg_expr e)
  any_expr-Framed Expr.null = pure-Framed _
  any_expr-Framed (expr ty _ node) = cg_node-Framed ty node

  cg_node-Framed : (ty : TypeNode) (node : ExprNode) → Framed (cg_node ty node)
  cg_node-Framed ty (int_lit v) = pure-Framed _
  cg_node-Framed ty (float_lit v) = pure-Framed _
  cg_node-Framed ty (bool_lit b) = pure-Framed _
  cg_node-Framed ty null_lit = pure-Framed _
  cg_node-Framed ty (char_lit v) = pure-Framed _
  cg_node-Framed ty (string_lit s) = pure-Framed _
  cg_node-Framed ty (ident name) = cg_ident-Framed ty name
  cg_node-Framed ty (unary op e) =
      bind-Framed _ _ (local_of-Framed e)
        λ lv. bind-Framed _ _ (any_expr-Framed e) λ v. cg_unary-Framed _ op lv v
  cg_node-Framed ty (binary op lhs rhs) = elim (Bool-cases (is_assign op)) [
    | inl e ↦
        rw (e, cg_node)
          (bind-Framed _ _ (any_expr-Framed rhs)
            λ rv. bind-Framed _ _ (cg_target-Framed lhs rv) λ _. pure-Framed rv)
    | inr e ↦
        rw (e, cg_node)
          (bind-Framed _ _ (any_expr-Framed lhs) λ l.
            bind-Framed _ _ (any_expr-Framed rhs)
              λ r. bind-Framed _ _ (local_of-Framed lhs) λ lv. cg_binary-Framed _ op lv l r)
  ]
  cg_node-Framed ty (call callee args) =
      bind-Framed _ _ (callee_or-Framed _ (ident_name callee) (any_expr-Framed callee))
        λ f. bind-Framed _ _ (cg_args-Framed args) λ vs. emit_call-Framed f vs _
  cg_node-Framed ty (index base i) =
      bind-Framed _ _ (any_expr-Framed base)
        λ b. bind-Framed _ _ (any_expr-Framed i) λ v. cg_index-Framed _ b v
  cg_node-Framed ty (deref e) = bind-Framed _ _ (any_expr-Framed e) λ p. emit_load-Framed p _
  cg_node-Framed ty (addr_of e _) =
      bind-Framed _ _ (local_of-Framed e) λ lv. ptr_or-Framed _ lv (any_expr-Framed e)
  cg_node-Framed ty (cast e to) = bind-Framed _ _ (any_expr-Framed e) λ v. cg_cast-Framed _ _ v
  cg_node-Framed ty (size_of t) = pure-Framed _
  cg_node-Framed ty (align_of t) = pure-Framed _
  cg_node-Framed ty (field base _) =
      bind-Framed _ _ (any_expr-Framed base) λ p. emit_load-Framed p _
  cg_node-Framed ty (struct_init _ fields) =
      bind-Framed _ _ (cg_fields-Framed fields) λ _. pure-Framed _
  cg_node-Framed ty ternary = pure-Framed _
  cg_node-Framed ty (array_init _) = pure-Framed _

  cg_target-Framed : (e : Expr) (v : IrVal) → Framed (cg_target e v)
  cg_target-Framed Expr.null v = store_to-Framed Expr.null v
  cg_target-Framed (expr _ _ (deref e)) v =
      bind-Framed _ _ (any_expr-Framed e) λ p. emit_store-Framed p v
  cg_target-Framed (expr t l (int_lit a)) v = store_to-Framed (expr t l (int_lit a)) v
  cg_target-Framed (expr t l (float_lit a)) v = store_to-Framed (expr t l (float_lit a)) v
  cg_target-Framed (expr t l (bool_lit a)) v = store_to-Framed (expr t l (bool_lit a)) v
  cg_target-Framed (expr t l null_lit) v = store_to-Framed (expr t l null_lit) v
  cg_target-Framed (expr t l (char_lit a)) v = store_to-Framed (expr t l (char_lit a)) v
  cg_target-Framed (expr t l (string_lit a)) v = store_to-Framed (expr t l (string_lit a)) v
  cg_target-Framed (expr t l (ident a)) v = store_to-Framed (expr t l (ident a)) v
  cg_target-Framed (expr t l (unary a b)) v = store_to-Framed (expr t l (unary a b)) v
  cg_target-Framed (expr t l (binary a b c)) v = store_to-Framed (expr t l (binary a b c)) v
  cg_target-Framed (expr t l (call a b)) v = store_to-Framed (expr t l (call a b)) v
  cg_target-Framed (expr t l (index a b)) v = store_to-Framed (expr t l (index a b)) v
  cg_target-Framed (expr t l (addr_of a b)) v = store_to-Framed (expr t l (addr_of a b)) v
  cg_target-Framed (expr t l (cast a b)) v = store_to-Framed (expr t l (cast a b)) v
  cg_target-Framed (expr t l (size_of a)) v = store_to-Framed (expr t l (size_of a)) v
  cg_target-Framed (expr t l (align_of a)) v = store_to-Framed (expr t l (align_of a)) v
  cg_target-Framed (expr t l (field a b)) v = store_to-Framed (expr t l (field a b)) v
  cg_target-Framed (expr t l (struct_init a b)) v = store_to-Framed (expr t l (struct_init a b)) v
  cg_target-Framed (expr t l ternary) v = store_to-Framed (expr t l ternary) v
  cg_target-Framed (expr t l (array_init a)) v = store_to-Framed (expr t l (array_init a)) v

  cg_args-Framed : (es : Exprs) → Framed (cg_args es)
  cg_args-Framed Exprs.nil = pure-Framed _
  cg_args-Framed (Exprs.cons e es) =
      bind-Framed _ _ (any_expr-Framed e)
        λ v. bind-Framed _ _ (cg_args-Framed es) λ vs. pure-Framed _

  cg_fields-Framed : (fs : FieldInits) → Framed (cg_fields fs)
  cg_fields-Framed end = pure-Framed _
  cg_fields-Framed (field_init _ e rest) =
      bind-Framed _ _ (any_expr-Framed e) λ v. cg_fields-Framed rest

-- Lowering an expression changes the function by calls of the builder only, and leaves the rest of
-- the context as it was: the current block, the variables, the loops and the deferred statements.
pub cg_expr-Framed : (e : Expr) → Framed (cg_expr e)
cg_expr-Framed e = any_expr-Framed e
