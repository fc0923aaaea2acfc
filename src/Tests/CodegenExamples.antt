-- ===== src/Tests/CodegenExamples.antt =====
-- The lowering of src/ir/codegen.c on a small function.
use o.Prelude.{◌≡◌, refl, true, false, [], ◌∷◌, none, some, All, arith}
use o.Prelude.Int.{pos, signed}
use o.Frontend.Types.{
  StrView, sv_eq, ty_i64, ty_void, ty_u32, ty_pointer, TypeNode, ty_primitive_size,
}
use o.Frontend.Ast.{
  Expr, expr, int_lit, ident, binary, block, ret, defer_stmt, if_stmt, Stmt, Stmts, func, AstModule,
}
use o.Frontend.Ast.{BinOpKind}
use o.Ir.Codegen.BlockNames.{name_entry, name_dead}
use o.Ir.Values.{
  void, const_i, iop_ret_void, temp, iop_alloca, iop_store, iop_load, iop_add, iop_ret, IrModule,
}
use o.Ir.Build.{
  instr, ir_module_new, ir_func_new, ir_block_new, append_instr, update_at, block_alloc_instr,
  ir_new_vreg, with_result, ir_emit, ir_emit_alloca, ir_emit_store, ir_emit_load, ir_emit_ret,
}
use o.Ir.Steps.{IsSsa}
use o.Ir.Codegen.{
  LocalVar, CgCtx, pure, cg_new_block, cg_switch_block, find_local, cg_find_local, cg_typekind,
  compound_op, binary_op,
}
use o.Ir.Codegen
use o.Ir.Codegen.Expressions.{local_of, store_local, cg_ident, cg_binary, cg_expr, cg_node}
use o.Ir.Codegen.Statements.{
  and_then, emit_ret, dead_block, push_local, run_all, cg_emit_defers_from, cg_emit_defers,
  run_block, cg_block, slot_size, cg_return, cg_step, cg_stmt,
}
use o.Ir.Codegen.Statements
use o.Ir.Codegen.Functions.{
  fresh_ctx, cg_entry, cg_params, returned, cg_tail, cg_body, set_last, cg_func, has_body, cg_decl,
  cg_decls, codegen_module,
}
use o.Ir.Codegen.Framed.{Framed, cg_expr-Framed}
use o.Ir.Codegen.Ssa.{codegen_module-IsSsa}
use o.Ir.Codegen.Lookup.{cg_find_local-push_local}
use o.Ir.Codegen.Total.{Ends}
use o.Ir.Codegen.Fuel.{Fits, AllFit, cg_stmt-Ends}
use o.Ir.Codegen.Diverges.{defer_return_diverges}

abbrev i64_type : TypeNode
i64_type = TypeNode.prim ty_i64

abbrev x : StrView
x = 120 ∷ []

abbrev x_plus_one : Expr
x_plus_one =
    expr i64_type false
      (binary BinOpKind.add (expr i64_type true (ident x)) (expr i64_type false (int_lit 1)))

-- fn f(x) { return x + 1; }
abbrev program : AstModule
program = record {
  filename = [];
  decls =
      record {
        name = 102 ∷ [];
        is_extern = false;
        is_inline = false;
        node = func record {
          params = record { name = x; type = i64_type } ∷ [];
          ret_type = i64_type;
          body = block (Stmts.cons (ret x_plus_one) Stmts.nil);
          variadic = false;
        };
      }
      ∷ [];
}

-- Its IR: the parameter moves to the stack, and an empty block follows the return.
abbrev lowered : IrModule
lowered = record {
  funcs =
      record {
        name = 102 ∷ [];
        ret_type = i64_type;
        param_names = x ∷ [];
        param_types = ty_i64 ∷ [];
        variadic = false;
        blocks =
            record {
              id = 0;
              name = name_entry;
              instrs =
                  instr iop_alloca (temp 1 ty_pointer) (const_i (pos 8) ty_u32) void [] ty_pointer
                  ∷ instr iop_store (temp 1 ty_pointer) (const_i (pos 0) ty_i64) (temp 0 ty_i64) []
                      ty_void
                  ∷ instr iop_load (temp 2 ty_i64) (temp 1 ty_pointer) (const_i (pos 0) ty_i64) []
                      ty_i64
                  ∷ instr iop_add (temp 3 ty_i64) (temp 2 ty_i64) (const_i (pos 1) ty_i64) [] ty_i64
                  ∷ instr iop_ret void (temp 3 ty_i64) void [] ty_void
                  ∷ [];
              instr_cap = 32;
            }
            ∷ record {
              id = 1;
              name = name_dead;
              instrs = instr iop_ret_void void void void [] ty_void ∷ [];
              instr_cap = 32;
            }
            ∷ [];
        block_cap = 16;
        next_vreg = 4;
        next_label = 0;
      }
      ∷ [];
  func_cap = 16;
}

lowered_lem : codegen_module 3 program ≡ some lowered
unfolding codegen_module cg_decls cg_decl has_body cg_func cg_body cg_entry cg_params cg_tail
    returned set_last ir_module_new ir_func_new ir_block_new append_instr update_at
    block_alloc_instr ir_new_vreg with_result ir_emit ir_emit_alloca ir_emit_store ir_emit_load
    ir_emit_ret cg_new_block cg_switch_block cg_find_local find_local cg_typekind compound_op
    binary_op pure Codegen.◌>>=◌ local_of store_local cg_ident cg_binary cg_expr cg_node
    Statements.◌>>=◌ and_then emit_ret dead_block push_local run_all cg_emit_defers_from
    cg_emit_defers run_block cg_block slot_size cg_return cg_step cg_stmt ty_primitive_size sv_eq
    signed
lowered_lem = refl

codegen_module-IsSsa_example : All IsSsa lowered.funcs
codegen_module-IsSsa_example = codegen_module-IsSsa 3 program lowered lowered_lem

cg_expr-Framed_example : Framed (cg_expr x_plus_one)
cg_expr-Framed_example = cg_expr-Framed x_plus_one

abbrev outer_x : LocalVar
outer_x = record { name = x; ptr = temp 1 ty_pointer; type = ty_i64 }

-- A function with the variable `x` in register 1, on its stack.
abbrev with_x : CgCtx
with_x =
    record (fresh_ctx record {
      name = 102 ∷ [];
      ret_type = i64_type;
      param_names = [];
      param_types = [];
      variadic = false;
      blocks = record { id = 0; name = name_entry; instrs = []; instr_cap = 32 } ∷ [];
      block_cap = 16;
      next_vreg = 3;
      next_label = 0;
    }) { locals = outer_x ∷ [] }

abbrev inner_x : LocalVar
inner_x = record { name = x; ptr = temp 2 ty_pointer; type = ty_i64 }

outer_x_lem : cg_find_local x with_x ≡ some outer_x
unfolding cg_find_local find_local sv_eq
outer_x_lem = refl

cg_find_local-push_local_example :
    cg_find_local inner_x.name (push_local inner_x with_x) ≡ some outer_x
cg_find_local-push_local_example = cg_find_local-push_local inner_x outer_x with_x outer_x_lem

defer_return_diverges_example :
    cg_stmt 1000
      (block (Stmts.cons (defer_stmt (ret Expr.null)) (Stmts.cons (ret x_plus_one) Stmts.nil)))
      with_x
    ≡ none
defer_return_diverges_example = defer_return_diverges 1000 Expr.null x_plus_one with_x (omega arith)

-- if (x + 1) { return x + 1; }
abbrev guarded : Stmt
guarded = if_stmt x_plus_one (block (Stmts.cons (ret x_plus_one) Stmts.nil)) Stmt.null

cg_stmt-Ends_example : Ends (cg_stmt 3 guarded with_x)
unfolding Fits AllFit
cg_stmt-Ends_example = cg_stmt-Ends 3 guarded with_x ((tt, tt), tt) refl
