-- ===== src/Ir/Codegen/Functions.antt =====
-- src/ir/codegen.c: `cg_func` and `codegen_module`, with the fuel of `cg_stmt`. The context lasts
-- for the whole module in the source; what a function takes over from the one before it are the
-- label arrays and the entries above the counts, which nothing reads.
use o.Prelude.{
  ℕ, ◌+◌, Bool, true, false, not, ◌&&◌, List, [], ◌∷◌, if◌then◌else◌, get_elem?, replicate, map,
  Option, none, some,
}
use o.Frontend.Types.{StrView}
use o.Frontend.Ast.{Stmt, ParamDecl, FuncDecl, func, Decl, AstModule}
use o.Ir.Values.{void, temp, IrOp, iop_ret, iop_ret_void, IrInstr, IrFunc, IrModule}
use o.Ir.Build.{ir_module_new, ir_func_new, ir_emit_alloca}
use o.Ir.Codegen.BlockNames.{name_entry}
use o.Ir.Codegen.{CgCtx, G, building, emit_store, cg_new_block, cg_switch_block, cg_typekind}
use o.Ir.Codegen.Statements.{
  ◌>>◌, S, ◌>>=◌, lift, modify, push_local, slot_size, cg_emit_defers, cg_stmt, emit_ret,
}

-- The context at the start of a function, with no block yet.
abbrev pub fresh_ctx : IrFunc → CgCtx
fresh_ctx fn = record {
  fn = fn;
  cur_block = 0;
  locals = [];
  break_labels = replicate 32 0;
  continue_labels = replicate 32 0;
  loop_depth = 0;
  defers = [];
}

unfoldable pub cg_entry : G (Unit {0})
cg_entry ctx = let (b, ctx') = cg_new_block name_entry ctx in cg_switch_block b ctx'

-- Parameter `i` arrives in register `i`, and moves to the stack.
unfoldable pub cg_params : ℕ → List ParamDecl → S (Unit {0})
cg_params i [] ctx = some (tt, ctx)
cg_params i (p ∷ ps) ctx =
    let ty = cg_typekind p.type in
    (do
      ptr ← lift (building (λ fn blk. ir_emit_alloca fn blk ty (slot_size ty)))
      lift (emit_store ptr (temp i ty))
      modify (push_local record { name = p.name; ptr = ptr; type = ty })
      cg_params (i + 1) ps)
      ctx

is_ret : IrOp → Bool
is_ret iop_ret = true
is_ret iop_ret_void = true
is_ret _ = false

ends_with_ret : List IrInstr → Bool
ends_with_ret [] = false
ends_with_ret (i ∷ []) = is_ret i.op
ends_with_ret (i ∷ j ∷ is) = ends_with_ret (j ∷ is)

-- Whether the last instruction of the current block is a return.
unfoldable pub returned : CgCtx → Bool
unfolding is_ret ends_with_ret
returned ctx = elim (get_elem? ctx.fn.blocks ctx.cur_block) [
  | none ↦ false
  | some b ↦ ends_with_ret b.instrs
]

unfoldable pub cg_tail : ℕ → S (Unit {0})
cg_tail fuel ctx =
    if returned ctx
    then some (tt, ctx)
    else (do cg_emit_defers (cg_stmt fuel); lift (emit_ret void)) ctx

unfoldable pub cg_body : ℕ → FuncDecl → S (Unit {0})
cg_body fuel d = do lift cg_entry; cg_params 0 d.params; cg_stmt fuel d.body; cg_tail fuel

unfoldable pub set_last : List IrFunc → IrFunc → List IrFunc
set_last [] fn = []
set_last (_ ∷ []) fn = fn ∷ []
set_last (f ∷ g ∷ fs) fn = f ∷ set_last (g ∷ fs) fn

-- The module holds a pointer to the function, which sees what is built.
unfoldable pub cg_func : ℕ → StrView → FuncDecl → IrModule → Option IrModule
cg_func fuel name d m =
    let (m', fn) =
      ir_func_new m name (map (λ p. p.name) d.params) (map (λ p. cg_typekind p.type) d.params)
        d.ret_type d.variadic in
    elim (cg_body fuel d (fresh_ctx fn)) [
      | none ↦ none
      | some (_, ctx) ↦ some record m' { funcs = set_last m'.funcs ctx.fn }
    ]

unfoldable pub has_body : Stmt → Bool
has_body Stmt.null = false
has_body _ = true

unfoldable pub cg_decl : ℕ → Decl → IrModule → Option IrModule
cg_decl fuel d m = elim d.node [
  | func f ↦ if not d.is_extern && has_body f.body then cg_func fuel d.name f m else some m
  | _ ↦ some m
]

unfoldable pub cg_decls : ℕ → List Decl → IrModule → Option IrModule
cg_decls fuel [] m = some m
cg_decls fuel (d ∷ ds) m = elim (cg_decl fuel d m) [ none ↦ none | some m' ↦ cg_decls fuel ds m' ]

unfoldable pub codegen_module : ℕ → AstModule → Option IrModule
codegen_module fuel ast = cg_decls fuel ast.decls ir_module_new
