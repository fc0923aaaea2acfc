-- ===== src/Ir/Build.antt =====
-- src/ir/ir.c: the builder. A block is named by its place in the function's list of blocks, which
-- is what a pointer to it stands for. The counters of registers and labels are `u32` in the source;
-- a function with 2 ^ 32 instructions would not fit in memory, so they do not wrap here.
use o.Prelude.{
  ℕ, zero, suc, ◌+◌, ◌*◌, Bool, true, false, not, ◌&&◌, List, [], ◌∷◌, ◌++◌, ◌==◌, if◌then◌else◌,
  length,
}
use o.Prelude.Int.{pos}
use o.Frontend.Types.{StrView, TypeKind, ty_void, ty_u32, ty_pointer, TypeNode, same_kind}
use o.Ir.Values.{
  IrVal, void, temp, const_i, label, IrOp, iop_store, iop_jmp, iop_jz, iop_jnz, iop_call, iop_ret,
  iop_ret_void, iop_label, iop_nop, iop_memcpy, iop_memset, iop_alloca, iop_load, IrInstr, IrBlock,
  IrFunc, IrModule,
}

unfoldable pub ir_module_new : IrModule
ir_module_new = record { funcs = []; func_cap = 16 }

-- `if (count == cap) cap *= 2`
abbrev grow : ℕ → ℕ → ℕ
grow count cap = if count == cap then cap * 2 else cap

-- The function is appended to the module.
unfoldable pub ir_func_new :
    IrModule → StrView → List StrView → List TypeKind → TypeNode → Bool → IrModule × IrFunc
ir_func_new m name param_names param_types ret_type variadic =
    let fn : IrFunc = record {
      name = name;
      ret_type = ret_type;
      param_names = param_names;
      param_types = param_types;
      variadic = variadic;
      blocks = [];
      block_cap = 16;
      next_vreg = length param_names;
      next_label = 0;
    } in
    (record { funcs = m.funcs ++ fn ∷ []; func_cap = grow (length m.funcs) m.func_cap }, fn)

-- The new block is the last of the function, and its place is its id.
unfoldable pub ir_block_new : IrFunc → StrView → IrFunc × ℕ
ir_block_new fn name =
    let id = length fn.blocks in
    let b : IrBlock = record { id = id; name = name; instrs = []; instr_cap = 32 } in
    (record fn { blocks = fn.blocks ++ b ∷ []; block_cap = grow id fn.block_cap }, id)

-- `block_alloc_instr`, with the instruction that its caller then fills in.
unfoldable pub append_instr : IrInstr → IrBlock → IrBlock
append_instr ins b = record b {
  instrs = b.instrs ++ ins ∷ [];
  instr_cap = grow (length b.instrs) b.instr_cap;
}

unfoldable pub update_at : ℕ → (IrBlock → IrBlock) → List IrBlock → List IrBlock
update_at i f [] = []
update_at zero f (b ∷ bs) = f b ∷ bs
update_at (suc i) f (b ∷ bs) = b ∷ update_at i f bs

unfoldable pub block_alloc_instr : IrFunc → ℕ → IrInstr → IrFunc
block_alloc_instr fn b ins = record fn { blocks = update_at b (append_instr ins) fn.blocks }

unfoldable pub ir_new_vreg : IrFunc → ℕ × IrFunc
ir_new_vreg fn = (fn.next_vreg, record fn { next_vreg = fn.next_vreg + 1 })

unfoldable pub ir_new_label : IrFunc → ℕ × IrFunc
ir_new_label fn = (fn.next_label, record fn { next_label = fn.next_label + 1 })

abbrev pub instr : IrOp → IrVal → IrVal → IrVal → List IrVal → TypeKind → IrInstr
instr op dst src1 src2 args ty = record {
  op = op;
  dst = dst;
  src1 = src1;
  src2 = src2;
  args = args;
  result_type = ty;
}

-- The operations that `ir_emit` gives no result.
abbrev no_result : IrOp → Bool
no_result iop_store = true
no_result iop_jmp = true
no_result iop_jz = true
no_result iop_jnz = true
no_result iop_ret = true
no_result iop_ret_void = true
no_result iop_label = true
no_result iop_nop = true
no_result iop_memcpy = true
no_result iop_memset = true
no_result _ = false

-- The value and the function after it. A result goes to a new register.
unfoldable pub with_result : Bool → IrFunc → ℕ → TypeKind → (IrVal → IrInstr) → IrVal × IrFunc
with_result true fn b ty make =
    let (vr, fn') = ir_new_vreg fn in (temp vr ty, block_alloc_instr fn' b (make (temp vr ty)))
with_result false fn b ty make = (void, block_alloc_instr fn b (make void))

unfoldable pub ir_emit : IrFunc → ℕ → IrOp → IrVal → IrVal → TypeKind → IrVal × IrFunc
unfolding with_result
ir_emit fn b op src1 src2 result_type =
    with_result (not (same_kind result_type ty_void) && not (no_result op)) fn b result_type
      (λ dst. instr op dst src1 src2 [] result_type)

unfoldable pub ir_emit_call : IrFunc → ℕ → IrVal → List IrVal → TypeKind → IrVal × IrFunc
unfolding with_result
ir_emit_call fn b func_val args ret_type =
    with_result (not (same_kind ret_type ty_void)) fn b ret_type
      (λ dst. instr iop_call dst func_val void args ret_type)

-- The allocated type is not used.
unfoldable pub ir_emit_alloca : IrFunc → ℕ → TypeKind → ℕ → IrVal × IrFunc
unfolding with_result
ir_emit_alloca fn b ty size =
    with_result true fn b ty_pointer
      (λ dst. instr iop_alloca dst (const_i (pos size) ty_u32) void [] ty_pointer)

unfoldable pub ir_emit_store : IrFunc → ℕ → IrVal → IrVal → IrVal → IrFunc
ir_emit_store fn b ptr offset value =
    block_alloc_instr fn b (instr iop_store ptr offset value [] ty_void)

unfoldable pub ir_emit_load : IrFunc → ℕ → IrVal → IrVal → TypeKind → IrVal × IrFunc
unfolding with_result
ir_emit_load fn b ptr offset ty =
    with_result true fn b ty (λ dst. instr iop_load dst ptr offset [] ty)

unfoldable pub ir_emit_jmp : IrFunc → ℕ → ℕ → IrFunc
ir_emit_jmp fn b label_id =
    block_alloc_instr fn b (instr iop_jmp void (label label_id) void [] ty_void)

unfoldable pub ir_emit_branch : IrFunc → ℕ → IrVal → ℕ → ℕ → IrFunc
ir_emit_branch fn b condition true_label false_label =
    ir_emit_jmp
      (block_alloc_instr fn b (instr iop_jnz void condition (label true_label) [] ty_void)) b
      false_label

ret_op : IrVal → IrOp
ret_op void = iop_ret_void
ret_op _ = iop_ret

unfoldable pub ir_emit_ret : IrFunc → ℕ → IrVal → IrFunc
unfolding ret_op
ir_emit_ret fn b val = block_alloc_instr fn b (instr (ret_op val) void val void [] ty_void)
