-- ===== src/Jit/Liveness.antt =====
-- src/jit/jit.c, "Liveness": the first and the last use of each virtual register, in the order of the
-- instructions.
use o.Prelude.{ℕ, ◌+◌, List, [], ◌∷◌, ◌++◌, set, replicate, ltb, ◌==◌, if◌then◌else◌}
use o.Frontend.Types.{TypeKind, ty_is_float}
use o.Ir.Values.{IrVal, temp, IrInstr, IrBlock, IrFunc}
use o.Jit.{VRegInfo, vreg_unallocated, jit_max_vregs, info_of, fresh_vreg}

-- `vregs[vr] = info`
abbrev pub put : List VRegInfo → ℕ → VRegInfo → List VRegInfo
put vregs vr info = set vregs vr info

-- The body of `mark_vreg_use`, for the record of one register.
unfoldable pub used_at : ℕ → VRegInfo → VRegInfo
used_at seq info = record info {
  last_use = if ltb info.last_use seq then seq else info.last_use;
  first_use = if info.first_use == 0 then seq else info.first_use;
}

unfoldable pub mark_vreg_use : List VRegInfo → IrVal → ℕ → List VRegInfo
mark_vreg_use vregs (temp v _) seq =
    if ltb v jit_max_vregs then put vregs v (used_at seq (info_of vregs v)) else vregs
mark_vreg_use vregs _ seq = vregs

unfoldable pub mark_args : List VRegInfo → List IrVal → ℕ → List VRegInfo
mark_args vregs [] seq = vregs
mark_args vregs (v ∷ vs) seq = mark_args (mark_vreg_use vregs v seq) vs seq

unfoldable pub defined_at : ℕ → TypeKind → VRegInfo → VRegInfo
defined_at seq ty info = record info {
  first_use = seq;
  state = vreg_unallocated;
  is_float = ty_is_float ty;
}

unfoldable pub mark_def : List VRegInfo → IrVal → TypeKind → ℕ → List VRegInfo
mark_def vregs (temp v _) ty seq =
    if ltb v jit_max_vregs then put vregs v (defined_at seq ty (info_of vregs v)) else vregs
mark_def vregs _ ty seq = vregs

-- The two sources, the arguments, then the definition.
unfoldable pub mark_instr : List VRegInfo → IrInstr → ℕ → List VRegInfo
mark_instr vregs ins seq =
    mark_def
      (mark_args (mark_vreg_use (mark_vreg_use vregs ins.src1 seq) ins.src2 seq) ins.args seq)
      ins.dst ins.result_type seq

unfoldable pub mark_instrs : List VRegInfo → List IrInstr → ℕ → List VRegInfo
mark_instrs vregs [] seq = vregs
mark_instrs vregs (ins ∷ rest) seq = mark_instrs (mark_instr vregs ins seq) rest (seq + 1)

-- The instructions of a function, block after block.
unfoldable pub instrs_of : List IrBlock → List IrInstr
instrs_of [] = []
instrs_of (b ∷ bs) = b.instrs ++ instrs_of bs

-- The two loops count the instructions through all blocks.
unfoldable pub jit_liveness_analysis : List VRegInfo → IrFunc → List VRegInfo
jit_liveness_analysis vregs fn = mark_instrs vregs (instrs_of fn.blocks) 0

-- The table of a new context: zeroed memory.
unfoldable pub jit_vregs : List VRegInfo
jit_vregs = replicate jit_max_vregs fresh_vreg
