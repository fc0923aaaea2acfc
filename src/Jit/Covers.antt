-- ===== src/Jit/Covers.antt =====
-- src/jit/jit.c, jit_liveness_analysis: the live ranges cover the uses.
use o.Prelude.{ℕ, ◌≤◌, Bool, true, false, ◌&&◌, ◌||◌, List, [], ◌∷◌, ◌==◌}
use o.Ir.Values.{IrVal, temp, IrOp, iop_store, IrInstr}
use o.Jit.{VRegInfo}

unfoldable IsLateAs : ℕ → VRegInfo → Type 0
IsLateAs k i = k ≤ i.last_use

-- The value is the virtual register `a`; an instruction that has it as a source or an argument.
abbrev pub is_temp : ℕ → IrVal → Bool
is_temp a (temp v _) = v == a
is_temp a _ = false

abbrev pub among : ℕ → List IrVal → Bool
among a [] = false
among a (v ∷ vs) = is_temp a v || among a vs

abbrev pub has_operand : ℕ → IrInstr → Bool
has_operand a ins = is_temp a ins.src1 || is_temp a ins.src2 || among a ins.args

abbrev is_store : IrOp → Bool
is_store iop_store = true
is_store _ = false

-- The address of a store is its destination.
abbrev pub stores_to : ℕ → IrInstr → Bool
stores_to a ins = is_store ins.op && is_temp a ins.dst

-- The code of the instruction reads `a`.
abbrev pub reads : ℕ → IrInstr → Bool
reads a ins = has_operand a ins || stores_to a ins
