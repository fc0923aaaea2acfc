-- ===== src/Ir/Steps.antt =====
-- src/ir/ir.c as a step relation on functions: what a client of the builder can do to a function,
-- and the invariants that every step keeps.
use o.Prelude.{
  ℕ, zero, suc, ◌+◌, ◌≤◌, ◌<◌, ◌≡◌, ◌⊎◌, refl, List, [], ◌∷◌, ◌++◌, length, ◌==◌, if◌then◌else◌,
  arith,
}
use o.Frontend.Types.{StrView, TypeKind}
use o.Ir.Values.{IrOp, iop_store, IrVal, void, temp, IrInstr, IrBlock, IrFunc}
use o.Ir.Build.{ir_block_new, append_instr, update_at, block_alloc_instr, ir_new_vreg, ir_new_label}

-- The value that an instruction defines: a store has its address where others have their result.
abbrev pub result_of : IrOp → IrVal → IrVal
result_of iop_store dst = void
result_of _ dst = dst

abbrev pub result : IrInstr → IrVal
result ins = result_of ins.op ins.dst

-- One call of the builder that changes a function.
pub data BuildStep : IrFunc → IrFunc → Type 0 where
  new_block : (fn : IrFunc) (name : StrView) → BuildStep fn (ir_block_new fn name).0
  new_label : (fn : IrFunc) → BuildStep fn (ir_new_label fn).1
  new_instr :
      (fn : IrFunc) (b : ℕ) (ins : IrInstr)
      → result ins ≡ void
      → BuildStep fn (block_alloc_instr fn b ins)
  new_result :
      (fn : IrFunc) (b : ℕ) (ty : TypeKind) (ins : IrInstr)
      → result ins ≡ temp fn.next_vreg ty
      → BuildStep fn (block_alloc_instr (ir_new_vreg fn).1 b ins)

pub data Built : IrFunc → IrFunc → Type 0 where
  start : (fn : IrFunc) → Built fn fn
  next : {f g h : IrFunc} → Built f g → BuildStep g h → Built f h

pub Built-trans : {f g h : IrFunc} → Built f g → Built g h → Built f h
Built-trans p (start _) = p
Built-trans p (next q s) = next (Built-trans p q) s

pub step : {f g : IrFunc} → BuildStep f g → Built f g
step s = next (start _) s

-- Whether this is register `n`.
unfoldable pub defines : ℕ → IrVal → ℕ
defines n (temp m _) = if n == m then 1 else 0
defines n _ = 0

unfoldable pub definitions_in : ℕ → List IrInstr → ℕ
definitions_in n [] = 0
definitions_in n (i ∷ is) = defines n (result i) + definitions_in n is

unfoldable pub definitions : ℕ → List IrBlock → ℕ
definitions n [] = 0
definitions n (b ∷ bs) = definitions_in n b.instrs + definitions n bs

-- Static single assignment: a register has at most one definition, and a register that has one was
-- handed out and is no parameter's.
unfoldable pub IsSsa : IrFunc → Type 0
IsSsa fn =
    (length fn.param_names ≤ fn.next_vreg)
    × ((n : ℕ)
        → (definitions n fn.blocks ≤ 1)
          × ((definitions n fn.blocks ≡ 0) ⊎ ((length fn.param_names ≤ n) × (n < fn.next_vreg))))

definitions_in-append :
    (n : ℕ) (is : List IrInstr) (i : IrInstr)
    → definitions_in n (is ++ i ∷ []) ≡ definitions_in n is + defines n (result i)
unfolding definitions_in
definitions_in-append n [] i = omega arith
definitions_in-append n (j ∷ is) i = omega (arith, definitions_in-append n is i)

definitions-append :
    (n : ℕ) (bs : List IrBlock) (b : IrBlock)
    → definitions n (bs ++ b ∷ []) ≡ definitions n bs + definitions_in n b.instrs
unfolding definitions
definitions-append n [] b = omega arith
definitions-append n (c ∷ bs) b = omega (arith, definitions-append n bs b)

-- A new instruction adds its definition, or nothing where there is no such block.
definitions-update_at :
    (n b : ℕ) (bs : List IrBlock) (i : IrInstr)
    → (definitions n bs ≤ definitions n (update_at b (append_instr i) bs))
      × (definitions n (update_at b (append_instr i) bs) ≤ definitions n bs + defines n (result i))
unfolding definitions update_at append_instr
definitions-update_at n b [] i = omega arith
definitions-update_at n zero (c ∷ bs) i = omega (arith, definitions_in-append n c.instrs i)
definitions-update_at n (suc b) (c ∷ bs) i = omega (arith, definitions-update_at n b bs i)

defines-void : (n : ℕ) (v : IrVal) → v ≡ void → defines n v ≡ 0
unfolding defines
defines-void n v e = rw e

defines-temp :
    (n m : ℕ) (v : IrVal) (ty : TypeKind)
    → v ≡ temp m ty
    → ((n ≡ m) × (defines n v ≡ 1)) ⊎ (defines n v ≡ 0)
unfolding defines
defines-temp n m v ty e = rw e (ground arith)

abbrev new_block_of : IrFunc → StrView → IrBlock
new_block_of fn name = record { id = length fn.blocks; name = name; instrs = []; instr_cap = 32 }

empty_block :
    (n : ℕ) (fn : IrFunc) (name : StrView) → definitions_in n (new_block_of fn name).instrs ≡ 0
unfolding definitions_in
empty_block n fn name = refl

-- The claims on one register, with its number of definitions and the counters made plain.
abbrev Once : ℕ → ℕ → ℕ → ℕ → Type 0
Once params fresh n count = (count ≤ 1) × ((count ≡ 0) ⊎ ((params ≤ n) × (n < fresh)))

-- A definition of the fresh register, which is handed out with it.
Once-fresh :
    (params fresh n count count' d : ℕ)
    → params ≤ fresh
    → count' ≤ count + d
    → ((n ≡ fresh) × (d ≡ 1)) ⊎ (d ≡ 0)
    → Once params fresh n count
    → Once params (fresh + 1) n count'
Once-fresh params fresh n count count' d p le e h = ground arith

Once-kept :
    (params fresh n count count' d : ℕ)
    → count' ≤ count + d
    → d ≡ 0
    → Once params fresh n count
    → Once params fresh n count'
Once-kept params fresh n count count' d le e h = ground arith

-- Every call of the builder keeps a function in static single assignment form.
pub BuildStep-IsSsa : {f g : IrFunc} → BuildStep f g → IsSsa f → IsSsa g
unfolding IsSsa ir_block_new ir_new_label ir_new_vreg block_alloc_instr
BuildStep-IsSsa (new_block fn name) h = (
  h.0,
  λ n.
      Once-kept (length fn.param_names) fn.next_vreg n (definitions n fn.blocks) _ 0
        (omega
          (arith, definitions-append n fn.blocks (new_block_of fn name), empty_block n fn name))
        refl (h.1 n),
)
BuildStep-IsSsa (new_label fn) h = h
BuildStep-IsSsa (new_instr fn b ins e) h = (
  h.0,
  λ n.
      Once-kept (length fn.param_names) fn.next_vreg n (definitions n fn.blocks) _
        (defines n (result ins)) (definitions-update_at n b fn.blocks ins).1
        (defines-void n (result ins) e) (h.1 n),
)
BuildStep-IsSsa (new_result fn b ty ins e) h = (
  omega (arith, h.0),
  λ n.
      Once-fresh (length fn.param_names) fn.next_vreg n (definitions n fn.blocks) _
        (defines n (result ins)) h.0 (definitions-update_at n b fn.blocks ins).1
        (defines-temp n fn.next_vreg (result ins) ty e) (h.1 n),
)
