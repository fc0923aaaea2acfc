-- ===== src/Jit/Allocation.antt =====
-- src/jit/jit.c: the liveness analysis and the register allocator together.
use o.Prelude.{ℕ, zero, suc, ◌≡◌, refl, false, replicate, get_or}
use o.Jit.{info_of, in_register, jit_max_vregs, fresh_vreg}
use o.Jit.Liveness.{jit_vregs}
use o.Jit.Allocated.{Allocated}

get_or-fresh : (k a : ℕ) → in_register (get_or (replicate k fresh_vreg) a fresh_vreg).state ≡ false
get_or-fresh zero a = refl
get_or-fresh (suc k) zero = refl
get_or-fresh (suc k) (suc a) = get_or-fresh k a

pub jit_vregs-unheld : (a : ℕ) → in_register (info_of jit_vregs a).state ≡ false
unfolding jit_vregs
jit_vregs-unheld a = get_or-fresh jit_max_vregs a
