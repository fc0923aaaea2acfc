-- ===== src/Jit/StoreAddress.antt =====
-- src/jit/jit.c, jit_liveness_analysis: the address of a store is taken for a definition, not for a use.
use o.Prelude.{
  ℕ, zero, suc, ◌+◌, ◌<◌, ◌≡◌, refl, sym, inl, inr, true, ◌||◌, List, [], ◌∷◌, ltb, Bool,
  Bool-cases, get_elem?, some, ==_iff, replicate, get_or, arith,
}
use o.Ir.Values.{IrVal, void, temp, IrInstr, IrFunc}
use o.Frontend.Types.{TypeKind}
use o.Jit.{VRegInfo, info_of, jit_max_vregs, fresh_vreg}
use o.Jit.Liveness.{
  put, used_at, mark_vreg_use, mark_args, defined_at, mark_def, mark_instr, mark_instrs, instrs_of,
  jit_liveness_analysis, jit_vregs,
}
use o.Jit.LiveRanges.{put-cases}
use o.Jit.Covers.{is_temp, among, has_operand, stores_to, reads}

or_left : (b c : Bool) → b ≡ true → b || c ≡ true
or_left b c e = ground arith

or_right : (b c : Bool) → c ≡ true → b || c ≡ true
or_right b c e = ground arith

-- The last use of `a` is in front of `n`.
module _ (a n : ℕ) where
  abbrev EndsEarly : List VRegInfo → Type 0
  EndsEarly R = (info_of R a).last_use < n

  put-EndsEarly :
      (R : List VRegInfo) (v : ℕ) (i : VRegInfo)
      → (a ≡ v → i.last_use < n)
      → EndsEarly R
      → EndsEarly (put R v i)
  put-EndsEarly R v i h x = elim (put-cases R v a i) [ inl e ↦ rw e x | inr (e, y) ↦ rw y (h e) ]

  use-EndsEarly :
      (R : List VRegInfo) (v : IrVal) (seq : ℕ)
      → (is_temp a v ≡ true → seq < n)
      → EndsEarly R
      → EndsEarly (mark_vreg_use R v seq)
  unfolding mark_vreg_use used_at
  use-EndsEarly R (temp v ty) seq h x = elim (Bool-cases (ltb v jit_max_vregs)) [
    | inl e ↦ rw e (
        put-EndsEarly R v (used_at seq (info_of R v))
          (λ same. later (h ((==_iff v a).1 (sym same))) (rw same at x)) x)
    | inr e ↦ rw e x
  ]
    where
      later : seq < n → (info_of R v).last_use < n → (used_at seq (info_of R v)).last_use < n
      later p q = ground arith
  use-EndsEarly R void seq h x = x
  use-EndsEarly R _ seq h x = x

  args-EndsEarly :
      (R : List VRegInfo) (vs : List IrVal) (seq : ℕ)
      → (among a vs ≡ true → seq < n)
      → EndsEarly R
      → EndsEarly (mark_args R vs seq)
  unfolding mark_args
  args-EndsEarly R [] seq h x = x
  args-EndsEarly R (v ∷ vs) seq h x =
      args-EndsEarly (mark_vreg_use R v seq) vs seq (λ t. h (or_right (is_temp a v) _ t))
        (use-EndsEarly R v seq (λ t. h (or_left (is_temp a v) _ t)) x)

  def-EndsEarly :
      (R : List VRegInfo) (v : IrVal) (ty : TypeKind) (seq : ℕ)
      → EndsEarly R
      → EndsEarly (mark_def R v ty seq)
  unfolding mark_def defined_at
  def-EndsEarly R (temp v t) ty seq x = elim (Bool-cases (ltb v jit_max_vregs)) [
    | inl e ↦ rw e (put-EndsEarly R v _ (λ same. rw same at x) x)
    | inr e ↦ rw e x
  ]
  def-EndsEarly R void ty seq x = x
  def-EndsEarly R _ ty seq x = x

  instr-EndsEarly :
      (R : List VRegInfo) (ins : IrInstr) (seq : ℕ)
      → (has_operand a ins ≡ true → seq < n)
      → EndsEarly R
      → EndsEarly (mark_instr R ins seq)
  unfolding mark_instr
  instr-EndsEarly R ins seq h x = def-EndsEarly _ ins.dst ins.result_type seq (
      args-EndsEarly _ ins.args seq (λ t. h (any3 t))
        (use-EndsEarly _ ins.src2 seq (λ t. h (any2 t))
          (use-EndsEarly R ins.src1 seq (λ t. h (any1 t)) x)))
    where
      any1 : is_temp a ins.src1 ≡ true → has_operand a ins ≡ true
      any1 t = ground arith

      any2 : is_temp a ins.src2 ≡ true → has_operand a ins ≡ true
      any2 t = ground arith

      any3 : among a ins.args ≡ true → has_operand a ins ≡ true
      any3 t = ground arith

  instrs-EndsEarly :
      (R : List VRegInfo) (is : List IrInstr) (start : ℕ)
      → ((k : ℕ) (ins : IrInstr)
          → get_elem? is k ≡ some ins
          → has_operand a ins ≡ true
          → start + k < n)
      → EndsEarly R
      → EndsEarly (mark_instrs R is start)
  unfolding mark_instrs
  instrs-EndsEarly R [] start h x = x
  instrs-EndsEarly R (i ∷ is) start h x =
      instrs-EndsEarly (mark_instr R i start) is (start + 1)
        (λ k ins e t. omega (arith, h (suc k) ins e t))
        (instr-EndsEarly R i start (λ t. omega (arith, h 0 i refl t)) x)

last-fresh : (k a : ℕ) → (get_or (replicate k fresh_vreg) a fresh_vreg).last_use ≡ 0
last-fresh zero a = refl
last-fresh (suc k) zero = refl
last-fresh (suc k) (suc a) = last-fresh k a

-- If the instruction at position `seq`, which is not the first one, stores to the address in `a`, and
-- every instruction with `a` as a source or an argument stands in front of it, then the store reads
-- `a`, and the analysis of a new table of registers ends the range of `a` in front of the store.
pub jit_liveness_analysis-store_missed :
    (fn : IrFunc) (a seq : ℕ) (ins : IrInstr)
    → 0 < seq
    → get_elem? (instrs_of fn.blocks) seq ≡ some ins
    → stores_to a ins ≡ true
    → ((k : ℕ) (other : IrInstr)
        → get_elem? (instrs_of fn.blocks) k ≡ some other
        → has_operand a other ≡ true
        → k < seq)
    → (reads a ins ≡ true) × ((info_of (jit_liveness_analysis jit_vregs fn) a).last_use < seq)
unfolding jit_liveness_analysis jit_vregs
jit_liveness_analysis-store_missed fn a seq ins h at_seq stores operands = (
  or_right (has_operand a ins) _ stores,
  instrs-EndsEarly a seq jit_vregs (instrs_of fn.blocks) 0
      (λ k o e t. omega (arith, operands k o e t)) (omega (arith, h, last-fresh jit_max_vregs a)),
)
