-- ===== src/Jit/LiveRanges.antt =====
-- src/jit/jit.c, jit_liveness_analysis: what marking uses and definitions keeps.
use o.Prelude.{
  ℕ, zero, suc, ◌+◌, ◌<◌, ◌≡◌, refl, ◌∙◌, ap, ◌⊎◌, inl, inr, false, List, [], ◌∷◌, length,
  length-set, ltb, Bool-cases, arith,
}
use o.Ir.Values.{IrVal, void, temp, IrInstr, IrFunc}
use o.Frontend.Types.{TypeKind}
use o.Jit.{VRegInfo, info_of, jit_max_vregs, in_register}
use o.Jit.Liveness.{
  put, used_at, mark_vreg_use, mark_args, defined_at, mark_def, mark_instr, mark_instrs, instrs_of,
  jit_liveness_analysis,
}

-- A write to the table shows at its place, if the table has that place, and nowhere else.
pub put-cases :
    (R : List VRegInfo) (n a : ℕ) (i : VRegInfo)
    → (info_of (put R n i) a ≡ info_of R a) ⊎ ((a ≡ n) × (info_of (put R n i) a ≡ i))
put-cases [] n a i = inl refl
put-cases (x ∷ R) zero zero i = inr (refl, refl)
put-cases (x ∷ R) zero (suc a) i = inl refl
put-cases (x ∷ R) (suc n) zero i = inl refl
put-cases (x ∷ R) (suc n) (suc a) i = elim (put-cases R n a i) [
  | inl e ↦ inl e
  | inr (e, h) ↦ inr (ap suc e, h)
]

pub put-here : (R : List VRegInfo) (n : ℕ) (i : VRegInfo) → n < length R → info_of (put R n i) n ≡ i
put-here [] n i h = elim h [ ]
put-here (x ∷ R) zero i h = refl
put-here (x ∷ R) (suc n) i h = put-here R n i (omega arith)

-- What holds of the record of `a` and outlasts a use and a definition, outlasts the marking.
module _ (P : VRegInfo → Type 0) (use_keeps : (i : VRegInfo) (seq : ℕ) → P i → P (used_at seq i))
    (def_keeps : (i : VRegInfo) (seq : ℕ) (ty : TypeKind) → P i → P (defined_at seq ty i))
    (a : ℕ) where
  pub put-keeps :
      (R : List VRegInfo) (n : ℕ) (i : VRegInfo)
      → (P (info_of R n) → P i)
      → P (info_of R a)
      → P (info_of (put R n i) a)
  put-keeps R n i h x = elim (put-cases R n a i) [
    | inl e ↦ rw e x
    | inr (e, y) ↦ rw y (h (rw e at x))
  ]

  pub mark_vreg_use-keeps :
      (R : List VRegInfo) (v : IrVal) (seq : ℕ)
      → P (info_of R a)
      → P (info_of (mark_vreg_use R v seq) a)
  unfolding mark_vreg_use
  mark_vreg_use-keeps R (temp v ty) seq x = elim (Bool-cases (ltb v jit_max_vregs)) [
    | inl e ↦ rw e (put-keeps R v _ (use_keeps (info_of R v) seq) x)
    | inr e ↦ rw e x
  ]
  mark_vreg_use-keeps R void seq x = x
  mark_vreg_use-keeps R _ seq x = x

  pub mark_args-keeps :
      (R : List VRegInfo) (vs : List IrVal) (seq : ℕ)
      → P (info_of R a)
      → P (info_of (mark_args R vs seq) a)
  unfolding mark_args
  mark_args-keeps R [] seq x = x
  mark_args-keeps R (v ∷ vs) seq x =
      mark_args-keeps (mark_vreg_use R v seq) vs seq (mark_vreg_use-keeps R v seq x)

  pub mark_def-keeps :
      (R : List VRegInfo) (v : IrVal) (ty : TypeKind) (seq : ℕ)
      → P (info_of R a)
      → P (info_of (mark_def R v ty seq) a)
  unfolding mark_def
  mark_def-keeps R (temp v t) ty seq x = elim (Bool-cases (ltb v jit_max_vregs)) [
    | inl e ↦ rw e (put-keeps R v _ (def_keeps (info_of R v) seq ty) x)
    | inr e ↦ rw e x
  ]
  mark_def-keeps R void ty seq x = x
  mark_def-keeps R _ ty seq x = x

  pub mark_instr-keeps :
      (R : List VRegInfo) (ins : IrInstr) (seq : ℕ)
      → P (info_of R a)
      → P (info_of (mark_instr R ins seq) a)
  unfolding mark_instr
  mark_instr-keeps R ins seq x = mark_def-keeps _ ins.dst ins.result_type seq (
      mark_args-keeps _ ins.args seq
        (mark_vreg_use-keeps _ ins.src2 seq (mark_vreg_use-keeps R ins.src1 seq x)))

  pub mark_instrs-keeps :
      (R : List VRegInfo) (is : List IrInstr) (seq : ℕ)
      → P (info_of R a)
      → P (info_of (mark_instrs R is seq) a)
  unfolding mark_instrs
  mark_instrs-keeps R [] seq x = x
  mark_instrs-keeps R (i ∷ is) seq x =
      mark_instrs-keeps (mark_instr R i seq) is (seq + 1) (mark_instr-keeps R i seq x)

-- The analysis gives no register out.
pub jit_liveness_analysis-unheld :
    (R : List VRegInfo) (fn : IrFunc)
    → ((a : ℕ) → in_register (info_of R a).state ≡ false)
    → (a : ℕ) → in_register (info_of (jit_liveness_analysis R fn) a).state ≡ false
unfolding jit_liveness_analysis used_at defined_at
jit_liveness_analysis-unheld R fn h a =
    mark_instrs-keeps (λ i. in_register i.state ≡ false) (λ i seq x. x) (λ i seq ty x. refl) a R
      (instrs_of fn.blocks) 0 (h a)

pub length-mark_vreg_use :
    (R : List VRegInfo) (v : IrVal) (seq : ℕ) → length (mark_vreg_use R v seq) ≡ length R
unfolding mark_vreg_use
length-mark_vreg_use R (temp v ty) seq = elim (Bool-cases (ltb v jit_max_vregs)) [
  | inl e ↦ rw e (length-set R v _)
  | inr e ↦ rw e refl
]
length-mark_vreg_use R void seq = refl
length-mark_vreg_use R _ seq = refl

pub length-mark_args :
    (R : List VRegInfo) (vs : List IrVal) (seq : ℕ) → length (mark_args R vs seq) ≡ length R
unfolding mark_args
length-mark_args R [] seq = refl
length-mark_args R (v ∷ vs) seq =
    length-mark_args (mark_vreg_use R v seq) vs seq ∙ length-mark_vreg_use R v seq

pub length-mark_def :
    (R : List VRegInfo) (v : IrVal) (ty : TypeKind) (seq : ℕ)
    → length (mark_def R v ty seq) ≡ length R
unfolding mark_def
length-mark_def R (temp v t) ty seq = elim (Bool-cases (ltb v jit_max_vregs)) [
  | inl e ↦ rw e (length-set R v _)
  | inr e ↦ rw e refl
]
length-mark_def R void ty seq = refl
length-mark_def R _ ty seq = refl

pub length-mark_instr :
    (R : List VRegInfo) (ins : IrInstr) (seq : ℕ) → length (mark_instr R ins seq) ≡ length R
unfolding mark_instr
length-mark_instr R ins seq =
    length-mark_def _ ins.dst ins.result_type seq
    ∙ (length-mark_args _ ins.args seq
        ∙ (length-mark_vreg_use _ ins.src2 seq ∙ length-mark_vreg_use R ins.src1 seq))

pub length-mark_instrs :
    (R : List VRegInfo) (is : List IrInstr) (seq : ℕ) → length (mark_instrs R is seq) ≡ length R
unfolding mark_instrs
length-mark_instrs R [] seq = refl
length-mark_instrs R (i ∷ is) seq =
    length-mark_instrs (mark_instr R i seq) is (seq + 1) ∙ length-mark_instr R i seq

pub length-jit_liveness_analysis :
    (R : List VRegInfo) (fn : IrFunc) → length (jit_liveness_analysis R fn) ≡ length R
unfolding jit_liveness_analysis
length-jit_liveness_analysis R fn = length-mark_instrs R (instrs_of fn.blocks) 0
