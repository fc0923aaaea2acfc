-- ===== src/Jit/Disjoint.antt =====
-- src/jit/jit.c, jit_linear_scan_alloc: virtual registers that share a register are live at different
-- times.
use o.Prelude.{
  ℕ, zero, suc, ◌≤◌, ◌<◌, ◌≡◌, ◌≢◌, refl, sym, ◌∙◌, ap, ◌⊎◌, inl, inr, Bool, true, false, ◌&&◌,
  List, length, length-set, get_or, get_or-set_ne, set, ◌==◌, Bool-cases, arith,
}
use mathlib.Core.Path.{subst}
use o.Jit.{VRegInfo, info_of, in_register, vreg_spilled, below, jit_alloc_stack_slot}
use o.Jit.Liveness.{put}
use o.Jit.LinearScan.{
  Scan, any_reg, lowest_reg, hold, hold_int, hold_xmm, spill, assign, expire_old, never_defined,
  scan_vreg, scan_vregs, scan_init, int_registers, xmm_registers, add_regs, jit_linear_scan_alloc,
  RegSet,
}
use o.Jit.Registers.{bit, bit-le, count, lowest_reg-has, get_or-drop, ones, ones-drop}
use o.Jit.Expire.{set_of, holds, free, same, occurs, expire_old-Expired}
use o.Jit.Allocated.{
  count-eq, Holding, Closed, SameRegister, Allocated, info-put_self, info-put_ne, field-put,
  Closed-put,
}
use o.Jit.Held.{Held, hold-Allocated, expire-Allocated, same_or_other}

false_ne : true ≢ false
false_ne e = ground arith

drop_other :
    (rs : RegSet) (r q : ℕ) → (r == q) ≡ false → get_or (set rs r false) q false ≡ get_or rs q false
drop_other rs r q h = get_or-set_ne rs r q false false (λ e. ground arith)

hold_int-Held :
    (n : ℕ) (s : Scan)
    → (info_of s.vregs n).is_float ≡ false
    → any_reg s.int_free ≡ true
    → Held n (lowest_reg s.int_free) s (hold_int n s)
unfolding hold_int hold
hold_int-Held n s e some_free = record {
  vregs_put = refl;
  active_pushed = refl;
  was_free = rw e (ap bit (lowest_reg-has s.int_free some_free));
  taken = rw e (ap bit (get_or-drop s.int_free (lowest_reg s.int_free)));
  others = λ c q. rw e (kept c q);
  one_less =
      omega
        (arith, ones-drop s.int_free (lowest_reg s.int_free) (lowest_reg-has s.int_free some_free));
}
  where
    kept :
        (c : Bool) (q : ℕ)
        → (same false c && lowest_reg s.int_free == q) ≡ false
        → free (hold_int n s) c q ≡ free s c q
    kept true q h = refl
    kept false q h = ap bit (drop_other s.int_free (lowest_reg s.int_free) q h)

hold_xmm-Held :
    (n : ℕ) (s : Scan)
    → (info_of s.vregs n).is_float ≡ true
    → any_reg s.xmm_free ≡ true
    → Held n (lowest_reg s.xmm_free) s (hold_xmm n s)
unfolding hold_xmm hold
hold_xmm-Held n s e some_free = record {
  vregs_put = refl;
  active_pushed = refl;
  was_free = rw e (ap bit (lowest_reg-has s.xmm_free some_free));
  taken = rw e (ap bit (get_or-drop s.xmm_free (lowest_reg s.xmm_free)));
  others = λ c q. rw e (kept c q);
  one_less =
      omega
        (arith, ones-drop s.xmm_free (lowest_reg s.xmm_free) (lowest_reg-has s.xmm_free some_free));
}
  where
    kept :
        (c : Bool) (q : ℕ)
        → (same true c && lowest_reg s.xmm_free == q) ≡ false
        → free (hold_xmm n s) c q ≡ free s c q
    kept false q h = refl
    kept true q h = ap bit (drop_other s.xmm_free (lowest_reg s.xmm_free) q h)

module _ {n : ℕ} {s : Scan} (v : Allocated (suc n) n s) (room : n < length s.vregs) where
  spilled : VRegInfo
  spilled = record (info_of s.vregs n) {
    state = vreg_spilled;
    stack_off = below (jit_alloc_stack_slot s.depth 8);
  }

  spilled_vregs : List VRegInfo
  unfolding spilled
  spilled_vregs = put s.vregs n spilled

  not_spilled : (a : ℕ) → Holding spilled_vregs a → a ≢ n
  unfolding spilled_vregs spilled
  not_spilled a h e =
      let held : Holding spilled_vregs n = subst (λ w. Holding spilled_vregs w) e h in
      let here =
        ap (λ (i : VRegInfo). in_register i.state) (info-put_self s.vregs n spilled room) in
      false_ne (sym held ∙ here)

  held_before : (a : ℕ) → Holding spilled_vregs a → Holding s.vregs a
  unfolding spilled_vregs
  held_before a h = rw (info-put_ne s.vregs n spilled room a (not_spilled a h)) at h

  is_float-spill : (a : ℕ) → (info_of spilled_vregs a).is_float ≡ (info_of s.vregs a).is_float
  unfolding spilled_vregs spilled
  is_float-spill a = field-put s.vregs n spilled room (λ (i : VRegInfo). i.is_float) a refl

  reg-spill : (a : ℕ) → (info_of spilled_vregs a).reg ≡ (info_of s.vregs a).reg
  unfolding spilled_vregs spilled
  reg-spill a = field-put s.vregs n spilled room (λ (i : VRegInfo). i.reg) a refl

  Closed-spill : (m a : ℕ) → Closed s.vregs m a → Closed spilled_vregs m a
  unfolding spilled_vregs spilled
  Closed-spill m a x = Closed-put s.vregs n spilled room m a refl refl x

  still :
      (a : ℕ)
      → (0 < occurs a s.active) ⊎ Closed s.vregs (suc n) a
      → (0 < occurs a s.active) ⊎ Closed spilled_vregs (suc n) a
  still a (inl o) = inl o
  still a (inr x) = inr (Closed-spill (suc n) a x)

  spill-Allocated : Allocated (suc n) (suc n) (spill n s)
  unfolding spill spilled_vregs spilled
  spill-Allocated = record {
    young = λ a o. omega (arith, v.young a o);
    single = λ c r. omega (
      arith,
      v.single c r,
      count-eq (holds spilled_vregs c r) (holds s.vregs c r) s.active
          (λ a o. rw (is_float-spill a, reg-spill a) refl),
    );
    few = v.few;
    kept = λ a h. still a (v.kept a (held_before a h));
    apart = λ a b ab ha hb q. Closed-spill (suc b) a (
        v.apart a b ab (held_before a ha) (held_before b hb)
          (rw (is_float-spill a, is_float-spill b, reg-spill a, reg-spill b) at q));
    fresh = λ a h. omega (arith, v.fresh a (held_before a h));
  }

  assign-Allocated : Allocated (suc n) (suc n) (assign n s)
  unfolding assign
  assign-Allocated = elim (Bool-cases (info_of s.vregs n).is_float) [
    | inl f ↦ elim (Bool-cases (any_reg s.xmm_free)) [
      | inl e ↦ rw (f, e) (hold-Allocated v (hold_xmm-Held n s f e) room)
      | inr e ↦ rw (f, e) spill-Allocated
    ]
    | inr f ↦ elim (Bool-cases (any_reg s.int_free)) [
      | inl e ↦ rw (f, e) (hold-Allocated v (hold_int-Held n s f e) room)
      | inr e ↦ rw (f, e) spill-Allocated
    ]
  ]

-- A virtual register is passed over.
skip-Allocated : {n : ℕ} {s : Scan} → Allocated n n s → Allocated (suc n) (suc n) s
skip-Allocated {n} {s} v = record {
  young = λ a o. omega (arith, v.young a o);
  single = v.single;
  few = v.few;
  kept = λ a h. later a (v.kept a h);
  apart = v.apart;
  fresh = λ a h. omega (arith, v.fresh a h);
}
  where
    later :
        (a : ℕ)
        → (0 < occurs a s.active) ⊎ Closed s.vregs n a
        → (0 < occurs a s.active) ⊎ Closed s.vregs (suc n) a
    later a (inl o) = inl o
    later a (inr (c, ac, cn, old)) = inr (c, ac, omega arith, old)

scan_vreg-Allocated :
    {n : ℕ} {s : Scan}
    → Allocated n n s
    → n < length s.vregs
    → Allocated (suc n) (suc n) (scan_vreg n s)
unfolding scan_vreg
scan_vreg-Allocated {n} {s} v room = elim (Bool-cases (never_defined (info_of s.vregs n))) [
  | inl e ↦ rw e (skip-Allocated v)
  | inr e ↦
      let x = expire_old-Expired (info_of s.vregs n).first_use s v.single in
      rw e (assign-Allocated (expire-Allocated v x) (rw x.vregs_kept room))
]

pub scan_init-Allocated :
    (vregs : List VRegInfo)
    → ((a : ℕ) → in_register (info_of vregs a).state ≡ false)
    → Allocated 0 0 (scan_init vregs)
unfolding scan_init count int_registers xmm_registers add_regs ones
scan_init-Allocated vregs none_held = record {
  young = λ a o. absurd (omega (arith, o));
  single = λ c r. omega (arith, bit-le (get_or (set_of (scan_init vregs) c) r false));
  few = omega arith;
  kept = λ a h. absurd (false_ne (sym h ∙ none_held a));
  apart = λ a b ab ha hb q. absurd (false_ne (sym ha ∙ none_held a));
  fresh = λ a h. absurd (false_ne (sym h ∙ none_held a));
}

length-assign : (n : ℕ) (s : Scan) → length (assign n s).vregs ≡ length s.vregs
unfolding assign hold hold_int hold_xmm spill
length-assign n s = elim (Bool-cases (info_of s.vregs n).is_float) [
  | inl f ↦ elim (Bool-cases (any_reg s.xmm_free)) [
    | inl e ↦ rw (f, e) (length-set s.vregs n _)
    | inr e ↦ rw (f, e) (length-set s.vregs n _)
  ]
  | inr f ↦ elim (Bool-cases (any_reg s.int_free)) [
    | inl e ↦ rw (f, e) (length-set s.vregs n _)
    | inr e ↦ rw (f, e) (length-set s.vregs n _)
  ]
]

length-scan_vreg :
    {n : ℕ} {s : Scan} → Allocated n n s → length (scan_vreg n s).vregs ≡ length s.vregs
unfolding scan_vreg
length-scan_vreg {n} {s} v = elim (Bool-cases (never_defined (info_of s.vregs n))) [
  | inl e ↦ rw e refl
  | inr e ↦
      let x = expire_old-Expired (info_of s.vregs n).first_use s v.single in
      rw e (length-assign n (expire_old (info_of s.vregs n).first_use s) ∙ ap length x.vregs_kept)
]

pub scan_vregs-Allocated :
    (n : ℕ) (s : Scan)
    → Allocated 0 0 s
    → n ≤ length s.vregs
    → Allocated n n (scan_vregs n s) × (length (scan_vregs n s).vregs ≡ length s.vregs)
unfolding scan_vregs
scan_vregs-Allocated zero s v room = (v, refl)
scan_vregs-Allocated (suc n) s v room =
    let (w, e) = scan_vregs-Allocated n s v (omega arith) in
    (scan_vreg-Allocated w (omega (arith, e)), length-scan_vreg w ∙ e)

below_other : (c b : ℕ) → c < suc b → c ≢ b → c < b
below_other c b h x = ground arith

module _ (n : ℕ) (vregs : List VRegInfo)
    (unheld : (v : ℕ) → in_register (info_of vregs v).state ≡ false) (room : n ≤ length vregs) where
  pub jit_linear_scan_alloc-Allocated : Allocated n n (jit_linear_scan_alloc n vregs)
  unfolding jit_linear_scan_alloc
  jit_linear_scan_alloc-Allocated =
      (scan_vregs-Allocated n (scan_init vregs) (scan_init-Allocated vregs unheld)
        (unfold scan_init in room)).0

  -- If the virtual registers below `vreg_count` lie in the table, which holds no register yet, and
  -- two of them get the same register of the same class, and none between them is first used later
  -- than the second one, then the first one is last used before the second one is first used.
  pub jit_linear_scan_alloc-disjoint :
      (a b : ℕ)
      → a < b
      → let out = (jit_linear_scan_alloc n vregs).vregs in
        Holding out a
        → Holding out b
        → SameRegister out a b
        → ((c : ℕ) → a < c → c < b → (info_of out c).first_use ≤ (info_of out b).first_use)
        → (info_of out a).last_use < (info_of out b).first_use
  jit_linear_scan_alloc-disjoint a b ab ha hb q ordered =
      let (c, ac, cb, h) = jit_linear_scan_alloc-Allocated.apart a b ab ha hb q in
      elim (same_or_other c b) [
        | inl e ↦
            omega
              (arith, h, ap (λ w. (info_of (jit_linear_scan_alloc n vregs).vregs w).first_use) e)
        | inr x ↦ omega (arith, h, ordered c ac (below_other c b cb x))
      ]
