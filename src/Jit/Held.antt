-- ===== src/Jit/Held.antt =====
-- src/jit/jit.c, jit_linear_scan_alloc: expiring old intervals and giving out a free register keep the
-- invariant of the scan.
use mathlib.Core.Path.{subst}
use o.Prelude.{
  ℕ, suc, ◌+◌, ◌<◌, ◌≡◌, ◌≢◌, refl, sym, ◌∙◌, ap, ◌⊎◌, inl, inr, Bool, true, false, ◌&&◌, [], ◌∷◌,
  ◌++◌, length, ◌==◌, Bool-cases, ==_iff, arith, length-append, lt→ltb,
}
use o.Jit.{VRegInfo, info_of, vreg_in_register}
use o.Jit.Liveness.{put}
use o.Jit.LinearScan.{Scan, push_active, active_max}
use o.Jit.Registers.{bit, count, count-append}
use o.Jit.Expire.{holds, free, available, Single, occurs, same, Expired}
use o.Jit.Allocated.{
  count-eq, count-occurs, Holding, Closed, SameRegister, Allocated, info-put_self, info-put_ne,
  Closed-put,
}

same_sound : (a b : Bool) → same a b ≡ true → a ≡ b
same_sound true true h = refl
same_sound true false h = cc
same_sound false true h = cc
same_sound false false h = refl

-- The loop over the active virtual registers.
pub expire-Allocated :
    {n : ℕ} {s s' : Scan}
    → Allocated n n s
    → Expired (info_of s.vregs n).first_use s.active s s'
    → Allocated (suc n) n s'
expire-Allocated {n} {s} {s'} v x = record {
  young = λ a o. v.young a (omega (arith, o, x.left a));
  single = x.single;
  few = omega (arith, x.few, v.few);
  kept = λ a h. rw x.vregs_kept (still a (v.kept a (rw x.vregs_kept at h)));
  apart = λ a b ab ha hb q.
      rw x.vregs_kept
        (v.apart a b ab (rw x.vregs_kept at ha) (rw x.vregs_kept at hb) (rw x.vregs_kept at q));
  fresh = λ w h. v.fresh w (rw x.vregs_kept at h);
}
  where
    still :
        (a : ℕ)
        → (0 < occurs a s.active) ⊎ Closed s.vregs n a
        → (0 < occurs a s'.active) ⊎ Closed s.vregs (suc n) a
    still a (inl o) = elim (x.gone a o) [
      | inl k ↦ inl k
      | inr old ↦ inr (n, v.young a o, omega arith, old)
    ]
    still a (inr (c, ac, cn, old)) = inr (c, ac, omega arith, old)

pub same_or_other : (a n : ℕ) → (a ≡ n) ⊎ (a ≢ n)
same_or_other a n = elim (Bool-cases (a == n)) [
  | inl e ↦ inl ((==_iff a n).0 e)
  | inr e ↦ inr (λ q. ground arith)
]

both : (a b : Bool) → a && b ≡ true → (a ≡ true) × (b ≡ true)
both true b h = (refl, h)
both false b h = cc

same_refl : (b : Bool) → same b b ≡ true
same_refl true = refl
same_refl false = refl

differ : (a b : ℕ) → a ≢ b → (a == b) ≡ false
differ a b h = ground arith

ne : {n : ℕ} (a : ℕ) → a < n → a ≢ n
ne a h e = omega (arith, h, e)

-- Virtual register `n` gets the free register `r` of its class.
pub record Held (n : ℕ) (r : ℕ) (s s' : Scan) : Type 0 where
  pub vregs_put :
      s'.vregs ≡ put s.vregs n (record (info_of s.vregs n) { state = vreg_in_register; reg = r })
  pub active_pushed : s'.active ≡ push_active s.active n
  pub was_free : free s (info_of s.vregs n).is_float r ≡ 1
  pub taken : free s' (info_of s.vregs n).is_float r ≡ 0
  pub others :
      (c : Bool) (q : ℕ)
      → (same (info_of s.vregs n).is_float c && r == q) ≡ false
      → free s' c q ≡ free s c q
  pub one_less : available s' + 1 ≡ available s

module _ {n r : ℕ} {s s' : Scan} (v : Allocated (suc n) n s) (h : Held n r s s')
    (room : n < length s.vregs) where
  pushed : s'.active ≡ s.active ++ n ∷ []
  unfolding push_active
  pushed = h.active_pushed ∙ rw (lt→ltb (length s.active) active_max (omega (arith, v.few))) refl

  older : (a : ℕ) → a ≢ n → info_of s'.vregs a ≡ info_of s.vregs a
  older a ne = rw h.vregs_put (info-put_ne s.vregs n _ room a ne)

  now : info_of s'.vregs n ≡ record (info_of s.vregs n) { state = vreg_in_register; reg = r }
  now = rw h.vregs_put (info-put_self s.vregs n _ room)

  held_now :
      (c : Bool) (q : ℕ) → holds s'.vregs c q n ≡ (same (info_of s.vregs n).is_float c && r == q)
  held_now c q = ap (λ (i : VRegInfo). same i.is_float c && i.reg == q) now

  held_older :
      (c : Bool) (q : ℕ) → count (holds s'.vregs c q) s.active ≡ count (holds s.vregs c q) s.active
  held_older c q = count-eq _ _ s.active (λ a o.
      ap (λ (i : VRegInfo). same i.is_float c && i.reg == q) (older a (λ e. ne a (v.young a o) e)))

  counted_now :
      (c : Bool) (q : ℕ)
      → count (holds s'.vregs c q) (n ∷ []) ≡ bit (same (info_of s.vregs n).is_float c && r == q)
  unfolding count
  counted_now c q = omega (arith, ap bit (held_now c q))

  occurs_pushed : (a : ℕ) → occurs a s'.active ≡ occurs a s.active + bit (a == n)
  unfolding count
  occurs_pushed a = rw pushed (omega (arith, count-append (λ v. a == v) s.active (n ∷ [])))

  taken_here :
      (c : Bool) (q : ℕ)
      → (same (info_of s.vregs n).is_float c && r == q) ≡ true
      → (free s c q ≡ 1) × (free s' c q ≡ 0)
  taken_here c q e =
      subst (λ d. (free s d q ≡ 1) × (free s' d q ≡ 0)) (same_sound _ c (both _ _ e).0)
        (subst
          (λ p.
            (free s (info_of s.vregs n).is_float p ≡ 1)
            × (free s' (info_of s.vregs n).is_float p ≡ 0))
          ((==_iff r q).0 (both _ _ e).1) (h.was_free, h.taken))

  Single-hold : Single s' s'.active
  Single-hold c q = rw pushed (elim (Bool-cases (same (info_of s.vregs n).is_float c && r == q)) [
    | inl e ↦
        let (was, now_taken) = taken_here c q e in
        omega (
          arith,
          v.single c q,
          count-append (holds s'.vregs c q) s.active (n ∷ []),
          counted_now c q,
          held_older c q,
          ap bit e,
          was,
          now_taken,
        )
    | inr e ↦ omega (
      arith,
      v.single c q,
      count-append (holds s'.vregs c q) s.active (n ∷ []),
      counted_now c q,
      held_older c q,
      ap bit e,
      h.others c q e,
    )
  ])

  Closed-hold : (m a : ℕ) → Closed s.vregs m a → Closed s'.vregs m a
  Closed-hold m a x = rw h.vregs_put (Closed-put s.vregs n _ room m a refl refl x)

  held_before : (a : ℕ) → a ≢ n → Holding s'.vregs a → Holding s.vregs a
  held_before a q x = rw (older a q) at x

  hold-kept : (a : ℕ) → Holding s'.vregs a → (0 < occurs a s'.active) ⊎ Closed s'.vregs (suc n) a
  hold-kept a x = elim (same_or_other a n) [
    | inl e ↦ inl (omega (arith, occurs_pushed a, ap bit ((==_iff a n).1 e)))
    | inr q ↦ elim (v.kept a (held_before a q x)) [
      | inl o ↦ inl (omega (arith, o, occurs_pushed a))
      | inr y ↦ inr (Closed-hold (suc n) a y)
    ]
  ]

  apart_now :
      (a : ℕ) → a < n → Holding s'.vregs a → SameRegister s'.vregs a n → Closed s'.vregs (suc n) a
  apart_now a an ha q = elim (v.kept a (held_before a (ne a an) ha)) [
    | inl o ↦ absurd (
        omega (
          arith,
          v.single (info_of s.vregs n).is_float r,
          h.was_free,
          count-occurs (holds s.vregs (info_of s.vregs n).is_float r) a s.active o same_held,
        ))
    | inr y ↦ Closed-hold (suc n) a y
  ]
    where
      same_held : holds s.vregs (info_of s.vregs n).is_float r a ≡ true
      same_held =
          let class : (info_of s.vregs a).is_float ≡ (info_of s.vregs n).is_float =
            sym (ap (λ (i : VRegInfo). i.is_float) (older a (ne a an)))
            ∙ (q.0 ∙ ap (λ (i : VRegInfo). i.is_float) now) in
          let number : (info_of s.vregs a).reg ≡ r =
            sym (ap (λ (i : VRegInfo). i.reg) (older a (ne a an)))
            ∙ (q.1 ∙ ap (λ (i : VRegInfo). i.reg) now) in
          rw (class, number, same_refl (info_of s.vregs n).is_float) ((==_iff r r).1 refl)

  hold-apart :
      (a b : ℕ)
      → a < b
      → Holding s'.vregs a
      → Holding s'.vregs b
      → SameRegister s'.vregs a b
      → Closed s'.vregs (suc b) a
  hold-apart a b ab ha hb q = elim (same_or_other b n) [
    | inl e ↦
        subst (λ w. a < w → SameRegister s'.vregs a w → Closed s'.vregs (suc w) a) (sym e)
          (λ an q'. apart_now a an ha q') ab q
    | inr x ↦
        let bn : b < n = v.fresh b (held_before b x hb) in
        let an : a < n = omega (arith, ab, bn) in
        Closed-hold (suc b) a (
          v.apart a b ab (held_before a (ne a an) ha) (held_before b x hb)
            (rw (older a (ne a an), older b x) at q))
  ]

  pub hold-Allocated : Allocated (suc n) (suc n) s'
  hold-Allocated = record {
    young = λ a o. elim (same_or_other a n) [
      | inl e ↦ omega (arith, e)
      | inr q ↦ omega (arith, v.young a (omega (arith, o, occurs_pushed a, ap bit (differ a n q))))
    ];
    single = Single-hold;
    few = rw pushed (omega (arith, v.few, h.one_less, length-append s.active (n ∷ [])));
    kept = hold-kept;
    apart = hold-apart;
    fresh = λ a x. elim (same_or_other a n) [
      | inl e ↦ omega (arith, e)
      | inr q ↦ omega (arith, v.fresh a (held_before a q x))
    ];
  }
