-- ===== src/Jit/Expire.antt =====
-- src/jit/jit.c, jit_linear_scan_alloc: what the loop that frees the registers of old intervals keeps.
use o.Prelude.{
  ℕ, zero, suc, ◌+◌, ◌≤◌, ◌<◌, ◌≡◌, refl, sym, ◌∙◌, ap, ◌⊎◌, inl, inr, Bool, true, false, ◌&&◌,
  List, [], ◌∷◌, ◌++◌, length, get_or, get_or-set_ne, set, ltb, ◌==◌, Bool-cases, ==_iff, ltb→lt,
  arith, length-append,
}
use mathlib.Core.List.{append-nil, append_assoc}
use mathlib.Core.Path.{subst}
use o.Jit.{VRegInfo, info_of}
use o.Jit.LinearScan.{RegSet, Scan, free_reg, move_last, expire_from, expire_old}
use o.Jit.Registers.{
  bit, bit-le, count, count-append, count-move_last, length-move_last, ones, ones-add,
}

abbrev pub same : Bool → Bool → Bool
same true true = true
same false false = true
same _ _ = false

-- The virtual register has the register `r` of the class `c`, xmm registers or others.
abbrev pub holds : List VRegInfo → Bool → ℕ → ℕ → Bool
holds vregs c r v = same (info_of vregs v).is_float c && (info_of vregs v).reg == r

abbrev pub set_of : Scan → Bool → RegSet
set_of s true = s.xmm_free
set_of s false = s.int_free

-- 1 if the register is free.
abbrev pub free : Scan → Bool → ℕ → ℕ
free s c r = bit (get_or (set_of s c) r false)

abbrev pub available : Scan → ℕ
available s = ones s.int_free + ones s.xmm_free

-- Free or held once, for every register.
abbrev pub Single : Scan → List ℕ → Type 0
Single s active = (c : Bool) (r : ℕ) → count (holds s.vregs c r) active + free s c r ≤ 1

pub free_reg-vregs : (s : Scan) (v : ℕ) → (free_reg s v).vregs ≡ s.vregs
unfolding free_reg
free_reg-vregs s v = ground arith

free-add :
    (rs : RegSet) (q r : ℕ) → (q == r) ≡ false → get_or (set rs q true) r false ≡ get_or rs r false
free-add rs q r h = get_or-set_ne rs q r true false (λ e. ground arith)

free_reg-depth : (s : Scan) (v : ℕ) → (free_reg s v).depth ≡ s.depth
unfolding free_reg
free_reg-depth s v = ground arith

-- Registers that the virtual register does not hold stay as they are.
free-free_reg :
    (s : Scan) (v : ℕ) (c : Bool) (r : ℕ)
    → holds s.vregs c r v ≡ false
    → free (free_reg s v) c r ≡ free s c r
unfolding free_reg
free-free_reg s v true r h = elim (Bool-cases (info_of s.vregs v).is_float) [
  | inl e ↦ rw e (ap bit (free-add s.xmm_free (info_of s.vregs v).reg r (rw e at h)))
  | inr e ↦ rw e refl
]
free-free_reg s v false r h = elim (Bool-cases (info_of s.vregs v).is_float) [
  | inl e ↦ rw e refl
  | inr e ↦ rw e (ap bit (free-add s.int_free (info_of s.vregs v).reg r (rw e at h)))
]

available-free_reg : (s : Scan) (v : ℕ) → available (free_reg s v) ≤ available s + 1
unfolding free_reg
available-free_reg s v = elim (Bool-cases (info_of s.vregs v).is_float) [
  | inl e ↦ rw e (omega (arith, ones-add s.xmm_free (info_of s.vregs v).reg))
  | inr e ↦ rw e (omega (arith, ones-add s.int_free (info_of s.vregs v).reg))
]

-- Dropping an active virtual register and freeing its register.
Single-free_reg : (s : Scan) (v : ℕ) (vs : List ℕ) → Single s (v ∷ vs) → Single (free_reg s v) vs
unfolding count
Single-free_reg s v vs h c r = rw (free_reg-vregs s v) (elim (Bool-cases (holds s.vregs c r v)) [
  | inl e ↦ omega (arith, ap bit e, h c r, bit-le (get_or (set_of (free_reg s v) c) r false))
  | inr e ↦ omega (arith, ap bit e, h c r, free-free_reg s v c r e)
])

abbrev pub occurs : ℕ → List ℕ → ℕ
occurs a active = count (λ v. a == v) active

-- What a round of the loop, and the loop, keep: from the active ones `before` to `s'.active`.
pub record Expired (start : ℕ) (before : List ℕ) (s s' : Scan) : Type 0 where
  pub vregs_kept : s'.vregs ≡ s.vregs
  pub depth_kept : s'.depth ≡ s.depth
  pub single : Single s' s'.active
  pub few : available s' + length s'.active ≤ available s + length before
  pub left : (a : ℕ) → occurs a s'.active ≤ occurs a before
  pub gone :
      (a : ℕ)
      → 0 < occurs a before
      → (0 < occurs a s'.active) ⊎ ((info_of s.vregs a).last_use < start)

count-cons-append :
    (p : ℕ → Bool) (kept : List ℕ) (v : ℕ) (vs : List ℕ)
    → count p (kept ++ v ∷ vs) ≡ bit (p v) + count p (kept ++ vs)
unfolding count
count-cons-append p kept v vs = omega (arith, count-append p kept (v ∷ vs), count-append p kept vs)

count-append-move_last :
    (p : ℕ → Bool) (kept vs : List ℕ) → count p (kept ++ move_last vs) ≡ count p (kept ++ vs)
count-append-move_last p kept vs =
    omega (arith, count-append p kept (move_last vs), count-append p kept vs, count-move_last p vs)

-- One virtual register leaves the active ones.
Single-expire :
    (s : Scan) (kept : List ℕ) (v : ℕ) (vs : List ℕ)
    → Single s (kept ++ v ∷ vs)
    → Single (free_reg s v) (kept ++ move_last vs)
Single-expire s kept v vs h c r =
    rw (count-append-move_last (holds (free_reg s v).vregs c r) kept vs) (
      Single-free_reg s v (kept ++ vs)
        (λ c r. unfold count in rw (← count-cons-append (holds s.vregs c r) kept v vs) (h c r)) c r)

module _ (start : ℕ) (s : Scan) where
  Expired-drop :
      (kept : List ℕ) (v : ℕ) (vs : List ℕ) {s' : Scan}
      → ltb (info_of s.vregs v).last_use start ≡ true
      → Expired start (kept ++ move_last vs) (free_reg s v) s'
      → Expired start (kept ++ v ∷ vs) s s'
  Expired-drop kept v vs old x = record {
    vregs_kept = x.vregs_kept ∙ free_reg-vregs s v;
    depth_kept = x.depth_kept ∙ free_reg-depth s v;
    single = x.single;
    few = omega (
      arith,
      x.few,
      available-free_reg s v,
      length-append kept (v ∷ vs),
      length-append kept (move_last vs),
      length-move_last vs,
    );
    left = λ a. omega (
      arith,
      x.left a,
      count-append-move_last (λ v. a == v) kept vs,
      count-cons-append (λ v. a == v) kept v vs,
    );
    gone = λ a h. elim (Bool-cases (a == v)) [
      | inl e ↦ inr (
          subst (λ w. (info_of s.vregs w).last_use < start) (sym ((==_iff a v).0 e))
            (ltb→lt _ _ old))
      | inr e ↦ rw (free_reg-vregs s v) at (
          x.gone a (
            omega (
              arith,
              h,
              ap bit e,
              count-append-move_last (λ v. a == v) kept vs,
              count-cons-append (λ v. a == v) kept v vs,
            )))
    ];
  }

expire_from-Expired :
    (fuel start : ℕ) (kept rest : List ℕ) (s : Scan)
    → Single s (kept ++ rest)
    → Expired start (kept ++ rest) s (expire_from fuel start kept rest s)
unfolding expire_from
expire_from-Expired fuel start kept [] s h =
    let e = append-nil kept in
    record {
      vregs_kept = refl;
      depth_kept = refl;
      single = rw e at h;
      few = rw e (omega arith);
      left = λ a. rw e (omega arith);
      gone = λ a o. inl (rw e at o);
    }
expire_from-Expired zero start kept (v ∷ vs) s h = record {
  vregs_kept = refl;
  depth_kept = refl;
  single = h;
  few = omega arith;
  left = λ a. omega arith;
  gone = λ a o. inl o;
}
expire_from-Expired (suc fuel) start kept (v ∷ vs) s h =
    elim (Bool-cases (ltb (info_of s.vregs v).last_use start)) [
      | inl e ↦
          rw (e, expire_from)
            (Expired-drop start s kept v vs e (
              expire_from-Expired fuel start kept (move_last vs) (free_reg s v)
                (Single-expire s kept v vs h)))
      | inr e ↦
          rw (e, expire_from)
            (subst (λ active. Expired start active s (expire_from fuel start (kept ++ v ∷ []) vs s))
              (append_assoc kept (v ∷ []) vs)
              (expire_from-Expired fuel start (kept ++ v ∷ []) vs s
                (rw (append_assoc kept (v ∷ []) vs) h)))
    ]

pub expire_old-Expired :
    (start : ℕ) (s : Scan) → Single s s.active → Expired start s.active s (expire_old start s)
unfolding expire_old
expire_old-Expired start s h = expire_from-Expired (length s.active) start [] s.active s h
