-- ===== src/Jit/Allocated.antt =====
-- src/jit/jit.c, jit_linear_scan_alloc: the invariant of the scan over the virtual registers.
use mathlib.Core.Path.{subst}
use o.Prelude.{
  ℕ, suc, ◌+◌, ◌≤◌, ◌<◌, ◌≡◌, ◌≢◌, refl, sym, ◌∙◌, ap, ◌⊎◌, inl, inr, Bool, true, List, [], ◌∷◌,
  length, get_or-set_ne, get_or-set_self, ◌==◌, Bool-cases, ==_iff, arith,
}
use o.Jit.{VRegInfo, info_of, in_register}
use o.Jit.Liveness.{put}
use o.Jit.LinearScan.{Scan}
use o.Jit.Registers.{bit, count}
use o.Jit.Expire.{available, Single, occurs, same}

pub count-eq :
    (p q : ℕ → Bool) (xs : List ℕ)
    → ((a : ℕ) → 0 < occurs a xs → p a ≡ q a)
    → count p xs ≡ count q xs
unfolding count
count-eq p q [] h = refl
count-eq p q (x ∷ xs) h = omega (
  arith,
  ap bit (h x (omega (arith, ap bit ((==_iff x x).1 refl)))),
  count-eq p q xs (λ a o. h a (omega (arith, o))),
)

-- An item that passes the test is counted.
pub count-occurs :
    (p : ℕ → Bool) (a : ℕ) (xs : List ℕ) → 0 < occurs a xs → p a ≡ true → 0 < count p xs
unfolding count
count-occurs p a [] o h = absurd (omega (arith, o))
count-occurs p a (x ∷ xs) o h = elim (Bool-cases (a == x)) [
  | inl e ↦ omega (arith, ap bit (subst (λ w. p w ≡ true) ((==_iff a x).0 e) h))
  | inr e ↦ omega (arith, count-occurs p a xs (omega (arith, o, ap bit e)) h)
]

abbrev pub Holding : List VRegInfo → ℕ → Type 0
Holding vregs a = in_register (info_of vregs a).state ≡ true

-- Some virtual register above `a` and below `m` is used first behind the last use of `a`.
abbrev pub Closed : List VRegInfo → ℕ → ℕ → Type 0
Closed vregs m a =
    (c : ℕ) × (a < c) × (c < m) × ((info_of vregs a).last_use < (info_of vregs c).first_use)

abbrev pub SameRegister : List VRegInfo → ℕ → ℕ → Type 0
SameRegister vregs a b =
    ((info_of vregs a).is_float ≡ (info_of vregs b).is_float)
    × ((info_of vregs a).reg ≡ (info_of vregs b).reg)

-- The scan has passed the virtual registers below `n`; those used last before the first use of one
-- below `m` are no longer active.
pub record Allocated (m n : ℕ) (s : Scan) : Type 0 where
  pub young : (a : ℕ) → 0 < occurs a s.active → a < n
  pub single : Single s s.active
  pub few : available s + length s.active ≤ 18
  pub kept : (a : ℕ) → Holding s.vregs a → (0 < occurs a s.active) ⊎ Closed s.vregs m a
  pub apart :
      (a b : ℕ)
      → a < b
      → Holding s.vregs a
      → Holding s.vregs b
      → SameRegister s.vregs a b
      → Closed s.vregs (suc b) a
  pub fresh : (v : ℕ) → Holding s.vregs v → v < n

-- The record of one virtual register changes, its uses do not.
module _ (R : List VRegInfo) (n : ℕ) (i : VRegInfo) (room : n < length R) where
  pub info-put_self : info_of (put R n i) n ≡ i
  info-put_self = get_or-set_self R n i _ room

  pub info-put_ne : (a : ℕ) → a ≢ n → info_of (put R n i) a ≡ info_of R a
  info-put_ne a h = get_or-set_ne R n a i _ (λ e. h (sym e))

  pub field-put :
      {A : Type 0} (f : VRegInfo → A) (a : ℕ)
      → f i ≡ f (info_of R n)
      → f (info_of (put R n i) a) ≡ f (info_of R a)
  field-put f a same = elim (Bool-cases (a == n)) [
    | inl e ↦
        subst (λ w. f (info_of (put R n i) w) ≡ f (info_of R w)) (sym ((==_iff a n).0 e))
          (ap f info-put_self ∙ same)
    | inr e ↦ ap f (info-put_ne a (λ q. ground arith))
  ]

  pub Closed-put :
      (m a : ℕ)
      → i.last_use ≡ (info_of R n).last_use
      → i.first_use ≡ (info_of R n).first_use
      → Closed R m a
      → Closed (put R n i) m a
  Closed-put m a last first (c, ac, cm, h) = (
    c,
    ac,
    cm,
    omega (
      arith,
      h,
      field-put (λ (x : VRegInfo). x.last_use) a last,
      field-put (λ (x : VRegInfo). x.first_use) c first,
    ),
  )
