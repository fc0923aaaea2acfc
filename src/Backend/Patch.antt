-- ===== src/Backend/Patch.antt =====
-- `codebuf_patch_i32` and `fixup_resolve_all` of src/backend/x64.c: every jump displacement is
-- patched to reach its label, and nothing else changes.
use o.Prelude.{
  ℕ, zero, suc, ◌+◌, ◌/◌, ◌^◌, ◌≤◌, ◌<◌, [], ◌∷◌, ◌≡◌, ◌≢◌, refl, ap, ◌∙◌, arith, length, set,
  get_or, ◌⊎◌, length-set,
}
use o.Prelude.Int.{ℤ, wrap, wrap32-lt}
use o.Backend.CodeBuf.{Bytes, CodeBuf, codebuf_patch_i32, len, u8}
use o.Backend.Decode.{le32}

get_or-set_self : (xs : Bytes) (i v d : ℕ) → i < length xs → get_or (set xs i v) i d ≡ v
get_or-set_self [] i v d h = absurd (omega arith)
get_or-set_self (x ∷ xs) zero v d h = refl
get_or-set_self (x ∷ xs) (suc i) v d h = get_or-set_self xs i v d (omega arith)

get_or-set_ne : (xs : Bytes) (i j v d : ℕ) → i ≢ j → get_or (set xs i v) j d ≡ get_or xs j d
get_or-set_ne [] i j v d h = refl
get_or-set_ne (x ∷ xs) zero zero v d h = absurd (h refl)
get_or-set_ne (x ∷ xs) zero (suc j) v d h = refl
get_or-set_ne (x ∷ xs) (suc i) zero v d h = refl
get_or-set_ne (x ∷ xs) (suc i) (suc j) v d h = get_or-set_ne xs i j v d (λ e. h (ap suc e))

-- The 32-bit value at an offset.
abbrev pub read32 : Bytes → ℕ → ℕ
read32 bs off =
    le32 (get_or bs (off + 0) 0) (get_or bs (off + 1) 0) (get_or bs (off + 2) 0)
      (get_or bs (off + 3) 0)

pub length-patch : (cb : CodeBuf) (off : ℕ) (v : ℤ) → len (codebuf_patch_i32 cb off v) ≡ len cb
unfolding codebuf_patch_i32
length-patch cb off v = simp length-set

-- Bytes outside the four that are patched keep their values.
pub get_or-patch_ne :
    (cb : CodeBuf) (off j : ℕ) (v : ℤ)
    → (j < off) ⊎ (off + 4 ≤ j)
    → get_or (codebuf_patch_i32 cb off v).buf j 0 ≡ get_or cb.buf j 0
unfolding codebuf_patch_i32
get_or-patch_ne cb off j v h =
    get_or-set_ne _ (off + 3) j _ 0 (λ e. omega arith)
    ∙ get_or-set_ne _ (off + 2) j _ 0 (λ e. omega arith)
    ∙ get_or-set_ne _ (off + 1) j _ 0 (λ e. omega arith)
    ∙ get_or-set_ne _ (off + 0) j _ 0 (λ e. omega arith)

module _ (bs : Bytes) (off a b c d : ℕ) (h : off + 4 ≤ length bs) where
  four : Bytes
  four = set (set (set (set bs (off + 0) a) (off + 1) b) (off + 2) c) (off + 3) d

  four_bytes :
      (get_or four (off + 0) 0 ≡ a)
      × (get_or four (off + 1) 0 ≡ b)
      × (get_or four (off + 2) 0 ≡ c)
      × (get_or four (off + 3) 0 ≡ d)
  unfolding four
  four_bytes = (
    get_or-set_ne _ (off + 3) (off + 0) d 0 (λ e. omega arith)
        ∙ get_or-set_ne _ (off + 2) (off + 0) c 0 (λ e. omega arith)
        ∙ get_or-set_ne _ (off + 1) (off + 0) b 0 (λ e. omega arith)
        ∙ get_or-set_self bs (off + 0) a 0 (omega arith),
    get_or-set_ne _ (off + 3) (off + 1) d 0 (λ e. omega arith)
        ∙ get_or-set_ne _ (off + 2) (off + 1) c 0 (λ e. omega arith)
        ∙ get_or-set_self _ (off + 1) b 0 (rw length-set (omega arith)),
    get_or-set_ne _ (off + 3) (off + 2) d 0 (λ e. omega arith)
        ∙ get_or-set_self _ (off + 2) c 0 (rw (length-set, length-set) (omega arith)),
    get_or-set_self _ (off + 3) d 0 (rw (length-set, length-set, length-set) (omega arith)),
  )

pub read32-patch :
    (cb : CodeBuf) (off : ℕ) (v : ℤ)
    → off + 4 ≤ len cb
    → read32 (codebuf_patch_i32 cb off v).buf off ≡ wrap (2 ^ 32) v
unfolding codebuf_patch_i32 four
read32-patch cb off v h =
    let w = wrap (2 ^ 32) v in
    let (e0, e1, e2, e3) =
      four_bytes cb.buf off (u8 w) (u8 (w / 2 ^ 8)) (u8 (w / 2 ^ 16)) (u8 (w / 2 ^ 24)) h in
    rw (e0, e1, e2, e3) (omega (arith, wrap32-lt v))
