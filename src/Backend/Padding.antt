-- ===== src/Backend/Padding.antt =====
-- `x64_align` of src/backend/x64.c: the padding is as long as asked for, and made of whole
-- no-operation instructions.

use native.Mathlib.Nat.{div-add-mod', mod-lt, mul-mod_left, pow-suc}
use o.Prelude.{
  ℕ, zero, suc, ◌+◌, ◌-◌, ◌*◌, ◌/◌, ◌%◌, ◌^◌, ◌≤◌, ◌<◌, ◌≡◌, refl, arith, length, ◌⊎◌,
  length-append,
}
use o.Backend.CodeBuf.{Bytes, CodeBuf, len, align_up, codebuf_emit_bytes}
use o.Backend.Asm.{X64Asm}
use o.Backend.Bytes.{emit_bytes-buf}
use o.Backend.Frame.{nop1, nop2, nop3, nop4, emit_nop8, emit_nop_if, pad_nops, x64_align}

len-emit_bytes : (cb : CodeBuf) (bs : Bytes) → len (codebuf_emit_bytes cb bs) ≡ len cb + length bs
len-emit_bytes cb bs = rw emit_bytes-buf (length-append cb.buf bs)

len-emit_nop8 : (n : ℕ) (cb : CodeBuf) → len (emit_nop8 n cb) ≡ len cb + n * 8
unfolding emit_nop8
len-emit_nop8 zero cb = omega arith
len-emit_nop8 (suc n) cb =
    omega (arith, len-emit_nop8 n (codebuf_emit_bytes cb _), len-emit_bytes cb _)

-- What a test writes and what it leaves to pad add up.
len-emit_nop_if :
    (k : ℕ) (nop : Bytes) (s : CodeBuf × ℕ)
    → length nop ≡ k
    → (len (emit_nop_if k nop s).0 + (emit_nop_if k nop s).1 ≡ len s.0 + s.1)
      × (((emit_nop_if k nop s).1 ≡ s.1 - k) ⊎ ((s.1 < k) × ((emit_nop_if k nop s).1 ≡ s.1)))
unfolding emit_nop_if
len-emit_nop_if k nop (cb, pad) h = ground (arith, len-emit_bytes cb nop)

pub len-pad_nops : (cb : CodeBuf) (pad : ℕ) → len (pad_nops cb pad) ≡ len cb + pad
unfolding pad_nops
len-pad_nops cb pad =
    let s8 : CodeBuf × ℕ = (emit_nop8 (pad / 8) cb, pad % 8) in
    let s4 = emit_nop_if 4 nop4 s8 in
    let s3 = emit_nop_if 3 nop3 s4 in
    let s2 = emit_nop_if 2 nop2 s3 in
    omega (
      arith,
      len-emit_nop8 (pad / 8) cb,
      len-emit_nop_if 4 nop4 s8 refl,
      len-emit_nop_if 3 nop3 s4 refl,
      len-emit_nop_if 2 nop2 s3 refl,
      len-emit_nop_if 1 nop1 s2 refl,
    )

two_pow-pos : (k : ℕ) → 0 < 2 ^ k
two_pow-pos zero = omega arith
two_pow-pos (suc k) = simp pow-suc (omega (arith, two_pow-pos k))

align_up_bounds :
    (n m : ℕ) → 0 < m → (align_up n m % m ≡ 0) × (n ≤ align_up n m) × (align_up n m < n + m)
align_up_bounds n m h = (
  mul-mod_left ((n + m - 1) / m) m,
  omega (arith, div-add-mod' (n + m - 1) m, mod-lt (n + m - 1) h),
  omega (arith, div-add-mod' (n + m - 1) m, mod-lt (n + m - 1) h),
)

-- After an alignment to a power of two the code's length is a multiple of it, and less than one
-- such unit was written.
pub len-x64_align :
    (a : X64Asm) (k : ℕ)
    → (len (x64_align a (2 ^ k)).cb % 2 ^ k ≡ 0)
      × (len a.cb ≤ len (x64_align a (2 ^ k)).cb)
      × (len (x64_align a (2 ^ k)).cb < len a.cb + 2 ^ k)
unfolding x64_align
len-x64_align a k =
    let (whole, low, high) = align_up_bounds (len a.cb) (2 ^ k) (two_pow-pos k) in
    let e : len a.cb + (align_up (len a.cb) (2 ^ k) - len a.cb) ≡ align_up (len a.cb) (2 ^ k) =
      omega arith in
    rw (len-pad_nops, e) (whole, low, high)
