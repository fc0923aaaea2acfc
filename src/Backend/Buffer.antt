-- ===== src/Backend/Buffer.antt =====
-- The code buffer of src/backend/x64.c keeps its bytes below its capacity, and what is emitted
-- little-endian reads back as the value.

use o.Prelude.{
  ℕ, ◌+◌, ◌*◌, ◌/◌, ◌%◌, ◌^◌, ◌≤◌, ◌<◌, [], ◌∷◌, ◌++◌, ◌≡◌, refl, arith, length, All, length-append,
}
use o.Backend.CodeBuf.{
  Bytes, CodeBuf, len, u8, u32_bytes, le_bytes, codebuf_ensure, codebuf_emit_byte, codebuf_emit_u16,
  codebuf_emit_u32, codebuf_emit_u64,
}
use o.Backend.Bytes.{emit_byte-buf, emit_u16-buf, emit_u32-buf, emit_u64-buf}

pub record IsValid (cb : CodeBuf) : Type 0 where
  pub fits : len cb ≤ cb.cap
  pub bytes : All (λ b. b < 256) cb.buf

-- The fixed-width emitters.
pub data Width : Type 0 where
  w8 w16 w32 w64 : Width

abbrev pub emit : Width → CodeBuf → ℕ → CodeBuf
emit w8 = codebuf_emit_byte
emit w16 = codebuf_emit_u16
emit w32 = codebuf_emit_u32
emit w64 = codebuf_emit_u64

abbrev pub size : Width → ℕ
size w8 = 1
size w16 = 2
size w32 = 4
size w64 = 8

-- The value of little-endian bytes.
abbrev pub le_value : Bytes → ℕ
le_value [] = 0
le_value (b ∷ bs) = b + 256 * le_value bs

pub le_value-le_bytes64 : (v : ℕ) → le_value (le_bytes 8 0 v) ≡ v % 2 ^ 64
le_value-le_bytes64 v = omega arith

-- Room for `extra` more bytes is there afterwards, the capacity does not shrink, and the bytes
-- written so far stay.
pub codebuf_ensure_lem :
    (cb : CodeBuf) (extra : ℕ)
    → (len cb + extra ≤ (codebuf_ensure cb extra).cap)
      × (cb.cap ≤ (codebuf_ensure cb extra).cap)
      × ((codebuf_ensure cb extra).buf ≡ cb.buf)
unfolding codebuf_ensure
codebuf_ensure_lem cb extra = ground arith

All-append :
    (xs ys : Bytes) → All (λ b. b < 256) xs → All (λ b. b < 256) ys → All (λ b. b < 256) (xs ++ ys)
All-append [] ys h k = k
All-append (x ∷ xs) ys (h, hs) k = (h, All-append xs ys hs k)

appended-IsValid :
    (cb : CodeBuf) (bs : Bytes)
    → IsValid cb
    → All (λ b. b < 256) bs
    → IsValid
        (record (codebuf_ensure cb (length bs)) { buf = (codebuf_ensure cb (length bs)).buf ++ bs })
appended-IsValid cb bs h k =
    let (room, grows, same) = codebuf_ensure_lem cb (length bs) in
    rw same (record { fits = rw length-append room; bytes = All-append cb.buf bs h.bytes k })

-- Emitting a value to a valid buffer keeps it valid, its bytes within the capacity, and appends
-- the value's low bytes, little-endian.
pub emit-IsValid :
    (w : Width) (cb : CodeBuf) (v : ℕ)
    → IsValid cb
    → IsValid (emit w cb v)
      × ((bs : Bytes) × ((emit w cb v).buf ≡ cb.buf ++ bs)
          × (length bs ≡ size w)
          × (le_value bs ≡ v % 2 ^ (8 * size w)))
unfolding codebuf_emit_byte codebuf_emit_u16 codebuf_emit_u32 codebuf_emit_u64
emit-IsValid w8 cb v h = (
  appended-IsValid cb (u8 v ∷ []) h (omega arith),
  (u8 v ∷ [], emit_byte-buf cb v, refl, omega arith),
)
emit-IsValid w16 cb v h = (
  appended-IsValid cb (u8 v ∷ u8 (v / 2 ^ 8) ∷ []) h (omega arith),
  (u8 v ∷ u8 (v / 2 ^ 8) ∷ [], emit_u16-buf cb v, refl, omega arith),
)
emit-IsValid w32 cb v h = (
  appended-IsValid cb (u32_bytes v) h (omega arith),
  (u32_bytes v, emit_u32-buf cb v, refl, omega arith),
)
emit-IsValid w64 cb v h = (
  appended-IsValid cb (le_bytes 8 0 v) h (omega arith),
  (le_bytes 8 0 v, emit_u64-buf cb v, refl, le_value-le_bytes64 v),
)
