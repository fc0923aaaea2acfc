-- ===== src/Backend/Bytes.antt =====
-- What the emitters of src/backend/x64.c append to the code buffer, and that the buffer stays
-- within its capacity.
use mathlib.Core.List.{append_assoc}
use o.Prelude.{
  ℕ, ◌+◌, ◌*◌, ◌/◌, ◌%◌, ◌^◌, ◌<◌, bit_and, Bool, true, [], ◌∷◌, ◌++◌, ◌≡◌, refl, arith, length,
  ==_iff, ◌==◌,
}
use o.Prelude.Int.{ℤ, wrap}
use o.Prelude.Tables.{holds_below, holds_below-lookup}
use o.Backend.CodeBuf.{
  Bytes, CodeBuf, u8, u32_bytes, le_bytes, codebuf_ensure, codebuf_emit_byte, codebuf_emit_u16,
  codebuf_emit_u32, codebuf_emit_u64, codebuf_emit_i32, codebuf_emit_i64, codebuf_emit_bytes,
}
use o.Backend.Asm.{rex_byte, modrm, bit_if}

module _ (cb : CodeBuf) where
  pub codebuf_ensure-buf : (n : ℕ) → (codebuf_ensure cb n).buf ≡ cb.buf
  unfolding codebuf_ensure
  codebuf_ensure-buf n = ground arith

  pub emit_byte-buf : (b : ℕ) → (codebuf_emit_byte cb b).buf ≡ cb.buf ++ u8 b ∷ []
  unfolding codebuf_emit_byte
  emit_byte-buf b = rw (codebuf_ensure-buf 1)

  pub emit_u16-buf : (v : ℕ) → (codebuf_emit_u16 cb v).buf ≡ cb.buf ++ u8 v ∷ u8 (v / 2 ^ 8) ∷ []
  unfolding codebuf_emit_u16
  emit_u16-buf v = rw (codebuf_ensure-buf 2)

  pub emit_u32-buf : (v : ℕ) → (codebuf_emit_u32 cb v).buf ≡ cb.buf ++ u32_bytes v
  unfolding codebuf_emit_u32
  emit_u32-buf v = rw (codebuf_ensure-buf 4)

  pub emit_u64-buf : (v : ℕ) → (codebuf_emit_u64 cb v).buf ≡ cb.buf ++ le_bytes 8 0 v
  unfolding codebuf_emit_u64
  emit_u64-buf v = rw (codebuf_ensure-buf 8)

  pub emit_i32-buf : (v : ℤ) → (codebuf_emit_i32 cb v).buf ≡ cb.buf ++ u32_bytes (wrap (2 ^ 32) v)
  unfolding codebuf_emit_i32
  emit_i32-buf v = emit_u32-buf (wrap (2 ^ 32) v)

  pub emit_i64-buf :
      (v : ℤ) → (codebuf_emit_i64 cb v).buf ≡ cb.buf ++ le_bytes 8 0 (wrap (2 ^ 64) v)
  unfolding codebuf_emit_i64
  emit_i64-buf v = emit_u64-buf (wrap (2 ^ 64) v)

  pub emit_bytes-buf : (bs : Bytes) → (codebuf_emit_bytes cb bs).buf ≡ cb.buf ++ bs
  unfolding codebuf_emit_bytes
  emit_bytes-buf bs = rw (codebuf_ensure-buf (length bs))

pub ruleset buffers = (
  emit_byte-buf, emit_u16-buf, emit_u32-buf, emit_u64-buf, emit_i32-buf, emit_i64-buf,
  emit_bytes-buf, append_assoc,
)

-- The low three bits of a register number.
low3_table : holds_below (λ d. bit_and d 7 == d % 8) 16 ≡ true
unfolding holds_below
low3_table = refl

pub low3 : (d : ℕ) → d < 16 → bit_and d 7 ≡ d % 8
low3 d h = (==_iff _ _).0 (holds_below-lookup (λ d. bit_and d 7 == d % 8) 16 d low3_table h)

-- The three fields of a ModRM byte do not overlap.
abbrev modrm_row : ℕ → ℕ → ℕ → Bool
modrm_row m reg rm = modrm m reg rm == m * 64 + reg * 8 + rm

modrm_table : holds_below (λ m. holds_below (λ reg. holds_below (modrm_row m reg) 8) 8) 4 ≡ true
unfolding holds_below modrm
modrm_table = refl

pub modrm_lem : (m reg rm : ℕ) → m < 4 → reg < 8 → rm < 8 → modrm m reg rm ≡ m * 64 + reg * 8 + rm
modrm_lem m reg rm hm hr hb =
    let row =
      holds_below-lookup (λ m. holds_below (λ reg. holds_below (modrm_row m reg) 8) 8) 4 m
        modrm_table hm in
    let col = holds_below-lookup (λ reg. holds_below (modrm_row m reg) 8) 8 reg row hr in
    (==_iff _ _).0 (holds_below-lookup (modrm_row m reg) 8 rm col hb)

pub rex_byte_lem :
    (w r x b : Bool) → rex_byte w r x b ≡ 64 + bit_if w 8 + bit_if r 4 + bit_if x 2 + bit_if b 1
unfolding rex_byte
rex_byte_lem w r x b = ground arith

pub emit_modrm-buf :
    (cb : CodeBuf) (m reg rm : ℕ)
    → m < 4
    → reg < 8
    → rm < 8
    → (codebuf_emit_byte cb (modrm m reg rm)).buf ≡ cb.buf ++ (m * 64 + reg * 8 + rm) ∷ []
emit_modrm-buf cb m reg rm hm hr hb =
    let small : (m * 64 + reg * 8 + rm) % 256 ≡ m * 64 + reg * 8 + rm = omega arith in
    rw (emit_byte-buf, modrm_lem m reg rm hm hr hb, small)
