-- ===== src/Backend/MovImm.antt =====
-- `x64_mov_ri` of src/backend/x64.c: whichever of its encodings it chooses, the register gets the
-- immediate.
use mathlib.Core.List.{append_assoc}
use o.Prelude.{
  ℕ, ◌+◌, ◌*◌, ◌/◌, ◌%◌, ◌^◌, ◌<◌, Bool, true, false, ◌∷◌, ◌++◌, ◌≡◌, ◌≢◌, ◌∙◌, arith, some, inl,
  inr, bit_or, bit_and, Bool-cases, ◌&&◌,
}
use o.Prelude.Int.{ℤ, pos, negsuc, wrap, FitsSigned, signed-wrap, wrap32-lt, ◌≤ℤ?◌}
use o.Backend.CodeBuf.{
  Bytes, CodeBuf, u32_bytes, le_bytes, codebuf_emit_byte, codebuf_emit_u32, codebuf_emit_i32,
  codebuf_emit_i64,
}
use o.Backend.Asm.{X64Reg, X64Asm, emit_rex, ext, modrm, maybe_size16}
use o.Backend.Bytes.{emit_byte-buf, emit_u32-buf, emit_i32-buf, emit_i64-buf, emit_modrm-buf, low3}
use o.Backend.Mov.{x64_mov_ri, mov_ri64, rex_b_if}
use o.Backend.Decode.{Rex, decode_rex, extend}
use o.Backend.Immediate.{
  decode_load, decode_mov_imm, take_le-u32_bytes, take_le-le_bytes, emit_opcode-buf, rex_b_bytes,
  rex_b_if-buf,
}
use o.Backend.Operand.{extend-low, modrm_fields}
use o.Backend.Prefix.{emit_rex-buf, decode_rex-rex_value, rex_value}

abbrev rex_wb : Bool → Bool → Bool → Rex
rex_wb present w b = record { present = present; w = w; r = false; x = false; b = b }

module _ (present b : Bool) (d : ℕ) (rest : Bytes) where
  decode_load-short :
      (w : ℕ)
      → w < 2 ^ 32
      → decode_load (rex_wb present false b) ((0xB8 + d % 8) ∷ (u32_bytes w ++ rest))
        ≡ some (extend b (d % 8), w, rest)
  unfolding decode_load
  decode_load-short w k =
      let row : (0xB8 + d % 8) / 8 ≡ 23 = omega arith in
      let low : (0xB8 + d % 8) % 8 ≡ d % 8 = omega arith in
      rw (row, low) (rw (take_le-u32_bytes w rest k))

  decode_load-full :
      (w : ℕ)
      → w < 2 ^ 64
      → decode_load (rex_wb present true b) ((0xB8 + d % 8) ∷ (le_bytes 8 0 w ++ rest))
        ≡ some (extend b (d % 8), w, rest)
  unfolding decode_load
  decode_load-full w k =
      let row : (0xB8 + d % 8) / 8 ≡ 23 = omega arith in
      let low : (0xB8 + d % 8) % 8 ≡ d % 8 = omega arith in
      rw (row, low) (rw (take_le-le_bytes w rest k))

  decode_load-signed :
      (v : ℤ)
      → FitsSigned (2 ^ 31) v
      → decode_load
          (rex_wb present true b)
          (0xC7 ∷ (3 * 64 + 0 * 8 + d % 8) ∷ (u32_bytes (wrap (2 ^ 32) v) ++ rest))
        ≡ some (extend b (d % 8), wrap (2 ^ 64) v, rest)
  unfolding decode_load
  decode_load-signed v f =
      let (low, middle, high) = modrm_fields 3 0 (d % 8) (omega arith) (omega arith) in
      let whole = signed-wrap (2 ^ 31) v f in
      rw (low, middle, high) (rw (take_le-u32_bytes _ rest (wrap32-lt v)) (rw whole))

decode_rex_b :
    (d : ℕ) (c : ℕ) (bs : Bytes)
    → c / 16 ≢ 4
    → decode_rex (rex_b_bytes d ++ (c ∷ bs)) ≡ (rex_wb (ext d) false (ext d), c ∷ bs)
unfolding decode_rex rex_b_bytes
decode_rex_b d c bs h = ground arith

wrap64-lt : (v : ℤ) → wrap (2 ^ 64) v < 2 ^ 64
unfolding wrap
wrap64-lt (pos n) = omega arith
wrap64-lt (negsuc n) = omega arith

-- An immediate that the source's first test lets through is its own low half.
first_test :
    (v : ℤ) → (pos 0 ≤ℤ? v && v ≤ℤ? pos 0xFFFFFFFF) ≡ true → wrap (2 ^ 32) v ≡ wrap (2 ^ 64) v
unfolding wrap
first_test (pos n) h = ground arith
first_test (negsuc n) h = ground arith

second_test :
    (v : ℤ) → (negsuc 0x7FFFFFFF ≤ℤ? v && v ≤ℤ? pos 0x7FFFFFFF) ≡ true → FitsSigned (2 ^ 31) v
second_test (pos n) h = ground arith
second_test (negsuc n) h = ground arith

-- The bytes written are one move that sets register `d` to `imm`.
abbrev pub Loads : CodeBuf → CodeBuf → ℕ → ℤ → Type 0
Loads cb cb' d imm =
    (code : Bytes) × (cb'.buf ≡ cb.buf ++ code)
    × ((rest : Bytes) → decode_mov_imm (code ++ rest) ≡ some (d, wrap (2 ^ 64) imm, rest))

module _ (cb : CodeBuf) (d : ℕ) (imm : ℤ) (h : d < 16) where
  Loads-short :
      wrap (2 ^ 32) imm ≡ wrap (2 ^ 64) imm
      → Loads cb
          (codebuf_emit_u32
            (codebuf_emit_byte (rex_b_if cb d) (bit_or 0xB8 (bit_and d 7)))
            (wrap (2 ^ 32) imm))
          d
          imm
  unfolding decode_mov_imm
  Loads-short e = (
    rex_b_bytes d ++ ((0xB8 + d % 8) ∷ u32_bytes (wrap (2 ^ 32) imm)),
    rw (emit_u32-buf, emit_opcode-buf _ d h, rex_b_if-buf cb d) (simp append_assoc),
    λ rest.
        rw (append_assoc, decode_rex_b d (0xB8 + d % 8) _ (λ q. omega arith))
          (decode_load-short (ext d) (ext d) d rest _ (wrap32-lt imm) ∙ rw (extend-low d h, e)),
  )

  Loads-signed :
      FitsSigned (2 ^ 31) imm
      → Loads cb
          (codebuf_emit_i32
            (codebuf_emit_byte
              (codebuf_emit_byte (emit_rex cb true false false (ext d)) 0xC7)
              (modrm 3 0 (bit_and d 7)))
            imm)
          d
          imm
  unfolding decode_mov_imm
  Loads-signed f = (
    rex_value (rex_wb true true (ext d))
        ∷ 0xC7
        ∷ (3 * 64 + 0 * 8 + d % 8)
        ∷ u32_bytes (wrap (2 ^ 32) imm),
    rw
        (
          emit_i32-buf,
          low3 d h,
          emit_modrm-buf _ 3 0 (d % 8) (omega arith) (omega arith) (omega arith),
          emit_byte-buf,
          emit_rex-buf cb true false false (ext d),
        )
        (simp append_assoc),
    λ rest.
        rw (decode_rex-rex_value true false false (ext d))
          (decode_load-signed true (ext d) d rest imm f ∙ rw (extend-low d h)),
  )

  Loads-full :
      Loads cb
        (codebuf_emit_i64
          (codebuf_emit_byte (emit_rex cb true false false (ext d)) (bit_or 0xB8 (bit_and d 7)))
          imm)
        d
        imm
  unfolding decode_mov_imm
  Loads-full = (
    rex_value (rex_wb true true (ext d)) ∷ (0xB8 + d % 8) ∷ le_bytes 8 0 (wrap (2 ^ 64) imm),
    rw (emit_i64-buf, emit_opcode-buf _ d h, emit_rex-buf cb true false false (ext d))
        (simp append_assoc),
    λ rest.
        rw (decode_rex-rex_value true false false (ext d))
          (decode_load-full true (ext d) d rest _ (wrap64-lt imm) ∙ rw (extend-low d h)),
  )

  mov_ri64-Loads : Loads cb (mov_ri64 cb d imm) d imm
  unfolding mov_ri64
  mov_ri64-Loads = elim (Bool-cases (pos 0 ≤ℤ? imm && imm ≤ℤ? pos 0xFFFFFFFF)) [
    | inl low ↦ rw low (Loads-short (first_test imm low))
    | inr high ↦ elim (Bool-cases (negsuc 0x7FFFFFFF ≤ℤ? imm && imm ≤ℤ? pos 0x7FFFFFFF)) [
      | inl small ↦ rw (high, small) (Loads-signed (second_test imm small))
      | inr large ↦ rw (high, large) Loads-full
    ]
  ]

-- Whatever the immediate, and for each of the sixteen registers, the 64-bit move that is written
-- sets the register to the immediate's 64-bit pattern, in whichever of the three encodings is
-- chosen.
pub x64_mov_ri-Loads :
    (a : X64Asm) (d : X64Reg) (imm : ℤ) → d < 16 → Loads a.cb (x64_mov_ri a d imm 8).cb d imm
unfolding x64_mov_ri maybe_size16
x64_mov_ri-Loads a d imm h = mov_ri64-Loads a.cb d imm h
