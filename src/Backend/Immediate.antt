-- ===== src/Backend/Immediate.antt =====
-- The manual's moves of an immediate to a register, as a decoder, and the bytes in front of the
-- immediate that `x64_mov_ri` of src/backend/x64.c writes.
use mathlib.Core.List.{append-nil}
use o.Prelude.{
  ℕ, zero, suc, ◌+◌, ◌*◌, ◌/◌, ◌%◌, ◌^◌, ◌<◌, true, false, [], ◌∷◌, ◌++◌, ◌≡◌, refl, sym, ap, arith,
  ◌==◌, if◌then◌else◌, Option, none, some, inl, inr, ==_iff, bit_or, bit_and, Bool-cases, ◌&&◌,
}
use o.Prelude.Int.{wrap, signed}
use o.Prelude.Tables.{holds_below, holds_below-lookup}
use o.Backend.CodeBuf.{Bytes, CodeBuf, u8, u32_bytes, le_bytes, codebuf_emit_byte}
use o.Backend.Asm.{X64Reg, ext}
use o.Backend.Bytes.{emit_byte-buf}
use o.Backend.Mov.{rex_b_if}
use o.Backend.Decode.{Rex, decode_rex, extend}
use o.Backend.Prefix.{emit_rex-buf}

unfoldable pub take_le : ℕ → Bytes → Option (ℕ × Bytes)
take_le zero bs = some (0, bs)
take_le (suc n) [] = none
take_le (suc n) (b ∷ bs) = elim (take_le n bs) [
  | none ↦ none
  | some (v, rest) ↦ some (b + 256 * v, rest)
]

-- A register and the value that it gets, from an immediate that is read and then extended.
abbrev pub load : ℕ → (ℕ → ℕ) → Option (ℕ × Bytes) → Option (ℕ × ℕ × Bytes)
load r extend_value none = none
load r extend_value (some (v, rest)) = some (r, extend_value v, rest)

pub sign_extend32 : ℕ → ℕ
sign_extend32 v = wrap (2 ^ 64) (signed (2 ^ 32) v)

-- The manual's moves of an immediate to a 64-bit register, as the register and its new value:
-- 0xB8+r with REX.W takes eight bytes, 0xB8+r alone takes four and clears the upper half, and 0xC7 /0 with
-- REX.W takes four and extends their sign.
unfoldable pub decode_load : Rex → Bytes → Option (ℕ × ℕ × Bytes)
unfolding sign_extend32
decode_load rex [] = none
decode_load rex (opcode ∷ []) = none
decode_load rex (opcode ∷ c ∷ bs) =
    if opcode / 8 == 23
    then load (extend rex.b (opcode % 8)) (λ v. v) (take_le (if rex.w then 8 else 4) (c ∷ bs))
    else if opcode == 0xC7 && rex.w && c / 64 == 3 && c / 8 % 8 == 0
    then load (extend rex.b (c % 8)) sign_extend32 (take_le 4 bs)
    else none

unfoldable pub decode_mov_imm : Bytes → Option (ℕ × ℕ × Bytes)
decode_mov_imm bs = let (rex, rest) = decode_rex bs in decode_load rex rest

pub take_le-u32_bytes :
    (w : ℕ) (rest : Bytes) → w < 2 ^ 32 → take_le 4 (u32_bytes w ++ rest) ≡ some (w, rest)
unfolding take_le
take_le-u32_bytes w rest h = ap (λ (v : ℕ). some (v, rest)) (omega arith)

pub take_le-le_bytes :
    (w : ℕ) (rest : Bytes) → w < 2 ^ 64 → take_le 8 (le_bytes 8 0 w ++ rest) ≡ some (w, rest)
unfolding take_le
take_le-le_bytes w rest h = ap (λ (v : ℕ). some (v, rest)) (omega arith)

opcode_table : holds_below (λ d. bit_or 0xB8 (bit_and d 7) == 0xB8 + d % 8) 16 ≡ true
unfolding holds_below
opcode_table = refl

opcode_lem : (d : ℕ) → d < 16 → bit_or 0xB8 (bit_and d 7) ≡ 0xB8 + d % 8
opcode_lem d h =
    (==_iff _ _).0
      (holds_below-lookup (λ d. bit_or 0xB8 (bit_and d 7) == 0xB8 + d % 8) 16 d opcode_table h)

pub emit_opcode-buf :
    (cb : CodeBuf) (d : ℕ)
    → d < 16
    → (codebuf_emit_byte cb (bit_or 0xB8 (bit_and d 7))).buf ≡ cb.buf ++ (0xB8 + d % 8) ∷ []
emit_opcode-buf cb d h =
    let small : u8 (0xB8 + d % 8) ≡ 0xB8 + d % 8 = omega arith in
    rw (emit_byte-buf, opcode_lem d h, small)

unfoldable pub rex_b_bytes : X64Reg → Bytes
rex_b_bytes d = if ext d then 0x41 ∷ [] else []

pub rex_b_if-buf : (cb : CodeBuf) (d : ℕ) → (rex_b_if cb d).buf ≡ cb.buf ++ rex_b_bytes d
unfolding rex_b_if rex_b_bytes
rex_b_if-buf cb d = elim (Bool-cases (ext d)) [
  | inl e ↦ rw e (emit_rex-buf cb false false false true)
  | inr e ↦ rw e (sym (append-nil cb.buf))
]
