-- ===== src/Backend/Operand.antt =====
-- `emit_mem_opnd` of src/backend/x64.c against the decoder.
use mathlib.Core.List.{append_assoc, append-nil}
use o.Prelude.{
  ℕ, zero, suc, ◌+◌, ◌*◌, ◌/◌, ◌%◌, ◌^◌, ◌<◌, true, false, [], ◌∷◌, ◌++◌, ◌≡◌, refl, sym, ap, ◌∙◌,
  arith, ◌==◌, if◌then◌else◌, some, not, ◌&&◌, ◌≢◌, Bool-cases, inl, inr,
}
use o.Prelude.Int.{ℤ, pos, negsuc, wrap, signed, FitsSigned, signed-wrap, wrap32-lt}
use o.Backend.CodeBuf.{Bytes, CodeBuf, u8, u32_bytes, codebuf_emit_byte}
use o.Backend.Asm.{
  X64Reg, emit_mem_opnd, emit_base_sib, modrm, sib_byte, is_zero, fits_i8, u8_of, ext,
}
use o.Backend.Bytes.{buffers, low3, emit_byte-buf, buffers, emit_modrm-buf}
use o.Backend.Decode.{
  Rex, indirect, le32, extend, decode_disp, decode_sib, decode_operand, decode_fields, decode_modrm,
  direct,
}

-- The three modes of the source: no displacement, 8 bits and 32 bits.
abbrev pub mode : X64Reg → ℤ → ℕ
mode base disp = if is_zero disp && not (base % 8 == 5) then 0 else if fits_i8 disp then 1 else 2

abbrev pub disp_bytes : ℕ → ℤ → Bytes
disp_bytes m disp =
    if m == 0 then [] else if m == 1 then u8 (u8_of disp) ∷ [] else u32_bytes (wrap (2 ^ 32) disp)

abbrev pub base_sib : X64Reg → Bytes
base_sib base = if base % 8 == 4 then 36 ∷ [] else []

-- The bytes of a memory operand.
abbrev pub mem_bytes : ℕ → X64Reg → ℤ → Bytes
mem_bytes reg base disp =
    (mode base disp * 64 + reg * 8 + base % 8) ∷ (base_sib base ++ disp_bytes (mode base disp) disp)

u8_of-lt : (v : ℤ) → u8_of v < 256
unfolding wrap
u8_of-lt (pos n) = omega arith
u8_of-lt (negsuc n) = omega arith

signed8 : (v : ℤ) → fits_i8 v ≡ true → signed (2 ^ 8) (u8 (u8_of v)) ≡ v
unfolding signed wrap
signed8 (pos n) h = ground arith
signed8 (negsuc n) h = ground arith

le32-u32_bytes :
    (w : ℕ) → w < 2 ^ 32 → le32 (u8 w) (u8 (w / 2 ^ 8)) (u8 (w / 2 ^ 16)) (u8 (w / 2 ^ 24)) ≡ w
le32-u32_bytes w h = omega arith

-- A displacement of a mode that the encoder chooses is read back.
pub decode_disp-disp_bytes :
    (base : ℕ) (disp : ℤ) (m : ℕ) (rest : Bytes)
    → m < 3
    → (m ≡ 0 → disp ≡ pos 0)
    → (m ≡ 1 → fits_i8 disp ≡ true)
    → FitsSigned (2 ^ 31) disp
    → decode_disp m base (disp_bytes m disp ++ rest) ≡ some (indirect base disp, rest)
unfolding decode_disp
decode_disp-disp_bytes base disp zero rest h zero_is small f = rw (zero_is refl)
decode_disp-disp_bytes base disp (suc zero) rest h zero_is small f =
    ap (λ v. some (indirect base v, rest)) (signed8 disp (small refl))
decode_disp-disp_bytes base disp (suc (suc zero)) rest h zero_is small f =
    ap (λ v. some (indirect base v, rest))
      (ap (signed (2 ^ 32)) (le32-u32_bytes (wrap (2 ^ 32) disp) (wrap32-lt disp))
        ∙ signed-wrap (2 ^ 31) disp f)
decode_disp-disp_bytes base disp (suc (suc (suc m))) rest h zero_is small f = absurd (omega arith)

emit_base_sib-buf :
    (cb : CodeBuf) (base : ℕ) → (emit_base_sib cb (base % 8)).buf ≡ cb.buf ++ base_sib base
unfolding emit_base_sib sib_byte
emit_base_sib-buf cb base = elim (Bool-cases (base % 8 == 4)) [
  | inl t ↦ rw t (emit_byte-buf cb 36)
  | inr t ↦ rw t (sym (append-nil cb.buf))
]

pub emit_mem_opnd-buf :
    (cb : CodeBuf) (reg base : ℕ) (disp : ℤ)
    → reg < 8
    → base < 16
    → (emit_mem_opnd cb reg base disp).buf ≡ cb.buf ++ mem_bytes reg base disp
unfolding emit_mem_opnd
emit_mem_opnd-buf cb reg base disp hr hb =
    rw (low3 base hb) (elim (Bool-cases (is_zero disp && not (base % 8 == 5))) [
      | inl z ↦ rw z (simp (emit_base_sib-buf, modrm_buf 0 (omega arith), append_assoc, append-nil))
      | inr z ↦ elim (Bool-cases (fits_i8 disp)) [
        | inl s ↦ rw (z, s) (simp (emit_base_sib-buf, modrm_buf 1 (omega arith), buffers))
        | inr s ↦ rw (z, s) (simp (emit_base_sib-buf, modrm_buf 2 (omega arith), buffers))
      ]
    ])
  where
    modrm_buf :
        (m : ℕ)
        → m < 4
        → (codebuf_emit_byte cb (modrm m reg (base % 8))).buf
          ≡ cb.buf ++ (m * 64 + reg * 8 + base % 8) ∷ []
    modrm_buf m h = emit_modrm-buf cb m reg (base % 8) h hr (omega arith)

mode-lt : (base : ℕ) (disp : ℤ) → mode base disp < 3
mode-lt base disp = ground arith

is_zero→≡ : (v : ℤ) → is_zero v ≡ true → v ≡ pos 0
is_zero→≡ (pos n) h = ground arith
is_zero→≡ (negsuc n) h = ground arith

mode_zero : (base : ℕ) (disp : ℤ) → mode base disp ≡ 0 → (disp ≡ pos 0) × (base % 8 ≢ 5)
mode_zero base disp h = ground (arith, is_zero→≡ disp)

mode_one : (base : ℕ) (disp : ℤ) → mode base disp ≡ 1 → fits_i8 disp ≡ true
mode_one base disp h = ground arith

pub extend-low : (base : ℕ) → base < 16 → extend (ext base) (base % 8) ≡ base
extend-low base h = ground arith

pub modrm_fields :
    (m reg rm : ℕ)
    → reg < 8
    → rm < 8
    → ((m * 64 + reg * 8 + rm) % 8 ≡ rm)
      × ((m * 64 + reg * 8 + rm) / 8 % 8 ≡ reg)
      × ((m * 64 + reg * 8 + rm) / 64 ≡ m)
modrm_fields m reg rm hr hb = omega arith

module _ (rex : Rex) (reg base : ℕ) (disp : ℤ) (hr : reg < 8) (hb : base < 16)
    (rex_b : rex.b ≡ ext base) (rex_x : rex.x ≡ false) (f : FitsSigned (2 ^ 31) disp) where
  decode_disp_at :
      (rest : Bytes)
      → decode_disp (mode base disp) base (disp_bytes (mode base disp) disp ++ rest)
        ≡ some (indirect base disp, rest)
  decode_disp_at rest =
      decode_disp-disp_bytes base disp (mode base disp) rest (mode-lt base disp)
        (λ e. (mode_zero base disp e).0) (mode_one base disp) f

  decode_operand_at :
      (m : ℕ) (rest : Bytes)
      → m ≡ mode base disp
      → decode_operand rex m (base % 8) (base_sib base ++ (disp_bytes m disp ++ rest))
        ≡ some (indirect base disp, rest)
  unfolding decode_operand decode_sib
  decode_operand_at m rest e =
      ground
        (arith, mode-lt base disp, mode_zero base disp, extend-low base hb, decode_disp_at rest)

  decode_fields_at :
      (m : ℕ) (rest : Bytes)
      → m ≡ mode base disp
      → decode_fields rex m reg (base % 8) (base_sib base ++ (disp_bytes m disp ++ rest))
        ≡ some (extend rex.r reg, indirect base disp, rest)
  unfolding decode_fields
  decode_fields_at m rest e = rw (decode_operand_at m rest e, decode_fields)

  -- A memory operand is read back: its register field, its base and its displacement.
  pub decode_modrm-mem_bytes :
      (rest : Bytes)
      → decode_modrm rex (mem_bytes reg base disp ++ rest)
        ≡ some (extend rex.r reg, indirect base disp, rest)
  unfolding decode_modrm
  decode_modrm-mem_bytes rest =
      let m : ℕ = mode base disp in
      let (low, middle, high) = modrm_fields m reg (base % 8) hr (omega arith) in
      rw (low, middle, high, append_assoc) (decode_fields_at m rest refl)

module _ (rex : Rex) (r rm : ℕ) (hr : r < 8) (hb : rm < 8) where
  -- A register operand is read back.
  pub decode_modrm_reg :
      (rest : Bytes)
      → decode_modrm rex ((3 * 64 + r * 8 + rm) ∷ rest)
        ≡ some (extend rex.r r, direct (extend rex.b rm), rest)
  unfolding decode_modrm decode_fields decode_operand
  decode_modrm_reg rest =
      let (low, middle, high) = modrm_fields 3 r rm hr hb in rw (low, middle, high)
