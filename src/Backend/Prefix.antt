-- ===== src/Backend/Prefix.antt =====
-- The prefixes that src/backend/x64.c writes for a two-operand instruction, against the decoder.
use mathlib.Core.List.{append-nil}
use o.Prelude.{
  ℕ, ◌+◌, ◌/◌, ◌<◌, Bool, true, false, [], ◌∷◌, ◌++◌, ◌≡◌, sym, arith, ◌==◌, if◌then◌else◌, ◌||◌,
  not, ◌≢◌, Bool-cases, inl, inr,
}
use o.Backend.CodeBuf.{Bytes, CodeBuf, u8}
use o.Backend.Asm.{X64Reg, rex_byte, emit_rex, emit_rex_forced, bit_if, maybe_size16, ext}
use o.Backend.Bytes.{emit_byte-buf, rex_byte_lem}
use o.Backend.Mov.{rex_for}
use o.Backend.Decode.{Rex, no_rex, decode_rex, decode_prefix}

-- The operand sizes that the callers pass.
pub data OpSize : Type 0 where
  byte word dword qword : OpSize

abbrev pub bytes_of : OpSize → ℕ
bytes_of byte = 1
bytes_of word = 2
bytes_of dword = 4
bytes_of qword = 8

-- A 16-bit instruction gets no REX prefix, so it can name the low registers only.
abbrev pub Nameable : OpSize → X64Reg → X64Reg → Type 0
Nameable word reg rm = (reg < 8) × (rm < 8)
Nameable _ reg rm = Unit {0}

abbrev pub is_word : OpSize → Bool
is_word word = true
is_word _ = false

-- The prefix that the instruction has in the end.
abbrev pub rex_of : OpSize → X64Reg → X64Reg → Rex
rex_of byte reg rm = record { present = true; w = false; r = ext reg; x = false; b = ext rm }
rex_of word reg rm = no_rex
rex_of dword reg rm = record {
  present = ext reg || ext rm;
  w = false;
  r = ext reg;
  x = false;
  b = ext rm;
}
rex_of qword reg rm = record { present = true; w = true; r = ext reg; x = false; b = ext rm }

abbrev pub rex_value : Rex → ℕ
rex_value rex = 64 + bit_if rex.w 8 + bit_if rex.r 4 + bit_if rex.x 2 + bit_if rex.b 1

abbrev rex_bytes : Rex → Bytes
rex_bytes rex = if rex.present then rex_value rex ∷ [] else []

abbrev pub prefix_bytes : OpSize → X64Reg → X64Reg → Bytes
prefix_bytes s reg rm = (if is_word s then 0x66 ∷ [] else []) ++ rex_bytes (rex_of s reg rm)

rex_byte-u8 :
    (w r x b : Bool)
    → u8 (rex_byte w r x b) ≡ 64 + bit_if w 8 + bit_if r 4 + bit_if x 2 + bit_if b 1
rex_byte-u8 w r x b = ground (arith, rex_byte_lem w r x b)

pub emit_rex_forced-buf :
    (cb : CodeBuf) (w r x b : Bool)
    → (emit_rex_forced cb w r x b).buf
      ≡ cb.buf ++ (64 + bit_if w 8 + bit_if r 4 + bit_if x 2 + bit_if b 1) ∷ []
unfolding emit_rex_forced
emit_rex_forced-buf cb w r x b = rw (emit_byte-buf, rex_byte-u8)

emit_rex_test : (w r x b : Bool) → (not (rex_byte w r x b == 0x40) || w) ≡ (w || r || x || b)
emit_rex_test w r x b = ground (arith, rex_byte_lem w r x b)

-- The prefix is left out only where it would say nothing.
pub emit_rex-buf :
    (cb : CodeBuf) (w r x b : Bool)
    → (emit_rex cb w r x b).buf
      ≡ cb.buf ++ rex_bytes (record { present = w || r || x || b; w = w; r = r; x = x; b = b })
unfolding emit_rex
emit_rex-buf cb w r x b = elim (Bool-cases (w || r || x || b)) [
  | inl some_bit ↦ rw (emit_rex_test w r x b, some_bit) (rw (emit_byte-buf, rex_byte-u8))
  | inr no_bit ↦ rw (emit_rex_test w r x b, no_bit) (sym (append-nil cb.buf))
]

pub decode_rex-rex_value :
    (w r x b : Bool) (bs : Bytes)
    → decode_rex ((64 + bit_if w 8 + bit_if r 4 + bit_if x 2 + bit_if b 1) ∷ bs)
      ≡ (record { present = true; w = w; r = r; x = x; b = b }, bs)
unfolding decode_rex
decode_rex-rex_value w r x b bs = ground arith

pub rex_for-buf :
    (cb : CodeBuf) (s : OpSize) (reg rm : X64Reg)
    → Nameable s reg rm
    → (rex_for (maybe_size16 cb (bytes_of s)) (bytes_of s) reg rm).buf
      ≡ cb.buf ++ prefix_bytes s reg rm
unfolding rex_for maybe_size16
rex_for-buf cb byte reg rm h = emit_rex_forced-buf cb false (ext reg) false (ext rm)
rex_for-buf cb word reg rm h = emit_byte-buf cb 0x66
rex_for-buf cb dword reg rm h = elim (Bool-cases (ext reg || ext rm)) [
  | inl extended ↦ ground (arith, emit_rex-buf cb false (ext reg) false (ext rm))
  | inr low ↦ rw low (sym (append-nil cb.buf))
]
rex_for-buf cb qword reg rm h = emit_rex-buf cb true (ext reg) false (ext rm)

-- An opcode byte that is no prefix.
abbrev pub IsOpcode : ℕ → Type 0
IsOpcode c = (c ≢ 0x66) × (c / 16 ≢ 4)

decode_rex-opcode : (c : ℕ) (bs : Bytes) → c / 16 ≢ 4 → decode_rex (c ∷ bs) ≡ (no_rex, c ∷ bs)
unfolding decode_rex
decode_rex-opcode c bs h = ground arith

-- No REX prefix is the operand-size prefix.
decode_prefix-rex_value :
    (w r x b : Bool) (bs : Bytes)
    → decode_prefix ((64 + bit_if w 8 + bit_if r 4 + bit_if x 2 + bit_if b 1) ∷ bs)
      ≡ (false, record { present = true; w = w; r = r; x = x; b = b }, bs)
unfolding decode_prefix
decode_prefix-rex_value w r x b bs = ground (arith, decode_rex-rex_value w r x b bs)

decode_prefix-opcode :
    (c : ℕ) (bs : Bytes) → IsOpcode c → decode_prefix (c ∷ bs) ≡ (false, no_rex, c ∷ bs)
unfolding decode_prefix
decode_prefix-opcode c bs k = ground (arith, decode_rex-opcode c bs k.1)

pub decode_prefix-prefix_bytes :
    (s : OpSize) (reg rm : X64Reg) (c : ℕ) (bs : Bytes)
    → Nameable s reg rm
    → IsOpcode c
    → decode_prefix (prefix_bytes s reg rm ++ (c ∷ bs)) ≡ (is_word s, rex_of s reg rm, c ∷ bs)
decode_prefix-prefix_bytes byte reg rm c bs h k =
    decode_prefix-rex_value false (ext reg) false (ext rm) (c ∷ bs)
decode_prefix-prefix_bytes word reg rm c bs h k =
    unfold decode_prefix in rw (decode_rex-opcode c bs k.1)
decode_prefix-prefix_bytes dword reg rm c bs h k = elim (Bool-cases (ext reg || ext rm)) [
  | inl extended ↦ rw extended (decode_prefix-rex_value false (ext reg) false (ext rm) (c ∷ bs))
  | inr low ↦ rw low (ground (arith, decode_prefix-opcode c bs k))
]
decode_prefix-prefix_bytes qword reg rm c bs h k =
    decode_prefix-rex_value true (ext reg) false (ext rm) (c ∷ bs)
