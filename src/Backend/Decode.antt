-- ===== src/Backend/Decode.antt =====
-- A reference decoder for the instruction formats that src/backend/x64.c writes, after the
-- instruction set's manual: prefixes, one-byte opcodes, ModRM, SIB and displacements. It is the
-- specification of the encoders and calls none of them.
use o.Prelude.{
  ℕ, ◌+◌, ◌*◌, ◌/◌, ◌%◌, ◌^◌, Bool, true, false, not, ◌&&◌, [], ◌∷◌, Option, none, some, ◌==◌, leb,
  if◌then◌else◌,
}
use o.Prelude.Int.{ℤ, pos, signed}
use o.Backend.CodeBuf.{Bytes}

pub record Rex : Type 0 where
  pub present : Bool
  pub w : Bool
  pub r : Bool
  pub x : Bool
  pub b : Bool

abbrev pub no_rex : Rex
no_rex = record { present = false; w = false; r = false; x = false; b = false }

abbrev pub odd : ℕ → Bool
odd n = n % 2 == 1

-- 0x40 to 0x4F is a REX prefix.
unfoldable pub decode_rex : Bytes → Rex × Bytes
decode_rex [] = (no_rex, [])
decode_rex (c ∷ bs) =
    if c / 16 == 4
    then (
      record { present = true; w = odd (c / 8); r = odd (c / 4); x = odd (c / 2); b = odd c },
      bs,
    )
    else (no_rex, c ∷ bs)

-- The operand of r/m: a register, or memory at a base register and a displacement.
pub data Operand : Type 0 where
  direct : ℕ → Operand
  indirect : ℕ → ℤ → Operand

abbrev pub extend : Bool → ℕ → ℕ
extend b r = if b then r + 8 else r

unfoldable pub decode_disp8 : ℕ → Bytes → Option (Operand × Bytes)
decode_disp8 base [] = none
decode_disp8 base (b0 ∷ bs) = some (indirect base (signed (2 ^ 8) b0), bs)

abbrev pub le32 : ℕ → ℕ → ℕ → ℕ → ℕ
le32 b0 b1 b2 b3 = b0 + b1 * 2 ^ 8 + b2 * 2 ^ 16 + b3 * 2 ^ 24

unfoldable pub decode_disp32 : ℕ → Bytes → Option (Operand × Bytes)
decode_disp32 base (b0 ∷ b1 ∷ b2 ∷ b3 ∷ bs) =
    some (indirect base (signed (2 ^ 32) (le32 b0 b1 b2 b3)), bs)
decode_disp32 base _ = none

-- The displacement by the mode: none, one byte, or four bytes.
unfoldable pub decode_disp : ℕ → ℕ → Bytes → Option (Operand × Bytes)
unfolding decode_disp8 decode_disp32
decode_disp m base bs =
    if m == 0
    then some (indirect base (pos 0), bs)
    else if m == 1
    then decode_disp8 base bs
    else decode_disp32 base bs

-- A SIB byte with no index (index 4 and REX.X clear), and a base.
unfoldable pub decode_sib : Rex → ℕ → Bytes → Option (Operand × Bytes)
decode_sib rex m [] = none
decode_sib rex m (s ∷ bs) =
    if s / 8 % 8 == 4 && not rex.x && not (m == 0 && s % 8 == 5)
    then decode_disp m (extend rex.b (s % 8)) bs
    else none

-- The r/m operand by the mode and the r/m field. Mode 0 with r/m 5 is relative to the instruction
-- pointer, which the encoders never write.
unfoldable pub decode_operand : Rex → ℕ → ℕ → Bytes → Option (Operand × Bytes)
decode_operand rex m rm bs =
    if m == 3
    then some (direct (extend rex.b rm), bs)
    else if rm == 4
    then decode_sib rex m bs
    else if m == 0 && rm == 5
    then none
    else decode_disp m (extend rex.b rm) bs

-- The register field and the r/m operand, by the three fields of a ModRM byte.
unfoldable pub decode_fields : Rex → ℕ → ℕ → ℕ → Bytes → Option (ℕ × Operand × Bytes)
decode_fields rex m r rm bs = elim (decode_operand rex m rm bs) [
  | none ↦ none
  | some (operand, rest) ↦ some (extend rex.r r, operand, rest)
]

-- A ModRM byte with what follows it.
unfoldable pub decode_modrm : Rex → Bytes → Option (ℕ × Operand × Bytes)
decode_modrm rex [] = none
decode_modrm rex (c ∷ bs) = decode_fields rex (c / 64) (c / 8 % 8) (c % 8) bs

-- The operand-size prefix, and then a REX prefix.
unfoldable pub decode_prefix : Bytes → Bool × Rex × Bytes
decode_prefix [] = (false, no_rex, [])
decode_prefix (c ∷ bs) =
    if c == 0x66
    then (let (rex, rest) = decode_rex bs in (true, rex, rest))
    else (let (rex, rest) = decode_rex (c ∷ bs) in (false, rex, rest))

-- An instruction with a ModRM byte: its operand size in bytes, its opcode, the register of the
-- register field and the r/m operand.
pub record Insn : Type 0 where
  pub size : ℕ
  pub opcode : ℕ
  pub field : ℕ
  pub operand : Operand

-- An even opcode works on bytes.
abbrev pub op_size : Bool → Rex → ℕ → ℕ
op_size size16 rex opcode = if odd opcode then (if rex.w then 8 else if size16 then 2 else 4) else 1

-- Without a REX prefix the byte registers 4 to 7 are AH, CH, DH and BH, here 16 to 19.
abbrev pub byte_reg : ℕ → Rex → ℕ → ℕ
byte_reg size rex r = if size == 1 && not rex.present && leb 4 r && leb r 7 then r + 12 else r

abbrev pub byte_operand : ℕ → Rex → Operand → Operand
byte_operand size rex (direct r) = direct (byte_reg size rex r)
byte_operand size rex (indirect base disp) = indirect base disp

-- Behind the prefixes: the opcode and the operands.
unfoldable pub decode_body : Bool → Rex → Bytes → Option (Insn × Bytes)
decode_body size16 rex [] = none
decode_body size16 rex (opcode ∷ bs) = elim (decode_modrm rex bs) [
  | none ↦ none
  | some (r, operand, rest) ↦ some (
    record {
      size = op_size size16 rex opcode;
      opcode = opcode;
      field = byte_reg (op_size size16 rex opcode) rex r;
      operand = byte_operand (op_size size16 rex opcode) rex operand;
    },
    rest,
  )
]

unfoldable pub decode : Bytes → Option (Insn × Bytes)
decode bs = let (size16, rex, rest) = decode_prefix bs in decode_body size16 rex rest
