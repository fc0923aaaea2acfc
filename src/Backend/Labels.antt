-- ===== src/Backend/Labels.antt =====
-- src/backend/x64.c, "Fixup / Label tables": label offsets, and the 32-bit displacements that are
-- patched once every label has its offset. `none` is a failed assertion or a panic.
use o.Prelude.{
  ℕ, ◌+◌, ◌-◌, ◌*◌, ◌%◌, ◌^◌, Bool, true, List, [], ◌∷◌, ◌++◌, Option, none, some, ltb, leb, ◌==◌,
  if◌then◌else◌, length, set, get_or, replicate,
}
use o.Prelude.Int.{ℤ, signed}
use o.Backend.CodeBuf.{CodeBuf, codebuf_patch_i32}

pub record Fixup : Type 0 where
  pub offset : ℕ
  pub label_id : ℕ
  pub is_rel32 : Bool

-- `count` is the length of `table`.
pub record FixupTable : Type 0 where
  pub table : List Fixup
  pub cap : ℕ

unfoldable pub fixup_table_init : FixupTable
fixup_table_init = record { table = []; cap = 0 }

unfoldable pub fixup_add : FixupTable → ℕ → ℕ → FixupTable
fixup_add ft off label_id =
    let count = length ft.table in
    let grown = if ltb 0 ft.cap then ft.cap * 2 else 64 in
    record {
      table = ft.table ++ (record { offset = off; label_id = label_id; is_rel32 = true } ∷ []);
      cap = if count == ft.cap then grown else ft.cap;
    }

-- `count` is the length of `offsets`.
pub record LabelTable : Type 0 where
  pub offsets : List ℕ
  pub cap : ℕ

unfoldable pub label_table_init : LabelTable
label_table_init = record { offsets = []; cap = 64 }

-- `(usize)-1`
abbrev pub undefined_label : ℕ
undefined_label = 2 ^ 64 - 1

-- The labels up to `label_id` get the marker, those that the table has keep their offsets.
abbrev pub fill_labels : List ℕ → ℕ → List ℕ
fill_labels offsets label_id = offsets ++ replicate (label_id + 1 - length offsets) undefined_label

unfoldable pub label_define : LabelTable → ℕ → ℕ → Option LabelTable
label_define lt label_id offset =
    if leb lt.cap label_id
    then none
    else some (record lt { offsets = set (fill_labels lt.offsets label_id) label_id offset })

-- `(i32)((isize)target - (isize)(f->offset + 4))`
unfoldable pub rel32 : ℕ → ℕ → ℤ
rel32 target off = signed (2 ^ 32) ((target + 2 ^ 64 - (off + 4) % 2 ^ 64) % 2 ^ 32)

-- The body of the loop for one fixup.
unfoldable pub fixup_resolve : LabelTable → Fixup → CodeBuf → Option CodeBuf
fixup_resolve lt f cb =
    if ltb f.label_id (length lt.offsets)
    then some (codebuf_patch_i32 cb f.offset (rel32 (get_or lt.offsets f.label_id 0) f.offset))
    else none

infixl 5 ◌>>=◌
abbrev pub ◌>>=◌ {ℓ κ} : {A : Type ℓ} {B : Type κ} → Option A → (A → Option B) → Option B
none >>= f = none
some a >>= f = f a

unfoldable pub resolve_from : List Fixup → LabelTable → CodeBuf → Option CodeBuf
resolve_from [] lt cb = some cb
resolve_from (f ∷ fs) lt cb = do cb' ← fixup_resolve lt f cb; resolve_from fs lt cb'

unfoldable pub fixup_resolve_all : FixupTable → LabelTable → CodeBuf → Option CodeBuf
fixup_resolve_all ft lt cb = resolve_from ft.table lt cb
