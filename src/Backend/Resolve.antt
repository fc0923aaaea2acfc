-- ===== src/Backend/Resolve.antt =====
-- `fixup_resolve_all` and the jump encoders of src/backend/x64.c: when every label is defined, each
-- jump displacement leads to its label.

use o.Prelude.{
  ℕ, ◌+◌, ◌-◌, ◌^◌, ◌≤◌, ◌<◌, List, [], ◌∷◌, ◌++◌, Option-cases, inl, inr, ◌≡◌, refl, ◌∙◌, arith,
  if◌then◌else◌, some, none, ltb, length, get_or, ◌⊎◌, All, lt→ltb,
}
use o.Prelude.Int.{ℤ, pos, negsuc, wrap, signed}
use o.Backend.CodeBuf.{Bytes, CodeBuf, codebuf_patch_i32, len}
use o.Backend.Labels.{
  Fixup, FixupTable, LabelTable, rel32, fixup_resolve, resolve_from, fixup_resolve_all,
}
use o.Backend.Patch.{read32, length-patch, get_or-patch_ne, read32-patch}

-- Where a jump leads: the displacement counts from the byte behind it.
abbrev pub displaced : ℕ → ℤ → ℤ
displaced p (pos n) = pos (p + n)
displaced p (negsuc n) = if ltb n p then pos (p - 1 - n) else negsuc (n - p)

abbrev pub jump_target : Bytes → ℕ → ℤ
jump_target bs off = displaced (off + 4) (signed (2 ^ 32) (read32 bs off))

-- Two fixups write to different bytes.
abbrev pub Apart : Fixup → Fixup → Type 0
Apart f g = (f.offset + 4 ≤ g.offset) ⊎ (g.offset + 4 ≤ f.offset)

abbrev pub AllApart : List Fixup → Type 0
AllApart [] = Unit
AllApart (f ∷ fs) = All (Apart f) fs × AllApart fs

-- The fixup lies in the code, its label is defined, and offsets fit 31 bits.
pub record CanResolve (lt : LabelTable) (n : ℕ) (f : Fixup) : Type 0 where
  pub inside : f.offset + 4 ≤ n
  pub small : f.offset + 4 < 2 ^ 31
  pub listed : f.label_id < length lt.offsets
  pub target_small : get_or lt.offsets f.label_id 0 < 2 ^ 31

abbrev pub Reaches : LabelTable → Bytes → Fixup → Type 0
Reaches lt bs f = jump_target bs f.offset ≡ pos (get_or lt.offsets f.label_id 0)

-- The byte at `j` belongs to no fixup.
abbrev pub Outside : ℕ → Fixup → Type 0
Outside j f = (j < f.offset) ⊎ (f.offset + 4 ≤ j)

rel32-reaches :
    (target off : ℕ)
    → target < 2 ^ 31
    → off + 4 < 2 ^ 31
    → displaced (off + 4) (signed (2 ^ 32) (wrap (2 ^ 32) (rel32 target off))) ≡ pos target
unfolding rel32 signed wrap
rel32-reaches target off ht ho = ground arith

-- One patch leads its own jump to the label, and the other fixups' bytes stay.
read32-patch_apart :
    (cb : CodeBuf) (off other : ℕ) (v : ℤ)
    → (other + 4 ≤ off) ⊎ (off + 4 ≤ other)
    → read32 (codebuf_patch_i32 cb off v).buf other ≡ read32 cb.buf other
read32-patch_apart cb off other v h =
    let e0 = get_or-patch_ne cb off (other + 0) v (omega arith) in
    let e1 = get_or-patch_ne cb off (other + 1) v (omega arith) in
    let e2 = get_or-patch_ne cb off (other + 2) v (omega arith) in
    let e3 = get_or-patch_ne cb off (other + 3) v (omega arith) in rw (e0, e1, e2, e3)

-- What resolving the fixups `fs` in the buffer `cb` gives.
pub record Resolved (lt : LabelTable) (fs : List Fixup) (cb cb' : CodeBuf) : Type 0 where
  pub result : resolve_from fs lt cb ≡ some cb'
  pub same_length : len cb' ≡ len cb
  pub reaches : All (Reaches lt cb'.buf) fs
  pub others :
      (off : ℕ)
      → All (λ f. (off + 4 ≤ f.offset) ⊎ (f.offset + 4 ≤ off)) fs
      → read32 cb'.buf off ≡ read32 cb.buf off
  pub untouched : (j : ℕ) → All (Outside j) fs → get_or cb'.buf j 0 ≡ get_or cb.buf j 0

fixup_resolve-some :
    (lt : LabelTable) (f : Fixup) (cb : CodeBuf)
    → CanResolve lt (len cb) f
    → fixup_resolve lt f cb
      ≡ some (codebuf_patch_i32 cb f.offset (rel32 (get_or lt.offsets f.label_id 0) f.offset))
unfolding fixup_resolve
fixup_resolve-some lt f cb can = rw (lt→ltb f.label_id (length lt.offsets) can.listed)

pub resolve_from-Resolved :
    (lt : LabelTable) (fs : List Fixup) (cb : CodeBuf)
    → AllApart fs
    → All (CanResolve lt (len cb)) fs
    → (cb' : CodeBuf) × Resolved lt fs cb cb'
unfolding resolve_from
resolve_from-Resolved lt [] cb apart can = (
  cb,
  record {
    result = refl;
    same_length = refl;
    reaches = tt;
    others = λ off h. refl;
    untouched = λ j h. refl;
  },
)
resolve_from-Resolved lt (f ∷ fs) cb (away, apart) (can, cans) =
    let v = rel32 (get_or lt.offsets f.label_id 0) f.offset in
    let cb1 = codebuf_patch_i32 cb f.offset v in
    let same : len cb1 ≡ len cb = length-patch cb f.offset v in
    let (cb', r) = resolve_from-Resolved lt fs cb1 apart (rw same cans) in
    (
      cb',
      record {
        result = rw (fixup_resolve-some lt f cb can) r.result;
        same_length = r.same_length ∙ same;
        reaches = (
          rw (r.others f.offset away, read32-patch cb f.offset v can.inside)
              (rel32-reaches (get_or lt.offsets f.label_id 0) f.offset can.target_small can.small),
          r.reaches,
        );
        others = λ off h. r.others off h.1 ∙ read32-patch_apart cb f.offset off v h.0;
        untouched = λ j h. r.untouched j h.1 ∙ get_or-patch_ne cb f.offset j v h.0;
      },
    )

-- Where the fixups write to different bytes, each lies in the code, each label has an entry in the
-- table, and the labels' and fixups' offsets are below 2 ^ 31, resolving the fixups succeeds and
-- leaves the code's length as it is, and every jump leads to the offset of its label.
pub fixup_resolve_all-Reaches :
    (ft : FixupTable) (lt : LabelTable) (cb : CodeBuf)
    → AllApart ft.table
    → All (CanResolve lt (len cb)) ft.table
    → (cb' : CodeBuf) × (fixup_resolve_all ft lt cb ≡ some cb')
      × (len cb' ≡ len cb)
      × All (Reaches lt cb'.buf) ft.table
unfolding fixup_resolve_all
fixup_resolve_all-Reaches ft lt cb apart can =
    let (cb', r) = resolve_from-Resolved lt ft.table cb apart can in
    (cb', r.result, r.same_length, r.reaches)

-- Where the fixups write to different bytes, each lies in the code, each label has an entry in the
-- table, and the labels' and fixups' offsets are below 2 ^ 31, resolving the fixups succeeds, and
-- a byte of no fixup keeps its value.
pub fixup_resolve_all-untouched :
    (ft : FixupTable) (lt : LabelTable) (cb : CodeBuf) (j : ℕ)
    → AllApart ft.table
    → All (CanResolve lt (len cb)) ft.table
    → All (Outside j) ft.table
    → (cb' : CodeBuf) × (fixup_resolve_all ft lt cb ≡ some cb')
      × (get_or cb'.buf j 0 ≡ get_or cb.buf j 0)
unfolding fixup_resolve_all
fixup_resolve_all-untouched ft lt cb j apart can out =
    let (cb', r) = resolve_from-Resolved lt ft.table cb apart can in
    (cb', r.result, r.untouched j out)

no_label :
    (f : Fixup) (lt : LabelTable) (cb : CodeBuf)
    → length lt.offsets ≤ f.label_id
    → fixup_resolve lt f cb ≡ none
unfolding fixup_resolve
no_label f lt cb h = ground arith

resolve_from-none :
    (fs gs : List Fixup) (f : Fixup) (lt : LabelTable) (cb : CodeBuf)
    → length lt.offsets ≤ f.label_id
    → resolve_from (fs ++ f ∷ gs) lt cb ≡ none
unfolding resolve_from
resolve_from-none [] gs f lt cb h = rw (no_label f lt cb h) refl
resolve_from-none (g ∷ fs) gs f lt cb h = elim (Option-cases (fixup_resolve lt g cb)) [
  | inl q ↦ rw q refl
  | inr (cb', q) ↦ rw q (resolve_from-none fs gs f lt cb' h)
]

-- A fixup with no entry for its label in the table, wherever it stands among the fixups, stops the
-- compiler.
pub fixup_resolve_all-none :
    (ft : FixupTable) (lt : LabelTable) (cb : CodeBuf) (fs gs : List Fixup) (f : Fixup)
    → ft.table ≡ fs ++ f ∷ gs
    → length lt.offsets ≤ f.label_id
    → fixup_resolve_all ft lt cb ≡ none
unfolding fixup_resolve_all
fixup_resolve_all-none ft lt cb fs gs f e h = rw e (resolve_from-none fs gs f lt cb h)
