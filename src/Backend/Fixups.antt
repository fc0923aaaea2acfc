-- ===== src/Backend/Fixups.antt =====
-- The jump encoders of src/backend/x64.c keep the fixups in order and apart from one another.

use mathlib.Core.List.{append_assoc}
use o.Prelude.{
  ℕ, ◌+◌, ◌%◌, ◌^◌, ◌≤◌, length, true, List, [], ◌∷◌, ◌++◌, ◌≡◌, arith, inl, All, length-append,
}
use mathlib.Core.List.{append_assoc}
use o.Prelude.Int.{ℤ, wrap}
use o.Backend.CodeBuf.{Bytes, CodeBuf, len, u8, u32_bytes, codebuf_emit_byte, codebuf_emit_i32}
use o.Backend.Labels.{Fixup, fixup_add}
use o.Backend.Asm.{X64Asm}
use o.Backend.Bytes.{emit_i32-buf, emit_byte-buf}
use o.Backend.Jump.{x64_jmp, jcc_rel32, x64_call_label}
use o.Backend.Resolve.{Apart, AllApart}

-- Fixups lie in the code that is written, one behind the other.
abbrev pub Ordered : ℕ → List Fixup → Type 0
Ordered n [] = Unit
Ordered n (f ∷ fs) = (f.offset + 4 ≤ n) × All (λ g. f.offset + 4 ≤ g.offset) fs × Ordered n fs

Ordered-mono : (n m : ℕ) (fs : List Fixup) → n ≤ m → Ordered n fs → Ordered m fs
Ordered-mono n m [] h o = tt
Ordered-mono n m (f ∷ fs) h (i, a, o) = (omega arith, a, Ordered-mono n m fs h o)

All-concat :
    (n : ℕ) (f : Fixup) (fs : List Fixup)
    → All (λ g. n ≤ g.offset) fs
    → n ≤ f.offset
    → All (λ g. n ≤ g.offset) (fs ++ f ∷ [])
All-concat n f [] a h = (h, tt)
All-concat n f (g ∷ fs) (b, a) h = (b, All-concat n f fs a h)

Ordered-concat :
    (n m : ℕ) (f : Fixup) (fs : List Fixup)
    → Ordered n fs
    → n ≤ f.offset
    → f.offset + 4 ≤ m
    → Ordered m (fs ++ f ∷ [])
Ordered-concat n m f [] o h k = (k, tt, tt)
Ordered-concat n m f (g ∷ fs) (i, a, o) h k =
    (omega arith, All-concat (g.offset + 4) f fs a (omega arith), Ordered-concat n m f fs o h k)

pub Ordered-AllApart : (n : ℕ) (fs : List Fixup) → Ordered n fs → AllApart fs
Ordered-AllApart n [] o = tt
Ordered-AllApart n (f ∷ fs) (i, a, o) = (before fs a, Ordered-AllApart n fs o)
  where
    before : (gs : List Fixup) → All (λ g. f.offset + 4 ≤ g.offset) gs → All (Apart f) gs
    before [] b = tt
    before (g ∷ gs) (b, bs) = (inl b, before gs bs)

-- The encoders that leave a displacement to be patched.
pub data Branch : Type 0 where
  jmp call : Branch
  jcc : ℕ → Branch

abbrev pub emit_branch : Branch → X64Asm → ℕ → X64Asm
emit_branch jmp = x64_jmp
emit_branch call = x64_call_label
emit_branch (jcc code) = λ a id. jcc_rel32 a code id

-- The manual's opcode in front of the displacement.
abbrev pub branch_opcode : Branch → Bytes
branch_opcode jmp = 0xE9 ∷ []
branch_opcode call = 0xE8 ∷ []
branch_opcode (jcc code) = 0x0F ∷ code % 256 ∷ []

abbrev pub opcode_length : Branch → ℕ
opcode_length br = length (branch_opcode br)

abbrev no_displacement : Bytes
no_displacement = 0 ∷ 0 ∷ 0 ∷ 0 ∷ []

branch-buf :
    (br : Branch) (a : X64Asm) (id : ℕ)
    → (emit_branch br a id).cb.buf ≡ a.cb.buf ++ (branch_opcode br ++ no_displacement)
unfolding x64_jmp x64_call_label jcc_rel32 wrap
branch-buf jmp a id = rw (emit_i32-buf, emit_byte-buf) (simp append_assoc)
branch-buf call a id = rw (emit_i32-buf, emit_byte-buf) (simp append_assoc)
branch-buf (jcc code) a id = rw (emit_i32-buf, emit_byte-buf, emit_byte-buf) (simp append_assoc)

len-emit_byte : (cb : CodeBuf) (b : ℕ) → len (codebuf_emit_byte cb b) ≡ len cb + 1
len-emit_byte cb b = rw emit_byte-buf (length-append cb.buf (u8 b ∷ []))

len-emit_i32 : (cb : CodeBuf) (v : ℤ) → len (codebuf_emit_i32 cb v) ≡ len cb + 4
len-emit_i32 cb v = rw emit_i32-buf (length-append cb.buf (u32_bytes (wrap (2 ^ 32) v)))

abbrev fixup_at : ℕ → ℕ → Fixup
fixup_at off id = record { offset = off; label_id = id; is_rel32 = true }

-- The fixup of a branch whose displacement starts at `off`, in code that ends at `end`.
branch_Ordered :
    (n off expected id end : ℕ) (fs : List Fixup)
    → Ordered n fs
    → n ≤ expected
    → off ≡ expected
    → end ≡ off + 4
    → (fs ++ fixup_at off id ∷ [] ≡ fs ++ fixup_at expected id ∷ [])
      × Ordered end (fs ++ fixup_at off id ∷ [])
branch_Ordered n off expected id end fs o h e k =
    (rw e, Ordered-concat n end (fixup_at off id) fs o (omega arith) (omega arith))

-- Where the fixups are in order in the code, a jump, a call or a conditional jump appends the
-- manual's opcode and four zero bytes, its one new fixup, the last one, names those four bytes and
-- the label, and the fixups are in order afterwards.
pub emit_branch-Ordered :
    (br : Branch) (a : X64Asm) (id : ℕ)
    → Ordered (len a.cb) a.ft.table
    → ((emit_branch br a id).cb.buf ≡ a.cb.buf ++ (branch_opcode br ++ 0 ∷ 0 ∷ 0 ∷ 0 ∷ []))
      × ((emit_branch br a id).ft.table
          ≡ a.ft.table
            ++ (record { offset = len a.cb + opcode_length br; label_id = id; is_rel32 = true }
                ∷ []))
      × Ordered (len (emit_branch br a id).cb) (emit_branch br a id).ft.table
unfolding x64_jmp x64_call_label jcc_rel32 fixup_add
emit_branch-Ordered jmp a id o =
    let ends =
      branch_Ordered (len a.cb) _ (len a.cb + 1) id _ a.ft.table o (omega arith)
        (omega (arith, len-emit_byte a.cb 0xE9)) (len-emit_i32 _ _) in
    (branch-buf jmp a id, ends.0, ends.1)
emit_branch-Ordered call a id o =
    let ends =
      branch_Ordered (len a.cb) _ (len a.cb + 1) id _ a.ft.table o (omega arith)
        (omega (arith, len-emit_byte a.cb 0xE8)) (len-emit_i32 _ _) in
    (branch-buf call a id, ends.0, ends.1)
emit_branch-Ordered (jcc code) a id o =
    let ends =
      branch_Ordered (len a.cb) _ (len a.cb + 2) id _ a.ft.table o (omega arith)
        (omega (arith, len-emit_byte a.cb 0x0F, len-emit_byte (codebuf_emit_byte a.cb 0x0F) code))
        (len-emit_i32 _ _) in
    (branch-buf (jcc code) a id, ends.0, ends.1)
