-- ===== src/Backend/CodeBuf.antt =====
-- src/backend/x64.c, "Code buffer": the growable byte buffer that instructions are written to.
-- `buf` holds the `len` bytes written so far; the memory behind them up to `cap` is not observed.
-- An allocation that fails ends the process, so every step below is one whose allocation succeeds.
use o.Prelude.{
  ℕ, zero, suc, ◌+◌, ◌-◌, ◌*◌, ◌/◌, ◌%◌, ◌^◌, max, Bool, true, false, List, [], ◌∷◌, ◌++◌, leb,
  if◌then◌else◌, length, set,
}
use o.Prelude.Int.{ℤ, wrap, signed}

abbrev pub Bytes : Type 0
Bytes = List ℕ

pub record CodeBuf : Type 0 where
  pub buf : Bytes
  pub cap : ℕ
  pub is_exec : Bool

abbrev pub len : CodeBuf → ℕ
len cb = length cb.buf

unfoldable pub codebuf_init_arena : ℕ → CodeBuf
codebuf_init_arena initial_cap = record { buf = []; cap = initial_cap; is_exec = false }

-- `ALIGN_UP(v, a)` for a power of two `a`: the mask keeps the multiples of `a`.
abbrev pub align_up : ℕ → ℕ → ℕ
align_up v a = (v + a - 1) / a * a

unfoldable pub codebuf_init_exec : ℕ → CodeBuf
codebuf_init_exec initial_cap = record { buf = []; cap = align_up initial_cap 4096; is_exec = true }

unfoldable pub codebuf_ensure : CodeBuf → ℕ → CodeBuf
codebuf_ensure cb extra =
    if leb (len cb + extra) cb.cap
    then cb
    else record cb { cap = max (cb.cap * 2) (len cb + extra + 64) }

-- `buf[len + 0..] = bs; len += |bs|`, after the buffer was made large enough.
abbrev append_bytes : CodeBuf → Bytes → CodeBuf
append_bytes cb bs = record cb { buf = cb.buf ++ bs }

-- `(u8)x`
abbrev pub u8 : ℕ → ℕ
u8 x = x % 256

unfoldable pub codebuf_emit_byte : CodeBuf → ℕ → CodeBuf
codebuf_emit_byte cb b = append_bytes (codebuf_ensure cb 1) (u8 b ∷ [])

unfoldable pub codebuf_emit_u16 : CodeBuf → ℕ → CodeBuf
codebuf_emit_u16 cb v = append_bytes (codebuf_ensure cb 2) (u8 v ∷ u8 (v / 2 ^ 8) ∷ [])

abbrev pub u32_bytes : ℕ → Bytes
u32_bytes v = u8 v ∷ u8 (v / 2 ^ 8) ∷ u8 (v / 2 ^ 16) ∷ u8 (v / 2 ^ 24) ∷ []

unfoldable pub codebuf_emit_u32 : CodeBuf → ℕ → CodeBuf
codebuf_emit_u32 cb v = append_bytes (codebuf_ensure cb 4) (u32_bytes v)

-- `for (i = k; i < k + n; i++) buf[len + i] = (u8)(v >> (i * 8))`
abbrev pub le_bytes : ℕ → ℕ → ℕ → Bytes
le_bytes zero k v = []
le_bytes (suc n) k v = u8 (v / 2 ^ (k * 8)) ∷ le_bytes n (k + 1) v

unfoldable pub codebuf_emit_u64 : CodeBuf → ℕ → CodeBuf
codebuf_emit_u64 cb v = append_bytes (codebuf_ensure cb 8) (le_bytes 8 0 v)

unfoldable pub codebuf_emit_i32 : CodeBuf → ℤ → CodeBuf
codebuf_emit_i32 cb v = codebuf_emit_u32 cb (wrap (2 ^ 32) v)

unfoldable pub codebuf_emit_i64 : CodeBuf → ℤ → CodeBuf
codebuf_emit_i64 cb v = codebuf_emit_u64 cb (wrap (2 ^ 64) v)

unfoldable pub codebuf_emit_bytes : CodeBuf → Bytes → CodeBuf
codebuf_emit_bytes cb bs = append_bytes (codebuf_ensure cb (length bs)) bs

-- Four stores at `off`, in the order of the source. A store behind the bytes written so far is not
-- seen in `buf`.
unfoldable pub codebuf_patch_i32 : CodeBuf → ℕ → ℤ → CodeBuf
codebuf_patch_i32 cb off v =
    let w = wrap (2 ^ 32) v in
    let b0 = set cb.buf (off + 0) (u8 w) in
    let b1 = set b0 (off + 1) (u8 (w / 2 ^ 8)) in
    let b2 = set b1 (off + 2) (u8 (w / 2 ^ 16)) in
    record cb { buf = set b2 (off + 3) (u8 (w / 2 ^ 24)) }

unfoldable pub codebuf_patch_u32 : CodeBuf → ℕ → ℕ → CodeBuf
codebuf_patch_u32 cb off v = codebuf_patch_i32 cb off (signed (2 ^ 32) v)

unfoldable pub codebuf_destroy : CodeBuf → CodeBuf
codebuf_destroy cb = record { buf = []; cap = 0; is_exec = false }
