-- ===== src/Core/Arena.antt =====
-- include/core/arena.h: memory in chunks. The chunks of an arena are a list, the current one first,
-- behind it those that `prev` leads to. `mmap` is the system's: given the chunks that are mapped and a
-- number of bytes, the address of the new chunk's data, or none. Sizes and addresses are far below
-- 2 ^ 64, so their sums do not wrap.
pub mod Restore
use o.Prelude.{
  ℕ, ◌+◌, ◌-◌, ◌*◌, ◌%◌, ◌^◌, bit_and, max, Bool, ◌&&◌, List, [], ◌∷◌, ltb, ◌==◌, if◌then◌else◌,
  length, Option, none, some,
}

pub record ArenaChunk : Type 0 where
  pub addr : ℕ
  pub cap : ℕ
  pub used : ℕ

pub record Arena : Type 0 where
  pub chunks : List ArenaChunk
  pub total_allocated : ℕ
  pub chunk_size : ℕ

abbrev pub Mmap : Type 0
Mmap = List ArenaChunk → ℕ → Option ℕ

-- `MB(8)`
abbrev pub arena_default_chunk : ℕ
arena_default_chunk = 8 * 1024 * 1024

abbrev pub header_size : ℕ
header_size = 24

unfoldable pub arena_chunk_new : Mmap → List ArenaChunk → ℕ → Option ArenaChunk
arena_chunk_new mmap chunks min_size =
    let cap = max min_size arena_default_chunk in
    elim (mmap chunks (header_size + cap)) [
      | none ↦ none
      | some addr ↦ some record { addr = addr; cap = cap; used = 0 }
    ]

unfoldable pub arena_init : Mmap → ℕ → Option Arena
arena_init mmap chunk_size =
    let size = if ltb 0 chunk_size then chunk_size else arena_default_chunk in
    elim (arena_chunk_new mmap [] size) [
      | none ↦ none
      | some c ↦ some record { chunks = c ∷ []; total_allocated = 0; chunk_size = size }
    ]

-- `(-(i64)base) & (align - 1)`
unfoldable pub padding : ℕ → ℕ → ℕ
padding base align = bit_and ((2 ^ 64 - base % 2 ^ 64) % 2 ^ 64) (align - 1)

-- The bytes in front of an object in a chunk.
abbrev pub pad_in : ArenaChunk → ℕ → ℕ
pad_in c align = padding (c.addr + c.used) align

-- The object goes into the current chunk `c`.
unfoldable pub place : Arena → ArenaChunk → List ArenaChunk → ℕ → ℕ → ℕ × Arena
place a c below size align =
    let need = pad_in c align + size in
    (
      c.addr + c.used + pad_in c align,
      record {
        chunks = record c { used = c.used + need } ∷ below;
        total_allocated = a.total_allocated + need;
        chunk_size = a.chunk_size;
      },
    )

unfoldable pub alloc_in : Mmap → Arena → List ArenaChunk → ℕ → ℕ → Option (ℕ × Arena)
alloc_in mmap a [] size align = none
alloc_in mmap a (c ∷ below) size align =
    if ltb c.cap (c.used + (pad_in c align + size))
    then elim (arena_chunk_new mmap (c ∷ below) (max (size + align) a.chunk_size)) [
      | none ↦ none
      | some nc ↦ some (place a nc (c ∷ below) size align)
    ]
    else some (place a c below size align)

-- `IS_POW2(x)`
abbrev pub is_pow2 : ℕ → Bool
is_pow2 x = ltb 0 x && bit_and x (x - 1) == 0

-- The address of the object, and none for a null pointer or an alignment that fails the assertion.
unfoldable pub arena_alloc_aligned : Mmap → Arena → ℕ → ℕ → Option (ℕ × Arena)
arena_alloc_aligned mmap a size align =
    if is_pow2 align then alloc_in mmap a a.chunks size align else none

-- A chunk is named by the number of chunks from it down.
pub record ArenaMark : Type 0 where
  pub chunk : ℕ
  pub used : ℕ

abbrev pub top_used : List ArenaChunk → ℕ
top_used [] = 0
top_used (c ∷ cs) = c.used

unfoldable pub arena_mark : Arena → ArenaMark
arena_mark a = record { chunk = length a.chunks; used = top_used a.chunks }

-- Chunks are unmapped until the marked one is the current one, which gets its old fill.
unfoldable pub restore_chunks : ArenaMark → List ArenaChunk → List ArenaChunk
restore_chunks m [] = []
restore_chunks m (c ∷ cs) =
    if length cs + 1 == m.chunk then record c { used = m.used } ∷ cs else restore_chunks m cs

unfoldable pub arena_restore : Arena → ArenaMark → Arena
arena_restore a m = record a { chunks = restore_chunks m a.chunks }
