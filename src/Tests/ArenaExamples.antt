-- ===== src/Tests/ArenaExamples.antt =====
-- include/core/arena.h on a small arena.
use o.Prelude.{◌≡◌, refl, [], ◌∷◌, some}
use o.Core.Arena.{
  ArenaChunk, Arena, Mmap, arena_chunk_new, arena_init, padding, place, alloc_in,
  arena_alloc_aligned, arena_mark, arena_restore,
}
use o.Core.Arena.Restore.{nothing, one_more, arena_restore-arena_mark}

-- Every chunk is mapped at one address.
abbrev mmap : Mmap
mmap chunks size = some 4096

abbrev chunk : ArenaChunk
chunk = record { addr = 4096; cap = 100; used = 10 }

abbrev before : Arena
before = record { chunks = chunk ∷ []; total_allocated = 10; chunk_size = 100 }

abbrev after : Arena
after = record {
  chunks = record { addr = 4096; cap = 100; used = 36 } ∷ [];
  total_allocated = 36;
  chunk_size = 100;
}

-- Twenty bytes aligned to eight.
one_alloc : arena_alloc_aligned mmap before 20 8 ≡ some (4112, after)
unfolding arena_alloc_aligned alloc_in place padding
one_alloc = refl

arena_restore-arena_mark_example : (arena_restore after (arena_mark before)).chunks ≡ before.chunks
arena_restore-arena_mark_example =
    arena_restore-arena_mark mmap before after chunk [] refl
      (one_more 20 8 4112 (nothing before) one_alloc)

default_chunk :
    arena_init mmap 0
    ≡ some record {
      chunks = record { addr = 4096; cap = 8388608; used = 0 } ∷ [];
      total_allocated = 0;
      chunk_size = 8388608;
    }
unfolding arena_init arena_chunk_new
default_chunk = refl
