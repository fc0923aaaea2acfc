-- ===== src/Core/Arena/Restore.antt =====
-- include/core/arena.h, `arena_mark` and `arena_restore`: what was allocated since the mark goes.
use o.Prelude.{
  ℕ, suc, ◌+◌, ◌≤◌, ◌≡◌, refl, sym, List, [], ◌∷◌, length, Option, none, some, Bool-cases, inl, inr,
  ltb, ◌==◌, ==_iff, arith,
}
use mathlib.Core.Path.{subst}
use o.Core.Arena.{
  top_used, ArenaChunk, Arena, Mmap, pad_in, place, alloc_in, is_pow2, arena_alloc_aligned,
  arena_mark, restore_chunks, arena_restore,
}

-- One allocation that succeeds.
pub data Allocated (mmap : Mmap) : Arena → Arena → Type 0 where
  nothing : (a : Arena) → Allocated mmap a a
  one_more :
      {a b c : Arena} (size align ptr : ℕ)
      → Allocated mmap a b
      → arena_alloc_aligned mmap b size align ≡ some (ptr, c)
      → Allocated mmap a c

-- The chunks `cs` are `ds` with a fuller current chunk, and perhaps with new chunks on top.
pub data Above : List ArenaChunk → List ArenaChunk → Type 0 where
  fuller :
      (c : ArenaChunk) (below : List ArenaChunk) (used : ℕ)
      → Above (c ∷ below) (record c { used = used } ∷ below)
  on_top : {ds cs : List ArenaChunk} (c : ArenaChunk) → Above ds cs → Above ds (c ∷ cs)

refill :
    {ds below : List ArenaChunk} {c : ArenaChunk} (used : ℕ)
    → Above ds (c ∷ below)
    → Above ds (record c { used = used } ∷ below)
refill used (fuller c below _) = fuller c below used
refill used (on_top c p) = on_top _ p

-- What an allocation that succeeds leaves.
unfoldable AboveResult : List ArenaChunk → Option (ℕ × Arena) → Type 0
AboveResult ds none = Unit
AboveResult ds (some (_, a)) = Above ds a.chunks

new_chunk-Above :
    (ds below : List ArenaChunk) (a : Arena) (o : Option ArenaChunk) (size align : ℕ)
    → Above ds below
    → AboveResult ds (elim o [ none ↦ none | some nc ↦ some (place a nc below size align) ])
unfolding AboveResult place
new_chunk-Above ds below a none size align p = tt
new_chunk-Above ds below a (some nc) size align p = on_top _ p

alloc_in-Above :
    (mmap : Mmap) (ds cs : List ArenaChunk) (a : Arena) (size align : ℕ)
    → Above ds cs
    → AboveResult ds (alloc_in mmap a cs size align)
unfolding AboveResult alloc_in place
alloc_in-Above mmap ds [] a size align p = tt
alloc_in-Above mmap ds (c ∷ below) a size align p =
    elim (Bool-cases (ltb c.cap (c.used + (pad_in c align + size)))) [
      | inl e ↦ rw (e, alloc_in) (new_chunk-Above ds (c ∷ below) a _ size align p)
      | inr e ↦ rw (e, alloc_in) (refill _ p)
    ]

Allocated-Above :
    {mmap : Mmap} {a b : Arena} (ds : List ArenaChunk)
    → Allocated mmap a b
    → Above ds a.chunks
    → Above ds b.chunks
unfolding arena_alloc_aligned AboveResult
Allocated-Above ds (nothing _) p = p
Allocated-Above {mmap = mmap} ds (one_more {b = b} size align ptr q e) p =
    subst (AboveResult ds) e (elim (Bool-cases (is_pow2 align)) [
      | inl t ↦ rw t (alloc_in-Above mmap ds b.chunks b size align (Allocated-Above ds q p))
      | inr t ↦ rw t tt
    ])

Above-length : {ds cs : List ArenaChunk} → Above ds cs → length ds ≤ length cs
Above-length (fuller c below used) = omega arith
Above-length (on_top c p) = omega (arith, Above-length p)

restore_chunks-Above :
    {ds cs : List ArenaChunk}
    → Above ds cs
    → restore_chunks (record { chunk = length ds; used = top_used ds }) cs ≡ ds
unfolding restore_chunks
restore_chunks-Above (fuller c below used) =
    rw ((==_iff (length below + 1) (suc (length below))).1 (omega arith)) refl
restore_chunks-Above {ds = ds} (on_top {cs = cs} c p) =
    elim (Bool-cases (length cs + 1 == length ds)) [
      | inl e ↦ absurd (lt_ne (Above-length p) ((==_iff (length cs + 1) (length ds)).0 e))
      | inr e ↦ rw e (restore_chunks-Above p)
    ]
  where
    lt_ne : length ds ≤ length cs → length cs + 1 ≡ length ds → ⊥
    lt_ne h e = omega arith

-- Restoring the mark of an arena that has a chunk, after any allocations, brings its chunks back as
-- they were.
pub arena_restore-arena_mark :
    (mmap : Mmap) (a b : Arena) (c : ArenaChunk) (below : List ArenaChunk)
    → a.chunks ≡ c ∷ below
    → Allocated mmap a b
    → (arena_restore b (arena_mark a)).chunks ≡ a.chunks
unfolding arena_restore arena_mark
arena_restore-arena_mark mmap a b c below e q =
    restore_chunks-Above
      (Allocated-Above a.chunks q (subst (λ cs. Above cs cs) (sym e) (fuller c below c.used)))
