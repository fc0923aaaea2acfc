-- ===== src/Jit/Frames.antt =====
-- src/jit/jit.c, jit_compile_func: the size of the stack frame.
use o.Prelude.{ℕ, ◌+◌, ◌%◌, ◌≤◌, ◌<◌, ◌≡◌, arith}
use o.Jit.{jit_alloc_stack_slot}
use o.Jit.Compile.{jit_frame_size}

-- The frame covers all slots, with less than 24 bytes more, and its size leaves 8 modulo 16.
pub jit_frame_size_lem :
    (depth : ℕ)
    → (depth ≤ jit_frame_size depth)
      × (jit_frame_size depth < depth + 24)
      × (jit_frame_size depth % 16 ≡ 8)
unfolding jit_frame_size
jit_frame_size_lem depth = ground arith

-- A slot of `sz` bytes lies below those in use and is aligned to its size.
pub jit_alloc_stack_slot_lem :
    (depth : ℕ)
    → (depth + 8 ≤ jit_alloc_stack_slot depth 8)
      × (jit_alloc_stack_slot depth 8 < depth + 16)
      × (jit_alloc_stack_slot depth 8 % 8 ≡ 0)
unfolding jit_alloc_stack_slot
jit_alloc_stack_slot_lem depth = ground arith
