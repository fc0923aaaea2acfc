-- ===== src/Core.antt =====
-- include/core: the arena allocator.
pub mod Arena
