-- ===== src/Jit.antt =====
-- include/jit/jit.h and src/jit/jit.c: the state of the just-in-time compiler, and what it takes from
-- the process that it runs in. A u32 that is used as a set of registers is the list of its bits.
pub mod Liveness
pub mod LinearScan
pub mod Values
pub mod Arith
pub mod Memory
pub mod Calls
pub mod Instr
pub mod Compile
pub mod LiveRanges
pub mod Covers
pub mod StoreAddress
pub mod Registers
pub mod Expire
pub mod Allocated
pub mod Held
pub mod Disjoint
pub mod Allocation
pub mod Frames
pub mod Compare
pub mod Module
use o.Prelude.{ℕ, zero, suc, ◌+◌, ◌%◌, Bool, true, false, List, get_or}
use o.Prelude.Int.{ℤ, pos, negsuc}
use o.Frontend.Types.{StrView}
use o.Backend.Asm.{X64Reg, X64Asm}
use o.Backend.CodeBuf.{align_up}

pub data VRegState : Type 0 where
  vreg_unallocated vreg_in_register vreg_spilled : VRegState

-- `phys_reg`, `xmm_reg` and `stack_off` share their memory. The code reads a register only in the
-- state `vreg_in_register` and the offset only in the others, where it is 0 until one is stored.
pub record VRegInfo : Type 0 where
  pub state : VRegState
  pub is_float : Bool
  pub reg : X64Reg
  pub stack_off : ℤ
  pub first_use : ℕ
  pub last_use : ℕ

-- Zeroed memory.
abbrev pub fresh_vreg : VRegInfo
fresh_vreg = record {
  state = vreg_unallocated;
  is_float = false;
  reg = 0;
  stack_off = pos 0;
  first_use = 0;
  last_use = 0;
}

abbrev pub jit_max_vregs : ℕ
jit_max_vregs = 1024

-- `vregs[vr]`
abbrev pub info_of : List VRegInfo → ℕ → VRegInfo
info_of vregs vr = get_or vregs vr fresh_vreg

abbrev pub in_register : VRegState → Bool
in_register vreg_in_register = true
in_register _ = false

abbrev pub is_unallocated : VRegState → Bool
is_unallocated vreg_unallocated = true
is_unallocated _ = false

abbrev pub is_spilled : VRegState → Bool
is_spilled vreg_spilled = true
is_spilled _ = false

-- The part of `JITContext` that the lowering of instructions changes. `next_stack_slot` is never
-- positive in the source; `depth` is its negation. `callee_saved` is `callee_saved_used`.
pub record JitContext : Type 0 where
  pub vregs : List VRegInfo
  pub asm : X64Asm
  pub depth : ℕ
  pub callee_saved : ℕ

-- `-n`
abbrev pub below : ℕ → ℤ
below zero = pos 0
below (suc n) = negsuc n

-- The size is a power of two below 256. The slot is at `below` the returned depth.
unfoldable pub jit_alloc_stack_slot : ℕ → ℕ → ℕ
jit_alloc_stack_slot depth sz = let sz' = align_up sz sz % 256 in align_up (depth + sz') sz'

-- What the process has: the address of a string literal, of an entry of the table of compiled
-- functions, and of a symbol (`dlsym`); and the names of the functions of the module.
pub record Runtime : Type 0 where
  pub string_addr : StrView → ℤ
  pub slot_addr : ℕ → ℤ
  pub dlsym : StrView → ℤ
  pub cached_names : List StrView
