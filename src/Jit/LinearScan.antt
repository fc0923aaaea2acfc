-- ===== src/Jit/LinearScan.antt =====
-- src/jit/jit.c, "Linear scan register allocator": registers for virtual registers in the order of
-- their numbers.
use o.Prelude.{
  ℕ, zero, suc, ◌&&◌, Bool, true, false, List, [], ◌∷◌, ◌++◌, set, length, ltb, ◌==◌, replicate,
  if◌then◌else◌,
}
use o.Backend.Asm.{X64Reg}
use o.Jit.{
  VRegInfo, vreg_in_register, vreg_spilled, info_of, is_unallocated, below, jit_alloc_stack_slot,
}
use o.Ir.Values.{IrFunc}
use o.Jit.Liveness.{put, jit_vregs, jit_liveness_analysis}

-- Bit `r` of a set of registers stands for register `r`.
abbrev pub RegSet : Type 0
RegSet = List Bool

-- `set |= 1u << r` and `set &= ~(1u << r)`
abbrev pub add_reg : RegSet → X64Reg → RegSet
add_reg rs r = set rs r true

abbrev pub drop_reg : RegSet → X64Reg → RegSet
drop_reg rs r = set rs r false

-- `set != 0`
unfoldable pub any_reg : RegSet → Bool
any_reg [] = false
any_reg (true ∷ rs) = true
any_reg (false ∷ rs) = any_reg rs

-- `__builtin_ctz(set)`
unfoldable pub lowest_reg : RegSet → X64Reg
lowest_reg [] = 0
lowest_reg (true ∷ rs) = 0
lowest_reg (false ∷ rs) = suc (lowest_reg rs)

-- rbx, r12 to r15, then rax, rcx, rdx, rsi, rdi
abbrev pub int_alloc_order : List X64Reg
int_alloc_order = 3 ∷ 12 ∷ 13 ∷ 14 ∷ 15 ∷ 0 ∷ 1 ∷ 2 ∷ 6 ∷ 7 ∷ []

unfoldable pub add_regs : RegSet → List X64Reg → RegSet
add_regs rs [] = rs
add_regs rs (r ∷ order) = add_regs (add_reg rs r) order

-- rsp and rbp are taken out.
unfoldable pub int_registers : RegSet
int_registers = drop_reg (drop_reg (add_regs (replicate 32 false) int_alloc_order) 4) 5

-- `(1u << JIT_MAX_XMMS) - 1`
unfoldable pub xmm_registers : RegSet
xmm_registers = replicate 8 true ++ replicate 24 false

abbrev pub active_max : ℕ
active_max = 32

-- The variables of the scan. `active_count` is the length of `active`.
pub record Scan : Type 0 where
  pub vregs : List VRegInfo
  pub int_free : RegSet
  pub xmm_free : RegSet
  pub active : List ℕ
  pub depth : ℕ

-- The register of an active virtual register is free again.
unfoldable pub free_reg : Scan → ℕ → Scan
free_reg s v =
    let av = info_of s.vregs v in
    if av.is_float
    then record s { xmm_free = add_reg s.xmm_free av.reg }
    else record s { int_free = add_reg s.int_free av.reg }

abbrev pub last_of : ℕ → List ℕ → ℕ
last_of v [] = v
last_of v (w ∷ ws) = last_of w ws

abbrev pub front_of : ℕ → List ℕ → List ℕ
front_of v [] = []
front_of v (w ∷ ws) = v ∷ front_of w ws

-- `active[ai] = active[--active_count]`, where the argument is what stands behind `ai`.
unfoldable pub move_last : List ℕ → List ℕ
move_last [] = []
move_last (v ∷ vs) = last_of v vs ∷ front_of v vs

-- The loop over the active ones: in front of `ai` stands `kept`. Each round keeps one or drops one.
unfoldable pub expire_from : ℕ → ℕ → List ℕ → List ℕ → Scan → Scan
expire_from fuel start kept [] s = record s { active = kept }
expire_from zero start kept (v ∷ vs) s = record s { active = kept ++ v ∷ vs }
expire_from (suc fuel) start kept (v ∷ vs) s = elim (ltb (info_of s.vregs v).last_use start) [
  | true ↦ expire_from fuel start kept (move_last vs) (free_reg s v)
  | false ↦ expire_from fuel start (kept ++ v ∷ []) vs s
]

unfoldable pub expire_old : ℕ → Scan → Scan
expire_old start s = expire_from (length s.active) start [] s.active s

-- `if (active_count < ACTIVE_MAX) active[active_count++] = vr`
unfoldable pub push_active : List ℕ → ℕ → List ℕ
push_active active vr = if ltb (length active) active_max then active ++ vr ∷ [] else active

unfoldable pub spill : ℕ → Scan → Scan
spill vr s =
    let slot = jit_alloc_stack_slot s.depth 8 in
    record s {
      vregs =
          put s.vregs vr
            (record (info_of s.vregs vr) { state = vreg_spilled; stack_off = below slot });
      depth = slot;
    }

-- The virtual register gets a register.
unfoldable pub hold : ℕ → X64Reg → Scan → Scan
hold vr r s = record s {
  vregs = put s.vregs vr (record (info_of s.vregs vr) { state = vreg_in_register; reg = r });
  active = push_active s.active vr;
}

unfoldable pub hold_xmm : ℕ → Scan → Scan
hold_xmm vr s =
    let r = lowest_reg s.xmm_free in hold vr r (record s { xmm_free = drop_reg s.xmm_free r })

unfoldable pub hold_int : ℕ → Scan → Scan
hold_int vr s =
    let r = lowest_reg s.int_free in hold vr r (record s { int_free = drop_reg s.int_free r })

unfoldable pub assign : ℕ → Scan → Scan
assign vr s =
    if (info_of s.vregs vr).is_float
    then (if any_reg s.xmm_free then hold_xmm vr s else spill vr s)
    else (if any_reg s.int_free then hold_int vr s else spill vr s)

-- A virtual register that nothing defines or uses is passed over.
unfoldable pub never_defined : VRegInfo → Bool
never_defined info = is_unallocated info.state && info.first_use == 0

unfoldable pub scan_vreg : ℕ → Scan → Scan
scan_vreg vr s =
    let info = info_of s.vregs vr in
    if never_defined info then s else assign vr (expire_old info.first_use s)

-- The first `n` virtual registers, in order.
unfoldable pub scan_vregs : ℕ → Scan → Scan
scan_vregs zero s = s
scan_vregs (suc n) s = scan_vreg n (scan_vregs n s)

unfoldable pub scan_init : List VRegInfo → Scan
scan_init vregs = record {
  vregs = vregs;
  int_free = int_registers;
  xmm_free = xmm_registers;
  active = [];
  depth = 0;
}

unfoldable pub jit_linear_scan_alloc : ℕ → List VRegInfo → Scan
jit_linear_scan_alloc vreg_count vregs = scan_vregs vreg_count (scan_init vregs)

-- Both passes over a function with a new context.
unfoldable pub allocate : IrFunc → Scan
allocate fn = jit_linear_scan_alloc fn.next_vreg (jit_liveness_analysis jit_vregs fn)

abbrev pub allocated : IrFunc → List VRegInfo
allocated fn = (allocate fn).vregs
