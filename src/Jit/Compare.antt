-- ===== src/Jit/Compare.antt =====
-- src/jit/jit.c, jit_emit_instr: what a comparison leaves in its result. The code of a comparison ends
-- with `xor eax, eax` and `setcc al`, which are run here after the instruction set's manual.
use mathlib.Core.List.{append_assoc}
use o.Prelude.{
  ℕ, ◌%◌, ◌<◌, ◌==◌, ◌≡◌, refl, Bool, true, false, not, ◌&&◌, ◌||◌, [], ◌∷◌, ◌++◌, Option, none,
  some, if◌then◌else◌, arith,
}
use o.Ir.Values.{
  IrOp, iop_cmp_eq, iop_cmp_ne, iop_cmp_lt, iop_cmp_le, iop_cmp_gt, iop_cmp_ge, IrInstr,
}
use o.Backend.CodeBuf.{Bytes, CodeBuf}
use o.Backend.Asm.{X64Asm, rax, emit_rex, emit_rex_forced, rex_byte, modrm}
use o.Backend.Bytes.{buffers}
use o.Backend.Mov.{rex_for}
use o.Backend.Asm.{maybe_size16}
use o.Backend.Alu.{
  alu_rr, setcc, x64_xor_rr, x64_cmp_rr, x64_sete, x64_setne, x64_setl, x64_setle, x64_setg,
  x64_setge,
}
use o.Jit.{JitContext, Runtime}
use o.Jit.Values.{size_or, type_of, info, jit_result}
use o.Jit.Arith.{jit_operands, set_on, jit_compare}

-- The flags that a condition reads, and the low register.
pub record Cpu : Type 0 where
  pub zf : Bool
  pub sf : Bool
  pub of : Bool
  pub eax : ℕ

abbrev differ : Bool → Bool → Bool
differ a b = (a && not b) || (not a && b)

-- The condition of the opcode 0F 9x: equal, not equal, less, greater or equal, less or equal, greater.
abbrev pub condition : ℕ → Cpu → Bool
condition cc c =
    if cc == 0x94
    then c.zf
    else if cc == 0x95
    then not c.zf
    else if cc == 0x9C
    then differ c.sf c.of
    else if cc == 0x9D
    then not (differ c.sf c.of)
    else if cc == 0x9E
    then c.zf || differ c.sf c.of
    else not c.zf && not (differ c.sf c.of)

-- `xor eax, eax` clears the register and sets the flags of a zero result.
abbrev pub clear_eax : Cpu → Cpu
clear_eax c = record { zf = true; sf = false; of = false; eax = 0 }

-- `setcc al` behind it.
abbrev pub set_al : ℕ → Cpu → Cpu
set_al cc c = record c { eax = if condition cc c then 1 else 0 }

-- The two instructions, on a processor that knows no others.
unfoldable pub run : Bytes → Cpu → Option Cpu
run (b0 ∷ b1 ∷ b2 ∷ b3 ∷ cc ∷ b5 ∷ []) c =
    if b0 == 0x31 && b1 == 0xC0 && b2 == 0x40 && b3 == 0x0F && b5 == 0xC0
    then some (set_al cc (clear_eax c))
    else none
run _ c = none

abbrev pub code_of : ℕ → Bytes
code_of cc = 0x31 ∷ 0xC0 ∷ 0x40 ∷ 0x0F ∷ cc ∷ 0xC0 ∷ []

-- The opcode of a comparison's `setcc`, and its result on equal operands.
abbrev pub opcode_of : IrOp → Option ℕ
opcode_of iop_cmp_eq = some 0x94
opcode_of iop_cmp_ne = some 0x95
opcode_of iop_cmp_lt = some 0x9C
opcode_of iop_cmp_le = some 0x9E
opcode_of iop_cmp_gt = some 0x9F
opcode_of iop_cmp_ge = some 0x9D
opcode_of _ = none

xor_eax : (a : X64Asm) → (x64_xor_rr a rax rax 4).cb.buf ≡ a.cb.buf ++ 0x31 ∷ 0xC0 ∷ []
unfolding x64_xor_rr alu_rr rex_for maybe_size16 emit_rex rex_byte modrm
xor_eax a = simp buffers

set_al-buf :
    (cb : CodeBuf) (n : ℕ) → n < 256 → (setcc cb n rax).buf ≡ cb.buf ++ 0x40 ∷ 0x0F ∷ n ∷ 0xC0 ∷ []
unfolding setcc emit_rex_forced rex_byte modrm
set_al-buf cb n h = let small : n % 256 ≡ n = omega arith in simp (buffers, small)

set_after :
    (a : X64Asm) (n : ℕ)
    → n < 256
    → (setcc (x64_xor_rr a rax rax 4).cb n rax).buf ≡ a.cb.buf ++ code_of n
set_after a n h =
    rw (set_al-buf (x64_xor_rr a rax rax 4).cb n h, xor_eax a)
      (append_assoc a.cb.buf (0x31 ∷ 0xC0 ∷ []) (0x40 ∷ 0x0F ∷ n ∷ 0xC0 ∷ []))

at_opcode :
    (op : IrOp) (a : X64Asm) {k n : ℕ}
    → some k ≡ some n
    → (set_on op (x64_xor_rr a rax rax 4)).cb.buf ≡ a.cb.buf ++ code_of k
    → (set_on op (x64_xor_rr a rax rax 4)).cb.buf ≡ a.cb.buf ++ code_of n
at_opcode op a {k} {n} h e = let same : k ≡ n = ground arith in rw (← same) e

set_on-buf :
    (op : IrOp) (a : X64Asm) (n : ℕ)
    → opcode_of op ≡ some n
    → (set_on op (x64_xor_rr a rax rax 4)).cb.buf ≡ a.cb.buf ++ code_of n
unfolding set_on x64_sete x64_setne x64_setl x64_setle x64_setg x64_setge
set_on-buf iop_cmp_eq a n h = at_opcode iop_cmp_eq a h (set_after a 0x94 (omega arith))
set_on-buf iop_cmp_ne a n h = at_opcode iop_cmp_ne a h (set_after a 0x95 (omega arith))
set_on-buf iop_cmp_lt a n h = at_opcode iop_cmp_lt a h (set_after a 0x9C (omega arith))
set_on-buf iop_cmp_le a n h = at_opcode iop_cmp_le a h (set_after a 0x9E (omega arith))
set_on-buf iop_cmp_gt a n h = at_opcode iop_cmp_gt a h (set_after a 0x9F (omega arith))
set_on-buf iop_cmp_ge a n h = at_opcode iop_cmp_ge a h (set_after a 0x9D (omega arith))
set_on-buf _ a n h = ground arith

-- What a comparison of two equal numbers gives.
abbrev pub on_equal : IrOp → ℕ
on_equal iop_cmp_eq = 1
on_equal iop_cmp_le = 1
on_equal iop_cmp_ge = 1
on_equal _ = 0

set_by :
    (op : IrOp) (n : ℕ) (c : Cpu)
    → opcode_of op ≡ some n
    → (if condition n (clear_eax c) then 1 else 0) ≡ on_equal op
set_by iop_cmp_eq n c h = ground arith
set_by iop_cmp_ne n c h = ground arith
set_by iop_cmp_lt n c h = ground arith
set_by iop_cmp_le n c h = ground arith
set_by iop_cmp_gt n c h = ground arith
set_by iop_cmp_ge n c h = ground arith
set_by _ n c h = ground arith

runs_to :
    (op : IrOp) (n : ℕ) (c : Cpu)
    → opcode_of op ≡ some n
    → (c' : Cpu) × (run (code_of n) c ≡ some c') × (c'.eax ≡ on_equal op)
unfolding run
runs_to op n c h = (set_al n (clear_eax c), refl, set_by op n c h)

-- A comparison whose operands have their registers: behind the comparing instruction stand the six
-- bytes of `xor eax, eax` and of the `setcc` of the operation, and these leave in eax, whatever the
-- flags and eax were before them, the result that the operation has on equal operands; that is
-- what the result is taken from.
pub jit_compare_ignores_operands :
    (rt : Runtime) (ctx ctx2 : JitContext) (ins : IrInstr) (rhs n : ℕ)
    → opcode_of ins.op ≡ some n
    → jit_operands rt ctx ins (size_or 8 (type_of ins.src1)) ≡ some (rhs, ctx2)
    → (after : X64Asm) × (after.cb.buf
        ≡ (x64_cmp_rr ctx2.asm 10 rhs (size_or 8 (type_of ins.src1))).cb.buf ++ code_of n)
      × ((c : Cpu) → (c' : Cpu) × (run (code_of n) c ≡ some c') × (c'.eax ≡ on_equal ins.op))
      × (jit_compare rt ctx ins
          ≡ some (record ctx2 { asm = jit_result (info ctx2 ins.dst) rax 1 after }))
unfolding jit_compare
jit_compare_ignores_operands rt ctx ctx2 ins rhs n h operands =
    let compared = x64_cmp_rr ctx2.asm 10 rhs (size_or 8 (type_of ins.src1)) in
    (
      set_on ins.op (x64_xor_rr compared rax rax 4),
      set_on-buf ins.op compared n h,
      (λ c. runs_to ins.op n c h),
      rw operands refl,
    )
