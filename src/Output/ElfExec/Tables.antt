-- ===== src/Output/ElfExec/Tables.antt =====
-- src/output/elf/exec.c, elf_exec_write: what overflows its arrays.
use o.Prelude.{◌≤◌, ◌≡◌, refl, Bool, false, none, leb, length, arith}
use o.Output.ElfExec.{ElfExecCtx}
use o.Output.ElfExec.Write.{dynsym, tables_fit, elf_exec_write}
use o.Output.ElfExec.Placed.{length-dynsym}

-- A context with 170 exports or more makes the symbols overflow their array of 4096 bytes.
pub elf_exec_write-overflow :
    (ctx : ElfExecCtx) → 170 ≤ length ctx.exports → elf_exec_write ctx ≡ none
unfolding elf_exec_write tables_fit
elf_exec_write-overflow ctx h = rw (too_long (leb (length (dynsym ctx)) 4096) refl) refl
  where
    too_long :
        (b : Bool) → leb (length (dynsym ctx)) 4096 ≡ b → leb (length (dynsym ctx)) 4096 ≡ false
    too_long b q = ground (arith, length-dynsym ctx)
