-- ===== src/Output/ElfExec/Segments.antt =====
-- src/output/elf/exec.c, elf_exec_write: the addresses in the dynamic entries and the two loaded segments.
use o.Prelude.{ℕ, ◌+◌, ◌<◌, ◌≤◌}
use o.Output.ElfExec.Image.{Phdr}

-- The address stands in the memory of the segment.
unfoldable pub Loads : Phdr → ℕ → Type 0
Loads p a = (p.p_vaddr ≤ a) × (a < p.p_vaddr + p.p_filesz)
