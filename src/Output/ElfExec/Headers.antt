-- ===== src/Output/ElfExec/Headers.antt =====
-- src/output/elf/exec.c, elf_exec_write: the offsets in the headers of the file that is written.
use o.Prelude.{
  ℕ, ◌+◌, ◌*◌, ◌%◌, ◌^◌, ◌<◌, ◌≤◌, ◌≡◌, refl, sym, ◌∙◌, ap, true, false, some, length, arith,
}
use mathlib.Core.Path.{subst}
use o.Backend.CodeBuf.{Bytes}
use o.Backend.Buffer.{le_value-le_bytes64}
use o.Output.File.{At}
use o.Output.ElfExec.{ElfExecCtx}
use o.Output.ElfExec.Image.{ehdr_bytes, phdr_bytes, shdr_bytes}
use o.Output.ElfExec.Write.{
  is_dyn, interp_bytes, dynsym, strtab, dyn, shstrtab, ph_count, interp_off, text_off, dyn_off,
  dynstr_off, dynsym_off, shstr_off, sh_off, file_header, program_headers, section_headers,
  elf_exec_write,
}
use o.Output.ElfExec.Lengths.{length-file_header, length-program_headers}
use o.Output.ElfExec.Placed.{dynamic_parts, static_parts}
use o.Output.ElfExec.Fields.{field, e_phoff, e_shoff, p_offset, sh_offset, field-At}

module _ (ctx : ElfExecCtx) where
  -- The parts stand one behind the other.
  increasing :
      (interp_off ctx ≤ text_off ctx)
      × (text_off ctx ≤ dyn_off ctx)
      × (dyn_off ctx ≤ shstr_off ctx)
      × (shstr_off ctx ≤ sh_off ctx)
  unfolding text_off dyn_off shstr_off dynsym_off dynstr_off sh_off
  increasing = (omega arith, omega arith, omega arith, omega arith)

  length-section_headers : length (section_headers ctx) ≡ 240
  unfolding section_headers shdr_bytes
  length-section_headers = refl

  e_phoff-header : field 32 8 (file_header ctx) ≡ 64
  unfolding field file_header ehdr_bytes
  e_phoff-header = le_value-le_bytes64 64

  e_shoff-header : field 40 8 (file_header ctx) ≡ sh_off ctx % 2 ^ 64
  unfolding field file_header ehdr_bytes
  e_shoff-header = le_value-le_bytes64 (sh_off ctx)

  sh_offset-text : field 112 8 (section_headers ctx) ≡ text_off ctx % 2 ^ 64
  unfolding field section_headers shdr_bytes
  sh_offset-text = le_value-le_bytes64 (text_off ctx)

  sh_offset-names : field 192 8 (section_headers ctx) ≡ shstr_off ctx % 2 ^ 64
  unfolding field section_headers shdr_bytes
  sh_offset-names = le_value-le_bytes64 (shstr_off ctx)

  -- The five program headers of a file with a dynamic loader.
  p_offsets-dynamic :
      is_dyn ctx ≡ true
      → (field 8 8 (program_headers ctx) ≡ 64)
        × (field 64 8 (program_headers ctx) ≡ interp_off ctx % 2 ^ 64)
        × (field 120 8 (program_headers ctx) ≡ 0)
        × (field 176 8 (program_headers ctx) ≡ text_off ctx % 2 ^ 64)
        × (field 232 8 (program_headers ctx) ≡ dyn_off ctx % 2 ^ 64)
  unfolding field program_headers phdr_bytes
  p_offsets-dynamic e = rw e (
    le_value-le_bytes64 64,
    le_value-le_bytes64 (interp_off ctx),
    le_value-le_bytes64 0,
    le_value-le_bytes64 (text_off ctx),
    le_value-le_bytes64 (dyn_off ctx),
  )

  p_offsets-static :
      is_dyn ctx ≡ false
      → (field 8 8 (program_headers ctx) ≡ 0)
        × (field 64 8 (program_headers ctx) ≡ text_off ctx % 2 ^ 64)
  unfolding field program_headers phdr_bytes
  p_offsets-static e = rw e (le_value-le_bytes64 0, le_value-le_bytes64 (text_off ctx))

  -- A file with its three tables of headers at their places, below 2 ^ 64 bytes.
  module _ (f : Bytes) (small : sh_off ctx < 2 ^ 64) (header : At 0 (file_header ctx) f)
      (programs : At 64 (program_headers ctx) f)
      (sections : At (sh_off ctx) (section_headers ctx) f) where
    e_phoff-file : e_phoff f ≡ 64
    e_phoff-file = field-At 32 8 header (omega (arith, length-file_header ctx)) ∙ e_phoff-header

    e_shoff-file : e_shoff f ≡ sh_off ctx
    e_shoff-file =
        omega (
          arith,
          field-At 40 8 header (omega (arith, length-file_header ctx)),
          e_shoff-header,
          small,
        )

    p_offset-file :
        (i : ℕ)
        → 56 * i + 16 ≤ ph_count ctx * 56
        → p_offset i f ≡ field (56 * i + 8) 8 (program_headers ctx)
    p_offset-file i h =
        ap (λ n. field (n + (56 * i + 8)) 8 f) e_phoff-file
        ∙ field-At (56 * i + 8) 8 programs (omega (arith, h, length-program_headers ctx))

    sh_offset-file : (i : ℕ) → i < 3 → sh_offset i f ≡ field (80 * i + 32) 8 (section_headers ctx)
    sh_offset-file i h =
        ap (λ n. field (n + (80 * i + 32)) 8 f) e_shoff-file
        ∙ field-At (80 * i + 32) 8 sections (omega (arith, h, length-section_headers))

    sh_offset_1 : sh_offset 1 f ≡ text_off ctx
    sh_offset_1 = omega (arith, sh_offset-file 1 (omega arith), sh_offset-text, increasing, small)

    sh_offset_2 : sh_offset 2 f ≡ shstr_off ctx
    sh_offset_2 = omega (arith, sh_offset-file 2 (omega arith), sh_offset-names, increasing, small)

At-moved : {a b : ℕ} {part f : Bytes} → b ≡ a → At a part f → At b part f
At-moved {part = part} {f = f} e h = subst (λ n. At n part f) (sym e) h

ph_count-dynamic : (ctx : ElfExecCtx) → is_dyn ctx ≡ true → ph_count ctx ≡ 5
unfolding ph_count
ph_count-dynamic ctx e = rw e refl

ph_count-static : (ctx : ElfExecCtx) → is_dyn ctx ≡ false → ph_count ctx ≡ 2
unfolding ph_count
ph_count-static ctx e = rw e refl

-- In a dynamic executable or shared object that is written, below 2 ^ 64 bytes, the file header is
-- the first part, and the fields of the headers, read from the file, lead to what they name: e_phoff
-- to the program headers, e_shoff to the section headers, the offsets in the program headers to these
-- headers themselves, the name of the loader, the start of the file, the code and the dynamic entries,
-- and those in the section headers to the code and the section names. Between the dynamic entries and
-- the section names stand, each aligned to 8 bytes, the table of strings and that of symbols.
pub elf_exec_write-dynamic :
    (ctx : ElfExecCtx) (f : Bytes)
    → is_dyn ctx ≡ true
    → sh_off ctx < 2 ^ 64
    → elf_exec_write ctx ≡ some f
    → At 0 (file_header ctx) f
      × At (e_phoff f) (program_headers ctx) f
      × At (e_shoff f) (section_headers ctx) f
      × At (p_offset 0 f) (program_headers ctx) f
      × At (p_offset 1 f) (interp_bytes ctx) f
      × (p_offset 2 f ≡ 0)
      × At (p_offset 3 f) ctx.text f
      × At (p_offset 4 f) (dyn ctx) f
      × At (sh_offset 1 f) ctx.text f
      × At (sh_offset 2 f) shstrtab f
      × At (dynstr_off ctx) (strtab ctx) f
      × At (dynsym_off ctx) (dynsym ctx) f
elf_exec_write-dynamic ctx f loaded small h =
    let (header, programs, interp, text, entries, strings, symbols, names, sections) =
      dynamic_parts ctx f loaded h in
    let (own, p1, p2, p3, p4) = p_offsets-dynamic ctx loaded in
    let five = ph_count-dynamic ctx loaded in
    let p = p_offset-file ctx f small header programs sections in
    let up = increasing ctx in
    (
      header,
      At-moved (e_phoff-file ctx f small header programs sections) programs,
      At-moved (e_shoff-file ctx f small header programs sections) sections,
      At-moved (omega (arith, p 0 (omega (arith, five)), own)) programs,
      At-moved (omega (arith, p 1 (omega (arith, five)), p1, up, small)) interp,
      omega (arith, p 2 (omega (arith, five)), p2),
      At-moved (omega (arith, p 3 (omega (arith, five)), p3, up, small)) text,
      At-moved (omega (arith, p 4 (omega (arith, five)), p4, up, small)) entries,
      At-moved (sh_offset_1 ctx f small header programs sections) text,
      At-moved (sh_offset_2 ctx f small header programs sections) names,
      strings,
      symbols,
    )

-- In a static executable that is written, below 2 ^ 64 bytes, e_phoff leads to the program headers,
-- e_shoff to the section headers, the offsets in the program headers to the start of the file and to
-- the code, and that of the code's section header to the code; but the section names stand 32 bytes,
-- and 24 bytes for each export, in front of the offset in their section header.
pub elf_exec_write-static :
    (ctx : ElfExecCtx) (f : Bytes)
    → is_dyn ctx ≡ false
    → sh_off ctx < 2 ^ 64
    → elf_exec_write ctx ≡ some f
    → At 0 (file_header ctx) f
      × At (e_phoff f) (program_headers ctx) f
      × At (e_shoff f) (section_headers ctx) f
      × (p_offset 0 f ≡ 0)
      × At (p_offset 1 f) ctx.text f
      × At (sh_offset 1 f) ctx.text f
      × At (dyn_off ctx) shstrtab f
      × (sh_offset 2 f ≡ dyn_off ctx + 32 + 24 * length ctx.exports)
elf_exec_write-static ctx f loaded small h =
    let (header, programs, text, sections, names, off) = static_parts ctx f loaded h in
    let (p0, p1) = p_offsets-static ctx loaded in
    let two = ph_count-static ctx loaded in
    let p = p_offset-file ctx f small header programs sections in
    let up = increasing ctx in
    (
      header,
      At-moved (e_phoff-file ctx f small header programs sections) programs,
      At-moved (e_shoff-file ctx f small header programs sections) sections,
      omega (arith, p 0 (omega (arith, two)), p0),
      At-moved (omega (arith, p 1 (omega (arith, two)), p1, up, small)) text,
      At-moved (sh_offset_1 ctx f small header programs sections) text,
      names,
      sh_offset_2 ctx f small header programs sections ∙ off,
    )
