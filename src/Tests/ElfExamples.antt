-- ===== src/Tests/ElfExamples.antt =====
-- A shared object and a static executable with one exported function, as src/output/elf/exec.c writes them.
use o.Prelude.{
  ◌^◌, ◌+◌, ◌*◌, ◌<◌, ◌≡◌, refl, true, false, [], ◌∷◌, some, none, length, replicate, arith,
}
use o.Backend.CodeBuf.{Bytes}
use o.Output.File.{At}
use o.Output.ElfExec.{
  static, shared, ElfExecCtx, AotOutput, elf_exec_new, elf_exec_add_export, elf_exec_add_needed,
  elf_exec_declare_extern, elf_exec_compile, add_exports, declare_externs, find_extern,
  declare_found,
}
use o.Output.ElfExec.Image.{add_symbols, add_libs, strtab_push, c_string, dyn_bytes, sym_bytes}
use o.Output.ElfExec.Write.{
  interp_off, text_off, ph_count, is_dyn, interp_bytes, interp_off, text_off, dyn_off, dynstr_off,
  dynsym_off, shstr_off, sh_off, file_header, program_headers, section_headers, dyn, dynsym, strtab,
  symbols, libs, shstrtab, va_text, va_got, va_dyn, va_dynstr, text_filesz, tables_fit, elf_image,
  elf_exec_write,
}
use o.Output.ElfExec.Fields.{e_phoff, e_shoff, p_offset, sh_offset}
use o.Output.ElfExec.Headers.{elf_exec_write-dynamic, elf_exec_write-static}
use o.Output.ElfExec.Externs.{Declared, elf_exec_declare_extern_lem}
use o.Output.ElfExec.Tables.{elf_exec_write-overflow}

abbrev aot : AotOutput
aot = record { text = 0xC3 ∷ []; funcs = ((102 ∷ []), 0) ∷ []; extern_names = (112 ∷ []) ∷ [] }

abbrev library : ElfExecCtx
library = elf_exec_add_export (record (elf_exec_new shared) { text = 0xC3 ∷ [] }) (102 ∷ []) 0

abbrev program : ElfExecCtx
program = elf_exec_add_export (record (elf_exec_new static) { text = 0xC3 ∷ [] }) (102 ∷ []) 0

library_written : elf_exec_write library ≡ some (elf_image library)
unfolding elf_exec_write tables_fit elf_exec_new elf_exec_add_export dynsym symbols strtab libs dyn
    add_symbols add_libs strtab_push c_string dyn_bytes sym_bytes va_text va_got va_dyn va_dynstr
    text_filesz
library_written = refl

program_written : elf_exec_write program ≡ some (elf_image program)
unfolding elf_exec_write tables_fit elf_exec_new elf_exec_add_export dynsym symbols strtab libs dyn
    add_symbols add_libs strtab_push c_string dyn_bytes sym_bytes va_text va_got va_dyn va_dynstr
    text_filesz
program_written = refl

-- Compiling a module into a shared object exports its function and needs libc.so.6.
compiled :
    elf_exec_compile (some aot) (elf_exec_new shared)
    ≡ some
        (record (elf_exec_add_needed library
          (108 ∷ 105 ∷ 98 ∷ 99 ∷ 46 ∷ 115 ∷ 111 ∷ 46 ∷ 54 ∷ [])) { extern_syms = (112 ∷ []) ∷ [] })
unfolding elf_exec_compile elf_exec_new add_exports declare_externs elf_exec_declare_extern
    declare_found find_extern elf_exec_add_export elf_exec_add_needed
compiled = refl

abbrev Parts : ElfExecCtx → Bytes → Type 0
Parts ctx f =
    At 0 (file_header ctx) f
    × At (e_phoff f) (program_headers ctx) f
    × At (e_shoff f) (section_headers ctx) f
    × At (p_offset 0 f) (program_headers ctx) f
    × At (p_offset 1 f) (interp_bytes ctx) f
    × (p_offset 2 f ≡ 0)
    × At (p_offset 3 f) ctx.text f
    × At (p_offset 4 f) (dyn ctx) f
    × At (sh_offset 1 f) ctx.text f
    × At (sh_offset 2 f) shstrtab f
    × At (dynstr_off ctx) (strtab ctx) f
    × At (dynsym_off ctx) (dynsym ctx) f

library_loaded : is_dyn library ≡ true
unfolding elf_exec_new elf_exec_add_export
library_loaded = refl

program_unloaded : is_dyn program ≡ false
unfolding elf_exec_new elf_exec_add_export
program_unloaded = refl

library_small : sh_off library < 2 ^ 64
unfolding elf_exec_new elf_exec_add_export sh_off shstr_off dynsym_off dynstr_off dyn_off text_off
    interp_off text_filesz interp_bytes ph_count dynsym symbols strtab libs dyn add_symbols add_libs
    strtab_push c_string dyn_bytes sym_bytes va_text va_got va_dyn va_dynstr
library_small = omega arith

program_small : sh_off program < 2 ^ 64
unfolding elf_exec_new elf_exec_add_export sh_off shstr_off dynsym_off dynstr_off dyn_off text_off
    interp_off text_filesz interp_bytes ph_count dynsym symbols strtab libs dyn add_symbols add_libs
    strtab_push c_string dyn_bytes sym_bytes va_text va_got va_dyn va_dynstr
program_small = omega arith

elf_exec_write-dynamic_example : Parts library (elf_image library)
elf_exec_write-dynamic_example =
    elf_exec_write-dynamic library (elf_image library) library_loaded library_small library_written

elf_exec_write-static_example :
    At 0 (file_header program) (elf_image program)
    × At (e_phoff (elf_image program)) (program_headers program) (elf_image program)
    × At (e_shoff (elf_image program)) (section_headers program) (elf_image program)
    × (p_offset 0 (elf_image program) ≡ 0)
    × At (p_offset 1 (elf_image program)) program.text (elf_image program)
    × At (sh_offset 1 (elf_image program)) program.text (elf_image program)
    × At (dyn_off program) shstrtab (elf_image program)
    × (sh_offset 2 (elf_image program) ≡ dyn_off program + 32 + 24 * length program.exports)
elf_exec_write-static_example =
    elf_exec_write-static program (elf_image program) program_unloaded program_small program_written

elf_exec_declare_extern_lem_example :
    Declared library (112 ∷ []) (elf_exec_declare_extern library (112 ∷ []))
unfolding elf_exec_new elf_exec_add_export
elf_exec_declare_extern_lem_example = elf_exec_declare_extern_lem library (112 ∷ []) (omega arith)

-- A module with 170 functions.
abbrev large : ElfExecCtx
large = record (elf_exec_new shared) { exports = replicate 170 ((102 ∷ []), 0) }

elf_exec_write-overflow_example : elf_exec_write large ≡ none
unfolding elf_exec_new
elf_exec_write-overflow_example = elf_exec_write-overflow large (omega arith)
