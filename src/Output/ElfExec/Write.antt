-- ===== src/Output/ElfExec/Write.antt =====
-- src/output/elf/exec.c, elf_exec_write: the layout of the file and its bytes. `none` is a write behind
-- the end of one of the function's arrays. Opening the file is taken to succeed.
use o.Prelude.{
  ℕ, replicate, ◌+◌, ◌-◌, ◌*◌, Bool, not, ◌&&◌, [], ◌∷◌, ◌++◌, Option, none, some, ltb, leb,
  if◌then◌else◌, length,
}
use o.Backend.CodeBuf.{Bytes, align_up}
use o.Output.File.{ee_wbuf, ee_wpad, ee_pos, ee_align}
use o.Output.ElfExec.{ElfExecCtx, is_static, is_shared}
use o.Output.ElfExec.Image.{
  ehdr_bytes, Phdr, phdr_bytes, shdr_bytes, dyn_bytes, add_symbols, add_libs,
}

abbrev pub page : ℕ
page = 0x1000

abbrev pub is_dyn : ElfExecCtx → Bool
is_dyn ctx = not (is_static ctx.mode)

unfoldable pub text_filesz : ElfExecCtx → ℕ
text_filesz ctx = align_up (length ctx.text) page

unfoldable pub va_text : ElfExecCtx → ℕ
va_text ctx = ctx.load_vaddr + page * 2

unfoldable pub va_got : ElfExecCtx → ℕ
va_got ctx = ctx.load_vaddr + page * 2 + text_filesz ctx

unfoldable pub va_dyn : ElfExecCtx → ℕ
va_dyn ctx = va_got ctx + page

unfoldable pub va_dynstr : ElfExecCtx → ℕ
va_dynstr ctx = va_dyn ctx + page

-- The string with its zero byte, if there is a dynamic loader.
unfoldable pub interp_bytes : ElfExecCtx → Bytes
interp_bytes ctx = if is_dyn ctx then ctx.interp ++ 0 ∷ [] else []

-- The tables that the function builds in its arrays.
unfoldable pub symbols : ElfExecCtx → Bytes × Bytes
symbols ctx = add_symbols (va_text ctx) ctx.exports (0 ∷ []) (replicate 24 0)

unfoldable pub dynsym : ElfExecCtx → Bytes
dynsym ctx = (symbols ctx).1

unfoldable pub libs : ElfExecCtx → Bytes × Bytes
libs ctx = if is_dyn ctx then add_libs ctx.needed_libs (0 ∷ []) [] else (0 ∷ [], [])

unfoldable pub strtab : ElfExecCtx → Bytes
strtab ctx = (libs ctx).0

-- DT_STRTAB, DT_STRSZ, DT_PLTGOT, DT_FLAGS, DT_NULL
unfoldable pub dyn : ElfExecCtx → Bytes
dyn ctx =
    if is_dyn ctx
    then (libs ctx).1
      ++ (dyn_bytes 5 (va_dynstr ctx)
          ++ (dyn_bytes 10 (length (strtab ctx))
              ++ (dyn_bytes 3 (va_got ctx) ++ (dyn_bytes 30 8 ++ dyn_bytes 0 0))))
    else []

-- "\0.text\0.shstrtab\0"
abbrev pub shstrtab : Bytes
shstrtab =
    0 ∷ 46 ∷ 116 ∷ 101 ∷ 120 ∷ 116 ∷ 0 ∷ 46 ∷ 115 ∷ 104 ∷ 115 ∷ 116 ∷ 114 ∷ 116 ∷ 97 ∷ 98 ∷ 0 ∷ []

unfoldable pub ph_count : ElfExecCtx → ℕ
ph_count ctx = if is_dyn ctx then 5 else 2

unfoldable pub interp_off : ElfExecCtx → ℕ
interp_off ctx = 64 + ph_count ctx * 56

unfoldable pub text_off : ElfExecCtx → ℕ
text_off ctx = align_up (interp_off ctx + length (interp_bytes ctx)) page

unfoldable pub dyn_off : ElfExecCtx → ℕ
dyn_off ctx = text_off ctx + text_filesz ctx + page

unfoldable pub dynstr_off : ElfExecCtx → ℕ
dynstr_off ctx = dyn_off ctx + align_up (length (dyn ctx)) 8

unfoldable pub dynsym_off : ElfExecCtx → ℕ
dynsym_off ctx = dynstr_off ctx + align_up (length (strtab ctx)) 8

unfoldable pub shstr_off : ElfExecCtx → ℕ
shstr_off ctx = dynsym_off ctx + align_up (length (dynsym ctx)) 8

unfoldable pub sh_off : ElfExecCtx → ℕ
sh_off ctx = align_up (shstr_off ctx + length shstrtab) 8

unfoldable pub file_header : ElfExecCtx → Bytes
file_header ctx = ehdr_bytes record {
  e_type = if is_shared ctx.mode then 3 else 2;
  e_entry = va_text ctx + ctx.entry_text_off;
  e_phoff = 64;
  e_shoff = sh_off ctx;
  e_phnum = ph_count ctx;
}

-- PT_PHDR and PT_INTERP
abbrev pub self_segment : ElfExecCtx → Phdr
self_segment ctx = record {
  p_type = 6;
  p_flags = 4;
  p_offset = 64;
  p_vaddr = ctx.load_vaddr + 64;
  p_filesz = ph_count ctx * 56;
  p_align = 8;
}

abbrev pub interp_segment : ElfExecCtx → Phdr
interp_segment ctx = record {
  p_type = 3;
  p_flags = 4;
  p_offset = interp_off ctx;
  p_vaddr = ctx.load_vaddr + interp_off ctx;
  p_filesz = length (interp_bytes ctx);
  p_align = 1;
}

-- The two PT_LOAD segments: the headers, and the code.
abbrev pub header_segment : ElfExecCtx → Phdr
header_segment ctx = record {
  p_type = 1;
  p_flags = 4;
  p_offset = 0;
  p_vaddr = ctx.load_vaddr;
  p_filesz = text_off ctx;
  p_align = page;
}

abbrev pub text_segment : ElfExecCtx → Phdr
text_segment ctx = record {
  p_type = 1;
  p_flags = 5;
  p_offset = text_off ctx;
  p_vaddr = va_text ctx;
  p_filesz = text_filesz ctx;
  p_align = page;
}

-- PT_DYNAMIC
abbrev pub dyn_segment : ElfExecCtx → Phdr
dyn_segment ctx = record {
  p_type = 2;
  p_flags = 6;
  p_offset = dyn_off ctx;
  p_vaddr = va_dyn ctx;
  p_filesz = length (dyn ctx);
  p_align = 8;
}

unfoldable pub program_headers : ElfExecCtx → Bytes
program_headers ctx =
    if is_dyn ctx
    then phdr_bytes (self_segment ctx)
      ++ (phdr_bytes (interp_segment ctx)
          ++ (phdr_bytes (header_segment ctx)
              ++ (phdr_bytes (text_segment ctx) ++ phdr_bytes (dyn_segment ctx))))
    else phdr_bytes (header_segment ctx) ++ phdr_bytes (text_segment ctx)

unfoldable pub section_headers : ElfExecCtx → Bytes
section_headers ctx =
    shdr_bytes record {
      sh_name = 0;
      sh_type = 0;
      sh_flags = 0;
      sh_addr = 0;
      sh_offset = 0;
      sh_size = 0;
      sh_addralign = 0;
    }
    ++ (shdr_bytes record {
      sh_name = 1;
      sh_type = 1;
      sh_flags = 6;
      sh_addr = va_text ctx;
      sh_offset = text_off ctx;
      sh_size = length ctx.text;
      sh_addralign = 16;
    }
        ++ shdr_bytes record {
          sh_name = 7;
          sh_type = 3;
          sh_flags = 0;
          sh_addr = 0;
          sh_offset = shstr_off ctx;
          sh_size = length shstrtab;
          sh_addralign = 1;
        })

-- `cur = ee_pos(fd); if (cur < off) ee_wpad(fd, off - cur)`
unfoldable pub pad_to : Bytes → ℕ → Bytes
pad_to f off = if ltb (ee_pos f) off then ee_wpad f (off - ee_pos f) else f

unfoldable pub write_front : ElfExecCtx → Bytes
write_front ctx =
    let f1 = ee_wbuf (ee_wbuf [] (file_header ctx)) (program_headers ctx) in
    let f2 = ee_wpad f1 (interp_off ctx - ee_pos f1) in
    pad_to (ee_wbuf f2 (interp_bytes ctx)) (text_off ctx)

unfoldable pub write_code : ElfExecCtx → Bytes → Bytes
write_code ctx f = ee_wpad (ee_align (ee_wbuf f ctx.text) page) page

unfoldable pub write_tables : ElfExecCtx → Bytes → Bytes
write_tables ctx f =
    if is_dyn ctx
    then ee_align
        (ee_wbuf (ee_align (ee_wbuf (ee_align (ee_wbuf f (dyn ctx)) 8) (strtab ctx)) 8)
          (dynsym ctx))
        8
    else f

unfoldable pub write_sections : ElfExecCtx → Bytes → Bytes
write_sections ctx f =
    ee_wbuf (pad_to (ee_align (ee_wbuf f shstrtab) 8) (sh_off ctx)) (section_headers ctx)

unfoldable pub elf_image : ElfExecCtx → Bytes
elf_image ctx = write_sections ctx (write_tables ctx (write_code ctx (write_front ctx)))

-- The four arrays have 4096, 4096, 8192 and 2048 bytes.
unfoldable pub tables_fit : ElfExecCtx → Bool
tables_fit ctx =
    leb (length (dynsym ctx)) 4096
    && leb (length (symbols ctx).0) 4096
    && leb (length (strtab ctx)) 8192
    && leb (length (dyn ctx)) 2048

unfoldable pub elf_exec_write : ElfExecCtx → Option Bytes
elf_exec_write ctx = if tables_fit ctx then some (elf_image ctx) else none
