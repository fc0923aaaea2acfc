-- ===== src/Output/ElfExec/Placed.antt =====
-- src/output/elf/exec.c, elf_exec_write: the parts of the file stand where its headers say.
use o.Prelude.{
  ℕ, ◌+◌, ◌*◌, ◌≡◌, refl, ap, true, false, List, [], ◌∷◌, ◌++◌, Option, none, some, take, replicate,
  length, length-append, Bool-cases, inl, inr, arith,
}
use o.Backend.CodeBuf.{Bytes}
use o.Output.File.{
  ee_wbuf, At, At-ee_wbuf, At-later, At-pad, At-align, length-ee_wbuf, length-ee_align8,
}
use o.Output.ElfExec.{ElfExecCtx}
use o.Output.ElfExec.Write.{
  page, is_dyn, interp_bytes, dynsym, strtab, dyn, shstrtab, interp_off, text_off, dyn_off,
  dynstr_off, dynsym_off, shstr_off, sh_off, file_header, program_headers, section_headers,
  write_front, write_code, write_tables, write_sections, elf_image,
}
use o.Output.ElfExec.Lengths.{
  At-pad_to, front, length-front, length-write_front, length-file_header, with_dyn, with_strtab,
  length-with_dyn, length-with_strtab, length-write_code, dyn_off-eight, At-section_headers,
  At-shstrtab,
}
use o.Output.ElfExec.Write.{tables_fit, elf_exec_write, symbols, libs, va_text}
use o.Output.ElfExec.Image.{add_symbols, strtab_push, sym_bytes, length-sym_bytes}
use o.Frontend.Types.{StrView}

some_same : {x y : Bytes} → some x ≡ some y → y ≡ x
some_same h = ground arith

absurd_write : {x y : Bytes} → ◌≡◌ {A = Option Bytes} none (some y) → y ≡ x
absurd_write h = cc

length-add_symbols :
    (va : ℕ) (es : List (StrView × ℕ)) (names syms : Bytes)
    → length (add_symbols va es names syms).1 ≡ length syms + 24 * length es
unfolding add_symbols
length-add_symbols va [] names syms = omega arith
length-add_symbols va ((name, off) ∷ es) names syms = omega (
  arith,
  length-add_symbols va es (strtab_push names (take 255 name))
      (syms ++ sym_bytes (length names) (va + off)),
  length-append syms (sym_bytes (length names) (va + off)),
  length-sym_bytes (length names) (va + off),
)

pub length-dynsym : (ctx : ElfExecCtx) → length (dynsym ctx) ≡ 24 + 24 * length ctx.exports
unfolding dynsym symbols
length-dynsym ctx = length-add_symbols (va_text ctx) ctx.exports (0 ∷ []) (replicate 24 0)

libs-static : (ctx : ElfExecCtx) → is_dyn ctx ≡ false → libs ctx ≡ (0 ∷ [], [])
unfolding libs
libs-static ctx e = rw e refl

length-strtab-static : (ctx : ElfExecCtx) → is_dyn ctx ≡ false → length (strtab ctx) ≡ 1
unfolding strtab
length-strtab-static ctx e = ap (λ (p : Bytes × Bytes). length p.0) (libs-static ctx e)

length-dyn-static : (ctx : ElfExecCtx) → is_dyn ctx ≡ false → length (dyn ctx) ≡ 0
unfolding dyn
length-dyn-static ctx e = rw e refl

shstr_off-static :
    (ctx : ElfExecCtx)
    → is_dyn ctx ≡ false
    → shstr_off ctx ≡ dyn_off ctx + 32 + 24 * length ctx.exports
unfolding shstr_off dynsym_off dynstr_off
shstr_off-static ctx e =
    omega (arith, length-dynsym ctx, length-strtab-static ctx e, length-dyn-static ctx e)

module _ (ctx : ElfExecCtx) where
  -- What stands in the file stays through the later stages.
  sections_keep : {off : ℕ} {part f : Bytes} → At off part f → At off part (write_sections ctx f)
  unfolding write_sections
  sections_keep h =
      At-later (section_headers ctx) (At-pad_to (sh_off ctx) (At-align 8 (At-later shstrtab h)))

  tables_keep : {off : ℕ} {part f : Bytes} → At off part f → At off part (write_tables ctx f)
  unfolding write_tables
  tables_keep h = elim (Bool-cases (is_dyn ctx)) [
    | inl e ↦ rw e (
        At-align 8 (
          At-later (dynsym ctx)
            (At-align 8 (At-later (strtab ctx) (At-align 8 (At-later (dyn ctx) h))))))
    | inr e ↦ rw e h
  ]

  code_keep : {off : ℕ} {part f : Bytes} → At off part f → At off part (write_code ctx f)
  unfolding write_code
  code_keep h = At-pad page (At-align page (At-later ctx.text h))

  image_keep :
      {off : ℕ} {part : Bytes} → At off part (write_front ctx) → At off part (elf_image ctx)
  unfolding elf_image
  image_keep h = sections_keep (tables_keep (code_keep h))

  At-file_header : At 0 (file_header ctx) (elf_image ctx)
  unfolding write_front
  At-file_header = image_keep (
      At-pad_to (text_off ctx) (
        At-later (interp_bytes ctx)
          (At-pad _ (At-later (program_headers ctx) (At-ee_wbuf [] (file_header ctx) refl)))))

  At-program_headers : At 64 (program_headers ctx) (elf_image ctx)
  unfolding write_front
  At-program_headers = image_keep (
      At-pad_to (text_off ctx) (
        At-later (interp_bytes ctx) (
          At-pad _ (
            At-ee_wbuf (ee_wbuf [] (file_header ctx)) (program_headers ctx)
              (omega (arith, length-ee_wbuf [] (file_header ctx), length-file_header ctx))))))

  At-interp : At (interp_off ctx) (interp_bytes ctx) (elf_image ctx)
  unfolding write_front front
  At-interp =
      image_keep
        (At-pad_to (text_off ctx) (At-ee_wbuf (front ctx) (interp_bytes ctx) (length-front ctx)))

  At-text : At (text_off ctx) ctx.text (elf_image ctx)
  unfolding elf_image write_code
  At-text = sections_keep (
      tables_keep (
        At-pad page
          (At-align page (At-ee_wbuf (write_front ctx) ctx.text (length-write_front ctx)))))

  -- The tables of a file with a dynamic loader, behind a file whose code ends at their offset.
  module _ (f : Bytes) (loaded : is_dyn ctx ≡ true) (ends : length f ≡ dyn_off ctx) where
    At-dyn : At (dyn_off ctx) (dyn ctx) (write_tables ctx f)
    unfolding write_tables
    At-dyn = rw loaded (
        At-align 8 (
          At-later (dynsym ctx)
            (At-align 8 (At-later (strtab ctx) (At-align 8 (At-ee_wbuf f (dyn ctx) ends))))))

    At-strtab : At (dynstr_off ctx) (strtab ctx) (write_tables ctx f)
    unfolding write_tables with_dyn
    At-strtab = rw loaded (
        At-align 8 (
          At-later (dynsym ctx)
            (At-align 8 (At-ee_wbuf (with_dyn ctx f) (strtab ctx) (length-with_dyn ctx f ends)))))

    At-dynsym : At (dynsym_off ctx) (dynsym ctx) (write_tables ctx f)
    unfolding write_tables with_strtab with_dyn
    At-dynsym =
        rw loaded
          (At-align 8 (At-ee_wbuf (with_strtab ctx f) (dynsym ctx) (length-with_strtab ctx f ends)))

    length-write_tables : length (write_tables ctx f) ≡ shstr_off ctx
    unfolding write_tables with_strtab with_dyn shstr_off dynsym_off dynstr_off
    length-write_tables = rw loaded (
        omega (
          arith,
          length-with_strtab ctx f ends,
          dyn_off-eight ctx,
          length-ee_align8 (ee_wbuf (with_strtab ctx f) (dynsym ctx)),
          length-ee_wbuf (with_strtab ctx f) (dynsym ctx),
        ))

  written : {f : Bytes} → elf_exec_write ctx ≡ some f → f ≡ elf_image ctx
  unfolding elf_exec_write
  written h = elim (Bool-cases (tables_fit ctx)) [
    | inl e ↦ some_same (rw e at h)
    | inr e ↦ absurd_write (rw e at h)
  ]

  coded : Bytes
  coded = write_code ctx (write_front ctx)

  coded_ends : length coded ≡ dyn_off ctx
  unfolding coded
  coded_ends = length-write_code ctx (write_front ctx) (length-write_front ctx)

  -- The parts of a file with a dynamic loader, at the offsets that the function computes.
  pub dynamic_parts :
      (f : Bytes)
      → is_dyn ctx ≡ true
      → elf_exec_write ctx ≡ some f
      → At 0 (file_header ctx) f
        × At 64 (program_headers ctx) f
        × At (interp_off ctx) (interp_bytes ctx) f
        × At (text_off ctx) ctx.text f
        × At (dyn_off ctx) (dyn ctx) f
        × At (dynstr_off ctx) (strtab ctx) f
        × At (dynsym_off ctx) (dynsym ctx) f
        × At (shstr_off ctx) shstrtab f
        × At (sh_off ctx) (section_headers ctx) f
  unfolding elf_image coded
  dynamic_parts f loaded h = rw (written h) (
    At-file_header,
    At-program_headers,
    At-interp,
    At-text,
    sections_keep (At-dyn coded loaded coded_ends),
    sections_keep (At-strtab coded loaded coded_ends),
    sections_keep (At-dynsym coded loaded coded_ends),
    At-shstrtab ctx (write_tables ctx coded) (length-write_tables coded loaded coded_ends),
    At-section_headers ctx (write_tables ctx coded)
        (omega (arith, length-write_tables coded loaded coded_ends)),
  )

  -- The parts of a static executable.
  pub static_parts :
      (f : Bytes)
      → is_dyn ctx ≡ false
      → elf_exec_write ctx ≡ some f
      → At 0 (file_header ctx) f
        × At 64 (program_headers ctx) f
        × At (text_off ctx) ctx.text f
        × At (sh_off ctx) (section_headers ctx) f
        × At (dyn_off ctx) shstrtab f
        × (shstr_off ctx ≡ dyn_off ctx + 32 + 24 * length ctx.exports)
  unfolding elf_image coded write_tables
  static_parts f loaded h =
      let off = shstr_off-static ctx loaded in
      rw (written h) (
        At-file_header,
        At-program_headers,
        At-text,
        rw loaded (At-section_headers ctx coded (omega (arith, coded_ends, off))),
        rw loaded (At-shstrtab ctx coded coded_ends),
        off,
      )
