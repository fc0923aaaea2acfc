-- ===== src/Output/ElfExec/Lengths.antt =====
-- src/output/elf/exec.c, elf_exec_write: how long the file is at each stage.
use o.Prelude.{ℕ, ◌+◌, ◌-◌, ◌*◌, ◌%◌, ◌≤◌, ◌≡◌, refl, [], length, ltb, Bool-cases, inl, inr, arith}
use o.Backend.CodeBuf.{Bytes, align_up}
use o.Output.File.{
  ee_wbuf, ee_wpad, ee_pos, ee_align, At, At-ee_wbuf, At-later, At-pad, At-align, length-ee_wbuf,
  length-ee_wpad, length-ee_align8, length-ee_align4096,
}
use o.Output.ElfExec.{ElfExecCtx}
use o.Output.ElfExec.Image.{length-ehdr_bytes, phdr_bytes}
use o.Output.ElfExec.Write.{
  page, is_dyn, text_filesz, interp_bytes, strtab, dyn, shstrtab, ph_count, interp_off, text_off,
  dyn_off, dynstr_off, dynsym_off, shstr_off, sh_off, file_header, program_headers, section_headers,
  pad_to, write_front, write_code, write_sections,
}

length-pad_to : (f : Bytes) (off : ℕ) → length f ≤ off → length (pad_to f off) ≡ off
unfolding pad_to ee_pos
length-pad_to f off h = elim (Bool-cases (ltb (length f) off)) [
  | inl e ↦ rw e (ground (arith, length-ee_wpad f (off - length f)))
  | inr e ↦ rw e (ground arith)
]

pub At-pad_to : {off : ℕ} {part f : Bytes} (n : ℕ) → At off part f → At off part (pad_to f n)
unfolding pad_to
At-pad_to {f = f} n h = elim (Bool-cases (ltb (ee_pos f) n)) [
  | inl e ↦ rw e (At-pad (n - ee_pos f) h)
  | inr e ↦ rw e h
]

align8_add : (a n : ℕ) → a % 8 ≡ 0 → align_up (a + n) 8 ≡ a + align_up n 8
align8_add a n h = omega arith

module _ (ctx : ElfExecCtx) where
  pub length-file_header : length (file_header ctx) ≡ 64
  unfolding file_header
  length-file_header = length-ehdr_bytes _

  pub length-program_headers : length (program_headers ctx) ≡ ph_count ctx * 56
  unfolding program_headers ph_count phdr_bytes
  length-program_headers = elim (Bool-cases (is_dyn ctx)) [ inl e ↦ rw e refl | inr e ↦ rw e refl ]

  -- The file in front of the interpreter's name.
  unfoldable pub front : Bytes
  front =
      ee_wpad (ee_wbuf (ee_wbuf [] (file_header ctx)) (program_headers ctx))
        (interp_off ctx - ee_pos (ee_wbuf (ee_wbuf [] (file_header ctx)) (program_headers ctx)))

  pub length-front : length front ≡ interp_off ctx
  unfolding front interp_off ee_pos
  length-front = omega (
    arith,
    length-ee_wpad _ _,
    length-ee_wbuf (ee_wbuf [] (file_header ctx)) (program_headers ctx),
    length-ee_wbuf [] (file_header ctx),
    length-file_header,
    length-program_headers,
  )

  pub length-write_front : length (write_front ctx) ≡ text_off ctx
  unfolding write_front front text_off
  length-write_front =
      length-pad_to (ee_wbuf front (interp_bytes ctx)) (text_off ctx)
        (omega (arith, length-ee_wbuf front (interp_bytes ctx), length-front))

  text_off-page : text_off ctx % 4096 ≡ 0
  unfolding text_off
  text_off-page = omega arith

  pub length-write_code :
      (f : Bytes) → length f ≡ text_off ctx → length (write_code ctx f) ≡ dyn_off ctx
  unfolding write_code dyn_off text_filesz
  length-write_code f h = omega (
    arith,
    h,
    text_off-page,
    length-ee_wpad (ee_align (ee_wbuf f ctx.text) page) page,
    length-ee_align4096 (ee_wbuf f ctx.text),
    length-ee_wbuf f ctx.text,
  )

  pub dyn_off-eight : dyn_off ctx % 8 ≡ 0
  unfolding dyn_off text_filesz
  dyn_off-eight = omega (arith, text_off-page)

  -- The file behind the dynamic entries, and behind the names.
  unfoldable pub with_dyn : Bytes → Bytes
  with_dyn f = ee_align (ee_wbuf f (dyn ctx)) 8

  unfoldable pub with_strtab : Bytes → Bytes
  with_strtab f = ee_align (ee_wbuf (with_dyn f) (strtab ctx)) 8

  pub length-with_dyn : (f : Bytes) → length f ≡ dyn_off ctx → length (with_dyn f) ≡ dynstr_off ctx
  unfolding with_dyn dynstr_off
  length-with_dyn f h =
      omega (
        arith,
        h,
        dyn_off-eight,
        length-ee_align8 (ee_wbuf f (dyn ctx)),
        length-ee_wbuf f (dyn ctx),
      )

  pub length-with_strtab :
      (f : Bytes) → length f ≡ dyn_off ctx → length (with_strtab f) ≡ dynsym_off ctx
  unfolding with_strtab dynsym_off dynstr_off
  length-with_strtab f h = omega (
    arith,
    length-with_dyn f h,
    dyn_off-eight,
    length-ee_align8 (ee_wbuf (with_dyn f) (strtab ctx)),
    length-ee_wbuf (with_dyn f) (strtab ctx),
  )

  pub shstr_off-eight : shstr_off ctx % 8 ≡ 0
  unfolding shstr_off dynsym_off dynstr_off
  shstr_off-eight = omega (arith, dyn_off-eight)

  -- The sections stand where the header says, also if the table in front of them starts earlier.
  pub At-section_headers :
      (f : Bytes)
      → length f ≤ shstr_off ctx
      → At (sh_off ctx) (section_headers ctx) (write_sections ctx f)
  unfolding write_sections sh_off
  At-section_headers f h = At-ee_wbuf _ (section_headers ctx) (
      length-pad_to (ee_align (ee_wbuf f shstrtab) 8) _
        (omega (arith, h, length-ee_align8 (ee_wbuf f shstrtab), length-ee_wbuf f shstrtab)))

  pub At-shstrtab : (f : Bytes) {off : ℕ} → length f ≡ off → At off shstrtab (write_sections ctx f)
  unfolding write_sections
  At-shstrtab f h =
      At-later (section_headers ctx) (At-pad_to (sh_off ctx) (At-align 8 (At-ee_wbuf f shstrtab h)))
