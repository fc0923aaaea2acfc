-- ===== src/Output/ElfExec/Image.antt =====
-- src/output/elf/exec.c: the structures of the file as bytes, and the tables of names, symbols and dynamic
-- entries.
use o.Prelude.{ℕ, ◌+◌, ◌≡◌, refl, List, [], ◌∷◌, ◌++◌, ◌==◌, if◌then◌else◌, length, take}
use o.Frontend.Types.{StrView}
use o.Backend.CodeBuf.{Bytes, le_bytes}

-- `EE_Ehdr`; the identification, the version, the sizes and the rest of the fields are constants.
pub record Ehdr : Type 0 where
  pub e_type : ℕ
  pub e_entry : ℕ
  pub e_phoff : ℕ
  pub e_shoff : ℕ
  pub e_phnum : ℕ

unfoldable pub ehdr_bytes : Ehdr → Bytes
ehdr_bytes h =
    0x7F
    ∷ 69
    ∷ 76
    ∷ 70
    ∷ 2
    ∷ 1
    ∷ 1
    ∷ 0
    ∷ 0
    ∷ 0
    ∷ 0
    ∷ 0
    ∷ 0
    ∷ 0
    ∷ 0
    ∷ 0
    ∷ (le_bytes 2 0 h.e_type
        ++ (le_bytes 2 0 62
            ++ (le_bytes 4 0 1
                ++ (le_bytes 8 0 h.e_entry
                    ++ (le_bytes 8 0 h.e_phoff
                        ++ (le_bytes 8 0 h.e_shoff
                            ++ (le_bytes 4 0 0
                                ++ (le_bytes 2 0 64
                                    ++ (le_bytes 2 0 56
                                        ++ (le_bytes 2 0 h.e_phnum
                                            ++ (le_bytes 2 0 80
                                                ++ (le_bytes 2 0 3 ++ le_bytes 2 0 2))))))))))))

pub record Phdr : Type 0 where
  pub p_type : ℕ
  pub p_flags : ℕ
  pub p_offset : ℕ
  pub p_vaddr : ℕ
  pub p_filesz : ℕ
  pub p_align : ℕ

-- `p_paddr` is `p_vaddr` and `p_memsz` is `p_filesz` in every header that is written.
unfoldable pub phdr_bytes : Phdr → Bytes
phdr_bytes p =
    le_bytes 4 0 p.p_type
    ++ (le_bytes 4 0 p.p_flags
        ++ (le_bytes 8 0 p.p_offset
            ++ (le_bytes 8 0 p.p_vaddr
                ++ (le_bytes 8 0 p.p_vaddr
                    ++ (le_bytes 8 0 p.p_filesz
                        ++ (le_bytes 8 0 p.p_filesz ++ le_bytes 8 0 p.p_align))))))

pub record Shdr : Type 0 where
  pub sh_name : ℕ
  pub sh_type : ℕ
  pub sh_flags : ℕ
  pub sh_addr : ℕ
  pub sh_offset : ℕ
  pub sh_size : ℕ
  pub sh_addralign : ℕ

-- Ten fields of 64 bits; `sh_link`, `sh_info` and `sh_entsize` are 0.
unfoldable pub shdr_bytes : Shdr → Bytes
shdr_bytes s =
    le_bytes 8 0 s.sh_name
    ++ (le_bytes 8 0 s.sh_type
        ++ (le_bytes 8 0 s.sh_flags
            ++ (le_bytes 8 0 s.sh_addr
                ++ (le_bytes 8 0 s.sh_offset
                    ++ (le_bytes 8 0 s.sh_size
                        ++ (le_bytes 8 0 0
                            ++ (le_bytes 8 0 0
                                ++ (le_bytes 8 0 s.sh_addralign ++ le_bytes 8 0 0))))))))

-- A symbol: a global function of section 1.
unfoldable pub sym_bytes : ℕ → ℕ → Bytes
sym_bytes st_name st_value =
    le_bytes 4 0 st_name
    ++ (0x12 ∷ 0 ∷ (le_bytes 2 0 1 ++ (le_bytes 8 0 st_value ++ le_bytes 8 0 0)))

unfoldable pub dyn_bytes : ℕ → ℕ → Bytes
dyn_bytes d_tag d_val = le_bytes 8 0 d_tag ++ le_bytes 8 0 d_val

-- A C string ends at its first zero byte.
unfoldable pub c_string : Bytes → Bytes
c_string [] = []
c_string (c ∷ cs) = if c == 0 then [] else c ∷ c_string cs

-- `STRTAB_ADD`, `SYMSTR_ADD`: the string with its zero byte goes to the end of the table.
unfoldable pub strtab_push : Bytes → Bytes → Bytes
strtab_push tab s = tab ++ (c_string s ++ 0 ∷ [])

-- The names of the exports, cut to 255 bytes, and their symbols, behind the tables given.
unfoldable pub add_symbols : ℕ → List (StrView × ℕ) → Bytes → Bytes → Bytes × Bytes
add_symbols va_text [] symstrtab dynsym = (symstrtab, dynsym)
add_symbols va_text ((name, off) ∷ rest) symstrtab dynsym =
    add_symbols va_text rest (strtab_push symstrtab (take 255 name))
      (dynsym ++ sym_bytes (length symstrtab) (va_text + off))

-- The names of the needed libraries, cut to 63 bytes, and their entries.
unfoldable pub add_libs : List StrView → Bytes → Bytes → Bytes × Bytes
add_libs [] strtab dyn = (strtab, dyn)
add_libs (lib ∷ rest) strtab dyn =
    add_libs rest (strtab_push strtab (take 63 lib)) (dyn ++ dyn_bytes 1 (length strtab))

pub length-ehdr_bytes : (h : Ehdr) → length (ehdr_bytes h) ≡ 64
unfolding ehdr_bytes
length-ehdr_bytes h = refl

pub length-phdr_bytes : (p : Phdr) → length (phdr_bytes p) ≡ 56
unfolding phdr_bytes
length-phdr_bytes p = refl

pub length-shdr_bytes : (s : Shdr) → length (shdr_bytes s) ≡ 80
unfolding shdr_bytes
length-shdr_bytes s = refl

pub length-sym_bytes : (n v : ℕ) → length (sym_bytes n v) ≡ 24
unfolding sym_bytes
length-sym_bytes n v = refl
