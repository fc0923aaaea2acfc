-- ===== src/Output/ElfExec.antt =====
-- include/lib/elf/exec.h and src/output/elf/exec.c: what an ELF executable or shared object is made of.
pub mod Image
pub mod Write
pub mod Lengths
pub mod Placed
pub mod Fields
pub mod Headers
pub mod Externs
pub mod Segments
pub mod Tables
use o.Prelude.{
  ℕ, ◌+◌, ◌%◌, ◌^◌, Bool, true, false, List, [], ◌∷◌, ◌++◌, Option, none, some, ltb, leb,
  if◌then◌else◌, length, take,
}
use o.Frontend.Types.{StrView, sv_eq}
use o.Backend.CodeBuf.{Bytes}

pub data ElfExecMode : Type 0 where
  static dynamic shared : ElfExecMode

-- `text` holds the first `text_size` bytes of `text_buf`, and the counts are the lengths of the lists.
-- `extern_got_off[i]` is `8 * i`. Nothing writes `data_buf`.
pub record ElfExecCtx : Type 0 where
  pub mode : ElfExecMode
  pub interp : Bytes
  pub text : Bytes
  pub needed_libs : List StrView
  pub extern_syms : List StrView
  pub exports : List (StrView × ℕ)
  pub load_vaddr : ℕ
  pub entry_text_off : ℕ

-- "/lib64/ld-linux-x86-64.so.2"
abbrev pub default_interp : Bytes
default_interp =
    47 ∷ 108 ∷ 105 ∷ 98 ∷ 54 ∷ 52 ∷ 47 ∷ 108 ∷ 100 ∷ 45 ∷ 108 ∷ 105 ∷ 110 ∷ 117 ∷ 120 ∷ 45 ∷ 120
    ∷ 56 ∷ 54 ∷ 45 ∷ 54 ∷ 52 ∷ 46 ∷ 115 ∷ 111 ∷ 46 ∷ 50 ∷ []

abbrev pub is_static : ElfExecMode → Bool
is_static static = true
is_static _ = false

abbrev pub is_shared : ElfExecMode → Bool
is_shared shared = true
is_shared _ = false

unfoldable pub elf_exec_new : ElfExecMode → ElfExecCtx
elf_exec_new mode = record {
  mode = mode;
  interp = default_interp;
  text = [];
  needed_libs = [];
  extern_syms = [];
  exports = [];
  load_vaddr = if is_static mode then 0x400000 else 0;
  entry_text_off = 0;
}

unfoldable pub elf_exec_add_needed : ElfExecCtx → StrView → ElfExecCtx
elf_exec_add_needed ctx lib =
    if ltb (length ctx.needed_libs) 32
    then record ctx { needed_libs = ctx.needed_libs ++ lib ∷ [] }
    else ctx

-- The place of the first symbol of the name, counted from `i`.
unfoldable pub find_extern : List StrView → StrView → ℕ → Option ℕ
find_extern [] sym i = none
find_extern (s ∷ ss) sym i = if sv_eq s sym then some i else find_extern ss sym (i + 1)

unfoldable pub declare_found : ElfExecCtx → StrView → Option ℕ → ℕ × ElfExecCtx
declare_found ctx sym (some i) = (i, ctx)
declare_found ctx sym none =
    if leb 256 (length ctx.extern_syms)
    then (0, ctx)
    else (length ctx.extern_syms, record ctx { extern_syms = ctx.extern_syms ++ sym ∷ [] })

-- The index of the symbol, which is 0 when the table is full.
unfoldable pub elf_exec_declare_extern : ElfExecCtx → StrView → ℕ × ElfExecCtx
elf_exec_declare_extern ctx sym = declare_found ctx sym (find_extern ctx.extern_syms sym 0)

unfoldable pub elf_exec_add_export : ElfExecCtx → StrView → ℕ → ElfExecCtx
elf_exec_add_export ctx name off =
    if ltb (length ctx.exports) 256
    then record ctx { exports = ctx.exports ++ (name, off) ∷ [] }
    else ctx

-- What `elf_exec_compile` reads of the context of the object compiler: the code, the functions with
-- their offsets, and the external names.
pub record AotOutput : Type 0 where
  pub text : Bytes
  pub funcs : List (StrView × ℕ)
  pub extern_names : List StrView

unfoldable pub add_exports : ElfExecCtx → List (StrView × ℕ) → ElfExecCtx
add_exports ctx [] = ctx
add_exports ctx ((name, off) ∷ rest) =
    add_exports (elf_exec_add_export ctx name (off % 2 ^ 32)) rest

unfoldable pub declare_externs : ElfExecCtx → List StrView → ElfExecCtx
declare_externs ctx [] = ctx
declare_externs ctx (s ∷ rest) = declare_externs (elf_exec_declare_extern ctx s).1 rest

-- "libc.so.6"
abbrev pub libc_name : StrView
libc_name = 108 ∷ 105 ∷ 98 ∷ 99 ∷ 46 ∷ 115 ∷ 111 ∷ 46 ∷ 54 ∷ []

-- The code is copied behind the code that is there, and the size becomes that of the new code.
unfoldable pub elf_exec_compile : Option AotOutput → ElfExecCtx → Option ElfExecCtx
elf_exec_compile none ctx = none
elf_exec_compile (some aot) ctx =
    let ctx1 = declare_externs (add_exports ctx aot.funcs) aot.extern_names in
    let ctx2 = if is_static ctx.mode then ctx1 else elf_exec_add_needed ctx1 libc_name in
    some (record ctx2 { text = take (length aot.text) (ctx.text ++ aot.text); entry_text_off = 0 })
