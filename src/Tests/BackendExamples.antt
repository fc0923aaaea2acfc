-- ===== src/Tests/BackendExamples.antt =====
-- Labels, fixups and instructions of src/backend/x64.c on a small piece of code.
use o.Prelude.{
  ◌+◌, ◌*◌, ◌%◌, ◌^◌, ◌≤◌, ◌<◌, ◌≡◌, refl, true, false, [], ◌∷◌, ◌++◌, Option, none, some, get_or,
  length, All, inl, inr, arith,
}
use o.Prelude.Int.{pos, negsuc, wrap, signed}
use o.Backend.CodeBuf.{
  Bytes, CodeBuf, len, codebuf_init_arena, codebuf_init_exec, codebuf_ensure, codebuf_emit_byte,
  codebuf_emit_u32, codebuf_emit_i32, codebuf_patch_i32, codebuf_patch_u32, codebuf_destroy,
}
use o.Backend.Labels.{
  FixupTable, LabelTable, fixup_table_init, fixup_add, label_table_init, label_define, rel32,
  fixup_resolve, resolve_from, fixup_resolve_all, ◌>>=◌,
}
use o.Backend.Asm.{X64Asm, x64asm_init}
use o.Backend.Mov.{x64_mov_ri, x64_mov_rm, x64_mov_mr}
use o.Backend.Alu.{x64_test_ri}
use o.Backend.Jump.{x64_jmp, x64_nop, x64_def_label}
use o.Backend.Frame.{x64_align}
use o.Backend.Decode.{direct, indirect}
use o.Backend.Prefix.{word, dword, qword, bytes_of}
use o.Backend.Encode.{insn_of}
use o.Backend.TwoOperand.{
  Writes, add, manual_opcode, encoder, encoder-Writes, x64_mov_rm-Writes, x64_mov_mr-Writes,
}
use o.Backend.OneOperand.{
  not, div, unary_opcode, unary_extension, unary_encoder, group, unary_encoder-Writes,
  unary_encoder_drops_high_bit,
}
use o.Backend.MovImm.{Loads, x64_mov_ri-Loads}
use o.Backend.AluImm.{
  sub, w32, w64, op_size, imm_opcode, group1_extension, group1_encoder, EncodesImm,
  group1_encoder-EncodesImm, x64_test_ri_adds,
}
use o.Backend.AluImm
use o.Backend.Resolve.{
  AllApart, CanResolve, Reaches, fixup_resolve_all-Reaches, fixup_resolve_all-untouched,
  fixup_resolve_all-none,
}
use o.Backend.Fixups.{Ordered, jcc, emit_branch, opcode_length, emit_branch-Ordered}
use o.Backend.Padding.{len-x64_align}
use o.Backend.Buffer.{IsValid, Width, emit, size, le_value, emit-IsValid, codebuf_ensure_lem}

-- An empty piece of code in memory that can run.
abbrev start : X64Asm
start = record {
  cb = record { buf = []; cap = 4096; is_exec = true };
  ft = record { table = []; cap = 0 };
  lt = record { offsets = []; cap = 64 };
}

start_lem : x64asm_init (codebuf_init_exec 4000) fixup_table_init label_table_init ≡ start
unfolding x64asm_init codebuf_init_exec fixup_table_init label_table_init
start_lem = refl

arena_start : codebuf_init_arena 16 ≡ record { buf = []; cap = 16; is_exec = false }
unfolding codebuf_init_arena
arena_start = refl

-- A jump back over itself and a `nop` to label 0, and one forward to label 1.
abbrev jumps : FixupTable
jumps = record {
  table =
      record { offset = 2; label_id = 0; is_rel32 = true }
      ∷ record { offset = 7; label_id = 1; is_rel32 = true }
      ∷ [];
  cap = 64;
}

abbrev labels : LabelTable
labels = record { offsets = 0 ∷ 12 ∷ []; cap = 64 }

abbrev code : CodeBuf
code = record {
  buf = 0x90 ∷ 0xE9 ∷ 0 ∷ 0 ∷ 0 ∷ 0 ∷ 0xE9 ∷ 0 ∷ 0 ∷ 0 ∷ 0 ∷ 0x90 ∷ [];
  cap = 4096;
  is_exec = true;
}

-- The encoders build that code and those tables.
program : Option X64Asm
unfolding x64_def_label label_define x64_nop x64_jmp fixup_add codebuf_ensure codebuf_emit_byte
    codebuf_emit_u32 codebuf_emit_i32 wrap
program = do
  a ← x64_def_label start 0
  x64_def_label (x64_nop (x64_jmp (x64_jmp (x64_nop a) 0) 1)) 1

program_lem : program ≡ some record { cb = code; ft = jumps; lt = labels }
unfolding program
program_lem = refl

jumps-AllApart : AllApart jumps.table
jumps-AllApart = ((inl (omega arith), tt), (tt, tt))

jumps-CanResolve : All (CanResolve labels (len code)) jumps.table
jumps-CanResolve = (
  record {
    inside = omega arith;
    small = omega arith;
    listed = omega arith;
    target_small = omega arith;
  },
  (
    record {
      inside = omega arith;
      small = omega arith;
      listed = omega arith;
      target_small = omega arith;
    },
    tt,
  ),
)

fixup_resolve_all-Reaches_example :
    (cb' : CodeBuf) × (fixup_resolve_all jumps labels code ≡ some cb')
    × (len cb' ≡ len code)
    × All (Reaches labels cb'.buf) jumps.table
fixup_resolve_all-Reaches_example =
    fixup_resolve_all-Reaches jumps labels code jumps-AllApart jumps-CanResolve

fixup_resolve_all-untouched_example :
    (cb' : CodeBuf) × (fixup_resolve_all jumps labels code ≡ some cb')
    × (get_or cb'.buf 6 0 ≡ get_or code.buf 6 0)
fixup_resolve_all-untouched_example =
    fixup_resolve_all-untouched jumps labels code 6 jumps-AllApart jumps-CanResolve
      (inr (omega arith), (inl (omega arith), tt))

resolved : Option CodeBuf
unfolding fixup_resolve_all resolve_from fixup_resolve rel32 signed wrap codebuf_patch_i32
resolved = fixup_resolve_all jumps labels code

resolved_lem :
    resolved
    ≡ some record {
      buf = 0x90 ∷ 0xE9 ∷ 0xFA ∷ 0xFF ∷ 0xFF ∷ 0xFF ∷ 0xE9 ∷ 1 ∷ 0 ∷ 0 ∷ 0 ∷ 0x90 ∷ [];
      cap = 4096;
      is_exec = true;
    }
unfolding resolved
resolved_lem = refl

fixup_resolve_all-none_example :
    fixup_resolve_all jumps (record { offsets = 0 ∷ []; cap = 64 }) code ≡ none
fixup_resolve_all-none_example =
    fixup_resolve_all-none jumps (record { offsets = 0 ∷ []; cap = 64 }) code
      (record { offset = 2; label_id = 0; is_rel32 = true } ∷ []) []
      (record { offset = 7; label_id = 1; is_rel32 = true }) refl (omega arith)

-- A patch of the jump's displacement to -2, and the buffer after its end.
patched :
    (codebuf_patch_u32 code 2 0xFFFF_FFFE).buf
    ≡ (0x90 ∷ 0xE9 ∷ 0xFE ∷ 0xFF ∷ 0xFF ∷ 0xFF ∷ 0xE9 ∷ 0 ∷ 0 ∷ 0 ∷ 0 ∷ 0x90 ∷ [])
unfolding codebuf_patch_u32 codebuf_patch_i32 signed wrap
patched = refl

destroyed : codebuf_destroy code ≡ record { buf = []; cap = 0; is_exec = false }
unfolding codebuf_destroy
destroyed = refl

encoder-Writes_example :
    Writes start
      (encoder add start 9 3 (bytes_of qword))
      (insn_of qword (manual_opcode add) (manual_opcode add + 1) 3 (direct 9))
encoder-Writes_example = encoder-Writes add start qword 9 3 tt (omega arith) (omega arith)

x64_mov_rm-Writes_example :
    Writes start
      (x64_mov_rm start 10 12 (negsuc 299) (bytes_of dword))
      (insn_of dword 0x8A 0x8B 10 (indirect 12 (negsuc 299)))
x64_mov_rm-Writes_example =
    x64_mov_rm-Writes start dword 10 12 (negsuc 299) tt (omega arith) (omega arith) (omega arith)

x64_mov_mr-Writes_example :
    Writes start
      (x64_mov_mr start 5 (pos 0) 1 (bytes_of word))
      (insn_of word 0x88 0x89 1 (indirect 5 (pos 0)))
x64_mov_mr-Writes_example =
    x64_mov_mr-Writes start word 5 (pos 0) 1 (omega arith, omega arith) (omega arith) (omega arith)
      (omega arith)

unary_encoder-Writes_example :
    Writes start
      (unary_encoder not start 11 8)
      (insn_of qword (unary_opcode not) (unary_opcode not + 1) (unary_extension not) (direct 11))
unary_encoder-Writes_example = unary_encoder-Writes (group not) start 11 (omega arith)

unary_encoder_drops_high_bit_example : unary_encoder div start 9 4 ≡ unary_encoder div start 1 4
unary_encoder_drops_high_bit_example = unary_encoder_drops_high_bit div start 1 4 (omega arith) refl

x64_mov_ri-Loads_example : Loads start.cb (x64_mov_ri start 8 (negsuc 4) 8).cb 8 (negsuc 4)
x64_mov_ri-Loads_example = x64_mov_ri-Loads start 8 (negsuc 4) (omega arith)

group1_encoder-EncodesImm_example :
    EncodesImm start.cb
      (group1_encoder sub start 4 (pos 300) (bytes_of (op_size w64))).cb
      (insn_of (op_size w64) 0x80 (imm_opcode (pos 300)) (group1_extension sub) (direct 4))
      (pos 300)
group1_encoder-EncodesImm_example =
    group1_encoder-EncodesImm sub w64 start 4 (pos 300) (omega arith) (omega arith)

x64_test_ri_adds_example :
    EncodesImm start.cb
      (x64_test_ri start 9 (pos 1) (bytes_of (op_size w32))).cb
      (insn_of (op_size w32) 0x80 (imm_opcode (pos 1)) (group1_extension AluImm.add) (direct 9))
      (pos 1)
x64_test_ri_adds_example = x64_test_ri_adds w32 start 9 (pos 1) (omega arith) (omega arith)

-- Code with one fixup in it.
abbrev one_jump : X64Asm
one_jump = record {
  cb = record { buf = 0xE9 ∷ 0 ∷ 0 ∷ 0 ∷ 0 ∷ []; cap = 4096; is_exec = true };
  ft = record { table = record { offset = 1; label_id = 0; is_rel32 = true } ∷ []; cap = 64 };
  lt = record { offsets = []; cap = 64 };
}

emit_branch-Ordered_example :
    ((emit_branch (jcc 0x84) one_jump 3).cb.buf
      ≡ one_jump.cb.buf ++ (0x0F ∷ 0x84 ∷ 0 ∷ 0 ∷ 0 ∷ 0 ∷ []))
    × ((emit_branch (jcc 0x84) one_jump 3).ft.table
        ≡ one_jump.ft.table
          ++ (record {
            offset = len one_jump.cb + opcode_length (jcc 0x84);
            label_id = 3;
            is_rel32 = true;
          }
              ∷ []))
    × Ordered
        (len (emit_branch (jcc 0x84) one_jump 3).cb)
        (emit_branch (jcc 0x84) one_jump 3).ft.table
emit_branch-Ordered_example = emit_branch-Ordered (jcc 0x84) one_jump 3 (omega arith, tt, tt)

len-x64_align_example :
    (len (x64_align one_jump (2 ^ 4)).cb % 2 ^ 4 ≡ 0)
    × (len one_jump.cb ≤ len (x64_align one_jump (2 ^ 4)).cb)
    × (len (x64_align one_jump (2 ^ 4)).cb < len one_jump.cb + 2 ^ 4)
len-x64_align_example = len-x64_align one_jump 4

code-IsValid : IsValid code
code-IsValid = record { fits = omega arith; bytes = omega arith }

emit-IsValid_example :
    IsValid (emit Width.w32 code 0xDEAD_BEEF)
    × ((bs : Bytes) × ((emit Width.w32 code 0xDEAD_BEEF).buf ≡ code.buf ++ bs)
        × (length bs ≡ size Width.w32)
        × (le_value bs ≡ 0xDEAD_BEEF % 2 ^ (8 * size Width.w32)))
emit-IsValid_example = emit-IsValid Width.w32 code 0xDEAD_BEEF code-IsValid

codebuf_ensure_lem_example :
    (len code + 5000 ≤ (codebuf_ensure code 5000).cap)
    × (code.cap ≤ (codebuf_ensure code 5000).cap)
    × ((codebuf_ensure code 5000).buf ≡ code.buf)
codebuf_ensure_lem_example = codebuf_ensure_lem code 5000
