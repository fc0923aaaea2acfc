-- ===== src/Backend/Tests.antt =====
-- Tests of the encoders of src/backend/x64.c on concrete instructions.
mod AluBytes
mod MovBytes
mod SseBytes
mod JumpBytes
mod FrameBytes
use o.Prelude.{false, List, [], map}
use o.Backend.CodeBuf.{Bytes}
use o.Backend.Asm.{X64Asm}

abbrev pub empty_asm : X64Asm
empty_asm = record {
  cb = record { buf = []; cap = 4096; is_exec = false };
  ft = record { table = []; cap = 0 };
  lt = record { offsets = []; cap = 64 };
}

-- What each instruction adds to an empty buffer.
abbrev pub written : List (X64Asm → X64Asm) → List Bytes
written fs = map (λ f. (f empty_asm).cb.buf) fs
