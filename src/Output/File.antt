-- ===== src/Output/File.antt =====
-- src/output/elf/exec.c: a file that is written from its start to its end, as the list of its bytes. Every
-- write is taken to be complete.
use mathlib.Core.List.{append_assoc, append-nil}
use o.Prelude.{
  ℕ, ◌+◌, ◌-◌, ◌%◌, ◌≡◌, sym, ◌∙◌, ap, ◌++◌, [], ◌==◌, if◌then◌else◌, length, length-append,
  length-replicate, replicate, arith, Bool-cases, inl, inr,
}
use o.Backend.CodeBuf.{Bytes, align_up}

unfoldable pub ee_wbuf : Bytes → Bytes → Bytes
ee_wbuf f p = f ++ p

unfoldable pub ee_wpad : Bytes → ℕ → Bytes
ee_wpad f n = f ++ replicate n 0

unfoldable pub ee_pos : Bytes → ℕ
ee_pos f = length f

unfoldable pub ee_align : Bytes → ℕ → Bytes
ee_align f a = let rem = ee_pos f % a in if rem == 0 then f else ee_wpad f (a - rem)

-- The part stands in the file at the offset.
pub record At (off : ℕ) (part f : Bytes) : Type 0 where
  pub before : Bytes
  pub after : Bytes
  pub split : f ≡ before ++ (part ++ after)
  pub offset : length before ≡ off

-- What was written stays where it is.
pub At-append : {off : ℕ} {part f : Bytes} (more : Bytes) → At off part f → At off part (f ++ more)
At-append {part = part} more p = record {
  before = p.before;
  after = p.after ++ more;
  split = rw p.split (
      append_assoc p.before (part ++ p.after) more
      ∙ ap (λ (t : Bytes). p.before ++ t) (append_assoc part p.after more));
  offset = p.offset;
}

-- What is written next stands at the position.
pub At-ee_wbuf : (f part : Bytes) {off : ℕ} → length f ≡ off → At off part (ee_wbuf f part)
unfolding ee_wbuf
At-ee_wbuf f part e = record {
  before = f;
  after = [];
  split = ap (λ (t : Bytes). f ++ t) (sym (append-nil part));
  offset = e;
}

pub At-later : {off : ℕ} {part f : Bytes} (p : Bytes) → At off part f → At off part (ee_wbuf f p)
unfolding ee_wbuf
At-later p h = At-append p h

pub At-pad : {off : ℕ} {part f : Bytes} (n : ℕ) → At off part f → At off part (ee_wpad f n)
unfolding ee_wpad
At-pad n h = At-append (replicate n 0) h

pub At-align : {off : ℕ} {part f : Bytes} (a : ℕ) → At off part f → At off part (ee_align f a)
unfolding ee_align
At-align {f = f} a h = elim (Bool-cases (ee_pos f % a == 0)) [
  | inl e ↦ rw e h
  | inr e ↦ rw e (At-pad (a - ee_pos f % a) h)
]

pub length-ee_wbuf : (f p : Bytes) → length (ee_wbuf f p) ≡ length f + length p
unfolding ee_wbuf
length-ee_wbuf f p = length-append f p

pub length-ee_wpad : (f : Bytes) (n : ℕ) → length (ee_wpad f n) ≡ length f + n
unfolding ee_wpad
length-ee_wpad f n = omega (arith, length-append f (replicate n 0), length-replicate {A = ℕ} n 0)

pub length-ee_align8 : (f : Bytes) → length (ee_align f 8) ≡ align_up (length f) 8
unfolding ee_align ee_pos
length-ee_align8 f = elim (Bool-cases (length f % 8 == 0)) [
  | inl e ↦ rw e (ground arith)
  | inr e ↦ rw e (ground (arith, length-ee_wpad f (8 - length f % 8)))
]

pub length-ee_align4096 : (f : Bytes) → length (ee_align f 4096) ≡ align_up (length f) 4096
unfolding ee_align ee_pos
length-ee_align4096 f = elim (Bool-cases (length f % 4096 == 0)) [
  | inl e ↦ rw e (ground arith)
  | inr e ↦ rw e (ground (arith, length-ee_wpad f (4096 - length f % 4096)))
]
