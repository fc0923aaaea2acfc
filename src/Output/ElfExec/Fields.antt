-- ===== src/Output/ElfExec/Fields.antt =====
-- The fields of an ELF file, read from its bytes at the places that the format gives them.
use o.Prelude.{
  ℕ, zero, suc, ◌+◌, ◌*◌, ◌≤◌, ◌≡◌, refl, sym, ◌∙◌, ap, [], ◌∷◌, ◌++◌, take, drop, length, arith,
}
use o.Backend.CodeBuf.{Bytes}
use o.Backend.Buffer.{le_value}
use o.Output.File.{At}

-- The little-endian value of `w` bytes from an offset on.
unfoldable pub field : ℕ → ℕ → Bytes → ℕ
field off w f = le_value (take w (drop off f))

-- The offsets of the program headers and of the section headers.
abbrev pub e_phoff : Bytes → ℕ
e_phoff f = field 32 8 f

abbrev pub e_shoff : Bytes → ℕ
e_shoff f = field 40 8 f

-- The offset that a program header, or a section header of 80 bytes, gives.
abbrev pub p_offset : ℕ → Bytes → ℕ
p_offset i f = field (e_phoff f + (56 * i + 8)) 8 f

abbrev pub sh_offset : ℕ → Bytes → ℕ
sh_offset i f = field (e_shoff f + (80 * i + 32)) 8 f

drop-behind : (xs ys : Bytes) (k : ℕ) → drop (length xs + k) (xs ++ ys) ≡ drop k ys
drop-behind [] ys k = ap (λ n. drop n ys) (omega arith)
drop-behind (x ∷ xs) ys k = ap (λ n. drop n (x ∷ (xs ++ ys))) more ∙ drop-behind xs ys k
  where
    more : suc (length xs) + k ≡ suc (length xs + k)
    more = omega arith

take-front : (w : ℕ) (xs ys : Bytes) → w ≤ length xs → take w (xs ++ ys) ≡ take w xs
take-front zero xs ys h = refl
take-front (suc w) [] ys h = absurd (omega arith)
take-front (suc w) (x ∷ xs) ys h = ap (λ t. x ∷ t) (take-front w xs ys (omega arith))

take-drop :
    (k w : ℕ) (xs ys : Bytes) → k + w ≤ length xs → take w (drop k (xs ++ ys)) ≡ take w (drop k xs)
take-drop zero w xs ys h = take-front w xs ys (omega arith)
take-drop (suc k) w [] ys h = absurd (omega arith)
take-drop (suc k) w (x ∷ xs) ys h = take-drop k w xs ys (omega arith)

-- A field inside a part is a field of the file.
pub field-At :
    {off : ℕ} {part f : Bytes} (k w : ℕ)
    → At off part f
    → k + w ≤ length part
    → field (off + k) w f ≡ field k w part
unfolding field
field-At {off = off} {part = part} {f = f} k w h room = rw h.split (
    ap (λ n. le_value (take w (drop (n + k) (h.before ++ (part ++ h.after))))) (sym h.offset)
    ∙ ap (λ t. le_value (take w t)) (drop-behind h.before (part ++ h.after) k)
    ∙ ap le_value (take-drop k w part h.after room))
