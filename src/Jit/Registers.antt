-- ===== src/Jit/Registers.antt =====
-- Counting in lists, and sets of registers as lists of bits: what the proofs about the register
-- allocator of src/jit/jit.c share.
use o.Prelude.{
  ℕ, zero, suc, ◌+◌, ◌≤◌, ◌≡◌, refl, ap, Bool, true, false, List, [], ◌∷◌, ◌++◌, length, set,
  get_or, arith,
}
use o.Jit.LinearScan.{RegSet, any_reg, lowest_reg, last_of, front_of, move_last}

abbrev pub bit : Bool → ℕ
bit true = 1
bit false = 0

pub bit-le : (b : Bool) → bit b ≤ 1
bit-le true = omega arith
bit-le false = omega arith

-- The number of items that pass a test.
unfoldable pub count {ℓ} : {A : Type ℓ} → (A → Bool) → List A → ℕ
count p [] = 0
count p (x ∷ xs) = bit (p x) + count p xs

module _ {ℓ} {A : Type ℓ} (p : A → Bool) where
  pub count-append : (xs ys : List A) → count p (xs ++ ys) ≡ count p xs + count p ys
  unfolding count
  count-append [] ys = omega arith
  count-append (x ∷ xs) ys = omega (arith, count-append xs ys)

count-last_of :
    (p : ℕ → Bool) (v : ℕ) (ws : List ℕ)
    → bit (p (last_of v ws)) + count p (front_of v ws) ≡ bit (p v) + count p ws
unfolding count
count-last_of p v [] = refl
count-last_of p v (w ∷ ws) = omega (arith, count-last_of p w ws)

pub count-move_last : (p : ℕ → Bool) (vs : List ℕ) → count p (move_last vs) ≡ count p vs
unfolding count move_last
count-move_last p [] = refl
count-move_last p (v ∷ vs) = count-last_of p v vs

length-front_of : (v : ℕ) (ws : List ℕ) → length (front_of v ws) ≡ length ws
length-front_of v [] = refl
length-front_of v (w ∷ ws) = ap suc (length-front_of w ws)

pub length-move_last : (vs : List ℕ) → length (move_last vs) ≡ length vs
unfolding move_last
length-move_last [] = refl
length-move_last (v ∷ vs) = ap suc (length-front_of v vs)

-- The number of registers in a set.
unfoldable pub ones : RegSet → ℕ
ones [] = 0
ones (b ∷ rs) = bit b + ones rs

pub ones-add : (rs : RegSet) (r : ℕ) → ones (set rs r true) ≤ ones rs + 1
unfolding ones
ones-add [] r = omega arith
ones-add (b ∷ rs) zero = omega (arith, bit-le b)
ones-add (b ∷ rs) (suc r) = omega (arith, ones-add rs r)

pub ones-drop :
    (rs : RegSet) (r : ℕ) → get_or rs r false ≡ true → ones (set rs r false) + 1 ≡ ones rs
unfolding ones
ones-drop [] r h = ground arith
ones-drop (b ∷ rs) zero h = ground arith
ones-drop (b ∷ rs) (suc r) h = omega (arith, ones-drop rs r h)

pub lowest_reg-has : (rs : RegSet) → any_reg rs ≡ true → get_or rs (lowest_reg rs) false ≡ true
unfolding any_reg lowest_reg
lowest_reg-has [] h = ground arith
lowest_reg-has (true ∷ rs) h = refl
lowest_reg-has (false ∷ rs) h = lowest_reg-has rs h

-- A register that is dropped from a set is not in it.
pub get_or-drop : (rs : RegSet) (r : ℕ) → get_or (set rs r false) r false ≡ false
get_or-drop [] r = refl
get_or-drop (b ∷ rs) zero = refl
get_or-drop (b ∷ rs) (suc r) = get_or-drop rs r
