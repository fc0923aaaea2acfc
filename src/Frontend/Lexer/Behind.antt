-- ===== src/Frontend/Lexer/Behind.antt =====
-- src/frontend/lexer.c: how the functions of the lexer move its state.
use o.Prelude.{
  ℕ, zero, suc, ◌+◌, ◌==◌, ◌≤◌, ◌≡◌, refl, inl, inr, Bool, true, false, not, ◌&&◌, ◌||◌, [], ◌∷◌,
  length, Bool-cases, Option, none, some, if◌then◌else◌, ltb, arith,
}
use o.Frontend.Types.{StrView}
use o.Frontend.Lexer.{Lexer, cur, peek1, more, advance, tail_of}
use o.Frontend.Lexer.Scan.{
  is_digit, is_space, advance_while, scan, skip_block, skip_comment, skip_from, hex_escape,
  parse_escape, string_char, string_body, lex_string, lex_char, digits, fraction, skip_sign,
  exponent,
}

-- The second state is behind the first: the position has moved by the bytes that were taken.
pub record Behind (l l' : Lexer) : Type 0 where
  pub total : l'.pos + length l'.rest ≡ l.pos + length l.rest
  pub shorter : length l'.rest ≤ length l.rest

pub Behind-refl : (l : Lexer) → Behind l l
Behind-refl l = record { total = refl; shorter = omega arith }

pub Behind-trans : {l m n : Lexer} → Behind l m → Behind m n → Behind l n
Behind-trans h k = record {
  total = omega (arith, h.total, k.total);
  shorter = omega (arith, h.shorter, k.shorter);
}

length-tail_of : (s : StrView) → ltb 0 (length s) ≡ true → length (tail_of s) + 1 ≡ length s
length-tail_of [] h = ground arith
length-tail_of (c ∷ cs) h = omega arith

pub advance-shorter : (l : Lexer) → more l ≡ true → length (advance l).rest + 1 ≡ length l.rest
unfolding advance
advance-shorter l e = rw e (length-tail_of l.rest e)

pub Behind-advance : (l : Lexer) → Behind l (advance l)
unfolding advance
Behind-advance l = elim (Bool-cases (more l)) [
  | inl e ↦
      let t = length-tail_of l.rest e in
      rw e (record { total = omega (arith, t); shorter = omega (arith, t) })
  | inr e ↦ rw e (Behind-refl l)
]

-- A result with the state behind it.
abbrev pub Leads : {A : Type 0} → Lexer → A × Lexer → Type 0
Leads l r = Behind l r.1

pub advance_twice : (l : Lexer) → Behind l (advance (advance l))
advance_twice l = Behind-trans (Behind-advance l) (Behind-advance (advance l))

-- Whichever way a test goes.
pub either_way :
    {A : Type 0} (P : A → Type 0) (b : Bool) {t f : A}
    → P t
    → P f
    → P (elim b [ true ↦ t | false ↦ f ])
either_way P true h k = h
either_way P false h k = k

pub Behind-advance_while : (p : ℕ → Bool) (n : ℕ) (l : Lexer) → Behind l (advance_while p n l)
unfolding advance_while
Behind-advance_while p zero l = Behind-refl l
Behind-advance_while p (suc n) l =
    either_way (Behind l) (more l && p (cur l))
      (Behind-trans (Behind-advance l) (Behind-advance_while p n (advance l))) (Behind-refl l)

pub Behind-skip_block : (n : ℕ) (l : Lexer) → Behind l (skip_block n l)
unfolding skip_block
Behind-skip_block zero l = Behind-refl l
Behind-skip_block (suc n) l =
    either_way (Behind l) (more l)
      (either_way (Behind l) (cur l == 42 && peek1 l == 47) (advance_twice l)
        (Behind-trans (Behind-advance l) (Behind-skip_block n (advance l))))
      (Behind-refl l)

-- The way of a test that holds.
pub way_of :
    {A : Type 0} (P : A → Type 0) (b : Bool) {t : A} (f : A)
    → b ≡ true
    → P t
    → P (elim b [ true ↦ t | false ↦ f ])
way_of P true f e h = h
way_of P false f e h = ground arith

-- The same of if-then-else.
pub either_if :
    {A : Type 0} (P : A → Type 0) (b : Bool) {t f : A} → P t → P f → P (if b then t else f)
either_if P true h k = h
either_if P false h k = k

-- What an optional state leads to, if it is there.
abbrev IfThere : Lexer → Option Lexer → Type 0
IfThere l none = Unit
IfThere l (some l') = Behind l l'

IfThere-skip_comment : (l : Lexer) → IfThere l (skip_comment l)
unfolding skip_comment
IfThere-skip_comment l =
    either_way (IfThere l) (cur l == 47 && peek1 l == 47)
      (Behind-advance_while (λ c. not (c == 10)) (length l.rest) l)
      (either_way (IfThere l) (cur l == 47 && peek1 l == 42)
        (Behind-trans (advance_twice l) (Behind-skip_block (length l.rest) (advance (advance l))))
        tt)

pub Behind-after_comment :
    (n : ℕ) {l m : Lexer} (o : Option Lexer)
    → ((k : Lexer) → Behind k (skip_from n k))
    → Behind l m
    → IfThere m o
    → Behind l (elim o [ some l' ↦ skip_from n l' | none ↦ m ])
Behind-after_comment n none rest to_m h = to_m
Behind-after_comment n (some l') rest to_m h = Behind-trans to_m (Behind-trans h (rest l'))

pub Behind-skip_from : (n : ℕ) (l : Lexer) → Behind l (skip_from n l)
unfolding skip_from
Behind-skip_from zero l = Behind-refl l
Behind-skip_from (suc n) l =
    Behind-after_comment n (skip_comment (scan is_space l)) (Behind-skip_from n)
      (Behind-advance_while is_space (length l.rest) l) (IfThere-skip_comment (scan is_space l))

pub Behind-hex_escape : (l : Lexer) → Leads l (hex_escape l)
unfolding hex_escape
Behind-hex_escape l = advance_twice l

pub Behind-parse_escape : (l : Lexer) → Leads l (parse_escape l)
unfolding parse_escape
Behind-parse_escape l =
    either_if (Leads l) (cur (advance l) == 120)
      (Behind-trans (advance_twice l) (Behind-hex_escape (advance (advance l)))) (advance_twice l)

pub Behind-string_char : (l : Lexer) → Leads l (string_char l)
unfolding string_char
Behind-string_char l = either_way (Leads l) (cur l == 92) (Behind-parse_escape l) (Behind-advance l)

pub Behind-string_body : (n : ℕ) (buf : StrView) (l : Lexer) → Leads l (string_body n buf l)
unfolding string_body
Behind-string_body zero buf l = Behind-refl l
Behind-string_body (suc n) buf l =
    either_way (Leads l) (more l && not (cur l == 34))
      (Behind-trans (Behind-string_char l) (Behind-string_body n _ (string_char l).1))
      (Behind-refl l)

-- One more byte, if the test holds.
pub Behind-advance_if :
    (b : Bool) {l : Lexer} (m : Lexer) → Behind l m → Behind l (if b then advance m else m)
Behind-advance_if true m h = Behind-trans h (Behind-advance m)
Behind-advance_if false m h = h

pub Behind-lex_string : (l : Lexer) → Behind (advance l) (lex_string l).1
unfolding lex_string
Behind-lex_string l =
    Behind-advance_if _ _ (Behind-string_body (length (advance l).rest) [] (advance l))

pub Behind-lex_char : (l : Lexer) → Behind (advance l) (lex_char l).1
unfolding lex_char
Behind-lex_char l = Behind-advance_if _ _ (unless _ _ (first (cur (advance l) == 92)))
  where
    first :
        (b : Bool)
        → Behind
            (advance l)
            (if b then parse_escape (advance l) else (cur (advance l), advance l)).1
    first true = Behind-parse_escape (advance l)
    first false = Behind-refl (advance l)

    unless :
        (b : Bool) (m : Lexer)
        → Behind (advance l) m
        → Behind (advance l) (if b then m else advance m)
    unless true m h = h
    unless false m h = Behind-trans h (Behind-advance m)

pub Behind-digits :
    (base : ℕ) (p : ℕ → Bool) (n val : ℕ) (l : Lexer) → Leads l (digits base p n val l)
unfolding digits
Behind-digits base p zero val l = Behind-refl l
Behind-digits base p (suc n) val l =
    either_way (Leads l) (p (cur l))
      (Behind-trans (Behind-advance l) (Behind-digits base p n _ (advance l)))
      (either_way (Leads l) (cur l == 95)
        (Behind-trans (Behind-advance l) (Behind-digits base p n val (advance l))) (Behind-refl l))

pub Behind-fraction : (l : Lexer) → Leads l (fraction l)
unfolding fraction
Behind-fraction l =
    either_if (Leads l) (cur l == 46 && not (peek1 l == 46))
      (Behind-trans (Behind-advance l) (Behind-advance_while is_digit _ (advance l)))
      (Behind-refl l)

pub Behind-exponent : (l : Lexer) → Leads l (exponent l)
unfolding exponent
Behind-exponent l =
    either_if (Leads l) (cur l == 101 || cur l == 69)
      (Behind-trans
        (Behind-advance_if (cur (advance l) == 43 || cur (advance l) == 45) (advance l)
          (Behind-advance l))
        (Behind-advance_while is_digit _ (skip_sign (advance l))))
      (Behind-refl l)
