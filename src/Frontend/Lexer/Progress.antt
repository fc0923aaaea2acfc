-- ===== src/Frontend/Lexer/Progress.antt =====
-- src/frontend/lexer.c: what `lexer_next` takes from the source.
use o.Prelude.{
  ℕ, zero, suc, ◌+◌, ◌==◌, ◌<◌, ◌≡◌, refl, ◌⊎◌, inl, inr, Bool, true, false, ◌&&◌, ◌||◌, List, [],
  ◌∷◌, length, take, Bool-cases, Option, none, some, if◌then◌else◌, ltb, arith,
}
use o.Frontend.Types.{StrView}
use o.Frontend.Ast.{F64}
use o.Frontend.Lexer.{TokKind, tok_eof, Token, Lexer, tok_error, cur, more, advance, here, token}
use o.Frontend.Lexer.Scan.{
  is_alpha, is_digit, is_name, is_xdigit, is_bit, advance_while, skip_whitespace, lex_ident,
  lex_string, lex_char, digits, integer_part, fraction, lex_number,
}
use o.Frontend.Lexer.Next.{
  Start, word, number, text, char, other, starts, operators, second_of, operator_of, dots, angle,
  punctuation, lex_operator, lexer_next,
}
use o.Frontend.Lexer.Behind.{
  Behind, Leads, Behind-refl, Behind-trans, Behind-advance, advance-shorter, advance_twice,
  either_if, way_of, Behind-advance_while, Behind-skip_from, Behind-lex_string, Behind-lex_char,
  Behind-digits, Behind-fraction, Behind-exponent,
}

first-advance_while :
    (p : ℕ → Bool) (n : ℕ) (l : Lexer)
    → ltb 0 n ≡ true
    → more l && p (cur l) ≡ true
    → Behind (advance l) (advance_while p n l)
unfolding advance_while
first-advance_while p zero l h e = ground arith
first-advance_while p (suc n) l h e =
    way_of (Behind (advance l)) (more l && p (cur l)) _ e (Behind-advance_while p n (advance l))

first-digits :
    (base : ℕ) (p : ℕ → Bool) (n val : ℕ) (l : Lexer)
    → ltb 0 n ≡ true
    → p (cur l) ≡ true
    → Leads (advance l) (digits base p n val l)
unfolding digits
first-digits base p zero val l h e = ground arith
first-digits base p (suc n) val l h e =
    way_of (Leads (advance l)) (p (cur l)) _ e (Behind-digits base p n _ (advance l))

first-lex_ident :
    (l : Lexer) → more l ≡ true → is_name (cur l) ≡ true → Leads (advance l) (lex_ident l)
unfolding lex_ident
first-lex_ident l h e = first-advance_while is_name (length l.rest) l h (rw (h, e) refl)

first-integer_part :
    (l : Lexer) → more l ≡ true → is_digit (cur l) ≡ true → Leads (advance l) (integer_part l)
unfolding integer_part
first-integer_part l h e = elim (Bool-cases (cur l == 48)) [
  | inr z ↦ rw z (first-digits 10 is_digit (length l.rest) 0 l h e)
  | inl z ↦ rw z (
      either_if (Leads (advance l)) (cur (advance l) == 120 || cur (advance l) == 88)
        (Behind-trans (Behind-advance (advance l)) (Behind-digits 16 is_xdigit _ 0 _))
        (either_if (Leads (advance l)) (cur (advance l) == 98 || cur (advance l) == 66)
          (Behind-trans (Behind-advance (advance l)) (Behind-digits 2 is_bit _ 0 _))
          (Behind-digits 10 is_digit _ 0 (advance l))))
]

first-lex_number :
    (strtod : StrView → F64) (l : Lexer)
    → more l ≡ true
    → is_digit (cur l) ≡ true
    → Leads (advance l) (lex_number strtod l)
unfolding lex_number
first-lex_number strtod l h e = Behind-trans (first-integer_part l h e) (
    Behind-trans (Behind-fraction (integer_part l).1)
      (Behind-exponent (fraction (integer_part l).1).1))

Behind-second_of :
    (ks : List (ℕ × TokKind)) (kind : TokKind) (l : Lexer) → Leads l (second_of ks kind l)
unfolding second_of
Behind-second_of [] kind l = Behind-refl l
Behind-second_of ((d, two) ∷ ks) kind l =
    either_if (Leads l) (cur l == d) (Behind-advance l) (Behind-second_of ks kind l)

abbrev IfRead : Lexer → Option ((TokKind × ℕ) × Lexer) → Type 0
IfRead l none = Unit
IfRead l (some r) = Leads l r

IfRead-operator_of :
    (os : List (ℕ × (List (ℕ × TokKind) × TokKind))) (c : ℕ) (l : Lexer)
    → IfRead l (operator_of os c l)
unfolding operator_of
IfRead-operator_of [] c l = tt
IfRead-operator_of ((d, (ks, kind)) ∷ os) c l =
    either_if (IfRead l) (c == d) (Behind-second_of ks kind l) (IfRead-operator_of os c l)

Behind-dots : (l : Lexer) → Leads l (dots l)
unfolding dots
Behind-dots l =
    either_if (Leads l) (cur l == 46)
      (either_if (Leads l) (cur (advance l) == 46) (advance_twice l) (Behind-advance l))
      (Behind-refl l)

Behind-angle : (c : ℕ) (k1 k2 k3 k4 : TokKind) (l : Lexer) → Leads l (angle c k1 k2 k3 k4 l)
unfolding angle
Behind-angle c k1 k2 k3 k4 l =
    either_if (Leads l) (cur l == c)
      (either_if (Leads l) (cur (advance l) == 61) (advance_twice l) (Behind-advance l))
      (either_if (Leads l) (cur l == 61) (Behind-advance l) (Behind-refl l))

IfRead-punctuation : (c : ℕ) (l : Lexer) → IfRead l (punctuation c l)
unfolding punctuation
IfRead-punctuation c l = either_if (IfRead l) (c == 46) (Behind-dots l) (
    either_if (IfRead l) (c == 60) (Behind-angle 60 _ _ _ _ l) (
      either_if (IfRead l) (c == 62) (Behind-angle 62 _ _ _ _ l)
        (IfRead-operator_of operators c l)))

first-operator :
    (l : Lexer) (o : Option ((TokKind × ℕ) × Lexer))
    → IfRead (advance l) o
    → Leads {A = Token} (advance l) (elim o [
      | some ((kind, n), l') ↦ (token kind (take n l.rest) (here l), l')
      | none ↦ (
        token tok_error (take 1 l.rest) (here l),
        record (advance l) { error_count = l.error_count + 1 },
      )
    ])
first-operator l none h = record { total = refl; shorter = omega arith }
first-operator l (some ((kind, n), l')) h = h

first-lex_operator : (l : Lexer) → Leads (advance l) (lex_operator l)
unfolding lex_operator
first-lex_operator l =
    first-operator l (punctuation (cur l) (advance l)) (IfRead-punctuation (cur l) (advance l))

-- What is known of the byte that a start is chosen for, if it is in a name or is a digit.
abbrev Begins : Bool → Bool → Start → Type 0
Begins in_name is_a_digit word = in_name ≡ true
Begins in_name is_a_digit number = is_a_digit ≡ true
Begins in_name is_a_digit _ = Unit

Begins-choice :
    (a d u q s : Bool)
    → Begins (a || d || u) d (
        if a || u
        then word
        else if d
        then number
        else if q
        then text
        else if s
        then char
        else other)
Begins-choice true d u q s = refl
Begins-choice false true true q s = refl
Begins-choice false false true q s = refl
Begins-choice false true false q s = refl
Begins-choice false false false true s = tt
Begins-choice false false false false true = tt
Begins-choice false false false false false = tt

first-token :
    (strtod : StrView → F64) (l : Lexer) (s : Start)
    → more l ≡ true
    → Begins (is_name (cur l)) (is_digit (cur l)) s
    → Leads {A = Token} (advance l) (elim s [
      | word ↦ lex_ident l
      | number ↦ lex_number strtod l
      | text ↦ lex_string l
      | char ↦ lex_char l
      | other ↦ lex_operator l
    ])
first-token strtod l word h e = first-lex_ident l h e
first-token strtod l number h e = first-lex_number strtod l h e
first-token strtod l text h e = Behind-lex_string l
first-token strtod l char h e = Behind-lex_char l
first-token strtod l other h e = first-lex_operator l

nothing_left : (s : StrView) → ltb 0 (length s) ≡ false → s ≡ []
nothing_left [] h = refl
nothing_left (c ∷ cs) h = ground arith

-- A test that may end either way, with what each way knows.
by_test :
    {A : Type 0} (P : A → Type 0) (b : Bool) {t f : A}
    → (b ≡ false → P f)
    → (b ≡ true → P t)
    → P (elim b [ false ↦ f | true ↦ t ])
by_test P true h k = k refl
by_test P false h k = h refl

-- A token with the state behind it: either it is that of the end and nothing is left of the source, or
-- at least one byte is taken.
unfoldable pub Advances : Lexer → Token × Lexer → Type 0
Advances l r =
    Behind l r.1 × (((r.0.kind ≡ tok_eof) × (r.1.rest ≡ [])) ⊎ (length r.1.rest < length l.rest))

later-Advances :
    (l0 l : Lexer) (r : Token × Lexer)
    → Behind l0 l
    → more l ≡ true
    → Leads (advance l) r
    → Advances l0 r
unfolding Advances
later-Advances l0 l r skipped e read = (
  Behind-trans skipped (Behind-trans (Behind-advance l) read),
  inr (omega (arith, read.shorter, skipped.shorter, advance-shorter l e)),
)

Behind-skip_whitespace : (l : Lexer) → Behind l (skip_whitespace l)
unfolding skip_whitespace
Behind-skip_whitespace l = Behind-skip_from (length l.rest + 1) l

at_end-Advances :
    (l0 l : Lexer) → Behind l0 l → more l ≡ false → Advances l0 (token tok_eof [] (here l), l)
unfolding Advances
at_end-Advances l0 l skipped e = (skipped, inl (refl, nothing_left l.rest e))

-- From every state, the lexer's position moves by exactly the number of bytes that the source left
-- loses, and either the token is that of the end and nothing is left of the source, or at least one
-- byte is taken.
pub lexer_next-Advances : (strtod : StrView → F64) (l : Lexer) → Advances l (lexer_next strtod l)
unfolding lexer_next
lexer_next-Advances strtod l0 =
    let l = skip_whitespace l0 in
    let skipped = Behind-skip_whitespace l0 in
    let begins =
      Begins-choice (is_alpha (cur l)) (is_digit (cur l)) (cur l == 95) (cur l == 34)
        (cur l == 39) in
    by_test (Advances l0) (more l) (at_end-Advances l0 l skipped)
      (λ e. later-Advances l0 l _ skipped e (first-token strtod l (starts (cur l)) e begins))
