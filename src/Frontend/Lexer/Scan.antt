-- ===== src/Frontend/Lexer/Scan.antt =====
-- src/frontend/lexer.c: white space, identifiers, literals. A loop takes as fuel the bytes that are
-- left, since every turn consumes one. What a diagnostic prints is not modelled.
use o.Prelude.{
  ℕ, zero, suc, ◌+◌, ◌-◌, ◌*◌, ◌%◌, ◌^◌, ◌==◌, Bool, true, false, not, ◌&&◌, ◌||◌, [], ◌∷◌, ◌++◌,
  leb, length, take, if◌then◌else◌, Option, none, some,
}
use o.Frontend.Types.{StrView}
use o.Frontend.Ast.{F64}
use o.Frontend.Lexer.{
  tok_int_lit, tok_float_lit, tok_string_lit, tok_char_lit, Token, Lexer, cur, peek1, more, advance,
  here, token, classify_ident,
}

abbrev pub between : ℕ → ℕ → ℕ → Bool
between lo c hi = leb lo c && leb c hi

-- The classes of ctype.h in the C locale.
abbrev pub is_space : ℕ → Bool
is_space c = c == 32 || between 9 c 13

abbrev pub is_digit : ℕ → Bool
is_digit c = between 48 c 57

abbrev pub is_alpha : ℕ → Bool
is_alpha c = between 65 c 90 || between 97 c 122

abbrev pub is_xdigit : ℕ → Bool
is_xdigit c = is_digit c || between 65 c 70 || between 97 c 102

abbrev pub is_name : ℕ → Bool
is_name c = is_alpha c || is_digit c || c == 95

-- `while (p(cur(l))) advance(l)`, while there is source left.
unfoldable pub advance_while : (ℕ → Bool) → ℕ → Lexer → Lexer
advance_while p zero l = l
advance_while p (suc n) l = elim (more l && p (cur l)) [
  | true ↦ advance_while p n (advance l)
  | false ↦ l
]

abbrev pub scan : (ℕ → Bool) → Lexer → Lexer
scan p l = advance_while p (length l.rest) l

-- Up to the end of a block comment.
unfoldable pub skip_block : ℕ → Lexer → Lexer
skip_block zero l = l
skip_block (suc n) l = elim (more l) [
  | false ↦ l
  | true ↦ elim (cur l == 42 && peek1 l == 47) [
    | true ↦ advance (advance l)
    | false ↦ skip_block n (advance l)
  ]
]

-- Behind a comment that starts here.
unfoldable pub skip_comment : Lexer → Option Lexer
skip_comment l = elim (cur l == 47 && peek1 l == 47) [
  | true ↦ some (scan (λ c. not (c == 10)) l)
  | false ↦ elim (cur l == 47 && peek1 l == 42) [
    | true ↦ some (skip_block (length l.rest) (advance (advance l)))
    | false ↦ none
  ]
]

unfoldable pub skip_from : ℕ → Lexer → Lexer
skip_from zero l = l
skip_from (suc n) l = elim (skip_comment (scan is_space l)) [
  | some l' ↦ skip_from n l'
  | none ↦ scan is_space l
]

unfoldable pub skip_whitespace : Lexer → Lexer
skip_whitespace l = skip_from (length l.rest + 1) l

-- The source from one state to a later one.
abbrev pub text_between : Lexer → Lexer → StrView
text_between l l' = take (l'.pos - l.pos) l.rest

unfoldable pub lex_ident : Lexer → Token × Lexer
lex_ident l =
    let l' = scan is_name l in
    let text = text_between l l' in (token (classify_ident text) text (here l), l')

-- A `char` as 64 bits: bytes from 128 on are negative.
abbrev pub char_value : ℕ → ℕ
char_value c = if leb 128 c then 2 ^ 64 - 256 + c else c

-- The value of a hexadecimal digit, and of other bytes what the subtraction gives modulo 2 ^ 64.
abbrev pub hex_digit : ℕ → ℕ
hex_digit h =
    if is_digit h
    then h - 48
    else if between 97 h 127
    then h - 97 + 10
    else (char_value h + (2 ^ 64 - 65 + 10)) % 2 ^ 64

unfoldable pub hex_escape : Lexer → ℕ × Lexer
hex_escape l =
    let l' = advance l in ((hex_digit (cur l) * 16 + hex_digit (cur l')) % 2 ^ 64, advance l')

abbrev pub escape_value : ℕ → ℕ
escape_value c =
    if c == 110
    then 10
    else if c == 116
    then 9
    else if c == 114
    then 13
    else if c == 48
    then 0
    else char_value c

-- Behind a backslash. An unknown escape is reported and stands for its byte.
unfoldable pub parse_escape : Lexer → ℕ × Lexer
parse_escape l =
    let l' = advance l in
    if cur l' == 120 then hex_escape (advance l') else (escape_value (cur l'), advance l')

-- One byte of a string, or an escape.
unfoldable pub string_char : Lexer → ℕ × Lexer
string_char l = elim (cur l == 92) [
  | true ↦ (let (v, l') = parse_escape l in (v % 256, l'))
  | false ↦ (cur l, advance l)
]

unfoldable pub string_body : ℕ → StrView → Lexer → StrView × Lexer
string_body zero buf l = (buf, l)
string_body (suc n) buf l = elim (more l && not (cur l == 34)) [
  | false ↦ (buf, l)
  | true ↦ let (c, l') = string_char l in string_body n (buf ++ (c ∷ [])) l'
]

unfoldable pub lex_string : Lexer → Token × Lexer
lex_string l =
    let l1 = advance l in
    let (text, l2) = string_body (length l1.rest) [] l1 in
    (token tok_string_lit text (here l), if cur l2 == 34 then advance l2 else l2)

unfoldable pub lex_char : Lexer → Token × Lexer
lex_char l =
    let l1 = advance l in
    let (val, l2) = if cur l1 == 92 then parse_escape l1 else (cur l1, l1) in
    let l3 = if cur l2 == 92 then l2 else advance l2 in
    let l4 = if cur l3 == 39 then advance l3 else l3 in
    (record (token tok_char_lit [] (here l)) { int_val = val }, l4)

-- Digits of a base, with underscores between them, onto a value of 64 bits.
unfoldable pub digits : ℕ → (ℕ → Bool) → ℕ → ℕ → Lexer → ℕ × Lexer
digits base p zero val l = (val, l)
digits base p (suc n) val l = elim (p (cur l)) [
  | true ↦ digits base p n ((val * base + hex_digit (cur l)) % 2 ^ 64) (advance l)
  | false ↦ elim (cur l == 95) [ true ↦ digits base p n val (advance l) | false ↦ (val, l) ]
]

abbrev pub is_bit : ℕ → Bool
is_bit c = c == 48 || c == 49

unfoldable pub integer_part : Lexer → ℕ × Lexer
integer_part l0 =
    let l = if cur l0 == 48 then advance l0 else l0 in
    if cur l0 == 48 && (cur l == 120 || cur l == 88)
    then digits 16 is_xdigit (length l.rest) 0 (advance l)
    else if cur l0 == 48 && (cur l == 98 || cur l == 66)
    then digits 2 is_bit (length l.rest) 0 (advance l)
    else digits 10 is_digit (length l.rest) 0 l

unfoldable pub fraction : Lexer → Bool × Lexer
fraction l =
    if cur l == 46 && not (peek1 l == 46) then (true, scan is_digit (advance l)) else (false, l)

abbrev pub skip_sign : Lexer → Lexer
skip_sign l = if cur l == 43 || cur l == 45 then advance l else l

unfoldable pub exponent : Lexer → Bool × Lexer
exponent l =
    if cur l == 101 || cur l == 69
    then (true, scan is_digit (skip_sign (advance l)))
    else (false, l)

-- `strtod` of the C library turns the first 63 bytes of a number into a double.
unfoldable pub lex_number : (StrView → F64) → Lexer → Token × Lexer
lex_number strtod l =
    let (val, l1) = integer_part l in
    let (fractional, l2) = fraction l1 in
    let (scaled, l3) = exponent l2 in
    let text = text_between l l3 in
    (
      if fractional || scaled
          then record (token tok_float_lit text (here l)) { flt_val = strtod (take 63 text) }
          else record (token tok_int_lit text (here l)) { int_val = val },
      l3,
    )
