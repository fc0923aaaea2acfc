-- ===== src/Frontend/Lexer/Next.antt =====
-- src/frontend/lexer.c: `lexer_next` and `lexer_peek`. A location's file and what a diagnostic prints
-- are not modelled.
use o.Prelude.{
  ℕ, ◌+◌, ◌==◌, true, false, ◌||◌, List, [], ◌∷◌, take, Option, none, some, if◌then◌else◌,
}
use o.Frontend.Types.{StrView}
use o.Frontend.Ast.{F64}
use o.Frontend.Lexer.{
  TokKind, tok_amp, tok_amp_amp, tok_amp_assign, tok_arrow, tok_assign, tok_at, tok_bang, tok_caret,
  tok_caret_assign, tok_colon, tok_comma, tok_dot, tok_dotdot, tok_dotdotdot, tok_eof, tok_eq,
  tok_error, tok_fat_arrow, tok_ge, tok_gt, tok_hash, tok_lbrace, tok_lbracket, tok_le, tok_lparen,
  tok_lshift, tok_lshift_assign, tok_lt, tok_minus, tok_minus_assign, tok_minus_minus, tok_neq,
  tok_percent, tok_percent_assign, tok_pipe, tok_pipe_assign, tok_pipe_pipe, tok_plus,
  tok_plus_assign, tok_plus_plus, tok_question, tok_rbrace, tok_rbracket, tok_rparen, tok_rshift,
  tok_rshift_assign, tok_semi, tok_slash, tok_slash_assign, tok_star, tok_star_assign, tok_tilde,
  Token, Lexer, cur, more, advance, here, token,
}
use o.Frontend.Lexer.Scan.{
  is_alpha, is_digit, skip_whitespace, lex_ident, lex_number, lex_string, lex_char,
}

-- The operators of one byte, or of two: for a first byte, the second bytes with their kinds in the
-- order of the tests, and the kind where none of them follows.
abbrev pub operators : List (ℕ × (List (ℕ × TokKind) × TokKind))
operators =
    (40, ([], tok_lparen))
    ∷ (41, ([], tok_rparen))
    ∷ (123, ([], tok_lbrace))
    ∷ (125, ([], tok_rbrace))
    ∷ (91, ([], tok_lbracket))
    ∷ (93, ([], tok_rbracket))
    ∷ (59, ([], tok_semi))
    ∷ (44, ([], tok_comma))
    ∷ (126, ([], tok_tilde))
    ∷ (64, ([], tok_at))
    ∷ (35, ([], tok_hash))
    ∷ (63, ([], tok_question))
    ∷ (58, ([], tok_colon))
    ∷ (43, ((43, tok_plus_plus) ∷ (61, tok_plus_assign) ∷ [], tok_plus))
    ∷ (45, ((45, tok_minus_minus) ∷ (62, tok_arrow) ∷ (61, tok_minus_assign) ∷ [], tok_minus))
    ∷ (42, ((61, tok_star_assign) ∷ [], tok_star))
    ∷ (47, ((61, tok_slash_assign) ∷ [], tok_slash))
    ∷ (37, ((61, tok_percent_assign) ∷ [], tok_percent))
    ∷ (38, ((38, tok_amp_amp) ∷ (61, tok_amp_assign) ∷ [], tok_amp))
    ∷ (124, ((124, tok_pipe_pipe) ∷ (61, tok_pipe_assign) ∷ [], tok_pipe))
    ∷ (94, ((61, tok_caret_assign) ∷ [], tok_caret))
    ∷ (33, ((61, tok_neq) ∷ [], tok_bang))
    ∷ (61, ((61, tok_eq) ∷ (62, tok_fat_arrow) ∷ [], tok_assign))
    ∷ []

-- A kind with the number of its bytes.
unfoldable pub second_of : List (ℕ × TokKind) → TokKind → Lexer → (TokKind × ℕ) × Lexer
second_of [] kind l = ((kind, 1), l)
second_of ((d, two) ∷ ks) kind l = if cur l == d then ((two, 2), advance l) else second_of ks kind l

unfoldable pub operator_of :
    List (ℕ × (List (ℕ × TokKind) × TokKind)) → ℕ → Lexer → Option ((TokKind × ℕ) × Lexer)
operator_of [] c l = none
operator_of ((d, (ks, kind)) ∷ os) c l =
    if c == d then some (second_of ks kind l) else operator_of os c l

-- `.`, `..` and `...`
unfoldable pub dots : Lexer → (TokKind × ℕ) × Lexer
dots l =
    if cur l == 46
    then (if cur (advance l) == 46
        then ((tok_dotdotdot, 3), advance (advance l))
        else ((tok_dotdot, 2), advance l))
    else ((tok_dot, 1), l)

-- `<`, `<=`, `<<` and `<<=`, and the same of `>`.
unfoldable pub angle : ℕ → TokKind → TokKind → TokKind → TokKind → Lexer → (TokKind × ℕ) × Lexer
angle c shift_assign shift or_equal alone l =
    if cur l == c
    then (if cur (advance l) == 61
        then ((shift_assign, 3), advance (advance l))
        else ((shift, 2), advance l))
    else if cur l == 61
    then ((or_equal, 2), advance l)
    else ((alone, 1), l)

unfoldable pub punctuation : ℕ → Lexer → Option ((TokKind × ℕ) × Lexer)
punctuation c l =
    if c == 46
    then some (dots l)
    else if c == 60
    then some (angle 60 tok_lshift_assign tok_lshift tok_le tok_lt l)
    else if c == 62
    then some (angle 62 tok_rshift_assign tok_rshift tok_ge tok_gt l)
    else operator_of operators c l

-- A byte that starts no token is reported, counted and skipped.
unfoldable pub lex_operator : Lexer → Token × Lexer
lex_operator l = elim (punctuation (cur l) (advance l)) [
  | some ((kind, n), l') ↦ (token kind (take n l.rest) (here l), l')
  | none ↦ (
    token tok_error (take 1 l.rest) (here l),
    record (advance l) { error_count = l.error_count + 1 },
  )
]

-- What a byte starts.
pub data Start : Type 0 where
  word number text char other : Start

abbrev pub starts : ℕ → Start
starts c =
    if is_alpha c || c == 95
    then word
    else if is_digit c
    then number
    else if c == 34
    then text
    else if c == 39
    then char
    else other

-- The next token, without the white space in front of it. `strtod` is the C library's.
unfoldable pub lexer_next : (StrView → F64) → Lexer → Token × Lexer
lexer_next strtod l0 =
    let l = skip_whitespace l0 in
    elim (more l) [
      | false ↦ (token tok_eof [] (here l), l)
      | true ↦ elim (starts (cur l)) [
        | word ↦ lex_ident l
        | number ↦ lex_number strtod l
        | text ↦ lex_string l
        | char ↦ lex_char l
        | other ↦ lex_operator l
      ]
    ]

-- The position goes back, the count of errors does not.
unfoldable pub lexer_peek : (StrView → F64) → Lexer → Token × Lexer
lexer_peek strtod l =
    let (t, l') = lexer_next strtod l in (t, record l { error_count = l'.error_count })
