-- ===== src/Tests/LexerExamples.antt =====
-- src/frontend/lexer.c on small sources.
use o.Prelude.{ℕ, zero, suc, ◌≡◌, refl, List, [], ◌∷◌, ◌++◌, arith}
use o.Frontend.Types.{StrView, sv_eq}
use o.Frontend.Lexer.{
  TokKind, tok_ident, tok_kw_while, tok_int_lit, tok_string_lit, tok_char_lit, tok_float_lit,
  tok_lshift_assign, tok_dotdot, tok_error, tok_eof, Lexer, keywords, lexer_init, cur, peek1,
  advance, here, classify_in, classify_ident,
}
use o.Frontend.Lexer.Scan.{
  advance_while, skip_block, skip_from, skip_whitespace, lex_ident, skip_comment, hex_escape,
  parse_escape, string_char, string_body, lex_string, lex_char, digits, integer_part, fraction,
  exponent, lex_number,
}
use o.Frontend.Lexer.Next.{
  second_of, operator_of, dots, angle, punctuation, lex_operator, lexer_next, lexer_peek,
}
use o.Frontend.Lexer.Keywords.{Listed, classify_ident-Listed}
use o.Frontend.Lexer.Progress.{Advances, lexer_next-Advances}
use o.Frontend.Lexer.End.{behind_tokens, lexer_next-ends}

abbrev while_word : StrView
while_word = 119 ∷ 104 ∷ 105 ∷ 108 ∷ 101 ∷ []

classify_ident-Listed_example :
    ((kind : TokKind) → Listed while_word kind keywords → classify_ident while_word ≡ kind)
    × (((kind : TokKind) → ¬ (Listed while_word kind keywords))
        → classify_ident while_word ≡ tok_ident)
classify_ident-Listed_example = classify_ident-Listed while_word

lexer_next-Advances_example :
    Advances (lexer_init while_word) (lexer_next (λ s. 7) (lexer_init while_word))
lexer_next-Advances_example = lexer_next-Advances (λ s. 7) (lexer_init while_word)

lexer_next-ends_example :
    (lexer_next (λ s. 7) (behind_tokens (λ s. 7) 5 (lexer_init while_word))).0.kind ≡ tok_eof
unfolding lexer_init
lexer_next-ends_example = lexer_next-ends (λ s. 7) (lexer_init while_word) 5 (omega arith)

-- The kinds and values of the first `n` tokens.
abbrev first_tokens : ℕ → Lexer → List (TokKind × ℕ)
first_tokens zero l = []
first_tokens (suc n) l =
    ((lexer_next (λ s. 7) l).0.kind, (lexer_next (λ s. 7) l).0.int_val)
    ∷ first_tokens n (lexer_next (λ s. 7) l).1

-- while/**/x <<= 0x1F_f
hex_source :
    first_tokens 4 (
      lexer_init (
        while_word
        ++ (47 ∷ 42 ∷ 42 ∷ 47 ∷ 120 ∷ 32 ∷ 60 ∷ 60 ∷ 61 ∷ 32 ∷ 48 ∷ 120 ∷ 49 ∷ 70 ∷ 95 ∷ 102 ∷ [])))
    ≡ ((tok_kw_while, 0) ∷ (tok_ident, 0) ∷ (tok_lshift_assign, 0) ∷ (tok_int_lit, 0x1FF) ∷ [])
unfolding lexer_init cur peek1 advance here classify_in classify_ident sv_eq advance_while
    skip_block skip_from skip_whitespace lex_ident skip_comment hex_escape parse_escape string_char
    string_body lex_string lex_char digits integer_part fraction exponent lex_number second_of
    operator_of dots angle punctuation lex_operator lexer_next lexer_peek
hex_source = refl

-- "\\n" '\\x41' 1.5..$
literals :
    first_tokens 6 (
      lexer_init
        (34 ∷ 92 ∷ 110 ∷ 34 ∷ 39 ∷ 92 ∷ 120 ∷ 52 ∷ 49 ∷ 39 ∷ 49 ∷ 46 ∷ 53 ∷ 46 ∷ 46 ∷ 36 ∷ []))
    ≡ ((tok_string_lit, 0)
        ∷ (tok_char_lit, 65)
        ∷ (tok_float_lit, 0)
        ∷ (tok_dotdot, 0)
        ∷ (tok_error, 0)
        ∷ (tok_eof, 0)
        ∷ [])
unfolding lexer_init cur peek1 advance here classify_in classify_ident sv_eq advance_while
    skip_block skip_from skip_whitespace lex_ident skip_comment hex_escape parse_escape string_char
    string_body lex_string lex_char digits integer_part fraction exponent lex_number second_of
    operator_of dots angle punctuation lex_operator lexer_next lexer_peek
literals = refl

-- Looking at a token that is none counts the error, though the lexer stays where it is.
peek_counts :
    (lexer_peek (λ s. 7) (lexer_init (36 ∷ []))).1
    ≡ record (lexer_init (36 ∷ [])) { error_count = 1 }
unfolding lexer_init cur peek1 advance here classify_in classify_ident sv_eq advance_while
    skip_block skip_from skip_whitespace lex_ident skip_comment hex_escape parse_escape string_char
    string_body lex_string lex_char digits integer_part fraction exponent lex_number second_of
    operator_of dots angle punctuation lex_operator lexer_next lexer_peek
peek_counts = refl
