-- ===== src/Frontend/Parser.antt =====
-- src/frontend/parser.c: the parser's state and how it takes tokens. A parsing function takes the C library's
-- strtod and the state; `none` is a run that its fuel does not cover. Source locations and what a
-- diagnostic prints are left out, and memory suffices.
pub mod ParseType
pub mod Expressions
pub mod Statements
pub mod Declarations
pub mod LeftFold
pub mod Stuck
use o.Prelude.{ℕ, zero, suc, ◌+◌, ◌==◌, Bool, true, false, ◌||◌, List, [], ◌∷◌, Option, none, some}
use o.Frontend.Types.{StrView}
use o.Frontend.Ast.{F64}
use o.Frontend.Lexer.{
  TokKind, Token, Lexer, tok_int_lit, tok_float_lit, tok_string_lit, tok_char_lit, tok_ident,
  tok_kw_fn, tok_kw_let, tok_kw_const, tok_kw_return, tok_kw_if, tok_kw_else, tok_kw_while,
  tok_kw_for, tok_kw_break, tok_kw_continue, tok_kw_struct, tok_kw_union, tok_kw_enum,
  tok_kw_import, tok_kw_extern, tok_kw_defer, tok_kw_as, tok_kw_sizeof, tok_kw_alignof, tok_kw_null,
  tok_kw_true, tok_kw_false, tok_kw_inline, tok_kw_volatile, tok_kw_mut, tok_kw_void, tok_kw_bool,
  tok_kw_i8, tok_kw_i16, tok_kw_i32, tok_kw_i64, tok_kw_u8, tok_kw_u16, tok_kw_u32, tok_kw_u64,
  tok_kw_f32, tok_kw_f64, tok_kw_isize, tok_kw_usize, tok_lparen, tok_rparen, tok_lbrace,
  tok_rbrace, tok_lbracket, tok_rbracket, tok_semi, tok_colon, tok_comma, tok_dot, tok_dotdot,
  tok_dotdotdot, tok_arrow, tok_plus_plus, tok_minus_minus, tok_fat_arrow, tok_plus, tok_minus,
  tok_star, tok_slash, tok_percent, tok_amp, tok_pipe, tok_caret, tok_tilde, tok_bang, tok_lshift,
  tok_rshift, tok_amp_amp, tok_pipe_pipe, tok_eq, tok_neq, tok_lt, tok_gt, tok_le, tok_ge,
  tok_assign, tok_plus_assign, tok_minus_assign, tok_star_assign, tok_slash_assign,
  tok_percent_assign, tok_amp_assign, tok_pipe_assign, tok_caret_assign, tok_lshift_assign,
  tok_rshift_assign, tok_at, tok_hash, tok_question, tok_eof, tok_error,
}
use o.Frontend.Lexer.Next.{lexer_next}

-- The flag and the count of errors are both kept. Nothing reads `arena` or `module` but allocations.
pub record Parser : Type 0 where
  pub lex : Lexer
  pub cur : Token
  pub peek : Token
  pub had_error : Bool
  pub error_count : ℕ

-- The value of the C enumeration.
unfoldable pub tok_index : TokKind → ℕ
tok_index tok_int_lit = 0
tok_index tok_float_lit = 1
tok_index tok_string_lit = 2
tok_index tok_char_lit = 3
tok_index tok_ident = 4
tok_index tok_kw_fn = 5
tok_index tok_kw_let = 6
tok_index tok_kw_const = 7
tok_index tok_kw_return = 8
tok_index tok_kw_if = 9
tok_index tok_kw_else = 10
tok_index tok_kw_while = 11
tok_index tok_kw_for = 12
tok_index tok_kw_break = 13
tok_index tok_kw_continue = 14
tok_index tok_kw_struct = 15
tok_index tok_kw_union = 16
tok_index tok_kw_enum = 17
tok_index tok_kw_import = 18
tok_index tok_kw_extern = 19
tok_index tok_kw_defer = 20
tok_index tok_kw_as = 21
tok_index tok_kw_sizeof = 22
tok_index tok_kw_alignof = 23
tok_index tok_kw_null = 24
tok_index tok_kw_true = 25
tok_index tok_kw_false = 26
tok_index tok_kw_inline = 27
tok_index tok_kw_volatile = 28
tok_index tok_kw_mut = 29
tok_index tok_kw_void = 30
tok_index tok_kw_bool = 31
tok_index tok_kw_i8 = 32
tok_index tok_kw_i16 = 33
tok_index tok_kw_i32 = 34
tok_index tok_kw_i64 = 35
tok_index tok_kw_u8 = 36
tok_index tok_kw_u16 = 37
tok_index tok_kw_u32 = 38
tok_index tok_kw_u64 = 39
tok_index tok_kw_f32 = 40
tok_index tok_kw_f64 = 41
tok_index tok_kw_isize = 42
tok_index tok_kw_usize = 43
tok_index tok_lparen = 44
tok_index tok_rparen = 45
tok_index tok_lbrace = 46
tok_index tok_rbrace = 47
tok_index tok_lbracket = 48
tok_index tok_rbracket = 49
tok_index tok_semi = 50
tok_index tok_colon = 51
tok_index tok_comma = 52
tok_index tok_dot = 53
tok_index tok_dotdot = 54
tok_index tok_dotdotdot = 55
tok_index tok_arrow = 56
tok_index tok_plus_plus = 57
tok_index tok_minus_minus = 58
tok_index tok_fat_arrow = 59
tok_index tok_plus = 60
tok_index tok_minus = 61
tok_index tok_star = 62
tok_index tok_slash = 63
tok_index tok_percent = 64
tok_index tok_amp = 65
tok_index tok_pipe = 66
tok_index tok_caret = 67
tok_index tok_tilde = 68
tok_index tok_bang = 69
tok_index tok_lshift = 70
tok_index tok_rshift = 71
tok_index tok_amp_amp = 72
tok_index tok_pipe_pipe = 73
tok_index tok_eq = 74
tok_index tok_neq = 75
tok_index tok_lt = 76
tok_index tok_gt = 77
tok_index tok_le = 78
tok_index tok_ge = 79
tok_index tok_assign = 80
tok_index tok_plus_assign = 81
tok_index tok_minus_assign = 82
tok_index tok_star_assign = 83
tok_index tok_slash_assign = 84
tok_index tok_percent_assign = 85
tok_index tok_amp_assign = 86
tok_index tok_pipe_assign = 87
tok_index tok_caret_assign = 88
tok_index tok_lshift_assign = 89
tok_index tok_rshift_assign = 90
tok_index tok_at = 91
tok_index tok_hash = 92
tok_index tok_question = 93
tok_index tok_eof = 94
tok_index tok_error = 95

abbrev pub Parse : Type 0 → Type 0
Parse A = (StrView → F64) → Parser → Option (A × Parser)

unfoldable pub done : {A : Type 0} → A → Parse A
done a strtod p = some (a, p)

unfoldable pub and_then :
    {A B : Type 0} → (StrView → F64) → Option (A × Parser) → (A → Parse B) → Option (B × Parser)
and_then strtod none k = none
and_then strtod (some (a, p)) k = k a strtod p

infixl 5 ◌>>=◌ ◌>>◌
unfoldable pub ◌>>=◌ : {A B : Type 0} → Parse A → (A → Parse B) → Parse B
◌>>=◌ m k strtod p = and_then strtod (m strtod p) k

abbrev pub ◌>>◌ : {A B : Type 0} → Parse A → Parse B → Parse B
m >> k = m >>= λ _. k

unfoldable pub out_of_fuel : {A : Type 0} → Parse A
out_of_fuel strtod p = none

unfoldable pub is_tok : TokKind → Token → Bool
is_tok k t = tok_index t.kind == tok_index k

unfoldable pub parse_error : Parse (Unit {0})
parse_error strtod p = some (tt, record p { had_error = true; error_count = p.error_count + 1 })

-- The token that is taken.
unfoldable pub advance : Parse Token
advance strtod p =
    let (t, lex) = lexer_next strtod p.lex in
    some (p.cur, record p { lex = lex; cur = p.peek; peek = t })

unfoldable pub check : TokKind → Parse Bool
check k strtod p = some (is_tok k p.cur, p)

unfoldable pub check_peek : TokKind → Parse Bool
check_peek k strtod p = some (is_tok k p.peek, p)

-- `if (c) hit else miss`
unfoldable pub either : {A : Type 0} → Parse A → Parse A → Bool → Parse A
either hit miss true = hit
either hit miss false = miss

-- `if (check(p, k)) hit else miss`
unfoldable pub if_check : {A : Type 0} → TokKind → Parse A → Parse A → Parse A
if_check k hit miss = check k >>= either hit miss

-- `if (match(p, k)) hit else miss`
unfoldable pub on : {A : Type 0} → TokKind → Parse A → Parse A → Parse A
on k hit miss = if_check k (advance >> hit) miss

-- `match(p, k)`
unfoldable pub taken : TokKind → Parse Bool
taken k = on k (done true) (done false)

-- Without the token nothing is taken.
unfoldable pub current : Parse Token
current strtod p = some (p.cur, p)

unfoldable pub expect : TokKind → Parse Token
expect k = if_check k advance (parse_error >> current)

-- The condition on which the loops up to a closing token stop.
unfoldable pub at_end : TokKind → Parse Bool
at_end k strtod p = some (is_tok k p.cur || is_tok tok_eof p.cur, p)

-- Elements with commas between them, up to a closing token.
unfoldable pub comma_list : {A : Type 0} → ℕ → TokKind → Parse A → Parse (List A)
comma_list zero close item = out_of_fuel
comma_list (suc n) close item =
    at_end close
    >>= either (done []) (do
      a ← item
      on tok_comma (comma_list n close item >>= λ rest. done (a ∷ rest)) (done (a ∷ [])))
