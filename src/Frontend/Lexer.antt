-- ===== src/Frontend/Lexer.antt =====
-- include/frontend/lexer.h and src/frontend/lexer.c: tokens, the lexer's state and the keywords. The file
-- name of a location, which only diagnostics use, is left out.
pub mod Scan
pub mod Next
pub mod Keywords
pub mod Behind
pub mod Progress
pub mod End
use o.Prelude.{ℕ, ◌+◌, ◌==◌, Bool, List, [], ◌∷◌, ltb, length, if◌then◌else◌}
use o.Frontend.Types.{StrView, sv_eq}
use o.Frontend.Ast.{F64}

pub data TokKind : Type 0 where
  tok_int_lit tok_float_lit tok_string_lit tok_char_lit tok_ident tok_kw_fn tok_kw_let : TokKind
  tok_kw_const tok_kw_return tok_kw_if tok_kw_else tok_kw_while tok_kw_for tok_kw_break : TokKind
  tok_kw_continue tok_kw_struct tok_kw_union tok_kw_enum tok_kw_import tok_kw_extern : TokKind
  tok_kw_defer tok_kw_as tok_kw_sizeof tok_kw_alignof tok_kw_null tok_kw_true tok_kw_false : TokKind
  tok_kw_inline tok_kw_volatile tok_kw_mut tok_kw_void tok_kw_bool tok_kw_i8 tok_kw_i16 : TokKind
  tok_kw_i32 tok_kw_i64 tok_kw_u8 tok_kw_u16 tok_kw_u32 tok_kw_u64 tok_kw_f32 tok_kw_f64 : TokKind
  tok_kw_isize tok_kw_usize tok_lparen tok_rparen tok_lbrace tok_rbrace tok_lbracket : TokKind
  tok_rbracket tok_semi tok_colon tok_comma tok_dot tok_dotdot tok_dotdotdot tok_arrow : TokKind
  tok_plus_plus tok_minus_minus tok_fat_arrow tok_plus tok_minus tok_star tok_slash : TokKind
  tok_percent tok_amp tok_pipe tok_caret tok_tilde tok_bang tok_lshift tok_rshift : TokKind
  tok_amp_amp tok_pipe_pipe tok_eq tok_neq tok_lt tok_gt tok_le tok_ge tok_assign : TokKind
  tok_plus_assign tok_minus_assign tok_star_assign tok_slash_assign tok_percent_assign : TokKind
  tok_amp_assign tok_pipe_assign tok_caret_assign tok_lshift_assign tok_rshift_assign : TokKind
  tok_at tok_hash tok_question tok_eof tok_error : TokKind

pub record SrcLoc : Type 0 where
  pub line : ℕ
  pub col : ℕ

-- `int_val` and `flt_val` share their memory; a token uses one of them at most.
pub record Token : Type 0 where
  pub kind : TokKind
  pub text : StrView
  pub loc : SrcLoc
  pub int_val : ℕ
  pub flt_val : F64

-- `rest` is the source from `pos` on. Lines and columns are `u32` in the source and count bytes.
pub record Lexer : Type 0 where
  pub rest : StrView
  pub pos : ℕ
  pub line : ℕ
  pub col : ℕ
  pub error_count : ℕ

unfoldable pub lexer_init : StrView → Lexer
lexer_init src = record { rest = src; pos = 0; line = 1; col = 1; error_count = 0 }

-- The end of the source reads as a zero byte.
abbrev pub first_or_zero : StrView → ℕ
first_or_zero [] = 0
first_or_zero (c ∷ cs) = c

abbrev pub tail_of : StrView → StrView
tail_of [] = []
tail_of (c ∷ cs) = cs

unfoldable pub cur : Lexer → ℕ
cur l = first_or_zero l.rest

unfoldable pub peek1 : Lexer → ℕ
peek1 l = first_or_zero (tail_of l.rest)

abbrev pub more : Lexer → Bool
more l = ltb 0 (length l.rest)

-- One byte; a newline starts the next line.
unfoldable pub advance : Lexer → Lexer
advance l =
    if more l
    then record l {
      rest = tail_of l.rest;
      pos = l.pos + 1;
      line = if cur l == 10 then l.line + 1 else l.line;
      col = if cur l == 10 then 1 else l.col + 1;
    }
    else l

unfoldable pub here : Lexer → SrcLoc
here l = record { line = l.line; col = l.col }

abbrev pub token : TokKind → StrView → SrcLoc → Token
token kind text loc = record { kind = kind; text = text; loc = loc; int_val = 0; flt_val = 0 }

-- The keywords with their kinds, in the order of the table.
abbrev pub keywords : List (StrView × TokKind)
keywords =
    (102 ∷ 110 ∷ [], tok_kw_fn)
    ∷ (108 ∷ 101 ∷ 116 ∷ [], tok_kw_let)
    ∷ (99 ∷ 111 ∷ 110 ∷ 115 ∷ 116 ∷ [], tok_kw_const)
    ∷ (114 ∷ 101 ∷ 116 ∷ 117 ∷ 114 ∷ 110 ∷ [], tok_kw_return)
    ∷ (105 ∷ 102 ∷ [], tok_kw_if)
    ∷ (101 ∷ 108 ∷ 115 ∷ 101 ∷ [], tok_kw_else)
    ∷ (119 ∷ 104 ∷ 105 ∷ 108 ∷ 101 ∷ [], tok_kw_while)
    ∷ (102 ∷ 111 ∷ 114 ∷ [], tok_kw_for)
    ∷ (98 ∷ 114 ∷ 101 ∷ 97 ∷ 107 ∷ [], tok_kw_break)
    ∷ (99 ∷ 111 ∷ 110 ∷ 116 ∷ 105 ∷ 110 ∷ 117 ∷ 101 ∷ [], tok_kw_continue)
    ∷ (115 ∷ 116 ∷ 114 ∷ 117 ∷ 99 ∷ 116 ∷ [], tok_kw_struct)
    ∷ (117 ∷ 110 ∷ 105 ∷ 111 ∷ 110 ∷ [], tok_kw_union)
    ∷ (101 ∷ 110 ∷ 117 ∷ 109 ∷ [], tok_kw_enum)
    ∷ (105 ∷ 109 ∷ 112 ∷ 111 ∷ 114 ∷ 116 ∷ [], tok_kw_import)
    ∷ (101 ∷ 120 ∷ 116 ∷ 101 ∷ 114 ∷ 110 ∷ [], tok_kw_extern)
    ∷ (100 ∷ 101 ∷ 102 ∷ 101 ∷ 114 ∷ [], tok_kw_defer)
    ∷ (97 ∷ 115 ∷ [], tok_kw_as)
    ∷ (115 ∷ 105 ∷ 122 ∷ 101 ∷ 111 ∷ 102 ∷ [], tok_kw_sizeof)
    ∷ (97 ∷ 108 ∷ 105 ∷ 103 ∷ 110 ∷ 111 ∷ 102 ∷ [], tok_kw_alignof)
    ∷ (110 ∷ 117 ∷ 108 ∷ 108 ∷ [], tok_kw_null)
    ∷ (116 ∷ 114 ∷ 117 ∷ 101 ∷ [], tok_kw_true)
    ∷ (102 ∷ 97 ∷ 108 ∷ 115 ∷ 101 ∷ [], tok_kw_false)
    ∷ (105 ∷ 110 ∷ 108 ∷ 105 ∷ 110 ∷ 101 ∷ [], tok_kw_inline)
    ∷ (118 ∷ 111 ∷ 108 ∷ 97 ∷ 116 ∷ 105 ∷ 108 ∷ 101 ∷ [], tok_kw_volatile)
    ∷ (109 ∷ 117 ∷ 116 ∷ [], tok_kw_mut)
    ∷ (118 ∷ 111 ∷ 105 ∷ 100 ∷ [], tok_kw_void)
    ∷ (98 ∷ 111 ∷ 111 ∷ 108 ∷ [], tok_kw_bool)
    ∷ (105 ∷ 56 ∷ [], tok_kw_i8)
    ∷ (105 ∷ 49 ∷ 54 ∷ [], tok_kw_i16)
    ∷ (105 ∷ 51 ∷ 50 ∷ [], tok_kw_i32)
    ∷ (105 ∷ 54 ∷ 52 ∷ [], tok_kw_i64)
    ∷ (117 ∷ 56 ∷ [], tok_kw_u8)
    ∷ (117 ∷ 49 ∷ 54 ∷ [], tok_kw_u16)
    ∷ (117 ∷ 51 ∷ 50 ∷ [], tok_kw_u32)
    ∷ (117 ∷ 54 ∷ 52 ∷ [], tok_kw_u64)
    ∷ (102 ∷ 51 ∷ 50 ∷ [], tok_kw_f32)
    ∷ (102 ∷ 54 ∷ 52 ∷ [], tok_kw_f64)
    ∷ (105 ∷ 115 ∷ 105 ∷ 122 ∷ 101 ∷ [], tok_kw_isize)
    ∷ (117 ∷ 115 ∷ 105 ∷ 122 ∷ 101 ∷ [], tok_kw_usize)
    ∷ []

unfoldable pub classify_in : List (StrView × TokKind) → StrView → TokKind
classify_in [] name = tok_ident
classify_in ((kw, kind) ∷ ks) name = if sv_eq kw name then kind else classify_in ks name

unfoldable pub classify_ident : StrView → TokKind
classify_ident name = classify_in keywords name
