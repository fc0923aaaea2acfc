-- ===== src/Tests/ParserExamples.antt =====
-- Declarations through src/frontend/parser.c.
use o.Prelude.{ℕ, ◌+◌, ◌≡◌, refl, true, false, [], ◌∷◌, some, none, arith}
use o.Frontend.Types.{StrView, TypeNode, ty_i64}
use o.Frontend.Types.{sv_eq}
use o.Frontend.Ast.{
  F64, AstModule, Expr, DeclNode, ExprNode, BinOpKind, int_lit, binary, block, ret, Stmts,
}
use o.Frontend.Lexer.{
  lexer_init, cur, peek1, here, classify_in, classify_ident, token, tok_slash, tok_eof, tok_plus,
  tok_minus, tok_int_lit, Token, TokKind,
}
use o.Frontend.Lexer.Scan.{
  advance_while, skip_block, skip_comment, skip_from, skip_whitespace, lex_ident, hex_escape,
  parse_escape, string_char, string_body, lex_string, lex_char, digits, integer_part, fraction,
  exponent, lex_number,
}
use o.Frontend.Lexer.Next.{
  second_of, operator_of, dots, angle, punctuation, lex_operator, lexer_next,
}
use o.Frontend.Parser.{
  ◌>>=◌, tok_index, done, and_then, out_of_fuel, is_tok, parse_error, check, check_peek, either,
  if_check, on, taken, current, expect, at_end, comma_list, Parser, Parse,
}
use o.Frontend.Parser.ParseType.{
  int_bits, match_in, type_params, pointer_type, array_type, slice_type, return_type, func_type,
  base_type, bracket_type, type_step, parse_type,
}
use o.Frontend.Parser.Expressions.{
  alloc_expr, exprs_of, fields_of, on_token, parse_field_init, parse_struct_init, parse_name,
  parse_elems, parse_paren, bad_primary, parse_primary, parse_call, parse_index, parse_field,
  parse_cast, postfix_turn, postfix_loop, parse_postfix, unary_of, parse_addr_of, parse_sized,
  unary_step, unary_loop, parse_unary, level_turn, level_loop, bin_level, parse_multiplicative,
  parse_additive, parse_shift, parse_relational, parse_equality, parse_bitwise_and,
  parse_bitwise_xor, parse_bitwise_or, parse_logic_and, parse_logic_or, parse_assign, parse_expr,
  Operators,
}
use o.Frontend.Parser.Statements.{
  block_stmts, parse_block, opt_type, let_init, parse_let, parse_return, parse_else, parse_if,
  parse_while, for_init, for_post, parse_for, parse_expr_stmt, stmt_step, parse_stmt,
}
use o.Frontend.Parser.Declarations.{
  parse_params, func_body, parse_func, parse_field_decl, struct_fields, parse_struct, next_value,
  enum_value, enum_variants, parse_enum, parse_import, parse_var, bad_decl, made, parse_decl,
  add_decl, parse_decls, parser_init, module_of, parse_source,
}
use o.Frontend.Parser.Stuck.{IsOperator, struct_fields-diverges}
use o.Frontend.Parser.LeftFold.{Chain, stop, turn, fold_left, bin_level-fold_left}

abbrev no_strtod : StrView → F64
no_strtod s = 0

-- fn f() -> i64 { return 1 + 2 * 3; }
abbrev function : StrView
function =
    102 ∷ 110 ∷ 32 ∷ 102 ∷ 40 ∷ 41 ∷ 32 ∷ 45 ∷ 62 ∷ 32 ∷ 105 ∷ 54 ∷ 52 ∷ 32 ∷ 123 ∷ 32 ∷ 114 ∷ 101
    ∷ 116 ∷ 117 ∷ 114 ∷ 110 ∷ 32 ∷ 49 ∷ 32 ∷ 43 ∷ 32 ∷ 50 ∷ 32 ∷ 42 ∷ 32 ∷ 51 ∷ 59 ∷ 32 ∷ 125 ∷ []

abbrev number : ℕ → ExprNode
number n = int_lit n

abbrev parsed_module : AstModule
parsed_module = record {
  filename = [];
  decls =
      (record {
        name = 102 ∷ [];
        is_extern = false;
        is_inline = false;
        node = DeclNode.func record {
          params = [];
          ret_type = TypeNode.prim ty_i64;
          body = block (
              Stmts.cons
                (ret (
                  alloc_expr (
                    binary BinOpKind.add (alloc_expr (number 1)) (
                      alloc_expr
                        (binary BinOpKind.mul (alloc_expr (number 2)) (alloc_expr (number 3)))))))
                Stmts.nil);
          variadic = false;
        };
      })
      ∷ [];
}

-- The multiplication binds more tightly than the addition.
function_parsed : parse_source 9 no_strtod function [] ≡ some parsed_module
unfolding sv_eq lexer_init cur peek1 o.Frontend.Lexer.advance here classify_in classify_ident
    advance_while skip_block skip_comment skip_from skip_whitespace lex_ident hex_escape
    parse_escape string_char string_body lex_string lex_char digits integer_part fraction exponent
    lex_number second_of operator_of dots angle punctuation lex_operator lexer_next tok_index done
    and_then ◌>>=◌ out_of_fuel is_tok parse_error o.Frontend.Parser.advance check check_peek either
    if_check on taken current expect at_end comma_list int_bits match_in type_params pointer_type
    array_type slice_type return_type func_type base_type bracket_type type_step parse_type
    alloc_expr exprs_of fields_of on_token parse_field_init parse_struct_init parse_name parse_elems
    parse_paren bad_primary parse_primary parse_call parse_index parse_field parse_cast postfix_turn
    postfix_loop parse_postfix unary_of parse_addr_of parse_sized unary_step unary_loop parse_unary
    level_turn level_loop bin_level parse_multiplicative parse_additive parse_shift parse_relational
    parse_equality parse_bitwise_and parse_bitwise_xor parse_bitwise_or parse_logic_and
    parse_logic_or parse_assign parse_expr block_stmts parse_block opt_type let_init parse_let
    parse_return parse_else parse_if parse_while for_init for_post parse_for parse_expr_stmt
    stmt_step parse_stmt parse_params func_body parse_func parse_field_decl struct_fields
    parse_struct next_value enum_value enum_variants parse_enum parse_import parse_var bad_decl made
    parse_decl add_decl parse_decls parser_init module_of parse_source
function_parsed = refl

-- A parser in front of a `/`.
abbrev at_slash : Parser
at_slash = record {
  lex = lexer_init [];
  cur = token tok_slash (47 ∷ []) (record { line = 1; col = 1 });
  peek = token tok_eof [] (record { line = 1; col = 2 });
  had_error = false;
  error_count = 0;
}

struct_fields-diverges_example :
    struct_fields 1000 (parse_field_decl 1000) no_strtod at_slash ≡ none
unfolding IsOperator tok_index
struct_fields-diverges_example =
    struct_fields-diverges 1000 1000 no_strtod at_slash (omega arith, omega arith)

-- Behind a source that is a single `+`.
abbrev behind : Parser
behind = record {
  lex = record { rest = []; pos = 1; line = 1; col = 2; error_count = 0 };
  cur = token tok_eof [] (record { line = 1; col = 2 });
  peek = token tok_eof [] (record { line = 1; col = 2 });
  had_error = true;
  error_count = 1;
}

plus_parsed : parse_decls 2 1 no_strtod (parser_init no_strtod (43 ∷ [])) ≡ some ([], behind)
unfolding sv_eq lexer_init cur peek1 o.Frontend.Lexer.advance here classify_in classify_ident
    advance_while skip_block skip_comment skip_from skip_whitespace lex_ident hex_escape
    parse_escape string_char string_body lex_string lex_char digits integer_part fraction exponent
    lex_number second_of operator_of dots angle punctuation lex_operator lexer_next tok_index done
    and_then ◌>>=◌ out_of_fuel is_tok parse_error o.Frontend.Parser.advance check check_peek either
    if_check on taken current expect at_end comma_list int_bits match_in type_params pointer_type
    array_type slice_type return_type func_type base_type bracket_type type_step parse_type
    alloc_expr exprs_of fields_of on_token parse_field_init parse_struct_init parse_name parse_elems
    parse_paren bad_primary parse_primary parse_call parse_index parse_field parse_cast postfix_turn
    postfix_loop parse_postfix unary_of parse_addr_of parse_sized unary_step unary_loop parse_unary
    level_turn level_loop bin_level parse_multiplicative parse_additive parse_shift parse_relational
    parse_equality parse_bitwise_and parse_bitwise_xor parse_bitwise_or parse_logic_and
    parse_logic_or parse_assign parse_expr block_stmts parse_block opt_type let_init parse_let
    parse_return parse_else parse_if parse_while for_init for_post parse_for parse_expr_stmt
    stmt_step parse_stmt parse_params func_body parse_func parse_field_decl struct_fields
    parse_struct next_value enum_value enum_variants parse_enum parse_import parse_var bad_decl made
    parse_decl add_decl parse_decls parser_init module_of parse_source
plus_parsed = refl

-- 1-2-3
abbrev differences : StrView
differences = 49 ∷ 45 ∷ 50 ∷ 45 ∷ 51 ∷ []

abbrev at_col : ℕ → TokKind → StrView → ℕ → Token
at_col col kind text value = record (token kind text (record { line = 1; col = col })) {
  int_val = value;
}

abbrev window : ℕ → StrView → Token → Token → Parser
window pos rest cur peek = record {
  lex = record { rest = rest; pos = pos; line = 1; col = pos + 1; error_count = 0 };
  cur = cur;
  peek = peek;
  had_error = false;
  error_count = 0;
}

abbrev minus_2 : Token
minus_2 = at_col 2 tok_minus (45 ∷ []) 0

abbrev minus_4 : Token
minus_4 = at_col 4 tok_minus (45 ∷ []) 0

abbrev digit_2 : Token
digit_2 = at_col 3 tok_int_lit (50 ∷ []) 2

abbrev digit_3 : Token
digit_3 = at_col 5 tok_int_lit (51 ∷ []) 3

abbrev the_end : Token
the_end = at_col 6 tok_eof [] 0

abbrev sums : Operators
sums = (tok_plus, BinOpKind.add) ∷ (tok_minus, BinOpKind.sub) ∷ []

abbrev product : Parse Expr
product = parse_multiplicative 5 (parse_expr 5)

abbrev lit : ℕ → Expr
lit n = alloc_expr (int_lit n)

first_read :
    product no_strtod (parser_init no_strtod differences)
    ≡ some (lit 1, window 3 (45 ∷ 51 ∷ []) minus_2 digit_2)
unfolding sv_eq lexer_init cur peek1 o.Frontend.Lexer.advance here classify_in classify_ident
    advance_while skip_block skip_comment skip_from skip_whitespace lex_ident hex_escape
    parse_escape string_char string_body lex_string lex_char digits integer_part fraction exponent
    lex_number second_of operator_of dots angle punctuation lex_operator lexer_next tok_index done
    and_then ◌>>=◌ out_of_fuel is_tok parse_error o.Frontend.Parser.advance check check_peek either
    if_check on taken current expect at_end comma_list int_bits match_in type_params pointer_type
    array_type slice_type return_type func_type base_type bracket_type type_step parse_type
    alloc_expr exprs_of fields_of on_token parse_field_init parse_struct_init parse_name parse_elems
    parse_paren bad_primary parse_primary parse_call parse_index parse_field parse_cast postfix_turn
    postfix_loop parse_postfix unary_of parse_addr_of parse_sized unary_step unary_loop parse_unary
    level_turn level_loop bin_level parse_multiplicative parse_additive parse_shift parse_relational
    parse_equality parse_bitwise_and parse_bitwise_xor parse_bitwise_or parse_logic_and
    parse_logic_or parse_assign parse_expr block_stmts parse_block opt_type let_init parse_let
    parse_return parse_else parse_if parse_while for_init for_post parse_for parse_expr_stmt
    stmt_step parse_stmt parse_params func_body parse_func parse_field_decl struct_fields
    parse_struct next_value enum_value enum_variants parse_enum parse_import parse_var bad_decl made
    parse_decl add_decl parse_decls parser_init module_of parse_source
first_read = refl

differences_read :
    Chain sums product no_strtod
      (window 3 (45 ∷ 51 ∷ []) minus_2 digit_2)
      ((BinOpKind.sub, lit 2) ∷ (BinOpKind.sub, lit 3) ∷ [])
      (window 5 [] the_end the_end)
unfolding sv_eq lexer_init cur peek1 o.Frontend.Lexer.advance here classify_in classify_ident
    advance_while skip_block skip_comment skip_from skip_whitespace lex_ident hex_escape
    parse_escape string_char string_body lex_string lex_char digits integer_part fraction exponent
    lex_number second_of operator_of dots angle punctuation lex_operator lexer_next tok_index done
    and_then ◌>>=◌ out_of_fuel is_tok parse_error o.Frontend.Parser.advance check check_peek either
    if_check on taken current expect at_end comma_list int_bits match_in type_params pointer_type
    array_type slice_type return_type func_type base_type bracket_type type_step parse_type
    alloc_expr exprs_of fields_of on_token parse_field_init parse_struct_init parse_name parse_elems
    parse_paren bad_primary parse_primary parse_call parse_index parse_field parse_cast postfix_turn
    postfix_loop parse_postfix unary_of parse_addr_of parse_sized unary_step unary_loop parse_unary
    level_turn level_loop bin_level parse_multiplicative parse_additive parse_shift parse_relational
    parse_equality parse_bitwise_and parse_bitwise_xor parse_bitwise_or parse_logic_and
    parse_logic_or parse_assign parse_expr block_stmts parse_block opt_type let_init parse_let
    parse_return parse_else parse_if parse_while for_init for_post parse_for parse_expr_stmt
    stmt_step parse_stmt parse_params func_body parse_func parse_field_decl struct_fields
    parse_struct next_value enum_value enum_variants parse_enum parse_import parse_var bad_decl made
    parse_decl add_decl parse_decls parser_init module_of parse_source
differences_read =
    turn {p1 = window 4 (51 ∷ []) digit_2 minus_4} {p2 = window 5 [] minus_4 digit_3} refl refl (
      turn {p1 = window 5 [] digit_3 the_end} {p2 = window 5 [] the_end the_end} refl refl
        (stop refl))

bin_level-fold_left_example :
    bin_level 3 sums product no_strtod (parser_init no_strtod differences)
    ≡ some (
      fold_left (lit 1) ((BinOpKind.sub, lit 2) ∷ (BinOpKind.sub, lit 3) ∷ []),
      window 5 [] the_end the_end,
    )
bin_level-fold_left_example =
    bin_level-fold_left sums product no_strtod (parser_init no_strtod differences)
      (window 3 (45 ∷ 51 ∷ []) minus_2 digit_2) (window 5 [] the_end the_end) (lit 1)
      ((BinOpKind.sub, lit 2) ∷ (BinOpKind.sub, lit 3) ∷ []) 3 first_read differences_read
      (omega arith)
