-- ===== src/Frontend/Parser/Expressions.antt =====
-- src/frontend/parser.c: expressions. The fuel of a step bounds its loops and the types in it; `rec` is
-- `parse_expr`.
use o.Prelude.{ℕ, zero, suc, true, false, List, [], ◌∷◌, Option, none, some}
use o.Frontend.Types.{StrView, TypeNode}
use o.Frontend.Ast.{
  UnOpKind, pre_inc, pre_dec, post_inc, post_dec, BinOpKind, Expr, expr, ExprNode, int_lit,
  float_lit, string_lit, char_lit, bool_lit, null_lit, ident, call, index, field, deref, addr_of,
  size_of, align_of, cast, unary, binary, struct_init, array_init, Exprs, FieldInits, end,
  field_init, land, lor, xor, eq, neq, lt, gt, le, ge, shl, shr, modulo, assign, add_assign,
  sub_assign, mul_assign, div_assign, mod_assign, and_assign, or_assign, xor_assign, shl_assign,
  shr_assign,
}
use o.Frontend.Lexer.{
  TokKind, Token, tok_int_lit, tok_float_lit, tok_string_lit, tok_char_lit, tok_ident, tok_kw_as,
  tok_kw_sizeof, tok_kw_alignof, tok_kw_null, tok_kw_true, tok_kw_false, tok_kw_mut, tok_lparen,
  tok_rparen, tok_lbrace, tok_rbrace, tok_lbracket, tok_rbracket, tok_dot, tok_plus_plus,
  tok_minus_minus, tok_plus, tok_minus, tok_star, tok_slash, tok_percent, tok_amp, tok_pipe,
  tok_caret, tok_tilde, tok_bang, tok_lshift, tok_rshift, tok_amp_amp, tok_pipe_pipe, tok_eq,
  tok_neq, tok_lt, tok_gt, tok_le, tok_ge, tok_assign, tok_plus_assign, tok_minus_assign,
  tok_star_assign, tok_slash_assign, tok_percent_assign, tok_amp_assign, tok_pipe_assign,
  tok_caret_assign, tok_lshift_assign, tok_rshift_assign,
}
use o.Frontend.Parser.{
  Parse, done, ◌>>=◌, ◌>>◌, parse_error, advance, check_peek, either, if_check, on, taken, expect,
  comma_list,
}
use o.Frontend.Parser.ParseType.{match_in, parse_type}

-- `alloc_expr`: no resolved type, and no lvalue.
unfoldable pub alloc_expr : ExprNode → Expr
alloc_expr node = expr TypeNode.null false node

unfoldable pub exprs_of : List Expr → Exprs
exprs_of [] = Exprs.nil
exprs_of (e ∷ es) = Exprs.cons e (exprs_of es)

unfoldable pub fields_of : List (StrView × Expr) → FieldInits
fields_of [] = end
fields_of ((name, value) ∷ fs) = field_init name value (fields_of fs)

-- `if (check(p, k)) { ...; advance(p); return e; }`
unfoldable pub on_token : TokKind → (Token → ExprNode) → Parse Expr → Parse Expr
on_token k f miss = if_check k (advance >>= λ t. done (alloc_expr (f t))) miss

unfoldable pub parse_field_init : Parse Expr → Parse (StrView × Expr)
parse_field_init rec = do
  expect tok_dot
  fn_t ← expect tok_ident
  expect tok_assign
  val ← rec
  done (fn_t.text, val)

unfoldable pub parse_struct_init : ℕ → Parse Expr → StrView → Parse Expr
parse_struct_init n rec name = do
  advance
  fields ← comma_list n tok_rbrace (parse_field_init rec)
  expect tok_rbrace
  done (alloc_expr (struct_init (TypeNode.named name) (fields_of fields)))

-- A name, or a structure where `{ .` follows.
unfoldable pub parse_name : ℕ → Parse Expr → Parse Expr
parse_name n rec = do
  t ← advance
  if_check tok_lbrace
      (check_peek tok_dot
        >>= either (parse_struct_init n rec t.text) (done (alloc_expr (ident t.text))))
      (done (alloc_expr (ident t.text)))

unfoldable pub parse_elems : ℕ → Parse Expr → Parse Expr
parse_elems n rec = do
  elems ← comma_list n tok_rbracket rec
  expect tok_rbracket
  done (alloc_expr (array_init (exprs_of elems)))

unfoldable pub parse_paren : Parse Expr → Parse Expr
parse_paren rec = do e ← rec; expect tok_rparen; done e

-- A token that starts no expression is skipped.
unfoldable pub bad_primary : Parse Expr
bad_primary = parse_error >> (advance >> done (alloc_expr (int_lit 0)))

unfoldable pub parse_primary : ℕ → Parse Expr → Parse Expr
parse_primary n rec =
    on_token tok_int_lit (λ t. int_lit t.int_val)
      (on_token tok_float_lit (λ t. float_lit t.flt_val)
        (on_token tok_string_lit (λ t. string_lit t.text)
          (on_token tok_char_lit (λ t. char_lit t.int_val)
            (on_token tok_kw_true (λ t. bool_lit true)
              (on_token tok_kw_false (λ t. bool_lit false)
                (on_token tok_kw_null (λ t. null_lit)
                  (if_check tok_ident (parse_name n rec) (
                    on tok_lbracket (parse_elems n rec)
                      (on tok_lparen (parse_paren rec) bad_primary)))))))))

-- What stands behind an operand, each with the operand that it makes.
unfoldable pub parse_call : ℕ → Parse Expr → Expr → Parse Expr
parse_call n rec base = do
  args ← comma_list n tok_rparen rec
  expect tok_rparen
  done (alloc_expr (call base (exprs_of args)))

unfoldable pub parse_index : Parse Expr → Expr → Parse Expr
parse_index rec base = do idx ← rec; expect tok_rbracket; done (alloc_expr (index base idx))

unfoldable pub parse_field : Expr → Parse Expr
parse_field base = expect tok_ident >>= λ ft. done (alloc_expr (field base ft.text))

unfoldable pub parse_cast : ℕ → Expr → Parse Expr
parse_cast n base = parse_type n >>= λ to. done (alloc_expr (cast base to))

-- One turn of the loop, and what follows it.
unfoldable pub postfix_turn : ℕ → Parse Expr → (Expr → Parse Expr) → Expr → Parse Expr
postfix_turn n rec loop base = on tok_lparen (parse_call n rec base >>= loop) (
    on tok_lbracket (parse_index rec base >>= loop) (
      on tok_dot (parse_field base >>= loop) (
        on tok_plus_plus (loop (alloc_expr (unary post_inc base))) (
          on tok_minus_minus (loop (alloc_expr (unary post_dec base)))
            (on tok_kw_as (parse_cast n base >>= loop) (done base))))))

unfoldable pub postfix_loop : ℕ → ℕ → Parse Expr → Expr → Parse Expr
postfix_loop zero n rec base strtod p = none
postfix_loop (suc k) n rec base strtod p = postfix_turn n rec (postfix_loop k n rec) base strtod p

unfoldable pub parse_postfix : ℕ → Parse Expr → Parse Expr
parse_postfix n rec = parse_primary n rec >>= postfix_loop n n rec

unfoldable pub unary_of : (Expr → ExprNode) → Parse Expr → Parse Expr
unary_of f operand = operand >>= λ e. done (alloc_expr (f e))

unfoldable pub parse_addr_of : Parse Expr → Parse Expr
parse_addr_of operand = taken tok_kw_mut >>= λ m. unary_of (λ e. addr_of e m) operand

unfoldable pub parse_sized : ℕ → (TypeNode → ExprNode) → Parse Expr
parse_sized n f = do
  expect tok_lparen
  ty ← parse_type n
  expect tok_rparen
  done (alloc_expr (f ty))

unfoldable pub unary_step : ℕ → Parse Expr → Parse Expr → Parse Expr
unary_step n rec operand = on tok_minus (unary_of (unary UnOpKind.neg) operand) (
    on tok_bang (unary_of (unary UnOpKind.not) operand) (
      on tok_tilde (unary_of (unary UnOpKind.bnot) operand) (
        on tok_plus_plus (unary_of (unary pre_inc) operand) (
          on tok_minus_minus (unary_of (unary pre_dec) operand) (
            on tok_star (unary_of deref operand) (
              on tok_amp (parse_addr_of operand) (
                on tok_kw_sizeof (parse_sized n size_of)
                  (on tok_kw_alignof (parse_sized n align_of) (parse_postfix n rec)))))))))

unfoldable pub unary_loop : ℕ → ℕ → Parse Expr → Parse Expr
unary_loop zero n rec strtod p = none
unary_loop (suc k) n rec strtod p = unary_step n rec (unary_loop k n rec) strtod p

unfoldable pub parse_unary : ℕ → Parse Expr → Parse Expr
parse_unary n rec = unary_loop n n rec

-- The table of a level.
abbrev pub Operators : Type 0
Operators = List (TokKind × BinOpKind)

unfoldable pub level_turn :
    Operators → Parse Expr → (Expr → Parse Expr) → Expr → Option BinOpKind → Parse Expr
level_turn ops next loop lhs none = done lhs
level_turn ops next loop lhs (some op) = next >>= λ rhs. loop (alloc_expr (binary op lhs rhs))

unfoldable pub level_loop : ℕ → Operators → Parse Expr → Expr → Parse Expr
level_loop zero ops next lhs strtod p = none
level_loop (suc k) ops next lhs strtod p =
    (match_in ops >>= level_turn ops next (level_loop k ops next) lhs) strtod p

unfoldable pub bin_level : ℕ → Operators → Parse Expr → Parse Expr
bin_level n ops next = next >>= level_loop n ops next

unfoldable pub parse_multiplicative : ℕ → Parse Expr → Parse Expr
parse_multiplicative n rec =
    bin_level n
      ((tok_star, BinOpKind.mul) ∷ (tok_slash, BinOpKind.div) ∷ (tok_percent, modulo) ∷ [])
      (parse_unary n rec)

unfoldable pub parse_additive : ℕ → Parse Expr → Parse Expr
parse_additive n rec =
    bin_level n ((tok_plus, BinOpKind.add) ∷ (tok_minus, BinOpKind.sub) ∷ [])
      (parse_multiplicative n rec)

unfoldable pub parse_shift : ℕ → Parse Expr → Parse Expr
parse_shift n rec = bin_level n ((tok_lshift, shl) ∷ (tok_rshift, shr) ∷ []) (parse_additive n rec)

unfoldable pub parse_relational : ℕ → Parse Expr → Parse Expr
parse_relational n rec =
    bin_level n ((tok_lt, lt) ∷ (tok_gt, gt) ∷ (tok_le, le) ∷ (tok_ge, ge) ∷ []) (parse_shift n rec)

unfoldable pub parse_equality : ℕ → Parse Expr → Parse Expr
parse_equality n rec = bin_level n ((tok_eq, eq) ∷ (tok_neq, neq) ∷ []) (parse_relational n rec)

unfoldable pub parse_bitwise_and : ℕ → Parse Expr → Parse Expr
parse_bitwise_and n rec = bin_level n ((tok_amp, BinOpKind.and) ∷ []) (parse_equality n rec)

unfoldable pub parse_bitwise_xor : ℕ → Parse Expr → Parse Expr
parse_bitwise_xor n rec = bin_level n ((tok_caret, xor) ∷ []) (parse_bitwise_and n rec)

unfoldable pub parse_bitwise_or : ℕ → Parse Expr → Parse Expr
parse_bitwise_or n rec = bin_level n ((tok_pipe, BinOpKind.or) ∷ []) (parse_bitwise_xor n rec)

unfoldable pub parse_logic_and : ℕ → Parse Expr → Parse Expr
parse_logic_and n rec = bin_level n ((tok_amp_amp, land) ∷ []) (parse_bitwise_or n rec)

unfoldable pub parse_logic_or : ℕ → Parse Expr → Parse Expr
parse_logic_or n rec = bin_level n ((tok_pipe_pipe, lor) ∷ []) (parse_logic_and n rec)

abbrev pub assign_ops : Operators
assign_ops =
    (tok_assign, assign)
    ∷ (tok_plus_assign, add_assign)
    ∷ (tok_minus_assign, sub_assign)
    ∷ (tok_star_assign, mul_assign)
    ∷ (tok_slash_assign, div_assign)
    ∷ (tok_percent_assign, mod_assign)
    ∷ (tok_amp_assign, and_assign)
    ∷ (tok_pipe_assign, or_assign)
    ∷ (tok_caret_assign, xor_assign)
    ∷ (tok_lshift_assign, shl_assign)
    ∷ (tok_rshift_assign, shr_assign)
    ∷ []

-- Assignments associate to the right.
unfoldable pub parse_assign : ℕ → Parse Expr → Parse Expr
parse_assign n rec =
    parse_logic_or n rec >>= λ lhs. match_in assign_ops >>= level_turn assign_ops rec done lhs

unfoldable pub parse_expr : ℕ → Parse Expr
parse_expr zero strtod p = none
parse_expr (suc n) strtod p = parse_assign n (parse_expr n) strtod p
