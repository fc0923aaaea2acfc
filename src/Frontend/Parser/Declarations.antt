-- ===== src/Frontend/Parser/Declarations.antt =====
-- src/frontend/parser.c: declarations and `parse_source`.
use o.Prelude.{ℕ, zero, suc, ◌+◌, ◌%◌, ◌^◌, Bool, true, false, List, [], ◌∷◌, Option, none, some}
use o.Prelude.Int.{ℤ, pos, wrap, signed}
use o.Frontend.Types.{StrView, TypeNode}
use o.Frontend.Ast.{
  F64, Expr, Stmt, ParamDecl, FieldDecl, EnumVariant, Decl, DeclNode, struct_decl, enum_decl, var,
  import_decl, AstModule,
}
use o.Frontend.Lexer.{
  lexer_init, tok_string_lit, tok_int_lit, tok_ident, tok_kw_fn, tok_kw_let, tok_kw_const,
  tok_kw_struct, tok_kw_enum, tok_kw_import, tok_kw_extern, tok_kw_inline, tok_lparen, tok_rparen,
  tok_lbrace, tok_rbrace, tok_semi, tok_colon, tok_comma, tok_dotdotdot, tok_assign, tok_eof,
}
use o.Frontend.Lexer.Next.{lexer_next}
use o.Frontend.Parser.{
  Parser, Parse, done, ◌>>=◌, ◌>>◌, out_of_fuel, parse_error, advance, check, either, if_check, on,
  taken, expect, at_end,
}
use o.Frontend.Parser.ParseType.{int_bits, parse_type, return_type}
use o.Frontend.Parser.Expressions.{parse_expr}
use o.Frontend.Parser.Statements.{parse_block, parse_stmt, opt_type}

unfoldable pub parse_params : ℕ → Parse TypeNode → Parse (List ParamDecl × Bool)
parse_params zero type = out_of_fuel
parse_params (suc n) type =
    at_end tok_rparen
    >>= either (done ([], false)) (
        on tok_dotdotdot (done ([], true)) (do
          pn ← expect tok_ident
          expect tok_colon
          pty ← type
          on tok_comma
              (parse_params n type >>= λ ps.
                done (record { name = pn.text; type = pty } ∷ ps.0, ps.1))
              (done (record { name = pn.text; type = pty } ∷ [], false))))

-- The body, or a semicolon.
unfoldable pub func_body : ℕ → Parse Stmt
func_body n = if_check tok_lbrace (parse_block n (parse_stmt n)) (expect tok_semi >> done Stmt.null)

unfoldable pub parse_func : ℕ → Bool → Bool → Parse Decl
parse_func n is_extern is_inline = do
  nt ← expect tok_ident
  expect tok_lparen
  ps ← parse_params n (parse_type n)
  expect tok_rparen
  ret ← return_type (parse_type n)
  body ← func_body n
  done record {
    name = nt.text;
    is_extern = is_extern;
    is_inline = is_inline;
    node = DeclNode.func record { params = ps.0; ret_type = ret; body = body; variadic = ps.1 };
  }

-- A declaration whose flags are not set.
abbrev pub plain : StrView → DeclNode → Decl
plain name node = record { name = name; is_extern = false; is_inline = false; node = node }

-- A field, with a comma or a semicolon behind it or neither.
unfoldable pub parse_field_decl : ℕ → Parse FieldDecl
parse_field_decl n = do
  fn_t ← expect tok_ident
  expect tok_colon
  fty ← parse_type n
  taken tok_comma
  taken tok_semi
  done record { name = fn_t.text; type = fty }

-- The loop goes on without a comma, and also where no token was taken.
unfoldable pub struct_fields : ℕ → Parse FieldDecl → Parse (List FieldDecl)
struct_fields zero item = out_of_fuel
struct_fields (suc n) item =
    at_end tok_rbrace
    >>= either (done []) (item >>= λ f. struct_fields n item >>= λ fs. done (f ∷ fs))

unfoldable pub parse_struct : ℕ → Parse Decl
parse_struct n = do
  nt ← expect tok_ident
  expect tok_lbrace
  fields ← struct_fields n (parse_field_decl n)
  expect tok_rbrace
  done (plain nt.text (struct_decl fields))

-- `val + 1` on i64; the wrap-around is what the machine does where C leaves it open.
unfoldable pub next_value : ℤ → ℤ
next_value v = signed (2 ^ 64) ((wrap (2 ^ 64) v + 1) % 2 ^ 64)

unfoldable pub enum_value : ℤ → Parse (ℤ × Bool)
enum_value auto_val =
    on tok_assign (expect tok_int_lit >>= λ vv. done (signed (2 ^ 64) (int_bits vv), true))
      (done (auto_val, false))

unfoldable pub enum_variants : ℕ → ℤ → Parse (List EnumVariant)
enum_variants zero auto_val = out_of_fuel
enum_variants (suc n) auto_val =
    at_end tok_rbrace
    >>= either (done []) (do
      vn ← expect tok_ident
      val ← enum_value auto_val
      taken tok_comma
      vs ← enum_variants n (next_value val.0)
      done (record { name = vn.text; value = val.0; has_explicit_value = val.1 } ∷ vs))

unfoldable pub parse_enum : ℕ → Parse Decl
parse_enum n = do
  nt ← expect tok_ident
  backing ← opt_type n
  expect tok_lbrace
  variants ← enum_variants n (pos 0)
  expect tok_rbrace
  done (plain nt.text (enum_decl variants backing))

-- The name of an import is not set.
unfoldable pub parse_import : Parse Decl
parse_import = do pt ← expect tok_string_lit; expect tok_semi; done (plain [] (import_decl pt.text))

unfoldable pub parse_var : ℕ → Bool → Parse Decl
parse_var n is_extern = do
  advance
  nt ← expect tok_ident
  ty ← opt_type n
  init ← on tok_assign (parse_expr n) (done Expr.null)
  expect tok_semi
  done record { name = nt.text; is_extern = is_extern; is_inline = false; node = var ty init }

-- A token that starts no declaration is skipped, and gives none.
unfoldable pub bad_decl : Parse (Option Decl)
bad_decl = parse_error >> (advance >> done none)

unfoldable pub made : Parse Decl → Parse (Option Decl)
made m = m >>= λ d. done (some d)

unfoldable pub parse_decl : ℕ → Parse (Option Decl)
parse_decl n = taken tok_kw_extern >>= λ is_extern. taken tok_kw_inline >>= λ is_inline.
    on tok_kw_fn (made (parse_func n is_extern is_inline)) (
      on tok_kw_struct (made (parse_struct n)) (
        on tok_kw_enum (made (parse_enum n)) (
          on tok_kw_import (made parse_import) (
            if_check tok_kw_let (made (parse_var n is_extern))
              (if_check tok_kw_const (made (parse_var n is_extern)) bad_decl)))))

unfoldable pub add_decl : Option Decl → List Decl → List Decl
add_decl none ds = ds
add_decl (some d) ds = d ∷ ds

unfoldable pub parse_decls : ℕ → ℕ → Parse (List Decl)
parse_decls zero n = out_of_fuel
parse_decls (suc k) n =
    check tok_eof
    >>= either (done []) (parse_decl n >>= λ d. parse_decls k n >>= λ ds. done (add_decl d ds))

unfoldable pub parser_init : (StrView → F64) → StrView → Parser
parser_init strtod source =
    let (cur, l1) = lexer_next strtod (lexer_init source) in
    let (peek, l2) = lexer_next strtod l1 in
    record { lex = l2; cur = cur; peek = peek; had_error = false; error_count = 0 }

unfoldable pub module_of : StrView → Option (List Decl × Parser) → Option AstModule
module_of filename none = none
module_of filename (some (ds, p)) = some record { filename = filename; decls = ds }

-- The source is given without its final zero byte. The count of errors is printed and forgotten.
unfoldable pub parse_source : ℕ → (StrView → F64) → StrView → StrView → Option AstModule
parse_source n strtod source filename =
    module_of filename (parse_decls n n strtod (parser_init strtod source))
