-- ===== src/Frontend/Parser/ParseType.antt =====
-- src/frontend/parser.c: `parse_type`.
use o.Prelude.{ℕ, zero, suc, Bool, true, false, List, [], ◌∷◌, Option, none, some, if◌then◌else◌}
use o.Frontend.Types.{
  TypeKind, ty_void, ty_bool, ty_i8, ty_i16, ty_i32, ty_i64, ty_u8, ty_u16, ty_u32, ty_u64, ty_f32,
  ty_f64, ty_isize, ty_usize, TypeNode, TypeNodes,
}
use o.Frontend.Lexer.{
  TokKind, Token, tok_star, tok_kw_mut, tok_lbracket, tok_rbracket, tok_int_lit, tok_float_lit,
  tok_kw_fn, tok_lparen, tok_rparen, tok_dotdotdot, tok_comma, tok_arrow, tok_ident, tok_kw_void,
  tok_kw_bool, tok_kw_i8, tok_kw_i16, tok_kw_i32, tok_kw_i64, tok_kw_u8, tok_kw_u16, tok_kw_u32,
  tok_kw_u64, tok_kw_f32, tok_kw_f64, tok_kw_isize, tok_kw_usize,
}
use o.Frontend.Parser.{
  Parse, done, ◌>>=◌, ◌>>◌, out_of_fuel, is_tok, parse_error, advance, check_peek, either, if_check,
  on, taken, expect, at_end,
}

-- `int_val` of a token, which shares its memory with `flt_val`.
unfoldable pub int_bits : Token → ℕ
int_bits t = if is_tok tok_float_lit t then t.flt_val else t.int_val

-- The table `pm`.
abbrev pub primitives : List (TokKind × TypeKind)
primitives =
    (tok_kw_void, ty_void)
    ∷ (tok_kw_bool, ty_bool)
    ∷ (tok_kw_i8, ty_i8)
    ∷ (tok_kw_i16, ty_i16)
    ∷ (tok_kw_i32, ty_i32)
    ∷ (tok_kw_i64, ty_i64)
    ∷ (tok_kw_u8, ty_u8)
    ∷ (tok_kw_u16, ty_u16)
    ∷ (tok_kw_u32, ty_u32)
    ∷ (tok_kw_u64, ty_u64)
    ∷ (tok_kw_f32, ty_f32)
    ∷ (tok_kw_f64, ty_f64)
    ∷ (tok_kw_isize, ty_isize)
    ∷ (tok_kw_usize, ty_usize)
    ∷ []

-- The first entry whose token is the current one; the token is taken.
unfoldable pub match_in : {A : Type 0} → List (TokKind × A) → Parse (Option A)
match_in [] = done none
match_in ((k, a) ∷ rest) = on k (done (some a)) (match_in rest)

unfoldable pub type_params : ℕ → Parse TypeNode → Parse (TypeNodes × Bool)
type_params zero rec = out_of_fuel
type_params (suc n) rec =
    at_end tok_rparen
    >>= either (done (TypeNodes.nil, false)) (
        on tok_dotdotdot (done (TypeNodes.nil, true)) (do
          t ← rec
          on tok_comma (type_params n rec >>= λ ps. done (TypeNodes.cons t ps.0, ps.1))
              (done (TypeNodes.cons t TypeNodes.nil, false))))

unfoldable pub pointer_type : Parse TypeNode → Parse TypeNode
pointer_type rec = do
  is_mut ← taken tok_kw_mut
  pointee ← rec
  done (TypeNode.pointer pointee is_mut)

unfoldable pub array_type : Parse TypeNode → Parse TypeNode
array_type rec = do
  ct ← expect tok_int_lit
  expect tok_rbracket
  elem ← rec
  done (TypeNode.array elem (int_bits ct))

unfoldable pub slice_type : Parse TypeNode → Parse TypeNode
slice_type rec = do advance; advance; elem ← rec; done (TypeNode.slice elem)

-- `if (match(p, TOK_ARROW)) ret = parse_type(p)`
unfoldable pub return_type : Parse TypeNode → Parse TypeNode
return_type rec = on tok_arrow rec (done TypeNode.null)

unfoldable pub func_type : ℕ → Parse TypeNode → Parse TypeNode
func_type n rec = do
  expect tok_lparen
  ps ← type_params n rec
  expect tok_rparen
  ret ← return_type rec
  done (TypeNode.func ps.0 ret ps.1)

-- A type without a constructor in front; no token is taken where none is found.
unfoldable pub base_type : Option TypeKind → Parse TypeNode
base_type (some k) = done (TypeNode.prim k)
base_type none =
    if_check tok_ident (advance >>= λ t. done (TypeNode.named t.text))
      (parse_error >> done (TypeNode.prim ty_void))

-- `[` and not `[]`: an array.
unfoldable pub bracket_type : ℕ → Parse TypeNode → Parse TypeNode
bracket_type n rec =
    on tok_lbracket (array_type rec)
      (on tok_kw_fn (func_type n rec) (match_in primitives >>= base_type))

unfoldable pub type_step : ℕ → Parse TypeNode → Parse TypeNode
type_step n rec = on tok_star (pointer_type rec) (
    if_check tok_lbracket (check_peek tok_rbracket >>= either (slice_type rec) (bracket_type n rec))
      (bracket_type n rec))

unfoldable pub parse_type : ℕ → Parse TypeNode
parse_type zero strtod p = none
parse_type (suc n) strtod p = type_step n (parse_type n) strtod p
