-- ===== src/Frontend/Parser/Stuck.antt =====
-- src/frontend/parser.c: what the parser does on a token that it does not expect.
use o.Prelude.{
  ℕ, zero, suc, ◌+◌, ◌<◌, ◌≤◌, ◌==◌, ◌||◌, ◌≡◌, ◌∙◌, refl, ap, Bool, true, false, List, [], ◌∷◌,
  Option, none, some, arith,
}
use o.Frontend.Types.{StrView, TypeNode, ty_void}
use o.Frontend.Ast.{F64}
use o.Frontend.Lexer.{
  TokKind, Token, tok_star, tok_lbracket, tok_kw_fn, tok_ident, tok_colon, tok_comma, tok_semi,
  tok_rbrace, tok_slash, tok_question,
}
use o.Frontend.Parser.{
  Parser, Parse, done, and_then, ◌>>=◌, is_tok, out_of_fuel, tok_index, parse_error, current, check,
  either, if_check, on, taken, expect, at_end,
}
use o.Frontend.Parser.ParseType.{
  match_in, primitives, base_type, bracket_type, type_step, parse_type,
}
use o.Frontend.Parser.Declarations.{parse_field_decl, struct_fields}

-- A token from `/` to `?` in the order of the enumeration.
unfoldable pub IsOperator : Token → Type 0
IsOperator t =
    (tok_index tok_slash ≤ tok_index t.kind) × (tok_index t.kind ≤ tok_index tok_question)

-- The state behind an error.
unfoldable pub failed : Parser → Parser
failed p = record p { had_error = true; error_count = p.error_count + 1 }

-- A step that gives a result is followed by the next.
pub bind_some :
    {A B : Type 0} (m : Parse A) (k : A → Parse B) (strtod : StrView → F64) (p : Parser)
    (r : A × Parser)
    → m strtod p ≡ some r
    → (m >>= k) strtod p ≡ k r.0 strtod r.1
unfolding ◌>>=◌ and_then
bind_some m k strtod p r e = ap (λ (o : Option _). and_then strtod o k) e

module _ (strtod : StrView → F64) (p : Parser) where
  if_check-miss :
      {A : Type 0} (k : TokKind) (hit miss : Parse A)
      → is_tok k p.cur ≡ false
      → if_check k hit miss strtod p ≡ miss strtod p
  unfolding if_check check either ◌>>=◌ and_then
  if_check-miss k hit miss e = ap (λ b. either hit miss b strtod p) e

  on-miss :
      {A : Type 0} (k : TokKind) (hit miss : Parse A)
      → is_tok k p.cur ≡ false
      → on k hit miss strtod p ≡ miss strtod p
  unfolding on
  on-miss k hit miss e = if_check-miss k _ miss e

  taken-miss : (k : TokKind) → is_tok k p.cur ≡ false → taken k strtod p ≡ some (false, p)
  unfolding taken done
  taken-miss k e = on-miss k _ _ e

  expect-miss : (k : TokKind) → is_tok k p.cur ≡ false → expect k strtod p ≡ some (p.cur, failed p)
  unfolding expect current parse_error ◌>>=◌ and_then failed
  expect-miss k e = if_check-miss k _ _ e

abbrev AllBefore : {A : Type 0} → List (TokKind × A) → Type 0
AllBefore [] = Unit {0}
AllBefore ((k, a) ∷ ks) = (tok_index k < tok_index tok_slash) × AllBefore ks

primitives-before : AllBefore primitives
unfolding tok_index
primitives-before = (
  omega arith,
  (
    omega arith,
    (
      omega arith,
      (
        omega arith,
        (
          omega arith,
          (
            omega arith,
            (
              omega arith,
              (
                omega arith,
                (
                  omega arith,
                  (omega arith, (omega arith, (omega arith, (omega arith, (omega arith, tt))))),
                ),
              ),
            ),
          ),
        ),
      ),
    ),
  ),
)

module _ (strtod : StrView → F64) (p : Parser) (h : IsOperator p.cur) where
  not_before : (k : TokKind) → tok_index k < tok_index tok_slash → is_tok k p.cur ≡ false
  unfolding is_tok IsOperator
  not_before k lt = ground arith

  match_in-miss :
      {A : Type 0} (ks : List (TokKind × A)) → AllBefore ks → match_in ks strtod p ≡ some (none, p)
  unfolding match_in done
  match_in-miss [] hs = refl
  match_in-miss ((k, a) ∷ ks) (lt, hs) =
      on-miss strtod p k _ _ (not_before k lt) ∙ match_in-miss ks hs

  base_type-miss : base_type none strtod p ≡ some (TypeNode.prim ty_void, failed p)
  unfolding base_type parse_error done failed ◌>>=◌ and_then tok_index
  base_type-miss = if_check-miss strtod p tok_ident _ _ (not_before tok_ident (omega arith))

  -- No type is found, and no token is taken.
  parse_type-miss : (n : ℕ) → parse_type (suc n) strtod p ≡ some (TypeNode.prim ty_void, failed p)
  unfolding parse_type type_step bracket_type tok_index
  parse_type-miss n =
      on-miss strtod p tok_star _ _ (not_before tok_star (omega arith))
      ∙ if_check-miss strtod p tok_lbracket _ _ (not_before tok_lbracket (omega arith))
      ∙ on-miss strtod p tok_lbracket _ _ (not_before tok_lbracket (omega arith))
      ∙ on-miss strtod p tok_kw_fn _ _ (not_before tok_kw_fn (omega arith))
      ∙ bind_some (match_in primitives) base_type strtod p (none, p)
          (match_in-miss primitives primitives-before)
      ∙ base_type-miss

-- Three errors, and the same token again.
abbrev after_field : Parser → Parser
after_field p = failed (failed (failed p))

module _ (strtod : StrView → F64) (p : Parser) (h : IsOperator p.cur) where
  parse_field_decl-miss :
      (n : ℕ)
      → parse_field_decl (suc n) strtod p
        ≡ some (record { name = p.cur.text; type = TypeNode.prim ty_void }, after_field p)
  unfolding parse_field_decl failed done tok_index
  parse_field_decl-miss n =
      bind_some (expect tok_ident) _ strtod p (p.cur, failed p)
        (expect-miss strtod p tok_ident (not_before strtod p h tok_ident (omega arith)))
      ∙ bind_some (expect tok_colon) _ strtod (failed p) (p.cur, failed (failed p))
          (expect-miss strtod (failed p) tok_colon (not_before strtod p h tok_colon (omega arith)))
      ∙ bind_some (parse_type (suc n)) _ strtod (failed (failed p))
          (TypeNode.prim ty_void, after_field p) (parse_type-miss strtod (failed (failed p)) h n)
      ∙ bind_some (taken tok_comma) _ strtod (after_field p) (false, after_field p)
          (taken-miss strtod (after_field p) tok_comma
            (not_before strtod p h tok_comma (omega arith)))
      ∙ bind_some (taken tok_semi) _ strtod (after_field p) (false, after_field p)
          (taken-miss strtod (after_field p) tok_semi
            (not_before strtod p h tok_semi (omega arith)))

  at_end-miss : at_end tok_rbrace strtod p ≡ some (false, p)
  unfolding at_end is_tok tok_index IsOperator
  at_end-miss = ap (λ (b : Bool). some (b, p)) closed
    where
      closed : ((tok_index p.cur.kind == 47) || (tok_index p.cur.kind == 94)) ≡ false
      closed = ground arith

  -- Without fuel for a type there is no result.
  parse_field_decl-none : parse_field_decl zero strtod p ≡ none
  unfolding parse_field_decl failed tok_index parse_type ◌>>=◌ and_then
  parse_field_decl-none =
      bind_some (expect tok_ident) _ strtod p (p.cur, failed p)
        (expect-miss strtod p tok_ident (not_before strtod p h tok_ident (omega arith)))
      ∙ bind_some (expect tok_colon) _ strtod (failed p) (p.cur, failed (failed p))
          (expect-miss strtod (failed p) tok_colon (not_before strtod p h tok_colon (omega arith)))

bind_none :
    {A B : Type 0} (m : Parse A) (k : A → Parse B) (strtod : StrView → F64) (p : Parser)
    → m strtod p ≡ none
    → (m >>= k) strtod p ≡ none
unfolding ◌>>=◌ and_then
bind_none m k strtod p e = ap (λ (o : Option _). and_then strtod o k) e

-- The fields of a structure on a token from `/` to `?` are never finished, whatever the fuel: each turn
-- reports three errors and takes no token.
pub struct_fields-diverges :
    (k n : ℕ) (strtod : StrView → F64) (p : Parser)
    → IsOperator p.cur
    → struct_fields k (parse_field_decl n) strtod p ≡ none
unfolding struct_fields out_of_fuel either failed
struct_fields-diverges zero n strtod p h = refl
struct_fields-diverges (suc k) zero strtod p h =
    bind_some (at_end tok_rbrace) _ strtod p (false, p) (at_end-miss strtod p h)
    ∙ bind_none (parse_field_decl zero) _ strtod p (parse_field_decl-none strtod p h)
struct_fields-diverges (suc k) (suc n) strtod p h =
    bind_some (at_end tok_rbrace) _ strtod p (false, p) (at_end-miss strtod p h)
    ∙ bind_some (parse_field_decl (suc n)) _ strtod p _ (parse_field_decl-miss strtod p h n)
    ∙ bind_none (struct_fields k (parse_field_decl (suc n))) _ strtod (after_field p)
        (struct_fields-diverges k (suc n) strtod (after_field p) h)
