-- ===== src/Frontend/Lexer/End.antt =====
-- src/frontend/lexer.c: `lexer_next` again and again.
use o.Prelude.{ℕ, zero, suc, ◌≤◌, ◌≡◌, inl, inr, ap, length, arith}
use o.Frontend.Types.{StrView}
use o.Frontend.Ast.{F64}
use o.Frontend.Lexer.{tok_eof, Lexer}
use o.Frontend.Lexer.Next.{lexer_next}
use o.Frontend.Lexer.Progress.{Advances, lexer_next-Advances}

-- The state behind `n` tokens.
unfoldable pub behind_tokens : (StrView → F64) → ℕ → Lexer → Lexer
behind_tokens strtod zero l = l
behind_tokens strtod (suc n) l = behind_tokens strtod n (lexer_next strtod l).1

at_end :
    (strtod : StrView → F64) (l : Lexer)
    → length l.rest ≡ 0
    → ((lexer_next strtod l).0.kind ≡ tok_eof) × (length (lexer_next strtod l).1.rest ≡ 0)
unfolding Advances
at_end strtod l h = elim (lexer_next-Advances strtod l).1 [
  | inl e ↦ (e.0, ap length e.1)
  | inr e ↦ absurd (omega (arith, e, h))
]

shorter-behind_tokens :
    (strtod : StrView → F64) (n : ℕ) (l : Lexer)
    → length l.rest ≤ n
    → length (behind_tokens strtod n l).rest ≡ 0
unfolding behind_tokens Advances
shorter-behind_tokens strtod zero l h = omega arith
shorter-behind_tokens strtod (suc n) l h = elim (lexer_next-Advances strtod l).1 [
  | inl e ↦ shorter-behind_tokens strtod n (lexer_next strtod l).1 (omega (arith, ap length e.1))
  | inr e ↦ shorter-behind_tokens strtod n (lexer_next strtod l).1 (omega (arith, e, h))
]

-- Behind as many tokens as there are bytes left of the source, or more, every further token is that of
-- the end.
pub lexer_next-ends :
    (strtod : StrView → F64) (l : Lexer) (n : ℕ)
    → length l.rest ≤ n
    → (lexer_next strtod (behind_tokens strtod n l)).0.kind ≡ tok_eof
lexer_next-ends strtod l n h =
    (at_end strtod (behind_tokens strtod n l) (shorter-behind_tokens strtod n l h)).0
