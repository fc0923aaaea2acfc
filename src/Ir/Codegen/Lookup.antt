-- ===== src/Ir/Codegen/Lookup.antt =====
-- src/ir/codegen.c, `cg_find_local`: which of several variables of one name is found.
use o.Prelude.{
  ◌≡◌, Bool, true, false, List, [], ◌∷◌, ◌++◌, ltb, length, Option, some, Bool-cases, inl, inr,
  if◌then◌else◌, arith,
}
use o.Frontend.Types.{StrView, sv_eq}
use o.Ir.Codegen.{LocalVar, CgCtx, max_locals, find_local, cg_find_local}
use o.Ir.Codegen.Statements.{push_local}

kept :
    (b : Bool) (k old : LocalVar) (o o' : Option LocalVar)
    → (o ≡ some old → o' ≡ some old)
    → (if b then some k else o) ≡ some old
    → (if b then some k else o') ≡ some old
kept true k old o o' h e = e
kept false k old o o' h e = h e

find_local-append :
    (ls : List LocalVar) (l : LocalVar) (name : StrView) (old : LocalVar)
    → find_local ls name ≡ some old
    → find_local (ls ++ l ∷ []) name ≡ some old
unfolding find_local
find_local-append [] l name old e = ground arith
find_local-append (k ∷ ls) l name old e =
    kept (sv_eq k.name name) k old _ _ (find_local-append ls l name old) e

-- Where a name already stands for a variable, declaring another variable under it changes nothing
-- in the lookup: the name still stands for the older one.
pub cg_find_local-push_local :
    (lv old : LocalVar) (ctx : CgCtx)
    → cg_find_local lv.name ctx ≡ some old
    → cg_find_local lv.name (push_local lv ctx) ≡ some old
unfolding cg_find_local push_local
cg_find_local-push_local lv old ctx e = elim (Bool-cases (ltb (length ctx.locals) max_locals)) [
  | inl t ↦ rw (t, push_local) (find_local-append ctx.locals lv lv.name old e)
  | inr t ↦ rw (t, push_local) e
]
