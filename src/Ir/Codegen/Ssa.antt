-- ===== src/Ir/Codegen/Ssa.antt =====
-- src/ir/codegen.c, `cg_func` and `codegen_module`: the functions that are built.
use o.Prelude.{
  ℕ, ◌+◌, ◌≡◌, refl, true, false, not, ◌&&◌, List, [], ◌∷◌, ◌++◌, map, if◌then◌else◌, All, Option,
  none, some, Bool-cases, inl, inr, arith,
}
use mathlib.Core.Path.{subst}
use o.Frontend.Types.{StrView}
use o.Frontend.Ast.{
  ParamDecl, FuncDecl, func, struct_decl, enum_decl, var, import_decl, Decl, AstModule,
}
use o.Ir.Values.{void, IrFunc, IrModule}
use o.Ir.Build.{ir_module_new, ir_func_new}
use o.Ir.Steps.{Built, start, next, new_block, step, definitions, IsSsa, BuildStep-IsSsa}
use o.Ir.Codegen.{cg_typekind, CgCtx, cg_new_block, cg_switch_block}
use o.Ir.Codegen.Framed.{emit_store-Framed}
use o.Ir.Codegen.Statements.{lift, cg_stmt}
use o.Ir.Codegen.Grown.{
  GrownFrom, Grown, bind-Grown, lift-Grown, Framed-Grown, alloca-Grown, push_local-Grown,
  emit_ret-Grown,
}
use o.Ir.Codegen.Lowered.{emit_defers-Grown, cg_stmt-Grown}
use o.Ir.Codegen.Functions.{
  fresh_ctx, cg_entry, cg_params, returned, cg_tail, cg_body, set_last, cg_func, has_body, cg_decl,
  cg_decls, codegen_module,
}

pub Built-IsSsa : {f g : IrFunc} → Built f g → IsSsa f → IsSsa g
Built-IsSsa (start _) h = h
Built-IsSsa (next p s) h = BuildStep-IsSsa s (Built-IsSsa p h)

cg_entry-Grown : Grown (lift cg_entry)
unfolding cg_entry cg_new_block cg_switch_block
cg_entry-Grown = lift-Grown cg_entry (λ ctx. step (new_block ctx.fn _))

cg_params-Grown : (i : ℕ) (ps : List ParamDecl) → Grown (cg_params i ps)
unfolding Grown GrownFrom cg_params
cg_params-Grown i [] ctx = start ctx.fn
cg_params-Grown i (p ∷ ps) ctx =
    bind-Grown _ _ (alloca-Grown _ _)
      (λ ptr.
        bind-Grown _ _ (Framed-Grown _ (emit_store-Framed ptr _))
          (λ _. bind-Grown _ _ (push_local-Grown _) (λ _. cg_params-Grown (i + 1) ps)))
      ctx

cg_tail-Grown : (fuel : ℕ) → Grown (cg_tail fuel)
unfolding Grown GrownFrom cg_tail
cg_tail-Grown fuel ctx = elim (Bool-cases (returned ctx)) [
  | inl e ↦ rw (e, cg_tail) (start ctx.fn)
  | inr e ↦
      rw (e, cg_tail)
        (bind-Grown _ _ (emit_defers-Grown (cg_stmt fuel) (cg_stmt-Grown fuel))
          (λ _. emit_ret-Grown void) ctx)
]

cg_body-Grown : (fuel : ℕ) (d : FuncDecl) → Grown (cg_body fuel d)
unfolding cg_body
cg_body-Grown fuel d = bind-Grown _ _ cg_entry-Grown λ _.
    bind-Grown _ _ (cg_params-Grown 0 d.params)
      λ _. bind-Grown _ _ (cg_stmt-Grown fuel d.body) λ _. cg_tail-Grown fuel

-- A function that starts has its parameters' registers and no instruction.
ir_func_new-IsSsa :
    (m : IrModule) (name : StrView) (d : FuncDecl)
    → IsSsa
        (ir_func_new m name
          (map (λ p. p.name) d.params)
          (map (λ p. cg_typekind p.type) d.params)
          d.ret_type
          d.variadic).1
unfolding IsSsa ir_func_new definitions
ir_func_new-IsSsa m name d = (omega arith, λ n. (omega arith, inl refl))

All-append :
    {A : Type 0} (P : A → Type 0) (xs : List A) (x : A) → All P xs → P x → All P (xs ++ x ∷ [])
All-append P [] x h p = (p, tt)
All-append P (y ∷ ys) x (q, h) p = (q, All-append P ys x h p)

set_last-append : (fs : List IrFunc) (f g : IrFunc) → set_last (fs ++ f ∷ []) g ≡ fs ++ g ∷ []
unfolding set_last
set_last-append [] f g = refl
set_last-append (h ∷ []) f g = refl
set_last-append (h ∷ k ∷ fs) f g = rw (set_last-append (k ∷ fs) f g) refl

-- A module whose functions are all in static single assignment form, where there is one.
SsaModule : Option IrModule → Type 0
SsaModule none = Unit
SsaModule (some m) = All IsSsa m.funcs

-- The functions so far, and the one that a body builds.
SsaModule-body :
    (m : IrModule) (fn : IrFunc) (cap : ℕ) (o : Option (Unit {0} × CgCtx))
    → All IsSsa m.funcs
    → IsSsa fn
    → GrownFrom (fresh_ctx fn) o
    → SsaModule (elim o [
      | none ↦ none
      | some (_, ctx) ↦ some record { funcs = set_last (m.funcs ++ fn ∷ []) ctx.fn; func_cap = cap }
    ])
unfolding GrownFrom SsaModule
SsaModule-body m fn cap none h hf g = tt
SsaModule-body m fn cap (some (_, ctx)) h hf g =
    rw (set_last-append m.funcs fn ctx.fn) (All-append IsSsa m.funcs ctx.fn h (Built-IsSsa g hf))

cg_func-Ssa :
    (fuel : ℕ) (name : StrView) (d : FuncDecl) (m : IrModule)
    → All IsSsa m.funcs
    → SsaModule (cg_func fuel name d m)
unfolding Grown cg_func ir_func_new
cg_func-Ssa fuel name d m h =
    SsaModule-body m _ _ _ h (ir_func_new-IsSsa m name d) (cg_body-Grown fuel d (fresh_ctx _))

cg_decl-Ssa :
    (fuel : ℕ) (d : Decl) (m : IrModule) → All IsSsa m.funcs → SsaModule (cg_decl fuel d m)
unfolding cg_decl SsaModule
cg_decl-Ssa fuel d m h =
    elim d.node
      as (λ n. SsaModule (elim n [
        | func f ↦ if not d.is_extern && has_body f.body then cg_func fuel d.name f m else some m
        | _ ↦ some m
      ])) [
        | func f ↦
            elim (not d.is_extern && has_body f.body)
              as (λ t. SsaModule (if t then cg_func fuel d.name f m else some m)) [
                | true ↦ cg_func-Ssa fuel d.name f m h
                | false ↦ h
              ]
        | struct_decl _ ↦ h
        | enum_decl _ _ ↦ h
        | var _ _ ↦ h
        | import_decl _ ↦ h
      ]

SsaModule-bind :
    (o : Option IrModule) (k : IrModule → Option IrModule)
    → SsaModule o
    → ((m : IrModule) → All IsSsa m.funcs → SsaModule (k m))
    → SsaModule (elim o [ none ↦ none | some m ↦ k m ])
unfolding SsaModule
SsaModule-bind none k h hk = tt
SsaModule-bind (some m) k h hk = hk m h

cg_decls-Ssa :
    (fuel : ℕ) (ds : List Decl) (m : IrModule) → All IsSsa m.funcs → SsaModule (cg_decls fuel ds m)
unfolding cg_decls SsaModule
cg_decls-Ssa fuel [] m h = h
cg_decls-Ssa fuel (d ∷ ds) m h =
    SsaModule-bind (cg_decl fuel d m) (cg_decls fuel ds) (cg_decl-Ssa fuel d m h)
      (cg_decls-Ssa fuel ds)

-- In a module that is lowered, every function is in static single assignment form: each register is
-- the result of at most one instruction, and a register that is some instruction's result was handed
-- out by the function's counter and is not a parameter's.
pub codegen_module-IsSsa :
    (fuel : ℕ) (ast : AstModule) (m : IrModule)
    → codegen_module fuel ast ≡ some m
    → All IsSsa m.funcs
unfolding codegen_module SsaModule ir_module_new
codegen_module-IsSsa fuel ast m e = subst SsaModule e (cg_decls-Ssa fuel ast.decls ir_module_new tt)
