-- ===== src/Jit/Module.antt =====
-- src/jit/jit.c, jit_compile_module and jit_find_func: the compiled functions by name.
use o.Prelude.{
  ℕ, zero, suc, ◌+◌, ◌<◌, ◌≤◌, ◌≡◌, ◌≢◌, refl, sym, ◌∙◌, ap, List, [], ◌∷◌, length, map, get_elem?,
  get_or, set, length-set, get_or-set_self, get_or-set_ne, length-replicate, Option, none, some,
  if◌then◌else◌, Bool-cases, Option-cases, inl, inr, arith,
}
use mathlib.Core.Path.{subst}
use mathlib.Core.Option.{some-injective}
use o.Frontend.Types.{StrView, sv_eq}
use o.Ir.Values.{IrFunc, IrModule}
use o.Backend.CodeBuf.{CodeBuf}
use o.Backend.Labels.{◌>>=◌}
use o.Jit.{Runtime}
use o.Jit.Calls.{find_cached}
use o.Jit.Compile.{
  JitCache, jit_register, jit_compile_func, jit_compile_funcs, jit_compile_module, func_at,
  jit_find_func,
}

-- The first function of the name.
unfoldable pub find_named : List IrFunc → StrView → Option IrFunc
find_named [] name = none
find_named (fn ∷ fns) name = if sv_eq fn.name name then some fn else find_named fns name

-- What the loop leaves when it starts at index `i`: the names, the entries below, and the code of each
-- function at its index.
record Filled (rt : Runtime) (i : ℕ) (fns : List IrFunc) (before after : JitCache) : Type 0 where
  pub names : after.cached_names ≡ before.cached_names
  pub below : (j : ℕ) → j < i → get_or after.cached_funcs j none ≡ get_or before.cached_funcs j none
  pub code :
      (j : ℕ) (fn : IrFunc)
      → get_elem? fns j ≡ some fn
      → get_or after.cached_funcs (i + j) none ≡ jit_compile_func rt fn

abbrev filled_at : JitCache → ℕ → CodeBuf → JitCache
filled_at cache i cf = record cache { cached_funcs = set cache.cached_funcs i (some cf) }

Filled-step :
    {rt : Runtime} {i : ℕ} {fns : List IrFunc} {before after : JitCache} (fn : IrFunc)
    (cf : CodeBuf)
    → i < length before.cached_funcs
    → jit_compile_func rt fn ≡ some cf
    → Filled rt (i + 1) fns (filled_at before i cf) after
    → Filled rt i (fn ∷ fns) before after
Filled-step {rt} {i} {fns} {before} {after} fn cf room e rest = record {
  names = rest.names;
  below = λ j h.
      rest.below j (omega arith) ∙ get_or-set_ne before.cached_funcs i j (some cf) none (above j h);
  code = code;
}
  where
    above : (j : ℕ) → j < i → i ≢ j
    above j h q = omega arith

    code :
        (j : ℕ) (other : IrFunc)
        → get_elem? (fn ∷ fns) j ≡ some other
        → get_or after.cached_funcs (i + j) none ≡ jit_compile_func rt other
    code zero other q =
        ap (λ n. get_or after.cached_funcs n none) (omega arith)
        ∙ rest.below i (omega arith)
        ∙ get_or-set_self before.cached_funcs i (some cf) none room
        ∙ sym e
        ∙ ap (jit_compile_func rt) (some-injective fn other q)
    code (suc j) other q =
        ap (λ n. get_or after.cached_funcs n none) (omega arith) ∙ rest.code j other q

jit_compile_funcs-Filled :
    (rt : Runtime) (i : ℕ) (fns : List IrFunc) (before after : JitCache)
    → i + length fns ≤ length before.cached_funcs
    → jit_compile_funcs rt before i fns ≡ some after
    → Filled rt i fns before after
unfolding jit_compile_funcs
jit_compile_funcs-Filled rt i [] before after room h = record {
  names = ap (λ (c : JitCache). c.cached_names) same;
  below = λ j le. ap (λ (c : JitCache). get_or c.cached_funcs j none) same;
  code = λ j fn q. ground arith;
}
  where
    same : after ≡ before
    same = sym (some-injective before after h)
jit_compile_funcs-Filled rt i (fn ∷ fns) before after room h =
    elim (Option-cases (jit_compile_func rt fn)) [
      | inl e ↦ ground arith
      | inr (cf, e) ↦ Filled-step fn cf (omega arith) e (
          jit_compile_funcs-Filled rt (i + 1) fns (filled_at before i cf) after
            (omega (arith, length-set before.cached_funcs i (some cf)))
            (ap (λ r. r >>= next) (sym e) ∙ h))
    ]
  where
    next : CodeBuf → Option JitCache
    next cf = jit_compile_funcs rt (filled_at before i cf) (i + 1) fns

-- The index of a name and the function that has it: both are missing, or the function stands there.
data Found (fns : List IrFunc) (i : ℕ) : Option ℕ → Option IrFunc → Type 0 where
  missing : Found fns i none none
  at : (j : ℕ) (fn : IrFunc) → get_elem? fns j ≡ some fn → Found fns i (some (i + j)) (some fn)

abbrev name_of : IrFunc → StrView
name_of fn = fn.name

Found-later :
    {fns : List IrFunc} {i : ℕ} {o : Option ℕ} {r : Option IrFunc} (fn : IrFunc)
    → Found fns (i + 1) o r
    → Found (fn ∷ fns) i o r
Found-later fn missing = missing
Found-later {fns = fns} {i = i} fn (at j g q) =
    subst (λ n. Found (fn ∷ fns) i (some n) (some g)) {x = i + suc j} {y = i + 1 + j} (omega arith)
      (at (suc j) g q)

find_cached-Found :
    (fns : List IrFunc) (name : StrView) (i : ℕ)
    → Found fns i (find_cached (map name_of fns) name i) (find_named fns name)
unfolding find_cached find_named
find_cached-Found [] name i = missing
find_cached-Found (fn ∷ fns) name i = elim (Bool-cases (sv_eq fn.name name)) [
  | inl e ↦ rw e (
      subst (λ n. Found (fn ∷ fns) i (some n) (some fn)) {x = i + 0} {y = i} (omega arith)
        (at 0 fn refl))
  | inr e ↦ rw e (Found-later fn (find_cached-Found fns name (i + 1)))
]

Found-code :
    {rt : Runtime} {fns : List IrFunc} {before after : JitCache} {o : Option ℕ} {r : Option IrFunc}
    → Filled rt 0 fns before after
    → Found fns 0 o r
    → func_at after.cached_funcs o ≡ (r >>= jit_compile_func rt)
unfolding func_at
Found-code f missing = refl
Found-code f (at j fn q) = f.code j fn q

-- If a module compiles, then a look-up by name in the engine's two arrays gives the code of the first
-- function that has the name, compiled with the names of all functions registered, and nothing if no
-- function has it.
pub jit_find_func-compiled :
    (rt : Runtime) (m : IrModule) (name : StrView) (cache : JitCache)
    → jit_compile_module rt m ≡ some cache
    → jit_find_func cache name ≡ (
        find_named m.funcs name
        >>= jit_compile_func (record rt { cached_names = map (λ (fn : IrFunc). fn.name) m.funcs }))
unfolding jit_compile_module jit_register jit_find_func
jit_find_func-compiled rt m name cache h =
    let start = jit_register m.funcs in
    let filled =
      jit_compile_funcs-Filled (record rt { cached_names = map name_of m.funcs }) 0 m.funcs start
        cache (omega (arith, length-replicate {A = Option CodeBuf} (length m.funcs) none)) h in
    rw filled.names (Found-code filled (find_cached-Found m.funcs name 0))
