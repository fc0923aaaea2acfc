-- ===== src/Output/ElfExec/Externs.antt =====
-- src/output/elf/exec.c: the index that elf_exec_declare_extern gives a name.
use o.Prelude.{
  ℕ, suc, ◌+◌, ◌-◌, ◌<◌, ◌≤◌, ◌&&◌, ==_iff, ◌≡◌, refl, ◌∙◌, ap, Bool, true, false, List, [], ◌∷◌,
  ◌++◌, Option, none, some, leb, if◌then◌else◌, Bool-cases, inl, inr, length, arith, get_elem?,
}
use mathlib.Core.Path.{ap₂}
use mathlib.Core.Option.{some-injective}
use o.Frontend.Types.{StrView, sv_eq}
use o.Frontend.ScopeMap.{sv_eq_sound}
use o.Output.ElfExec.{ElfExecCtx, find_extern, declare_found, elf_exec_declare_extern}

-- The search gives the place of the name.
find_extern-found :
    (ss : List StrView) (name : StrView) (i k : ℕ)
    → find_extern ss name i ≡ some k
    → (i ≤ k) × (get_elem? ss (k - i) ≡ some name)
unfolding find_extern
find_extern-found [] name i k h = ground arith
find_extern-found (s ∷ ss) name i k h = elim (Bool-cases (sv_eq s name)) [
  | inl e ↦ here e (some-injective i k (rw e at h))
  | inr e ↦ later (find_extern-found ss name (i + 1) k (rw e at h))
]
  where
    here : sv_eq s name ≡ true → i ≡ k → (i ≤ k) × (get_elem? (s ∷ ss) (k - i) ≡ some name)
    here e q = (omega arith, ap (get_elem? (s ∷ ss)) (first q) ∙ ap some (sv_eq_sound s name e))
      where
        first : i ≡ k → k - i ≡ 0
        first q = omega arith

    later :
        (i + 1 ≤ k) × (get_elem? ss (k - (i + 1)) ≡ some name)
        → (i ≤ k) × (get_elem? (s ∷ ss) (k - i) ≡ some name)
    later (le, found) = (omega arith, ap (get_elem? (s ∷ ss)) next ∙ found)
      where
        next : k - i ≡ suc (k - (i + 1))
        next = omega arith

sv_eq-same : (s : StrView) → sv_eq s s ≡ true
unfolding sv_eq
sv_eq-same [] = refl
sv_eq-same (c ∷ cs) = ap₂ ◌&&◌ ((==_iff c c).1 refl) (sv_eq-same cs)

-- A name that is not there is found where it is put.
find_extern-pushed :
    (ss : List StrView) (name : StrView) (i : ℕ)
    → find_extern ss name i ≡ none
    → find_extern (ss ++ name ∷ []) name i ≡ some (i + length ss)
unfolding find_extern
find_extern-pushed [] name i h = rw (sv_eq-same name) (ap some (omega arith))
find_extern-pushed (s ∷ ss) name i h = elim (Bool-cases (sv_eq s name)) [
  | inl e ↦ none_some (rw e at h)
  | inr e ↦ rw e (find_extern-pushed ss name (i + 1) (rw e at h) ∙ ap some (omega arith))
]
  where
    none_some :
        some i ≡ none → find_extern (s ∷ (ss ++ name ∷ [])) name i ≡ some (i + suc (length ss))
    none_some q = ground arith

get_elem?-pushed : (ss : List StrView) (s : StrView) → get_elem? (ss ++ s ∷ []) (length ss) ≡ some s
get_elem?-pushed [] s = refl
get_elem?-pushed (x ∷ ss) s = get_elem?-pushed ss s

abbrev pushed : ElfExecCtx → StrView → ElfExecCtx
pushed ctx name = record ctx { extern_syms = ctx.extern_syms ++ name ∷ [] }

module _ (ctx : ElfExecCtx) (name : StrView) where
  declared-found :
      (i : ℕ)
      → find_extern ctx.extern_syms name 0 ≡ some i
      → elf_exec_declare_extern ctx name ≡ (i, ctx)
  unfolding elf_exec_declare_extern declare_found
  declared-found i e = ap (declare_found ctx name) e

  declared-pushed :
      find_extern ctx.extern_syms name 0 ≡ none
      → length ctx.extern_syms < 256
      → elf_exec_declare_extern ctx name ≡ (length ctx.extern_syms, pushed ctx name)
  unfolding elf_exec_declare_extern declare_found
  declared-pushed e h =
      ap (declare_found ctx name) e
      ∙ ap (λ (b : Bool). if b then (0, ctx) else (length ctx.extern_syms, pushed ctx name))
          (room (leb 256 (length ctx.extern_syms)) refl)
    where
      room :
          (b : Bool)
          → leb 256 (length ctx.extern_syms) ≡ b
          → leb 256 (length ctx.extern_syms) ≡ false
      room b q = ground arith

-- The call gives the place of the name, and a second call the same.
unfoldable pub Declared : ElfExecCtx → StrView → ℕ × ElfExecCtx → Type 0
Declared ctx name (i, after) =
    (get_elem? after.extern_syms i ≡ some name) × (elf_exec_declare_extern after name ≡ (i, after))

-- While fewer than 256 names are taken, the name stands at the index that is given, and a second call
-- gives that index again and changes nothing.
pub elf_exec_declare_extern_lem :
    (ctx : ElfExecCtx) (name : StrView)
    → length ctx.extern_syms < 256
    → Declared ctx name (elf_exec_declare_extern ctx name)
unfolding Declared
elf_exec_declare_extern_lem ctx name h = cases (find_extern ctx.extern_syms name 0) refl
  where
    from_zero : (i : ℕ) → i ≡ i - 0
    from_zero i = omega arith

    cases :
        (o : Option ℕ)
        → find_extern ctx.extern_syms name 0 ≡ o
        → Declared ctx name (elf_exec_declare_extern ctx name)
    cases (some i) q = rw (declared-found ctx name i q) (
      ap (get_elem? ctx.extern_syms) (from_zero i)
          ∙ (find_extern-found ctx.extern_syms name 0 i q).1,
      declared-found ctx name i q,
    )
    cases none q = rw (declared-pushed ctx name q h) (
      get_elem?-pushed ctx.extern_syms name,
      declared-found (pushed ctx name) name (length ctx.extern_syms)
          (find_extern-pushed ctx.extern_syms name 0 q ∙ ap some (omega arith)),
    )
