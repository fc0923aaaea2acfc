-- ===== src/Frontend/ScopeMap.antt =====
-- src/frontend/sema.c: a scope against the list of its definitions.
use o.Prelude.{
  get_or-set_self, get_or-set_ne, ℕ, zero, suc, ◌<◌, ◌≡◌, ◌≢◌, refl, sym, ap, ◌∙◌, Bool, true,
  false, List, [], ◌∷◌, length, get_or, set, replicate, length-set, Option, none, some,
  if◌then◌else◌, Bool-cases, inl, inr, arith, ◌==◌, ◌&&◌, ◌++◌, ==_iff,
}
use mathlib.Core.Path.{subst, ap₂}
use o.Frontend.Types.{StrView, sv_eq}
use o.Frontend.Scope.{
  Symbol, scope_hash, Scope, scope_new, bucket_of, scope_define, find_symbol, scope_lookup,
}

pub and_left : (a b : Bool) → a && b ≡ true → a ≡ true
and_left true b e = refl
and_left false b e = e

pub and_right : (a b : Bool) → a && b ≡ true → b ≡ true
and_right true b e = e
and_right false b e = ground arith

true_ne_false : true ≢ false
true_ne_false e = ground arith

-- Views with the same bytes are equal.
pub sv_eq_sound : (a b : StrView) → sv_eq a b ≡ true → a ≡ b
unfolding sv_eq
sv_eq_sound [] [] e = refl
sv_eq_sound [] (y ∷ b) e = ground arith
sv_eq_sound (x ∷ a) [] e = ground arith
sv_eq_sound (x ∷ a) (y ∷ b) e =
    ap₂ (λ c cs. c ∷ cs) ((==_iff x y).0 (and_left (x == y) (sv_eq a b) e))
      (sv_eq_sound a b (and_right (x == y) (sv_eq a b) e))

module _ {A : Type 0} where
  get_or-replicate : (n i : ℕ) (d : A) → get_or (replicate n d) i d ≡ d
  get_or-replicate zero i d = refl
  get_or-replicate (suc n) zero d = refl
  get_or-replicate (suc n) (suc i) d = get_or-replicate n i d

-- The scope has its buckets.
unfoldable IsScope : Scope → Type 0
IsScope scope = length scope.buckets ≡ scope_hash

bucket : Scope → StrView → List Symbol
bucket scope name = get_or scope.buckets (bucket_of name) []

-- What a name finds in one scope.
found : Scope → StrView → Option Symbol
unfolding bucket
found scope name = find_symbol (bucket scope name) name

scope_define-IsScope : (s : Symbol) (scope : Scope) → IsScope scope → IsScope (scope_define s scope)
unfolding IsScope scope_define
scope_define-IsScope s scope h = length-set scope.buckets _ _ ∙ h

bucket_of-lt : (name : StrView) (n : ℕ) → n ≡ scope_hash → bucket_of name < n
unfolding bucket_of
bucket_of-lt name n e = omega arith

-- The bucket that a symbol is put in.
found_here :
    (bs : List (List Symbol)) (i : ℕ) (s : Symbol) (name : StrView)
    → i < length bs
    → find_symbol (get_or (set bs i (s ∷ get_or bs i [])) i []) name
      ≡ (if sv_eq s.name name then some s else find_symbol (get_or bs i []) name)
unfolding find_symbol
found_here bs i s name h = rw (get_or-set_self bs i (s ∷ get_or bs i []) [] h) refl

found-scope_define :
    (s : Symbol) (scope : Scope) (name : StrView)
    → IsScope scope
    → found (scope_define s scope) name ≡ (if sv_eq s.name name then some s else found scope name)
unfolding IsScope found bucket scope_define
found-scope_define s scope name h = elim (Bool-cases (bucket_of s.name == bucket_of name)) [
  | inl e ↦
      subst
        (λ i.
          find_symbol
            (get_or
              (set scope.buckets (bucket_of s.name)
                (s ∷ get_or scope.buckets (bucket_of s.name) []))
              i [])
            name
          ≡ (if sv_eq s.name name then some s else find_symbol (get_or scope.buckets i []) name))
        ((==_iff (bucket_of s.name) (bucket_of name)).0 e)
        (found_here scope.buckets (bucket_of s.name) s name (bucket_of-lt s.name _ h))
  | inr e ↦ elim (Bool-cases (sv_eq s.name name)) [
    | inl t ↦ absurd (true_ne_false (sym (same_bucket t) ∙ e))
    | inr t ↦
        rw
          (
            t,
            get_or-set_ne scope.buckets (bucket_of s.name) (bucket_of name)
                (s ∷ get_or scope.buckets (bucket_of s.name) []) []
                (λ q. true_ne_false (sym ((==_iff _ _).1 q) ∙ e)),
          )
          refl
  ]
]
  where
    same_bucket : sv_eq s.name name ≡ true → (bucket_of s.name == bucket_of name) ≡ true
    same_bucket t = (==_iff _ _).1 (ap bucket_of (sv_eq_sound s.name name t))

-- A scope with these definitions, the latest first.
unfoldable pub define_all : List Symbol → Scope
define_all [] = scope_new
define_all (s ∷ ss) = scope_define s (define_all ss)

define_all-IsScope : (ss : List Symbol) → IsScope (define_all ss)
unfolding define_all IsScope scope_new
define_all-IsScope [] = refl
define_all-IsScope (s ∷ ss) = scope_define-IsScope s (define_all ss) (define_all-IsScope ss)

found-define_all :
    (ss : List Symbol) (name : StrView) → found (define_all ss) name ≡ find_symbol ss name
unfolding define_all found bucket scope_new find_symbol
found-define_all [] name =
    ap (λ b. find_symbol b name) (get_or-replicate scope_hash (bucket_of name) [])
found-define_all (s ∷ ss) name =
    found-scope_define s (define_all ss) name (define_all-IsScope ss)
    ∙ ap (λ o. if sv_eq s.name name then some s else o) (found-define_all ss name)

-- The definitions that a chain of scopes holds, from the innermost scope outwards, each scope's from
-- the latest on.
unfoldable pub in_order : List (List Symbol) → List Symbol
in_order [] = []
in_order (ss ∷ outer) = ss ++ in_order outer

unfoldable pub chain_of : List (List Symbol) → List Scope
chain_of [] = []
chain_of (ss ∷ outer) = define_all ss ∷ chain_of outer

find_symbol-append :
    (ss ts : List Symbol) (name : StrView)
    → find_symbol (ss ++ ts) name
      ≡ elim (find_symbol ss name) [ some s ↦ some s | none ↦ find_symbol ts name ]
unfolding find_symbol
find_symbol-append [] ts name = refl
find_symbol-append (s ∷ ss) ts name = elim (Bool-cases (sv_eq s.name name)) [
  | inl e ↦ rw e refl
  | inr e ↦ rw e (find_symbol-append ss ts name)
]

-- The lookup through the hash tables of a chain of scopes finds what a search of the definitions
-- in order finds: of the definitions of a name the one in the innermost scope, and in that scope
-- the latest.
pub scope_lookup-chain_of :
    (defs : List (List Symbol)) (name : StrView)
    → scope_lookup (chain_of defs) name ≡ find_symbol (in_order defs) name
unfolding scope_lookup chain_of in_order found bucket find_symbol
scope_lookup-chain_of [] name = refl
scope_lookup-chain_of (ss ∷ outer) name =
    (λ i. elim (found-define_all ss name i) [
      | some s ↦ some s
      | none ↦ scope_lookup-chain_of outer name i
    ])
    ∙ sym (find_symbol-append ss (in_order outer) name)
