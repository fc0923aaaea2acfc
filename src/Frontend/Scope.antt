-- ===== src/Frontend/Scope.antt =====
-- src/frontend/sema.c: scopes as hash tables of symbols, and the lookup through the chain of scopes.
-- A chain is a list of scopes, the innermost first. The declaration of a symbol is its place in the
-- module.
use o.Prelude.{
  ℕ, ◌*◌, ◌%◌, ◌^◌, bit_xor, List, [], ◌∷◌, get_or, set, replicate, Option, none, some,
  if◌then◌else◌,
}
use o.Frontend.Types.{StrView, sv_eq, TypeNode}

pub data SymKind : Type 0 where
  sym_var sym_func sym_type sym_param : SymKind

pub record Symbol : Type 0 where
  pub name : StrView
  pub kind : SymKind
  pub type : TypeNode
  pub decl : Option ℕ

abbrev pub scope_hash : ℕ
scope_hash = 64

-- A bucket is the chain of its symbols, the latest first.
pub record Scope : Type 0 where
  pub buckets : List (List Symbol)

unfoldable pub scope_new : Scope
scope_new = record { buckets = replicate scope_hash [] }

unfoldable pub str_hash_from : ℕ → StrView → ℕ
str_hash_from h [] = h
str_hash_from h (c ∷ cs) = str_hash_from ((bit_xor h c * 16777619) % 2 ^ 32) cs

unfoldable pub str_hash : StrView → ℕ
str_hash sv = str_hash_from 2166136261 sv

unfoldable pub bucket_of : StrView → ℕ
bucket_of name = str_hash name % scope_hash

unfoldable pub scope_define : Symbol → Scope → Scope
scope_define s scope =
    let idx = bucket_of s.name in
    record { buckets = set scope.buckets idx (s ∷ get_or scope.buckets idx []) }

unfoldable pub find_symbol : List Symbol → StrView → Option Symbol
find_symbol [] name = none
find_symbol (s ∷ ss) name = if sv_eq s.name name then some s else find_symbol ss name

unfoldable pub scope_lookup : List Scope → StrView → Option Symbol
scope_lookup [] name = none
scope_lookup (scope ∷ parents) name =
    elim (find_symbol (get_or scope.buckets (bucket_of name) []) name) [
      | some s ↦ some s
      | none ↦ scope_lookup parents name
    ]
