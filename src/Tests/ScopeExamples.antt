-- ===== src/Tests/ScopeExamples.antt =====
-- Scopes of src/frontend/sema.c that hide one another's names, and its tests on types.
use o.Prelude.{◌≡◌, refl, true, false, [], ◌∷◌, none, some}
use o.Frontend.Types.{
  StrView, sv_eq, TypeNode, pointer, prim, ty_i64, ty_u8, ty_f64, ty_is_integer, ty_is_numeric,
  ty_is_float,
}
use o.Frontend.TypeEquality.{types_equal, type_is_integral, type_is_numeric_node}
use o.Frontend.Scope.{
  Symbol, sym_var, sym_func, str_hash_from, str_hash, bucket_of, find_symbol, scope_lookup,
}
use o.Frontend.ScopeMap.{in_order, chain_of, scope_lookup-chain_of}

abbrev x : StrView
x = 120 ∷ []

abbrev main : Symbol
main = record { name = 109 ∷ []; kind = sym_func; type = TypeNode.null; decl = some 0 }

abbrev outer_x : Symbol
outer_x = record { name = x; kind = sym_var; type = TypeNode.null; decl = none }

abbrev inner_x : Symbol
inner_x = record { name = x; kind = sym_var; type = TypeNode.prim ty_i64; decl = none }

scope_lookup-chain_of_example :
    scope_lookup (chain_of ((inner_x ∷ []) ∷ (outer_x ∷ []) ∷ (main ∷ []) ∷ [])) x
    ≡ find_symbol (in_order ((inner_x ∷ []) ∷ (outer_x ∷ []) ∷ (main ∷ []) ∷ [])) x
scope_lookup-chain_of_example =
    scope_lookup-chain_of ((inner_x ∷ []) ∷ (outer_x ∷ []) ∷ (main ∷ []) ∷ []) x

-- The inner definition hides the outer one.
hides : find_symbol (in_order ((inner_x ∷ []) ∷ (outer_x ∷ []) ∷ (main ∷ []) ∷ [])) x ≡ some inner_x
unfolding find_symbol in_order sv_eq
hides = refl

-- FNV-1a of the empty name and of "a".
hashes : (str_hash [] ≡ 0x811C_9DC5) × (str_hash (97 ∷ []) ≡ 0xE40C_292C)
unfolding str_hash str_hash_from
hashes = (refl, refl)

bucket_of_x : bucket_of x ≡ 7
unfolding bucket_of str_hash str_hash_from
bucket_of_x = refl

-- Pointers to different types differ, whether or not they are mutable.
pointers :
    (types_equal (pointer (prim ty_u8) false) (pointer (prim ty_u8) true) ≡ true)
    × (types_equal (pointer (prim ty_u8) false) (pointer (prim ty_i64) false) ≡ false)
unfolding types_equal
pointers = (refl, refl)

null_is_no_integer :
    (type_is_integral TypeNode.null ≡ false) × (type_is_numeric_node (prim ty_f64) ≡ true)
unfolding type_is_integral type_is_numeric_node ty_is_integer ty_is_numeric ty_is_float
null_is_no_integer = (refl, refl)
