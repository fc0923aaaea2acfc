-- ===== src/Frontend/TypeEquality.antt =====
-- src/frontend/sema.c, `types_equal` and the tests on a type that may be null.
use o.Prelude.{Bool, not, ◌&&◌, ◌==◌}
use o.Frontend.Types.{
  sv_eq, TypeNode, pointer, array, named, kind_of, is_null, same_kind, ty_is_integer, ty_is_numeric,
}

-- `!a || !b ? a == b : a->kind == b->kind`
abbrev same_shape : TypeNode → TypeNode → Bool
same_shape TypeNode.null b = is_null b
same_shape a b = not (is_null b) && same_kind (kind_of a) (kind_of b)

-- Slices of any elements are equal, and so are functions of any type.
unfoldable pub types_equal : TypeNode → TypeNode → Bool
types_equal (pointer a _) (pointer b _) = types_equal a b
types_equal (array a m) (array b n) = m == n && types_equal a b
types_equal (named a) (named b) = sv_eq a b
types_equal a b = same_shape a b

unfoldable pub type_is_integral : TypeNode → Bool
type_is_integral t = not (is_null t) && ty_is_integer (kind_of t)

unfoldable pub type_is_numeric_node : TypeNode → Bool
type_is_numeric_node t = not (is_null t) && ty_is_numeric (kind_of t)
