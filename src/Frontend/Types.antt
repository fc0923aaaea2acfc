-- ===== src/Frontend/Types.antt =====
-- include/frontend/ast.h: the kinds of types, their classification and sizes, and type nodes. A
-- node's source location serves the diagnostics only and is left out.
use o.Prelude.{ℕ, Bool, true, false, ◌&&◌, ◌||◌, List, [], ◌∷◌, leb, ◌==◌}

-- A string view is the list of its bytes.
abbrev pub StrView : Type 0
StrView = List ℕ

unfoldable pub sv_eq : StrView → StrView → Bool
sv_eq [] [] = true
sv_eq (x ∷ a) (y ∷ b) = x == y && sv_eq a b
sv_eq _ _ = false

pub data TypeKind : Type 0 where
  ty_void ty_bool ty_i8 ty_i16 ty_i32 ty_i64 ty_u8 ty_u16 ty_u32 ty_u64 : TypeKind
  ty_f32 ty_f64 ty_isize ty_usize ty_pointer ty_array ty_slice ty_func : TypeKind
  ty_struct ty_union ty_enum ty_named : TypeKind

-- The value of the C enumeration.
abbrev pub kind_index : TypeKind → ℕ
kind_index ty_void = 0
kind_index ty_bool = 1
kind_index ty_i8 = 2
kind_index ty_i16 = 3
kind_index ty_i32 = 4
kind_index ty_i64 = 5
kind_index ty_u8 = 6
kind_index ty_u16 = 7
kind_index ty_u32 = 8
kind_index ty_u64 = 9
kind_index ty_f32 = 10
kind_index ty_f64 = 11
kind_index ty_isize = 12
kind_index ty_usize = 13
kind_index ty_pointer = 14
kind_index ty_array = 15
kind_index ty_slice = 16
kind_index ty_func = 17
kind_index ty_struct = 18
kind_index ty_union = 19
kind_index ty_enum = 20
kind_index ty_named = 21

-- `a == b`, `a >= b` on the enumeration
abbrev pub same_kind : TypeKind → TypeKind → Bool
same_kind a b = kind_index a == kind_index b

abbrev pub kind_between : TypeKind → TypeKind → TypeKind → Bool
kind_between lo k hi = leb (kind_index lo) (kind_index k) && leb (kind_index k) (kind_index hi)

unfoldable pub ty_is_integer : TypeKind → Bool
ty_is_integer k = kind_between ty_i8 k ty_usize

unfoldable pub ty_is_signed : TypeKind → Bool
ty_is_signed k = kind_between ty_i8 k ty_i64 || same_kind k ty_isize

unfoldable pub ty_is_float : TypeKind → Bool
ty_is_float k = same_kind k ty_f32 || same_kind k ty_f64

unfoldable pub ty_is_numeric : TypeKind → Bool
ty_is_numeric k = ty_is_integer k || ty_is_float k

unfoldable pub ty_primitive_size : TypeKind → ℕ
ty_primitive_size ty_bool = 1
ty_primitive_size ty_i8 = 1
ty_primitive_size ty_u8 = 1
ty_primitive_size ty_i16 = 2
ty_primitive_size ty_u16 = 2
ty_primitive_size ty_i32 = 4
ty_primitive_size ty_u32 = 4
ty_primitive_size ty_f32 = 4
ty_primitive_size ty_i64 = 8
ty_primitive_size ty_u64 = 8
ty_primitive_size ty_f64 = 8
ty_primitive_size ty_isize = 8
ty_primitive_size ty_usize = 8
ty_primitive_size ty_pointer = 8
ty_primitive_size _ = 0

-- A `TypeNode *`. A kind with no payload is `prim`; a pointer that `make_prim` made has the null
-- pointee of fresh arena memory.
mutual
  pub data TypeNode : Type 0 where
    null : TypeNode
    prim : TypeKind → TypeNode
    pointer : TypeNode → Bool → TypeNode
    array : TypeNode → ℕ → TypeNode
    slice : TypeNode → TypeNode
    func : TypeNodes → TypeNode → Bool → TypeNode
    named : StrView → TypeNode

  pub data TypeNodes : Type 0 where
    nil : TypeNodes
    cons : TypeNode → TypeNodes → TypeNodes

-- `t->kind`, for a node that is not null.
abbrev pub kind_of : TypeNode → TypeKind
kind_of null = ty_void
kind_of (prim k) = k
kind_of (pointer _ _) = ty_pointer
kind_of (array _ _) = ty_array
kind_of (slice _) = ty_slice
kind_of (func _ _ _) = ty_func
kind_of (named _) = ty_named

abbrev pub is_null : TypeNode → Bool
is_null null = true
is_null _ = false
