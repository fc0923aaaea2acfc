-- ===== src/Frontend/Ast.antt =====
-- include/frontend/ast.h: expressions, statements and declarations. The annotations that the
-- semantic analysis writes (`resolved_type`, `is_lvalue`) are fields of each expression; source
-- locations are left out.
use o.Prelude.{ℕ, Bool, List}
use o.Prelude.Int.{ℤ}
use o.Frontend.Types.{StrView, TypeNode}

pub data UnOpKind : Type 0 where
  neg not bnot pre_inc pre_dec post_inc post_dec : UnOpKind

pub data BinOpKind : Type 0 where
  add sub mul div modulo and or xor shl shr land lor eq neq lt gt le ge assign : BinOpKind
  add_assign sub_assign mul_assign div_assign mod_assign : BinOpKind
  and_assign or_assign xor_assign shl_assign shr_assign : BinOpKind

-- The bit pattern of a double.
abbrev pub F64 : Type 0
F64 = ℕ

-- An `Expr *`: null, or a node with its resolved type, its lvalue flag and its payload. The lists
-- are arrays with their counts.
mutual
  pub data Expr : Type 0 where
    null : Expr
    expr : TypeNode → Bool → ExprNode → Expr

  pub data ExprNode : Type 0 where
    int_lit : ℕ → ExprNode
    float_lit : F64 → ExprNode
    string_lit : StrView → ExprNode
    char_lit : ℕ → ExprNode
    bool_lit : Bool → ExprNode
    null_lit : ExprNode
    ident : StrView → ExprNode
    call : Expr → Exprs → ExprNode
    index : Expr → Expr → ExprNode
    field : Expr → StrView → ExprNode
    deref : Expr → ExprNode
    addr_of : Expr → Bool → ExprNode
    size_of : TypeNode → ExprNode
    align_of : TypeNode → ExprNode
    cast : Expr → TypeNode → ExprNode
    unary : UnOpKind → Expr → ExprNode
    binary : BinOpKind → Expr → Expr → ExprNode
    ternary : ExprNode
    struct_init : TypeNode → FieldInits → ExprNode
    array_init : Exprs → ExprNode

  pub data Exprs : Type 0 where
    nil : Exprs
    cons : Expr → Exprs → Exprs

  pub data FieldInits : Type 0 where
    end : FieldInits
    field_init : StrView → Expr → FieldInits → FieldInits

-- A `Stmt *`. The kinds that no parser function makes are left out.
mutual
  pub data Stmt : Type 0 where
    null : Stmt
    block : Stmts → Stmt
    expr_stmt : Expr → Stmt
    let_stmt : StrView → TypeNode → Expr → Bool → Bool → Stmt
    ret : Expr → Stmt
    if_stmt : Expr → Stmt → Stmt → Stmt
    while_stmt : Expr → Stmt → Stmt
    for_stmt : Stmt → Expr → Stmt → Stmt → Stmt
    break_stmt : Stmt
    continue_stmt : Stmt
    defer_stmt : Stmt → Stmt

  pub data Stmts : Type 0 where
    nil : Stmts
    cons : Stmt → Stmts → Stmts

pub record ParamDecl : Type 0 where
  pub name : StrView
  pub type : TypeNode

pub record FieldDecl : Type 0 where
  pub name : StrView
  pub type : TypeNode

pub record EnumVariant : Type 0 where
  pub name : StrView
  pub value : ℤ
  pub has_explicit_value : Bool

-- The payload of a function declaration.
pub record FuncDecl : Type 0 where
  pub params : List ParamDecl
  pub ret_type : TypeNode
  pub body : Stmt
  pub variadic : Bool

pub data DeclNode : Type 0 where
  func : FuncDecl → DeclNode
  struct_decl : List FieldDecl → DeclNode
  enum_decl : List EnumVariant → TypeNode → DeclNode
  var : TypeNode → Expr → DeclNode
  import_decl : StrView → DeclNode

-- A declaration that is not null; a module leaves the null ones out.
pub record Decl : Type 0 where
  pub name : StrView
  pub is_extern : Bool
  pub is_inline : Bool
  pub node : DeclNode

pub record AstModule : Type 0 where
  pub filename : StrView
  pub decls : List Decl
