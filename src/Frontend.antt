-- ===== src/Frontend.antt =====
-- include/frontend and src/frontend: the syntax tree, and the semantic analysis.
pub mod Types
pub mod Ast
pub mod Lexer
pub mod Parser
pub mod Scope
pub mod ScopeMap
pub mod TypeEquality
