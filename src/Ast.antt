-- ===== src/Ast.antt =====
-- The graph IR of crates/knok-core/src/ast.rs: tensor types, operations, expressions and graphs.
pub mod Types
pub mod Op
pub mod Graph
pub mod Equality
