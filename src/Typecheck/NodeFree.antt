-- ===== src/Typecheck/NodeFree.antt =====
-- Expressions of crates/knok-core/src/ast.rs without nodes.
use knok.Ast.Graph.{Expr, Exprs}

abbrev mutual
  pub NodeFree : Expr → Type 0
  NodeFree (Expr.unary op value) = NodeFree value
  NodeFree (Expr.binary op lhs rhs) = NodeFree lhs × NodeFree rhs
  NodeFree (Expr.node node_id value) = ⊥
  NodeFree (Expr.tuple_get tuple_id value place) = NodeFree value
  NodeFree (Expr.call op args) = NodesFree args
  NodeFree _ = Unit

  pub NodesFree : Exprs → Type 0
  NodesFree Exprs.nil = Unit
  NodesFree (Exprs.cons arg args) = NodeFree arg × NodesFree args
