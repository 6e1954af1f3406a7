-- ===== src/Typecheck/Graphs.antt =====
-- `type_check` of crates/knok-core/src/typecheck.rs: a graph's bindings in order, and then its body.
use knok.Base.{
  Bool, String, List, [], ◌∷◌, length, ◌==◌, not, Result, ok, err, panic, message, reject_if,
}
use knok.Ast.Types.{TensorType, types_eq}
use knok.Ast.Op.{CallOp}
use knok.Ast.Graph.{Expr, Exprs, Let, Graph, TypedExpr, TypedLet, TypedGraph, GraphSignature}
use knok.Typecheck.Env.{TypeEnv, from_inputs, push_bindings}
use knok.Typecheck.Cache.{NodeTypeCache}
use knok.Typecheck.Checker.{Checker, ◌>>=◌, ◌>>◌, pure, lift}
use knok.Typecheck.Rules.{TypeChecker}
use knok.Typecheck.Walk.{type_tensor_expr, type_let_value}

unfoldable pub body_types : List TypedExpr → List TensorType
body_types [] = []
body_types (expr ∷ body) = expr.ty ∷ body_types body

-- `Ok(...)` leaves the checker, and its cache, behind.
unfoldable pub value_only : {A : Type 0} → Result (A × NodeTypeCache) → Result A
value_only (ok p) = ok p.0
value_only (err e) = err e
value_only panic = panic

module _ (checks : Bool) (static_call : CallOp → Exprs → Result (Unit {0})) where
  -- The loop over `graph.lets`: the scope after them, and the typed bindings.
  unfoldable pub type_lets : TypeChecker → TypeEnv → List Let → Checker (TypeEnv × List TypedLet)
  type_lets checker env [] = pure (env, [])
  type_lets checker env (binding ∷ bindings) = do
    value ← type_let_value checks static_call checker env binding.value
    lift (
        reject_if (not (length binding.names == length value.tys))
          (message "let pattern expects another number of values"))
    rest ← type_lets checker (push_bindings env binding.names value.tys) bindings
    pure (rest.0, record { names = binding.names; value = value } ∷ rest.1)

  unfoldable pub type_body : TypeChecker → TypeEnv → List Expr → Checker (List TypedExpr)
  type_body checker env [] = pure []
  type_body checker env (expr ∷ body) = do
    typed ← type_tensor_expr checks static_call checker env expr
    rest ← type_body checker env body
    pure (typed ∷ rest)

  unfoldable pub type_graph : TypeChecker → Graph → Checker TypedGraph
  unfolding type_lets type_body body_types types_eq
  type_graph checker graph = do
    scope ← type_lets checker (from_inputs graph.inputs) graph.lets
    body ← type_body checker scope.0 graph.body
    lift (
        reject_if (not (types_eq (body_types body) graph.outputs)) (message "return type mismatch"))
    pure (record {
      name = graph.name;
      backend = graph.backend;
      inputs = graph.inputs;
      outputs = graph.outputs;
      lets = scope.1;
      body = body;
    })

  unfoldable pub type_check : Graph → List (String × GraphSignature) → Result TypedGraph
  unfolding type_graph value_only
  type_check graph graph_signatures = value_only (
      type_graph (record { graph_signatures = graph_signatures; current_graph = graph.name }) graph
        (record { outputs = [] }))
