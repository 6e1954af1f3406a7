-- ===== src/Typecheck/Typed.antt =====
-- What it means that a typed graph of crates/knok-core/src/ast.rs is well typed.
use knok.Base.{◌≡◌, Bool, List, [], ◌∷◌, length, Result}
use knok.Ast.Op.{CallOp}
use knok.Ast.Graph.{Expr, Exprs, Let, Graph, TypedExpr, TypedLet, TypedGraph}
use knok.Typecheck.Env.{TypeEnv, from_inputs, push_bindings}
use knok.Typecheck.Rules.{TypeChecker}
use knok.Typecheck.Graphs.{body_types}
use knok.Typecheck.Typing.{HasOutputs}

-- The scope after a list of typed bindings.
abbrev pub scope_after : TypeEnv → List TypedLet → TypeEnv
scope_after env [] = env
scope_after env (binding ∷ bindings) =
    scope_after (push_bindings env binding.names binding.value.tys) bindings

-- The bindings and expressions without their types.
abbrev pub erase_lets : List TypedLet → List Let
erase_lets [] = []
erase_lets (binding ∷ bindings) =
    record { names = binding.names; value = binding.value.kind } ∷ erase_lets bindings

abbrev pub erase_body : List TypedExpr → List Expr
erase_body [] = []
erase_body (expr ∷ body) = expr.kind ∷ erase_body body

module _ (c : Bool) (static_call : CallOp → Exprs → Result (Unit {0})) (checker : TypeChecker) where
  -- Each binding's value has its types in the scope of the bindings before it, one for each name.
  abbrev pub LetsTyped : TypeEnv → List TypedLet → Type 0
  LetsTyped env [] = Unit
  LetsTyped env (binding ∷ bindings) =
      HasOutputs c static_call checker env binding.value.kind binding.value.tys
      × (length binding.names ≡ length binding.value.tys)
      × LetsTyped (push_bindings env binding.names binding.value.tys) bindings

  abbrev pub BodyTyped : TypeEnv → List TypedExpr → Type 0
  BodyTyped env [] = Unit
  BodyTyped env (expr ∷ body) =
      HasOutputs c static_call checker env expr.kind (expr.ty ∷ []) × BodyTyped env body

-- The typed graph is the graph with types, and every binding and every output has its type.
pub record WellTyped (c : Bool) (static_call : CallOp → Exprs → Result (Unit {0}))
    (checker : TypeChecker) (graph : Graph) (typed : TypedGraph) : Type 0 where
  pub same_name : typed.name ≡ graph.name
  pub same_backend : typed.backend ≡ graph.backend
  pub same_inputs : typed.inputs ≡ graph.inputs
  pub same_outputs : typed.outputs ≡ graph.outputs
  pub same_lets : erase_lets typed.lets ≡ graph.lets
  pub same_body : erase_body typed.body ≡ graph.body
  pub lets_typed : LetsTyped c static_call checker (from_inputs graph.inputs) typed.lets
  pub body_typed :
      BodyTyped c static_call checker (scope_after (from_inputs graph.inputs) typed.lets) typed.body
  pub outputs_typed : body_types typed.body ≡ graph.outputs
