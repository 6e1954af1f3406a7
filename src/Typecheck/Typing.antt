-- ===== src/Typecheck/Typing.antt =====
-- Which types an expression has, by rules that know nothing of the cache.
use knok.Base.{
  ◌≡◌, Bool, true, false, List, [], ◌∷◌, get_elem?, Option, some, none, String, Result, ok, reverse,
}
use text.Mathlib.Text.{◌==◌ as str_eq}
use knok.Ast.Types.{TensorType, is_numeric}
use knok.Ast.Op.{CallOp}
use knok.Ast.Graph.{Expr, Exprs, GraphSignature}
use knok.Ops.Broadcast.{Broadcasts}
use knok.Ops.Infer.{infer_call_results}
use knok.Typecheck.Env.{TypeEnv, lookup}
use knok.Typecheck.Results.{graph_name}
use knok.Typecheck.Rules.{TypeChecker, find_signature}

module _ (checks : Bool) (static_call : CallOp → Exprs → Result (Unit {0})) (checker : TypeChecker)
    (env : TypeEnv) where
  -- A graph call is of another graph, takes its signature's inputs and has its outputs; an operation
  -- has the outputs that are inferred from its arguments.
  unfoldable pub CallOutputs :
      Option String → CallOp → Exprs → List TensorType → List TensorType → Type 0
  CallOutputs (some name) op args tys outs =
      (signature : GraphSignature) × (find_signature name (reverse checker.graph_signatures)
        ≡ some signature)
      × (str_eq name checker.current_graph ≡ false)
      × (tys ≡ signature.inputs)
      × (outs ≡ signature.outputs)
  CallOutputs none op args tys outs =
      (static_call op args ≡ ok tt) × (infer_call_results checks op tys ≡ ok outs)

  -- An expression with one output is a tensor of that type.
  unfoldable mutual
    unfolding graph_name CallOutputs

    pub HasOutputs : Expr → List TensorType → Type 0
    HasOutputs (Expr.var name) outs =
        (t : TensorType) × (lookup env name ≡ some t) × (outs ≡ t ∷ [])
    HasOutputs (Expr.const value elem) outs = outs ≡ record { elem = elem; shape = [] } ∷ []
    HasOutputs (Expr.unary op value) outs =
        (t : TensorType) × HasOutputs value (t ∷ []) × (is_numeric t.elem ≡ true) × (outs ≡ t ∷ [])
    HasOutputs (Expr.binary op lhs rhs) outs =
        (l : TensorType) × (r : TensorType) × (t : TensorType) × HasOutputs lhs (l ∷ [])
        × HasOutputs rhs (r ∷ [])
        × (is_numeric l.elem ≡ true)
        × (l.elem ≡ r.elem)
        × (t.elem ≡ l.elem)
        × Broadcasts l.shape r.shape t.shape
        × (outs ≡ t ∷ [])
    HasOutputs (Expr.node node_id value) outs = HasOutputs value outs
    HasOutputs (Expr.tuple_get tuple_id value place) outs =
        (inner : List TensorType) × (t : TensorType) × HasOutputs value inner
        × (get_elem? inner place ≡ some t)
        × (outs ≡ t ∷ [])
    HasOutputs (Expr.call op args) outs =
        (tys : List TensorType) × HasTypes args tys × CallOutputs (graph_name op) op args tys outs

    -- The arguments are tensors of these types, one each.
    pub HasTypes : Exprs → List TensorType → Type 0
    HasTypes Exprs.nil tys = tys ≡ []
    HasTypes (Exprs.cons arg args) tys =
        (t : TensorType) × (rest : List TensorType) × HasOutputs arg (t ∷ [])
        × HasTypes args rest
        × (tys ≡ t ∷ rest)
