-- ===== src/Typecheck/Walk.antt =====
-- crates/knok-core/src/typecheck.rs: the recursion of the type checker over an expression.
use knok.Base.{ℕ, suc, Bool, String, List, [], ◌∷◌, not, Result, about, reject_if}
use knok.Ast.Types.{TensorType, type_eq}
use knok.Ast.Op.{CallOp}
use knok.Ast.Graph.{Expr, Exprs, TypedExpr, TypedValue}
use knok.Typecheck.Env.{TypeEnv}
use knok.Typecheck.Checker.{Checker, ◌>>=◌, ◌>>◌, pure, lift}
use knok.Typecheck.Results.{graph_name}
use knok.Typecheck.Rules.{
  TypeChecker, var_ty, one_output, unary_ty, binary_ty, tuple_get_ty, type_node_outputs, node_ty,
  call_outputs, call_ty,
}

-- `static_call` is the check of a static creation's literals, `validate_static_creation_call`.
module _ (checks : Bool) (static_call : CallOp → Exprs → Result (Unit {0})) (checker : TypeChecker)
    (env : TypeEnv) where
  unfoldable mutual
    unfolding graph_name

    -- The `ty` of `type_tensor_expr`.
    pub tensor_ty : Expr → Checker TensorType
    tensor_ty (Expr.var name) = var_ty env name
    tensor_ty (Expr.const value elem) = pure (record { elem = elem; shape = [] })
    tensor_ty (Expr.unary op value) = unary_ty (tensor_ty value)
    tensor_ty (Expr.binary op lhs rhs) = binary_ty checks (tensor_ty lhs) (tensor_ty rhs)
    tensor_ty (Expr.node node_id value) =
        node_ty (type_node_outputs node_id value (type_value_outputs value))
    tensor_ty (Expr.tuple_get tuple_id value place) = tuple_get_ty place (type_value_outputs value)
    tensor_ty (Expr.call op args) =
        call_ty checks static_call checker op args (type_arg_tys args)
          (λ name inputs. check_args name 0 args inputs) (graph_name op)

    pub type_value_outputs : Expr → Checker (List TensorType)
    type_value_outputs (Expr.var name) = one_output (var_ty env name)
    type_value_outputs (Expr.const value elem) =
        one_output (pure (record { elem = elem; shape = [] }))
    type_value_outputs (Expr.unary op value) = one_output (unary_ty (tensor_ty value))
    type_value_outputs (Expr.binary op lhs rhs) =
        one_output (binary_ty checks (tensor_ty lhs) (tensor_ty rhs))
    type_value_outputs (Expr.node node_id value) =
        type_node_outputs node_id value (type_value_outputs value)
    type_value_outputs (Expr.tuple_get tuple_id value place) =
        one_output (tuple_get_ty place (type_value_outputs value))
    type_value_outputs (Expr.call op args) =
        call_outputs checks static_call checker op args (type_arg_tys args)
          (λ name inputs. check_args name 0 args inputs) (graph_name op)

    pub type_arg_tys : Exprs → Checker (List TensorType)
    type_arg_tys Exprs.nil = pure []
    type_arg_tys (Exprs.cons arg args) = do
      ty ← tensor_ty arg
      tys ← type_arg_tys args
      pure (ty ∷ tys)

    -- The loop of `type_graph_call_outputs` over the arguments and the signature's inputs.
    pub check_args : String → ℕ → Exprs → List TensorType → Checker (Unit {0})
    check_args name place (Exprs.cons arg args) (expected ∷ inputs) = do
      actual ← tensor_ty arg
      lift (
          reject_if (not (type_eq actual expected))
            (about name "graph call argument type mismatch"))
      check_args name (suc place) args inputs
    check_args name place _ _ = pure tt

  unfoldable pub type_tensor_expr : Expr → Checker TypedExpr
  type_tensor_expr expr = do ty ← tensor_ty expr; pure (record { kind = expr; ty = ty })

  unfoldable pub type_let_value : Expr → Checker TypedValue
  type_let_value expr = do tys ← type_value_outputs expr; pure (record { kind = expr; tys = tys })
