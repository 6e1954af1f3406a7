-- ===== src/Typecheck/Rules.antt =====
-- crates/knok-core/src/typecheck.rs: the checks at one node, given the actions that check its parts.
use knok.Base.{
  ℕ, suc, Bool, String, List, [], ◌∷◌, length, get_elem?, ◌==◌, not, Option, some, none, Result, ok,
  message, about, reject_if, ok_or, reverse, if◌then◌else◌,
}
use knok.Base.Vec.{index}
use text.Mathlib.Text.{◌==◌ as str_eq}
use knok.Ast.Types.{TensorType}
use knok.Ast.Op.{CallOp}
use knok.Ast.Graph.{Expr, Exprs, GraphSignature}
use knok.Ops.Common.{expect_numeric_element}
use knok.Ops.Infer.{infer_call_result, infer_call_results}
use knok.Typecheck.Env.{TypeEnv, lookup}
use knok.Typecheck.Cache.{NodeTypeCache, cached_outputs, insert}
use knok.Typecheck.Checker.{Checker, ◌>>=◌, ◌>>◌, pure, lift}
use knok.Typecheck.Results.{binary_result_type, single_output_type}

-- The checker's fields but its cache.
pub record TypeChecker : Type 0 where
  pub graph_signatures : List (String × GraphSignature)
  pub current_graph : String

unfoldable pub cached_outputs_of : ℕ → Expr → Checker (Option (List TensorType))
cached_outputs_of node_id value cache = lift (cached_outputs cache node_id value) cache

-- `self.node_types` is replaced by what the insertion returned.
unfoldable pub stored : Result NodeTypeCache → Result (Unit {0} × NodeTypeCache)
stored (Result.ok after) = ok (tt, after)
stored (Result.err e) = Result.err e
stored Result.panic = Result.panic

unfoldable pub insert_node : ℕ → Expr → List TensorType → Checker (Unit {0})
unfolding stored
insert_node node_id value tys cache = stored (insert cache node_id value tys)

unfoldable pub count_args : Exprs → ℕ
count_args Exprs.nil = 0
count_args (Exprs.cons arg args) = suc (count_args args)

-- `iter().rev().find_map(...)`.
unfoldable pub find_signature : String → List (String × GraphSignature) → Option GraphSignature
find_signature name [] = none
find_signature name ((candidate, signature) ∷ signatures) =
    if str_eq candidate name then some signature else find_signature name signatures

unfoldable pub var_ty : TypeEnv → String → Checker TensorType
var_ty env name = lift (ok_or (about name "unknown value") (lookup env name))

-- `vec![self.type_tensor_expr(expr, env)?.ty]`.
unfoldable pub one_output : Checker TensorType → Checker (List TensorType)
one_output tensor = do ty ← tensor; pure (ty ∷ [])

unfoldable pub unary_ty : Checker TensorType → Checker TensorType
unary_ty value = do
  ty ← value
  lift (expect_numeric_element ty.elem "arithmetic operators")
  pure ty

unfoldable pub binary_ty : Bool → Checker TensorType → Checker TensorType → Checker TensorType
binary_ty checks left right = do lhs ← left; rhs ← right; lift (binary_result_type checks lhs rhs)

unfoldable pub tuple_get_ty : ℕ → Checker (List TensorType) → Checker TensorType
tuple_get_ty place value = do
  outputs ← value
  lift (ok_or (message "tuple projection index out of bounds") (get_elem? outputs place))

-- What follows the lookup: the types that were found, or those that `check` finds, which are stored.
unfoldable pub found_or_checked :
    ℕ → Expr → Checker (List TensorType) → Option (List TensorType) → Checker (List TensorType)
unfolding insert_node
found_or_checked node_id value check (some tys) = pure tys
found_or_checked node_id value check none = do tys ← check; insert_node node_id value tys; pure tys

unfoldable pub type_node_outputs : ℕ → Expr → Checker (List TensorType) → Checker (List TensorType)
unfolding cached_outputs_of found_or_checked
type_node_outputs node_id value check = do
  found ← cached_outputs_of node_id value
  found_or_checked node_id value check found

unfoldable pub node_ty : Checker (List TensorType) → Checker TensorType
node_ty check = do outputs ← check; lift (single_output_type outputs "node")

-- `type_graph_call_outputs`; `check_args` compares the arguments with the types it is given.
unfoldable pub type_graph_call_outputs :
    TypeChecker
    → String
    → Exprs
    → (List TensorType → Checker (Unit {0}))
    → Checker (List TensorType)
unfolding find_signature count_args
type_graph_call_outputs checker name args check_args = do
  lift (
      reject_if (str_eq name checker.current_graph)
        (about name "recursive graph call is not supported"))
  signature ← lift (
      ok_or (about name "unknown graph call")
        (find_signature name (reverse checker.graph_signatures)))
  lift (
      reject_if (not (count_args args == length signature.inputs))
        (about name "graph call has another number of arguments"))
  check_args signature.inputs
  pure signature.outputs

-- The two halves of `type_call_outputs`: a graph call, or a call of an operation.
unfoldable pub call_outputs :
    Bool
    → (CallOp → Exprs → Result (Unit {0}))
    → TypeChecker
    → CallOp
    → Exprs
    → Checker (List TensorType)
    → (String → List TensorType → Checker (Unit {0}))
    → Option String
    → Checker (List TensorType)
unfolding type_graph_call_outputs
call_outputs checks static_call checker op args arg_tys check_args (some name) =
    type_graph_call_outputs checker name args (check_args name)
call_outputs checks static_call checker op args arg_tys check_args none = do
  lift (static_call op args)
  tys ← arg_tys
  lift (infer_call_results checks op tys)

-- `type_call_tensor_result`.
unfoldable pub call_ty :
    Bool
    → (CallOp → Exprs → Result (Unit {0}))
    → TypeChecker
    → CallOp
    → Exprs
    → Checker (List TensorType)
    → (String → List TensorType → Checker (Unit {0}))
    → Option String
    → Checker TensorType
unfolding type_graph_call_outputs
call_ty checks static_call checker op args arg_tys check_args (some name) = do
  outputs ← type_graph_call_outputs checker name args (check_args name)
  lift (
      reject_if (not (length outputs == 1))
        (about name "graph returns several values and cannot be used as a tensor expression yet"))
  lift (index outputs 0)
call_ty checks static_call checker op args arg_tys check_args none = do
  lift (static_call op args)
  tys ← arg_tys
  lift (infer_call_result checks op tys)
