-- ===== src/Typecheck/Sound.antt =====
-- What the type checker returns for an expression is what the typing rules give it.
pub mod Results
pub mod Rules
use knok.Base.{
  ℕ, suc, ◌≡◌, ◌⊎◌, refl, sym, ◌∙◌, ap, Bool, true, false, not, List, [], ◌∷◌, length, get_elem?,
  Option, some, none, String, Result, ok, err, panic, Error, ok_or, rejected, ◌==◌, ==_iff, arith,
  reject_if, reverse, about, subst, Bool-cases, inl, inr, message, map_err,
}
use knok.Base.Vec.{index}
use knok.Base.Ensures
use knok.Base.Ensures.{
  Ensures, returns, throws, overflows, weaken, reject_if-Ensures, map_err-Ensures, index-Ensures,
}
use text.Mathlib.Text.{◌==◌ as str_eq}
use knok.Ast.Types.{
  ElementType, TensorType, is_numeric, elem_eq, elem_eq_iff, type_eq, type_eq_sound,
}
use knok.Ast.Op.{CallOp, UnaryOp, BinaryOp, name}
use knok.Ast.Graph.{Expr, Exprs, GraphSignature}
use knok.Ops.Broadcast.{Broadcasts}
use knok.Ops.Common.{expect_numeric_element}
use knok.Ops.Infer.{infer_call_result, infer_call_results}
use knok.Ops.Safety.Common.{expect_numeric-Ensures, broadcast-Ensures}
use knok.Ops.Safety.Infer.{infer_call_results-Ensures}
use knok.Ast.Equality.{expr_eq, expr_eq_sound}
use knok.Typecheck.Env.{TypeEnv, lookup}
use knok.Typecheck.Cache.{
  NodeTypeCache, CachedNodeTypes, get, outputs_of, outputs_of-some, insert_after,
  ensure_same_node_payload, cached_outputs, insert,
}
use knok.Typecheck.Checker.{
  Checker, ◌>>=◌, ◌>>◌, pure, lift, Keeps, ◌⟫◌, lift-Keeps, pure-Keeps, weaken-Keeps,
}
use knok.Typecheck.Results.{broadcast_shape, binary_result_type, single_output_type, graph_name}
use knok.Typecheck.Rules.{
  TypeChecker, find_signature, count_args, var_ty, one_output, unary_ty, binary_ty, tuple_get_ty,
  cached_outputs_of, insert_node, stored, found_or_checked, type_node_outputs, node_ty,
  type_graph_call_outputs, call_outputs, call_ty,
}
use knok.Typecheck.Walk.{tensor_ty, type_value_outputs, type_arg_tys, check_args}
use knok.Typecheck.Typing.{HasOutputs, HasTypes, CallOutputs}
use knok.Typecheck.Calls.{EachCall, EachCalls}
use knok.Typecheck.Sound.Rules

-- `p` says whether a panic is allowed at all: overflow checks, which are on if `c` is, allow one.
module _ (c p : Bool) (on : c ≡ true → p ≡ true) (static_call : CallOp → Exprs → Result (Unit {0}))
    (checker : TypeChecker) (env : TypeEnv) where
  -- The checks of the static creations in an expression panic only where that is allowed.
  abbrev Safe : CallOp → Exprs → Type 0
  Safe op args = Ensures p (λ _. Unit {0}) (static_call op args)

  abbrev Outs : Expr → List TensorType → Type 0
  Outs = HasOutputs c static_call checker env

  abbrev Valid : NodeTypeCache → Type 0
  Valid = Rules.CacheTyped c p on static_call checker env

  -- One rule for each kind of expression with one output.
  var_typed : (x : String) → Keeps p Valid (λ t. Outs (Expr.var x) (t ∷ [])) (var_ty env x)
  unfolding HasOutputs
  var_typed x =
      weaken-Keeps (Rules.var_ty-Keeps c p on static_call checker env x) (λ t h. (t, h, refl))

  unary_typed :
      (op : UnaryOp) (value : Expr) {m : Checker TensorType}
      → Keeps p Valid (λ t. Outs value (t ∷ [])) m
      → Keeps p Valid (λ t. Outs (Expr.unary op value) (t ∷ [])) (unary_ty m)
  unfolding HasOutputs
  unary_typed op value k =
      weaken-Keeps (Rules.unary_ty-Keeps c p on static_call checker env k)
        (λ t h. (t, h.0, h.1, refl))

  binary_typed :
      (op : BinaryOp) (lhs rhs : Expr) {m n : Checker TensorType}
      → Keeps p Valid (λ t. Outs lhs (t ∷ [])) m
      → Keeps p Valid (λ t. Outs rhs (t ∷ [])) n
      → Keeps p Valid (λ t. Outs (Expr.binary op lhs rhs) (t ∷ [])) (binary_ty c m n)
  unfolding HasOutputs
  binary_typed op lhs rhs k k' =
      weaken-Keeps (Rules.binary_ty-Keeps c p on static_call checker env k k')
        (λ t h. (h.0, h.1, t, h.2, h.3, h.4, h.5, h.6, h.7, refl))

  tuple_get_typed :
      (tuple_id : ℕ) (value : Expr) (place : ℕ) {m : Checker (List TensorType)}
      → Keeps p Valid (Outs value) m
      → Keeps p Valid
          (λ t. Outs (Expr.tuple_get tuple_id value place) (t ∷ []))
          (tuple_get_ty place m)
  unfolding HasOutputs
  tuple_get_typed tuple_id value place k =
      weaken-Keeps (Rules.tuple_get_ty-Keeps c p on static_call checker env place k)
        (λ t (inner, h, e). (inner, t, h, e, refl))

  mutual
    unfolding tensor_ty type_value_outputs type_arg_tys check_args HasOutputs HasTypes count_args

    pub tensor_sound :
        (e : Expr)
        → EachCall Safe e
        → Keeps p Valid (λ t. Outs e (t ∷ [])) (tensor_ty c static_call checker env e)
    tensor_sound (Expr.var x) s = var_typed x
    tensor_sound (Expr.const value elem) s = pure-Keeps refl
    tensor_sound (Expr.unary op value) s = unary_typed op value (tensor_sound value s)
    tensor_sound (Expr.binary op lhs rhs) s =
        binary_typed op lhs rhs (tensor_sound lhs s.0) (tensor_sound rhs s.1)
    tensor_sound (Expr.node node_id value) s =
        Rules.node_ty-Keeps c p on static_call checker env (Outs value) (
          Rules.type_node_outputs-Keeps c p on static_call checker env node_id value
            (outputs_sound value s))
    tensor_sound (Expr.tuple_get tuple_id value place) s =
        tuple_get_typed tuple_id value place (outputs_sound value s)
    tensor_sound (Expr.call op args) s =
        Rules.call_ty-Keeps c p on static_call checker env op args (args_sound args s.1)
          (λ callee inputs. check_sound callee 0 args inputs s.1) s.0 (graph_name op)

    pub outputs_sound :
        (e : Expr)
        → EachCall Safe e
        → Keeps p Valid (Outs e) (type_value_outputs c static_call checker env e)
    outputs_sound (Expr.var x) s =
        Rules.one_output-Keeps c p on static_call checker env (Outs (Expr.var x)) (var_typed x)
    outputs_sound (Expr.const value elem) s =
        Rules.one_output-Keeps c p on static_call checker env (Outs (Expr.const value elem))
          (pure-Keeps refl)
    outputs_sound (Expr.unary op value) s =
        Rules.one_output-Keeps c p on static_call checker env (Outs (Expr.unary op value))
          (unary_typed op value (tensor_sound value s))
    outputs_sound (Expr.binary op lhs rhs) s =
        Rules.one_output-Keeps c p on static_call checker env (Outs (Expr.binary op lhs rhs))
          (binary_typed op lhs rhs (tensor_sound lhs s.0) (tensor_sound rhs s.1))
    outputs_sound (Expr.node node_id value) s =
        Rules.type_node_outputs-Keeps c p on static_call checker env node_id value
          (outputs_sound value s)
    outputs_sound (Expr.tuple_get tuple_id value place) s =
        Rules.one_output-Keeps c p on static_call checker env
          (Outs (Expr.tuple_get tuple_id value place))
          (tuple_get_typed tuple_id value place (outputs_sound value s))
    outputs_sound (Expr.call op args) s =
        Rules.call_outputs-Keeps c p on static_call checker env op args (args_sound args s.1)
          (λ callee inputs. check_sound callee 0 args inputs s.1) s.0 (graph_name op)

    args_sound :
        (args : Exprs)
        → EachCalls Safe args
        → Keeps p Valid
            (HasTypes c static_call checker env args)
            (type_arg_tys c static_call checker env args)
    args_sound Exprs.nil s = pure-Keeps refl
    args_sound (Exprs.cons arg args) s = tensor_sound arg s.0 ⟫ λ t h.
        args_sound args s.1 ⟫ λ rest k. pure-Keeps (t, rest, h, k, refl)

    check_sound :
        (callee : String) (place : ℕ) (args : Exprs) (inputs : List TensorType)
        → EachCalls Safe args
        → count_args args ≡ length inputs
        → Keeps p Valid
            (λ _. HasTypes c static_call checker env args inputs)
            (check_args c static_call checker env callee place args inputs)
    check_sound callee place Exprs.nil [] s l = pure-Keeps refl
    check_sound callee place Exprs.nil (t ∷ inputs) s l = absurd (omega arith)
    check_sound callee place (Exprs.cons arg args) [] s l = absurd (omega arith)
    check_sound callee place (Exprs.cons arg args) (expected ∷ inputs) s l =
        tensor_sound arg s.0 ⟫ λ actual h.
        lift-Keeps (reject_if-Ensures (not (type_eq actual expected)) _) ⟫ λ _ same.
        weaken-Keeps (check_sound callee (suc place) args inputs s.1 (omega arith)) (λ _ k. (
          expected,
          inputs,
          subst (λ t. Outs arg (t ∷ [])) (type_eq_sound _ _ (rejected _ same)) h,
          k,
          refl,
        ))
