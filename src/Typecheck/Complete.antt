-- ===== src/Typecheck/Complete.antt =====
-- The type checker accepts every expression without nodes that the typing rules give types.
use knok.Base.{
  ℕ, suc, ◌≡◌, refl, sym, ap, ◌∙◌, subst, Bool, List, [], ◌∷◌, length, String, Result, ok,
}
use knok.Ast.Types.{TensorType, type_eq_refl}
use knok.Ast.Op.{CallOp}
use knok.Ast.Graph.{Expr, Exprs}
use knok.Typecheck.Env.{TypeEnv}
use knok.Typecheck.Cache.{NodeTypeCache}
use knok.Typecheck.Checker.{Checker, pure}
use knok.Typecheck.Results.{graph_name}
use knok.Typecheck.Rules.{TypeChecker, count_args, var_ty, unary_ty, binary_ty, tuple_get_ty}
use knok.Typecheck.Walk.{tensor_ty, type_value_outputs, type_arg_tys, check_args}
use knok.Typecheck.Typing.{HasOutputs, HasTypes}
use knok.Typecheck.NodeFree.{NodeFree, NodesFree}
use knok.Typecheck.Accepted.{
  Gives, bind_ok, pure_ok, guard_ok, one_output_ok, var_ok, unary_ok, binary_ok, tuple_get_ok,
  call_outputs_ok, call_ty_ok, binary_result_type_ok,
}

head_eq : {A : Type 0} {a b : A} {xs ys : List A} → a ∷ xs ≡ b ∷ ys → a ≡ b
head_eq h = cc

tail_eq : {A : Type 0} {a b : A} {xs ys : List A} → a ∷ xs ≡ b ∷ ys → xs ≡ ys
tail_eq h = cc

module _ (c : Bool) (static_call : CallOp → Exprs → Result (Unit {0})) (checker : TypeChecker)
    (env : TypeEnv) (cache : NodeTypeCache) where
  abbrev Outs : Expr → List TensorType → Type 0
  Outs = HasOutputs c static_call checker env

  count_args_lem :
      (args : Exprs) (tys : List TensorType)
      → HasTypes c static_call checker env args tys
      → count_args args ≡ length tys
  unfolding HasTypes count_args
  count_args_lem Exprs.nil tys h = sym (ap length h)
  count_args_lem (Exprs.cons arg args) tys (t, rest, h, k, e) =
      ap suc (count_args_lem args rest k) ∙ sym (ap length e)

  at_head :
      (m : Checker TensorType) {t u : TensorType}
      → t ∷ [] ≡ u ∷ []
      → Gives cache m u
      → Gives cache m t
  at_head m e h = subst (Gives cache m) (sym (head_eq e)) h

  mutual
    unfolding tensor_ty type_value_outputs type_arg_tys check_args HasOutputs HasTypes

    pub tensor_ok :
        (e : Expr) (t : TensorType)
        → NodeFree e
        → Outs e (t ∷ [])
        → tensor_ty c static_call checker env e cache ≡ ok (t, cache)
    tensor_ok (Expr.var x) t n (u, h, e) = at_head (var_ty env x) e (var_ok cache env x h)
    tensor_ok (Expr.const value elem) t n e =
        at_head (pure (record { elem = elem; shape = [] })) e refl
    tensor_ok (Expr.unary op value) t n (u, h, num, e) =
        at_head (unary_ty (tensor_ty c static_call checker env value)) e
          (unary_ok cache (tensor_ty c static_call checker env value) (tensor_ok value u n h) num)
    tensor_ok (Expr.binary op lhs rhs) t n (l, r, u, h, k, p, q, s, b, e) =
        at_head
          (binary_ty c (tensor_ty c static_call checker env lhs)
            (tensor_ty c static_call checker env rhs))
          e
          (binary_ok cache c (tensor_ty c static_call checker env lhs)
            (tensor_ty c static_call checker env rhs) (tensor_ok lhs l n.0 h)
            (tensor_ok rhs r n.1 k) (binary_result_type_ok c l r u p q s b))
    tensor_ok (Expr.node node_id value) t n h = absurd n
    tensor_ok (Expr.tuple_get tuple_id value place) t n (inner, u, h, g, e) =
        at_head (tuple_get_ty place (type_value_outputs c static_call checker env value)) e (
          tuple_get_ok cache place (type_value_outputs c static_call checker env value)
            (outputs_ok value inner n h) g)
    tensor_ok (Expr.call op args) t n (tys, h, k) =
        call_ty_ok cache c static_call checker env op args
          (type_arg_tys c static_call checker env args)
          (λ callee inputs. check_args c static_call checker env callee 0 args inputs)
          (args_ok args tys n h) (count_args_lem args tys h)
          (λ callee. check_ok callee 0 args tys n h) (graph_name op) t k

    -- An expression without nodes that the typing rules give types is accepted with these types,
    -- from any cache, which it leaves as it is.
    pub outputs_ok :
        (e : Expr) (outs : List TensorType)
        → NodeFree e
        → Outs e outs
        → type_value_outputs c static_call checker env e cache ≡ ok (outs, cache)
    outputs_ok (Expr.var x) outs n (t, h, e) =
        one_output_ok cache (var_ty env x) (var_ok cache env x h) e
    outputs_ok (Expr.const value elem) outs n e =
        one_output_ok cache (pure (record { elem = elem; shape = [] })) refl e
    outputs_ok (Expr.unary op value) outs n (t, h, num, e) =
        one_output_ok cache (unary_ty (tensor_ty c static_call checker env value))
          (unary_ok cache (tensor_ty c static_call checker env value) (tensor_ok value t n h) num) e
    outputs_ok (Expr.binary op lhs rhs) outs n (l, r, t, h, k, p, q, s, b, e) =
        one_output_ok cache
          (binary_ty c (tensor_ty c static_call checker env lhs)
            (tensor_ty c static_call checker env rhs))
          (binary_ok cache c (tensor_ty c static_call checker env lhs)
            (tensor_ty c static_call checker env rhs) (tensor_ok lhs l n.0 h)
            (tensor_ok rhs r n.1 k) (binary_result_type_ok c l r t p q s b))
          e
    outputs_ok (Expr.node node_id value) outs n h = absurd n
    outputs_ok (Expr.tuple_get tuple_id value place) outs n (inner, t, h, g, e) =
        one_output_ok cache
          (tuple_get_ty place (type_value_outputs c static_call checker env value))
          (tuple_get_ok cache place (type_value_outputs c static_call checker env value)
            (outputs_ok value inner n h) g)
          e
    outputs_ok (Expr.call op args) outs n (tys, h, k) =
        call_outputs_ok cache c static_call checker env op args
          (type_arg_tys c static_call checker env args)
          (λ callee inputs. check_args c static_call checker env callee 0 args inputs)
          (args_ok args tys n h) (count_args_lem args tys h)
          (λ callee. check_ok callee 0 args tys n h) (graph_name op) outs k

    args_ok :
        (args : Exprs) (tys : List TensorType)
        → NodesFree args
        → HasTypes c static_call checker env args tys
        → type_arg_tys c static_call checker env args cache ≡ ok (tys, cache)
    args_ok Exprs.nil tys n e = ap (λ x. ok (x, cache)) (sym e)
    args_ok (Exprs.cons arg args) tys n (t, rest, h, k, e) =
        bind_ok cache _ (tensor_ok arg t n.0 h)
          (bind_ok cache _ (args_ok args rest n.1 k) (pure_ok cache e))

    check_ok :
        (callee : String) (place : ℕ) (args : Exprs) (tys : List TensorType)
        → NodesFree args
        → HasTypes c static_call checker env args tys
        → check_args c static_call checker env callee place args tys cache ≡ ok (tt, cache)
    check_ok callee place Exprs.nil tys n h = refl
    check_ok callee place (Exprs.cons arg args) [] n (t, rest, h, k, e) = cc
    check_ok callee place (Exprs.cons arg args) (u ∷ tys) n (t, rest, h, k, e) =
        bind_ok cache _ (tensor_ok arg u n.0 (subst (λ x. Outs arg (x ∷ [])) (sym (head_eq e)) h)) (
          bind_ok cache _ (guard_ok cache _ (type_eq_refl u)) (
            check_ok callee (suc place) args tys n.1
              (subst (HasTypes c static_call checker env args) (sym (tail_eq e)) k)))
