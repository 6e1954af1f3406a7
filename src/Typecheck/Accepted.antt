-- ===== src/Typecheck/Accepted.antt =====
-- Actions of the type checker that succeed and leave the cache as it is.
use knok.Base.{
  ℕ, ◌≡◌, refl, sym, ap, ◌∙◌, subst, Bool, true, not, List, [], ◌∷◌, length, get_elem?, Option,
  some, none, String, Result, ok, err, panic, about, message, Error, reject_if, ok_or, ==_iff,
}
use knok.Ast.Types.{ElementType, TensorType, is_numeric, elem_eq_iff}
use knok.Ast.Op.{CallOp}
use knok.Ast.Graph.{Exprs}
use knok.Base.Vec.{index}
use knok.Ops.Broadcast.{Broadcasts, broadcast_shape_slices_iff}
use knok.Ops.Common.{expect_numeric_element}
use knok.Ops.Infer.{infer_call_result, infer_call_results}
use knok.Typecheck.Env.{TypeEnv, lookup}
use knok.Typecheck.Cache.{NodeTypeCache}
use knok.Typecheck.Checker.{Checker, pure, lift}
use knok.Typecheck.Results.{binary_result_type}
use knok.Typecheck.Rules.{
  TypeChecker, count_args, var_ty, one_output, unary_ty, binary_ty, tuple_get_ty,
  type_graph_call_outputs, call_outputs, call_ty,
}
use knok.Typecheck.Typing.{CallOutputs}

expect_numeric_ok :
    (elem : ElementType) (what : String)
    → is_numeric elem ≡ true
    → expect_numeric_element elem what ≡ ok tt
unfolding expect_numeric_element
expect_numeric_ok elem what h = rw h refl

pub binary_result_type_ok :
    (c : Bool) (l r t : TensorType)
    → is_numeric l.elem ≡ true
    → l.elem ≡ r.elem
    → t.elem ≡ l.elem
    → Broadcasts l.shape r.shape t.shape
    → binary_result_type c l r ≡ ok t
unfolding binary_result_type
binary_result_type_ok c l r t n e f b = rw (expect_numeric_ok l.elem "arithmetic operators" n) (
    rw (expect_numeric_ok r.elem "arithmetic operators" (ap is_numeric (sym e) ∙ n)) (
      rw ((elem_eq_iff l.elem r.elem).1 e) (
        rw ((broadcast_shape_slices_iff c l.shape r.shape t.shape).1 b)
          (ap (λ elem. ok (record { elem = elem; shape = t.shape })) (sym f)))))

single_result_ok :
    (c : Bool) (op : CallOp) (tys : List TensorType) (t : TensorType)
    → infer_call_results c op tys ≡ ok (t ∷ [])
    → infer_call_result c op tys ≡ ok t
unfolding infer_call_result index
single_result_ok c op tys t e = rw e refl

module _ (cache : NodeTypeCache) where
  -- `Gives m a`: the action returns `a` and leaves the cache as it is.
  abbrev pub Gives : {A : Type 0} → Checker A → A → Type 0
  Gives {A} m a = ◌≡◌ {A = Result (A × NodeTypeCache)} (m cache) (ok (a, cache))

  -- The rule of a bind.
  pub bind_ok :
      {A B : Type 0} {r : Result (A × NodeTypeCache)} {a : A} {after : Result (B × NodeTypeCache)}
      (f : A → Checker B)
      → r ≡ ok (a, cache)
      → f a cache ≡ after
      → elim r [ ok p ↦ f p.0 p.1 | err e ↦ err e | panic ↦ panic ] ≡ after
  bind_ok {A} f h k =
      ap
        (λ (r : Result (A × NodeTypeCache)). elim r [
          | ok p ↦ f p.0 p.1
          | err e ↦ err e
          | panic ↦ panic
        ])
        h
      ∙ k

  pub lift_ok : {A : Type 0} {r : Result A} {a : A} → r ≡ ok a → Gives (lift r) a
  lift_ok h = ap (λ r. lift r cache) h

  pub pure_ok : {A : Type 0} {a b : A} → b ≡ a → Gives (pure a) b
  pure_ok h = ap (λ x. ok (x, cache)) (sym h)

  pub guard_ok : (e : Error) {b : Bool} → b ≡ true → Gives (lift (reject_if (not b) e)) tt
  guard_ok e h = ap (λ b. lift (reject_if (not b) e) cache) h

  pub one_output_ok :
      (m : Checker TensorType) {t : TensorType} {outs : List TensorType}
      → Gives m t
      → outs ≡ t ∷ []
      → Gives (one_output m) outs
  unfolding one_output
  one_output_ok m h e = bind_ok _ h (pure_ok e)

  pub var_ok :
      (env : TypeEnv) (x : String) {t : TensorType} → lookup env x ≡ some t → Gives (var_ty env x) t
  unfolding var_ty
  var_ok env x h = lift_ok (ap (ok_or (about x "unknown value")) h)

  pub unary_ok :
      (m : Checker TensorType) {t : TensorType}
      → Gives m t
      → is_numeric t.elem ≡ true
      → Gives (unary_ty m) t
  unfolding unary_ty
  unary_ok m {t} h n =
      bind_ok _ h (bind_ok _ (lift_ok (expect_numeric_ok t.elem "arithmetic operators" n)) refl)

  pub binary_ok :
      (c : Bool) (m n : Checker TensorType) {l r t : TensorType}
      → Gives m l
      → Gives n r
      → binary_result_type c l r ≡ ok t
      → Gives (binary_ty c m n) t
  unfolding binary_ty
  binary_ok c m n h k e = bind_ok _ h (bind_ok _ k (lift_ok e))

  pub tuple_get_ok :
      (place : ℕ) (m : Checker (List TensorType)) {inner : List TensorType} {t : TensorType}
      → Gives m inner
      → get_elem? inner place ≡ some t
      → Gives (tuple_get_ty place m) t
  unfolding tuple_get_ty
  tuple_get_ok place m h e =
      bind_ok _ h (lift_ok (ap (ok_or (message "tuple projection index out of bounds")) e))

  module _ (c : Bool) (static_call : CallOp → Exprs → Result (Unit {0})) (checker : TypeChecker)
      (env : TypeEnv) (op : CallOp) (args : Exprs) (m : Checker (List TensorType))
      (check : String → List TensorType → Checker (Unit {0})) {tys : List TensorType}
      (given : Gives m tys) (counted : count_args args ≡ length tys)
      (checked : (callee : String) → Gives (check callee tys) tt) where
    pub graph_call_ok :
        (callee : String) (outs : List TensorType)
        → CallOutputs c static_call checker env (some callee) op args tys outs
        → Gives (type_graph_call_outputs checker callee args (check callee)) outs
    unfolding type_graph_call_outputs CallOutputs
    graph_call_ok callee outs (signature, found, other, e, f) =
        bind_ok _
          (ap (λ b. lift (reject_if b (about callee "recursive graph call is not supported")) cache)
            other)
          (bind_ok _ (lift_ok (ap (ok_or (about callee "unknown graph call")) found)) (
            bind_ok _
              (guard_ok _
                ((==_iff (count_args args) (length signature.inputs)).1 (counted ∙ ap length e)))
              (bind_ok _ (subst (λ l. Gives (check callee l) tt) e (checked callee)) (pure_ok f))))

    pub call_outputs_ok :
        (graph : Option String) (outs : List TensorType)
        → CallOutputs c static_call checker env graph op args tys outs
        → Gives (call_outputs c static_call checker op args m check graph) outs
    unfolding call_outputs CallOutputs
    call_outputs_ok (some callee) outs h = graph_call_ok callee outs h
    call_outputs_ok none outs (s, e) = bind_ok _ (lift_ok s) (bind_ok _ given (lift_ok e))

    pub call_ty_ok :
        (graph : Option String) (t : TensorType)
        → CallOutputs c static_call checker env graph op args tys (t ∷ [])
        → Gives (call_ty c static_call checker op args m check graph) t
    unfolding call_ty CallOutputs index
    call_ty_ok (some callee) t h = bind_ok _ (graph_call_ok callee (t ∷ []) h) refl
    call_ty_ok none t (s, e) =
        bind_ok _ (lift_ok s) (bind_ok _ given (lift_ok (single_result_ok c op tys t e)))
