-- ===== src/Typecheck/Weaken.antt =====
-- An expression keeps its types in a scope that only adds names.
use knok.Base.{ℕ, ◌≡◌, Bool, true, List, [], ◌∷◌, Result}
use knok.Ast.Types.{TensorType}
use knok.Ast.Op.{CallOp}
use knok.Ast.Graph.{Expr, Exprs}
use knok.Typecheck.Env.{TypeEnv}
use knok.Typecheck.Cache.{NodeTypeCache, CachedNodeTypes}
use knok.Typecheck.Rules.{TypeChecker}
use knok.Typecheck.Scope.{Extends}
use knok.Typecheck.Typing.{HasOutputs, HasTypes}
use knok.Typecheck.Sound.Rules

module _ (c : Bool) (static_call : CallOp → Exprs → Result (Unit {0})) (checker : TypeChecker)
    (env after : TypeEnv) (ext : Extends env after) where
  abbrev Before : Expr → List TensorType → Type 0
  Before = HasOutputs c static_call checker env

  abbrev After : Expr → List TensorType → Type 0
  After = HasOutputs c static_call checker after

  mutual
    unfolding HasOutputs HasTypes

    HasOutputs-weaken : (e : Expr) (outs : List TensorType) → Before e outs → After e outs
    HasOutputs-weaken (Expr.var x) outs h = (h.0, ext x h.0 h.1, h.2)
    HasOutputs-weaken (Expr.const value elem) outs h = h
    HasOutputs-weaken (Expr.unary op value) outs h =
        (h.0, HasOutputs-weaken value (h.0 ∷ []) h.1, h.2, h.3)
    HasOutputs-weaken (Expr.binary op lhs rhs) outs h = (
      h.0,
      h.1,
      h.2,
      HasOutputs-weaken lhs (h.0 ∷ []) h.3,
      HasOutputs-weaken rhs (h.1 ∷ []) h.4,
      h.5,
      h.6,
      h.7,
      h.8,
      h.9,
    )
    HasOutputs-weaken (Expr.node node_id value) outs h = HasOutputs-weaken value outs h
    HasOutputs-weaken (Expr.tuple_get tuple_id value place) outs h =
        (h.0, h.1, HasOutputs-weaken value h.0 h.2, h.3, h.4)
    HasOutputs-weaken (Expr.call op args) outs h = (h.0, HasTypes-weaken args h.0 h.1, h.2)

    HasTypes-weaken :
        (args : Exprs) (tys : List TensorType)
        → HasTypes c static_call checker env args tys
        → HasTypes c static_call checker after args tys
    HasTypes-weaken Exprs.nil tys h = h
    HasTypes-weaken (Exprs.cons arg args) tys h =
        (h.0, h.1, HasOutputs-weaken arg (h.0 ∷ []) h.2, HasTypes-weaken args h.1 h.3, h.4)

  module _ (p : Bool) (on : c ≡ true → p ≡ true) where
    entries_weaken :
        (outputs : List (ℕ × CachedNodeTypes))
        → Rules.AllTyped c p on static_call checker env outputs
        → Rules.AllTyped c p on static_call checker after outputs
    entries_weaken [] v = tt
    entries_weaken ((node_id, cached) ∷ outputs) v =
        (HasOutputs-weaken cached.value cached.tys v.0, entries_weaken outputs v.1)

    -- A cache that is right for a scope stays right when names are added.
    pub CacheTyped-weaken :
        (cache : NodeTypeCache)
        → Rules.CacheTyped c p on static_call checker env cache
        → Rules.CacheTyped c p on static_call checker after cache
    CacheTyped-weaken cache v = entries_weaken cache.outputs v
