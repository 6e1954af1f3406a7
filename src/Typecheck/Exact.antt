-- ===== src/Typecheck/Exact.antt =====
-- On an expression without nodes the type checker decides the typing rules.
use knok.Base.{◌≡◌, ◌↔◌, refl, Bool, true, List, [], Result, ok}
use knok.Base.Ensures.{may_panic, value_of}
use knok.Ast.Types.{TensorType}
use knok.Ast.Op.{CallOp}
use knok.Ast.Graph.{Expr, Exprs}
use knok.Typecheck.Env.{TypeEnv}
use knok.Typecheck.Cache.{NodeTypeCache}
use knok.Typecheck.Rules.{TypeChecker}
use knok.Typecheck.Walk.{type_value_outputs}
use knok.Typecheck.Typing.{HasOutputs}
use knok.Typecheck.Sound.{outputs_sound}
use knok.Typecheck.Calls.{every_call}
use knok.Typecheck.NodeFree.{NodeFree}
use knok.Typecheck.Complete.{outputs_ok}

abbrev pub no_types : NodeTypeCache
no_types = record { outputs = [] }

-- An expression without nodes is checked, starting with no cached types, to have certain outputs exactly
-- if the typing rules give it these outputs.
pub type_value_outputs_iff :
    (c : Bool) (static_call : CallOp → Exprs → Result (Unit {0})) (checker : TypeChecker)
    (env : TypeEnv) (e : Expr) (outs : List TensorType)
    → NodeFree e
    → (type_value_outputs c static_call checker env e no_types ≡ ok (outs, no_types))
      ↔ HasOutputs c static_call checker env e outs
type_value_outputs_iff c static_call checker env e outs n = (
  λ h.
      (value_of
        ((outputs_sound c true (λ _. refl) static_call checker env e
            (every_call (λ op args. may_panic (static_call op args)) e)).runs
          no_types tt)
        h).0,
  λ h. outputs_ok c static_call checker env no_types e outs n h,
)
