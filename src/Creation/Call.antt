-- ===== src/Creation/Call.antt =====
-- `validate_static_creation_call` of crates/knok-core/src/ops/static_creation.rs, which the type checker
-- calls.
use knok.Base.{Bool, not, ◌==◌, List, String, length, Result, ok, arity, reject_if, ◌>>=◌, ◌>>◌}
use knok.Ast.Op.{CallOp}
use knok.Ast.Graph.{Exprs}
use knok.Creation.Numbers.{Numbers}
use knok.Creation.Scalar.{arg_list}
use knok.Creation.Arange.{static_arange_literals}
use knok.Creation.Linspace.{static_linspace_literals}
use knok.Creation.Eye.{static_eye_literals}
use knok.Creation.Random.{static_random_uniform_literals, static_random_int_literals}

-- `map(|_| ())`.
abbrev pub forget : Result (List String) → Result (Unit {0})
forget r = r >>= λ _. ok tt

module _ (checks : Bool) (n : Numbers) where
  unfoldable pub validate_static_creation_call : CallOp → Exprs → Result (Unit {0})
  unfolding static_arange_literals static_linspace_literals static_eye_literals
      static_random_uniform_literals static_random_int_literals
  validate_static_creation_call (CallOp.arange target) args =
      forget (static_arange_literals checks n target args)
  validate_static_creation_call (CallOp.linspace target) args =
      forget (static_linspace_literals checks n target args)
  validate_static_creation_call (CallOp.eye target) args =
      reject_if (not (length (arg_list args) == 0)) (arity "Eye" 0 (length (arg_list args)))
      >> forget (static_eye_literals checks target)
  validate_static_creation_call (CallOp.static_random_uniform target seed) args =
      forget (static_random_uniform_literals checks n target seed args)
  validate_static_creation_call (CallOp.static_random_int target seed) args =
      forget (static_random_int_literals checks n target seed args)
  validate_static_creation_call _ args = ok tt
