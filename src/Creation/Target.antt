-- ===== src/Creation/Target.antt =====
-- crates/knok-core/src/ops/static_creation.rs: which target types the static creations accept.
use knok.Base.{String, ◌==◌, not, Result, ok, about, ◌>>=◌, ◌>>◌, reject_if, require, ◌||◌}
use knok.Base.Vec.{index}
use knok.Ast.Types.{ElementType, TensorType, elem_eq, rank, is_numeric}
use knok.Ast.Op.{CallOp}

unfoldable pub validate_static_vector_target : TensorType → String → Result (Unit {0})
unfolding rank
validate_static_vector_target target op_name = do
  reject_if (not (is_numeric target.elem)) (about op_name "target element type must be numeric")
  reject_if (not (rank target == 1)) (about op_name "target must be rank-1")

unfoldable pub validate_static_eye_target : TensorType → Result (Unit {0})
unfolding rank
validate_static_eye_target target = do
  reject_if (not (rank target == 2)) (about "eye" "target must be rank-2")
  rows ← index target.shape 0
  columns ← index target.shape 1
  reject_if (not (rows == columns)) (about "eye" "target matrix must be square")

unfoldable pub validate_random_uniform_target : TensorType → String → Result (Unit {0})
unfolding elem_eq
validate_random_uniform_target target op_name =
    require (elem_eq target.elem ElementType.f32 || elem_eq target.elem ElementType.f64)
      (about op_name "target element type must be f32 or f64")

unfoldable pub validate_random_int_target : TensorType → String → Result (Unit {0})
unfolding elem_eq
validate_random_int_target target op_name =
    require (elem_eq target.elem ElementType.i32 || elem_eq target.elem ElementType.i64)
      (about op_name "target element type must be i32 or i64")

unfoldable pub validate_static_creation_target : CallOp → Result (Unit {0})
validate_static_creation_target (CallOp.arange target) =
    validate_static_vector_target target "arange"
validate_static_creation_target (CallOp.linspace target) =
    validate_static_vector_target target "linspace"
validate_static_creation_target (CallOp.eye target) = validate_static_eye_target target
validate_static_creation_target (CallOp.static_random_uniform target _) =
    validate_random_uniform_target target "static_random_uniform"
validate_static_creation_target (CallOp.static_random_int target _) =
    validate_random_int_target target "static_random_int"
validate_static_creation_target _ = ok tt
