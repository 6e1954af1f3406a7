-- ===== src/Ops/Safety/Creations.antt =====
-- The target checks of crates/knok-core/src/ops/static_creation.rs.
use knok.Base.{Bool, String, ◌==◌, not, arith, length}
use knok.Base.Ensures.{
  Ensures, returns, ◌⟫◌, weaken, reject_if-Ensures, require-Ensures, index-Ensures,
}
use knok.Ast.Types.{TensorType, rank, is_numeric}
use knok.Ast.Op.{CallOp}
use knok.Creation.Target.{
  validate_static_vector_target, validate_static_eye_target, validate_random_uniform_target,
  validate_random_int_target, validate_static_creation_target,
}

module _ (c : Bool) where
  pub vector_target-Ensures :
      (target : TensorType) (op_name : String)
      → Ensures c (λ _. Unit {0}) (validate_static_vector_target target op_name)
  unfolding validate_static_vector_target
  vector_target-Ensures target op_name = reject_if-Ensures (not (is_numeric target.elem)) _ ⟫ λ _ _.
      weaken (reject_if-Ensures (not (rank target == 1)) _) (λ _ _. tt)

  pub eye_target-Ensures :
      (target : TensorType) → Ensures c (λ _. Unit {0}) (validate_static_eye_target target)
  unfolding validate_static_eye_target rank
  eye_target-Ensures target = reject_if-Ensures (not (length target.shape == 2)) _ ⟫ λ _ two.
      index-Ensures target.shape 0 (ground arith) ⟫ λ rows _.
      index-Ensures target.shape 1 (ground arith) ⟫ λ columns _.
      weaken (reject_if-Ensures (not (rows == columns)) _) (λ _ _. tt)

  pub uniform_target-Ensures :
      (target : TensorType) (op_name : String)
      → Ensures c (λ _. Unit {0}) (validate_random_uniform_target target op_name)
  unfolding validate_random_uniform_target
  uniform_target-Ensures target op_name = weaken (require-Ensures _ _) (λ _ _. tt)

  pub int_target-Ensures :
      (target : TensorType) (op_name : String)
      → Ensures c (λ _. Unit {0}) (validate_random_int_target target op_name)
  unfolding validate_random_int_target
  int_target-Ensures target op_name = weaken (require-Ensures _ _) (λ _ _. tt)

  pub static_target-Ensures :
      (op : CallOp) → Ensures c (λ _. Unit {0}) (validate_static_creation_target op)
  unfolding validate_static_creation_target
  static_target-Ensures (CallOp.arange target) = vector_target-Ensures target _
  static_target-Ensures (CallOp.linspace target) = vector_target-Ensures target _
  static_target-Ensures (CallOp.eye target) = eye_target-Ensures target
  static_target-Ensures (CallOp.static_random_uniform target _) = uniform_target-Ensures target _
  static_target-Ensures (CallOp.static_random_int target _) = int_target-Ensures target _
  static_target-Ensures _ = returns tt
