-- ===== src/Typecheck/Results.antt =====
-- crates/knok-core/src/typecheck.rs: the functions that do not touch the checker.
use knok.Base.{
  ℕ, Bool, String, List, length, ◌==◌, not, Option, some, none, Result, ok, message, about, inside,
  ◌>>=◌, ◌>>◌, reject_if, map_err,
}
use knok.Base.Vec.{index}
use knok.Ast.Types.{TensorType, elem_eq}
use knok.Ast.Op.{CallOp}
use knok.Ops.Common.{broadcast_shape_slices, expect_numeric_element}

unfoldable pub broadcast_shape : Bool → TensorType → TensorType → Result (List ℕ)
broadcast_shape checks lhs rhs = broadcast_shape_slices checks lhs.shape rhs.shape

unfoldable pub binary_result_type : Bool → TensorType → TensorType → Result TensorType
unfolding broadcast_shape
binary_result_type checks lhs rhs = do
  expect_numeric_element lhs.elem "arithmetic operators"
  expect_numeric_element rhs.elem "arithmetic operators"
  reject_if (not (elem_eq lhs.elem rhs.elem))
      (message "elementwise operands must have the same element type")
  shape ←
      map_err (inside "elementwise operands are not broadcast-compatible")
        (broadcast_shape checks lhs rhs)
  ok (record { elem = lhs.elem; shape = shape })

unfoldable pub single_output_type : List TensorType → String → Result TensorType
single_output_type tys context = do
  reject_if (not (length tys == 1))
      (about context "produces several values and cannot be used as a tensor expression")
  index tys 0

-- `op` of `Expr::Call`, when it is `CallOp::Graph`.
unfoldable pub graph_name : CallOp → Option String
graph_name (CallOp.graph name) = some name
graph_name _ = none
