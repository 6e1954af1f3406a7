-- ===== src/Ops/Elementwise.antt =====
-- crates/knok-core/src/ops/rules.rs: elementwise operations, selections and the bounds of random calls.
use knok.Base.{
  Bool, String, ◌==◌, not, ◌||◌, Result, ok, message, about, inside, ◌>>=◌, ◌>>◌, reject_if,
  map_err,
}
use knok.Ast.Types.{ElementType, TensorType, rank, elem_eq, AxisSpec}
use knok.Ast.Op.{CallOp}
use knok.Ops.Common.{
  broadcast_shape, element_count, expect_bool_element, expect_numeric_element,
  expect_ordered_element, expect_float, expect_non_empty_reduction, reduction_output_type,
}

module _ (checks : Bool) where
  unfoldable pub binary_result_type : TensorType → TensorType → Result TensorType
  binary_result_type lhs rhs = do
    expect_numeric_element lhs.elem "arithmetic operators"
    expect_numeric_element rhs.elem "arithmetic operators"
    reject_if (not (elem_eq lhs.elem rhs.elem))
        (message "elementwise operands must have the same element type")
    shape ←
        map_err (inside "elementwise operands are not broadcast-compatible")
          (broadcast_shape checks lhs rhs)
    ok (record { elem = lhs.elem; shape = shape })

  unfoldable pub predicate_result_type : TensorType → TensorType → String → Result TensorType
  predicate_result_type lhs rhs op_name = do
    reject_if (not (elem_eq lhs.elem rhs.elem))
        (about op_name "operands must have the same element type")
    shape ← map_err (inside op_name) (broadcast_shape checks lhs rhs)
    ok (record { elem = ElementType.bool; shape = shape })

  unfoldable pub comparison_result_type : TensorType → TensorType → Result TensorType
  comparison_result_type lhs rhs = do
    expect_numeric_element lhs.elem "comparison ops"
    expect_numeric_element rhs.elem "comparison ops"
    predicate_result_type lhs rhs "comparison"

  unfoldable pub equality_result_type : TensorType → TensorType → Result TensorType
  equality_result_type lhs rhs = predicate_result_type lhs rhs "equality"

  unfoldable pub logical_result_type : TensorType → TensorType → Result TensorType
  logical_result_type lhs rhs = do
    expect_bool_element lhs.elem "logical ops"
    expect_bool_element rhs.elem "logical ops"
    shape ←
        map_err (inside "logical operands are not broadcast-compatible")
          (broadcast_shape checks lhs rhs)
    ok (record { elem = ElementType.bool; shape = shape })

  unfoldable pub where_result_type : TensorType → TensorType → TensorType → Result TensorType
  where_result_type condition lhs rhs = do
    expect_bool_element condition.elem "where condition"
    reject_if (not (elem_eq lhs.elem rhs.elem))
        (message "where value operands must have the same element type")
    value_shape ←
        map_err (inside "where value operands are not broadcast-compatible")
          (broadcast_shape checks lhs rhs)
    let result : TensorType = record { elem = lhs.elem; shape = value_shape }
    shape ←
        map_err (inside "where condition is not broadcast-compatible with values")
          (broadcast_shape checks condition result)
    ok (record { elem = lhs.elem; shape = shape })

unfoldable pub expect_random_key : TensorType → String → Result (Unit {0})
unfolding rank
expect_random_key key op_name =
    reject_if (not (rank key == 0) || not (elem_eq key.elem ElementType.i64))
      (about op_name "key must be a rank-0 i64 tensor")

unfoldable pub random_bounds_result_type :
    TensorType → TensorType → TensorType → String → Result (Unit {0})
unfolding rank
random_bounds_result_type low high target op_name = do
  reject_if (not (rank low == 0) || not (rank high == 0))
      (about op_name "bounds must be rank-0 tensors")
  reject_if (not (elem_eq low.elem target.elem) || not (elem_eq high.elem target.elem))
      (about op_name "bounds must match the target element type")

-- The arms of `infer_call_results` that do more than call one rule.
module _ (checks : Bool) where
  unfoldable pub arg_reduction : TensorType → AxisSpec → String → Result TensorType
  arg_reduction input axis op_name = do
    expect_ordered_element input.elem op_name
    expect_non_empty_reduction checks input axis op_name
    output ← reduction_output_type input axis
    ok (record { elem = ElementType.i64; shape = output.shape })

  unfoldable pub ordered_reduction : TensorType → AxisSpec → String → Result TensorType
  ordered_reduction input axis op_name = do
    expect_ordered_element input.elem op_name
    expect_non_empty_reduction checks input axis op_name
    reduction_output_type input axis

  unfoldable pub float_reduction : CallOp → TensorType → AxisSpec → String → Result TensorType
  float_reduction op input axis op_name = do
    expect_float op input.elem
    expect_non_empty_reduction checks input axis op_name
    reduction_output_type input axis

  unfoldable pub ptp_rule : TensorType → AxisSpec → Result TensorType
  ptp_rule input axis = do
    expect_numeric_element input.elem "ptp"
    expect_non_empty_reduction checks input axis "ptp"
    reduction_output_type input axis

  unfoldable pub softmax_rule : CallOp → TensorType → AxisSpec → Result TensorType
  unfolding rank
  softmax_rule op ty axis = do
    expect_float op ty.elem
    reject_if (rank ty == 0) (message "softmax expects a tensor input")
    expect_non_empty_reduction checks ty axis "softmax"
    ok ty

  unfoldable pub reshape_rule : TensorType → TensorType → Result TensorType
  reshape_rule input target = do
    reject_if (not (elem_eq input.elem target.elem))
        (message "reshape input and output element types must match")
    count ← element_count checks input
    target_count ← element_count checks target
    reject_if (not (count == target_count)) (message "reshape element counts must match")
    ok target

  unfoldable pub broadcast_rule : TensorType → TensorType → Result TensorType
  broadcast_rule input target = do
    reject_if (not (elem_eq input.elem target.elem))
        (message "broadcast input and output element types must match")
    shape ←
        map_err (inside "broadcast input and output shapes are incompatible")
          (broadcast_shape checks input target)
    ok target

  unfoldable pub clip_rule : TensorType → TensorType → TensorType → Result TensorType
  clip_rule input low high = do
    expect_numeric_element input.elem "clip"
    expect_numeric_element low.elem "clip"
    expect_numeric_element high.elem "clip"
    value ← binary_result_type checks input low
    binary_result_type checks value high

unfoldable pub full_like_rule : TensorType → TensorType → Result TensorType
unfolding rank
full_like_rule input fill = do
  reject_if (not (rank fill == 0)) (message "full_like fill value must be rank-0")
  reject_if (not (elem_eq input.elem fill.elem))
      (message "full_like input and fill element types must match")
  ok input

-- A float element type in, and the same type out.
unfoldable pub float_unary : CallOp → TensorType → Result TensorType
float_unary op ty = do expect_float op ty.elem; ok ty
