-- ===== src/Ops/Infer.antt =====
-- crates/knok-core/src/ops/rules.rs: the result types of every operation.
use knok.Base.{
  Bool, List, [], ◌∷◌, String, length, ◌==◌, not, Result, ok, err, message, about, ◌>>=◌, ◌>>◌,
  reject_if,
}
use knok.Base.Vec.{index}
use knok.Ast.Types.{ElementType, TensorType}
use knok.Ast.Op.{CallOp, name}
use knok.Creation.Target.{
  validate_static_creation_target, validate_random_uniform_target, validate_random_int_target,
}
use knok.Ops.Common.{
  expect_arity, expect_axis, expect_bool_element, expect_float, expect_numeric_element,
  reduction_output_type,
}
use knok.Ops.Elementwise.{
  binary_result_type, comparison_result_type, equality_result_type, logical_result_type,
  where_result_type, expect_random_key, random_bounds_result_type, arg_reduction, ordered_reduction,
  float_reduction, ptp_rule, softmax_rule, reshape_rule, broadcast_rule, clip_rule, full_like_rule,
  float_unary,
}
use knok.Ops.Matmul.{matmul_result_type}
use knok.Ops.Linalg.{
  dot_result_type, vecdot_result_type, inner_result_type, outer_result_type, trace_result_type,
  diagonal_result_type,
}
use knok.Ops.Pool.{max_pool2d_result_type, avg_pool2d_result_type}
use knok.Ops.Conv.{conv2d_result_type}
use knok.Ops.Permute.{
  validate_permute, validate_axis_list, permute_dims_result_type, transpose_result_type,
  swapaxes_result_type, moveaxis_result_type,
}
use knok.Ops.Layout.{
  take_result_type, gather_result_type, take_along_axis_result_type, validate_squeeze,
  validate_unsqueeze, stack_result_type, validate_slice, validate_pad, concat_result_type,
  split_result_types, tile_result_type, repeat_result_type,
}

-- `expect_arity(op, args, n)?` and the `args[0]`, ..., `args[n - 1]` that follow it.
module _ {ℓ} {A : Type ℓ} (op : CallOp) (args : List TensorType) where
  unfoldable pub one_arg : (TensorType → Result A) → Result A
  one_arg rule = do expect_arity op args 1; a ← index args 0; rule a

  unfoldable pub two_args : (TensorType → TensorType → Result A) → Result A
  two_args rule = do expect_arity op args 2; a ← index args 0; b ← index args 1; rule a b

  unfoldable pub three_args : (TensorType → TensorType → TensorType → Result A) → Result A
  three_args rule = do
    expect_arity op args 3
    a ← index args 0
    b ← index args 1
    c ← index args 2
    rule a b c

-- `Ok(vec![ty])`.
unfoldable pub single : Result TensorType → Result (List TensorType)
single r = do ty ← r; ok (ty ∷ [])

-- An arm that checks its argument and returns a type that it already has.
unfoldable pub checked : Result (Unit {0}) → TensorType → Result TensorType
checked check ty = do check; ok ty

unfoldable pub random_outputs :
    TensorType
    → TensorType
    → TensorType
    → TensorType
    → String
    → Result (Unit {0})
    → Result (List TensorType)
random_outputs key low high target op_name target_check = do
  expect_random_key key op_name
  target_check
  random_bounds_result_type low high target op_name
  ok (target ∷ key ∷ [])

module _ (checks : Bool) where
  unfoldable pub infer_call_results : CallOp → List TensorType → Result (List TensorType)
  unfolding name
  infer_call_results (CallOp.split axis sections) args =
      one_arg (CallOp.split axis sections) args
        (λ input. split_result_types checks input axis sections)
  infer_call_results CallOp.abs args =
      single (one_arg CallOp.abs args (λ ty. checked (expect_numeric_element ty.elem "abs") ty))
  infer_call_results (CallOp.all axis) args = single (
      one_arg (CallOp.all axis) args (λ input.
        expect_bool_element input.elem "bool reductions" >> reduction_output_type input axis))
  infer_call_results (CallOp.any axis) args = single (
      one_arg (CallOp.any axis) args (λ input.
        expect_bool_element input.elem "bool reductions" >> reduction_output_type input axis))
  infer_call_results (CallOp.argmax axis) args =
      single (one_arg (CallOp.argmax axis) args (λ input. arg_reduction checks input axis "argmax"))
  infer_call_results (CallOp.argmin axis) args =
      single (one_arg (CallOp.argmin axis) args (λ input. arg_reduction checks input axis "argmin"))
  infer_call_results CallOp.detach args = single (one_arg CallOp.detach args ok)
  infer_call_results CallOp.ceil args = single (one_arg CallOp.ceil args (float_unary CallOp.ceil))
  infer_call_results CallOp.cos args = single (one_arg CallOp.cos args (float_unary CallOp.cos))
  infer_call_results CallOp.exp args = single (one_arg CallOp.exp args (float_unary CallOp.exp))
  infer_call_results CallOp.exp2 args = single (one_arg CallOp.exp2 args (float_unary CallOp.exp2))
  infer_call_results CallOp.exp_m1 args =
      single (one_arg CallOp.exp_m1 args (float_unary CallOp.exp_m1))
  infer_call_results CallOp.floor args =
      single (one_arg CallOp.floor args (float_unary CallOp.floor))
  infer_call_results CallOp.log args = single (one_arg CallOp.log args (float_unary CallOp.log))
  infer_call_results CallOp.log1_p args =
      single (one_arg CallOp.log1_p args (float_unary CallOp.log1_p))
  infer_call_results CallOp.log2 args = single (one_arg CallOp.log2 args (float_unary CallOp.log2))
  infer_call_results CallOp.log10 args =
      single (one_arg CallOp.log10 args (float_unary CallOp.log10))
  infer_call_results CallOp.relu args = single (one_arg CallOp.relu args (float_unary CallOp.relu))
  infer_call_results CallOp.rint args = single (one_arg CallOp.rint args (float_unary CallOp.rint))
  infer_call_results CallOp.round args =
      single (one_arg CallOp.round args (float_unary CallOp.round))
  infer_call_results CallOp.sigmoid args =
      single (one_arg CallOp.sigmoid args (float_unary CallOp.sigmoid))
  infer_call_results CallOp.sin args = single (one_arg CallOp.sin args (float_unary CallOp.sin))
  infer_call_results CallOp.sqrt args = single (one_arg CallOp.sqrt args (float_unary CallOp.sqrt))
  infer_call_results CallOp.tan args = single (one_arg CallOp.tan args (float_unary CallOp.tan))
  infer_call_results CallOp.tanh args = single (one_arg CallOp.tanh args (float_unary CallOp.tanh))
  infer_call_results CallOp.is_nan args = single (
      one_arg CallOp.is_nan args (λ ty.
        checked (expect_float CallOp.is_nan ty.elem) (record ty { elem = ElementType.bool })))
  infer_call_results CallOp.reciprocal args = single (
      one_arg CallOp.reciprocal args
        (λ ty. checked (expect_numeric_element ty.elem "elementwise math ops") ty))
  infer_call_results CallOp.square args = single (
      one_arg CallOp.square args
        (λ ty. checked (expect_numeric_element ty.elem "elementwise math ops") ty))
  infer_call_results CallOp.greater args =
      single (two_args CallOp.greater args (comparison_result_type checks))
  infer_call_results CallOp.greater_equal args =
      single (two_args CallOp.greater_equal args (comparison_result_type checks))
  infer_call_results CallOp.less args =
      single (two_args CallOp.less args (comparison_result_type checks))
  infer_call_results CallOp.less_equal args =
      single (two_args CallOp.less_equal args (comparison_result_type checks))
  infer_call_results (CallOp.gather target axis) args = single (
      two_args (CallOp.gather target axis) args
        (λ input indices. gather_result_type input indices target axis))
  infer_call_results CallOp.equal args =
      single (two_args CallOp.equal args (equality_result_type checks))
  infer_call_results CallOp.not_equal args =
      single (two_args CallOp.not_equal args (equality_result_type checks))
  infer_call_results (CallOp.eye target) args = single (do
    expect_arity (CallOp.eye target) args 0
    validate_static_creation_target (CallOp.eye target)
    ok target)
  infer_call_results CallOp.full_like args = single (two_args CallOp.full_like args full_like_rule)
  infer_call_results CallOp.logical_and args =
      single (two_args CallOp.logical_and args (logical_result_type checks))
  infer_call_results CallOp.logical_or args =
      single (two_args CallOp.logical_or args (logical_result_type checks))
  infer_call_results CallOp.logical_xor args =
      single (two_args CallOp.logical_xor args (logical_result_type checks))
  infer_call_results CallOp.logical_not args = single (
      one_arg CallOp.logical_not args
        (λ ty. checked (expect_bool_element ty.elem "logical_not") ty))
  infer_call_results CallOp.minimum args = single (
      two_args CallOp.minimum args (λ lhs rhs.
        expect_numeric_element lhs.elem "min/max ops"
        >> expect_numeric_element rhs.elem "min/max ops"
        >> binary_result_type checks lhs rhs))
  infer_call_results CallOp.maximum args = single (
      two_args CallOp.maximum args (λ lhs rhs.
        expect_numeric_element lhs.elem "min/max ops"
        >> expect_numeric_element rhs.elem "min/max ops"
        >> binary_result_type checks lhs rhs))
  infer_call_results (CallOp.max axis) args =
      single (one_arg (CallOp.max axis) args (λ input. ordered_reduction checks input axis "max"))
  infer_call_results (CallOp.min axis) args =
      single (one_arg (CallOp.min axis) args (λ input. ordered_reduction checks input axis "min"))
  infer_call_results CallOp.clip args = single (three_args CallOp.clip args (clip_rule checks))
  infer_call_results CallOp.pow args = single (
      two_args CallOp.pow args (λ lhs rhs.
        expect_float CallOp.pow lhs.elem
        >> expect_float CallOp.pow rhs.elem
        >> binary_result_type checks lhs rhs))
  infer_call_results (CallOp.concat axis) args =
      single
        (two_args (CallOp.concat axis) args (λ lhs rhs. concat_result_type checks lhs rhs axis))
  infer_call_results (CallOp.flip axes) args = single (
      one_arg (CallOp.flip axes) args
        (λ input. checked (validate_axis_list input axes "flip") input))
  infer_call_results (CallOp.move_axis source destination) args = single (
      one_arg (CallOp.move_axis source destination) args
        (λ input. moveaxis_result_type input source destination))
  infer_call_results (CallOp.pad target lows) args = single (
      one_arg (CallOp.pad target lows) args
        (λ input. checked (validate_pad checks input target lows) target))
  infer_call_results (CallOp.softmax axis) args =
      single (
        one_arg (CallOp.softmax axis) args
          (λ ty. softmax_rule checks (CallOp.softmax axis) ty axis))
  infer_call_results (CallOp.transpose axes) args =
      single (one_arg (CallOp.transpose axes) args (λ input. transpose_result_type input axes))
  infer_call_results (CallOp.permute target axes) args = single (
      one_arg (CallOp.permute target axes) args
        (λ input. checked (validate_permute input target axes) target))
  infer_call_results (CallOp.permute_dims axes) args = single (
      one_arg (CallOp.permute_dims axes) args
        (λ input. permute_dims_result_type input axes "permute_dims"))
  infer_call_results (CallOp.repeat axis count) args = single (
      one_arg (CallOp.repeat axis count) args (λ input. repeat_result_type checks input axis count))
  infer_call_results (CallOp.reshape target) args =
      single (one_arg (CallOp.reshape target) args (λ input. reshape_rule checks input target))
  infer_call_results (CallOp.roll axis shift) args =
      single
        (one_arg (CallOp.roll axis shift) args (λ input. checked (expect_axis input axis) input))
  infer_call_results (CallOp.broadcast target) args =
      single (one_arg (CallOp.broadcast target) args (λ input. broadcast_rule checks input target))
  infer_call_results (CallOp.slice target starts) args = single (
      one_arg (CallOp.slice target starts) args
        (λ input. checked (validate_slice checks input target starts) target))
  infer_call_results (CallOp.squeeze target) args = single (
      one_arg (CallOp.squeeze target) args
        (λ input. checked (validate_squeeze input target) target))
  infer_call_results (CallOp.stack axis) args =
      single (two_args (CallOp.stack axis) args (λ lhs rhs. stack_result_type lhs rhs axis))
  infer_call_results (CallOp.swap_axes axis0 axis1) args = single (
      one_arg (CallOp.swap_axes axis0 axis1) args (λ input. swapaxes_result_type input axis0 axis1))
  infer_call_results (CallOp.prod axis) args = single (
      one_arg (CallOp.prod axis) args
        (λ input. expect_numeric_element input.elem "prod" >> reduction_output_type input axis))
  infer_call_results (CallOp.ptp axis) args =
      single (one_arg (CallOp.ptp axis) args (λ input. ptp_rule checks input axis))
  infer_call_results (CallOp.std axis) args = single (
      one_arg (CallOp.std axis) args
        (λ input. float_reduction checks (CallOp.std axis) input axis "std"))
  infer_call_results (CallOp.var axis) args = single (
      one_arg (CallOp.var axis) args
        (λ input. float_reduction checks (CallOp.var axis) input axis "var"))
  infer_call_results (CallOp.sum axis) args = single (
      one_arg (CallOp.sum axis) args
        (λ input. expect_numeric_element input.elem "sum" >> reduction_output_type input axis))
  infer_call_results (CallOp.mean axis) args = single (
      one_arg (CallOp.mean axis) args
        (λ input. float_reduction checks (CallOp.mean axis) input axis "mean"))
  infer_call_results (CallOp.take axis place) args =
      single (one_arg (CallOp.take axis place) args (λ input. take_result_type input axis place))
  infer_call_results (CallOp.take_along_axis axis) args = single (
      two_args (CallOp.take_along_axis axis) args
        (λ input indices. take_along_axis_result_type input indices axis))
  infer_call_results CallOp.matmul args =
      single (two_args CallOp.matmul args (matmul_result_type checks))
  infer_call_results (CallOp.max_pool2d options) args = single (
      one_arg (CallOp.max_pool2d options) args
        (λ input. max_pool2d_result_type checks input options))
  infer_call_results (CallOp.avg_pool2d options) args = single (
      one_arg (CallOp.avg_pool2d options) args
        (λ input. avg_pool2d_result_type checks input options))
  infer_call_results (CallOp.conv2d options) args = single (
      two_args (CallOp.conv2d options) args
        (λ input kernel. conv2d_result_type checks input kernel options))
  infer_call_results (CallOp.tile multiples) args =
      single
        (one_arg (CallOp.tile multiples) args (λ input. tile_result_type checks input multiples))
  infer_call_results (CallOp.diagonal axes) args =
      single (one_arg (CallOp.diagonal axes) args (λ input. diagonal_result_type checks input axes))
  infer_call_results CallOp.dot args = single (two_args CallOp.dot args dot_result_type)
  infer_call_results CallOp.inner args =
      single (two_args CallOp.inner args (inner_result_type checks))
  infer_call_results CallOp.outer args =
      single (two_args CallOp.outer args (outer_result_type checks))
  infer_call_results (CallOp.arange target) args =
      single (checked (validate_static_creation_target (CallOp.arange target)) target)
  infer_call_results (CallOp.linspace target) args =
      single (checked (validate_static_creation_target (CallOp.linspace target)) target)
  infer_call_results (CallOp.static_random_uniform target seed) args =
      let op = CallOp.static_random_uniform target seed in
      single (
        two_args op args (λ low high.
          validate_static_creation_target op
          >> checked (random_bounds_result_type low high target (name op)) target))
  infer_call_results (CallOp.static_random_int target seed) args =
      let op = CallOp.static_random_int target seed in
      single (
        two_args op args (λ low high.
          validate_static_creation_target op
          >> checked (random_bounds_result_type low high target (name op)) target))
  infer_call_results (CallOp.random_uniform target) args =
      let op = CallOp.random_uniform target in
      three_args op args (λ key low high.
        random_outputs key low high target (name op)
          (validate_random_uniform_target target (name op)))
  infer_call_results (CallOp.random_int target) args =
      let op = CallOp.random_int target in
      three_args op args (λ key low high.
        random_outputs key low high target (name op) (validate_random_int_target target (name op)))
  infer_call_results (CallOp.unsqueeze target) args = single (
      one_arg (CallOp.unsqueeze target) args
        (λ input. checked (validate_unsqueeze input target) target))
  infer_call_results (CallOp.trace axes) args =
      single (one_arg (CallOp.trace axes) args (λ input. trace_result_type checks input axes))
  infer_call_results (CallOp.vecdot axis) args =
      single
        (two_args (CallOp.vecdot axis) args (λ lhs rhs. vecdot_result_type checks lhs rhs axis))
  infer_call_results CallOp.where_op args =
      single (three_args CallOp.where_op args (where_result_type checks))
  infer_call_results CallOp.ones_like args = single (one_arg CallOp.ones_like args ok)
  infer_call_results CallOp.zeros_like args = single (one_arg CallOp.zeros_like args ok)
  infer_call_results (CallOp.graph _) args =
      err (message "graph calls are resolved by the graph type checker")

  unfoldable pub infer_call_result : CallOp → List TensorType → Result TensorType
  infer_call_result op args = do
    results ← infer_call_results op args
    reject_if (not (length results == 1))
        (about (name op) "produces several values and cannot be used as a tensor expression")
    index results 0
