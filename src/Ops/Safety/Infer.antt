-- ===== src/Ops/Safety/Infer.antt =====
-- The element types of the results of `infer_call_results` in crates/knok-core/src/ops/rules.rs,
-- for every operation, and that no operation panics.
use knok.Base.{
  ◌≡◌, ◌≢◌, refl, sym, ap, ◌∙◌, Bool, true, false, List, [], ◌∷◌, String, Result, panic, arith,
}
use knok.Base.Ensures.{Ensures, returns, throws, ◌⟫◌, weaken, Ensures-ne-panic}
use knok.Ast.Types.{ElementType, TensorType, is_bool}
use knok.Ast.Op.{CallOp}
use knok.Ops.Infer.{infer_call_results, random_outputs}
use knok.Ops.Safety.Arity.{
  elems, section_elems_of, result_elems, one_arg-Ensures, three_args-Ensures, single-Ensures,
  checked-Ensures, unary, binary, ternary, alone,
}
use knok.Ops.Safety.Common.{
  expect_axis-Ensures, expect_arity-Ensures, expect_numeric-Ensures, expect_bool-Ensures,
  expect_float-Ensures, reduction_output_type-Ensures,
}
use knok.Ops.Safety.Elements.{
  binary_result_type-Ensures, comparison_result_type-Ensures, equality_result_type-Ensures,
  logical_result_type-Ensures, where_result_type-Ensures, arg_reduction-Ensures,
  ordered_reduction-Ensures, float_reduction-Ensures, ptp_rule-Ensures, softmax_rule-Ensures,
  reshape_rule-Ensures, broadcast_rule-Ensures, clip_rule-Ensures, full_like_rule-Ensures,
  float_unary-Ensures, expect_random_key-Ensures, random_bounds_result_type-Ensures,
}
use knok.Ops.Safety.Windows.{max_pool2d_result_type-Ensures, avg_pool2d_result_type-Ensures}
use knok.Ops.Safety.Convolution.{conv2d_result_type-Ensures}
use knok.Ops.Safety.Products.{matmul_result_type-Ensures}
use knok.Ops.Safety.Inner.{
  dot_result_type-Ensures, vecdot_result_type-Ensures, inner_result_type-Ensures,
  outer_result_type-Ensures, trace_result_type-Ensures, diagonal_result_type-Ensures,
}
use knok.Ops.Safety.Reorder.{
  validate_permute-Ensures, validate_axis_list-Ensures, permute_dims_result_type-Ensures,
  transpose_result_type-Ensures, swapaxes_result_type-Ensures,
}
use knok.Ops.Safety.MoveAxis.{moveaxis_result_type-Ensures}
use knok.Ops.Safety.Layouts.{
  validate_slice-Ensures, validate_pad-Ensures, tile_result_type-Ensures,
  repeat_result_type-Ensures, split_result_types-Ensures,
}
use knok.Ops.Safety.Joins.{
  concat_result_type-Ensures, stack_result_type-Ensures, take_result_type-Ensures,
  gather_result_type-Ensures, take_along_axis_result_type-Ensures, validate_squeeze-Ensures,
  validate_unsqueeze-Ensures,
}
use knok.Ops.Safety.Creations.{static_target-Ensures, uniform_target-Ensures, int_target-Ensures}

is_bool_only : (e : ElementType) → is_bool e ≡ true → e ≡ ElementType.bool
unfolding is_bool
is_bool_only e h = ground arith

module _ (c : Bool) where
  random_outputs-Ensures :
      {check : Result (Unit {0})} (key low high target : TensorType) (op_name : String)
      → Ensures c (λ _. Unit {0}) check
      → Ensures c
          (λ outs. elems outs ≡ target.elem ∷ ElementType.i64 ∷ [])
          (random_outputs key low high target op_name check)
  unfolding random_outputs elems
  random_outputs-Ensures key low high target op_name h =
      expect_random_key-Ensures key op_name ⟫ λ _ k. h ⟫ λ _ _.
      random_bounds_result_type-Ensures low high target op_name ⟫ λ _ _.
      returns (ap (λ (t : TensorType). target.elem ∷ t.elem ∷ []) k)

  -- The element types of the results of every operation are those of `result_elems`.
  pub infer_call_results-Ensures :
      (op : CallOp) (args : List TensorType)
      → Ensures c (λ outs. elems outs ≡ result_elems op args) (infer_call_results c op args)
  unfolding infer_call_results result_elems
  infer_call_results-Ensures (CallOp.split axis sections) args =
      one_arg-Ensures c (CallOp.split axis sections)
        (λ args outs. elems outs ≡ result_elems (CallOp.split axis sections) args) args
        (λ a.
          weaken (split_result_types-Ensures c a axis sections)
            (λ outs p. ap elems p.2 ∙ section_elems_of a axis sections))
  infer_call_results-Ensures CallOp.abs args =
      unary c CallOp.abs args
        (λ a. checked-Ensures c a (expect_numeric-Ensures a.elem _) (λ _ _. refl))
  infer_call_results-Ensures (CallOp.all axis) args = unary c (CallOp.all axis) args (λ a.
      expect_bool-Ensures a.elem _ ⟫ λ _ _.
      weaken (reduction_output_type-Ensures c a axis) (λ _ p. alone p.0))
  infer_call_results-Ensures (CallOp.any axis) args = unary c (CallOp.any axis) args (λ a.
      expect_bool-Ensures a.elem _ ⟫ λ _ _.
      weaken (reduction_output_type-Ensures c a axis) (λ _ p. alone p.0))
  infer_call_results-Ensures (CallOp.argmax axis) args =
      unary c (CallOp.argmax axis) args
        (λ a. weaken (arg_reduction-Ensures c a axis _) (λ _ p. alone p.0))
  infer_call_results-Ensures (CallOp.argmin axis) args =
      unary c (CallOp.argmin axis) args
        (λ a. weaken (arg_reduction-Ensures c a axis _) (λ _ p. alone p.0))
  infer_call_results-Ensures CallOp.detach args = unary c CallOp.detach args (λ a. returns refl)
  infer_call_results-Ensures CallOp.ceil args =
      unary c CallOp.ceil args
        (λ a. weaken (float_unary-Ensures CallOp.ceil a) (λ _ p. alone (ap (λ t. t.elem) p)))
  infer_call_results-Ensures CallOp.cos args =
      unary c CallOp.cos args
        (λ a. weaken (float_unary-Ensures CallOp.cos a) (λ _ p. alone (ap (λ t. t.elem) p)))
  infer_call_results-Ensures CallOp.exp args =
      unary c CallOp.exp args
        (λ a. weaken (float_unary-Ensures CallOp.exp a) (λ _ p. alone (ap (λ t. t.elem) p)))
  infer_call_results-Ensures CallOp.exp2 args =
      unary c CallOp.exp2 args
        (λ a. weaken (float_unary-Ensures CallOp.exp2 a) (λ _ p. alone (ap (λ t. t.elem) p)))
  infer_call_results-Ensures CallOp.exp_m1 args =
      unary c CallOp.exp_m1 args
        (λ a. weaken (float_unary-Ensures CallOp.exp_m1 a) (λ _ p. alone (ap (λ t. t.elem) p)))
  infer_call_results-Ensures CallOp.floor args =
      unary c CallOp.floor args
        (λ a. weaken (float_unary-Ensures CallOp.floor a) (λ _ p. alone (ap (λ t. t.elem) p)))
  infer_call_results-Ensures CallOp.log args =
      unary c CallOp.log args
        (λ a. weaken (float_unary-Ensures CallOp.log a) (λ _ p. alone (ap (λ t. t.elem) p)))
  infer_call_results-Ensures CallOp.log1_p args =
      unary c CallOp.log1_p args
        (λ a. weaken (float_unary-Ensures CallOp.log1_p a) (λ _ p. alone (ap (λ t. t.elem) p)))
  infer_call_results-Ensures CallOp.log2 args =
      unary c CallOp.log2 args
        (λ a. weaken (float_unary-Ensures CallOp.log2 a) (λ _ p. alone (ap (λ t. t.elem) p)))
  infer_call_results-Ensures CallOp.log10 args =
      unary c CallOp.log10 args
        (λ a. weaken (float_unary-Ensures CallOp.log10 a) (λ _ p. alone (ap (λ t. t.elem) p)))
  infer_call_results-Ensures CallOp.relu args =
      unary c CallOp.relu args
        (λ a. weaken (float_unary-Ensures CallOp.relu a) (λ _ p. alone (ap (λ t. t.elem) p)))
  infer_call_results-Ensures CallOp.rint args =
      unary c CallOp.rint args
        (λ a. weaken (float_unary-Ensures CallOp.rint a) (λ _ p. alone (ap (λ t. t.elem) p)))
  infer_call_results-Ensures CallOp.round args =
      unary c CallOp.round args
        (λ a. weaken (float_unary-Ensures CallOp.round a) (λ _ p. alone (ap (λ t. t.elem) p)))
  infer_call_results-Ensures CallOp.sigmoid args =
      unary c CallOp.sigmoid args
        (λ a. weaken (float_unary-Ensures CallOp.sigmoid a) (λ _ p. alone (ap (λ t. t.elem) p)))
  infer_call_results-Ensures CallOp.sin args =
      unary c CallOp.sin args
        (λ a. weaken (float_unary-Ensures CallOp.sin a) (λ _ p. alone (ap (λ t. t.elem) p)))
  infer_call_results-Ensures CallOp.sqrt args =
      unary c CallOp.sqrt args
        (λ a. weaken (float_unary-Ensures CallOp.sqrt a) (λ _ p. alone (ap (λ t. t.elem) p)))
  infer_call_results-Ensures CallOp.tan args =
      unary c CallOp.tan args
        (λ a. weaken (float_unary-Ensures CallOp.tan a) (λ _ p. alone (ap (λ t. t.elem) p)))
  infer_call_results-Ensures CallOp.tanh args =
      unary c CallOp.tanh args
        (λ a. weaken (float_unary-Ensures CallOp.tanh a) (λ _ p. alone (ap (λ t. t.elem) p)))
  infer_call_results-Ensures CallOp.is_nan args = unary c CallOp.is_nan args (λ a.
      checked-Ensures c (record a { elem = ElementType.bool })
        (expect_float-Ensures CallOp.is_nan a.elem) (λ _ _. refl))
  infer_call_results-Ensures CallOp.reciprocal args =
      unary c CallOp.reciprocal args
        (λ a. checked-Ensures c a (expect_numeric-Ensures a.elem _) (λ _ _. refl))
  infer_call_results-Ensures CallOp.square args =
      unary c CallOp.square args
        (λ a. checked-Ensures c a (expect_numeric-Ensures a.elem _) (λ _ _. refl))
  infer_call_results-Ensures CallOp.greater args =
      binary c CallOp.greater args
        (λ a b. weaken (comparison_result_type-Ensures c a b) (λ _ p. alone p.2.0))
  infer_call_results-Ensures CallOp.greater_equal args =
      binary c CallOp.greater_equal args
        (λ a b. weaken (comparison_result_type-Ensures c a b) (λ _ p. alone p.2.0))
  infer_call_results-Ensures CallOp.less args =
      binary c CallOp.less args
        (λ a b. weaken (comparison_result_type-Ensures c a b) (λ _ p. alone p.2.0))
  infer_call_results-Ensures CallOp.less_equal args =
      binary c CallOp.less_equal args
        (λ a b. weaken (comparison_result_type-Ensures c a b) (λ _ p. alone p.2.0))
  infer_call_results-Ensures (CallOp.gather target axis) args =
      binary c (CallOp.gather target axis) args (λ a b.
        weaken (gather_result_type-Ensures c a b target axis)
          (λ _ p. alone (ap (λ t. t.elem) p.0 ∙ sym p.1)))
  infer_call_results-Ensures CallOp.equal args =
      binary c CallOp.equal args
        (λ a b. weaken (equality_result_type-Ensures c a b) (λ _ p. alone p.1.0))
  infer_call_results-Ensures CallOp.not_equal args =
      binary c CallOp.not_equal args
        (λ a b. weaken (equality_result_type-Ensures c a b) (λ _ p. alone p.1.0))
  infer_call_results-Ensures CallOp.full_like args =
      binary c CallOp.full_like args
        (λ a b. weaken (full_like_rule-Ensures a b) (λ _ p. alone (ap (λ t. t.elem) p)))
  infer_call_results-Ensures CallOp.logical_and args =
      binary c CallOp.logical_and args
        (λ a b. weaken (logical_result_type-Ensures c a b) (λ _ p. alone p.2.0))
  infer_call_results-Ensures CallOp.logical_or args =
      binary c CallOp.logical_or args
        (λ a b. weaken (logical_result_type-Ensures c a b) (λ _ p. alone p.2.0))
  infer_call_results-Ensures CallOp.logical_xor args =
      binary c CallOp.logical_xor args
        (λ a b. weaken (logical_result_type-Ensures c a b) (λ _ p. alone p.2.0))
  infer_call_results-Ensures CallOp.logical_not args = unary c CallOp.logical_not args (λ a.
      checked-Ensures c a (expect_bool-Ensures a.elem _) (λ _ p. alone (is_bool_only a.elem p)))
  infer_call_results-Ensures CallOp.minimum args = binary c CallOp.minimum args (λ a b.
      (expect_numeric-Ensures a.elem _ ⟫ λ _ _. expect_numeric-Ensures b.elem _) ⟫ λ _ _.
      weaken (binary_result_type-Ensures c a b) (λ _ p. alone p.2.0))
  infer_call_results-Ensures CallOp.maximum args = binary c CallOp.maximum args (λ a b.
      (expect_numeric-Ensures a.elem _ ⟫ λ _ _. expect_numeric-Ensures b.elem _) ⟫ λ _ _.
      weaken (binary_result_type-Ensures c a b) (λ _ p. alone p.2.0))
  infer_call_results-Ensures (CallOp.max axis) args =
      unary c (CallOp.max axis) args
        (λ a. weaken (ordered_reduction-Ensures c a axis _) (λ _ p. alone p.0))
  infer_call_results-Ensures (CallOp.min axis) args =
      unary c (CallOp.min axis) args
        (λ a. weaken (ordered_reduction-Ensures c a axis _) (λ _ p. alone p.0))
  infer_call_results-Ensures CallOp.clip args =
      ternary c CallOp.clip args (λ a b d. weaken (clip_rule-Ensures c a b d) (λ _ p. alone p.0))
  infer_call_results-Ensures CallOp.pow args = binary c CallOp.pow args (λ a b.
      (expect_float-Ensures CallOp.pow a.elem ⟫ λ _ _. expect_float-Ensures CallOp.pow b.elem)
      ⟫ λ _ _. weaken (binary_result_type-Ensures c a b) (λ _ p. alone p.2.0))
  infer_call_results-Ensures (CallOp.concat axis) args =
      binary c (CallOp.concat axis) args
        (λ a b. weaken (concat_result_type-Ensures c a b axis) (λ _ p. alone p.1))
  infer_call_results-Ensures (CallOp.flip axes) args =
      unary c (CallOp.flip axes) args
        (λ a. checked-Ensures c a (validate_axis_list-Ensures c a axes _) (λ _ _. refl))
  infer_call_results-Ensures (CallOp.move_axis source destination) args =
      unary c (CallOp.move_axis source destination) args
        (λ a. weaken (moveaxis_result_type-Ensures c a source destination) (λ _ p. alone p.0))
  infer_call_results-Ensures (CallOp.pad target lows) args =
      unary c (CallOp.pad target lows) args (λ a.
        checked-Ensures c target (validate_pad-Ensures c a target lows) (λ _ p. alone (sym p.0)))
  infer_call_results-Ensures (CallOp.softmax axis) args = unary c (CallOp.softmax axis) args (λ a.
      weaken (softmax_rule-Ensures c (CallOp.softmax axis) a axis)
        (λ _ p. alone (ap (λ t. t.elem) p)))
  infer_call_results-Ensures (CallOp.transpose axes) args =
      unary c (CallOp.transpose axes) args
        (λ a. weaken (transpose_result_type-Ensures c a axes) (λ _ p. alone p.0))
  infer_call_results-Ensures (CallOp.permute target axes) args =
      unary c (CallOp.permute target axes) args (λ a.
        checked-Ensures c target (validate_permute-Ensures c a target axes)
          (λ _ p. alone (sym p.0)))
  infer_call_results-Ensures (CallOp.permute_dims axes) args =
      unary c (CallOp.permute_dims axes) args
        (λ a. weaken (permute_dims_result_type-Ensures c a axes _) (λ _ p. alone p.0.0))
  infer_call_results-Ensures (CallOp.repeat axis count) args =
      unary c (CallOp.repeat axis count) args
        (λ a. weaken (repeat_result_type-Ensures c a axis count) (λ _ p. alone p.0))
  infer_call_results-Ensures (CallOp.reshape target) args =
      unary c (CallOp.reshape target) args (λ a.
        weaken (reshape_rule-Ensures c a target) (λ _ p. alone (ap (λ t. t.elem) p.0 ∙ sym p.1)))
  infer_call_results-Ensures (CallOp.roll axis shift) args =
      unary c (CallOp.roll axis shift) args
        (λ a. checked-Ensures c a (expect_axis-Ensures a axis) (λ _ _. refl))
  infer_call_results-Ensures (CallOp.broadcast target) args =
      unary c (CallOp.broadcast target) args (λ a.
        weaken (broadcast_rule-Ensures c a target) (λ _ p. alone (ap (λ t. t.elem) p.0 ∙ sym p.1)))
  infer_call_results-Ensures (CallOp.slice target starts) args =
      unary c (CallOp.slice target starts) args (λ a.
        checked-Ensures c target (validate_slice-Ensures c a target starts)
          (λ _ p. alone (sym p.0)))
  infer_call_results-Ensures (CallOp.squeeze target) args =
      unary c (CallOp.squeeze target) args (λ a.
        checked-Ensures c target (validate_squeeze-Ensures c a target) (λ _ p. alone (sym p.0)))
  infer_call_results-Ensures (CallOp.stack axis) args =
      binary c (CallOp.stack axis) args
        (λ a b. weaken (stack_result_type-Ensures c a b axis) (λ _ p. alone (ap (λ t. t.elem) p.2)))
  infer_call_results-Ensures (CallOp.swap_axes axis0 axis1) args =
      unary c (CallOp.swap_axes axis0 axis1) args
        (λ a. weaken (swapaxes_result_type-Ensures c a axis0 axis1) (λ _ p. alone p.0))
  infer_call_results-Ensures (CallOp.prod axis) args = unary c (CallOp.prod axis) args (λ a.
      expect_numeric-Ensures a.elem _ ⟫ λ _ _.
      weaken (reduction_output_type-Ensures c a axis) (λ _ p. alone p.0))
  infer_call_results-Ensures (CallOp.sum axis) args = unary c (CallOp.sum axis) args (λ a.
      expect_numeric-Ensures a.elem _ ⟫ λ _ _.
      weaken (reduction_output_type-Ensures c a axis) (λ _ p. alone p.0))
  infer_call_results-Ensures (CallOp.ptp axis) args =
      unary c (CallOp.ptp axis) args (λ a. weaken (ptp_rule-Ensures c a axis) (λ _ p. alone p.0))
  infer_call_results-Ensures (CallOp.std axis) args =
      unary c (CallOp.std axis) args
        (λ a. weaken (float_reduction-Ensures c (CallOp.std axis) a axis _) (λ _ p. alone p.0))
  infer_call_results-Ensures (CallOp.var axis) args =
      unary c (CallOp.var axis) args
        (λ a. weaken (float_reduction-Ensures c (CallOp.var axis) a axis _) (λ _ p. alone p.0))
  infer_call_results-Ensures (CallOp.mean axis) args =
      unary c (CallOp.mean axis) args
        (λ a. weaken (float_reduction-Ensures c (CallOp.mean axis) a axis _) (λ _ p. alone p.0))
  infer_call_results-Ensures (CallOp.take axis place) args =
      unary c (CallOp.take axis place) args (λ a.
        weaken (take_result_type-Ensures c a axis place) (λ _ p. alone (ap (λ t. t.elem) p.1)))
  infer_call_results-Ensures (CallOp.take_along_axis axis) args =
      binary c (CallOp.take_along_axis axis) args (λ a b.
        weaken (take_along_axis_result_type-Ensures c a b axis)
          (λ _ p. alone (ap (λ t. t.elem) p.3)))
  infer_call_results-Ensures CallOp.matmul args =
      binary c CallOp.matmul args
        (λ a b. weaken (matmul_result_type-Ensures c a b) (λ _ p. alone p.elems.1))
  infer_call_results-Ensures (CallOp.max_pool2d options) args =
      unary c (CallOp.max_pool2d options) args
        (λ a. weaken (max_pool2d_result_type-Ensures c a options) (λ _ p. alone p.same_elem))
  infer_call_results-Ensures (CallOp.avg_pool2d options) args =
      unary c (CallOp.avg_pool2d options) args
        (λ a. weaken (avg_pool2d_result_type-Ensures c a options) (λ _ p. alone p.same_elem))
  infer_call_results-Ensures (CallOp.conv2d options) args =
      binary c (CallOp.conv2d options) args
        (λ a b. weaken (conv2d_result_type-Ensures c a b options) (λ _ p. alone p.same_elem.1))
  infer_call_results-Ensures (CallOp.tile multiples) args =
      unary c (CallOp.tile multiples) args
        (λ a. weaken (tile_result_type-Ensures c a multiples) (λ _ p. alone p.0))
  infer_call_results-Ensures (CallOp.diagonal axes) args =
      unary c (CallOp.diagonal axes) args
        (λ a. weaken (diagonal_result_type-Ensures c a axes) (λ _ p. alone p.0))
  infer_call_results-Ensures CallOp.dot args =
      binary c CallOp.dot args (λ a b. weaken (dot_result_type-Ensures a b) (λ _ p. alone p.2))
  infer_call_results-Ensures CallOp.inner args =
      binary c CallOp.inner args
        (λ a b. weaken (inner_result_type-Ensures c a b) (λ _ p. alone p.1))
  infer_call_results-Ensures CallOp.outer args =
      binary c CallOp.outer args
        (λ a b. weaken (outer_result_type-Ensures c a b) (λ _ p. alone p.1))
  infer_call_results-Ensures (CallOp.unsqueeze target) args =
      unary c (CallOp.unsqueeze target) args (λ a.
        checked-Ensures c target (validate_unsqueeze-Ensures c a target) (λ _ p. alone (sym p.0)))
  infer_call_results-Ensures (CallOp.trace axes) args =
      unary c (CallOp.trace axes) args
        (λ a. weaken (trace_result_type-Ensures c a axes) (λ _ p. alone p.1))
  infer_call_results-Ensures (CallOp.vecdot axis) args =
      binary c (CallOp.vecdot axis) args
        (λ a b. weaken (vecdot_result_type-Ensures c a b axis) (λ _ p. alone p.2))
  infer_call_results-Ensures CallOp.where_op args =
      ternary c CallOp.where_op args
        (λ a b d. weaken (where_result_type-Ensures c a b d) (λ _ p. alone p.2))
  infer_call_results-Ensures CallOp.ones_like args =
      unary c CallOp.ones_like args (λ a. returns refl)
  infer_call_results-Ensures CallOp.zeros_like args =
      unary c CallOp.zeros_like args (λ a. returns refl)
  infer_call_results-Ensures (CallOp.arange target) args =
      single-Ensures c
        (checked-Ensures c target (static_target-Ensures c (CallOp.arange target)) (λ _ _. refl))
  infer_call_results-Ensures (CallOp.linspace target) args =
      single-Ensures c
        (checked-Ensures c target (static_target-Ensures c (CallOp.linspace target)) (λ _ _. refl))
  infer_call_results-Ensures (CallOp.eye target) args = single-Ensures c (
      expect_arity-Ensures _ args 0 ⟫ λ _ _.
      static_target-Ensures c (CallOp.eye target) ⟫ λ _ _. returns refl)
  infer_call_results-Ensures (CallOp.static_random_uniform target seed) args =
      binary c (CallOp.static_random_uniform target seed) args (λ a b.
        static_target-Ensures c (CallOp.static_random_uniform target seed) ⟫ λ _ _.
        checked-Ensures c target (random_bounds_result_type-Ensures a b target _) (λ _ _. refl))
  infer_call_results-Ensures (CallOp.static_random_int target seed) args =
      binary c (CallOp.static_random_int target seed) args (λ a b.
        static_target-Ensures c (CallOp.static_random_int target seed) ⟫ λ _ _.
        checked-Ensures c target (random_bounds_result_type-Ensures a b target _) (λ _ _. refl))
  infer_call_results-Ensures (CallOp.random_uniform target) args =
      three_args-Ensures c (CallOp.random_uniform target)
        (λ args outs. elems outs ≡ result_elems (CallOp.random_uniform target) args) args
        (λ a b d. random_outputs-Ensures a b d target _ (uniform_target-Ensures c target _))
  infer_call_results-Ensures (CallOp.random_int target) args =
      three_args-Ensures c (CallOp.random_int target)
        (λ args outs. elems outs ≡ result_elems (CallOp.random_int target) args) args
        (λ a b d. random_outputs-Ensures a b d target _ (int_target-Ensures c target _))
  infer_call_results-Ensures (CallOp.graph _) args = throws

-- Without overflow checks no operation panics, whatever the operation and its argument types.
pub infer_call_results_total :
    (op : CallOp) (args : List TensorType) → infer_call_results false op args ≢ panic
infer_call_results_total op args = Ensures-ne-panic (infer_call_results-Ensures false op args)
