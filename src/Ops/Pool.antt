-- ===== src/Ops/Pool.antt =====
-- crates/knok-core/src/ops/pool.rs, and the window arithmetic that crates/knok-core/src/ops/conv.rs
-- repeats: how many places a dilated kernel has in a padded dimension.
use knok.Base.{
  ℕ, Bool, [], ◌∷◌, String, ltb, ◌==◌, not, ◌||◌, Result, ok, about, ◌>>=◌, ◌>>◌, reject_if,
}
use knok.Base.Usize.{add_usize, sub_usize, mul_usize, div_unsigned}
use knok.Base.Vec.{index}
use knok.Ast.Types.{TensorType, rank, is_float, Pool2dOptions}
use knok.Ops.Common.{expect_numeric_element}

module _ (checks : Bool) where
  -- `(kernel - 1) * dilation + 1`.
  unfoldable pub effective_kernel : ℕ → ℕ → Result ℕ
  effective_kernel kernel dilation = do
    gaps ← sub_usize checks kernel 1
    reach ← mul_usize checks gaps dilation
    add_usize checks reach 1

  -- `dim + low + high`.
  unfoldable pub padded_dim : ℕ → ℕ → ℕ → Result ℕ
  padded_dim dim low high = do part ← add_usize checks dim low; add_usize checks part high

  -- `(padded - effective) / stride + 1`.
  unfoldable pub window_count : ℕ → ℕ → ℕ → Result ℕ
  window_count padded effective stride = do
    slack ← sub_usize checks padded effective
    steps ← div_unsigned slack stride
    add_usize checks steps 1

  unfoldable pub pool2d_result_type : TensorType → Pool2dOptions → String → Result TensorType
  unfolding rank
  pool2d_result_type input options op_name = do
    reject_if (not (rank input == 4)) (about op_name "expects an NHWC rank-4 input tensor")
    expect_numeric_element input.elem op_name
    reject_if (options.kernel.0 == 0 || options.kernel.1 == 0)
        (about op_name "kernel dimensions must be non-zero")
    reject_if
        (options.stride.0 == 0
          || options.stride.1 == 0
          || options.dilation.0 == 0
          || options.dilation.1 == 0)
        (about op_name "stride and dilation options must be non-zero")
    batch ← index input.shape 0
    channels ← index input.shape 3
    reject_if (batch == 0 || channels == 0)
        (about op_name "batch and channel dimensions must be non-zero")
    effective_h ← effective_kernel options.kernel.0 options.dilation.0
    effective_w ← effective_kernel options.kernel.1 options.dilation.1
    height ← index input.shape 1
    padded_h ← padded_dim height options.padding.top options.padding.bottom
    width ← index input.shape 2
    padded_w ← padded_dim width options.padding.left options.padding.right
    reject_if (ltb padded_h effective_h || ltb padded_w effective_w)
        (about op_name "effective kernel spatial dimensions must fit inside the padded input")
    out_h ← window_count padded_h effective_h options.stride.0
    out_w ← window_count padded_w effective_w options.stride.1
    ok (record { elem = input.elem; shape = batch ∷ out_h ∷ out_w ∷ channels ∷ [] })

  unfoldable pub max_pool2d_result_type : TensorType → Pool2dOptions → Result TensorType
  max_pool2d_result_type input options = pool2d_result_type input options "max_pool2d"

  unfoldable pub avg_pool2d_result_type : TensorType → Pool2dOptions → Result TensorType
  avg_pool2d_result_type input options = do
    reject_if (not (is_float input.elem))
        (about "avg_pool2d" "expects a floating-point element type")
    pool2d_result_type input options "avg_pool2d"
