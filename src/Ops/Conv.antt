-- ===== src/Ops/Conv.antt =====
-- crates/knok-core/src/ops/conv.rs.
use knok.Base.{Bool, [], ◌∷◌, ltb, ◌==◌, not, ◌||◌, Result, ok, message, ◌>>=◌, ◌>>◌, reject_if}
use knok.Base.Usize.{div_unsigned, rem_unsigned}
use knok.Base.Vec.{index}
use knok.Ast.Types.{TensorType, rank, elem_eq, Conv2dOptions}
use knok.Ops.Common.{expect_numeric_element}
use knok.Ops.Pool.{effective_kernel, padded_dim, window_count}

module _ (checks : Bool) where
  unfoldable pub conv2d_result_type : TensorType → TensorType → Conv2dOptions → Result TensorType
  unfolding rank
  conv2d_result_type input kernel options = do
    reject_if
        (not (rank input == 4) || not (rank kernel == 4) || not (elem_eq input.elem kernel.elem))
        (message
          "conv2d expects NHWC input and HWCF kernel rank-4 tensors with the same element type")
    expect_numeric_element input.elem "conv2d"
    reject_if (options.groups == 0) (message "conv2d groups must be non-zero")
    reject_if
        (options.stride.0 == 0
          || options.stride.1 == 0
          || options.dilation.0 == 0
          || options.dilation.1 == 0)
        (message "conv2d stride and dilation options must be non-zero")
    kernel_h ← index kernel.shape 0
    kernel_w ← index kernel.shape 1
    kernel_channels ← index kernel.shape 2
    output_channels ← index kernel.shape 3
    reject_if (kernel_h == 0 || kernel_w == 0 || kernel_channels == 0 || output_channels == 0)
        (message "conv2d kernel dimensions must be non-zero")
    input_channels ← index input.shape 3
    reject_if (input_channels == 0 || output_channels == 0)
        (message "conv2d input and output channels must be non-zero")
    input_rest ← rem_unsigned input_channels options.groups
    reject_if (not (input_rest == 0)) (message "conv2d input channels must be divisible by groups")
    output_rest ← rem_unsigned output_channels options.groups
    reject_if (not (output_rest == 0))
        (message "conv2d output channels must be divisible by groups")
    per_group ← div_unsigned input_channels options.groups
    reject_if (not (kernel_channels == per_group))
        (message "conv2d kernel input channels must equal input channels / groups")
    effective_h ← effective_kernel checks kernel_h options.dilation.0
    effective_w ← effective_kernel checks kernel_w options.dilation.1
    height ← index input.shape 1
    padded_h ← padded_dim checks height options.padding.top options.padding.bottom
    width ← index input.shape 2
    padded_w ← padded_dim checks width options.padding.left options.padding.right
    reject_if (ltb padded_h effective_h || ltb padded_w effective_w)
        (message "conv2d effective kernel spatial dimensions must fit inside the padded input")
    batch ← index input.shape 0
    out_h ← window_count checks padded_h effective_h options.stride.0
    out_w ← window_count checks padded_w effective_w options.stride.1
    ok (record { elem = input.elem; shape = batch ∷ out_h ∷ out_w ∷ output_channels ∷ [] })
