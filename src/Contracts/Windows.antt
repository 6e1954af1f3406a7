-- ===== src/Contracts/Windows.antt =====
-- Pools and convolutions with overflow checks: crates/knok-core/src/ops/pool.rs and conv.rs.
use knok.Base.{ℕ, ◌*◌, ◌%◌, ◌≡◌, refl, true, [], ◌∷◌, ok}
use knok.Base.Ensures.{value_of}
use knok.Ast.Types.{TensorType, Conv2dOptions, Pool2dOptions, is_numeric}
use knok.Ops.Pool.{max_pool2d_result_type, avg_pool2d_result_type}
use knok.Ops.Conv.{conv2d_result_type}
use knok.Ops.Safety.Windows.{
  Spatial, CheckedPools, max_pool2d_result_type-Ensures, avg_pool2d_result_type-Ensures,
}
use knok.Ops.Safety.Convolution.{conv2d_result_type-Ensures}

-- A pooled NHWC tensor: batch and channels stay, and each spatial dimension of the result counts
-- the positions of the window in the padded input.
pub record Pools (input : TensorType) (options : Pool2dOptions) (out : TensorType) : Type 0 where
  pub batch : ℕ
  pub height : ℕ
  pub width : ℕ
  pub channels : ℕ
  pub out_h : ℕ
  pub out_w : ℕ
  pub in_shape : input.shape ≡ batch ∷ height ∷ width ∷ channels ∷ []
  pub out_shape : out.shape ≡ batch ∷ out_h ∷ out_w ∷ channels ∷ []
  pub same_elem : out.elem ≡ input.elem
  pub numeric : is_numeric input.elem ≡ true
  pub rows :
      Spatial height options.padding.top options.padding.bottom options.kernel.0 options.dilation.0
        options.stride.0 out_h
  pub columns :
      Spatial width options.padding.left options.padding.right options.kernel.1 options.dilation.1
        options.stride.1 out_w

exact_pools :
    (input : TensorType) (options : Pool2dOptions) (out : TensorType)
    → CheckedPools true input options out
    → Pools input options out
exact_pools input options out p = record {
  batch = p.batch;
  height = p.height;
  width = p.width;
  channels = p.channels;
  out_h = p.out_h;
  out_w = p.out_w;
  in_shape = p.in_shape;
  out_shape = p.out_shape;
  same_elem = p.same_elem;
  numeric = p.numeric;
  rows = p.rows refl;
  columns = p.columns refl;
}

-- With overflow checks, a max pool that is accepted has the NHWC pooled type of its input: the
-- batch and the channels stay, and each spatial dimension is exactly the number of window positions.
pub max_pool2d_result_type_lem :
    (input : TensorType) (options : Pool2dOptions) (out : TensorType)
    → max_pool2d_result_type true input options ≡ ok out
    → Pools input options out
max_pool2d_result_type_lem input options out h =
    exact_pools input options out (value_of (max_pool2d_result_type-Ensures true input options) h)

-- With overflow checks, an average pool that is accepted has the NHWC pooled type of its input.
pub avg_pool2d_result_type_lem :
    (input : TensorType) (options : Pool2dOptions) (out : TensorType)
    → avg_pool2d_result_type true input options ≡ ok out
    → Pools input options out
avg_pool2d_result_type_lem input options out h =
    exact_pools input options out (value_of (avg_pool2d_result_type-Ensures true input options) h)

-- An NHWC input convolved with an HWCF kernel: the batch stays, the channels become the kernel's
-- filters, the groups divide both, and each spatial dimension counts the kernel's positions.
pub record Convolves (input kernel : TensorType) (options : Conv2dOptions) (out : TensorType)
    : Type 0 where
  pub batch : ℕ
  pub height : ℕ
  pub width : ℕ
  pub channels : ℕ
  pub kernel_h : ℕ
  pub kernel_w : ℕ
  pub group_channels : ℕ
  pub filters : ℕ
  pub out_h : ℕ
  pub out_w : ℕ
  pub in_shape : input.shape ≡ batch ∷ height ∷ width ∷ channels ∷ []
  pub kernel_shape : kernel.shape ≡ kernel_h ∷ kernel_w ∷ group_channels ∷ filters ∷ []
  pub out_shape : out.shape ≡ batch ∷ out_h ∷ out_w ∷ filters ∷ []
  pub same_elem : (input.elem ≡ kernel.elem) × (out.elem ≡ input.elem)
  pub grouped : options.groups * group_channels ≡ channels
  pub filters_grouped : filters % options.groups ≡ 0
  pub rows :
      Spatial height options.padding.top options.padding.bottom kernel_h options.dilation.0
        options.stride.0 out_h
  pub columns :
      Spatial width options.padding.left options.padding.right kernel_w options.dilation.1
        options.stride.1 out_w

-- With overflow checks, a convolution that is accepted has the NHWC type of a grouped convolution
-- with an HWCF kernel: the filters are the result's channels, the groups times the kernel's channels
-- are the input's, and each spatial dimension is exactly the number of kernel positions.
pub conv2d_result_type_lem :
    (input kernel : TensorType) (options : Conv2dOptions) (out : TensorType)
    → conv2d_result_type true input kernel options ≡ ok out
    → Convolves input kernel options out
conv2d_result_type_lem input kernel options out h =
    let p = value_of (conv2d_result_type-Ensures true input kernel options) h in
    record {
      batch = p.batch;
      height = p.height;
      width = p.width;
      channels = p.channels;
      kernel_h = p.kernel_h;
      kernel_w = p.kernel_w;
      group_channels = p.group_channels;
      filters = p.filters;
      out_h = p.out_h;
      out_w = p.out_w;
      in_shape = p.in_shape;
      kernel_shape = p.kernel_shape;
      out_shape = p.out_shape;
      same_elem = p.same_elem;
      grouped = p.grouped;
      filters_grouped = p.filters_grouped;
      rows = p.rows refl;
      columns = p.columns refl;
    }
