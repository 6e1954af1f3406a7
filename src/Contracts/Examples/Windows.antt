-- ===== src/Contracts/Examples/Windows.antt =====
-- Pools and a grouped convolution.
use knok.Base.{◌≡◌, refl, true, [], ◌∷◌, ok}
use knok.Base.Usize.{fit, add_usize, mul_usize, sub_usize, div_unsigned, rem_unsigned}
use knok.Base.Vec.{index}
use knok.Ast.Types.{
  ElementType, TensorType, Conv2dOptions, Pool2dOptions, Padding2d, rank, is_numeric, is_bool,
  is_float, elem_eq,
}
use knok.Ops.Common.{expect_numeric_element}
use knok.Ops.Pool.{
  effective_kernel, padded_dim, window_count, pool2d_result_type, max_pool2d_result_type,
  avg_pool2d_result_type,
}
use knok.Ops.Conv.{conv2d_result_type}
use knok.Contracts.Windows.{
  Pools, Convolves, max_pool2d_result_type_lem, avg_pool2d_result_type_lem, conv2d_result_type_lem,
}

abbrev image : TensorType
image = record { elem = ElementType.f32; shape = 1 ∷ 5 ∷ 7 ∷ 4 ∷ [] }

abbrev kernel : TensorType
kernel = record { elem = ElementType.f32; shape = 3 ∷ 3 ∷ 2 ∷ 6 ∷ [] }

abbrev no_padding : Padding2d
no_padding = record { top = 0; bottom = 0; left = 0; right = 0 }

abbrev same_padding : Padding2d
same_padding = record { top = 1; bottom = 1; left = 1; right = 1 }

abbrev window : Pool2dOptions
window = record { kernel = (2, 3); padding = no_padding; stride = (2, 2); dilation = (1, 1) }

abbrev grouped_conv : Conv2dOptions
grouped_conv = record { padding = same_padding; stride = (2, 1); dilation = (1, 1); groups = 2 }

abbrev pooled : TensorType
pooled = record { elem = ElementType.f32; shape = 1 ∷ 2 ∷ 3 ∷ 4 ∷ [] }

abbrev convolved : TensorType
convolved = record { elem = ElementType.f32; shape = 1 ∷ 3 ∷ 7 ∷ 6 ∷ [] }

max_pool2d_runs : max_pool2d_result_type true image window ≡ ok pooled
unfolding rank is_numeric is_bool expect_numeric_element index fit add_usize mul_usize sub_usize
    div_unsigned effective_kernel padded_dim window_count pool2d_result_type max_pool2d_result_type
max_pool2d_runs = refl

max_pool2d_example : Pools image window pooled
max_pool2d_example = max_pool2d_result_type_lem image window pooled max_pool2d_runs

avg_pool2d_runs : avg_pool2d_result_type true image window ≡ ok pooled
unfolding rank is_numeric is_bool is_float expect_numeric_element index fit add_usize mul_usize
    sub_usize div_unsigned effective_kernel padded_dim window_count pool2d_result_type
    avg_pool2d_result_type
avg_pool2d_runs = refl

avg_pool2d_example : Pools image window pooled
avg_pool2d_example = avg_pool2d_result_type_lem image window pooled avg_pool2d_runs

conv2d_runs : conv2d_result_type true image kernel grouped_conv ≡ ok convolved
unfolding rank is_numeric is_bool elem_eq expect_numeric_element index fit add_usize mul_usize
    sub_usize div_unsigned rem_unsigned effective_kernel padded_dim window_count conv2d_result_type
conv2d_runs = refl

conv2d_example : Convolves image kernel grouped_conv convolved
conv2d_example = conv2d_result_type_lem image kernel grouped_conv convolved conv2d_runs
