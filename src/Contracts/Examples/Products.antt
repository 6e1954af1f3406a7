-- ===== src/Contracts/Examples/Products.antt =====
-- Matrix, inner, outer and vector products, a trace and a diagonal.
use knok.Base.{
  ℕ, suc, ◌≡◌, ◌<◌, ◌⊎◌, refl, true, [], ◌∷◌, ◌++◌, Option, some, none, length, remove_at, product,
  ok,
}
use knok.Base.Usize.{fit, add_usize, mul_usize, sub_usize, product_from}
use knok.Base.Vec.{index, remove, slice_to}
use knok.Ast.Types.{ElementType, TensorType, rank, is_numeric, is_bool, elem_eq, shape_eq}
use knok.Ops.Common.{
  element_count, dim_from_trailing, broadcast_dim, broadcast_rounds, broadcast_shape_slices,
  expect_axis, expect_numeric_element,
}
use knok.Ops.Matmul.{dim_from_end, batch_dims, push_unless, matmul_result_type}
use knok.Ops.Linalg
use knok.Ops.Linalg.{
  expect_same_numeric_element, expect_matching_dim, remove_axes_from, remove_axes_shape,
  vecdot_result_type, default_axis, all_but_last, inner_contraction, inner_result_type,
  outer_result_type, default_axes, default_axis_pair, trace_result_type, diagonal_result_type,
}
use knok.Ops.Safety.Products.{Multiplies}
use knok.Ops.Safety.Inner.{SameNumeric, Diagonal, Chosen}
use knok.Contracts.Products.{
  matmul_result_type_lem, vecdot_result_type_lem, diagonal_result_type_lem, outer_result_type_lem,
}

abbrev stacked : TensorType
stacked = record { elem = ElementType.f32; shape = 4 ∷ 1 ∷ 2 ∷ 3 ∷ [] }

abbrev matrix : TensorType
matrix = record { elem = ElementType.f32; shape = 3 ∷ 5 ∷ [] }

abbrev square : TensorType
square = record { elem = ElementType.f32; shape = 2 ∷ 6 ∷ 6 ∷ [] }

abbrev product_type : TensorType
product_type = record { elem = ElementType.f32; shape = 4 ∷ 1 ∷ 2 ∷ 5 ∷ [] }

abbrev inner_left : TensorType
inner_left = record { elem = ElementType.f32; shape = 2 ∷ 3 ∷ [] }

abbrev inner_right : TensorType
inner_right = record { elem = ElementType.f32; shape = 4 ∷ 3 ∷ [] }

abbrev inner_type : TensorType
inner_type = record { elem = ElementType.f32; shape = 2 ∷ 4 ∷ [] }

abbrev traced : TensorType
traced = record { elem = ElementType.f32; shape = 2 ∷ [] }

abbrev diagonal_type : TensorType
diagonal_type = record { elem = ElementType.f32; shape = 2 ∷ 6 ∷ [] }

abbrev outer_type : TensorType
outer_type = record { elem = ElementType.f32; shape = 6 ∷ 12 ∷ [] }

abbrev summed : TensorType
summed = record { elem = ElementType.f32; shape = 3 ∷ [] }

abbrev first_axis : Option ℕ
first_axis = some 0

matmul_runs : matmul_result_type true stacked matrix ≡ ok product_type
unfolding rank is_numeric is_bool elem_eq dim_from_trailing broadcast_dim broadcast_rounds
    broadcast_shape_slices expect_numeric_element index slice_to fit add_usize mul_usize sub_usize
    dim_from_end batch_dims push_unless matmul_result_type
matmul_runs = refl

matmul_example : Multiplies stacked matrix product_type
matmul_example = matmul_result_type_lem true stacked matrix product_type matmul_runs

inner_runs : inner_result_type true inner_left inner_right ≡ ok inner_type
unfolding rank is_numeric is_bool elem_eq expect_numeric_element index slice_to fit add_usize
    mul_usize sub_usize expect_same_numeric_element expect_matching_dim all_but_last
    inner_contraction dim_from_end inner_result_type
inner_runs = refl

vecdot_runs : vecdot_result_type true inner_left inner_left first_axis ≡ ok summed
unfolding rank is_numeric is_bool elem_eq shape_eq expect_axis expect_numeric_element index remove
    sub_usize Linalg.expect_axis expect_same_numeric_element default_axis vecdot_result_type
vecdot_runs = refl

vecdot_example :
    SameNumeric inner_left inner_left
    × (inner_left.shape ≡ inner_left.shape)
    × (summed.elem ≡ inner_left.elem)
    × ((place : ℕ) × (place < length inner_left.shape)
        × (summed.shape ≡ remove_at inner_left.shape place)
        × ((first_axis ≡ some place)
            ⊎ ((first_axis ≡ none) × (suc place ≡ length inner_left.shape))))
vecdot_example = vecdot_result_type_lem true inner_left inner_left first_axis summed vecdot_runs

trace_runs : trace_result_type true square none ≡ ok traced
unfolding rank is_numeric is_bool expect_axis expect_numeric_element index sub_usize
    Linalg.expect_axis expect_matching_dim remove_axes_from remove_axes_shape default_axes
    default_axis_pair trace_result_type
trace_runs = refl

diagonal_runs : diagonal_result_type true square (some (2, 1)) ≡ ok diagonal_type
unfolding rank expect_axis index sub_usize Linalg.expect_axis expect_matching_dim remove_axes_from
    remove_axes_shape default_axes default_axis_pair diagonal_result_type
diagonal_runs = refl

diagonal_example :
    (diagonal_type.elem ≡ square.elem)
    × ((axis0 : ℕ) × (axis1 : ℕ) × (n : ℕ) × Chosen (some (2, 1)) square.shape axis0 axis1
        × Diagonal square.shape axis0 axis1 n
        × (diagonal_type.shape ≡ remove_axes_shape square axis0 axis1 ++ n ∷ []))
diagonal_example = diagonal_result_type_lem true square (some (2, 1)) diagonal_type diagonal_runs

outer_runs : outer_result_type true inner_left inner_right ≡ ok outer_type
unfolding is_numeric is_bool elem_eq element_count expect_numeric_element fit mul_usize product_from
    expect_same_numeric_element outer_result_type
outer_runs = refl

outer_example :
    SameNumeric inner_left inner_right
    × (outer_type.elem ≡ inner_left.elem)
    × (outer_type.shape ≡ product inner_left.shape ∷ product inner_right.shape ∷ [])
outer_example = outer_result_type_lem inner_left inner_right outer_type outer_runs
