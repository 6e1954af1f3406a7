-- ===== src/Contracts/Examples/Elements.antt =====
-- Elementwise rules, broadcasts and the table of result types.
use knok.Base.{ℕ, ◌^◌, ◌≡◌, ◌≢◌, refl, true, false, List, [], ◌∷◌, product, ok, panic, ◌↔◌}
use knok.Base.Usize.{fit, add_usize, mul_usize, sub_usize, sum_from, product_from}
use knok.Base.Vec.{index, store, remove, insert, slice_to, slice_from, swap}
use knok.Ast.Types.{
  ElementType, TensorType, rank, is_numeric, is_bool, is_float, elem_eq, shape_eq, type_eq,
}
use knok.Ast.Op.{CallOp, name}
use knok.Ops.Common.{
  element_count, dim_from_trailing, broadcast_dim, broadcast_rounds, broadcast_shape_slices,
  broadcast_shape, expect_axis, reduction_output_type, expect_non_empty_reduction, expect_arity,
  expect_float, expect_numeric_element, expect_ordered_element, expect_index_element,
  expect_bool_element,
}
use knok.Ops.Elementwise.{binary_result_type, where_result_type, reshape_rule, clip_rule}
use knok.Ops.Infer.{one_arg, two_args, three_args, single, checked, infer_call_results}
use knok.Ops.Layout.{split_result_types, section_type}
use knok.Ops.Broadcast.{Broadcasts, broadcast_shape_slices_iff}
use knok.Ops.Broadcast.Laws.{broadcast_assoc}
use knok.Ops.Safety.Arity.{elems, result_elems}
use knok.Ops.Safety.Infer.{infer_call_results_total}
use knok.Contracts.Elements.{
  reshape_rule_lem, infer_call_results_elems, where_result_type_lem, clip_rule_lem,
}

abbrev column : TensorType
column = record { elem = ElementType.f32; shape = 4 ∷ 1 ∷ [] }

abbrev row : TensorType
row = record { elem = ElementType.f32; shape = 3 ∷ [] }

abbrev table : TensorType
table = record { elem = ElementType.f32; shape = 4 ∷ 3 ∷ [] }

abbrev flat : TensorType
flat = record { elem = ElementType.f32; shape = 12 ∷ [] }

abbrev chosen : TensorType
chosen = record { elem = ElementType.bool; shape = 4 ∷ 1 ∷ [] }

abbrev wide : TensorType
wide = record { elem = ElementType.f32; shape = 2 ∷ 4 ∷ 3 ∷ [] }

reshape_runs : reshape_rule true table flat ≡ ok flat
unfolding elem_eq element_count fit mul_usize product_from reshape_rule
reshape_runs = refl

reshape_example :
    (flat ≡ flat) × (table.elem ≡ flat.elem) × (product table.shape ≡ product flat.shape)
reshape_example = reshape_rule_lem table flat flat reshape_runs

-- Without overflow checks the count of 2 ^ 32 rows of 2 ^ 32 elements is 0.
abbrev vast : TensorType
vast = record { elem = ElementType.f32; shape = 2 ^ 32 ∷ 2 ^ 32 ∷ [] }

abbrev empty : TensorType
empty = record { elem = ElementType.f32; shape = 0 ∷ [] }

reshape_wraps : reshape_rule false vast empty ≡ ok empty
unfolding elem_eq element_count fit mul_usize product_from reshape_rule
reshape_wraps = refl

infer_runs :
    infer_call_results true (CallOp.split 0 (1 ∷ 3 ∷ [])) (column ∷ [])
    ≡ ok (record column { shape = 1 ∷ 1 ∷ [] } ∷ record column { shape = 3 ∷ 1 ∷ [] } ∷ [])
unfolding rank is_numeric is_bool is_float elem_eq shape_eq type_eq element_count dim_from_trailing
    broadcast_dim broadcast_rounds broadcast_shape_slices broadcast_shape expect_axis
    reduction_output_type expect_non_empty_reduction expect_arity expect_float
    expect_numeric_element expect_ordered_element expect_index_element expect_bool_element index
    store remove insert slice_to slice_from swap fit add_usize mul_usize sub_usize sum_from
    product_from binary_result_type reshape_rule one_arg two_args three_args single checked
    section_type split_result_types infer_call_results name
infer_runs = refl

infer_example :
    elems (record column { shape = 1 ∷ 1 ∷ [] } ∷ record column { shape = 3 ∷ 1 ∷ [] } ∷ [])
    ≡ result_elems (CallOp.split 0 (1 ∷ 3 ∷ [])) (column ∷ [])
infer_example =
    infer_call_results_elems true (CallOp.split 0 (1 ∷ 3 ∷ [])) (column ∷ [])
      (record column { shape = 1 ∷ 1 ∷ [] } ∷ record column { shape = 3 ∷ 1 ∷ [] } ∷ []) infer_runs

infer_total_example : infer_call_results false CallOp.matmul (column ∷ row ∷ []) ≢ panic
infer_total_example = infer_call_results_total CallOp.matmul (column ∷ row ∷ [])

binary_runs : binary_result_type true column row ≡ ok table
unfolding is_numeric is_bool elem_eq dim_from_trailing broadcast_dim broadcast_rounds
    broadcast_shape_slices broadcast_shape expect_numeric_element index fit add_usize mul_usize
    sub_usize binary_result_type
binary_runs = refl

where_rule_runs : where_result_type true chosen column row ≡ ok table
unfolding is_bool elem_eq dim_from_trailing broadcast_dim broadcast_rounds broadcast_shape_slices
    broadcast_shape expect_bool_element index fit add_usize mul_usize sub_usize where_result_type
where_rule_runs = refl

where_rule_example :
    (is_bool chosen.elem ≡ true)
    × (column.elem ≡ row.elem)
    × (table.elem ≡ column.elem)
    × ((values : List ℕ) × Broadcasts column.shape row.shape values
        × Broadcasts chosen.shape values table.shape)
where_rule_example = where_result_type_lem true chosen column row table where_rule_runs

clip_runs : clip_rule true column row table ≡ ok table
unfolding is_numeric is_bool elem_eq dim_from_trailing broadcast_dim broadcast_rounds
    broadcast_shape_slices broadcast_shape expect_numeric_element index fit add_usize mul_usize
    sub_usize binary_result_type clip_rule
clip_runs = refl

clip_example :
    (table.elem ≡ column.elem)
    × ((s : List ℕ) × Broadcasts column.shape row.shape s × Broadcasts s table.shape table.shape)
clip_example = clip_rule_lem true column row table table clip_runs

broadcast_iff_example :
    (broadcast_shape_slices true column.shape row.shape ≡ ok table.shape)
    ↔ Broadcasts column.shape row.shape table.shape
broadcast_iff_example = broadcast_shape_slices_iff true column.shape row.shape table.shape

column_row_runs : broadcast_shape_slices true column.shape row.shape ≡ ok table.shape
unfolding dim_from_trailing broadcast_dim broadcast_rounds broadcast_shape_slices index fit
    add_usize mul_usize sub_usize
column_row_runs = refl

table_wide_runs : broadcast_shape_slices true table.shape wide.shape ≡ ok wide.shape
unfolding dim_from_trailing broadcast_dim broadcast_rounds broadcast_shape_slices index fit
    add_usize mul_usize sub_usize
table_wide_runs = refl

row_wide_runs : broadcast_shape_slices true row.shape wide.shape ≡ ok wide.shape
unfolding dim_from_trailing broadcast_dim broadcast_rounds broadcast_shape_slices index fit
    add_usize mul_usize sub_usize
row_wide_runs = refl

broadcast_assoc_example : broadcast_shape_slices true column.shape wide.shape ≡ ok wide.shape
broadcast_assoc_example =
    broadcast_assoc true column.shape row.shape wide.shape column_row_runs table_wide_runs
      row_wide_runs
