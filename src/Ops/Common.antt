-- ===== src/Ops/Common.antt =====
-- crates/knok-core/src/ops/common.rs: broadcasting, reductions and the checks that operations share.
use knok.Base.{
  ℕ, zero, suc, Bool, ◌||◌, List, [], ◌∷◌, Option, none, some, String, length, max, ltb, leb, ◌==◌,
  if◌then◌else◌, Result, ok, err, panic, about, axis_out_of_bounds, arity, dims_differ, ◌>>=◌, ◌>>◌,
  reject_if, require,
}
use knok.Base.Usize.{sub_usize, product_from}
use knok.Base.Vec.{index, remove}
use knok.Ast.Types.{ElementType, TensorType, rank, AxisSpec, is_float, is_bool, is_numeric}
use knok.Ast.Op.{CallOp, name}

module _ (checks : Bool) where
  unfoldable pub element_count : TensorType → Result ℕ
  element_count ty = product_from checks 1 ty.shape

  unfoldable pub dim_from_trailing : List ℕ → ℕ → ℕ → Result (Option ℕ)
  dim_from_trailing shape full_rank offset = do
    pad ← sub_usize checks full_rank (length shape)
    let present = do place ← sub_usize checks offset pad; dim ← index shape place; ok (some dim)
    if leb pad offset then present else ok none

-- The arms of the `match` on two dimensions, in order.
unfoldable pub broadcast_dim : ℕ → Option ℕ → Option ℕ → Result ℕ
broadcast_dim offset (some lhs_dim) (some rhs_dim) =
    if lhs_dim == rhs_dim
    then ok lhs_dim
    else if lhs_dim == 1
    then ok rhs_dim
    else if rhs_dim == 1
    then ok lhs_dim
    else err (dims_differ offset lhs_dim rhs_dim)
broadcast_dim offset none (some dim) = ok dim
broadcast_dim offset (some dim) none = ok dim
broadcast_dim offset none none = panic

module _ (checks : Bool) where
  -- The rounds of `for offset in 0..rank` that are left; what they push is the result's list.
  unfoldable pub broadcast_rounds : List ℕ → List ℕ → ℕ → ℕ → ℕ → Result (List ℕ)
  broadcast_rounds lhs rhs full_rank zero offset = ok []
  broadcast_rounds lhs rhs full_rank (suc rounds) offset = do
    lhs_dim ← dim_from_trailing checks lhs full_rank offset
    rhs_dim ← dim_from_trailing checks rhs full_rank offset
    dim ← broadcast_dim offset lhs_dim rhs_dim
    rest ← broadcast_rounds lhs rhs full_rank rounds (suc offset)
    ok (dim ∷ rest)

  unfoldable pub broadcast_shape_slices : List ℕ → List ℕ → Result (List ℕ)
  broadcast_shape_slices lhs rhs =
      let full_rank = max (length lhs) (length rhs) in
      broadcast_rounds lhs rhs full_rank full_rank 0

  unfoldable pub broadcast_shape : TensorType → TensorType → Result (List ℕ)
  broadcast_shape lhs rhs = broadcast_shape_slices lhs.shape rhs.shape

unfoldable pub expect_axis : TensorType → ℕ → Result (Unit {0})
unfolding rank
expect_axis input axis = require (ltb axis (rank input)) (axis_out_of_bounds axis input.shape)

unfoldable pub reduction_output_type : TensorType → AxisSpec → Result TensorType
reduction_output_type input AxisSpec.all = ok (record { elem = input.elem; shape = [] })
reduction_output_type input (AxisSpec.one axis) = do
  expect_axis input axis
  (_, shape) ← remove input.shape axis
  ok (record { elem = input.elem; shape = shape })

unfoldable pub expect_non_empty_reduction :
    Bool → TensorType → AxisSpec → String → Result (Unit {0})
expect_non_empty_reduction checks input (AxisSpec.one axis) op_name = do
  expect_axis input axis
  dim ← index input.shape axis
  reject_if (dim == 0) (about op_name "cannot reduce an empty axis")
expect_non_empty_reduction checks input AxisSpec.all op_name = do
  count ← element_count checks input
  reject_if (count == 0) (about op_name "cannot reduce an empty tensor")

unfoldable pub expect_arity : CallOp → List TensorType → ℕ → Result (Unit {0})
unfolding name
expect_arity op args expected =
    require (length args == expected) (arity (name op) expected (length args))

unfoldable pub expect_float : CallOp → ElementType → Result (Unit {0})
unfolding is_float name
expect_float op elem =
    require (is_float elem) (about (name op) "supports floating-point tensors only")

unfoldable pub expect_numeric_element : ElementType → String → Result (Unit {0})
unfolding is_numeric
expect_numeric_element elem op_name =
    require (is_numeric elem) (about op_name "supports numeric tensors only")

unfoldable pub expect_ordered_element : ElementType → String → Result (Unit {0})
unfolding is_numeric is_bool
expect_ordered_element elem op_name =
    require (is_numeric elem || is_bool elem)
      (about op_name "supports ordered tensor elements only")

unfoldable pub expect_index_element : ElementType → String → Result (Unit {0})
expect_index_element ElementType.i32 op_name = ok tt
expect_index_element ElementType.i64 op_name = ok tt
expect_index_element _ op_name = err (about op_name "must be i32 or i64")

unfoldable pub expect_bool_element : ElementType → String → Result (Unit {0})
unfolding is_bool
expect_bool_element elem op_name =
    require (is_bool elem) (about op_name "supports bool tensors only")
