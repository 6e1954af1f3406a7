-- ===== src/Ops/Linalg.antt =====
-- crates/knok-core/src/ops/linalg.rs.
use knok.Base.{
  ℕ, suc, Bool, List, [], ◌∷◌, ◌++◌, Option, none, some, String, length, ltb, ◌==◌, not, ◌&&◌, ◌||◌,
  if◌then◌else◌, Result, ok, message, about, ◌>>=◌, ◌>>◌, reject_if, require,
}
use knok.Base.Usize.{sub_usize}
use knok.Base.Vec.{index, slice_to, remove}
use knok.Ast.Types.{TensorType, rank, elem_eq, shape_eq}
use knok.Ops.Common.{expect_numeric_element, element_count}
use knok.Ops.Matmul.{max_tensor_rank, dim_from_end}

unfoldable pub expect_same_numeric_element : TensorType → TensorType → String → Result (Unit {0})
expect_same_numeric_element lhs rhs op_name = do
  reject_if (not (elem_eq lhs.elem rhs.elem))
      (about op_name "expects operands with the same element type")
  expect_numeric_element lhs.elem op_name

unfoldable pub expect_axis : TensorType → ℕ → String → Result (Unit {0})
unfolding rank
expect_axis input axis op_name =
    require (ltb axis (rank input)) (about op_name "axis is out of bounds")

unfoldable pub expect_matching_dim : ℕ → ℕ → String → Result (Unit {0})
expect_matching_dim lhs rhs name = require (lhs == rhs) (about name "must match")

-- `enumerate()` from `axis` on, without the two axes.
unfoldable pub remove_axes_from : ℕ → List ℕ → ℕ → ℕ → List ℕ
remove_axes_from axis [] axis0 axis1 = []
remove_axes_from axis (dim ∷ dims) axis0 axis1 =
    let rest = remove_axes_from (suc axis) dims axis0 axis1 in
    if not (axis == axis0) && not (axis == axis1) then dim ∷ rest else rest

unfoldable pub remove_axes_shape : TensorType → ℕ → ℕ → List ℕ
remove_axes_shape input axis0 axis1 = remove_axes_from 0 input.shape axis0 axis1

unfoldable pub dot_result_type : TensorType → TensorType → Result TensorType
unfolding rank
dot_result_type lhs rhs = do
  expect_same_numeric_element lhs rhs "dot"
  reject_if (not (rank lhs == 1) || not (rank rhs == 1))
      (message "dot expects rank-1 vector operands")
  lhs_dim ← index lhs.shape 0
  rhs_dim ← index rhs.shape 0
  expect_matching_dim lhs_dim rhs_dim "dot vector dimensions"
  ok (record { elem = lhs.elem; shape = [] })

module _ (checks : Bool) where
  -- `axis.unwrap_or(rank - 1)`, whose argument is computed in either case.
  unfoldable pub default_axis : Option ℕ → TensorType → Result ℕ
  unfolding rank
  default_axis none t = sub_usize checks (rank t) 1
  default_axis (some axis) t = do last ← sub_usize checks (rank t) 1; ok axis

  unfoldable pub vecdot_result_type : TensorType → TensorType → Option ℕ → Result TensorType
  unfolding rank
  vecdot_result_type lhs rhs axis = do
    expect_same_numeric_element lhs rhs "vecdot"
    reject_if (rank lhs == 0 || rank rhs == 0)
        (message "vecdot expects tensor operands with rank at least 1")
    reject_if (not (shape_eq lhs.shape rhs.shape))
        (message "vecdot expects operands with identical shapes")
    chosen ← default_axis axis lhs
    expect_axis lhs chosen "vecdot"
    (_, shape) ← remove lhs.shape chosen
    ok (record { elem = lhs.elem; shape = shape })

  -- `&shape[..rank - 1]`.
  unfoldable pub all_but_last : TensorType → Result (List ℕ)
  unfolding rank
  all_but_last t = do n ← sub_usize checks (rank t) 1; slice_to t.shape n

  unfoldable pub inner_contraction : TensorType → TensorType → Result TensorType
  inner_contraction lhs rhs = do
    lhs_dim ← dim_from_end checks lhs 1
    rhs_dim ← dim_from_end checks rhs 1
    expect_matching_dim lhs_dim rhs_dim "inner contracted dimensions"
    front ← all_but_last lhs
    back ← all_but_last rhs
    let shape = front ++ back
    reject_if (ltb max_tensor_rank (length shape))
        (about "inner" "result rank exceeds the current Tensor6 limit")
    ok (record { elem = lhs.elem; shape = shape })

  unfoldable pub inner_result_type : TensorType → TensorType → Result TensorType
  unfolding rank
  inner_result_type lhs rhs = do
    expect_same_numeric_element lhs rhs "inner"
    let scaled = if rank lhs == 0 then rhs.shape else lhs.shape
    if rank lhs == 0 || rank rhs == 0
        then ok (record { elem = lhs.elem; shape = scaled })
        else inner_contraction lhs rhs

  unfoldable pub outer_result_type : TensorType → TensorType → Result TensorType
  outer_result_type lhs rhs = do
    expect_same_numeric_element lhs rhs "outer"
    lhs_count ← element_count checks lhs
    rhs_count ← element_count checks rhs
    ok (record { elem = lhs.elem; shape = lhs_count ∷ rhs_count ∷ [] })

  -- `axes.unwrap_or([rank - 2, rank - 1])`.
  unfoldable pub default_axes : Option (ℕ × ℕ) → TensorType → Result (ℕ × ℕ)
  unfolding rank
  default_axes axes t = do
    low ← sub_usize checks (rank t) 2
    high ← sub_usize checks (rank t) 1
    ok (elim axes [ none ↦ (low, high) | some (axis0, axis1) ↦ (axis0, axis1) ])

  unfoldable pub default_axis_pair : TensorType → Option (ℕ × ℕ) → String → Result (ℕ × ℕ)
  unfolding rank
  default_axis_pair input axes op_name = do
    reject_if (ltb (rank input) 2) (about op_name "expects a tensor input with rank at least 2")
    (axis0, axis1) ← default_axes axes input
    expect_axis input axis0 op_name
    expect_axis input axis1 op_name
    reject_if (axis0 == axis1) (about op_name "axes must be distinct")
    ok (axis0, axis1)

  unfoldable pub trace_result_type : TensorType → Option (ℕ × ℕ) → Result TensorType
  trace_result_type input axes = do
    expect_numeric_element input.elem "trace"
    (axis0, axis1) ← default_axis_pair input axes "trace"
    dim0 ← index input.shape axis0
    dim1 ← index input.shape axis1
    expect_matching_dim dim0 dim1 "trace diagonal dimensions"
    ok (record { elem = input.elem; shape = remove_axes_shape input axis0 axis1 })

  unfoldable pub diagonal_result_type : TensorType → Option (ℕ × ℕ) → Result TensorType
  diagonal_result_type input axes = do
    (axis0, axis1) ← default_axis_pair input axes "diagonal"
    dim0 ← index input.shape axis0
    dim1 ← index input.shape axis1
    expect_matching_dim dim0 dim1 "diagonal dimensions"
    dim ← index input.shape axis0
    ok (record { elem = input.elem; shape = remove_axes_shape input axis0 axis1 ++ dim ∷ [] })
