-- ===== src/Ops/Permute.antt =====
-- Permutations of axes: crates/knok-core/src/ops/permute.rs and the functions of
-- crates/knok-core/src/ops/rules.rs that reorder dimensions.
use knok.Base.{
  ℕ, Bool, true, false, List, [], ◌∷◌, String, length, replicate, range_from, reverse, leb, ◌==◌,
  not, ◌||◌, Result, ok, Error, message, about, ◌>>=◌, ◌>>◌, reject_if, traverse,
}
use knok.Base.Vec.{index, store, remove, insert, swap}
use knok.Ast.Types.{TensorType, rank, elem_eq, shape_eq}
use knok.Ops.Common.{expect_axis}

-- The loop of all three validators: each axis must be in range and not seen before. Their messages
-- differ.
unfoldable pub check_axes : Error → Error → ℕ → List Bool → List ℕ → Result (Unit {0})
check_axes outside twice full_rank seen [] = ok tt
check_axes outside twice full_rank seen (axis ∷ axes) = do
  reject_if (leb full_rank axis) outside
  before ← index seen axis
  reject_if before twice
  seen' ← store seen axis true
  check_axes outside twice full_rank seen' axes

-- `axes.iter().map(|axis| shape[*axis])`.
unfoldable pub select_dims : List ℕ → List ℕ → Result (List ℕ)
select_dims shape axes = traverse (index shape) axes

unfoldable pub validate_permute : TensorType → TensorType → List ℕ → Result (Unit {0})
unfolding rank
validate_permute input target axes = do
  reject_if (not (elem_eq input.elem target.elem))
      (message "permute input and output element types must match")
  reject_if (not (length axes == rank input) || not (rank target == rank input))
      (message "permute expects one axis per input dimension and equal input/output rank")
  check_axes (about "permute" "axes must be a permutation")
      (about "permute" "axes must be a permutation") (rank input) (replicate (rank input) false)
      axes
  expected ← select_dims input.shape axes
  reject_if (not (shape_eq expected target.shape))
      (message "permute target shape does not match input shape")

unfoldable pub validate_axis_permutation : TensorType → List ℕ → String → Result (Unit {0})
unfolding rank
validate_axis_permutation input axes op_name = do
  reject_if (not (length axes == rank input)) (about op_name "expects one axis per input dimension")
  check_axes (about op_name "axes must be a permutation")
      (about op_name "axes must be a permutation") (rank input) (replicate (rank input) false) axes

-- An empty list stands for every axis.
unfoldable pub validate_axis_list : TensorType → List ℕ → String → Result (Unit {0})
unfolding rank
validate_axis_list input axes op_name =
    let listed : List ℕ = elim axes [
      | [] ↦ range_from 0 (rank input)
      | axis ∷ rest ↦ axis ∷ rest
    ] in
    check_axes (about op_name "axis is out of bounds")
      (about op_name "axes must not contain duplicates") (rank input) (replicate (rank input) false)
      listed

unfoldable pub permute_dims_result_type : TensorType → List ℕ → String → Result TensorType
permute_dims_result_type input axes op_name = do
  validate_axis_permutation input axes op_name
  shape ← select_dims input.shape axes
  ok (record { elem = input.elem; shape = shape })

unfoldable pub transpose_result_type : TensorType → List ℕ → Result TensorType
transpose_result_type input [] = ok (record input { shape = reverse input.shape })
transpose_result_type input (axis ∷ axes) = permute_dims_result_type input (axis ∷ axes) "transpose"

unfoldable pub swapaxes_result_type : TensorType → ℕ → ℕ → Result TensorType
swapaxes_result_type input axis0 axis1 = do
  expect_axis input axis0
  expect_axis input axis1
  shape ← swap input.shape axis0 axis1
  ok (record { elem = input.elem; shape = shape })

unfoldable pub moveaxis_permutation : ℕ → ℕ → ℕ → Result (List ℕ)
moveaxis_permutation full_rank source destination = do
  reject_if (leb full_rank source || leb full_rank destination)
      (message "moveaxis source and destination must be in bounds")
  (axis, axes) ← remove (range_from 0 full_rank) source
  insert axes destination axis

unfoldable pub moveaxis_result_type : TensorType → ℕ → ℕ → Result TensorType
unfolding rank
moveaxis_result_type input source destination = do
  axes ← moveaxis_permutation (rank input) source destination
  shape ← select_dims input.shape axes
  ok (record { elem = input.elem; shape = shape })
