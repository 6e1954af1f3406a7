-- ===== src/Ops/Layout.antt =====
-- crates/knok-core/src/ops/rules.rs: slices, joins, repetitions and lookups along an axis.
use knok.Base.{
  ℕ, zero, suc, Bool, List, [], ◌∷◌, ◌++◌, length, ltb, leb, ◌==◌, not, ◌&&◌, ◌||◌, if◌then◌else◌,
  Result, ok, message, about, at_dim, ◌>>=◌, ◌>>◌, reject_if, require, map_err, traverse,
}
use knok.Base.Usize.{add_usize, mul_usize, sum_from}
use knok.Base.Vec.{index, store, remove, insert, slice_to, slice_from}
use knok.Ast.Types.{TensorType, rank, elem_eq, shape_eq, type_eq}
use knok.Ops.Common.{expect_axis, expect_index_element}

-- `shape.iter().filter(|dim| dim != 1)`.
unfoldable pub drop_ones : List ℕ → List ℕ
drop_ones [] = []
drop_ones (dim ∷ dims) = if dim == 1 then drop_ones dims else dim ∷ drop_ones dims

unfoldable pub take_result_type : TensorType → ℕ → ℕ → Result TensorType
take_result_type input axis place = do
  expect_axis input axis
  dim ← index input.shape axis
  reject_if (leb dim place) (about "take" "index is out of bounds")
  (_, shape) ← remove input.shape axis
  ok (record { elem = input.elem; shape = shape })

unfoldable pub gather_result_type : TensorType → TensorType → TensorType → ℕ → Result TensorType
gather_result_type input indices target axis = do
  expect_axis input axis
  expect_index_element indices.elem "gather indices"
  reject_if (not (elem_eq input.elem target.elem))
      (message "gather input and output element types must match")
  before ← slice_to input.shape axis
  after ← slice_from input.shape (suc axis)
  reject_if (not (shape_eq (before ++ (indices.shape ++ after)) target.shape))
      (message "gather output shape must be input prefix + index shape + input suffix")
  ok target

-- The rounds of `for dim_axis in 0..rank` that are left.
unfoldable pub take_along_rounds : ℕ → List ℕ → List ℕ → ℕ → ℕ → Result (Unit {0})
take_along_rounds axis input_dims index_dims zero dim_axis = ok tt
take_along_rounds axis input_dims index_dims (suc rounds) dim_axis = do
  input_dim ← index input_dims dim_axis
  index_dim ← index index_dims dim_axis
  reject_if (not (dim_axis == axis) && not (input_dim == index_dim))
      (at_dim "take_along_axis" dim_axis)
  take_along_rounds axis input_dims index_dims rounds (suc dim_axis)

unfoldable pub take_along_axis_result_type : TensorType → TensorType → ℕ → Result TensorType
unfolding rank
take_along_axis_result_type input indices axis = do
  expect_axis input axis
  expect_index_element indices.elem "take_along_axis indices"
  reject_if (not (rank input == rank indices))
      (message "take_along_axis expects input and indices to have equal rank")
  take_along_rounds axis input.shape indices.shape (rank input) 0
  ok (record { elem = input.elem; shape = indices.shape })

unfoldable pub validate_squeeze : TensorType → TensorType → Result (Unit {0})
validate_squeeze input target = do
  reject_if (not (elem_eq input.elem target.elem))
      (message "squeeze input and output element types must match")
  require (shape_eq (drop_ones input.shape) target.shape)
      (message "squeeze target shape does not match input shape")

unfoldable pub validate_unsqueeze : TensorType → TensorType → Result (Unit {0})
validate_unsqueeze input target = do
  reject_if (not (elem_eq input.elem target.elem))
      (message "unsqueeze input and output element types must match")
  let target_dims = drop_ones target.shape
  let input_dims = if shape_eq input.shape (1 ∷ []) then [] else input.shape
  require (shape_eq target_dims input.shape || shape_eq target_dims input_dims)
      (message "unsqueeze target shape must insert only singleton dimensions into input shape")

unfoldable pub stack_result_type : TensorType → TensorType → ℕ → Result TensorType
unfolding rank
stack_result_type lhs rhs axis = do
  reject_if (not (type_eq lhs rhs)) (message "stack expects matching tensor types")
  reject_if (ltb (rank lhs) axis) (message "stack axis is out of bounds")
  shape ← insert lhs.shape axis 2
  ok (record { elem = lhs.elem; shape = shape })

-- The type of one section: the input's, with its axis cut to the section.
unfoldable pub section_type : TensorType → ℕ → ℕ → Result TensorType
section_type input axis section = do
  shape ← store input.shape axis section
  ok (record { elem = input.elem; shape = shape })

module _ (checks : Bool) where
  -- `starts.iter().zip(&target.shape).zip(&input.shape).enumerate()`.
  unfoldable pub slice_rounds : ℕ → List ℕ → List ℕ → List ℕ → Result (Unit {0})
  slice_rounds axis (start ∷ starts) (size ∷ sizes) (input_dim ∷ input_dims) = do
    end ← add_usize checks start size
    reject_if (ltb input_dim end) (at_dim "slice" axis)
    slice_rounds (suc axis) starts sizes input_dims
  slice_rounds axis _ _ _ = ok tt

  unfoldable pub validate_slice : TensorType → TensorType → List ℕ → Result (Unit {0})
  unfolding rank
  validate_slice input target starts = do
    reject_if (not (elem_eq input.elem target.elem))
        (message "slice input and output element types must match")
    reject_if (not (rank input == rank target) || not (length starts == rank input))
        (message "slice expects one start const per dimension and equal input/output rank")
    slice_rounds 0 starts target.shape input.shape

  -- `input.shape.iter().zip(&target.shape).zip(lows).enumerate()`.
  unfoldable pub pad_rounds : ℕ → List ℕ → List ℕ → List ℕ → Result (Unit {0})
  pad_rounds axis (input_dim ∷ input_dims) (target_dim ∷ target_dims) (low ∷ lows) = do
    end ← add_usize checks input_dim low
    reject_if (ltb target_dim end) (at_dim "pad" axis)
    pad_rounds (suc axis) input_dims target_dims lows
  pad_rounds axis _ _ _ = ok tt

  unfoldable pub validate_pad : TensorType → TensorType → List ℕ → Result (Unit {0})
  unfolding rank
  validate_pad input target lows = do
    reject_if (not (elem_eq input.elem target.elem))
        (message "pad input and output element types must match")
    reject_if (not (rank input == rank target) || not (length lows == rank input))
        (message "pad expects one low-padding const per dimension and equal input/output rank")
    pad_rounds 0 input.shape target.shape lows

  -- `for (dim, shape_dim) in shape.iter_mut().enumerate()`, from `dim` on.
  unfoldable pub concat_rounds : ℕ → ℕ → List ℕ → List ℕ → Result (List ℕ)
  concat_rounds axis dim rhs_dims [] = ok []
  concat_rounds axis dim rhs_dims (lhs_dim ∷ lhs_dims) = do
    rhs_dim ← index rhs_dims dim
    shape_dim ←
        if dim == axis
        then add_usize checks lhs_dim rhs_dim
        else (reject_if (not (lhs_dim == rhs_dim)) (at_dim "concat" dim) >> ok lhs_dim)
    rest ← concat_rounds axis (suc dim) rhs_dims lhs_dims
    ok (shape_dim ∷ rest)

  unfoldable pub concat_result_type : TensorType → TensorType → ℕ → Result TensorType
  unfolding rank
  concat_result_type lhs rhs axis = do
    reject_if (not (elem_eq lhs.elem rhs.elem) || not (rank lhs == rank rhs))
        (message "concat expects tensors with the same element type and rank")
    expect_axis lhs axis
    shape ← concat_rounds axis 0 rhs.shape lhs.shape
    ok (record { elem = lhs.elem; shape = shape })

  unfoldable pub split_result_types : TensorType → ℕ → List ℕ → Result (List TensorType)
  split_result_types input axis sections = do
    expect_axis input axis
    total ← sum_from checks 0 sections
    dim ← index input.shape axis
    reject_if (not (total == dim)) (message "split sections do not sum to the axis dimension")
    traverse (section_type input axis) sections

  unfoldable pub tile_rounds : List ℕ → List ℕ → Result (List ℕ)
  tile_rounds (dim ∷ dims) (multiple ∷ multiples) = do
    tiled ← mul_usize checks dim multiple
    rest ← tile_rounds dims multiples
    ok (tiled ∷ rest)
  tile_rounds _ _ = ok []

  unfoldable pub tile_result_type : TensorType → List ℕ → Result TensorType
  unfolding rank
  tile_result_type input multiples = do
    reject_if (not (length multiples == rank input))
        (message "tile expects one multiple per input dimension")
    shape ← tile_rounds input.shape multiples
    ok (record { elem = input.elem; shape = shape })

  unfoldable pub repeat_result_type : TensorType → ℕ → ℕ → Result TensorType
  repeat_result_type input axis count = do
    map_err (λ _. about "repeat" "axis is out of bounds") (expect_axis input axis)
    dim ← index input.shape axis
    repeated ← mul_usize checks dim count
    shape ← store input.shape axis repeated
    ok (record { elem = input.elem; shape = shape })
