-- ===== src/Contracts/Examples/Orders.antt =====
-- Permutations of the dimensions of one block.
use knok.Base.{ℕ, ◌≡◌, refl, [], ◌∷◌, some, length, get_elem?, set, remove_at, insert_at, ok}
use knok.Base.Usize.{fit, add_usize, mul_usize}
use knok.Base.Vec.{index, store, remove, insert, swap}
use knok.Ast.Types.{ElementType, TensorType, rank, elem_eq, shape_eq}
use knok.Ops.Common.{expect_axis}
use knok.Ops.Permute.{
  check_axes, select_dims, validate_permute, validate_axis_permutation, permute_dims_result_type,
  transpose_result_type, swapaxes_result_type, moveaxis_permutation, moveaxis_result_type,
}
use mathlib.Core.List.{Perm}
use knok.Ops.Safety.Reorder.{Permutes, Reorders, ReordersBy, Takes}
use knok.Contracts.Orders.{
  validate_permute_lem, permute_dims_result_type_lem, transpose_result_type_lem,
  swapaxes_result_type_lem, moveaxis_result_type_lem,
}

abbrev block : TensorType
block = record { elem = ElementType.f64; shape = 2 ∷ 3 ∷ 4 ∷ [] }

abbrev turned : TensorType
turned = record { elem = ElementType.f64; shape = 4 ∷ 2 ∷ 3 ∷ [] }

abbrev reversed : TensorType
reversed = record { elem = ElementType.f64; shape = 4 ∷ 3 ∷ 2 ∷ [] }

abbrev swapped : TensorType
swapped = record { elem = ElementType.f64; shape = 4 ∷ 3 ∷ 2 ∷ [] }

abbrev moved : TensorType
moved = record { elem = ElementType.f64; shape = 3 ∷ 4 ∷ 2 ∷ [] }

validate_permute_runs : validate_permute block turned (2 ∷ 0 ∷ 1 ∷ []) ≡ ok tt
unfolding rank elem_eq shape_eq index store check_axes select_dims validate_permute
validate_permute_runs = refl

validate_permute_example :
    (block.elem ≡ turned.elem)
    × Permutes (length block.shape) (2 ∷ 0 ∷ 1 ∷ [])
    × Perm block.shape turned.shape
    × Takes block.shape (2 ∷ 0 ∷ 1 ∷ []) turned.shape
validate_permute_example = validate_permute_lem block turned (2 ∷ 0 ∷ 1 ∷ []) validate_permute_runs

permute_dims_runs : permute_dims_result_type block (2 ∷ 0 ∷ 1 ∷ []) "permute_dims" ≡ ok turned
unfolding rank index store check_axes select_dims validate_axis_permutation permute_dims_result_type
permute_dims_runs = refl

permute_dims_example : ReordersBy block (2 ∷ 0 ∷ 1 ∷ []) turned
permute_dims_example =
    permute_dims_result_type_lem block (2 ∷ 0 ∷ 1 ∷ []) "permute_dims" turned permute_dims_runs

transpose_runs : transpose_result_type block [] ≡ ok reversed
unfolding rank index store check_axes select_dims validate_axis_permutation permute_dims_result_type
    transpose_result_type
transpose_runs = refl

transpose_example : Reorders block reversed
transpose_example = transpose_result_type_lem block [] reversed transpose_runs

swapaxes_runs : swapaxes_result_type block 0 2 ≡ ok swapped
unfolding rank expect_axis index swap swapaxes_result_type
swapaxes_runs = refl

swapaxes_example :
    (swapped.elem ≡ block.elem)
    × ((a : ℕ) × (b : ℕ) × (get_elem? block.shape 0 ≡ some a)
        × (get_elem? block.shape 2 ≡ some b)
        × (swapped.shape ≡ set (set block.shape 0 b) 2 a))
swapaxes_example = swapaxes_result_type_lem block 0 2 swapped swapaxes_runs

moveaxis_runs : moveaxis_result_type block 0 2 ≡ ok moved
unfolding rank index remove insert fit add_usize mul_usize select_dims moveaxis_permutation
    moveaxis_result_type
moveaxis_runs = refl

moveaxis_example :
    (moved.elem ≡ block.elem)
    × ((d : ℕ) × (get_elem? block.shape 0 ≡ some d)
        × (moved.shape ≡ insert_at (remove_at block.shape 0) 2 d))
moveaxis_example = moveaxis_result_type_lem block 0 2 moved moveaxis_runs
