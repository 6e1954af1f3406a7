-- ===== src/Contracts/Orders.antt =====
-- Orders of the dimensions: crates/knok-core/src/ops/permute.rs and the permutations of rules.rs.
use knok.Base.{ℕ, ◌≡◌, true, List, some, length, get_elem?, set, remove_at, insert_at, ok, String}
use knok.Base.Ensures.{value_of}
use knok.Ast.Types.{TensorType}
use mathlib.Core.List.{Perm}
use knok.Ops.Permute.{
  validate_permute, permute_dims_result_type, transpose_result_type, swapaxes_result_type,
  moveaxis_result_type,
}
use knok.Ops.Safety.Reorder.{
  Permutes, Reorders, ReordersBy, Takes, validate_permute-Ensures, permute_dims_result_type-Ensures,
  transpose_result_type-Ensures, swapaxes_result_type-Ensures,
}
use knok.Ops.Safety.MoveAxis.{moveaxis_result_type-Ensures}

-- A permute that is accepted has axes that name each place once, and a target with the input's
-- element type and a rearrangement of its dimensions: at each place, the input's dimension at the axis
-- of that place.
pub validate_permute_lem :
    (input target : TensorType) (axes : List ℕ)
    → validate_permute input target axes ≡ ok tt
    → (input.elem ≡ target.elem)
      × Permutes (length input.shape) axes
      × Perm input.shape target.shape
      × Takes input.shape axes target.shape
validate_permute_lem input target axes h =
    value_of (validate_permute-Ensures true input target axes) h

-- The axes of an accepted `permute_dims` name each place once, and its result keeps the element type
-- and rearranges the dimensions: at each place, the input's dimension at the axis of that place.
pub permute_dims_result_type_lem :
    (input : TensorType) (axes : List ℕ) (op_name : String) (out : TensorType)
    → permute_dims_result_type input axes op_name ≡ ok out
    → ReordersBy input axes out
permute_dims_result_type_lem input axes op_name out h =
    value_of (permute_dims_result_type-Ensures true input axes op_name) h

-- The result of `transpose`, with axes or without, keeps the element type and rearranges the dimensions.
pub transpose_result_type_lem :
    (input : TensorType) (axes : List ℕ) (out : TensorType)
    → transpose_result_type input axes ≡ ok out
    → Reorders input out
transpose_result_type_lem input axes out h =
    value_of (transpose_result_type-Ensures true input axes) h

-- The result of `swapaxes` has the dimensions at the two axes exchanged, and is else the input.
pub swapaxes_result_type_lem :
    (input : TensorType) (axis0 axis1 : ℕ) (out : TensorType)
    → swapaxes_result_type input axis0 axis1 ≡ ok out
    → (out.elem ≡ input.elem)
      × ((a : ℕ) × (b : ℕ) × (get_elem? input.shape axis0 ≡ some a)
          × (get_elem? input.shape axis1 ≡ some b)
          × (out.shape ≡ set (set input.shape axis0 b) axis1 a))
swapaxes_result_type_lem input axis0 axis1 out h =
    value_of (swapaxes_result_type-Ensures true input axis0 axis1) h

-- The result of `moveaxis` is the input with the dimension at the source taken out and put back at
-- the destination.
pub moveaxis_result_type_lem :
    (input : TensorType) (source destination : ℕ) (out : TensorType)
    → moveaxis_result_type input source destination ≡ ok out
    → (out.elem ≡ input.elem)
      × ((d : ℕ) × (get_elem? input.shape source ≡ some d)
          × (out.shape ≡ insert_at (remove_at input.shape source) destination d))
moveaxis_result_type_lem input source destination out h =
    value_of (moveaxis_result_type-Ensures true input source destination) h
