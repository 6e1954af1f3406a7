-- ===== src/Ops/Matmul.antt =====
-- crates/knok-core/src/ops/matmul.rs.
use knok.Base.{
  ℕ, Bool, List, [], ◌∷◌, ◌++◌, length, ltb, ◌==◌, not, ◌||◌, if◌then◌else◌, Result, ok, message,
  inside, ◌>>=◌, ◌>>◌, reject_if, map_err,
}
use knok.Base.Usize.{sub_usize}
use knok.Base.Vec.{index, slice_to}
use knok.Ast.Types.{TensorType, rank, elem_eq}
use knok.Ops.Common.{broadcast_shape_slices, expect_numeric_element}

abbrev pub max_tensor_rank : ℕ
max_tensor_rank = 6

module _ (checks : Bool) where
  -- The dimension at `rank - back`.
  unfoldable pub dim_from_end : TensorType → ℕ → Result ℕ
  unfolding rank
  dim_from_end t back = do place ← sub_usize checks (rank t) back; index t.shape place

  -- `&shape[..rank - 2]` above rank 2, and no dimension else.
  unfoldable pub batch_dims : TensorType → Result (List ℕ)
  unfolding rank
  batch_dims t =
      if ltb 2 (rank t) then (sub_usize checks (rank t) 2 >>= λ n. slice_to t.shape n) else ok []

  -- `if !is_vector { shape.push(shape[rank - back]) }`.
  unfoldable pub push_unless : Bool → TensorType → ℕ → List ℕ → Result (List ℕ)
  push_unless is_vector t back shape =
      if is_vector then ok shape else (dim_from_end t back >>= λ dim. ok (shape ++ dim ∷ []))

  unfoldable pub matmul_result_type : TensorType → TensorType → Result TensorType
  unfolding rank
  matmul_result_type lhs rhs = do
    reject_if (not (elem_eq lhs.elem rhs.elem))
        (message "matmul expects operands with the same element type")
    expect_numeric_element lhs.elem "matmul"
    reject_if (rank lhs == 0 || rank rhs == 0)
        (message "matmul expects operands with rank at least 1")
    reject_if (ltb max_tensor_rank (rank lhs) || ltb max_tensor_rank (rank rhs))
        (message "matmul currently supports ranks 1 through 6")
    let lhs_is_vector = rank lhs == 1
    let rhs_is_vector = rank rhs == 1
    lhs_k ← if lhs_is_vector then index lhs.shape 0 else dim_from_end lhs 1
    rhs_k ← if rhs_is_vector then index rhs.shape 0 else dim_from_end rhs 2
    reject_if (not (lhs_k == rhs_k)) (message "matmul inner dimensions must match")
    lhs_batch ← batch_dims lhs
    rhs_batch ← batch_dims rhs
    batch ←
        map_err (inside "matmul batch dimensions are not broadcastable")
          (broadcast_shape_slices checks lhs_batch rhs_batch)
    rows ← push_unless lhs_is_vector lhs 2 batch
    shape ← push_unless rhs_is_vector rhs 1 rows
    reject_if (ltb max_tensor_rank (length shape))
        (message "matmul result rank exceeds the current Tensor6 limit")
    ok (record { elem = lhs.elem; shape = shape })
