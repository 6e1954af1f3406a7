-- ===== src/Contracts/Products.antt =====
-- Products, traces and diagonals: crates/knok-core/src/ops/matmul.rs and linalg.rs.
use knok.Base.{
  ℕ, suc, ◌≡◌, ◌<◌, ◌⊎◌, refl, Bool, true, [], ◌∷◌, ◌++◌, Option, some, none, length, remove_at,
  product, ok,
}
use knok.Base.Ensures.{value_of}
use knok.Ast.Types.{TensorType, is_numeric}
use knok.Ops.Matmul.{matmul_result_type}
use knok.Ops.Linalg.{
  remove_axes_shape, vecdot_result_type, inner_result_type, outer_result_type, trace_result_type,
  diagonal_result_type,
}
use knok.Ops.Safety.Products.{Multiplies, matmul_result_type-Ensures}
use knok.Ops.Safety.Inner.{
  SameNumeric, InnerShape, Diagonal, Chosen, vecdot_result_type-Ensures, inner_result_type-Ensures,
  outer_result_type-Ensures, trace_result_type-Ensures, diagonal_result_type-Ensures,
}

module _ (c : Bool) where
  -- With or without overflow checks, a matrix product that is accepted contracts one equal
  -- dimension, broadcasts the batches, keeps the rows of the left operand and the columns of the
  -- right one, has at most 6 dimensions, and has the operands' element type.
  pub matmul_result_type_lem :
      (l r out : TensorType) → matmul_result_type c l r ≡ ok out → Multiplies l r out
  matmul_result_type_lem l r out h = value_of (matmul_result_type-Ensures c l r) h

  -- An inner product that is accepted has operands of one numeric element type, which the result
  -- keeps, and the shape of the inner product of the operands' shapes.
  pub inner_result_type_lem :
      (l r out : TensorType)
      → inner_result_type c l r ≡ ok out
      → SameNumeric l r × (out.elem ≡ l.elem) × InnerShape l.shape r.shape out.shape
  inner_result_type_lem l r out h = value_of (inner_result_type-Ensures c l r) h

  -- A vector dot product that is accepted has operands of one numeric element type and one shape,
  -- and drops one dimension: the axis that is given, or else the last.
  pub vecdot_result_type_lem :
      (l r : TensorType) (axis : Option ℕ) (out : TensorType)
      → vecdot_result_type c l r axis ≡ ok out
      → SameNumeric l r
        × (l.shape ≡ r.shape)
        × (out.elem ≡ l.elem)
        × ((place : ℕ) × (place < length l.shape)
            × (out.shape ≡ remove_at l.shape place)
            × ((axis ≡ some place) ⊎ ((axis ≡ none) × (suc place ≡ length l.shape))))
  vecdot_result_type_lem l r axis out h = value_of (vecdot_result_type-Ensures c l r axis) h

  -- A trace that is accepted takes two different axes of one length, those that are given or else
  -- the last two, and drops both.
  pub trace_result_type_lem :
      (input : TensorType) (axes : Option (ℕ × ℕ)) (out : TensorType)
      → trace_result_type c input axes ≡ ok out
      → (is_numeric input.elem ≡ true)
        × (out.elem ≡ input.elem)
        × ((axis0 : ℕ) × (axis1 : ℕ) × (n : ℕ) × Chosen axes input.shape axis0 axis1
            × Diagonal input.shape axis0 axis1 n
            × (out.shape ≡ remove_axes_shape input axis0 axis1))
  trace_result_type_lem input axes out h = value_of (trace_result_type-Ensures c input axes) h

  -- A diagonal that is accepted takes two different axes of one length, those that are given or
  -- else the last two, drops both and appends that length.
  pub diagonal_result_type_lem :
      (input : TensorType) (axes : Option (ℕ × ℕ)) (out : TensorType)
      → diagonal_result_type c input axes ≡ ok out
      → (out.elem ≡ input.elem)
        × ((axis0 : ℕ) × (axis1 : ℕ) × (n : ℕ) × Chosen axes input.shape axis0 axis1
            × Diagonal input.shape axis0 axis1 n
            × (out.shape ≡ remove_axes_shape input axis0 axis1 ++ n ∷ []))
  diagonal_result_type_lem input axes out h = value_of (diagonal_result_type-Ensures c input axes) h

-- With overflow checks, an outer product that is accepted is the matrix of the operands' element
-- counts, in their numeric element type.
pub outer_result_type_lem :
    (l r out : TensorType)
    → outer_result_type true l r ≡ ok out
    → SameNumeric l r × (out.elem ≡ l.elem) × (out.shape ≡ product l.shape ∷ product r.shape ∷ [])
outer_result_type_lem l r out h =
    let (s, e, _, p) = value_of (outer_result_type-Ensures true l r) h in (s, e, p refl)
