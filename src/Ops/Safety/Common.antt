-- ===== src/Ops/Safety/Common.antt =====
-- Postconditions of the checks and rules of crates/knok-core/src/ops/common.rs.
use knok.Base.{
  ℕ, ◌<◌, ◌≡◌, ◌⊎◌, inl, inr, refl, ◌∙◌, Bool, true, List, [], length, remove_at, product, String,
  ltb→lt, ==_iff, arith,
}
use knok.Base.Ensures.{
  Ensures, returns, throws, ◌⟫◌, weaken, of_Runs, require-Ensures, reject_if-Ensures, index-Ensures,
  remove-Ensures, product-Ensures,
}
use knok.Ast.Types.{ElementType, TensorType, rank, AxisSpec, is_float, is_bool, is_numeric}
use knok.Ast.Op.{CallOp}
use knok.Ops.Common.{
  expect_axis, reduction_output_type, expect_non_empty_reduction, element_count, expect_arity,
  expect_float, expect_numeric_element, expect_ordered_element, expect_index_element,
  expect_bool_element, broadcast_shape_slices,
}
use knok.Ops.Broadcast.{Broadcasts, broadcast_shape_slices_iff, broadcast_shape_slices-Runs}

module _ {c : Bool} where
  pub expect_axis-Ensures :
      (input : TensorType) (axis : ℕ)
      → Ensures c (λ _. axis < length input.shape) (expect_axis input axis)
  unfolding expect_axis rank
  expect_axis-Ensures input axis = weaken (require-Ensures _ _) (λ _ e. ltb→lt _ _ e)

  pub expect_arity-Ensures :
      (op : CallOp) (args : List TensorType) (n : ℕ)
      → Ensures c (λ _. length args ≡ n) (expect_arity op args n)
  unfolding expect_arity
  expect_arity-Ensures op args n = weaken (require-Ensures _ _) (λ _ e. (==_iff _ _).0 e)

  pub expect_numeric-Ensures :
      (elem : ElementType) (op_name : String)
      → Ensures c (λ _. is_numeric elem ≡ true) (expect_numeric_element elem op_name)
  unfolding expect_numeric_element
  expect_numeric-Ensures elem op_name = require-Ensures _ _

  pub expect_bool-Ensures :
      (elem : ElementType) (op_name : String)
      → Ensures c (λ _. is_bool elem ≡ true) (expect_bool_element elem op_name)
  unfolding expect_bool_element
  expect_bool-Ensures elem op_name = require-Ensures _ _

  pub expect_float-Ensures :
      (op : CallOp) (elem : ElementType)
      → Ensures c (λ _. is_float elem ≡ true) (expect_float op elem)
  unfolding expect_float
  expect_float-Ensures op elem = require-Ensures _ _

  pub expect_ordered-Ensures :
      (elem : ElementType) (op_name : String)
      → Ensures c (λ _. Unit {0}) (expect_ordered_element elem op_name)
  unfolding expect_ordered_element
  expect_ordered-Ensures elem op_name = weaken (require-Ensures _ _) (λ _ _. tt)

  pub expect_index-Ensures :
      (elem : ElementType) (op_name : String)
      → Ensures c
          (λ _. (elem ≡ ElementType.i32) ⊎ (elem ≡ ElementType.i64))
          (expect_index_element elem op_name)
  unfolding expect_index_element
  expect_index-Ensures ElementType.i32 op_name = returns (inl refl)
  expect_index-Ensures ElementType.i64 op_name = returns (inr refl)
  expect_index-Ensures _ op_name = throws

-- The shape that a reduction leaves.
abbrev pub reduced : List ℕ → AxisSpec → List ℕ
reduced shape AxisSpec.all = []
reduced shape (AxisSpec.one axis) = remove_at shape axis

module _ (c : Bool) where
  pub reduction_output_type-Ensures :
      (input : TensorType) (axis : AxisSpec)
      → Ensures c
          (λ out. (out.elem ≡ input.elem) × (out.shape ≡ reduced input.shape axis))
          (reduction_output_type input axis)
  unfolding reduction_output_type
  reduction_output_type-Ensures input AxisSpec.all = returns (refl, refl)
  reduction_output_type-Ensures input (AxisSpec.one axis) = expect_axis-Ensures input axis ⟫ λ _ lt.
      remove-Ensures input.shape axis lt ⟫ λ p e. returns (refl, e.1)

  pub element_count-Ensures :
      (ty : TensorType) → Ensures c (λ n. c ≡ true → n ≡ product ty.shape) (element_count c ty)
  unfolding element_count
  element_count-Ensures ty = weaken (product-Ensures c 1 ty.shape) (λ n p on. p on ∙ omega arith)

  pub expect_non_empty_reduction-Ensures :
      (input : TensorType) (axis : AxisSpec) (op_name : String)
      → Ensures c (λ _. Unit {0}) (expect_non_empty_reduction c input axis op_name)
  unfolding expect_non_empty_reduction
  expect_non_empty_reduction-Ensures input AxisSpec.all op_name =
      element_count-Ensures input ⟫ λ n _. weaken (reject_if-Ensures _ _) (λ _ _. tt)
  expect_non_empty_reduction-Ensures input (AxisSpec.one axis) op_name =
      expect_axis-Ensures input axis ⟫ λ _ lt.
      index-Ensures input.shape axis lt ⟫ λ d _. weaken (reject_if-Ensures _ _) (λ _ _. tt)

  pub broadcast-Ensures : (l r : List ℕ) → Ensures c (Broadcasts l r) (broadcast_shape_slices c l r)
  broadcast-Ensures l r =
      weaken (of_Runs c _ (broadcast_shape_slices-Runs c l r))
        (λ s e. (broadcast_shape_slices_iff c l r s).0 e)
