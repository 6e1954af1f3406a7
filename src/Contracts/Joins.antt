-- ===== src/Contracts/Joins.antt =====
-- Concatenation, stacks and gathers: crates/knok-core/src/ops/rules.rs.
use knok.Base.{
  ℕ, suc, ◌+◌, ◌≡◌, ◌≢◌, ◌<◌, ◌≤◌, refl, ◌∙◌, ap, true, ◌++◌, some, length, get_elem?, set, take,
  drop, remove_at, insert_at, ok,
}
use knok.Base.Ensures.{value_of}
use knok.Ast.Types.{TensorType}
use knok.Ops.Layout.{
  concat_result_type, stack_result_type, take_result_type, gather_result_type,
  take_along_axis_result_type,
}
use knok.Ops.Safety.Joins.{
  concat_result_type-Ensures, stack_result_type-Ensures, take_result_type-Ensures,
  gather_result_type-Ensures, take_along_axis_result_type-Ensures,
}

-- With overflow checks, the operands of a concatenation that is accepted have one element type and
-- differ at most at the axis, and the result has the sum of the two dimensions there.
pub concat_result_type_lem :
    (l r : TensorType) (axis : ℕ) (out : TensorType)
    → concat_result_type true l r axis ≡ ok out
    → (l.elem ≡ r.elem)
      × (out.elem ≡ l.elem)
      × ((a : ℕ) × (b : ℕ) × (get_elem? l.shape axis ≡ some a)
          × (r.shape ≡ set l.shape axis b)
          × (out.shape ≡ set l.shape axis (a + b)))
concat_result_type_lem l r axis out h =
    let (e, f, (a, b, s, p, q, o, t)) = value_of (concat_result_type-Ensures true l r axis) h in
    (e, f, (a, b, p, q, o ∙ ap (set l.shape axis) (t refl)))

-- The operands of a stack that is accepted are one type, and the result has a dimension of length 2
-- more, at an axis that may be the last place.
pub stack_result_type_lem :
    (l r : TensorType) (axis : ℕ) (out : TensorType)
    → stack_result_type l r axis ≡ ok out
    → (l ≡ r) × (axis ≤ length l.shape) × (out ≡ record l { shape = insert_at l.shape axis 2 })
stack_result_type_lem l r axis out h = value_of (stack_result_type-Ensures true l r axis) h

-- A take that is accepted has its place inside the dimension at the axis, and drops that dimension.
pub take_result_type_lem :
    (input : TensorType) (axis place : ℕ) (out : TensorType)
    → take_result_type input axis place ≡ ok out
    → ((d : ℕ) × (get_elem? input.shape axis ≡ some d) × (place < d))
      × (out ≡ record input { shape = remove_at input.shape axis })
take_result_type_lem input axis place out h =
    value_of (take_result_type-Ensures true input axis place) h

-- A gather that is accepted returns its target, which has the input's element type and the indices'
-- shape in place of the input's dimension at the axis.
pub gather_result_type_lem :
    (input indices target : TensorType) (axis : ℕ) (out : TensorType)
    → gather_result_type input indices target axis ≡ ok out
    → (out ≡ target)
      × (input.elem ≡ target.elem)
      × (axis < length input.shape)
      × (target.shape ≡ take axis input.shape ++ (indices.shape ++ drop (suc axis) input.shape))
gather_result_type_lem input indices target axis out h =
    value_of (gather_result_type-Ensures true input indices target axis) h

-- The operands of a `take_along_axis` that is accepted have one rank and agree at every place but
-- the axis, and the result has the indices' shape and the input's element type.
pub take_along_axis_result_type_lem :
    (input indices : TensorType) (axis : ℕ) (out : TensorType) (i : ℕ)
    → take_along_axis_result_type input indices axis ≡ ok out
    → i < length input.shape
    → i ≢ axis
    → (axis < length input.shape)
      × (length input.shape ≡ length indices.shape)
      × (get_elem? input.shape i ≡ get_elem? indices.shape i)
      × (out ≡ record { elem = input.elem; shape = indices.shape })
take_along_axis_result_type_lem input indices axis out i h lt ne =
    let (p, q, r, e) = value_of (take_along_axis_result_type-Ensures true input indices axis) h in
    (p, q, r i lt ne, e)
