-- ===== src/Contracts/Examples/Joins.antt =====
-- A concatenation, a stack, a take and two gathers.
use knok.Base.{
  ℕ, ◌+◌, ◌≡◌, ◌<◌, ◌≤◌, refl, true, [], ◌∷◌, some, length, get_elem?, set, remove_at, insert_at,
  ok,
}
use knok.Base.Usize.{fit, add_usize, mul_usize}
use knok.Base.Vec.{index, remove, insert, slice_to, slice_from}
use knok.Ast.Types.{ElementType, TensorType, rank, elem_eq, shape_eq, type_eq}
use knok.Ops.Common.{expect_axis, expect_index_element}
use knok.Ops.Layout.{
  concat_rounds, concat_result_type, stack_result_type, take_result_type, gather_result_type,
  take_along_rounds, take_along_axis_result_type,
}
use knok.Contracts.Joins.{concat_result_type_lem, stack_result_type_lem, take_result_type_lem}

abbrev upper : TensorType
upper = record { elem = ElementType.f32; shape = 2 ∷ 3 ∷ [] }

abbrev lower : TensorType
lower = record { elem = ElementType.f32; shape = 2 ∷ 5 ∷ [] }

abbrev joined : TensorType
joined = record { elem = ElementType.f32; shape = 2 ∷ 8 ∷ [] }

abbrev piled : TensorType
piled = record { elem = ElementType.f32; shape = 2 ∷ 3 ∷ 2 ∷ [] }

abbrev row : TensorType
row = record { elem = ElementType.f32; shape = 3 ∷ [] }

abbrev places : TensorType
places = record { elem = ElementType.i64; shape = 7 ∷ 9 ∷ [] }

abbrev picked : TensorType
picked = record { elem = ElementType.f32; shape = 2 ∷ 7 ∷ 9 ∷ [] }

abbrev along : TensorType
along = record { elem = ElementType.i32; shape = 2 ∷ 9 ∷ [] }

abbrev aligned : TensorType
aligned = record { elem = ElementType.f32; shape = 2 ∷ 9 ∷ [] }

concat_runs : concat_result_type true upper lower 1 ≡ ok joined
unfolding rank elem_eq expect_axis index fit add_usize concat_rounds concat_result_type
concat_runs = refl

concat_example :
    (upper.elem ≡ lower.elem)
    × (joined.elem ≡ upper.elem)
    × ((a : ℕ) × (b : ℕ) × (get_elem? upper.shape 1 ≡ some a)
        × (lower.shape ≡ set upper.shape 1 b)
        × (joined.shape ≡ set upper.shape 1 (a + b)))
concat_example = concat_result_type_lem upper lower 1 joined concat_runs

stack_runs : stack_result_type upper upper 2 ≡ ok piled
unfolding rank elem_eq shape_eq type_eq index insert fit add_usize mul_usize stack_result_type
stack_runs = refl

stack_example :
    (upper ≡ upper)
    × (2 ≤ length upper.shape)
    × (piled ≡ record upper { shape = insert_at upper.shape 2 2 })
stack_example = stack_result_type_lem upper upper 2 piled stack_runs

take_runs : take_result_type upper 0 1 ≡ ok row
unfolding rank expect_axis index remove fit add_usize mul_usize take_result_type
take_runs = refl

take_example :
    ((d : ℕ) × (get_elem? upper.shape 0 ≡ some d) × (1 < d))
    × (row ≡ record upper { shape = remove_at upper.shape 0 })
take_example = take_result_type_lem upper 0 1 row take_runs

gather_runs : gather_result_type upper places picked 1 ≡ ok picked
unfolding rank elem_eq shape_eq expect_axis expect_index_element index slice_to slice_from
    gather_result_type
gather_runs = refl

take_along_axis_runs : take_along_axis_result_type upper along 1 ≡ ok aligned
unfolding rank expect_axis expect_index_element index take_along_rounds take_along_axis_result_type
take_along_axis_runs = refl
