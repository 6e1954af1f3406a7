-- ===== src/Contracts/Examples/Layouts.antt =====
-- A slice, a padding, a tiling, a repetition, a split, a squeeze and an unsqueeze.
use knok.Base.{ℕ, ◌*◌, ◌≡◌, ◌⊎◌, refl, true, [], ◌∷◌, some, length, get_elem?, set, ok}
use knok.Base.Usize.{fit, add_usize, mul_usize, sum_from}
use knok.Base.Vec.{index, store, insert}
use knok.Ast.Types.{ElementType, TensorType, rank, elem_eq, shape_eq}
use knok.Ops.Common.{expect_axis}
use knok.Ops.Layout.{
  drop_ones, slice_rounds, validate_slice, pad_rounds, validate_pad, tile_rounds, tile_result_type,
  repeat_result_type, section_type, split_result_types, validate_squeeze, validate_unsqueeze,
}
use knok.Ops.Safety.Layouts.{Within, scaled}
use knok.Contracts.Layouts.{
  validate_slice_lem, validate_pad_lem, tile_result_type_lem, repeat_result_type_lem,
  validate_squeeze_lem, validate_unsqueeze_lem,
}

abbrev grid : TensorType
grid = record { elem = ElementType.i32; shape = 4 ∷ 6 ∷ [] }

abbrev part : TensorType
part = record { elem = ElementType.i32; shape = 2 ∷ 3 ∷ [] }

abbrev tiled : TensorType
tiled = record { elem = ElementType.i32; shape = 8 ∷ 18 ∷ [] }

abbrev repeated : TensorType
repeated = record { elem = ElementType.i32; shape = 4 ∷ 12 ∷ [] }

abbrev left_part : TensorType
left_part = record { elem = ElementType.i32; shape = 4 ∷ 2 ∷ [] }

abbrev right_part : TensorType
right_part = record { elem = ElementType.i32; shape = 4 ∷ 4 ∷ [] }

abbrev column : TensorType
column = record { elem = ElementType.i32; shape = 4 ∷ 1 ∷ 6 ∷ 1 ∷ [] }

validate_slice_runs : validate_slice true grid part (2 ∷ 3 ∷ []) ≡ ok tt
unfolding rank elem_eq fit add_usize slice_rounds validate_slice
validate_slice_runs = refl

validate_slice_example :
    (grid.elem ≡ part.elem)
    × (length grid.shape ≡ length part.shape)
    × (length {A = ℕ} (2 ∷ 3 ∷ []) ≡ length grid.shape)
    × Within (2 ∷ 3 ∷ []) part.shape grid.shape
validate_slice_example = validate_slice_lem grid part (2 ∷ 3 ∷ []) validate_slice_runs

validate_pad_runs : validate_pad true part grid (1 ∷ 3 ∷ []) ≡ ok tt
unfolding rank elem_eq fit add_usize pad_rounds validate_pad
validate_pad_runs = refl

validate_pad_example :
    (part.elem ≡ grid.elem)
    × (length part.shape ≡ length grid.shape)
    × (length {A = ℕ} (1 ∷ 3 ∷ []) ≡ length part.shape)
    × Within part.shape (1 ∷ 3 ∷ []) grid.shape
validate_pad_example = validate_pad_lem part grid (1 ∷ 3 ∷ []) validate_pad_runs

tile_runs : tile_result_type true grid (2 ∷ 3 ∷ []) ≡ ok tiled
unfolding rank fit mul_usize tile_rounds tile_result_type
tile_runs = refl

tile_example :
    (tiled.elem ≡ grid.elem)
    × (length {A = ℕ} (2 ∷ 3 ∷ []) ≡ length grid.shape)
    × (tiled.shape ≡ scaled grid.shape (2 ∷ 3 ∷ []))
tile_example = tile_result_type_lem grid (2 ∷ 3 ∷ []) tiled tile_runs

repeat_runs : repeat_result_type true grid 1 2 ≡ ok repeated
unfolding rank expect_axis index store fit mul_usize repeat_result_type
repeat_runs = refl

repeat_example :
    (repeated.elem ≡ grid.elem)
    × ((d : ℕ) × (get_elem? grid.shape 1 ≡ some d) × (repeated.shape ≡ set grid.shape 1 (d * 2)))
repeat_example = repeat_result_type_lem grid 1 2 repeated repeat_runs

split_runs : split_result_types true grid 1 (2 ∷ 4 ∷ []) ≡ ok (left_part ∷ right_part ∷ [])
unfolding rank expect_axis index store fit add_usize sum_from section_type split_result_types
split_runs = refl

validate_squeeze_runs : validate_squeeze column grid ≡ ok tt
unfolding elem_eq shape_eq drop_ones validate_squeeze
validate_squeeze_runs = refl

validate_squeeze_example : (column.elem ≡ grid.elem) × (drop_ones column.shape ≡ grid.shape)
validate_squeeze_example = validate_squeeze_lem column grid validate_squeeze_runs

validate_unsqueeze_runs : validate_unsqueeze grid column ≡ ok tt
unfolding elem_eq shape_eq index insert fit add_usize mul_usize drop_ones validate_unsqueeze
validate_unsqueeze_runs = refl

validate_unsqueeze_example :
    (grid.elem ≡ column.elem)
    × ((drop_ones column.shape ≡ grid.shape)
        ⊎ ((grid.shape ≡ 1 ∷ []) × (drop_ones column.shape ≡ [])))
validate_unsqueeze_example = validate_unsqueeze_lem grid column validate_unsqueeze_runs
