-- ===== src/Contracts/Layouts.antt =====
-- Slices, padding, tiles, repetitions and splits, with overflow checks: crates/knok-core/src/ops/rules.rs.
use knok.Base.{
  ℕ, ◌*◌, ◌≡◌, ◌⊎◌, refl, ◌∙◌, ap, true, List, [], ◌∷◌, some, length, get_elem?, set, sum, map, ok,
}
use knok.Base.Ensures.{value_of}
use knok.Ast.Types.{TensorType}
use knok.Ops.Layout.{
  validate_slice, validate_pad, tile_result_type, repeat_result_type, split_result_types,
  validate_squeeze, validate_unsqueeze, drop_ones,
}
use knok.Ops.Safety.Layouts.{
  Within, scaled, validate_slice-Ensures, validate_pad-Ensures, tile_result_type-Ensures,
  repeat_result_type-Ensures, split_result_types-Ensures,
}
use knok.Ops.Safety.Joins.{validate_squeeze-Ensures, validate_unsqueeze-Ensures}

-- With overflow checks, a slice that is accepted keeps the element type and the rank, and every
-- window `start .. start + size` lies inside its dimension.
pub validate_slice_lem :
    (input target : TensorType) (starts : List ℕ)
    → validate_slice true input target starts ≡ ok tt
    → (input.elem ≡ target.elem)
      × (length input.shape ≡ length target.shape)
      × (length starts ≡ length input.shape)
      × Within starts target.shape input.shape
validate_slice_lem input target starts h =
    let (e, r, s, w) = value_of (validate_slice-Ensures true input target starts) h in
    (e, r, s, w refl)

-- With overflow checks, a padding that is accepted keeps the element type and the rank, and the
-- input, moved by the low edges, lies inside the target.
pub validate_pad_lem :
    (input target : TensorType) (lows : List ℕ)
    → validate_pad true input target lows ≡ ok tt
    → (input.elem ≡ target.elem)
      × (length input.shape ≡ length target.shape)
      × (length lows ≡ length input.shape)
      × Within input.shape lows target.shape
validate_pad_lem input target lows h =
    let (e, r, s, w) = value_of (validate_pad-Ensures true input target lows) h in (e, r, s, w refl)

-- With overflow checks, a tiling that is accepted has one multiple per dimension, and multiplies
-- each dimension by its own.
pub tile_result_type_lem :
    (input : TensorType) (multiples : List ℕ) (out : TensorType)
    → tile_result_type true input multiples ≡ ok out
    → (out.elem ≡ input.elem)
      × (length multiples ≡ length input.shape)
      × (out.shape ≡ scaled input.shape multiples)
tile_result_type_lem input multiples out h =
    let (e, l, s) = value_of (tile_result_type-Ensures true input multiples) h in (e, l, s refl)

-- With overflow checks, a repetition that is accepted multiplies the dimension at the axis by the
-- count, and changes nothing else.
pub repeat_result_type_lem :
    (input : TensorType) (axis count : ℕ) (out : TensorType)
    → repeat_result_type true input axis count ≡ ok out
    → (out.elem ≡ input.elem)
      × ((d : ℕ) × (get_elem? input.shape axis ≡ some d)
          × (out.shape ≡ set input.shape axis (d * count)))
repeat_result_type_lem input axis count out h =
    let (e, (d, n, p, q, s)) = value_of (repeat_result_type-Ensures true input axis count) h in
    (e, (d, p, s ∙ ap (set input.shape axis) (q refl)))

-- With overflow checks, the sections of a split that is accepted sum to the dimension at the axis,
-- and each result is the input with its section there.
pub split_result_types_lem :
    (input : TensorType) (axis : ℕ) (sections : List ℕ) (outs : List TensorType)
    → split_result_types true input axis sections ≡ ok outs
    → (get_elem? input.shape axis ≡ some (sum sections))
      × (outs ≡ map (λ s. record input { shape = set input.shape axis s }) sections)
split_result_types_lem input axis sections outs h =
    let (_, s, o) = value_of (split_result_types-Ensures true input axis sections) h in (s refl, o)

-- A squeeze that is accepted keeps the element type, and its target is the input without the
-- dimensions of length 1.
pub validate_squeeze_lem :
    (input target : TensorType)
    → validate_squeeze input target ≡ ok tt
    → (input.elem ≡ target.elem) × (drop_ones input.shape ≡ target.shape)
validate_squeeze_lem input target h = value_of (validate_squeeze-Ensures true input target) h

-- An unsqueeze that is accepted keeps the element type, and either its target without the
-- dimensions of length 1 is the input, or the input is [1] and the target has no other length.
pub validate_unsqueeze_lem :
    (input target : TensorType)
    → validate_unsqueeze input target ≡ ok tt
    → (input.elem ≡ target.elem)
      × ((drop_ones target.shape ≡ input.shape)
          ⊎ ((input.shape ≡ 1 ∷ []) × (drop_ones target.shape ≡ [])))
validate_unsqueeze_lem input target h = value_of (validate_unsqueeze-Ensures true input target) h
