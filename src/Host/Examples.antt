-- ===== src/Host/Examples.antt =====
-- Tensors of the host at concrete values.
use knok.Base.{ℕ, ◌≡◌, refl, false, [], ◌∷◌, some, none, ok, err, panic, shape_differs, arith}
use knok.Base.Usize.{product_from, add_usize, mul_usize}
use knok.Base.Vec.{index, store}
use knok.Host.Data.{TensorData, in_range, offset, place, get_at}
use knok.Host.Data
use knok.Host.Arrays.{Nested, flat_map, flatten, element}
use knok.Host.Tensors.{
  Tensor, TensorElement, from_vec, filled, ones, get, from_array, from_scalar, get_scalar,
  get_scalar_mut, get_vector, get_vector_mut, as_slice, assign_slice,
}
use knok.Host.RowMajor.{get-flatten}
use knok.Host.Writes.{get-write}

-- Two rows of three numbers.
abbrev rows : Nested ℕ (2 ∷ 3 ∷ [])
rows = (1 ∷ 2 ∷ 3 ∷ []) ∷ (4 ∷ 5 ∷ 6 ∷ []) ∷ []

abbrev storage : TensorData ℕ
storage = record { elems = 1 ∷ 2 ∷ 3 ∷ 4 ∷ 5 ∷ 6 ∷ [] }

flattened : from_array ℕ 2 (3 ∷ []) rows ≡ record { storage = storage }
unfolding from_array flatten flat_map
flattened = refl

last : get false (from_array ℕ 2 (3 ∷ []) rows) 1 (2 ∷ []) ≡ ok (some 6)
unfolding from_array flatten flat_map get Data.get place in_range offset get_at index add_usize
    mul_usize
last = refl

-- The row major offset of column 3 is that of the next row, but the column is out of range.
outside : get false (from_array ℕ 2 (3 ∷ []) rows) 0 (3 ∷ []) ≡ ok none
unfolding from_array flatten flat_map get Data.get place in_range offset get_at index add_usize
    mul_usize
outside = refl

-- Five elements are no tensor of shape 2 × 3.
too_short :
    from_vec {T = ℕ} false (2 ∷ 3 ∷ []) (1 ∷ 2 ∷ 3 ∷ 4 ∷ 5 ∷ [])
    ≡ err (shape_differs (2 ∷ 3 ∷ []) (5 ∷ []))
unfolding from_vec Data.from_vec product_from mul_usize
too_short = refl

abbrev number_elements : TensorElement ℕ
number_elements = record { zero_value = 0; one_value = 1 }

all_ones :
    ones false (2 ∷ 2 ∷ []) number_elements
    ≡ ok (record { storage = record { elems = 1 ∷ 1 ∷ 1 ∷ 1 ∷ [] } })
unfolding ones filled Data.filled product_from mul_usize
all_ones = refl

get-flatten_example :
    Data.get false (record { elems = flatten ℕ (3 ∷ []) rows }) 2 (3 ∷ []) 1 (2 ∷ [])
    ≡ ok (element ℕ (2 ∷ 3 ∷ []) rows (1 ∷ 2 ∷ []))
get-flatten_example =
    get-flatten ℕ false 2 (3 ∷ []) rows 1 (2 ∷ []) refl
      (refl, ((refl, (tt, (tt, (tt, tt)))), ((refl, (tt, (tt, (tt, tt)))), tt))) (omega arith)

get-write_example :
    (at : ℕ) × (Data.get_mut false storage 2 (3 ∷ []) 1 (0 ∷ []) ≡ ok (some at))
    × (Data.get false (Data.write storage at 9) 2 (3 ∷ []) 1 (0 ∷ []) ≡ ok (some 9))
    × (Data.get false (Data.write storage at 9) 2 (3 ∷ []) 0 (1 ∷ [])
        ≡ Data.get false storage 2 (3 ∷ []) 0 (1 ∷ []))
unfolding in_range
get-write_example =
    get-write false 2 (3 ∷ []) (omega arith) storage refl 1 (0 ∷ []) (refl, refl) 0 (1 ∷ [])
      (refl, refl) (λ e. cc) 9

-- The scalar, the vector and an assignment through a slice.
scalar_get : get_scalar (from_scalar {T = ℕ} 5) ≡ ok 5
unfolding get_scalar from_scalar index
scalar_get = refl

scalar_place : get_scalar_mut (from_scalar {T = ℕ} 5) ≡ ok 0
unfolding get_scalar_mut from_scalar index
scalar_place = refl

abbrev vector : Tensor ℕ (2 ∷ [])
vector = record { storage = record { elems = 3 ∷ 4 ∷ [] } }

vector_places :
    (get_vector_mut vector 1 ≡ some 1)
    × (get_vector_mut vector 2 ≡ none)
    × (get_vector vector 1 ≡ some 4)
unfolding get_vector_mut get_vector
vector_places = (refl, refl, refl)

slice_assigned :
    (assign_slice vector 1 9 ≡ ok (record { storage = record { elems = 3 ∷ 9 ∷ [] } }))
    × (assign_slice vector 2 9 ≡ panic)
    × (as_slice vector ≡ 3 ∷ 4 ∷ [])
unfolding assign_slice as_slice store
slice_assigned = (refl, refl, refl)
