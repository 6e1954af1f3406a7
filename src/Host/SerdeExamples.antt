-- ===== src/Host/SerdeExamples.antt =====
-- Serialised tensors at concrete values.
use knok.Base.{
  ℕ, ◌≡◌, ◌↔◌, refl, false, List, [], ◌∷◌, length, map, reverse, String, Result, ok, err, Error,
  message,
}
use knok.Base.Usize.{mul_usize, product_from}
use knok.Ast.Types.{shape_eq}
use knok.Host.Data
use knok.Host.Tensors.{Tensor, from_vec}
use knok.Host.Serde.{
  visit_str, visit_field, visit_entries, visit_map, visit_seq, serialize, tensor_from_serde_parts,
}
use knok.Host.Entries.{TwoFields}
use knok.Host.Decoding.{visit_map_iff, visit-serialize}

-- A format with lists of numbers and something else.
data Value : Type 0 where
  numbers : List ℕ → Value
  other : Value

abbrev as_numbers : Value → Result (List ℕ)
as_numbers (numbers xs) = ok xs
as_numbers other = err (message "invalid type")

abbrev shape : List ℕ
shape = 2 ∷ 1 ∷ []

abbrev tensor : Tensor ℕ shape
tensor = record { storage = record { elems = 7 ∷ 8 ∷ [] } }

abbrev swapped : List (String × Value)
swapped = ("data", numbers (7 ∷ 8 ∷ [])) ∷ ("shape", numbers shape) ∷ []

counted : product_from false 1 shape ≡ ok 2
unfolding product_from mul_usize
counted = refl

read_back : visit_map as_numbers as_numbers false shape swapped ≡ ok tensor
unfolding visit_map visit_entries visit_str visit_field tensor_from_serde_parts shape_eq from_vec
    Data.from_vec product_from mul_usize
read_back = refl

-- A field that comes again is an error before its value is read.
twice :
    visit_map {T = ℕ} as_numbers as_numbers false shape
      (("shape", numbers shape) ∷ ("shape", other) ∷ [])
    ≡ err (Error.inside "duplicate field" (message "shape"))
unfolding visit_map visit_entries visit_str visit_field
twice = refl

-- So is a field that is missing, and a shape that differs.
missing :
    visit_map {T = ℕ} as_numbers as_numbers false shape (("shape", numbers shape) ∷ [])
    ≡ err (Error.inside "missing field" (message "data"))
unfolding visit_map visit_entries visit_str visit_field
missing = refl

transposed :
    visit_seq as_numbers as_numbers false shape (numbers (1 ∷ 2 ∷ []) ∷ numbers (7 ∷ 8 ∷ []) ∷ [])
    ≡ err (Error.shape_differs shape (1 ∷ 2 ∷ []))
unfolding visit_seq tensor_from_serde_parts shape_eq
transposed = refl

visit_map_iff_example : (visit_map as_numbers as_numbers false shape swapped ≡ ok tensor) ↔ (
    TwoFields as_numbers as_numbers swapped shape (7 ∷ 8 ∷ []) × (length tensor.storage.elems ≡ 2))
visit_map_iff_example = visit_map_iff false shape 2 counted as_numbers as_numbers swapped tensor

visit-serialize_example :
    (visit_map as_numbers as_numbers false shape (serialize numbers numbers shape tensor)
      ≡ ok tensor)
    × (visit_map as_numbers as_numbers false shape
          (reverse (serialize numbers numbers shape tensor))
        ≡ ok tensor)
    × (visit_seq as_numbers as_numbers false shape
          (map (λ (p : String × Value). p.1) (serialize numbers numbers shape tensor))
        ≡ ok tensor)
visit-serialize_example =
    visit-serialize false shape 2 counted as_numbers as_numbers numbers numbers (λ s. refl)
      (λ d. refl) tensor refl
