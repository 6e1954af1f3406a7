-- ===== src/Host/Serde.antt =====
-- The serialisation of the tensors in crates/knok/src/tensor.rs. What serde and a data format do is in the
-- parameters: the values `V` of the format, how a shape and the elements become values, and how they are
-- read. A map is the list of its entries and a sequence the list of its elements.
use knok.Base.{
  ℕ, Bool, true, false, not, List, [], ◌∷◌, Option, some, none, String, Result, ok, err, message,
  reject_if, ok_or, map_err, ◌>>=◌, ◌>>◌, if◌then◌else◌, Error,
}
use text.Mathlib.Text.{◌==◌ as str_eq}
use knok.Ast.Types.{shape_eq}
use knok.Host.Tensors
use knok.Host.Tensors.{Tensor}

pub data TensorSerdeField : Type 0 where
  shape_field : TensorSerdeField
  data_field : TensorSerdeField

-- `FieldVisitor::visit_str`.
unfoldable pub visit_str : String → Result TensorSerdeField
visit_str text =
    if str_eq text "shape"
    then ok TensorSerdeField.shape_field
    else if str_eq text "data"
    then ok TensorSerdeField.data_field
    else err (Error.inside "unknown field" (message text))

-- `Option::is_some`.
abbrev pub is_some : {A : Type 0} → Option A → Bool
is_some (some a) = true
is_some none = false

module _ {T : Type 0} (checks : Bool) (shape : List ℕ) where
  unfoldable pub tensor_from_serde_parts : List ℕ → List T → Result (Tensor T shape)
  unfolding shape_eq Tensors.from_vec
  tensor_from_serde_parts found elems =
      reject_if (not (shape_eq found shape)) (Error.shape_differs shape found)
      >> map_err (Error.inside "custom") (Tensors.from_vec checks shape elems)

module _ {V T : Type 0} (of_shape : List ℕ → V) (of_elems : List T → V) where
  -- `Serialize::serialize`: the two fields in order.
  unfoldable pub serialize : (shape : List ℕ) → Tensor T shape → List (String × V)
  serialize shape tensor = ("shape", of_shape shape) ∷ ("data", of_elems tensor.storage.elems) ∷ []

module _ {V T : Type 0} (as_shape : V → Result (List ℕ)) (as_elems : V → Result (List T)) where
  -- The arms of the `match` on a key: the two fields read so far, with one more.
  unfoldable pub visit_field :
      TensorSerdeField
      → Option (List ℕ)
      → Option (List T)
      → V
      → Result (Option (List ℕ) × Option (List T))
  visit_field TensorSerdeField.shape_field shape elems value = do
    reject_if (is_some shape) (Error.inside "duplicate field" (message "shape"))
    found ← as_shape value
    ok (some found, elems)
  visit_field TensorSerdeField.data_field shape elems value = do
    reject_if (is_some elems) (Error.inside "duplicate field" (message "data"))
    found ← as_elems value
    ok (shape, some found)

  -- The loop over the keys.
  unfoldable pub visit_entries :
      Option (List ℕ)
      → Option (List T)
      → List (String × V)
      → Result (Option (List ℕ) × Option (List T))
  unfolding visit_str visit_field
  visit_entries shape elems [] = ok (shape, elems)
  visit_entries shape elems ((key, value) ∷ entries) = do
    field ← visit_str key
    fields ← visit_field field shape elems value
    visit_entries fields.0 fields.1 entries

  unfoldable pub visit_map : Bool → (shape : List ℕ) → List (String × V) → Result (Tensor T shape)
  unfolding visit_entries tensor_from_serde_parts
  visit_map checks shape entries = do
    fields ← visit_entries none none entries
    found ← ok_or (Error.inside "missing field" (message "shape")) fields.0
    elems ← ok_or (Error.inside "missing field" (message "data")) fields.1
    tensor_from_serde_parts checks shape found elems

  -- The elements one after the other; a third one is too many.
  unfoldable pub visit_seq : Bool → (shape : List ℕ) → List V → Result (Tensor T shape)
  unfolding tensor_from_serde_parts
  visit_seq checks shape [] = err (message "invalid length 0")
  visit_seq checks shape (first ∷ []) = as_shape first >>= λ found. err (message "invalid length 1")
  visit_seq checks shape (first ∷ second ∷ rest) = do
    found ← as_shape first
    elems ← as_elems second
    elim rest [
      | [] ↦ tensor_from_serde_parts checks shape found elems
      | _ ∷ _ ↦ err (message "invalid length 3")
    ]
