-- ===== src/Host/Tensors.antt =====
-- `Tensor0` to `Tensor6` of crates/knok/src/tensor.rs, which differ in their dimensions only.
use knok.Base.{
  ℕ, Bool, List, [], ◌∷◌, length, get_elem?, ltb, if◌then◌else◌, Option, some, none, Result, ok,
  ◌>>=◌,
}
use knok.Base.Vec.{index, store}
use knok.Host.Data
use knok.Host.Data.{TensorData}
use knok.Host.Arrays.{Nested, flatten}

-- The dimensions are the struct's constants.
pub record Tensor (T : Type 0) (shape : List ℕ) : Type 0 where
  pub storage : TensorData T

-- `TensorElement`.
pub record TensorElement (T : Type 0) : Type 0 where
  pub zero_value : T
  pub one_value : T

module _ {T : Type 0} where
  unfoldable pub from_vec : Bool → (shape : List ℕ) → List T → Result (Tensor T shape)
  from_vec checks shape elems =
      Data.from_vec checks elems shape >>= λ storage. ok (record { storage = storage })

  unfoldable pub filled : Bool → (shape : List ℕ) → T → Result (Tensor T shape)
  filled checks shape value =
      Data.filled checks value shape >>= λ storage. ok (record { storage = storage })

  unfoldable pub zeros : Bool → (shape : List ℕ) → TensorElement T → Result (Tensor T shape)
  unfolding filled
  zeros checks shape elements = filled checks shape elements.zero_value

  unfoldable pub ones : Bool → (shape : List ℕ) → TensorElement T → Result (Tensor T shape)
  unfolding filled
  ones checks shape elements = filled checks shape elements.one_value

  unfoldable pub into_vec : {shape : List ℕ} → Tensor T shape → List T
  into_vec tensor = tensor.storage.elems

  unfoldable pub from_scalar : T → Tensor T []
  from_scalar value = record { storage = record { elems = value ∷ [] } }

  -- The rank 0 tensor's `get` indexes, and that of rank 1 asks the vector.
  unfoldable pub get_scalar : Tensor T [] → Result T
  get_scalar tensor = index tensor.storage.elems 0

  unfoldable pub get_vector : {dim : ℕ} → Tensor T (dim ∷ []) → ℕ → Option T
  get_vector tensor i = get_elem? tensor.storage.elems i

  -- `get_mut` of rank 0 and of rank 1: the place that the reference points to.
  unfoldable pub get_scalar_mut : Tensor T [] → Result ℕ
  get_scalar_mut tensor = index tensor.storage.elems 0 >>= λ _. ok 0

  unfoldable pub get_vector_mut : {dim : ℕ} → Tensor T (dim ∷ []) → ℕ → Option ℕ
  get_vector_mut tensor i = if ltb i (length tensor.storage.elems) then some i else none

  -- `as_slice`, and an assignment to an element of `as_mut_slice`.
  unfoldable pub as_slice : {shape : List ℕ} → Tensor T shape → List T
  as_slice tensor = tensor.storage.elems

  unfoldable pub assign_slice : {shape : List ℕ} → Tensor T shape → ℕ → T → Result (Tensor T shape)
  assign_slice tensor i value = store tensor.storage.elems i value >>= λ elems.
      ok (record { storage = record { elems = elems } })

  -- Ranks 2 to 6.
  unfoldable pub get :
      {dim : ℕ} {dims : List ℕ} → Bool → Tensor T (dim ∷ dims) → ℕ → List ℕ → Result (Option T)
  get {dim} {dims} checks tensor i indices = Data.get checks tensor.storage dim dims i indices

  unfoldable pub get_mut :
      {dim : ℕ} {dims : List ℕ} → Bool → Tensor T (dim ∷ dims) → ℕ → List ℕ → Result (Option ℕ)
  get_mut {dim} {dims} checks tensor i indices =
      Data.get_mut checks tensor.storage dim dims i indices

unfoldable pub from_array :
    (T : Type 0) (dim : ℕ) (dims : List ℕ) → Nested T (dim ∷ dims) → Tensor T (dim ∷ dims)
unfolding flatten
from_array T dim dims rows = record { storage = record { elems = flatten T dims rows } }
