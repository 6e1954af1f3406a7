-- ===== src/Host/Data.antt =====
-- `TensorData` of crates/knok/src/tensor.rs, whose `data` are the `elems` here, and the operations on it that the tensors share.
use knok.Base.{
  ℕ, Bool, true, ltb, ◌&&◌, ◌==◌, not, if◌then◌else◌, List, [], ◌∷◌, length, replicate, set, Option,
  some, none, Result, ok, shape_differs, ◌>>=◌, ◌>>◌, reject_if,
}
use knok.Base.Usize.{add_usize, mul_usize, product_from}
use knok.Base.Vec.{index}

pub record TensorData (T : Type 0) : Type 0 where
  pub elems : List T

-- `d0 < D0 && d1 < D1 && ...`.
unfoldable pub in_range : List ℕ → List ℕ → Bool
in_range (dim ∷ dims) (i ∷ indices) = ltb i dim && in_range dims indices
in_range _ _ = true

-- `(acc * D1 + d1) * D2 + d2`, and so on.
unfoldable pub offset : Bool → ℕ → List ℕ → List ℕ → Result ℕ
offset checks acc (dim ∷ dims) (i ∷ indices) = do
  scaled ← mul_usize checks acc dim
  next ← add_usize checks scaled i
  offset checks next dims indices
offset checks acc _ _ = ok acc

-- Where the element is, for the dimensions and the indices of an access; `none` out of range.
unfoldable pub place : Bool → ℕ → List ℕ → ℕ → List ℕ → Result (Option ℕ)
unfolding in_range offset
place checks dim dims i indices =
    let found = offset checks i dims indices >>= λ at. ok (some at) in
    if ltb i dim && in_range dims indices then found else ok none

module _ {T : Type 0} where
  unfoldable pub from_vec : Bool → List T → List ℕ → Result (TensorData T)
  from_vec checks elems shape = do
    expected_len ← product_from checks 1 shape
    reject_if (not (length elems == expected_len)) (shape_differs shape (length elems ∷ []))
    ok (record { elems = elems })

  unfoldable pub filled : Bool → T → List ℕ → Result (TensorData T)
  filled checks value shape = do
    len ← product_from checks 1 shape
    ok (record { elems = replicate len value })

  -- `.then(|| &self.storage.elems[...])`.
  unfoldable pub get_at : List T → Option ℕ → Result (Option T)
  get_at elems none = ok none
  get_at elems (some at) = index elems at >>= λ x. ok (some x)

  unfoldable pub get : Bool → TensorData T → ℕ → List ℕ → ℕ → List ℕ → Result (Option T)
  unfolding place get_at
  get checks storage dim dims i indices = do
    found ← place checks dim dims i indices
    get_at storage.elems found

  -- `.then(|| &mut self.storage.data[...])`: the place that the reference points to.
  unfoldable pub get_mut : Bool → TensorData T → ℕ → List ℕ → ℕ → List ℕ → Result (Option ℕ)
  unfolding place get_at
  get_mut checks storage dim dims i indices = do
    found ← place checks dim dims i indices
    element ← get_at storage.elems found
    ok found

  -- An assignment through the reference.
  unfoldable pub write : TensorData T → ℕ → T → TensorData T
  write storage at value = record { elems = set storage.elems at value }
