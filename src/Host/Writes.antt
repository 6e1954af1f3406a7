-- ===== src/Host/Writes.antt =====
-- What `get` of crates/knok/src/tensor.rs finds after an assignment through `get_mut`.
use knok.Base.{
  ℕ, zero, suc, ◌+◌, ◌*◌, ◌<◌, ◌≡◌, ◌≢◌, ◌⊎◌, refl, sym, ap, ap₂, subst, ◌∙◌, Bool, true, ltb,
  ltb→lt, ◌&&◌, List, [], ◌∷◌, length, get_elem?, get_elem?-some, length-set, set, some, product,
  ok, arith, inl, inr,
}
use native.Mathlib.Nat.{mul-le-mul_right}
use knok.Base.Usize.{usize_mod}
use knok.Base.Vec.{index}
use knok.Host.Data.{TensorData, in_range, place, get_at, get, get_mut, write}
use knok.Host.Offset.{row_major, offset_exact, and_left, and_right}

-- A number below `dim` and a multiple of `dim` are determined by their sum.
digits_apart : (a b dim i j : ℕ) → i < dim → j < dim → a * dim + i ≡ b * dim + j → (a ≡ b) × (i ≡ j)
digits_apart a b dim i j l k e = go (order a b)
  where
    order : (a b : ℕ) → (a ≡ b) ⊎ ((a < b) ⊎ (b < a))
    order a b = omega arith

    go : (a ≡ b) ⊎ ((a < b) ⊎ (b < a)) → (a ≡ b) × (i ≡ j)
    go (inl p) = (p, omega (arith, ap (λ n. n * dim) p, e))
    go (inr (inl p)) = absurd (omega (arith, mul-le-mul_right {m = suc a} {n = b} dim p, e, l))
    go (inr (inr p)) = absurd (omega (arith, mul-le-mul_right {m = suc b} {n = a} dim p, e, k))

-- Different indices in range have different offsets.
row_major_injective :
    (dims : List ℕ) (a b : ℕ) (indices others : List ℕ)
    → length dims ≡ length indices
    → length dims ≡ length others
    → in_range dims indices ≡ true
    → in_range dims others ≡ true
    → row_major a dims indices ≡ row_major b dims others
    → (a ≡ b) × (indices ≡ others)
unfolding row_major in_range
row_major_injective [] a b [] [] e f h k same = (same, refl)
row_major_injective [] a b (i ∷ indices) others e f h k same = absurd (omega arith)
row_major_injective [] a b [] (j ∷ others) e f h k same = absurd (omega arith)
row_major_injective (dim ∷ dims) a b [] others e f h k same = absurd (omega arith)
row_major_injective (dim ∷ dims) a b (i ∷ indices) [] e f h k same = absurd (omega arith)
row_major_injective (dim ∷ dims) a b (i ∷ indices) (j ∷ others) e f h k same =
    let (p, q) =
      row_major_injective dims (a * dim + i) (b * dim + j) indices others (omega arith)
        (omega arith) (and_right _ _ h) (and_right _ _ k) same in
    let (r, s) =
      digits_apart a b dim i j (ltb→lt i dim (and_left _ _ h)) (ltb→lt j dim (and_left _ _ k)) p in
    (r, ap₂ ◌∷◌ s q)

module _ {T : Type 0} where
  get-set_same : (xs : List T) (i : ℕ) (v : T) → i < length xs → get_elem? (set xs i v) i ≡ some v
  get-set_same [] i v h = absurd (omega arith)
  get-set_same (x ∷ xs) zero v h = refl
  get-set_same (x ∷ xs) (suc i) v h = get-set_same xs i v (omega arith)

  get-set_other :
      (xs : List T) (i j : ℕ) (v : T) → i ≢ j → get_elem? (set xs i v) j ≡ get_elem? xs j
  get-set_other [] i j v d = refl
  get-set_other (x ∷ xs) zero zero v d = absurd (d refl)
  get-set_other (x ∷ xs) zero (suc j) v d = refl
  get-set_other (x ∷ xs) (suc i) zero v d = refl
  get-set_other (x ∷ xs) (suc i) (suc j) v d = get-set_other xs i j v (λ e. d (ap suc e))

module _ (checks : Bool) (dim : ℕ) (dims : List ℕ) (fits : product (dim ∷ dims) < usize_mod) where
  -- The indices are in range, one for each dimension.
  abbrev pub Valid : ℕ → List ℕ → Type 0
  Valid i indices = (length dims ≡ length indices) × (ltb i dim && in_range dims indices ≡ true)

  place_exact :
      (i : ℕ) (indices : List ℕ)
      → Valid i indices
      → (place checks dim dims i indices ≡ ok (some (row_major i dims indices)))
        × (row_major i dims indices < product (dim ∷ dims))
  unfolding place
  place_exact i indices (e, h) =
      let (run, below) =
        offset_exact checks i dim dims indices e (ltb→lt i dim (and_left _ _ h)) (and_right _ _ h)
          fits in
      (rw h (rw run refl), below)

  module _ {T : Type 0} (storage : TensorData T)
      (full : length storage.elems ≡ product (dim ∷ dims)) where
    get_exact :
        (i : ℕ) (indices : List ℕ)
        → Valid i indices
        → get checks storage dim dims i indices
          ≡ ok (get_elem? storage.elems (row_major i dims indices))
    unfolding get get_at index
    get_exact i indices v =
        let (run, below) = place_exact i indices v in
        let (x, there) =
          get_elem?-some storage.elems (row_major i dims indices)
            (subst (λ n. row_major i dims indices < n) (sym full) below) in
        rw run (rw there refl)

    get_mut_exact :
        (i : ℕ) (indices : List ℕ)
        → Valid i indices
        → get_mut checks storage dim dims i indices ≡ ok (some (row_major i dims indices))
    unfolding get_mut get_at index
    get_mut_exact i indices v =
        let (run, below) = place_exact i indices v in
        let (x, there) =
          get_elem?-some storage.elems (row_major i dims indices)
            (subst (λ n. row_major i dims indices < n) (sym full) below) in
        rw run (rw there refl)

  -- In a tensor with as many elements as its dimensions say, a number that fits in 64 bits,
  -- `get_mut` finds a place at indices in range; after an assignment there, `get` finds the
  -- assigned value at these indices, and at other indices in range what it found before.
  pub get-write :
      {T : Type 0} (storage : TensorData T)
      → length storage.elems ≡ product (dim ∷ dims)
      → (i : ℕ) (indices : List ℕ) → Valid i indices
      → (j : ℕ) (others : List ℕ) → Valid j others
      → (i ∷ indices) ≢ (j ∷ others)
      → (value : T)
      → (at : ℕ) × (get_mut checks storage dim dims i indices ≡ ok (some at))
        × (get checks (write storage at value) dim dims i indices ≡ ok (some value))
        × (get checks (write storage at value) dim dims j others
            ≡ get checks storage dim dims j others)
  unfolding write
  get-write storage full i indices v j others u d value =
      let at = row_major i dims indices in
      let after = length-set storage.elems at value ∙ full in
      let inside = subst (λ n. at < n) (sym full) (place_exact i indices v).1 in
      (
        at,
        get_mut_exact storage full i indices v,
        get_exact (write storage at value) after i indices v
            ∙ ap ok (get-set_same storage.elems at value inside),
        get_exact (write storage at value) after j others u
            ∙ (ap ok (get-set_other storage.elems at (row_major j dims others) value apart)
                ∙ sym (get_exact storage full j others u)),
      )
    where
      apart : row_major i dims indices ≢ row_major j dims others
      apart same =
          let (p, q) =
            row_major_injective dims i j indices others v.0 u.0
              (and_right (ltb i dim) (in_range dims indices) v.1)
              (and_right (ltb j dim) (in_range dims others) u.1) same in
          d (ap₂ ◌∷◌ p q)
