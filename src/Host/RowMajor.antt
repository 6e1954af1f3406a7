-- ===== src/Host/RowMajor.antt =====
-- What `get` of crates/knok/src/tensor.rs finds in a tensor made from a nested array.
use knok.Base.{
  some_injective, ℕ, zero, suc, ◌+◌, ◌*◌, ◌<◌, ◌≡◌, refl, sym, ap, subst, ◌∙◌, Bool, true, false,
  ltb, ltb→lt, lt→ltb, ◌&&◌, List, [], ◌∷◌, ◌++◌, length, length-append, get_elem?, get_elem?-some,
  get_elem?-lt, get-append_left, get-append_right, Option, some, none, product, ok, arith,
  Bool-cases, Option-cases, inl, inr,
}
use native.Mathlib.Nat.{mul_assoc}
use knok.Base.Usize.{usize_mod}
use knok.Base.Vec.{index}
use knok.Host.Data.{in_range, place, get_at, get}
use knok.Host.Arrays.{Nested, Each, IsArray, flat_map, flatten, element}
use knok.Host.Offset.{row_major, offset_exact, and_left, and_right}

module _ {A : Type 0} where
  abbrev row_of : Option (List A) → ℕ → Option A
  row_of none j = none
  row_of (some row) j = get_elem? row j

  -- In rows of one length, element `j` of row `i` is at `i * dim + j`.
  get-flat_map :
      (dim : ℕ) (rows : List (List A)) (i j : ℕ)
      → Each (λ row. length row ≡ dim) rows
      → j < dim
      → get_elem? (flat_map rows) (i * dim + j) ≡ row_of (get_elem? rows i) j
  unfolding flat_map
  get-flat_map dim [] i j h l = refl
  get-flat_map dim (row ∷ rows) zero j h l =
      ap (get_elem? (row ++ flat_map rows)) {x = 0 * dim + j} {y = j} (omega arith)
      ∙ get-append_left row (flat_map rows) j (omega (arith, h.0))
  get-flat_map dim (row ∷ rows) (suc i) j h l =
      ap (get_elem? (row ++ flat_map rows)) {x = suc i * dim + j} {y = length row + (i * dim + j)}
        (omega (arith, h.0))
      ∙ (get-append_right row (flat_map rows) (i * dim + j) ∙ get-flat_map dim rows i j h.1 l)

  length-flat_map :
      (dim : ℕ) (rows : List (List A))
      → Each (λ row. length row ≡ dim) rows
      → length (flat_map rows) ≡ length rows * dim
  unfolding flat_map
  length-flat_map dim [] h = omega arith
  length-flat_map dim (row ∷ rows) h =
      length-append row (flat_map rows) ∙ omega (arith, length-flat_map dim rows h.1, h.0)

  Each-append : (P : A → Type 0) (xs ys : List A) → Each P xs → Each P ys → Each P (xs ++ ys)
  Each-append P [] ys h k = k
  Each-append P (x ∷ xs) ys h k = (h.0, Each-append P xs ys h.1 k)

  -- Rows that have a length and elements with `P`, taken apart.
  row_lengths :
      (P : A → Type 0) (dim : ℕ) (rows : List (List A))
      → Each (λ row. (length row ≡ dim) × Each P row) rows
      → Each (λ row. length row ≡ dim) rows
  row_lengths P dim [] h = tt
  row_lengths P dim (row ∷ rows) h = (h.0.0, row_lengths P dim rows h.1)

  row_elements :
      (P : A → Type 0) (dim : ℕ) (rows : List (List A))
      → Each (λ row. (length row ≡ dim) × Each P row) rows
      → Each P (flat_map rows)
  unfolding flat_map
  row_elements P dim [] h = tt
  row_elements P dim (row ∷ rows) h =
      Each-append P row (flat_map rows) h.0.1 (row_elements P dim rows h.1)

second : (b c : Bool) → b ≡ true → b && c ≡ false → c ≡ false
second true c p h = h
second false c p h = cc

each_at :
    {A : Type 0} (P : A → Type 0) (xs : List A) (i : ℕ) (x : A)
    → Each P xs
    → get_elem? xs i ≡ some x
    → P x
each_at P [] i x h e = cc
each_at P (y ∷ xs) zero x h e = subst P (some_injective e) h.0
each_at P (y ∷ xs) (suc i) x h e = each_at P xs i x h.1 e

module _ (T : Type 0) where
  abbrev rest_of : (dims indices : List ℕ) → Option (Nested T dims) → Option T
  rest_of dims indices none = none
  rest_of dims indices (some row) = element T dims row indices

  -- The elements in row-major order, read at the offset.
  flatten_element :
      (dims : List ℕ) (rows : List (Nested T dims)) (i : ℕ) (indices : List ℕ)
      → length dims ≡ length indices
      → in_range dims indices ≡ true
      → Each (IsArray T dims) rows
      → get_elem? (flatten T dims rows) (row_major i dims indices)
        ≡ rest_of dims indices (get_elem? rows i)
  unfolding flatten row_major in_range
  flatten_element [] rows i [] e h a = alone (get_elem? rows i)
    where
      alone : (found : Option T) → found ≡ rest_of [] [] found
      alone none = refl
      alone (some x) = refl
  flatten_element [] rows i (j ∷ indices) e h a = absurd (omega arith)
  flatten_element (next ∷ dims) rows i [] e h a = absurd (omega arith)
  flatten_element (next ∷ dims) rows i (j ∷ indices) e h a =
      flatten_element dims (flat_map rows) (i * next + j) indices (omega arith) (and_right _ _ h)
        (row_elements (IsArray T dims) next rows a)
      ∙ (ap (rest_of dims indices) (
            get-flat_map next rows i j (row_lengths (IsArray T dims) next rows a)
              (ltb→lt j next (and_left _ _ h)))
          ∙ rows_first (get_elem? rows i))
    where
      rows_first :
          (found : Option (List (Nested T dims)))
          → rest_of dims indices (row_of found j) ≡ rest_of (next ∷ dims) (j ∷ indices) found
      rows_first none = refl
      rows_first (some row) = refl

  length-flatten :
      (dims : List ℕ) (rows : List (Nested T dims))
      → Each (IsArray T dims) rows
      → length (flatten T dims rows) ≡ length rows * product dims
  unfolding flatten
  length-flatten [] rows a = omega arith
  length-flatten (next ∷ dims) rows a =
      length-flatten dims (flat_map rows) (row_elements (IsArray T dims) next rows a)
      ∙ (ap (λ n. n * product dims)
            (length-flat_map next rows (row_lengths (IsArray T dims) next rows a))
          ∙ mul_assoc (length rows) next (product dims))

  -- An index out of range finds nothing in the nested array.
  element_absent :
      (dims indices : List ℕ) (rows : Nested T dims)
      → length dims ≡ length indices
      → IsArray T dims rows
      → in_range dims indices ≡ false
      → element T dims rows indices ≡ none
  unfolding in_range
  element_absent [] [] rows e a h = cc
  element_absent [] (i ∷ indices) rows e a h = refl
  element_absent (dim ∷ dims) [] rows e a h = refl
  element_absent (dim ∷ dims) (i ∷ indices) rows e a h = elim (Option-cases (get_elem? rows i)) [
    | inl p ↦ ap (rest_of dims indices) p
    | inr (row, p) ↦
        let inside = lt→ltb i dim (subst (λ n. i < n) a.0 (get_elem?-lt rows i p)) in
        ap (rest_of dims indices) p
        ∙ element_absent dims indices row (omega arith) (each_at (IsArray T dims) rows i row a.1 p)
            (second _ _ inside h)
  ]

  -- If the number of elements fits in 64 bits, then `get` of a tensor made from a nested array finds
  -- the array's element at the indices, and nothing if one of them is out of range, without a panic.
  pub get-flatten :
      (checks : Bool) (dim : ℕ) (dims : List ℕ) (rows : List (Nested T dims)) (i : ℕ)
      (indices : List ℕ)
      → length dims ≡ length indices
      → IsArray T (dim ∷ dims) rows
      → product (dim ∷ dims) < usize_mod
      → get checks (record { elems = flatten T dims rows }) dim dims i indices
        ≡ ok (element T (dim ∷ dims) rows (i ∷ indices))
  unfolding get place get_at index in_range
  get-flatten checks dim dims rows i indices e a fits =
      elim (Bool-cases (ltb i dim && in_range dims indices)) [
        | inl h ↦
            let (run, below) =
              offset_exact checks i dim dims indices e (ltb→lt i dim (and_left _ _ h))
                (and_right _ _ h) fits in
            let found = flatten_element dims rows i indices e (and_right _ _ h) a.1 in
            let (x, there) = get_elem?-some (flatten T dims rows) (row_major i dims indices) (
              subst (λ n. row_major i dims indices < n)
                (sym (length-flatten dims rows a.1 ∙ ap (λ n. n * product dims) a.0)) below) in
            rw h (rw run (rw there (ap ok (sym there ∙ found))))
        | inr h ↦ rw h (ap ok (sym (element_absent (dim ∷ dims) (i ∷ indices) rows (ap suc e) a h)))
      ]
