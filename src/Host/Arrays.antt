-- ===== src/Host/Arrays.antt =====
-- Nested arrays, and their elements in row-major order.
use knok.Base.{ℕ, ◌≡◌, List, [], ◌∷◌, ◌++◌, length, get_elem?, Option, some, none}

-- `[[T; D1]; D0]`, and so on, as lists of lists.
abbrev pub Nested : Type 0 → List ℕ → Type 0
Nested T [] = T
Nested T (dim ∷ dims) = List (Nested T dims)

abbrev pub Each : {A : Type 0} → (A → Type 0) → List A → Type 0
Each P [] = Unit
Each P (x ∷ xs) = P x × Each P xs

-- Every list is as long as its dimension.
abbrev pub IsArray : (T : Type 0) (dims : List ℕ) → Nested T dims → Type 0
IsArray T [] element = Unit
IsArray T (dim ∷ dims) rows = (length rows ≡ dim) × Each (IsArray T dims) rows

-- `.flat_map(IntoIterator::into_iter)`.
unfoldable pub flat_map : {A : Type 0} → List (List A) → List A
flat_map [] = []
flat_map (row ∷ rows) = row ++ flat_map rows

-- `from_array`: one `flat_map` for each dimension but the first.
unfoldable pub flatten : (T : Type 0) (dims : List ℕ) → List (Nested T dims) → List T
unfolding flat_map
flatten T [] rows = rows
flatten T (dim ∷ dims) rows = flatten T dims (flat_map rows)

-- The element at the indices, `rows[i][j]...`, if every index is in range.
abbrev pub element : (T : Type 0) (dims : List ℕ) → Nested T dims → List ℕ → Option T
element T [] x [] = some x
element T [] x (i ∷ indices) = none
element T (dim ∷ dims) rows [] = none
element T (dim ∷ dims) rows (i ∷ indices) = elim (get_elem? rows i) [
  | none ↦ none
  | some row ↦ element T dims row indices
]
