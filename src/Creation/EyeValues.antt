-- ===== src/Creation/EyeValues.antt =====
-- What a static `eye` holds.
use knok.Base.{
  ℕ, zero, suc, ◌+◌, ◌*◌, ◌<◌, ◌≡◌, refl, sym, ap, ap₂, subst, ◌∙◌, ◌==◌, if◌then◌else◌, Bool, List,
  [], ◌∷◌, ◌++◌, length, length-append, get_elem?, get-append_left, get-append_right, some, String,
  range_from, ok, ok_injective, >>=-eq-ok, >>-eq-ok, arith,
}
use knok.Base.Usize.{mul_usize}
use knok.Base.Vec.{index}
use knok.Ast.Types.{ElementType, TensorType, zero_literal, one_literal}
use knok.Creation.Target.{validate_static_eye_target}
use knok.Creation.Literals.{allocate, string_size}
use knok.Creation.Eye.{eye_row, eye_rows, static_eye_literals}
use knok.Creation.Shapes.{eye_shape}

module _ (elem : ElementType) where
  -- The literal at a place of the matrix.
  abbrev pub unit_literal : ℕ → ℕ → String
  unit_literal i j = if i == j then one_literal elem else zero_literal elem

  length-eye_row : (row from n : ℕ) → length (eye_row elem row (range_from from n)) ≡ n
  unfolding eye_row
  length-eye_row row from zero = refl
  length-eye_row row from (suc n) = ap suc (length-eye_row row (suc from) n)

  get-eye_row :
      (row from n j : ℕ)
      → j < n
      → get_elem? (eye_row elem row (range_from from n)) j ≡ some (unit_literal row (from + j))
  unfolding eye_row
  get-eye_row row from zero j h = absurd (omega arith)
  get-eye_row row from (suc n) zero h = ap (λ c. some (unit_literal row c)) (omega arith)
  get-eye_row row from (suc n) (suc j) h =
      get-eye_row row (suc from) n j (omega arith)
      ∙ ap (λ c. some (unit_literal row c)) (omega arith)

  length-eye_rows : (cols from n : ℕ) → length (eye_rows elem cols (range_from from n)) ≡ n * cols
  unfolding eye_rows
  length-eye_rows cols from zero = omega arith
  length-eye_rows cols from (suc n) =
      length-append (eye_row elem from (range_from 0 cols)) _
      ∙ ap₂ ◌+◌ (length-eye_row from 0 cols) (length-eye_rows cols (suc from) n)
      ∙ omega arith

  get-eye_rows :
      (cols from n i j : ℕ)
      → i < n
      → j < cols
      → get_elem? (eye_rows elem cols (range_from from n)) (i * cols + j)
        ≡ some (unit_literal (from + i) j)
  unfolding eye_rows
  get-eye_rows cols from zero i j h k = absurd (omega arith)
  get-eye_rows cols from (suc n) zero j h k =
      let row = eye_row elem from (range_from 0 cols) in
      let rest = eye_rows elem cols (range_from (suc from) n) in
      ap (get_elem? (row ++ rest)) {x = 0 * cols + j} {y = j} (omega arith)
      ∙ get-append_left row rest j (omega (arith, length-eye_row from 0 cols))
      ∙ get-eye_row from 0 cols j k
      ∙ ap₂ (λ a b. some (unit_literal a b)) {x = from} {y = from + 0} (omega arith) (omega arith)
  get-eye_rows cols from (suc n) (suc i) j h k =
      let row = eye_row elem from (range_from 0 cols) in
      let rest = eye_rows elem cols (range_from (suc from) n) in
      ap (get_elem? (row ++ rest)) {x = suc i * cols + j} {y = length row + (i * cols + j)}
        (omega (arith, length-eye_row from 0 cols))
      ∙ get-append_right row rest (i * cols + j)
      ∙ get-eye_rows cols (suc from) n i j (omega arith) k
      ∙ ap (λ a. some (unit_literal a j)) {x = suc from + i} {y = from + suc i} (omega arith)

  -- The rows, and each of their places.
  eye_rows_lem :
      (n : ℕ)
      → (length (eye_rows elem n (range_from 0 n)) ≡ n * n)
        × ((i j : ℕ)
            → i < n
            → j < n
            → get_elem? (eye_rows elem n (range_from 0 n)) (i * n + j) ≡ some (unit_literal i j))
  eye_rows_lem n = (
    length-eye_rows n 0 n,
    λ i j h k.
        get-eye_rows n 0 n i j h k
        ∙ ap (λ a. some (unit_literal a j)) {x = 0 + i} {y = i} (omega arith),
  )

-- A static `eye` that succeeds has a square target, and holds the identity matrix row by row: the
-- literal at row i and column j is a one if i is j, and else a zero.
pub static_eye_literals_lem :
    (checks : Bool) (target : TensorType) (texts : List String)
    → static_eye_literals checks target ≡ ok texts
    → (n : ℕ) × (target.shape ≡ n ∷ n ∷ [])
      × (length texts ≡ n * n)
      × ((i j : ℕ)
          → i < n
          → j < n
          → get_elem? texts (i * n + j)
            ≡ some (if i == j then one_literal target.elem else zero_literal target.elem))
unfolding static_eye_literals
static_eye_literals_lem checks target texts h =
    let (a, h1) = >>-eq-ok (validate_static_eye_target target) _ h in
    let (n, b, h2) = >>=-eq-ok (index target.shape 0) _ h1 in
    let (capacity, c, h3) = >>=-eq-ok (mul_usize checks n n) _ h2 in
    let (_, h4) = >>-eq-ok (allocate string_size capacity) _ h3 in
    let e = ok_injective h4 in
    let (l, placed) = eye_rows_lem target.elem n in
    (
      n,
      eye_shape target a b,
      subst (λ x. length x ≡ n * n) e l,
      λ i j p q. ap (λ x. get_elem? x (i * n + j)) (sym e) ∙ placed i j p q,
    )
