-- ===== src/Ops/Safety/Inner.antt =====
-- Postconditions of crates/knok-core/src/ops/linalg.rs.
use knok.Base.{
  ℕ, suc, ◌-◌, ◌≤◌, ◌<◌, ◌≡◌, ◌≢◌, ◌⊎◌, inl, inr, refl, ap, ◌∙◌, Bool, true, false, List, [], ◌∷◌,
  ◌++◌, length, get_elem?, take, drop_all, split_at, remove_at, product, Option, none, some, String,
  ok, ltb, ltb→lt, ◌==◌, ==_iff, not, ◌||◌, Bool-cases, rejected, if◌then◌else◌, arith,
}
use knok.Base.Ensures.{
  Ensures, returns, ◌⟫◌, weaken, require-Ensures, reject_if-Ensures, index-Ensures, sub-Ensures,
  slice_to-Ensures, remove-Ensures,
}
use knok.Ast.Types.{TensorType, rank, is_numeric, elem_eq, elem_eq_iff, shape_eq, shape_eq_sound}
use knok.Ops.Linalg.{
  expect_same_numeric_element, expect_axis, expect_matching_dim, remove_axes_shape, dot_result_type,
  default_axis, vecdot_result_type, all_but_last, inner_contraction, inner_result_type,
  outer_result_type, default_axes, default_axis_pair, trace_result_type, diagonal_result_type,
}
use knok.Ops.Safety.Common.{expect_numeric-Ensures, element_count-Ensures}
use knok.Ops.Safety.Products.{dim_from_end-Ensures, singleton_lem}

-- Two operands of one numeric element type.
abbrev pub SameNumeric : TensorType → TensorType → Type 0
SameNumeric l r = (l.elem ≡ r.elem) × (is_numeric l.elem ≡ true)

module _ {c : Bool} where
  same_numeric-Ensures :
      (l r : TensorType) (op_name : String)
      → Ensures c (λ _. SameNumeric l r) (expect_same_numeric_element l r op_name)
  unfolding expect_same_numeric_element
  same_numeric-Ensures l r op_name = reject_if-Ensures (not (elem_eq l.elem r.elem)) _ ⟫ λ _ e.
      weaken (expect_numeric-Ensures l.elem op_name)
        (λ _ n. ((elem_eq_iff _ _).0 (rejected _ e), n))

  axis-Ensures :
      (input : TensorType) (axis : ℕ) (op_name : String)
      → Ensures c (λ _. axis < length input.shape) (expect_axis input axis op_name)
  unfolding expect_axis rank
  axis-Ensures input axis op_name = weaken (require-Ensures _ _) (λ _ e. ltb→lt _ _ e)

  matching-Ensures :
      (l r : ℕ) (op_name : String) → Ensures c (λ _. l ≡ r) (expect_matching_dim l r op_name)
  unfolding expect_matching_dim
  matching-Ensures l r op_name = weaken (require-Ensures _ _) (λ _ e. (==_iff l r).0 e)

  -- Two vectors of one length make a scalar.
  pub dot_result_type-Ensures :
      (l r : TensorType)
      → Ensures c
          (λ out.
            SameNumeric l r
            × ((n : ℕ) × (l.shape ≡ n ∷ []) × (r.shape ≡ n ∷ []))
            × (out.elem ≡ l.elem)
            × (out.shape ≡ []))
          (dot_result_type l r)
  unfolding dot_result_type rank
  dot_result_type-Ensures l r = same_numeric-Ensures l r "dot" ⟫ λ _ s.
      reject_if-Ensures (not (length l.shape == 1) || not (length r.shape == 1)) _ ⟫ λ _ ranks.
      let ll : length l.shape ≡ 1 = (==_iff _ _).0 (ground arith) in
      let lr : length r.shape ≡ 1 = (==_iff _ _).0 (ground arith) in
      index-Ensures l.shape 0 (omega arith) ⟫ λ a p. index-Ensures r.shape 0 (omega arith) ⟫ λ b q.
      matching-Ensures a b "dot vector dimensions" ⟫ λ _ e.
      returns (s, (a, singleton_lem l.shape ll p, singleton_lem r.shape lr (rw e q)), refl, refl)

-- A shape around its last dimension.
last_one :
    (xs : List ℕ) {k : ℕ}
    → 1 ≤ length xs
    → get_elem? xs (length xs - 1) ≡ some k
    → xs ≡ take (length xs - 1) xs ++ k ∷ []
last_one xs {k} h p =
    split_at xs (length xs - 1) p
    ∙ ap (λ r. take (length xs - 1) xs ++ (k ∷ r)) (drop_all (suc (length xs - 1)) xs (omega arith))

-- The inner product: a scalar scales the other operand; else the last dimensions are contracted.
abbrev pub InnerShape : List ℕ → List ℕ → List ℕ → Type 0
InnerShape l r out =
    ((l ≡ []) × (out ≡ r))
    ⊎ (((r ≡ []) × (out ≡ l))
        ⊎ ((k : ℕ) × (a : List ℕ) × (b : List ℕ) × (l ≡ a ++ k ∷ [])
            × (r ≡ b ++ k ∷ [])
            × (out ≡ a ++ b)
            × (length out ≤ 6)))

empty_lem : (xs : List ℕ) → (length xs == 0) ≡ true → xs ≡ []
empty_lem [] h = refl
empty_lem (x ∷ xs) h = absurd (ground arith)

module _ (c : Bool) where
  pub vecdot_result_type-Ensures :
      (l r : TensorType) (axis : Option ℕ)
      → Ensures c
          (λ out.
            SameNumeric l r
            × (l.shape ≡ r.shape)
            × (out.elem ≡ l.elem)
            × ((place : ℕ) × (place < length l.shape)
                × (out.shape ≡ remove_at l.shape place)
                × ((axis ≡ some place) ⊎ ((axis ≡ none) × (suc place ≡ length l.shape)))))
          (vecdot_result_type c l r axis)
  unfolding vecdot_result_type rank
  vecdot_result_type-Ensures l r axis = same_numeric-Ensures l r "vecdot" ⟫ λ _ s.
      reject_if-Ensures (length l.shape == 0 || length r.shape == 0) _ ⟫ λ _ present.
      reject_if-Ensures (not (shape_eq l.shape r.shape)) _ ⟫ λ _ same.
      default_axis-Ensures axis (ground arith) ⟫ λ place chosen.
      axis-Ensures l place "vecdot" ⟫ λ _ lt. remove-Ensures l.shape place lt ⟫ λ p e.
      returns (s, shape_eq_sound _ _ (rejected _ same), refl, (place, lt, e.1, chosen))
    where
      default_axis-Ensures :
          (axis : Option ℕ)
          → 1 ≤ length l.shape
          → Ensures c
              (λ place. (axis ≡ some place) ⊎ ((axis ≡ none) × (suc place ≡ length l.shape)))
              (default_axis c axis l)
      default_axis-Ensures none h =
          unfold default_axis rank in
          weaken (sub-Ensures c (length l.shape) 1 h) (λ place e. inr (refl, omega arith))
      default_axis-Ensures (some axis) h =
          unfold default_axis rank in
          (sub-Ensures c (length l.shape) 1 h ⟫ λ _ _. returns (inl refl))

  all_but_last-Ensures :
      (t : TensorType)
      → 1 ≤ length t.shape
      → Ensures c (λ xs. xs ≡ take (length t.shape - 1) t.shape) (all_but_last c t)
  unfolding all_but_last rank
  all_but_last-Ensures t h = sub-Ensures c (length t.shape) 1 h ⟫ λ n e.
      weaken (slice_to-Ensures t.shape n (omega arith)) (λ xs p. p ∙ ap (λ i. take i t.shape) e)

  pub inner_result_type-Ensures :
      (l r : TensorType)
      → Ensures c
          (λ out. SameNumeric l r × (out.elem ≡ l.elem) × InnerShape l.shape r.shape out.shape)
          (inner_result_type c l r)
  unfolding inner_result_type inner_contraction rank
  inner_result_type-Ensures l r = same_numeric-Ensures l r "inner" ⟫ λ _ s.
      by_rank s (Bool-cases (length l.shape == 0)) (Bool-cases (length r.shape == 0))
    where
      by_rank :
          SameNumeric l r
          → ((length l.shape == 0) ≡ true) ⊎ ((length l.shape == 0) ≡ false)
          → ((length r.shape == 0) ≡ true) ⊎ ((length r.shape == 0) ≡ false)
          → Ensures c
              (λ out. SameNumeric l r × (out.elem ≡ l.elem) × InnerShape l.shape r.shape out.shape)
              (if length l.shape == 0 || length r.shape == 0
                then ok (record {
                  elem = l.elem;
                  shape = if length l.shape == 0 then r.shape else l.shape;
                })
                else inner_contraction c l r)
      by_rank s (inl p) q = rw p (returns (s, refl, inl (empty_lem _ p, refl)))
      by_rank s (inr p) (inl q) = rw (p, q) (returns (s, refl, inr (inl (empty_lem _ q, refl))))
      by_rank s (inr p) (inr q) =
          rw (p, q)
            (dim_from_end-Ensures c l 1 (omega arith) (ground arith) ⟫ λ a la.
              dim_from_end-Ensures c r 1 (omega arith) (ground arith) ⟫ λ b lb.
              matching-Ensures a b "inner contracted dimensions" ⟫ λ _ e.
              all_but_last-Ensures l (ground arith) ⟫ λ front fe.
              all_but_last-Ensures r (ground arith) ⟫ λ back be.
              reject_if-Ensures (ltb 6 (length (front ++ back))) _ ⟫ λ _ small. returns (
                s,
                refl,
                inr (
                    inr (
                      a,
                      front,
                      back,
                      rw fe (last_one l.shape (ground arith) la),
                      rw be (last_one r.shape (ground arith) (rw e lb)),
                      refl,
                      ground arith,
                    )),
              ))

  -- Two tensors of any rank make the matrix of their element counts.
  pub outer_result_type-Ensures :
      (l r : TensorType)
      → Ensures c
          (λ out.
            SameNumeric l r
            × (out.elem ≡ l.elem)
            × (length out.shape ≡ 2)
            × (c ≡ true → out.shape ≡ product l.shape ∷ product r.shape ∷ []))
          (outer_result_type c l r)
  unfolding outer_result_type
  outer_result_type-Ensures l r = same_numeric-Ensures l r "outer" ⟫ λ _ s.
      element_count-Ensures c l ⟫ λ n p.
      element_count-Ensures c r ⟫ λ m q. returns (s, refl, refl, λ on. rw (p on, q on) refl)

-- Two different axes of one length.
abbrev pub Diagonal : List ℕ → ℕ → ℕ → ℕ → Type 0
Diagonal shape axis0 axis1 n =
    (axis0 ≢ axis1) × (get_elem? shape axis0 ≡ some n) × (get_elem? shape axis1 ≡ some n)

-- The axes that are given, or else the last two.
abbrev pub Chosen : Option (ℕ × ℕ) → List ℕ → ℕ → ℕ → Type 0
Chosen none shape axis0 axis1 = (suc (suc axis0) ≡ length shape) × (suc axis1 ≡ length shape)
Chosen (some (a, b)) shape axis0 axis1 = (axis0 ≡ a) × (axis1 ≡ b)

module _ (c : Bool) where
  default_axes-Ensures :
      (axes : Option (ℕ × ℕ)) (t : TensorType)
      → 2 ≤ length t.shape
      → Ensures {A = ℕ × ℕ} c (λ p. Chosen axes t.shape p.0 p.1) (default_axes c axes t)
  unfolding default_axes rank
  default_axes-Ensures none t h = sub-Ensures c (length t.shape) 2 h ⟫ λ low p.
      sub-Ensures c (length t.shape) 1 (omega arith) ⟫ λ high q. returns (omega arith, omega arith)
  default_axes-Ensures (some (a, b)) t h = sub-Ensures c (length t.shape) 2 h ⟫ λ low p.
      sub-Ensures c (length t.shape) 1 (omega arith) ⟫ λ high q. returns (refl, refl)

  axis_pair-Ensures :
      (input : TensorType) (axes : Option (ℕ × ℕ)) (op_name : String)
      → Ensures {A = ℕ × ℕ} c
          (λ p.
            Chosen axes input.shape p.0 p.1
            × (p.0 ≢ p.1)
            × (p.0 < length input.shape)
            × (p.1 < length input.shape))
          (default_axis_pair c input axes op_name)
  unfolding default_axis_pair rank
  axis_pair-Ensures input axes op_name = reject_if-Ensures (ltb (length input.shape) 2) _ ⟫ λ _ big.
      default_axes-Ensures axes input (ground arith) ⟫ λ p chosen.
      axis-Ensures input p.0 op_name ⟫ λ _ lt0. axis-Ensures input p.1 op_name ⟫ λ _ lt1.
      reject_if-Ensures (p.0 == p.1) _ ⟫ λ _ ne. returns (chosen, ground arith, lt0, lt1)

  -- The trace drops both axes of a diagonal.
  pub trace_result_type-Ensures :
      (input : TensorType) (axes : Option (ℕ × ℕ))
      → Ensures c
          (λ out.
            (is_numeric input.elem ≡ true)
            × (out.elem ≡ input.elem)
            × ((axis0 : ℕ) × (axis1 : ℕ) × (n : ℕ) × Chosen axes input.shape axis0 axis1
                × Diagonal input.shape axis0 axis1 n
                × (out.shape ≡ remove_axes_shape input axis0 axis1)))
          (trace_result_type c input axes)
  unfolding trace_result_type
  trace_result_type-Ensures input axes = expect_numeric-Ensures input.elem "trace" ⟫ λ _ numeric.
      axis_pair-Ensures input axes "trace" ⟫ λ p (chosen, ne, lt0, lt1).
      index-Ensures input.shape p.0 lt0 ⟫ λ a pa. index-Ensures input.shape p.1 lt1 ⟫ λ b pb.
      matching-Ensures a b "trace diagonal dimensions" ⟫ λ _ e.
      returns (numeric, refl, (p.0, p.1, a, chosen, (ne, pa, rw e pb), refl))

  -- The diagonal drops them too, and appends its length.
  pub diagonal_result_type-Ensures :
      (input : TensorType) (axes : Option (ℕ × ℕ))
      → Ensures c
          (λ out.
            (out.elem ≡ input.elem)
            × ((axis0 : ℕ) × (axis1 : ℕ) × (n : ℕ) × Chosen axes input.shape axis0 axis1
                × Diagonal input.shape axis0 axis1 n
                × (out.shape ≡ remove_axes_shape input axis0 axis1 ++ n ∷ [])))
          (diagonal_result_type c input axes)
  unfolding diagonal_result_type
  diagonal_result_type-Ensures input axes =
      axis_pair-Ensures input axes "diagonal" ⟫ λ p (chosen, ne, lt0, lt1).
      index-Ensures input.shape p.0 lt0 ⟫ λ a pa. index-Ensures input.shape p.1 lt1 ⟫ λ b pb.
      matching-Ensures a b "diagonal dimensions" ⟫ λ _ e.
      index-Ensures input.shape p.0 lt0 ⟫ λ d pd.
      returns (refl, (p.0, p.1, d, chosen, (ne, pd, same pa pb pd e), refl))
    where
      same :
          {x y : Option ℕ} {a b d : ℕ} → x ≡ some a → y ≡ some b → x ≡ some d → a ≡ b → y ≡ some d
      same p q r e = cc
