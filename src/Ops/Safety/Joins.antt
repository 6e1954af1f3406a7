-- ===== src/Ops/Safety/Joins.antt =====
-- Postconditions of the joining and indexing rules of crates/knok-core/src/ops/rules.rs.
use knok.Base.{
  ℕ, zero, suc, ◌+◌, ◌≤◌, ◌<◌, ◌≡◌, ◌≢◌, ◌⊎◌, inl, inr, refl, sym, ap, ap₂, ◌∙◌, subst, Bool, true,
  false, List, [], ◌∷◌, ◌++◌, length, get_elem?, set, take, drop, remove_at, insert_at, some, ok,
  ltb, leb, ◌==◌, ==_iff, not, ◌&&◌, ◌||◌, Bool-cases, rejected, if◌then◌else◌, reject_if, at_dim,
  ◌>>◌, arith,
}
use knok.Base.Usize.{add_usize}
use knok.Base.Ensures.{
  Ensures, returns, ◌⟫◌, weaken, require-Ensures, reject_if-Ensures, index-Ensures, remove-Ensures,
  insert-Ensures, slice_to-Ensures, slice_from-Ensures, add-Ensures,
}
use knok.Ast.Types.{
  TensorType, rank, elem_eq, elem_eq_iff, shape_eq, shape_eq_sound, type_eq, type_eq_sound,
}
use knok.Ops.Layout.{
  drop_ones, take_result_type, gather_result_type, take_along_rounds, take_along_axis_result_type,
  validate_squeeze, validate_unsqueeze, stack_result_type, concat_rounds, concat_result_type,
}
use knok.Ops.Safety.Common.{expect_axis-Ensures, expect_index-Ensures}

-- Two shapes that differ at most at `axis`, where the second has `b`.
abbrev pub DifferAt : List ℕ → List ℕ → ℕ → ℕ → Type 0
DifferAt l r axis b = r ≡ set l axis b

-- From place `dim` on, two lists of dimensions are joined along `axis`.
abbrev Joined : Bool → ℕ → ℕ → List ℕ → List ℕ → List ℕ → Type 0
Joined c axis dim [] rs out = out ≡ []
Joined c axis dim (l ∷ ls) [] out = ⊥
Joined c axis dim (l ∷ ls) (r ∷ rs) [] = ⊥
Joined c axis dim (l ∷ ls) (r ∷ rs) (o ∷ out) =
    (((dim ≡ axis) × (c ≡ true → o ≡ l + r)) ⊎ ((dim ≢ axis) × (l ≡ r) × (o ≡ l)))
    × Joined c axis (suc dim) ls rs out

drop-uncons :
    (xs : List ℕ) (k : ℕ) {x : ℕ} → get_elem? xs k ≡ some x → drop k xs ≡ x ∷ drop (suc k) xs
drop-uncons [] k p = cc
drop-uncons (y ∷ ys) zero p = cc
drop-uncons (y ∷ ys) (suc k) p = drop-uncons ys k p

module _ (c : Bool) where
  join_dim-Ensures :
      (axis dim l r : ℕ)
      → Ensures c
          (λ o. ((dim ≡ axis) × (c ≡ true → o ≡ l + r)) ⊎ ((dim ≢ axis) × (l ≡ r) × (o ≡ l)))
          (if dim == axis
            then add_usize c l r
            else (reject_if (not (l == r)) (at_dim "concat" dim) >> ok l))
  join_dim-Ensures axis dim l r = elim (Bool-cases (dim == axis)) [
    | inl e ↦ rw e (weaken (add-Ensures c l r) (λ o p. inl ((==_iff dim axis).0 e, p)))
    | inr e ↦ rw e (
        reject_if-Ensures (not (l == r)) _ ⟫ λ _ q.
        returns (inr (ground arith, ground arith, refl)))
  ]

  concat_rounds-Ensures :
      (axis dim : ℕ) (rs ls : List ℕ)
      → dim + length ls ≡ length rs
      → Ensures c (λ out. Joined c axis dim ls (drop dim rs) out) (concat_rounds c axis dim rs ls)
  unfolding concat_rounds
  concat_rounds-Ensures axis dim rs [] h = returns refl
  concat_rounds-Ensures axis dim rs (l ∷ ls) h = index-Ensures rs dim (omega arith) ⟫ λ r p.
      join_dim-Ensures axis dim l r ⟫ λ o q.
      concat_rounds-Ensures axis (suc dim) rs ls (omega arith) ⟫ λ out t.
      returns
        (subst (λ ds. Joined c axis dim (l ∷ ls) ds (o ∷ out)) (sym (drop-uncons rs dim p)) (q, t))

-- Past the axis nothing is added.
Joined-after :
    (c : Bool) (axis dim : ℕ) (ls rs out : List ℕ)
    → axis < dim
    → length ls ≡ length rs
    → Joined c axis dim ls rs out
    → (rs ≡ ls) × (out ≡ ls)
Joined-after c axis dim [] [] out lt l j = (refl, j)
Joined-after c axis dim [] (r ∷ rs) out lt l j = absurd (omega arith)
Joined-after c axis dim (x ∷ ls) [] out lt l j = absurd j
Joined-after c axis dim (x ∷ ls) (r ∷ rs) [] lt l j = absurd j
Joined-after c axis dim (x ∷ ls) (r ∷ rs) (o ∷ out) lt l (inl p, j) = absurd (omega (arith, p.0))
Joined-after c axis dim (x ∷ ls) (r ∷ rs) (o ∷ out) lt l (inr p, j) =
    let q = Joined-after c axis (suc dim) ls rs out (omega arith) (omega arith) j in
    (ap₂ ◌∷◌ (sym p.1) q.0, ap₂ ◌∷◌ p.2 q.1)

-- `r` is `l` with another dimension at `axis`, and the result has the sum there.
abbrev pub Concatenates : Bool → List ℕ → List ℕ → ℕ → List ℕ → Type 0
Concatenates c l r axis out =
    (a : ℕ) × (b : ℕ) × (s : ℕ) × (get_elem? l axis ≡ some a)
    × (r ≡ set l axis b)
    × (out ≡ set l axis s)
    × (c ≡ true → s ≡ a + b)

Joined-at :
    (c : Bool) (k dim : ℕ) (ls rs out : List ℕ)
    → k < length ls
    → length ls ≡ length rs
    → Joined c (dim + k) dim ls rs out
    → Concatenates c ls rs k out
Joined-at c k dim [] rs out lt l j = elim lt [ ]
Joined-at c k dim (x ∷ ls) [] out lt l j = absurd j
Joined-at c k dim (x ∷ ls) (r ∷ rs) [] lt l j = absurd j
Joined-at c zero dim (x ∷ ls) (r ∷ rs) (o ∷ out) lt l (inl p, j) =
    let q = Joined-after c (dim + 0) (suc dim) ls rs out (omega arith) (omega arith) j in
    (x, r, o, refl, ap (◌∷◌ r) q.0, ap (◌∷◌ o) q.1, p.1)
Joined-at c zero dim (x ∷ ls) (r ∷ rs) (o ∷ out) lt l (inr p, j) = absurd (p.0 (omega arith))
Joined-at c (suc k) dim (x ∷ ls) (r ∷ rs) (o ∷ out) lt l (inl p, j) = absurd (omega (arith, p.0))
Joined-at c (suc k) dim (x ∷ ls) (r ∷ rs) (o ∷ out) lt l (inr p, j) =
    let (a, b, s, q, e, f, g) =
      Joined-at c k (suc dim) ls rs out (omega arith) (omega arith)
        (subst (λ t. Joined c t (suc dim) ls rs out) (omega arith) j) in
    (a, b, s, q, ap₂ ◌∷◌ (sym p.1) e, ap₂ ◌∷◌ p.2 f, g)

module _ (c : Bool) where
  pub concat_result_type-Ensures :
      (l r : TensorType) (axis : ℕ)
      → Ensures c
          (λ out.
            (l.elem ≡ r.elem) × (out.elem ≡ l.elem) × Concatenates c l.shape r.shape axis out.shape)
          (concat_result_type c l r axis)
  unfolding concat_result_type rank
  concat_result_type-Ensures l r axis =
      reject_if-Ensures (not (elem_eq l.elem r.elem) || not (length l.shape == length r.shape)) _
      ⟫ λ _ form.
          let e : l.elem ≡ r.elem = (elem_eq_iff _ _).0 (left_of _ _ form) in
          let n : length l.shape ≡ length r.shape = (==_iff _ _).0 (right_of _ _ form) in
          expect_axis-Ensures l axis ⟫ λ _ lt.
          concat_rounds-Ensures c axis 0 r.shape l.shape (omega arith) ⟫ λ shape j. returns (
            e,
            refl,
            Joined-at c axis 0 l.shape r.shape shape lt n
                (subst (λ t. Joined c t 0 l.shape r.shape shape) (omega arith) j),
          )
    where
      left_of : (a b : Bool) → (not a || not b) ≡ false → a ≡ true
      left_of a b h = ground arith

      right_of : (a b : Bool) → (not a || not b) ≡ false → b ≡ true
      right_of a b h = ground arith

  pub stack_result_type-Ensures :
      (l r : TensorType) (axis : ℕ)
      → Ensures c
          (λ out.
            (l ≡ r)
            × (axis ≤ length l.shape)
            × (out ≡ record l { shape = insert_at l.shape axis 2 }))
          (stack_result_type l r axis)
  unfolding stack_result_type rank
  stack_result_type-Ensures l r axis = reject_if-Ensures (not (type_eq l r)) _ ⟫ λ _ same.
      reject_if-Ensures (ltb (length l.shape) axis) _ ⟫ λ _ inside.
      let h : axis ≤ length l.shape = ground arith in
      insert-Ensures l.shape axis 2 h ⟫ λ shape e.
      returns (type_eq_sound l r (rejected _ same), h, ap (λ s. record l { shape = s }) e)

  pub take_result_type-Ensures :
      (input : TensorType) (axis place : ℕ)
      → Ensures c
          (λ out.
            ((d : ℕ) × (get_elem? input.shape axis ≡ some d) × (place < d))
            × (out ≡ record input { shape = remove_at input.shape axis }))
          (take_result_type input axis place)
  unfolding take_result_type
  take_result_type-Ensures input axis place = expect_axis-Ensures input axis ⟫ λ _ lt.
      index-Ensures input.shape axis lt ⟫ λ d p. reject_if-Ensures (leb d place) _ ⟫ λ _ q.
      remove-Ensures input.shape axis lt ⟫ λ r (at, e).
      returns ((d, p, ground arith), ap (λ s. record input { shape = s }) e)

  pub gather_result_type-Ensures :
      (input indices target : TensorType) (axis : ℕ)
      → Ensures c
          (λ out.
            (out ≡ target)
            × (input.elem ≡ target.elem)
            × (axis < length input.shape)
            × (target.shape
                ≡ take axis input.shape ++ (indices.shape ++ drop (suc axis) input.shape)))
          (gather_result_type input indices target axis)
  unfolding gather_result_type
  gather_result_type-Ensures input indices target axis = expect_axis-Ensures input axis ⟫ λ _ lt.
      expect_index-Ensures indices.elem _ ⟫ λ _ _.
      reject_if-Ensures (not (elem_eq input.elem target.elem)) _ ⟫ λ _ elems.
      slice_to-Ensures input.shape axis (omega arith) ⟫ λ before p.
      slice_from-Ensures input.shape (suc axis) lt ⟫ λ after q.
      reject_if-Ensures (not (shape_eq (before ++ (indices.shape ++ after)) target.shape)) _
      ⟫ λ _ e. returns (
        refl,
        (elem_eq_iff _ _).0 (rejected _ elems),
        lt,
        rw (← p, ← q) (sym (shape_eq_sound _ _ (rejected _ e))),
      )

  take_along_rounds-Ensures :
      (axis : ℕ) (input_dims index_dims : List ℕ) (rounds dim : ℕ)
      → dim + rounds ≡ length input_dims
      → length input_dims ≡ length index_dims
      → Ensures c
          (λ _.
            (i : ℕ)
            → dim ≤ i
            → i < length input_dims
            → i ≢ axis
            → get_elem? input_dims i ≡ get_elem? index_dims i)
          (take_along_rounds axis input_dims index_dims rounds dim)
  unfolding take_along_rounds
  take_along_rounds-Ensures axis input_dims index_dims zero dim h l =
      returns (λ i p q. absurd (omega arith))
  take_along_rounds-Ensures axis input_dims index_dims (suc rounds) dim h l =
      index-Ensures input_dims dim (omega arith) ⟫ λ a p.
      index-Ensures index_dims dim (omega arith) ⟫ λ b q.
      reject_if-Ensures (not (dim == axis) && not (a == b)) _ ⟫ λ _ same.
      weaken (take_along_rounds-Ensures axis input_dims index_dims rounds (suc dim) (omega arith) l)
        (λ _ rest i lo hi ne. elim (Bool-cases (dim == i)) [
          | inl e ↦ here a b ((==_iff dim i).0 e) ne p q same
          | inr e ↦ rest i (ground arith) hi ne
        ])
    where
      here :
          {i : ℕ} (a b : ℕ)
          → dim ≡ i
          → i ≢ axis
          → get_elem? input_dims dim ≡ some a
          → get_elem? index_dims dim ≡ some b
          → (not (dim == axis) && not (a == b)) ≡ false
          → get_elem? input_dims i ≡ get_elem? index_dims i
      here a b e ne p q same =
          rw (← e) (p ∙ (ap some (equal a b (λ k. ne (sym e ∙ k)) same) ∙ sym q))
        where
          equal : (a b : ℕ) → dim ≢ axis → (not (dim == axis) && not (a == b)) ≡ false → a ≡ b
          equal a b ne h = ground arith

  pub take_along_axis_result_type-Ensures :
      (input indices : TensorType) (axis : ℕ)
      → Ensures c
          (λ out.
            (axis < length input.shape)
            × (length input.shape ≡ length indices.shape)
            × ((i : ℕ)
                → i < length input.shape
                → i ≢ axis
                → get_elem? input.shape i ≡ get_elem? indices.shape i)
            × (out ≡ record { elem = input.elem; shape = indices.shape }))
          (take_along_axis_result_type input indices axis)
  unfolding take_along_axis_result_type rank
  take_along_axis_result_type-Ensures input indices axis = expect_axis-Ensures input axis ⟫ λ _ lt.
      expect_index-Ensures indices.elem _ ⟫ λ _ _.
      reject_if-Ensures (not (length input.shape == length indices.shape)) _ ⟫ λ _ ranks.
      let l : length input.shape ≡ length indices.shape = (==_iff _ _).0 (rejected _ ranks) in
      take_along_rounds-Ensures axis input.shape indices.shape (length input.shape) 0 (omega arith)
        l
      ⟫ λ _ same. returns (lt, l, λ i hi ne. same i (omega arith) hi ne, refl)

  pub validate_squeeze-Ensures :
      (input target : TensorType)
      → Ensures c
          (λ _. (input.elem ≡ target.elem) × (drop_ones input.shape ≡ target.shape))
          (validate_squeeze input target)
  unfolding validate_squeeze
  validate_squeeze-Ensures input target =
      reject_if-Ensures (not (elem_eq input.elem target.elem)) _ ⟫ λ _ elems.
      weaken (require-Ensures (shape_eq (drop_ones input.shape) target.shape) _)
        (λ _ e. ((elem_eq_iff _ _).0 (rejected _ elems), shape_eq_sound _ _ e))

  -- The target without its ones is the input, or both hold one element and no other dimension.
  pub validate_unsqueeze-Ensures :
      (input target : TensorType)
      → Ensures c
          (λ _.
            (input.elem ≡ target.elem)
            × ((drop_ones target.shape ≡ input.shape)
                ⊎ ((input.shape ≡ 1 ∷ []) × (drop_ones target.shape ≡ []))))
          (validate_unsqueeze input target)
  unfolding validate_unsqueeze
  validate_unsqueeze-Ensures input target =
      reject_if-Ensures (not (elem_eq input.elem target.elem)) _ ⟫ λ _ elems.
      weaken
        (require-Ensures
          (shape_eq (drop_ones target.shape) input.shape
            || shape_eq (drop_ones target.shape)
                (if shape_eq input.shape (1 ∷ []) then [] else input.shape))
          _)
        (λ _ e. (
          (elem_eq_iff _ _).0 (rejected _ elems),
          either (Bool-cases (shape_eq input.shape (1 ∷ []))) (or_cases _ _ e),
        ))
    where
      or_cases : (a b : Bool) → (a || b) ≡ true → (a ≡ true) ⊎ (b ≡ true)
      or_cases a b h = ground arith

      either :
          (shape_eq input.shape (1 ∷ []) ≡ true) ⊎ (shape_eq input.shape (1 ∷ []) ≡ false)
          → (shape_eq (drop_ones target.shape) input.shape ≡ true)
            ⊎ (shape_eq
                  (drop_ones target.shape)
                  (if shape_eq input.shape (1 ∷ []) then [] else input.shape)
                ≡ true)
          → (drop_ones target.shape ≡ input.shape)
            ⊎ ((input.shape ≡ 1 ∷ []) × (drop_ones target.shape ≡ []))
      either p (inl q) = inl (shape_eq_sound _ _ q)
      either (inl p) (inr q) = inr (shape_eq_sound _ _ p, shape_eq_sound _ _ (rw p at q))
      either (inr p) (inr q) = inl (shape_eq_sound _ _ (rw p at q))
