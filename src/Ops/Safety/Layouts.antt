-- ===== src/Ops/Safety/Layouts.antt =====
-- Postconditions of the slicing and joining rules of crates/knok-core/src/ops/rules.rs.
use knok.Base.{
  ℕ, suc, ◌+◌, ◌*◌, ◌≤◌, ◌<◌, ◌≡◌, refl, ap, ◌∙◌, Bool, true, false, List, [], ◌∷◌, length,
  get_elem?, set, sum, map, some, ltb, ◌==◌, ==_iff, not, ◌||◌, rejected, traverse, arith,
}
use knok.Base.Ensures.{
  Ensures, returns, ◌⟫◌, weaken, map_err-Ensures, reject_if-Ensures, index-Ensures, store-Ensures,
  add-Ensures, mul-Ensures, sum-Ensures,
}
use knok.Ast.Types.{TensorType, rank, elem_eq, elem_eq_iff}
use knok.Ops.Layout.{
  slice_rounds, validate_slice, pad_rounds, validate_pad, section_type, split_result_types,
  tile_rounds, tile_result_type, repeat_result_type,
}
use knok.Ops.Safety.Common.{expect_axis-Ensures}

-- Every window `start .. start + size` lies in its dimension.
abbrev pub Within : List ℕ → List ℕ → List ℕ → Type 0
Within (start ∷ starts) (size ∷ sizes) (dim ∷ dims) =
    (start + size ≤ dim) × Within starts sizes dims
Within _ _ _ = Unit

-- Each dimension times its multiple.
abbrev pub scaled : List ℕ → List ℕ → List ℕ
scaled (dim ∷ dims) (multiple ∷ multiples) = (dim * multiple) ∷ scaled dims multiples
scaled _ _ = []

first_of_two : (a b : Bool) → (not a || not b) ≡ false → a ≡ true
first_of_two a b h = ground arith

second_of_two : (a b : Bool) → (not a || not b) ≡ false → b ≡ true
second_of_two a b h = ground arith

module _ (c : Bool) where
  slice_rounds-Ensures :
      (axis : ℕ) (starts sizes dims : List ℕ)
      → Ensures c (λ _. c ≡ true → Within starts sizes dims) (slice_rounds c axis starts sizes dims)
  unfolding slice_rounds
  slice_rounds-Ensures axis (start ∷ starts) (size ∷ sizes) (dim ∷ dims) =
      add-Ensures c start size ⟫ λ end p. reject_if-Ensures (ltb dim end) _ ⟫ λ _ q.
      weaken (slice_rounds-Ensures (suc axis) starts sizes dims) (λ _ r on. (fits (p on) q, r on))
    where
      fits : {end : ℕ} → end ≡ start + size → ltb dim end ≡ false → start + size ≤ dim
      fits p q = ground arith
  slice_rounds-Ensures axis [] sizes dims = returns (λ _. tt)
  slice_rounds-Ensures axis (start ∷ starts) [] dims = returns (λ _. tt)
  slice_rounds-Ensures axis (start ∷ starts) (size ∷ sizes) [] = returns (λ _. tt)

  pub validate_slice-Ensures :
      (input target : TensorType) (starts : List ℕ)
      → Ensures c
          (λ _.
            (input.elem ≡ target.elem)
            × (length input.shape ≡ length target.shape)
            × (length starts ≡ length input.shape)
            × (c ≡ true → Within starts target.shape input.shape))
          (validate_slice c input target starts)
  unfolding validate_slice rank
  validate_slice-Ensures input target starts =
      reject_if-Ensures (not (elem_eq input.elem target.elem)) _ ⟫ λ _ elems.
      reject_if-Ensures
        (not (length input.shape == length target.shape)
          || not (length starts == length input.shape))
        _
      ⟫ λ _ ranks. weaken (slice_rounds-Ensures 0 starts target.shape input.shape) (λ _ w. (
        (elem_eq_iff _ _).0 (rejected _ elems),
        (==_iff _ _).0 (first_of_two _ _ ranks),
        (==_iff _ _).0 (second_of_two _ _ ranks),
        w,
      ))

  pad_rounds-Ensures :
      (axis : ℕ) (dims targets lows : List ℕ)
      → Ensures c (λ _. c ≡ true → Within dims lows targets) (pad_rounds c axis dims targets lows)
  unfolding pad_rounds
  pad_rounds-Ensures axis (dim ∷ dims) (target ∷ targets) (low ∷ lows) =
      add-Ensures c dim low ⟫ λ end p. reject_if-Ensures (ltb target end) _ ⟫ λ _ q.
      weaken (pad_rounds-Ensures (suc axis) dims targets lows) (λ _ r on. (fits (p on) q, r on))
    where
      fits : {end : ℕ} → end ≡ dim + low → ltb target end ≡ false → dim + low ≤ target
      fits p q = ground arith
  pad_rounds-Ensures axis [] targets lows = returns (λ _. tt)
  pad_rounds-Ensures axis (dim ∷ dims) [] [] = returns (λ _. tt)
  pad_rounds-Ensures axis (dim ∷ dims) [] (low ∷ lows) = returns (λ _. tt)
  pad_rounds-Ensures axis (dim ∷ dims) (target ∷ targets) [] = returns (λ _. tt)

  pub validate_pad-Ensures :
      (input target : TensorType) (lows : List ℕ)
      → Ensures c
          (λ _.
            (input.elem ≡ target.elem)
            × (length input.shape ≡ length target.shape)
            × (length lows ≡ length input.shape)
            × (c ≡ true → Within input.shape lows target.shape))
          (validate_pad c input target lows)
  unfolding validate_pad rank
  validate_pad-Ensures input target lows =
      reject_if-Ensures (not (elem_eq input.elem target.elem)) _ ⟫ λ _ elems.
      reject_if-Ensures
        (not (length input.shape == length target.shape) || not (length lows == length input.shape))
        _
      ⟫ λ _ ranks. weaken (pad_rounds-Ensures 0 input.shape target.shape lows) (λ _ w. (
        (elem_eq_iff _ _).0 (rejected _ elems),
        (==_iff _ _).0 (first_of_two _ _ ranks),
        (==_iff _ _).0 (second_of_two _ _ ranks),
        w,
      ))

  tile_rounds-Ensures :
      (dims multiples : List ℕ)
      → Ensures c (λ out. c ≡ true → out ≡ scaled dims multiples) (tile_rounds c dims multiples)
  unfolding tile_rounds
  tile_rounds-Ensures (dim ∷ dims) (multiple ∷ multiples) = mul-Ensures c dim multiple ⟫ λ tiled p.
      tile_rounds-Ensures dims multiples ⟫ λ rest q. returns (λ on. rw (p on, q on) refl)
  tile_rounds-Ensures [] multiples = returns (λ _. refl)
  tile_rounds-Ensures (dim ∷ dims) [] = returns (λ _. refl)

  pub tile_result_type-Ensures :
      (input : TensorType) (multiples : List ℕ)
      → Ensures c
          (λ out.
            (out.elem ≡ input.elem)
            × (length multiples ≡ length input.shape)
            × (c ≡ true → out.shape ≡ scaled input.shape multiples))
          (tile_result_type c input multiples)
  unfolding tile_result_type rank
  tile_result_type-Ensures input multiples =
      reject_if-Ensures (not (length multiples == length input.shape)) _ ⟫ λ _ l.
      tile_rounds-Ensures input.shape multiples ⟫ λ shape p.
      returns (refl, (==_iff _ _).0 (rejected _ l), p)

  pub repeat_result_type-Ensures :
      (input : TensorType) (axis count : ℕ)
      → Ensures c
          (λ out.
            (out.elem ≡ input.elem)
            × ((d : ℕ) × (n : ℕ) × (get_elem? input.shape axis ≡ some d)
                × (c ≡ true → n ≡ d * count)
                × (out.shape ≡ set input.shape axis n)))
          (repeat_result_type c input axis count)
  unfolding repeat_result_type
  repeat_result_type-Ensures input axis count =
      map_err-Ensures _ (expect_axis-Ensures input axis) ⟫ λ _ lt.
      index-Ensures input.shape axis lt ⟫ λ d p. mul-Ensures c d count ⟫ λ n q.
      store-Ensures input.shape axis n lt ⟫ λ shape e. returns (refl, (d, n, p, q, e))

  section_type-Ensures :
      (input : TensorType) (axis section : ℕ)
      → axis < length input.shape
      → Ensures c
          (λ out. out ≡ record input { shape = set input.shape axis section })
          (section_type input axis section)
  unfolding section_type
  section_type-Ensures input axis section lt =
      store-Ensures input.shape axis section lt ⟫ λ shape e.
      returns (ap (λ s. record input { shape = s }) e)

  sections-Ensures :
      (input : TensorType) (axis : ℕ) (sections : List ℕ)
      → axis < length input.shape
      → Ensures c
          (λ outs. outs ≡ map (λ s. record input { shape = set input.shape axis s }) sections)
          (traverse (section_type input axis) sections)
  sections-Ensures input axis [] lt = returns refl
  sections-Ensures input axis (s ∷ sections) lt = section_type-Ensures input axis s lt ⟫ λ out p.
      sections-Ensures input axis sections lt ⟫ λ outs q. returns (rw (p, q) refl)

  -- The sections fill the axis, and each output is the input cut to its section.
  pub split_result_types-Ensures :
      (input : TensorType) (axis : ℕ) (sections : List ℕ)
      → Ensures c
          (λ outs.
            (axis < length input.shape)
            × (c ≡ true → get_elem? input.shape axis ≡ some (sum sections))
            × (outs ≡ map (λ s. record input { shape = set input.shape axis s }) sections))
          (split_result_types c input axis sections)
  unfolding split_result_types
  split_result_types-Ensures input axis sections = expect_axis-Ensures input axis ⟫ λ _ lt.
      sum-Ensures c 0 sections ⟫ λ total p. index-Ensures input.shape axis lt ⟫ λ dim q.
      reject_if-Ensures (not (total == dim)) _ ⟫ λ _ e.
      weaken (sections-Ensures input axis sections lt)
        (λ outs r. (lt, λ on. q ∙ ap some (exact (p on) ((==_iff total dim).0 (rejected _ e))), r))
    where
      exact : {total dim : ℕ} → total ≡ 0 + sum sections → total ≡ dim → dim ≡ sum sections
      exact p e = omega arith
