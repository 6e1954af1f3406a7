-- ===== src/Ops/Safety/Reorder.antt =====
-- Postconditions of the reordering rules of crates/knok-core/src/ops/permute.rs and rules.rs: the
-- result's dimensions are the input's in another order.
use mathlib.Core.List.{Perm, reverse_perm, append-nil}
use mathlib.Core.List.Perm
use knok.Base.{
  ℕ, zero, suc, ◌+◌, ◌<◌, ◌≡◌, refl, sym, ap, ap₂, ◌∙◌, subst, map, ok, ok_injective, traverse-cons,
  Bool, true, false, List, [], ◌∷◌, ◌++◌, length, length-set, length-replicate, get_elem?,
  get_elem?-lt, set, replicate, Option, some, String, Error, leb, ◌==◌, ==_iff, not, ◌||◌, rejected,
  arith,
}
use knok.Base.Ensures.{
  Ensures, returns, ◌⟫◌, weaken, with_equation, reject_if-Ensures, index-Ensures, store-Ensures,
  swap-Ensures,
}
use knok.Base.Vec.{index, index-eq-ok}
use knok.Ast.Types.{TensorType, rank, elem_eq, elem_eq_iff, shape_eq, shape_eq_sound}
use knok.Ops.Permute.{
  check_axes, select_dims, validate_permute, validate_axis_permutation, validate_axis_list,
  permute_dims_result_type, transpose_result_type, swapaxes_result_type,
}
use knok.Ops.Safety.Common.{expect_axis-Ensures}

-- `axes` marks places that were not marked before, one after the other, and leaves `final`.
abbrev pub Marks : List Bool → List ℕ → List Bool → Type 0
Marks seen [] final = final ≡ seen
Marks seen (axis ∷ axes) final =
    (get_elem? seen axis ≡ some false) × Marks (set seen axis true) axes final

-- The dimensions whose places are not marked.
abbrev unmarked : List Bool → List ℕ → List ℕ
unmarked [] dims = []
unmarked (b ∷ seen) [] = []
unmarked (true ∷ seen) (dim ∷ dims) = unmarked seen dims
unmarked (false ∷ seen) (dim ∷ dims) = dim ∷ unmarked seen dims

abbrev free : List Bool → ℕ
free [] = 0
free (true ∷ seen) = free seen
free (false ∷ seen) = suc (free seen)

-- Marking a free place takes its dimension out of the unmarked ones.
mark_one :
    (seen : List Bool) (dims : List ℕ) (axis : ℕ) {d : ℕ}
    → get_elem? seen axis ≡ some false
    → get_elem? dims axis ≡ some d
    → Perm (unmarked seen dims) (d ∷ unmarked (set seen axis true) dims)
mark_one [] dims axis p q = cc
mark_one (b ∷ seen) [] axis p q = cc
mark_one (true ∷ seen) (e ∷ dims) zero p q = cc
mark_one (false ∷ seen) (e ∷ dims) zero {d} p q =
    subst (λ x. Perm (e ∷ unmarked seen dims) (x ∷ unmarked seen dims)) (same q)
      (Perm.refl (e ∷ unmarked seen dims))
  where
    same : some e ≡ some d → e ≡ d
    same q = cc
mark_one (true ∷ seen) (e ∷ dims) (suc axis) p q = mark_one seen dims axis p q
mark_one (false ∷ seen) (e ∷ dims) (suc axis) {d} p q =
    Perm.trans (Perm.cons e (mark_one seen dims axis p q))
      (Perm.swap d e (unmarked (set seen axis true) dims))

mark_free :
    (seen : List Bool) (axis : ℕ)
    → get_elem? seen axis ≡ some false
    → free seen ≡ suc (free (set seen axis true))
mark_free [] axis p = cc
mark_free (true ∷ seen) zero p = cc
mark_free (false ∷ seen) zero p = refl
mark_free (true ∷ seen) (suc axis) p = mark_free seen axis p
mark_free (false ∷ seen) (suc axis) p = ap suc (mark_free seen axis p)

Marks-free :
    (seen : List Bool) (axes : List ℕ) (final : List Bool)
    → Marks seen axes final
    → free seen ≡ length axes + free final
Marks-free seen [] final m = rw m (omega arith)
Marks-free seen (axis ∷ axes) final m =
    omega (arith, mark_free seen axis m.0, Marks-free (set seen axis true) axes final m.1)

unmarked_none : (seen : List Bool) (dims : List ℕ) → free seen ≡ 0 → unmarked seen dims ≡ []
unmarked_none [] dims h = refl
unmarked_none (b ∷ seen) [] h = refl
unmarked_none (true ∷ seen) (d ∷ dims) h = unmarked_none seen dims h
unmarked_none (false ∷ seen) (d ∷ dims) h = absurd (omega arith)

unmarked_all : (dims : List ℕ) → unmarked (replicate (length dims) false) dims ≡ dims
unmarked_all [] = refl
unmarked_all (d ∷ dims) = ap (◌∷◌ d) (unmarked_all dims)

free_all : (n : ℕ) → free (replicate n false) ≡ n
free_all zero = refl
free_all (suc n) = ap suc (free_all n)

false_at : (b : Bool) {x : Option Bool} → b ≡ false → x ≡ some b → x ≡ some false
false_at b p q = cc

module _ (c : Bool) where
  check_axes-Ensures :
      (outside twice : Error) (n : ℕ) (seen : List Bool) (axes : List ℕ)
      → length seen ≡ n
      → Ensures c
          (λ _. (final : List Bool) × Marks seen axes final)
          (check_axes outside twice n seen axes)
  unfolding check_axes
  check_axes-Ensures outside twice n seen [] l = returns (seen, refl)
  check_axes-Ensures outside twice n seen (axis ∷ axes) l =
      reject_if-Ensures (leb n axis) outside ⟫ λ _ inside.
      index-Ensures seen axis (ground arith) ⟫ λ before p.
      reject_if-Ensures before twice ⟫ λ _ fresh.
      store-Ensures seen axis true (ground arith) ⟫ λ seen' e.
      weaken
        (check_axes-Ensures outside twice n seen' axes
          (ap length e ∙ (length-set seen axis true ∙ l)))
        (λ _ (final, m). (final, (false_at before fresh p, subst (λ s. Marks s axes final) e m)))

  select_dims-Ensures :
      (shape : List ℕ) (seen : List Bool) (axes : List ℕ) (final : List Bool)
      → length seen ≡ length shape
      → Marks seen axes final
      → Ensures c
          (λ out. Perm (unmarked seen shape) (out ++ unmarked final shape))
          (select_dims shape axes)
  unfolding select_dims
  select_dims-Ensures shape seen [] final l m = returns (rw m (Perm.refl _))
  select_dims-Ensures shape seen (axis ∷ axes) final l m =
      index-Ensures shape axis (in_range seen axis l m.0) ⟫ λ d p.
      select_dims-Ensures shape (set seen axis true) axes final (length-set seen axis true ∙ l) m.1
      ⟫ λ ds q. returns (Perm.trans (mark_one seen shape axis m.0 p) (Perm.cons d q))
    where
      in_range :
          (seen : List Bool) (axis : ℕ)
          → length seen ≡ length shape
          → get_elem? seen axis ≡ some false
          → axis < length shape
      in_range seen axis l h = omega (arith, get_elem?-lt seen axis h)

-- The dimension at each place of `out` is that of `shape` at the axis which stands at that place.
abbrev pub Takes : List ℕ → List ℕ → List ℕ → Type 0
Takes shape axes out = map some out ≡ map (get_elem? shape) axes

select_dims-Takes :
    (shape axes : List ℕ) {out : List ℕ} → select_dims shape axes ≡ ok out → Takes shape axes out
unfolding select_dims
select_dims-Takes shape [] h = ap (map some) (sym (ok_injective h))
select_dims-Takes shape (axis ∷ axes) h =
    let (d, rest, p, q, e) = traverse-cons (index shape) axis axes h in
    subst (λ out. map some out ≡ map (get_elem? shape) (axis ∷ axes)) e
      (ap₂ ◌∷◌ (sym (index-eq-ok shape axis p)) (select_dims-Takes shape axes q))

-- Axes that mark every place once.
abbrev pub Permutes : ℕ → List ℕ → Type 0
Permutes n axes = (length axes ≡ n) × ((final : List Bool) × Marks (replicate n false) axes final)

no_free : (n : ℕ) (axes : List ℕ) (p : Permutes n axes) → free p.1.0 ≡ 0
no_free n axes p = omega (arith, p.0, free_all n, Marks-free (replicate n false) axes p.1.0 p.1.1)

module _ (c : Bool) where
  -- Taking the dimensions in the order of a permutation of the axes reorders the shape.
  pub select_permuted-Ensures :
      (shape axes : List ℕ)
      → Permutes (length shape) axes
      → Ensures c (λ out. Perm shape out × Takes shape axes out) (select_dims shape axes)
  select_permuted-Ensures shape axes p =
      let (l, (final, m)) = p in
      weaken
        (with_equation (
          select_dims-Ensures c shape (replicate (length shape) false) axes final
            (length-replicate _ false) m))
        (λ out (q, e).
          (whole out final (no_free (length shape) axes p) q, select_dims-Takes shape axes e))
    where
      whole :
          (out : List ℕ) (final : List Bool)
          → free final ≡ 0
          → Perm (unmarked (replicate (length shape) false) shape) (out ++ unmarked final shape)
          → Perm shape out
      whole out final z q =
          subst (Perm shape) (ap (λ r. out ++ r) (unmarked_none final shape z) ∙ append-nil out)
            (subst (λ s. Perm s (out ++ unmarked final shape)) (unmarked_all shape) q)

  pub validate_axis_permutation-Ensures :
      (input : TensorType) (axes : List ℕ) (op_name : String)
      → Ensures c
          (λ _. Permutes (length input.shape) axes)
          (validate_axis_permutation input axes op_name)
  unfolding validate_axis_permutation rank
  validate_axis_permutation-Ensures input axes op_name =
      reject_if-Ensures (not (length axes == length input.shape)) _ ⟫ λ _ l.
      weaken (check_axes-Ensures c _ _ (length input.shape) _ axes (length-replicate _ false))
        (λ _ m. ((==_iff _ _).0 (rejected _ l), m))

  pub validate_permute-Ensures :
      (input target : TensorType) (axes : List ℕ)
      → Ensures c
          (λ _.
            (input.elem ≡ target.elem)
            × Permutes (length input.shape) axes
            × Perm input.shape target.shape
            × Takes input.shape axes target.shape)
          (validate_permute input target axes)
  unfolding validate_permute rank
  validate_permute-Ensures input target axes =
      reject_if-Ensures (not (elem_eq input.elem target.elem)) _ ⟫ λ _ elems.
      reject_if-Ensures
        (not (length axes == length input.shape) || not (length target.shape == length input.shape))
        _
      ⟫ λ _ ranks.
          check_axes-Ensures c _ _ (length input.shape) _ axes (length-replicate _ false) ⟫ λ _ m.
          let p : Permutes (length input.shape) axes =
            ((==_iff _ _).0 (first_of_two _ _ ranks), m) in
          select_permuted-Ensures input.shape axes p ⟫ λ expected q.
          weaken (reject_if-Ensures (not (shape_eq expected target.shape)) _) (λ _ e. (
            (elem_eq_iff _ _).0 (rejected _ elems),
            p,
            subst (Perm input.shape) (shape_eq_sound _ _ (rejected _ e)) q.0,
            subst (Takes input.shape axes) (shape_eq_sound _ _ (rejected _ e)) q.1,
          ))
    where
      first_of_two : (a b : Bool) → (not a || not b) ≡ false → a ≡ true
      first_of_two a b h = ground arith

  pub validate_axis_list-Ensures :
      (input : TensorType) (axes : List ℕ) (op_name : String)
      → Ensures c (λ _. Unit {0}) (validate_axis_list input axes op_name)
  unfolding validate_axis_list rank
  validate_axis_list-Ensures input axes op_name =
      weaken (check_axes-Ensures c _ _ (length input.shape) _ _ (length-replicate _ false))
        (λ _ _. tt)

-- A type with the same elements and the dimensions in another order.
abbrev pub Reorders : TensorType → TensorType → Type 0
Reorders input out = (out.elem ≡ input.elem) × Perm input.shape out.shape

-- The same with the order that the axes give, which name each place once.
abbrev pub ReordersBy : TensorType → List ℕ → TensorType → Type 0
ReordersBy input axes out =
    Reorders input out × Permutes (length input.shape) axes × Takes input.shape axes out.shape

module _ (c : Bool) where
  pub permute_dims_result_type-Ensures :
      (input : TensorType) (axes : List ℕ) (op_name : String)
      → Ensures c (ReordersBy input axes) (permute_dims_result_type input axes op_name)
  unfolding permute_dims_result_type
  permute_dims_result_type-Ensures input axes op_name =
      validate_axis_permutation-Ensures c input axes op_name ⟫ λ _ p.
      select_permuted-Ensures c input.shape axes p ⟫ λ shape q. returns ((refl, q.0), p, q.1)

  pub transpose_result_type-Ensures :
      (input : TensorType) (axes : List ℕ)
      → Ensures c (Reorders input) (transpose_result_type input axes)
  unfolding transpose_result_type
  transpose_result_type-Ensures input [] = returns (refl, Perm.symm (reverse_perm input.shape))
  transpose_result_type-Ensures input (axis ∷ axes) =
      weaken (permute_dims_result_type-Ensures input (axis ∷ axes) "transpose") (λ _ p. p.0)

  -- The dimension at `axis0` and that at `axis1` change places.
  pub swapaxes_result_type-Ensures :
      (input : TensorType) (axis0 axis1 : ℕ)
      → Ensures c
          (λ out.
            (out.elem ≡ input.elem)
            × ((a : ℕ) × (b : ℕ) × (get_elem? input.shape axis0 ≡ some a)
                × (get_elem? input.shape axis1 ≡ some b)
                × (out.shape ≡ set (set input.shape axis0 b) axis1 a)))
          (swapaxes_result_type input axis0 axis1)
  unfolding swapaxes_result_type
  swapaxes_result_type-Ensures input axis0 axis1 = expect_axis-Ensures input axis0 ⟫ λ _ lt0.
      expect_axis-Ensures input axis1 ⟫ λ _ lt1.
      swap-Ensures input.shape axis0 axis1 lt0 lt1 ⟫ λ shape e. returns (refl, e)
