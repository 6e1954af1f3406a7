-- ===== src/Ops/Safety/Elements.antt =====
-- Postconditions of the elementwise rules of crates/knok-core/src/ops/rules.rs.
use knok.Base.{
  ℕ, ◌≡◌, refl, sym, ◌∙◌, Bool, true, false, List, [], ◌∷◌, length, product, String, ◌==◌, ==_iff,
  not, ◌||◌, rejected, arith,
}
use knok.Base.Ensures.{Ensures, returns, ◌⟫◌, weaken, map_err-Ensures, reject_if-Ensures}
use knok.Ast.Types.{
  ElementType, TensorType, rank, elem_eq, elem_eq_iff, is_numeric, is_bool, AxisSpec,
}
use knok.Ast.Op.{CallOp}
use knok.Ops.Common.{broadcast_shape}
use knok.Ops.Broadcast.{Broadcasts}
use knok.Ops.Elementwise.{
  binary_result_type, predicate_result_type, comparison_result_type, equality_result_type,
  logical_result_type, where_result_type, expect_random_key, random_bounds_result_type,
  arg_reduction, ordered_reduction, float_reduction, ptp_rule, softmax_rule, reshape_rule,
  broadcast_rule, clip_rule, full_like_rule, float_unary,
}
use knok.Ops.Safety.Common.{
  expect_numeric-Ensures, expect_bool-Ensures, expect_float-Ensures, expect_ordered-Ensures,
  expect_non_empty_reduction-Ensures, reduction_output_type-Ensures, element_count-Ensures,
  broadcast-Ensures, reduced,
}

-- A result of element type `elem` over the two operands' common shape.
abbrev pub Combines : ElementType → TensorType → TensorType → TensorType → Type 0
Combines elem l r out = (out.elem ≡ elem) × Broadcasts l.shape r.shape out.shape

module _ (c : Bool) where
  broadcast_shape-Ensures :
      (l r : TensorType) → Ensures c (Broadcasts l.shape r.shape) (broadcast_shape c l r)
  unfolding broadcast_shape
  broadcast_shape-Ensures l r = broadcast-Ensures c l.shape r.shape

  pub binary_result_type-Ensures :
      (l r : TensorType)
      → Ensures c
          (λ out. (is_numeric l.elem ≡ true) × (l.elem ≡ r.elem) × Combines l.elem l r out)
          (binary_result_type c l r)
  unfolding binary_result_type
  binary_result_type-Ensures l r = expect_numeric-Ensures l.elem _ ⟫ λ _ n.
      expect_numeric-Ensures r.elem _ ⟫ λ _ _.
      reject_if-Ensures (not (elem_eq l.elem r.elem)) _ ⟫ λ _ e.
      map_err-Ensures _ (broadcast_shape-Ensures l r) ⟫ λ shape b.
      returns (n, (elem_eq_iff _ _).0 (rejected _ e), (refl, b))

  predicate_result_type-Ensures :
      (l r : TensorType) (op_name : String)
      → Ensures c
          (λ out. (l.elem ≡ r.elem) × Combines ElementType.bool l r out)
          (predicate_result_type c l r op_name)
  unfolding predicate_result_type
  predicate_result_type-Ensures l r op_name =
      reject_if-Ensures (not (elem_eq l.elem r.elem)) _ ⟫ λ _ e.
      map_err-Ensures _ (broadcast_shape-Ensures l r) ⟫ λ shape b.
      returns ((elem_eq_iff _ _).0 (rejected _ e), (refl, b))

  pub comparison_result_type-Ensures :
      (l r : TensorType)
      → Ensures c
          (λ out.
            (is_numeric l.elem ≡ true) × (l.elem ≡ r.elem) × Combines ElementType.bool l r out)
          (comparison_result_type c l r)
  unfolding comparison_result_type
  comparison_result_type-Ensures l r = expect_numeric-Ensures l.elem _ ⟫ λ _ n.
      expect_numeric-Ensures r.elem _ ⟫ λ _ _.
      weaken (predicate_result_type-Ensures l r _) (λ out p. (n, p.0, p.1))

  pub equality_result_type-Ensures :
      (l r : TensorType)
      → Ensures c
          (λ out. (l.elem ≡ r.elem) × Combines ElementType.bool l r out)
          (equality_result_type c l r)
  unfolding equality_result_type
  equality_result_type-Ensures l r = predicate_result_type-Ensures l r _

  pub logical_result_type-Ensures :
      (l r : TensorType)
      → Ensures c
          (λ out.
            (is_bool l.elem ≡ true) × (is_bool r.elem ≡ true) × Combines ElementType.bool l r out)
          (logical_result_type c l r)
  unfolding logical_result_type
  logical_result_type-Ensures l r = expect_bool-Ensures l.elem _ ⟫ λ _ p.
      expect_bool-Ensures r.elem _ ⟫ λ _ q.
      map_err-Ensures _ (broadcast_shape-Ensures l r) ⟫ λ shape b. returns (p, q, (refl, b))

  -- The values broadcast together, and the condition with them.
  pub where_result_type-Ensures :
      (condition l r : TensorType)
      → Ensures c
          (λ out.
            (is_bool condition.elem ≡ true)
            × (l.elem ≡ r.elem)
            × (out.elem ≡ l.elem)
            × ((values : List ℕ) × Broadcasts l.shape r.shape values
                × Broadcasts condition.shape values out.shape))
          (where_result_type c condition l r)
  unfolding where_result_type
  where_result_type-Ensures condition l r = expect_bool-Ensures condition.elem _ ⟫ λ _ p.
      reject_if-Ensures (not (elem_eq l.elem r.elem)) _ ⟫ λ _ e.
      map_err-Ensures _ (broadcast_shape-Ensures l r) ⟫ λ values b.
      map_err-Ensures _
        (broadcast_shape-Ensures condition (record { elem = l.elem; shape = values }))
      ⟫ λ shape d. returns (p, (elem_eq_iff _ _).0 (rejected _ e), refl, (values, b, d))

  pub arg_reduction-Ensures :
      (input : TensorType) (axis : AxisSpec) (op_name : String)
      → Ensures c
          (λ out. (out.elem ≡ ElementType.i64) × (out.shape ≡ reduced input.shape axis))
          (arg_reduction c input axis op_name)
  unfolding arg_reduction
  arg_reduction-Ensures input axis op_name = expect_ordered-Ensures input.elem op_name ⟫ λ _ _.
      expect_non_empty_reduction-Ensures c input axis op_name ⟫ λ _ _.
      reduction_output_type-Ensures c input axis ⟫ λ out p. returns (refl, p.1)

  pub ordered_reduction-Ensures :
      (input : TensorType) (axis : AxisSpec) (op_name : String)
      → Ensures c
          (λ out. (out.elem ≡ input.elem) × (out.shape ≡ reduced input.shape axis))
          (ordered_reduction c input axis op_name)
  unfolding ordered_reduction
  ordered_reduction-Ensures input axis op_name = expect_ordered-Ensures input.elem op_name ⟫ λ _ _.
      expect_non_empty_reduction-Ensures c input axis op_name ⟫ λ _ _.
      reduction_output_type-Ensures c input axis

  pub float_reduction-Ensures :
      (op : CallOp) (input : TensorType) (axis : AxisSpec) (op_name : String)
      → Ensures c
          (λ out. (out.elem ≡ input.elem) × (out.shape ≡ reduced input.shape axis))
          (float_reduction c op input axis op_name)
  unfolding float_reduction
  float_reduction-Ensures op input axis op_name = expect_float-Ensures op input.elem ⟫ λ _ _.
      expect_non_empty_reduction-Ensures c input axis op_name ⟫ λ _ _.
      reduction_output_type-Ensures c input axis

  pub ptp_rule-Ensures :
      (input : TensorType) (axis : AxisSpec)
      → Ensures c
          (λ out. (out.elem ≡ input.elem) × (out.shape ≡ reduced input.shape axis))
          (ptp_rule c input axis)
  unfolding ptp_rule
  ptp_rule-Ensures input axis = expect_numeric-Ensures input.elem _ ⟫ λ _ _.
      expect_non_empty_reduction-Ensures c input axis _ ⟫ λ _ _.
      reduction_output_type-Ensures c input axis

  pub softmax_rule-Ensures :
      (op : CallOp) (ty : TensorType) (axis : AxisSpec)
      → Ensures c (λ out. out ≡ ty) (softmax_rule c op ty axis)
  unfolding softmax_rule rank
  softmax_rule-Ensures op ty axis = expect_float-Ensures op ty.elem ⟫ λ _ _.
      reject_if-Ensures (length ty.shape == 0) _ ⟫ λ _ _.
      expect_non_empty_reduction-Ensures c ty axis _ ⟫ λ _ _. returns refl

  -- A reshape keeps the element type and, counted exactly, the number of elements.
  pub reshape_rule-Ensures :
      (input target : TensorType)
      → Ensures c
          (λ out.
            (out ≡ target)
            × (input.elem ≡ target.elem)
            × (c ≡ true → product input.shape ≡ product target.shape))
          (reshape_rule c input target)
  unfolding reshape_rule
  reshape_rule-Ensures input target =
      reject_if-Ensures (not (elem_eq input.elem target.elem)) _ ⟫ λ _ e.
      element_count-Ensures c input ⟫ λ n p. element_count-Ensures c target ⟫ λ m q.
      reject_if-Ensures (not (n == m)) _ ⟫ λ _ s. returns (
        refl,
        (elem_eq_iff _ _).0 (rejected _ e),
        λ on. sym (p on) ∙ ((==_iff _ _).0 (rejected _ s) ∙ q on),
      )

  -- The target is returned as soon as the two shapes have some common shape.
  pub broadcast_rule-Ensures :
      (input target : TensorType)
      → Ensures c
          (λ out.
            (out ≡ target)
            × (input.elem ≡ target.elem)
            × ((s : List ℕ) × Broadcasts input.shape target.shape s))
          (broadcast_rule c input target)
  unfolding broadcast_rule
  broadcast_rule-Ensures input target =
      reject_if-Ensures (not (elem_eq input.elem target.elem)) _ ⟫ λ _ e.
      map_err-Ensures _ (broadcast_shape-Ensures input target) ⟫ λ s b.
      returns (refl, (elem_eq_iff _ _).0 (rejected _ e), (s, b))

  pub clip_rule-Ensures :
      (input low high : TensorType)
      → Ensures c
          (λ out.
            (out.elem ≡ input.elem)
            × ((s : List ℕ) × Broadcasts input.shape low.shape s
                × Broadcasts s high.shape out.shape))
          (clip_rule c input low high)
  unfolding clip_rule
  clip_rule-Ensures input low high = expect_numeric-Ensures input.elem _ ⟫ λ _ _.
      expect_numeric-Ensures low.elem _ ⟫ λ _ _. expect_numeric-Ensures high.elem _ ⟫ λ _ _.
      binary_result_type-Ensures input low ⟫ λ value (_, _, (e, b)).
      weaken (binary_result_type-Ensures value high)
        (λ out (_, _, (f, d)). (f ∙ e, (value.shape, b, d)))

module _ {c : Bool} where
  pub full_like_rule-Ensures :
      (input fill : TensorType) → Ensures c (λ out. out ≡ input) (full_like_rule input fill)
  unfolding full_like_rule rank
  full_like_rule-Ensures input fill = reject_if-Ensures (not (length fill.shape == 0)) _ ⟫ λ _ _.
      reject_if-Ensures (not (elem_eq input.elem fill.elem)) _ ⟫ λ _ _. returns refl

  pub float_unary-Ensures :
      (op : CallOp) (ty : TensorType) → Ensures c (λ out. out ≡ ty) (float_unary op ty)
  unfolding float_unary
  float_unary-Ensures op ty = expect_float-Ensures op ty.elem ⟫ λ _ _. returns refl

  pub expect_random_key-Ensures :
      (key : TensorType) (op_name : String)
      → Ensures c
          (λ _. key ≡ record { elem = ElementType.i64; shape = [] })
          (expect_random_key key op_name)
  unfolding expect_random_key rank
  expect_random_key-Ensures key op_name =
      weaken
        (reject_if-Ensures (not (length key.shape == 0) || not (elem_eq key.elem ElementType.i64))
          _)
        (λ _ h. shaped key ((==_iff _ _).0 (left_of _ _ h)) ((elem_eq_iff _ _).0 (right_of _ _ h)))
    where
      left_of : (a b : Bool) → (not a || not b) ≡ false → a ≡ true
      left_of a b h = ground arith

      right_of : (a b : Bool) → (not a || not b) ≡ false → b ≡ true
      right_of a b h = ground arith

      empty : (xs : List ℕ) → length xs ≡ 0 → xs ≡ []
      empty [] h = refl
      empty (x ∷ xs) h = absurd (omega arith)

      shaped :
          (key : TensorType)
          → length key.shape ≡ 0
          → key.elem ≡ ElementType.i64
          → key ≡ record { elem = ElementType.i64; shape = [] }
      shaped key l e = λ i. record { elem = e i; shape = empty key.shape l i }

  pub random_bounds_result_type-Ensures :
      (low high target : TensorType) (op_name : String)
      → Ensures c (λ _. Unit {0}) (random_bounds_result_type low high target op_name)
  unfolding random_bounds_result_type rank
  random_bounds_result_type-Ensures low high target op_name =
      reject_if-Ensures (not (length low.shape == 0) || not (length high.shape == 0)) _ ⟫ λ _ _.
      weaken
        (reject_if-Ensures
          (not (elem_eq low.elem target.elem) || not (elem_eq high.elem target.elem)) _)
        (λ _ _. tt)
