-- ===== src/Creation/Safe.antt =====
-- `arange` and `linspace` of crates/knok-core/src/ops/static_creation.rs panic only on an overflow, if no
-- vector of literals is larger than memory can be.
use knok.Base.{
  ℕ, zero, suc, ◌-◌, ◌*◌, ◌^◌, ◌≤◌, ◌≡◌, Bool, not, ◌&&◌, ◌||◌, ◌==◌, List, [], ◌∷◌, length,
  range_from, product, some, String, ok_or-Runs, arith,
}
use knok.Base.Ensures.{
  returns, throws, ◌⟫◌, of_Runs, reject_if-Ensures, if-Ensures, index-Ensures, traverse-Ensures,
  with_equation,
}
use knok.Base.Usize.{usize_mod}
use knok.Ast.Types.{ElementType, TensorType}
use knok.Ast.Graph.{Exprs}
use knok.Ops.Safety.Creations.{vector_target-Ensures}
use knok.Creation.Int.{ℤ}
use knok.Creation.Overflow.{IsI128}
use knok.Creation.Numbers.{Numbers}
use knok.Creation.Params.{NumericParam, as_int, as_float}
use knok.Creation.Literals.{string_size, f64_size}
use knok.Creation.Arange
use knok.Creation.Linspace
use knok.Creation.Fine.{
  small, allocate-Ensures, Fine, any, stepped-Ensures, arange_len-Ensures, linspace_values-Ensures,
}
use knok.Creation.Shapes.{vector_rank, vector_shape}
use knok.Creation.Bounded.{parse_numeric_params-Ensures}
use knok.Creation.Fitting.{integer_literal-Ensures}

module _ (c : Bool) (n : Numbers)
    (parse_range : (text : String) (z : ℤ) → n.parse_i128 text ≡ some z → IsI128 z) where
  arange_int-Ensures : (p : NumericParam n) → Fine c (Arange.arange_int c n p)
  unfolding Arange.arange_int
  arange_int-Ensures p = any c (of_Runs c _ (ok_or-Runs _ (as_int c n p)))

  linspace_int-Ensures : (p : NumericParam n) → Fine c (Linspace.linspace_int c n p)
  unfolding Linspace.linspace_int
  linspace_int-Ensures p = any c (of_Runs c _ (ok_or-Runs _ (as_int c n p)))

  arange_bounds-Ensures :
      (params : List (NumericParam n))
      → 1 ≤ length params
      → length params ≤ 3
      → Fine c (Arange.arange_bounds c n params)
  unfolding Arange.arange_bounds
  arange_bounds-Ensures [] h k = absurd (omega arith)
  arange_bounds-Ensures (a ∷ []) h k = returns tt
  arange_bounds-Ensures (a ∷ b ∷ []) h k = returns tt
  arange_bounds-Ensures (a ∷ b ∷ d ∷ []) h k = returns tt
  arange_bounds-Ensures (a ∷ b ∷ d ∷ e ∷ params) h k = absurd (omega arith)

  integer_arange-Ensures :
      (elem : ElementType) (count : ℕ) (first last each : NumericParam n)
      → Fine c (Arange.integer_arange c n elem count first last each)
  unfolding Arange.integer_arange Arange.same_length
  integer_arange-Ensures elem count first last each = arange_int-Ensures first ⟫ λ start _.
      arange_int-Ensures last ⟫ λ stop _. arange_int-Ensures each ⟫ λ step _.
      arange_len-Ensures c start stop step ⟫ λ expected _.
      reject_if-Ensures (not (expected == count)) _ ⟫ λ _ _. any c (
        traverse-Ensures c (λ _. Unit {0}) _ (range_from 0 count)
          (λ place.
            stepped-Ensures c start step place ⟫ λ v _. any c (integer_literal-Ensures n c elem v)))

  float_len-Ensures :
      (start stop step : n.double.Carrier) → Fine c (Arange.float_arange_len n start stop step)
  unfolding Arange.float_arange_len
  float_len-Ensures start stop step =
      let zero = n.double.of_nat 0 in
      let distance = n.double.sub stop start in
      let count = n.ceil (n.double.div distance step) in
      reject_if-Ensures (n.double.eq step zero) _ ⟫ λ _ _.
      if-Ensures
        (n.double.lt zero step && n.double.le distance zero
          || n.double.lt step zero && n.double.le zero distance)
        (λ _. returns tt)
        (λ _.
          reject_if-Ensures
            (not (n.double.is_finite count)
              || n.double.lt count zero
              || n.double.lt (n.double.of_nat (usize_mod - 1)) count)
            _
          ⟫ λ _ _. returns tt)

  float_arange-Ensures :
      (count : ℕ) (first last each : NumericParam n)
      → string_size * count ≤ 2 ^ 63 - 1
      → Fine c (Arange.float_arange c n count first last each)
  unfolding Arange.float_arange Arange.same_length
  float_arange-Ensures count first last each h =
      float_len-Ensures (as_float c n first) (as_float c n last) (as_float c n each) ⟫ λ expected _.
      reject_if-Ensures (not (expected == count)) _ ⟫ λ _ _.
      allocate-Ensures c string_size count h ⟫ λ _ _. returns tt

  arange_literals-Ensures :
      (elem : ElementType) (count : ℕ) (first last each : NumericParam n)
      → string_size * count ≤ 2 ^ 63 - 1
      → Fine c (Arange.arange_literals c n elem count first last each)
  unfolding Arange.arange_literals
  arange_literals-Ensures ElementType.i32 count a b d h =
      integer_arange-Ensures ElementType.i32 count a b d
  arange_literals-Ensures ElementType.i64 count a b d h =
      integer_arange-Ensures ElementType.i64 count a b d
  arange_literals-Ensures ElementType.bool count a b d h = throws
  arange_literals-Ensures ElementType.f32 count a b d h = float_arange-Ensures count a b d h
  arange_literals-Ensures ElementType.f64 count a b d h = float_arange-Ensures count a b d h
  arange_literals-Ensures ElementType.f16 count a b d h = float_arange-Ensures count a b d h
  arange_literals-Ensures ElementType.bf16 count a b d h = float_arange-Ensures count a b d h

  pub arange-Ensures :
      (target : TensorType) (args : Exprs)
      → string_size * product target.shape ≤ 2 ^ 63 - 1
      → Fine c (Arange.static_arange_literals c n target args)
  unfolding Arange.static_arange_literals
  arange-Ensures target args h =
      with_equation (vector_target-Ensures c target "arange") ⟫ λ _ valid.
      parse_numeric_params-Ensures c n parse_range "arange" args 1 3 ⟫ λ params q.
      arange_bounds-Ensures params q.0 q.1 ⟫ λ bounds _.
      with_equation
        (index-Ensures target.shape 0 (omega (arith, vector_rank target "arange" valid.1)))
      ⟫ λ count e.
          arange_literals-Ensures target.elem count bounds.0 bounds.1 bounds.2
            (small target count h (vector_shape target "arange" valid.1 e.1))

  integer_linspace-Ensures :
      (elem : ElementType) (count : ℕ) (first last : NumericParam n)
      → string_size * count ≤ 2 ^ 63 - 1
      → Fine c (Linspace.integer_linspace c n elem count first last)
  unfolding Linspace.integer_linspace
  integer_linspace-Ensures elem count first last h = linspace_int-Ensures first ⟫ λ start _.
      linspace_int-Ensures last ⟫ λ stop _.
      linspace_values-Ensures c start stop count h ⟫ λ values _. any c (
        traverse-Ensures c (λ _. Unit {0}) _ values
          (λ v. any c (integer_literal-Ensures n c elem v)))

  float_values-Ensures :
      (start stop : n.double.Carrier) (count : ℕ)
      → string_size * count ≤ 2 ^ 63 - 1
      → Fine c (Linspace.float_linspace_values n start stop count)
  unfolding Linspace.float_linspace_values
  float_values-Ensures start stop zero h = returns tt
  float_values-Ensures start stop (suc zero) h = returns tt
  float_values-Ensures start stop (suc (suc k)) h =
      allocate-Ensures c f64_size (suc (suc k)) (omega (arith, h)) ⟫ λ _ _. returns tt

  float_linspace-Ensures :
      (count : ℕ) (first last : NumericParam n)
      → string_size * count ≤ 2 ^ 63 - 1
      → Fine c (Linspace.float_linspace c n count first last)
  unfolding Linspace.float_linspace
  float_linspace-Ensures count first last h =
      float_values-Ensures (as_float c n first) (as_float c n last) count h ⟫ λ values _.
      allocate-Ensures c string_size count h ⟫ λ _ _. returns tt

  linspace_literals-Ensures :
      (elem : ElementType) (count : ℕ) (first last : NumericParam n)
      → string_size * count ≤ 2 ^ 63 - 1
      → Fine c (Linspace.linspace_literals c n elem count first last)
  unfolding Linspace.linspace_literals
  linspace_literals-Ensures ElementType.i32 count a b h =
      integer_linspace-Ensures ElementType.i32 count a b h
  linspace_literals-Ensures ElementType.i64 count a b h =
      integer_linspace-Ensures ElementType.i64 count a b h
  linspace_literals-Ensures ElementType.bool count a b h = throws
  linspace_literals-Ensures ElementType.f32 count a b h = float_linspace-Ensures count a b h
  linspace_literals-Ensures ElementType.f64 count a b h = float_linspace-Ensures count a b h
  linspace_literals-Ensures ElementType.f16 count a b h = float_linspace-Ensures count a b h
  linspace_literals-Ensures ElementType.bf16 count a b h = float_linspace-Ensures count a b h

  pub linspace-Ensures :
      (target : TensorType) (args : Exprs)
      → string_size * product target.shape ≤ 2 ^ 63 - 1
      → Fine c (Linspace.static_linspace_literals c n target args)
  unfolding Linspace.static_linspace_literals
  linspace-Ensures target args h =
      with_equation (vector_target-Ensures c target "linspace") ⟫ λ _ valid.
      parse_numeric_params-Ensures c n parse_range "linspace" args 2 2 ⟫ λ params q.
      index-Ensures params 0 (omega (arith, q.0)) ⟫ λ first _.
      index-Ensures params 1 (omega (arith, q.0)) ⟫ λ last _.
      with_equation
        (index-Ensures target.shape 0 (omega (arith, vector_rank target "linspace" valid.1)))
      ⟫ λ count e.
          linspace_literals-Ensures target.elem count first last
            (small target count h (vector_shape target "linspace" valid.1 e.1))
