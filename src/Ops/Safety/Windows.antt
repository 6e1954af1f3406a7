-- ===== src/Ops/Safety/Windows.antt =====
-- Postconditions of pooling and convolution: crates/knok-core/src/ops/pool.rs and conv.rs.
use native.Mathlib.Nat.{div-add-mod, mod-lt, mul_comm}
use knok.Base.{
  ℕ, ◌+◌, ◌-◌, ◌*◌, ◌/◌, ◌%◌, ◌≤◌, ◌<◌, ◌≡◌, refl, ap, ◌∙◌, Bool, true, List, [], ◌∷◌, length,
  get_elem?, some, String, ltb, ◌==◌, ==_iff, ◌||◌, rejected, arith,
}
use knok.Base.Ensures.{
  Ensures, returns, ◌⟫◌, weaken, reject_if-Ensures, index-Ensures, add-Ensures, div-Ensures,
  sub-Ensures, mul-Ensures,
}
use knok.Ast.Types.{TensorType, rank, is_numeric, Pool2dOptions}
use knok.Ops.Pool.{
  effective_kernel, padded_dim, window_count, pool2d_result_type, max_pool2d_result_type,
  avg_pool2d_result_type,
}
use knok.Ops.Safety.Common.{expect_numeric-Ensures}

-- A window of `(kernel - 1) * dilation + 1` places, moved by `stride`, has exactly `n` positions in
-- `padded` places: the last one fits, and one more would not.
abbrev pub Positions : ℕ → ℕ → ℕ → ℕ → Type 0
Positions padded reach stride n =
    (1 ≤ n) × ((n - 1) * stride + reach ≤ padded) × (padded < n * stride + reach)

quotient_bounds : (a s : ℕ) → 0 < s → ((a / s) * s ≤ a) × (a < (a / s) * s + s)
quotient_bounds a s h =
    let e : a / s * s + a % s ≡ a = rw (mul_comm (a / s) s) (div-add-mod a s) in
    let lt : a % s < s = mod-lt a h in (omega arith, omega arith)

count-Positions :
    (padded reach stride n : ℕ)
    → reach ≤ padded
    → 0 < stride
    → n ≡ (padded - reach) / stride + 1
    → Positions padded reach stride n
count-Positions padded reach stride n fits pos e =
    let q = quotient_bounds (padded - reach) stride pos in
    let once : (n - 1) * stride ≡ (padded - reach) / stride * stride =
      ap (λ t. t * stride) (omega arith) in
    let more : n * stride ≡ (padded - reach) / stride * stride + stride =
      ap (λ t. t * stride) e ∙ grind arith in
    (omega arith, omega arith, omega arith)

module _ (c : Bool) where
  pub effective_kernel-Ensures :
      (kernel dilation : ℕ)
      → 0 < kernel
      → Ensures c
          (λ s. c ≡ true → s ≡ (kernel - 1) * dilation + 1)
          (effective_kernel c kernel dilation)
  unfolding effective_kernel
  effective_kernel-Ensures kernel dilation h = sub-Ensures c kernel 1 h ⟫ λ gaps e.
      mul-Ensures c gaps dilation ⟫ λ reach p.
      weaken (add-Ensures c reach 1) (λ s q on. q on ∙ rw (p on, e) refl)

  pub padded_dim-Ensures :
      (dim low high : ℕ)
      → Ensures c (λ s. c ≡ true → s ≡ dim + low + high) (padded_dim c dim low high)
  unfolding padded_dim
  padded_dim-Ensures dim low high = add-Ensures c dim low ⟫ λ part p.
      weaken (add-Ensures c part high) (λ s q on. q on ∙ rw (p on) refl)

  pub window_count-Ensures :
      (padded reach stride : ℕ)
      → reach ≤ padded
      → 0 < stride
      → Ensures c
          (λ n. c ≡ true → Positions padded reach stride n)
          (window_count c padded reach stride)
  unfolding window_count
  window_count-Ensures padded reach stride fits pos = sub-Ensures c padded reach fits ⟫ λ slack e.
      div-Ensures c slack stride pos ⟫ λ steps d.
      weaken (add-Ensures c steps 1)
        (λ n p on. count-Positions padded reach stride n fits pos (rw (d, e) at (p on)))

-- A spatial dimension of the result: the kernel's positions in the padded input dimension.
abbrev pub Spatial : ℕ → ℕ → ℕ → ℕ → ℕ → ℕ → ℕ → Type 0
Spatial dim low high kernel dilation stride n =
    Positions (dim + low + high) ((kernel - 1) * dilation + 1) stride n

-- What a pool promises of its result, the counts only where overflows are checked.
pub record CheckedPools (c : Bool) (input : TensorType) (options : Pool2dOptions) (out : TensorType)
    : Type 0 where
  pub batch : ℕ
  pub height : ℕ
  pub width : ℕ
  pub channels : ℕ
  pub out_h : ℕ
  pub out_w : ℕ
  pub in_shape : input.shape ≡ batch ∷ height ∷ width ∷ channels ∷ []
  pub out_shape : out.shape ≡ batch ∷ out_h ∷ out_w ∷ channels ∷ []
  pub same_elem : out.elem ≡ input.elem
  pub numeric : is_numeric input.elem ≡ true
  pub rows :
      c ≡ true
      → Spatial height options.padding.top options.padding.bottom options.kernel.0
          options.dilation.0 options.stride.0 out_h
  pub columns :
      c ≡ true
      → Spatial width options.padding.left options.padding.right options.kernel.1 options.dilation.1
          options.stride.1 out_w

pub four :
    (xs : List ℕ) {a b d e : ℕ}
    → length xs ≡ 4
    → get_elem? xs 0 ≡ some a
    → get_elem? xs 1 ≡ some b
    → get_elem? xs 2 ≡ some d
    → get_elem? xs 3 ≡ some e
    → xs ≡ a ∷ b ∷ d ∷ e ∷ []
four (w ∷ x ∷ y ∷ z ∷ []) h p q r s = cc
four [] h p q r s = absurd (omega arith)
four (w ∷ []) h p q r s = absurd (omega arith)
four (w ∷ x ∷ []) h p q r s = absurd (omega arith)
four (w ∷ x ∷ y ∷ []) h p q r s = absurd (omega arith)
four (w ∷ x ∷ y ∷ z ∷ v ∷ rest) h p q r s = absurd (omega arith)

pub by_equation :
    (padded padded' reach reach' stride n : ℕ)
    → padded ≡ padded'
    → reach ≡ reach'
    → Positions padded reach stride n
    → Positions padded' reach' stride n
by_equation padded padded' reach reach' stride n p q h = rw (← p, ← q) h

module _ (c : Bool) where
  pub pool2d_result_type-Ensures :
      (input : TensorType) (options : Pool2dOptions) (op_name : String)
      → Ensures c (CheckedPools c input options) (pool2d_result_type c input options op_name)
  unfolding pool2d_result_type rank
  pool2d_result_type-Ensures input options op_name = reject_if-Ensures _ _ ⟫ λ _ four_dims.
      expect_numeric-Ensures input.elem op_name ⟫ λ _ numeric.
      reject_if-Ensures (options.kernel.0 == 0 || options.kernel.1 == 0) _ ⟫ λ _ kernels.
      reject_if-Ensures
        (options.stride.0 == 0
          || options.stride.1 == 0
          || options.dilation.0 == 0
          || options.dilation.1 == 0)
        _
      ⟫ λ _ steps.
          let l : length input.shape ≡ 4 = (==_iff _ _).0 (rejected _ four_dims) in
          index-Ensures input.shape 0 (omega arith) ⟫ λ batch b.
          index-Ensures input.shape 3 (omega arith) ⟫ λ channels ch.
          reject_if-Ensures (batch == 0 || channels == 0) _ ⟫ λ _ _.
          effective_kernel-Ensures c options.kernel.0 options.dilation.0 (ground arith)
          ⟫ λ reach_h rh.
              effective_kernel-Ensures c options.kernel.1 options.dilation.1 (ground arith)
              ⟫ λ reach_w rw'. index-Ensures input.shape 1 (omega arith) ⟫ λ height h.
                  padded_dim-Ensures c height options.padding.top options.padding.bottom
                  ⟫ λ padded_h ph. index-Ensures input.shape 2 (omega arith) ⟫ λ width w.
                      padded_dim-Ensures c width options.padding.left options.padding.right
                      ⟫ λ padded_w pw.
                          reject_if-Ensures (ltb padded_h reach_h || ltb padded_w reach_w) _
                          ⟫ λ _ fits.
                              window_count-Ensures c padded_h reach_h options.stride.0
                                (ground arith) (ground arith)
                              ⟫ λ out_h oh.
                                  window_count-Ensures c padded_w reach_w options.stride.1
                                    (ground arith) (ground arith)
                                  ⟫ λ out_w ow. returns (record {
                                    batch = batch;
                                    height = height;
                                    width = width;
                                    channels = channels;
                                    out_h = out_h;
                                    out_w = out_w;
                                    in_shape = four input.shape l b h w ch;
                                    out_shape = refl;
                                    same_elem = refl;
                                    numeric = numeric;
                                    rows = λ on. by_equation _ _ _ _ _ _ (ph on) (rh on) (oh on);
                                    columns =
                                        λ on. by_equation _ _ _ _ _ _ (pw on) (rw' on) (ow on);
                                  })

  pub max_pool2d_result_type-Ensures :
      (input : TensorType) (options : Pool2dOptions)
      → Ensures c (CheckedPools c input options) (max_pool2d_result_type c input options)
  unfolding max_pool2d_result_type
  max_pool2d_result_type-Ensures input options =
      pool2d_result_type-Ensures input options "max_pool2d"

  pub avg_pool2d_result_type-Ensures :
      (input : TensorType) (options : Pool2dOptions)
      → Ensures c (CheckedPools c input options) (avg_pool2d_result_type c input options)
  unfolding avg_pool2d_result_type
  avg_pool2d_result_type-Ensures input options =
      reject_if-Ensures _ _ ⟫ λ _ _. pool2d_result_type-Ensures input options "avg_pool2d"
