-- ===== src/Ops/Safety/Convolution.antt =====
-- The postcondition of convolution: crates/knok-core/src/ops/conv.rs.
use native.Mathlib.Nat.{div-add-mod}
use knok.Base.{
  ℕ, ◌*◌, ◌/◌, ◌%◌, ◌≡◌, refl, sym, ◌∙◌, ◌<◌, Bool, true, false, [], ◌∷◌, length, ltb, ◌==◌, ==_iff,
  not, ◌||◌, rejected, arith,
}
use knok.Base.Ensures.{
  Ensures, returns, ◌⟫◌, rem-Ensures, div-Ensures, reject_if-Ensures, index-Ensures,
}
use knok.Ast.Types.{TensorType, rank, elem_eq, elem_eq_iff, Conv2dOptions}
use knok.Ops.Conv.{conv2d_result_type}
use knok.Ops.Safety.Common.{expect_numeric-Ensures}
use knok.Ops.Safety.Windows.{
  Spatial, four, by_equation, effective_kernel-Ensures, padded_dim-Ensures, window_count-Ensures,
}

-- What a convolution promises of its result, the counts only where overflows are checked.
pub record CheckedConvolves (c : Bool) (input kernel : TensorType) (options : Conv2dOptions)
    (out : TensorType) : Type 0 where
  pub batch : ℕ
  pub height : ℕ
  pub width : ℕ
  pub channels : ℕ
  pub kernel_h : ℕ
  pub kernel_w : ℕ
  pub group_channels : ℕ
  pub filters : ℕ
  pub out_h : ℕ
  pub out_w : ℕ
  pub in_shape : input.shape ≡ batch ∷ height ∷ width ∷ channels ∷ []
  pub kernel_shape : kernel.shape ≡ kernel_h ∷ kernel_w ∷ group_channels ∷ filters ∷ []
  pub out_shape : out.shape ≡ batch ∷ out_h ∷ out_w ∷ filters ∷ []
  pub same_elem : (input.elem ≡ kernel.elem) × (out.elem ≡ input.elem)
  pub grouped : options.groups * group_channels ≡ channels
  pub filters_grouped : filters % options.groups ≡ 0
  pub rows :
      c ≡ true
      → Spatial height options.padding.top options.padding.bottom kernel_h options.dilation.0
          options.stride.0 out_h
  pub columns :
      c ≡ true
      → Spatial width options.padding.left options.padding.right kernel_w options.dilation.1
          options.stride.1 out_w

-- Channels that the groups divide are groups times the channels of one group.
group_lem :
    (channels groups part : ℕ)
    → channels % groups ≡ 0
    → part ≡ channels / groups
    → groups * part ≡ channels
group_lem channels groups part h e = rw e (sym (omega (arith, h, div-add-mod channels groups)))

same_elems : (a b d : Bool) → (not a || not b || not d) ≡ false → d ≡ true
same_elems a b d h = ground arith

module _ (c : Bool) where
  pub conv2d_result_type-Ensures :
      (input kernel : TensorType) (options : Conv2dOptions)
      → Ensures c
          (CheckedConvolves c input kernel options)
          (conv2d_result_type c input kernel options)
  unfolding conv2d_result_type rank
  conv2d_result_type-Ensures input kernel options =
      reject_if-Ensures
        (not (rank input == 4) || not (rank kernel == 4) || not (elem_eq input.elem kernel.elem)) _
      ⟫ λ _ form. expect_numeric-Ensures input.elem "conv2d" ⟫ λ _ numeric.
          reject_if-Ensures (options.groups == 0) _ ⟫ λ _ groups.
          reject_if-Ensures
            (options.stride.0 == 0
              || options.stride.1 == 0
              || options.dilation.0 == 0
              || options.dilation.1 == 0)
            _
          ⟫ λ _ steps.
              let li : length input.shape ≡ 4 = (==_iff _ _).0 (ground arith) in
              let lk : length kernel.shape ≡ 4 = (==_iff _ _).0 (ground arith) in
              index-Ensures kernel.shape 0 (omega arith) ⟫ λ kernel_h kh.
              index-Ensures kernel.shape 1 (omega arith) ⟫ λ kernel_w kw.
              index-Ensures kernel.shape 2 (omega arith) ⟫ λ group_channels kc.
              index-Ensures kernel.shape 3 (omega arith) ⟫ λ filters kf.
              reject_if-Ensures
                (kernel_h == 0 || kernel_w == 0 || group_channels == 0 || filters == 0) _
              ⟫ λ _ kernels. index-Ensures input.shape 3 (omega arith) ⟫ λ channels ch.
                  reject_if-Ensures (channels == 0 || filters == 0) _ ⟫ λ _ _.
                  let some_groups : 0 < options.groups = ground arith in
                  rem-Ensures c channels options.groups some_groups ⟫ λ rest r.
                  reject_if-Ensures (not (rest == 0)) _ ⟫ λ _ divided.
                  rem-Ensures c filters options.groups some_groups ⟫ λ filters_rest fr.
                  reject_if-Ensures (not (filters_rest == 0)) _ ⟫ λ _ filters_divided.
                  div-Ensures c channels options.groups some_groups ⟫ λ part pt.
                  reject_if-Ensures (not (group_channels == part)) _ ⟫ λ _ per_group.
                  effective_kernel-Ensures c kernel_h options.dilation.0 (ground arith)
                  ⟫ λ reach_h rh.
                      effective_kernel-Ensures c kernel_w options.dilation.1 (ground arith)
                      ⟫ λ reach_w rw'. index-Ensures input.shape 1 (omega arith) ⟫ λ height h.
                          padded_dim-Ensures c height options.padding.top options.padding.bottom
                          ⟫ λ padded_h ph. index-Ensures input.shape 2 (omega arith) ⟫ λ width w.
                              padded_dim-Ensures c width options.padding.left options.padding.right
                              ⟫ λ padded_w pw.
                                  reject_if-Ensures (ltb padded_h reach_h || ltb padded_w reach_w) _
                                  ⟫ λ _ fits. index-Ensures input.shape 0 (omega arith) ⟫ λ batch b.
                                      window_count-Ensures c padded_h reach_h options.stride.0
                                        (ground arith) (ground arith)
                                      ⟫ λ out_h oh.
                                          window_count-Ensures c padded_w reach_w options.stride.1
                                            (ground arith) (ground arith)
                                          ⟫ λ out_w ow. returns (record {
                                            batch = batch;
                                            height = height;
                                            width = width;
                                            channels = channels;
                                            kernel_h = kernel_h;
                                            kernel_w = kernel_w;
                                            group_channels = group_channels;
                                            filters = filters;
                                            out_h = out_h;
                                            out_w = out_w;
                                            in_shape = four input.shape li b h w ch;
                                            kernel_shape = four kernel.shape lk kh kw kc kf;
                                            out_shape = refl;
                                            same_elem =
                                                ((elem_eq_iff _ _).0 (same_elems _ _ _ form), refl);
                                            grouped =
                                                group_lem channels options.groups group_channels
                                                  (sym r ∙ (==_iff _ _).0 (rejected _ divided))
                                                  ((==_iff _ _).0 (rejected _ per_group) ∙ pt);
                                            filters_grouped =
                                                sym fr
                                                ∙ (==_iff _ _).0 (rejected _ filters_divided);
                                            rows = λ on.
                                                by_equation _ _ _ _ _ _ (ph on) (rh on) (oh on);
                                            columns = λ on.
                                                by_equation _ _ _ _ _ _ (pw on) (rw' on) (ow on);
                                          })
