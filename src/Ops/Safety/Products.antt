-- ===== src/Ops/Safety/Products.antt =====
-- The postcondition of matrix multiplication: crates/knok-core/src/ops/matmul.rs.
use mathlib.Core.Path.{subst₂}
use mathlib.Core.List.{append-nil}
use knok.Base.Vec.{index}
use knok.Base.{
  ℕ, suc, ◌-◌, ◌≤◌, ◌≡◌, ◌⊎◌, inl, inr, refl, sym, ap, ◌∙◌, subst, Bool, true, false, List, [], ◌∷◌,
  ◌++◌, length, get_elem?, take, drop_all, split_at_two, some, ltb, ◌==◌, ==_iff, not, ◌||◌,
  Bool-cases, rejected, if◌then◌else◌, arith,
}
use knok.Base.Ensures.{
  Ensures, returns, ◌⟫◌, weaken, map_err-Ensures, reject_if-Ensures, index-Ensures, sub-Ensures,
  slice_to-Ensures,
}
use knok.Ast.Types.{TensorType, rank, elem_eq, elem_eq_iff}
use knok.Ops.Matmul.{dim_from_end, batch_dims, push_unless, matmul_result_type}
use knok.Ops.Broadcast.{Broadcasts}
use knok.Ops.Safety.Common.{expect_numeric-Ensures, broadcast-Ensures}

-- A left operand: a vector of length `k`, or a stack of matrices with a row of length `k` for each of
-- `rows`. A right operand: the same with the matrices turned.
abbrev pub LeftOperand : List ℕ → List ℕ → List ℕ → ℕ → Type 0
LeftOperand shape batch rows k =
    ((shape ≡ k ∷ []) × (batch ≡ []) × (rows ≡ []))
    ⊎ ((m : ℕ) × (shape ≡ batch ++ (m ∷ k ∷ [])) × (rows ≡ m ∷ []))

abbrev pub RightOperand : List ℕ → List ℕ → List ℕ → ℕ → Type 0
RightOperand shape batch columns k =
    ((shape ≡ k ∷ []) × (batch ≡ []) × (columns ≡ []))
    ⊎ ((n : ℕ) × (shape ≡ batch ++ (k ∷ n ∷ [])) × (columns ≡ n ∷ []))

-- NumPy's `matmul`: the contracted dimensions agree, the batches broadcast, and the result has the
-- batch, then the left rows, then the right columns.
pub record Multiplies (l r out : TensorType) : Type 0 where
  pub k : ℕ
  pub l_batch : List ℕ
  pub r_batch : List ℕ
  pub batch : List ℕ
  pub rows : List ℕ
  pub columns : List ℕ
  pub left_operand : LeftOperand l.shape l_batch rows k
  pub right_operand : RightOperand r.shape r_batch columns k
  pub broadcasts : Broadcasts l_batch r_batch batch
  pub out_shape : out.shape ≡ (batch ++ rows) ++ columns
  pub small : length out.shape ≤ 6
  pub elems : (l.elem ≡ r.elem) × (out.elem ≡ l.elem)

module _ (c : Bool) where
  pub dim_from_end-Ensures :
      (t : TensorType) (back : ℕ)
      → 1 ≤ back
      → back ≤ length t.shape
      → Ensures c (λ d. get_elem? t.shape (length t.shape - back) ≡ some d) (dim_from_end c t back)
  unfolding dim_from_end rank
  dim_from_end-Ensures t back h k = sub-Ensures c (length t.shape) back k ⟫ λ place e.
      weaken (index-Ensures t.shape place (omega arith)) (λ d p. rw e at p)

  -- Below rank 3 the batch is empty, which is what the slice would give.
  batch_dims-Ensures :
      (t : TensorType) → Ensures c (λ b. b ≡ take (length t.shape - 2) t.shape) (batch_dims c t)
  unfolding batch_dims rank
  batch_dims-Ensures t = elim (Bool-cases (ltb 2 (length t.shape))) [
    | inl e ↦ rw e (
        sub-Ensures c (length t.shape) 2 (ground arith) ⟫ λ n p.
        weaken (slice_to-Ensures t.shape n (omega arith)) (λ b q. q ∙ ap (λ i. take i t.shape) p))
    | inr e ↦
        rw e (returns (sym (ap (λ i. take i t.shape) (small (length t.shape) (ground arith)))))
  ]
    where
      small : (n : ℕ) → n ≤ 2 → n - 2 ≡ 0
      small n h = omega arith

  push_unless-Ensures :
      (b : Bool) (t : TensorType) (back : ℕ) (shape : List ℕ)
      → (b ≡ false → 2 ≤ length t.shape)
      → 1 ≤ back
      → back ≤ 2
      → Ensures c
          (λ out.
            ((b ≡ true) × (out ≡ shape))
            ⊎ ((d : ℕ) × (b ≡ false)
                × (get_elem? t.shape (length t.shape - back) ≡ some d)
                × (out ≡ shape ++ d ∷ [])))
          (push_unless c b t back shape)
  unfolding push_unless
  push_unless-Ensures true t back shape h lo hi = returns (inl (refl, refl))
  push_unless-Ensures false t back shape h lo hi =
      dim_from_end-Ensures t back lo (omega (arith, h refl)) ⟫ λ d p.
      returns (inr (d, refl, p, refl))

  left_dim-Ensures :
      (t : TensorType)
      → 1 ≤ length t.shape
      → Ensures c
          (λ k. get_elem? t.shape (length t.shape - 1) ≡ some k)
          (if length t.shape == 1 then index t.shape 0 else dim_from_end c t 1)
  left_dim-Ensures t h = elim (Bool-cases (length t.shape == 1)) [
    | inl e ↦ rw e (
        weaken (index-Ensures t.shape 0 h)
          (λ k p. subst (λ i. get_elem? t.shape i ≡ some k) (one_less (length t.shape) e) p))
    | inr e ↦ rw e (dim_from_end-Ensures t 1 (omega arith) h)
  ]
    where
      one_less : (n : ℕ) → (n == 1) ≡ true → 0 ≡ n - 1
      one_less n h = ground arith

  right_dim-Ensures :
      (t : TensorType)
      → 1 ≤ length t.shape
      → Ensures c
          (λ k.
            ((length t.shape ≡ 1) × (get_elem? t.shape 0 ≡ some k))
            ⊎ ((2 ≤ length t.shape) × (get_elem? t.shape (length t.shape - 2) ≡ some k)))
          (if length t.shape == 1 then index t.shape 0 else dim_from_end c t 2)
  right_dim-Ensures t h = elim (Bool-cases (length t.shape == 1)) [
    | inl e ↦ rw e (weaken (index-Ensures t.shape 0 h) (λ k p. inl ((==_iff _ _).0 e, p)))
    | inr e ↦ rw e (
        weaken (dim_from_end-Ensures t 2 (omega arith) (ground arith))
          (λ k p. inr (ground arith, p)))
  ]

pub singleton_lem : (xs : List ℕ) {k : ℕ} → length xs ≡ 1 → get_elem? xs 0 ≡ some k → xs ≡ k ∷ []
singleton_lem [] h p = absurd (omega arith)
singleton_lem (x ∷ []) h p = cc
singleton_lem (x ∷ y ∷ xs) h p = absurd (omega arith)

-- The last two dimensions of a shape, behind its batch.
last_two :
    (xs : List ℕ) {m k : ℕ}
    → 2 ≤ length xs
    → get_elem? xs (length xs - 2) ≡ some m
    → get_elem? xs (length xs - 1) ≡ some k
    → xs ≡ take (length xs - 2) xs ++ (m ∷ k ∷ [])
last_two xs {m} {k} h p q =
    split_at_two xs (length xs - 2) p (subst (λ i. get_elem? xs i ≡ some k) (omega arith) q)
    ∙ ap (λ r. take (length xs - 2) xs ++ (m ∷ k ∷ r))
        (drop_all (suc (suc (length xs - 2))) xs (omega arith))

left_operand_lem :
    (xs batch : List ℕ) (k : ℕ)
    → get_elem? xs (length xs - 1) ≡ some k
    → {out : List ℕ}
    → (((length xs == 1) ≡ true) × (out ≡ batch))
      ⊎ ((d : ℕ) × ((length xs == 1) ≡ false)
          × (get_elem? xs (length xs - 2) ≡ some d)
          × (out ≡ batch ++ d ∷ []))
    → 1 ≤ length xs
    → (rows : List ℕ) × LeftOperand xs (take (length xs - 2) xs) rows k × (out ≡ batch ++ rows)
left_operand_lem xs batch k p (inl (e, q)) h = (
  [],
  inl (
    singleton_lem xs ((==_iff _ _).0 e) (subst (λ i. get_elem? xs i ≡ some k) (gone _ e) p),
    ap (λ i. take i xs) (none_left _ e),
    refl,
  ),
  q ∙ sym (append-nil batch),
)
  where
    gone : (n : ℕ) → (n == 1) ≡ true → n - 1 ≡ 0
    gone n e = ground arith

    none_left : (n : ℕ) → (n == 1) ≡ true → n - 2 ≡ 0
    none_left n e = ground arith
left_operand_lem xs batch k p (inr (d, e, q, r)) h =
    (d ∷ [], inr (d, last_two xs (ground arith) q p, refl), r)

right_operand_lem :
    (xs batch : List ℕ) (k : ℕ)
    → ((length xs ≡ 1) × (get_elem? xs 0 ≡ some k))
      ⊎ ((2 ≤ length xs) × (get_elem? xs (length xs - 2) ≡ some k))
    → {out : List ℕ}
    → (((length xs == 1) ≡ true) × (out ≡ batch))
      ⊎ ((d : ℕ) × ((length xs == 1) ≡ false)
          × (get_elem? xs (length xs - 1) ≡ some d)
          × (out ≡ batch ++ d ∷ []))
    → (columns : List ℕ) × RightOperand xs (take (length xs - 2) xs) columns k
      × (out ≡ batch ++ columns)
right_operand_lem xs batch k (inl (l, p)) (inl (e, q)) =
    let none_left : length xs - 2 ≡ 0 = omega arith in
    (
      [],
      inl (singleton_lem xs l p, ap (λ i. take i xs) none_left, refl),
      q ∙ sym (append-nil batch),
    )
right_operand_lem xs batch k (inr (l, p)) (inl (e, q)) = absurd (ground arith)
right_operand_lem xs batch k (inl (l, p)) (inr (d, e, q, r)) = absurd (ground arith)
right_operand_lem xs batch k (inr (l, p)) (inr (d, e, q, r)) =
    (d ∷ [], inr (d, last_two xs l p q, refl), r)

module _ (c : Bool) where
  pub matmul_result_type-Ensures :
      (l r : TensorType) → Ensures c (Multiplies l r) (matmul_result_type c l r)
  unfolding matmul_result_type rank
  matmul_result_type-Ensures l r = reject_if-Ensures (not (elem_eq l.elem r.elem)) _ ⟫ λ _ elems.
      expect_numeric-Ensures l.elem "matmul" ⟫ λ _ _.
      reject_if-Ensures (length l.shape == 0 || length r.shape == 0) _ ⟫ λ _ present.
      reject_if-Ensures (ltb 6 (length l.shape) || ltb 6 (length r.shape)) _ ⟫ λ _ _.
      left_dim-Ensures c l (ground arith) ⟫ λ lhs_k lk.
      right_dim-Ensures c r (ground arith) ⟫ λ rhs_k rk.
      reject_if-Ensures (not (lhs_k == rhs_k)) _ ⟫ λ _ same. batch_dims-Ensures c l ⟫ λ lb le.
      batch_dims-Ensures c r ⟫ λ rb re. map_err-Ensures _ (broadcast-Ensures c lb rb) ⟫ λ batch bc.
      push_unless-Ensures c (length l.shape == 1) l 2 batch (λ e. ground arith) (omega arith)
        (omega arith)
      ⟫ λ rows p.
          push_unless-Ensures c (length r.shape == 1) r 1 rows (λ e. ground arith) (omega arith)
            (omega arith)
          ⟫ λ shape q. reject_if-Ensures (ltb 6 (length shape)) _ ⟫ λ _ small.
              let (rs, lo, re') = left_operand_lem l.shape batch lhs_k lk p (ground arith) in
              let (cs, ro, ce) =
                right_operand_lem r.shape rows lhs_k (rw ((==_iff _ _).0 (rejected _ same)) rk) q in
              returns (record {
                k = lhs_k;
                l_batch = take (length l.shape - 2) l.shape;
                r_batch = take (length r.shape - 2) r.shape;
                batch = batch;
                rows = rs;
                columns = cs;
                left_operand = lo;
                right_operand = ro;
                broadcasts = subst₂ (λ x y. Broadcasts x y batch) le re bc;
                out_shape = ce ∙ ap (λ x. x ++ cs) re';
                small = ground arith;
                elems = ((elem_eq_iff _ _).0 (rejected _ elems), refl);
              })
