-- ===== src/Typecheck/Sound/Results.antt =====
-- Postconditions of the type checker's functions that do not recur.
use knok.Base.{
  ℕ, ◌≡◌, ◌⊎◌, refl, ◌∙◌, ap, Bool, true, not, List, [], ◌∷◌, length, Option, some, none, String,
  Result, ok, Error, ok_or, rejected, ◌==◌, ==_iff, arith, inl, inr,
}
use knok.Base.Vec.{index}
use knok.Base.Ensures
use knok.Base.Ensures.{
  Ensures, returns, throws, overflows, weaken, reject_if-Ensures, map_err-Ensures, index-Ensures,
}
use knok.Ast.Types.{TensorType, is_numeric, elem_eq, elem_eq_iff}
use knok.Ast.Op.{CallOp, name}
use knok.Ast.Graph.{Expr}
use knok.Ops.Broadcast.{Broadcasts}
use knok.Ops.Infer.{infer_call_result, infer_call_results}
use knok.Ops.Safety.Common.{expect_numeric-Ensures, broadcast-Ensures}
use knok.Ops.Safety.Infer.{infer_call_results-Ensures}
use knok.Ast.Equality.{expr_eq, expr_eq_sound}
use knok.Typecheck.Cache.{
  NodeTypeCache, CachedNodeTypes, outputs_of, insert_after, ensure_same_node_payload,
}
use knok.Typecheck.Results.{binary_result_type, single_output_type}
use knok.Typecheck.Rules.{stored}

-- Small checks, whatever is kept of the cache.
module _ {c : Bool} where
  pub ok_or-Ensures :
      {A : Type 0} (e : Error) (o : Option A) → Ensures c (λ a. o ≡ some a) (ok_or e o)
  ok_or-Ensures e none = throws
  ok_or-Ensures e (some a) = returns refl

  pub with_value :
      {A : Type 0} {P : A → Type 0} {r : Result A} → Ensures c P r → Ensures c (λ a. r ≡ ok a) r
  with_value (returns h) = returns refl
  with_value throws = throws
  with_value (overflows h) = overflows h

  pub single_output_type-Ensures :
      (tys : List TensorType) (context : String)
      → Ensures c (λ t. tys ≡ t ∷ []) (single_output_type tys context)
  unfolding single_output_type index
  single_output_type-Ensures [] context = throws
  single_output_type-Ensures (t ∷ []) context = returns refl
  single_output_type-Ensures (t ∷ u ∷ tys) context =
      Ensures.◌⟫◌ (reject_if-Ensures (not (length (t ∷ u ∷ tys) == 1)) _)
        λ _ h. absurd (omega (arith, (==_iff _ _).0 (rejected _ h)))

  pub binary_result_type-Ensures :
      (l r : TensorType)
      → Ensures c
          (λ t.
            (is_numeric l.elem ≡ true)
            × (l.elem ≡ r.elem)
            × (t.elem ≡ l.elem)
            × Broadcasts l.shape r.shape t.shape)
          (binary_result_type c l r)
  unfolding binary_result_type
  binary_result_type-Ensures l r = Ensures.◌⟫◌ (expect_numeric-Ensures l.elem _) λ _ n.
      Ensures.◌⟫◌ (expect_numeric-Ensures r.elem _) λ _ _.
        Ensures.◌⟫◌ (reject_if-Ensures (not (elem_eq l.elem r.elem)) _) λ _ e.
          Ensures.◌⟫◌ (map_err-Ensures _ (broadcast-Ensures c l.shape r.shape))
            λ shape b. returns (n, (elem_eq_iff _ _).0 (rejected _ e), refl, b)

  -- A lookup finds nothing, or the types that are stored with this very payload.
  pub outputs_of-Ensures :
      (entry : Option CachedNodeTypes) (value : Expr)
      → Ensures c
          (λ found.
            (found ≡ none)
            ⊎ ((tys : List TensorType) × (found ≡ some tys)
                × (entry ≡ some (record { value = value; tys = tys }))))
          (outputs_of entry value)
  unfolding outputs_of ensure_same_node_payload
  outputs_of-Ensures none value = returns (inl refl)
  outputs_of-Ensures (some cached) value =
      Ensures.◌⟫◌ (reject_if-Ensures (not (expr_eq cached.value value)) _) λ _ h.
        let e = expr_eq_sound cached.value value (rejected _ h) in
        returns (inr (cached.tys, refl, λ i. some (record { value = e i; tys = cached.tys })))

  -- An insertion changes nothing, or adds this one entry.
  pub insert_after-Ensures :
      (entry : Option CachedNodeTypes) (cache : NodeTypeCache) (node_id : ℕ) (value : Expr)
      (tys : List TensorType)
      → Ensures c
          (λ after.
            (after ≡ cache)
            ⊎ (after ≡ record {
              outputs = (node_id, record { value = value; tys = tys }) ∷ cache.outputs;
            }))
          (insert_after entry cache node_id value tys)
  unfolding insert_after ensure_same_node_payload
  insert_after-Ensures none cache node_id value tys = returns (inr refl)
  insert_after-Ensures (some cached) cache node_id value tys =
      Ensures.◌⟫◌ (reject_if-Ensures (not (expr_eq cached.value value)) _) λ _ h. returns (inl refl)

  pub stored-Ensures :
      {P : NodeTypeCache → Type 0} {r : Result NodeTypeCache}
      → Ensures c P r
      → Ensures {A = Unit {0} × NodeTypeCache} c (λ p. Unit {0} × P p.1) (stored r)
  unfolding stored
  stored-Ensures (returns {a} h) = returns {a = (tt, a)} (tt, h)
  stored-Ensures throws = throws
  stored-Ensures (overflows h) = overflows h

  pub infer_call_result-Ensures :
      (op : CallOp) (tys : List TensorType)
      → Ensures c (λ t. infer_call_results c op tys ≡ ok (t ∷ [])) (infer_call_result c op tys)
  unfolding infer_call_result single_output_type
  infer_call_result-Ensures op tys =
      Ensures.◌⟫◌ (with_value (infer_call_results-Ensures c op tys))
        λ results e. weaken (single_output_type-Ensures results (name op)) (λ t p. e ∙ ap ok p)
