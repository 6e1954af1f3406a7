-- ===== src/Typecheck/Cache.antt =====
-- `NodeTypeCache` of crates/knok-core/src/typecheck.rs: the types of the nodes that were checked.
use knok.Base.{
  ℕ, ◌≡◌, ◌≢◌, refl, ap, subst, ◌∙◌, not, if◌then◌else◌, List, [], ◌∷◌, Option, some, none, Result,
  ok, message, ◌>>◌, reject_if, >>-eq-ok, ok_injective, ◌==◌, ==_iff, ==_refl, Bool-cases, inl, inr,
  arith,
}
use knok.Ast.Types.{TensorType}
use knok.Ast.Graph.{Expr}
use knok.Ast.Equality.{expr_eq, expr_eq_sound, expr_eq_refl}

pub record CachedNodeTypes : Type 0 where
  pub value : Expr
  pub tys : List TensorType

-- A `BTreeMap` as an association list, in which the first entry of a key counts.
pub record NodeTypeCache : Type 0 where
  pub outputs : List (ℕ × CachedNodeTypes)

unfoldable pub get : ℕ → List (ℕ × CachedNodeTypes) → Option CachedNodeTypes
get node_id [] = none
get node_id ((key, cached) ∷ outputs) = if key == node_id then some cached else get node_id outputs

unfoldable pub ensure_same_node_payload : Expr → Expr → Result (Unit {0})
ensure_same_node_payload cached current =
    reject_if (not (expr_eq cached current))
      (message "node id is used for multiple expression payloads")

-- The two arms of the `let else` and of the `if let`.
unfoldable pub outputs_of : Option CachedNodeTypes → Expr → Result (Option (List TensorType))
unfolding ensure_same_node_payload
outputs_of none value = ok none
outputs_of (some cached) value = do
  ensure_same_node_payload cached.value value
  ok (some cached.tys)

unfoldable pub cached_outputs : NodeTypeCache → ℕ → Expr → Result (Option (List TensorType))
cached_outputs cache node_id value = outputs_of (get node_id cache.outputs) value

unfoldable pub insert_after :
    Option CachedNodeTypes → NodeTypeCache → ℕ → Expr → List TensorType → Result NodeTypeCache
unfolding ensure_same_node_payload
insert_after (some cached) cache node_id value tys = do
  ensure_same_node_payload cached.value value
  ok cache
insert_after none cache node_id value tys =
    ok (record { outputs = (node_id, record { value = value; tys = tys }) ∷ cache.outputs })

unfoldable pub insert : NodeTypeCache → ℕ → Expr → List TensorType → Result NodeTypeCache
insert cache node_id value tys = insert_after (get node_id cache.outputs) cache node_id value tys

-- What a test against the stored payload says when it passes.
same_payload :
    (cached current : Expr) → ensure_same_node_payload cached current ≡ ok tt → cached ≡ current
unfolding ensure_same_node_payload
same_payload cached current h = expr_eq_sound cached current (ground arith)

-- A hit returns the types that are stored with an equal payload.
pub outputs_of-some :
    (entry : Option CachedNodeTypes) (value : Expr) {tys : List TensorType}
    → outputs_of entry value ≡ ok (some tys)
    → entry ≡ some (record { value = value; tys = tys })
unfolding outputs_of
outputs_of-some none value h = cc
outputs_of-some (some cached) value h =
    let (p, q) = >>-eq-ok (ensure_same_node_payload cached.value value) _ h in
    let e = same_payload cached.value value p in
    let f = some_injective (ok_injective q) in ap some (λ i. record { value = e i; tys = f i })
  where
    some_injective : {a b : List TensorType} → some a ≡ some b → a ≡ b
    some_injective h = cc

outputs_of_hit :
    (value : Expr) (tys : List TensorType)
    → outputs_of (some (record { value = value; tys = tys })) value ≡ ok (some tys)
unfolding outputs_of ensure_same_node_payload
outputs_of_hit value tys = rw (expr_eq_refl value) refl

get-cons :
    (key node_id : ℕ) (cached : CachedNodeTypes) (outputs : List (ℕ × CachedNodeTypes))
    → key ≢ node_id
    → get node_id ((key, cached) ∷ outputs) ≡ get node_id outputs
unfolding get
get-cons key node_id cached outputs ne = elim (Bool-cases (key == node_id)) [
  | inl e ↦ absurd (ne ((==_iff key node_id).0 e))
  | inr e ↦ rw e refl
]

-- Whatever was inserted, an entry that was there stays: a lookup that hit still returns the same types.
pub insert_keeps :
    (cache : NodeTypeCache) (node_id other : ℕ) (value payload : Expr) (tys found : List TensorType)
    (after : NodeTypeCache)
    → insert cache node_id value tys ≡ ok after
    → cached_outputs cache other payload ≡ ok (some found)
    → cached_outputs after other payload ≡ ok (some found)
unfolding insert cached_outputs
insert_keeps cache node_id other value payload tys found after h k =
    by_entry (get node_id cache.outputs) refl h
  where
    stored : get other cache.outputs ≡ some (record { value = payload; tys = found })
    stored = outputs_of-some (get other cache.outputs) payload k

    apart : get node_id cache.outputs ≡ none → node_id ≢ other
    apart empty same = clash (subst (λ n. get n cache.outputs ≡ none) same empty) stored
      where
        clash : {x : Option CachedNodeTypes} {c : CachedNodeTypes} → x ≡ none → x ≡ some c → ⊥
        clash p q = cc

    by_entry :
        (entry : Option CachedNodeTypes)
        → get node_id cache.outputs ≡ entry
        → insert_after entry cache node_id value tys ≡ ok after
        → outputs_of (get other after.outputs) payload ≡ ok (some found)
    by_entry (some cached) e i =
        unfold insert_after in
        let (_, q) = >>-eq-ok (ensure_same_node_payload cached.value value) _ i in
        subst (λ (c : NodeTypeCache). outputs_of (get other c.outputs) payload ≡ ok (some found))
          (ok_injective q) k
    by_entry none e i =
        unfold insert_after in
        subst (λ (c : NodeTypeCache). outputs_of (get other c.outputs) payload ≡ ok (some found))
          (ok_injective i)
          (ap (λ x. outputs_of x payload) (get-cons node_id other _ cache.outputs (apart e)) ∙ k)

-- A node that was not in the cache is found there, with the types that were inserted.
pub insert_hit :
    (cache : NodeTypeCache) (node_id : ℕ) (value : Expr) (tys : List TensorType)
    (after : NodeTypeCache)
    → get node_id cache.outputs ≡ none
    → insert cache node_id value tys ≡ ok after
    → cached_outputs after node_id value ≡ ok (some tys)
unfolding insert insert_after cached_outputs get
insert_hit cache node_id value tys after empty h =
    subst (λ (c : NodeTypeCache). outputs_of (get node_id c.outputs) value ≡ ok (some tys))
      (ok_injective (rw empty at h)) (rw (==_refl node_id) (outputs_of_hit value tys))
