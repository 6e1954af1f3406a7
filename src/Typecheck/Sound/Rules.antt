-- ===== src/Typecheck/Sound/Rules.antt =====
-- The check at each kind of node keeps the cache typed, and returns what the typing rules allow.
use knok.Base.{
  ℕ, ◌≡◌, ◌⊎◌, refl, sym, Bool, true, not, List, [], ◌∷◌, length, get_elem?, Option, some, none,
  String, Result, rejected, ◌==◌, ==_iff, arith, reverse, subst, Bool-cases, inl, inr,
}
use knok.Base.Ensures.{Ensures, weaken, relax, reject_if-Ensures, index-Ensures}
use text.Mathlib.Text.{◌==◌ as str_eq}
use knok.Ast.Types.{TensorType, is_numeric}
use knok.Ast.Op.{CallOp}
use knok.Ast.Graph.{Expr, Exprs}
use knok.Ops.Broadcast.{Broadcasts}
use knok.Ops.Safety.Common.{expect_numeric-Ensures}
use knok.Ops.Safety.Infer.{infer_call_results-Ensures}
use knok.Typecheck.Env.{TypeEnv, lookup}
use knok.Typecheck.Cache.{NodeTypeCache, CachedNodeTypes, get, cached_outputs, insert}
use knok.Typecheck.Checker.{Checker, Keeps, ◌⟫◌, lift-Keeps, pure-Keeps}
use knok.Typecheck.Rules.{
  TypeChecker, find_signature, count_args, var_ty, one_output, unary_ty, binary_ty, tuple_get_ty,
  cached_outputs_of, insert_node, found_or_checked, type_node_outputs, node_ty,
  type_graph_call_outputs, call_outputs, call_ty,
}
use knok.Typecheck.Typing.{HasOutputs, HasTypes, CallOutputs}
use knok.Typecheck.Sound.Results.{
  ok_or-Ensures, with_value, single_output_type-Ensures, binary_result_type-Ensures,
  outputs_of-Ensures, insert_after-Ensures, stored-Ensures, infer_call_result-Ensures,
}

-- `p` says whether a panic is allowed at all: overflow checks, which are on if `c` is, allow one.
module _ (c p : Bool) (on : c ≡ true → p ≡ true) (static_call : CallOp → Exprs → Result (Unit {0}))
    (checker : TypeChecker) (env : TypeEnv) where
  abbrev pub Outs : Expr → List TensorType → Type 0
  Outs = HasOutputs c static_call checker env

  abbrev pub AllTyped : List (ℕ × CachedNodeTypes) → Type 0
  AllTyped [] = Unit
  AllTyped ((node_id, cached) ∷ outputs) = Outs cached.value cached.tys × AllTyped outputs

  -- Every cached node has the types that are cached for it.
  abbrev pub CacheTyped : NodeTypeCache → Type 0
  CacheTyped cache = AllTyped cache.outputs

  get_typed :
      (node_id : ℕ) (outputs : List (ℕ × CachedNodeTypes)) {cached : CachedNodeTypes}
      → AllTyped outputs
      → get node_id outputs ≡ some cached
      → Outs cached.value cached.tys
  unfolding get
  get_typed node_id [] v h = cc
  get_typed node_id ((key, entry) ∷ outputs) {cached} v h = elim (Bool-cases (key == node_id)) [
    | inl e ↦ subst (λ (x : CachedNodeTypes). Outs x.value x.tys) (same (rw e at h)) v.0
    | inr e ↦ get_typed node_id outputs v.1 (rw e at h)
  ]
    where
      same : some entry ≡ some cached → entry ≡ cached
      same p = cc

  abbrev pub Found : Expr → Option (List TensorType) → Type 0
  Found value none = Unit
  Found value (some tys) = Outs value tys

  pub cached_outputs_of-Keeps :
      (node_id : ℕ) (value : Expr)
      → Keeps p CacheTyped (Found value) (cached_outputs_of node_id value)
  unfolding cached_outputs_of cached_outputs
  cached_outputs_of-Keeps node_id value = record {
    runs = λ cache v.
        (lift-Keeps {c = p} {V = CacheTyped} {P = Found value} (
            weaken (outputs_of-Ensures (get node_id cache.outputs) value)
              (found_typed cache v))).runs
          cache v;
  }
    where
      found_typed :
          (cache : NodeTypeCache)
          → CacheTyped cache
          → (found : Option (List TensorType))
          → (found ≡ none)
            ⊎ ((tys : List TensorType) × (found ≡ some tys)
                × (get node_id cache.outputs ≡ some (record { value = value; tys = tys })))
          → Found value found
      found_typed cache v found (inl e) = rw e tt
      found_typed cache v found (inr (tys, e, g)) = rw e (get_typed node_id cache.outputs v g)

  pub insert_node-Keeps :
      (node_id : ℕ) (value : Expr) (tys : List TensorType)
      → Outs value tys
      → Keeps p CacheTyped (λ _. Unit {0}) (insert_node node_id value tys)
  unfolding insert_node insert
  insert_node-Keeps node_id value tys h = record {
    runs = λ cache v. stored-Ensures (
        weaken (insert_after-Ensures (get node_id cache.outputs) cache node_id value tys)
          (grown cache v));
  }
    where
      grown :
          (cache : NodeTypeCache)
          → CacheTyped cache
          → (after : NodeTypeCache)
          → (after ≡ cache)
            ⊎ (after ≡ record {
              outputs = (node_id, record { value = value; tys = tys }) ∷ cache.outputs;
            })
          → CacheTyped after
      grown cache v after (inl e) = subst CacheTyped (sym e) v
      grown cache v after (inr e) = subst CacheTyped (sym e) (h, v)

  pub found_or_checked-Keeps :
      (node_id : ℕ) (value : Expr) {check : Checker (List TensorType)}
      (found : Option (List TensorType))
      → Keeps p CacheTyped (Outs value) check
      → Found value found
      → Keeps p CacheTyped (Outs value) (found_or_checked node_id value check found)
  unfolding found_or_checked
  found_or_checked-Keeps node_id value (some tys) k f = pure-Keeps f
  found_or_checked-Keeps node_id value none k f =
      k ⟫ λ tys h. insert_node-Keeps node_id value tys h ⟫ λ _ _. pure-Keeps h

  pub type_node_outputs-Keeps :
      (node_id : ℕ) (value : Expr) {check : Checker (List TensorType)}
      → Keeps p CacheTyped (Outs value) check
      → Keeps p CacheTyped (Outs value) (type_node_outputs node_id value check)
  unfolding type_node_outputs
  type_node_outputs-Keeps node_id value k = cached_outputs_of-Keeps node_id value ⟫ λ found f.
      found_or_checked-Keeps node_id value found k f

  -- The recursion, with one rule for each action.
  pub one_output-Keeps :
      (Q : List TensorType → Type 0) {m : Checker TensorType}
      → Keeps p CacheTyped (λ t. Q (t ∷ [])) m
      → Keeps p CacheTyped Q (one_output m)
  unfolding one_output
  one_output-Keeps Q k = k ⟫ λ t h. pure-Keeps h

  pub var_ty-Keeps :
      (callee : String) → Keeps p CacheTyped (λ t. lookup env callee ≡ some t) (var_ty env callee)
  unfolding var_ty
  var_ty-Keeps callee = lift-Keeps (ok_or-Ensures _ (lookup env callee))

  pub unary_ty-Keeps :
      {P : TensorType → Type 0} {m : Checker TensorType}
      → Keeps p CacheTyped P m
      → Keeps p CacheTyped (λ t. P t × (is_numeric t.elem ≡ true)) (unary_ty m)
  unfolding unary_ty
  unary_ty-Keeps k =
      k ⟫ λ t h. lift-Keeps (expect_numeric-Ensures t.elem _) ⟫ λ _ n. pure-Keeps (h, n)

  pub binary_ty-Keeps :
      {P Q : TensorType → Type 0} {m n : Checker TensorType}
      → Keeps p CacheTyped P m
      → Keeps p CacheTyped Q n
      → Keeps p CacheTyped
          (λ t.
            (l : TensorType) × (r : TensorType) × P l
            × Q r
            × (is_numeric l.elem ≡ true)
            × (l.elem ≡ r.elem)
            × (t.elem ≡ l.elem)
            × Broadcasts l.shape r.shape t.shape)
          (binary_ty c m n)
  unfolding binary_ty
  binary_ty-Keeps k k' = k ⟫ λ l h. k' ⟫ λ r h'. lift-Keeps (
      weaken (relax on (binary_result_type-Ensures l r)) (λ t p. (l, r, h, h', p.0, p.1, p.2, p.3)))

  pub tuple_get_ty-Keeps :
      {P : List TensorType → Type 0} (place : ℕ) {m : Checker (List TensorType)}
      → Keeps p CacheTyped P m
      → Keeps p CacheTyped
          (λ t. (inner : List TensorType) × P inner × (get_elem? inner place ≡ some t))
          (tuple_get_ty place m)
  unfolding tuple_get_ty
  tuple_get_ty-Keeps place k = k ⟫ λ inner h.
      lift-Keeps (weaken (ok_or-Ensures _ (get_elem? inner place)) (λ t e. (inner, h, e)))

  pub node_ty-Keeps :
      (P : List TensorType → Type 0) {m : Checker (List TensorType)}
      → Keeps p CacheTyped P m
      → Keeps p CacheTyped (λ t. P (t ∷ [])) (node_ty m)
  unfolding node_ty
  node_ty-Keeps P k =
      k ⟫ λ outs h. lift-Keeps (weaken (single_output_type-Ensures outs _) (λ t e. subst P e h))

  -- What the rules ask of a call whose name, if it is a graph's, is `graph`.
  abbrev pub Called : Option String → CallOp → Exprs → List TensorType → Type 0
  Called graph op args outs =
      (tys : List TensorType) × HasTypes c static_call checker env args tys
      × CallOutputs c static_call checker env graph op args tys outs

  module _ (op : CallOp) (args : Exprs) {m : Checker (List TensorType)}
      {check : String → List TensorType → Checker (Unit {0})}
      (typed : Keeps p CacheTyped (HasTypes c static_call checker env args) m)
      (checked : (callee : String) (inputs : List TensorType)
        → count_args args ≡ length inputs
        → Keeps p CacheTyped
            (λ _. HasTypes c static_call checker env args inputs)
            (check callee inputs)) where
    pub graph_call-Keeps :
        (callee : String)
        → Keeps p CacheTyped
            (Called (some callee) op args)
            (type_graph_call_outputs checker callee args (check callee))
    unfolding type_graph_call_outputs CallOutputs
    graph_call-Keeps callee =
        lift-Keeps (reject_if-Ensures (str_eq callee checker.current_graph) _) ⟫ λ _ other.
        lift-Keeps (ok_or-Ensures _ (find_signature callee (reverse checker.graph_signatures)))
        ⟫ λ signature found.
            lift-Keeps (reject_if-Ensures (not (count_args args == length signature.inputs)) _)
            ⟫ λ _ counted.
                checked callee signature.inputs ((==_iff _ _).0 (rejected _ counted)) ⟫ λ _ h.
                pure-Keeps (signature.inputs, h, (signature, found, other, refl, refl))

    pub call_outputs-Keeps :
        Ensures p (λ _. Unit {0}) (static_call op args)
        → (graph : Option String)
        → Keeps p CacheTyped
            (Called graph op args)
            (call_outputs c static_call checker op args m check graph)
    unfolding call_outputs CallOutputs
    call_outputs-Keeps safe (some callee) = graph_call-Keeps callee
    call_outputs-Keeps safe none = lift-Keeps (with_value safe) ⟫ λ _ s. typed ⟫ λ tys h.
        lift-Keeps (
          weaken (relax on (with_value (infer_call_results-Ensures c op tys)))
            (λ outs e. (tys, h, (s, e))))

    pub call_ty-Keeps :
        Ensures p (λ _. Unit {0}) (static_call op args)
        → (graph : Option String)
        → Keeps p CacheTyped
            (λ t. Called graph op args (t ∷ []))
            (call_ty c static_call checker op args m check graph)
    unfolding call_ty CallOutputs
    call_ty-Keeps safe (some callee) = graph_call-Keeps callee ⟫ λ outs h.
        lift-Keeps (reject_if-Ensures (not (length outs == 1)) _) ⟫ λ _ one. lift-Keeps (
          weaken (index-Ensures outs 0 (ground arith)) (λ t e.
            subst (Called (some callee) op args) (only outs t ((==_iff _ _).0 (rejected _ one)) e)
              h))
      where
        only :
            (outs : List TensorType) (t : TensorType)
            → length outs ≡ 1
            → get_elem? outs 0 ≡ some t
            → outs ≡ t ∷ []
        only [] t l e = cc
        only (u ∷ []) t l e = cc
        only (u ∷ v ∷ outs) t l e = absurd (omega arith)
    call_ty-Keeps safe none = lift-Keeps (with_value safe) ⟫ λ _ s. typed ⟫ λ tys h.
        lift-Keeps (weaken (relax on (infer_call_result-Ensures op tys)) (λ t e. (tys, h, (s, e))))
