-- ===== src/Trace/Correct.antt =====
-- `let_bind_nodes` of crates/knok-build/src/trace/normalize.rs as a whole.
use knok.Base.{
  ℕ, ◌≡◌, refl, sym, subst, ◌∙◌, String, List, [], ◌∷◌, ◌++◌, some, inl, inr, ok, >>=-eq-ok,
  ok_injective,
}
use knok.Base.Ensures.{value_of}
use native.Mathlib.Decide.{ℕ_discrete}
use knok.Ast.Graph.{Expr, Let}
use knok.Typecheck.Scope.{NoShadowing}
use knok.Trace.Normalize.{Collected, find, collect_body, let_bind_nodes}
use knok.Trace.Shared.{find-other}
use knok.Trace.Nodes.{Reserved, WellNested, Consistent, Each}
use knok.Trace.Collect.{Built, start, later, collect_body_done}
use knok.Trace.Assign.{Among, assign_names_lem}
use knok.Trace.Meaning.{Interpretation, Values, after_lets, values_of_body}
use knok.Trace.Bindings.{rewrite_body_lem}
use knok.Trace.Lets.{Made-all}
use knok.Trace.Accept.{Holds, collect_body_ok}

Among-left :
    (node_id : ℕ) (order rest : List ℕ) → Among node_id order → Among node_id (order ++ rest)
Among-left node_id [] rest h = absurd h
Among-left node_id (other ∷ order) rest (inl e) = inl e
Among-left node_id (other ∷ order) rest (inr h) = inr (Among-left node_id order rest h)

Among-last : (node_id : ℕ) (order : List ℕ) → Among node_id (order ++ (node_id ∷ []))
Among-last node_id [] = inl refl
Among-last node_id (other ∷ order) = inr (Among-last node_id order)

-- A collected node is in the order.
Among-built :
    {reserved : List String} {values : List (ℕ × Expr)} {order : List ℕ}
    → Built reserved values order
    → (node_id : ℕ) (value : Expr) → find node_id values ≡ some value
    → Among node_id order
unfolding find
Among-built start node_id value h = cc
Among-built (later {values} {order} {node_id = last} {value = w} b new k r) node_id value h =
    elim (ℕ_discrete node_id last) [
      | yes e ↦ subst (λ i. Among i (order ++ (last ∷ []))) (sym e) (Among-last last order)
      | no d ↦
          Among-left node_id order (last ∷ [])
            (Among-built b node_id value (sym (find-other last w values node_id d) ∙ h))
    ]

-- A meaning of the operations.
abbrev no_meaning : Interpretation (Unit {0})
no_meaning = record {
  literal = λ _ _. tt;
  unary = λ _ _. tt;
  binary = λ _ _ _. tt;
  output = λ _ _. tt;
  call = λ _ _. tt;
}

abbrev empty : Collected
empty = record { values = []; order = [] }

module _ (decimal : ℕ → String) (decimal_injective : (i j : ℕ) → decimal i ≡ decimal j → i ≡ j)
    (body : List Expr) (reserved : List String) (nested : Each WellNested body)
    (scoped : Each (Reserved reserved) body) where
  -- What the normalised graph is, for one meaning of the operations.
  abbrev Normal : {V : Type 0} → Interpretation V → Values V → List Let × List Expr → Type 0
  Normal meaning values (lets, out) =
      NoShadowing reserved lets
      × (values_of_body meaning (after_lets meaning values lets) out
          ≡ values_of_body meaning values body)

  normalised :
      {V : Type 0} (meaning : Interpretation V) (values : Values V) (state : Collected)
      → collect_body body empty ≡ ok state
      → (result : List Let × List Expr) × (let_bind_nodes decimal body reserved ≡ ok result)
        × Normal meaning values result
  unfolding let_bind_nodes
  normalised meaning values state run =
      let (built, grows, known) =
        value_of (collect_body_done reserved body empty start scoped nested) run in
      let (names, used, named, inv, has) =
        assign_names_lem decimal decimal_injective reserved state.order in
      let (lets, m) =
        Made-all meaning reserved used names values inv state.values
          (λ i w h. has i (Among-built built i w h)) built (λ i w h. h) in
      let (out, rewritten, same) =
        rewrite_body_lem meaning reserved names values state.values (after_lets meaning values lets)
          m.agrees body known scoped in
      ((lets, out), rw run (rw named (rw m.runs (rw rewritten refl))), (m.no_shadowing, same))

  Normal-of :
      {V : Type 0} (meaning : Interpretation V) (values : Values V) (lets : List Let)
      (out : List Expr)
      → let_bind_nodes decimal body reserved ≡ ok (lets, out)
      → Normal meaning values (lets, out)
  unfolding let_bind_nodes
  Normal-of meaning values lets out h =
      let (state, run, _) = >>=-eq-ok (collect_body body empty) _ h in
      let (result, e, n) = normalised meaning values state run in
      subst (Normal meaning values) (ok_injective (sym e ∙ h)) n

  -- If no node is inside a node with its id, every variable is reserved, and `decimal` prints
  -- different numbers differently, then the body that `let_bind_nodes` returns means, after the
  -- bindings that it returns, what the body meant before, whatever the operations and variables mean.
  pub let_bind_nodes_meaning :
      {V : Type 0} (meaning : Interpretation V) (values : Values V) (lets : List Let)
      (out : List Expr)
      → let_bind_nodes decimal body reserved ≡ ok (lets, out)
      → values_of_body meaning (after_lets meaning values lets) out
        ≡ values_of_body meaning values body
  let_bind_nodes_meaning meaning values lets out h = (Normal-of meaning values lets out h).1

  -- If no node is inside a node with its id, every variable is reserved, and `decimal` prints
  -- different numbers differently, then the bindings that `let_bind_nodes` returns rebind neither a
  -- reserved name nor one of their own.
  pub let_bind_nodes-NoShadowing :
      (lets : List Let) (out : List Expr)
      → let_bind_nodes decimal body reserved ≡ ok (lets, out)
      → NoShadowing reserved lets
  let_bind_nodes-NoShadowing lets out h = (Normal-of no_meaning (λ _. tt) lets out h).0

  -- If nodes with the same id have the same payload, no node is inside a node with its id, every
  -- variable is reserved, and `decimal` prints different numbers differently, then `let_bind_nodes`
  -- returns bindings and a body: it neither fails nor searches for a name without end.
  pub let_bind_nodes_total :
      (payload : ℕ → Expr)
      → Each (Consistent payload) body
      → (lets : List Let) × (out : List Expr) × (let_bind_nodes decimal body reserved
          ≡ ok (lets, out))
  let_bind_nodes_total payload c =
      let (state, run, _) = collect_body_ok payload body empty c (no_values payload) in
      let ((lets, out), e, _) = normalised no_meaning (λ _. tt) state run in (lets, out, e)
    where
      no_values : (payload : ℕ → Expr) → Holds payload []
      no_values payload = unfold find in λ node_id value h. cc
