-- ===== src/Trace/Collect.antt =====
-- `collect_nodes` of crates/knok-build/src/trace/normalize.rs: each node comes after those that it uses.
use knok.Base.{
  none_not_some, ℕ, ◌≡◌, ◌≢◌, refl, ap, ◌∙◌, String, List, [], ◌∷◌, ◌++◌, some, none, not, false,
  Option-cases, inl, inr, Result, rejected,
}
use knok.Base.Ensures.{Ensures, returns, weaken, reject_if-Ensures, ◌⟫◌}
use native.Mathlib.Decide.{ℕ_discrete}
use knok.Ast.Graph.{Expr, Exprs}
use knok.Ast.Equality.{expr_eq, expr_eq_sound}
use knok.Trace.Normalize.{Collected, find, collect_node, collect_nodes, collect_args, collect_body}
use knok.Trace.Shared.{find-same, find-other}
use knok.Trace.Nodes.{
  Known, AllKnown, Reserved, AllReserved, Absent, AllAbsent, WellNested, AllWellNested, Each,
}

-- A payload comes after the nodes that it uses, and its variables are reserved.
pub data Built (reserved : List String) : List (ℕ × Expr) → List ℕ → Type 0 where
  start : Built reserved [] []
  later :
      {values : List (ℕ × Expr)} {order : List ℕ} {node_id : ℕ} {value : Expr}
      → Built reserved values order
      → find node_id values ≡ none
      → Known values value
      → Reserved reserved value
      → Built reserved ((node_id, value) ∷ values) (order ++ (node_id ∷ []))

-- What was found is found unchanged.
abbrev pub Grows : List (ℕ × Expr) → List (ℕ × Expr) → Type 0
Grows values after =
    (node_id : ℕ) (value : Expr)
    → find node_id values ≡ some value
    → find node_id after ≡ some value

mutual
  pub Known-Grows :
      (values after : List (ℕ × Expr)) (e : Expr)
      → Grows values after
      → Known values e
      → Known after e
  Known-Grows values after (Expr.var name) g k = tt
  Known-Grows values after (Expr.const value elem) g k = tt
  Known-Grows values after (Expr.unary op value) g k = Known-Grows values after value g k
  Known-Grows values after (Expr.binary op lhs rhs) g k =
      (Known-Grows values after lhs g k.0, Known-Grows values after rhs g k.1)
  Known-Grows values after (Expr.node node_id value) g k = g node_id value k
  Known-Grows values after (Expr.tuple_get tuple_id value place) g k =
      Known-Grows values after value g k
  Known-Grows values after (Expr.call op args) g k = AllKnown-Grows values after args g k

  AllKnown-Grows :
      (values after : List (ℕ × Expr)) (args : Exprs)
      → Grows values after
      → AllKnown values args
      → AllKnown after args
  AllKnown-Grows values after Exprs.nil g k = tt
  AllKnown-Grows values after (Exprs.cons arg args) g k =
      (Known-Grows values after arg g k.0, AllKnown-Grows values after args g k.1)

pub insert-Grows :
    (node_id : ℕ) (value : Expr) (values : List (ℕ × Expr))
    → find node_id values ≡ none
    → Grows values ((node_id, value) ∷ values)
insert-Grows node_id value values new other v h = elim (ℕ_discrete other node_id) [
  | yes e ↦ none_not_some (ap (λ k. find k values) e ∙ new) h
  | no d ↦ find-other node_id value values other d ∙ h
]

module _ (reserved : List String) where
  -- What collecting leaves: `known` holds of the values, `absent` says which ids are not collected.
  record Done (known : List (ℕ × Expr) → Type 0) (absent : ℕ → Type 0) (before after : Collected)
      : Type 0 where
    built : Built reserved after.values after.order
    grows : Grows before.values after.values
    all_known : known after.values
    untouched :
        (node_id : ℕ) → absent node_id → find node_id after.values ≡ find node_id before.values

  nothing :
      (state : Collected) {absent : ℕ → Type 0}
      → Built reserved state.values state.order
      → Done (λ _. Unit) absent state state
  nothing state b = record {
    built = b;
    grows = λ _ _ h. h;
    all_known = tt;
    untouched = λ _ _. refl;
  }

  -- One expression after another.
  both :
      {known known' : List (ℕ × Expr) → Type 0} {absent absent' : ℕ → Type 0}
      {before middle after : Collected}
      → ((values after : List (ℕ × Expr)) → Grows values after → known values → known after)
      → Done known absent before middle
      → Done known' absent' middle after
      → Done
          (λ values. known values × known' values)
          (λ node_id. absent node_id × absent' node_id)
          before
          after
  both {middle} {after} mono d d' = record {
    built = d'.built;
    grows = λ node_id value h. d'.grows node_id value (d.grows node_id value h);
    all_known = (mono middle.values after.values d'.grows d.all_known, d'.all_known);
    untouched = λ node_id h. d'.untouched node_id h.1 ∙ d.untouched node_id h.0;
  }

  one_node :
      (node_id : ℕ) (value : Expr) (before after : Collected)
      → Reserved reserved value
      → Absent node_id value
      → find node_id before.values ≡ none
      → Done (λ values. Known values value) (λ other. Absent other value) before after
      → Done
          (λ values. find node_id values ≡ some value)
          (λ other. (other ≢ node_id) × Absent other value)
          before
          (record {
            values = (node_id, value) ∷ after.values;
            order = after.order ++ (node_id ∷ []);
          })
  one_node node_id value before after r a new d =
      let still = d.untouched node_id a ∙ new in
      record {
        built = later d.built still d.all_known r;
        grows =
            λ other v h. insert-Grows node_id value after.values still other v (d.grows other v h);
        all_known = find-same node_id value after.values;
        untouched =
            λ other h. find-other node_id value after.values other h.0 ∙ d.untouched other h.1;
      }

  seen :
      (node_id : ℕ) (value existing : Expr) (state : Collected) {absent : ℕ → Type 0}
      → Built reserved state.values state.order
      → find node_id state.values ≡ some existing
      → existing ≡ value
      → Done (λ values. find node_id values ≡ some value) absent state state
  seen node_id value existing state b e same = record {
    built = b;
    grows = λ _ _ h. h;
    all_known = e ∙ ap some same;
    untouched = λ _ _. refl;
  }

  node_done :
      (node_id : ℕ) (value : Expr) (state : Collected) (inner : Result Collected)
      → Built reserved state.values state.order
      → Reserved reserved value
      → Absent node_id value
      → Ensures false
          (Done (λ values. Known values value) (λ other. Absent other value) state)
          inner
      → Ensures false
          (Done
            (λ values. find node_id values ≡ some value)
            (λ other. (other ≢ node_id) × Absent other value)
            state)
          (collect_node node_id value state (find node_id state.values) inner)
  unfolding collect_node
  node_done node_id value state inner b r a h = elim (Option-cases (find node_id state.values)) [
    | inl e ↦ rw e (h ⟫ λ after d. returns (one_node node_id value state after r a e d))
    | inr (existing, e) ↦ rw e (
        reject_if-Ensures (not (expr_eq existing value)) _ ⟫ λ _ same.
        returns
          (seen node_id value existing state b e (expr_eq_sound existing value (rejected _ same))))
  ]

  mutual
    unfolding collect_nodes collect_args

    collect_nodes_done :
        (e : Expr) (state : Collected)
        → Built reserved state.values state.order
        → Reserved reserved e
        → WellNested e
        → Ensures false
            (Done (λ values. Known values e) (λ node_id. Absent node_id e) state)
            (collect_nodes e state)
    collect_nodes_done (Expr.var name) state b r n = returns (nothing state b)
    collect_nodes_done (Expr.const value elem) state b r n = returns (nothing state b)
    collect_nodes_done (Expr.unary op value) state b r n = collect_nodes_done value state b r n
    collect_nodes_done (Expr.binary op lhs rhs) state b r n =
        collect_nodes_done lhs state b r.0 n.0 ⟫ λ middle d.
        weaken (collect_nodes_done rhs middle d.built r.1 n.1)
          (λ after d'. both (λ v w. Known-Grows v w lhs) d d')
    collect_nodes_done (Expr.node node_id value) state b r n =
        node_done node_id value state (collect_nodes value state) b r n.0
          (collect_nodes_done value state b r n.1)
    collect_nodes_done (Expr.tuple_get tuple_id value place) state b r n =
        collect_nodes_done value state b r n
    collect_nodes_done (Expr.call op args) state b r n = collect_args_done args state b r n

    collect_args_done :
        (args : Exprs) (state : Collected)
        → Built reserved state.values state.order
        → AllReserved reserved args
        → AllWellNested args
        → Ensures false
            (Done (λ values. AllKnown values args) (λ node_id. AllAbsent node_id args) state)
            (collect_args args state)
    collect_args_done Exprs.nil state b r n = returns (nothing state b)
    collect_args_done (Exprs.cons arg args) state b r n =
        collect_nodes_done arg state b r.0 n.0 ⟫ λ middle d.
        weaken (collect_args_done args middle d.built r.1 n.1)
          (λ after d'. both (λ v w. Known-Grows v w arg) d d')

  -- After a body is collected, its nodes are known, and each payload comes after the nodes it uses.
  pub collect_body_done :
      (body : List Expr) (state : Collected)
      → Built reserved state.values state.order
      → Each (Reserved reserved) body
      → Each WellNested body
      → Ensures false
          (λ after.
            Built reserved after.values after.order
            × Grows state.values after.values
            × Each (Known after.values) body)
          (collect_body body state)
  unfolding collect_body
  collect_body_done [] state b r n = returns (b, (λ _ _ h. h), tt)
  collect_body_done (expr ∷ body) state b r n =
      collect_nodes_done expr state b r.0 n.0 ⟫ λ middle d.
      weaken (collect_body_done body middle d.built r.1 n.1) (λ after k. (
        k.0,
        (λ node_id value h. k.1 node_id value (d.grows node_id value h)),
        (Known-Grows middle.values after.values expr k.1 d.all_known, k.2),
      ))
