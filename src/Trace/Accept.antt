-- ===== src/Trace/Accept.antt =====
-- Collection succeeds where nodes with the same id have the same payload.
use knok.Base.{
  some_injective, ℕ, ◌≡◌, refl, sym, ap, ◌∙◌, List, [], ◌∷◌, ◌++◌, some, Option-cases, inl, inr,
  Result, ok,
}
use native.Mathlib.Decide.{ℕ_discrete}
use knok.Ast.Graph.{Expr, Exprs}
use knok.Ast.Equality.{expr_eq_refl}
use knok.Trace.Normalize.{Collected, find, collect_node, collect_nodes, collect_args, collect_body}
use knok.Trace.Shared.{find-same, find-other}
use knok.Trace.Nodes.{Consistent, AllConsistent, Each}

module _ (payload : ℕ → Expr) where
  -- The map holds each node's payload.
  abbrev pub Holds : List (ℕ × Expr) → Type 0
  Holds values =
      (node_id : ℕ) (value : Expr) → find node_id values ≡ some value → value ≡ payload node_id

  Holds-insert :
      (node_id : ℕ) (value : Expr) (values : List (ℕ × Expr))
      → value ≡ payload node_id
      → Holds values
      → Holds ((node_id, value) ∷ values)
  Holds-insert node_id value values e h other w k = elim (ℕ_discrete other node_id) [
    | yes p ↦
        sym (
          some_injective (
            sym (find-same node_id value values)
            ∙ (ap (λ i. find i ((node_id, value) ∷ values)) (sym p) ∙ k)))
        ∙ (e ∙ ap payload (sym p))
    | no d ↦ h other w (sym (find-other node_id value values other d) ∙ k)
  ]

  abbrev Succeeds : Result Collected → Type 0
  Succeeds r = (after : Collected) × (r ≡ ok after) × Holds after.values

  node_ok :
      (node_id : ℕ) (value : Expr) (state : Collected) (inner : Result Collected)
      → value ≡ payload node_id
      → Holds state.values
      → Succeeds inner
      → Succeeds (collect_node node_id value state (find node_id state.values) inner)
  unfolding collect_node
  node_ok node_id value state inner e h (after, run, k) =
      elim (Option-cases (find node_id state.values)) [
        | inl f ↦ (
          record {
            values = (node_id, value) ∷ after.values;
            order = after.order ++ (node_id ∷ []);
          },
          rw f (rw run refl),
          Holds-insert node_id value after.values e k,
        )
        | inr (existing, f) ↦
            (state, rw f (rw (h node_id existing f ∙ sym e) (rw (expr_eq_refl value) refl)), h)
      ]

  mutual
    unfolding collect_nodes collect_args

    collect_nodes_ok :
        (e : Expr) (state : Collected)
        → Consistent payload e
        → Holds state.values
        → Succeeds (collect_nodes e state)
    collect_nodes_ok (Expr.var name) state c h = (state, refl, h)
    collect_nodes_ok (Expr.const value elem) state c h = (state, refl, h)
    collect_nodes_ok (Expr.unary op value) state c h = collect_nodes_ok value state c h
    collect_nodes_ok (Expr.binary op lhs rhs) state c h =
        let (middle, run, k) = collect_nodes_ok lhs state c.0 h in
        let (after, run', k') = collect_nodes_ok rhs middle c.1 k in (after, rw run run', k')
    collect_nodes_ok (Expr.node node_id value) state c h =
        node_ok node_id value state (collect_nodes value state) c.0 h
          (collect_nodes_ok value state c.1 h)
    collect_nodes_ok (Expr.tuple_get tuple_id value place) state c h =
        collect_nodes_ok value state c h
    collect_nodes_ok (Expr.call op args) state c h = collect_args_ok args state c h

    collect_args_ok :
        (args : Exprs) (state : Collected)
        → AllConsistent payload args
        → Holds state.values
        → Succeeds (collect_args args state)
    collect_args_ok Exprs.nil state c h = (state, refl, h)
    collect_args_ok (Exprs.cons arg args) state c h =
        let (middle, run, k) = collect_nodes_ok arg state c.0 h in
        let (after, run', k') = collect_args_ok args middle c.1 k in (after, rw run run', k')

  pub collect_body_ok :
      (body : List Expr) (state : Collected)
      → Each (Consistent payload) body
      → Holds state.values
      → Succeeds (collect_body body state)
  unfolding collect_body
  collect_body_ok [] state c h = (state, refl, h)
  collect_body_ok (expr ∷ body) state c h =
      let (middle, run, k) = collect_nodes_ok expr state c.0 h in
      let (after, run', k') = collect_body_ok body middle c.1 k in (after, rw run run', k')
