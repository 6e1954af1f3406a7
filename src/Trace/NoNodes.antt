-- ===== src/Trace/NoNodes.antt =====
-- What `let_bind_nodes` returns has no nodes.
use knok.Base.{
  ℕ, ◌≡◌, sym, subst, ap, String, List, [], ◌∷◌, ok, >>=-eq-ok, ok_injective, ok_or, message,
  traverse, traverse-cons,
}
use knok.Ast.Graph.{Expr, Exprs, Let}
use knok.Typecheck.NodeFree.{NodeFree, NodesFree}
use knok.Trace.Normalize.{
  find, collect_body, assign_names, node_let, rewrite_node_refs, rewrite_args, let_bind_nodes,
}
use knok.Trace.Nodes.{Each}

module _ (names : List (ℕ × String)) where
  mutual
    unfolding rewrite_node_refs rewrite_args

    rewrite-NodeFree : (e e' : Expr) → rewrite_node_refs names e ≡ ok e' → NodeFree e'
    rewrite-NodeFree (Expr.var name) e' h = subst NodeFree (ok_injective h) tt
    rewrite-NodeFree (Expr.const value elem) e' h = subst NodeFree (ok_injective h) tt
    rewrite-NodeFree (Expr.unary op value) e' h =
        let (v, run, k) = >>=-eq-ok (rewrite_node_refs names value) _ h in
        subst NodeFree (ok_injective k) (rewrite-NodeFree value v run)
    rewrite-NodeFree (Expr.binary op lhs rhs) e' h =
        let (l, run, k) = >>=-eq-ok (rewrite_node_refs names lhs) _ h in
        let (r, run', k') = >>=-eq-ok (rewrite_node_refs names rhs) _ k in
        subst NodeFree (ok_injective k') (rewrite-NodeFree lhs l run, rewrite-NodeFree rhs r run')
    rewrite-NodeFree (Expr.node node_id value) e' h =
        let (name, run, k) =
          >>=-eq-ok (ok_or (message "node has no generated binding name") (find node_id names)) _
            h in
        subst NodeFree (ok_injective k) tt
    rewrite-NodeFree (Expr.tuple_get tuple_id value place) e' h =
        let (v, run, k) = >>=-eq-ok (rewrite_node_refs names value) _ h in
        subst NodeFree (ok_injective k) (rewrite-NodeFree value v run)
    rewrite-NodeFree (Expr.call op args) e' h =
        let (rest, run, k) = >>=-eq-ok (rewrite_args names args) _ h in
        subst NodeFree (ok_injective k) (rewrite_args-NodesFree args rest run)

    rewrite_args-NodesFree :
        (args args' : Exprs) → rewrite_args names args ≡ ok args' → NodesFree args'
    rewrite_args-NodesFree Exprs.nil args' h = subst NodesFree (ok_injective h) tt
    rewrite_args-NodesFree (Exprs.cons arg args) args' h =
        let (first, run, k) = >>=-eq-ok (rewrite_node_refs names arg) _ h in
        let (rest, run', k') = >>=-eq-ok (rewrite_args names args) _ k in
        subst NodesFree (ok_injective k')
          (rewrite-NodeFree arg first run, rewrite_args-NodesFree args rest run')

  rewrite_body-NodeFree :
      (body out : List Expr) → traverse (rewrite_node_refs names) body ≡ ok out → Each NodeFree out
  rewrite_body-NodeFree [] out h = subst (Each NodeFree) (ok_injective h) tt
  rewrite_body-NodeFree (e ∷ body) out h =
      let (e', rest, run, run', k) = traverse-cons (rewrite_node_refs names) e body h in
      subst (Each NodeFree) k (rewrite-NodeFree e e' run, rewrite_body-NodeFree body rest run')

-- Each binding binds one name, to an expression without nodes.
abbrev pub FlatLets : List Let → Type 0
FlatLets [] = Unit
FlatLets (binding ∷ bindings) =
    ((name : String) × (binding.names ≡ name ∷ [])) × NodeFree binding.value × FlatLets bindings

flat_lets :
    (names : List (ℕ × String)) (values : List (ℕ × Expr)) (order : List ℕ) (lets : List Let)
    → traverse (node_let names values) order ≡ ok lets
    → FlatLets lets
unfolding node_let
flat_lets names values [] lets h = subst FlatLets (ok_injective h) tt
flat_lets names values (node_id ∷ order) lets h =
    let (binding, rest, run, run', k) = traverse-cons (node_let names values) node_id order h in
    let (name, f, h1) =
      >>=-eq-ok (ok_or (message "node was not assigned a binding name") (find node_id names)) _
        run in
    let (value, g, h2) =
      >>=-eq-ok (ok_or (message "node was not assigned a value") (find node_id values)) _ h1 in
    let (e', r, h3) = >>=-eq-ok (rewrite_node_refs names value) _ h2 in
    subst FlatLets k (
      (name, ap (λ (b : Let). b.names) (sym (ok_injective h3))),
      subst NodeFree (ap (λ (b : Let). b.value) (ok_injective h3))
          (rewrite-NodeFree names value e' r),
      flat_lets names values order rest run',
    )

-- The bindings that `let_bind_nodes` returns bind one name each, and neither they nor the body that it
-- returns have a node.
pub let_bind_nodes-FlatLets :
    (decimal : ℕ → String) (body : List Expr) (reserved : List String) (lets : List Let)
    (out : List Expr)
    → let_bind_nodes decimal body reserved ≡ ok (lets, out)
    → FlatLets lets × Each NodeFree out
unfolding let_bind_nodes
let_bind_nodes-FlatLets decimal body reserved lets out h =
    let (state, run, h1) = >>=-eq-ok (collect_body body (record { values = []; order = [] })) _ h in
    let (names, named, h2) = >>=-eq-ok (assign_names decimal state.order reserved []) _ h1 in
    let (bindings, made, h3) =
      >>=-eq-ok (traverse (node_let names state.values) state.order) _ h2 in
    let (rewritten, rest, h4) = >>=-eq-ok (traverse (rewrite_node_refs names) body) _ h3 in
    let same = ok_injective h4 in
    (
      subst FlatLets (ap (λ p. p.0) same) (flat_lets names state.values state.order bindings made),
      subst (Each NodeFree) (ap (λ p. p.1) same) (rewrite_body-NodeFree names body rewritten rest),
    )
