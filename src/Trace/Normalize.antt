-- ===== src/Trace/Normalize.antt =====
-- crates/knok-build/src/trace/normalize.rs: the nodes of a traced graph become bindings.
use Prim.Native.String.{◌++◌ as push_str}
use knok.Base.{
  ℕ, zero, suc, ◌+◌, ◌==◌, not, if◌then◌else◌, String, List, [], ◌∷◌, ◌++◌, length, Option, some,
  none, Result, ok, message, ◌>>=◌, ◌>>◌, reject_if, ok_or, expect, traverse,
}
use knok.Ast.Graph.{Expr, Exprs, Let}
use knok.Ast.Equality.{expr_eq}
use knok.Typecheck.Scope.{is_named}

-- The two locals `values` and `order` of `let_bind_nodes`, which `collect_nodes` changes. A map is an
-- association list whose first entry of a key counts.
pub record Collected : Type 0 where
  pub values : List (ℕ × Expr)
  pub order : List ℕ

-- `BTreeMap::get`.
unfoldable pub find : {A : Type 0} → ℕ → List (ℕ × A) → Option A
find node_id [] = none
find node_id ((key, value) ∷ entries) = if key == node_id then some value else find node_id entries

-- The arm of `collect_nodes` for a node: `existing` is what the map holds, `inner` collects the payload.
unfoldable pub collect_node :
    ℕ → Expr → Collected → Option Expr → Result Collected → Result Collected
collect_node node_id value state (some existing) inner = do
  reject_if (not (expr_eq existing value))
      (message "node id is used for multiple expression payloads")
  ok state
collect_node node_id value state none inner = do
  after ← inner
  ok (record { values = (node_id, value) ∷ after.values; order = after.order ++ (node_id ∷ []) })

unfoldable mutual
  unfolding collect_node find

  pub collect_nodes : Expr → Collected → Result Collected
  collect_nodes (Expr.var name) state = ok state
  collect_nodes (Expr.const value elem) state = ok state
  collect_nodes (Expr.unary op value) state = collect_nodes value state
  collect_nodes (Expr.binary op lhs rhs) state = do
    after ← collect_nodes lhs state
    collect_nodes rhs after
  collect_nodes (Expr.node node_id value) state =
      collect_node node_id value state (find node_id state.values) (collect_nodes value state)
  collect_nodes (Expr.tuple_get tuple_id value place) state = collect_nodes value state
  collect_nodes (Expr.call op args) state = collect_args args state

  pub collect_args : Exprs → Collected → Result Collected
  collect_args Exprs.nil state = ok state
  collect_args (Exprs.cons arg args) state = do
    after ← collect_nodes arg state
    collect_args args after

unfoldable pub collect_body : List Expr → Collected → Result Collected
collect_body [] state = ok state
collect_body (expr ∷ body) state = do after ← collect_nodes expr state; collect_body body after

unfoldable mutual
  unfolding find

  pub rewrite_node_refs : List (ℕ × String) → Expr → Result Expr
  rewrite_node_refs names (Expr.var name) = ok (Expr.var name)
  rewrite_node_refs names (Expr.const value elem) = ok (Expr.const value elem)
  rewrite_node_refs names (Expr.unary op value) = do
    rewritten ← rewrite_node_refs names value
    ok (Expr.unary op rewritten)
  rewrite_node_refs names (Expr.binary op lhs rhs) = do
    left ← rewrite_node_refs names lhs
    right ← rewrite_node_refs names rhs
    ok (Expr.binary op left right)
  rewrite_node_refs names (Expr.node node_id value) = do
    name ← ok_or (message "node has no generated binding name") (find node_id names)
    ok (Expr.var name)
  rewrite_node_refs names (Expr.tuple_get tuple_id value place) = do
    rewritten ← rewrite_node_refs names value
    ok (Expr.tuple_get tuple_id rewritten place)
  rewrite_node_refs names (Expr.call op args) = do
    rewritten ← rewrite_args names args
    ok (Expr.call op rewritten)

  pub rewrite_args : List (ℕ × String) → Exprs → Result Exprs
  rewrite_args names Exprs.nil = ok Exprs.nil
  rewrite_args names (Exprs.cons arg args) = do
    first ← rewrite_node_refs names arg
    rest ← rewrite_args names args
    ok (Exprs.cons first rest)

-- The closure that turns a node id into its binding.
unfoldable pub node_let : List (ℕ × String) → List (ℕ × Expr) → ℕ → Result Let
unfolding find rewrite_node_refs
node_let names values node_id = do
  name ← ok_or (message "node was not assigned a binding name") (find node_id names)
  value ← ok_or (message "node was not assigned a value") (find node_id values)
  rewritten ← rewrite_node_refs names value
  ok (record { names = name ∷ []; value = rewritten })

-- `decimal` is how `format!` prints a number.
module _ (decimal : ℕ → String) where
  unfoldable pub node_name : ℕ → String
  node_name node_id = push_str "__knok_node_" (decimal node_id)

  -- `format!("{base}_{suffix}")`.
  unfoldable pub with_suffix : String → ℕ → String
  with_suffix base suffix = push_str base (push_str "_" (decimal suffix))

  -- The loop of `unique_node_name`, on fuel.
  unfoldable pub unused_name : ℕ → String → String → ℕ → List String → Option String
  unfolding with_suffix is_named
  unused_name zero base candidate suffix reserved = none
  unused_name (suc fuel) base candidate suffix reserved =
      let rest = unused_name fuel base (with_suffix base suffix) (suffix + 1) reserved in
      if is_named candidate reserved then rest else some candidate

  -- The name, and the reserved names with it. A loop out of fuel would be the panic.
  unfoldable pub unique_node_name : ℕ → List String → Result (String × List String)
  unfolding node_name unused_name
  unique_node_name node_id reserved = do
    name ←
        expect
          (unused_name (length reserved + 2) (node_name node_id) (node_name node_id) 1 reserved)
    ok (name, name ∷ reserved)

  -- The loop over `order`.
  unfoldable pub assign_names :
      List ℕ → List String → List (ℕ × String) → Result (List (ℕ × String))
  unfolding unique_node_name
  assign_names [] reserved names = ok names
  assign_names (node_id ∷ order) reserved names = do
    named ← unique_node_name node_id reserved
    assign_names order named.1 ((node_id, named.0) ∷ names)

  unfoldable pub let_bind_nodes : List Expr → List String → Result (List Let × List Expr)
  unfolding collect_body assign_names node_let rewrite_node_refs
  let_bind_nodes body reserved = do
    collected ← collect_body body (record { values = []; order = [] })
    names ← assign_names collected.order reserved []
    lets ← traverse (node_let names collected.values) collected.order
    rewritten ← traverse (rewrite_node_refs names) body
    ok (lets, rewritten)
