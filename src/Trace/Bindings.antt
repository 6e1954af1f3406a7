-- ===== src/Trace/Bindings.antt =====
-- The bindings that `let_bind_nodes` makes mean what the nodes mean.
use knok.Base.{ℕ, ◌≡◌, refl, ap, ap₂, String, List, [], ◌∷◌, some, true, ok, traverse, map}
use knok.Ast.Graph.{Expr, Exprs}
use knok.Typecheck.Scope.{is_named}
use knok.Trace.Normalize.{find, rewrite_node_refs, rewrite_args}
use knok.Trace.Nodes.{Known, AllKnown, Reserved, AllReserved, Each}
use knok.Trace.Meaning.{Interpretation, Values, value_of_expr, values_of_args}

module _ {V : Type 0} (meaning : Interpretation V) (reserved : List String)
    (names : List (ℕ × String)) (values : Values V) where
  -- Reserved names keep their values, and a node's name has its payload's value.
  pub record Agrees (known : List (ℕ × Expr)) (now : Values V) : Type 0 where
    pub same : (x : String) → is_named x reserved ≡ true → now x ≡ values x
    pub bound :
        (node_id : ℕ) (value : Expr)
        → find node_id known ≡ some value
        → (name : String) × (find node_id names ≡ some name)
          × (now name ≡ value_of_expr meaning values value)

  -- A rewritten expression means what the expression means.
  abbrev pub Rewritten : Values V → Expr → Type 0
  Rewritten now e =
      (e' : Expr) × (rewrite_node_refs names e ≡ ok e')
      × (value_of_expr meaning now e' ≡ value_of_expr meaning values e)

  abbrev AllRewritten : Values V → Exprs → Type 0
  AllRewritten now args =
      (args' : Exprs) × (rewrite_args names args ≡ ok args')
      × (values_of_args meaning now args' ≡ values_of_args meaning values args)

  module _ (known : List (ℕ × Expr)) (now : Values V) (agrees : Agrees known now) where
    mutual
      unfolding rewrite_node_refs rewrite_args value_of_expr values_of_args

      pub rewrite_lem : (e : Expr) → Known known e → Reserved reserved e → Rewritten now e
      rewrite_lem (Expr.var name) k r = (Expr.var name, refl, agrees.same name r)
      rewrite_lem (Expr.const value elem) k r = (Expr.const value elem, refl, refl)
      rewrite_lem (Expr.unary op value) k r =
          let (e', run, v) = rewrite_lem value k r in
          (Expr.unary op e', rw run refl, ap (meaning.unary op) v)
      rewrite_lem (Expr.binary op lhs rhs) k r =
          let (l', run, v) = rewrite_lem lhs k.0 r.0 in
          let (r', run', v') = rewrite_lem rhs k.1 r.1 in
          (Expr.binary op l' r', rw run (rw run' refl), ap₂ (meaning.binary op) v v')
      rewrite_lem (Expr.node node_id value) k r =
          let (name, h, v) = agrees.bound node_id value k in (Expr.var name, rw h refl, v)
      rewrite_lem (Expr.tuple_get tuple_id value place) k r =
          let (e', run, v) = rewrite_lem value k r in
          (Expr.tuple_get tuple_id e' place, rw run refl, ap (λ x. meaning.output x place) v)
      rewrite_lem (Expr.call op args) k r =
          let (args', run, v) = rewrite_args_lem args k r in
          (Expr.call op args', rw run refl, ap (meaning.call op) v)

      rewrite_args_lem :
          (args : Exprs) → AllKnown known args → AllReserved reserved args → AllRewritten now args
      rewrite_args_lem Exprs.nil k r = (Exprs.nil, refl, refl)
      rewrite_args_lem (Exprs.cons arg args) k r =
          let (e', run, v) = rewrite_lem arg k.0 r.0 in
          let (args', run', v') = rewrite_args_lem args k.1 r.1 in
          (Exprs.cons e' args', rw run (rw run' refl), ap₂ ◌∷◌ v v')

    -- The same of a body.
    pub rewrite_body_lem :
        (body : List Expr)
        → Each (Known known) body
        → Each (Reserved reserved) body
        → (body' : List Expr) × (traverse (rewrite_node_refs names) body ≡ ok body')
          × (map (value_of_expr meaning now) body' ≡ map (value_of_expr meaning values) body)
    rewrite_body_lem [] k r = ([], refl, refl)
    rewrite_body_lem (e ∷ body) k r =
        let (e', run, v) = rewrite_lem e k.0 r.0 in
        let (body', run', v') = rewrite_body_lem body k.1 r.1 in
        (e' ∷ body', rw run (rw run' refl), ap₂ ◌∷◌ v v')
