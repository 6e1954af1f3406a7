-- ===== src/Typecheck/Calls.antt =====
-- Expressions of crates/knok-core/src/ast.rs all of whose calls have a property.
use knok.Base.{List, [], ◌∷◌}
use knok.Ast.Op.{CallOp}
use knok.Ast.Graph.{Expr, Exprs, Let, Graph}

module _ (P : CallOp → Exprs → Type 0) where
  abbrev mutual
    pub EachCall : Expr → Type 0
    EachCall (Expr.unary op value) = EachCall value
    EachCall (Expr.binary op lhs rhs) = EachCall lhs × EachCall rhs
    EachCall (Expr.node node_id value) = EachCall value
    EachCall (Expr.tuple_get tuple_id value place) = EachCall value
    EachCall (Expr.call op args) = P op args × EachCalls args
    EachCall _ = Unit

    pub EachCalls : Exprs → Type 0
    EachCalls Exprs.nil = Unit
    EachCalls (Exprs.cons arg args) = EachCall arg × EachCalls args

  abbrev pub EachLetCall : List Let → Type 0
  EachLetCall [] = Unit
  EachLetCall (binding ∷ bindings) = EachCall binding.value × EachLetCall bindings

  abbrev pub EachBodyCall : List Expr → Type 0
  EachBodyCall [] = Unit
  EachBodyCall (expr ∷ body) = EachCall expr × EachBodyCall body

  abbrev pub EachGraphCall : Graph → Type 0
  EachGraphCall graph = EachLetCall graph.lets × EachBodyCall graph.body

-- A property that implies another passes through.
module _ {P Q : CallOp → Exprs → Type 0}
    (imp : (op : CallOp) (args : Exprs) → P op args → Q op args) where
  mutual
    pub EachCall-imp : (e : Expr) → EachCall P e → EachCall Q e
    EachCall-imp (Expr.unary op value) h = EachCall-imp value h
    EachCall-imp (Expr.binary op lhs rhs) h = (EachCall-imp lhs h.0, EachCall-imp rhs h.1)
    EachCall-imp (Expr.node node_id value) h = EachCall-imp value h
    EachCall-imp (Expr.tuple_get tuple_id value place) h = EachCall-imp value h
    EachCall-imp (Expr.call op args) h = (imp op args h.0, EachCalls-imp args h.1)
    EachCall-imp (Expr.var x) h = tt
    EachCall-imp (Expr.const value elem) h = tt

    pub EachCalls-imp : (args : Exprs) → EachCalls P args → EachCalls Q args
    EachCalls-imp Exprs.nil h = tt
    EachCalls-imp (Exprs.cons arg args) h = (EachCall-imp arg h.0, EachCalls-imp args h.1)

  EachLetCall-imp : (bindings : List Let) → EachLetCall P bindings → EachLetCall Q bindings
  EachLetCall-imp [] h = tt
  EachLetCall-imp (binding ∷ bindings) h =
      (EachCall-imp binding.value h.0, EachLetCall-imp bindings h.1)

  EachBodyCall-imp : (body : List Expr) → EachBodyCall P body → EachBodyCall Q body
  EachBodyCall-imp [] h = tt
  EachBodyCall-imp (expr ∷ body) h = (EachCall-imp expr h.0, EachBodyCall-imp body h.1)

  pub EachGraphCall-imp : (graph : Graph) → EachGraphCall P graph → EachGraphCall Q graph
  EachGraphCall-imp graph h = (EachLetCall-imp graph.lets h.0, EachBodyCall-imp graph.body h.1)

-- What holds of every call holds of the calls of an expression.
module _ {P : CallOp → Exprs → Type 0} (all : (op : CallOp) (args : Exprs) → P op args) where
  mutual
    pub every_call : (e : Expr) → EachCall P e
    every_call (Expr.unary op value) = every_call value
    every_call (Expr.binary op lhs rhs) = (every_call lhs, every_call rhs)
    every_call (Expr.node node_id value) = every_call value
    every_call (Expr.tuple_get tuple_id value place) = every_call value
    every_call (Expr.call op args) = (all op args, every_calls args)
    every_call (Expr.var x) = tt
    every_call (Expr.const value elem) = tt

    pub every_calls : (args : Exprs) → EachCalls P args
    every_calls Exprs.nil = tt
    every_calls (Exprs.cons arg args) = (every_call arg, every_calls args)

  every_let_call : (bindings : List Let) → EachLetCall P bindings
  every_let_call [] = tt
  every_let_call (binding ∷ bindings) = (every_call binding.value, every_let_call bindings)

  every_body_call : (body : List Expr) → EachBodyCall P body
  every_body_call [] = tt
  every_body_call (expr ∷ body) = (every_call expr, every_body_call body)

  pub every_graph_call : (graph : Graph) → EachGraphCall P graph
  every_graph_call graph = (every_let_call graph.lets, every_body_call graph.body)
