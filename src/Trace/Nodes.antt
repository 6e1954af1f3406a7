-- ===== src/Trace/Nodes.antt =====
-- The nodes and the variables of an expression.
use knok.Base.{ℕ, ◌≡◌, ◌≢◌, String, List, [], ◌∷◌, some, true}
use knok.Ast.Graph.{Expr, Exprs}
use knok.Typecheck.Scope.{is_named}
use knok.Trace.Normalize.{find}

module _ (values : List (ℕ × Expr)) where
  -- Each node that is not below another one is in the map, with its payload.
  abbrev mutual
    pub Known : Expr → Type 0
    Known (Expr.var name) = Unit
    Known (Expr.const value elem) = Unit
    Known (Expr.unary op value) = Known value
    Known (Expr.binary op lhs rhs) = Known lhs × Known rhs
    Known (Expr.node node_id value) = find node_id values ≡ some value
    Known (Expr.tuple_get tuple_id value place) = Known value
    Known (Expr.call op args) = AllKnown args

    pub AllKnown : Exprs → Type 0
    AllKnown Exprs.nil = Unit
    AllKnown (Exprs.cons arg args) = Known arg × AllKnown args

module _ (reserved : List String) where
  -- Every variable, also those below nodes, is reserved.
  abbrev mutual
    pub Reserved : Expr → Type 0
    Reserved (Expr.var name) = is_named name reserved ≡ true
    Reserved (Expr.const value elem) = Unit
    Reserved (Expr.unary op value) = Reserved value
    Reserved (Expr.binary op lhs rhs) = Reserved lhs × Reserved rhs
    Reserved (Expr.node node_id value) = Reserved value
    Reserved (Expr.tuple_get tuple_id value place) = Reserved value
    Reserved (Expr.call op args) = AllReserved args

    pub AllReserved : Exprs → Type 0
    AllReserved Exprs.nil = Unit
    AllReserved (Exprs.cons arg args) = Reserved arg × AllReserved args

module _ (node_id : ℕ) where
  -- No node of the expression has this id.
  abbrev mutual
    pub Absent : Expr → Type 0
    Absent (Expr.var name) = Unit
    Absent (Expr.const value elem) = Unit
    Absent (Expr.unary op value) = Absent value
    Absent (Expr.binary op lhs rhs) = Absent lhs × Absent rhs
    Absent (Expr.node other value) = (node_id ≢ other) × Absent value
    Absent (Expr.tuple_get tuple_id value place) = Absent value
    Absent (Expr.call op args) = AllAbsent args

    pub AllAbsent : Exprs → Type 0
    AllAbsent Exprs.nil = Unit
    AllAbsent (Exprs.cons arg args) = Absent arg × AllAbsent args

-- No node is inside a node with the same id.
abbrev mutual
  pub WellNested : Expr → Type 0
  WellNested (Expr.var name) = Unit
  WellNested (Expr.const value elem) = Unit
  WellNested (Expr.unary op value) = WellNested value
  WellNested (Expr.binary op lhs rhs) = WellNested lhs × WellNested rhs
  WellNested (Expr.node node_id value) = Absent node_id value × WellNested value
  WellNested (Expr.tuple_get tuple_id value place) = WellNested value
  WellNested (Expr.call op args) = AllWellNested args

  pub AllWellNested : Exprs → Type 0
  AllWellNested Exprs.nil = Unit
  AllWellNested (Exprs.cons arg args) = WellNested arg × AllWellNested args

module _ (payload : ℕ → Expr) where
  -- Nodes with the same id have the same payload.
  abbrev mutual
    pub Consistent : Expr → Type 0
    Consistent (Expr.var name) = Unit
    Consistent (Expr.const value elem) = Unit
    Consistent (Expr.unary op value) = Consistent value
    Consistent (Expr.binary op lhs rhs) = Consistent lhs × Consistent rhs
    Consistent (Expr.node node_id value) = (value ≡ payload node_id) × Consistent value
    Consistent (Expr.tuple_get tuple_id value place) = Consistent value
    Consistent (Expr.call op args) = AllConsistent args

    pub AllConsistent : Exprs → Type 0
    AllConsistent Exprs.nil = Unit
    AllConsistent (Exprs.cons arg args) = Consistent arg × AllConsistent args

-- A property of every expression of a list.
abbrev pub Each : (Expr → Type 0) → List Expr → Type 0
Each P [] = Unit
Each P (expr ∷ body) = P expr × Each P body
