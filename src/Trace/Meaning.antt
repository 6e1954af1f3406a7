-- ===== src/Trace/Meaning.antt =====
-- What an expression and a list of bindings mean, for any meaning of the operations.
use knok.Base.{ℕ, suc, if◌then◌else◌, String, List, [], ◌∷◌, map}
use text.Mathlib.Text.{◌==◌ as str_eq}
use knok.Ast.Types.{ElementType}
use knok.Ast.Op.{UnaryOp, BinaryOp, CallOp}
use knok.Ast.Graph.{Expr, Exprs, Let}

-- `V` is a value with any number of outputs, and `output` chooses one of them.
pub record Interpretation (V : Type 0) : Type 0 where
  pub literal : String → ElementType → V
  pub unary : UnaryOp → V → V
  pub binary : BinaryOp → V → V → V
  pub output : V → ℕ → V
  pub call : CallOp → List V → V

abbrev pub Values : Type 0 → Type 0
Values V = String → V

unfoldable pub bind_name : {V : Type 0} → String → V → Values V → Values V
bind_name name value values x = if str_eq name x then value else values x

module _ {V : Type 0} (meaning : Interpretation V) where
  -- A node means what its payload means.
  unfoldable mutual
    pub value_of_expr : Values V → Expr → V
    value_of_expr values (Expr.var name) = values name
    value_of_expr values (Expr.const value elem) = meaning.literal value elem
    value_of_expr values (Expr.unary op value) = meaning.unary op (value_of_expr values value)
    value_of_expr values (Expr.binary op lhs rhs) =
        meaning.binary op (value_of_expr values lhs) (value_of_expr values rhs)
    value_of_expr values (Expr.node node_id value) = value_of_expr values value
    value_of_expr values (Expr.tuple_get tuple_id value place) =
        meaning.output (value_of_expr values value) place
    value_of_expr values (Expr.call op args) = meaning.call op (values_of_args values args)

    pub values_of_args : Values V → Exprs → List V
    values_of_args values Exprs.nil = []
    values_of_args values (Exprs.cons arg args) =
        value_of_expr values arg ∷ values_of_args values args

  abbrev pub bind_outputs : List String → ℕ → V → Values V → Values V
  bind_outputs [] place value values = values
  bind_outputs (name ∷ names) place value values =
      bind_outputs names (suc place) value (bind_name name (meaning.output value place) values)

  -- One name is bound to the value, and several to its outputs.
  abbrev pub bind_let : List String → V → Values V → Values V
  bind_let (name ∷ []) value values = bind_name name value values
  bind_let names value values = bind_outputs names 0 value values

  -- The names after a list of bindings, each in the scope of those before it.
  abbrev pub after_lets : Values V → List Let → Values V
  after_lets values [] = values
  after_lets values (binding ∷ bindings) =
      after_lets (bind_let binding.names (value_of_expr values binding.value) values) bindings

  abbrev pub values_of_body : Values V → List Expr → List V
  values_of_body values body = map (value_of_expr values) body
