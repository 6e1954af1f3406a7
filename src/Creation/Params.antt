-- ===== src/Creation/Params.antt =====
-- The parameters of static creations in crates/knok-core/src/ops/static_creation.rs.
use knok.Base.{
  ℕ, Bool, not, ◌&&◌, Option, none, some, List, String, length, leb, Result, ok, err, about,
  reject_if, ok_or, traverse, ◌>>=◌, ◌>>◌, if◌then◌else◌,
}
use knok.Base.Vec.{index}
use knok.Ast.Graph.{Expr, Exprs}
use knok.Creation.Int.{ℤ, ltb_ℤ}
use knok.Creation.Numbers.{Numbers}
use knok.Creation.Scalar.{StaticScalar, static_scalar, arg_list}

pub data NumericParam (n : Numbers) : Type 0 where
  int : ℤ → NumericParam n
  float : n.double.Carrier → NumericParam n

module _ (checks : Bool) (n : Numbers) where
  unfoldable pub as_int : NumericParam n → Option ℤ
  as_int (NumericParam.int z) = some z
  as_int (NumericParam.float x) = none

  unfoldable pub as_float : NumericParam n → n.double.Carrier
  as_float (NumericParam.int z) = n.of_int z
  as_float (NumericParam.float x) = x

  -- The arms of the `match` on one argument's constant.
  unfoldable pub numeric_param : String → Option (StaticScalar n) → Result (NumericParam n)
  numeric_param op_name (some (StaticScalar.int z)) = ok (NumericParam.int z)
  numeric_param op_name (some (StaticScalar.float x)) =
      if n.double.is_finite x
      then ok (NumericParam.float x)
      else err (about op_name "parameters must be finite numeric literals")
  numeric_param op_name _ = err (about op_name "parameters must be numeric literals")

  unfoldable pub parse_param : String → Expr → Result (NumericParam n)
  unfolding static_scalar numeric_param
  parse_param op_name arg = static_scalar checks n arg >>= λ s. numeric_param op_name s

  -- `expected` is the range `least..=most`.
  unfoldable pub parse_numeric_params : String → Exprs → ℕ → ℕ → Result (List (NumericParam n))
  unfolding parse_param
  parse_numeric_params op_name args least most =
      reject_if (not (leb least (length (arg_list args)) && leb (length (arg_list args)) most))
        (about op_name "expects another number of literal arguments")
      >> traverse (parse_param op_name) (arg_list args)

  unfoldable pub parse_float_bounds : String → Exprs → Result (n.double.Carrier × n.double.Carrier)
  unfolding parse_numeric_params as_float
  parse_float_bounds op_name args = do
    params ← parse_numeric_params op_name args 2 2
    first ← index params 0
    second ← index params 1
    let low = as_float first
    let high = as_float second
    reject_if (not (n.double.lt low high)) (about op_name "requires low < high")
    ok (low, high)

  unfoldable pub parse_integer_bounds : String → Exprs → Result (ℤ × ℤ)
  unfolding parse_numeric_params as_int
  parse_integer_bounds op_name args = do
    params ← parse_numeric_params op_name args 2 2
    first ← index params 0
    low ← ok_or (about op_name "bounds must be integer literals") (as_int first)
    second ← index params 1
    high ← ok_or (about op_name "bounds must be integer literals") (as_int second)
    reject_if (not (ltb_ℤ low high)) (about op_name "requires low < high")
    ok (low, high)
