-- ===== src/Creation/Scalar.antt =====
-- `Expr::static_scalar` of crates/knok-core/src/ast.rs: the constants that an expression may be.
use knok.Base.{
  Bool, true, false, Option, none, some, List, [], ◌∷◌, String, Result, ok, ◌>>=◌, if◌then◌else◌,
}
use text.Mathlib.Text.{◌==◌ as str_eq}
use knok.Ast.Types.{ElementType}
use knok.Ast.Op.{UnaryOp}
use knok.Ast.Graph.{Expr, Exprs}
use knok.Creation.Int.{ℤ, neg_i128}
use knok.Creation.Numbers.{Numbers}

pub data StaticScalar (n : Numbers) : Type 0 where
  bool : Bool → StaticScalar n
  int : ℤ → StaticScalar n
  float : n.double.Carrier → StaticScalar n

-- `Option::map`, with a value that is found.
abbrev pub int_scalar : (n : Numbers) → Option ℤ → Option (StaticScalar n)
int_scalar n none = none
int_scalar n (some z) = some (StaticScalar.int z)

abbrev pub float_scalar : (n : Numbers) → Option n.double.Carrier → Option (StaticScalar n)
float_scalar n none = none
float_scalar n (some x) = some (StaticScalar.float x)

unfoldable pub const_scalar : (n : Numbers) → String → ElementType → Option (StaticScalar n)
const_scalar n value ElementType.bool =
    if str_eq value "0"
    then some (StaticScalar.bool false)
    else if str_eq value "1"
    then some (StaticScalar.bool true)
    else none
const_scalar n value ElementType.i32 = int_scalar n (n.parse_i128 value)
const_scalar n value ElementType.i64 = int_scalar n (n.parse_i128 value)
const_scalar n value _ = float_scalar n (n.parse_f64 value)

-- `-value`: that of the least `i128` overflows.
unfoldable pub negated :
    Bool → (n : Numbers) → Option (StaticScalar n) → Result (Option (StaticScalar n))
negated checks n none = ok none
negated checks n (some (StaticScalar.int z)) =
    neg_i128 checks z >>= λ w. ok (some (StaticScalar.int w))
negated checks n (some (StaticScalar.float x)) = ok (some (StaticScalar.float (n.double.neg x)))
negated checks n (some (StaticScalar.bool b)) = ok none

unfoldable pub static_scalar : Bool → (n : Numbers) → Expr → Result (Option (StaticScalar n))
unfolding const_scalar negated
static_scalar checks n (Expr.const value elem) = ok (const_scalar n value elem)
static_scalar checks n (Expr.unary UnaryOp.neg value) =
    static_scalar checks n value >>= λ s. negated checks n s
static_scalar checks n _ = ok none

-- The arguments of a call as a list.
abbrev pub arg_list : Exprs → List Expr
arg_list Exprs.nil = []
arg_list (Exprs.cons arg args) = arg ∷ arg_list args
