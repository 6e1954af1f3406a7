-- ===== src/Creation/FloatExamples.antt =====
-- Floating-point draws at concrete arguments, with a type of four numbers in place of f64.
use knok.Base.{
  ℕ, ◌≡◌, refl, ◌⊎◌, inl, inr, true, Option, some, none, List, [], ◌∷◌, if◌then◌else◌, ◌==◌, ◌||◌,
  ltb, leb, String, ok, arith,
}
use text.Mathlib.Text.{◌==◌ as str_eq}
use knok.Ast.Types.{ElementType, TensorType}
use knok.Ast.Graph.{Expr, Exprs}
use knok.Creation.Numbers.{Float, Numbers}
use knok.Ast.Types.{elem_eq}
use knok.Base.Vec.{index}
use knok.Base.Usize.{fit, mul_usize, product_from}
use knok.Ops.Common.{element_count}
use knok.Creation.Target.{validate_random_uniform_target}
use knok.Creation.Scalar.{static_scalar, const_scalar}
use knok.Creation.Literals.{float_literal}
use knok.Creation.SplitMix.{splitmix64, wrapping_add, wrapping_mul, xor_shifted, unit_from_u64}
use knok.Creation.Random.{bits_before, bits_after, next_down, draw, sample, random_uniform_literal}
use knok.Creation.Params.{
  parse_float_bounds, parse_numeric_params, parse_param, numeric_param, as_float,
}
use knok.Creation.Random.{static_random_uniform_literals}
use knok.Creation.UniformValues.{IsIeee, DrawnFloat, static_random_uniform_literals_lem}

-- Minus infinity, -1, 0 and 1, with the bits 6, 5, 0 and 1: the bit 4 is the sign.
data Tiny : Type 0 where
  lowest minus_one nought one : Tiny

abbrev order : Tiny → ℕ
order lowest = 0
order minus_one = 1
order nought = 2
order one = 3

abbrev bits : Tiny → ℕ
bits lowest = 6
bits minus_one = 5
bits nought = 0
bits one = 1

abbrev of_bits : ℕ → Tiny
of_bits b = if b == 0 then nought else if b == 1 then one else if b == 5 then minus_one else lowest

abbrev opposite : Tiny → Tiny
opposite one = minus_one
opposite minus_one = one
opposite x = x

abbrev tiny : Float
tiny = record {
  Carrier = Tiny;
  width = 3;
  of_nat = λ k. if k == 0 then nought else one;
  neg = opposite;
  add = λ a b. b;
  sub = λ a b. if order a == 0 || order b == 0 then lowest else a;
  mul = λ a b. b;
  div = λ a b. a;
  lt = λ a b. ltb (order a) (order b);
  le = λ a b. leb (order a) (order b);
  eq = λ a b. order a == order b;
  is_finite = λ a. ltb 0 (order a);
  neg_infinity = lowest;
  to_bits = bits;
  from_bits = of_bits;
}

sign :
    (y : Tiny) → (tiny.lt nought y ≡ true) ⊎ (tiny.eq y nought ≡ true) ⊎ (tiny.lt y nought ≡ true)
sign lowest = inr (inr refl)
sign minus_one = inr (inr refl)
sign nought = inr (inl refl)
sign one = inl refl

tiny-IsIeee : IsIeee tiny
tiny-IsIeee = record {
  finite_number = λ x h. ground arith;
  ordered = λ x y h. ground arith;
  reflexive = λ x h. ground arith;
  total = λ x y h k l. ground arith;
  not_below = λ x y h k l. ground arith;
  add_number = λ x y h k. ground arith;
  sub_finite = λ x y h. ground arith;
  scaled = λ bits k y b l h. h;
  least = λ x y h. ground arith;
  signed = λ x y h. sign y;
  below_zero = λ x h. ground arith;
  not_above_zero = λ x h. ground arith;
  bits_down = λ x h. ground arith;
  bits_up = λ x h k. ground arith;
}

abbrev read : String → Option Tiny
read text = if str_eq text "0" then some nought else if str_eq text "1" then some one else none

abbrev numbers : Numbers
numbers = record {
  single = tiny;
  double = tiny;
  of_int = λ _. nought;
  to_f32 = λ x. x;
  to_f64 = λ x. x;
  ceil = λ x. x;
  to_usize = bits;
  parse_i128 = λ _. none;
  parse_f64 = read;
  show_i128 = λ _. "0";
  show_f64 = λ x. elim x [ one ↦ "1" | minus_one ↦ "-1" | _ ↦ "0" ];
}

abbrev pair : TensorType
pair = record { elem = ElementType.f64; shape = 2 ∷ [] }

abbrev bounds : Exprs
bounds =
    Exprs.cons (Expr.const "0" ElementType.f64)
      (Exprs.cons (Expr.const "1" ElementType.f64) Exprs.nil)

abbrev two_noughts : List String
two_noughts = "0.0" ∷ "0.0" ∷ []

-- The sums reach the upper bound, and are stepped down to the number below it.
uniform_run : static_random_uniform_literals true numbers pair 7 bounds ≡ ok two_noughts
unfolding static_random_uniform_literals validate_random_uniform_target elem_eq parse_float_bounds
    parse_numeric_params parse_param numeric_param static_scalar const_scalar as_float index
    element_count product_from mul_usize fit sample splitmix64 wrapping_add wrapping_mul xor_shifted
    random_uniform_literal unit_from_u64 draw next_down bits_before bits_after float_literal
uniform_run = refl

parsed : parse_float_bounds true numbers "static_random_uniform" bounds ≡ ok (nought, one)
unfolding parse_float_bounds parse_numeric_params parse_param numeric_param static_scalar
    const_scalar as_float index
parsed = refl

static_random_uniform_literals_lem_example :
    DrawnFloat true numbers tiny-IsIeee tiny-IsIeee ElementType.f64 nought one "0.0"
static_random_uniform_literals_lem_example =
    static_random_uniform_literals_lem true numbers tiny-IsIeee tiny-IsIeee pair 7 bounds
      two_noughts nought one 1 "0.0" parsed refl uniform_run refl
