-- ===== src/Creation/Examples.antt =====
-- Static creations at concrete arguments.
use knok.Base.{
  ℕ, ◌+◌, ◌-◌, ◌*◌, ◌^◌, ◌<◌, ◌≡◌, ◌≢◌, refl, inl, Bool, true, false, if◌then◌else◌, ltb, leb, ◌==◌,
  Option, some, none, List, [], ◌∷◌, length, get_elem?, product, String, ok, err, message, panic,
  arith,
}
use text.Mathlib.Text.{◌==◌ as str_eq}
use knok.Ast.Types.{ElementType, TensorType}
use knok.Ast.Op.{CallOp}
use knok.Ast.Graph.{Expr, Exprs}
use knok.Creation.Int.{ℤ, pos, negsuc, pos_part, ◌+ℤ◌, ◌-ℤ◌, ◌*ℤ◌}
use knok.Creation.Overflow.{IsI128}
use knok.Creation.Numbers.{Float, Numbers}
use knok.Ast.Types.{rank, is_numeric, is_bool, elem_eq, one_literal, zero_literal}
use knok.Base.Vec.{index}
use knok.Base.Usize.{fit, div_ceil_unsigned, mul_usize, product_from}
use knok.Ops.Common.{element_count}
use knok.Creation.Int.{fit_i128, sub_i128, mul_i128, add_i128, tdiv, tmod}
use knok.Creation.Target.{
  validate_static_vector_target, validate_static_eye_target, validate_random_int_target,
}
use knok.Creation.Scalar.{static_scalar, const_scalar}
use knok.Creation.Params.{
  NumericParam, parse_numeric_params, parse_param, numeric_param, as_int, parse_integer_bounds,
}
use knok.Creation.Literals.{allocate, integer_literal_for_elem}
use knok.Creation.Arange.{
  static_arange_literals, arange_bounds, arange_literals, integer_arange, arange_int,
  integer_arange_len, usize_length, same_length, stepped,
}
use knok.Creation.Linspace.{
  static_linspace_literals, linspace_literals, integer_linspace, linspace_int,
  integer_linspace_values,
}
use knok.Creation.Eye.{static_eye_literals, eye_rows, eye_row}
use knok.Creation.SplitMix.{splitmix64, wrapping_add, wrapping_mul, xor_shifted}
use knok.Creation.Random.{static_random_int_literals, random_range, random_value, sample}
use knok.Creation.ArangeValues.{IntegerArange, static_arange_literals_lem}
use knok.Creation.LinspaceValues.{IntegerLinspace, static_linspace_literals_lem}
use knok.Creation.EyeValues.{static_eye_literals_lem}
use knok.Creation.RandomValues.{Drawn, static_random_int_literals_lem}
use knok.Creation.Call.{validate_static_creation_call}
use knok.Creation.CallSafe.{validate_static_creation_call_total}

-- Numbers that stand for `f64`: they are whole, and none is negative.
abbrev whole : Float
whole = record {
  Carrier = ℕ;
  width = 64;
  of_nat = λ n. n;
  neg = λ n. n;
  add = λ a b. a + b;
  sub = λ a b. a - b;
  mul = λ a b. a * b;
  div = λ a b. a;
  lt = ltb;
  le = leb;
  eq = ◌==◌;
  is_finite = λ _. true;
  neg_infinity = 0;
  to_bits = λ n. n;
  from_bits = λ n. n;
}

-- Three numerals are read, and seven are printed.
abbrev pub parse : String → Option ℤ
parse text =
    if str_eq text "1"
    then some (pos 1)
    else if str_eq text "2"
    then some (pos 2)
    else if str_eq text "7"
    then some (pos 7)
    else none

abbrev digit : ℕ → String
digit n =
    if n == 1
    then "1"
    else if n == 2
    then "2"
    else if n == 3
    then "3"
    else if n == 4
    then "4"
    else if n == 5
    then "5"
    else if n == 6
    then "6"
    else "7"

abbrev print : ℤ → String
print (pos n) = digit n
print (negsuc n) = "-1"

abbrev pub numbers : Numbers
numbers = record {
  single = whole;
  double = whole;
  of_int = pos_part;
  to_f32 = λ x. x;
  to_f64 = λ x. x;
  ceil = λ x. x;
  to_usize = λ x. x;
  parse_i128 = parse;
  parse_f64 = λ _. none;
  show_i128 = print;
  show_f64 = digit;
}

pub parse_range : (text : String) (z : ℤ) → parse text ≡ some z → IsI128 z
parse_range text z h = ground arith

abbrev literal : String → Expr
literal text = Expr.const text ElementType.i32

abbrev pair_of : Expr → Expr → Exprs
pair_of a b = Exprs.cons a (Exprs.cons b Exprs.nil)

abbrev from_one_by_two : Exprs
from_one_by_two = Exprs.cons (literal "1") (pair_of (literal "7") (literal "2"))

abbrev three : TensorType
three = record { elem = ElementType.i32; shape = 3 ∷ [] }

-- 1, 3 and 5 lie before 7.
arange_run : static_arange_literals true numbers three from_one_by_two ≡ ok ("1" ∷ "3" ∷ "5" ∷ [])
unfolding static_arange_literals validate_static_vector_target is_numeric is_bool rank
    parse_numeric_params parse_param numeric_param static_scalar const_scalar arange_bounds
    arange_literals integer_arange arange_int as_int integer_arange_len sub_i128 fit_i128
    div_ceil_unsigned usize_length same_length stepped mul_i128 add_i128 integer_literal_for_elem
    index ◌+ℤ◌ ◌-ℤ◌ ◌*ℤ◌
arange_run = refl

static_arange_literals_lem_example :
    (params : List (NumericParam numbers)) × (count : ℕ) × (bounds : NumericParam numbers
      × NumericParam numbers
      × NumericParam numbers)
    × (parse_numeric_params true numbers "arange" from_one_by_two 1 3 ≡ ok params)
    × (arange_bounds true numbers params ≡ ok bounds)
    × (three.shape ≡ count ∷ [])
    × IntegerArange numbers ElementType.i32 count bounds ("1" ∷ "3" ∷ "5" ∷ [])
static_arange_literals_lem_example =
    static_arange_literals_lem numbers three from_one_by_two ("1" ∷ "3" ∷ "5" ∷ []) (inl refl)
      arange_run

-- 1, 4 and 7 are evenly spaced.
linspace_run :
    static_linspace_literals true numbers three (pair_of (literal "1") (literal "7"))
    ≡ ok ("1" ∷ "4" ∷ "7" ∷ [])
unfolding static_linspace_literals validate_static_vector_target is_numeric is_bool rank
    parse_numeric_params parse_param numeric_param static_scalar const_scalar linspace_literals
    integer_linspace linspace_int as_int integer_linspace_values allocate sub_i128 fit_i128 stepped
    mul_i128 add_i128 integer_literal_for_elem index ◌+ℤ◌ ◌-ℤ◌ ◌*ℤ◌ tdiv tmod
linspace_run = refl

static_linspace_literals_lem_example :
    (params : List (NumericParam numbers)) × (count : ℕ) × (first : NumericParam numbers)
    × (last : NumericParam numbers) × (parse_numeric_params true numbers "linspace"
          (pair_of (literal "1") (literal "7"))
          2
          2
        ≡ ok params)
    × (get_elem? params 0 ≡ some first)
    × (get_elem? params 1 ≡ some last)
    × (three.shape ≡ count ∷ [])
    × IntegerLinspace numbers ElementType.i32 count first last ("1" ∷ "4" ∷ "7" ∷ [])
static_linspace_literals_lem_example =
    static_linspace_literals_lem numbers three (pair_of (literal "1") (literal "7"))
      ("1" ∷ "4" ∷ "7" ∷ []) (inl refl) linspace_run

abbrev pub two_by_two : TensorType
two_by_two = record { elem = ElementType.f32; shape = 2 ∷ 2 ∷ [] }

abbrev identity : List String
identity = "1.0" ∷ "0.0" ∷ "0.0" ∷ "1.0" ∷ []

eye_run : static_eye_literals false two_by_two ≡ ok identity
unfolding static_eye_literals validate_static_eye_target rank index mul_usize allocate eye_rows
    eye_row one_literal zero_literal
eye_run = refl

static_eye_literals_lem_example :
    (n : ℕ) × (two_by_two.shape ≡ n ∷ n ∷ [])
    × (length identity ≡ n * n)
    × ((i j : ℕ)
        → i < n
        → j < n
        → get_elem? identity (i * n + j)
          ≡ some (if i == j then one_literal ElementType.f32 else zero_literal ElementType.f32))
static_eye_literals_lem_example = static_eye_literals_lem false two_by_two identity eye_run

-- The first output of the generator with the seed 0.
splitmix64_zero : splitmix64 0 ≡ 16294208416658607535
unfolding splitmix64 wrapping_add wrapping_mul xor_shifted
splitmix64_zero = refl

abbrev drawn : List String
drawn = "2" ∷ "6" ∷ "5" ∷ []

-- Three draws from 1 up to 7, without it.
random_run :
    static_random_int_literals false numbers three 0 (pair_of (literal "1") (literal "7"))
    ≡ ok drawn
unfolding static_random_int_literals validate_random_int_target elem_eq parse_integer_bounds
    parse_numeric_params parse_param numeric_param static_scalar const_scalar as_int index
    random_range sub_i128 fit_i128 element_count product_from mul_usize random_value sample
    splitmix64 wrapping_add wrapping_mul xor_shifted add_i128 integer_literal_for_elem ◌+ℤ◌ ◌-ℤ◌
random_run = refl

static_random_int_literals_lem_example :
    (low : ℤ) × (high : ℤ) × (parse_integer_bounds false numbers "static_random_int"
        (pair_of (literal "1") (literal "7"))
      ≡ ok (low, high))
    × (false ≡ true → length drawn ≡ product three.shape)
    × ((k : ℕ) (text : String)
        → get_elem? drawn k ≡ some text
        → Drawn false numbers parse_range ElementType.i32 low high text)
static_random_int_literals_lem_example =
    static_random_int_literals_lem false numbers parse_range three 0
      (pair_of (literal "1") (literal "7")) drawn random_run

validate_static_creation_call_total_example :
    validate_static_creation_call false numbers (CallOp.eye two_by_two) Exprs.nil ≢ panic
validate_static_creation_call_total_example =
    validate_static_creation_call_total numbers parse_range (CallOp.eye two_by_two) Exprs.nil
      (omega arith)

-- The range of all numbers of 128 bits: with overflow checks it panics, and else it is an error.
random_range_panics :
    (random_range true (negsuc (2 ^ 127 - 1)) (pos (2 ^ 127 - 1)) ≡ panic)
    × (random_range false (negsuc (2 ^ 127 - 1)) (pos (2 ^ 127 - 1))
        ≡ err (message "static_random_int range must be positive"))
unfolding random_range sub_i128 fit_i128 ◌-ℤ◌
random_range_panics = (refl, refl)

-- An identity matrix too large for a vector panics under either setting.
eye_panics :
    (checks : Bool)
    → static_eye_literals checks (record { elem = ElementType.f32; shape = 2 ^ 30 ∷ 2 ^ 30 ∷ [] })
      ≡ panic
unfolding static_eye_literals validate_static_eye_target rank index mul_usize fit allocate
eye_panics checks = refl
