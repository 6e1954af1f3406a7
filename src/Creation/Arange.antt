-- ===== src/Creation/Arange.antt =====
-- `arange` of crates/knok-core/src/ops/static_creation.rs.
use knok.Base.{
  ℕ, ◌-◌, Bool, not, ◌&&◌, ◌||◌, ltb, ◌==◌, if◌then◌else◌, List, [], ◌∷◌, map, String, range_from,
  Result, ok, err, panic, message, reject_if, ok_or, traverse, ◌>>=◌, ◌>>◌,
}
use knok.Base.Usize.{usize_mod, div_ceil_unsigned}
use knok.Base.Vec.{index}
use knok.Ast.Types.{ElementType, TensorType}
use knok.Ast.Graph.{Exprs}
use knok.Creation.Int.{ℤ, pos, nat_abs, ltb_ℤ, leb_ℤ, add_i128, sub_i128, mul_i128}
use knok.Creation.Numbers.{Numbers}
use knok.Creation.Target.{validate_static_vector_target}
use knok.Creation.Params.{NumericParam, as_int, as_float, parse_numeric_params}
use knok.Creation.Literals.{allocate, string_size, integer_literal_for_elem, float_literal}

-- `usize::try_from`.
unfoldable pub usize_length : ℕ → Result ℕ
usize_length n = if ltb n usize_mod then ok n else err (message "arange length exceeds usize")

-- Whether no value lies before `stop`.
abbrev pub away : ℤ → ℤ → Bool
away step distance =
    ltb_ℤ (pos 0) step && leb_ℤ distance (pos 0) || ltb_ℤ step (pos 0) && leb_ℤ (pos 0) distance

unfoldable pub integer_arange_len : Bool → ℤ → ℤ → ℤ → Result ℕ
unfolding usize_length
integer_arange_len checks start stop step = do
  reject_if (nat_abs step == 0) (message "arange step must not be zero")
  distance ← sub_i128 checks stop start
  if away step distance
      then ok 0
      else (div_ceil_unsigned (nat_abs distance) (nat_abs step) >>= usize_length)

-- `start + step * index as i128`.
unfoldable pub stepped : Bool → ℤ → ℤ → ℕ → Result ℤ
stepped checks start step place =
    mul_i128 checks step (pos place) >>= λ scaled. add_i128 checks start scaled

module _ (n : Numbers) where
  unfoldable pub float_arange_len :
      n.double.Carrier → n.double.Carrier → n.double.Carrier → Result ℕ
  float_arange_len start stop step =
      let zero = n.double.of_nat 0 in
      let distance = n.double.sub stop start in
      let count = n.ceil (n.double.div distance step) in
      reject_if (n.double.eq step zero) (message "arange step must not be zero")
      >> (if n.double.lt zero step && n.double.le distance zero
            || n.double.lt step zero && n.double.le zero distance
          then ok 0
          else reject_if
              (not (n.double.is_finite count)
                || n.double.lt count zero
                || n.double.lt (n.double.of_nat (usize_mod - 1)) count)
              (message "arange length exceeds usize")
            >> ok (n.to_usize count))

  -- `float_literal(start + step * index as f64)`.
  unfoldable pub float_step : n.double.Carrier → n.double.Carrier → ℕ → String
  float_step start step place =
      float_literal n (n.double.add start (n.double.mul step (n.double.of_nat place)))

module _ (checks : Bool) (n : Numbers) where
  -- The bounds and the step that one, two or three parameters give.
  unfoldable pub arange_bounds :
      List (NumericParam n) → Result (NumericParam n × NumericParam n × NumericParam n)
  arange_bounds (stop ∷ []) = ok (NumericParam.int (pos 0), stop, NumericParam.int (pos 1))
  arange_bounds (start ∷ stop ∷ []) = ok (start, stop, NumericParam.int (pos 1))
  arange_bounds (start ∷ stop ∷ step ∷ []) = ok (start, stop, step)
  arange_bounds _ = panic

  -- `as_int().ok_or_else(...)`.
  unfoldable pub arange_int : NumericParam n → Result ℤ
  unfolding as_int
  arange_int param =
      ok_or (message "arange integer targets require integer parameters") (as_int checks n param)

  unfoldable pub same_length : ℕ → ℕ → Result (Unit {0})
  same_length expected count =
      reject_if (not (expected == count)) (message "arange produces another number of values")

  unfoldable pub integer_arange :
      ElementType → ℕ → NumericParam n → NumericParam n → NumericParam n → Result (List String)
  unfolding arange_int integer_arange_len same_length stepped integer_literal_for_elem
  integer_arange elem count first last each = do
    start ← arange_int first
    stop ← arange_int last
    step ← arange_int each
    expected ← integer_arange_len checks start stop step
    same_length expected count
    traverse
        (λ place.
          stepped checks start step place >>= λ value. integer_literal_for_elem n value elem)
        (range_from 0 count)

  unfoldable pub float_arange :
      ℕ → NumericParam n → NumericParam n → NumericParam n → Result (List String)
  unfolding as_float float_arange_len same_length allocate float_step
  float_arange count first last each = do
    let start = as_float checks n first
    let stop = as_float checks n last
    let step = as_float checks n each
    expected ← float_arange_len n start stop step
    same_length expected count
    allocate string_size count
    ok (map (float_step n start step) (range_from 0 count))

  -- The arms of the `match` on the element type.
  unfoldable pub arange_literals :
      ElementType → ℕ → NumericParam n → NumericParam n → NumericParam n → Result (List String)
  unfolding integer_arange float_arange
  arange_literals ElementType.i32 count start stop step =
      integer_arange ElementType.i32 count start stop step
  arange_literals ElementType.i64 count start stop step =
      integer_arange ElementType.i64 count start stop step
  arange_literals ElementType.bool count start stop step =
      err (message "arange target element type must be numeric")
  arange_literals _ count start stop step = float_arange count start stop step

  unfoldable pub static_arange_literals : TensorType → Exprs → Result (List String)
  unfolding validate_static_vector_target parse_numeric_params arange_bounds arange_literals
  static_arange_literals target args = do
    validate_static_vector_target target "arange"
    params ← parse_numeric_params checks n "arange" args 1 3
    bounds ← arange_bounds params
    count ← index target.shape 0
    arange_literals target.elem count bounds.0 bounds.1 bounds.2
