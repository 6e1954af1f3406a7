-- ===== src/Creation/Random.antt =====
-- The static random creations of crates/knok-core/src/ops/static_creation.rs.
use knok.Base.{
  ℕ, ◌+◌, ◌-◌, ◌%◌, ◌^◌, Bool, ltb, leb, ◌==◌, ◌||◌, not, if◌then◌else◌, List, String, range_from,
  Result, ok, err, panic, message, reject_if, traverse, ◌>>=◌, ◌>>◌,
}
use knok.Ast.Types.{ElementType, TensorType}
use knok.Ast.Graph.{Exprs}
use knok.Ops.Common.{element_count}
use knok.Creation.Int.{ℤ, pos, nat_abs, ltb_ℤ, add_i128, sub_i128}
use knok.Creation.Numbers.{Float, Numbers}
use knok.Creation.Target.{validate_random_uniform_target, validate_random_int_target}
use knok.Creation.Params.{parse_float_bounds, parse_integer_bounds}
use knok.Creation.Literals.{integer_literal_for_elem, float_literal}
use knok.Creation.SplitMix.{wrapping_add, splitmix64, unit_from_u64}

-- `bits - 1` and `bits + 1` on the unsigned numbers of a width.
unfoldable pub bits_before : Bool → ℕ → ℕ → Result ℕ
bits_before checks width bits =
    if leb 1 bits then ok (bits - 1) else if checks then panic else ok (2 ^ width - 1)

unfoldable pub bits_after : Bool → ℕ → ℕ → Result ℕ
bits_after checks width bits =
    if ltb (bits + 1) (2 ^ width) then ok (bits + 1) else if checks then panic else ok 0

-- `next_down_f32` and `next_down_f64`.
unfoldable pub next_down : Bool → (f : Float) → f.Carrier → Result f.Carrier
unfolding bits_before bits_after
next_down checks f value =
    if f.eq value f.neg_infinity
    then ok value
    else if f.eq value (f.of_nat 0)
    then ok (f.neg (f.from_bits 1))
    else (if f.lt (f.of_nat 0) value
        then bits_before checks f.width (f.to_bits value)
        else bits_after checks f.width (f.to_bits value))
      >>= λ bits. ok (f.from_bits bits)

-- The number of a draw between the bounds, and its two corrections.
unfoldable pub draw : Bool → (f : Float) → f.Carrier → f.Carrier → f.Carrier → Result f.Carrier
unfolding next_down
draw checks f low high unit = do
  let value = f.add low (f.mul unit (f.sub high low))
  below ← if f.le high value then next_down checks f high else ok value
  ok (if f.lt below low then low else below)

-- The hash of the element at a place.
unfoldable pub sample : ℕ → ℕ → ℕ
unfolding splitmix64 wrapping_add
sample seed place = splitmix64 (wrapping_add seed place)

-- `u128::try_from(high - low)`.
unfoldable pub random_range : Bool → ℤ → ℤ → Result ℕ
random_range checks low high = do
  difference ← sub_i128 checks high low
  reject_if (ltb_ℤ difference (pos 0)) (message "static_random_int range must be positive")
  ok (nat_abs difference)

-- `low + (sample % range) as i128`: a remainder by zero panics.
unfoldable pub random_value : Bool → ℤ → ℕ → ℕ → Result ℤ
random_value checks low range hash =
    if range == 0 then panic else add_i128 checks low (pos (hash % range))

module _ (checks : Bool) (n : Numbers) where
  -- The bounds are numbers of `f64`, which the first arm rounds.
  unfoldable pub random_uniform_literal :
      ElementType → n.double.Carrier → n.double.Carrier → ℕ → Result String
  unfolding draw unit_from_u64 float_literal
  random_uniform_literal ElementType.f32 low64 high64 hash = do
    let low = n.to_f32 low64
    let high = n.to_f32 high64
    reject_if (not (n.single.is_finite low) || not (n.single.is_finite high))
        (message "static_random_uniform f32 bounds must be finite")
    reject_if (n.single.le high low)
        (message "static_random_uniform requires low < high after f32 rounding")
    value ← draw checks n.single low high (unit_from_u64 n.single 24 hash)
    ok (float_literal n (n.to_f64 value))
  random_uniform_literal ElementType.f64 low high hash = do
    value ← draw checks n.double low high (unit_from_u64 n.double 53 hash)
    ok (float_literal n value)
  random_uniform_literal _ low high hash =
      err (message "static_random_uniform target element type must be f32 or f64")

  unfoldable pub static_random_uniform_literals : TensorType → ℕ → Exprs → Result (List String)
  unfolding validate_random_uniform_target parse_float_bounds element_count sample
      random_uniform_literal
  static_random_uniform_literals target seed args = do
    validate_random_uniform_target target "static_random_uniform"
    bounds ← parse_float_bounds checks n "static_random_uniform" args
    count ← element_count checks target
    traverse (λ place. random_uniform_literal target.elem bounds.0 bounds.1 (sample seed place))
        (range_from 0 count)

  unfoldable pub static_random_int_literals : TensorType → ℕ → Exprs → Result (List String)
  unfolding validate_random_int_target parse_integer_bounds element_count sample random_range
      random_value integer_literal_for_elem
  static_random_int_literals target seed args = do
    validate_random_int_target target "static_random_int"
    bounds ← parse_integer_bounds checks n "static_random_int" args
    range ← random_range checks bounds.0 bounds.1
    count ← element_count checks target
    traverse
        (λ place. random_value checks bounds.0 range (sample seed place) >>= λ value.
          integer_literal_for_elem n value target.elem)
        (range_from 0 count)
