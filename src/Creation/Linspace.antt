-- ===== src/Creation/Linspace.antt =====
-- `linspace` of crates/knok-core/src/ops/static_creation.rs.
use knok.Base.{
  ℕ, zero, suc, Bool, not, ◌==◌, List, [], ◌∷◌, map, String, range_from, Result, ok, err, message,
  reject_if, ok_or, traverse, ◌>>=◌, ◌>>◌,
}
use knok.Base.Vec.{index}
use knok.Ast.Types.{ElementType, TensorType}
use knok.Ast.Graph.{Exprs}
use knok.Creation.Int.{ℤ, nat_abs, sub_i128, tdiv, tmod}
use knok.Creation.Numbers.{Numbers}
use knok.Creation.Target.{validate_static_vector_target}
use knok.Creation.Params.{NumericParam, as_int, as_float, parse_numeric_params}
use knok.Creation.Literals.{
  allocate, string_size, i128_size, f64_size, integer_literal_for_elem, float_literal,
}
use knok.Creation.Arange.{stepped}

-- The last case is a length of at least two, with one interval less than that.
unfoldable pub integer_linspace_values : Bool → ℤ → ℤ → ℕ → Result (List ℤ)
unfolding stepped allocate
integer_linspace_values checks start stop zero = ok []
integer_linspace_values checks start stop (suc zero) = ok (start ∷ [])
integer_linspace_values checks start stop (suc (suc k)) = do
  let intervals = suc k
  distance ← sub_i128 checks stop start
  reject_if (not (nat_abs (tmod distance intervals) == 0))
      (message "linspace integer target requires evenly divisible endpoints")
  let step = tdiv distance intervals
  allocate i128_size (suc (suc k))
  traverse (stepped checks start step) (range_from 0 (suc (suc k)))

module _ (n : Numbers) where
  unfoldable pub float_linspace_values :
      n.double.Carrier → n.double.Carrier → ℕ → Result (List n.double.Carrier)
  unfolding allocate
  float_linspace_values start stop zero = ok []
  float_linspace_values start stop (suc zero) = ok (start ∷ [])
  float_linspace_values start stop (suc (suc k)) = do
    let step = n.double.div (n.double.sub stop start) (n.double.of_nat (suc k))
    allocate f64_size (suc (suc k))
    ok (
        map (λ place. n.double.add start (n.double.mul step (n.double.of_nat place)))
          (range_from 0 (suc (suc k))))

module _ (checks : Bool) (n : Numbers) where
  unfoldable pub linspace_int : NumericParam n → Result ℤ
  unfolding as_int
  linspace_int param =
      ok_or (message "linspace integer targets require integer parameters") (as_int checks n param)

  unfoldable pub integer_linspace :
      ElementType → ℕ → NumericParam n → NumericParam n → Result (List String)
  unfolding linspace_int integer_linspace_values integer_literal_for_elem
  integer_linspace elem count first last = do
    start ← linspace_int first
    stop ← linspace_int last
    values ← integer_linspace_values checks start stop count
    traverse (λ value. integer_literal_for_elem n value elem) values

  unfoldable pub float_linspace : ℕ → NumericParam n → NumericParam n → Result (List String)
  unfolding as_float float_linspace_values allocate float_literal
  float_linspace count first last = do
    values ← float_linspace_values n (as_float checks n first) (as_float checks n last) count
    allocate string_size count
    ok (map (float_literal n) values)

  unfoldable pub linspace_literals :
      ElementType → ℕ → NumericParam n → NumericParam n → Result (List String)
  unfolding integer_linspace float_linspace
  linspace_literals ElementType.i32 count start stop =
      integer_linspace ElementType.i32 count start stop
  linspace_literals ElementType.i64 count start stop =
      integer_linspace ElementType.i64 count start stop
  linspace_literals ElementType.bool count start stop =
      err (message "linspace target element type must be numeric")
  linspace_literals _ count start stop = float_linspace count start stop

  unfoldable pub static_linspace_literals : TensorType → Exprs → Result (List String)
  unfolding validate_static_vector_target parse_numeric_params linspace_literals
  static_linspace_literals target args = do
    validate_static_vector_target target "linspace"
    params ← parse_numeric_params checks n "linspace" args 2 2
    start ← index params 0
    stop ← index params 1
    count ← index target.shape 0
    linspace_literals target.elem count start stop
