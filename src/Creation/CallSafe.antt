-- ===== src/Creation/CallSafe.antt =====
-- The static creations of crates/knok-core/src/ops/static_creation.rs panic only on an overflow, if no
-- vector of literals is larger than memory can be.
use knok.Base.{
  ℕ, ◌-◌, ◌*◌, ◌^◌, ◌≤◌, ◌≡◌, ◌≢◌, panic, ap, Bool, false, not, ◌||◌, ◌==◌, length, range_from,
  product, some, String, arith,
}
use knok.Base.Ensures.{
  Ensures, returns, throws, ◌⟫◌, reject_if-Ensures, index-Ensures, traverse-Ensures, with_equation,
  Ensures-ne-panic,
}
use knok.Base.Usize.{mul_usize-exact}
use knok.Ast.Types.{ElementType, TensorType}
use knok.Ast.Op.{CallOp}
use knok.Ast.Graph.{Exprs}
use knok.Ops.Safety.Common.{element_count-Ensures}
use knok.Ops.Safety.Creations.{eye_target-Ensures, uniform_target-Ensures}
use knok.Creation.Int.{ℤ}
use knok.Creation.Overflow.{IsI128}
use knok.Creation.Numbers.{Numbers}
use knok.Creation.Literals.{string_size}
use knok.Creation.Eye.{static_eye_literals}
use knok.Creation.Random.{sample, random_uniform_literal, static_random_uniform_literals}
use knok.Creation.Fine.{allocate-Ensures, Fine, any, draw-Ensures}
use knok.Creation.Safe.{arange-Ensures, linspace-Ensures}
use knok.Creation.SplitMix.{unit_from_u64}
use knok.Creation.Scalar.{arg_list}
use knok.Creation.Call.{validate_static_creation_call}
use knok.Creation.RandomValues.{static_random_int-Ensures}
use knok.Creation.Shapes.{eye_rank, eye_shape}
use knok.Creation.Bounded.{parse_float_bounds-Ensures}

eye-Ensures :
    (c : Bool) (target : TensorType)
    → string_size * product target.shape ≤ 2 ^ 63 - 1
    → Fine c (static_eye_literals c target)
unfolding static_eye_literals
eye-Ensures c target h = with_equation (eye_target-Ensures c target) ⟫ λ _ valid.
    with_equation (index-Ensures target.shape 0 (omega (arith, eye_rank target valid.1)))
    ⟫ λ rows e.
        let square : string_size * (rows * rows) ≤ 2 ^ 63 - 1 =
          omega (arith, h, ap product (eye_shape target valid.1 e.1)) in
        rw (mul_usize-exact c rows rows (omega (arith, square)))
          (allocate-Ensures c string_size (rows * rows) square ⟫ λ _ _. returns tt)

-- The vector of literals that a call makes at once is not larger than a vector can be.
abbrev pub FitsMemory : CallOp → Type 0
FitsMemory (CallOp.arange target) = string_size * product target.shape ≤ 2 ^ 63 - 1
FitsMemory (CallOp.linspace target) = string_size * product target.shape ≤ 2 ^ 63 - 1
FitsMemory (CallOp.eye target) = string_size * product target.shape ≤ 2 ^ 63 - 1
FitsMemory _ = Unit

-- `parse_range`: what `str::parse` returns for an `i128` is one.
module _ (c : Bool) (n : Numbers)
    (parse_range : (text : String) (z : ℤ) → n.parse_i128 text ≡ some z → IsI128 z) where
  literal-Ensures :
      (elem : ElementType) (low high : n.double.Carrier) (hash : ℕ)
      → Fine c (random_uniform_literal c n elem low high hash)
  unfolding random_uniform_literal
  literal-Ensures ElementType.f32 low high hash =
      let low32 = n.to_f32 low in
      let high32 = n.to_f32 high in
      reject_if-Ensures (not (n.single.is_finite low32) || not (n.single.is_finite high32)) _
      ⟫ λ _ _. reject_if-Ensures (n.single.le high32 low32) _ ⟫ λ _ _.
          draw-Ensures c n.single low32 high32 (unit_from_u64 n.single 24 hash) ⟫ λ value _.
          returns tt
  literal-Ensures ElementType.f64 low high hash =
      draw-Ensures c n.double low high (unit_from_u64 n.double 53 hash) ⟫ λ value _. returns tt
  literal-Ensures ElementType.bool low high hash = throws
  literal-Ensures ElementType.f16 low high hash = throws
  literal-Ensures ElementType.bf16 low high hash = throws
  literal-Ensures ElementType.i32 low high hash = throws
  literal-Ensures ElementType.i64 low high hash = throws

  uniform-Ensures :
      (target : TensorType) (seed : ℕ) (args : Exprs)
      → Fine c (static_random_uniform_literals c n target seed args)
  unfolding static_random_uniform_literals
  uniform-Ensures target seed args = uniform_target-Ensures c target _ ⟫ λ _ _.
      parse_float_bounds-Ensures c n parse_range _ args ⟫ λ bounds _.
      element_count-Ensures c target ⟫ λ count _. any c (
        traverse-Ensures c (λ _. Unit {0}) _ (range_from 0 count)
          (λ place. literal-Ensures target.elem bounds.0 bounds.1 (sample seed place)))

  pub validate_static_creation_call-Ensures :
      (op : CallOp) (args : Exprs)
      → FitsMemory op
      → Ensures c (λ _. Unit {0}) (validate_static_creation_call c n op args)
  unfolding validate_static_creation_call
  validate_static_creation_call-Ensures (CallOp.arange target) args h =
      arange-Ensures c n parse_range target args h ⟫ λ _ _. returns tt
  validate_static_creation_call-Ensures (CallOp.linspace target) args h =
      linspace-Ensures c n parse_range target args h ⟫ λ _ _. returns tt
  validate_static_creation_call-Ensures (CallOp.eye target) args h =
      reject_if-Ensures (not (length (arg_list args) == 0)) _ ⟫ λ _ _.
      eye-Ensures c target h ⟫ λ _ _. returns tt
  validate_static_creation_call-Ensures (CallOp.static_random_uniform target seed) args h =
      uniform-Ensures target seed args ⟫ λ _ _. returns tt
  validate_static_creation_call-Ensures (CallOp.static_random_int target seed) args h =
      static_random_int-Ensures c n parse_range target seed args ⟫ λ _ _. returns tt
  validate_static_creation_call-Ensures _ args h = returns tt

-- If what is parsed as an `i128` is one, and the literals of the call fit into one vector, then without
-- overflow checks the check of a static creation does not panic, whatever the arguments are.
pub validate_static_creation_call_total :
    (n : Numbers) (parse_range : (text : String) (z : ℤ) → n.parse_i128 text ≡ some z → IsI128 z)
    (op : CallOp) (args : Exprs)
    → FitsMemory op
    → validate_static_creation_call false n op args ≢ panic
validate_static_creation_call_total n parse_range op args h =
    Ensures-ne-panic (validate_static_creation_call-Ensures false n parse_range op args h)
