-- ===== src/Creation/Bounded.antt =====
-- The constants and the parameters of static creations are numbers of 128 bits, and reading them panics
-- only on an overflow.
use knok.Base.{
  ℕ, ◌≤◌, ◌≡◌, refl, Bool, true, not, ◌&&◌, leb, leb→le, ltb→lt, Error, ok_or, rejected, false,
  if◌then◌else◌, Option, some, none, length, get_elem?, String, arith,
}
use knok.Base.Ensures.{
  Ensures, returns, throws, ◌⟫◌, weaken, reject_if-Ensures, index-Ensures, traverse-Ensures,
  if-Ensures,
}
use knok.Ast.Types.{ElementType}
use knok.Ast.Op.{UnaryOp}
use knok.Ast.Graph.{Expr, Exprs}
use knok.Creation.Int.{ℤ, pos_part, neg_part, sub_ℕ, ◌<ℤ◌, ltb_ℤ, neg_i128}
use knok.Creation.Overflow.{IsI128, fit_i128-Ensures}
use knok.Creation.Numbers.{Numbers}
use knok.Creation.Scalar.{
  StaticScalar, const_scalar, int_scalar, float_scalar, negated, static_scalar, arg_list,
}
use knok.Creation.Params.{
  NumericParam, as_int, as_float, numeric_param, parse_param, parse_numeric_params,
  parse_float_bounds, parse_integer_bounds,
}

and_cases : (a b : Bool) → a && b ≡ true → (a ≡ true) × (b ≡ true)
and_cases true b h = (refl, h)
and_cases false b h = cc

-- `parse_range`: what `str::parse` returns for an `i128` is one.
module _ (c : Bool) (n : Numbers)
    (parse_range : (text : String) (z : ℤ) → n.parse_i128 text ≡ some z → IsI128 z) where
  abbrev pub ScalarFits : Option (StaticScalar n) → Type 0
  ScalarFits (some (StaticScalar.int z)) = IsI128 z
  ScalarFits _ = Unit

  abbrev pub ParamFits : NumericParam n → Type 0
  ParamFits (NumericParam.int z) = IsI128 z
  ParamFits (NumericParam.float x) = Unit

  int_scalar-ScalarFits :
      (o : Option ℤ) → ((z : ℤ) → o ≡ some z → IsI128 z) → ScalarFits (int_scalar n o)
  int_scalar-ScalarFits none h = tt
  int_scalar-ScalarFits (some z) h = h z refl

  float_scalar-ScalarFits : (o : Option n.double.Carrier) → ScalarFits (float_scalar n o)
  float_scalar-ScalarFits none = tt
  float_scalar-ScalarFits (some x) = tt

  const_scalar-ScalarFits :
      (value : String) (elem : ElementType) → ScalarFits (const_scalar n value elem)
  unfolding const_scalar
  const_scalar-ScalarFits value ElementType.bool = chosen _ _
    where
      chosen :
          (a b : Bool)
          → ScalarFits (
              if a
              then some (StaticScalar.bool false)
              else if b
              then some (StaticScalar.bool true)
              else none)
      chosen true b = tt
      chosen false true = tt
      chosen false false = tt
  const_scalar-ScalarFits value ElementType.i32 = int_scalar-ScalarFits _ (parse_range value)
  const_scalar-ScalarFits value ElementType.i64 = int_scalar-ScalarFits _ (parse_range value)
  const_scalar-ScalarFits value ElementType.f32 = float_scalar-ScalarFits (n.parse_f64 value)
  const_scalar-ScalarFits value ElementType.f64 = float_scalar-ScalarFits (n.parse_f64 value)
  const_scalar-ScalarFits value ElementType.f16 = float_scalar-ScalarFits (n.parse_f64 value)
  const_scalar-ScalarFits value ElementType.bf16 = float_scalar-ScalarFits (n.parse_f64 value)

  negated-Ensures : (s : Option (StaticScalar n)) → Ensures c ScalarFits (negated c n s)
  unfolding negated neg_i128
  negated-Ensures none = returns tt
  negated-Ensures (some (StaticScalar.int z)) =
      fit_i128-Ensures c (sub_ℕ (neg_part z) (pos_part z)) ⟫ λ w h. returns h.0
  negated-Ensures (some (StaticScalar.float x)) = returns tt
  negated-Ensures (some (StaticScalar.bool b)) = returns tt

  static_scalar-Ensures : (e : Expr) → Ensures c ScalarFits (static_scalar c n e)
  unfolding static_scalar
  static_scalar-Ensures (Expr.const value elem) = returns (const_scalar-ScalarFits value elem)
  static_scalar-Ensures (Expr.unary UnaryOp.neg value) =
      static_scalar-Ensures value ⟫ λ s _. negated-Ensures s
  static_scalar-Ensures (Expr.var x) = returns tt
  static_scalar-Ensures (Expr.binary op lhs rhs) = returns tt
  static_scalar-Ensures (Expr.node node_id value) = returns tt
  static_scalar-Ensures (Expr.tuple_get node_id value place) = returns tt
  static_scalar-Ensures (Expr.call op args) = returns tt

  numeric_param-Ensures :
      (op_name : String) (s : Option (StaticScalar n))
      → ScalarFits s
      → Ensures c ParamFits (numeric_param c n op_name s)
  unfolding numeric_param
  numeric_param-Ensures op_name none h = throws
  numeric_param-Ensures op_name (some (StaticScalar.int z)) h = returns h
  numeric_param-Ensures op_name (some (StaticScalar.bool b)) h = throws
  numeric_param-Ensures op_name (some (StaticScalar.float x)) h =
      if-Ensures (n.double.is_finite x) (λ _. returns tt) (λ _. throws)

  pub parse_numeric_params-Ensures :
      (op_name : String) (args : Exprs) (least most : ℕ)
      → Ensures c
          (λ params.
            (least ≤ length params)
            × (length params ≤ most)
            × ((k : ℕ) (p : NumericParam n) → get_elem? params k ≡ some p → ParamFits p))
          (parse_numeric_params c n op_name args least most)
  unfolding parse_numeric_params parse_param
  parse_numeric_params-Ensures op_name args least most =
      reject_if-Ensures
        (not (leb least (length (arg_list args)) && leb (length (arg_list args)) most)) _
      ⟫ λ _ r.
          weaken
            (traverse-Ensures c ParamFits (parse_param c n op_name) (arg_list args)
              (λ arg. static_scalar-Ensures arg ⟫ λ s h. numeric_param-Ensures op_name s h))
            (λ params q.
              let count = length (arg_list args) in
              let (e, e') = and_cases (leb least count) (leb count most) (rejected _ r) in
              (
                omega (arith, leb→le least count e, q.0),
                omega (arith, leb→le count most e', q.0),
                q.1,
              ))

  as_int-Ensures :
      (failure : Error) (p : NumericParam n)
      → ParamFits p
      → Ensures c (λ z. IsI128 z × (p ≡ NumericParam.int z)) (ok_or failure (as_int c n p))
  unfolding as_int
  as_int-Ensures failure (NumericParam.int z) h = returns (h, refl)
  as_int-Ensures failure (NumericParam.float x) h = throws

  pub parse_integer_bounds-Ensures :
      (op_name : String) (args : Exprs)
      → Ensures {A = ℤ × ℤ} c
          (λ b. IsI128 b.0 × IsI128 b.1 × (b.0 <ℤ b.1))
          (parse_integer_bounds c n op_name args)
  unfolding parse_integer_bounds
  parse_integer_bounds-Ensures op_name args =
      parse_numeric_params-Ensures op_name args 2 2 ⟫ λ params q.
      index-Ensures params 0 (omega (arith, q.0)) ⟫ λ first e.
      as_int-Ensures _ first (q.2 0 first e) ⟫ λ low p.
      index-Ensures params 1 (omega (arith, q.0)) ⟫ λ second e'.
      as_int-Ensures _ second (q.2 1 second e') ⟫ λ high p'.
      reject_if-Ensures (not (ltb_ℤ low high)) _ ⟫ λ _ r.
      returns (p.0, p'.0, ltb→lt _ _ (rejected _ r))

  pub parse_float_bounds-Ensures :
      (op_name : String) (args : Exprs)
      → Ensures {A = n.double.Carrier × n.double.Carrier} c
          (λ b. n.double.lt b.0 b.1 ≡ true)
          (parse_float_bounds c n op_name args)
  unfolding parse_float_bounds
  parse_float_bounds-Ensures op_name args =
      parse_numeric_params-Ensures op_name args 2 2 ⟫ λ params q.
      index-Ensures params 0 (omega (arith, q.0)) ⟫ λ first _.
      index-Ensures params 1 (omega (arith, q.0)) ⟫ λ second _.
      reject_if-Ensures (not (n.double.lt (as_float c n first) (as_float c n second))) _ ⟫ λ _ r.
      returns (rejected _ r)
