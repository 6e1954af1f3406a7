-- ===== src/Creation/UniformValues.antt =====
-- What a static random tensor of floating-point numbers holds.
use knok.Base.{
  ℕ, ◌+◌, ◌-◌, ◌^◌, ◌≤◌, ◌<◌, ◌≡◌, ◌⊎◌, inl, inr, sym, subst, Bool, true, false, false_not_true,
  le→leb, lt→ltb, if◌then◌else◌, Bool-cases, List, get_elem?, some, String, ok, ◌∙◌, ok_injective,
  >>=-eq-ok, >>-eq-ok, reject_if-eq-ok, rejected, arith,
}
use Prim.Native.Nat.{bit_and}
use knok.Creation.Masks.{bit_and_below}
use knok.Base.Vec.{index}
use knok.Ast.Types.{ElementType, TensorType}
use knok.Ast.Graph.{Exprs}
use knok.Ops.Common.{element_count}
use knok.Creation.Numbers.{Float, Numbers}
use knok.Creation.Target.{validate_random_uniform_target}
use knok.Creation.Params.{parse_numeric_params, parse_float_bounds}
use knok.Creation.Literals.{float_literal}
use knok.Creation.SplitMix.{unit_from_u64}
use knok.Creation.Random.{
  bits_before, bits_after, next_down, draw, sample, random_uniform_literal,
  static_random_uniform_literals,
}
use knok.Creation.Steps.{traverse-places}

-- What IEEE 754 says of the numbers, their order and their bits. What is equal to itself is a number,
-- and not a NaN.
pub record IsIeee (f : Float) : Type 0 where
  pub finite_number : (x : f.Carrier) → f.is_finite x ≡ true → f.eq x x ≡ true
  pub ordered : (x y : f.Carrier) → f.lt x y ≡ true → (f.eq x x ≡ true) × (f.eq y y ≡ true)
  pub reflexive : (x : f.Carrier) → f.eq x x ≡ true → f.le x x ≡ true
  pub total :
      (x y : f.Carrier) → f.eq x x ≡ true → f.eq y y ≡ true → f.le y x ≡ false → f.lt x y ≡ true
  pub not_below :
      (x y : f.Carrier) → f.eq x x ≡ true → f.eq y y ≡ true → f.lt x y ≡ false → f.le y x ≡ true
  -- A sum of finite numbers may overflow, but is a number; a finite difference is one of finite numbers.
  pub add_number :
      (x y : f.Carrier)
      → f.is_finite x ≡ true
      → f.is_finite y ≡ true
      → f.eq (f.add x y) (f.add x y) ≡ true
  pub sub_finite :
      (x y : f.Carrier)
      → f.is_finite (f.sub x y) ≡ true
      → (f.is_finite x ≡ true) × (f.is_finite y ≡ true)
  -- A fraction, at most one, of a finite number is finite.
  pub scaled :
      (bits k : ℕ) (y : f.Carrier)
      → bits ≤ 53
      → k < 2 ^ bits
      → f.is_finite y ≡ true
      → f.is_finite (f.mul (f.mul (f.of_nat k) (f.div (f.of_nat 1) (f.of_nat (2 ^ bits)))) y) ≡ true
  pub least : (x y : f.Carrier) → f.eq y f.neg_infinity ≡ true → f.lt x y ≡ false
  -- A number above another one has a sign or is zero.
  pub signed :
      (x y : f.Carrier)
      → f.lt x y ≡ true
      → (f.lt (f.of_nat 0) y ≡ true) ⊎ (f.eq y (f.of_nat 0) ≡ true) ⊎ (f.lt y (f.of_nat 0) ≡ true)
  pub below_zero :
      (x : f.Carrier) → f.eq x (f.of_nat 0) ≡ true → f.lt (f.neg (f.from_bits 1)) x ≡ true
  pub not_above_zero : (x : f.Carrier) → f.lt x (f.of_nat 0) ≡ true → f.lt (f.of_nat 0) x ≡ false
  -- The bits of positive numbers grow with them, and those of negative ones shrink.
  pub bits_down :
      (x : f.Carrier)
      → f.lt (f.of_nat 0) x ≡ true
      → (1 ≤ f.to_bits x) × (f.lt (f.from_bits (f.to_bits x - 1)) x ≡ true)
  pub bits_up :
      (x : f.Carrier)
      → f.lt x (f.of_nat 0) ≡ true
      → f.eq x f.neg_infinity ≡ false
      → (f.to_bits x + 1 < 2 ^ f.width) × (f.lt (f.from_bits (f.to_bits x + 1)) x ≡ true)

bits_before-exact :
    (c : Bool) (width bits : ℕ) → 1 ≤ bits → bits_before c width bits ≡ ok (bits - 1)
unfolding bits_before
bits_before-exact c width bits h = rw (le→leb 1 bits h)

bits_after-exact :
    (c : Bool) (width bits : ℕ) → bits + 1 < 2 ^ width → bits_after c width bits ≡ ok (bits + 1)
unfolding bits_after
bits_after-exact c width bits h = rw (lt→ltb (bits + 1) (2 ^ width) h)

module _ (c : Bool) (f : Float) (ieee : IsIeee f) where
  abbrev origin : f.Carrier
  origin = f.of_nat 0

  -- The number that next_down finds is below.
  next_down_below :
      (low high v : f.Carrier)
      → f.lt low high ≡ true
      → next_down c f high ≡ ok v
      → f.lt v high ≡ true
  unfolding next_down
  next_down_below low high v h e =
      elim (Bool-cases (f.eq high f.neg_infinity)) as (λ _. f.lt v high ≡ true) [
        | inl p ↦ false_not_true (ieee.least low high p) h
        | inr p ↦ elim (Bool-cases (f.eq high origin)) as (λ _. f.lt v high ≡ true) [
          | inl q ↦ found (ok_injective (rw (p, q) at e)) (ieee.below_zero high q)
          | inr q ↦ elim (ieee.signed low high h) as (λ _. f.lt v high ≡ true) [
            | inl s ↦
                let (l, b) = ieee.bits_down high s in
                found
                  (ok_injective (rw (p, q, s, bits_before-exact c f.width (f.to_bits high) l) at e))
                  b
            | inr (inl s) ↦ false_not_true q s
            | inr (inr s) ↦
                let (l, b) = ieee.bits_up high s p in
                found
                  (ok_injective (
                    rw
                      (
                        p,
                        q,
                        ieee.not_above_zero high s,
                        bits_after-exact c f.width (f.to_bits high) l,
                      )
                      at e))
                  b
          ]
        ]
      ]
    where
      found : {x : f.Carrier} → x ≡ v → f.lt x high ≡ true → f.lt v high ≡ true
      found e b = subst (λ y. f.lt y high ≡ true) e b

  -- The number of the draw before its corrections.
  abbrev drawn : ℕ → ℕ → f.Carrier → f.Carrier → f.Carrier
  drawn bits hash low high = f.add low (f.mul (unit_from_u64 f bits hash) (f.sub high low))

  drawn_number :
      (bits hash : ℕ) (low high : f.Carrier)
      → bits ≤ 53
      → f.is_finite (f.sub high low) ≡ true
      → f.eq (drawn bits hash low high) (drawn bits hash low high) ≡ true
  unfolding unit_from_u64
  drawn_number bits hash low high b h =
      let k = bit_and_below hash bits in
      ieee.add_number low _ (ieee.sub_finite high low h).1
        (ieee.scaled bits (bit_and hash (2 ^ bits - 1)) (f.sub high low) b k h)

  -- After the first correction the number is below the upper bound.
  under :
      (low high value below : f.Carrier)
      → f.lt low high ≡ true
      → f.eq value value ≡ true
      → (if f.le high value then next_down c f high else ok value) ≡ ok below
      → f.lt below high ≡ true
  under low high value below l number a = elim (Bool-cases (f.le high value)) [
    | inl p ↦ next_down_below low high below l (rw p at a)
    | inr p ↦
        subst (λ x. f.lt x high ≡ true) (ok_injective (rw p at a))
          (ieee.total value high number (ieee.ordered low high l).1 p)
  ]

  -- After the second it is the lower bound or above.
  corrected :
      (low high below v : f.Carrier)
      → f.lt low high ≡ true
      → f.lt below high ≡ true
      → (if f.lt below low then low else below) ≡ v
      → (f.le low v ≡ true) × (f.lt v high ≡ true)
  corrected low high below v l u e = elim (Bool-cases (f.lt below low)) [
    | inl p ↦
        subst (λ x. (f.le low x ≡ true) × (f.lt x high ≡ true)) (rw p at e)
          (ieee.reflexive low (ieee.ordered low high l).0, l)
    | inr p ↦
        subst (λ x. (f.le low x ≡ true) × (f.lt x high ≡ true)) (rw p at e)
          (ieee.not_below below low (ieee.ordered below high u).0 (ieee.ordered low high l).0 p, u)
  ]

  -- A draw between bounds whose difference is finite is between them.
  draw_lem :
      (bits hash : ℕ) (low high v : f.Carrier)
      → bits ≤ 53
      → f.is_finite (f.sub high low) ≡ true
      → f.lt low high ≡ true
      → draw c f low high (unit_from_u64 f bits hash) ≡ ok v
      → (f.le low v ≡ true) × (f.lt v high ≡ true)
  unfolding draw
  draw_lem bits hash low high v b h l e =
      let value = drawn bits hash low high in
      let (below, p, q) =
        >>=-eq-ok (if f.le high value then next_down c f high else ok value) _ e in
      corrected low high below v l
        (under low high value below l (drawn_number bits hash low high b h) p) (ok_injective q)

module _ (c : Bool) (n : Numbers) (single_ieee : IsIeee n.single)
    (double_ieee : IsIeee n.double) where
  -- A literal that prints a number of the type from `low` up to, not including, `high`, as the type
  -- rounds them.
  abbrev pub DrawnFloat : ElementType → n.double.Carrier → n.double.Carrier → String → Type 0
  DrawnFloat ElementType.f32 low high text =
      (v : n.single.Carrier) × (text ≡ float_literal n (n.to_f64 v))
      × (n.single.le (n.to_f32 low) v ≡ true)
      × (n.single.lt v (n.to_f32 high) ≡ true)
  DrawnFloat ElementType.f64 low high text =
      (v : n.double.Carrier) × (text ≡ float_literal n v)
      × (n.double.le low v ≡ true)
      × (n.double.lt v high ≡ true)
  DrawnFloat _ low high text = ⊥

  -- The difference of the bounds, as the type rounds them, does not overflow.
  abbrev pub FiniteRange : ElementType → n.double.Carrier → n.double.Carrier → Type 0
  FiniteRange ElementType.f32 low high =
      n.single.is_finite (n.single.sub (n.to_f32 high) (n.to_f32 low)) ≡ true
  FiniteRange _ low high = n.double.is_finite (n.double.sub high low) ≡ true

  literal_lem :
      (elem : ElementType) (low high : n.double.Carrier) (hash : ℕ) (text : String)
      → n.double.lt low high ≡ true
      → FiniteRange elem low high
      → random_uniform_literal c n elem low high hash ≡ ok text
      → DrawnFloat elem low high text
  unfolding random_uniform_literal
  literal_lem ElementType.f64 low high hash text h finite e =
      let (v, a, b) = >>=-eq-ok (draw c n.double low high (unit_from_u64 n.double 53 hash)) _ e in
      let (l, u) = draw_lem c n.double double_ieee 53 hash low high v (omega arith) finite h a in
      (v, sym (ok_injective b), l, u)
  literal_lem ElementType.f32 low high hash text h finite e =
      let few : 24 ≤ 53 = omega arith in
      let (_, e1) = >>-eq-ok _ _ e in
      let (ordered, e2) = >>-eq-ok _ _ e1 in
      let (v, a, b) =
        >>=-eq-ok (draw c n.single (n.to_f32 low) (n.to_f32 high) (unit_from_u64 n.single 24 hash))
          _ e2 in
      let (high_finite, low_finite) =
        single_ieee.sub_finite (n.to_f32 high) (n.to_f32 low) finite in
      let below =
        single_ieee.total (n.to_f32 low) (n.to_f32 high) (single_ieee.finite_number _ low_finite)
          (single_ieee.finite_number _ high_finite) (reject_if-eq-ok _ _ ordered) in
      let (l, u) =
        draw_lem c n.single single_ieee 24 hash (n.to_f32 low) (n.to_f32 high) v few finite below
          a in
      (v, sym (ok_injective b), l, u)
  literal_lem ElementType.bool low high hash text h finite e = cc
  literal_lem ElementType.f16 low high hash text h finite e = cc
  literal_lem ElementType.bf16 low high hash text h finite e = cc
  literal_lem ElementType.i32 low high hash text h finite e = cc
  literal_lem ElementType.i64 low high hash text h finite e = cc

  bounds_lem :
      (op_name : String) (args : Exprs) (bounds : n.double.Carrier × n.double.Carrier)
      → parse_float_bounds c n op_name args ≡ ok bounds
      → n.double.lt bounds.0 bounds.1 ≡ true
  unfolding parse_float_bounds
  bounds_lem op_name args bounds h =
      let (params, _, h1) = >>=-eq-ok (parse_numeric_params c n op_name args 2 2) _ h in
      let (first, _, h2) = >>=-eq-ok (index params 0) _ h1 in
      let (second, _, h3) = >>=-eq-ok (index params 1) _ h2 in
      let (a, b) = >>-eq-ok _ _ h3 in
      subst (λ (p : n.double.Carrier × n.double.Carrier). n.double.lt p.0 p.1 ≡ true)
        (ok_injective b) (rejected _ (reject_if-eq-ok _ _ a))

  -- If the two types of numbers keep the laws of IEEE 754, a static random tensor of floating-point
  -- numbers is made, under either setting of the overflow checks, and the difference of its bounds, as
  -- the type rounds them, does not overflow, then each of its literals prints a number of the type, and
  -- not a NaN: one that is the lower bound or above it, and below the upper one.
  pub static_random_uniform_literals_lem :
      (target : TensorType) (seed : ℕ) (args : Exprs) (texts : List String)
      (low high : n.double.Carrier) (k : ℕ) (text : String)
      → parse_float_bounds c n "static_random_uniform" args ≡ ok (low, high)
      → FiniteRange target.elem low high
      → static_random_uniform_literals c n target seed args ≡ ok texts
      → get_elem? texts k ≡ some text
      → DrawnFloat target.elem low high text
  unfolding static_random_uniform_literals
  static_random_uniform_literals_lem target seed args texts low high k text p finite h e =
      let (_, h1) = >>-eq-ok (validate_random_uniform_target target "static_random_uniform") _ h in
      let (bounds, a, h2) = >>=-eq-ok (parse_float_bounds c n "static_random_uniform" args) _ h1 in
      let (count, _, h3) = >>=-eq-ok (element_count c target) _ h2 in
      let (_, placed) = traverse-places _ count texts h3 in
      let same : bounds ≡ (low, high) = ok_injective (sym a ∙ p) in
      literal_lem target.elem low high (sample seed k) text
        (bounds_lem "static_random_uniform" args (low, high) p) finite
        (subst
          (λ (b : n.double.Carrier × n.double.Carrier).
            random_uniform_literal c n target.elem b.0 b.1 (sample seed k) ≡ ok text)
          same (placed k text e))
