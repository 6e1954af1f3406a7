-- ===== src/Creation/Fine.antt =====
-- The loops and the arithmetic of crates/knok-core/src/ops/static_creation.rs panic only on an overflow.
use knok.Base.{
  ℕ, zero, suc, ◌+◌, ◌-◌, ◌*◌, ◌^◌, ◌≤◌, ◌≡◌, ap, Bool, not, ◌==◌, le→leb, leb, ltb, [], ◌∷◌,
  range_from, product, Result, arith,
}
use knok.Base.Ensures.{
  Ensures, returns, throws, div_ceil-Ensures, overflows, ◌⟫◌, weaken, reject_if-Ensures, if-Ensures,
  traverse-Ensures,
}
use knok.Base.Usize.{usize_mod}
use knok.Ast.Types.{TensorType}
use knok.Creation.Int.{ℤ, pos, nat_abs, tdiv, tmod, ◌+ℤ◌, ◌-ℤ◌, ◌*ℤ◌, add_i128, sub_i128, mul_i128}
use knok.Creation.Overflow.{fit_i128-Ensures}
use knok.Creation.Numbers.{Float}
use knok.Creation.Literals.{allocate, string_size, i128_size}
use knok.Creation.Arange
use knok.Creation.Linspace
use knok.Creation.Random.{bits_before, bits_after, next_down, draw}

pub small :
    (target : TensorType) (count : ℕ)
    → string_size * product target.shape ≤ 2 ^ 63 - 1
    → target.shape ≡ count ∷ []
    → string_size * count ≤ 2 ^ 63 - 1
small target count h e = omega (arith, h, ap product e)

pub allocate-Ensures :
    (c : Bool) (size count : ℕ)
    → size * count ≤ 2 ^ 63 - 1
    → Ensures c (λ _. Unit {0}) (allocate size count)
unfolding allocate
allocate-Ensures c size count h = rw (le→leb _ _ h) (returns tt)

module _ (c : Bool) where
  abbrev pub Fine : {A : Type 0} → Result A → Type 0
  Fine r = Ensures c (λ _. Unit {0}) r

  pub any : {A : Type 0} {P : A → Type 0} {r : Result A} → Ensures c P r → Fine r
  any h = weaken h (λ _ _. tt)

  pub stepped-Ensures : (start step : ℤ) (place : ℕ) → Fine (Arange.stepped c start step place)
  unfolding Arange.stepped mul_i128 add_i128
  stepped-Ensures start step place = fit_i128-Ensures c (step *ℤ pos place) ⟫ λ scaled _.
      any (fit_i128-Ensures c (start +ℤ scaled))

  pub arange_len-Ensures :
      (start stop step : ℤ) → Fine (Arange.integer_arange_len c start stop step)
  unfolding Arange.integer_arange_len Arange.usize_length sub_i128
  arange_len-Ensures start stop step = reject_if-Ensures (nat_abs step == 0) _ ⟫ λ _ moves.
      fit_i128-Ensures c (stop -ℤ start) ⟫ λ d _.
      if-Ensures (Arange.away step d) (λ _. returns tt)
        (λ _. div_ceil-Ensures c (nat_abs d) (nat_abs step) (ground arith) ⟫ λ count _.
          if-Ensures (ltb count usize_mod) (λ _. returns tt) (λ _. throws))

  pub linspace_values-Ensures :
      (start stop : ℤ) (count : ℕ)
      → string_size * count ≤ 2 ^ 63 - 1
      → Fine (Linspace.integer_linspace_values c start stop count)
  unfolding Linspace.integer_linspace_values sub_i128
  linspace_values-Ensures start stop zero h = returns tt
  linspace_values-Ensures start stop (suc zero) h = returns tt
  linspace_values-Ensures start stop (suc (suc k)) h = fit_i128-Ensures c (stop -ℤ start) ⟫ λ d _.
      reject_if-Ensures (not (nat_abs (tmod d (suc k)) == 0)) _ ⟫ λ _ _.
      allocate-Ensures c i128_size (suc (suc k)) (omega (arith, h)) ⟫ λ _ _. any (
        traverse-Ensures c (λ _. Unit {0}) (Arange.stepped c start (tdiv d (suc k)))
          (range_from 0 (suc (suc k))) (stepped-Ensures start (tdiv d (suc k))))

  module _ (f : Float) where
    bits_before-Ensures : (bits : ℕ) → Fine (bits_before c f.width bits)
    unfolding bits_before
    bits_before-Ensures bits =
        if-Ensures (leb 1 bits) (λ _. returns tt) (λ _. if-Ensures c overflows (λ _. returns tt))

    bits_after-Ensures : (bits : ℕ) → Fine (bits_after c f.width bits)
    unfolding bits_after
    bits_after-Ensures bits =
        if-Ensures (ltb (bits + 1) (2 ^ f.width)) (λ _. returns tt)
          (λ _. if-Ensures c overflows (λ _. returns tt))

    next_down-Ensures : (value : f.Carrier) → Fine (next_down c f value)
    unfolding next_down
    next_down-Ensures value =
        if-Ensures (f.eq value f.neg_infinity) (λ _. returns tt)
          (λ _.
            if-Ensures (f.eq value (f.of_nat 0)) (λ _. returns tt)
              (λ _.
                if-Ensures (f.lt (f.of_nat 0) value) (λ _. bits_before-Ensures (f.to_bits value))
                  (λ _. bits_after-Ensures (f.to_bits value))
                ⟫ λ bits _. returns tt))

    pub draw-Ensures : (low high unit : f.Carrier) → Fine (draw c f low high unit)
    unfolding draw
    draw-Ensures low high unit =
        if-Ensures (f.le high (f.add low (f.mul unit (f.sub high low))))
          (λ _. next_down-Ensures high) (λ _. returns tt)
        ⟫ λ below _. returns tt
