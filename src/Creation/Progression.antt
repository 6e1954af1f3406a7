-- ===== src/Creation/Progression.antt =====
-- `arange` over integers gives the values from `start` by `step` that lie before `stop`.
use knok.Base.{
  ℕ, suc, ◌*◌, ◌<◌, ◌≡◌, ◌↔◌, ◌⊎◌, inl, inr, refl, sym, subst, ap, ◌∙◌, Bool, true, false, ◌==◌,
  if◌then◌else◌, ok, ok_injective, >>=-eq-ok, >>-eq-ok, reject_if-eq-ok, arith,
}
use knok.Base.Usize.{div_ceil, div_ceil_unsigned-exact}
use knok.Base.Ensures.{value_of}
use knok.Creation.Int.{
  ℤ, pos, negsuc, pos_part, neg_part, nat_abs, ◌+ℤ◌, ◌-ℤ◌, ◌*ℤ◌, ◌<ℤ◌, add_i128, sub_i128, mul_i128,
  *ℤ-pos_part, *ℤ-neg_part, int_laws,
}
use knok.Creation.Overflow.{fit_i128-Ensures, Fitted-exact}
use knok.Creation.Arange.{away, usize_length, integer_arange_len, stepped}
use knok.Creation.Steps.{div_ceil_iff}

-- With overflow checks a result is the exact one.
pub add_i128-exact : (a b : ℤ) {w : ℤ} → add_i128 true a b ≡ ok w → w ≡ a +ℤ b
unfolding add_i128
add_i128-exact a b h = Fitted-exact (value_of (fit_i128-Ensures true (a +ℤ b)) h)

pub sub_i128-exact : (a b : ℤ) {w : ℤ} → sub_i128 true a b ≡ ok w → w ≡ a -ℤ b
unfolding sub_i128
sub_i128-exact a b h = Fitted-exact (value_of (fit_i128-Ensures true (a -ℤ b)) h)

pub mul_i128-exact : (a b : ℤ) {w : ℤ} → mul_i128 true a b ≡ ok w → w ≡ a *ℤ b
unfolding mul_i128
mul_i128-exact a b h = Fitted-exact (value_of (fit_i128-Ensures true (a *ℤ b)) h)

-- The value at a place of the progression.
abbrev pub at_place : ℤ → ℤ → ℕ → ℤ
at_place start step k = start +ℤ step *ℤ pos k

pub stepped-exact :
    (start step : ℤ) (k : ℕ) {v : ℤ} → stepped true start step k ≡ ok v → v ≡ at_place start step k
unfolding stepped
stepped-exact start step k h =
    let (scaled, p, q) = >>=-eq-ok (mul_i128 true step (pos k)) _ h in
    add_i128-exact start scaled q ∙ ap (λ z. start +ℤ z) (mul_i128-exact step (pos k) p)

-- `v` lies before `stop` in the direction of the step.
abbrev pub Before : ℤ → ℤ → ℤ → Type 0
Before (pos s) v stop = v <ℤ stop
Before (negsuc s) v stop = stop <ℤ v

usize_length-eq : (m : ℕ) {n : ℕ} → usize_length m ≡ ok n → n ≡ m
unfolding usize_length
usize_length-eq m h = ground arith

ruleset step_laws = (int_laws, *ℤ-pos_part, *ℤ-neg_part)

pub one_sided : (z : ℤ) → (pos_part z ≡ 0) ⊎ (neg_part z ≡ 0)
one_sided (pos a) = inr refl
one_sided (negsuc a) = inl refl

module _ (start stop : ℤ) (k : ℕ) where
  abbrev distance : ℤ
  distance = stop -ℤ start

  upwards : (s : ℕ) → (at_place start (pos s) k <ℤ stop) ↔ (s * k < pos_part distance)
  upwards s = (
    (λ h. omega (step_laws, one_sided distance, h)),
    λ h. omega (step_laws, one_sided distance, h),
  )

  downwards : (s : ℕ) → (stop <ℤ at_place start (negsuc s) k) ↔ (suc s * k < neg_part distance)
  downwards s = (
    (λ h. omega (step_laws, one_sided distance, h)),
    λ h. omega (step_laws, one_sided distance, h),
  )

-- Where no value lies before `stop`, the distance has no part in the direction of the step, and else
-- it has that part only.
away_up : (s : ℕ) (d : ℤ) → 0 < s → away (pos s) d ≡ true → pos_part d ≡ 0
away_up s d l h = ground arith

toward_up : (s : ℕ) (d : ℤ) → 0 < s → away (pos s) d ≡ false → nat_abs d ≡ pos_part d
toward_up s d l h = ground arith

away_down : (s : ℕ) (d : ℤ) → away (negsuc s) d ≡ true → neg_part d ≡ 0
away_down s d h = ground arith

toward_down : (s : ℕ) (d : ℤ) → away (negsuc s) d ≡ false → nat_abs d ≡ neg_part d
toward_down s d h = ground arith

-- The end of integer_arange_len, in a direction with `part` of the distance.
counted :
    (b : Bool) (size s part m k : ℕ)
    → 0 < s
    → (b ≡ true → part ≡ 0)
    → (b ≡ false → size ≡ part)
    → (if b then ok 0 else usize_length (div_ceil size s)) ≡ ok m
    → (k < m) ↔ (s * k < part)
counted true size s part m k l empty full h =
    let z : 0 ≡ m = ok_injective h in
    let p = empty refl in ((λ e. absurd (omega (arith, z, e))), λ e. absurd (omega (arith, p, e)))
counted false size s part m k l empty full h =
    subst (λ n. (k < n) ↔ (s * k < part)) (sym (usize_length-eq _ h))
      (subst (λ n. (k < div_ceil n s) ↔ (s * k < part)) (sym (full refl)) (div_ceil_iff part s k l))

nonzero : (n : ℕ) → n == 0 ≡ false → 0 < n
nonzero n h = ground arith

-- With overflow checks the length of an `arange` is the number of its values before `stop`.
module _ (start stop : ℤ) (m k : ℕ) where
  done :
      (step : ℤ)
      → nat_abs step == 0 ≡ false
      → (if away step (stop -ℤ start)
          then ok 0
          else usize_length (div_ceil (nat_abs (stop -ℤ start)) (nat_abs step)))
        ≡ ok m
      → (k < m) ↔ Before step (at_place start step k) stop
  done (pos s) z h =
      let l : 0 < s = ground arith in
      let c =
        counted (away (pos s) (stop -ℤ start)) (nat_abs (stop -ℤ start)) s
          (pos_part (stop -ℤ start)) m k l (away_up s (stop -ℤ start) l)
          (toward_up s (stop -ℤ start) l) h in
      let u = upwards start stop k s in ((λ a. u.1 (c.0 a)), λ b. c.1 (u.0 b))
  done (negsuc s) z h =
      let c =
        counted (away (negsuc s) (stop -ℤ start)) (nat_abs (stop -ℤ start)) (suc s)
          (neg_part (stop -ℤ start)) m k (omega arith) (away_down s (stop -ℤ start))
          (toward_down s (stop -ℤ start)) h in
      let u = downwards start stop k s in ((λ a. u.1 (c.0 a)), λ b. c.1 (u.0 b))

  pub integer_arange_len_iff :
      (step : ℤ)
      → integer_arange_len true start stop step ≡ ok m
      → (k < m) ↔ Before step (at_place start step k) stop
  unfolding integer_arange_len
  integer_arange_len_iff step h =
      let (a, b) = >>-eq-ok _ _ h in
      let (d, p, q) = >>=-eq-ok (sub_i128 true stop start) _ b in
      done step (reject_if-eq-ok _ _ a) (
        subst
          (λ d.
            (if away step d then ok 0 else usize_length (div_ceil (nat_abs d) (nat_abs step)))
            ≡ ok m)
          (sub_i128-exact stop start p)
          (rw
            (div_ceil_unsigned-exact (nat_abs d) (nat_abs step)
              (nonzero (nat_abs step) (reject_if-eq-ok _ _ a)))
            at q))
