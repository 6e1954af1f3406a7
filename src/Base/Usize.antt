-- ===== src/Base/Usize.antt =====
-- `usize` arithmetic on a 64-bit target. `checks` is rustc's `overflow-checks`: with it an overflow
-- panics, and without it the result wraps. An index past the end panics under either setting.
use Prim.Native.Nat.{ℕ, ◌+◌, ◌-◌, ◌*◌, ◌/◌, ◌^◌, ◌%◌, ◌≤◌, ◌<◌}
use mathlib.Core.Path.{◌≡◌, refl, ap, ◌∙◌}
use mathlib.Core.Bool.{Bool, true, false}
use mathlib.Core.Logic.{inl, inr}
use native.Mathlib.Nat.{mul_assoc}
use mathlib.Core.List.{List, [], ◌∷◌}
use native.Mathlib.Omega.{arith}
use knok.Base.Tests.{ltb, leb, ◌==◌, if◌then◌else◌, Bool-cases}
use knok.Base.Lists.{sum, product}
use knok.Base.Outcome.{Result, ok, panic, ◌>>=◌, Runs, >>=-Runs, >>=-eq-ok}

abbrev pub usize_mod : ℕ
usize_mod = 2 ^ 64

-- The exact result, or what overflowing does.
unfoldable pub fit : Bool → ℕ → Result ℕ
fit checks n = if ltb n usize_mod then ok n else if checks then panic else ok (n % usize_mod)

unfoldable pub add_usize : Bool → ℕ → ℕ → Result ℕ
unfolding fit
add_usize checks a b = fit checks (a + b)

unfoldable pub mul_usize : Bool → ℕ → ℕ → Result ℕ
unfolding fit
mul_usize checks a b = fit checks (a * b)

unfoldable pub sub_usize : Bool → ℕ → ℕ → Result ℕ
sub_usize checks a b =
    if leb b a then ok (a - b) else if checks then panic else ok ((a + usize_mod - b) % usize_mod)

-- `/`, `%` and `div_ceil` of an unsigned integer: by zero they panic under either setting.
unfoldable pub div_unsigned : ℕ → ℕ → Result ℕ
div_unsigned a b = if b == 0 then panic else ok (a / b)

unfoldable pub rem_unsigned : ℕ → ℕ → Result ℕ
rem_unsigned a b = if b == 0 then panic else ok (a % b)

abbrev pub div_ceil : ℕ → ℕ → ℕ
div_ceil a b = if ltb 0 (a % b) then a / b + 1 else a / b

unfoldable pub div_ceil_unsigned : ℕ → ℕ → Result ℕ
div_ceil_unsigned a b = if b == 0 then panic else ok (div_ceil a b)

-- `iter().sum()` and `iter().product()`.
unfoldable pub sum_from : Bool → ℕ → List ℕ → Result ℕ
sum_from checks acc [] = ok acc
sum_from checks acc (x ∷ xs) = add_usize checks acc x >>= λ s. sum_from checks s xs

unfoldable pub product_from : Bool → ℕ → List ℕ → Result ℕ
product_from checks acc [] = ok acc
product_from checks acc (x ∷ xs) = mul_usize checks acc x >>= λ s. product_from checks s xs

pub add_usize-exact :
    (checks : Bool) (a b : ℕ) → a + b < usize_mod → add_usize checks a b ≡ ok (a + b)
unfolding add_usize
add_usize-exact checks a b h = ground arith

pub mul_usize-exact :
    (checks : Bool) (a b : ℕ) → a * b < usize_mod → mul_usize checks a b ≡ ok (a * b)
unfolding mul_usize
mul_usize-exact checks a b h = ground arith

pub sub_usize-exact : (checks : Bool) (a b : ℕ) → b ≤ a → sub_usize checks a b ≡ ok (a - b)
unfolding sub_usize
sub_usize-exact checks a b h = ground arith

pub div_unsigned-exact : (a b : ℕ) → 0 < b → div_unsigned a b ≡ ok (a / b)
unfolding div_unsigned
div_unsigned-exact a b h = ground arith

pub rem_unsigned-exact : (a b : ℕ) → 0 < b → rem_unsigned a b ≡ ok (a % b)
unfolding rem_unsigned
rem_unsigned-exact a b h = ground arith

pub div_ceil_unsigned-exact : (a b : ℕ) → 0 < b → div_ceil_unsigned a b ≡ ok (div_ceil a b)
unfolding div_ceil_unsigned
div_ceil_unsigned-exact a b h = let e : b == 0 ≡ false = ground arith in rw e refl

-- With overflow checks an arithmetic result is the exact one.
pub add_usize_checked : (a b : ℕ) {s : ℕ} → add_usize true a b ≡ ok s → s ≡ a + b
unfolding add_usize
add_usize_checked a b h = ground arith

pub mul_usize_checked : (a b : ℕ) {s : ℕ} → mul_usize true a b ≡ ok s → s ≡ a * b
unfolding mul_usize
mul_usize_checked a b h = ground arith

-- Without them no arithmetic panics.
pub add_usize-Runs : (a b : ℕ) → Runs (add_usize false a b)
unfolding add_usize
add_usize-Runs a b = ground arith

pub mul_usize-Runs : (a b : ℕ) → Runs (mul_usize false a b)
unfolding mul_usize
mul_usize-Runs a b = ground arith

pub sub_usize-Runs : (a b : ℕ) → Runs (sub_usize false a b)
unfolding sub_usize
sub_usize-Runs a b = ground arith

pub sum_from-Runs : (acc : ℕ) (xs : List ℕ) → Runs (sum_from false acc xs)
unfolding sum_from
sum_from-Runs acc [] = tt
sum_from-Runs acc (x ∷ xs) =
    >>=-Runs (add_usize false acc x) _ (add_usize-Runs acc x) (λ s _. sum_from-Runs s xs)

pub product_from-Runs : (acc : ℕ) (xs : List ℕ) → Runs (product_from false acc xs)
unfolding product_from
product_from-Runs acc [] = tt
product_from-Runs acc (x ∷ xs) =
    >>=-Runs (mul_usize false acc x) _ (mul_usize-Runs acc x) (λ s _. product_from-Runs s xs)

pub sum_from_checked :
    (acc : ℕ) (xs : List ℕ) {s : ℕ} → sum_from true acc xs ≡ ok s → s ≡ acc + sum xs
unfolding sum_from
sum_from_checked acc [] h = ground arith
sum_from_checked acc (x ∷ xs) h =
    let (t, p, q) = >>=-eq-ok (add_usize true acc x) _ h in
    omega (arith, add_usize_checked acc x p, sum_from_checked t xs q)

pub product_from_checked :
    (acc : ℕ) (xs : List ℕ) {s : ℕ} → product_from true acc xs ≡ ok s → s ≡ acc * product xs
unfolding product_from
product_from_checked acc [] h = ground arith
product_from_checked acc (x ∷ xs) h =
    let (t, p, q) = >>=-eq-ok (mul_usize true acc x) _ h in
    product_from_checked t xs q ∙ rw (mul_usize_checked acc x p) (mul_assoc acc x (product xs))

-- While the exact sum fits, summing gives it under either setting.
pub sum_from-exact :
    (checks : Bool) (acc : ℕ) (xs : List ℕ)
    → acc + sum xs < usize_mod
    → sum_from checks acc xs ≡ ok (acc + sum xs)
unfolding sum_from
sum_from-exact checks acc [] h = ap ok (omega arith)
sum_from-exact checks acc (x ∷ xs) h =
    rw (add_usize-exact checks acc x (omega arith))
      (sum_from-exact checks (acc + x) xs (omega arith) ∙ ap ok (omega arith))

-- The same facts with the value that is returned.
pub add_usize-some : (a b : ℕ) → (s : ℕ) × (add_usize false a b ≡ ok s)
unfolding add_usize fit
add_usize-some a b = elim (Bool-cases (ltb (a + b) usize_mod)) [
  | inl e ↦ (a + b, rw e)
  | inr e ↦ ((a + b) % usize_mod, rw e)
]

pub mul_usize-some : (a b : ℕ) → (s : ℕ) × (mul_usize false a b ≡ ok s)
unfolding mul_usize fit
mul_usize-some a b = elim (Bool-cases (ltb (a * b) usize_mod)) [
  | inl e ↦ (a * b, rw e)
  | inr e ↦ ((a * b) % usize_mod, rw e)
]

pub sub_usize-some : (a b : ℕ) → (s : ℕ) × (sub_usize false a b ≡ ok s)
unfolding sub_usize
sub_usize-some a b = elim (Bool-cases (leb b a)) [
  | inl e ↦ (a - b, rw e)
  | inr e ↦ ((a + usize_mod - b) % usize_mod, rw e)
]
