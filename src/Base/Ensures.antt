-- ===== src/Base/Ensures.antt =====
-- Postconditions of a fallible function. `Ensures c P r`: `r` is an error or a value with `P`; it may
-- panic only if `c` says that overflow checks are on.
use Prim.Native.Nat.{ℕ, zero, suc, ◌+◌, ◌-◌, ◌*◌, ◌/◌, ◌%◌, ◌≤◌, ◌<◌}
use mathlib.Core.Path.{◌≡◌, refl, ap, subst, ◌∙◌}
use mathlib.Core.Logic.{◌≢◌, inl, inr}
use mathlib.Core.Bool.{Bool, true, false}
use mathlib.Core.Option.{some}
use mathlib.Core.List.{List, [], ◌∷◌}
use native.Mathlib.Nat.{mul_assoc}
use native.Mathlib.Omega.{arith}
use knok.Base.Tests.{ltb, if◌then◌else◌, Bool-cases, some_injective}
use knok.Base.Lists.{
  length, get_elem?, get_elem?-some, set, take, drop, remove_at, insert_at, sum, product,
}
use knok.Base.Outcome.{
  Error, Result, ok, err, panic, ◌>>=◌, reject_if, require, map_err, traverse, Runs,
}
use knok.Base.Usize.{
  usize_mod, fit, add_usize, mul_usize, sub_usize, sum_from, product_from, div_unsigned,
  rem_unsigned, div_ceil, div_ceil_unsigned, sub_usize-exact, div_unsigned-exact,
  rem_unsigned-exact, div_ceil_unsigned-exact,
}
use knok.Base.Vec.{
  index, store, remove, insert, slice_to, slice_from, swap, store-lt, insert-le, slice_to-le,
  slice_from-le,
}

pub data Ensures {ℓ} {A : Type ℓ} (c : Bool) (P : A → Type ℓ) : Result A → Type ℓ where
  returns : {a : A} → P a → Ensures c P (ok a)
  throws : {e : Error} → Ensures c P (err e)
  overflows : c ≡ true → Ensures c P panic

module _ {ℓ} {A : Type ℓ} {c : Bool} {P : A → Type ℓ} where
  infixr 1 ◌⟫◌
  pub ◌⟫◌ :
      {B : Type ℓ} {Q : B → Type ℓ} {r : Result A} {f : A → Result B}
      → Ensures c P r
      → ((a : A) → P a → Ensures c Q (f a))
      → Ensures c Q (r >>= f)
  returns {a} h ⟫ k = k a h
  throws ⟫ k = throws
  overflows h ⟫ k = overflows h

  pub weaken :
      {Q : A → Type ℓ} {r : Result A} → Ensures c P r → ((a : A) → P a → Q a) → Ensures c Q r
  weaken (returns {a} h) g = returns (g a h)
  weaken throws g = throws
  weaken (overflows h) g = overflows h

  pub of_ok : {a : A} → Ensures c P (ok a) → P a
  of_ok (returns h) = h

  pub map_err-Ensures :
      (g : Error → Error) {r : Result A} → Ensures c P r → Ensures c P (map_err g r)
  map_err-Ensures g (returns h) = returns h
  map_err-Ensures g throws = throws
  map_err-Ensures g (overflows h) = overflows h

  -- What is known of the value that a function returned.
  pub value_of : {r : Result A} {a : A} → Ensures c P r → r ≡ ok a → P a
  value_of {r} {a} h e = of_ok (rw e at h)

-- A function that may panic in fewer cases than another.
pub relax {ℓ} :
    {A : Type ℓ} {c p : Bool} {P : A → Type ℓ} {r : Result A}
    → (c ≡ true → p ≡ true)
    → Ensures c P r
    → Ensures p P r
relax on (returns h) = returns h
relax on throws = throws
relax on (overflows h) = overflows (on h)

-- Where panics are allowed, nothing is said of one.
pub may_panic : {A : Type 0} (r : Result A) → Ensures true (λ _. Unit {0}) r
may_panic (ok a) = returns tt
may_panic (err e) = throws
may_panic panic = overflows refl

-- A postcondition with the equation of the value.
pub with_equation :
    {A : Type 0} {c : Bool} {P : A → Type 0} {r : Result A}
    → Ensures c P r
    → Ensures c (λ a. P a × (r ≡ ok a)) r
with_equation (returns h) = returns (h, refl)
with_equation throws = throws
with_equation (overflows h) = overflows h

-- Without overflow checks a function with a postcondition does not panic.
pub Ensures-ne-panic {ℓ} :
    {A : Type ℓ} {P : A → Type ℓ} {r : Result A} → Ensures false P r → r ≢ panic
Ensures-ne-panic (returns h) = λ e. cc
Ensures-ne-panic throws = λ e. cc
Ensures-ne-panic (overflows h) = λ e. cc

pub of_Runs {ℓ} : {A : Type ℓ} (c : Bool) (r : Result A) → Runs r → Ensures c (λ a. r ≡ ok a) r
of_Runs c (ok a) h = returns refl
of_Runs c (err e) h = throws
of_Runs c panic h = absurd h

module _ {c : Bool} where
  pub reject_if-Ensures : (b : Bool) (e : Error) → Ensures c (λ _. b ≡ false) (reject_if b e)
  reject_if-Ensures true e = throws
  reject_if-Ensures false e = returns refl

  pub require-Ensures : (b : Bool) (e : Error) → Ensures c (λ _. b ≡ true) (require b e)
  require-Ensures true e = returns refl
  require-Ensures false e = throws

-- What an overflow does: it panics, or it returns a value of which nothing is promised.
overflow-Ensures :
    (c : Bool) {n : ℕ} (m : ℕ) → Ensures c (λ s. c ≡ true → s ≡ n) (if c then panic else ok m)
overflow-Ensures true m = overflows refl
overflow-Ensures false m = returns (λ e. cc)

-- With overflow checks each arithmetic result is the exact one.
module _ (c : Bool) where
  pub fit-Ensures : (n : ℕ) → Ensures c (λ s. c ≡ true → s ≡ n) (fit c n)
  unfolding fit
  fit-Ensures n = elim (Bool-cases (ltb n usize_mod)) [
    | inl e ↦ rw e (returns (λ _. refl))
    | inr e ↦ rw e (overflow-Ensures c (n % usize_mod))
  ]

  pub add-Ensures : (a b : ℕ) → Ensures c (λ s. c ≡ true → s ≡ a + b) (add_usize c a b)
  unfolding add_usize
  add-Ensures a b = fit-Ensures (a + b)

  pub mul-Ensures : (a b : ℕ) → Ensures c (λ s. c ≡ true → s ≡ a * b) (mul_usize c a b)
  unfolding mul_usize
  mul-Ensures a b = fit-Ensures (a * b)

  pub sub-Ensures : (a b : ℕ) → b ≤ a → Ensures c (λ s. s ≡ a - b) (sub_usize c a b)
  sub-Ensures a b h = rw (sub_usize-exact c a b h) (returns refl)

  pub div-Ensures : (a b : ℕ) → 0 < b → Ensures c (λ q. q ≡ a / b) (div_unsigned a b)
  div-Ensures a b h = rw (div_unsigned-exact a b h) (returns refl)

  pub rem-Ensures : (a b : ℕ) → 0 < b → Ensures c (λ r. r ≡ a % b) (rem_unsigned a b)
  rem-Ensures a b h = rw (rem_unsigned-exact a b h) (returns refl)

  pub div_ceil-Ensures :
      (a b : ℕ) → 0 < b → Ensures c (λ q. q ≡ div_ceil a b) (div_ceil_unsigned a b)
  div_ceil-Ensures a b h = rw (div_ceil_unsigned-exact a b h) (returns refl)

  pub sum-Ensures :
      (acc : ℕ) (xs : List ℕ) → Ensures c (λ s. c ≡ true → s ≡ acc + sum xs) (sum_from c acc xs)
  unfolding sum_from
  sum-Ensures acc [] = returns (λ _. omega arith)
  sum-Ensures acc (x ∷ xs) =
      add-Ensures acc x ⟫ λ t p. weaken (sum-Ensures t xs) (λ s q on. omega (arith, p on, q on))

  pub product-Ensures :
      (acc : ℕ) (xs : List ℕ)
      → Ensures c (λ s. c ≡ true → s ≡ acc * product xs) (product_from c acc xs)
  unfolding product_from
  product-Ensures acc [] = returns (λ _. grind arith)
  product-Ensures acc (x ∷ xs) = mul-Ensures acc x ⟫ λ t p.
      weaken (product-Ensures t xs) (λ s q on. q on ∙ rw (p on) (mul_assoc acc x (product xs)))

-- A place inside a vector is read, written and taken out without a panic.
module _ {ℓ} {A : Type ℓ} {c : Bool} where
  pub index-Ensures :
      (xs : List A) (i : ℕ) → i < length xs → Ensures c (λ x. get_elem? xs i ≡ some x) (index xs i)
  unfolding index
  index-Ensures xs i h = let (x, e) = get_elem?-some xs i h in rw e (returns refl)

  pub store-Ensures :
      (xs : List A) (i : ℕ) (v : A)
      → i < length xs
      → Ensures c (λ ys. ys ≡ set xs i v) (store xs i v)
  store-Ensures xs i v h = rw (store-lt xs i v h) (returns refl)

  pub remove-Ensures :
      (xs : List A) (i : ℕ)
      → i < length xs
      → Ensures {A = A × List A} c
          (λ p. (get_elem? xs i ≡ some p.0) × (p.1 ≡ remove_at xs i))
          (remove xs i)
  unfolding remove
  remove-Ensures xs i h = index-Ensures xs i h ⟫ λ x e. returns (e, refl)

  pub insert-Ensures :
      (xs : List A) (i : ℕ) (v : A)
      → i ≤ length xs
      → Ensures c (λ ys. ys ≡ insert_at xs i v) (insert xs i v)
  insert-Ensures xs i v h = rw (insert-le xs i v h) (returns refl)

  pub slice_to-Ensures :
      (xs : List A) (n : ℕ) → n ≤ length xs → Ensures c (λ ys. ys ≡ take n xs) (slice_to xs n)
  slice_to-Ensures xs n h = rw (slice_to-le xs n h) (returns refl)

  pub slice_from-Ensures :
      (xs : List A) (n : ℕ) → n ≤ length xs → Ensures c (λ ys. ys ≡ drop n xs) (slice_from xs n)
  slice_from-Ensures xs n h = rw (slice_from-le xs n h) (returns refl)

  pub swap-Ensures :
      (xs : List A) (i j : ℕ)
      → i < length xs
      → j < length xs
      → Ensures c
          (λ ys.
            (x : A) × (y : A) × (get_elem? xs i ≡ some x)
            × (get_elem? xs j ≡ some y)
            × (ys ≡ set (set xs i y) j x))
          (swap xs i j)
  unfolding swap
  swap-Ensures xs i j h k =
      index-Ensures xs i h ⟫ λ x p. index-Ensures xs j k ⟫ λ y q. returns (x, y, p, q, refl)

-- The two branches of a test, each of which may use what the test found.
pub if-Ensures {ℓ} :
    {A : Type ℓ} {c : Bool} {P : A → Type ℓ} {x y : Result A} (b : Bool)
    → (b ≡ true → Ensures c P x)
    → (b ≡ false → Ensures c P y)
    → Ensures c P (if b then x else y)
if-Ensures true h k = h refl
if-Ensures false h k = k refl

-- A loop with a postcondition for its body: it holds of every result.
module _ {ℓ κ} {A : Type κ} {B : Type ℓ} (c : Bool) (P : B → Type ℓ) (f : A → Result B) where
  each :
      (y : B) (ys : List B)
      → P y
      → ((k : ℕ) (z : B) → get_elem? ys k ≡ some z → P z)
      → (k : ℕ) (z : B) → get_elem? (y ∷ ys) k ≡ some z
      → P z
  each y ys p q zero z e = subst P (some_injective e) p
  each y ys p q (suc k) z e = q k z e

  pub traverse-Ensures :
      (xs : List A)
      → ((x : A) → Ensures c P (f x))
      → Ensures c
          (λ ys. (length ys ≡ length xs) × ((k : ℕ) (y : B) → get_elem? ys k ≡ some y → P y))
          (traverse f xs)
  traverse-Ensures [] h = returns (refl, λ k y e. cc)
  traverse-Ensures (x ∷ xs) h =
      h x ⟫ λ y p. traverse-Ensures xs h ⟫ λ ys q. returns (ap suc q.0, each y ys p q.1)
