-- ===== src/Base/Outcome.antt =====
-- What a fallible Rust function does: it returns a value, returns an error, or panics.
-- An error is the diagnostic's kind with the operation's name and the numbers that the message shows.
use Prim.Native.Nat.{ℕ}
use Prim.Native.String.{String}
use mathlib.Core.Path.{◌≡◌, refl}
use mathlib.Core.Bool.{Bool, true, false}
use mathlib.Core.List.{List, [], ◌∷◌}
use mathlib.Core.Option.{Option, none, some}

pub data Error : Type 0 where
  message : String → Error
  about : String → String → Error
  axis_out_of_bounds : ℕ → List ℕ → Error
  arity : String → ℕ → ℕ → Error
  dims_differ : ℕ → ℕ → ℕ → Error
  at_dim : String → ℕ → Error
  inside : String → Error → Error
  shape_differs : List ℕ → List ℕ → Error

pub data Result {ℓ} (A : Type ℓ) : Type ℓ where
  ok : A → Result A
  err : Error → Result A
  panic : Result A

-- The operator `?`: an error leaves the function, and a panic unwinds it.
infixl 5 ◌>>◌ ◌>>=◌
abbrev pub ◌>>=◌ {ℓ κ} : {A : Type ℓ} {B : Type κ} → Result A → (A → Result B) → Result B
panic >>= next = panic
err failure >>= next = err failure
ok value >>= next = next value

-- A check whose value is `()`, and what follows it.
abbrev pub ◌>>◌ {κ} : {A : Type κ} → Result (Unit {0}) → Result A → Result A
check >> next = check >>= λ _. next

-- `if test { return Err(e) }`.
abbrev pub reject_if : Bool → Error → Result (Unit {0})
reject_if true e = err e
reject_if false e = ok tt

-- `if test { Ok(()) } else { Err(e) }`.
abbrev pub require : Bool → Error → Result (Unit {0})
require true e = ok tt
require false e = err e

-- `Result::map_err`.
abbrev pub map_err {ℓ} : {A : Type ℓ} → (Error → Error) → Result A → Result A
map_err f (ok a) = ok a
map_err f (err e) = err (f e)
map_err f panic = panic

-- `Option::ok_or`.
abbrev pub ok_or {ℓ} : {A : Type ℓ} → Error → Option A → Result A
ok_or e none = err e
ok_or e (some a) = ok a

-- `Option::expect`, and the bounds check of an index: without a value the program panics.
abbrev pub expect {ℓ} : {A : Type ℓ} → Option A → Result A
expect none = panic
expect (some a) = ok a

-- `iter().map(f).collect::<Result<Vec<_>, _>>()`: the first failure ends it.
abbrev pub traverse {ℓ κ} : {A : Type ℓ} {B : Type κ} → (A → Result B) → List A → Result (List B)
traverse f [] = ok []
traverse f (x ∷ xs) = f x >>= λ y. traverse f xs >>= λ ys. ok (y ∷ ys)

-- Not a panic, as a predicate that computes.
abbrev pub Runs {ℓ} : {A : Type ℓ} → Result A → Type 0
Runs (ok a) = Unit
Runs (err e) = Unit
Runs panic = ⊥

pub ok_injective {ℓ} : {A : Type ℓ} {a b : A} → ok a ≡ ok b → a ≡ b
ok_injective h = cc

module _ {ℓ κ} {A : Type ℓ} {B : Type κ} where
  pub >>=-eq-ok :
      (r : Result A) (next : A → Result B) {b : B}
      → r >>= next ≡ ok b
      → (a : A) × (r ≡ ok a) × (next a ≡ ok b)
  >>=-eq-ok panic next h = cc
  >>=-eq-ok (err failure) next h = cc
  >>=-eq-ok (ok value) next h = (value, refl, h)

  -- A chain runs if its first part does, and the rest does for each value of the first.
  pub >>=-Runs :
      (m : Result A) (f : A → Result B)
      → Runs m
      → ((a : A) → m ≡ ok a → Runs (f a))
      → Runs (m >>= f)
  >>=-Runs (ok a) f h k = k a refl
  >>=-Runs (err e) f h k = tt
  >>=-Runs panic f h k = absurd h

pub >>-eq-ok {ℓ} :
    {B : Type ℓ} (m : Result (Unit {0})) (k : Result B) {b : B}
    → (m >> k) ≡ ok b
    → (m ≡ ok tt) × (k ≡ ok b)
>>-eq-ok (ok tt) k h = (refl, h)
>>-eq-ok (err e) k h = cc
>>-eq-ok panic k h = cc

pub >>-Runs {ℓ} :
    {B : Type ℓ} (m : Result (Unit {0})) (k : Result B) → Runs m → Runs k → Runs (m >> k)
>>-Runs m k h r = >>=-Runs m (λ _. k) h (λ _ _. r)

pub reject_if-Runs : (b : Bool) (e : Error) → Runs (reject_if b e)
reject_if-Runs true e = tt
reject_if-Runs false e = tt

pub require-Runs : (b : Bool) (e : Error) → Runs (require b e)
require-Runs true e = tt
require-Runs false e = tt

pub reject_if-eq-ok : (b : Bool) (e : Error) → reject_if b e ≡ ok tt → b ≡ false
reject_if-eq-ok true e h = cc
reject_if-eq-ok false e h = refl

pub require-eq-ok : (b : Bool) (e : Error) → require b e ≡ ok tt → b ≡ true
require-eq-ok true e h = refl
require-eq-ok false e h = cc

pub map_err-Runs {ℓ} : {A : Type ℓ} (f : Error → Error) (r : Result A) → Runs r → Runs (map_err f r)
map_err-Runs f (ok a) h = tt
map_err-Runs f (err e) h = tt
map_err-Runs f panic h = h

pub map_err-eq-ok {ℓ} :
    {A : Type ℓ} (f : Error → Error) (r : Result A) {a : A} → map_err f r ≡ ok a → r ≡ ok a
map_err-eq-ok f (ok a) h = h
map_err-eq-ok f (err e) h = cc
map_err-eq-ok f panic h = cc

pub ok_or-Runs {ℓ} : {A : Type ℓ} (e : Error) (o : Option A) → Runs (ok_or e o)
ok_or-Runs e none = tt
ok_or-Runs e (some a) = tt

module _ {ℓ κ} {A : Type ℓ} {B : Type κ} (f : A → Result B) where
  pub traverse-Runs : (xs : List A) → ((x : A) → Runs (f x)) → Runs (traverse f xs)
  traverse-Runs [] h = tt
  traverse-Runs (x ∷ xs) h =
      >>=-Runs (f x) _ (h x) (λ y _. >>=-Runs (traverse f xs) _ (traverse-Runs xs h) (λ ys _. tt))

  -- What a successful traversal of a non-empty list did.
  pub traverse-cons :
      (x : A) (xs : List A) {ys : List B}
      → traverse f (x ∷ xs) ≡ ok ys
      → (y : B) × (r : List B) × (f x ≡ ok y) × (traverse f xs ≡ ok r) × (y ∷ r ≡ ys)
  traverse-cons x xs h =
      let (y, p, h') = >>=-eq-ok (f x) _ h in
      let (r, q, e) = >>=-eq-ok (traverse f xs) _ h' in (y, r, p, q, ok_injective e)
