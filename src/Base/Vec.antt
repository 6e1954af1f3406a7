-- ===== src/Base/Vec.antt =====
-- `Vec` and slice operations as `core` and `alloc` document them: out of range they panic.
use Prim.Native.Nat.{ℕ, zero, suc, ◌≤◌, ◌<◌}
use mathlib.Core.Path.{◌≡◌, refl}
use mathlib.Core.Option.{some}
use mathlib.Core.List.{List, [], ◌∷◌}
use native.Mathlib.Omega.{arith}
use knok.Base.Tests.{ltb, leb, if◌then◌else◌, lt→ltb, le→leb}
use knok.Base.Lists.{length, get_elem?, get_elem?-some, set, take, drop, remove_at, insert_at}
use knok.Base.Outcome.{Result, ok, panic, ◌>>=◌, expect, Runs}

module _ {ℓ} {A : Type ℓ} where
  -- `xs[i]`.
  unfoldable pub index : List A → ℕ → Result A
  index xs i = expect (get_elem? xs i)

  -- `xs[i] = v`.
  unfoldable pub store : List A → ℕ → A → Result (List A)
  store xs i v = if ltb i (length xs) then ok (set xs i v) else panic

  -- `xs.remove(i)`: the element, and the vector without it.
  unfoldable pub remove : List A → ℕ → Result (A × List A)
  unfolding index
  remove xs i = index xs i >>= λ x. ok (x, remove_at xs i)

  -- `xs.insert(i, v)`.
  unfoldable pub insert : List A → ℕ → A → Result (List A)
  insert xs i v = if leb i (length xs) then ok (insert_at xs i v) else panic

  -- `&xs[..n]` and `&xs[n..]`.
  unfoldable pub slice_to : List A → ℕ → Result (List A)
  slice_to xs n = if leb n (length xs) then ok (take n xs) else panic

  unfoldable pub slice_from : List A → ℕ → Result (List A)
  slice_from xs n = if leb n (length xs) then ok (drop n xs) else panic

  -- `xs.swap(i, j)`.
  unfoldable pub swap : List A → ℕ → ℕ → Result (List A)
  unfolding index
  swap xs i j = index xs i >>= λ x. index xs j >>= λ y. ok (set (set xs i y) j x)

module _ {ℓ} {A : Type ℓ} where
  pub index-Runs : (xs : List A) (i : ℕ) → i < length xs → Runs (index xs i)
  unfolding index
  index-Runs xs i h = let (x, e) = get_elem?-some xs i h in rw e tt

  pub index-some : (xs : List A) (i : ℕ) → i < length xs → (x : A) × (index xs i ≡ ok x)
  unfolding index
  index-some xs i h = let (x, e) = get_elem?-some xs i h in (x, rw e)

  pub index-eq-ok : (xs : List A) (i : ℕ) {x : A} → index xs i ≡ ok x → get_elem? xs i ≡ some x
  unfolding index
  index-eq-ok xs i h = ground arith

  pub index-lt : (xs : List A) (i : ℕ) {x : A} → index xs i ≡ ok x → i < length xs
  unfolding index
  index-lt [] i h = cc
  index-lt (x ∷ xs) zero h = omega arith
  index-lt (x ∷ xs) (suc i) h = let r = index-lt xs i h in omega arith

  pub store-lt : (xs : List A) (i : ℕ) (v : A) → i < length xs → store xs i v ≡ ok (set xs i v)
  unfolding store
  store-lt xs i v h = rw (lt→ltb _ _ h)

  pub insert-le :
      (xs : List A) (i : ℕ) (v : A) → i ≤ length xs → insert xs i v ≡ ok (insert_at xs i v)
  unfolding insert
  insert-le xs i v h = rw (le→leb _ _ h)

  pub slice_to-le : (xs : List A) (n : ℕ) → n ≤ length xs → slice_to xs n ≡ ok (take n xs)
  unfolding slice_to
  slice_to-le xs n h = rw (le→leb _ _ h)

  pub slice_from-le : (xs : List A) (n : ℕ) → n ≤ length xs → slice_from xs n ≡ ok (drop n xs)
  unfolding slice_from
  slice_from-le xs n h = rw (le→leb _ _ h)

  pub remove-lt :
      (xs : List A) (i : ℕ) → i < length xs → (x : A) × (remove xs i ≡ ok (x, remove_at xs i))
  unfolding remove index
  remove-lt xs i h = let (x, e) = get_elem?-some xs i h in (x, rw e)

  pub get_elem?→index : (xs : List A) (i : ℕ) {x : A} → get_elem? xs i ≡ some x → index xs i ≡ ok x
  unfolding index
  get_elem?→index xs i h = rw h refl
