-- ===== src/Host/Offset.antt =====
-- The row-major offset of crates/knok/src/tensor.rs: exact, and below the number of elements.
use knok.Base.{
  ltb, ℕ, suc, ◌+◌, ◌*◌, ◌≤◌, ◌<◌, ◌≡◌, refl, sym, subst, Bool, true, false, ltb→lt, ◌&&◌, List, [],
  ◌∷◌, length, product, ok, arith,
}
use knok.Base.Usize.{usize_mod, add_usize-exact, mul_usize-exact}
use native.Mathlib.Nat.{mul_assoc, mul-le-mul_left, mul-le-mul_right, mul-pos}
use knok.Host.Data.{in_range, offset}

-- The offset without a machine's width.
unfoldable pub row_major : ℕ → List ℕ → List ℕ → ℕ
row_major acc (dim ∷ dims) (i ∷ indices) = row_major (acc * dim + i) dims indices
row_major acc _ _ = acc

pub and_left : (a b : Bool) → a && b ≡ true → a ≡ true
and_left true b h = refl
and_left false b h = cc

pub and_right : (a b : Bool) → a && b ≡ true → b ≡ true
and_right true b h = h
and_right false b h = cc

-- One more index below its dimension stays below the grown bound.
pub step_lt : (acc bound dim i : ℕ) → acc < bound → i < dim → acc * dim + i < bound * dim
step_lt acc bound dim i h k = omega (arith, mul-le-mul_right {m = suc acc} {n = bound} dim h)

-- In range, no dimension is zero.
product-positive :
    (dims indices : List ℕ)
    → length dims ≡ length indices
    → in_range dims indices ≡ true
    → 0 < product dims
unfolding in_range
product-positive [] indices e h = omega arith
product-positive (dim ∷ dims) [] e h = absurd (omega arith)
product-positive (dim ∷ dims) (i ∷ indices) e h =
    mul-pos (omega (arith, ltb→lt i dim (and_left (ltb i dim) (in_range dims indices) h))) (
      product-positive dims indices (omega arith) (and_right (ltb i dim) (in_range dims indices) h))

-- If the number of elements fits, the offset is computed exactly, and is below that number.
pub offset_exact :
    (checks : Bool) (acc bound : ℕ) (dims indices : List ℕ)
    → length dims ≡ length indices
    → acc < bound
    → in_range dims indices ≡ true
    → bound * product dims < usize_mod
    → (offset checks acc dims indices ≡ ok (row_major acc dims indices))
      × (row_major acc dims indices < bound * product dims)
unfolding offset in_range row_major
offset_exact checks acc bound [] indices e l h fits = (refl, omega arith)
offset_exact checks acc bound (dim ∷ dims) [] e l h fits = absurd (omega arith)
offset_exact checks acc bound (dim ∷ dims) (i ∷ indices) e l h fits =
    let inside : acc * dim + i < bound * dim =
      step_lt acc bound dim i l (ltb→lt i dim (and_left (ltb i dim) (in_range dims indices) h)) in
    let positive : 0 < product dims =
      product-positive dims indices (omega arith)
        (and_right (ltb i dim) (in_range dims indices) h) in
    let grouped : bound * dim * product dims ≡ bound * (dim * product dims) =
      mul_assoc bound dim (product dims) in
    let least : bound * dim * 1 ≤ bound * dim * product dims =
      mul-le-mul_left {m = 1} {n = product dims} (bound * dim) positive in
    let (run, below) =
      offset_exact checks (acc * dim + i) (bound * dim) dims indices (omega arith) inside
        (and_right (ltb i dim) (in_range dims indices) h)
        (subst (λ n. n < usize_mod) (sym grouped) fits) in
    (
      rw (mul_usize-exact checks acc dim (omega (arith, inside, grouped, least, fits))) (
          rw (add_usize-exact checks (acc * dim) i (omega (arith, inside, grouped, least, fits)))
            run),
      subst (λ n. row_major (acc * dim + i) dims indices < n) grouped below,
    )
