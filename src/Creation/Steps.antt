-- ===== src/Creation/Steps.antt =====
-- The loops over the places of a vector, and the arithmetic of evenly spaced values.
use knok.Base.{
  ℕ, zero, suc, ◌+◌, ◌*◌, ◌/◌, ◌%◌, ◌<◌, ◌≤◌, ◌≡◌, ◌↔◌, ◌⊎◌, inl, inr, refl, subst, ap, ◌∙◌, List,
  [], ◌∷◌, length, get_elem?, some, range_from, Result, ok, ok_injective, ◌>>=◌, >>=-eq-ok,
  traverse, traverse-cons, ltb, ltb→lt, Bool-cases, some_injective, arith,
}
use native.Mathlib.Nat.{div-add-mod, mod-lt, mul-le-mul_left}
use knok.Base.Usize.{div_ceil}

module _ {ℓ} {B : Type ℓ} (f : ℕ → Result B) where
  -- Every result, with the place that it stands for.
  abbrev pub AtPlaces : ℕ → List B → Type ℓ
  AtPlaces start ys = (k : ℕ) (y : B) → get_elem? ys k ≡ some y → f (start + k) ≡ ok y

  at_places :
      (start : ℕ) (y : B) (ys : List B)
      → f start ≡ ok y
      → AtPlaces (suc start) ys
      → AtPlaces start (y ∷ ys)
  at_places start y ys p q zero x e = subst (λ i. f i ≡ ok x) place (p ∙ ap ok (some_injective e))
    where
      place : start ≡ start + 0
      place = omega arith
  at_places start y ys p q (suc k) x e = subst (λ i. f i ≡ ok x) place (q k x e)
    where
      place : suc start + k ≡ start + suc k
      place = omega arith

  traverse-range :
      (start n : ℕ) (ys : List B)
      → traverse f (range_from start n) ≡ ok ys
      → (length ys ≡ n) × AtPlaces start ys
  traverse-range start zero ys h =
      subst (λ xs. (length xs ≡ 0) × AtPlaces start xs) (ok_injective h) (refl, λ k y e. cc)
  traverse-range start (suc n) ys h =
      let (y, r, p, q, e) = traverse-cons f start (range_from (suc start) n) h in
      let (l, k) = traverse-range (suc start) n r q in
      subst (λ xs. (length xs ≡ suc n) × AtPlaces start xs) e (ap suc l, at_places start y r p k)

  -- A loop over the places of a vector.
  pub traverse-places :
      (n : ℕ) (ys : List B)
      → traverse f (range_from 0 n) ≡ ok ys
      → (length ys ≡ n) × ((k : ℕ) (y : B) → get_elem? ys k ≡ some y → f k ≡ ok y)
  traverse-places n ys h =
      let (l, placed) = traverse-range 0 n ys h in
      (l, λ k y e. subst (λ i. f i ≡ ok y) (zero_plus k) (placed k y e))
    where
      zero_plus : (k : ℕ) → 0 + k ≡ k
      zero_plus k = omega arith

module _ {ℓ κ μ} {A : Type ℓ} {B : Type κ} {C : Type μ} (f : A → Result B) (g : B → Result C) where
  -- A loop of two steps that succeeds is a loop of the first and one of the second.
  pub traverse-split :
      (xs : List A) (ys : List C)
      → traverse (λ x. f x >>= g) xs ≡ ok ys
      → (zs : List B) × (traverse f xs ≡ ok zs) × (traverse g zs ≡ ok ys)
  traverse-split [] ys h = ([], refl, h)
  traverse-split (x ∷ xs) ys h =
      let (y, r, p, q, e) = traverse-cons (λ x. f x >>= g) x xs h in
      let (z, u, v) = >>=-eq-ok (f x) g p in
      let (zs, s, t) = traverse-split xs r q in (z ∷ zs, both z zs u s, rw (v, t, e))
    where
      both :
          (z : B) (zs : List B)
          → f x ≡ ok z
          → traverse f xs ≡ ok zs
          → traverse f (x ∷ xs) ≡ ok (z ∷ zs)
      both z zs u s = rw (u, s) refl

-- As many steps of `s` as start below `d`.
module _ (d s k : ℕ) where
  split : s * (d / s) + d % s ≡ d
  split = div-add-mod d s

  whole : d % s ≡ 0 → (k < d / s) ↔ (s * k < d)
  whole e = (down, up (omega arith))
    where
      down : k < d / s → s * k < d
      down l = omega (arith, split, e, mul-le-mul_left {m = suc k} {n = d / s} s l)

      up : (k < d / s) ⊎ (d / s ≤ k) → s * k < d → k < d / s
      up (inl l) h = l
      up (inr l) h = absurd (omega (arith, split, e, mul-le-mul_left s l))

  rounded_up : 0 < s → 0 < d % s → (k < d / s + 1) ↔ (s * k < d)
  rounded_up h e = (down, up (omega arith))
    where
      down : k < d / s + 1 → s * k < d
      down l = omega (arith, split, e, mul-le-mul_left {m = k} {n = d / s} s (omega arith))

      up : (k < d / s + 1) ⊎ (d / s + 1 ≤ k) → s * k < d → k < d / s + 1
      up (inl l) l' = l
      up (inr l) l' = absurd (
          omega
            (arith, split, mod-lt d h, mul-le-mul_left {m = suc (d / s)} {n = k} s (omega arith)))

  pub div_ceil_iff : 0 < s → (k < div_ceil d s) ↔ (s * k < d)
  div_ceil_iff h = elim (Bool-cases (ltb 0 (d % s))) [
    | inl e ↦ rw e (rounded_up h (ltb→lt _ _ e))
    | inr e ↦ rw e (whole (ground arith))
  ]
