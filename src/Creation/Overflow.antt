-- ===== src/Creation/Overflow.antt =====
-- What the operations on `i128` return: a number of 128 bits, which is the exact one unless overflow
-- checks are off and it does not fit.
use knok.Base.{
  ◌≤◌, ◌<◌, ◌≡◌, ◌⊎◌, inl, inr, refl, Bool, true, false, ltb, ltb→lt, if◌then◌else◌, Bool-cases, ok,
  panic, arith,
}
use knok.Base.Ensures.{Ensures, returns, overflows}
use knok.Creation.Int.{ℤ, magnitude, half_i128, wrap, fit_i128}

abbrev pub IsI128 : ℤ → Type 0
IsI128 z = magnitude z < half_i128

wrap-IsI128 : (z : ℤ) → IsI128 (wrap z)
wrap-IsI128 z = ground arith

-- `w` is what an operation with the exact result `z` returns.
abbrev pub Fitted : Bool → ℤ → ℤ → Type 0
Fitted c z w = IsI128 w × ((w ≡ z) ⊎ ((c ≡ false) × (half_i128 ≤ magnitude z) × (w ≡ wrap z)))

pub fit_i128-Ensures : (c : Bool) (z : ℤ) → Ensures c (Fitted c z) (fit_i128 c z)
unfolding fit_i128
fit_i128-Ensures c z = elim (Bool-cases (ltb (magnitude z) half_i128)) [
  | inl e ↦ rw e (returns (ltb→lt _ _ e, inl refl))
  | inr e ↦ rw e (wrapped c (ground arith))
]
  where
    wrapped :
        (b : Bool)
        → half_i128 ≤ magnitude z
        → Ensures b (Fitted b z) (if b then panic else ok (wrap z))
    wrapped true h = overflows refl
    wrapped false h = returns (wrap-IsI128 z, inr (refl, h, refl))

-- With overflow checks, and for a number that fits, the result is the exact one.
pub Fitted-exact : {z w : ℤ} → Fitted true z w → w ≡ z
Fitted-exact (_, inl e) = e
Fitted-exact (_, inr (e, _, _)) = cc

pub Fitted-fits : {c : Bool} {z w : ℤ} → IsI128 z → Fitted c z w → w ≡ z
Fitted-fits h (_, inl e) = e
Fitted-fits h (_, inr (_, l, _)) = absurd (omega (arith, h, l))
