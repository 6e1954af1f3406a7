-- ===== src/Creation/Masks.antt =====
-- A masked number of crates/knok-core/src/ops/static_creation.rs is not above its mask.
use Prim.Native.Nat.{bit_and, digits, min, bit_and-bitwise}
use knok.Base.{ℕ, zero, suc, ◌-◌, ◌/◌, ◌^◌, ◌≤◌, ◌<◌, subst, sym, arith}

digits_le : (n a b : ℕ) → digits (λ _. zero) min n a b ≤ b
digits_le zero a b = omega arith
digits_le (suc n) zero b = omega arith
digits_le (suc n) (suc a) b = let rest = digits_le n (suc a / 2) (b / 2) in omega arith

pub bit_and_le : (a b : ℕ) → bit_and a b ≤ b
bit_and_le a b = subst (λ n. n ≤ b) (sym (bit_and-bitwise a b)) (digits_le a a b)

power_positive : (n : ℕ) → 0 < 2 ^ n
power_positive zero = omega arith
power_positive (suc n) = let h = power_positive n in omega arith

pub bit_and_below : (a n : ℕ) → bit_and a (2 ^ n - 1) < 2 ^ n
bit_and_below a n = omega (arith, bit_and_le a (2 ^ n - 1), power_positive n)
