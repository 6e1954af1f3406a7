-- ===== src/Creation/Int.antt =====
-- `i128` of crates/knok-core/src/ops/static_creation.rs: integers, and the operations of a width of 128
-- bits. An operation that leaves the width panics with overflow checks, and else wraps.
use knok.Base.{
  ℕ, zero, suc, ◌+◌, ◌-◌, ◌*◌, ◌/◌, ◌%◌, ◌^◌, ◌≤◌, ◌<◌, ◌≡◌, Bool, ltb, leb, if◌then◌else◌, Result,
  ok, panic, arith,
}

-- `negsuc n` is -(n + 1).
pub data ℤ : Type 0 where
  pos : ℕ → ℤ
  negsuc : ℕ → ℤ

abbrev pub pos_part : ℤ → ℕ
pos_part (pos n) = n
pos_part (negsuc n) = 0

abbrev pub neg_part : ℤ → ℕ
neg_part (pos n) = 0
neg_part (negsuc n) = suc n

-- `unsigned_abs`.
abbrev pub nat_abs : ℤ → ℕ
nat_abs (pos n) = n
nat_abs (negsuc n) = suc n

-- a - b, as an integer.
abbrev pub sub_ℕ : ℕ → ℕ → ℤ
sub_ℕ a b = if leb b a then pos (a - b) else negsuc (b - a - 1)

infixl 65 ◌+ℤ◌ ◌-ℤ◌
infixl 70 ◌*ℤ◌
infix 50 ◌≤ℤ◌ ◌<ℤ◌
unfoldable pub ◌+ℤ◌ : ℤ → ℤ → ℤ
a +ℤ b = sub_ℕ (pos_part a + pos_part b) (neg_part a + neg_part b)

unfoldable pub ◌-ℤ◌ : ℤ → ℤ → ℤ
a -ℤ b = sub_ℕ (pos_part a + neg_part b) (neg_part a + pos_part b)

unfoldable pub ◌*ℤ◌ : ℤ → ℤ → ℤ
a *ℤ b =
    sub_ℕ (pos_part a * pos_part b + neg_part a * neg_part b)
      (pos_part a * neg_part b + neg_part a * pos_part b)

-- `/` and `%` by a positive number: both round towards zero.
unfoldable pub tdiv : ℤ → ℕ → ℤ
tdiv (pos a) g = pos (a / g)
tdiv (negsuc a) g = sub_ℕ 0 (suc a / g)

unfoldable pub tmod : ℤ → ℕ → ℤ
tmod (pos a) g = pos (a % g)
tmod (negsuc a) g = sub_ℕ 0 (suc a % g)

abbrev pub ◌≤ℤ◌ : ℤ → ℤ → Type 0
a ≤ℤ b = pos_part a + neg_part b ≤ pos_part b + neg_part a

abbrev pub ◌<ℤ◌ : ℤ → ℤ → Type 0
a <ℤ b = pos_part a + neg_part b < pos_part b + neg_part a

abbrev pub ltb_ℤ : ℤ → ℤ → Bool
ltb_ℤ a b = ltb (pos_part a + neg_part b) (pos_part b + neg_part a)

abbrev pub leb_ℤ : ℤ → ℤ → Bool
leb_ℤ a b = leb (pos_part a + neg_part b) (pos_part b + neg_part a)

-- The place of the number among those of its sign: `pos n` and `negsuc n` fit into w bits if
-- n < 2 ^ (w - 1).
abbrev pub magnitude : ℤ → ℕ
magnitude (pos n) = n
magnitude (negsuc n) = n

abbrev pub half_i128 : ℕ
half_i128 = 2 ^ 127

abbrev pub i128_mod : ℕ
i128_mod = 2 ^ 128

-- The number of 128 bits in two's complement.
abbrev pub signed : ℕ → ℤ
signed r = if ltb r half_i128 then pos r else negsuc (i128_mod - 1 - r)

abbrev pub wrap : ℤ → ℤ
wrap (pos n) = signed (n % i128_mod)
wrap (negsuc n) = signed (i128_mod - 1 - n % i128_mod)

unfoldable pub fit_i128 : Bool → ℤ → Result ℤ
fit_i128 checks z =
    if ltb (magnitude z) half_i128 then ok z else if checks then panic else ok (wrap z)

unfoldable pub add_i128 : Bool → ℤ → ℤ → Result ℤ
unfolding fit_i128
add_i128 checks a b = fit_i128 checks (a +ℤ b)

unfoldable pub sub_i128 : Bool → ℤ → ℤ → Result ℤ
unfolding fit_i128
sub_i128 checks a b = fit_i128 checks (a -ℤ b)

unfoldable pub mul_i128 : Bool → ℤ → ℤ → Result ℤ
unfolding fit_i128
mul_i128 checks a b = fit_i128 checks (a *ℤ b)

unfoldable pub neg_i128 : Bool → ℤ → Result ℤ
unfolding fit_i128
neg_i128 checks a = fit_i128 checks (sub_ℕ (neg_part a) (pos_part a))

-- What the operations do to the two parts, which are numbers.
pub +ℤ_parts :
    (a b : ℤ)
    → pos_part (a +ℤ b) + neg_part a + neg_part b ≡ neg_part (a +ℤ b) + pos_part a + pos_part b
unfolding ◌+ℤ◌
+ℤ_parts a b = ground arith

pub -ℤ_parts :
    (a b : ℤ)
    → pos_part (a -ℤ b) + neg_part a + pos_part b ≡ neg_part (a -ℤ b) + pos_part a + neg_part b
unfolding ◌-ℤ◌
-ℤ_parts a b = ground arith

-- A product with a number, which is an index.
pub *ℤ-pos_part : (a : ℤ) (n : ℕ) → pos_part (a *ℤ pos n) ≡ pos_part a * n
unfolding ◌*ℤ◌
*ℤ-pos_part a n = ground arith

pub *ℤ-neg_part : (a : ℤ) (n : ℕ) → neg_part (a *ℤ pos n) ≡ neg_part a * n
unfolding ◌*ℤ◌
*ℤ-neg_part a n = ground arith

pub eq_of_parts : (a b : ℤ) → pos_part a + neg_part b ≡ pos_part b + neg_part a → a ≡ b
eq_of_parts a b h = ground arith

pub ruleset int_laws = (arith, +ℤ_parts, -ℤ_parts, eq_of_parts)
