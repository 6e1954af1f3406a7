-- ===== src/Creation/SplitMix.antt =====
-- The hash of crates/knok-core/src/ops/static_creation.rs that the static random creations draw from.
use Prim.Native.Nat.{bit_xor, bit_and}
use knok.Base.{ℕ, ◌+◌, ◌-◌, ◌*◌, ◌/◌, ◌%◌, ◌^◌}
use knok.Creation.Numbers.{Float}

abbrev pub u64_mod : ℕ
u64_mod = 2 ^ 64

unfoldable pub wrapping_add : ℕ → ℕ → ℕ
wrapping_add a b = (a + b) % u64_mod

unfoldable pub wrapping_mul : ℕ → ℕ → ℕ
wrapping_mul a b = a * b % u64_mod

-- `value ^ (value >> bits)`.
unfoldable pub xor_shifted : ℕ → ℕ → ℕ
xor_shifted value bits = bit_xor value (value / 2 ^ bits)

unfoldable pub splitmix64 : ℕ → ℕ
unfolding wrapping_add wrapping_mul xor_shifted
splitmix64 seed =
    let value = wrapping_add seed 11400714819323198485 in
    let mixed = wrapping_mul (xor_shifted value 30) 13787848793156543929 in
    xor_shifted (wrapping_mul (xor_shifted mixed 27) 10723151780598845931) 31

-- `unit_f64_from_u64` with 53 bits and `unit_f32_from_u64` with 24 bits.
unfoldable pub unit_from_u64 : (f : Float) → ℕ → ℕ → f.Carrier
unit_from_u64 f bits value =
    f.mul (f.of_nat (bit_and value (2 ^ bits - 1))) (f.div (f.of_nat 1) (f.of_nat (2 ^ bits)))
