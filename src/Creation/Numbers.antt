-- ===== src/Creation/Numbers.antt =====
-- What crates/knok-core/src/ops/static_creation.rs takes from Rust's core library: IEEE numbers, and the
-- parsing and printing of numbers. They are parameters of the model.
use knok.Base.{ℕ, Bool, Option, String}
use knok.Creation.Int.{ℤ}

-- One of the types `f32` and `f64`.
pub record Float : Type 1 where
  pub Carrier : Type 0
  -- How many bits a number has.
  pub width : ℕ
  -- `as f32` or `as f64` of an unsigned number.
  pub of_nat : ℕ → Carrier
  pub neg : Carrier → Carrier
  pub add : Carrier → Carrier → Carrier
  pub sub : Carrier → Carrier → Carrier
  pub mul : Carrier → Carrier → Carrier
  pub div : Carrier → Carrier → Carrier
  -- `<`, `<=` and `==`: all are false on NaN.
  pub lt : Carrier → Carrier → Bool
  pub le : Carrier → Carrier → Bool
  pub eq : Carrier → Carrier → Bool
  pub is_finite : Carrier → Bool
  pub neg_infinity : Carrier
  pub to_bits : Carrier → ℕ
  pub from_bits : ℕ → Carrier

pub record Numbers : Type 1 where
  pub single : Float
  pub double : Float
  -- `as f64` of an `i128`, and the conversions between the two types.
  pub of_int : ℤ → double.Carrier
  pub to_f32 : double.Carrier → single.Carrier
  pub to_f64 : single.Carrier → double.Carrier
  pub ceil : double.Carrier → double.Carrier
  -- `as usize`, which saturates.
  pub to_usize : double.Carrier → ℕ
  -- `str::parse`, without the error's text, and `to_string`.
  pub parse_i128 : String → Option ℤ
  pub parse_f64 : String → Option double.Carrier
  pub show_i128 : ℤ → String
  pub show_f64 : double.Carrier → String
