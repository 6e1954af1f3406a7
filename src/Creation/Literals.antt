-- ===== src/Creation/Literals.antt =====
-- The literals that the static creations of crates/knok-core/src/ops/static_creation.rs return, and the
-- vectors that hold them.
use Prim.Native.String.{◌++◌ as ◌<>◌, len, find as find_text, slice as slice_text}
use knok.Base.{
  ℕ, ◌-◌, ◌*◌, ◌^◌, Bool, Option, none, some, String, Result, ok, err, panic, message, reject_if,
  ◌>>◌, if◌then◌else◌, leb, ◌||◌,
}
use knok.Ast.Types.{ElementType}
use knok.Creation.Int.{ℤ, pos, negsuc, ltb_ℤ}
use knok.Creation.Numbers.{Numbers}

-- A vector with room for so many elements of a size in bytes: more than `isize::MAX` bytes panic.
unfoldable pub allocate : ℕ → ℕ → Result (Unit {0})
allocate size count = if leb (size * count) (2 ^ 63 - 1) then ok tt else panic

-- `size_of` of `String`, `i128` and `f64`.
abbrev pub string_size : ℕ
string_size = 24

abbrev pub i128_size : ℕ
i128_size = 16

abbrev pub f64_size : ℕ
f64_size = 8

-- `value < i32::MIN as i128 || value > i32::MAX as i128`, and the same of i64.
abbrev pub outside_i32 : ℤ → Bool
outside_i32 z = ltb_ℤ z (negsuc (2 ^ 31 - 1)) || ltb_ℤ (pos (2 ^ 31 - 1)) z

abbrev pub outside_i64 : ℤ → Bool
outside_i64 z = ltb_ℤ z (negsuc (2 ^ 63 - 1)) || ltb_ℤ (pos (2 ^ 63 - 1)) z

unfoldable pub integer_literal_for_elem : (n : Numbers) → ℤ → ElementType → Result String
integer_literal_for_elem n value ElementType.i32 =
    reject_if (outside_i32 value) (message "integer literal does not fit in i32")
    >> ok (n.show_i128 value)
integer_literal_for_elem n value ElementType.i64 =
    reject_if (outside_i64 value) (message "integer literal does not fit in i64")
    >> ok (n.show_i128 value)
integer_literal_for_elem n value _ = err (message "integer literal target must be i32 or i64")

-- `text.find(pattern)`.
unfoldable pub text_find : String → String → Option ℕ
text_find text pattern =
    let place = find_text text pattern in if leb place (len text) then some place else none

-- `text.contains('.')`.
unfoldable pub has_point : String → Bool
has_point text = leb (find_text text ".") (len text)

-- `text.find('e').or_else(|| text.find('E'))`.
unfoldable pub exponent : String → Option ℕ
unfolding text_find
exponent text = elim (text_find text "e") [ some place ↦ some place | none ↦ text_find text "E" ]

unfoldable pub with_point : String → Option ℕ → String
unfolding has_point
with_point text (some place) =
    let digits = slice_text text 0 place in
    if has_point digits then text else digits <> ".0" <> slice_text text place (len text)
with_point text none = if has_point text then text else text <> ".0"

unfoldable pub float_literal : (n : Numbers) → n.double.Carrier → String
unfolding exponent with_point
float_literal n value =
    if n.double.eq value (n.double.of_nat 0)
    then "0.0"
    else let text = n.show_f64 value in with_point text (exponent text)
