-- ===== src/Ast/Types.antt =====
-- crates/knok-core/src/ast.rs: element types, tensor types, axis selections and the static options
-- of convolutions and pools.
use knok.Base.{
  ℕ, ◌≡◌, refl, ◌↔◌, Bool, true, false, not, ◌&&◌, List, [], ◌∷◌, String, length, ◌==◌, ==_iff,
  ==_refl, arith,
}

pub data ElementType : Type 0 where
  bool f32 f64 f16 bf16 i32 i64 : ElementType

unfoldable pub is_float : ElementType → Bool
is_float f32 = true
is_float f64 = true
is_float f16 = true
is_float bf16 = true
is_float _ = false

unfoldable pub is_bool : ElementType → Bool
is_bool bool = true
is_bool _ = false

unfoldable pub is_numeric : ElementType → Bool
unfolding is_bool
is_numeric e = not (is_bool e)

unfoldable pub zero_literal : ElementType → String
zero_literal bool = "0"
zero_literal i32 = "0"
zero_literal i64 = "0"
zero_literal _ = "0.0"

unfoldable pub one_literal : ElementType → String
one_literal bool = "1"
one_literal i32 = "1"
one_literal i64 = "1"
one_literal _ = "1.0"

-- The derived `PartialEq` of the element types, of shapes and of tensor types.
unfoldable pub elem_eq : ElementType → ElementType → Bool
elem_eq bool bool = true
elem_eq f32 f32 = true
elem_eq f64 f64 = true
elem_eq f16 f16 = true
elem_eq bf16 bf16 = true
elem_eq i32 i32 = true
elem_eq i64 i64 = true
elem_eq _ _ = false

unfoldable pub shape_eq : List ℕ → List ℕ → Bool
shape_eq [] [] = true
shape_eq (x ∷ xs) (y ∷ ys) = x == y && shape_eq xs ys
shape_eq _ _ = false

pub record TensorType : Type 0 where
  pub elem : ElementType
  pub shape : List ℕ

unfoldable pub rank : TensorType → ℕ
rank t = length t.shape

unfoldable pub type_eq : TensorType → TensorType → Bool
unfolding elem_eq shape_eq
type_eq s t = elem_eq s.elem t.elem && shape_eq s.shape t.shape

unfoldable pub types_eq : List TensorType → List TensorType → Bool
unfolding type_eq
types_eq [] [] = true
types_eq (x ∷ xs) (y ∷ ys) = type_eq x y && types_eq xs ys
types_eq _ _ = false

-- An axis, or all of them.
pub data AxisSpec : Type 0 where
  all : AxisSpec
  one : ℕ → AxisSpec

pub record Padding2d : Type 0 where
  pub top : ℕ
  pub bottom : ℕ
  pub left : ℕ
  pub right : ℕ

-- A pair holds the height's number and then the width's.
pub record Conv2dOptions : Type 0 where
  pub padding : Padding2d
  pub stride : ℕ × ℕ
  pub dilation : ℕ × ℕ
  pub groups : ℕ

pub record Pool2dOptions : Type 0 where
  pub kernel : ℕ × ℕ
  pub padding : Padding2d
  pub stride : ℕ × ℕ
  pub dilation : ℕ × ℕ

pub elem_eq_iff : (a b : ElementType) → (elem_eq a b ≡ true) ↔ (a ≡ b)
unfolding elem_eq
elem_eq_iff a b = (sound a b, λ e. rw e (self b))
  where
    self : (a : ElementType) → elem_eq a a ≡ true
    self bool = refl
    self f32 = refl
    self _ = refl

    sound : (a b : ElementType) → elem_eq a b ≡ true → a ≡ b
    sound a b h = ground arith

pub shape_eq_sound : (xs ys : List ℕ) → shape_eq xs ys ≡ true → xs ≡ ys
unfolding shape_eq
shape_eq_sound [] [] h = refl
shape_eq_sound [] (y ∷ ys) h = cc
shape_eq_sound (x ∷ xs) [] h = cc
shape_eq_sound (x ∷ xs) (y ∷ ys) h = ground (arith, ==_iff x y, shape_eq_sound xs ys)

pub shape_eq_refl : (xs : List ℕ) → shape_eq xs xs ≡ true
unfolding shape_eq
shape_eq_refl [] = refl
shape_eq_refl (x ∷ xs) = rw (==_refl x) (shape_eq_refl xs)

pub type_eq_sound : (s t : TensorType) → type_eq s t ≡ true → s ≡ t
unfolding type_eq
type_eq_sound s t h = ground (arith, elem_eq_iff s.elem t.elem, shape_eq_sound s.shape t.shape)

pub type_eq_refl : (t : TensorType) → type_eq t t ≡ true
unfolding type_eq
type_eq_refl t = rw ((elem_eq_iff t.elem t.elem).1 refl) (shape_eq_refl t.shape)

pub types_eq_sound : (xs ys : List TensorType) → types_eq xs ys ≡ true → xs ≡ ys
unfolding types_eq
types_eq_sound [] [] h = refl
types_eq_sound [] (y ∷ ys) h = cc
types_eq_sound (x ∷ xs) [] h = cc
types_eq_sound (x ∷ xs) (y ∷ ys) h = ground (arith, type_eq_sound x y, types_eq_sound xs ys)

pub types_eq_refl : (xs : List TensorType) → types_eq xs xs ≡ true
unfolding types_eq
types_eq_refl [] = refl
types_eq_refl (x ∷ xs) = rw (type_eq_refl x) (types_eq_refl xs)
