-- ===== src/Contracts/Accepts.antt =====
-- Which slices and paddings crates/knok-core/src/ops/rules.rs accepts.
use knok.Base.{
  ℕ, suc, ◌+◌, ◌<◌, ◌≤◌, ◌≡◌, refl, Bool, true, false, not, ◌||◌, List, [], ◌∷◌, length, ok, ltb,
  ==_iff, arith,
}
use knok.Base.Usize.{usize_mod, add_usize-exact}
use knok.Ast.Types.{TensorType, rank, elem_eq_iff}
use knok.Ops.Layout.{slice_rounds, validate_slice, pad_rounds, validate_pad}
use knok.Ops.Safety.Layouts.{Within}

-- Every dimension is a `usize`.
abbrev pub Representable : List ℕ → Type 0
Representable [] = Unit
Representable (dim ∷ dims) = (dim < usize_mod) × Representable dims

not_over : (dim end : ℕ) → end ≤ dim → ltb dim end ≡ false
not_over dim end h = ground arith

both : (a b : Bool) → a ≡ true → b ≡ true → (not a || not b) ≡ false
both a b p q = rw p (rw q refl)

module _ (c : Bool) where
  slice_rounds-Within :
      (axis : ℕ) (starts sizes dims : List ℕ)
      → Within starts sizes dims
      → Representable dims
      → slice_rounds c axis starts sizes dims ≡ ok tt
  unfolding slice_rounds
  slice_rounds-Within axis [] sizes dims w r = refl
  slice_rounds-Within axis (start ∷ starts) [] dims w r = refl
  slice_rounds-Within axis (start ∷ starts) (size ∷ sizes) [] w r = refl
  slice_rounds-Within axis (start ∷ starts) (size ∷ sizes) (dim ∷ dims) (h, w) (lt, r) =
      rw (add_usize-exact c start size (omega arith))
        (rw (not_over dim (start + size) h) (slice_rounds-Within (suc axis) starts sizes dims w r))

  pad_rounds-Within :
      (axis : ℕ) (dims targets lows : List ℕ)
      → Within dims lows targets
      → Representable targets
      → pad_rounds c axis dims targets lows ≡ ok tt
  unfolding pad_rounds
  pad_rounds-Within axis [] targets lows w r = refl
  pad_rounds-Within axis (dim ∷ dims) [] lows w r = refl
  pad_rounds-Within axis (dim ∷ dims) (target ∷ targets) [] w r = refl
  pad_rounds-Within axis (dim ∷ dims) (target ∷ targets) (low ∷ lows) (h, w) (lt, r) =
      rw (add_usize-exact c dim low (omega arith))
        (rw (not_over target (dim + low) h) (pad_rounds-Within (suc axis) dims targets lows w r))

  -- With or without overflow checks, a slice is accepted if its target has the input's element type
  -- and rank, it has one start per dimension, every window lies inside its dimension, and the
  -- input's dimensions are 64-bit numbers.
  pub validate_slice-Within :
      (input target : TensorType) (starts : List ℕ)
      → input.elem ≡ target.elem
      → length input.shape ≡ length target.shape
      → length starts ≡ length input.shape
      → Within starts target.shape input.shape
      → Representable input.shape
      → validate_slice c input target starts ≡ ok tt
  unfolding validate_slice rank
  validate_slice-Within input target starts e l s w r = rw ((elem_eq_iff _ _).1 e) (
      rw (both _ _ ((==_iff _ _).1 l) ((==_iff _ _).1 s))
        (slice_rounds-Within 0 starts target.shape input.shape w r))

  -- With or without overflow checks, a padding is accepted if its target has the input's element
  -- type and rank, it has one low edge per dimension, the moved input lies inside the target, and
  -- the target's dimensions are 64-bit numbers.
  pub validate_pad-Within :
      (input target : TensorType) (lows : List ℕ)
      → input.elem ≡ target.elem
      → length input.shape ≡ length target.shape
      → length lows ≡ length input.shape
      → Within input.shape lows target.shape
      → Representable target.shape
      → validate_pad c input target lows ≡ ok tt
  unfolding validate_pad rank
  validate_pad-Within input target lows e l s w r = rw ((elem_eq_iff _ _).1 e) (
      rw (both _ _ ((==_iff _ _).1 l) ((==_iff _ _).1 s))
        (pad_rounds-Within 0 input.shape target.shape lows w r))
