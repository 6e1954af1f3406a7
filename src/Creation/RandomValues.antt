-- ===== src/Creation/RandomValues.antt =====
-- What a static random tensor of integers holds.
use knok.Base.{
  ℕ, ◌+◌, ◌%◌, ◌<◌, ◌≤◌, ◌≡◌, inl, inr, sym, ap, subst, ◌∙◌, Bool, true, false, false_not_true,
  ◌==◌, List, length, length-range_from, range_from, product, get_elem?, some, String, ok, ◌>>=◌,
  arith,
}
use knok.Base.Ensures.{
  Ensures, returns, ◌⟫◌, weaken, reject_if-Ensures, if-Ensures, traverse-Ensures, value_of,
  with_equation,
}
use native.Mathlib.Nat.{mod-lt}
use knok.Ast.Types.{ElementType, TensorType}
use knok.Ast.Graph.{Exprs}
use knok.Ops.Safety.Common.{element_count-Ensures}
use knok.Ops.Safety.Creations.{int_target-Ensures}
use knok.Creation.Int.{
  ℤ, pos, negsuc, pos_part, neg_part, nat_abs, magnitude, ◌+ℤ◌, ◌-ℤ◌, ◌≤ℤ◌, ◌<ℤ◌, ltb_ℤ, wrap,
  half_i128, i128_mod, add_i128, sub_i128, int_laws,
}
use knok.Creation.Overflow.{IsI128, Fitted, Fitted-fits, fit_i128-Ensures}
use knok.Creation.Numbers.{Numbers}
use knok.Creation.Literals.{integer_literal_for_elem}
use knok.Creation.Params.{parse_integer_bounds}
use knok.Creation.Random.{random_range, random_value, sample, static_random_int_literals}
use knok.Creation.Bounded.{parse_integer_bounds-Ensures}
use knok.Creation.Progression.{one_sided}
use knok.Creation.Fitting.{InElement, integer_literal-Ensures}

nat_abs_parts : (z : ℤ) → nat_abs z ≡ pos_part z + neg_part z
nat_abs_parts (pos a) = omega arith
nat_abs_parts (negsuc a) = omega arith

I128-parts : (z : ℤ) → IsI128 z → (pos_part z < half_i128) × (neg_part z ≤ half_i128)
I128-parts (pos d) h = (h, omega arith)
I128-parts (negsuc d) h = (omega arith, h)

parts-IsI128 : (z : ℤ) → pos_part z < half_i128 → neg_part z ≤ half_i128 → IsI128 z
parts-IsI128 (pos d) h k = h
parts-IsI128 (negsuc d) h k = k

-- What lies between two numbers of 128 bits is one.
between :
    (low high : ℤ) (k : ℕ) → IsI128 low → IsI128 high → low +ℤ pos k <ℤ high → IsI128 (low +ℤ pos k)
between low high k a b h =
    let v = low +ℤ pos k in
    parts-IsI128 v (omega (int_laws, one_sided v, h, I128-parts low a, I128-parts high b))
      (omega (int_laws, one_sided v, h, I128-parts low a, I128-parts high b))

-- The difference of two numbers in order is a positive one, and the numbers of 128 bits have one below
-- 2 ^ 128: if it does not fit, it wraps to a negative one.
difference :
    (low high : ℤ)
    → low <ℤ high
    → (0 < nat_abs (high -ℤ low)) × (low +ℤ pos (nat_abs (high -ℤ low)) ≡ high)
difference low high h = (
  omega (int_laws, nat_abs_parts (high -ℤ low)),
  omega (int_laws, nat_abs_parts (high -ℤ low), one_sided (high -ℤ low)),
)

wrap_negative :
    (z : ℤ)
    → neg_part z ≡ 0
    → pos_part z < i128_mod
    → half_i128 ≤ magnitude z
    → ltb_ℤ (wrap z) (pos 0) ≡ true
wrap_negative (pos d) e l h = ground arith
wrap_negative (negsuc d) e l h = absurd (omega arith)

wrapped_negative :
    (low high : ℤ)
    → IsI128 low
    → IsI128 high
    → low <ℤ high
    → half_i128 ≤ magnitude (high -ℤ low)
    → ltb_ℤ (wrap (high -ℤ low)) (pos 0) ≡ true
wrapped_negative low high a b h l =
    wrap_negative (high -ℤ low) (omega (int_laws, one_sided (high -ℤ low), h))
      (omega (int_laws, one_sided (high -ℤ low), h, I128-parts low a, I128-parts high b)) l

exact_difference :
    (c : Bool) (low high : ℤ) (d : ℤ)
    → IsI128 low
    → IsI128 high
    → low <ℤ high
    → ltb_ℤ d (pos 0) ≡ false
    → Fitted c (high -ℤ low) d
    → d ≡ high -ℤ low
exact_difference c low high d a b h e (_, inl p) = p
exact_difference c low high d a b h e (_, inr (_, l, p)) =
    false_not_true e (rw p (wrapped_negative low high a b h l))

-- The range is the exact distance, under either setting: one that does not fit is an error.
random_range-Ensures :
    (c : Bool) (low high : ℤ)
    → IsI128 low
    → IsI128 high
    → low <ℤ high
    → Ensures c (λ r. (0 < r) × (low +ℤ pos r ≡ high)) (random_range c low high)
unfolding random_range sub_i128
random_range-Ensures c low high a b h = fit_i128-Ensures c (high -ℤ low) ⟫ λ d f.
    reject_if-Ensures (ltb_ℤ d (pos 0)) _ ⟫ λ _ e. returns (
      subst (λ d. (0 < nat_abs d) × (low +ℤ pos (nat_abs d) ≡ high))
        (sym (exact_difference c low high d a b h e f)) (difference low high h))

random_value-Ensures :
    (c : Bool) (low high : ℤ) (range hash : ℕ)
    → IsI128 low
    → IsI128 high
    → 0 < range
    → low +ℤ pos range ≡ high
    → Ensures c (λ v. (low ≤ℤ v) × (v <ℤ high)) (random_value c low range hash)
unfolding random_value add_i128
random_value-Ensures c low high range hash a b l e =
    if-Ensures (range == 0) (λ z. absurd (ground arith))
      (λ _.
        let r = mod-lt hash l in
        weaken (fit_i128-Ensures c (low +ℤ pos (hash % range))) (λ v f.
          let p =
            Fitted-fits
              (between low high (hash % range) a b
                (omega (int_laws, ap pos_part e, ap neg_part e, r)))
              f in
          (rw p (omega int_laws), rw p (omega (int_laws, ap pos_part e, ap neg_part e, r)))))

-- `parse_range`: what `str::parse` returns for an `i128` is one.
module _ (c : Bool) (n : Numbers)
    (parse_range : (text : String) (z : ℤ) → n.parse_i128 text ≡ some z → IsI128 z) where
  -- A literal that prints a number from `low` up to `high`, without it, that is one of the type.
  abbrev pub Drawn : ElementType → ℤ → ℤ → String → Type 0
  Drawn elem low high text =
      (v : ℤ) × (text ≡ n.show_i128 v) × (low ≤ℤ v) × (v <ℤ high) × InElement elem v

  pub static_random_int-Ensures :
      (target : TensorType) (seed : ℕ) (args : Exprs)
      → Ensures c
          (λ texts.
            (low : ℤ) × (high : ℤ) × (parse_integer_bounds c n "static_random_int" args
              ≡ ok (low, high))
            × (c ≡ true → length texts ≡ product target.shape)
            × ((k : ℕ) (text : String)
                → get_elem? texts k ≡ some text
                → Drawn target.elem low high text))
          (static_random_int_literals c n target seed args)
  unfolding static_random_int_literals
  static_random_int-Ensures target seed args = int_target-Ensures c target _ ⟫ λ _ _.
      with_equation (parse_integer_bounds-Ensures c n parse_range _ args) ⟫ λ bounds b.
      let (low, high) = bounds in
      let ((a, a', l), e) = b in
      random_range-Ensures c low high a a' l ⟫ λ range r.
      element_count-Ensures c target ⟫ λ count counted.
      weaken
        (traverse-Ensures c (Drawn target.elem low high)
          (λ place. random_value c low range (sample seed place) >>= λ value.
            integer_literal_for_elem n value target.elem)
          (range_from 0 count)
          (λ place. random_value-Ensures c low high range (sample seed place) a a' r.0 r.1 ⟫ λ v h.
            weaken (integer_literal-Ensures n c target.elem v) (λ text i. (v, i.1, h.0, h.1, i.0))))
        (λ texts t. (low, high, e, (λ on. t.0 ∙ length-range_from 0 count ∙ counted on), t.1))

  -- If a static random tensor of integers is made, under either setting of the overflow checks, then
  -- each of its literals prints a number of the type that is not below the lower bound and is below
  -- the upper one, and with overflow checks there is one for each element of the target.
  pub static_random_int_literals_lem :
      (target : TensorType) (seed : ℕ) (args : Exprs) (texts : List String)
      → static_random_int_literals c n target seed args ≡ ok texts
      → (low : ℤ) × (high : ℤ) × (parse_integer_bounds c n "static_random_int" args
          ≡ ok (low, high))
        × (c ≡ true → length texts ≡ product target.shape)
        × ((k : ℕ) (text : String)
            → get_elem? texts k ≡ some text
            → Drawn target.elem low high text)
  static_random_int_literals_lem target seed args texts h =
      value_of (static_random_int-Ensures target seed args) h
