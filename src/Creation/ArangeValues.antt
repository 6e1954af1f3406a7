-- ===== src/Creation/ArangeValues.antt =====
-- What a static `arange` over integers holds.
use knok.Base.{
  ℕ, ◌<◌, ◌≡◌, ◌↔◌, ◌⊎◌, inl, inr, subst, true, ==_iff, rejected, ap, sym, ◌∙◌, ok_injective, List,
  [], ◌∷◌, map, length, get_elem?, some, String, ok, >>=-eq-ok, >>-eq-ok, reject_if-eq-ok,
}
use knok.Base.Vec.{index}
use knok.Ast.Types.{ElementType, TensorType}
use knok.Ast.Graph.{Exprs}
use knok.Creation.Int.{ℤ}
use knok.Creation.Numbers.{Numbers}
use knok.Creation.Target.{validate_static_vector_target}
use knok.Creation.Params.{NumericParam, as_int, parse_numeric_params}
use knok.Creation.Literals.{integer_literal_for_elem}
use knok.Creation.Arange.{
  integer_arange_len, stepped, arange_bounds, arange_int, same_length, integer_arange,
  arange_literals, static_arange_literals,
}
use knok.Creation.Shapes.{vector_shape}
use knok.Creation.Steps.{traverse-places, traverse-split}
use knok.Creation.Fitting.{InElement, AllInElement-get, integer_literals_lem}
use knok.Creation.Progression.{at_place, Before, stepped-exact, integer_arange_len_iff}

-- The integers of an `arange` of a type: each place has its value, and there are as many places as
-- values before `stop`.
pub record Arange (elem : ElementType) (start stop step : ℤ) (values : List ℤ) : Type 0 where
  pub in_element :
      (k : ℕ) (v : ℤ) → get_elem? values k ≡ some v → (v ≡ at_place start step k) × InElement elem v
  pub before_stop : (k : ℕ) → (k < length values) ↔ Before step (at_place start step k) stop

module _ (n : Numbers) where
  arange_int-eq : (p : NumericParam n) {z : ℤ} → arange_int true n p ≡ ok z → p ≡ NumericParam.int z
  unfolding arange_int as_int
  arange_int-eq (NumericParam.int w) h = ap NumericParam.int (ok_injective h)
  arange_int-eq (NumericParam.float x) h = cc

  -- The parameters are integers, and the literals print the values of the progression.
  abbrev pub IntegerArange :
      ElementType → ℕ → NumericParam n × NumericParam n × NumericParam n → List String → Type 0
  IntegerArange elem count bounds texts =
      (start : ℤ) × (stop : ℤ) × (step : ℤ) × (values : List ℤ) × (bounds
        ≡ (NumericParam.int start, NumericParam.int stop, NumericParam.int step))
      × (texts ≡ map n.show_i128 values)
      × (length values ≡ count)
      × Arange elem start stop step values

  integer_arange_lem :
      (elem : ElementType) (count : ℕ) (first last each : NumericParam n) (texts : List String)
      → integer_arange true n elem count first last each ≡ ok texts
      → IntegerArange elem count (first, last, each) texts
  unfolding integer_arange same_length
  integer_arange_lem elem count first last each texts h =
      let (start, a, h1) = >>=-eq-ok (arange_int true n first) _ h in
      let (stop, b, h2) = >>=-eq-ok (arange_int true n last) _ h1 in
      let (step, c, h3) = >>=-eq-ok (arange_int true n each) _ h2 in
      let (expected, d, h4) = >>=-eq-ok (integer_arange_len true start stop step) _ h3 in
      let (e, h5) = >>-eq-ok _ _ h4 in
      let (values, f, g) =
        traverse-split (stepped true start step) (λ v. integer_literal_for_elem n v elem) _ texts
          h5 in
      let (l, placed) = traverse-places (stepped true start step) count values f in
      let (fits, shown) = integer_literals_lem n elem values texts g in
      let counted : expected ≡ length values =
        (==_iff _ _).0 (rejected _ (reject_if-eq-ok _ _ e)) ∙ sym l in
      (
        start,
        stop,
        step,
        values,
        ap_bounds (arange_int-eq first a) (arange_int-eq last b) (arange_int-eq each c),
        shown,
        l,
        record {
          in_element = λ k v p.
              (stepped-exact start step k (placed k v p), AllInElement-get n elem values k fits p);
          before_stop = λ k.
              subst (λ m. (k < m) ↔ Before step (at_place start step k) stop) counted
                (integer_arange_len_iff start stop expected k step d);
        },
      )
    where
      ap_bounds :
          {a b c a' b' c' : NumericParam n}
          → a ≡ a'
          → b ≡ b'
          → c ≡ c'
          → ◌≡◌ {A = NumericParam n × NumericParam n × NumericParam n} (a, b, c) (a', b', c')
      ap_bounds p q r = λ i. (p i, q i, r i)

  -- If a static `arange` of an integer type succeeds with overflow checks, then its parameters are
  -- integers, and its literals print exactly the values start + step * k that lie before `stop`, in
  -- order, each of them a number of the type, as many as the target's only dimension says.
  pub static_arange_literals_lem :
      (target : TensorType) (args : Exprs) (texts : List String)
      → (target.elem ≡ ElementType.i32) ⊎ (target.elem ≡ ElementType.i64)
      → static_arange_literals true n target args ≡ ok texts
      → (params : List (NumericParam n)) × (count : ℕ) × (bounds : NumericParam n
          × NumericParam n
          × NumericParam n)
        × (parse_numeric_params true n "arange" args 1 3 ≡ ok params)
        × (arange_bounds true n params ≡ ok bounds)
        × (target.shape ≡ count ∷ [])
        × IntegerArange target.elem count bounds texts
  unfolding static_arange_literals arange_literals
  static_arange_literals_lem target args texts integral h =
      let (a, h1) = >>-eq-ok (validate_static_vector_target target "arange") _ h in
      let (params, b, h2) = >>=-eq-ok (parse_numeric_params true n "arange" args 1 3) _ h1 in
      let (bounds, c, h3) = >>=-eq-ok (arange_bounds true n params) _ h2 in
      let (count, d, h4) = >>=-eq-ok (index target.shape 0) _ h3 in
      (
        params,
        count,
        bounds,
        b,
        c,
        vector_shape target "arange" a d,
        at_elem target.elem count bounds integral h4,
      )
    where
      at_elem :
          (elem : ElementType) (count : ℕ)
          (bounds : NumericParam n × NumericParam n × NumericParam n)
          → (elem ≡ ElementType.i32) ⊎ (elem ≡ ElementType.i64)
          → arange_literals true n elem count bounds.0 bounds.1 bounds.2 ≡ ok texts
          → IntegerArange elem count bounds texts
      at_elem elem count bounds (inl e) h =
          subst (λ x. IntegerArange x count bounds texts) (sym e)
            (integer_arange_lem ElementType.i32 count bounds.0 bounds.1 bounds.2 texts (rw e at h))
      at_elem elem count bounds (inr e) h =
          subst (λ x. IntegerArange x count bounds texts) (sym e)
            (integer_arange_lem ElementType.i64 count bounds.0 bounds.1 bounds.2 texts (rw e at h))
