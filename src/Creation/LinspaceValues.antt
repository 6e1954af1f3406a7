-- ===== src/Creation/LinspaceValues.antt =====
-- What a static `linspace` over integers holds.
use knok.Base.{
  ℕ, zero, suc, ◌-◌, ◌*◌, ◌/◌, ◌%◌, ◌≡◌, ◌⊎◌, inl, inr, refl, sym, ap, ap₂, subst, ◌∙◌, true,
  ==_iff, rejected, List, [], ◌∷◌, map, length, get_elem?, some, some_injective, String, ok,
  ok_injective, >>=-eq-ok, >>-eq-ok, reject_if-eq-ok, arith,
}
use knok.Base.Vec.{index, index-eq-ok}
use native.Mathlib.Nat.{div-add-mod', mul_right_comm}
use knok.Ast.Types.{ElementType, TensorType}
use knok.Ast.Graph.{Exprs}
use knok.Creation.Int.{
  ℤ, pos, negsuc, pos_part, neg_part, nat_abs, sub_ℕ, tdiv, tmod, ◌-ℤ◌, ◌*ℤ◌, sub_i128, *ℤ-pos_part,
  *ℤ-neg_part, eq_of_parts, int_laws,
}
use knok.Creation.Numbers.{Numbers}
use knok.Creation.Target.{validate_static_vector_target}
use knok.Creation.Params.{NumericParam, as_int, parse_numeric_params}
use knok.Creation.Literals.{allocate, i128_size}
use knok.Creation.Arange.{stepped}
use knok.Creation.Linspace.{
  integer_linspace_values, linspace_int, integer_linspace, linspace_literals,
  static_linspace_literals,
}
use knok.Creation.Shapes.{vector_shape}
use knok.Creation.Steps.{traverse-places}
use knok.Creation.Fitting.{AllInElement, integer_literals_lem}
use knok.Creation.Progression.{at_place, stepped-exact, sub_i128-exact}

neg_part-sub : (m : ℕ) → neg_part (sub_ℕ 0 m) ≡ m
neg_part-sub m = ground arith

pos_part-sub : (m : ℕ) → pos_part (sub_ℕ 0 m) ≡ 0
pos_part-sub m = ground arith

nat_abs-sub : (m : ℕ) → nat_abs (sub_ℕ 0 m) ≡ m
nat_abs-sub m = ground arith

-- A division without a remainder is exact.
exact_pos : (d : ℤ) (g : ℕ) → nat_abs (tmod d g) ≡ 0 → pos_part (tdiv d g) * g ≡ pos_part d
unfolding tmod tdiv
exact_pos (pos a) g h = omega (arith, div-add-mod' a g, h)
exact_pos (negsuc a) g h = rw (pos_part-sub (suc a / g)) (omega arith)

exact_neg : (d : ℤ) (g : ℕ) → nat_abs (tmod d g) ≡ 0 → neg_part (tdiv d g) * g ≡ neg_part d
unfolding tmod tdiv
exact_neg (pos a) g h = omega arith
exact_neg (negsuc a) g h =
    rw (neg_part-sub (suc a / g))
      (omega (arith, div-add-mod' (suc a) g, nat_abs-sub (suc a % g), h))

-- The values from `start` to `stop`: `(v - start) * (count - 1) = (stop - start) * k` at place k, so that
-- their distances are equal, and the first is `start` and the last `stop`.
pub record Linspace (start stop : ℤ) (count : ℕ) (values : List ℤ) : Type 0 where
  pub counted : length values ≡ count
  pub first : (v : ℤ) → get_elem? values 0 ≡ some v → v ≡ start
  pub evenly :
      (k : ℕ) (v : ℤ)
      → get_elem? values k ≡ some v
      → (v -ℤ start) *ℤ pos (count - 1) ≡ (stop -ℤ start) *ℤ pos k

module _ (start stop step : ℤ) (g : ℕ) (up : pos_part step * g ≡ pos_part (stop -ℤ start))
    (down : neg_part step * g ≡ neg_part (stop -ℤ start)) where
  first_place : at_place start step 0 ≡ start
  first_place = omega (int_laws, *ℤ-pos_part, *ℤ-neg_part)

  shift_back : (k : ℕ) → at_place start step k -ℤ start ≡ step *ℤ pos k
  shift_back k = omega int_laws

  scaled : (k : ℕ) → (step *ℤ pos k) *ℤ pos g ≡ (stop -ℤ start) *ℤ pos k
  scaled k = eq_of_parts _ _ (
      rw
        (
          *ℤ-pos_part (step *ℤ pos k) g,
          *ℤ-neg_part (step *ℤ pos k) g,
          *ℤ-pos_part step k,
          *ℤ-neg_part step k,
          *ℤ-pos_part (stop -ℤ start) k,
          *ℤ-neg_part (stop -ℤ start) k,
          sym up,
          sym down,
          mul_right_comm (pos_part step) k g,
          mul_right_comm (neg_part step) k g,
        )
        refl)

  evenly_placed : (k : ℕ) → (at_place start step k -ℤ start) *ℤ pos g ≡ (stop -ℤ start) *ℤ pos k
  evenly_placed k = rw (shift_back k) (scaled k)

-- With overflow checks the values of a `linspace` are evenly spaced from `start` to `stop`.
pub integer_linspace_values_lem :
    (start stop : ℤ) (count : ℕ) (values : List ℤ)
    → integer_linspace_values true start stop count ≡ ok values
    → Linspace start stop count values
unfolding integer_linspace_values
integer_linspace_values_lem start stop zero values h =
    subst (Linspace start stop 0) (ok_injective h)
      (record { counted = refl; first = λ v e. cc; evenly = λ k v e. cc })
integer_linspace_values_lem start stop (suc zero) values h =
    subst (Linspace start stop 1) (ok_injective h)
      (record { counted = refl; first = λ v e. sym (some_injective e); evenly = alone })
  where
    alone :
        (k : ℕ) (v : ℤ)
        → get_elem? (start ∷ []) k ≡ some v
        → (v -ℤ start) *ℤ pos 0 ≡ (stop -ℤ start) *ℤ pos k
    alone zero v e = omega (int_laws, *ℤ-pos_part, *ℤ-neg_part)
    alone (suc k) v e = cc
integer_linspace_values_lem start stop (suc (suc k)) values h =
    let (distance, p, h1) = >>=-eq-ok (sub_i128 true stop start) _ h in
    let (even, h2) = >>-eq-ok _ _ h1 in
    let (_, h3) = >>-eq-ok (allocate i128_size (suc (suc k))) _ h2 in
    placed distance (sub_i128-exact stop start p)
      ((==_iff _ _).0 (rejected _ (reject_if-eq-ok _ _ even)))
      (traverse-places (stepped true start (tdiv distance (suc k))) (suc (suc k)) values h3)
  where
    intervals : suc (suc k) - 1 ≡ suc k
    intervals = omega arith

    placed :
        (distance : ℤ)
        → distance ≡ stop -ℤ start
        → nat_abs (tmod distance (suc k)) ≡ 0
        → (length values ≡ suc (suc k))
          × ((i : ℕ) (v : ℤ)
              → get_elem? values i ≡ some v
              → stepped true start (tdiv distance (suc k)) i ≡ ok v)
        → Linspace start stop (suc (suc k)) values
    placed distance e even (l, at) =
        let step = tdiv distance (suc k) in
        let up = exact_pos distance (suc k) even ∙ ap pos_part e in
        let down = exact_neg distance (suc k) even ∙ ap neg_part e in
        record {
          counted = l;
          first = λ v p.
              stepped-exact start step 0 (at 0 v p) ∙ first_place start stop step (suc k) up down;
          evenly = λ i v p.
              ap₂ (λ x m. (x -ℤ start) *ℤ pos m) (stepped-exact start step i (at i v p)) intervals
              ∙ evenly_placed start stop step (suc k) up down i;
        }

module _ (n : Numbers) where
  linspace_int-eq :
      (p : NumericParam n) {z : ℤ} → linspace_int true n p ≡ ok z → p ≡ NumericParam.int z
  unfolding linspace_int as_int
  linspace_int-eq (NumericParam.int w) h = ap NumericParam.int (ok_injective h)
  linspace_int-eq (NumericParam.float x) h = cc

  -- The parameters are integers, and the literals print numbers of the type that are evenly spaced.
  abbrev pub IntegerLinspace :
      ElementType → ℕ → NumericParam n → NumericParam n → List String → Type 0
  IntegerLinspace elem count first last texts =
      (start : ℤ) × (stop : ℤ) × (values : List ℤ) × (first ≡ NumericParam.int start)
      × (last ≡ NumericParam.int stop)
      × (texts ≡ map n.show_i128 values)
      × AllInElement n elem values
      × Linspace start stop count values

  integer_linspace_lem :
      (elem : ElementType) (count : ℕ) (first last : NumericParam n) (texts : List String)
      → integer_linspace true n elem count first last ≡ ok texts
      → IntegerLinspace elem count first last texts
  unfolding integer_linspace
  integer_linspace_lem elem count first last texts h =
      let (start, a, h1) = >>=-eq-ok (linspace_int true n first) _ h in
      let (stop, b, h2) = >>=-eq-ok (linspace_int true n last) _ h1 in
      let (values, c, h3) = >>=-eq-ok (integer_linspace_values true start stop count) _ h2 in
      let (fits, shown) = integer_literals_lem n elem values texts h3 in
      (
        start,
        stop,
        values,
        linspace_int-eq first a,
        linspace_int-eq last b,
        shown,
        fits,
        integer_linspace_values_lem start stop count values c,
      )

  -- If a static `linspace` of an integer type succeeds with overflow checks, then its two parameters
  -- are integers, and its literals print numbers of the type, as many as the target's only dimension
  -- says, that are evenly spaced from the first parameter to the second.
  pub static_linspace_literals_lem :
      (target : TensorType) (args : Exprs) (texts : List String)
      → (target.elem ≡ ElementType.i32) ⊎ (target.elem ≡ ElementType.i64)
      → static_linspace_literals true n target args ≡ ok texts
      → (params : List (NumericParam n)) × (count : ℕ) × (first : NumericParam n)
        × (last : NumericParam n) × (parse_numeric_params true n "linspace" args 2 2 ≡ ok params)
        × (get_elem? params 0 ≡ some first)
        × (get_elem? params 1 ≡ some last)
        × (target.shape ≡ count ∷ [])
        × IntegerLinspace target.elem count first last texts
  unfolding static_linspace_literals linspace_literals
  static_linspace_literals_lem target args texts integral h =
      let (a, h1) = >>-eq-ok (validate_static_vector_target target "linspace") _ h in
      let (params, b, h2) = >>=-eq-ok (parse_numeric_params true n "linspace" args 2 2) _ h1 in
      let (first, c, h3) = >>=-eq-ok (index params 0) _ h2 in
      let (last, d, h4) = >>=-eq-ok (index params 1) _ h3 in
      let (count, e, h5) = >>=-eq-ok (index target.shape 0) _ h4 in
      (
        params,
        count,
        first,
        last,
        b,
        index-eq-ok params 0 c,
        index-eq-ok params 1 d,
        vector_shape target "linspace" a e,
        at_elem target.elem count first last integral h5,
      )
    where
      at_elem :
          (elem : ElementType) (count : ℕ) (first last : NumericParam n)
          → (elem ≡ ElementType.i32) ⊎ (elem ≡ ElementType.i64)
          → linspace_literals true n elem count first last ≡ ok texts
          → IntegerLinspace elem count first last texts
      at_elem elem count first last (inl e) h =
          subst (λ x. IntegerLinspace x count first last texts) (sym e)
            (integer_linspace_lem ElementType.i32 count first last texts (rw e at h))
      at_elem elem count first last (inr e) h =
          subst (λ x. IntegerLinspace x count first last texts) (sym e)
            (integer_linspace_lem ElementType.i64 count first last texts (rw e at h))
