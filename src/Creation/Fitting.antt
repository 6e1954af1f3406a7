-- ===== src/Creation/Fitting.antt =====
-- The integer literals of crates/knok-core/src/ops/static_creation.rs: each prints a number of its type.
use knok.Base.{
  ℕ, ◌^◌, ◌-◌, ◌≡◌, sym, ap₂, ◌∙◌, Bool, false, List, [], ◌∷◌, map, String, get_elem?, some,
  some_injective, subst, ok, ok_injective, >>-eq-ok, traverse, traverse-cons, reject_if-eq-ok, Runs,
  >>-Runs, reject_if-Runs, zero, suc, arith,
}
use knok.Base.Ensures.{Ensures, weaken, of_Runs}
use knok.Ast.Types.{ElementType}
use knok.Creation.Int.{ℤ, pos, negsuc, ◌≤ℤ◌}
use knok.Creation.Numbers.{Numbers}
use knok.Creation.Literals.{integer_literal_for_elem, outside_i32, outside_i64}

-- The least and the greatest number of `i32` and of `i64`; the other types have no integer literals.
abbrev pub InElement : ElementType → ℤ → Type 0
InElement ElementType.i32 z = (negsuc (2 ^ 31 - 1) ≤ℤ z) × (z ≤ℤ pos (2 ^ 31 - 1))
InElement ElementType.i64 z = (negsuc (2 ^ 63 - 1) ≤ℤ z) × (z ≤ℤ pos (2 ^ 63 - 1))
InElement _ z = ⊥

module _ (n : Numbers) where
  pub integer_literal_lem :
      (elem : ElementType) (z : ℤ) (text : String)
      → integer_literal_for_elem n z elem ≡ ok text
      → InElement elem z × (text ≡ n.show_i128 z)
  unfolding integer_literal_for_elem
  integer_literal_lem ElementType.i32 z text h =
      let (a, b) = >>-eq-ok _ _ h in
      (inside (reject_if-eq-ok (outside_i32 z) _ a), sym (ok_injective b))
    where
      inside : outside_i32 z ≡ false → InElement ElementType.i32 z
      inside e = ground arith
  integer_literal_lem ElementType.i64 z text h =
      let (a, b) = >>-eq-ok _ _ h in
      (inside (reject_if-eq-ok (outside_i64 z) _ a), sym (ok_injective b))
    where
      inside : outside_i64 z ≡ false → InElement ElementType.i64 z
      inside e = ground arith
  integer_literal_lem ElementType.bool z text h = cc
  integer_literal_lem ElementType.f32 z text h = cc
  integer_literal_lem ElementType.f64 z text h = cc
  integer_literal_lem ElementType.f16 z text h = cc
  integer_literal_lem ElementType.bf16 z text h = cc

  pub integer_literal-Runs : (elem : ElementType) (z : ℤ) → Runs (integer_literal_for_elem n z elem)
  unfolding integer_literal_for_elem
  integer_literal-Runs ElementType.i32 z = >>-Runs _ _ (reject_if-Runs (outside_i32 z) _) tt
  integer_literal-Runs ElementType.i64 z = >>-Runs _ _ (reject_if-Runs (outside_i64 z) _) tt
  integer_literal-Runs ElementType.bool z = tt
  integer_literal-Runs ElementType.f32 z = tt
  integer_literal-Runs ElementType.f64 z = tt
  integer_literal-Runs ElementType.f16 z = tt
  integer_literal-Runs ElementType.bf16 z = tt

  pub integer_literal-Ensures :
      (c : Bool) (elem : ElementType) (z : ℤ)
      → Ensures c
          (λ text. InElement elem z × (text ≡ n.show_i128 z))
          (integer_literal_for_elem n z elem)
  integer_literal-Ensures c elem z =
      weaken (of_Runs c _ (integer_literal-Runs elem z))
        (λ text h. integer_literal_lem elem z text h)

  abbrev pub AllInElement : ElementType → List ℤ → Type 0
  AllInElement elem [] = Unit
  AllInElement elem (z ∷ zs) = InElement elem z × AllInElement elem zs

  pub integer_literals_lem :
      (elem : ElementType) (zs : List ℤ) (texts : List String)
      → traverse (λ z. integer_literal_for_elem n z elem) zs ≡ ok texts
      → AllInElement elem zs × (texts ≡ map n.show_i128 zs)
  integer_literals_lem elem [] texts h = (tt, sym (ok_injective h))
  integer_literals_lem elem (z ∷ zs) texts h =
      let (text, rest, p, q, e) = traverse-cons (λ z. integer_literal_for_elem n z elem) z zs h in
      let (a, b) = integer_literal_lem elem z text p in
      let (c, d) = integer_literals_lem elem zs rest q in ((a, c), sym e ∙ ap₂ ◌∷◌ b d)

  pub AllInElement-get :
      (elem : ElementType) (zs : List ℤ) (k : ℕ) {z : ℤ}
      → AllInElement elem zs
      → get_elem? zs k ≡ some z
      → InElement elem z
  AllInElement-get elem [] k a e = cc
  AllInElement-get elem (w ∷ zs) zero a e = subst (InElement elem) (some_injective e) a.0
  AllInElement-get elem (w ∷ zs) (suc k) a e = AllInElement-get elem zs k a.1 e
