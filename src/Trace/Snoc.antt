-- ===== src/Trace/Snoc.antt =====
-- One more binding at the end of a list of bindings.
use knok.Base.{
  ◌≡◌, ◌≢◌, refl, sym, ap, subst, ◌∙◌, String, List, [], ◌∷◌, ◌++◌, Bool-cases, inl, inr, Result,
  ok, ◌>>=◌, traverse, traverse-cons,
}
use text.Mathlib.Text.{◌==◌ as str_eq}
use text.Mathlib.TextEquality.{eq_iff}
use mathlib.Core.List.{append_assoc, append-nil}
use knok.Ast.Graph.{Expr, Let}
use knok.Typecheck.Scope.{AllNew, NoShadowing}
use knok.Trace.Meaning.{Interpretation, Values, bind_name, value_of_expr, after_lets}

-- The names that a list of bindings binds.
unfoldable pub let_names : List Let → List String
let_names [] = []
let_names (binding ∷ bindings) = binding.names ++ let_names bindings

pub traverse-snoc :
    {A B : Type 0} (f : A → Result B) (xs : List A) {ys : List B} {x : A} {y : B}
    → traverse f xs ≡ ok ys
    → f x ≡ ok y
    → traverse f (xs ++ (x ∷ [])) ≡ ok (ys ++ (y ∷ []))
traverse-snoc f [] {y} h k = rw k (ap (λ r. r >>= λ ys. ok (ys ++ (y ∷ []))) h)
traverse-snoc f (z ∷ xs) {y} h k =
    let (w, rest, p, q, e) = traverse-cons f z xs h in
    rw p (rw (traverse-snoc f xs q k) (ap (λ ys. ok (ys ++ (y ∷ []))) e))

pub NoShadowing-snoc :
    (reserved : List String) (bindings : List Let) (binding : Let)
    → NoShadowing reserved bindings
    → AllNew (reserved ++ let_names bindings) binding.names
    → NoShadowing reserved (bindings ++ (binding ∷ []))
unfolding let_names
NoShadowing-snoc reserved [] binding h k =
    (subst (λ bound. AllNew bound binding.names) (append-nil reserved) k, tt)
NoShadowing-snoc reserved (first ∷ bindings) binding h k = (
  h.0,
  NoShadowing-snoc (reserved ++ first.names) bindings binding h.1 (
      subst (λ bound. AllNew bound binding.names)
        (sym (append_assoc reserved first.names (let_names bindings))) k),
)

pub let_names-snoc :
    (bindings : List Let) (binding : Let)
    → let_names (bindings ++ (binding ∷ [])) ≡ let_names bindings ++ binding.names
unfolding let_names
let_names-snoc [] binding = append-nil binding.names
let_names-snoc (first ∷ bindings) binding =
    ap (λ names. first.names ++ names) (let_names-snoc bindings binding)
    ∙ sym (append_assoc first.names (let_names bindings) binding.names)

module _ {V : Type 0} (meaning : Interpretation V) where
  pub after_lets-snoc :
      (bindings : List Let) (values : Values V) (name : String) (e : Expr)
      → after_lets meaning values (bindings ++ (record { names = name ∷ []; value = e } ∷ []))
        ≡ bind_name name
            (value_of_expr meaning (after_lets meaning values bindings) e)
            (after_lets meaning values bindings)
  after_lets-snoc [] values name e = refl
  after_lets-snoc (first ∷ bindings) values name e = after_lets-snoc bindings _ name e

module _ {V : Type 0} where
  pub bind_name-same :
      (name : String) (v : V) (values : Values V) → bind_name name v values name ≡ v
  unfolding bind_name
  bind_name-same name v values = rw ((eq_iff name name).1 refl) refl

  pub bind_name-other :
      (name : String) (v : V) (values : Values V) (x : String)
      → name ≢ x
      → bind_name name v values x ≡ values x
  unfolding bind_name
  bind_name-other name v values x d = elim (Bool-cases (str_eq name x)) [
    | inl e ↦ absurd (d ((eq_iff name x).0 e))
    | inr e ↦ rw e refl
  ]
