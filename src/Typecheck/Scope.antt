-- ===== src/Typecheck/Scope.antt =====
-- Scopes in which no name is bound twice, and what a binding of new names leaves alone.
use knok.Base.{
  ◌≡◌, refl, sym, ◌∙◌, ap, subst, Bool, true, false, if◌then◌else◌, List, [], ◌∷◌, ◌++◌, reverse,
  Option, some, none, String, Bool-cases, inl, inr, arith,
}
use text.Mathlib.Text.{◌==◌ as str_eq}
use text.Mathlib.TextEquality.{eq_iff}
use mathlib.Core.List.{reverse-append}
use knok.Ast.Types.{TensorType}
use knok.Ast.Graph.{Input, Let}
use knok.Typecheck.Env.{
  TypeEnv, input_values, from_inputs, find_name, lookup, zip, push_bindings, or_else,
  find_name-append, lookup-push_bindings,
}

unfoldable pub is_named : String → List String → Bool
is_named name [] = false
is_named name (other ∷ names) = if str_eq other name then true else is_named name names

unfoldable pub input_names : List Input → List String
input_names [] = []
input_names (input ∷ inputs) = input.name ∷ input_names inputs

abbrev pub AllNew : List String → List String → Type 0
AllNew bound [] = Unit
AllNew bound (name ∷ names) = (is_named name bound ≡ false) × AllNew bound names

-- No binding rebinds a name that is in `bound`, or that an earlier binding bound.
abbrev pub NoShadowing : List String → List Let → Type 0
NoShadowing bound [] = Unit
NoShadowing bound (binding ∷ bindings) =
    AllNew bound binding.names × NoShadowing (bound ++ binding.names) bindings

-- Only names in `bound` are bound.
abbrev pub Covers : List String → TypeEnv → Type 0
Covers bound env = (name : String) → is_named name bound ≡ false → lookup env name ≡ none

-- What was found is found unchanged.
abbrev pub Extends : TypeEnv → TypeEnv → Type 0
Extends env after =
    (name : String) (t : TensorType) → lookup env name ≡ some t → lookup after name ≡ some t

pub is_named-append :
    (name : String) (xs ys : List String)
    → is_named name (xs ++ ys) ≡ (if is_named name xs then true else is_named name ys)
unfolding is_named
is_named-append name [] ys = refl
is_named-append name (x ∷ xs) ys = elim (Bool-cases (str_eq x name)) [
  | inl e ↦ rw e refl
  | inr e ↦ rw e (is_named-append name xs ys)
]

find_name-absent :
    (name : String) (names : List String) (tys : List TensorType)
    → is_named name names ≡ false
    → find_name name (reverse (zip names tys)) ≡ none
unfolding is_named zip find_name or_else
find_name-absent name [] tys h = refl
find_name-absent name (x ∷ names) [] h = refl
find_name-absent name (x ∷ names) (t ∷ tys) h = elim (Bool-cases (str_eq x name)) [
  | inl e ↦ absurd (clash (rw e at h))
  | inr e ↦
      ap (find_name name) (reverse-append ((x, t) ∷ []) (zip names tys))
      ∙ (find_name-append name (reverse (zip names tys)) ((x, t) ∷ [])
          ∙ rw (find_name-absent name names tys (rw e at h)) (rw e refl))
]
  where
    clash : true ≡ false → ⊥
    clash p = cc

-- A name that is bound is none of the new ones.
AllNew-absent :
    (bound names : List String) (name : String)
    → AllNew bound names
    → is_named name bound ≡ true
    → is_named name names ≡ false
unfolding is_named
AllNew-absent bound [] name new h = refl
AllNew-absent bound (x ∷ names) name new h = elim (Bool-cases (str_eq x name)) [
  | inl e ↦ absurd (clash (subst (λ n. is_named n bound ≡ false) ((eq_iff x name).0 e) new.0) h)
  | inr e ↦ rw e (AllNew-absent bound names name new.1 h)
]
  where
    clash : {b : Bool} → b ≡ false → b ≡ true → ⊥
    clash p q = cc

module _ (env : TypeEnv) (bound names : List String) (tys : List TensorType)
    (covers : Covers bound env) where
  pub push_bindings-Covers : Covers (bound ++ names) (push_bindings env names tys)
  unfolding or_else
  push_bindings-Covers name h =
      let e = is_named-append name bound names in
      let f = parts (is_named name bound) (is_named name names) (sym e ∙ h) in
      lookup-push_bindings env names tys name
      ∙ rw (find_name-absent name names tys f.1) (covers name f.0)
    where
      parts : (a b : Bool) → (if a then true else b) ≡ false → (a ≡ false) × (b ≡ false)
      parts a b h = ground arith

  pub push_bindings-Extends : AllNew bound names → Extends env (push_bindings env names tys)
  unfolding or_else
  push_bindings-Extends new name t h = elim (Bool-cases (is_named name bound)) [
    | inl old ↦
        lookup-push_bindings env names tys name
        ∙ rw (find_name-absent name names tys (AllNew-absent bound names name new old)) h
    | inr other ↦ absurd (clash (covers name other) h)
  ]
    where
      clash : {x : Option TensorType} → x ≡ none → x ≡ some t → ⊥
      clash p q = cc

abbrev input_tys : List Input → List TensorType
input_tys [] = []
input_tys (input ∷ inputs) = input.ty ∷ input_tys inputs

input_values-zip :
    (inputs : List Input) → input_values inputs ≡ zip (input_names inputs) (input_tys inputs)
unfolding input_values zip input_names
input_values-zip [] = refl
input_values-zip (input ∷ inputs) = ap (◌∷◌ (input.name, input.ty)) (input_values-zip inputs)

pub from_inputs-Covers : (inputs : List Input) → Covers (input_names inputs) (from_inputs inputs)
unfolding from_inputs lookup
from_inputs-Covers inputs name h =
    ap (λ values. find_name name (reverse values)) (input_values-zip inputs)
    ∙ find_name-absent name (input_names inputs) (input_tys inputs) h
