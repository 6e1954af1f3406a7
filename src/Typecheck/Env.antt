-- ===== src/Typecheck/Env.antt =====
-- `TypeEnv` of crates/knok-core/src/typecheck.rs: the types of the names in scope.
use knok.Base.{
  ◌≡◌, refl, if◌then◌else◌, List, [], ◌∷◌, ◌++◌, reverse, Option, some, none, String, Bool-cases,
  inl, inr,
}
use knok.Ast.Types.{TensorType}
use knok.Ast.Graph.{Input}
use text.Mathlib.Text.{◌==◌ as str_eq}
use mathlib.Core.List.{reverse-append}

pub record TypeEnv : Type 0 where
  pub values : List (String × TensorType)

unfoldable pub input_values : List Input → List (String × TensorType)
input_values [] = []
input_values (input ∷ inputs) = (input.name, input.ty) ∷ input_values inputs

unfoldable pub from_inputs : List Input → TypeEnv
from_inputs inputs = record { values = input_values inputs }

-- `find_map` with the name as its test.
unfoldable pub find_name : String → List (String × TensorType) → Option TensorType
find_name name [] = none
find_name name ((candidate, ty) ∷ values) =
    if str_eq candidate name then some ty else find_name name values

unfoldable pub lookup : TypeEnv → String → Option TensorType
lookup env name = find_name name (reverse env.values)

unfoldable pub zip : List String → List TensorType → List (String × TensorType)
zip (name ∷ names) (ty ∷ tys) = (name, ty) ∷ zip names tys
zip _ _ = []

unfoldable pub push_bindings : TypeEnv → List String → List TensorType → TypeEnv
push_bindings env names tys = record { values = env.values ++ zip names tys }

unfoldable pub or_else : Option TensorType → Option TensorType → Option TensorType
or_else (some ty) rest = some ty
or_else none rest = rest

pub find_name-append :
    (name : String) (xs ys : List (String × TensorType))
    → find_name name (xs ++ ys) ≡ or_else (find_name name xs) (find_name name ys)
unfolding find_name or_else
find_name-append name [] ys = refl
find_name-append name ((candidate, ty) ∷ xs) ys = elim (Bool-cases (str_eq candidate name)) [
  | inl e ↦ rw e refl
  | inr e ↦ rw e (find_name-append name xs ys)
]

-- A name looked up after bindings were pushed has the type of the last of these bindings that has the
-- name, and, where none has it, the type it had before: later bindings shadow earlier ones.
pub lookup-push_bindings :
    (env : TypeEnv) (names : List String) (tys : List TensorType) (name : String)
    → lookup (push_bindings env names tys) name
      ≡ or_else (find_name name (reverse (zip names tys))) (lookup env name)
unfolding lookup push_bindings
lookup-push_bindings env names tys name =
    rw (reverse-append env.values (zip names tys))
      (find_name-append name (reverse (zip names tys)) (reverse env.values))
