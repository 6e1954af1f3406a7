-- ===== src/Contracts/Examples/Accepts.antt =====
-- A slice and a padding that fit are accepted.
use knok.Base.{◌≡◌, refl, true, false, [], ◌∷◌, ok, arith}
use knok.Ast.Types.{ElementType, TensorType}
use knok.Ops.Layout.{validate_slice, validate_pad}
use knok.Contracts.Accepts.{validate_slice-Within, validate_pad-Within}

abbrev canvas : TensorType
canvas = record { elem = ElementType.i64; shape = 9 ∷ 5 ∷ [] }

abbrev patch : TensorType
patch = record { elem = ElementType.i64; shape = 4 ∷ 5 ∷ [] }

validate_slice-Within_example : validate_slice true canvas patch (5 ∷ 0 ∷ []) ≡ ok tt
validate_slice-Within_example =
    validate_slice-Within true canvas patch (5 ∷ 0 ∷ []) refl refl refl
      (omega arith, (omega arith, tt)) (omega arith, (omega arith, tt))

validate_pad-Within_example : validate_pad false patch canvas (2 ∷ 0 ∷ []) ≡ ok tt
validate_pad-Within_example =
    validate_pad-Within false patch canvas (2 ∷ 0 ∷ []) refl refl refl
      (omega arith, (omega arith, tt)) (omega arith, (omega arith, tt))
