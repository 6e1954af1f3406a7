-- ===== src/Creation/Eye.antt =====
-- `eye` of crates/knok-core/src/ops/static_creation.rs.
use knok.Base.{
  ℕ, Bool, ◌==◌, if◌then◌else◌, List, [], ◌∷◌, ◌++◌, String, range_from, Result, ok, ◌>>=◌, ◌>>◌,
}
use knok.Base.Usize.{mul_usize}
use knok.Base.Vec.{index}
use knok.Ast.Types.{ElementType, TensorType, zero_literal, one_literal}
use knok.Creation.Target.{validate_static_eye_target}
use knok.Creation.Literals.{allocate, string_size}

-- The loop over the columns of a row, and the loop over the rows.
unfoldable pub eye_row : ElementType → ℕ → List ℕ → List String
unfolding zero_literal one_literal
eye_row elem row [] = []
eye_row elem row (col ∷ cols) =
    (if row == col then one_literal elem else zero_literal elem) ∷ eye_row elem row cols

unfoldable pub eye_rows : ElementType → ℕ → List ℕ → List String
unfolding eye_row
eye_rows elem rows [] = []
eye_rows elem rows (row ∷ rest) = eye_row elem row (range_from 0 rows) ++ eye_rows elem rows rest

unfoldable pub static_eye_literals : Bool → TensorType → Result (List String)
unfolding validate_static_eye_target allocate eye_rows
static_eye_literals checks target = do
  validate_static_eye_target target
  rows ← index target.shape 0
  capacity ← mul_usize checks rows rows
  allocate string_size capacity
  ok (eye_rows target.elem rows (range_from 0 rows))
