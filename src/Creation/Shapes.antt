-- ===== src/Creation/Shapes.antt =====
-- The shapes that the target checks of crates/knok-core/src/ops/static_creation.rs let through.
use knok.Base.{
  ℕ, ◌≡◌, ap, ==_iff, rejected, sym, ◌∙◌, List, [], ◌∷◌, length, get_elem?, some, some_injective,
  String, ok, >>=-eq-ok, >>-eq-ok, reject_if-eq-ok, ok_injective, arith,
}
use knok.Base.Vec.{index, index-eq-ok}
use knok.Ast.Types.{TensorType, rank}
use knok.Creation.Target.{validate_static_vector_target, validate_static_eye_target}

one_dim :
    (shape : List ℕ) {count : ℕ}
    → length shape ≡ 1
    → get_elem? shape 0 ≡ some count
    → shape ≡ count ∷ []
one_dim [] l e = cc
one_dim (d ∷ []) l e = ap (λ x. x ∷ []) (some_injective e)
one_dim (d ∷ d' ∷ shape) l e = absurd (omega arith)

two_dims :
    (shape : List ℕ) {rows cols : ℕ}
    → length shape ≡ 2
    → get_elem? shape 0 ≡ some rows
    → get_elem? shape 1 ≡ some cols
    → shape ≡ rows ∷ cols ∷ []
two_dims [] l e f = cc
two_dims (d ∷ []) l e f = cc
two_dims (d ∷ d' ∷ []) l e f = λ i. some_injective e i ∷ some_injective f i ∷ []
two_dims (d ∷ d' ∷ d'' ∷ shape) l e f = absurd (omega arith)

pub vector_rank :
    (target : TensorType) (op_name : String)
    → validate_static_vector_target target op_name ≡ ok tt
    → length target.shape ≡ 1
unfolding validate_static_vector_target rank
vector_rank target op_name a =
    let (_, one) = >>-eq-ok _ _ a in (==_iff _ _).0 (rejected _ (reject_if-eq-ok _ _ one))

pub eye_rank :
    (target : TensorType) → validate_static_eye_target target ≡ ok tt → length target.shape ≡ 2
unfolding validate_static_eye_target rank
eye_rank target a =
    let (two, _) = >>-eq-ok _ _ a in (==_iff _ _).0 (rejected _ (reject_if-eq-ok _ _ two))

-- The vector that a check let through has the one dimension that is read.
pub vector_shape :
    (target : TensorType) (op_name : String) {count : ℕ}
    → validate_static_vector_target target op_name ≡ ok tt
    → index target.shape 0 ≡ ok count
    → target.shape ≡ count ∷ []
vector_shape target op_name a d =
    one_dim target.shape (vector_rank target op_name a) (index-eq-ok target.shape 0 d)

-- And the matrix is square.
pub eye_shape :
    (target : TensorType) {rows : ℕ}
    → validate_static_eye_target target ≡ ok tt
    → index target.shape 0 ≡ ok rows
    → target.shape ≡ rows ∷ rows ∷ []
unfolding validate_static_eye_target
eye_shape target a d =
    let (_, a1) = >>-eq-ok _ _ a in
    let (rows, p, a2) = >>=-eq-ok (index target.shape 0) _ a1 in
    let (columns, q, square) = >>=-eq-ok (index target.shape 1) _ a2 in
    let e = (==_iff rows columns).0 (rejected _ (reject_if-eq-ok _ _ square)) in
    two_dims target.shape (eye_rank target a) (index-eq-ok target.shape 0 d)
      (index-eq-ok target.shape 1 q ∙ ap some (sym e ∙ ok_injective (sym p ∙ d)))
