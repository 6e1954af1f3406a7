-- ===== src/Ops/Safety/Arity.antt =====
-- The element types of every operation's results, and the argument counts that
-- crates/knok-core/src/ops/rules.rs checks before a rule runs.
use knok.Base.{ℕ, ◌≡◌, refl, ap, set, map, Bool, List, [], ◌∷◌, Result, arith}
use knok.Base.Vec.{index}
use knok.Base.Ensures.{Ensures, returns, ◌⟫◌}
use knok.Ast.Types.{ElementType, TensorType}
use knok.Ast.Op.{CallOp}
use knok.Ops.Common.{expect_arity}
use knok.Ops.Infer.{one_arg, two_args, three_args, single, checked}
use knok.Ops.Safety.Common.{expect_arity-Ensures}

unfoldable pub elems : List TensorType → List ElementType
elems [] = []
elems (t ∷ ts) = t.elem ∷ elems ts

-- One output of the first argument's element type for each section.
unfoldable pub section_elems : ElementType → List ℕ → List ElementType
section_elems e [] = []
section_elems e (s ∷ ss) = e ∷ section_elems e ss

-- The element types of an operation's results, by its kind: a predicate is `bool`, a place `i64`, a
-- creation has its target's, a choice that of its values, and any other the first argument's.
unfoldable pub result_elems : CallOp → List TensorType → List ElementType
unfolding section_elems
result_elems (CallOp.eye target) args = target.elem ∷ []
result_elems (CallOp.arange target) args = target.elem ∷ []
result_elems (CallOp.linspace target) args = target.elem ∷ []
result_elems (CallOp.static_random_uniform target seed) args = target.elem ∷ []
result_elems (CallOp.static_random_int target seed) args = target.elem ∷ []
result_elems (CallOp.random_uniform target) args = target.elem ∷ ElementType.i64 ∷ []
result_elems (CallOp.random_int target) args = target.elem ∷ ElementType.i64 ∷ []
result_elems CallOp.where_op (condition ∷ value ∷ args) = value.elem ∷ []
result_elems (CallOp.split axis sections) (a ∷ args) = section_elems a.elem sections
result_elems (CallOp.argmax axis) (a ∷ args) = ElementType.i64 ∷ []
result_elems (CallOp.argmin axis) (a ∷ args) = ElementType.i64 ∷ []
result_elems CallOp.is_nan (a ∷ args) = ElementType.bool ∷ []
result_elems CallOp.greater (a ∷ args) = ElementType.bool ∷ []
result_elems CallOp.greater_equal (a ∷ args) = ElementType.bool ∷ []
result_elems CallOp.less (a ∷ args) = ElementType.bool ∷ []
result_elems CallOp.less_equal (a ∷ args) = ElementType.bool ∷ []
result_elems CallOp.equal (a ∷ args) = ElementType.bool ∷ []
result_elems CallOp.not_equal (a ∷ args) = ElementType.bool ∷ []
result_elems CallOp.logical_and (a ∷ args) = ElementType.bool ∷ []
result_elems CallOp.logical_or (a ∷ args) = ElementType.bool ∷ []
result_elems CallOp.logical_xor (a ∷ args) = ElementType.bool ∷ []
result_elems CallOp.logical_not (a ∷ args) = ElementType.bool ∷ []
result_elems op (a ∷ args) = a.elem ∷ []
result_elems op [] = []

module _ (c : Bool) where
  module _ {A : Type 0} (op : CallOp) where
    pub one_arg-Ensures :
        (P : List TensorType → A → Type 0) {rule : TensorType → Result A} (args : List TensorType)
        → ((a : TensorType) → Ensures c (P (a ∷ [])) (rule a))
        → Ensures c (P args) (one_arg op args rule)
    unfolding one_arg expect_arity index
    one_arg-Ensures P [] h = Ensures.throws
    one_arg-Ensures P (a ∷ []) h = h a
    one_arg-Ensures P (a ∷ b ∷ rest) h =
        expect_arity-Ensures op (a ∷ b ∷ rest) 1 ⟫ λ _ e. absurd (omega arith)

    pub two_args-Ensures :
        (P : List TensorType → A → Type 0) {rule : TensorType → TensorType → Result A}
        (args : List TensorType)
        → ((a b : TensorType) → Ensures c (P (a ∷ b ∷ [])) (rule a b))
        → Ensures c (P args) (two_args op args rule)
    unfolding two_args expect_arity index
    two_args-Ensures P [] h = Ensures.throws
    two_args-Ensures P (a ∷ []) h = Ensures.throws
    two_args-Ensures P (a ∷ b ∷ []) h = h a b
    two_args-Ensures P (a ∷ b ∷ d ∷ rest) h =
        expect_arity-Ensures op (a ∷ b ∷ d ∷ rest) 2 ⟫ λ _ e. absurd (omega arith)

    pub three_args-Ensures :
        (P : List TensorType → A → Type 0) {rule : TensorType → TensorType → TensorType → Result A}
        (args : List TensorType)
        → ((a b d : TensorType) → Ensures c (P (a ∷ b ∷ d ∷ [])) (rule a b d))
        → Ensures c (P args) (three_args op args rule)
    unfolding three_args expect_arity index
    three_args-Ensures P [] h = Ensures.throws
    three_args-Ensures P (a ∷ []) h = Ensures.throws
    three_args-Ensures P (a ∷ b ∷ []) h = Ensures.throws
    three_args-Ensures P (a ∷ b ∷ d ∷ []) h = h a b d
    three_args-Ensures P (a ∷ b ∷ d ∷ e ∷ rest) h =
        expect_arity-Ensures op (a ∷ b ∷ d ∷ e ∷ rest) 3 ⟫ λ _ e. absurd (omega arith)

  pub single-Ensures :
      {r : Result TensorType} {es : List ElementType}
      → Ensures c (λ out. out.elem ∷ [] ≡ es) r
      → Ensures c (λ outs. elems outs ≡ es) (single r)
  unfolding single elems
  single-Ensures h = h ⟫ λ out e. returns e

  pub checked-Ensures :
      {check : Result (Unit {0})} {P : Unit {0} → Type 0} {es : List ElementType} (ty : TensorType)
      → Ensures c P check
      → ((u : Unit {0}) → P u → ty.elem ∷ [] ≡ es)
      → Ensures c (λ out. out.elem ∷ [] ≡ es) (checked check ty)
  unfolding checked
  checked-Ensures ty h k = h ⟫ λ u p. returns (k u p)

  -- A rule of one argument that returns a type with the element type `e` makes of its argument.
  pub unary :
      (op : CallOp) (args : List TensorType) {rule : TensorType → Result TensorType}
      → ((a : TensorType) → Ensures c (λ out. out.elem ∷ [] ≡ result_elems op (a ∷ [])) (rule a))
      → Ensures c (λ outs. elems outs ≡ result_elems op args) (single (one_arg op args rule))
  unary op args h =
      single-Ensures (one_arg-Ensures op (λ args out. out.elem ∷ [] ≡ result_elems op args) args h)

  pub binary :
      (op : CallOp) (args : List TensorType) {rule : TensorType → TensorType → Result TensorType}
      → ((a b : TensorType)
          → Ensures c (λ out. out.elem ∷ [] ≡ result_elems op (a ∷ b ∷ [])) (rule a b))
      → Ensures c (λ outs. elems outs ≡ result_elems op args) (single (two_args op args rule))
  binary op args h =
      single-Ensures (two_args-Ensures op (λ args out. out.elem ∷ [] ≡ result_elems op args) args h)

  pub ternary :
      (op : CallOp) (args : List TensorType)
      {rule : TensorType → TensorType → TensorType → Result TensorType}
      → ((a b d : TensorType)
          → Ensures c (λ out. out.elem ∷ [] ≡ result_elems op (a ∷ b ∷ d ∷ [])) (rule a b d))
      → Ensures c (λ outs. elems outs ≡ result_elems op args) (single (three_args op args rule))
  ternary op args h =
      single-Ensures
        (three_args-Ensures op (λ args out. out.elem ∷ [] ≡ result_elems op args) args h)

-- One equal element type makes equal one-element lists.
pub alone : {a b : ElementType} → a ≡ b → a ∷ [] ≡ b ∷ []
alone e = rw e refl

pub section_elems_of :
    (a : TensorType) (axis : ℕ) (sections : List ℕ)
    → elems (map (λ s. record a { shape = set a.shape axis s }) sections)
      ≡ section_elems a.elem sections
unfolding elems section_elems
section_elems_of a axis [] = refl
section_elems_of a axis (s ∷ sections) = ap (◌∷◌ a.elem) (section_elems_of a axis sections)
