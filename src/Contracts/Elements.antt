-- ===== src/Contracts/Elements.antt =====
-- Elementwise rules and the table of result types: crates/knok-core/src/ops/rules.rs.
use knok.Base.{ℕ, ◌≡◌, refl, Bool, true, List, product, ok}
use knok.Base.Ensures.{value_of}
use knok.Ast.Types.{TensorType, is_numeric, is_bool}
use knok.Ast.Op.{CallOp}
use knok.Ops.Broadcast.{Broadcasts}
use knok.Ops.Elementwise.{binary_result_type, where_result_type, reshape_rule, clip_rule}
use knok.Ops.Infer.{infer_call_results}
use knok.Ops.Safety.Elements.{
  Combines, binary_result_type-Ensures, where_result_type-Ensures, reshape_rule-Ensures,
  clip_rule-Ensures,
}
use knok.Ops.Safety.Arity.{elems, result_elems}
use knok.Ops.Safety.Infer.{infer_call_results-Ensures}

-- With overflow checks, a reshape that is accepted returns its target, which has the input's
-- element type and exactly as many elements.
pub reshape_rule_lem :
    (input target out : TensorType)
    → reshape_rule true input target ≡ ok out
    → (out ≡ target) × (input.elem ≡ target.elem) × (product input.shape ≡ product target.shape)
reshape_rule_lem input target out h =
    let (o, e, n) = value_of (reshape_rule-Ensures true input target) h in (o, e, n refl)

module _ (c : Bool) where
  -- With or without overflow checks, whenever an operation is accepted, its results have the element
  -- types that the table `result_elems` gives.
  pub infer_call_results_elems :
      (op : CallOp) (args outs : List TensorType)
      → infer_call_results c op args ≡ ok outs
      → elems outs ≡ result_elems op args
  infer_call_results_elems op args outs h = value_of (infer_call_results-Ensures c op args) h

  -- An arithmetic operation that is accepted has operands of one numeric element type, which the
  -- result keeps, and the result has their common broadcast shape.
  pub binary_result_type_lem :
      (l r out : TensorType)
      → binary_result_type c l r ≡ ok out
      → (is_numeric l.elem ≡ true) × (l.elem ≡ r.elem) × Combines l.elem l r out
  binary_result_type_lem l r out h = value_of (binary_result_type-Ensures c l r) h

  -- A `where` that is accepted has a `bool` condition and values of one element type, which the
  -- result keeps; the values broadcast together, and the condition with them.
  pub where_result_type_lem :
      (condition l r out : TensorType)
      → where_result_type c condition l r ≡ ok out
      → (is_bool condition.elem ≡ true)
        × (l.elem ≡ r.elem)
        × (out.elem ≡ l.elem)
        × ((values : List ℕ) × Broadcasts l.shape r.shape values
            × Broadcasts condition.shape values out.shape)
  where_result_type_lem condition l r out h = value_of (where_result_type-Ensures c condition l r) h

  -- A clip that is accepted keeps the input's element type, and broadcasts the input with the lower
  -- bound and then with the upper one.
  pub clip_rule_lem :
      (input low high out : TensorType)
      → clip_rule c input low high ≡ ok out
      → (out.elem ≡ input.elem)
        × ((s : List ℕ) × Broadcasts input.shape low.shape s × Broadcasts s high.shape out.shape)
  clip_rule_lem input low high out h = value_of (clip_rule-Ensures c input low high) h
