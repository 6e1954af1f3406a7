-- ===== src/Typecheck/GraphExamples.antt =====
-- Type checking of concrete graphs.
use knok.Base.{◌↔◌, ◌≡◌, ◌≢◌, refl, false, List, [], ◌∷◌, Result, ok, panic, arith}
use knok.Ast.Types.{
  ElementType, TensorType, is_numeric, is_bool, type_eq, types_eq, elem_eq, shape_eq,
}
use knok.Ast.Op.{CallOp, BinaryOp}
use knok.Ast.Graph.{Expr, Exprs, Graph, Input, TypedGraph}
use knok.Ast.Equality.{expr_eq}
use knok.Ops.Common.{
  expect_numeric_element, broadcast_shape_slices, broadcast_rounds, dim_from_trailing,
  broadcast_dim,
}
use knok.Base.Usize.{sub_usize}
use knok.Base.Vec.{index}
use knok.Typecheck.Env.{input_values, from_inputs, find_name, lookup, zip, push_bindings}
use knok.Typecheck.Cache.{
  get, cached_outputs, insert_after, insert, ensure_same_node_payload, outputs_of,
}
use knok.Typecheck.Results.{broadcast_shape, binary_result_type, single_output_type}
use knok.Typecheck.Rules.{
  TypeChecker, var_ty, one_output, binary_ty, cached_outputs_of, insert_node, stored,
  found_or_checked, type_node_outputs, node_ty,
}
use knok.Typecheck.Walk.{tensor_ty, type_value_outputs, type_tensor_expr, type_let_value}
use knok.Typecheck.Typing.{HasOutputs}
use knok.Typecheck.Scope.{NoShadowing, input_names, is_named}
use knok.Typecheck.Graphs.{body_types, value_only, type_lets, type_body, type_graph, type_check}
use knok.Typecheck.Typed.{WellTyped}
use knok.Typecheck.WellTyped.{type_check_sound, type_check_total}
use knok.Creation.Call.{validate_static_creation_call}
use knok.Creation.Examples.{numbers, parse_range, two_by_two}
use knok.Typecheck.Exact.{no_types, type_value_outputs_iff}

abbrev vector : TensorType
vector = record { elem = ElementType.f32; shape = 3 ∷ [] }

abbrev doubled : Expr
doubled = Expr.binary BinaryOp.add (Expr.var "x") (Expr.var "x")

abbrev inputs : List Input
inputs = record { name = "x"; ty = vector } ∷ []

-- `let y = x + x` and the output `y`, where the sum is a node.
abbrev graph : Graph
graph = record {
  name = "double";
  backend = "llvm-cpu";
  inputs = inputs;
  outputs = vector ∷ [];
  lets = record { names = "y" ∷ []; value = Expr.node 1 doubled } ∷ [];
  body = Expr.var "y" ∷ [];
}

abbrev typed : TypedGraph
typed = record {
  name = "double";
  backend = "llvm-cpu";
  inputs = inputs;
  outputs = vector ∷ [];
  lets =
      record { names = "y" ∷ []; value = record { kind = Expr.node 1 doubled; tys = vector ∷ [] } }
      ∷ [];
  body = record { kind = Expr.var "y"; ty = vector } ∷ [];
}

abbrev accept : CallOp → Exprs → Result (Unit {0})
accept op args = ok tt

new : NoShadowing (input_names graph.inputs) graph.lets
unfolding input_names is_named
new = ((refl, tt), tt)

accepted : type_check false accept graph [] ≡ ok typed
unfolding type_check type_graph type_lets type_body body_types value_only type_tensor_expr
    type_let_value tensor_ty type_value_outputs binary_ty var_ty one_output type_node_outputs
    found_or_checked cached_outputs_of insert_node stored cached_outputs insert insert_after get
    outputs_of ensure_same_node_payload expr_eq lookup push_bindings from_inputs input_values zip
    find_name binary_result_type broadcast_shape broadcast_shape_slices expect_numeric_element
    is_numeric is_bool elem_eq shape_eq type_eq types_eq broadcast_rounds dim_from_trailing
    sub_usize index broadcast_dim node_ty single_output_type
accepted = refl

type_check_sound_example :
    WellTyped false accept (record { graph_signatures = []; current_graph = "double" }) graph typed
type_check_sound_example = type_check_sound false accept graph [] new typed accepted

-- A graph that returns a static identity matrix.
abbrev made : Graph
made = record {
  name = "eye";
  backend = "llvm-cpu";
  inputs = [];
  outputs = two_by_two ∷ [];
  lets = [];
  body = Expr.call (CallOp.eye two_by_two) Exprs.nil ∷ [];
}

type_check_total_example :
    type_check false (validate_static_creation_call false numbers) made [] ≢ panic
type_check_total_example =
    type_check_total numbers parse_range made [] tt (tt, ((omega arith, tt), tt))

abbrev number : TensorType
number = record { elem = ElementType.f64; shape = [] }

-- `let y = x + x; let x = 1.0; y`, where the sum is a node that the body repeats.
abbrev rebinding : Graph
rebinding = record {
  name = "rebind";
  backend = "llvm-cpu";
  inputs = inputs;
  outputs = vector ∷ [];
  lets =
      record { names = "y" ∷ []; value = Expr.node 1 doubled }
      ∷ record { names = "x" ∷ []; value = Expr.const "1.0" ElementType.f64 }
      ∷ [];
  body = Expr.node 1 doubled ∷ [];
}

abbrev rebound : TypedGraph
rebound = record {
  name = "rebind";
  backend = "llvm-cpu";
  inputs = inputs;
  outputs = vector ∷ [];
  lets =
      record { names = "y" ∷ []; value = record { kind = Expr.node 1 doubled; tys = vector ∷ [] } }
      ∷ record {
        names = "x" ∷ [];
        value = record { kind = Expr.const "1.0" ElementType.f64; tys = number ∷ [] };
      }
      ∷ [];
  body = record { kind = Expr.node 1 doubled; ty = vector } ∷ [];
}

-- Where a name is rebound, a repeated node keeps the types of the earlier scope.
stale : type_check false accept rebinding [] ≡ ok rebound
unfolding type_check type_graph type_lets type_body body_types value_only type_tensor_expr
    type_let_value tensor_ty type_value_outputs binary_ty var_ty one_output type_node_outputs
    found_or_checked cached_outputs_of insert_node stored cached_outputs insert insert_after get
    outputs_of ensure_same_node_payload expr_eq lookup push_bindings from_inputs input_values zip
    find_name binary_result_type broadcast_shape broadcast_shape_slices expect_numeric_element
    is_numeric is_bool elem_eq shape_eq type_eq types_eq broadcast_rounds dim_from_trailing
    sub_usize index broadcast_dim node_ty single_output_type
stale = refl

abbrev no_graphs : TypeChecker
no_graphs = record { graph_signatures = []; current_graph = "double" }

sum_runs :
    type_value_outputs false accept no_graphs (from_inputs inputs) doubled no_types
    ≡ ok (vector ∷ [], no_types)
unfolding tensor_ty type_value_outputs binary_ty var_ty one_output type_node_outputs
    found_or_checked cached_outputs_of insert_node stored cached_outputs insert insert_after get
    outputs_of ensure_same_node_payload expr_eq lookup push_bindings from_inputs input_values zip
    find_name binary_result_type broadcast_shape broadcast_shape_slices expect_numeric_element
    is_numeric is_bool elem_eq shape_eq type_eq types_eq broadcast_rounds dim_from_trailing
    sub_usize index broadcast_dim
sum_runs = refl

type_value_outputs_iff_example :
    (type_value_outputs false accept no_graphs (from_inputs inputs) doubled no_types
      ≡ ok (vector ∷ [], no_types))
    ↔ HasOutputs false accept no_graphs (from_inputs inputs) doubled (vector ∷ [])
type_value_outputs_iff_example =
    type_value_outputs_iff false accept no_graphs (from_inputs inputs) doubled (vector ∷ [])
      (tt, tt)

sum_typed : HasOutputs false accept no_graphs (from_inputs inputs) doubled (vector ∷ [])
sum_typed = type_value_outputs_iff_example.0 sum_runs
