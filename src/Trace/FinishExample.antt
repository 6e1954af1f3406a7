-- ===== src/Trace/FinishExample.antt =====
-- Tracing of a concrete graph.
use knok.Base.{◌≡◌, refl, false, List, [], ◌∷◌, Result, ok}
use knok.Ast.Types.{
  ElementType, TensorType, is_numeric, is_bool, type_eq, types_eq, elem_eq, shape_eq,
}
use knok.Ast.Op.{CallOp, BinaryOp}
use knok.Ast.Graph.{Expr, Exprs, Let, Input, TypedGraph}
use knok.Ast.Equality.{expr_eq}
use knok.Ops.Common.{
  expect_numeric_element, broadcast_shape_slices, broadcast_rounds, dim_from_trailing,
  broadcast_dim,
}
use knok.Base.Usize.{sub_usize}
use knok.Base.Vec.{index}
use knok.Typecheck.Env.{input_values, from_inputs, find_name, lookup, zip, push_bindings}
use knok.Typecheck.Cache.{
  get, cached_outputs, insert_after, insert, ensure_same_node_payload, outputs_of,
}
use knok.Typecheck.Results.{broadcast_shape, binary_result_type, single_output_type}
use knok.Typecheck.Rules.{
  var_ty, one_output, binary_ty, cached_outputs_of, insert_node, stored, found_or_checked,
  type_node_outputs, node_ty,
}
use knok.Typecheck.Walk.{tensor_ty, type_value_outputs, type_tensor_expr, type_let_value}
use knok.Typecheck.Scope.{input_names, is_named}
use knok.Typecheck.Graphs.{body_types, value_only, type_lets, type_body, type_graph, type_check}
use knok.Typecheck.Typed.{WellTyped}
use knok.Trace.Normalize.{
  find, collect_node, collect_nodes, collect_body, rewrite_node_refs, node_let, node_name,
  with_suffix, unused_name, unique_node_name, assign_names, let_bind_nodes,
}
use knok.Trace.Nodes.{Each, Reserved, WellNested}
use knok.Trace.Examples.{marks, marks_injective}
use knok.Trace.Finish.{TraceContext, input, finish, finish-WellTyped}

abbrev vector : TensorType
vector = record { elem = ElementType.f32; shape = 3 ∷ [] }

abbrev inputs : List Input
inputs = record { name = "x"; ty = vector } ∷ []

abbrev context : TraceContext
context = record { inputs = inputs }

registered : input "x" vector (record { inputs = [] }) ≡ (Expr.var "x", context)
unfolding input
registered = refl

abbrev doubled : Expr
doubled = Expr.binary BinaryOp.add (Expr.var "x") (Expr.var "x")

abbrev body : List Expr
body = Expr.node 1 doubled ∷ []

abbrev typed : TypedGraph
typed = record {
  name = "double";
  backend = "llvm-cpu";
  inputs = inputs;
  outputs = vector ∷ [];
  lets =
      record { names = "__knok_node_i" ∷ []; value = record { kind = doubled; tys = vector ∷ [] } }
      ∷ [];
  body = record { kind = Expr.var "__knok_node_i"; ty = vector } ∷ [];
}

abbrev accept : CallOp → Exprs → Result (Unit {0})
accept op args = ok tt

finished : finish false accept marks context "double" "llvm-cpu" body (vector ∷ []) ≡ ok typed
unfolding type_check type_graph type_lets type_body body_types value_only type_tensor_expr
    type_let_value tensor_ty type_value_outputs binary_ty var_ty one_output type_node_outputs
    found_or_checked cached_outputs_of insert_node stored cached_outputs insert insert_after get
    outputs_of ensure_same_node_payload expr_eq lookup push_bindings from_inputs input_values zip
    find_name binary_result_type broadcast_shape broadcast_shape_slices expect_numeric_element
    is_numeric is_bool elem_eq shape_eq type_eq types_eq broadcast_rounds dim_from_trailing
    sub_usize index broadcast_dim node_ty single_output_type finish let_bind_nodes collect_body
    collect_nodes collect_node find assign_names unique_node_name unused_name node_name with_suffix
    is_named node_let rewrite_node_refs input_names
finished = refl

nested : Each WellNested body
nested = (((tt, tt), (tt, tt)), tt)

scoped : Each (Reserved (input_names context.inputs)) body
scoped = unfold is_named input_names in ((refl, refl), tt)

finish-WellTyped_example :
    (lets : List Let) × (out : List Expr) × (let_bind_nodes marks body (input_names context.inputs)
      ≡ ok (lets, out))
    × WellTyped false accept
        (record { graph_signatures = []; current_graph = "double" })
        (record {
          name = "double";
          backend = "llvm-cpu";
          inputs = inputs;
          outputs = vector ∷ [];
          lets = lets;
          body = out;
        })
        typed
finish-WellTyped_example =
    finish-WellTyped false accept marks marks_injective context "double" "llvm-cpu" body
      (vector ∷ []) typed nested scoped finished
