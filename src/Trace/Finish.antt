-- ===== src/Trace/Finish.antt =====
-- `TraceContext` of crates/knok-build/src/trace/context.rs: the inputs of a traced graph, and the graph.
use knok.Base.{ℕ, ◌≡◌, Bool, String, List, [], ◌∷◌, ◌++◌, Result, ok, ◌>>=◌, >>=-eq-ok}
use knok.Ast.Types.{TensorType}
use knok.Ast.Op.{CallOp}
use knok.Ast.Graph.{Expr, Exprs, Let, Input, TypedGraph}
use knok.Typecheck.Scope.{input_names}
use knok.Typecheck.Graphs.{type_check}
use knok.Typecheck.Typed.{WellTyped}
use knok.Typecheck.WellTyped.{type_check_sound}
use knok.Trace.Normalize.{let_bind_nodes}
use knok.Trace.Nodes.{Each, Reserved, WellNested}
use knok.Trace.Correct.{let_bind_nodes-NoShadowing}

pub record TraceContext : Type 0 where
  pub inputs : List Input

-- The registered input, and the expression of its handle.
unfoldable pub input : String → TensorType → TraceContext → Expr × TraceContext
input name ty context =
    (Expr.var name, record { inputs = context.inputs ++ (record { name = name; ty = ty } ∷ []) })

module _ (checks : Bool) (static_call : CallOp → Exprs → Result (Unit {0}))
    (decimal : ℕ → String) where
  -- `body` and `outputs` are the output's `exprs()` and `types()`.
  unfoldable pub finish :
      TraceContext → String → String → List Expr → List TensorType → Result TypedGraph
  unfolding let_bind_nodes type_check input_names
  finish context name backend body outputs = do
    bound ← let_bind_nodes decimal body (input_names context.inputs)
    type_check checks static_call
        (record {
          name = name;
          backend = backend;
          inputs = context.inputs;
          outputs = outputs;
          lets = bound.0;
          body = bound.1;
        })
        []

  -- If no node of the output is inside a node with its id, its variables are the context's inputs, and
  -- `decimal` prints different numbers differently, then a graph that `finish` returns is the normalised
  -- graph, well typed.
  pub finish-WellTyped :
      ((i j : ℕ) → decimal i ≡ decimal j → i ≡ j)
      → (context : TraceContext) (name backend : String) (body : List Expr)
        (outputs : List TensorType) (typed : TypedGraph)
      → Each WellNested body
      → Each (Reserved (input_names context.inputs)) body
      → finish context name backend body outputs ≡ ok typed
      → (lets : List Let) × (out : List Expr) × (let_bind_nodes decimal body
            (input_names context.inputs)
          ≡ ok (lets, out))
        × WellTyped checks static_call
            (record { graph_signatures = []; current_graph = name })
            (record {
              name = name;
              backend = backend;
              inputs = context.inputs;
              outputs = outputs;
              lets = lets;
              body = out;
            })
            typed
  unfolding finish
  finish-WellTyped injective context name backend body outputs typed nested scoped h =
      let ((lets, out), run, checked) =
        >>=-eq-ok (let_bind_nodes decimal body (input_names context.inputs)) _ h in
      (
        lets,
        out,
        run,
        type_check_sound checks static_call
            (record {
              name = name;
              backend = backend;
              inputs = context.inputs;
              outputs = outputs;
              lets = lets;
              body = out;
            })
            []
            (let_bind_nodes-NoShadowing decimal injective body (input_names context.inputs) nested
              scoped lets out run)
            typed checked,
      )
