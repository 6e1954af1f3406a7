-- ===== src/Trace/Examples.antt =====
-- Normalisation and tracing of concrete graphs.

use Prim.Native.String.{◌∷◌ as push_char}
use knok.Base.{ℕ, zero, suc, ◌+◌, ◌≡◌, refl, ap, false, String, List, [], ◌∷◌, ok, err, message}
use knok.Ast.Types.{ElementType}
use knok.Ast.Op.{UnaryOp, BinaryOp}
use knok.Ast.Graph.{Expr, Let}
use knok.Ast.Equality.{expr_eq}
use knok.Typecheck.NodeFree.{NodeFree}
use knok.Typecheck.Scope.{is_named, NoShadowing}
use knok.Trace.Normalize.{
  find, collect_node, collect_nodes, collect_body, rewrite_node_refs, node_let, node_name,
  with_suffix, unused_name, unique_node_name, assign_names, let_bind_nodes,
}
use knok.Trace.Names.{unique_node_name_free}
use knok.Trace.Nodes.{Each, Reserved, WellNested, Consistent}
use knok.Trace.Meaning.{Interpretation, Values, after_lets, values_of_body}
use knok.Trace.Correct.{let_bind_nodes_meaning, let_bind_nodes-NoShadowing, let_bind_nodes_total}
use knok.Trace.NoNodes.{FlatLets, let_bind_nodes-FlatLets}

-- A way to print numbers for these tests: `n` marks.
abbrev pub marks : ℕ → String
marks zero = ""
marks (suc n) = push_char "i" (marks n)

pub marks_injective : (i j : ℕ) → marks i ≡ marks j → i ≡ j
marks_injective zero zero h = refl
marks_injective zero (suc j) h = cc
marks_injective (suc i) zero h = cc
marks_injective (suc i) (suc j) h = ap suc (marks_injective i j (cc))

abbrev one_node : Expr
one_node = Expr.node 1 (Expr.var "__knok_node_i")

-- A generated name does not shadow an input of that name, and a repeated node is bound once.
abbrev body : List Expr
body = Expr.binary BinaryOp.add one_node one_node ∷ []

abbrev reserved : List String
reserved = "__knok_node_i" ∷ []

abbrev lets : List Let
lets = record { names = "__knok_node_i_i" ∷ []; value = Expr.var "__knok_node_i" } ∷ []

abbrev out : List Expr
out = Expr.binary BinaryOp.add (Expr.var "__knok_node_i_i") (Expr.var "__knok_node_i_i") ∷ []

bound : let_bind_nodes marks body reserved ≡ ok (lets, out)
unfolding let_bind_nodes collect_body collect_nodes collect_node find expr_eq assign_names
    unique_node_name unused_name node_name with_suffix is_named node_let rewrite_node_refs
bound = refl

nested : Each WellNested body
nested = (((tt, tt), (tt, tt)), tt)

scoped : Each (Reserved reserved) body
scoped = unfold is_named in ((refl, refl), tt)

consistent : Each (Consistent (λ _. Expr.var "__knok_node_i")) body
consistent = (((refl, tt), (refl, tt)), tt)

-- Sums of numbers.
abbrev numbers : Interpretation ℕ
numbers = record {
  literal = λ _ _. 0;
  unary = λ _ x. x;
  binary = λ _ x y. x + y;
  output = λ x _. x;
  call = λ _ _. 0;
}

abbrev threes : Values ℕ
threes _ = 3

unique_node_name_free_example :
    (name : String) × (unique_node_name marks 1 reserved ≡ ok (name, name ∷ reserved))
    × (is_named name reserved ≡ false)
unique_node_name_free_example = unique_node_name_free marks marks_injective 1 reserved

let_bind_nodes_meaning_example :
    values_of_body numbers (after_lets numbers threes lets) out ≡ values_of_body numbers threes body
let_bind_nodes_meaning_example =
    let_bind_nodes_meaning marks marks_injective body reserved nested scoped numbers threes lets out
      bound

let_bind_nodes-NoShadowing_example : NoShadowing reserved lets
let_bind_nodes-NoShadowing_example =
    let_bind_nodes-NoShadowing marks marks_injective body reserved nested scoped lets out bound

let_bind_nodes_total_example :
    (bindings : List Let) × (rewritten : List Expr) × (let_bind_nodes marks body reserved
      ≡ ok (bindings, rewritten))
let_bind_nodes_total_example =
    let_bind_nodes_total marks marks_injective body reserved nested scoped
      (λ _. Expr.var "__knok_node_i") consistent

let_bind_nodes-FlatLets_example : FlatLets lets × Each NodeFree out
let_bind_nodes-FlatLets_example = let_bind_nodes-FlatLets marks body reserved lets out bound

abbrev literal : String → Expr
literal value = Expr.const value ElementType.f32

-- Two payloads of one node are an error.
conflict :
    let_bind_nodes marks (Expr.node 1 (literal "1.0") ∷ Expr.node 1 (literal "2.0") ∷ []) []
    ≡ err (message "node id is used for multiple expression payloads")
unfolding let_bind_nodes collect_body collect_nodes collect_node find expr_eq
conflict = refl

-- They are not noticed where one is inside the other: the node is bound twice, to itself.
inside_itself :
    let_bind_nodes marks
      (Expr.node 1 (Expr.unary UnaryOp.neg (Expr.node 1 (literal "1.0"))) ∷ [])
      []
    ≡ ok (
      record {
        names = "__knok_node_i_i" ∷ [];
        value = Expr.unary UnaryOp.neg (Expr.var "__knok_node_i_i");
      }
          ∷ record {
            names = "__knok_node_i_i" ∷ [];
            value = Expr.unary UnaryOp.neg (Expr.var "__knok_node_i_i");
          }
          ∷ [],
      Expr.var "__knok_node_i_i" ∷ [],
    )
unfolding let_bind_nodes collect_body collect_nodes collect_node find expr_eq assign_names
    unique_node_name unused_name node_name with_suffix is_named node_let rewrite_node_refs
inside_itself = refl
