-- ===== src/Typecheck/Examples.antt =====
-- Names in scope and cached nodes at concrete values.
use knok.Base.{◌≡◌, refl, List, [], ◌∷◌, reverse, some, none, ok}
use knok.Ast.Types.{ElementType, TensorType}
use knok.Ast.Graph.{Expr, Input}
use knok.Typecheck.Env.{
  input_values, from_inputs, find_name, lookup, zip, push_bindings, or_else, lookup-push_bindings,
}
use knok.Typecheck.Cache.{NodeTypeCache, get, cached_outputs, insert_after, insert, insert_hit}

abbrev scalar : TensorType
scalar = record { elem = ElementType.f32; shape = [] }

abbrev vector : TensorType
vector = record { elem = ElementType.f32; shape = 3 ∷ [] }

abbrev inputs : List Input
inputs = record { name = "x"; ty = scalar } ∷ []

-- A binding shadows the input of the same name.
shadowed : lookup (push_bindings (from_inputs inputs) ("x" ∷ []) (vector ∷ [])) "x" ≡ some vector
unfolding lookup push_bindings from_inputs input_values zip find_name
shadowed = refl

lookup_example :
    lookup (push_bindings (from_inputs inputs) ("y" ∷ []) (vector ∷ [])) "x"
    ≡ or_else
        (find_name "x" (reverse (zip ("y" ∷ []) (vector ∷ []))))
        (lookup (from_inputs inputs) "x")
lookup_example = lookup-push_bindings (from_inputs inputs) ("y" ∷ []) (vector ∷ []) "x"

abbrev one : Expr
one = Expr.const "1.0" ElementType.f32

abbrev two : Expr
two = Expr.const "2.0" ElementType.f32

abbrev start : NodeTypeCache
start = record { outputs = (7, record { value = one; tys = scalar ∷ [] }) ∷ [] }

abbrev grown : NodeTypeCache
grown = record {
  outputs =
      (8, record { value = two; tys = scalar ∷ [] })
      ∷ (7, record { value = one; tys = scalar ∷ [] })
      ∷ [];
}

grows : insert start 8 two (scalar ∷ []) ≡ ok grown
unfolding insert insert_after get
grows = refl

misses : get 8 start.outputs ≡ none
unfolding get
misses = refl

hits : cached_outputs start 7 one ≡ ok (some (scalar ∷ []))
hits = insert_hit (record { outputs = [] }) 7 one (scalar ∷ []) start empty inserted
  where
    empty : get 7 [] ≡ none
    empty = unfold get in refl

    inserted : insert (record { outputs = [] }) 7 one (scalar ∷ []) ≡ ok start
    inserted = unfold insert insert_after get in refl

insert_hit_example : cached_outputs grown 8 two ≡ ok (some (scalar ∷ []))
insert_hit_example = insert_hit start 8 two (scalar ∷ []) grown misses grows
