-- ===== src/Typecheck/WellTyped.antt =====
-- A graph that the type checker accepts is well typed.
use knok.Base.{
  ◌≡◌, ◌≢◌, refl, ap₂, subst, Bool, true, false, not, some, String, List, [], ◌∷◌, ◌++◌, length,
  ◌==◌, ==_iff, rejected, Result, ok, panic,
}
use knok.Base.Ensures.{
  Ensures, returns, throws, overflows, reject_if-Ensures, value_of, may_panic, Ensures-ne-panic,
}
use knok.Ast.Types.{types_eq, types_eq_sound}
use knok.Ast.Op.{CallOp}
use knok.Ast.Graph.{Expr, Exprs, Let, Graph, TypedExpr, TypedLet, TypedGraph, GraphSignature}
use knok.Typecheck.Env.{TypeEnv, from_inputs, push_bindings}
use knok.Typecheck.Cache.{NodeTypeCache}
use knok.Typecheck.Checker.{Keeps, ◌⟫◌, lift-Keeps, pure-Keeps, run}
use knok.Typecheck.Rules.{TypeChecker}
use knok.Typecheck.Walk.{type_tensor_expr, type_let_value}
use knok.Typecheck.Graphs.{body_types, value_only, type_lets, type_body, type_graph, type_check}
use knok.Typecheck.Typing.{HasOutputs}
use knok.Typecheck.Typed.{scope_after, erase_lets, erase_body, LetsTyped, BodyTyped, WellTyped}
use knok.Typecheck.Calls.{
  EachCall, EachLetCall, EachBodyCall, EachGraphCall, EachGraphCall-imp, every_graph_call,
}
use knok.Creation.Int.{ℤ}
use knok.Creation.Overflow.{IsI128}
use knok.Creation.Numbers.{Numbers}
use knok.Creation.Call.{validate_static_creation_call}
use knok.Creation.CallSafe.{FitsMemory, validate_static_creation_call-Ensures}
use knok.Typecheck.Scope.{
  input_names, NoShadowing, Covers, push_bindings-Covers, push_bindings-Extends, from_inputs-Covers,
}
use knok.Typecheck.Weaken.{CacheTyped-weaken}
use knok.Typecheck.Sound.{tensor_sound, outputs_sound}
use knok.Typecheck.Sound.Rules

-- `p` says whether a panic is allowed at all: overflow checks, which are on if `c` is, allow one.
module _ (c p : Bool) (on : c ≡ true → p ≡ true) (static_call : CallOp → Exprs → Result (Unit {0}))
    (checker : TypeChecker) where
  -- The checks of static creations panic only where that is allowed.
  abbrev Safe : CallOp → Exprs → Type 0
  Safe op args = Ensures p (λ _. Unit {0}) (static_call op args)

  abbrev Valid : TypeEnv → NodeTypeCache → Type 0
  Valid env cache = Rules.CacheTyped c p on static_call checker env cache

  body_sound :
      (env : TypeEnv) (body : List Expr)
      → EachBodyCall Safe body
      → Keeps p
          (Valid env)
          (λ typed. (erase_body typed ≡ body) × BodyTyped c static_call checker env typed)
          (type_body c static_call checker env body)
  unfolding type_body type_tensor_expr
  body_sound env [] s = pure-Keeps (refl, tt)
  body_sound env (expr ∷ body) s =
      (tensor_sound c p on static_call checker env expr s.0 ⟫ λ ty h.
      pure-Keeps
        {P = λ (t : TypedExpr).
          (t.kind ≡ expr) × HasOutputs c static_call checker env t.kind (t.ty ∷ [])}
        (refl, h))
      ⟫ λ typed h. body_sound env body s.1 ⟫ λ rest k. pure-Keeps (ap₂ ◌∷◌ h.0 k.0, (h.1, k.1))

  let_value-Keeps :
      (env : TypeEnv) (expr : Expr)
      → EachCall Safe expr
      → Keeps p
          (Valid env)
          (λ typed. (typed.kind ≡ expr) × HasOutputs c static_call checker env typed.kind typed.tys)
          (type_let_value c static_call checker env expr)
  unfolding type_let_value
  let_value-Keeps env expr s =
      outputs_sound c p on static_call checker env expr s ⟫ λ tys h. pure-Keeps (refl, h)

  abbrev LetsDone : TypeEnv → List Let → (TypeEnv × List TypedLet) × NodeTypeCache → Type 0
  LetsDone env bindings ((after, lets), cache) =
      (after ≡ scope_after env lets)
      × (erase_lets lets ≡ bindings)
      × LetsTyped c static_call checker env lets
      × Valid after cache

  lets_sound :
      (env : TypeEnv) (bound : List String) (bindings : List Let)
      → EachLetCall Safe bindings
      → Covers bound env
      → NoShadowing bound bindings
      → (cache : NodeTypeCache) → Valid env cache
      → Ensures {A = (TypeEnv × List TypedLet) × NodeTypeCache} p
          (LetsDone env bindings)
          (type_lets c static_call checker env bindings cache)
  unfolding type_lets
  lets_sound env bound [] s covers new cache v =
      returns {a = ((env, []), cache)} (refl, refl, tt {0}, v)
  lets_sound env bound (binding ∷ bindings) s covers new cache v =
      run _ ((let_value-Keeps env binding.value s.0).runs cache v) λ value first_cache h.
        run _
          ((lift-Keeps {V = Valid env}
              (reject_if-Ensures (not (length binding.names == length value.tys)) _)).runs
            first_cache h.1)
          λ _ checked_cache k.
            let after = push_bindings env binding.names value.tys in
            let grown =
              CacheTyped-weaken c static_call checker env after
                (push_bindings-Extends env bound binding.names value.tys covers new.0) p on
                checked_cache k.1 in
            run _
              (lets_sound after (bound ++ binding.names) bindings s.1
                (push_bindings-Covers env bound binding.names value.tys covers) new.1 checked_cache
                grown)
              λ rest last_cache done.
                returns
                  {a = (
                    (rest.0, record { names = binding.names; value = value } ∷ rest.1),
                    last_cache,
                  )}
                  (
                    done.0,
                    ap₂ ◌∷◌ (λ i. record { names = binding.names; value = h.0.0 i }) done.1,
                    (h.0.1, (==_iff _ _).0 (rejected _ k.0), done.2),
                    done.3,
                  )

  type_graph-Ensures :
      (graph : Graph)
      → EachGraphCall Safe graph
      → NoShadowing (input_names graph.inputs) graph.lets
      → Ensures {A = TypedGraph × NodeTypeCache} p
          (λ r. WellTyped c static_call checker graph r.0)
          (type_graph c static_call checker graph (record { outputs = [] }))
  unfolding type_graph
  type_graph-Ensures graph s new =
      let env = from_inputs graph.inputs in
      run _
        (lets_sound env (input_names graph.inputs) graph.lets s.0 (from_inputs-Covers graph.inputs)
          new (record { outputs = [] }) tt)
        λ scope first_cache done.
          run _ ((body_sound scope.0 graph.body s.1).runs first_cache done.3)
            λ body checked_cache h.
              run _
                ((lift-Keeps {V = Valid scope.0}
                    (reject_if-Ensures (not (types_eq (body_types body) graph.outputs)) _)).runs
                  checked_cache h.1)
                λ _ last_cache k. returns {a = (_, last_cache)} (record {
                  same_name = refl;
                  same_backend = refl;
                  same_inputs = refl;
                  same_outputs = refl;
                  same_lets = done.1;
                  same_body = h.0.0;
                  lets_typed = done.2;
                  body_typed = subst (λ e. BodyTyped c static_call checker e body) done.0 h.0.1;
                  outputs_typed = types_eq_sound _ _ (rejected _ k.0);
                })

value_only-Ensures :
    {c : Bool} {A : Type 0} (P : A → Type 0) {r : Result (A × NodeTypeCache)}
    → Ensures {A = A × NodeTypeCache} c (λ p. P p.0) r
    → Ensures c P (value_only r)
unfolding value_only
value_only-Ensures P (returns h) = returns h
value_only-Ensures P throws = throws
value_only-Ensures P (overflows h) = overflows h

module _ (c p : Bool) (on : c ≡ true → p ≡ true) (static_call : CallOp → Exprs → Result (Unit {0}))
    (graph : Graph) (signatures : List (String × GraphSignature))
    (new : NoShadowing (input_names graph.inputs) graph.lets) where
  type_check-Ensures :
      EachGraphCall (λ op args. Ensures p (λ _. Unit {0}) (static_call op args)) graph
      → Ensures p
          (WellTyped c static_call
            (record { graph_signatures = signatures; current_graph = graph.name })
            graph)
          (type_check c static_call graph signatures)
  unfolding type_check
  type_check-Ensures safe =
      value_only-Ensures
        (WellTyped c static_call
          (record { graph_signatures = signatures; current_graph = graph.name }) graph)
        (type_graph-Ensures c p on static_call
          (record { graph_signatures = signatures; current_graph = graph.name }) graph safe new)

-- If no binding rebinds a name, then a typed graph that the type checker returns is the graph with
-- types added, in which every binding has one type for each of its names, every binding and output
-- has its types by the typing rules in the scope where it stands, and the outputs are the declared
-- ones.
pub type_check_sound :
    (c : Bool) (static_call : CallOp → Exprs → Result (Unit {0})) (graph : Graph)
    (signatures : List (String × GraphSignature))
    → NoShadowing (input_names graph.inputs) graph.lets
    → (typed : TypedGraph) → type_check c static_call graph signatures ≡ ok typed
    → WellTyped c static_call
        (record { graph_signatures = signatures; current_graph = graph.name })
        graph
        typed
type_check_sound c static_call graph signatures new typed h =
    value_of
      (type_check-Ensures c true (λ _. refl) static_call graph signatures new
        (every_graph_call (λ op args. may_panic (static_call op args)) graph))
      h

-- If no binding rebinds a name, what is parsed as an `i128` is one, and the literals of each static
-- creation in the graph fit into one vector, then the type checker with its check of static creations
-- does not panic where overflow checks are off.
pub type_check_total :
    (n : Numbers) (parse_range : (text : String) (z : ℤ) → n.parse_i128 text ≡ some z → IsI128 z)
    (graph : Graph) (signatures : List (String × GraphSignature))
    → NoShadowing (input_names graph.inputs) graph.lets
    → EachGraphCall (λ op args. FitsMemory op) graph
    → type_check false (validate_static_creation_call false n) graph signatures ≢ panic
type_check_total n parse_range graph signatures new fits = Ensures-ne-panic (
    type_check-Ensures false false (λ e. e) (validate_static_creation_call false n) graph signatures
      new
      (EachGraphCall-imp (validate_static_creation_call-Ensures false n parse_range) graph fits))
