-- ===== src/Trace/Lets.antt =====
-- The list of bindings that `let_bind_nodes` makes, from the nodes in the order of their collection.
use knok.Base.{
  false_not_true, none_not_some, some_injective, ℕ, ◌≡◌, ◌≢◌, refl, sym, ap, subst, ◌∙◌, String,
  List, [], ◌∷◌, ◌++◌, some, none, true, false, Bool-cases, inl, inr, ok, traverse,
}
use text.Mathlib.Text.{◌==◌ as str_eq}
use text.Mathlib.TextEquality.{eq_iff}
use native.Mathlib.Decide.{ℕ_discrete}
use knok.Ast.Graph.{Expr, Let}
use knok.Typecheck.Scope.{is_named, is_named-append, AllNew, NoShadowing}
use knok.Trace.Normalize.{find, rewrite_node_refs, node_let}
use knok.Trace.Shared.{find-same, find-other}
use knok.Trace.Nodes.{Known, Reserved}
use knok.Trace.Collect.{Built, start, later, Grows, insert-Grows}
use knok.Trace.Assign.{Named, Has}
use knok.Trace.Meaning.{Interpretation, Values, bind_name, value_of_expr, after_lets}
use knok.Trace.Bindings
use knok.Trace.Bindings.{rewrite_lem}
use knok.Trace.Snoc.{
  let_names, traverse-snoc, NoShadowing-snoc, let_names-snoc, after_lets-snoc, bind_name-same,
  bind_name-other,
}

module _ {V : Type 0} (meaning : Interpretation V) where
  module _ (reserved used : List String) (names : List (ℕ × String)) (values : Values V)
      (inv : Named reserved used names) (all : List (ℕ × Expr))
      (has : (node_id : ℕ) (value : Expr) → find node_id all ≡ some value → Has names node_id) where
    abbrev Agrees : List (ℕ × Expr) → Values V → Type 0
    Agrees = Bindings.Agrees meaning reserved names values

    -- A node's name is neither a reserved one nor an earlier node's.
    differs :
        (node_id : ℕ) (name x : String)
        → find node_id names ≡ some name
        → is_named x reserved ≡ true
        → name ≢ x
    differs node_id name x h r e =
        false_not_true (inv.fresh node_id name h)
          (subst (λ n. is_named n reserved ≡ true) (sym e) r)

    bound_later :
        (known : List (ℕ × Expr)) (now : Values V) (node_id : ℕ) (value : Expr) (name : String)
        (v : V)
        → Agrees known now
        → find node_id names ≡ some name
        → v ≡ value_of_expr meaning values value
        → Agrees ((node_id, value) ∷ known) (bind_name name v now)
    bound_later known now node_id value name v agrees h e = record {
      same = λ x r. bind_name-other name v now x (differs node_id name x h r) ∙ agrees.same x r;
      bound = λ other w k. elim (ℕ_discrete other node_id) [
        | yes p ↦ (
          name,
          ap (λ i. find i names) p ∙ h,
          bind_name-same name v now ∙ (e ∙ ap (value_of_expr meaning values) (payload other w k p)),
        )
        | no d ↦
            let (n, h', e') =
              agrees.bound other w (sym (find-other node_id value known other d) ∙ k) in
            (
              n,
              h',
              bind_name-other name v now n
                    (λ q. d (inv.apart other node_id name (h' ∙ ap some (sym q)) h))
                  ∙ e',
            )
      ];
    }
      where
        payload :
            (other : ℕ) (w : Expr)
            → find other ((node_id, value) ∷ known) ≡ some w
            → other ≡ node_id
            → value ≡ w
        payload other w k p = some_injective (
            sym (find-same node_id value known)
            ∙ (ap (λ i. find i ((node_id, value) ∷ known)) (sym p) ∙ k))

    -- What the bindings for the nodes so far are.
    pub record Made (known : List (ℕ × Expr)) (order : List ℕ) (bindings : List Let) : Type 0 where
      pub runs : traverse (node_let names all) order ≡ ok bindings
      pub agrees : Agrees known (after_lets meaning values bindings)
      pub no_shadowing : NoShadowing reserved bindings
      pub from_nodes :
          (x : String)
          → is_named x (let_names bindings) ≡ true
          → (node_id : ℕ) × (value : Expr) × (find node_id known ≡ some value)
            × (find node_id names ≡ some x)

    Made-none : Made [] [] []
    unfolding find is_named let_names
    Made-none = record {
      runs = refl;
      agrees = record { same = λ x r. refl; bound = λ node_id value h. cc };
      no_shadowing = tt;
      from_nodes = λ x h. cc;
    }

    node_let_lem :
        (node_id : ℕ) (value e' : Expr) (name : String)
        → find node_id names ≡ some name
        → find node_id all ≡ some value
        → rewrite_node_refs names value ≡ ok e'
        → node_let names all node_id ≡ ok (record { names = name ∷ []; value = e' })
    unfolding node_let
    node_let_lem node_id value e' name h k r = rw h (rw k (rw r refl))

    module _ (known : List (ℕ × Expr)) (order : List ℕ) (bindings : List Let)
        (m : Made known order bindings) (node_id : ℕ) (value : Expr) (name : String)
        (new : find node_id known ≡ none) (h : find node_id names ≡ some name) where
      unbound : is_named name (let_names bindings) ≡ false
      unbound = elim (Bool-cases (is_named name (let_names bindings))) [
        | inl e ↦
            let (other, w, found, h') = m.from_nodes name e in
            none_not_some new (ap (λ i. find i known) (inv.apart node_id other name h h') ∙ found)
        | inr e ↦ e
      ]

      new_name : AllNew (reserved ++ let_names bindings) (name ∷ [])
      new_name = (
        is_named-append name reserved (let_names bindings) ∙ rw (inv.fresh node_id name h) unbound,
        tt,
      )

      from_nodes_later :
          (x : String) (e' : Expr)
          → is_named x (let_names (bindings ++ (record { names = name ∷ []; value = e' } ∷ [])))
            ≡ true
          → (other : ℕ) × (w : Expr) × (find other ((node_id, value) ∷ known) ≡ some w)
            × (find other names ≡ some x)
      unfolding is_named
      from_nodes_later x e' t =
          let t' =
            sym (is_named-append x (let_names bindings) (name ∷ []))
            ∙ (ap (is_named x)
                  (sym (let_names-snoc bindings (record { names = name ∷ []; value = e' })))
                ∙ t) in
          elim (Bool-cases (is_named x (let_names bindings))) [
            | inl e ↦
                let (other, w, found, h') = m.from_nodes x e in
                (other, w, insert-Grows node_id value known new other w found, h')
            | inr e ↦ elim (Bool-cases (str_eq name x)) [
              | inl f ↦
                  (node_id, value, find-same node_id value known, h ∙ ap some ((eq_iff name x).0 f))
              | inr f ↦ false_not_true (rw e (rw f refl)) t'
            ]
          ]

    Made-later :
        (known : List (ℕ × Expr)) (order : List ℕ) (bindings : List Let)
        → Made known order bindings
        → (node_id : ℕ) (value : Expr) → find node_id known ≡ none
        → Known known value
        → Reserved reserved value
        → find node_id all ≡ some value
        → (after : List Let) × Made ((node_id, value) ∷ known) (order ++ (node_id ∷ [])) after
    Made-later known order bindings m node_id value new k r a =
        let (name, h) = has node_id value a in
        let now = after_lets meaning values bindings in
        let (e', run, v) = rewrite_lem meaning reserved names values known now m.agrees value k r in
        (
          bindings ++ (record { names = name ∷ []; value = e' } ∷ []),
          record {
            runs =
                traverse-snoc (node_let names all) order m.runs
                  (node_let_lem node_id value e' name h a run);
            agrees =
                subst (Agrees ((node_id, value) ∷ known))
                  (sym (after_lets-snoc meaning bindings values name e'))
                  (bound_later known now node_id value name (value_of_expr meaning now e') m.agrees
                    h v);
            no_shadowing =
                NoShadowing-snoc reserved bindings (record { names = name ∷ []; value = e' })
                  m.no_shadowing (new_name known order bindings m node_id value name new h);
            from_nodes =
                λ x t. from_nodes_later known order bindings m node_id value name new h x e' t;
          },
        )

    -- The bindings for the collected nodes are made, mean what the nodes mean, and rebind no name.
    pub Made-all :
        {known : List (ℕ × Expr)} {order : List ℕ}
        → Built reserved known order
        → Grows known all
        → (bindings : List Let) × Made known order bindings
    Made-all start g = ([], Made-none)
    Made-all (later {values = known} {order} {node_id} {value} b new k r) g =
        let (bindings, m) =
          Made-all b (λ i w h. g i w (insert-Grows node_id value known new i w h)) in
        Made-later known order bindings m node_id value new k r
          (g node_id value (find-same node_id value known))
