-- ===== src/Trace/Assign.antt =====
-- The loop of crates/knok-build/src/trace/normalize.rs that names the nodes.
use knok.Base.{
  false_not_true, some_injective, ℕ, ◌≡◌, ◌⊎◌, refl, sym, ap, subst, ◌∙◌, String, List, [], ◌∷◌,
  some, true, false, Bool-cases, inl, inr, ok,
}
use text.Mathlib.Text.{◌==◌ as str_eq}
use text.Mathlib.TextEquality.{eq_iff}
use native.Mathlib.Decide.{ℕ_discrete}
use knok.Typecheck.Scope.{is_named}
use knok.Trace.Normalize.{find, assign_names}
use knok.Trace.Shared.{find-same, find-other}
use knok.Trace.Names.{unique_node_name_free}

abbrev pub Among : ℕ → List ℕ → Type 0
Among node_id [] = ⊥
Among node_id (other ∷ order) = (node_id ≡ other) ⊎ Among node_id order

-- Names that were given are reserved now and were not at first, and no two nodes share one.
pub record Named (first reserved : List String) (names : List (ℕ × String)) : Type 0 where
  pub taken :
      (node_id : ℕ) (name : String) → find node_id names ≡ some name → is_named name reserved ≡ true
  pub fresh :
      (node_id : ℕ) (name : String) → find node_id names ≡ some name → is_named name first ≡ false
  pub apart :
      (i j : ℕ) (name : String) → find i names ≡ some name → find j names ≡ some name → i ≡ j
  pub kept : (name : String) → is_named name first ≡ true → is_named name reserved ≡ true

no_names : (first : List String) → Named first first []
unfolding find
no_names first = record {
  taken = λ node_id name h. cc;
  fresh = λ node_id name h. cc;
  apart = λ i j name h k. cc;
  kept = λ name h. h;
}

is_named-cons :
    (name other : String) (names : List String)
    → is_named name names ≡ true
    → is_named name (other ∷ names) ≡ true
unfolding is_named
is_named-cons name other names h = elim (Bool-cases (str_eq other name)) [
  | inl e ↦ rw e refl
  | inr e ↦ rw e h
]

is_named-head : (name : String) (names : List String) → is_named name (name ∷ names) ≡ true
unfolding is_named
is_named-head name names = rw ((eq_iff name name).1 refl) refl

-- What is found after a name was given: that name, or what was found before.
found_after :
    (node_id : ℕ) (name : String) (names : List (ℕ × String)) (other : ℕ) (n : String)
    → find other ((node_id, name) ∷ names) ≡ some n
    → ((other ≡ node_id) × (name ≡ n)) ⊎ (find other names ≡ some n)
found_after node_id name names other n h = elim (ℕ_discrete other node_id) [
  | yes e ↦ inl (
    e,
    some_injective (
        sym (find-same node_id name names)
        ∙ (ap (λ k. find k ((node_id, name) ∷ names)) (sym e) ∙ h)),
  )
  | no d ↦ inr (sym (find-other node_id name names other d) ∙ h)
]

module _ (first reserved : List String) (names : List (ℕ × String))
    (inv : Named first reserved names) where
  is_absent : (name : String) → is_named name reserved ≡ false → is_named name first ≡ false
  is_absent name h = elim (Bool-cases (is_named name first)) [
    | inl e ↦ false_not_true h (inv.kept name e)
    | inr e ↦ e
  ]

  -- Another free name is given.
  one_more :
      (node_id : ℕ) (name : String)
      → is_named name reserved ≡ false
      → Named first (name ∷ reserved) ((node_id, name) ∷ names)
  one_more node_id name free = record {
    taken = λ other n h. elim (found_after node_id name names other n h) [
      | inl (e, f) ↦
          subst (λ m. is_named m (name ∷ reserved) ≡ true) f (is_named-head name reserved)
      | inr k ↦ is_named-cons n name reserved (inv.taken other n k)
    ];
    fresh = λ other n h. elim (found_after node_id name names other n h) [
      | inl (e, f) ↦ subst (λ m. is_named m first ≡ false) f (is_absent name free)
      | inr k ↦ inv.fresh other n k
    ];
    apart = λ i j n h k. elim (found_after node_id name names i n h) [
      | inl (e, f) ↦ elim (found_after node_id name names j n k) [
        | inl (e', f') ↦ e ∙ sym e'
        | inr k' ↦
            false_not_true (subst (λ m. is_named m reserved ≡ false) f free) (inv.taken j n k')
      ]
      | inr h' ↦ elim (found_after node_id name names j n k) [
        | inl (e', f') ↦
            false_not_true (subst (λ m. is_named m reserved ≡ false) f' free) (inv.taken i n h')
        | inr k' ↦ inv.apart i j n h' k'
      ]
    ];
    kept = λ n h. is_named-cons n name reserved (inv.kept n h);
  }

-- `Has names node_id`: the node has a name.
abbrev pub Has : List (ℕ × String) → ℕ → Type 0
Has names node_id = (name : String) × (find node_id names ≡ some name)

Has-more :
    (node_id : ℕ) (name : String) (names : List (ℕ × String)) (other : ℕ)
    → Has names other
    → Has ((node_id, name) ∷ names) other
Has-more node_id name names other h = elim (ℕ_discrete other node_id) [
  | yes e ↦ (name, ap (λ k. find k ((node_id, name) ∷ names)) e ∙ find-same node_id name names)
  | no d ↦ (h.0, find-other node_id name names other d ∙ h.1)
]

module _ (decimal : ℕ → String) (decimal_injective : (i j : ℕ) → decimal i ≡ decimal j → i ≡ j)
    (first : List String) where
  assigned :
      (order : List ℕ) (reserved : List String) (names : List (ℕ × String))
      → Named first reserved names
      → (all : List (ℕ × String)) × (after : List String) × (assign_names decimal order reserved
            names
          ≡ ok all)
        × Named first after all
        × ((node_id : ℕ) → Among node_id order ⊎ Has names node_id → Has all node_id)
  unfolding assign_names
  assigned [] reserved names inv =
      (names, reserved, refl, inv, λ node_id h. elim h [ inl p ↦ absurd p | inr q ↦ q ])
  assigned (node_id ∷ order) reserved names inv =
      let (name, e, free) = unique_node_name_free decimal decimal_injective node_id reserved in
      let (all, after, run, inv', has) =
        assigned order (name ∷ reserved) ((node_id, name) ∷ names)
          (one_more first reserved names inv node_id name free) in
      (
        all,
        after,
        rw e run,
        inv',
        λ other h. elim h [
          | inl (inl p) ↦ has other (
              inr
                (name, ap (λ k. find k ((node_id, name) ∷ names)) p ∙ find-same node_id name names))
          | inl (inr q) ↦ has other (inl q)
          | inr q ↦ has other (inr (Has-more node_id name names other q))
        ],
      )

  -- Every collected node gets a name.
  pub assign_names_lem :
      (order : List ℕ)
      → (all : List (ℕ × String)) × (after : List String) × (assign_names decimal order first []
          ≡ ok all)
        × Named first after all
        × ((node_id : ℕ) → Among node_id order → Has all node_id)
  assign_names_lem order =
      let (all, after, run, inv, has) = assigned order first [] (no_names first) in
      (all, after, run, inv, λ node_id h. has node_id (inl h))
