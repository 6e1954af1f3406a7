-- ===== src/Trace/Names.antt =====
-- The generated names: fresh, and different for different nodes.
use knok.Base.{
  some_injective, ℕ, zero, suc, ◌+◌, ◌≤◌, ◌<◌, ◌≡◌, ◌≢◌, ◌⊎◌, refl, sym, subst, ◌∙◌, if◌then◌else◌,
  String, List, [], ◌∷◌, length, some, none, true, false, arith, Bool-cases, Option-cases, inl, inr,
  ok,
}
use text.Mathlib.Text.{◌==◌ as str_eq}
use text.Mathlib.TextEquality.{eq_iff}
use text.Mathlib.TextLemmas.{append_cancel_left}
use knok.Typecheck.Scope.{is_named}
use knok.Trace.Normalize.{with_suffix, unused_name, node_name, unique_node_name}

without : String → List String → List String
without name [] = []
without name (other ∷ names) =
    if str_eq other name then without name names else other ∷ without name names

-- Names other than the one taken out stay.
is_named-without :
    (name other : String) (names : List String)
    → name ≢ other
    → is_named other names ≡ true
    → is_named other (without name names) ≡ true
unfolding is_named without
is_named-without name other [] d h = h
is_named-without name other (x ∷ names) d h = elim (Bool-cases (str_eq x name)) [
  | inl e ↦ elim (Bool-cases (str_eq x other)) [
    | inl f ↦ absurd (d (sym ((eq_iff x name).0 e) ∙ (eq_iff x other).0 f))
    | inr f ↦ rw e (is_named-without name other names d (rw f at h))
  ]
  | inr e ↦ elim (Bool-cases (str_eq x other)) [
    | inl f ↦ rw e (rw f refl)
    | inr f ↦ rw e (rw f (is_named-without name other names d (rw f at h)))
  ]
]

length-without : (name : String) (names : List String) → length (without name names) ≤ length names
unfolding without
length-without name [] = omega arith
length-without name (x ∷ names) = elim (Bool-cases (str_eq x name)) [
  | inl e ↦ rw e (omega (arith, length-without name names))
  | inr e ↦ rw e (omega (arith, length-without name names))
]

without-lt :
    (name : String) (names : List String)
    → is_named name names ≡ true
    → length (without name names) < length names
unfolding is_named without
without-lt name [] h = cc
without-lt name (x ∷ names) h = elim (Bool-cases (str_eq x name)) [
  | inl e ↦ rw e (omega (arith, length-without name names))
  | inr e ↦ rw e (omega (arith, without-lt name names (rw e at h)))
]

-- A list that holds `count` different names is as long.
pigeonhole :
    (f : ℕ → String)
    → ((i j : ℕ) → f i ≡ f j → i ≡ j)
    → (count start : ℕ) (names : List String)
    → ((i : ℕ) → start ≤ i → i < start + count → is_named (f i) names ≡ true)
    → count ≤ length names
pigeonhole f inj zero start names h = omega arith
pigeonhole f inj (suc count) start names h =
    let smaller = without-lt (f start) names (h start (omega arith) (omega arith)) in
    let rest = pigeonhole f inj count (suc start) (without (f start) names) (λ i l u.
      is_named-without (f start) (f i) names (λ e. other i l (inj start i e))
        (h i (omega arith) (omega arith))) in
    omega (arith, smaller, rest)
  where
    other : (i : ℕ) → suc start ≤ i → start ≡ i → ⊥
    other i l e = omega arith

module _ (decimal : ℕ → String) where
  unused_name-taken :
      (fuel : ℕ) (base candidate : String) (suffix : ℕ) (reserved : List String)
      → 0 < fuel
      → unused_name decimal fuel base candidate suffix reserved ≡ none
      → is_named candidate reserved ≡ true
  unfolding unused_name
  unused_name-taken zero base candidate suffix reserved l h = absurd (omega arith)
  unused_name-taken (suc fuel) base candidate suffix reserved l h =
      elim (Bool-cases (is_named candidate reserved)) [ inl e ↦ e | inr e ↦ cc (rw e at h) ]

  -- A loop that runs out of fuel has found every name that it tried taken.
  all_taken :
      (fuel : ℕ) (base candidate : String) (suffix : ℕ) (reserved : List String)
      → unused_name decimal fuel base candidate suffix reserved ≡ none
      → (i : ℕ) → suffix ≤ i
      → i + 1 < suffix + fuel
      → is_named (with_suffix decimal base i) reserved ≡ true
  unfolding unused_name
  all_taken zero base candidate suffix reserved h i l u = absurd (omega arith)
  all_taken (suc fuel) base candidate suffix reserved h i l u =
      elim (Bool-cases (is_named candidate reserved)) [
        | inl e ↦ elim (first_or_later suffix i l) [
          | inl f ↦
              subst (λ k. is_named (with_suffix decimal base k) reserved ≡ true) f
                (unused_name-taken fuel base (with_suffix decimal base suffix) (suffix + 1) reserved
                  (omega arith) (rw e at h))
          | inr f ↦
              all_taken fuel base (with_suffix decimal base suffix) (suffix + 1) reserved
                (rw e at h) i f (omega arith)
        ]
        | inr e ↦ cc (rw e at h)
      ]
    where
      first_or_later : (j k : ℕ) → j ≤ k → (j ≡ k) ⊎ (j + 1 ≤ k)
      first_or_later j k h = omega arith

  unused_name-free :
      (fuel : ℕ) (base candidate : String) (suffix : ℕ) (reserved : List String) (name : String)
      → unused_name decimal fuel base candidate suffix reserved ≡ some name
      → is_named name reserved ≡ false
  unfolding unused_name
  unused_name-free zero base candidate suffix reserved name h = cc
  unused_name-free (suc fuel) base candidate suffix reserved name h =
      elim (Bool-cases (is_named candidate reserved)) [
        | inl e ↦
            unused_name-free fuel base (with_suffix decimal base suffix) (suffix + 1) reserved name
              (rw e at h)
        | inr e ↦ subst (λ n. is_named n reserved ≡ false) (some_injective (rw e at h)) e
      ]

  module _ (decimal_injective : (i j : ℕ) → decimal i ≡ decimal j → i ≡ j) where
    with_suffix_injective :
        (base : String) (i j : ℕ) → with_suffix decimal base i ≡ with_suffix decimal base j → i ≡ j
    unfolding with_suffix
    with_suffix_injective base i j h =
        decimal_injective i j (append_cancel_left "_" _ _ (append_cancel_left base _ _ h))

    -- With fuel for two names more than are reserved the loop finds one.
    unused_name-found :
        (base candidate : String) (reserved : List String)
        → unused_name decimal (length reserved + 2) base candidate 1 reserved ≢ none
    unused_name-found base candidate reserved h =
        let taken =
          pigeonhole (with_suffix decimal base) (with_suffix_injective base) (length reserved + 1) 1
            reserved
            (λ i l u.
              all_taken (length reserved + 2) base candidate 1 reserved h i l (omega arith)) in
        omega (arith, taken)

    -- If `decimal` prints different numbers differently, the search for a name of a node ends, with a
    -- name that is not reserved, which it adds to the reserved ones.
    pub unique_node_name_free :
        (node_id : ℕ) (reserved : List String)
        → (name : String) × (unique_node_name decimal node_id reserved ≡ ok (name, name ∷ reserved))
          × (is_named name reserved ≡ false)
    unfolding unique_node_name
    unique_node_name_free node_id reserved =
        let base = node_name decimal node_id in
        let fuel = length reserved + 2 in
        elim (Option-cases (unused_name decimal fuel base base 1 reserved)) [
          | inl e ↦ absurd (unused_name-found base base reserved e)
          | inr (name, e) ↦ (name, rw e refl, unused_name-free fuel base base 1 reserved name e)
        ]
