-- ===== src/Host/Entries.antt =====
-- The loop of crates/knok/src/tensor.rs over the entries of a serialised tensor.
use knok.Base.{
  ℕ, ◌≡◌, ◌⊎◌, inl, inr, refl, sym, ap, subst, ◌∙◌, true, false, none_not_some, Bool-cases, List,
  [], ◌∷◌, Option, some, none, some_injective, String, Result, ok, err, Error, ok_injective,
  >>=-eq-ok, >>-eq-ok, reject_if-eq-ok,
}
use text.Mathlib.Text.{◌==◌ as str_eq}
use text.Mathlib.TextEquality.{eq_iff}
use knok.Host.Serde.{TensorSerdeField, visit_str, visit_field, is_some, visit_entries}

abbrev field_name : TensorSerdeField → String
field_name TensorSerdeField.shape_field = "shape"
field_name TensorSerdeField.data_field = "data"

visit_str-eq :
    (key : String) {field : TensorSerdeField} → visit_str key ≡ ok field → key ≡ field_name field
unfolding visit_str
visit_str-eq key {field} h =
    named (Bool-cases (str_eq key "shape")) (Bool-cases (str_eq key "data"))
  where
    no_ok : {e : Error} {A : Type 0} → ◌≡◌ {A = Result TensorSerdeField} (err e) (ok field) → A
    no_ok p = cc

    named :
        (str_eq key "shape" ≡ true) ⊎ (str_eq key "shape" ≡ false)
        → (str_eq key "data" ≡ true) ⊎ (str_eq key "data" ≡ false)
        → key ≡ field_name field
    named (inl e) d = (eq_iff key "shape").0 e ∙ ap field_name (ok_injective (rw e at h))
    named (inr e) (inl d) = (eq_iff key "data").0 d ∙ ap field_name (ok_injective (rw (e, d) at h))
    named (inr e) (inr d) = no_ok (rw (e, d) at h)

module _ {V T : Type 0} (as_shape : V → Result (List ℕ)) (as_elems : V → Result (List T)) where
  abbrev Fields : Type 0
  Fields = Option (List ℕ) × Option (List T)

  -- What reading one entry did.
  abbrev Stepped : Option (List ℕ) → Option (List T) → String → V → Fields → Type 0
  Stepped shape elems key value fields =
      ((key ≡ "shape")
        × (shape ≡ none)
        × ((s : List ℕ) × (as_shape value ≡ ok s) × ◌≡◌ {A = Fields} (some s, elems) fields))
      ⊎ ((key ≡ "data")
          × (elems ≡ none)
          × ((d : List T) × (as_elems value ≡ ok d) × ◌≡◌ {A = Fields} (shape, some d) fields))

  absent : {A : Type 0} (o : Option A) → is_some o ≡ false → o ≡ none
  absent (some a) h = cc
  absent none h = refl

  field_step :
      (field : TensorSerdeField) (shape : Option (List ℕ)) (elems : Option (List T)) (key : String)
      (value : V) (fields : Fields)
      → key ≡ field_name field
      → visit_field as_shape as_elems field shape elems value ≡ ok fields
      → Stepped shape elems key value fields
  unfolding visit_field
  field_step TensorSerdeField.shape_field shape elems key value fields n h =
      let (a, h1) = >>-eq-ok _ _ h in
      let (s, b, e) = >>=-eq-ok (as_shape value) _ h1 in
      inl (n, absent shape (reject_if-eq-ok _ _ a), (s, b, ok_injective e))
  field_step TensorSerdeField.data_field shape elems key value fields n h =
      let (a, h1) = >>-eq-ok _ _ h in
      let (d, b, e) = >>=-eq-ok (as_elems value) _ h1 in
      inr (n, absent elems (reject_if-eq-ok _ _ a), (d, b, ok_injective e))

  -- The first entry of a map that is read, and the rest of it.
  visit_entries-cons :
      (shape : Option (List ℕ)) (elems : Option (List T)) (key : String) (value : V)
      (entries : List (String × V)) (r : Fields)
      → visit_entries as_shape as_elems shape elems ((key, value) ∷ entries) ≡ ok r
      → (fields : Fields) × Stepped shape elems key value fields
        × (visit_entries as_shape as_elems fields.0 fields.1 entries ≡ ok r)
  unfolding visit_entries
  visit_entries-cons shape elems key value entries r h =
      let (field, a, h1) = >>=-eq-ok (visit_str key) _ h in
      let (fields, b, h2) =
        >>=-eq-ok (visit_field as_shape as_elems field shape elems value) _ h1 in
      (fields, field_step field shape elems key value fields (visit_str-eq key a) b, h2)

  abbrev Leaves : Option (List ℕ) → Option (List T) → List (String × V) → Fields → Type 0
  Leaves shape elems entries r = visit_entries as_shape as_elems shape elems entries ≡ ok r

  resume :
      (x : Fields) (fields : Fields) (entries : List (String × V)) (r : Fields)
      → x ≡ fields
      → Leaves fields.0 fields.1 entries r
      → Leaves x.0 x.1 entries r
  resume x fields entries r e h = subst (λ (y : Fields). Leaves y.0 y.1 entries r) (sym e) h

  -- After both fields no entry may follow.
  after_both :
      (s : List ℕ) (d : List T) (entries : List (String × V)) (r : Fields)
      → Leaves (some s) (some d) entries r
      → (entries ≡ []) × (◌≡◌ {A = Fields} r (some s, some d))
  unfolding visit_entries
  after_both s d [] r h = (refl, sym (ok_injective h))
  after_both s d ((key, value) ∷ entries) r h =
      let (fields, step, rest) = visit_entries-cons (some s) (some d) key value entries r h in
      elim step [ inl (n, p, q) ↦ none_not_some p refl | inr (n, p, q) ↦ none_not_some p refl ]

  -- After the shape, the elements follow alone, and after the elements the shape.
  after_shape :
      (s s' : List ℕ) (d' : List T) (entries : List (String × V))
      → Leaves (some s) none entries (some s', some d')
      → (v : V) × (entries ≡ ("data", v) ∷ []) × (s ≡ s') × (as_elems v ≡ ok d')
  unfolding visit_entries
  after_shape s s' d' [] h = none_not_some refl (ap (λ (x : Fields). x.1) (ok_injective h))
  after_shape s s' d' ((key, value) ∷ entries) h =
      let (fields, step, rest) =
        visit_entries-cons (some s) none key value entries (some s', some d') h in
      elim step [
        | inl (n, p, q) ↦ none_not_some p refl
        | inr (n, p, (d, b, e)) ↦
            let (none_left, same) =
              after_both s d entries (some s', some d')
                (resume (some s, some d) fields entries (some s', some d') e rest) in
            (
              value,
              (λ i. (n i, value) ∷ none_left i),
              some_injective (ap (λ (x : Fields). x.0) (sym same)),
              b ∙ ap ok (some_injective (ap (λ (x : Fields). x.1) (sym same))),
            )
      ]

  after_elems :
      (s' : List ℕ) (d d' : List T) (entries : List (String × V))
      → Leaves none (some d) entries (some s', some d')
      → (u : V) × (entries ≡ ("shape", u) ∷ []) × (d ≡ d') × (as_shape u ≡ ok s')
  unfolding visit_entries
  after_elems s' d d' [] h = none_not_some refl (ap (λ (x : Fields). x.0) (ok_injective h))
  after_elems s' d d' ((key, value) ∷ entries) h =
      let (fields, step, rest) =
        visit_entries-cons none (some d) key value entries (some s', some d') h in
      elim step [
        | inl (n, p, (s, b, e)) ↦
            let (none_left, same) =
              after_both s d entries (some s', some d')
                (resume (some s, some d) fields entries (some s', some d') e rest) in
            (
              value,
              (λ i. (n i, value) ∷ none_left i),
              some_injective (ap (λ (x : Fields). x.1) (sym same)),
              b ∙ ap ok (some_injective (ap (λ (x : Fields). x.0) (sym same))),
            )
        | inr (n, p, q) ↦ none_not_some p refl
      ]

  -- A map of a shape and of elements, in either order.
  abbrev pub TwoFields : List (String × V) → List ℕ → List T → Type 0
  TwoFields entries s d =
      (u : V) × (v : V) × (as_shape u ≡ ok s)
      × (as_elems v ≡ ok d)
      × ((entries ≡ ("shape", u) ∷ ("data", v) ∷ []) ⊎ (entries ≡ ("data", v) ∷ ("shape", u) ∷ []))

  -- A loop that reads both fields read such a map.
  pub entries_read :
      (s : List ℕ) (d : List T) (entries : List (String × V))
      → Leaves none none entries (some s, some d)
      → TwoFields entries s d
  unfolding visit_entries
  entries_read s d [] h = none_not_some refl (ap (λ (x : Fields). x.0) (ok_injective h))
  entries_read s d ((key, value) ∷ entries) h =
      let (fields, step, rest) =
        visit_entries-cons none none key value entries (some s, some d) h in
      elim step [
        | inl (n, p, (s', b, e)) ↦
            let (v, q, t, a) =
              after_shape s' s d entries
                (resume (some s', none) fields entries (some s, some d) e rest) in
            (value, v, b ∙ ap ok t, a, inl (λ i. (n i, value) ∷ q i))
        | inr (n, p, (d', b, e)) ↦
            let (u, q, t, a) =
              after_elems s d' d entries
                (resume (none, some d') fields entries (some s, some d) e rest) in
            (u, value, a, b ∙ ap ok t, inr (λ i. (n i, value) ∷ q i))
      ]

  -- And such a map is read.
  pub entries_reads :
      (s : List ℕ) (d : List T) (entries : List (String × V))
      → TwoFields entries s d
      → Leaves none none entries (some s, some d)
  unfolding visit_entries visit_str visit_field
  entries_reads s d entries (u, v, a, b, inl e) = rw (e, a, b) refl
  entries_reads s d entries (u, v, a, b, inr e) = rw (e, a, b) refl
