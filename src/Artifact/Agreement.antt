-- ===== src/Artifact/Agreement.antt =====
-- The loops of crates/knok/src/graph.rs decide equality, and read no descriptor out of range.
use knok.Base.{
  ℕ, zero, suc, ◌+◌, ◌≡◌, ◌≢◌, ◌↔◌, ◌⊎◌, refl, sym, ap, ap₂, ◌∙◌, Bool, true, false, ◌==◌, ==_iff,
  List, [], ◌∷◌, length, drop, drop_all, get_elem?, get_elem?-some, some, Result, ok, err, message,
  Bool-cases, inl, inr, arith, false_not_true, some_injective,
}
use knok.Base.Vec.{index}
use knok.Artifact.Metadata.{DType, TensorDesc, GraphArtifact}
use knok.Artifact.Signatures.{dtype_code, compare_from, desc_matches, signatures_match, new_graph}

-- A test that returns, and returns `true` exactly on equal values.
abbrev pub Decides : {A : Type 0} → Result Bool → A → A → Type 0
Decides r x y = (b : Bool) × (r ≡ ok b) × ((b ≡ true) ↔ (x ≡ y))

drop-cons :
    {A : Type 0} (xs : List A) (i : ℕ) (x : A)
    → get_elem? xs i ≡ some x
    → drop i xs ≡ x ∷ drop (suc i) xs
drop-cons [] i x h = cc
drop-cons (y ∷ xs) zero x h = ap (λ z. z ∷ xs) (some_injective h)
drop-cons (y ∷ xs) (suc i) x h = drop-cons xs i x h

module _ {A : Type 0} (test : A → A → Result Bool)
    (decides : (x y : A) → Decides (test x y) x y) where
  -- The loop decides whether the rest of the lists is equal.
  compare_from-Decides :
      (rounds i : ℕ) (xs ys : List A)
      → i + rounds ≡ length xs
      → length xs ≡ length ys
      → Decides (compare_from test rounds i xs ys) (drop i xs) (drop i ys)
  unfolding compare_from index
  compare_from-Decides zero i xs ys h k = (
    true,
    refl,
    ((λ _. drop_all i xs (omega arith) ∙ sym (drop_all i ys (omega arith))), λ _. refl),
  )
  compare_from-Decides (suc rounds) i xs ys h k =
      let (x, e) = get_elem?-some xs i (omega arith) in
      let (y, f) = get_elem?-some ys i (omega arith) in
      let (b, run, same) = decides x y in
      let p = drop-cons xs i x e in
      let q = drop-cons ys i y f in
      elim (Bool-cases b) [
        | inl t ↦
            let (c, rest, same') = compare_from-Decides rounds (suc i) xs ys (omega arith) k in
            (
              c,
              rw e (rw f (rw run (rw t rest))),
              (
                (λ u. p ∙ (ap₂ ◌∷◌ (same.0 t) (same'.0 u) ∙ sym q)),
                λ u. same'.1 (tails (sym p ∙ (u ∙ q))),
              ),
            )
        | inr t ↦ (
          false,
          rw e (rw f (rw run (rw t refl))),
          ((λ u. cc), λ u. false_not_true t (same.1 (heads (sym p ∙ (u ∙ q))))),
        )
      ]
    where
      heads : {a b : A} {r s : List A} → a ∷ r ≡ b ∷ s → a ≡ b
      heads h = cc

      tails : {a b : A} {r s : List A} → a ∷ r ≡ b ∷ s → r ≡ s
      tails h = cc

dtype_code_injective : (a b : DType) → dtype_code a ≡ dtype_code b → a ≡ b
unfolding dtype_code
dtype_code_injective a b h = ground arith

desc_matches-Decides : (x y : TensorDesc) → Decides (desc_matches x y) x y
unfolding desc_matches
desc_matches-Decides x y = elim (Bool-cases (dtype_code x.elem == dtype_code y.elem)) [
  | inr e ↦ (
    false,
    rw e refl,
    (
      (λ u. cc),
      λ u. false_not_true e ((==_iff _ _).1 (ap (λ (d : TensorDesc). dtype_code d.elem) u)),
    ),
  )
  | inl e ↦ elim (Bool-cases (length x.shape == length y.shape)) [
    | inr f ↦ (
      false,
      rw e (rw f refl),
      (
        (λ u. cc),
        λ u. false_not_true f ((==_iff _ _).1 (ap (λ (d : TensorDesc). length d.shape) u)),
      ),
    )
    | inl f ↦
        let (b, run, same) =
          compare_from-Decides (λ m n. ok (m == n)) (λ m n. (m == n, refl, ==_iff m n))
            (length x.shape) 0 x.shape y.shape (omega arith) ((==_iff _ _).0 f) in
        (
          b,
          rw e (rw f run),
          (
            (λ u.
                ap₂ (λ d s. record { elem = d; shape = s })
                  (dtype_code_injective x.elem y.elem ((==_iff _ _).0 e)) (same.0 u)),
            λ u. same.1 (ap (λ (d : TensorDesc). d.shape) u),
          ),
        )
  ]
]

-- The comparison of two signatures returns, without reading out of range, and says whether they are
-- equal: as many descriptors, with the same element types and shapes.
pub signatures_match-Decides :
    (expected actual : List TensorDesc) → Decides (signatures_match expected actual) expected actual
unfolding signatures_match
signatures_match-Decides expected actual = elim (Bool-cases (length expected == length actual)) [
  | inr e ↦ (false, rw e refl, ((λ u. cc), λ u. false_not_true e ((==_iff _ _).1 (ap length u))))
  | inl e ↦
      let (b, run, same) =
        compare_from-Decides desc_matches desc_matches-Decides (length expected) 0 expected actual
          (omega arith) ((==_iff _ _).0 e) in
      (b, rw e run, same)
]

-- A handle is made exactly if both signatures are those of the artifact; if the inputs differ the
-- error names the inputs, and if only the outputs differ it names the outputs.
pub new_graph_lem :
    (inputs outputs : List TensorDesc) (artifact : GraphArtifact)
    → ((new_graph inputs outputs artifact ≡ ok artifact)
        × (inputs ≡ artifact.input_descs)
        × (outputs ≡ artifact.output_descs))
      ⊎ (((new_graph inputs outputs artifact
              ≡ err (message "graph input signature does not match the typed handle"))
            × (inputs ≢ artifact.input_descs))
          ⊎ ((new_graph inputs outputs artifact
                ≡ err (message "graph output signature does not match the typed handle"))
              × (inputs ≡ artifact.input_descs)
              × (outputs ≢ artifact.output_descs)))
unfolding new_graph
new_graph_lem inputs outputs artifact =
    let (b, run, same) = signatures_match-Decides inputs artifact.input_descs in
    let (c, run', same') = signatures_match-Decides outputs artifact.output_descs in
    elim (Bool-cases b) [
      | inr e ↦ inr (inl (rw run (rw e refl), λ u. false_not_true e (same.1 u)))
      | inl e ↦ elim (Bool-cases c) [
        | inr f ↦
            inr (
              inr
                (rw run (rw e (rw run' (rw f refl))), same.0 e, λ u. false_not_true f (same'.1 u)))
        | inl f ↦ inl (rw run (rw e (rw run' (rw f refl))), same.0 e, same'.0 f)
      ]
    ]
