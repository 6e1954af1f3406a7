-- ===== src/Ops/Safety/MoveAxis.antt =====
-- The postcondition of `moveaxis` in crates/knok-core/src/ops/rules.rs: one dimension is taken out and
-- put in at another place.
use knok.Base.{
  ℕ, zero, suc, ◌+◌, ◌<◌, ◌≡◌, refl, sym, ap, ap₂, ◌∙◌, Bool, List, [], ◌∷◌, length,
  length-range_from, length-remove_at, get_elem?, get_elem?-some, drop, drop_all, remove_at,
  insert_at, range_from, Option, some, Result, ok, leb, ◌||◌, traverse, traverse-cons, ok_injective,
  arith,
}
use knok.Base.Vec.{index, get_elem?→index}
use knok.Base.Ensures.{
  Ensures, returns, ◌⟫◌, weaken, reject_if-Ensures, remove-Ensures, insert-Ensures,
}
use knok.Ast.Types.{TensorType, rank}
use knok.Ops.Permute.{select_dims, moveaxis_permutation, moveaxis_result_type}

module _ {A B : Type 0} (f : A → Result B) where
  traverse-remove_at :
      (xs : List A) (i : ℕ) {ys : List B}
      → traverse f xs ≡ ok ys
      → traverse f (remove_at xs i) ≡ ok (remove_at ys i)
  traverse-remove_at [] i h = rw (← ok_injective h) refl
  traverse-remove_at (x ∷ xs) zero h = let (y, r, p, q, e) = traverse-cons f x xs h in rw (← e) q
  traverse-remove_at (x ∷ xs) (suc i) h =
      let (y, r, p, q, e) = traverse-cons f x xs h in
      rw (← e) (rw (p, traverse-remove_at xs i q) refl)

  traverse-insert_at :
      (xs : List A) (i : ℕ) (x : A) {y : B} {ys : List B}
      → f x ≡ ok y
      → traverse f xs ≡ ok ys
      → traverse f (insert_at xs i x) ≡ ok (insert_at ys i y)
  traverse-insert_at xs zero x p h = rw (p, h) refl
  traverse-insert_at [] (suc i) x p h = rw (← ok_injective h) (rw p refl)
  traverse-insert_at (z ∷ xs) (suc i) x p h =
      let (w, r, q, k, e) = traverse-cons f z xs h in
      rw (← e) (rw (q, traverse-insert_at xs i x p k) refl)

-- Reading every place in order gives the list back.
index-drop :
    (xs : List ℕ) (k m : ℕ)
    → k + m ≡ length xs
    → traverse (index xs) (range_from k m) ≡ ok (drop k xs)
index-drop xs k zero h = rw (drop_all k xs (omega arith)) refl
index-drop xs k (suc m) h =
    let (x, p) = get_elem?-some xs k (omega arith) in
    rw (drop-step xs k p, get_elem?→index xs k p, index-drop xs (suc k) m (omega arith)) refl
  where
    drop-step :
        (xs : List ℕ) (k : ℕ) {x : ℕ} → get_elem? xs k ≡ some x → drop k xs ≡ x ∷ drop (suc k) xs
    drop-step [] k p = cc
    drop-step (y ∷ ys) zero p = cc
    drop-step (y ∷ ys) (suc k) p = drop-step ys k p

range-at : (a n i : ℕ) → i < n → get_elem? (range_from a n) i ≡ some (a + i)
range-at a zero i h = elim h [ ]
range-at a (suc n) zero h = ap some (omega arith)
range-at a (suc n) (suc i) h = range-at (suc a) n i (omega arith) ∙ ap some (omega arith)

module _ (c : Bool) where
  moveaxis_permutation-Ensures :
      (n source destination : ℕ)
      → Ensures c
          (λ axes.
            (source < n)
            × (axes ≡ insert_at (remove_at (range_from 0 n) source) destination source))
          (moveaxis_permutation n source destination)
  unfolding moveaxis_permutation
  moveaxis_permutation-Ensures n source destination =
      reject_if-Ensures (leb n source || leb n destination) _ ⟫ λ _ inside.
      let l : length (range_from 0 n) ≡ n = length-range_from 0 n in
      remove-Ensures (range_from 0 n) source (ground arith) ⟫ λ p (at, rest).
      let n1 : suc (length (remove_at (range_from 0 n) source)) ≡ n =
        length-remove_at (range_from 0 n) source (ground arith) ∙ l in
      weaken (insert-Ensures p.1 destination p.0 (rw rest (ground arith))) (λ axes e. (
        ground arith,
        e
            ∙ ap₂ (λ r x. insert_at r destination x) rest
                (same at (range-at 0 n source (ground arith))),
      ))
    where
      same : {o : Option ℕ} {x : ℕ} → o ≡ some x → o ≡ some (0 + source) → x ≡ source
      same {o} {x} p q = zero_plus (some_injective (sym p ∙ q))
        where
          some_injective : some x ≡ some (0 + source) → x ≡ 0 + source
          some_injective h = cc

          zero_plus : x ≡ 0 + source → x ≡ source
          zero_plus h = omega arith

  -- The dimension at `source` stands at `destination`, and the others keep their order.
  pub moveaxis_result_type-Ensures :
      (input : TensorType) (source destination : ℕ)
      → Ensures c
          (λ out.
            (out.elem ≡ input.elem)
            × ((d : ℕ) × (get_elem? input.shape source ≡ some d)
                × (out.shape ≡ insert_at (remove_at input.shape source) destination d)))
          (moveaxis_result_type input source destination)
  unfolding moveaxis_result_type rank select_dims
  moveaxis_result_type-Ensures input source destination =
      moveaxis_permutation-Ensures (length input.shape) source destination ⟫ λ axes (lt, e).
      let (d, p) = get_elem?-some input.shape source lt in
      rw (e, moved d p) (returns (refl, (d, p, refl)))
    where
      moved :
          (d : ℕ)
          → get_elem? input.shape source ≡ some d
          → traverse
              (index input.shape)
              (insert_at (remove_at (range_from 0 (length input.shape)) source) destination source)
            ≡ ok (insert_at (remove_at input.shape source) destination d)
      moved d p =
          traverse-insert_at (index input.shape) _ destination source (get_elem?→index _ _ p) (
            traverse-remove_at (index input.shape) _ source
              (index-drop input.shape 0 (length input.shape) (omega arith)))
