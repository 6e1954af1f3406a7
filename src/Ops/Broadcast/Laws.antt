-- ===== src/Ops/Broadcast/Laws.antt =====
-- The laws of broadcasting, from NumPy's rule: the loop of crates/knok-core/src/ops/common.rs is
-- commutative, idempotent and associative, and an operand broadcasts to the result.
use mathlib.Core.Path.{subst₃}
use knok.Base.{
  ℕ, ◌-◌, ◌≤◌, ◌<◌, ◌≡◌, refl, sym, ap, subst, ◌∙◌, inl, inr, Bool, List, [], length, get_or, leb,
  leb→le, le→leb, lt→leb_false, Bool-cases, ok, arith,
}
use knok.Ops.Common.{broadcast_shape_slices}
use knok.Ops.Broadcast.{dim_at, Merges, Broadcasts, broadcast_shape_slices_iff}

Merges-comm : (a b d : ℕ) → Merges a b d → Merges b a d
Merges-comm a b d h = ground arith

Merges-assoc : (a b c d e f : ℕ) → Merges a b d → Merges d c e → Merges b c f → Merges a f e
Merges-assoc a b c d e f p q r = ground arith

Merges-absorb : (a b d : ℕ) → Merges a b d → Merges a d d
Merges-absorb a b d h = ground arith

-- A shape is its own alignment in as many places.
dim_at_self : (s : List ℕ) (i : ℕ) → dim_at (length s) s i ≡ get_or s i 1
dim_at_self s i =
    rw (zero_gap (length s), le→leb 0 i (omega arith)) (ap (λ p. get_or s p 1) (omega arith))
  where
    zero_gap : (n : ℕ) → n - n ≡ 0
    zero_gap n = omega arith

dim_at_shift :
    (xs : List ℕ) (n N i : ℕ)
    → length xs ≤ n
    → n ≤ N
    → N - n ≤ i
    → dim_at N xs i ≡ dim_at n xs (i - (N - n))
dim_at_shift xs n N i a b c = elim (Bool-cases (leb (N - length xs) i)) [
  | inl e ↦
      rw (e, le→leb (n - length xs) (i - (N - n)) (ground arith))
        (ap (λ p. get_or xs p 1) (omega arith))
  | inr e ↦ rw (e, lt→leb_false (n - length xs) (i - (N - n)) (ground arith)) refl
]

dim_at_before : (xs : List ℕ) (n N i : ℕ) → length xs ≤ n → i < N - n → dim_at N xs i ≡ 1
dim_at_before xs n N i a b = rw (lt→leb_false (N - length xs) i (omega arith)) refl

-- The rule holds in any larger alignment too.
lift_rank :
    {l r s : List ℕ}
    → Broadcasts l r s
    → (N i : ℕ) → length s ≤ N
    → i < N
    → Merges (dim_at N l i) (dim_at N r i) (dim_at N s i)
lift_rank {l} {r} {s} b N i h k = elim (Bool-cases (leb (N - length s) i)) [
  | inl e ↦
      let g : N - length s ≤ i = leb→le (N - length s) i e in
      subst₃ Merges (sym (dim_at_shift l (length s) N i (omega (arith, b.ranks)) h g))
        (sym (dim_at_shift r (length s) N i (omega (arith, b.ranks)) h g))
        (sym (dim_at_shift s (length s) N i (omega arith) h g ∙ dim_at_self s (i - (N - length s))))
        (b.dims (i - (N - length s)) (omega arith))
  | inr e ↦
      let g : i < N - length s = ground arith in
      subst₃ Merges (sym (dim_at_before l (length s) N i (omega (arith, b.ranks)) g))
        (sym (dim_at_before r (length s) N i (omega (arith, b.ranks)) g))
        (sym (dim_at_before s (length s) N i (omega arith) g)) (inl (refl, refl))
]

module _ (c : Bool) where
  -- The order of the operands does not matter.
  pub broadcast_comm :
      (l r : List ℕ) {s : List ℕ}
      → broadcast_shape_slices c l r ≡ ok s
      → broadcast_shape_slices c r l ≡ ok s
  broadcast_comm l r {s} h =
      let b = (broadcast_shape_slices_iff c l r s).0 h in
      (broadcast_shape_slices_iff c r l s).1
        (record { ranks = omega (arith, b.ranks); dims = λ i lt. Merges-comm _ _ _ (b.dims i lt) })

  -- A shape broadcasts with itself to itself.
  pub broadcast_self : (s : List ℕ) → broadcast_shape_slices c s s ≡ ok s
  broadcast_self s =
      (broadcast_shape_slices_iff c s s s).1
        (record { ranks = omega arith; dims = λ i lt. inl (refl, sym (dim_at_self s i)) })

  -- A rank-0 operand leaves the other shape as it is.
  pub broadcast_scalar : (s : List ℕ) → broadcast_shape_slices c [] s ≡ ok s
  broadcast_scalar s = (broadcast_shape_slices_iff c [] s s).1 (record {
    ranks = omega arith;
    dims = λ i lt.
        inr (
          inl (dim_at_before [] 0 (length s) i (omega arith) (omega arith), sym (dim_at_self s i)));
  })

  -- The common shape of two operands, broadcast with the left one, is itself.
  pub broadcast_absorb :
      (l r : List ℕ) {s : List ℕ}
      → broadcast_shape_slices c l r ≡ ok s
      → broadcast_shape_slices c l s ≡ ok s
  broadcast_absorb l r {s} h =
      let b = (broadcast_shape_slices_iff c l r s).0 h in
      (broadcast_shape_slices_iff c l s s).1 (record {
        ranks = omega (arith, b.ranks);
        dims = λ i lt.
            subst (λ d. Merges (dim_at (length s) l i) d (get_or s i 1)) (sym (dim_at_self s i))
              (Merges-absorb _ _ _ (b.dims i lt));
      })

  -- If `l` and `r` broadcast, their common shape and `t` do, and `r` and `t` do, then `l` and the
  -- common shape of `r` and `t` broadcast to the same shape as the first grouping.
  pub broadcast_assoc :
      (l r t : List ℕ) {s u v : List ℕ}
      → broadcast_shape_slices c l r ≡ ok s
      → broadcast_shape_slices c s t ≡ ok u
      → broadcast_shape_slices c r t ≡ ok v
      → broadcast_shape_slices c l v ≡ ok u
  broadcast_assoc l r t {s} {u} {v} hs hu hv =
      let a = (broadcast_shape_slices_iff c l r s).0 hs in
      let b = (broadcast_shape_slices_iff c s t u).0 hu in
      let d = (broadcast_shape_slices_iff c r t v).0 hv in
      let n = length u in
      (broadcast_shape_slices_iff c l v u).1 (record {
        ranks = omega (arith, a.ranks, b.ranks, d.ranks);
        dims = λ i lt.
            Merges-assoc _ _ _ _ _ _ (lift_rank a n i (omega (arith, b.ranks)) lt) (b.dims i lt)
              (lift_rank d n i (omega (arith, a.ranks, b.ranks, d.ranks)) lt);
      })
