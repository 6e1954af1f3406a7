-- ===== src/Ops/Broadcast.antt =====
-- What broadcasting promises, said without the loop of crates/knok-core/src/ops/common.rs: NumPy's
-- rule on shapes aligned at their last dimensions, and the proof that the loop follows it.
use knok.Base.{
  ℕ, zero, suc, ◌+◌, ◌-◌, ◌≤◌, ◌<◌, ◌≡◌, refl, sym, ap, subst, ◌∙◌, ◌⊎◌, inl, inr, ◌↔◌, Bool, true,
  false, List, [], ◌∷◌, Option, none, some, length, max, get_or, get_elem?, get_elem?-some, leb,
  ◌==◌, ==_iff, if◌then◌else◌, Bool-cases, Result, ok, err, panic, ◌>>=◌, Runs, >>=-Runs, >>=-eq-ok,
  ok_injective, arith,
}
pub mod Laws
use native.Mathlib.Nat.{add-zero, zero-add}
use mathlib.Core.Path.{subst₂}
use knok.Base.Usize.{sub_usize, sub_usize-exact}
use knok.Base.Vec.{index}
use knok.Ops.Common.{dim_from_trailing, broadcast_dim, broadcast_rounds, broadcast_shape_slices}

-- Dimension `i` of a shape that is aligned to the right in `n` places: 1 where it has none.
abbrev pub dim_at : ℕ → List ℕ → ℕ → ℕ
dim_at n xs i = if leb (n - length xs) i then get_or xs (i - (n - length xs)) 1 else 1

-- Two dimensions make a third: they are equal, or one of them is 1 and yields to the other.
abbrev pub Merges : ℕ → ℕ → ℕ → Type 0
Merges a b d = ((a ≡ b) × (d ≡ a)) ⊎ (((a ≡ 1) × (d ≡ b)) ⊎ ((b ≡ 1) × (d ≡ a)))

-- NumPy's rule.
pub record Broadcasts (l r s : List ℕ) : Type 0 where
  pub ranks : length s ≡ max (length l) (length r)
  pub dims :
      (i : ℕ) → i < length s → Merges (dim_at (length s) l i) (dim_at (length s) r i) (get_or s i 1)

-- The dimension that the loop reads, as an option.
abbrev opt_at : ℕ → List ℕ → ℕ → Option ℕ
opt_at n xs i = if leb (n - length xs) i then some (get_or xs (i - (n - length xs)) 1) else none

abbrev or_one : Option ℕ → ℕ
or_one none = 1
or_one (some d) = d

index-get_or : (xs : List ℕ) (i : ℕ) → i < length xs → index xs i ≡ ok (get_or xs i 1)
unfolding index
index-get_or [] i h = elim h [ ]
index-get_or (x ∷ xs) zero h = refl
index-get_or (x ∷ xs) (suc i) h = index-get_or xs i (omega arith)

dim_from_trailing_lem :
    (c : Bool) (xs : List ℕ) (n i : ℕ)
    → length xs ≤ n
    → i < n
    → dim_from_trailing c xs n i ≡ ok (opt_at n xs i)
unfolding dim_from_trailing
dim_from_trailing_lem c xs n i h k =
    rw (sub_usize-exact c n (length xs) h) (by_test (Bool-cases (leb (n - length xs) i)))
  where
    by_test :
        (leb (n - length xs) i ≡ true) ⊎ (leb (n - length xs) i ≡ false)
        → (if leb (n - length xs) i
            then (sub_usize c i (n - length xs) >>= λ place.
                index xs place >>= λ dim. ok (some dim))
            else ok none)
          ≡ ok (opt_at n xs i)
    by_test (inl e) =
        rw
          (
            e,
            sub_usize-exact c i (n - length xs) (ground arith),
            index-get_or xs (i - (n - length xs)) (ground arith),
          )
          refl
    by_test (inr e) = rw e refl

broadcast_dim→Merges :
    (k : ℕ) (a b : Option ℕ) (d : ℕ) → broadcast_dim k a b ≡ ok d → Merges (or_one a) (or_one b) d
unfolding broadcast_dim
broadcast_dim→Merges k none none d h = cc
broadcast_dim→Merges k none (some y) d h = ground arith
broadcast_dim→Merges k (some x) none d h = ground arith
broadcast_dim→Merges k (some x) (some y) d h = ground arith

-- The loop never meets two missing dimensions, since the rank is that of one of the shapes.
abbrev Present : Option ℕ → Option ℕ → Type 0
Present none none = ⊥
Present _ _ = Unit

Merges→broadcast_dim :
    (k : ℕ) (a b : Option ℕ) (d : ℕ)
    → Present a b
    → Merges (or_one a) (or_one b) d
    → broadcast_dim k a b ≡ ok d
unfolding broadcast_dim
Merges→broadcast_dim k none none d p h = absurd p
Merges→broadcast_dim k none (some y) d p h = ground arith
Merges→broadcast_dim k (some x) none d p h = ground arith
Merges→broadcast_dim k (some x) (some y) d p h = ground arith

or_one-opt_at : (n : ℕ) (xs : List ℕ) (i : ℕ) → or_one (opt_at n xs i) ≡ dim_at n xs i
or_one-opt_at n xs i = elim (Bool-cases (leb (n - length xs) i)) [
  | inl e ↦ rw e refl
  | inr e ↦ rw e refl
]

broadcast_dim-Runs : (k : ℕ) (a b : Option ℕ) → Present a b → Runs (broadcast_dim k a b)
unfolding broadcast_dim
broadcast_dim-Runs k none none p = absurd p
broadcast_dim-Runs k none (some y) p = tt
broadcast_dim-Runs k (some x) none p = tt
broadcast_dim-Runs k (some x) (some y) p = ground arith

module _ (c : Bool) (l r : List ℕ) (n : ℕ) (hl : length l ≤ n) (hr : length r ≤ n) where
  -- What the rounds from place `o` on promise of the `m` dimensions that they push.
  abbrev Merged : ℕ → ℕ → List ℕ → Type 0
  Merged m o s =
      (length s ≡ m)
      × ((i : ℕ) → i < m → Merges (dim_at n l (o + i)) (dim_at n r (o + i)) (get_or s i 1))

  Merged-cons :
      (m o d : ℕ) (s : List ℕ)
      → Merges (dim_at n l o) (dim_at n r o) d
      → Merged m (suc o) s
      → Merged (suc m) o (d ∷ s)
  Merged-cons m o d s h k = (ap suc k.0, at)
    where
      at :
          (i : ℕ)
          → i < suc m
          → Merges (dim_at n l (o + i)) (dim_at n r (o + i)) (get_or (d ∷ s) i 1)
      at zero lt = rw add-zero h
      at (suc i) lt = rw (shift i) (k.1 i (omega arith))
        where
          shift : (i : ℕ) → o + suc i ≡ suc o + i
          shift i = omega arith

  Merged-uncons :
      (m o d : ℕ) (s : List ℕ)
      → Merged (suc m) o (d ∷ s)
      → Merges (dim_at n l o) (dim_at n r o) d × Merged m (suc o) s
  Merged-uncons m o d s k = (
    rw add-zero at (k.1 0 (omega arith)),
    (omega (arith, k.0), λ i lt. rw (← shift i) (k.1 (suc i) (omega arith))),
  )
    where
      shift : (i : ℕ) → o + suc i ≡ suc o + i
      shift i = omega arith

  round_lem :
      (m o : ℕ)
      → o < n
      → broadcast_rounds c l r n (suc m) o ≡ (
          broadcast_dim o (opt_at n l o) (opt_at n r o) >>= λ d.
          broadcast_rounds c l r n m (suc o) >>= λ rest. ok (d ∷ rest))
  unfolding broadcast_rounds
  round_lem m o h = rw (dim_from_trailing_lem c l n o hl h, dim_from_trailing_lem c r n o hr h)

  rounds→Merged :
      (m o : ℕ) (s : List ℕ) → m + o ≡ n → broadcast_rounds c l r n m o ≡ ok s → Merged m o s
  unfolding broadcast_rounds
  rounds→Merged zero o s e h = (ap length (sym (ok_injective h)), λ i k. elim k [ ])
  rounds→Merged (suc m) o s e h =
      let (d, p, q) =
        >>=-eq-ok (broadcast_dim o (opt_at n l o) (opt_at n r o)) _
          (sym (round_lem m o (omega arith)) ∙ h) in
      let (rest, p', q') = >>=-eq-ok (broadcast_rounds c l r n m (suc o)) _ q in
      subst (Merged (suc m) o) (ok_injective q') (
        Merged-cons m o d rest
          (subst₂ (λ x y. Merges x y d) (or_one-opt_at n l o) (or_one-opt_at n r o)
            (broadcast_dim→Merges o (opt_at n l o) (opt_at n r o) d p))
          (rounds→Merged m (suc o) rest (omega arith) p'))

  opt_at-Present :
      (i : ℕ) → i < n → n ≡ max (length l) (length r) → Present (opt_at n l i) (opt_at n r i)
  opt_at-Present i h e = elim (Bool-cases (leb (n - length l) i)) [
    | inl p ↦ rw p (any (get_or l (i - (n - length l)) 1) (opt_at n r i))
    | inr p ↦ elim (Bool-cases (leb (n - length r) i)) [
      | inl q ↦ rw (p, q) tt
      | inr q ↦ absurd (ground arith)
    ]
  ]
    where
      any : (a : ℕ) (o : Option ℕ) → Present (some a) o
      any a none = tt
      any a (some b) = tt

  Merged→rounds :
      n ≡ max (length l) (length r)
      → (m o : ℕ) (s : List ℕ) → m + o ≡ n
      → Merged m o s
      → broadcast_rounds c l r n m o ≡ ok s
  unfolding broadcast_rounds
  Merged→rounds full zero o [] e k = refl
  Merged→rounds full zero o (d ∷ s) e k = absurd (omega (arith, k.0))
  Merged→rounds full (suc m) o [] e k = absurd (omega (arith, k.0))
  Merged→rounds full (suc m) o (d ∷ s) e k =
      let (h, t) = Merged-uncons m o d s k in
      round_lem m o (omega arith)
      ∙ rw
          (
            Merges→broadcast_dim o (opt_at n l o) (opt_at n r o) d
                (opt_at-Present o (omega arith) full)
                (subst₂ (λ x y. Merges x y d) (sym (or_one-opt_at n l o))
                  (sym (or_one-opt_at n r o)) h),
            Merged→rounds full m (suc o) s (omega arith) t,
          )
          refl

  broadcast_rounds-Runs :
      n ≡ max (length l) (length r) → (m o : ℕ) → m + o ≡ n → Runs (broadcast_rounds c l r n m o)
  unfolding broadcast_rounds
  broadcast_rounds-Runs full zero o e = tt
  broadcast_rounds-Runs full (suc m) o e = subst Runs (sym (round_lem m o (omega arith))) (
      >>=-Runs (broadcast_dim o (opt_at n l o) (opt_at n r o)) _
        (broadcast_dim-Runs o _ _ (opt_at-Present o (omega arith) full))
        (λ d _.
          >>=-Runs (broadcast_rounds c l r n m (suc o)) _
            (broadcast_rounds-Runs full m (suc o) (omega arith)) (λ rest _. tt)))

-- Broadcasting returns or reports an error; it reads no dimension that is not there.
pub broadcast_shape_slices-Runs : (c : Bool) (l r : List ℕ) → Runs (broadcast_shape_slices c l r)
unfolding broadcast_shape_slices
broadcast_shape_slices-Runs c l r =
    broadcast_rounds-Runs c l r (max (length l) (length r)) (omega arith) (omega arith) refl
      (max (length l) (length r)) 0 (omega arith)

-- With or without overflow checks, the loop returns a shape exactly when the shape has the larger
-- rank and each of its dimensions merges the two right-aligned ones: equal, or one of them 1.
pub broadcast_shape_slices_iff :
    (c : Bool) (l r s : List ℕ) → (broadcast_shape_slices c l r ≡ ok s) ↔ Broadcasts l r s
unfolding broadcast_shape_slices
broadcast_shape_slices_iff c l r s = (only, back)
  where
    at_rank : (n p i : ℕ) → Type 0
    at_rank n p i = Merges (dim_at n l p) (dim_at n r p) (get_or s i 1)

    n : ℕ
    n = max (length l) (length r)

    only : broadcast_rounds c l r n n 0 ≡ ok s → Broadcasts l r s
    only h =
        let (e, k) = rounds→Merged c l r n (omega arith) (omega arith) n 0 s (omega arith) h in
        record {
          ranks = e;
          dims = λ i lt.
              subst (λ m. at_rank m i i) (sym e)
                (subst (λ p. at_rank n p i) (zero-add i) (k i (omega arith)));
        }

    back : Broadcasts l r s → broadcast_rounds c l r n n 0 ≡ ok s
    back b = Merged→rounds c l r n (omega arith) (omega arith) refl n 0 s (omega arith) (
      b.ranks,
      λ i lt.
          subst (λ p. at_rank n p i) (sym (zero-add i))
            (subst (λ m. at_rank m i i) b.ranks (b.dims i (omega (arith, b.ranks)))),
    )
