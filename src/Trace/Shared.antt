-- ===== src/Trace/Shared.antt =====
-- Maps from node ids: what a lookup finds after an insertion.
use knok.Base.{ℕ, ◌≡◌, ◌≢◌, refl, List, ◌∷◌, some, ==_refl, arith}
use knok.Trace.Normalize.{find}

module _ {A : Type 0} (node_id : ℕ) (value : A) (entries : List (ℕ × A)) where
  pub find-same : find node_id ((node_id, value) ∷ entries) ≡ some value
  unfolding find
  find-same = rw (==_refl node_id) refl

  pub find-other :
      (other : ℕ) → other ≢ node_id → find other ((node_id, value) ∷ entries) ≡ find other entries
  unfolding find
  find-other other h = ground arith
