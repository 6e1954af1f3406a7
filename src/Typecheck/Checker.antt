-- ===== src/Typecheck/Checker.antt =====
-- The type checker's methods of crates/knok-core/src/typecheck.rs take `&mut self`: an action reads the
-- cache of node types and returns it changed, or fails.
use knok.Base.{Bool, Result, ok, err, panic}
use knok.Base.Ensures.{Ensures, returns, throws, overflows, weaken}
use knok.Typecheck.Cache.{NodeTypeCache}

abbrev pub Checker : Type 0 → Type 0
Checker A = NodeTypeCache → Result (A × NodeTypeCache)

infixl 5 ◌>>=◌ ◌>>◌
abbrev pub ◌>>=◌ : {A B : Type 0} → Checker A → (A → Checker B) → Checker B
◌>>=◌ first next cache = elim (first cache) [ ok p ↦ next p.0 p.1 | err e ↦ err e | panic ↦ panic ]

abbrev pub ◌>>◌ : {B : Type 0} → Checker (Unit {0}) → Checker B → Checker B
first >> next = first >>= λ _. next

abbrev pub pure : {A : Type 0} → A → Checker A
pure a cache = ok (a, cache)

-- A call that does not touch the cache.
abbrev pub lift : {A : Type 0} → Result A → Checker A
lift (ok a) cache = ok (a, cache)
lift (err e) cache = err e
lift panic cache = panic

-- An action that keeps `V` of the cache and whose value has `P`; it panics only if `c` says that
-- overflow checks are on.
pub record Keeps {A : Type 0} (c : Bool) (V : NodeTypeCache → Type 0) (P : A → Type 0)
    (m : Checker A) : Type 0 where
  pub runs :
      (cache : NodeTypeCache)
      → V cache
      → Ensures {A = A × NodeTypeCache} c (λ p. P p.0 × V p.1) (m cache)

lifted :
    {c : Bool} (V : NodeTypeCache → Type 0) {A : Type 0} {P : A → Type 0} {r : Result A}
    → Ensures c P r
    → (cache : NodeTypeCache) → V cache
    → Ensures {A = A × NodeTypeCache} c (λ p. P p.0 × V p.1) (lift r cache)
lifted V (returns h) cache v = returns (h, v)
lifted V throws cache v = throws
lifted V (overflows h) cache v = overflows h

-- The rule of a bind for one run, where what is known of the cache changes.
pub run :
    {c : Bool} {A B : Type 0} {R : A × NodeTypeCache → Type 0} {S : B × NodeTypeCache → Type 0}
    {r : Result (A × NodeTypeCache)} (f : A → Checker B)
    → Ensures c R r
    → ((a : A) (cache : NodeTypeCache) → R (a, cache) → Ensures c S (f a cache))
    → Ensures c S (elim r [ ok p ↦ f p.0 p.1 | err e ↦ err e | panic ↦ panic ])
run f (returns {a} h) k = k a.0 a.1 h
run f throws k = throws
run f (overflows h) k = overflows h

module _ {c : Bool} {V : NodeTypeCache → Type 0} {A : Type 0} {P : A → Type 0} where
  chain :
      {B : Type 0} (Q : B → Type 0) {r : Result (A × NodeTypeCache)} (f : A → Checker B)
      → Ensures {A = A × NodeTypeCache} c (λ p. P p.0 × V p.1) r
      → ((a : A) → P a → Keeps c V Q (f a))
      → Ensures {A = B × NodeTypeCache} c
          (λ p. Q p.0 × V p.1)
          (elim r [ ok p ↦ f p.0 p.1 | err e ↦ err e | panic ↦ panic ])
  chain Q f (returns {a} h) k = (k a.0 h.0).runs a.1 h.1
  chain Q f throws k = throws
  chain Q f (overflows h) k = overflows h

  infixr 1 ◌⟫◌
  pub ◌⟫◌ :
      {B : Type 0} {Q : B → Type 0} {m : Checker A} {f : A → Checker B}
      → Keeps c V P m
      → ((a : A) → P a → Keeps c V Q (f a))
      → Keeps c V Q (m >>= f)
  ◌⟫◌ {Q} {f} h k = record { runs = λ cache v. chain Q f (h.runs cache v) k }

  pub lift-Keeps : {r : Result A} → Ensures c P r → Keeps c V P (lift r)
  lift-Keeps h = record { runs = lifted V h }

  pub pure-Keeps : {a : A} → P a → Keeps c V P (pure a)
  pure-Keeps h = record { runs = λ cache v. returns (h, v) }

  pub weaken-Keeps :
      {Q : A → Type 0} {m : Checker A} → Keeps c V P m → ((a : A) → P a → Q a) → Keeps c V Q m
  weaken-Keeps h g = record { runs = λ cache v. weaken (h.runs cache v) (λ p q. (g p.0 q.0, q.1)) }
