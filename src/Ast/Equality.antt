-- ===== src/Ast/Equality.antt =====
-- The derived equality of expressions (`#[derive(PartialEq)]` in crates/knok-core/src/ast.rs), which
-- compares them part by part, as a decision.
use mathlib.Core.Logic.{◌↔◌}
use text.Mathlib.Text.{◌==◌ as str_eq}
use text.Mathlib.TextEquality.{eq_iff}
use native.Mathlib.Decide.{ℕ_discrete}
use knok.Base.{◌≡◌, refl, Bool, true, false, String}
use knok.Ast.Op.{CallOp}
use knok.Ast.Graph.{Expr}

dec_of_test : {A : Type 0} (b : Bool) → (b ≡ true) ↔ A → Dec A
dec_of_test true h = yes (h.0 refl)
dec_of_test false h = no (λ a. cc (h.1 a))

String-discrete : Discrete String
unfolding dec_of_test
String-discrete s t = dec_of_test (str_eq s t) (eq_iff s t)

CallOp-discrete : Discrete CallOp
unfolding ℕ_discrete String-discrete
CallOp-discrete = hlevel (ℕ_discrete, String-discrete)

Expr-discrete : Discrete Expr
unfolding ℕ_discrete CallOp-discrete String-discrete
Expr-discrete = hlevel (ℕ_discrete, CallOp-discrete, String-discrete)

decided : {A : Type 0} → Dec A → Bool
decided (yes _) = true
decided (no _) = false

-- `PartialEq` of expressions.
unfoldable pub expr_eq : Expr → Expr → Bool
unfolding decided Expr-discrete
expr_eq a b = decided (Expr-discrete a b)

pub expr_eq_sound : (a b : Expr) → expr_eq a b ≡ true → a ≡ b
unfolding expr_eq
expr_eq_sound a b = sound (Expr-discrete a b)
  where
    sound : (d : Dec (a ≡ b)) → decided d ≡ true → a ≡ b
    sound (yes p) h = p
    sound (no p) h = cc

pub expr_eq_refl : (a : Expr) → expr_eq a a ≡ true
unfolding expr_eq
expr_eq_refl a = self (Expr-discrete a a)
  where
    self : (d : Dec (a ≡ a)) → decided d ≡ true
    self (yes p) = refl
    self (no p) = absurd (p refl)
