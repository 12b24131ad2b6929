-- ===== src/Common/Eq.antt =====
-- Equality tests as an interface: one `==` for identifiers, keys and enumerations.
use text.Mathlib.Text.{◌==◌ as str_eq}
use text.Mathlib.TextEquality.{eq_iff}
use leave_ledger.Common.Tests.{nat_eq, nat_eq_iff}
use Prim.Native.Nat.{ℕ}
use Prim.Native.String.{String}
use mathlib.Core.Path.{◌≡◌, refl}
use mathlib.Core.Logic.{◌↔◌}
use mathlib.Core.Bool.{Bool, true}

pub record Eq {ℓ} (Value : Type ℓ) : Type ℓ where
  pub same : Value → Value → Bool
  pub same_iff : (x y : Value) → (same x y ≡ true) ↔ (x ≡ y)

instance abbrev pub String-Eq : Eq String
String-Eq = record { same = str_eq; same_iff = eq_iff }

instance abbrev pub ℕ-Eq : Eq ℕ
ℕ-Eq = record { same = nat_eq; same_iff = nat_eq_iff }

module _ {ℓ} {Value : Type ℓ} ⦃test : Eq Value⦄ where
  infix 50 ◌==◌
  abbrev pub ◌==◌ : Value → Value → Bool
  x == y = test.same x y

  pub eq_self : (x : Value) → (x == x) ≡ true
  eq_self x = (test.same_iff x x).1 refl

  pub eq_of_same : (x y : Value) → (x == y) ≡ true → x ≡ y
  eq_of_same x y = (test.same_iff x y).0
