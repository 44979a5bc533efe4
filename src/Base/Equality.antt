-- ===== src/Base/Equality.antt =====
-- Equality of keys as an instance argument.
use Prim.Native.Nat.{ℕ}
use Prim.Native.String.{String}
use mathlib.Core.Path.{◌≡◌}
use mathlib.Core.Logic.{◌↔◌, ◌≢◌}
use mathlib.Core.Bool.{Bool, true, false, ◌&&◌}
use native.Mathlib.Omega.{arith}
use text.Mathlib.Text.{◌==◌ as str_eq}
use text.Mathlib.TextEquality.{eq_iff}
use sproutboat.Base.Tests.{◌==◌, ==_iff}

pub record Eq {ℓ} (A : Type ℓ) : Type ℓ where
  pub beq : A → A → Bool
  pub beq_iff : (a b : A) → (beq a b ≡ true) ↔ (a ≡ b)

pub ne_of_beq {ℓ} : {A : Type ℓ} ⦃e : Eq A⦄ {a b : A} → e.beq a b ≡ false → a ≢ b
ne_of_beq ⦃e⦄ {a} {b} h same = cc ((e.beq_iff a b).1 same)

instance abbrev pub nat_eq : Eq ℕ
nat_eq = record { beq = ◌==◌; beq_iff = ==_iff }

instance abbrev pub string_eq : Eq String
string_eq = record { beq = str_eq; beq_iff = eq_iff }

pub pair_iff {ℓ κ} :
    {A : Type ℓ} {B : Type κ} ⦃a : Eq A⦄ ⦃b : Eq B⦄ (x y : A × B)
    → ((a.beq x.0 y.0 && b.beq x.1 y.1) ≡ true) ↔ (x ≡ y)
pair_iff ⦃a⦄ ⦃b⦄ (x, p) (y, q) = ground (arith, a.beq_iff x y, b.beq_iff p q)

instance abbrev pub pair_eq {ℓ κ} : {A : Type ℓ} {B : Type κ} ⦃a : Eq A⦄ ⦃b : Eq B⦄ → Eq (A × B)
pair_eq ⦃a⦄ ⦃b⦄ = record {
  beq = λ x y. a.beq x.0 y.0 && b.beq x.1 y.1;
  beq_iff = λ x y. pair_iff x y;
}
