-- ===== src/Base/Keys.antt =====
-- Go's `==` on keys, as an interface with its law, and what the law gives.
use Prim.Native.Nat.{ℕ, compare, Ordering}
use Prim.Native.String.{String}
use mathlib.Core.Path.{◌≡◌, refl}
use mathlib.Core.Logic.{◌↔◌, ◌≢◌, inl, inr}
use mathlib.Core.Bool.{Bool, true, false}
use native.Mathlib.Omega.{arith}
use text.Mathlib.Text.{◌==◌ as str_eq}
use text.Mathlib.TextEquality.{eq_iff}
use mit.Base.Tests.{Bool-cases}

-- The interface: a test, and that it holds exactly of equal values.
pub record Eq {ℓ} (K : Type ℓ) : Type ℓ where
  pub same? : K → K → Bool
  pub beq_iff : (x y : K) → (same? x y ≡ true) ↔ (x ≡ y)

abbrev pub nat_beq : ℕ → ℕ → Bool
nat_beq a b = elim (compare a b) [ Ordering.eq ↦ true | _ ↦ false ]

pub nat_beq_iff : (a b : ℕ) → (nat_beq a b ≡ true) ↔ (a ≡ b)
nat_beq_iff a b = ground arith

instance abbrev pub nat_eq : Eq ℕ
nat_eq = record { same? = nat_beq; beq_iff = nat_beq_iff }

instance abbrev pub string_eq : Eq String
string_eq = record { same? = str_eq; beq_iff = eq_iff }

infix 50 ◌==◌
abbrev pub ◌==◌ {ℓ} : {K : Type ℓ} → ⦃key : Eq K⦄ → K → K → Bool
◌==◌ ⦃key⦄ x y = key.same? x y

module _ {ℓ} {A : Type ℓ} ⦃e : Eq A⦄ where
  pub beq-eq : (a b : A) → (a == b) ≡ true → a ≡ b
  beq-eq a b h = (e.beq_iff a b).0 h

  pub beq_refl : (a : A) → (a == a) ≡ true
  beq_refl a = (e.beq_iff a a).1 refl

  pub beq-false : (a b : A) → a ≢ b → (a == b) ≡ false
  beq-false a b n = elim (Bool-cases (a == b)) [ inl h ↦ absurd (n (beq-eq a b h)) | inr h ↦ h ]

  pub ne_of_beq-false : (a b : A) → (a == b) ≡ false → a ≢ b
  ne_of_beq-false a b h p = cc (h, (e.beq_iff a b).1 p)
