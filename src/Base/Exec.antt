-- ===== src/Base/Exec.antt =====
-- How a call of Go code ends: with a value, with the whole process or test stopped
-- (`log.Fatalf`, `t.Fatalf`, `os.Exit`), with a run-time panic, or not within the fuel.

use mathlib.Core.Path.{◌≡◌, refl}

pub data Exec {ℓ} (A : Type ℓ) : Type ℓ where
  returns : A → Exec A
  fatal panics diverges : Exec A

infixl 5 ◌>>=◌ ◌>>◌
abbrev pub ◌>>=◌ {ℓ κ} : {A : Type ℓ} {B : Type κ} → Exec A → (A → Exec B) → Exec B
returns a >>= f = f a
fatal >>= f = fatal
panics >>= f = panics
diverges >>= f = diverges

abbrev pub ◌>>◌ {ℓ} : {B : Type ℓ} → Exec (Unit {0}) → Exec B → Exec B
m >> k = m >>= λ _. k

-- Inversion of a bind that returns.
pub >>=-eq-returns {ℓ κ} :
    {A : Type ℓ} {B : Type κ} (m : Exec A) (f : A → Exec B) {b : B}
    → (m >>= f) ≡ returns b
    → (a : A) × (m ≡ returns a) × (f a ≡ returns b)
>>=-eq-returns (returns a) f h = (a, refl, h)
>>=-eq-returns fatal f h = cc
>>=-eq-returns panics f h = cc
>>=-eq-returns diverges f h = cc
