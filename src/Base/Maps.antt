-- ===== src/Base/Maps.antt =====
-- A Go map as an association list: its order is the order in which one `range` visits it.
use mathlib.Core.Path.{◌≡◌, refl}
use mathlib.Core.Logic.{inl, inr}
use mathlib.Core.Bool.{Bool, false}
use mathlib.Core.List.{List, [], ◌∷◌}
use mathlib.Core.Option.{Option, none, some}
use native.Mathlib.Omega.{arith}
use mit.Base.Tests.{if◌then◌else◌, is_some, Bool-cases}
use mit.Base.Keys.{Eq, ◌==◌, beq-eq}
use mit.Base.Lists.{contains, Distinct}

abbrev pub Map {ℓ κ} : Type ℓ → Type κ → Type (ℓ ⊔ κ)
Map K V = List (K × V)

abbrev pub keys {ℓ κ} : {K : Type ℓ} {V : Type κ} → Map K V → List K
keys [] = []
keys ((k, v) ∷ m) = k ∷ keys m

module _ {ℓ κ} {K : Type ℓ} {V : Type κ} ⦃e : Eq K⦄ where
  unfoldable pub lookup : K → Map K V → Option V
  lookup key [] = none
  lookup key ((j, here) ∷ m) = if key == j then some here else lookup key m

  -- `_, ok := m[k]`
  abbrev pub has : K → Map K V → Bool
  has k m = is_some (lookup k m)

  -- `m[k] = v`
  unfoldable pub insert : K → V → Map K V → Map K V
  insert k new [] = (k, new) ∷ []
  insert k new ((j, old) ∷ m) = if k == j then (k, new) ∷ m else (j, old) ∷ insert k new m

  -- `delete(m, k)`
  unfoldable pub erase : K → Map K V → Map K V
  erase k [] = []
  erase k ((j, w) ∷ m) = if k == j then erase k m else (j, w) ∷ erase k m

module _ {ℓ κ} {K : Type ℓ} {V : Type κ} ⦃e : Eq K⦄ where
  pub has-contains : (k : K) (m : Map K V) → has k m ≡ contains k (keys m)
  unfolding lookup contains
  has-contains k [] = refl
  has-contains k ((j, v) ∷ m) = ground (arith, has-contains k m)

  pub lookup-insert :
      (k j : K) (v : V) (m : Map K V)
      → lookup j (insert k v m) ≡ (if j == k then some v else lookup j m)
  unfolding lookup insert
  lookup-insert k j v [] = refl
  lookup-insert k j v ((i, w) ∷ m) =
      ground (arith, e.beq_iff j k, e.beq_iff k i, e.beq_iff j i, lookup-insert k j v m)

  pub lookup-erase :
      (k j : K) (m : Map K V) → lookup j (erase k m) ≡ (if j == k then none else lookup j m)
  unfolding lookup erase
  lookup-erase k j [] = ground arith
  lookup-erase k j ((i, w) ∷ m) =
      ground (arith, e.beq_iff j k, e.beq_iff k i, e.beq_iff j i, lookup-erase k j m)

  contains-insert :
      (k j : K) (v : V) (m : Map K V)
      → (j == k) ≡ false
      → contains j (keys (insert k v m)) ≡ contains j (keys m)
  unfolding insert contains
  contains-insert k j v [] h = rw h
  contains-insert k j v ((i, w) ∷ m) h =
      ground (arith, e.beq_iff j k, e.beq_iff k i, e.beq_iff j i, contains-insert k j v m h)

  contains-erase :
      (k j : K) (m : Map K V) → contains j (keys m) ≡ false → contains j (keys (erase k m)) ≡ false
  unfolding erase contains
  contains-erase k j [] h = refl
  contains-erase k j ((i, w) ∷ m) h = ground (arith, contains-erase k j m)

  pub Distinct-insert :
      (k : K) (v : V) (m : Map K V) → Distinct (keys m) → Distinct (keys (insert k v m))
  unfolding insert contains
  Distinct-insert k v [] d = (refl, tt)
  Distinct-insert k v ((i, w) ∷ m) d = elim (Bool-cases (k == i)) [
    | inl h ↦ rw h (rw (← beq-eq k i h) at d)
    | inr h ↦ rw h (
      ground (arith, contains-insert k i v m, e.beq_iff i k, e.beq_iff k i, d),
      Distinct-insert k v m d.1,
    )
  ]

  pub Distinct-erase : (k : K) (m : Map K V) → Distinct (keys m) → Distinct (keys (erase k m))
  unfolding erase
  Distinct-erase k [] d = tt
  Distinct-erase k ((i, w) ∷ m) d = ground (arith, contains-erase k i m, Distinct-erase k m)
