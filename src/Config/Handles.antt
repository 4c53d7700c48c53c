-- ===== src/Config/Handles.antt =====
-- random_handles.
use mathlib.Core.List.{Perm}
use mathlib.Core.List.Perm
use mit.Base.{
  ℕ, zero, suc, ◌+◌, ◌≤◌, some, List, [], ◌∷◌, length, get_elem?, set, ◌≡◌, refl, arith, length-set,
  get_elem?-below, nat_eq,
}
use mit.Base.Exec.{returns}
use mit.Config.{swap, shuffle, random_handles}

module _ {A : Type 0} where
  same : (x y : A) → some x ≡ some y → x ≡ y
  same x y e = cc e

  -- The first element trades places with element `k` of the rest.
  set-Perm :
      (x y : A) (xs : List A) (k : ℕ) → get_elem? xs k ≡ some y → Perm (y ∷ set xs k x) (x ∷ xs)
  set-Perm x y [] k h = cc
  set-Perm x y (z ∷ xs) zero h = rw (same z y h) (Perm.swap x y xs)
  set-Perm x y (z ∷ xs) (suc k) h =
      Perm.trans (Perm.swap z y (set xs k x))
        (Perm.trans (Perm.cons z (set-Perm x y xs k h)) (Perm.swap x z xs))

  swapped-Perm :
      (sa : List A) (i j : ℕ) (x y : A)
      → get_elem? sa i ≡ some x
      → get_elem? sa j ≡ some y
      → Perm (set (set sa i y) j x) sa
  swapped-Perm [] i j x y hi hj = cc
  swapped-Perm (z ∷ sa) zero zero x y hi hj = rw (same z x hi) (Perm.refl (x ∷ sa))
  swapped-Perm (z ∷ sa) zero (suc j) x y hi hj = rw (same z x hi) (set-Perm x y sa j hj)
  swapped-Perm (z ∷ sa) (suc i) zero x y hi hj = rw (same z y hj) (set-Perm y x sa i hi)
  swapped-Perm (z ∷ sa) (suc i) (suc j) x y hi hj = Perm.cons z (swapped-Perm sa i j x y hi hj)

  shuffle-Perm :
      (rand : ℕ → ℕ) (i left : ℕ) (sa : List A)
      → ((k : ℕ) → rand k ≤ k)
      → i + left ≡ length sa
      → (sa' : List A) × (shuffle rand i left sa ≡ returns sa') × Perm sa' sa
  unfolding shuffle swap
  shuffle-Perm rand i zero sa h size = (sa, refl, Perm.refl sa)
  shuffle-Perm rand i (suc left) sa h size =
      let (x, hx) = get_elem?-below sa i (omega arith) in
      let (y, hy) = get_elem?-below sa (rand i) (omega (arith, h i)) in
      let sa1 = set (set sa i y) (rand i) x in
      let (sa', ran, perm) =
        shuffle-Perm rand (suc i) left sa1 h
          (omega (arith, length-set (set sa i y) (rand i) x, length-set sa i y)) in
      (sa', ground (arith, hx, hy, ran), Perm.trans perm (swapped-Perm sa i (rand i) x y hx hy))

  -- Where `rand.Intn(k + 1)` gives a number up to `k`, random_handles returns, and its result is a
  -- permutation of the handles that it is given.
  pub random_handles-Perm :
      (rand : ℕ → ℕ) (kvh : List A)
      → ((k : ℕ) → rand k ≤ k)
      → (sa : List A) × (random_handles rand kvh ≡ returns sa) × Perm sa kvh
  unfolding random_handles
  random_handles-Perm rand kvh h = shuffle-Perm rand 0 (length kvh) kvh h (omega arith)
