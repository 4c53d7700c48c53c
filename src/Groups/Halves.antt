-- ===== src/Groups/Halves.antt =====
-- MakePartition: the two lists of servers that it makes of a group with an odd number of servers.
use mit.Base.{
  ℕ, zero, suc, ◌+◌, ◌-◌, ◌/◌, ◌≤◌, ◌<◌, true, false, List, [], ◌∷◌, ◌++◌, if◌then◌else◌, ltb, ◌==◌,
  nat_eq, length, set, replicate, length-append, length-set, snoc-append, ◌≡◌, refl, sym, ap, ◌∙◌,
  inl, inr, arith, Bool-cases,
}
use mit.Base.Exec.{returns}
use mit.Groups.{place, make_partition}

-- The servers from `i`, `left` of them, without `l`.
unfoldable pub others : ℕ → ℕ → ℕ → List ℕ
others l i zero = []
others l i (suc left) = if i == l then others l (suc i) left else i ∷ others l (suc i) left

write_from : ℕ → List ℕ → List ℕ → List ℕ
write_from j [] xs = xs
write_from j (y ∷ ys) xs = write_from (suc j) ys (set xs j y)

set-append :
    (p1 p2 : List ℕ) (j v : ℕ)
    → set (p1 ++ p2) j v
      ≡ (if ltb j (length p1) then set p1 j v ++ p2 else p1 ++ set p2 (j - length p1) v)
set-append [] p2 j v = ground arith
set-append (x ∷ p1) p2 zero v = ground arith
set-append (x ∷ p1) p2 (suc j) v = ground (arith, set-append p1 p2 j v)

place-writes :
    (l i left j : ℕ) (p1 p2 : List ℕ)
    → j + length (others l i left) ≤ length p1 + length p2
    → (q1 q2 : List ℕ) × (place l i left j p1 p2 ≡ returns (q1, q2))
      × (length q1 ≡ length p1)
      × (length q2 ≡ length p2)
      × (q1 ++ q2 ≡ write_from j (others l i left) (p1 ++ p2))
unfolding place others write_from
place-writes l i zero j p1 p2 h = (p1, p2, refl, refl, refl, refl)
place-writes l i (suc left) j p1 p2 h = elim (Bool-cases (i == l)) [
  | inl skip ↦
      let (q1, q2, ran, n1, n2, is) =
        place-writes l (suc i) left j p1 p2 (ground (arith, skip, h)) in
      (q1, q2, ground (arith, skip, ran), n1, n2, ground (arith, skip, is))
  | inr placed ↦
      let room : j + suc (length (others l (suc i) left)) ≤ length p1 + length p2 =
        ground (arith, placed, h) in
      elim (Bool-cases (ltb j (length p1))) [
        | inl first ↦
            let (q1, q2, ran, n1, n2, is) =
              place-writes l (suc i) left (j + 1) (set p1 j i) p2
                (omega (arith, room, length-set p1 j i)) in
            let same : set (p1 ++ p2) j i ≡ set p1 j i ++ p2 =
              ground (arith, set-append p1 p2 j i, first) in
            (
              q1,
              q2,
              ground (arith, placed, first, ran),
              n1 ∙ length-set p1 j i,
              n2,
              is ∙ ground (arith, placed, same),
            )
        | inr second ↦
            let k = j - length p1 in
            let (q1, q2, ran, n1, n2, is) =
              place-writes l (suc i) left (j + 1) p1 (set p2 k i)
                (omega (arith, room, length-set p2 k i)) in
            let same : set (p1 ++ p2) j i ≡ p1 ++ set p2 k i =
              ground (arith, set-append p1 p2 j i, second) in
            let fits : ltb k (length p2) ≡ true = ground (arith, room, second) in
            (
              q1,
              q2,
              ground (arith, placed, second, fits, ran),
              n1,
              n2 ∙ length-set p2 k i,
              is ∙ ground (arith, placed, same),
            )
      ]
]

set_middle : (xs ys : List ℕ) (y v : ℕ) → set (xs ++ y ∷ ys) (length xs) v ≡ xs ++ v ∷ ys
set_middle [] ys y v = refl
set_middle (x ∷ xs) ys y v = ap (◌∷◌ x) (set_middle xs ys y v)

write_from-fills :
    (a ys zs : List ℕ)
    → length zs ≡ length ys + 1
    → (z : ℕ) × (write_from (length a) ys (a ++ zs) ≡ a ++ (ys ++ z ∷ []))
unfolding write_from
write_from-fills a [] [] h = absurd (omega arith)
write_from-fills a [] (z ∷ []) h = (z, refl)
write_from-fills a [] (z ∷ z1 ∷ zs) h = absurd (omega arith)
write_from-fills a (y ∷ ys) [] h = absurd (omega arith)
write_from-fills a (y ∷ ys) (z ∷ zs) h =
    let (last, is) = write_from-fills (a ++ y ∷ []) ys zs (omega arith) in
    (
      last,
      ground (
        arith,
        set_middle a zs z y,
        snoc-append a y zs,
        snoc-append a y (ys ++ last ∷ []),
        length-append a (y ∷ []),
        is,
      ),
    )

length-others_above : (l i left : ℕ) → l < i → length (others l i left) ≡ left
unfolding others
length-others_above l i zero h = refl
length-others_above l i (suc left) h = ground (arith, length-others_above l (suc i) left)

length-others : (l i left : ℕ) → i ≤ l → l < i + left → length (others l i left) + 1 ≡ left
unfolding others
length-others l i zero h k = absurd (omega arith)
length-others l i (suc left) h k = elim (Bool-cases (i == l)) [
  | inl e ↦ ground (arith, e, length-others_above l (suc i) left)
  | inr e ↦ ground (arith, e, length-others l (suc i) left)
]

length-replicate : (n v : ℕ) → length (replicate n v) ≡ n
length-replicate zero v = refl
length-replicate (suc n) v = ap suc (length-replicate n v)

-- The two parts of a group with an odd number of servers, at least three: together they are the
-- servers other than `l` in their order and then `l`, which so is in the second part; the first part
-- is larger by one.
pub record IsHalved (n l : ℕ) (p1 p2 : List ℕ) : Type 0 where
  pub together : p1 ++ p2 ≡ others l 0 n ++ l ∷ []
  pub first_size : length p1 ≡ n / 2 + 1
  pub second_size : length p2 ≡ n / 2

pub make_partition-IsHalved :
    (k l : ℕ)
    → 0 < k
    → l < k + k + 1
    → (p1 p2 : List ℕ) × (make_partition (k + k + 1) l ≡ returns (p1, p2))
      × IsHalved (k + k + 1) l p1 p2
unfolding make_partition
make_partition-IsHalved k l pos h =
    let n = k + k + 1 in
    let half : n / 2 ≡ k = omega arith in
    let r1 = replicate (n / 2 + 1) 0 in
    let r2 = replicate (n / 2) 0 in
    let z1 : length r1 ≡ k + 1 = omega (arith, length-replicate (n / 2 + 1) 0, half) in
    let z2 : length r2 ≡ k = omega (arith, length-replicate (n / 2) 0, half) in
    let some_ = length-others l 0 n (omega arith) (omega arith) in
    let (q1, q2, ran, n1, n2, is) = place-writes l 0 n 0 r1 r2 (omega (arith, z1, z2, some_)) in
    let (z, fills) =
      write_from-fills [] (others l 0 n) (r1 ++ r2)
        (omega (arith, length-append r1 r2, z1, z2, some_)) in
    let last = length q2 - 1 in
    let above : ltb (length (others l 0 n)) (length q1) ≡ false =
      ground (arith, some_, n1, z1, pos) in
    let at : length (others l 0 n) - length q1 ≡ last = omega (arith, some_, n1, n2, z1, z2) in
    let set_last : set (q1 ++ q2) (length (others l 0 n)) l ≡ q1 ++ set q2 last l =
      ground (arith, set-append q1 q2 (length (others l 0 n)) l, above, at) in
    (
      q1,
      set q2 last l,
      ground (arith, ran, n2, z2, pos),
      record {
        together =
            sym set_last
            ∙ ap (λ (xs : List ℕ). set xs (length (others l 0 n)) l) (is ∙ fills)
            ∙ set_middle (others l 0 n) [] z l;
        first_size = omega (arith, n1, z1, half);
        second_size = omega (arith, length-set q2 last l, n2, z2, half);
      },
    )
