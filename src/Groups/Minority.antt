-- ===== src/Groups/Minority.antt =====
-- MakePartition and then Partition, as the tests use them.
use mit.Base.{
  ℕ, zero, suc, ◌+◌, ◌<◌, String, true, false, ◌||◌, ◌&&◌, List, [], ◌∷◌, ◌++◌, ltb, leb, ◌==◌,
  nat_eq, nat_beq_iff, length, length-append, contains, Distinct, All, ◌≡◌, refl, sym, ap, inl, inr,
  arith, Bool-cases, subst, not,
}
use mit.Base.Exec.{returns}
use mit.Groups.{ServerGrp, partition, make_partition}
use mit.Groups.Ends.{IsNamed, AreApart, AreServers}
use mit.Groups.Partitions.{AreDisjoint, IsPartitioned, partition-IsPartitioned}
use mit.Groups.Halves.{others, IsHalved, make_partition-IsHalved}

contains-append :
    (i : ℕ) (xs ys : List ℕ) → contains i (xs ++ ys) ≡ (contains i xs || contains i ys)
unfolding contains
contains-append i [] ys = refl
contains-append i (x ∷ xs) ys = ground (arith, contains-append i xs ys)

contains-others :
    (l i left x : ℕ) → contains x (others l i left) ≡ (leb i x && ltb x (i + left) && not (x == l))
unfolding contains others
contains-others l i zero x = ground arith
contains-others l i (suc left) x = ground (arith, contains-others l (suc i) left x)

Distinct-others : (l i left : ℕ) → Distinct (others l i left)
unfolding others
Distinct-others l i zero = tt
Distinct-others l i (suc left) = elim (Bool-cases (i == l)) [
  | inl e ↦ rw e (Distinct-others l (suc i) left)
  | inr e ↦ rw e (ground (arith, contains-others l (suc i) left i), Distinct-others l (suc i) left)
]

Distinct-snoc :
    (xs : List ℕ) (x : ℕ) → Distinct xs → contains x xs ≡ false → Distinct (xs ++ x ∷ [])
unfolding contains
Distinct-snoc [] x d h = (refl, tt)
Distinct-snoc (y ∷ xs) x d h = (
  ground (arith, contains-append y xs (x ∷ []), nat_beq_iff y x, nat_beq_iff x y, d.0, h),
  Distinct-snoc xs x d.1 (ground (arith, h)),
)

Distinct-AreDisjoint : (p1 p2 : List ℕ) → Distinct (p1 ++ p2) → AreDisjoint p1 p2
unfolding contains
Distinct-AreDisjoint [] p2 d i m = cc
Distinct-AreDisjoint (x ∷ p1) p2 d i m = elim (Bool-cases (i == x)) [
  | inl e ↦ rw ((nat_beq_iff i x).0 e) (ground (arith, contains-append x p1 p2, d.0))
  | inr e ↦ Distinct-AreDisjoint p1 p2 d.1 i (ground (arith, e, m))
]

All-below : (n : ℕ) (xs : List ℕ) → ((i : ℕ) → contains i xs ≡ true → i < n) → All (λ i. i < n) xs
unfolding contains
All-below n [] h = tt
All-below n (x ∷ xs) h =
    (h x (ground (arith, nat_beq_iff x x)), All-below n xs (λ i m. h i (ground (arith, m))))

-- What MakePartition's lists have in them.
pub record IsSplit (n l : ℕ) (p1 p2 : List ℕ) : Type 0 where
  pub covers : (i : ℕ) → (contains i p1 || contains i p2) ≡ ltb i n
  pub disjoint : AreDisjoint p1 p2
  pub leader : contains l p2 ≡ true

IsHalved-IsSplit :
    (n l : ℕ) (p1 p2 : List ℕ) → l < n → 0 < length p2 → IsHalved n l p1 p2 → IsSplit n l p1 p2
unfolding contains
IsHalved-IsSplit n l p1 p2 lt some_ h =
    let fresh : contains l (others l 0 n) ≡ false =
      ground (arith, contains-others l 0 n l, nat_beq_iff l l) in
    let distinct : Distinct (p1 ++ p2) =
      subst (λ xs. Distinct xs) (sym h.together)
        (Distinct-snoc (others l 0 n) l (Distinct-others l 0 n) fresh) in
    let all_in = λ (i : ℕ). ap (contains i) h.together in
    record {
      covers = λ i. ground (
        arith,
        all_in i,
        contains-append i p1 p2,
        contains-append i (others l 0 n) (l ∷ []),
        contains-others l 0 n i,
        nat_beq_iff i l,
      );
      disjoint = Distinct-AreDisjoint p1 p2 distinct;
      leader = last_in p1 p2 (others l 0 n) l h.together some_;
    }
  where
    tail : List ℕ → List ℕ
    tail [] = []
    tail (x ∷ xs) = xs

    last_in :
        (xs ys zs : List ℕ) (v : ℕ) → xs ++ ys ≡ zs ++ v ∷ [] → 0 < length ys → contains v ys ≡ true
    last_in [] ys [] v e some_ = ground (arith, ap (contains v) e, nat_beq_iff v v)
    last_in [] ys (z ∷ zs) v e some_ =
        ground (arith, ap (contains v) e, nat_beq_iff v v, contains-append v zs (v ∷ []))
    last_in (x ∷ xs) ys [] v e some_ = absurd (omega (arith, ap length e, length-append xs ys))
    last_in (x ∷ xs) ys (z ∷ zs) v e some_ = last_in xs ys zs v (ap tail e) some_

-- MakePartition of an odd number of servers, three or more, gives each server to just one of its two
-- lists, `l` to the second one, which is the smaller by one; Partition of the lists then returns, and servers
-- are linked if they are in the same list and not if they are in different ones.
pub make_partition-IsPartitioned :
    (k l : ℕ) (name : ℕ → ℕ → String) (apart : AreApart (k + k + 1) name) (sg : ServerGrp)
    → 0 < k
    → l < k + k + 1
    → IsNamed (k + k + 1) name sg
    → (p1 p2 : List ℕ) × (sg' : ServerGrp) × (make_partition (k + k + 1) l ≡ returns (p1, p2))
      × (partition p1 p2 sg ≡ returns sg')
      × IsSplit (k + k + 1) l p1 p2
      × (length p1 ≡ length p2 + 1)
      × IsPartitioned (k + k + 1) name apart p1 p2 sg sg'
make_partition-IsPartitioned k l name apart sg pos lt named =
    let (p1, p2, ran, h) = make_partition-IsHalved k l pos lt in
    let s = IsHalved-IsSplit (k + k + 1) l p1 p2 lt (omega (arith, h.second_size)) h in
    let below1 : AreServers (k + k + 1) name p1 =
      All-below (k + k + 1) p1 (λ i m. ground (arith, s.covers i)) in
    let below2 : AreServers (k + k + 1) name p2 =
      All-below (k + k + 1) p2 (λ i m. ground (arith, s.covers i)) in
    let (sg', ran', p) =
      partition-IsPartitioned (k + k + 1) name apart p1 p2 sg named below1 below2 s.disjoint in
    (p1, p2, sg', ran, ran', s, omega (arith, h.first_size, h.second_size), p)
