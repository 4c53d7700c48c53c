-- ===== src/Shardkv/Loads.antt =====
-- Balanced loads where there are at most as many groups as shards.
use mit.Base.{
  ℕ, suc, ◌+◌, ◌≤◌, ◌<◌, true, false, List, [], ◌∷◌, ◌==◌, nat_eq, length, contains, count,
  Distinct, All, ◌≡◌, refl, inl, inr, arith, Bool-cases,
}
use mit.Base.Int.{int_eq, beq_ℤ_iff}
use mit.ShardCfg.{Tgid, is_member_of}

unfoldable total : List Tgid → List Tgid → ℕ
total shards [] = 0
total shards (k ∷ ks) = count k shards + total shards ks

total_off :
    (x : Tgid) (shards ks : List Tgid)
    → contains x ks ≡ false
    → total (x ∷ shards) ks ≡ total shards ks
unfolding total contains count
total_off x shards [] h = refl
total_off x shards (k ∷ ks) h = ground (arith, total_off x shards ks, beq_ℤ_iff x k, beq_ℤ_iff k x)

total_on :
    (x : Tgid) (shards ks : List Tgid)
    → contains x ks ≡ true
    → Distinct ks
    → total (x ∷ shards) ks ≡ suc (total shards ks)
unfolding total contains count
total_on x shards [] h d = cc
total_on x shards (k ∷ ks) h d = elim (Bool-cases (x == k)) [
  | inl e ↦
      let is = (beq_ℤ_iff x k).0 e in
      ground (arith, e, total_off k shards ks d.0, is, beq_ℤ_iff k k, beq_ℤ_iff k x)
  | inr e ↦ ground (arith, e, total_on x shards ks, d.1, beq_ℤ_iff k x, beq_ℤ_iff x k)
]

total_none : (ks : List Tgid) → total [] ks ≡ 0
unfolding total count
total_none [] = refl
total_none (k ∷ ks) = omega (arith, total_none ks)

total-length :
    (shards ks : List Tgid)
    → Distinct ks
    → All (λ g. contains g ks ≡ true) shards
    → total shards ks ≡ length shards
unfolding total
total-length [] ks d a = total_none ks
total-length (x ∷ shards) ks d a =
    omega (arith, total_on x shards ks a.0 d, total-length shards ks d a.1)

total-bound :
    (shards ks : List Tgid)
    → ((k : Tgid) → contains k ks ≡ true → count k shards ≤ 1)
    → total shards ks ≤ length ks
unfolding total contains
total-bound shards [] h = omega arith
total-bound shards (k ∷ ks) h = omega (
  arith,
  h k (ground (arith, beq_ℤ_iff k k)),
  total-bound shards ks (λ x m. h x (ground (arith, m))),
)

-- One group without a shard takes one off the bound.
total_idle :
    (shards ks : List Tgid) (g : Tgid)
    → contains g ks ≡ true
    → count g shards ≡ 0
    → ((k : Tgid) → contains k ks ≡ true → count k shards ≤ 1)
    → suc (total shards ks) ≤ length ks
unfolding total contains
total_idle shards [] g m zero_ h = cc
total_idle shards (k ∷ ks) g m zero_ h = elim (Bool-cases (g == k)) [
  | inl e ↦
      let is = (beq_ℤ_iff g k).0 e in
      let none_ : count k shards ≡ 0 = rw (← is) zero_ in
      omega (arith, none_, total-bound shards ks (λ x n. h x (ground (arith, n))))
  | inr e ↦ omega (
    arith,
    h k (ground (arith, beq_ℤ_iff k k)),
    total_idle shards ks g (ground (arith, e, m)) zero_ (λ x n. h x (ground (arith, n))),
  )
]

pub count_pos-balanced :
    (shards ks : List Tgid) (g : Tgid)
    → Distinct ks
    → All (λ x. contains x ks ≡ true) shards
    → length ks ≤ length shards
    → contains g ks ≡ true
    → ((k : Tgid) → contains k ks ≡ true → count k shards ≤ count g shards + 1)
    → 0 < count g shards
count_pos-balanced shards ks g d a few m b = elim (Bool-cases (0 == count g shards)) [
  | inl e ↦
      let idle : count g shards ≡ 0 = ground (arith, e) in
      absurd (
        omega (
          arith,
          total-length shards ks d a,
          total_idle shards ks g m idle (λ k n. omega (arith, b k n, idle)),
        ))
  | inr e ↦ ground (arith, e)
]

pub is_member-count :
    (g : Tgid) (shards : List Tgid) → 0 < count g shards → is_member_of g shards ≡ true
unfolding is_member_of count
is_member-count g [] h = absurd (omega arith)
is_member-count g (x ∷ shards) h =
    ground (arith, is_member-count g shards, beq_ℤ_iff g x, beq_ℤ_iff x g)

pub is_member-none :
    (g : Tgid) (shards ks : List Tgid)
    → All (λ x. contains x ks ≡ true) shards
    → contains g ks ≡ false
    → is_member_of g shards ≡ false
unfolding is_member_of
is_member-none g [] ks a h = refl
is_member-none g (x ∷ shards) ks a h = elim (Bool-cases (x == g)) [
  | inl e ↦ let is = (beq_ℤ_iff x g).0 e in absurd (cc (rw is at a.0, h))
  | inr e ↦ ground (arith, e, is_member-none g shards ks a.1 h)
]
