-- ===== src/ShardCfg/Level.antt =====
-- The last loop of Rebalance.
use mit.Base.{
  ℕ, zero, suc, ◌+◌, ◌-◌, ◌*◌, ◌≤◌, ◌<◌, ◌≡◌, refl, ◌∙◌, ◌≢◌, true, false, List, [], ◌∷◌, arith,
  subst, inl, inr, if◌then◌else◌, ◌==◌, beq-eq, beq_refl, Bool-cases, length, contains, count,
  Distinct, All, string_eq,
}
use mit.Base.Int.{pos, ◌+ℤ◌, ltb_ℤ, int_eq, beq_ℤ_iff}
use mit.Base.Maps.{keys}
use mit.Base.Exec.{returns}
use mit.ShardCfg.{Tgid, ShardConfig, Extremes, analyze, move_one, level}
use mit.ShardCfg.Counts.{count-move_one, length-move_one, All-move_one}
use mit.ShardCfg.Analyze.{IsAnalysis, analyze-IsAnalysis}

sum : (Tgid → ℕ) → List Tgid → ℕ
sum f [] = 0
sum f (k ∷ ks) = f k + sum f ks

pub sum_sq : (Tgid → ℕ) → List Tgid → ℕ
sum_sq f [] = 0
sum_sq f (k ∷ ks) = f k * f k + sum_sq f ks

sum_sq-le : (f : Tgid → ℕ) (ks : List Tgid) → sum_sq f ks ≤ sum f ks * sum f ks
unfolding sum sum_sq
sum_sq-le f [] = omega arith
sum_sq-le f (k ∷ ks) = grind (arith, sum_sq-le f ks)

-- A sum does not see a change away from its list, and sees one change at a member once.
module _ (f f' : Tgid → ℕ) (k : Tgid) (off : (g : Tgid) → (g == k) ≡ false → f' g ≡ f g) where
  sum_sq_off : (ks : List Tgid) → contains k ks ≡ false → sum_sq f' ks ≡ sum_sq f ks
  unfolding sum_sq contains
  sum_sq_off [] h = refl
  sum_sq_off (x ∷ ks) h = ground (arith, off x, beq_ℤ_iff k x, beq_ℤ_iff x k, sum_sq_off ks)

  sum_sq_at :
      (ks : List Tgid)
      → Distinct ks
      → contains k ks ≡ true
      → sum_sq f ks + f' k * f' k ≡ sum_sq f' ks + f k * f k
  unfolding sum_sq contains
  sum_sq_at [] d h = cc
  sum_sq_at (x ∷ ks) d h = elim (Bool-cases (k == x)) [
    | inl e ↦ rw (← beq-eq k x e) (omega (arith, sum_sq_off ks (rw (← beq-eq k x e) at (d.0))))
    | inr e ↦ ground (arith, off x, beq_ℤ_iff k x, beq_ℤ_iff x k, sum_sq_at ks d.1)
  ]

sum-count-cons :
    (x : Tgid) (gs ks : List Tgid)
    → contains x ks ≡ false
    → sum (λ g. count g (x ∷ gs)) ks ≡ sum (λ g. count g gs) ks
unfolding sum count contains
sum-count-cons x gs [] h = refl
sum-count-cons x gs (k ∷ ks) h =
    ground (arith, beq_ℤ_iff k x, beq_ℤ_iff x k, sum-count-cons x gs ks)

sum-count-cons-le :
    (x : Tgid) (gs ks : List Tgid)
    → Distinct ks
    → sum (λ g. count g (x ∷ gs)) ks ≤ suc (sum (λ g. count g gs) ks)
unfolding sum count
sum-count-cons-le x gs [] d = omega arith
sum-count-cons-le x gs (k ∷ ks) d = elim (Bool-cases (k == x)) [
  | inl e ↦ ground (arith, d.0, sum-count-cons x gs ks (rw (beq-eq k x e) at (d.0)))
  | inr e ↦ ground (arith, sum-count-cons-le x gs ks d.1)
]

sum-nil : (ks : List Tgid) → sum (λ g. count g []) ks ≡ 0
unfolding sum count
sum-nil [] = refl
sum-nil (k ∷ ks) = omega (arith, sum-nil ks)

-- Each shard is counted for at most one group.
sum-count-le : (gs ks : List Tgid) → Distinct ks → sum (λ g. count g gs) ks ≤ length gs
sum-count-le [] ks d = omega (arith, sum-nil ks)
sum-count-le (x ∷ gs) ks d = omega (arith, sum-count-cons-le x gs ks d, sum-count-le gs ks d)

abbrev pub load : List Tgid → List Tgid → ℕ
load ks gs = sum_sq (λ g. count g gs) ks

pub load-le : (gs ks : List Tgid) → Distinct ks → load ks gs ≤ length gs * length gs
load-le gs ks d = grind (arith, sum_sq-le (λ g. count g gs) ks, sum-count-le gs ks d)

squares :
    (a b s t u : ℕ)
    → b + 2 ≤ a
    → s + (a - 1) * (a - 1) ≡ t + a * a
    → t + (b + 1) * (b + 1) ≡ u + b * b
    → u < s
squares zero b s t u h p q = absurd (omega arith)
squares (suc a) b s t u h p q = grind arith

move_one-load :
    (mg lg : Tgid) (gs ks : List Tgid)
    → Distinct ks
    → contains mg ks ≡ true
    → contains lg ks ≡ true
    → count lg gs + 2 ≤ count mg gs
    → load ks (move_one mg lg gs) < load ks gs
move_one-load mg lg gs ks d m l h =
    squares (count mg gs) (count lg gs) (load ks gs) (sum_sq mid ks) (load ks (move_one mg lg gs)) h
      (rw (← mid_mg) (sum_sq_at (λ g. count g gs) mid mg (λ g e. rw e) ks d m))
      (rw (← last_lg, ← mid_lg)
        (sum_sq_at mid (λ g. count g (move_one mg lg gs)) lg last_off ks d l))
  where
    mid : Tgid → ℕ
    mid g = if g == mg then count mg gs - 1 else count g gs

    ne : mg ≢ lg
    ne e = absurd (
        let h' : count lg gs + 2 ≤ count lg gs = subst (λ x. count lg gs + 2 ≤ count x gs) e h in
        omega arith)

    moved :
        (g : Tgid)
        → count g (move_one mg lg gs)
          ≡ (if g == mg then count mg gs - 1 else if g == lg then count lg gs + 1 else count g gs)
    moved g = count-move_one mg lg gs g ne (omega arith)

    mid_mg : mid mg ≡ count mg gs - 1
    mid_mg = rw (beq_refl mg)

    mid_lg : mid lg ≡ count lg gs
    mid_lg = ground (arith, beq_ℤ_iff lg mg, ne)

    last_lg : count lg (move_one mg lg gs) ≡ count lg gs + 1
    last_lg = ground (arith, moved lg, beq_ℤ_iff lg mg, beq_ℤ_iff lg lg)

    last_off : (g : Tgid) → (g == lg) ≡ false → count g (move_one mg lg gs) ≡ mid g
    last_off g e = ground (arith, moved g)

-- What the loop leaves alone, and what it establishes.
pub record IsLeveled (c c' : ShardConfig) : Type 0 where
  pub same_num : c'.num ≡ c.num
  pub same_groups : c'.groups ≡ c.groups
  pub same_length : length c'.shards ≡ length c.shards
  pub assigned : All (λ g. contains g (keys c.groups) ≡ true) c'.shards
  pub balanced :
      (g h : Tgid)
      → contains g (keys c.groups) ≡ true
      → contains h (keys c.groups) ≡ true
      → count g c'.shards ≤ count h c'.shards + 1

-- One test of the loop: the loads are at most one apart, or the move lowers the load.
level-test :
    (c : ShardConfig)
    → IsAnalysis (keys c.groups) c.shards (analyze c)
    → (ltb_ℤ (analyze c).mn ((analyze c).ln +ℤ pos 2) ≡ false)
    → count (analyze c).lg c.shards + 2 ≤ count (analyze c).mg c.shards
unfolding ◌+ℤ◌
level-test c a h = ground (arith, a.most, a.least)

level-stop :
    (c : ShardConfig)
    → IsAnalysis (keys c.groups) c.shards (analyze c)
    → (ltb_ℤ (analyze c).mn ((analyze c).ln +ℤ pos 2) ≡ true)
    → count (analyze c).mg c.shards ≤ count (analyze c).lg c.shards + 1
unfolding ◌+ℤ◌
level-stop c a h = ground (arith, a.most, a.least)

-- With more fuel than load the loop ends.
pub level_total :
    (fuel : ℕ) (c : ShardConfig) (k : Tgid)
    → contains k (keys c.groups) ≡ true
    → Distinct (keys c.groups)
    → All (λ g. contains g (keys c.groups) ≡ true) c.shards
    → length c.shards < 257
    → load (keys c.groups) c.shards < fuel
    → (c' : ShardConfig) × (level fuel c ≡ returns c') × IsLeveled c c'
unfolding level
level_total zero c k m d a n h = absurd (omega arith)
level_total (suc fuel) c k m d a n h =
    let e : Extremes = analyze c in
    let found : IsAnalysis (keys c.groups) c.shards e = analyze-IsAnalysis c k m n in
    elim (Bool-cases (ltb_ℤ e.mn (e.ln +ℤ pos 2))) [
      | inl stop ↦ (
        c,
        rw stop,
        record {
          same_num = refl;
          same_groups = refl;
          same_length = refl;
          assigned = a;
          balanced = λ g h mg mh.
              omega (arith, level-stop c found stop, found.above g mg, found.below h mh);
        },
      )
      | inr more ↦
          let c1 : ShardConfig = record c { shards = move_one e.mg e.lg c.shards } in
          let (c', ran, l) =
            level_total fuel c1 k m d
              (All-move_one (keys c.groups) e.mg e.lg c.shards found.least_mem a)
              (omega (arith, length-move_one e.mg e.lg c.shards))
              (omega (
                arith,
                move_one-load e.mg e.lg c.shards (keys c.groups) d found.most_mem found.least_mem
                    (level-test c found more),
              )) in
          (
            c',
            rw more ran,
            record {
              same_num = l.same_num;
              same_groups = l.same_groups;
              same_length = l.same_length ∙ length-move_one e.mg e.lg c.shards;
              assigned = l.assigned;
              balanced = l.balanced;
            },
          )
    ]

-- A configuration whose loads are at most one apart is left as it is.
pub level-balanced :
    (fuel : ℕ) (c : ShardConfig) (k : Tgid)
    → contains k (keys c.groups) ≡ true
    → length c.shards < 257
    → ((g h : Tgid)
        → contains g (keys c.groups) ≡ true
        → contains h (keys c.groups) ≡ true
        → count g c.shards ≤ count h c.shards + 1)
    → level (suc fuel) c ≡ returns c
unfolding level ◌+ℤ◌
level-balanced fuel c k m n b =
    let found : IsAnalysis (keys c.groups) c.shards (analyze c) = analyze-IsAnalysis c k m n in
    let close = b (analyze c).mg (analyze c).lg found.most_mem found.least_mem in
    ground (arith, found.most, found.least, close)
